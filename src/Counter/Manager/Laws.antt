-- ===== src/Counter/Manager/Laws.antt =====
-- The manager's commands: the default pool, the counter that a command reaches, the statistics.
use ibm_cics_emulation.Base.{
  ◌≡◌, ◌⊎◌, inl, inr, none, some, Option, if◌then◌else◌, arith, length, ◌≤◌, Bytes, lookup, insert,
  contains, bytes_eq, lookup-insert, lookup-insert_self, Option-cases, ℤ, ◌<ℤ◌,
}
use ibm_cics_emulation.Result.{ok, err, out_of_range}
use ibm_cics_emulation.Counter.{NamedCounter, CounterOptions, new_counter}
use ibm_cics_emulation.Counter
use ibm_cics_emulation.Counter.Range.{InRange}
use ibm_cics_emulation.Counter.Pool.{CounterPool, define, pool_get, max_counter_name}
use ibm_cics_emulation.Counter.Manager.{CounterManager, define_counter, get, default_name}

-- The counter of a name in the default pool.
abbrev pub counter_of : CounterManager → Bytes → Option NamedCounter
counter_of m name = elim (lookup default_name m.pools) [
  | none ↦ none
  | some p ↦ lookup name p.counters
]

-- `get` runs the counter's own `get` on the counter of the name, passes its result on, and leaves the
-- counters of all other names as they are.
pub get_reaches :
    (m : CounterManager) (name other : Bytes) (c : NamedCounter)
    → counter_of m name ≡ some c
    → let (m', r) = get m name in
      (r ≡ (Counter.get c).1)
      × (counter_of m' other
          ≡ (if bytes_eq name other then some (Counter.get c).0 else counter_of m other))
unfolding get pool_get
get_reaches m name other c e = elim (Option-cases (lookup default_name m.pools)) [
  | inl absent ↦ ground (arith, absent)
  | inr (p, there) ↦
      let p' : CounterPool = record p { counters = insert name (Counter.get c).0 p.counters } in
      ground (
        arith,
        there,
        lookup-insert name other (Counter.get c).0 p.counters,
        lookup-insert_self default_name p' m.pools,
      )
]

-- A counter that was just defined is reached by its name, with the initial value and the options, and
-- `get` on it then is the counter's `get`; the counters of all other names stay.
pub define_reaches :
    (m : CounterManager) (name other : Bytes) (initial v : ℤ) (opts : CounterOptions)
    → (define_counter m name initial opts).1 ≡ ok v
    → let m' = (define_counter m name initial opts).0 in
      (counter_of m name ≡ none)
      × (counter_of m' other ≡ (
          if bytes_eq name other then some (new_counter name initial opts) else counter_of m other))
      × (v ≡ initial)
unfolding define_counter define contains
define_reaches m name other initial v opts h = elim (Option-cases (lookup default_name m.pools)) [
  | inl absent ↦ ground (arith, absent)
  | inr (p, there) ↦
      let p' : CounterPool = record p {
        counters = insert name (new_counter name initial opts) p.counters;
      } in
      ground (
        arith,
        there,
        lookup-insert name other (new_counter name initial opts) p.counters,
        lookup-insert_self default_name p' m.pools,
      )
]

-- A counter is defined whatever its initial value: also outside the bounds that its options give,
-- where `put` and `update` would refuse the value.
pub define_unchecked :
    (m : CounterManager) (p : CounterPool) (name : Bytes) (initial : ℤ) (opts : CounterOptions)
    → lookup default_name m.pools ≡ some p
    → lookup name p.counters ≡ none
    → length name ≤ max_counter_name
    → (initial <ℤ opts.minimum) ⊎ (opts.maximum <ℤ initial)
    → ((define_counter m name initial opts).1 ≡ ok initial)
      × ¬ InRange (new_counter name initial opts)
      × ((Counter.put (new_counter name initial opts) initial).1 ≡ err out_of_range)
unfolding define_counter define contains new_counter Counter.put
define_unchecked m p name initial opts there free short out = (
  ground (arith, there, free, short),
  (λ r. omega (arith, r.low, r.high, out)),
  ground (arith, out),
)
