-- ===== src/Counter/Manager.antt =====
-- CounterManager and the EXEC CICS commands over it: libs/named-counter/src/counter.cpp. The singleton
-- is the record that every operation takes and returns.
pub mod Laws
mod Tests
pub mod History
use ibm_cics_emulation.Base.{
  ℕ, ◌+◌, ◌%◌, Bool, true, false, none, some, Option, List, [], ◌∷◌, if◌then◌else◌, length, map,
  Bytes, Dict, lookup, insert, erase, codes, bytes_eq, ℤ,
}
use ibm_cics_emulation.Result.{
  Result, ok, err, undefined, invreq, notfnd, not_initialized, add64, is_ok, ⊤,
}
use ibm_cics_emulation.Counter.{NamedCounter, CounterOptions, default_options, update}
use ibm_cics_emulation.Counter.Pool.{
  CounterPool, define, get_counter, delete_counter, at_counter, pool_get, pool_get_by, pool_put,
}

pub record CounterStats : Type 0 where
  pub counters_defined : ℕ
  pub counters_deleted : ℕ
  pub gets_executed : ℕ
  pub puts_executed : ℕ
  pub updates_executed : ℕ
  pub wrap_arounds : ℕ

abbrev pub no_stats : CounterStats
no_stats = record {
  counters_defined = 0;
  counters_deleted = 0;
  gets_executed = 0;
  puts_executed = 0;
  updates_executed = 0;
  wrap_arounds = 0;
}

pub record CounterManager : Type 0 where
  pub initialized : Bool
  pub pools : Dict CounterPool
  pub stats : CounterStats

abbrev pub default_name : Bytes
default_name = codes "DFHCNTR"

abbrev pub new_pool : Bytes → CounterPool
new_pool name = record { name = name; counters = [] }

pub initialize : CounterManager → CounterManager
initialize m = if m.initialized then m else record {
  initialized = true;
  pools = insert default_name (new_pool default_name) [];
  stats = no_stats;
}

pub shutdown : CounterManager → CounterManager
shutdown m = record m { pools = []; initialized = false }

pub create_pool : CounterManager → Bytes → CounterManager × Result Bytes
create_pool m name = elim (lookup name m.pools) [
  | some _ ↦ (m, ok name)
  | none ↦ (record m { pools = insert name (new_pool name) m.pools }, ok name)
]

pub get_pool : CounterManager → Bytes → Result CounterPool
get_pool m name = elim (lookup name m.pools) [ none ↦ err notfnd | some p ↦ ok p ]

pub delete_pool : CounterManager → Bytes → CounterManager × Result ⊤
delete_pool m name =
    if bytes_eq name default_name then (m, err invreq) else elim (lookup name m.pools) [
      | none ↦ (m, err notfnd)
      | some _ ↦ (record m { pools = erase name m.pools }, ok tt)
    ]

-- A call on the pool of a name; `missing` is the error where there is none.
abbrev pub at_pool :
    {A : Type 0}
    → CounterManager
    → Bytes
    → Result A
    → (CounterPool → CounterPool × Result A)
    → CounterManager × Result A
at_pool m name missing call = elim (lookup name m.pools) [
  | none ↦ (m, missing)
  | some p ↦ let (p', r) = call p in (record m { pools = insert name p' m.pools }, r)
]

-- `if (result.is_success()) ++stats_.…`
abbrev pub counting :
    {A : Type 0}
    → (CounterStats → CounterStats)
    → CounterManager × Result A
    → CounterManager × Result A
counting tally (m, ok a) = (record m { stats = tally m.stats }, ok a)
counting tally (m, err e) = (m, err e)
counting tally (m, undefined) = (m, undefined)

abbrev tally_get : CounterStats → CounterStats
tally_get s = record s { gets_executed = add64 s.gets_executed 1 }

abbrev tally_put : CounterStats → CounterStats
tally_put s = record s { puts_executed = add64 s.puts_executed 1 }

abbrev answer_initial : ℤ → CounterManager × Result Bytes → CounterManager × Result ℤ
answer_initial initial (m, ok _) = (m, ok initial)
answer_initial initial (m, err e) = (m, err e)
answer_initial initial (m, undefined) = (m, undefined)

pub define_counter : CounterManager → Bytes → ℤ → CounterOptions → CounterManager × Result ℤ
define_counter m name initial opts = answer_initial initial (
    counting (λ s. record s { counters_defined = add64 s.counters_defined 1 })
      (at_pool m default_name (err not_initialized) (λ p. define p name initial opts)))

pub get : CounterManager → Bytes → CounterManager × Result ℤ
get m name =
    counting tally_get (at_pool m default_name (err not_initialized) (λ p. pool_get p name))

pub get_by : CounterManager → Bytes → ℤ → CounterManager × Result ℤ
get_by m name increment =
    counting tally_get
      (at_pool m default_name (err not_initialized) (λ p. pool_get_by p name increment))

pub put : CounterManager → Bytes → ℤ → CounterManager × Result ⊤
put m name value =
    counting tally_put (at_pool m default_name (err not_initialized) (λ p. pool_put p name value))

pub update_counter : CounterManager → Bytes → ℤ → ℤ → CounterManager × Result ℤ
update_counter m name expected new_value =
    counting (λ s. record s { updates_executed = add64 s.updates_executed 1 })
      (at_pool m default_name (err not_initialized)
        (λ p. at_counter p name (λ c. update c expected new_value)))

pub delete : CounterManager → Bytes → CounterManager × Result ⊤
delete m name =
    counting (λ s. record s { counters_deleted = add64 s.counters_deleted 1 })
      (at_pool m default_name (err not_initialized) (λ p. delete_counter p name))

-- `get(pool_name, name)` and `put(pool_name, name, value)`
pub get_in : CounterManager → Bytes → Bytes → CounterManager × Result ℤ
get_in m pool_name name =
    counting tally_get (at_pool m pool_name (err notfnd) (λ p. pool_get p name))

pub put_in : CounterManager → Bytes → Bytes → ℤ → CounterManager × Result ⊤
put_in m pool_name name value =
    counting tally_put (at_pool m pool_name (err notfnd) (λ p. pool_put p name value))

-- `query(name)`: the counter whose fields the CounterInfo copies.
pub query : CounterManager → Bytes → Result NamedCounter
unfolding get_counter
query m name = elim (lookup default_name m.pools) [
  | none ↦ err not_initialized
  | some p ↦ get_counter p name
]

pub list_pools : CounterManager → List Bytes
list_pools m = map (λ e. e.0) m.pools
