-- ===== src/Counter/Pool.antt =====
-- CounterPool: libs/named-counter/src/counter.cpp. A counter's pointer is its name here.
use ibm_cics_emulation.Base.{
  ℕ, ◌%◌, Bool, none, some, List, ltb, if◌then◌else◌, length, map, Bytes, Dict, lookup, insert,
  erase, contains, ℤ,
}
use ibm_cics_emulation.Result.{Result, ok, err, invreq, duplicate_key, notfnd, u32, ⊤}
use ibm_cics_emulation.Counter.{NamedCounter, CounterOptions, new_counter, get, get_by, put}

abbrev pub max_counter_name : ℕ
max_counter_name = 16

pub record CounterPool : Type 0 where
  pub name : Bytes
  pub counters : Dict NamedCounter

unfoldable pub define : CounterPool → Bytes → ℤ → CounterOptions → CounterPool × Result Bytes
define p counter_name initial opts =
    if ltb max_counter_name (length counter_name)
    then (p, err invreq)
    else if contains counter_name p.counters
    then (p, err duplicate_key)
    else (
      record p {
        counters = insert counter_name (new_counter counter_name initial opts) p.counters;
      },
      ok counter_name,
    )

unfoldable pub get_counter : CounterPool → Bytes → Result NamedCounter
get_counter p name = elim (lookup name p.counters) [ none ↦ err notfnd | some c ↦ ok c ]

unfoldable pub delete_counter : CounterPool → Bytes → CounterPool × Result ⊤
delete_counter p name =
    if contains name p.counters
    then (record p { counters = erase name p.counters }, ok tt)
    else (p, err notfnd)

unfoldable pub exists : CounterPool → Bytes → Bool
exists p name = contains name p.counters

-- A call through the pointer that `get_counter` returns.
abbrev pub at_counter :
    {A : Type 0}
    → CounterPool
    → Bytes
    → (NamedCounter → NamedCounter × Result A)
    → CounterPool × Result A
at_counter p name call = elim (lookup name p.counters) [
  | none ↦ (p, err notfnd)
  | some c ↦ let (c', r) = call c in (record p { counters = insert name c' p.counters }, r)
]

-- `get(name)`, `get(name, increment)`, `put(name, value)`
unfoldable pub pool_get : CounterPool → Bytes → CounterPool × Result ℤ
pool_get p name = at_counter p name get

unfoldable pub pool_get_by : CounterPool → Bytes → ℤ → CounterPool × Result ℤ
pool_get_by p name increment = at_counter p name (λ c. get_by c increment)

unfoldable pub pool_put : CounterPool → Bytes → ℤ → CounterPool × Result ⊤
pool_put p name value = at_counter p name (λ c. put c value)

unfoldable pub list_counters : CounterPool → List Bytes
list_counters p = map (λ e. e.0) p.counters

unfoldable pub count : CounterPool → ℕ
count p = length p.counters % u32
