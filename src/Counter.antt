-- ===== src/Counter.antt =====
-- NamedCounter: libs/named-counter/src/counter.cpp and include/cics/counter/counter.hpp. A counter's
-- values are Int64: every signed addition and subtraction of the source is checked here, and one that
-- leaves the range of Int64 makes the call `undefined`. The creation and access times are left out.
-- A call runs under the counter's mutex, so it is one step.
pub mod Range
pub mod Limits
pub mod Draw
pub mod Pool
pub mod Manager
mod Tests
use ibm_cics_emulation.Base.{
  ℕ, ◌-◌, ◌^◌, Bool, true, false, not, ◌||◌, if◌then◌else◌, Bytes, ℤ, pos, negsuc, ◌+ℤ◌, ◌-ℤ◌,
  ltb_ℤ,
}
use ibm_cics_emulation.Result.{
  Result, ok, err, undefined, ◌>>=◌, out_of_range, invalid_state, invreq, add64, ⊤,
}

abbrev pub int64_max : ℤ
int64_max = pos (2 ^ 63 - 1)

abbrev pub int64_min : ℤ
int64_min = negsuc (2 ^ 63 - 1)

-- A signed result, undefined where Int64 cannot hold it.
abbrev pub checked : ℤ → Result ℤ
checked z = if ltb_ℤ int64_max z || ltb_ℤ z int64_min then undefined else ok z

pub record CounterOptions : Type 0 where
  pub minimum : ℤ
  pub maximum : ℤ
  pub increment : ℤ
  pub wrap : Bool
  pub recoverable : Bool

abbrev pub default_options : CounterOptions
default_options = record {
  minimum = pos 0;
  maximum = int64_max;
  increment = pos 1;
  wrap = false;
  recoverable = false;
}

pub record NamedCounter : Type 0 where
  pub name : Bytes
  pub value : ℤ
  pub minimum : ℤ
  pub maximum : ℤ
  pub increment : ℤ
  pub wrap : Bool
  pub recoverable : Bool
  pub get_count : ℕ
  pub update_count : ℕ

unfoldable pub new_counter : Bytes → ℤ → CounterOptions → NamedCounter
new_counter name initial_value opts = record {
  name = name;
  value = initial_value;
  minimum = opts.minimum;
  maximum = opts.maximum;
  increment = opts.increment;
  wrap = opts.wrap;
  recoverable = opts.recoverable;
  get_count = 0;
  update_count = 0;
}

-- `minimum_ + (next - maximum_ - 1)`
wrap_past_maximum : NamedCounter → ℤ → Result ℤ
wrap_past_maximum c next = do
  over ← checked (next -ℤ c.maximum)
  excess ← checked (over -ℤ pos 1)
  checked (c.minimum +ℤ excess)

-- `maximum_ - (minimum_ - next - 1)`
wrap_past_minimum : NamedCounter → ℤ → Result ℤ
wrap_past_minimum c next = do
  under ← checked (c.minimum -ℤ next)
  excess ← checked (under -ℤ pos 1)
  checked (c.maximum -ℤ excess)

-- The bounds check of `NamedCounter::get(Int64)`.
pub in_bounds : NamedCounter → ℤ → Result ℤ
unfolding wrap_past_maximum wrap_past_minimum
in_bounds c next =
    if ltb_ℤ c.maximum next
    then (if c.wrap then wrap_past_maximum c next else err out_of_range)
    else if ltb_ℤ next c.minimum
    then (if c.wrap then wrap_past_minimum c next else err out_of_range)
    else ok next

pub next_value : NamedCounter → ℤ → Result ℤ
unfolding in_bounds
next_value c inc = do next ← checked (c.value +ℤ inc); in_bounds c next

-- `get(Int64)`
unfoldable pub get_by : NamedCounter → ℤ → NamedCounter × Result ℤ
unfolding next_value
get_by c inc = elim (next_value c inc) [
  | ok next ↦ (record c { value = next; get_count = add64 c.get_count 1 }, ok c.value)
  | err e ↦ (c, err e)
  | undefined ↦ (c, undefined)
]

-- `get()`
unfoldable pub get : NamedCounter → NamedCounter × Result ℤ
get c = get_by c c.increment

unfoldable pub put : NamedCounter → ℤ → NamedCounter × Result ⊤
put c value =
    if ltb_ℤ value c.minimum || ltb_ℤ c.maximum value
    then (c, err out_of_range)
    else (record c { value = value }, ok tt)

abbrev eqb_ℤ : ℤ → ℤ → Bool
eqb_ℤ a b = not (ltb_ℤ a b || ltb_ℤ b a)

unfoldable pub update : NamedCounter → ℤ → ℤ → NamedCounter × Result ℤ
update c expected new_value =
    if ltb_ℤ new_value c.minimum || ltb_ℤ c.maximum new_value
    then (c, err out_of_range)
    else if not (eqb_ℤ c.value expected)
    then (c, err invalid_state)
    else (record c { value = new_value; update_count = add64 c.update_count 1 }, ok c.value)

unfoldable pub redefine : NamedCounter → CounterOptions → NamedCounter × Result ⊤
redefine c opts =
    if ltb_ℤ c.value opts.minimum || ltb_ℤ opts.maximum c.value then (c, err invreq) else (
      record c {
        minimum = opts.minimum;
        maximum = opts.maximum;
        increment = opts.increment;
        wrap = opts.wrap;
        recoverable = opts.recoverable;
      },
      ok tt,
    )
