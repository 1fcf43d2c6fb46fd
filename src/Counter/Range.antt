-- ===== src/Counter/Range.antt =====
-- The value against the counter's bounds, call by call.
use ibm_cics_emulation.Base.{
  ◌≡◌, ◌⊎◌, inl, inr, false, arith, ℤ, pos, ◌+ℤ◌, ◌-ℤ◌, ◌≤ℤ◌, ltb_ℤ, ◌<ℤ◌, ltb_ℤ→lt, ltb_ℤ→le,
  Bool-cases,
}
use ibm_cics_emulation.Result.{ok, err, undefined, add64, ErrorCode, out_of_range}
use ibm_cics_emulation.Counter.{
  NamedCounter, get_by, next_value, int64_max, int64_min, checked, in_bounds,
}

-- The value lies in the bounds, and these are Int64 values.
pub record InRange (c : NamedCounter) : Type 0 where
  pub low : c.minimum ≤ℤ c.value
  pub high : c.value ≤ℤ c.maximum
  pub low64 : int64_min ≤ℤ c.minimum
  pub high64 : c.maximum ≤ℤ int64_max

-- How many values the bounds admit.
abbrev pub span : NamedCounter → ℤ
span c = c.maximum -ℤ c.minimum +ℤ pos 1

-- `checked` passes on what Int64 holds.
pub checked_ok : (z : ℤ) → int64_min ≤ℤ z → z ≤ℤ int64_max → checked z ≡ ok z
checked_ok z l h = ground arith

pub checked_undefined : (z : ℤ) → int64_max +ℤ pos 1 ≤ℤ z → checked z ≡ undefined
unfolding ◌+ℤ◌
checked_undefined z h = ground arith

-- The sum of `get` where Int64 holds it.
pub get_by_sum :
    (c : NamedCounter) (inc : ℤ)
    → int64_min ≤ℤ c.value +ℤ inc
    → c.value +ℤ inc ≤ℤ int64_max
    → next_value c inc ≡ in_bounds c (c.value +ℤ inc)
unfolding next_value
get_by_sum c inc l h = rw (checked_ok (c.value +ℤ inc) l h)

pub get_by_ok :
    (c : NamedCounter) (inc v : ℤ)
    → next_value c inc ≡ ok v
    → get_by c inc ≡ (record c { value = v; get_count = add64 c.get_count 1 }, ok c.value)
unfolding get_by
get_by_ok c inc v e = rw (e, get_by)

get_by_err :
    (c : NamedCounter) (inc : ℤ) (e : ErrorCode)
    → next_value c inc ≡ err e
    → get_by c inc ≡ (c, err e)
unfolding get_by
get_by_err c inc e h = rw (h, get_by)

pub get_by_undefined :
    (c : NamedCounter) (inc : ℤ) → next_value c inc ≡ undefined → get_by c inc ≡ (c, undefined)
unfolding get_by
get_by_undefined c inc h = rw (h, get_by)

-- A step of the increment around the cycle of the admitted values.
abbrev pub Around : NamedCounter → ℤ → ℤ → Type 0
Around c inc v =
    (v ≡ c.value +ℤ inc) ⊎ (v +ℤ span c ≡ c.value +ℤ inc) ⊎ (v ≡ c.value +ℤ inc +ℤ span c)

-- On a counter that does not wrap, and where the sum fits Int64, `get` either returns the value and
-- moves it by the step, or, if that would leave the bounds, reports OUT_OF_RANGE and changes nothing.
pub get_by_bounded :
    (c : NamedCounter) (inc : ℤ)
    → c.wrap ≡ false
    → int64_min ≤ℤ c.value +ℤ inc
    → c.value +ℤ inc ≤ℤ int64_max
    → ((get_by c inc
          ≡ (record c { value = c.value +ℤ inc; get_count = add64 c.get_count 1 }, ok c.value))
        × (c.minimum ≤ℤ c.value +ℤ inc)
        × (c.value +ℤ inc ≤ℤ c.maximum))
      ⊎ ((get_by c inc ≡ (c, err out_of_range))
          × ((c.maximum <ℤ c.value +ℤ inc) ⊎ (c.value +ℤ inc <ℤ c.minimum)))
unfolding in_bounds
get_by_bounded c inc w l h = elim (Bool-cases (ltb_ℤ c.maximum (c.value +ℤ inc))) [
  | inl past ↦ inr (
    get_by_err c inc out_of_range (rw (get_by_sum c inc l h, in_bounds, past, w)),
    inl (ltb_ℤ→lt c.maximum (c.value +ℤ inc) past),
  )
  | inr inside ↦ elim (Bool-cases (ltb_ℤ (c.value +ℤ inc) c.minimum)) [
    | inl below ↦ inr (
      get_by_err c inc out_of_range (rw (get_by_sum c inc l h, in_bounds, inside, below, w)),
      inr (ltb_ℤ→lt (c.value +ℤ inc) c.minimum below),
    )
    | inr within ↦ inl (
      get_by_ok c inc (c.value +ℤ inc) (rw (get_by_sum c inc l h, in_bounds, inside, within)),
      ltb_ℤ→le (c.value +ℤ inc) c.minimum within,
      ltb_ℤ→le c.maximum (c.value +ℤ inc) inside,
    )
  ]
]
