-- ===== src/Counter/Limits.antt =====
-- Where Int64 ends, where a long step lands, and the calls that check a new value.
use ibm_cics_emulation.Base.{
  ◌≡◌, refl, true, arith, ℤ, pos, ◌+ℤ◌, ◌-ℤ◌, ◌≤ℤ◌, ltb_ℤ, int_laws, ◌<ℤ◌, lt→ltb_ℤ, ap, pos_part,
  neg_part,
}
use ibm_cics_emulation.Result.{ok, undefined, ◌>>=◌}
use ibm_cics_emulation.Counter.{
  NamedCounter, CounterOptions, get_by, put, update, redefine, next_value, int64_max, int64_min,
  in_bounds, wrap_past_maximum,
}
use ibm_cics_emulation.Counter.Range.{
  InRange, span, checked_ok, checked_undefined, get_by_sum, get_by_ok, get_by_undefined,
}

-- The sum is formed before it is compared: at the default maximum, which is the largest Int64, a
-- `get` that would pass the maximum has no defined behaviour, where the code means OUT_OF_RANGE.
pub get_by_overflows :
    (c : NamedCounter) (inc : ℤ)
    → c.maximum ≡ int64_max
    → c.maximum <ℤ c.value +ℤ inc
    → get_by c inc ≡ (c, undefined)
unfolding next_value
get_by_overflows c inc m h =
    let bound : int64_max +ℤ pos 1 ≤ℤ c.value +ℤ inc =
      omega (int_laws, ap pos_part m, ap neg_part m) in
    get_by_undefined c inc (rw (checked_undefined (c.value +ℤ inc) bound))

-- A wrapping counter leaves its bounds when the step is longer than the span: it subtracts the span
-- once, and stores what is left, above the maximum.
pub get_by_escapes :
    (c : NamedCounter) (inc : ℤ)
    → InRange c
    → c.wrap ≡ true
    → pos 0 ≤ℤ c.maximum
    → c.value +ℤ inc ≤ℤ int64_max
    → c.maximum +ℤ span c <ℤ c.value +ℤ inc
    → let (c', r) = get_by c inc in (r ≡ ok c.value) × (c.maximum <ℤ c'.value)
unfolding in_bounds wrap_past_maximum
get_by_escapes c inc r w m h e =
    let next = c.value +ℤ inc in
    let past : ltb_ℤ c.maximum next ≡ true =
      lt→ltb_ℤ c.maximum next (omega (int_laws, r.low, r.high)) in
    let a = checked_ok (next -ℤ c.maximum) (omega (int_laws, r.low, r.high)) (omega int_laws) in
    let b =
      checked_ok (next -ℤ c.maximum -ℤ pos 1) (omega (int_laws, r.low, r.high)) (omega int_laws) in
    let d =
      checked_ok (c.minimum +ℤ (next -ℤ c.maximum -ℤ pos 1))
        (omega (int_laws, r.low, r.high, r.low64)) (omega (int_laws, r.low, r.high)) in
    rw
      (get_by_ok c inc (c.minimum +ℤ (next -ℤ c.maximum -ℤ pos 1)) (
        rw (
          get_by_sum c inc (omega (int_laws, r.low, r.high, r.low64, r.high64)) h,
          in_bounds,
          past,
          w,
          wrap_past_maximum,
          a,
          ◌>>=◌,
          b,
          ◌>>=◌,
          d,
        )))
      (refl, omega int_laws)

pub put-InRange : (c : NamedCounter) (v : ℤ) → InRange c → InRange (put c v).0
unfolding put
put-InRange c v r = ground (arith, r)

pub update-InRange : (c : NamedCounter) (e v : ℤ) → InRange c → InRange (update c e v).0
unfolding update
update-InRange c e v r = ground (arith, r)

pub redefine-InRange :
    (c : NamedCounter) (o : CounterOptions)
    → int64_min ≤ℤ o.minimum
    → o.maximum ≤ℤ int64_max
    → InRange c
    → InRange (redefine c o).0
unfolding redefine
redefine-InRange c o l h r = ground (arith, r)
