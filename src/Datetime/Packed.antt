-- ===== src/Datetime/Packed.antt =====
-- The packed dates of libs/datetime/src/datetime.cpp.
use ibm_cics_emulation.Base.{
  ℕ, zero, suc, ◌+◌, ◌-◌, ◌*◌, ◌/◌, ◌%◌, ◌≤◌, ◌<◌, ◌≡◌, sym, ap, ap₂, ◌∙◌, subst, arith, true,
  false, leb, Bool-cases, inl, inr, ℤ,
}
use ibm_cics_emulation.Result.{ok, ◌>>=◌}
use ibm_cics_emulation.Datetime.{
  DateTime, days_in_month, is_valid, find_month, from_packed_date, to_packed_date, packed_year,
  packed_day_of_year, make_datetime, to_eibdate, from_eibdate,
}
use ibm_cics_emulation.Datetime.Calendar.{
  IsDate, is_valid-IsDate, span, day_of_year_lem, month_fits, year_small, days_small,
}

-- The loop finds the month in which the day lies.
find_month_lem :
    (k left year m n : ℕ)
    → k < left
    → 1 ≤ n
    → n ≤ days_in_month year (m + k)
    → find_month left year m (span year m k + n) ≡ (m + k, n)
unfolding find_month span
find_month_lem zero zero year m n h lo hi = absurd (omega (arith, h))
find_month_lem zero (suc left) year m n h lo hi =
    let here : m + 0 ≡ m = omega arith in
    let stop : leb (0 + n) (days_in_month year m) ≡ true =
      ground (arith, hi, ap (days_in_month year) here) in
    rw (find_month, stop) (ap₂ (λ (a b : ℕ). (a, b)) (omega arith) (omega arith))
find_month_lem (suc k) zero year m n h lo hi = absurd (omega (arith, h))
find_month_lem (suc k) (suc left) year m n h lo hi =
    let dim : ℕ = days_in_month year m in
    let rest : ℕ = span year (suc m) k in
    let on : leb (dim + rest + n) dim ≡ false = ground (arith, lo) in
    let left_over : dim + rest + n - dim ≡ rest + n = omega arith in
    let next : m + 1 ≡ suc m = omega arith in
    let there : m + suc k ≡ suc m + k = omega arith in
    rw (find_month, on)
      (ap₂ (λ (a b : ℕ). find_month left year a b) next left_over
        ∙ find_month_lem k left year (suc m) n (omega (arith, h)) lo
            (subst (λ a. n ≤ days_in_month year a) there hi)
        ∙ ap (λ a. (a, n)) (sym there))

pub from_packed_date_lem :
    (tz : ℤ) (year month day : ℕ)
    → IsDate year month day
    → from_packed_date tz (year * 1000 + (span year 1 (month - 1) + day))
      ≡ make_datetime tz year month day 0 0 0 0
unfolding from_packed_date packed_year packed_day_of_year make_datetime
from_packed_date_lem tz year month day d =
    let doy : ℕ = span year 1 (month - 1) + day in
    let small : doy ≤ 366 =
      omega (arith, d.day_in, year_small year, month_fits year month d.month_in.0 d.month_in.1) in
    let whole : (year * 1000 + doy) / 1000 % 65536 ≡ year = omega (arith, small, d.year_in) in
    let part : (year * 1000 + doy) % 1000 % 65536 ≡ doy = omega (arith, small) in
    let again : 1 + (month - 1) ≡ month = omega (arith, d.month_in) in
    let short : day % 256 ≡ day =
      omega (arith, d.day_in, days_small year month d.month_in.0 d.month_in.1) in
    let found : find_month 12 year 1 doy ≡ (month, day) =
      find_month_lem (month - 1) 12 year 1 day (omega (arith, d.month_in)) d.day_in.0
        (subst (λ m. day ≤ days_in_month year m) (sym again) d.day_in.1)
      ∙ ap (λ m. (m, day)) again in
    ap₂ (λ (y n : ℕ). let f = find_month 12 y 1 n in make_datetime tz y f.0 (f.1 % 256) 0 0 0 0)
      whole part
    ∙ ap (λ (f : ℕ × ℕ). make_datetime tz year f.0 (f.1 % 256) 0 0 0 0) found
    ∙ ap (λ n. make_datetime tz year month n 0 0 0 0) short

-- A valid date survives its packed form, in a date and time that starts the day.
pub packed_date_round_trip :
    (tz : ℤ) (dt : DateTime)
    → is_valid dt ≡ true
    → (to_packed_date dt >>= λ p. ok (from_packed_date tz p))
      ≡ ok (make_datetime tz dt.year dt.month dt.day 0 0 0 0)
unfolding to_packed_date from_packed_date packed_year packed_day_of_year
packed_date_round_trip tz dt v =
    let d = is_valid-IsDate dt v in
    let fits = month_fits dt.year dt.month d.month_in.0 d.month_in.1 in
    rw (to_packed_date, day_of_year_lem dt d.month_in.0 d.month_in.1)
      (ap ok (from_packed_date_lem tz dt.year dt.month dt.day d))

-- From 1900 to 2099 a valid date survives the form of EIBDATE, in a date and time that starts the day.
pub eibdate_round_trip :
    (tz : ℤ) (dt : DateTime)
    → is_valid dt ≡ true
    → 1900 ≤ dt.year
    → dt.year ≤ 2099
    → (to_eibdate dt >>= λ p. ok (from_eibdate tz p))
      ≡ ok (make_datetime tz dt.year dt.month dt.day 0 0 0 0)
unfolding to_eibdate from_eibdate
eibdate_round_trip tz dt v lo hi =
    let d = is_valid-IsDate dt v in
    let doy : ℕ = span dt.year 1 (dt.month - 1) + dt.day in
    let small : doy ≤ 366 = omega (
      arith,
      d.day_in,
      year_small dt.year,
      month_fits dt.year dt.month d.month_in.0 d.month_in.1,
    ) in
    let packed = from_packed_date_lem tz dt.year dt.month dt.day d in
    elim (Bool-cases (leb 2000 dt.year)) [
      | inl late ↦
          rw (to_eibdate, day_of_year_lem dt d.month_in.0 d.month_in.1, late)
            (ap ok (ap (from_packed_date tz) (ground (arith, late, small, lo, hi)) ∙ packed))
      | inr early ↦
          rw (to_eibdate, day_of_year_lem dt d.month_in.0 d.month_in.1, early)
            (ap ok (ap (from_packed_date tz) (ground (arith, early, small, lo, hi)) ∙ packed))
    ]
