-- ===== src/Datetime/Months.antt =====
-- Years and months added to a date: libs/datetime/src/datetime.cpp.
use ibm_cics_emulation.Base.{
  ℕ, ◌+◌, ◌-◌, ◌*◌, ◌/◌, ◌%◌, ◌≤◌, ◌<◌, ◌≡◌, refl, ap, ◌∙◌, arith, true, ltb, if◌then◌else◌, ℤ, pos,
  ◌+ℤ◌, ◌-ℤ◌,
}
use ibm_cics_emulation.Result.{ok}
use ibm_cics_emulation.Datetime.{DateTime, days_in_month, is_valid, quot, rem, add_months, in_int32}
use ibm_cics_emulation.Datetime.Calendar.{is_valid-IsDate, days_positive}
use ibm_cics_emulation.Datetime.Weekday.{pos_add, sub_pos}

-- The number of a month among all months.
abbrev month_index : DateTime → ℕ
month_index dt = dt.year * 12 + (dt.month - 1)

-- The same day of another month, or its last.
abbrev clamped : DateTime → ℕ → ℕ → DateTime
clamped dt year month = record dt {
  year = year;
  month = month;
  day = if ltb (days_in_month year month) dt.day then days_in_month year month else dt.day;
}

total_months :
    (dt : DateTime) (months : ℤ) (index : ℕ)
    → 1 ≤ dt.month
    → pos (month_index dt) +ℤ months ≡ pos index
    → pos (dt.year * 12 + dt.month) -ℤ pos 1 +ℤ months ≡ pos index
total_months dt months index h e =
    let front : dt.year * 12 + dt.month - 1 ≡ month_index dt = omega (arith, h) in
    ap (λ z. z +ℤ months) (sub_pos (dt.year * 12 + dt.month) 1 (omega (arith, h)) ∙ ap pos front)
    ∙ e

add_months_lem :
    (dt : DateTime) (months : ℤ) (index : ℕ)
    → 1 ≤ dt.month
    → pos (month_index dt) +ℤ months ≡ pos index
    → index < 120000
    → add_months dt months ≡ ok (clamped dt (index / 12) (index % 12 + 1))
unfolding add_months quot rem in_int32
add_months_lem dt months index h e hi =
    let year : index / 12 % 65536 ≡ index / 12 = omega (arith, hi) in
    let month : (index % 12 + 1) % 256 ≡ index % 12 + 1 = omega arith in
    let small : ltb index 2147483648 ≡ true = ground (arith, hi) in
    rw (add_months, total_months dt months index h e, pos_add (index % 12) 1, year, month, small)
      refl

clamped-is_valid :
    (dt : DateTime) (year month : ℕ)
    → is_valid dt ≡ true
    → 1 ≤ year
    → year ≤ 9999
    → 1 ≤ month
    → month ≤ 12
    → is_valid (clamped dt year month) ≡ true
unfolding is_valid
clamped-is_valid dt year month v a b c d = ground (arith, v, days_positive year month c d)

-- Months added to a valid date that stay within the years 1 to 9999 give the valid date that many
-- months on, on the same day or the last of its month if that is earlier, and with everything else of the date
-- and time as it was.
pub add_months-is_valid :
    (dt : DateTime) (months : ℤ) (index : ℕ)
    → is_valid dt ≡ true
    → pos (month_index dt) +ℤ months ≡ pos index
    → 12 ≤ index
    → index < 120000
    → (r : DateTime) × (add_months dt months ≡ ok r)
      × (is_valid r ≡ true)
      × (month_index r ≡ index)
      × (r.day ≡ (
          if ltb (days_in_month r.year r.month) dt.day
          then days_in_month r.year r.month
          else dt.day))
      × (r ≡ record dt { year = r.year; month = r.month; day = r.day })
add_months-is_valid dt months index v e lo hi =
    let d = is_valid-IsDate dt v in
    (
      clamped dt (index / 12) (index % 12 + 1),
      add_months_lem dt months index d.month_in.0 e hi,
      clamped-is_valid dt (index / 12) (index % 12 + 1) v (omega (arith, lo)) (omega (arith, hi))
          (omega arith) (omega arith),
      omega arith,
      refl,
      refl,
    )
