-- ===== src/Datetime/Weekday.antt =====
-- The day of the week against the number of days since the start of the year 1:
-- libs/datetime/src/datetime.cpp.
use ibm_cics_emulation.Base.{
  ℕ, suc, ◌+◌, ◌-◌, ◌*◌, ◌/◌, ◌%◌, ◌≤◌, ◌<◌, ◌≡◌, subst, ap, ◌∙◌, arith, true, ltb, leb,
  if◌then◌else◌, Bool-cases, inl, inr, pos, negsuc, ◌+ℤ◌, ◌-ℤ◌,
}
use ibm_cics_emulation.Gdg.{to_unsigned}
use ibm_cics_emulation.Datetime.{DateTime, day_of_week, is_leap_year, is_valid, quot, rem, u8}
use ibm_cics_emulation.Datetime.Calendar.{
  is_valid-IsDate, span, months, leap_day, before_month, Before,
}

-- The number of days up to and with the date; the day 1 is a Monday.
pub ordinal : ℕ → ℕ → ℕ → ℕ
ordinal year month day =
    let past = year - 1 in
    past * 365 + past / 4 - past / 100 + past / 400 + span year 1 (month - 1) + day

pub pos_add : (a b : ℕ) → pos a +ℤ pos b ≡ pos (a + b)
unfolding ◌+ℤ◌
pos_add a b = ground arith

pub sub_pos : (a b : ℕ) → b ≤ a → pos a -ℤ pos b ≡ pos (a - b)
unfolding ◌-ℤ◌
sub_pos a b h = ground (arith, h)

sub_neg : (a b : ℕ) → a < b → pos a -ℤ pos b ≡ negsuc (b - a - 1)
unfolding ◌-ℤ◌
sub_neg a b h = ground (arith, h)

to_sunday : (r : ℕ) → r ≤ 6 → pos 0 -ℤ pos r +ℤ pos 6 ≡ pos (6 - r)
unfolding ◌-ℤ◌ ◌+ℤ◌
to_sunday r h = ground (arith, h)

-- The remainders of a difference, with the 6 that make Sunday 0.
remainder :
    (a b : ℕ) → to_unsigned u8 (rem (rem (pos a -ℤ pos b) 7 +ℤ pos 6) 7) ≡ (a + 6 * b + 6) % 7
unfolding rem
remainder a b = elim (Bool-cases (leb b a)) [
  | inl le ↦
      let below : b ≤ a = ground (arith, le) in
      ap (λ z. to_unsigned u8 (rem (rem z 7 +ℤ pos 6) 7)) (sub_pos a b below)
      ∙ ap (λ z. to_unsigned u8 (rem z 7)) (pos_add ((a - b) % 7) 6)
      ∙ omega (arith, below)
  | inr gt ↦
      let above : a < b = ground (arith, gt) in
      let r : ℕ = suc (b - a - 1) % 7 in
      ap (λ z. to_unsigned u8 (rem (rem z 7 +ℤ pos 6) 7)) (sub_neg a b above)
      ∙ ap (λ z. to_unsigned u8 (rem z 7)) (to_sunday r (omega arith))
      ∙ omega (arith, above)
]

-- Zeller's congruence for a year that begins in March, on numbers.
zeller : ℕ → ℕ → ℕ → ℕ
zeller y m day =
    let k = y % 100 in
    let j = y / 100 in (day + 13 * (m + 1) / 5 + k + k / 4 + j / 4 + 6 * (j + j) + 6) % 7

week :
    (y m day : ℕ)
    → (let k = rem (pos y) 100 in
        let j = quot (pos y) 100 in
        let h = rem (pos (day + 13 * (m + 1) / 5) +ℤ k +ℤ quot k 4 +ℤ quot j 4 -ℤ (j +ℤ j)) 7 in
        to_unsigned u8 (rem (h +ℤ pos 6) 7))
      ≡ zeller y m day
unfolding zeller quot rem
week y m day =
    let k = y % 100 in
    let j = y / 100 in
    let d = day + 13 * (m + 1) / 5 in
    rw (pos_add d k, pos_add (d + k) (k / 4), pos_add (d + k + k / 4) (j / 4), pos_add j j)
      (remainder (d + k + k / 4 + j / 4) (j + j))

day_of_week-zeller :
    (dt : DateTime)
    → 1 ≤ dt.year
    → day_of_week dt ≡ (
        if ltb dt.month 3
        then zeller (dt.year - 1) (dt.month + 12) dt.day
        else zeller dt.year dt.month dt.day)
unfolding day_of_week zeller
day_of_week-zeller dt h = elim (Bool-cases (ltb dt.month 3)) [
  | inl early ↦
      rw (day_of_week, early, sub_pos dt.year 1 h) (week (dt.year - 1) (dt.month + 12) dt.day)
  | inr late ↦ rw (day_of_week, late) (week dt.year dt.month dt.day)
]

-- A century has 36524 days and the leap days of the 4-year periods.
centuries : (y : ℕ) → (y / 4 ≡ 25 * (y / 100) + y % 100 / 4) × (y / 400 ≡ y / 100 / 4)
centuries y = (omega arith, omega arith)

-- With the leap day a year has the number of leap days up to its end.
leap_days :
    (y : ℕ) → (y / 4 - y / 100 + y / 400) + leap_day (suc y) ≡ suc y / 4 - suc y / 100 + suc y / 400
unfolding is_leap_year
leap_days y = ground arith

abbrev Agrees : ℕ → ℕ → ℕ → Type 0
Agrees p day m =
    (if ltb m 3 then zeller p (m + 12) day else zeller (suc p) m day) ≡ ordinal (suc p) m day % 7

agrees : (p day m : ℕ) → 1 ≤ m → m ≤ 12 → Agrees p day m
unfolding zeller ordinal
agrees p day =
    let this = centuries p in
    let next = centuries (suc p) in
    let leap = leap_days p in
    let before : (m : ℕ) → 1 ≤ m → m ≤ 12 → Before (suc p) m = before_month (suc p) in
    months (Agrees p day) (omega (arith, this, next, leap, before 1 (omega arith) (omega arith)))
      (omega (arith, this, next, leap, before 2 (omega arith) (omega arith)))
      (omega (arith, this, next, leap, before 3 (omega arith) (omega arith)))
      (omega (arith, this, next, leap, before 4 (omega arith) (omega arith)))
      (omega (arith, this, next, leap, before 5 (omega arith) (omega arith)))
      (omega (arith, this, next, leap, before 6 (omega arith) (omega arith)))
      (omega (arith, this, next, leap, before 7 (omega arith) (omega arith)))
      (omega (arith, this, next, leap, before 8 (omega arith) (omega arith)))
      (omega (arith, this, next, leap, before 9 (omega arith) (omega arith)))
      (omega (arith, this, next, leap, before 10 (omega arith) (omega arith)))
      (omega (arith, this, next, leap, before 11 (omega arith) (omega arith)))
      (omega (arith, this, next, leap, before 12 (omega arith) (omega arith)))

-- The day of the week that `day_of_week` computes for a valid date is the number of its day since the
-- start of the year 1, modulo 7.
pub day_of_week-ordinal :
    (dt : DateTime) → is_valid dt ≡ true → day_of_week dt ≡ ordinal dt.year dt.month dt.day % 7
day_of_week-ordinal dt v =
    let d = is_valid-IsDate dt v in
    let p : ℕ = dt.year - 1 in
    let year : suc p ≡ dt.year = omega (arith, d.year_in) in
    day_of_week-zeller dt d.year_in.0
    ∙ subst
        (λ y.
          (if ltb dt.month 3 then zeller p (dt.month + 12) dt.day else zeller y dt.month dt.day)
          ≡ ordinal y dt.month dt.day % 7)
        year (agrees p dt.day dt.month d.month_in.0 d.month_in.1)
