-- ===== src/Datetime/Calendar.antt =====
-- The calendar that the tables and the leap years of libs/datetime/src/datetime.cpp make.
use ibm_cics_emulation.Base.{
  ℕ, zero, suc, ◌+◌, ◌-◌, ◌≤◌, ◌≡◌, refl, ap, arith, true, none, some, ltb, if◌then◌else◌,
  get_elem?, Bool-cases, inl, inr,
}
use ibm_cics_emulation.Result.{ok}
use ibm_cics_emulation.Datetime.{
  DateTime, is_leap_year, days_in_month, days_in_year, day_of_year, is_valid, days_before_month,
}

-- A month is one of twelve.
pub months {ℓ} :
    (P : ℕ → Type ℓ)
    → P 1
    → P 2
    → P 3
    → P 4
    → P 5
    → P 6
    → P 7
    → P 8
    → P 9
    → P 10
    → P 11
    → P 12
    → (m : ℕ) → 1 ≤ m
    → m ≤ 12
    → P m
months P a b c d e f g h i j k l m lo hi = go m lo hi
  where
    go : (m : ℕ) → 1 ≤ m → m ≤ 12 → P m
    go zero lo hi = absurd (omega (arith, lo))
    go (suc zero) lo hi = a
    go (suc (suc zero)) lo hi = b
    go (suc (suc (suc zero))) lo hi = c
    go (suc (suc (suc (suc zero)))) lo hi = d
    go (suc (suc (suc (suc (suc zero))))) lo hi = e
    go (suc (suc (suc (suc (suc (suc zero)))))) lo hi = f
    go (suc (suc (suc (suc (suc (suc (suc zero))))))) lo hi = g
    go (suc (suc (suc (suc (suc (suc (suc (suc zero)))))))) lo hi = h
    go (suc (suc (suc (suc (suc (suc (suc (suc (suc zero))))))))) lo hi = i
    go (suc (suc (suc (suc (suc (suc (suc (suc (suc (suc zero)))))))))) lo hi = j
    go (suc (suc (suc (suc (suc (suc (suc (suc (suc (suc (suc zero))))))))))) lo hi = k
    go (suc (suc (suc (suc (suc (suc (suc (suc (suc (suc (suc (suc zero)))))))))))) lo hi = l
    go (suc (suc (suc (suc (suc (suc (suc (suc (suc (suc (suc (suc (suc m))))))))))))) lo hi =
        absurd (omega (arith, hi))

pub record IsDate (year month day : ℕ) : Type 0 where
  pub year_in : (1 ≤ year) × (year ≤ 9999)
  pub month_in : (1 ≤ month) × (month ≤ 12)
  pub day_in : (1 ≤ day) × (day ≤ days_in_month year month)

-- What `is_valid` says of the date.
pub is_valid-IsDate : (dt : DateTime) → is_valid dt ≡ true → IsDate dt.year dt.month dt.day
unfolding is_valid
is_valid-IsDate dt h = ground (arith, h)

-- The days of the k months from month m on.
unfoldable pub span : ℕ → ℕ → ℕ → ℕ
span year m zero = 0
span year m (suc k) = days_in_month year m + span year (suc m) k

abbrev pub leap_day : ℕ → ℕ
leap_day year = if is_leap_year year then 1 else 0

abbrev pub days_before : ℕ → ℕ
days_before m = elim (get_elem? days_before_month m) [ none ↦ 0 | some d ↦ d ]

abbrev pub Before : ℕ → ℕ → Type 0
Before year m = days_before m + (if ltb 2 m then leap_day year else 0) ≡ span year 1 (m - 1)

-- What is so of every month of a year.
abbrev Facts : ℕ → ℕ → Type 0
Facts year m =
    Before year m
    × (span year 1 (m - 1) + days_in_month year m ≤ days_in_year year)
    × (28 ≤ days_in_month year m)
    × (days_in_month year m ≤ 31)

facts : (year m : ℕ) → 1 ≤ m → m ≤ 12 → Facts year m
unfolding span days_in_month days_in_year
facts year m lo hi = elim (Bool-cases (is_leap_year year)) [
  | inl e ↦
      months (Facts year) (ground (arith, e)) (ground (arith, e)) (ground (arith, e))
        (ground (arith, e)) (ground (arith, e)) (ground (arith, e)) (ground (arith, e))
        (ground (arith, e)) (ground (arith, e)) (ground (arith, e)) (ground (arith, e))
        (ground (arith, e)) m lo hi
  | inr e ↦
      months (Facts year) (ground (arith, e)) (ground (arith, e)) (ground (arith, e))
        (ground (arith, e)) (ground (arith, e)) (ground (arith, e)) (ground (arith, e))
        (ground (arith, e)) (ground (arith, e)) (ground (arith, e)) (ground (arith, e))
        (ground (arith, e)) m lo hi
]

-- The table of the days before a month is the sum of the months before it.
pub before_month :
    (year m : ℕ)
    → 1 ≤ m
    → m ≤ 12
    → days_before m + (if ltb 2 m then leap_day year else 0) ≡ span year 1 (m - 1)
before_month year m lo hi = (facts year m lo hi).0

in_table : (m : ℕ) → 1 ≤ m → m ≤ 12 → get_elem? days_before_month m ≡ some (days_before m)
in_table =
    months (λ m. get_elem? days_before_month m ≡ some (days_before m)) refl refl refl refl refl refl
      refl refl refl refl refl refl

-- The day of the year counts the days of the months before.
pub day_of_year_lem :
    (dt : DateTime)
    → 1 ≤ dt.month
    → dt.month ≤ 12
    → day_of_year dt ≡ ok (span dt.year 1 (dt.month - 1) + dt.day)
unfolding day_of_year
day_of_year_lem dt lo hi =
    rw (in_table dt.month lo hi) (ap ok (ground (arith, before_month dt.year dt.month lo hi)))

-- A month ends within its year.
pub month_fits :
    (year m : ℕ) → 1 ≤ m → m ≤ 12 → span year 1 (m - 1) + days_in_month year m ≤ days_in_year year
month_fits year m lo hi = (facts year m lo hi).1

pub year_small : (year : ℕ) → days_in_year year ≤ 366
unfolding days_in_year
year_small year = ground arith

pub days_small : (year m : ℕ) → 1 ≤ m → m ≤ 12 → days_in_month year m ≤ 31
days_small year m lo hi = (facts year m lo hi).3

pub days_positive : (year m : ℕ) → 1 ≤ m → m ≤ 12 → 28 ≤ days_in_month year m
days_positive year m lo hi = (facts year m lo hi).2

-- The day of the year of a valid date and time is from 1 to the length of the year.
pub day_of_year_range :
    (dt : DateTime)
    → is_valid dt ≡ true
    → (n : ℕ) × (day_of_year dt ≡ ok n) × (1 ≤ n) × (n ≤ days_in_year dt.year)
day_of_year_range dt v =
    let d = is_valid-IsDate dt v in
    (
      span dt.year 1 (dt.month - 1) + dt.day,
      day_of_year_lem dt d.month_in.0 d.month_in.1,
      omega (arith, d.day_in),
      omega (arith, d.day_in, month_fits dt.year dt.month d.month_in.0 d.month_in.1),
    )
