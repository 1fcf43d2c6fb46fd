-- ===== src/Datetime.antt =====
-- Dates, times and their CICS forms: libs/datetime/src/datetime.cpp and its header. The integers of
-- fixed width are numbers that the casts reduce; `year * 12` and the like are 32-bit sums that only
-- `add_months` can take past their range. What the system says of the local time zone is a parameter.
pub mod Calendar
pub mod Packed
pub mod Weekday
pub mod Months
pub mod Duration
pub mod Iso
mod Tests
use ibm_cics_emulation.Base.{
  ℕ, zero, suc, ◌+◌, ◌-◌, ◌*◌, ◌/◌, ◌%◌, Bool, true, false, not, ◌&&◌, ◌||◌, Option, none, some,
  List, [], ◌∷◌, ltb, leb, ◌==◌, if◌then◌else◌, get_elem?, ℤ, pos, negsuc, pos_part, neg_part, ◌+ℤ◌,
  ◌-ℤ◌,
}
use ibm_cics_emulation.Result.{Result, ok, undefined, ◌>>=◌}
use ibm_cics_emulation.Gdg.{to_unsigned}

abbrev pub u8 : ℕ
u8 = 256

abbrev pub u16 : ℕ
u16 = 65536

pub record DateTime : Type 0 where
  pub year : ℕ
  pub month : ℕ
  pub day : ℕ
  pub hour : ℕ
  pub minute : ℕ
  pub second : ℕ
  pub millisecond : ℕ
  pub tz_offset_minutes : ℤ

-- DAYS_IN_MONTH.
abbrev pub month_days : List ℕ
month_days =
    0 ∷ (31 ∷ (28 ∷ (31 ∷ (30 ∷ (31 ∷ (30 ∷ (31 ∷ (31 ∷ (30 ∷ (31 ∷ (30 ∷ (31 ∷ []))))))))))))

-- DAYS_BEFORE_MONTH.
abbrev pub days_before_month : List ℕ
days_before_month =
    0
    ∷ (0 ∷ (31 ∷ (59 ∷ (90 ∷ (120 ∷ (151 ∷ (181 ∷ (212 ∷ (243 ∷ (273 ∷ (304 ∷ (334 ∷ []))))))))))))

pub is_leap_year : ℕ → Bool
is_leap_year year = (((year % 4) == 0) && not ((year % 100) == 0)) || ((year % 400) == 0)

pub days_in_month : ℕ → ℕ → ℕ
days_in_month year month =
    if ltb month 1 || ltb 12 month
    then 0
    else if (month == 2) && is_leap_year year
    then 29
    else elim (get_elem? month_days month) [ none ↦ 0 | some d ↦ d ]

pub days_in_year : ℕ → ℕ
days_in_year year = if is_leap_year year then 366 else 365

-- DateTime::day_of_year(): a month beyond the table is read out of bounds.
pub day_of_year : DateTime → Result ℕ
day_of_year dt = elim (get_elem? days_before_month dt.month) [
  | none ↦ undefined
  | some before ↦
      let doy = before + dt.day in
      ok (if ltb 2 dt.month && is_leap_year dt.year then doy + 1 else doy)
]

-- The quotient towards zero and its remainder, of the sign of the dividend.
pub quot : ℤ → ℕ → ℤ
quot (pos n) k = pos (n / k)
quot (negsuc n) k = pos 0 -ℤ pos (suc n / k)

pub rem : ℤ → ℕ → ℤ
rem (pos n) k = pos (n % k)
rem (negsuc n) k = pos 0 -ℤ pos (suc n % k)

-- The cast to a signed number of a type with that many values.
pub to_signed : ℕ → ℤ → ℤ
to_signed modulus z =
    let u = to_unsigned modulus z in if ltb (u * 2) modulus then pos u else negsuc (modulus - 1 - u)

-- DateTime::day_of_week(), Sunday is 0.
pub day_of_week : DateTime → ℕ
day_of_week dt =
    let y = (if ltb dt.month 3 then pos dt.year -ℤ pos 1 else pos dt.year) in
    let m = (if ltb dt.month 3 then dt.month + 12 else dt.month) in
    let k = rem y 100 in
    let j = quot y 100 in
    let h = rem (pos (dt.day + 13 * (m + 1) / 5) +ℤ k +ℤ quot k 4 +ℤ quot j 4 -ℤ (j +ℤ j)) 7 in
    to_unsigned u8 (rem (h +ℤ pos 6) 7)

pub quarter : DateTime → ℕ
quarter dt = to_unsigned u8 (quot (pos dt.month -ℤ pos 1) 3 +ℤ pos 1)

pub is_valid : DateTime → Bool
is_valid dt =
    not (ltb dt.year 1 || ltb 9999 dt.year)
    && (not (ltb dt.month 1 || ltb 12 dt.month)
        && (not (ltb dt.day 1 || ltb (days_in_month dt.year dt.month) dt.day)
            && (leb dt.hour 23
                && (leb dt.minute 59 && (leb dt.second 59 && leb dt.millisecond 999)))))

-- `make_datetime` with `local_timezone_offset()` as the first argument.
pub make_datetime : ℤ → ℕ → ℕ → ℕ → ℕ → ℕ → ℕ → ℕ → DateTime
make_datetime tz year month day hour minute second ms = record {
  year = year;
  month = month;
  day = day;
  hour = hour;
  minute = minute;
  second = second;
  millisecond = ms;
  tz_offset_minutes = tz;
}

-- DateTime::week_number().
pub week_number : DateTime → Result ℕ
week_number dt =
    let jan1_dow = day_of_week (make_datetime (pos 0) dt.year 1 1 0 0 0 0) in
    day_of_year dt >>= λ doy.
    let week = (doy + jan1_dow - 1) / 7 in
    let adjusted = (if leb jan1_dow 4 then week + 1 else week) in
    ok ((if ltb adjusted 1 then 1 else adjusted) % u8)

-- A PackedDate and a PackedTime are their value.
pub packed_year : ℕ → ℕ
packed_year value = value / 1000 % u16

pub packed_day_of_year : ℕ → ℕ
packed_day_of_year value = value % 1000 % u16

pub packed_hours : ℕ → ℕ
packed_hours value = value / 10000 % u8

pub packed_minutes : ℕ → ℕ
packed_minutes value = value / 100 % 100 % u8

pub packed_seconds : ℕ → ℕ
packed_seconds value = value % 100 % u8

pub to_packed_date : DateTime → Result ℕ
to_packed_date dt = day_of_year dt >>= λ doy. ok (dt.year * 1000 + doy)

pub to_packed_time : DateTime → ℕ
to_packed_time dt = dt.hour * 10000 + dt.minute * 100 + dt.second

-- The loop of from_packed_date. `left` is 13 less the month, so that `month <= 12` says that one is
-- left.
pub find_month : ℕ → ℕ → ℕ → ℕ → ℕ × ℕ
find_month zero year month remaining = (month, remaining)
find_month (suc left) year month remaining =
    let dim = days_in_month year month in
    let next = find_month left year (month + 1) (remaining - dim) in
    if leb remaining dim then (month, remaining) else next

-- `from_packed_date` in the time zone `tz`.
pub from_packed_date : ℤ → ℕ → DateTime
from_packed_date tz date =
    let found = find_month 12 (packed_year date) 1 (packed_day_of_year date) in
    make_datetime tz (packed_year date) found.0 (found.1 % u8) 0 0 0 0

-- The time of `from_packed_time`, on the date that `today()` gave.
pub from_packed_time : DateTime → ℕ → DateTime
from_packed_time today time = record today {
  hour = packed_hours time;
  minute = packed_minutes time;
  second = packed_seconds time;
}

pub from_eibdate : ℤ → ℕ → DateTime
from_eibdate tz eibdate =
    let century = eibdate / 100000 % 10 in
    let yy = eibdate / 1000 % 100 in
    let doy = eibdate % 1000 in
    let year = (if century == 0 then 1900 else 2000) + yy in from_packed_date tz (year * 1000 + doy)

pub from_eibtime : ℕ → ℕ
from_eibtime eibtime = eibtime % 1000000

pub to_eibdate : DateTime → Result ℕ
to_eibdate dt =
    let century = (if leb 2000 dt.year then 1 else 0) in
    let yy = dt.year % 100 in day_of_year dt >>= λ doy. ok (century * 100000 + yy * 1000 + doy)

pub to_eibtime : DateTime → ℕ
to_eibtime dt = dt.hour * 10000 + dt.minute * 100 + dt.second

pub first_day_of_month : DateTime → DateTime
first_day_of_month dt = record dt { day = 1; hour = 0; minute = 0; second = 0; millisecond = 0 }

pub last_day_of_month : DateTime → DateTime
last_day_of_month dt = record dt {
  day = days_in_month dt.year dt.month;
  hour = 23;
  minute = 59;
  second = 59;
  millisecond = 999;
}

pub first_day_of_year : ℤ → DateTime → DateTime
first_day_of_year tz dt = make_datetime tz dt.year 1 1 0 0 0 0

pub last_day_of_year : ℤ → DateTime → DateTime
last_day_of_year tz dt = make_datetime tz dt.year 12 31 23 59 59 999

pub add_years : DateTime → ℤ → DateTime
add_years dt years =
    let year = to_unsigned u16 (pos dt.year +ℤ years) in
    let past = (dt.month == 2) && ((dt.day == 29) && not (is_leap_year year)) in
    record dt { year = year; day = if past then 28 else dt.day }

-- An Int32 sum that is out of range is undefined.
pub in_int32 : ℤ → Bool
in_int32 z = ltb (pos_part z) 2147483648 && leb (neg_part z) 2147483648

pub add_months : DateTime → ℤ → Result DateTime
add_months dt months =
    let total_months = pos (dt.year * 12 + dt.month) -ℤ pos 1 +ℤ months in
    let year = to_unsigned u16 (quot total_months 12) in
    let month = to_unsigned u8 (rem total_months 12 +ℤ pos 1) in
    let max_day = days_in_month year month in
    if in_int32 total_months
    then ok (record dt {
      year = year;
      month = month;
      day = if ltb max_day dt.day then max_day else dt.day;
    })
    else undefined
