-- ===== src/Datetime/Tests.antt =====
-- Dates at the edges of the calendar.
use ibm_cics_emulation.Base.{
  ◌≡◌, ◌+◌, ◌-◌, ◌*◌, ◌%◌, refl, true, arith, pos, negsuc, ◌+ℤ◌, ◌-ℤ◌, ltb, if◌then◌else◌, pos_part,
  neg_part,
}
use ibm_cics_emulation.Result.{ok, undefined, ◌>>=◌}
use ibm_cics_emulation.Datetime.{
  DateTime, make_datetime, is_valid, is_leap_year, days_in_month, day_of_week, to_eibdate,
  from_eibdate, add_months, day_of_year, find_month, from_packed_date, packed_year,
  packed_day_of_year, quot, rem, in_int32,
}
use ibm_cics_emulation.Datetime.Packed.{eibdate_round_trip}
use ibm_cics_emulation.Datetime.Weekday.{ordinal, day_of_week-ordinal}
use ibm_cics_emulation.Datetime.Months.{add_months-is_valid}
use ibm_cics_emulation.Datetime.Duration.{
  TimeDuration, times, total_milliseconds, add, from_abstime,
}
use ibm_cics_emulation.Datetime.Duration.Sums.{add-total_milliseconds}
use ibm_cics_emulation.Datetime.Iso.{to_iso8601, parse_iso8601}
use ibm_cics_emulation.Datetime.Iso.RoundTrip.{parse_iso8601-to_iso8601}

abbrev leap_day_2000 : DateTime
leap_day_2000 = record {
  year = 2000;
  month = 2;
  day = 29;
  hour = 23;
  minute = 5;
  second = 59;
  millisecond = 7;
  tz_offset_minutes = negsuc 89;
}

leap_day_2000_valid : is_valid leap_day_2000 ≡ true
unfolding is_valid days_in_month is_leap_year
leap_day_2000_valid = refl

day_of_week-ordinal_example : day_of_week leap_day_2000 ≡ ordinal 2000 2 29 % 7
day_of_week-ordinal_example = day_of_week-ordinal leap_day_2000 leap_day_2000_valid

eibdate_round_trip_example :
    (to_eibdate leap_day_2000 >>= λ p. ok (from_eibdate (pos 60) p))
    ≡ ok (make_datetime (pos 60) 2000 2 29 0 0 0 0)
eibdate_round_trip_example =
    eibdate_round_trip (pos 60) leap_day_2000 leap_day_2000_valid (omega arith) (omega arith)

parse_iso8601-to_iso8601_example :
    parse_iso8601 (to_iso8601 leap_day_2000)
    ≡ ok (record leap_day_2000 { tz_offset_minutes = pos 0 })
parse_iso8601-to_iso8601_example = parse_iso8601-to_iso8601 leap_day_2000 leap_day_2000_valid

-- 13 months back from the leap day: the last day of January 1999.
thirteen_back : pos (2000 * 12 + (2 - 1)) +ℤ negsuc 12 ≡ pos 23988
unfolding ◌+ℤ◌
thirteen_back = refl

add_months-is_valid_example :
    (r : DateTime) × (add_months leap_day_2000 (negsuc 12) ≡ ok r)
    × (is_valid r ≡ true)
    × (r.year * 12 + (r.month - 1) ≡ 23988)
    × (r.day ≡ (if ltb (days_in_month r.year r.month) 29 then days_in_month r.year r.month else 29))
    × (r ≡ record leap_day_2000 { year = r.year; month = r.month; day = r.day })
add_months-is_valid_example =
    add_months-is_valid leap_day_2000 (negsuc 12) 23988 leap_day_2000_valid thirteen_back
      (omega arith) (omega arith)

abbrev day_less : TimeDuration
day_less = record {
  days = negsuc 0;
  hours = pos 0;
  minutes = pos 0;
  seconds = pos 0;
  milliseconds = pos 0;
}

abbrev hours_23 : TimeDuration
hours_23 = record {
  days = pos 0;
  hours = pos 23;
  minutes = pos 0;
  seconds = pos 30;
  milliseconds = pos 0;
}

small_sum :
    pos_part (total_milliseconds day_less +ℤ total_milliseconds hours_23)
      + neg_part (total_milliseconds day_less +ℤ total_milliseconds hours_23)
    ≡ 3570000
unfolding total_milliseconds times ◌+ℤ◌ ◌-ℤ◌
small_sum = refl

add-total_milliseconds_example :
    total_milliseconds (add day_less hours_23)
    ≡ total_milliseconds day_less +ℤ total_milliseconds hours_23
add-total_milliseconds_example = add-total_milliseconds day_less hours_23 (omega (arith, small_sum))

tuesday : day_of_week leap_day_2000 ≡ 2
unfolding day_of_week rem quot ◌+ℤ◌ ◌-ℤ◌
tuesday = refl

-- A packed date beyond the year's end gives a 13th month, of which the day of the year is read
-- outside the table.
beyond_the_year : from_packed_date (pos 0) 2023366 ≡ make_datetime (pos 0) 2023 13 1 0 0 0 0
unfolding from_packed_date find_month packed_year packed_day_of_year days_in_month is_leap_year
beyond_the_year = refl

outside_the_table : day_of_year (make_datetime (pos 0) 2023 13 1 0 0 0 0) ≡ undefined
unfolding day_of_year make_datetime
outside_the_table = refl

-- A time before 1970 has a millisecond out of range.
before_1970 :
    (from_abstime (λ dt. pos 0) (λ t. leap_day_2000) (pos 0) (pos 2208988799999)).millisecond
    ≡ 65535
unfolding from_abstime rem ◌-ℤ◌
before_1970 = refl

-- Months before the year 0 give the month 0.
month_zero :
    add_months (make_datetime (pos 0) 0 12 1 0 0 0 0) (negsuc 11)
    ≡ ok (make_datetime (pos 0) 0 0 0 0 0 0 0)
unfolding add_months quot rem ◌+ℤ◌ ◌-ℤ◌ make_datetime days_in_month in_int32
month_zero = refl
