-- ===== src/Datetime/Duration.antt =====
-- Durations, and the times that the system's calendar gives: libs/datetime/src/datetime.cpp. The
-- fields of a TimeDuration are signed integers, which the casts of the source bring into their range.
pub mod Sums
use ibm_cics_emulation.Base.{
  ℕ, zero, suc, ◌+◌, ◌-◌, ◌*◌, Bool, true, false, ◌&&◌, ◌||◌, ltb, leb, ◌==◌, if◌then◌else◌, ℤ, pos,
  negsuc, neg_part, ◌+ℤ◌, ◌-ℤ◌, ltb_ℤ,
}
use ibm_cics_emulation.Result.{Result, ok, undefined, ◌>>=◌, u32}
use ibm_cics_emulation.Gdg.{to_unsigned}
use ibm_cics_emulation.Datetime.{
  DateTime, day_of_week, to_signed, quot, rem, u8, u16, from_packed_date, is_valid,
}

pub record TimeDuration : Type 0 where
  pub days : ℤ
  pub hours : ℤ
  pub minutes : ℤ
  pub seconds : ℤ
  pub milliseconds : ℤ

-- The product with a positive factor.
unfoldable pub times : ℤ → ℕ → ℤ
times (pos n) k = pos (n * k)
times (negsuc n) k = pos 0 -ℤ pos (suc n * k)

pub negated : ℤ → ℤ
negated z = pos 0 -ℤ z

unfoldable pub total_milliseconds : TimeDuration → ℤ
total_milliseconds d =
    times d.days 86400000
    +ℤ times d.hours 3600000
    +ℤ times d.minutes 60000
    +ℤ times d.seconds 1000
    +ℤ d.milliseconds

pub total_seconds : TimeDuration → ℤ
total_seconds d = quot (total_milliseconds d) 1000

pub is_negative : TimeDuration → Bool
is_negative d = ltb_ℤ (total_milliseconds d) (pos 0)

-- The unary minus: the lowest Int32 has no opposite.
pub negate : TimeDuration → Result TimeDuration
negate d =
    if neg_part d.days == 2147483648
    then undefined
    else ok (record {
      days = negated d.days;
      hours = to_signed u8 (negated d.hours);
      minutes = to_signed u8 (negated d.minutes);
      seconds = to_signed u8 (negated d.seconds);
      milliseconds = to_signed u16 (negated d.milliseconds);
    })

pub abs : TimeDuration → Result TimeDuration
abs d = if is_negative d then negate d else ok d

-- The duration of a number of milliseconds.
pub of_total : ℤ → TimeDuration
of_total total = record {
  days = to_signed u32 (quot total 86400000);
  hours = to_signed u8 (quot (rem total 86400000) 3600000);
  minutes = to_signed u8 (quot (rem total 3600000) 60000);
  seconds = to_signed u8 (quot (rem total 60000) 1000);
  milliseconds = to_signed u16 (rem total 1000);
}

-- `operator+=` and `operator+`.
pub add : TimeDuration → TimeDuration → TimeDuration
add d other = of_total (total_milliseconds d +ℤ total_milliseconds other)

-- `operator-=` and `operator-`.
pub subtract : TimeDuration → TimeDuration → Result TimeDuration
subtract d other = negate other >>= λ o. ok (add d o)

abbrev pub abstime_epoch_offset : ℕ
abstime_epoch_offset = 2208988800000

-- `mktime` is the system's time of a calendar time, -1 if it has none, `localtime` the calendar time
-- of a system's time in the local zone, and `tz` what `local_timezone_offset` makes of the system's
-- answers.
module _ (mktime : DateTime → ℤ) (localtime : ℤ → DateTime) (tz : ℤ) where
  pub to_abstime : DateTime → ℤ
  to_abstime dt =
      let t = mktime dt in
      if (neg_part t) == 1
      then pos 0
      else times t 1000 +ℤ pos dt.millisecond +ℤ pos abstime_epoch_offset

  unfoldable pub from_abstime : ℤ → DateTime
  from_abstime abstime =
      let ms_since_1970 = abstime -ℤ pos abstime_epoch_offset in
      let t = quot ms_since_1970 1000 in
      record (localtime t) {
        millisecond = to_unsigned u16 (rem ms_since_1970 1000);
        tz_offset_minutes = tz;
      }

  pub add_milliseconds : DateTime → ℤ → DateTime
  add_milliseconds dt ms = from_abstime (to_abstime dt +ℤ ms)

  pub add_days : DateTime → ℤ → DateTime
  add_days dt days = add_milliseconds dt (times days 86400000)

  pub add_hours : DateTime → ℤ → DateTime
  add_hours dt hours = add_milliseconds dt (times hours 3600000)

  pub add_minutes : DateTime → ℤ → DateTime
  add_minutes dt minutes = add_milliseconds dt (times minutes 60000)

  pub add_seconds : DateTime → ℤ → DateTime
  add_seconds dt seconds = add_milliseconds dt (times seconds 1000)

  pub add_duration : DateTime → TimeDuration → DateTime
  add_duration dt dur = add_milliseconds dt (total_milliseconds dur)

  pub difference : DateTime → DateTime → TimeDuration
  difference dt1 dt2 = of_total (to_abstime dt1 -ℤ to_abstime dt2)

  pub to_utc : DateTime → DateTime
  to_utc dt = add_minutes dt (negated dt.tz_offset_minutes)

  pub to_local : DateTime → DateTime
  to_local dt = add_minutes dt (tz -ℤ dt.tz_offset_minutes)

  pub to_timezone : DateTime → ℤ → DateTime
  to_timezone dt offset_minutes = record (add_minutes dt (offset_minutes -ℤ dt.tz_offset_minutes)) {
    tz_offset_minutes = offset_minutes;
  }

  pub next_weekday : DateTime → ℕ → DateTime
  next_weekday dt weekday =
      let days_ahead = pos weekday -ℤ pos (day_of_week dt) in
      add_days dt (if ltb_ℤ (pos 0) days_ahead then days_ahead else days_ahead +ℤ pos 7)

  pub previous_weekday : DateTime → ℕ → DateTime
  previous_weekday dt weekday =
      let days_back = pos (day_of_week dt) -ℤ pos weekday in
      add_days dt (negated (if ltb_ℤ (pos 0) days_back then days_back else days_back +ℤ pos 7))
