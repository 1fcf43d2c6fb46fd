-- ===== src/Datetime/Iso/Shape.antt =====
-- The text of `to_iso8601`, and its fields read back: libs/datetime/src/datetime.cpp.
use ibm_cics_emulation.Base.{
  ◌+◌, ◌%◌, ◌<◌, ◌≡◌, refl, arith, true, false, some, ◌++◌, ltb, leb, if◌then◌else◌, length, Bytes,
  codes, pos,
}
use ibm_cics_emulation.Result.{Result, ok, err, ◌>>=◌, invalid_argument}
use ibm_cics_emulation.Gdg.{last_digits}
use ibm_cics_emulation.Gdg.Names.{stoi-last_digits_4, stoi-last_digits_2, format_digits_fit}
use ibm_cics_emulation.Datetime.{DateTime, is_valid, make_datetime}
use ibm_cics_emulation.Datetime.Calendar.{days_small, is_valid-IsDate}
use ibm_cics_emulation.Datetime.Iso.{
  to_iso8601, parse_iso8601, number_at, parse_time, parse_milliseconds, has_time, zone_text,
  millisecond_text,
}

-- The text up to the seconds, with what follows.
unfoldable pub shape : DateTime → Bytes → Bytes
shape dt tail =
    last_digits 4 dt.year
    ++ (codes "-"
        ++ (last_digits 2 dt.month
            ++ (codes "-"
                ++ (last_digits 2 dt.day
                    ++ (codes "T"
                        ++ (last_digits 2 dt.hour
                            ++ (codes ":"
                                ++ (last_digits 2 dt.minute
                                    ++ (codes ":" ++ (last_digits 2 dt.second ++ tail))))))))))

pub record IsSmall (dt : DateTime) : Type 0 where
  pub year_small : dt.year < 10000
  pub month_small : dt.month < 100
  pub day_small : dt.day < 100
  pub hour_small : dt.hour < 100
  pub minute_small : dt.minute < 100
  pub second_small : dt.second < 100
  pub millisecond_small : dt.millisecond < 1000

pub is_valid-IsSmall : (dt : DateTime) → is_valid dt ≡ true → IsSmall dt
unfolding is_valid
is_valid-IsSmall dt v =
    let d = is_valid-IsDate dt v in
    ground (arith, v, d.day_in, days_small dt.year dt.month d.month_in.0 d.month_in.1)

pub to_iso8601-shape :
    (dt : DateTime)
    → IsSmall dt
    → to_iso8601 dt ≡ shape dt (millisecond_text dt.millisecond ++ zone_text dt.tz_offset_minutes)
unfolding to_iso8601 shape
to_iso8601-shape dt s =
    rw
      (
        format_digits_fit 4 dt.year s.year_small,
        format_digits_fit 2 dt.month s.month_small,
        format_digits_fit 2 dt.day s.day_small,
        format_digits_fit 2 dt.hour s.hour_small,
        format_digits_fit 2 dt.minute s.minute_small,
        format_digits_fit 2 dt.second s.second_small,
      )
      refl

pub length-shape : (dt : DateTime) (tail : Bytes) → length (shape dt tail) ≡ 19 + length tail
unfolding shape last_digits
length-shape dt tail = omega arith

year_at :
    (dt : DateTime) (tail : Bytes)
    → dt.year < 10000
    → number_at 0 4 (shape dt tail) ≡ some (pos dt.year)
unfolding shape last_digits number_at
year_at dt tail h = stoi-last_digits_4 dt.year h

month_at :
    (dt : DateTime) (tail : Bytes)
    → dt.month < 100
    → number_at 5 2 (shape dt tail) ≡ some (pos dt.month)
unfolding shape last_digits number_at
month_at dt tail h = stoi-last_digits_2 dt.month h

day_at :
    (dt : DateTime) (tail : Bytes)
    → dt.day < 100
    → number_at 8 2 (shape dt tail) ≡ some (pos dt.day)
unfolding shape last_digits number_at
day_at dt tail h = stoi-last_digits_2 dt.day h

hour_at :
    (dt : DateTime) (tail : Bytes)
    → dt.hour < 100
    → number_at 11 2 (shape dt tail) ≡ some (pos dt.hour)
unfolding shape last_digits number_at
hour_at dt tail h = stoi-last_digits_2 dt.hour h

minute_at :
    (dt : DateTime) (tail : Bytes)
    → dt.minute < 100
    → number_at 14 2 (shape dt tail) ≡ some (pos dt.minute)
unfolding shape last_digits number_at
minute_at dt tail h = stoi-last_digits_2 dt.minute h

second_at :
    (dt : DateTime) (tail : Bytes)
    → dt.second < 100
    → number_at 17 2 (shape dt tail) ≡ some (pos dt.second)
unfolding shape last_digits number_at
second_at dt tail h = stoi-last_digits_2 dt.second h

has_time-shape : (dt : DateTime) (tail : Bytes) → has_time (shape dt tail) ≡ true
unfolding has_time shape last_digits
has_time-shape dt tail =
    let long : ltb 11 (length (shape dt tail)) ≡ true = ground (arith, length-shape dt tail) in
    rw long refl

-- The fields that the text gives, before the milliseconds.
abbrev pub read_fields : DateTime → DateTime
read_fields dt = record dt { millisecond = 0; tz_offset_minutes = pos 0 }

unfoldable pub checked : Result DateTime → Result DateTime
checked r = r >>= λ dt. if is_valid dt then ok dt else err invalid_argument

parse_time-shape :
    (dt date : DateTime) (tail : Bytes)
    → IsSmall dt
    → parse_time (shape dt tail) date
      ≡ ok (record date { hour = dt.hour; minute = dt.minute; second = dt.second })
unfolding parse_time
parse_time-shape dt date tail s =
    let long : leb 19 (length (shape dt tail)) ≡ true = ground (arith, length-shape dt tail) in
    let hour : dt.hour % 256 ≡ dt.hour = omega (arith, s.hour_small) in
    let minute : dt.minute % 256 ≡ dt.minute = omega (arith, s.minute_small) in
    let second : dt.second % 256 ≡ dt.second = omega (arith, s.second_small) in
    rw
      (
        long,
        hour_at dt tail s.hour_small,
        minute_at dt tail s.minute_small,
        second_at dt tail s.second_small,
        hour,
        minute,
        second,
      )
      refl

pub parse_iso8601-shape :
    (dt : DateTime) (tail : Bytes)
    → IsSmall dt
    → parse_iso8601 (shape dt tail) ≡ checked (parse_milliseconds (shape dt tail) (read_fields dt))
unfolding parse_iso8601 checked make_datetime
parse_iso8601-shape dt tail s =
    let long : ltb (length (shape dt tail)) 10 ≡ false = ground (arith, length-shape dt tail) in
    let year : dt.year % 65536 ≡ dt.year = omega (arith, s.year_small) in
    let month : dt.month % 256 ≡ dt.month = omega (arith, s.month_small) in
    let day : dt.day % 256 ≡ dt.day = omega (arith, s.day_small) in
    rw
      (
        parse_iso8601,
        long,
        year_at dt tail s.year_small,
        month_at dt tail s.month_small,
        day_at dt tail s.day_small,
        has_time-shape dt tail,
        parse_time-shape dt
            (make_datetime (pos 0) (dt.year % 65536) (dt.month % 256) (dt.day % 256) 0 0 0 0) tail
            s,
        year,
        month,
        day,
      )
      refl
