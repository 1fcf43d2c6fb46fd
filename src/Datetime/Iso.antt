-- ===== src/Datetime/Iso.antt =====
-- The texts of dates and times: `to_iso8601`, `format` and `parse` of libs/datetime/src/datetime.cpp.
-- std::stoi is that of Gdg: the texts given to it have at most 4 characters.
mod Shape
pub mod RoundTrip
use ibm_cics_emulation.Base.{
  ℕ, zero, suc, ◌+◌, ◌-◌, ◌*◌, ◌/◌, ◌%◌, Bool, true, false, not, ◌&&◌, ◌||◌, Option, none, some,
  List, [], ◌∷◌, ◌++◌, ltb, leb, ◌==◌, if◌then◌else◌, length, get_elem?, take, drop, Bytes,
  bytes_eq, codes, ℤ, pos, negsuc, pos_part, neg_part,
}
use ibm_cics_emulation.Result.{Result, ok, err, ◌>>=◌, invalid_argument}
use ibm_cics_emulation.Gdg.{to_unsigned, format_digits, stoi, is_digit}
use ibm_cics_emulation.Datetime.{
  DateTime, is_valid, day_of_week, day_of_year, week_number, make_datetime, u8, u16,
}

-- The offset's size in minutes, and whether it is negative.
abbrev offset_minutes : ℤ → ℕ
offset_minutes z = pos_part z + neg_part z

pub zone_text : ℤ → Bytes
zone_text z =
    if offset_minutes z == 0
    then codes "Z"
    else ((if neg_part z == 0 then codes "+" else codes "-")
        ++ (format_digits 2 (offset_minutes z / 60)
            ++ (codes ":" ++ format_digits 2 (offset_minutes z % 60))))

pub millisecond_text : ℕ → Bytes
millisecond_text ms = if ms == 0 then [] else codes "." ++ format_digits 3 ms

pub to_iso8601 : DateTime → Bytes
to_iso8601 dt =
    format_digits 4 dt.year
    ++ (codes "-"
        ++ (format_digits 2 dt.month
            ++ (codes "-"
                ++ (format_digits 2 dt.day
                    ++ (codes "T"
                        ++ (format_digits 2 dt.hour
                            ++ (codes ":"
                                ++ (format_digits 2 dt.minute
                                    ++ (codes ":"
                                        ++ (format_digits 2 dt.second
                                            ++ (millisecond_text dt.millisecond
                                                ++ zone_text dt.tz_offset_minutes)))))))))))

-- What a conversion character of `format` writes.
pub conversion : DateTime → ℕ → Result Bytes
conversion dt c =
    if c == b'Y'
    then ok (format_digits 4 dt.year)
    else if c == b'y'
    then ok (format_digits 2 (dt.year % 100))
    else if c == b'm'
    then ok (format_digits 2 dt.month)
    else if c == b'd'
    then ok (format_digits 2 dt.day)
    else if c == b'H'
    then ok (format_digits 2 dt.hour)
    else if c == b'M'
    then ok (format_digits 2 dt.minute)
    else if c == b'S'
    then ok (format_digits 2 dt.second)
    else if c == b'f'
    then ok (format_digits 3 dt.millisecond)
    else if c == b'j'
    then (day_of_year dt >>= λ doy. ok (format_digits 3 doy))
    else if c == b'w'
    then ok (format_digits 1 (day_of_week dt))
    else if c == b'W'
    then (week_number dt >>= λ week. ok (format_digits 2 week))
    else if c == b'%'
    then ok (codes "%")
    else ok (b'%' ∷ (c ∷ []))

pub format : DateTime → Bytes → Result Bytes
format dt [] = ok []
format dt (c ∷ []) = ok (c ∷ [])
format dt (c ∷ d ∷ fmt) =
    let plain = format dt (d ∷ fmt) >>= λ rest. ok (c ∷ rest) in
    let converted = conversion dt d >>= λ text. format dt fmt >>= λ rest. ok (text ++ rest) in
    if c == b'%' then converted else plain

pub to_string : DateTime → Result Bytes
to_string dt = format dt (codes "%Y-%m-%d %H:%M:%S")

-- A part of the text as a number: none is the exception of std::stoi.
pub number_at : ℕ → ℕ → Bytes → Option ℤ
number_at start n str = stoi (take n (drop start str))

-- The fields that are read, one after another; an exception gives the error.
abbrev field {ℓ} : {A : Type ℓ} → Option ℤ → (ℤ → Result A) → Result A
field none f = err invalid_argument
field (some z) f = f z

-- The digits from the front of a text.
pub leading_digits : Bytes → Bytes
leading_digits [] = []
leading_digits (c ∷ s) = let rest = leading_digits s in if is_digit c then c ∷ rest else []

-- `while (ms_str.size() < 3) ms_str += '0'`, of which at most three are needed, and the first three.
pub three_digits : Bytes → Bytes
three_digits s = take 3 (s ++ codes "000")

pub parse_time : Bytes → DateTime → Result DateTime
parse_time str dt =
    if leb 19 (length str)
    then (field (number_at 11 2 str) λ hour. field (number_at 14 2 str) λ minute.
        field (number_at 17 2 str) λ second. ok (record dt {
          hour = to_unsigned u8 hour;
          minute = to_unsigned u8 minute;
          second = to_unsigned u8 second;
        }))
    else ok dt

pub parse_milliseconds : Bytes → DateTime → Result DateTime
parse_milliseconds str dt = elim (get_elem? str 19) [
  | none ↦ ok dt
  | some c ↦
      if ltb 20 (length str) && (c == b'.')
      then (field (stoi (three_digits (leading_digits (drop 20 str))))
          λ ms. ok (record dt { millisecond = to_unsigned u16 ms }))
      else ok dt
]

-- `str.size() > 11 && (str[10] == 'T' || str[10] == ' ')`
pub has_time : Bytes → Bool
has_time str =
    ltb 11 (length str)
    && elim (get_elem? str 10) [ none ↦ false | some c ↦ (c == b'T') || (c == b' ') ]

pub parse_iso8601 : Bytes → Result DateTime
parse_iso8601 str =
    if ltb (length str) 10
    then err invalid_argument
    else (field (number_at 0 4 str) λ year. field (number_at 5 2 str) λ month.
        field (number_at 8 2 str) λ day.
          let date =
            make_datetime (pos 0) (to_unsigned u16 year) (to_unsigned u8 month) (to_unsigned u8 day)
              0 0 0 0 in
          (if has_time str
            then (parse_time str date >>= λ dt. parse_milliseconds str dt)
            else ok date)
          >>= λ dt. if is_valid dt then ok dt else err invalid_argument)

-- The format must be empty or ISO8601.
pub parse : Bytes → Bytes → Result DateTime
parse str fmt =
    if length str == 0
    then err invalid_argument
    else if (length fmt == 0) || bytes_eq fmt (codes "%Y-%m-%dT%H:%M:%S")
    then parse_iso8601 str
    else err invalid_argument
