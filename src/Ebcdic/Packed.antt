-- ===== src/Ebcdic/Packed.antt =====
-- Packed decimals: libs/ebcdic/src/ebcdic.cpp. Two digits to a byte, and the sign in the low half of the
-- last. A pointer with a length is the list of its bytes. `data[i] >> 4` is `/ 16`; `(x & 0x0F) | (d << 4)`
-- is `x % 16 + 16 * d` and `(x & 0xF0) | d` is `x / 16 * 16 + d`, since d is below 16.
pub mod Digits
pub mod RoundTrip
use ibm_cics_emulation.Base.{
  ℕ, zero, suc, ◌+◌, ◌-◌, ◌*◌, ◌/◌, ◌%◌, ◌^◌, Bool, true, false, ◌&&◌, ◌||◌, not, none, some, List,
  [], ◌∷◌, ◌++◌, if◌then◌else◌, length, get_elem?, set, Bytes, ltb, leb, ◌==◌, ℤ, pos, negsuc,
}
use ibm_cics_emulation.Result.{Result, ok, err, undefined, ◌>>=◌, invalid_argument}

-- The sign half of a byte.
abbrev pub minus_sign : ℕ → Bool
minus_sign s = (s == 0x0D) || (s == 0x0B)

abbrev pub plus_sign : ℕ → Bool
plus_sign s = (s == 0x0C) || (s == 0x0A) || (s == 0x0E) || (s == 0x0F)

pub is_valid_packed : Bytes → Bool
is_valid_packed [] = false
is_valid_packed (b ∷ []) = leb (b / 16 % 16) 9 && (plus_sign (b % 16) || minus_sign (b % 16))
is_valid_packed (b ∷ c ∷ rest) = leb (b / 16 % 16) 9 && leb (b % 16) 9 && is_valid_packed (c ∷ rest)

pub is_positive_packed : Bytes → Bool
is_positive_packed [] = false
is_positive_packed (b ∷ []) = plus_sign (b % 16)
is_positive_packed (b ∷ c ∷ rest) = is_positive_packed (c ∷ rest)

pub is_negative_packed : Bytes → Bool
is_negative_packed [] = false
is_negative_packed (b ∷ []) = minus_sign (b % 16)
is_negative_packed (b ∷ c ∷ rest) = is_negative_packed (c ∷ rest)

-- `result * 10 + digit` in Int64, on a result that is not negative.
abbrev pub shift_in : ℕ → ℕ → Result ℕ
shift_in result digit =
    if ltb (2 ^ 63 - 1) (result * 10 + digit) then undefined else ok (result * 10 + digit)

-- `-value`, for a value that is not negative.
abbrev pub negated : ℕ → ℤ
negated zero = pos 0
negated (suc n) = negsuc n

-- The loop of packed_to_int64 from a byte on; the last byte has one digit and the sign.
pub unpack : ℕ → Bytes → Result ℤ
unpack result [] = ok (pos result)
unpack result (b ∷ []) = do
  r ← shift_in result (b / 16 % 16)
  ok (if minus_sign (b % 16) then negated r else pos r)
unpack result (b ∷ c ∷ rest) = do
  r ← shift_in result (b / 16 % 16)
  s ← shift_in r (b % 16)
  unpack s (c ∷ rest)

pub packed_to_int64 : Bytes → Result ℤ
unfolding unpack
packed_to_int64 buf = unpack 0 buf

abbrev pub byte_at : Bytes → ℕ → ℕ
byte_at buf i = elim (get_elem? buf i) [ none ↦ 0 | some b ↦ b ]

-- The loop of int64_to_packed, on fuel: every round divides the value by 10. It writes the digits from
-- the right to the left, the high half of a byte and then the low half of the byte before it; from the
-- first byte it cannot go on, and goes over its halves again.
pub pack_loop : ℕ → ℕ → Bytes → ℕ → Bool → Bytes
pack_loop zero value buf i high_nibble = buf
pack_loop (suc fuel) value buf i high_nibble = elim (ltb 0 value && ltb i (length buf)) [
  | false ↦ buf
  | true ↦ elim high_nibble [
    | true ↦
        pack_loop fuel (value / 10) (set buf i (byte_at buf i % 16 + 16 * (value % 10))) (i - 1)
          false
    | false ↦ elim (ltb i (length buf - 1)) [
      | true ↦ pack_loop fuel (value / 10) (set buf i (byte_at buf i / 16 * 16 + value % 10)) i true
      | false ↦ pack_loop fuel (value / 10) buf i false
    ]
  ]
]

abbrev pub zeros : ℕ → Bytes
zeros zero = []
zeros (suc n) = 0 ∷ zeros n

-- A value and a sign into a cleared buffer; an Int64 has at most 19 digits.
pub pack : ℕ → ℕ → ℕ → Bytes
pack value sign size = pack_loop 20 value (set (zeros size) (size - 1) sign) (size - 1) true

-- `int64_to_packed(value, data, length)`; `-value` overflows for the least Int64.
pub int64_to_packed : ℤ → ℕ → Result Bytes
int64_to_packed (pos n) size = ok (pack n 0x0C size)
int64_to_packed (negsuc n) size = if n == 2 ^ 63 - 1 then undefined else ok (pack (suc n) 0x0D size)

-- `int64_to_packed(value, digits)`
pub int64_to_digits : ℤ → ℕ → Result Bytes
unfolding int64_to_packed
int64_to_digits value digits = int64_to_packed value ((digits + 2) / 2)

-- The characters of a number: the sign seen last, and the digits.
pub parse : Bytes → Bool → Bytes → Result (Bool × Bytes)
parse [] negative clean = ok (negative, clean)
parse (c ∷ s) negative clean =
    if c == b'-'
    then parse s true clean
    else if c == b'+'
    then parse s false clean
    else if leb b'0' c && leb c b'9'
    then parse s negative (clean ++ c ∷ [])
    else if (c == b'.') || (c == b',')
    then parse s negative clean
    else err invalid_argument

pub digits_value : ℕ → Bytes → Result ℕ
digits_value value [] = ok value
digits_value value (c ∷ s) = do v ← shift_in value (c - b'0'); digits_value v s

pub string_to_packed : Bytes → ℕ → Result Bytes
unfolding parse digits_value int64_to_digits
string_to_packed s digits = do
  (negative, clean) ← parse s false []
  value ← digits_value 0 clean
  int64_to_digits (if negative then negated value else pos value) digits
