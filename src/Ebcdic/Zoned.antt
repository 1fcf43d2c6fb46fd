-- ===== src/Ebcdic/Zoned.antt =====
-- Zoned decimals: libs/ebcdic/src/ebcdic.cpp. A digit to a byte, with the sign in the upper half of the
-- last. `(x & 0x0F) | 0xD0` is `x % 16 + 0xD0`.
pub mod RoundTrip
use ibm_cics_emulation.Base.{
  ℕ, zero, suc, ◌+◌, ◌-◌, ◌*◌, ◌/◌, ◌%◌, ◌^◌, Bool, true, false, List, [], ◌∷◌, if◌then◌else◌, set,
  Bytes, ltb, ◌==◌, ℤ, pos, negsuc,
}
use ibm_cics_emulation.Result.{Result, ok, err, undefined, ◌>>=◌}
use ibm_cics_emulation.Ebcdic.Packed.{shift_in, negated, minus_sign, byte_at}

-- `if (digit > 9) digit = 0;`
abbrev pub zoned_digit : ℕ → ℕ
zoned_digit b = if ltb 9 (b % 16) then 0 else b % 16

-- The loop of zoned_to_int64 from a byte on.
pub unzone : ℕ → Bytes → Result ℤ
unzone result [] = ok (pos result)
unzone result (b ∷ []) = do
  r ← shift_in result (zoned_digit b)
  ok (if minus_sign (b / 16 % 16) then negated r else pos r)
unzone result (b ∷ c ∷ rest) = do r ← shift_in result (zoned_digit b); unzone r (c ∷ rest)

pub zoned_to_int64 : Bytes → Result ℤ
zoned_to_int64 buf = unzone 0 buf

abbrev pub fill : ℕ → Bytes
fill zero = []
fill (suc n) = 0xF0 ∷ fill n

-- `for (UInt32 i = length; i > 0 && value > 0; --i)`
pub zone_loop : ℕ → ℕ → Bytes → Bytes
zone_loop zero value buf = buf
zone_loop (suc i) value buf = elim (ltb 0 value) [
  | false ↦ buf
  | true ↦ zone_loop i (value / 10) (set buf i (0xF0 + value % 10))
]

pub zone : ℕ → ℕ → ℕ → Bytes
zone value sign size =
    let buf = zone_loop size value (fill size) in
    if size == 0 then [] else set buf (size - 1) (byte_at buf (size - 1) % 16 + sign)

-- `int64_to_zoned(value, digits)`; `-value` overflows for the least Int64, unless there is no digit.
pub int64_to_zoned : ℤ → ℕ → Result Bytes
int64_to_zoned (pos n) size = ok (zone n 0xC0 size)
int64_to_zoned (negsuc n) size =
    if size == 0 then ok [] else if n == 2 ^ 63 - 1 then undefined else ok (zone (suc n) 0xD0 size)
