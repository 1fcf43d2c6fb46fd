-- ===== src/Ebcdic/Binary.antt =====
-- Binary fields, the highest byte first, the padded move and the edited number: libs/ebcdic/src/ebcdic.cpp.
use ibm_cics_emulation.Base.{
  ℕ, zero, suc, ◌+◌, ◌-◌, ◌*◌, ◌/◌, ◌%◌, ◌^◌, ◌≤◌, ◌<◌, true, false, [], ◌∷◌, ◌++◌, length,
  if◌then◌else◌, Bytes, ltb, ◌==◌, ◌||◌, ◌≡◌, refl, sym, ap, ◌∙◌, arith, ℤ, pos, negsuc, pos_part,
  neg_part, length-append,
}
use mathlib.Core.List.{append_assoc, append-nil}

-- `data[0] = (value >> 8 * (width - 1)) & 0xFF; …; data[width - 1] = value & 0xFF;`
pub uint_to_binary : ℕ → ℕ → Bytes
uint_to_binary zero value = []
uint_to_binary (suc width) value = uint_to_binary width (value / 256) ++ value % 256 ∷ []

-- `data[0] << 8 * (width - 1) | … | data[width - 1]`, above the bytes `high` that stand before them.
pub binary_above : ℕ → Bytes → ℕ
binary_above high [] = high
binary_above high (b ∷ buf) = binary_above (high * 256 + b) buf

abbrev pub binary_to_uint : Bytes → ℕ
binary_to_uint buf = binary_above 0 buf

-- The bits of a signed integer of `width` bytes, and the integer that such bits stand for.
abbrev pub bits_of : ℕ → ℤ → ℕ
bits_of width (pos n) = n
bits_of width (negsuc n) = 256 ^ width - 1 - n

abbrev pub signed : ℕ → ℕ → ℤ
signed width n = if ltb (2 * n) (256 ^ width) then pos n else negsuc (256 ^ width - 1 - n)

abbrev pub int_to_binary : ℕ → ℤ → Bytes
int_to_binary width value = uint_to_binary width (bits_of width value)

abbrev pub binary_to_int : ℕ → Bytes → ℤ
binary_to_int width buf = signed width (binary_to_uint buf)

abbrev pub int16_to_binary : ℤ → Bytes
int16_to_binary value = int_to_binary 2 value

abbrev pub int32_to_binary : ℤ → Bytes
int32_to_binary value = int_to_binary 4 value

abbrev pub int64_to_binary : ℤ → Bytes
int64_to_binary value = int_to_binary 8 value

-- `int16_to_binary(static_cast<Int16>(value), data)`
abbrev pub uint16_to_binary : ℕ → Bytes
uint16_to_binary value = int16_to_binary (signed 2 value)

abbrev pub uint32_to_binary : ℕ → Bytes
uint32_to_binary value = int32_to_binary (signed 4 value)

abbrev pub uint64_to_binary : ℕ → Bytes
uint64_to_binary value = int64_to_binary (signed 8 value)

abbrev pub binary_to_int16 : Bytes → ℤ
binary_to_int16 buf = binary_to_int 2 buf

abbrev pub binary_to_int32 : Bytes → ℤ
binary_to_int32 buf = binary_to_int 4 buf

abbrev pub binary_to_int64 : Bytes → ℤ
binary_to_int64 buf = binary_to_int 8 buf

-- `std::memcpy(dest, src, copy_len)`, then `std::memset` of the rest; `dest` as long as it was.
pub move_with_padding : Bytes → Bytes → ℕ → Bytes
move_with_padding [] src pad = []
move_with_padding (d ∷ dest) [] pad = pad ∷ move_with_padding dest [] pad
move_with_padding (d ∷ dest) (s ∷ src) pad = s ∷ move_with_padding dest src pad

-- The loop of edit_numeric over the picture, with the digits that are left to place. The characters
-- '9', '0', 'Z' and ' ' are 57, 48, 90 and 32.
pub edit : Bytes → Bytes → Bytes
edit digits [] = []
edit [] (c ∷ picture) =
    let rest = edit [] picture in
    if c == 57 then 48 ∷ rest else if c == 90 then 32 ∷ rest else c ∷ rest
edit (d ∷ digits) (c ∷ picture) =
    let placed = d ∷ edit digits picture in
    let kept = c ∷ edit (d ∷ digits) picture in if (c == 57) || (c == 90) then placed else kept

binary-uint :
    (w v : ℕ) (t : Bytes)
    → v < 256 ^ w
    → binary_above 0 (uint_to_binary w v ++ t) ≡ binary_above v t
unfolding binary_above uint_to_binary
binary-uint zero v t h =
    let none_left : 0 ≡ v = omega (arith, h) in ap (λ x. binary_above x t) none_left
binary-uint (suc w) v t h =
    let whole : v / 256 * 256 + v % 256 ≡ v = omega arith in
    ap (binary_above 0) (append_assoc (uint_to_binary w (v / 256)) (v % 256 ∷ []) t)
    ∙ binary-uint w (v / 256) (v % 256 ∷ t) (omega (arith, h))
    ∙ ap (λ x. binary_above x t) whole

pub uint_round_trip : (w v : ℕ) → v < 256 ^ w → binary_to_uint (uint_to_binary w v) ≡ v
unfolding binary_above
uint_round_trip w v h =
    ap (binary_above 0) (sym (append-nil (uint_to_binary w v))) ∙ binary-uint w v [] h

length-uint_to_binary : (w v : ℕ) → length (uint_to_binary w v) ≡ w
unfolding uint_to_binary
length-uint_to_binary zero v = refl
length-uint_to_binary (suc w) v = omega (
  arith,
  length-append (uint_to_binary w (v / 256)) (v % 256 ∷ []),
  length-uint_to_binary w (v / 256),
)

-- A signed integer that a field of `width` bytes can hold is stored in as many bytes, two's complement
-- and the highest byte first, and is read from them again.
pub binary_round_trip :
    (width : ℕ) (value : ℤ)
    → 2 * pos_part value < 256 ^ width
    → 2 * neg_part value ≤ 256 ^ width
    → (binary_to_int width (int_to_binary width value) ≡ value)
      × (length (int_to_binary width value) ≡ width)
binary_round_trip w (pos n) h k =
    let room : n < 256 ^ w = omega (arith, h) in
    let low : ltb (2 * n) (256 ^ w) ≡ true = ground (arith, h) in
    let back : binary_to_int w (int_to_binary w (pos n)) ≡ pos n =
      ap (signed w) (uint_round_trip w n room)
      ∙ ap (λ b. if b then pos n else negsuc (256 ^ w - 1 - n)) low in
    (back, length-uint_to_binary w n)
binary_round_trip w (negsuc n) h k =
    let u = 256 ^ w - 1 - n in
    let room : u < 256 ^ w = omega (arith, k) in
    let high : ltb (2 * u) (256 ^ w) ≡ false = ground (arith, k) in
    let there : 256 ^ w - 1 - u ≡ n = omega (arith, k) in
    let back : binary_to_int w (int_to_binary w (negsuc n)) ≡ negsuc n =
      ap (signed w) (uint_round_trip w u room)
      ∙ ap (λ b. if b then pos u else negsuc (256 ^ w - 1 - u)) high
      ∙ ap negsuc there in
    (back, length-uint_to_binary w (256 ^ w - 1 - n))
