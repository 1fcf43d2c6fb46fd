-- ===== src/Ebcdic/Packed/RoundTrip.antt =====
-- Packing against unpacking.
use ibm_cics_emulation.Base.{
  ℕ, zero, suc, ◌+◌, ◌-◌, ◌*◌, ◌/◌, ◌%◌, ◌^◌, ◌<◌, ◌≤◌, true, false, [], ◌∷◌, ◌++◌, length,
  length-append, pos_part, neg_part, Bytes, ◌==◌, ◌≡◌, refl, sym, ap, ap₂, ◌∙◌, ◌⊎◌, arith, inl,
  inr, if◌then◌else◌, ℤ, pos, negsuc,
}
use mathlib.Core.List.{append_assoc}
use ibm_cics_emulation.Result.{ok, ◌>>=◌}
use ibm_cics_emulation.Ebcdic.Packed.{
  pack, unpack, shift_in, negated, minus_sign, packed_to_int64, int64_to_packed, int64_to_digits,
  is_valid_packed,
}
use ibm_cics_emulation.Ebcdic.Packed.Digits.{pairs, pack-pairs, length-pairs}

unpack_byte :
    (r b c : ℕ) (t : Bytes)
    → (r * 10 + b / 16 % 16) * 10 + b % 16 < 2 ^ 63
    → unpack r (b ∷ c ∷ t) ≡ unpack ((r * 10 + b / 16 % 16) * 10 + b % 16) (c ∷ t)
unfolding unpack
unpack_byte r b c t h = ground (arith, h)

unpack-pairs :
    (n v c : ℕ) (t : Bytes)
    → v < 100 ^ n
    → v < 2 ^ 63
    → unpack 0 (pairs n v ++ c ∷ t) ≡ unpack v (c ∷ t)
unfolding pairs
unpack-pairs zero v c t h m =
    let none_left : 0 ≡ v = omega (arith, h) in ap (λ x. unpack x (c ∷ t)) none_left
unpack-pairs (suc n) v c t h m =
    let b = v / 10 % 10 * 16 + v % 10 in
    let value : (v / 100 * 10 + b / 16 % 16) * 10 + b % 16 ≡ v = omega arith in
    ap (λ s. unpack 0 s) (append_assoc (pairs n (v / 100)) (b ∷ []) (c ∷ t))
    ∙ unpack-pairs n (v / 100) b (c ∷ t) (omega (arith, h)) (omega (arith, m))
    ∙ unpack_byte (v / 100) b c t (omega (arith, value, m))
    ∙ ap (λ x. unpack x (c ∷ t)) value

unpack_last :
    (v s : ℕ)
    → v < 2 ^ 63
    → s < 16
    → unpack (v / 10) ((v % 10 * 16 + s) ∷ []) ≡ ok (if minus_sign s then negated v else pos v)
unfolding unpack
unpack_last v s m h =
    let digit : (v % 10 * 16 + s) / 16 % 16 ≡ v % 10 = omega (arith, h) in
    let sign : (v % 10 * 16 + s) % 16 ≡ s = omega (arith, h) in
    let value : shift_in (v / 10) (v % 10) ≡ ok v = ground (arith, m) in
    ap₂ (λ d g. shift_in (v / 10) d >>= λ r. ok (if minus_sign g then negated r else pos r)) digit
      sign
    ∙ ap (λ q. q >>= λ r. ok (if minus_sign s then negated r else pos r)) value

digit_halves :
    (a b : ℕ) → (((a * 16 + b) / 16 % 16 ≡ a) × ((a * 16 + b) % 16 ≡ b)) ⊎ (9 < a) ⊎ (15 < b)
digit_halves a b = ground arith

is_valid-pairs :
    (n v c : ℕ) (t : Bytes)
    → is_valid_packed (c ∷ t) ≡ true
    → is_valid_packed (pairs n v ++ c ∷ t) ≡ true
unfolding pairs is_valid_packed
is_valid-pairs zero v c t h = h
is_valid-pairs (suc n) v c t h =
    let b = v / 10 % 10 * 16 + v % 10 in
    ap is_valid_packed (append_assoc (pairs n (v / 100)) (b ∷ []) (c ∷ t))
    ∙ is_valid-pairs n (v / 100) b (c ∷ t) (ground (arith, h, digit_halves (v / 10 % 10) (v % 10)))

valid_last :
    (v sign : ℕ)
    → (sign ≡ 0x0C) ⊎ (sign ≡ 0x0D)
    → is_valid_packed ((v % 10 * 16 + sign) ∷ []) ≡ true
unfolding is_valid_packed
valid_last v sign k = ground (arith, digit_halves (v % 10) sign)

-- The buffer that a value and a sign are packed into.
pack_round :
    (v sign n : ℕ)
    → v < 2 ^ 63
    → v < 10 * 100 ^ n
    → (sign ≡ 0x0C) ⊎ (sign ≡ 0x0D)
    → (packed_to_int64 (pack v sign (suc n)) ≡ ok (if minus_sign sign then negated v else pos v))
      × (is_valid_packed (pack v sign (suc n)) ≡ true)
      × (length (pack v sign (suc n)) ≡ suc n)
unfolding packed_to_int64
pack_round v sign n m h k =
    let small : sign < 16 = ground arith in
    let packed = pack-pairs v sign n (omega (arith, m)) h small in
    let last = (v % 10 * 16 + sign) in
    (
      ap (λ s. unpack 0 s) packed
          ∙ unpack-pairs n (v / 10) last [] (omega (arith, h)) (omega (arith, m))
          ∙ unpack_last v sign m small,
      ap is_valid_packed packed ∙ is_valid-pairs n (v / 10) last [] (valid_last v sign k),
      ap length packed
          ∙ omega (arith, length-append (pairs n (v / 10)) (last ∷ []), length-pairs n (v / 10)),
    )

-- The size that is computed from a count of digits holds as many.
capacity : (d : ℕ) → (n : ℕ) × ((d + 2) / 2 ≡ suc n) × (10 ^ d ≤ 10 * 100 ^ n)
capacity zero = (0, refl, omega arith)
capacity (suc zero) = (0, refl, omega arith)
capacity (suc (suc d)) = let (n, e, h) = capacity d in (suc n, omega (arith, e), omega (arith, h))

-- A number of at most `digits` decimal digits, positive or negative, and of magnitude below 2^63 (which leaves
-- out the least Int64 alone), is packed into (digits + 2) / 2 bytes that are a valid packed decimal, and is unpacked from them again.
pub packed_round_trip :
    (value : ℤ) (digits : ℕ)
    → pos_part value + neg_part value < 10 ^ digits
    → pos_part value + neg_part value < 2 ^ 63
    → (buf : Bytes) × (int64_to_digits value digits ≡ ok buf)
      × (packed_to_int64 buf ≡ ok value)
      × (is_valid_packed buf ≡ true)
      × (length buf ≡ (digits + 2) / 2)
unfolding int64_to_digits int64_to_packed
packed_round_trip (pos v) digits h m =
    let (n, e, room) = capacity digits in
    let (back, valid, size) =
      pack_round v 0x0C n (omega (arith, m)) (omega (arith, h, room)) (inl refl) in
    (pack v 0x0C (suc n), ap (λ k. ok (pack v 0x0C k)) e, back, valid, size ∙ sym e)
packed_round_trip (negsuc v) digits h m =
    let (n, e, room) = capacity digits in
    let (back, valid, size) =
      pack_round (suc v) 0x0D n (omega (arith, m)) (omega (arith, h, room)) (inr refl) in
    let not_least : (v == 2 ^ 63 - 1) ≡ false = ground (arith, m) in
    (
      pack (suc v) 0x0D (suc n),
      rw not_least (ap (λ k. ok (pack (suc v) 0x0D k)) e),
      back,
      valid,
      size ∙ sym e,
    )
