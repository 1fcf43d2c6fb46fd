-- ===== src/Ebcdic/Zoned/RoundTrip.antt =====
-- Zoning against unzoning.
use ibm_cics_emulation.Base.{
  ℕ, zero, suc, ◌+◌, ◌-◌, ◌*◌, ◌/◌, ◌%◌, ◌^◌, ◌<◌, true, false, [], ◌∷◌, ◌++◌, length,
  length-append, Bytes, set, ltb, ◌==◌, ◌≡◌, ◌⊎◌, refl, sym, ap, ap₂, ◌∙◌, arith, inl, inr,
  if◌then◌else◌, ℤ, pos, negsuc, pos_part, neg_part,
}
use mathlib.Core.List.{append_assoc, append-nil}
use ibm_cics_emulation.Result.{ok, ◌>>=◌}
use ibm_cics_emulation.Ebcdic.Packed.{shift_in, negated, minus_sign, byte_at}
use ibm_cics_emulation.Ebcdic.Zoned.{
  zone, zone_loop, fill, unzone, zoned_digit, int64_to_zoned, zoned_to_int64,
}

-- The last `n` digits of a value.
pub zone_digits : ℕ → ℕ → Bytes
zone_digits zero v = []
zone_digits (suc n) v = zone_digits n (v / 10) ++ (0xF0 + v % 10) ∷ []

fill-end : (n : ℕ) (t : Bytes) → fill (suc n) ++ t ≡ fill n ++ 0xF0 ∷ t
fill-end zero t = refl
fill-end (suc n) t = ap (λ s. 0xF0 ∷ s) (fill-end n t)

set-fill : (n c : ℕ) (t : Bytes) → set (fill (suc n) ++ t) n c ≡ fill n ++ c ∷ t
set-fill zero c t = refl
set-fill (suc n) c t = ap (λ s. 0xF0 ∷ s) (set-fill n c t)

zone_digits-zero : (n : ℕ) (t : Bytes) → zone_digits n 0 ++ t ≡ fill n ++ t
unfolding zone_digits
zone_digits-zero zero t = refl
zone_digits-zero (suc n) t =
    append_assoc (zone_digits n 0) (0xF0 ∷ []) t
    ∙ zone_digits-zero n (0xF0 ∷ t)
    ∙ sym (fill-end n t)

zone_loop-step :
    (n w : ℕ) (buf : Bytes)
    → zone_loop (suc n) (suc w) buf ≡ zone_loop n (suc w / 10) (set buf n (0xF0 + suc w % 10))
unfolding zone_loop
zone_loop-step n w buf =
    let more : ltb 0 (suc w) ≡ true = ground arith in
    ap
      (λ b. elim b [
        | false ↦ buf
        | true ↦ zone_loop n (suc w / 10) (set buf n (0xF0 + suc w % 10))
      ])
      more

zone_loop-digits :
    (n v : ℕ) (t : Bytes) → v < 10 ^ n → zone_loop n v (fill n ++ t) ≡ zone_digits n v ++ t
unfolding zone_loop zone_digits
zone_loop-digits zero v t h = refl
zone_loop-digits (suc n) zero t h = sym (zone_digits-zero (suc n) t)
zone_loop-digits (suc n) (suc w) t h =
    let v = suc w in
    zone_loop-step n w (fill (suc n) ++ t)
    ∙ ap (λ s. zone_loop n (v / 10) s) (set-fill n (0xF0 + v % 10) t)
    ∙ zone_loop-digits n (v / 10) ((0xF0 + v % 10) ∷ t) (omega (arith, h))
    ∙ sym (append_assoc (zone_digits n (v / 10)) ((0xF0 + v % 10) ∷ []) t)

length-zone_digits : (n v : ℕ) → length (zone_digits n v) ≡ n
unfolding zone_digits
length-zone_digits zero v = refl
length-zone_digits (suc n) v = omega (
  arith,
  length-append (zone_digits n (v / 10)) ((0xF0 + v % 10) ∷ []),
  length-zone_digits n (v / 10),
)

set_behind : (xs : Bytes) (b c : ℕ) (t : Bytes) → set (xs ++ b ∷ t) (length xs) c ≡ xs ++ c ∷ t
set_behind [] b c t = refl
set_behind (x ∷ xs) b c t = ap (λ s. x ∷ s) (set_behind xs b c t)

byte_at_behind : (xs : Bytes) (b : ℕ) (t : Bytes) → byte_at (xs ++ b ∷ t) (length xs) ≡ b
byte_at_behind [] b t = refl
byte_at_behind (x ∷ xs) b t = byte_at_behind xs b t

-- The buffer of a value that fits, with the sign over its last digit.
zone-digits :
    (v sign n : ℕ)
    → v < 10 ^ suc n
    → zone v sign (suc n) ≡ zone_digits n (v / 10) ++ (v % 10 + sign) ∷ []
unfolding zone zone_digits
zone-digits v sign n h =
    let xs = zone_digits n (v / 10) in
    let b = 0xF0 + v % 10 in
    let filled : zone_loop (suc n) v (fill (suc n)) ≡ xs ++ b ∷ [] =
      ap (λ s. zone_loop (suc n) v s) (sym (append-nil (fill (suc n))))
      ∙ zone_loop-digits (suc n) v [] h
      ∙ append-nil (zone_digits (suc n) v) in
    let place : suc n - 1 ≡ length xs = omega (arith, length-zone_digits n (v / 10)) in
    let digit : b % 16 + sign ≡ v % 10 + sign = omega arith in
    let nonempty : (suc n == 0) ≡ false = ground arith in
    let buf = zone_loop (suc n) v (fill (suc n)) in
    ap (λ k. if k then [] else set buf (suc n - 1) (byte_at buf (suc n - 1) % 16 + sign)) nonempty
    ∙ ap₂ (λ s i. set s i (byte_at s i % 16 + sign)) filled place
    ∙ set_behind xs b (byte_at (xs ++ b ∷ []) (length xs) % 16 + sign) []
    ∙ ap (λ x. xs ++ (x % 16 + sign) ∷ []) (byte_at_behind xs b [])
    ∙ ap (λ x. xs ++ x ∷ []) digit

unzone_byte :
    (v c : ℕ) (t : Bytes)
    → v < 2 ^ 63
    → unzone (v / 10) ((0xF0 + v % 10) ∷ c ∷ t) ≡ unzone v (c ∷ t)
unfolding unzone
unzone_byte v c t m =
    let digit : zoned_digit (0xF0 + v % 10) ≡ v % 10 = ground arith in
    let value : shift_in (v / 10) (v % 10) ≡ ok v = ground (arith, m) in
    ap (λ d. shift_in (v / 10) d >>= λ r. unzone r (c ∷ t)) digit
    ∙ ap (λ q. q >>= λ r. unzone r (c ∷ t)) value

unzone-digits :
    (n v c : ℕ) (t : Bytes)
    → v < 10 ^ n
    → v < 2 ^ 63
    → unzone 0 (zone_digits n v ++ c ∷ t) ≡ unzone v (c ∷ t)
unfolding zone_digits
unzone-digits zero v c t h m =
    let none_left : 0 ≡ v = omega (arith, h) in ap (λ x. unzone x (c ∷ t)) none_left
unzone-digits (suc n) v c t h m =
    ap (λ s. unzone 0 s) (append_assoc (zone_digits n (v / 10)) ((0xF0 + v % 10) ∷ []) (c ∷ t))
    ∙ unzone-digits n (v / 10) (0xF0 + v % 10) (c ∷ t) (omega (arith, h)) (omega (arith, m))
    ∙ unzone_byte v c t m

unzone_last :
    (v s : ℕ)
    → v < 2 ^ 63
    → (s ≡ 12) ⊎ (s ≡ 13)
    → unzone (v / 10) ((v % 10 + 16 * s) ∷ []) ≡ ok (if minus_sign s then negated v else pos v)
unfolding unzone
unzone_last v s m h =
    let digit : zoned_digit (v % 10 + 16 * s) ≡ v % 10 = ground arith in
    let sign : (v % 10 + 16 * s) / 16 % 16 ≡ s = ground arith in
    let value : shift_in (v / 10) (v % 10) ≡ ok v = ground (arith, m) in
    ap₂ (λ d g. shift_in (v / 10) d >>= λ r. ok (if minus_sign g then negated r else pos r)) digit
      sign
    ∙ ap (λ q. q >>= λ r. ok (if minus_sign s then negated r else pos r)) value

-- The buffer that a value and a sign are zoned into.
zone_round :
    (v s n : ℕ)
    → v < 10 ^ suc n
    → v < 2 ^ 63
    → (s ≡ 12) ⊎ (s ≡ 13)
    → (zoned_to_int64 (zone v (16 * s) (suc n)) ≡ ok (if minus_sign s then negated v else pos v))
      × (length (zone v (16 * s) (suc n)) ≡ suc n)
unfolding zoned_to_int64
zone_round v s n h m k =
    let zoned = zone-digits v (16 * s) n h in
    let last = v % 10 + 16 * s in
    (
      ap (λ b. unzone 0 b) zoned
          ∙ unzone-digits n (v / 10) last [] (omega (arith, h)) (omega (arith, m))
          ∙ unzone_last v s m k,
      ap length zoned
          ∙ omega (
            arith,
            length-append (zone_digits n (v / 10)) (last ∷ []),
            length-zone_digits n (v / 10),
          ),
    )

-- A number of at most `digits` decimal digits, positive or negative, and of magnitude below 2^63 (which leaves
-- out the least Int64 alone), is zoned into `digits` bytes, and is read from them again.
pub zoned_round_trip :
    (value : ℤ) (digits : ℕ)
    → pos_part value + neg_part value < 10 ^ digits
    → pos_part value + neg_part value < 2 ^ 63
    → (buf : Bytes) × (int64_to_zoned value digits ≡ ok buf)
      × (zoned_to_int64 buf ≡ ok value)
      × (length buf ≡ digits)
unfolding int64_to_zoned zone zoned_to_int64 unzone
zoned_round_trip (pos v) zero h m =
    let none_left : 0 ≡ v = omega (arith, h) in ([], refl, ap (λ x. ok (pos x)) none_left, refl)
zoned_round_trip (pos v) (suc n) h m =
    let (back, size) = zone_round v 12 n (omega (arith, h)) (omega (arith, m)) (inl refl) in
    (zone v 0xC0 (suc n), refl, back, size)
zoned_round_trip (negsuc v) zero h m = absurd (omega (arith, h))
zoned_round_trip (negsuc v) (suc n) h m =
    let (back, size) = zone_round (suc v) 13 n (omega (arith, h)) (omega (arith, m)) (inr refl) in
    let nonempty : (suc n == 0) ≡ false = ground arith in
    let not_least : (v == 2 ^ 63 - 1) ≡ false = ground (arith, m) in
    (zone (suc v) 0xD0 (suc n), rw nonempty (rw not_least refl), back, size)
