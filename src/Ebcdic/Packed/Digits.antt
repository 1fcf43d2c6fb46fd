-- ===== src/Ebcdic/Packed/Digits.antt =====
-- What the loop of int64_to_packed leaves in the buffer.
use ibm_cics_emulation.Base.{
  ℕ, zero, suc, ◌+◌, ◌-◌, ◌*◌, ◌/◌, ◌%◌, ◌^◌, ◌<◌, Bool, true, false, ◌&&◌, [], ◌∷◌, ◌++◌, length,
  set, Bytes, ltb, ◌≡◌, refl, sym, ap, ap₂, ◌∙◌, arith, length-append,
}
use mathlib.Core.List.{append_assoc, append-nil}
use ibm_cics_emulation.Ebcdic.Packed.{pack_loop, pack, zeros, byte_at}

-- `n` bytes that hold the last 2 n digits of a value.
unfoldable pub pairs : ℕ → ℕ → Bytes
pairs zero v = []
pairs (suc n) v = pairs n (v / 100) ++ (v / 10 % 10 * 16 + v % 10) ∷ []

zeros-end : (n : ℕ) (t : Bytes) → zeros (suc n) ++ t ≡ zeros n ++ 0 ∷ t
zeros-end zero t = refl
zeros-end (suc n) t = ap (λ s. 0 ∷ s) (zeros-end n t)

pairs-zero : (n : ℕ) (t : Bytes) → pairs n 0 ++ t ≡ zeros n ++ t
unfolding pairs
pairs-zero zero t = refl
pairs-zero (suc n) t =
    append_assoc (pairs n 0) (0 ∷ []) t ∙ pairs-zero n (0 ∷ t) ∙ sym (zeros-end n t)

-- The byte behind `n` zeros.
byte_at_end : (n b : ℕ) (t : Bytes) → byte_at (zeros n ++ b ∷ t) n ≡ b
byte_at_end zero b t = refl
byte_at_end (suc n) b t = byte_at_end n b t

set_end : (n b c : ℕ) (t : Bytes) → set (zeros n ++ b ∷ t) n c ≡ zeros n ++ c ∷ t
set_end zero b c t = refl
set_end (suc n) b c t = ap (λ s. 0 ∷ s) (set_end n b c t)

length_end : (n : ℕ) (t : Bytes) → length (zeros n ++ t) ≡ n + length t
length_end zero t = omega arith
length_end (suc n) t = omega (arith, length_end n t)

-- A loop whose value is used up stops.
loop_stop : (f : ℕ) (buf : Bytes) (i : ℕ) (h : Bool) → pack_loop f 0 buf i h ≡ buf
unfolding pack_loop
loop_stop zero buf i h = refl
loop_stop (suc f) buf i h = refl

step_high :
    (f v p b : ℕ) (t : Bytes)
    → 0 < v
    → pack_loop (suc f) v (zeros p ++ b ∷ t) p true
      ≡ pack_loop f (v / 10) (zeros p ++ (b % 16 + 16 * (v % 10)) ∷ t) (p - 1) false
unfolding pack_loop
step_high f v p b t h =
    let more : (ltb 0 v && ltb p (length (zeros p ++ b ∷ t))) ≡ true =
      ground (arith, length_end p (b ∷ t)) in
    ground (arith, more, byte_at_end p b t, set_end p b (b % 16 + 16 * (v % 10)) t)

step_low :
    (f v p b c : ℕ) (t : Bytes)
    → 0 < v
    → pack_loop (suc f) v (zeros p ++ b ∷ c ∷ t) p false
      ≡ pack_loop f (v / 10) (zeros p ++ (b / 16 * 16 + v % 10) ∷ c ∷ t) p true
unfolding pack_loop
step_low f v p b c t h =
    let more : (ltb 0 v && ltb p (length (zeros p ++ b ∷ c ∷ t))) ≡ true =
      ground (arith, length_end p (b ∷ c ∷ t)) in
    let inside : ltb p (length (zeros p ++ b ∷ c ∷ t) - 1) ≡ true =
      ground (arith, length_end p (b ∷ c ∷ t)) in
    ground
      (arith, more, inside, byte_at_end p b (c ∷ t), set_end p b (b / 16 * 16 + v % 10) (c ∷ t))

-- The loop fills `p` zero bytes from the right with the digits of a value.
abbrev Fills : ℕ → Type 0
Fills p =
    (f v c : ℕ) (t : Bytes)
    → v < 10 ^ f
    → v < 100 ^ p
    → pack_loop f v (zeros p ++ c ∷ t) (p - 1) false ≡ pairs p v ++ c ∷ t

fill_high :
    (p f u d : ℕ) (t : Bytes)
    → Fills p
    → u < 10 ^ f
    → u < 10 * 100 ^ p
    → d < 16
    → pack_loop f u (zeros p ++ d ∷ t) p true ≡ pairs p (u / 10) ++ (u % 10 * 16 + d) ∷ t
fill_high p f zero d t fills hf hp hd =
    let byte : d ≡ 0 % 10 * 16 + d = omega arith in
    loop_stop f (zeros p ++ d ∷ t) p true
    ∙ sym (pairs-zero p (d ∷ t))
    ∙ ap (λ x. pairs p 0 ++ x ∷ t) byte
fill_high p zero (suc u) d t fills hf hp hd = absurd (omega (arith, hf))
fill_high p (suc f) (suc u) d t fills hf hp hd =
    let v = suc u in
    let byte : d % 16 + 16 * (v % 10) ≡ v % 10 * 16 + d = omega (arith, hd) in
    step_high f v p d t (omega arith)
    ∙ fills f (v / 10) (d % 16 + 16 * (v % 10)) t (omega (arith, hf)) (omega (arith, hp))
    ∙ ap (λ x. pairs p (v / 10) ++ x ∷ t) byte

loop-Fills : (p : ℕ) → Fills p
unfolding pairs
loop-Fills zero f v c t hf hp =
    let none_left : v ≡ 0 = omega (arith, hp) in rw none_left (loop_stop f (c ∷ t) 0 false)
loop-Fills (suc p) f zero c t hf hp =
    loop_stop f (zeros (suc p) ++ c ∷ t) (suc p - 1) false ∙ sym (pairs-zero (suc p) (c ∷ t))
loop-Fills (suc p) zero (suc v) c t hf hp = absurd (omega (arith, hf))
loop-Fills (suc p) (suc f) (suc w) c t hf hp =
    let v = suc w in
    let low : 0 / 16 * 16 + v % 10 ≡ v % 10 = omega arith in
    let hundred : v / 10 / 10 ≡ v / 100 = omega arith in
    let previous : suc p - 1 ≡ p = omega arith in
    ap (λ i. pack_loop (suc f) v (zeros (suc p) ++ c ∷ t) i false) previous
    ∙ ap (λ s. pack_loop (suc f) v s p false) (zeros-end p (c ∷ t))
    ∙ step_low f v p 0 c t (omega arith)
    ∙ ap (λ x. pack_loop f (v / 10) (zeros p ++ x ∷ c ∷ t) p true) low
    ∙ fill_high p f (v / 10) (v % 10) (c ∷ t) (loop-Fills p) (omega (arith, hf)) (omega (arith, hp))
        (omega arith)
    ∙ ap (λ x. pairs p x ++ (v / 10 % 10 * 16 + v % 10) ∷ c ∷ t) hundred
    ∙ sym (append_assoc (pairs p (v / 100)) ((v / 10 % 10 * 16 + v % 10) ∷ []) (c ∷ t))

-- The buffer of a value that fits: its digits, and the sign behind the last.
pub pack-pairs :
    (v sign n : ℕ)
    → v < 10 ^ 20
    → v < 10 * 100 ^ n
    → sign < 16
    → pack v sign (suc n) ≡ pairs n (v / 10) ++ (v % 10 * 16 + sign) ∷ []
unfolding pack
pack-pairs v sign n hf hp hs =
    let last : suc n - 1 ≡ n = omega arith in
    let signed : set (zeros (suc n)) (suc n - 1) sign ≡ zeros n ++ sign ∷ [] =
      ap (λ i. set (zeros (suc n)) i sign) last
      ∙ ap (λ s. set s n sign) (sym (append-nil (zeros (suc n))) ∙ zeros-end n [])
      ∙ set_end n 0 sign [] in
    ap₂ (λ s i. pack_loop 20 v s i true) signed last
    ∙ fill_high n 20 v sign [] (loop-Fills n) hf hp hs

pub length-pairs : (n v : ℕ) → length (pairs n v) ≡ n
unfolding pairs
length-pairs zero v = refl
length-pairs (suc n) v = omega (
  arith,
  length-append (pairs n (v / 100)) ((v / 10 % 10 * 16 + v % 10) ∷ []),
  length-pairs n (v / 100),
)
