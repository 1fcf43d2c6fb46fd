-- ===== src/Compression/Lz77.antt =====
-- The LZ77 coder: libs/compression/include/cics/compression/compression.hpp.
use ibm_cics_emulation.Base.{
  ℕ, zero, suc, ◌+◌, ◌-◌, ◌*◌, ◌/◌, ◌%◌, ◌≤◌, ◌≡◌, refl, sym, ap, ◌∙◌, arith, false, some, [], ◌∷◌,
  ◌++◌, ltb, leb, ◌==◌, length, length-take, take, take_all, get_elem?, get_elem?_total,
  get_elem?_lt, Bytes, Bool-cases, Option-cases, inl, inr,
}
use ibm_cics_emulation.Result.{ok}
use ibm_cics_emulation.Compression.{
  find_match, lz77_loop, lz77_compress, copy, unlz77_loop, lz77_decompress,
}
use ibm_cics_emulation.Compression.Lists.{take-suc}
use ibm_cics_emulation.Compression.Matches.{IsMatch, find_match-IsMatch, copy_lem}

step_literal :
    (big c : ℕ) (s result : Bytes)
    → (c == 255) ≡ false
    → unlz77_loop (suc big) (c ∷ s) result ≡ unlz77_loop big s (result ++ c ∷ [])
unfolding unlz77_loop
step_literal big c s result e = rw (unlz77_loop, e) refl

step_escape :
    (big c : ℕ) (s result : Bytes)
    → unlz77_loop (suc big) (255 ∷ 0 ∷ 0 ∷ c ∷ s) result ≡ unlz77_loop big s (result ++ c ∷ [])
unfolding unlz77_loop
step_escape big c s result = refl

step_match :
    (big offset len : ℕ) (s result longer : Bytes)
    → 3 ≤ len
    → len ≤ 258
    → 1 ≤ offset
    → offset ≤ 4096
    → offset ≤ length result
    → copy len (length result - offset) result ≡ ok longer
    → unlz77_loop (suc big) (255 ∷ offset / 256 % 256 ∷ offset % 256 ∷ (len - 3) % 256 ∷ s) result
      ≡ unlz77_loop big s longer
unfolding unlz77_loop
step_match big offset len s result longer a b c d e f =
    let whole : offset / 256 % 256 * 256 + offset % 256 ≡ offset = omega (arith, d) in
    let size : (len - 3) % 256 + 3 ≡ len = omega (arith, a, b) in
    let some_offset : (offset == 0) ≡ false = ground (arith, c) in
    let before : ltb (length result) offset ≡ false = ground (arith, e) in
    rw (unlz77_loop, whole, some_offset, before, size, f) refl

abbrev Undone : Bytes → ℕ → ℕ → Type 0
Undone input fuel pos =
    (big : ℕ)
    → length input ≤ pos + fuel
    → pos ≤ length input
    → length (lz77_loop fuel input pos) ≤ big
    → unlz77_loop big (lz77_loop fuel input pos) (take pos input) ≡ ok input

at_end :
    (input : Bytes) (big pos : ℕ)
    → length input ≤ pos
    → unlz77_loop big [] (take pos input) ≡ ok input
unfolding unlz77_loop
at_end input big pos h = ap ok (take_all pos input h)

undo_match :
    (input : Bytes) (fuel big pos : ℕ) (best : ℕ × ℕ)
    → Undone input fuel (pos + best.1)
    → IsMatch input pos best
    → 3 ≤ best.1
    → length input ≤ pos + suc fuel
    → pos ≤ length input
    → length (lz77_loop fuel input (pos + best.1)) + 4 ≤ big
    → unlz77_loop big
        (255
          ∷ best.0 / 256 % 256
          ∷ best.0 % 256
          ∷ (best.1 - 3) % 256
          ∷ lz77_loop fuel input (pos + best.1))
        (take pos input)
      ≡ ok input
undo_match input fuel zero pos best ih m long h l k = absurd (omega (arith, k))
undo_match input fuel (suc big) pos best ih m long h l k =
    let w = m.within long in
    let size = length-take pos input l in
    let from : length (take pos input) - best.0 ≡ pos - best.0 = omega (arith, size) in
    step_match big best.0 best.1 (lz77_loop fuel input (pos + best.1)) (take pos input)
      (take (pos + best.1) input) long m.short w.0 w.2 (omega (arith, size, w))
      (ap (λ x. copy best.1 x (take pos input)) from
        ∙ copy_lem best.1 (pos - best.0) pos input (omega (arith, w)) (w.3) (m.agrees long))
    ∙ ih big (omega (arith, h, long)) (w.3) (omega (arith, k))

undo_literal :
    (input : Bytes) (fuel big pos c : ℕ)
    → Undone input fuel (suc pos)
    → get_elem? input pos ≡ some c
    → length input ≤ pos + suc fuel
    → suc pos ≤ length input
    → length (lz77_loop fuel input (suc pos)) ≤ big
    → unlz77_loop big (lz77_loop fuel input (suc pos)) (take pos input ++ c ∷ []) ≡ ok input
undo_literal input fuel big pos c ih e h l k =
    ap (unlz77_loop big (lz77_loop fuel input (suc pos))) (sym (take-suc pos input e))
    ∙ ih big (omega (arith, h)) l k

undo_plain :
    (input : Bytes) (fuel big pos c : ℕ)
    → Undone input fuel (suc pos)
    → get_elem? input pos ≡ some c
    → (c == 255) ≡ false
    → length input ≤ pos + suc fuel
    → suc pos ≤ length input
    → length (lz77_loop fuel input (suc pos)) + 1 ≤ big
    → unlz77_loop big (c ∷ lz77_loop fuel input (suc pos)) (take pos input) ≡ ok input
undo_plain input fuel zero pos c ih e n h l k = absurd (omega (arith, k))
undo_plain input fuel (suc big) pos c ih e n h l k =
    step_literal big c (lz77_loop fuel input (suc pos)) (take pos input) n
    ∙ undo_literal input fuel big pos c ih e h l (omega (arith, k))

undo_escape :
    (input : Bytes) (fuel big pos c : ℕ)
    → Undone input fuel (suc pos)
    → get_elem? input pos ≡ some c
    → length input ≤ pos + suc fuel
    → suc pos ≤ length input
    → length (lz77_loop fuel input (suc pos)) + 4 ≤ big
    → unlz77_loop big (255 ∷ 0 ∷ 0 ∷ c ∷ lz77_loop fuel input (suc pos)) (take pos input) ≡ ok input
undo_escape input fuel zero pos c ih e h l k = absurd (omega (arith, k))
undo_escape input fuel (suc big) pos c ih e h l k =
    step_escape big c (lz77_loop fuel input (suc pos)) (take pos input)
    ∙ undo_literal input fuel big pos c ih e h l (omega (arith, k))

-- Every round of the decoder undoes one round of the coder.
unlz77_loop-lz77_loop : (input : Bytes) (fuel pos : ℕ) → Undone input fuel pos
unfolding lz77_loop
unlz77_loop-lz77_loop input zero pos big h l k = at_end input big pos (omega (arith, h))
unlz77_loop-lz77_loop input (suc fuel) pos big h l k = elim (Bool-cases (ltb pos (length input))) [
  | inr past ↦ elim (Option-cases (get_elem? input pos)) [
    | inl e ↦
        let code : lz77_loop (suc fuel) input pos ≡ [] = rw (lz77_loop, e) refl in
        ap (λ s. unlz77_loop big s (take pos input)) code
        ∙ at_end input big pos (ground (arith, past))
    | inr (c, e) ↦ absurd (ground (arith, past, get_elem?_lt input pos e))
  ]
  | inl inside ↦
      let here = get_elem?_total input pos (ground (arith, inside)) in
      let c : ℕ = here.0 in
      let e : get_elem? input pos ≡ some c = here.1 in
      let best : ℕ × ℕ = find_match input pos in
      let less : suc pos ≤ length input = ground (arith, inside) in
      elim (Bool-cases (leb 3 best.1)) [
        | inl long ↦
            let code : lz77_loop (suc fuel) input pos
                ≡ 255
                  ∷ best.0 / 256 % 256
                  ∷ best.0 % 256
                  ∷ (best.1 - 3) % 256
                  ∷ lz77_loop fuel input (pos + best.1) =
              rw (lz77_loop, e, long) refl in
            ap (λ s. unlz77_loop big s (take pos input)) code
            ∙ undo_match input fuel big pos best (unlz77_loop-lz77_loop input fuel (pos + best.1))
                (find_match-IsMatch input pos l) (ground (arith, long)) h l
                (omega (arith, k, ap length code))
        | inr short ↦ elim (Bool-cases (c == 255)) [
          | inl mark ↦
              let code : lz77_loop (suc fuel) input pos
                  ≡ 255 ∷ 0 ∷ 0 ∷ c ∷ lz77_loop fuel input (suc pos) =
                rw (lz77_loop, e, short, mark) refl in
              ap (λ s. unlz77_loop big s (take pos input)) code
              ∙ undo_escape input fuel big pos c (unlz77_loop-lz77_loop input fuel (suc pos)) e h
                  less (omega (arith, k, ap length code))
          | inr plain ↦
              let code : lz77_loop (suc fuel) input pos ≡ c ∷ lz77_loop fuel input (suc pos) =
                rw (lz77_loop, e, short, plain) refl in
              ap (λ s. unlz77_loop big s (take pos input)) code
              ∙ undo_plain input fuel big pos c (unlz77_loop-lz77_loop input fuel (suc pos)) e plain
                  h less (omega (arith, k, ap length code))
        ]
      ]
]

-- LZ77 decoding undoes LZ77 coding.
pub lz77_decompress-lz77_compress : (s : Bytes) → lz77_decompress (lz77_compress s) ≡ ok s
unfolding lz77_decompress lz77_compress
lz77_decompress-lz77_compress s =
    unlz77_loop-lz77_loop s (length s) 0 (length (lz77_loop (length s) s 0)) (omega arith)
      (omega arith) (omega arith)
