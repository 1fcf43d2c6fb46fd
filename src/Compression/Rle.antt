-- ===== src/Compression/Rle.antt =====
-- The run-length coder: libs/compression/include/cics/compression/compression.hpp.
use ibm_cics_emulation.Base.{
  ℕ, zero, suc, ◌+◌, ◌≤◌, ◌≡◌, refl, sym, ap, ap₂, ◌∙◌, arith, false, [], ◌∷◌, ◌++◌, ltb, leb, ◌==◌,
  ==_iff, length, length-append, drop, Bytes, Bool-cases, inl, inr,
}
use ibm_cics_emulation.Result.{ok}
use ibm_cics_emulation.Compression.{
  leading, literals, rle_loop, rle_compress, replicate, unrle_loop, rle_decompress,
}
use ibm_cics_emulation.Compression.Lists.{take-append, drop-append, length-drop}

-- What `leading` counts is there.
leading_lem : (c n : ℕ) (s : Bytes) → replicate (leading c n s) c ++ drop (leading c n s) s ≡ s
unfolding leading replicate
leading_lem c zero s = refl
leading_lem c (suc n) [] = refl
leading_lem c (suc n) (d ∷ s) = elim (Bool-cases (d == c)) [
  | inl e ↦
      rw (leading, e)
        (ap₂ (λ (x : ℕ) (t : Bytes). x ∷ t) (sym ((==_iff d c).0 e)) (leading_lem c n s))
  | inr e ↦ rw (leading, e) refl
]

-- The literals and what is left are the data; what is left is shorter.
literals_lem : (k : ℕ) (s : Bytes) → (literals k s).0 ++ (literals k s).1 ≡ s
unfolding literals
literals_lem k [] = refl
literals_lem k (c ∷ s) = elim (Bool-cases (ltb k 127)) [
  | inr e ↦ rw (literals, e) refl
  | inl e ↦ elim (Bool-cases (leb 3 (suc (leading c 2 s)))) [
    | inr p ↦ rw (literals, e, p) (ap (λ (t : Bytes). c ∷ t) (literals_lem (suc k) s))
    | inl p ↦ elim (Bool-cases (ltb 0 k)) [
      | inl q ↦ rw (literals, e, p, q) refl
      | inr q ↦ rw (literals, e, p, q) refl
    ]
  ]
]

literals_shorter : (k : ℕ) (s : Bytes) → length (literals k s).1 ≤ length s
unfolding literals
literals_shorter k [] = omega arith
literals_shorter k (c ∷ s) = ground (arith, literals_shorter (suc k) s)

literals_left : (c : ℕ) (s : Bytes) → length (literals 0 (c ∷ s)).1 ≤ length s
unfolding literals
literals_left c s = elim (Bool-cases (leb 3 (suc (leading c 2 s)))) [
  | inl p ↦ rw (literals, p) (omega arith)
  | inr p ↦ rw (literals, p) (literals_shorter 1 s)
]

unrle_run :
    (big r v : ℕ) (t rest : Bytes)
    → unrle_loop big t ≡ ok rest
    → unrle_loop (suc big) (suc r ∷ v ∷ t) ≡ ok (replicate (suc r) v ++ rest)
unfolding unrle_loop
unrle_run big r v t rest e =
    let run : (suc r == 0) ≡ false = ground arith in rw (unrle_loop, run, e) refl

unrle_literals :
    (big : ℕ) (lits t rest : Bytes)
    → unrle_loop big t ≡ ok rest
    → unrle_loop (suc big) (0 ∷ length lits ∷ (lits ++ t)) ≡ ok (lits ++ rest)
unfolding unrle_loop
unrle_literals big lits t rest e =
    let enough : ltb (length (lits ++ t)) (length lits) ≡ false =
      ground (arith, length-append lits t) in
    rw (unrle_loop, enough, drop-append lits t, e, take-append lits t) refl

abbrev Undone : ℕ → Type 0
Undone fuel =
    (big : ℕ) (t : Bytes)
    → length t ≤ fuel
    → length (rle_loop fuel t) ≤ big
    → unrle_loop big (rle_loop fuel t) ≡ ok t

undo_run :
    (fuel big c r : ℕ) (s : Bytes)
    → Undone fuel
    → length s ≤ fuel
    → replicate r c ++ drop r s ≡ s
    → length (rle_loop fuel (drop r s)) + 2 ≤ big
    → unrle_loop big (suc r ∷ c ∷ rle_loop fuel (drop r s)) ≡ ok (c ∷ s)
unfolding replicate
undo_run fuel zero c r s ih h e k = absurd (omega (arith, k))
undo_run fuel (suc big) c r s ih h e k =
    unrle_run big r c (rle_loop fuel (drop r s)) (drop r s)
      (ih big (drop r s) (omega (arith, h, length-drop r s)) (omega (arith, k)))
    ∙ ap (λ (t : Bytes). ok (c ∷ t)) e

undo_literals :
    (fuel big : ℕ) (lits left : Bytes)
    → Undone fuel
    → length left ≤ fuel
    → length (lits ++ rle_loop fuel left) + 2 ≤ big
    → unrle_loop big (0 ∷ length lits ∷ (lits ++ rle_loop fuel left)) ≡ ok (lits ++ left)
undo_literals fuel zero lits left ih h k = absurd (omega (arith, k))
undo_literals fuel (suc big) lits left ih h k =
    unrle_literals big lits (rle_loop fuel left) left
      (ih big left h (omega (arith, k, length-append lits (rle_loop fuel left))))

-- Every round of the decoder undoes one round of the coder.
unrle_loop-rle_loop : (fuel : ℕ) → Undone fuel
unfolding rle_loop unrle_loop
unrle_loop-rle_loop fuel big [] h k = refl
unrle_loop-rle_loop zero big (c ∷ s) h k = absurd (omega (arith, h))
unrle_loop-rle_loop (suc fuel) big (c ∷ s) h k =
    let r : ℕ = leading c 126 s in
    let lits : Bytes = (literals 0 (c ∷ s)).0 in
    let left : Bytes = (literals 0 (c ∷ s)).1 in
    elim (Bool-cases (leb 3 (suc r))) [
      | inl e ↦
          let code : rle_loop (suc fuel) (c ∷ s) ≡ suc r ∷ c ∷ rle_loop fuel (drop r s) =
            rw (rle_loop, e) refl in
          ap (unrle_loop big) code
          ∙ undo_run fuel big c r s (unrle_loop-rle_loop fuel) (omega (arith, h))
              (leading_lem c 126 s) (omega (arith, k, ap length code))
      | inr e ↦
          let code : rle_loop (suc fuel) (c ∷ s) ≡ 0 ∷ length lits ∷ (lits ++ rle_loop fuel left) =
            rw (rle_loop, e) refl in
          ap (unrle_loop big) code
          ∙ undo_literals fuel big lits left (unrle_loop-rle_loop fuel)
              (omega (arith, h, literals_left c s)) (omega (arith, k, ap length code))
          ∙ ap ok (literals_lem 0 (c ∷ s))
    ]

-- Run-length decoding undoes run-length coding.
pub rle_decompress-rle_compress : (s : Bytes) → rle_decompress (rle_compress s) ≡ ok s
unfolding rle_decompress rle_compress
rle_decompress-rle_compress s =
    unrle_loop-rle_loop (length s) (length (rle_loop (length s) s)) s (omega arith) (omega arith)
