-- ===== src/Compression/Matches.antt =====
-- The matches that the LZ77 coder finds, and their copies: libs/compression/include/cics/compression/compression.hpp.
use ibm_cics_emulation.Base.{
  ℕ, zero, suc, ◌+◌, ◌-◌, ◌≤◌, ◌<◌, ◌≡◌, sym, ap, ◌∙◌, arith, ◌&&◌, some, [], ◌∷◌, ltb, leb, length,
  take, drop, get_elem?, get_elem?_total, Bytes, Bool-cases, inl, inr,
}
use ibm_cics_emulation.Result.{ok}
use ibm_cics_emulation.Compression.{common, best_match, find_match, copy}
use ibm_cics_emulation.Compression.Lists.{take-suc, get_elem?-take, get_elem?-drop, drop_long}

common_agrees : (n : ℕ) (s t : Bytes) (j : ℕ) → j < common n s t → get_elem? s j ≡ get_elem? t j
unfolding common
common_agrees zero s t j h = absurd (omega (arith, h))
common_agrees (suc n) [] t j h = absurd (omega (arith, h))
common_agrees (suc n) (c ∷ s) [] j h = absurd (omega (arith, h))
common_agrees (suc n) (c ∷ s) (d ∷ t) zero h = ground (arith, h)
common_agrees (suc n) (c ∷ s) (d ∷ t) (suc j) h = ground (arith, h, common_agrees n s t j)

common_small : (n : ℕ) (s t : Bytes) → (common n s t ≤ n) × (common n s t ≤ length t)
unfolding common
common_small zero s t = omega arith
common_small (suc n) [] t = omega arith
common_small (suc n) (c ∷ s) [] = omega arith
common_small (suc n) (c ∷ s) (d ∷ t) = ground (arith, common_small n s t)

-- A match that was found lies before the position, within the window and the data.
pub record IsMatch (input : Bytes) (pos : ℕ) (best : ℕ × ℕ) : Type 0 where
  pub short : best.1 ≤ 258
  pub within :
      3 ≤ best.1 → (1 ≤ best.0) × (best.0 ≤ pos) × (best.0 ≤ 4096) × (pos + best.1 ≤ length input)
  pub agrees :
      3 ≤ best.1
      → (j : ℕ) → j < best.1
      → get_elem? input (pos - best.0 + j) ≡ get_elem? input (pos + j)

common-IsMatch :
    (input : Bytes) (pos search : ℕ)
    → search < pos
    → pos ≤ search + 4096
    → pos ≤ length input
    → IsMatch input pos (pos - search, common 258 (drop search input) (drop pos input))
common-IsMatch input pos search h w l =
    let len : ℕ = common 258 (drop search input) (drop pos input) in
    let small = common_small 258 (drop search input) (drop pos input) in
    record {
      short = small.0;
      within = λ _. omega (arith, small, drop_long pos input, h, w, l);
      agrees = λ _ j lt.
          let back : pos - (pos - search) + j ≡ search + j = omega (arith, h) in
          ap (get_elem? input) back
          ∙ sym (get_elem?-drop search j input)
          ∙ common_agrees 258 (drop search input) (drop pos input) j lt
          ∙ get_elem?-drop pos j input;
    }

best_match-IsMatch :
    (count search : ℕ) (input : Bytes) (pos : ℕ) (best : ℕ × ℕ)
    → search + count ≤ pos
    → pos ≤ search + 4096
    → pos ≤ length input
    → IsMatch input pos best
    → IsMatch input pos (best_match count search input pos best)
unfolding best_match
best_match-IsMatch zero search input pos best h w l b = b
best_match-IsMatch (suc count) search input pos best h w l b =
    let len : ℕ = common 258 (drop search input) (drop pos input) in
    elim (Bool-cases (leb 3 len && ltb best.1 len)) [
      | inl e ↦
          rw (best_match, e)
            (best_match-IsMatch count (suc search) input pos (pos - search, len) (omega (arith, h))
              (omega (arith, w)) l (common-IsMatch input pos search (omega (arith, h)) w l))
      | inr e ↦
          rw (best_match, e)
            (best_match-IsMatch count (suc search) input pos best (omega (arith, h))
              (omega (arith, w)) l b)
    ]

pub find_match-IsMatch :
    (input : Bytes) (pos : ℕ) → pos ≤ length input → IsMatch input pos (find_match input pos)
unfolding find_match
find_match-IsMatch input pos l =
    let none_yet : IsMatch input pos (0, 0) = record {
      short = omega arith;
      within = λ h. absurd (omega (arith, h));
      agrees = λ h. absurd (omega (arith, h));
    } in
    elim (Bool-cases (ltb 4096 pos)) [
      | inl e ↦
          rw (find_match, e)
            (best_match-IsMatch (pos - (pos - 4096)) (pos - 4096) input pos (0, 0) (omega arith)
              (ground (arith, e)) l none_yet)
      | inr e ↦
          rw (find_match, e)
            (best_match-IsMatch (pos - 0) 0 input pos (0, 0) (omega arith) (ground (arith, e)) l
              none_yet)
    ]

-- A back-reference to bytes that are equal to the next ones brings those, also where it reaches into
-- them.
pub copy_lem :
    (n src pos : ℕ) (input : Bytes)
    → src < pos
    → pos + n ≤ length input
    → ((j : ℕ) → j < n → get_elem? input (src + j) ≡ get_elem? input (pos + j))
    → copy n src (take pos input) ≡ ok (take (pos + n) input)
unfolding copy
copy_lem zero src pos input h l same =
    let e : pos ≡ pos + 0 = omega arith in ap (λ k. ok (take k input)) e
copy_lem (suc n) src pos input h l same =
    let next = get_elem?_total input pos (omega (arith, l)) in
    let at_src : src + 0 ≡ src = omega arith in
    let at_pos : pos + 0 ≡ pos = omega arith in
    let found : get_elem? (take pos input) src ≡ some (next.0) =
      get_elem?-take src pos input h
      ∙ sym (ap (get_elem? input) at_src)
      ∙ same 0 (omega arith)
      ∙ ap (get_elem? input) at_pos
      ∙ next.1 in
    let end : suc pos + n ≡ pos + suc n = omega arith in
    rw (copy, found)
      (ap (copy n (suc src)) (sym (take-suc pos input next.1))
        ∙ copy_lem n (suc src) (suc pos) input (omega (arith, h)) (omega (arith, l)) (λ j lt.
          let s : suc src + j ≡ src + suc j = omega arith in
          let p : pos + suc j ≡ suc pos + j = omega arith in
          ap (get_elem? input) s ∙ same (suc j) (omega (arith, lt)) ∙ ap (get_elem? input) p)
        ∙ ap (λ k. ok (take k input)) end)
