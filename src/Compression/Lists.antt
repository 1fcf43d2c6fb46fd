-- ===== src/Compression/Lists.antt =====
-- Lists cut and put together again.
use Prim.Native.Nat.{max}
use ibm_cics_emulation.Base.{
  ℕ, zero, suc, ◌+◌, ◌≤◌, ◌<◌, ◌≡◌, refl, ap, ◌∙◌, arith, some, List, [], ◌∷◌, ◌++◌, length, take,
  drop, get_elem?,
}

module _ {ℓ} {A : Type ℓ} where
  pub take-append : (xs ys : List A) → take (length xs) (xs ++ ys) ≡ xs
  take-append [] ys = refl
  take-append (x ∷ xs) ys = ap (λ (zs : List A). x ∷ zs) (take-append xs ys)

  pub drop-append : (xs ys : List A) → drop (length xs) (xs ++ ys) ≡ ys
  drop-append [] ys = refl
  drop-append (x ∷ xs) ys = drop-append xs ys

  pub length-drop : (n : ℕ) (xs : List A) → length (drop n xs) ≤ length xs
  length-drop zero xs = omega arith
  length-drop (suc n) [] = omega arith
  length-drop (suc n) (x ∷ xs) = omega (arith, length-drop n xs)

  -- One element more.
  pub take-suc :
      (n : ℕ) (xs : List A) {x : A}
      → get_elem? xs n ≡ some x
      → take (suc n) xs ≡ take n xs ++ x ∷ []
  take-suc n [] e = cc
  take-suc zero (y ∷ xs) e = cc
  take-suc (suc n) (y ∷ xs) e = ap (λ (zs : List A). y ∷ zs) (take-suc n xs e)

  pub get_elem?-take : (i n : ℕ) (xs : List A) → i < n → get_elem? (take n xs) i ≡ get_elem? xs i
  get_elem?-take i zero xs h = absurd (omega (arith, h))
  get_elem?-take i (suc n) [] h = refl
  get_elem?-take zero (suc n) (x ∷ xs) h = refl
  get_elem?-take (suc i) (suc n) (x ∷ xs) h = get_elem?-take i n xs (omega (arith, h))

  pub get_elem?-drop : (p j : ℕ) (xs : List A) → get_elem? (drop p xs) j ≡ get_elem? xs (p + j)
  get_elem?-drop zero j xs = let e : j ≡ 0 + j = omega arith in ap (get_elem? xs) e
  get_elem?-drop (suc p) j [] = refl
  get_elem?-drop (suc p) j (x ∷ xs) =
      let e : suc (p + j) ≡ suc p + j = omega arith in
      get_elem?-drop p j xs ∙ ap (get_elem? (x ∷ xs)) e

  pub drop_long : (p : ℕ) (xs : List A) → length (drop p xs) + p ≤ max p (length xs)
  drop_long zero xs = omega arith
  drop_long (suc p) [] = omega arith
  drop_long (suc p) (x ∷ xs) = omega (arith, drop_long p xs)
