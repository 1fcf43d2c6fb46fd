-- ===== src/Tsq/Items.antt =====
-- The items of a queue: their numbers, their contents, their lengths.
use ibm_cics_emulation.Base.{
  ℕ, zero, suc, ◌+◌, ◌<◌, ◌≤◌, ◌≡◌, refl, List, [], ◌∷◌, ◌++◌, some, none, map, arith, length,
  get_elem?, set, erase_idx, Bytes, ap,
}
use ibm_cics_emulation.Result.{u32}
use ibm_cics_emulation.Tsq.{TsqItem, renumber, sum_lengths}

-- The items carry the numbers i + 1, i + 2, … in order.
abbrev pub Numbered : ℕ → List TsqItem → Type 0
Numbered i [] = Unit
Numbered i (x ∷ xs) = (x.item_number ≡ i + 1) × Numbered (i + 1) xs

-- What a reader of the queue sees.
abbrev pub contents : List TsqItem → List Bytes
contents = map λ x. x.bytes

pub Numbered-append :
    (i : ℕ) (xs : List TsqItem) (x : TsqItem)
    → Numbered i xs
    → x.item_number ≡ i + length xs + 1
    → Numbered i (xs ++ x ∷ [])
Numbered-append i [] x h e = (omega arith, tt)
Numbered-append i (y ∷ xs) x h e = (h.0, Numbered-append (i + 1) xs x h.1 (omega arith))

pub Numbered-set :
    (i k : ℕ) (xs : List TsqItem) (x : TsqItem) (b : Bytes)
    → Numbered i xs
    → get_elem? xs k ≡ some x
    → Numbered i (set xs k (record x { bytes = b }))
Numbered-set i k [] x b h e = tt
Numbered-set i zero (y ∷ xs) x b h e = (ground arith, h.1)
Numbered-set i (suc k) (y ∷ xs) x b h e = (h.0, Numbered-set (i + 1) k xs x b h.1 e)

pub Numbered-get_elem? :
    (i k : ℕ) (xs : List TsqItem) {x : TsqItem}
    → Numbered i xs
    → get_elem? xs k ≡ some x
    → x.item_number ≡ i + k + 1
Numbered-get_elem? i k [] h e = cc
Numbered-get_elem? i zero (y ∷ xs) h e = ground arith
Numbered-get_elem? i (suc k) (y ∷ xs) h e = omega (arith, Numbered-get_elem? (i + 1) k xs h.1 e)

renumber-Numbered :
    (from i : ℕ) (xs : List TsqItem)
    → from ≤ i
    → i + length xs < u32
    → Numbered i (renumber from i xs)
unfolding renumber
renumber-Numbered from i [] h s = tt
renumber-Numbered from i (x ∷ xs) h s =
    (ground arith, renumber-Numbered from (i + 1) xs (omega arith) (omega arith))

-- Taking an item out and renumbering those behind it leaves the items numbered in order.
pub renumber-erase_idx :
    (from i k : ℕ) (xs : List TsqItem)
    → from ≡ i + k
    → Numbered i xs
    → i + length xs < u32
    → Numbered i (renumber from i (erase_idx xs k))
unfolding renumber
renumber-erase_idx from i k [] e h s = tt
renumber-erase_idx from i zero (x ∷ xs) e h s =
    renumber-Numbered from i xs (omega arith) (omega arith)
renumber-erase_idx from i (suc k) (x ∷ xs) e h s =
    (ground arith, renumber-erase_idx from (i + 1) k xs (omega arith) h.1 (omega arith))

pub contents-renumber :
    (from i : ℕ) (xs : List TsqItem) → contents (renumber from i xs) ≡ contents xs
unfolding renumber
contents-renumber from i [] = refl
contents-renumber from i (x ∷ xs) = ground (arith, contents-renumber from (i + 1) xs)

pub length-contents : (xs : List TsqItem) → length (contents xs) ≡ length xs
length-contents [] = refl
length-contents (x ∷ xs) = ap suc (length-contents xs)

pub contents-append :
    (xs : List TsqItem) (x : TsqItem) → contents (xs ++ x ∷ []) ≡ contents xs ++ x.bytes ∷ []
contents-append [] x = refl
contents-append (y ∷ xs) x = ap (λ t. y.bytes ∷ t) (contents-append xs x)

pub contents-set :
    (xs : List TsqItem) (k : ℕ) (x : TsqItem) → contents (set xs k x) ≡ set (contents xs) k x.bytes
contents-set [] k x = refl
contents-set (y ∷ xs) zero x = refl
contents-set (y ∷ xs) (suc k) x = ap (λ t. y.bytes ∷ t) (contents-set xs k x)

pub contents-erase_idx :
    (xs : List TsqItem) (k : ℕ) → contents (erase_idx xs k) ≡ erase_idx (contents xs) k
contents-erase_idx [] k = refl
contents-erase_idx (y ∷ xs) zero = refl
contents-erase_idx (y ∷ xs) (suc k) = ap (λ t. y.bytes ∷ t) (contents-erase_idx xs k)

pub get_elem?-contents :
    (xs : List TsqItem) (k : ℕ) {x : TsqItem}
    → get_elem? xs k ≡ some x
    → get_elem? (contents xs) k ≡ some x.bytes
get_elem?-contents [] k e = cc
get_elem?-contents (y ∷ xs) zero e = cc
get_elem?-contents (y ∷ xs) (suc k) e = get_elem?-contents xs k e

pub length-renumber : (from i : ℕ) (xs : List TsqItem) → length (renumber from i xs) ≡ length xs
unfolding renumber
length-renumber from i [] = refl
length-renumber from i (x ∷ xs) = ap suc (length-renumber from (i + 1) xs)

pub sum-append :
    (xs : List TsqItem) (x : TsqItem) → sum_lengths (xs ++ x ∷ []) ≡ sum_lengths xs + length x.bytes
unfolding sum_lengths
sum-append [] x = omega arith
sum-append (y ∷ xs) x = omega (arith, sum-append xs x)

pub sum-set :
    (xs : List TsqItem) (k : ℕ) (x : TsqItem) (b : Bytes)
    → get_elem? xs k ≡ some x
    → sum_lengths (set xs k (record x { bytes = b })) + length x.bytes ≡ sum_lengths xs + length b
unfolding sum_lengths
sum-set [] k x b e = cc
sum-set (y ∷ xs) zero x b e = ground arith
sum-set (y ∷ xs) (suc k) x b e = omega (arith, sum-set xs k x b e)

pub sum-erase_idx :
    (xs : List TsqItem) (k : ℕ) (x : TsqItem)
    → get_elem? xs k ≡ some x
    → sum_lengths (erase_idx xs k) + length x.bytes ≡ sum_lengths xs
unfolding sum_lengths
sum-erase_idx [] k x e = cc
sum-erase_idx (y ∷ xs) zero x e = ground arith
sum-erase_idx (y ∷ xs) (suc k) x e = omega (arith, sum-erase_idx xs k x e)

pub sum-renumber :
    (from i : ℕ) (xs : List TsqItem) → sum_lengths (renumber from i xs) ≡ sum_lengths xs
unfolding sum_lengths renumber
sum-renumber from i [] = refl
sum-renumber from i (x ∷ xs) = ground (arith, sum-renumber from (i + 1) xs)

-- No item is longer than `n`.
abbrev pub Fits : ℕ → List TsqItem → Type 0
Fits n [] = Unit
Fits n (x ∷ xs) = (length x.bytes ≤ n) × Fits n xs

pub Fits-append :
    (n : ℕ) (xs : List TsqItem) (x : TsqItem)
    → Fits n xs
    → length x.bytes ≤ n
    → Fits n (xs ++ x ∷ [])
Fits-append n [] x h e = (e, tt)
Fits-append n (y ∷ xs) x h e = (h.0, Fits-append n xs x h.1 e)

pub Fits-set :
    (n : ℕ) (xs : List TsqItem) (k : ℕ) (x : TsqItem)
    → Fits n xs
    → length x.bytes ≤ n
    → Fits n (set xs k x)
Fits-set n [] k x h e = tt
Fits-set n (y ∷ xs) zero x h e = (e, h.1)
Fits-set n (y ∷ xs) (suc k) x h e = (h.0, Fits-set n xs k x h.1 e)

pub Fits-erase_idx : (n : ℕ) (xs : List TsqItem) (k : ℕ) → Fits n xs → Fits n (erase_idx xs k)
Fits-erase_idx n [] k h = tt
Fits-erase_idx n (y ∷ xs) zero h = h.1
Fits-erase_idx n (y ∷ xs) (suc k) h = (h.0, Fits-erase_idx n xs k h.1)

pub Fits-renumber : (n from i : ℕ) (xs : List TsqItem) → Fits n xs → Fits n (renumber from i xs)
unfolding renumber
Fits-renumber n from i [] h = tt
Fits-renumber n from i (x ∷ xs) h = (ground arith, Fits-renumber n from (i + 1) xs h.1)

pub get_elem?-contents-none :
    (xs : List TsqItem) (k : ℕ) → get_elem? xs k ≡ none → get_elem? (contents xs) k ≡ none
get_elem?-contents-none [] k e = refl
get_elem?-contents-none (y ∷ xs) zero e = cc
get_elem?-contents-none (y ∷ xs) (suc k) e = get_elem?-contents-none xs k e
