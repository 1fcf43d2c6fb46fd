-- ===== src/Storage/Balance.antt =====
-- The blocks against the statistics: libs/storage-control/src/storage_control.cpp.
use ibm_cics_emulation.Base.{
  ℕ, ◌+◌, ◌%◌, ◌<◌, ◌≡◌, refl, sym, ap, subst, arith, Bool, false, none, some, List, [], ◌∷◌, ltb,
  ◌==◌, ==_iff, if◌then◌else◌, Bool-cases, Option-cases, ◌⊎◌, inl, inr, Bytes,
}
use ibm_cics_emulation.Result.{u64, add64}
use ibm_cics_emulation.Storage.{
  StorageClass, StorageInit, StorageBlock, StorageControlManager, find, erase, aligned, getmain,
  allocate, release, freemain, freemain_sized, get_block_info, free_all, count_getmain,
  count_failure, count_freemain, sum_sizes,
}

unfoldable pub total : List StorageBlock → ℕ
total [] = 0
total (b ∷ bs) = b.size + total bs

-- The addresses are not null and differ.
abbrev pub IsDistinct : List StorageBlock → Type 0
IsDistinct [] = Unit
IsDistinct (b ∷ bs) = (find b.address bs ≡ none) × ((b.address == 0) ≡ false) × IsDistinct bs

-- No block has a task: getmain records task 0.
abbrev pub Unowned : List StorageBlock → Type 0
Unowned [] = Unit
Unowned (b ∷ bs) = (b.task_id ≡ 0) × Unowned bs

pub record IsBalanced (m : StorageControlManager) : Type 0 where
  pub distinct : IsDistinct m.allocations
  pub unowned : Unowned m.allocations
  pub current_in : m.stats.current_allocated ≡ total m.allocations % u64

pub find_address :
    (a : ℕ) (bs : List StorageBlock) (b : StorageBlock) → find a bs ≡ some b → b.address ≡ a
unfolding find
find_address a [] b e = cc
find_address a (c ∷ bs) b e =
    ground (arith, e, ==_iff c.address a, find_address a bs b, ap StorageBlock.address)

pub erase_fresh : (a : ℕ) (bs : List StorageBlock) → find a bs ≡ none → erase a bs ≡ bs
unfolding find erase
erase_fresh a [] e = refl
erase_fresh a (c ∷ bs) e = ground (arith, erase_fresh a bs)

pub find-erase :
    (a c : ℕ) (bs : List StorageBlock) → find a (erase c bs) ≡ (if c == a then none else find a bs)
unfolding find erase
find-erase a c [] = ground arith
find-erase a c (b ∷ bs) = ground (arith, find-erase a c bs)

erase-IsDistinct : (a : ℕ) (bs : List StorageBlock) → IsDistinct bs → IsDistinct (erase a bs)
unfolding erase
erase-IsDistinct a [] d = tt
erase-IsDistinct a (b ∷ bs) d =
    ground (arith, d, erase-IsDistinct a bs d.2, find-erase b.address a bs)

erase-Unowned : (a : ℕ) (bs : List StorageBlock) → Unowned bs → Unowned (erase a bs)
unfolding erase
erase-Unowned a [] d = tt
erase-Unowned a (b ∷ bs) d = ground (arith, d, erase-Unowned a bs d.1)

total-erase :
    (a : ℕ) (bs : List StorageBlock) (b : StorageBlock)
    → IsDistinct bs
    → find a bs ≡ some b
    → total (erase a bs) + b.size ≡ total bs
unfolding total find erase
total-erase a [] b d e = cc
total-erase a (c ∷ bs) b d e = elim (Bool-cases (c.address == a)) [
  | inl same ↦
      let at_a : c.address ≡ a = (==_iff c.address a).0 same in
      let gone : erase a bs ≡ bs = erase_fresh a bs (subst (λ x. find x bs ≡ none) at_a d.0) in
      let e2 : some c ≡ some b = subst (λ x. (if x then some c else find a bs) ≡ some b) same e in
      let it : c.size ≡ b.size = cc in rw (same, gone) (omega (arith, it))
  | inr other ↦
      let e2 : find a bs ≡ some b =
        subst (λ x. (if x then some c else find a bs) ≡ some b) other e in
      rw other (omega (arith, total-erase a bs b d.2 e2))
]

pub sum_sizes-total :
    (n : ℕ) (bs : List StorageBlock) → n < u64 → sum_sizes n bs ≡ (n + total bs) % u64
unfolding sum_sizes total
sum_sizes-total n [] h = omega (arith, h)
sum_sizes-total n (b ∷ bs) h = omega (arith, sum_sizes-total (add64 n b.size) bs (omega arith))

release-IsBalanced :
    (b : StorageBlock) (m : StorageControlManager)
    → find b.address m.allocations ≡ some b
    → IsBalanced m
    → IsBalanced (release b m)
unfolding release
release-IsBalanced b m e s = record {
  distinct = erase-IsDistinct b.address m.allocations s.distinct;
  unowned = erase-Unowned b.address m.allocations s.unowned;
  current_in = omega (arith, s.current_in, total-erase b.address m.allocations b s.distinct e);
}

found-IsBalanced :
    (a : ℕ) (b : StorageBlock) (m : StorageControlManager)
    → find a m.allocations ≡ some b
    → IsBalanced m
    → IsBalanced (release b m)
found-IsBalanced a b m e s =
    release-IsBalanced b m
      (subst (λ x. find x m.allocations ≡ some b) (sym (find_address a m.allocations b e)) e) s

counted-IsBalanced : (m : StorageControlManager) → IsBalanced m → IsBalanced (count_freemain m)
unfolding count_freemain
counted-IsBalanced m s = record {
  distinct = s.distinct;
  unowned = s.unowned;
  current_in = s.current_in;
}

allocate-IsBalanced :
    (size n : ℕ) (cls : StorageClass) (init : StorageInit) (is_shared : Bool) (tag : Bytes) (a : ℕ)
    (m : StorageControlManager)
    → find a m.allocations ≡ none
    → (a == 0) ≡ false
    → IsBalanced m
    → IsBalanced (allocate size n cls init is_shared tag a m)
unfolding allocate total
allocate-IsBalanced size n cls init is_shared tag a m e h s =
    let fresh = erase_fresh a m.allocations e in
    record {
      distinct = (rw fresh e, h, erase-IsDistinct a m.allocations s.distinct);
      unowned = (refl, erase-Unowned a m.allocations s.unowned);
      current_in = rw fresh (omega (arith, s.current_in));
    }

pub free_all-IsBalanced :
    (addresses : List ℕ) (m : StorageControlManager)
    → IsBalanced m
    → IsBalanced (free_all addresses m)
unfolding free_all
free_all-IsBalanced [] m s = s
free_all-IsBalanced (a ∷ rest) m s = elim (Option-cases (find a m.allocations)) [
  | inl e ↦ rw (free_all, e) (free_all-IsBalanced rest m s)
  | inr (b, e) ↦
      rw (free_all, e) (free_all-IsBalanced rest (release b m) (found-IsBalanced a b m e s))
]

pub freemain-IsBalanced :
    (a : ℕ) (m : StorageControlManager) → IsBalanced m → IsBalanced (freemain a m).1
unfolding freemain count_freemain
freemain-IsBalanced a m s = elim (Bool-cases (a == 0)) [
  | inl z ↦ rw (freemain, z) (counted-IsBalanced m s)
  | inr nz ↦ elim (Option-cases (find a m.allocations)) [
    | inl e ↦ rw (freemain, nz, e) (counted-IsBalanced m s)
    | inr (b, e) ↦
        rw (freemain, nz, e) (found-IsBalanced a b (count_freemain m) e (counted-IsBalanced m s))
  ]
]

pub freemain_sized-IsBalanced :
    (a size : ℕ) (m : StorageControlManager) → IsBalanced m → IsBalanced (freemain_sized a size m).1
unfolding freemain_sized get_block_info
freemain_sized-IsBalanced a size m s = elim (Option-cases (find a m.allocations)) [
  | inl e ↦ rw (freemain_sized, get_block_info, e) s
  | inr (b, e) ↦ rw (freemain_sized, get_block_info, e) (freemain-IsBalanced a m s)
]

pub getmain-IsBalanced :
    (size : ℕ) (cls : StorageClass) (init : StorageInit) (is_shared : Bool) (tag : Bytes) (a : ℕ)
    (m : StorageControlManager)
    → (a ≡ 0) ⊎ (find a m.allocations ≡ none)
    → IsBalanced m
    → IsBalanced (getmain size cls init is_shared tag a m).1
unfolding getmain count_getmain count_failure
getmain-IsBalanced size cls init is_shared tag a m offer s =
    let counted : IsBalanced (count_getmain m) = record {
      distinct = s.distinct;
      unowned = s.unowned;
      current_in = s.current_in;
    } in
    let failed : IsBalanced (count_failure (count_getmain m)) = record {
      distinct = s.distinct;
      unowned = s.unowned;
      current_in = s.current_in;
    } in
    elim (Bool-cases (size == 0)) [
      | inl e ↦ rw (getmain, e) counted
      | inr e ↦ elim (Bool-cases (ltb m.max_storage (add64 m.stats.current_allocated size))) [
        | inl f ↦ rw (getmain, e, f) failed
        | inr f ↦ elim (Bool-cases (a == 0)) [
          | inl g ↦ rw (getmain, e, f, g) failed
          | inr g ↦
              rw (getmain, e, f, g)
                (allocate-IsBalanced size (aligned size m.default_alignment) cls init is_shared tag
                  a (count_getmain m) (ground (arith, offer, g)) g counted)
        ]
      ]
    ]
