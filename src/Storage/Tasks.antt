-- ===== src/Storage/Tasks.antt =====
-- Freeing what a task has: libs/storage-control/src/storage_control.cpp.
use ibm_cics_emulation.Base.{
  ℕ, ◌≡◌, refl, sym, ap, ◌∙◌, arith, true, false, not, ◌&&◌, none, List, [], ◌∷◌, ◌==◌,
  if◌then◌else◌, Bool-cases, Option-cases, inl, inr,
}
use ibm_cics_emulation.Storage.{
  StorageBlock, StorageControlManager, find, erase, release, to_free, free_all, freemain_task,
}
use ibm_cics_emulation.Storage.Balance.{IsDistinct, erase_fresh, find_address}

-- The blocks that `freemain_task` is to leave.
pub kept : ℕ → List StorageBlock → List StorageBlock
kept task [] = []
kept task (b ∷ bs) =
    if (b.task_id == task) && not b.is_shared then kept task bs else b ∷ kept task bs

erase_all : List ℕ → List StorageBlock → List StorageBlock
erase_all [] bs = bs
erase_all (a ∷ rest) bs = erase_all rest (erase a bs)

abbrev Avoids : ℕ → List ℕ → Type 0
Avoids x [] = Unit
Avoids x (a ∷ rest) = ((x == a) ≡ false) × Avoids x rest

to_free-Avoids :
    (x task : ℕ) (bs : List StorageBlock) → find x bs ≡ none → Avoids x (to_free task bs)
unfolding to_free find
to_free-Avoids x task [] e = tt
to_free-Avoids x task (b ∷ bs) e = ground (arith, e, to_free-Avoids x task bs)

erase_all-Avoids :
    (rest : List ℕ) (b : StorageBlock) (bs : List StorageBlock)
    → Avoids b.address rest
    → erase_all rest (b ∷ bs) ≡ b ∷ erase_all rest bs
unfolding erase_all erase
erase_all-Avoids [] b bs h = refl
erase_all-Avoids (a ∷ rest) b bs h = rw (erase, h.0) (erase_all-Avoids rest b (erase a bs) h.1)

-- The collected addresses are those of the blocks to free.
erase_all-to_free :
    (task : ℕ) (bs : List StorageBlock)
    → IsDistinct bs
    → erase_all (to_free task bs) bs ≡ kept task bs
unfolding erase_all to_free kept erase
erase_all-to_free task [] d = refl
erase_all-to_free task (b ∷ bs) d =
    let rest = erase_all-to_free task bs d.2 in
    elim (Bool-cases ((b.task_id == task) && not b.is_shared)) [
      | inl mine ↦
          let self : (b.address == b.address) ≡ true = ground arith in
          rw (to_free, kept, mine, erase_all, erase, self, erase_fresh b.address bs d.0) rest
      | inr other ↦
          rw (to_free, kept, other)
            (erase_all-Avoids (to_free task bs) b bs (to_free-Avoids b.address task bs d.0)
              ∙ ap (λ (bs : List StorageBlock). b ∷ bs) rest)
    ]

free_all-erase_all :
    (addresses : List ℕ) (m : StorageControlManager)
    → (free_all addresses m).allocations ≡ erase_all addresses m.allocations
unfolding free_all erase_all release
free_all-erase_all [] m = refl
free_all-erase_all (a ∷ rest) m = elim (Option-cases (find a m.allocations)) [
  | inl e ↦
      rw (free_all, e)
        (free_all-erase_all rest m ∙ ap (erase_all rest) (sym (erase_fresh a m.allocations e)))
  | inr (b, e) ↦
      rw (free_all, e)
        (free_all-erase_all rest (release b m)
          ∙ ap (λ x. erase_all rest (erase x m.allocations)) (find_address a m.allocations b e))
]

-- Of blocks of any tasks whose addresses differ and are not null, `freemain_task` frees those of the given
-- task that are not shared, and no other.
pub freemain_task-kept :
    (task : ℕ) (m : StorageControlManager)
    → IsDistinct m.allocations
    → (freemain_task task m).allocations ≡ kept task m.allocations
unfolding freemain_task
freemain_task-kept task m d =
    free_all-erase_all (to_free task m.allocations) m ∙ erase_all-to_free task m.allocations d
