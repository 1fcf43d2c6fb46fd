-- ===== src/Storage/Tests.antt =====
-- Calls with an allocator that never gives an address again.
use ibm_cics_emulation.Base.{
  ℕ, ◌+◌, ◌≤◌, ◌≡◌, refl, arith, true, false, none, List, [], ◌∷◌, ◌⊎◌, inr,
}
use ibm_cics_emulation.Storage.{
  StorageBlock, StorageControlManager, user, cdsa, default_init, zero_init, new_manager, find,
  aligned, freemain_task,
}
use ibm_cics_emulation.Storage.Balance.{IsBalanced, IsDistinct}
use ibm_cics_emulation.Storage.Runs.{
  Allocator, Call, gets, frees, frees_task, resets, run, run-new_manager-IsBalanced,
}
use ibm_cics_emulation.Storage.Tasks.{kept, freemain_task-kept}

-- Above all addresses in use.
abbrev above : List StorageBlock → ℕ
above [] = 8
above (b ∷ bs) = b.address + above bs

abbrev bump : Allocator
bump bs alignment n = above bs

find_above : (bs : List StorageBlock) (a : ℕ) → above bs ≤ a → find a bs ≡ none
unfolding find
find_above [] a h = refl
find_above (b ∷ bs) a h = ground (arith, h, above_positive bs, find_above bs a)
  where
    above_positive : (bs : List StorageBlock) → 8 ≤ above bs
    above_positive [] = omega arith
    above_positive (b ∷ bs) = omega (arith, above_positive bs)

bump_unused :
    (bs : List StorageBlock) (alignment n : ℕ)
    → (bump bs alignment n ≡ 0) ⊎ (find (bump bs alignment n) bs ≡ none)
bump_unused bs alignment n = inr (find_above bs (above bs) (omega arith))

abbrev calls : List Call
calls =
    gets 100 user zero_init false []
    ∷ (gets 5 cdsa default_init true [] ∷ (frees 8 ∷ (resets ∷ (frees_task 7 ∷ []))))

run-new_manager-IsBalanced_example : IsBalanced (run bump calls (new_manager λ a. 0))
run-new_manager-IsBalanced_example = run-new_manager-IsBalanced bump bump_unused (λ a. 0) calls

abbrev block : StorageBlock
block = record {
  address = 8;
  size = 104;
  requested_size = 100;
  storage_class = user;
  task_id = 7;
  is_shared = false;
  tag = [];
}

abbrev manager : StorageControlManager
manager = record (new_manager λ a. 0) {
  allocations =
      block
      ∷ (record block { address = 200; is_shared = true }
          ∷ (record block { address = 400; task_id = 8 } ∷ []));
}

manager-IsDistinct : IsDistinct manager.allocations
unfolding find
manager-IsDistinct = (refl, refl, (refl, refl, (refl, refl, tt)))

freemain_task-kept_example : (freemain_task 7 manager).allocations ≡ kept 7 manager.allocations
freemain_task-kept_example = freemain_task-kept 7 manager manager-IsDistinct

-- A size near 2^32 is rounded up to 0.
rounded_to_zero : aligned 4294967295 8 ≡ 0
unfolding aligned
rounded_to_zero = refl
