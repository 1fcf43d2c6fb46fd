-- ===== src/Storage/Runs.antt =====
-- Any calls of the storage manager: libs/storage-control/src/storage_control.cpp.
use ibm_cics_emulation.Base.{ℕ, ◌≡◌, ◌∙◌, arith, Bool, none, List, [], ◌∷◌, ◌⊎◌, Bytes}
use ibm_cics_emulation.Storage.{
  StorageClass, StorageInit, StorageBlock, StorageControlManager, new_manager, no_statistics, find,
  aligned, getmain, freemain, freemain_sized, to_free, freemain_task, reset_statistics,
  set_max_storage, set_default_alignment,
}
use ibm_cics_emulation.Storage.Balance.{
  total, IsBalanced, getmain-IsBalanced, freemain-IsBalanced, freemain_sized-IsBalanced,
  free_all-IsBalanced, sum_sizes-total,
}

pub data Call : Type 0 where
  gets : ℕ → StorageClass → StorageInit → Bool → Bytes → Call
  frees : ℕ → Call
  frees_sized : ℕ → ℕ → Call
  frees_task : ℕ → Call
  resets : Call
  limits : ℕ → Call
  aligns : ℕ → Call

-- The allocator, of the blocks that are live, the alignment and the size.
abbrev pub Allocator : Type 0
Allocator = List StorageBlock → ℕ → ℕ → ℕ

module _ (aligned_alloc : Allocator) where
  pub serve : Call → StorageControlManager → StorageControlManager
  serve (gets size cls init is_shared tag) m =
      let offered =
        aligned_alloc m.allocations m.default_alignment (aligned size m.default_alignment) in
      (getmain size cls init is_shared tag offered m).1
  serve (frees a) m = (freemain a m).1
  serve (frees_sized a size) m = (freemain_sized a size m).1
  serve (frees_task task) m = freemain_task task m
  serve resets m = reset_statistics m
  serve (limits n) m = set_max_storage n m
  serve (aligns n) m = set_default_alignment n m

  unfoldable pub run : List Call → StorageControlManager → StorageControlManager
  run [] m = m
  run (c ∷ cs) m = run cs (serve c m)

module _ (aligned_alloc : Allocator)
    (unused : (bs : List StorageBlock) (alignment n : ℕ)
      → (aligned_alloc bs alignment n ≡ 0) ⊎ (find (aligned_alloc bs alignment n) bs ≡ none)) where
  serve-IsBalanced :
      (c : Call) (m : StorageControlManager) → IsBalanced m → IsBalanced (serve aligned_alloc c m)
  unfolding serve freemain_task reset_statistics no_statistics set_max_storage set_default_alignment
  serve-IsBalanced (gets size cls init is_shared tag) m s =
      getmain-IsBalanced size cls init is_shared tag _ m (unused _ _ _) s
  serve-IsBalanced (frees a) m s = freemain-IsBalanced a m s
  serve-IsBalanced (frees_sized a size) m s = freemain_sized-IsBalanced a size m s
  serve-IsBalanced (frees_task task) m s = free_all-IsBalanced (to_free task m.allocations) m s
  serve-IsBalanced resets m s = record {
    distinct = s.distinct;
    unowned = s.unowned;
    current_in = sum_sizes-total 0 m.allocations (omega arith) ∙ omega arith;
  }
  serve-IsBalanced (limits n) m s = record {
    distinct = s.distinct;
    unowned = s.unowned;
    current_in = s.current_in;
  }
  serve-IsBalanced (aligns n) m s = record {
    distinct = s.distinct;
    unowned = s.unowned;
    current_in = s.current_in;
  }

  run-IsBalanced :
      (cs : List Call) (m : StorageControlManager)
      → IsBalanced m
      → IsBalanced (run aligned_alloc cs m)
  unfolding run
  run-IsBalanced [] m s = s
  run-IsBalanced (c ∷ cs) m s = run-IsBalanced cs (serve aligned_alloc c m) (serve-IsBalanced c m s)

  -- With an allocator that returns null or an address that is not in use, after any calls on a new
  -- manager the addresses of the blocks differ and none is null, no block has a task, and
  -- `current_allocated` is the sum of the sizes of the blocks, modulo 2^64.
  pub run-new_manager-IsBalanced :
      (memory : ℕ → ℕ) (cs : List Call) → IsBalanced (run aligned_alloc cs (new_manager memory))
  unfolding new_manager no_statistics total
  run-new_manager-IsBalanced memory cs =
      run-IsBalanced cs (new_manager memory)
        (record { distinct = tt; unowned = tt; current_in = omega arith })
