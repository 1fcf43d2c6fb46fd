-- ===== src/Storage/Guard.antt =====
-- StorageGuard, which frees its block when it goes: libs/storage-control/src/storage_control.cpp.
use ibm_cics_emulation.Base.{
  ℕ, ◌≡◌, refl, ap, ◌∙◌, arith, true, false, none, List, [], ltb, ◌==◌, if◌then◌else◌, Bool-cases,
  ◌⊎◌, inl, inr,
}
use ibm_cics_emulation.Result.{
  Result, ErrorCode, ok, err, undefined, invalid_argument, out_of_memory, add64,
}
use ibm_cics_emulation.Storage.{
  StorageClass, default_init, StorageBlock, StorageControlManager, getmain, freemain, find, erase,
  allocate, release, aligned, count_getmain, count_failure, count_freemain,
}
use ibm_cics_emulation.Storage.Balance.{erase_fresh}

pub record StorageGuard : Type 0 where
  pub address : ℕ
  pub size : ℕ

-- The default constructor, and what a guard is after it gave its block away.
pub no_guard : StorageGuard
no_guard = record { address = 0; size = 0 }

-- The guard for what `getmain` answered.
pub guard_of : ℕ → Result ℕ × StorageControlManager → StorageGuard × StorageControlManager
guard_of size (ok a, m) = (record { address = a; size = size }, m)
guard_of size (err e, m) = (record { address = 0; size = size }, m)
guard_of size (undefined, m) = (record { address = 0; size = size }, m)

-- StorageGuard(size, cls), where `offered` is what std::aligned_alloc returns.
pub new_guard : ℕ → StorageClass → ℕ → StorageControlManager → StorageGuard × StorageControlManager
new_guard size cls offered m = guard_of size (getmain size cls default_init false [] offered m)

-- The destructor.
pub destroy : StorageGuard → StorageControlManager → StorageControlManager
destroy g m = if g.address == 0 then m else (freemain g.address m).1

-- The move constructor: the new guard, and what the other becomes.
pub move_guard : StorageGuard → StorageGuard × StorageGuard
move_guard other = (other, no_guard)

-- The move assignment from another guard: this one, the other and the manager.
pub assign :
    StorageGuard
    → StorageGuard
    → StorageControlManager
    → StorageGuard × StorageGuard × StorageControlManager
assign this other m =
    (other, no_guard, if this.address == 0 then m else (freemain this.address m).1)

-- `release()`: the address, and the guard without it.
pub release_guard : StorageGuard → ℕ × StorageGuard
release_guard g = (g.address, no_guard)

-- `reset()`
pub reset : StorageGuard → StorageControlManager → StorageGuard × StorageControlManager
reset g m = if g.address == 0 then (g, m) else (no_guard, (freemain g.address m).1)

abbrev gotten : ℕ → StorageClass → ℕ → StorageControlManager → StorageControlManager
gotten size cls offered m =
    allocate size (aligned size m.default_alignment) cls default_init false [] offered
      (count_getmain m)

data Outcome (size : ℕ) (cls : StorageClass) (offered : ℕ) (m : StorageControlManager)
    : Type 0 where
  fails :
      (e : ErrorCode) (n : StorageControlManager)
      → getmain size cls default_init false [] offered m ≡ (err e, n)
      → n.allocations ≡ m.allocations
      → Outcome size cls offered m
  succeeds :
      (offered == 0) ≡ false
      → getmain size cls default_init false [] offered m ≡ (ok offered, gotten size cls offered m)
      → Outcome size cls offered m

outcome :
    (size : ℕ) (cls : StorageClass) (offered : ℕ) (m : StorageControlManager)
    → Outcome size cls offered m
unfolding getmain count_getmain count_failure
outcome size cls offered m = elim (Bool-cases (size == 0)) [
  | inl e ↦ fails invalid_argument (count_getmain m) (rw (getmain, e) refl) refl
  | inr e ↦ elim (Bool-cases (ltb m.max_storage (add64 m.stats.current_allocated size))) [
    | inl f ↦ fails out_of_memory (count_failure (count_getmain m)) (rw (getmain, e, f) refl) refl
    | inr f ↦ elim (Bool-cases (offered == 0)) [
      | inl g ↦
          fails out_of_memory (count_failure (count_getmain m)) (rw (getmain, e, f, g) refl) refl
      | inr g ↦ succeeds g (rw (getmain, e, f, g) refl)
    ]
  ]
]

-- Freeing the block just gotten.
freemain-gotten :
    (size : ℕ) (cls : StorageClass) (offered : ℕ) (m : StorageControlManager)
    → (offered == 0) ≡ false
    → find offered m.allocations ≡ none
    → (freemain offered (gotten size cls offered m)).1.allocations ≡ m.allocations
unfolding freemain allocate count_freemain count_getmain release find erase
freemain-gotten size cls offered m nz e =
    let self : (offered == offered) ≡ true = ground arith in
    let same = erase_fresh offered m.allocations e in rw (freemain, nz, self, same, self) same

abbrev blocks_after : StorageGuard × StorageControlManager → List StorageBlock
blocks_after made = (destroy made.0 made.1).allocations

-- A guard that is made and goes again leaves the blocks as they were, whether it got storage or not,
-- when std::aligned_alloc returns null or an address that is not in use.
pub destroy-new_guard :
    (size : ℕ) (cls : StorageClass) (offered : ℕ) (m : StorageControlManager)
    → (offered ≡ 0) ⊎ (find offered m.allocations ≡ none)
    → (let made = new_guard size cls offered m in (destroy made.0 made.1).allocations)
      ≡ m.allocations
unfolding new_guard guard_of destroy
destroy-new_guard size cls offered m offer = elim (outcome size cls offered m) [
  | fails e n r same ↦ ap (λ r. blocks_after (guard_of size r)) r ∙ same
  | succeeds nz r ↦
      ap (λ r. blocks_after (guard_of size r)) r
      ∙ rw (blocks_after, guard_of, destroy, nz)
          (freemain-gotten size cls offered m nz (ground (arith, offer, nz)))
]
