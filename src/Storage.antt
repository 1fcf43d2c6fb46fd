-- ===== src/Storage.antt =====
-- GETMAIN and FREEMAIN: libs/storage-control/src/storage_control.cpp and its header. An address is a
-- number, and 0 the null pointer. `std::aligned_alloc` is not defined here: what it returns, 0 if it
-- fails, is an argument of every call that reaches it. The times of allocation, which nothing reads but
-- a dump, and the texts of statistics and dumps are left out. One call is one step.
mod Blocks
pub mod Balance
pub mod Runs
pub mod Tasks
pub mod Guard
mod Tests
unfoldable pub use Blocks.*
use ibm_cics_emulation.Base.{
  ℕ, ◌+◌, ◌-◌, ◌*◌, ◌%◌, Bool, true, false, not, ◌&&◌, Option, none, some, List, [], ◌∷◌, ltb, ◌==◌,
  if◌then◌else◌, Bytes,
}
use ibm_cics_emulation.Result.{
  Result, ok, err, undefined, ◌>>=◌, invalid_argument, out_of_memory, record_not_found, u32, add64,
  sub64, ⊤,
}

pub record Statistics : Type 0 where
  pub getmain_count : ℕ
  pub freemain_count : ℕ
  pub total_allocated : ℕ
  pub total_freed : ℕ
  pub peak_allocated : ℕ
  pub current_allocated : ℕ
  pub failed_allocations : ℕ

-- The manager's fields, and the memory.
pub record StorageControlManager : Type 0 where
  pub allocations : List StorageBlock
  pub pools : StorageClass → StoragePool
  pub max_storage : ℕ
  pub default_alignment : ℕ
  pub stats : Statistics
  pub memory : ℕ → ℕ

pub no_statistics : Statistics
no_statistics = record {
  getmain_count = 0;
  freemain_count = 0;
  total_allocated = 0;
  total_freed = 0;
  peak_allocated = 0;
  current_allocated = 0;
  failed_allocations = 0;
}

-- The constructor, with a pool for every class.
pub new_manager : (ℕ → ℕ) → StorageControlManager
new_manager memory = record {
  allocations = [];
  pools = λ c. record { total_size = 0; used_size = 0; peak_size = 0; allocation_count = 0 };
  max_storage = 64 * 1024 * 1024;
  default_alignment = 8;
  stats = no_statistics;
  memory = memory;
}

count_getmain : StorageControlManager → StorageControlManager
count_getmain m =
    let s = m.stats in record m { stats = record s { getmain_count = add64 s.getmain_count 1 } }

count_failure : StorageControlManager → StorageControlManager
count_failure m =
    let s = m.stats in
    record m { stats = record s { failed_allocations = add64 s.failed_allocations 1 } }

-- The part of `getmain` after a successful allocation, `update_peak` included.
pub allocate :
    ℕ
    → ℕ
    → StorageClass
    → StorageInit
    → Bool
    → Bytes
    → ℕ
    → StorageControlManager
    → StorageControlManager
allocate size aligned_size cls init is_shared tag address m =
    let s = m.stats in
    let current = add64 s.current_allocated aligned_size in
    record m {
      allocations =
          record {
            address = address;
            size = aligned_size;
            requested_size = size;
            storage_class = cls;
            task_id = 0;
            is_shared = is_shared;
            tag = tag;
          }
          ∷ erase address m.allocations;
      pools = with_pool cls (record_allocation aligned_size) m.pools;
      stats = record s {
        total_allocated = add64 s.total_allocated aligned_size;
        current_allocated = current;
        peak_allocated = max s.peak_allocated current;
      };
      memory = initialized init address aligned_size m.memory;
    }

-- `getmain(size, cls, init, shared, tag)`, where `offered` is what std::aligned_alloc returns.
pub getmain :
    ℕ
    → StorageClass
    → StorageInit
    → Bool
    → Bytes
    → ℕ
    → StorageControlManager
    → Result ℕ × StorageControlManager
getmain size cls init is_shared tag offered before =
    let m = count_getmain before in
    if size == 0
    then (err invalid_argument, m)
    else if ltb m.max_storage (add64 m.stats.current_allocated size)
    then (err out_of_memory, count_failure m)
    else if offered == 0
    then (err out_of_memory, count_failure m)
    else (
      ok offered,
      allocate size (aligned size m.default_alignment) cls init is_shared tag offered m,
    )

-- What freeing a block that is found does.
pub release : StorageBlock → StorageControlManager → StorageControlManager
release b m =
    let s = m.stats in
    record m {
      allocations = erase b.address m.allocations;
      pools = with_pool b.storage_class (record_free b.size) m.pools;
      stats = record s {
        total_freed = add64 s.total_freed b.size;
        current_allocated = sub64 s.current_allocated b.size;
      };
    }

count_freemain : StorageControlManager → StorageControlManager
count_freemain m =
    let s = m.stats in record m { stats = record s { freemain_count = add64 s.freemain_count 1 } }

pub freemain : ℕ → StorageControlManager → Result ⊤ × StorageControlManager
freemain address before =
    let m = count_freemain before in
    if address == 0 then (err invalid_argument, m) else elim (find address m.allocations) [
      | none ↦ (err record_not_found, m)
      | some b ↦ (ok tt, release b m)
    ]

pub get_block_info : ℕ → StorageControlManager → Result StorageBlock
get_block_info address m = elim (find address m.allocations) [
  | none ↦ err record_not_found
  | some b ↦ ok b
]

-- `freemain(address, size)`: the size makes no difference.
pub freemain_sized : ℕ → ℕ → StorageControlManager → Result ⊤ × StorageControlManager
freemain_sized address size m = elim (get_block_info address m) [
  | err e ↦ (err e, m)
  | undefined ↦ (undefined, m)
  | ok b ↦ freemain address m
]

-- The addresses that `freemain_task` collects.
pub to_free : ℕ → List StorageBlock → List ℕ
to_free task [] = []
to_free task (b ∷ bs) =
    let rest = to_free task bs in
    if (b.task_id == task) && not b.is_shared then b.address ∷ rest else rest

pub free_all : List ℕ → StorageControlManager → StorageControlManager
free_all [] m = m
free_all (a ∷ rest) m = elim (find a m.allocations) [
  | none ↦ free_all rest m
  | some b ↦ free_all rest (release b m)
]

pub freemain_task : ℕ → StorageControlManager → StorageControlManager
freemain_task task m = free_all (to_free task m.allocations) m

pub is_valid_address : ℕ → StorageControlManager → Bool
is_valid_address address m = elim (find address m.allocations) [ none ↦ false | some b ↦ true ]

pub get_block_size : ℕ → StorageControlManager → ℕ
get_block_size address m = elim (find address m.allocations) [ none ↦ 0 | some b ↦ b.size ]

pub available_storage : StorageControlManager → ℕ
available_storage m = sub64 m.max_storage m.stats.current_allocated

pub set_max_storage : ℕ → StorageControlManager → StorageControlManager
set_max_storage max_bytes m = record m { max_storage = max_bytes }

pub set_default_alignment : ℕ → StorageControlManager → StorageControlManager
set_default_alignment alignment m = record m { default_alignment = alignment }

pub sum_sizes : ℕ → List StorageBlock → ℕ
sum_sizes total [] = total
sum_sizes total (b ∷ bs) = sum_sizes (add64 total b.size) bs

pub reset_statistics : StorageControlManager → StorageControlManager
reset_statistics m = record m {
  stats = record no_statistics { current_allocated = sum_sizes 0 m.allocations };
}

-- exec_cics_getmain_initimg: the requested bytes are set.
pub exec_cics_getmain_initimg : ℕ → ℕ → ℕ → StorageControlManager → Result ℕ × StorageControlManager
exec_cics_getmain_initimg length init_value offered m =
    let r = getmain length user default_init false [] offered m in
    elim r.0 [
      | ok address ↦
          let n = r.1 in
          (ok address, record n { memory = memset address init_value length n.memory })
      | err e ↦ r
      | undefined ↦ r
    ]
