-- ===== src/Tsq.antt =====
-- TSQItem, TSQDefinition, TSQStatistics, TemporaryStorageQueue: libs/tsq/src/tsq_manager.cpp and
-- libs/tsq/include/cics/tsq/tsq_types.hpp. Time stamps, and the transaction and terminal of an
-- item, are stored and never read by an operation, and are left out. A call runs under the queue's
-- mutex, so it is one step. An operation returns the queue after it and its result.
pub mod Items
pub mod Valid
pub mod Spec
pub mod Refines
pub mod Browse
pub mod Manager
mod Tests
use ibm_cics_emulation.Base.{
  ℕ, ◌+◌, ◌-◌, ◌%◌, Bool, true, false, ◌||◌, none, some, List, [], ◌∷◌, ◌++◌, ltb, leb, ◌==◌,
  if◌then◌else◌, length, get_elem?, set, erase_idx, Bytes,
}
use ibm_cics_emulation.Result.{
  Result, ok, err, undefined, invalid_argument, invalid_state, resource_exhausted, record_not_found,
  vsam_end_of_file, u32, u64, add64, sub64, ⊤,
}
use ibm_cics_emulation.Text.{fixed_empty}

abbrev pub max_item_length_limit : ℕ
max_item_length_limit = 32767

abbrev pub max_queue_items : ℕ
max_queue_items = 32767

pub data TsqLocation : Type 0 where
  main auxiliary : TsqLocation

pub record TsqItem : Type 0 where
  pub bytes : Bytes
  pub item_number : ℕ

pub record TsqDefinition : Type 0 where
  pub queue_name : Bytes
  pub location : TsqLocation
  pub max_items : ℕ
  pub max_item_length : ℕ
  pub recoverable : Bool
  pub shared : Bool
  pub security_key : Bytes
  pub owning_transaction : Bytes

pub validate : TsqDefinition → Result ⊤
validate d =
    if fixed_empty d.queue_name
    then err invalid_argument
    else if (d.max_items == 0) || ltb max_queue_items d.max_items
    then err invalid_argument
    else if (d.max_item_length == 0) || ltb max_item_length_limit d.max_item_length
    then err invalid_argument
    else ok tt

pub record TsqStatistics : Type 0 where
  pub total_items : ℕ
  pub total_bytes : ℕ
  pub reads : ℕ
  pub writes : ℕ
  pub rewrites : ℕ
  pub deletes : ℕ
  pub deleteqs : ℕ
  pub peak_items : ℕ
  pub peak_bytes : ℕ

abbrev pub no_statistics : TsqStatistics
no_statistics = record {
  total_items = 0;
  total_bytes = 0;
  reads = 0;
  writes = 0;
  rewrites = 0;
  deletes = 0;
  deleteqs = 0;
  peak_items = 0;
  peak_bytes = 0;
}

record_read : TsqStatistics → TsqStatistics
record_read s = record s { reads = add64 s.reads 1 }

record_write : TsqStatistics → ℕ → TsqStatistics
record_write s bytes = record s {
  writes = add64 s.writes 1;
  total_items = add64 s.total_items 1;
  total_bytes = add64 s.total_bytes bytes;
}

record_rewrite : TsqStatistics → ℕ → ℕ → TsqStatistics
record_rewrite s old_bytes new_bytes = record s {
  rewrites = add64 s.rewrites 1;
  total_bytes =
      if ltb old_bytes new_bytes
      then add64 s.total_bytes (new_bytes - old_bytes)
      else sub64 s.total_bytes (old_bytes - new_bytes);
}

record_delete : TsqStatistics → ℕ → TsqStatistics
record_delete s bytes = record s {
  deletes = add64 s.deletes 1;
  total_items = sub64 s.total_items 1;
  total_bytes = sub64 s.total_bytes bytes;
}

update_peaks : TsqStatistics → ℕ → ℕ → TsqStatistics
update_peaks s items bytes = record s {
  peak_items = if ltb s.peak_items items then items else s.peak_items;
  peak_bytes = if ltb s.peak_bytes bytes then bytes else s.peak_bytes;
}

pub record TemporaryStorageQueue : Type 0 where
  pub definition : TsqDefinition
  pub items : List TsqItem
  pub statistics : TsqStatistics
  pub deleted : Bool

pub create : TsqDefinition → TemporaryStorageQueue
create def = record { definition = def; items = []; statistics = no_statistics; deleted = false }

pub write : TemporaryStorageQueue → Bytes → TemporaryStorageQueue × Result ℕ
unfolding record_write update_peaks
write q bytes =
    if q.deleted
    then (q, err invalid_state)
    else if ltb q.definition.max_item_length (length bytes)
    then (q, err invalid_argument)
    else if leb q.definition.max_items (length q.items)
    then (q, err resource_exhausted)
    else let item_number = (length q.items + 1) % u32 in
      let items' = q.items ++ record { bytes = bytes; item_number = item_number } ∷ [] in
      let stats = record_write q.statistics (length bytes) in
      (
        record q {
          items = items';
          statistics = update_peaks stats (length items') stats.total_bytes;
        },
        ok item_number,
      )

-- `item_number == 0 || item_number > items_.size()`
abbrev pub is_missing : ℕ → List TsqItem → Bool
is_missing item_number items = (item_number == 0) || ltb (length items) item_number

pub rewrite : TemporaryStorageQueue → ℕ → Bytes → TemporaryStorageQueue × Result ⊤
unfolding record_rewrite update_peaks
rewrite q item_number bytes =
    if q.deleted
    then (q, err invalid_state)
    else if is_missing item_number q.items
    then (q, err record_not_found)
    else if ltb q.definition.max_item_length (length bytes)
    then (q, err invalid_argument)
    else elim (get_elem? q.items (item_number - 1)) [
      | none ↦ (q, undefined)
      | some item ↦
          let items' = set q.items (item_number - 1) (record item { bytes = bytes }) in
          let stats = record_rewrite q.statistics (length item.bytes) (length bytes) in
          (
            record q {
              items = items';
              statistics = update_peaks stats (length items') stats.total_bytes;
            },
            ok tt,
          )
    ]

pub read : TemporaryStorageQueue → ℕ → TemporaryStorageQueue × Result TsqItem
unfolding record_read
read q item_number =
    if q.deleted
    then (q, err invalid_state)
    else if is_missing item_number q.items
    then (q, err record_not_found)
    else elim (get_elem? q.items (item_number - 1)) [
      | none ↦ (q, undefined)
      | some item ↦ (record q { statistics = record_read q.statistics }, ok item)
    ]

-- The middle part is the caller's `current_item` after the call.
pub read_next : TemporaryStorageQueue → ℕ → TemporaryStorageQueue × ℕ × Result TsqItem
unfolding record_read
read_next q current_item =
    if q.deleted
    then (q, current_item, err invalid_state)
    else if leb (length q.items) current_item
    then (q, current_item, err vsam_end_of_file)
    else let current = (current_item + 1) % u32 in
      elim (get_elem? q.items (current - 1)) [
        | none ↦ (q, current, undefined)
        | some item ↦ (record q { statistics = record_read q.statistics }, current, ok item)
      ]

-- `for (UInt32 i = from; i < items_.size(); ++i) items_[i].set_item_number(i + 1);` over the items
-- that stand from index `i` on.
pub renumber : ℕ → ℕ → List TsqItem → List TsqItem
renumber from i [] = []
renumber from i (x ∷ xs) =
    (if ltb i from then x else record x { item_number = (i + 1) % u32 }) ∷ renumber from (i + 1) xs

pub delete_item : TemporaryStorageQueue → ℕ → TemporaryStorageQueue × Result ⊤
unfolding record_delete
delete_item q item_number =
    if q.deleted
    then (q, err invalid_state)
    else if is_missing item_number q.items
    then (q, err record_not_found)
    else elim (get_elem? q.items (item_number - 1)) [
      | none ↦ (q, undefined)
      | some item ↦ (
        record q {
          items = renumber (item_number - 1) 0 (erase_idx q.items (item_number - 1));
          statistics = record_delete q.statistics (length item.bytes);
        },
        ok tt,
      )
    ]

pub delete_all : TemporaryStorageQueue → TemporaryStorageQueue × Result ⊤
delete_all q = if q.deleted then (q, err invalid_state) else (
  record q {
    items = [];
    deleted = true;
    statistics = record q.statistics {
      deleteqs = add64 q.statistics.deleteqs 1;
      total_items = 0;
      total_bytes = 0;
    };
  },
  ok tt,
)

pub item_count : TemporaryStorageQueue → ℕ
item_count q = length q.items

pub sum_lengths : List TsqItem → ℕ
sum_lengths [] = 0
sum_lengths (x ∷ xs) = length x.bytes + sum_lengths xs

-- `total_bytes()`, which adds the lengths in a 64-bit Size.
pub total_bytes : TemporaryStorageQueue → ℕ
unfolding sum_lengths
total_bytes q = sum_lengths q.items % u64
