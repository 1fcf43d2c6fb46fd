-- ===== src/Tsq/Manager.antt =====
-- TSQManager and the EXEC CICS commands: libs/tsq/src/tsq_manager.cpp. The singleton is the record
-- that every operation takes and returns; an operation runs as one step. The source's `writeq`,
-- `rewriteq` and `deleteq_item` take the queue's pointer under the manager's mutex and use it after
-- releasing it; what other threads do between is not modelled. A queue pointer is its key here.
pub mod Valid
pub mod History
pub mod Laws
mod Tests
use ibm_cics_emulation.Base.{
  ℕ, ◌+◌, ◌%◌, Bool, true, false, not, ◌&&◌, ◌||◌, Option, none, some, List, [], ◌∷◌, ◌++◌, ltb,
  if◌then◌else◌, length, Bytes, Dict, lookup, insert, erase, to_upper,
}
use ibm_cics_emulation.Result.{
  Result, ok, err, undefined, invalid_state, cics_queue_not_found, u64, add64, sub64, ⊤,
}
use ibm_cics_emulation.Text.{fixed_string}
use ibm_cics_emulation.Tsq.{
  TsqItem, TsqLocation, TsqDefinition, TemporaryStorageQueue, max_queue_items,
  max_item_length_limit, create, write, rewrite, read, read_next, delete_item, delete_all,
  item_count, total_bytes,
}

pub record TsqManager : Type 0 where
  pub queues : Dict TemporaryStorageQueue
  pub auxiliary_threshold : ℕ
  pub auxiliary_storage_path : Bytes
  pub initialized : Bool
  pub total_queues_created : ℕ
  pub total_queues_deleted : ℕ
  pub active_queues : ℕ

pub new_manager : TsqManager
new_manager = record {
  queues = [];
  auxiliary_threshold = 100;
  auxiliary_storage_path = [];
  initialized = false;
  total_queues_created = 0;
  total_queues_deleted = 0;
  active_queues = 0;
}

pub initialize : TsqManager → Bytes → TsqManager × Result ⊤
initialize m auxiliary_path =
    if m.initialized
    then (m, err invalid_state)
    else (record m { auxiliary_storage_path = auxiliary_path; initialized = true }, ok tt)

pub shutdown : TsqManager → TsqManager
shutdown m = if m.initialized then record m { queues = []; initialized = false } else m

-- `it != queues_.end() && !it->second->is_deleted()`
abbrev pub find_live : Bytes → Dict TemporaryStorageQueue → Option TemporaryStorageQueue
find_live key queues = elim (lookup key queues) [
  | none ↦ none
  | some q ↦ if q.deleted then none else some q
]

pub get_queue : TsqManager → Bytes → Result Bytes
get_queue m name = elim (lookup (to_upper name) m.queues) [
  | none ↦ err cics_queue_not_found
  | some q ↦ if q.deleted then err cics_queue_not_found else ok (to_upper name)
]

abbrev pub default_definition : Bytes → TsqLocation → TsqDefinition
default_definition queue_name location = record {
  queue_name = fixed_string 16 queue_name;
  location = location;
  max_items = max_queue_items;
  max_item_length = max_item_length_limit;
  recoverable = false;
  shared = false;
  security_key = [];
  owning_transaction = [];
}

pub get_or_create_queue : TsqManager → Bytes → TsqLocation → TsqManager × Bytes
get_or_create_queue m name location =
    let queue_name = to_upper name in
    elim (find_live queue_name m.queues) [
      | some _ ↦ (m, queue_name)
      | none ↦ (
        record m {
          queues = insert queue_name (create (default_definition queue_name location)) m.queues;
          total_queues_created = add64 m.total_queues_created 1;
          active_queues = add64 m.active_queues 1;
        },
        queue_name,
      )
    ]

-- A call through the pointer to the queue of a key.
abbrev pub at_queue :
    {A : Type 0}
    → TsqManager
    → Bytes
    → (TemporaryStorageQueue → TemporaryStorageQueue × Result A)
    → TsqManager × Result A
at_queue m key call = elim (lookup key m.queues) [
  | none ↦ (m, undefined)
  | some q ↦ let (q', r) = call q in (record m { queues = insert key q' m.queues }, r)
]

pub delete_queue : TsqManager → Bytes → TsqManager × Result ⊤
delete_queue m name =
    let queue_name = to_upper name in
    elim (lookup queue_name m.queues) [
      | none ↦ (m, err cics_queue_not_found)
      | some q ↦
          let (q', result) = delete_all q in
          elim result [
            | ok _ ↦ (
              record m {
                queues = erase queue_name m.queues;
                total_queues_deleted = add64 m.total_queues_deleted 1;
                active_queues = sub64 m.active_queues 1;
              },
              ok tt,
            )
            | err e ↦ (record m { queues = insert queue_name q' m.queues }, err e)
            | undefined ↦ (m, undefined)
          ]
    ]

pub queue_exists : TsqManager → Bytes → Bool
queue_exists m name = elim (find_live (to_upper name) m.queues) [ none ↦ false | some _ ↦ true ]

pub writeq : TsqManager → Bytes → Bytes → TsqLocation → TsqManager × Result ℕ
unfolding get_or_create_queue
writeq m name bytes location =
    let (m', key) = get_or_create_queue m name location in at_queue m' key (λ q. write q bytes)

pub rewriteq : TsqManager → Bytes → ℕ → Bytes → TsqManager × Result ⊤
unfolding get_queue
rewriteq m name item_number bytes = elim (get_queue m name) [
  | ok key ↦ at_queue m key (λ q. rewrite q item_number bytes)
  | err e ↦ (m, err e)
  | undefined ↦ (m, undefined)
]

pub readq : TsqManager → Bytes → ℕ → TsqManager × Result TsqItem
readq m name item_number = elim (find_live (to_upper name) m.queues) [
  | none ↦ (m, err cics_queue_not_found)
  | some _ ↦ at_queue m (to_upper name) (λ q. read q item_number)
]

-- The caller's `current_item` after the call stands between.
pub readq_next : TsqManager → Bytes → ℕ → TsqManager × ℕ × Result TsqItem
readq_next m name current_item = elim (find_live (to_upper name) m.queues) [
  | none ↦ (m, current_item, err cics_queue_not_found)
  | some q ↦
      let (q', current, r) = read_next q current_item in
      (record m { queues = insert (to_upper name) q' m.queues }, current, r)
]

pub deleteq_item : TsqManager → Bytes → ℕ → TsqManager × Result ⊤
unfolding get_queue
deleteq_item m name item_number = elim (get_queue m name) [
  | ok key ↦ at_queue m key (λ q. delete_item q item_number)
  | err e ↦ (m, err e)
  | undefined ↦ (m, undefined)
]

pub deleteq : TsqManager → Bytes → TsqManager × Result ⊤
unfolding delete_queue
deleteq m name = delete_queue m name

pub queue_count : TsqManager → ℕ
queue_count m = length m.queues

live_names : (Bytes → Bool) → Dict TemporaryStorageQueue → List Bytes
live_names keep [] = []
live_names keep ((name, q) ∷ queues) =
    let rest = live_names keep queues in if not q.deleted && keep name then name ∷ rest else rest

pub list_queues : TsqManager → List Bytes
unfolding live_names
list_queues m = live_names (λ _. true) m.queues

abbrev answer_number : ℕ → TsqManager × Result ⊤ → TsqManager × Result ℕ
answer_number item (m, ok _) = (m, ok item)
answer_number item (m, err e) = (m, err e)
answer_number item (m, undefined) = (m, undefined)

pub exec_cics_writeq_ts :
    TsqManager → Bytes → Bytes → TsqLocation → Bool → ℕ → TsqManager × Result ℕ
unfolding writeq rewriteq
exec_cics_writeq_ts m queue from location rewriting item =
    if rewriting && ltb 0 item
    then answer_number item (rewriteq m queue item from)
    else writeq m queue from location

abbrev item_bytes : TsqManager × Result TsqItem → TsqManager × Result Bytes
item_bytes (m, ok x) = (m, ok x.bytes)
item_bytes (m, err e) = (m, err e)
item_bytes (m, undefined) = (m, undefined)

-- `item` is a copy: the position that `readq_next` moves is not the caller's.
pub exec_cics_readq_ts : TsqManager → Bytes → ℕ → Bool → TsqManager × Result Bytes
unfolding readq readq_next
exec_cics_readq_ts m queue item next =
    if next
    then item_bytes (let (m', _, r) = readq_next m queue item in (m', r))
    else item_bytes (readq m queue (if ltb 0 item then item else 1))

pub exec_cics_deleteq_ts : TsqManager → Bytes → Option ℕ → TsqManager × Result ⊤
unfolding deleteq_item deleteq
exec_cics_deleteq_ts m queue none = deleteq m queue
exec_cics_deleteq_ts m queue (some item) = deleteq_item m queue item
