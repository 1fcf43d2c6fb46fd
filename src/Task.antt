-- ===== src/Task.antt =====
-- TaskControlManager: libs/task-control/src/task_control.cpp, the locks of ENQ and DEQ. Every operation
-- takes the manager and returns it, and takes `current_task_id_`, which each thread has its own of.
-- A map is a function, since no operation here depends on the order of one. The times, the thread's id,
-- the priority and the user are left out. A call that waits returns `blocked` with its request, and each
-- time the condition variable wakes its thread is a step of its own, `wake`.
pub mod Locks
use ibm_cics_emulation.Base.{
  ℕ, ◌+◌, ◌%◌, Bool, true, false, not, ◌&&◌, ◌||◌, Option, none, some, List, [], ◌∷◌, ◌++◌, ltb,
  ◌==◌, if◌then◌else◌, length, Bytes, bytes_eq,
}
use ibm_cics_emulation.Result.{
  Result, ok, err, undefined, is_ok, invalid_argument, record_not_found, resource_exhausted,
  timeout, u32, u64, add64, ⊤,
}

pub data LockType : Type 0 where
  exclusive shared update : LockType

pub data LockScope : Type 0 where
  task uow permanent : LockScope

pub data WaitOption : Type 0 where
  wait nowait nosuspend : WaitOption

pub record ResourceId : Type 0 where
  pub name : Bytes
  pub length : ℕ

abbrev pub same_resource : ResourceId → ResourceId → Bool
same_resource a b = bytes_eq a.name b.name && (a.length == b.length)

pub record LockRequest : Type 0 where
  pub resource : ResourceId
  pub kind : LockType
  pub scope : LockScope
  pub task_id : ℕ

pub record LockEntry : Type 0 where
  pub resource : ResourceId
  pub kind : LockType
  pub owners : List ℕ
  pub waiters : List LockRequest
  pub exclusive_owner : ℕ

pub data TaskState : Type 0 where
  running suspended waiting terminated : TaskState

pub record TaskInfo : Type 0 where
  pub task_id : ℕ
  pub transaction_id : Bytes
  pub state : TaskState
  pub held_resources : List ResourceId

pub record Statistics : Type 0 where
  pub enq_count : ℕ
  pub deq_count : ℕ
  pub enq_wait_count : ℕ
  pub enq_nowait_fails : ℕ
  pub deadlock_detections : ℕ
  pub max_waiters : ℕ
  pub suspend_count : ℕ

pub record TaskControlManager : Type 0 where
  pub locks : ResourceId → Option LockEntry
  pub tasks : ℕ → Option TaskInfo
  pub next_task_id : ℕ
  pub stats : Statistics

abbrev pub no_statistics : Statistics
no_statistics = record {
  enq_count = 0;
  deq_count = 0;
  enq_wait_count = 0;
  enq_nowait_fails = 0;
  deadlock_detections = 0;
  max_waiters = 0;
  suspend_count = 0;
}

abbrev pub new_manager : TaskControlManager
new_manager = record {
  locks = λ r. none;
  tasks = λ t. none;
  next_task_id = 1;
  stats = no_statistics;
}

-- `locks_[resource] = entry`, `tasks_[id] = task`, and the erasures.
abbrev pub set_lock :
    ResourceId → Option LockEntry → (ResourceId → Option LockEntry) → ResourceId → Option LockEntry
set_lock r entry locks s = if same_resource r s then entry else locks s

abbrev pub set_task : ℕ → Option TaskInfo → (ℕ → Option TaskInfo) → ℕ → Option TaskInfo
set_task t info tasks u = if t == u then info else tasks u

-- std::set<UInt32>, in ascending order.
pub insert_id : ℕ → List ℕ → List ℕ
insert_id t [] = t ∷ []
insert_id t (u ∷ ids) =
    let rest = insert_id t ids in
    if t == u then u ∷ ids else if ltb t u then t ∷ u ∷ ids else u ∷ rest

pub erase_id : ℕ → List ℕ → List ℕ
erase_id t [] = []
erase_id t (u ∷ ids) = let rest = erase_id t ids in if t == u then rest else u ∷ rest

pub has_id : ℕ → List ℕ → Bool
has_id t [] = false
has_id t (u ∷ ids) = (t == u) || has_id t ids

pub erase_resource : ResourceId → List ResourceId → List ResourceId
erase_resource r [] = []
erase_resource r (s ∷ held) =
    let rest = erase_resource r held in if same_resource r s then rest else s ∷ rest

abbrev pub is_empty : {A : Type 0} → List A → Bool
is_empty [] = true
is_empty (a ∷ rest) = false

abbrev pub is_exclusive : LockEntry → Bool
is_exclusive e = not (e.exclusive_owner == 0)

abbrev pub is_held : LockEntry → Bool
is_held e = not (is_empty e.owners) || is_exclusive e

-- Changes to one task, which are skipped where the task is not in the table.
abbrev pub at_task : ℕ → (TaskInfo → TaskInfo) → TaskControlManager → TaskControlManager
at_task t change m = elim (m.tasks t) [
  | none ↦ m
  | some info ↦ record m { tasks = set_task t (some (change info)) m.tasks }
]

abbrev pub put_entry : ResourceId → Option LockEntry → TaskControlManager → TaskControlManager
put_entry r entry m = record m { locks = set_lock r entry m.locks }

pub create_task : TaskControlManager → Bytes → TaskControlManager × ℕ
create_task m transid =
    let info : TaskInfo = record {
      task_id = m.next_task_id;
      transaction_id = transid;
      state = running;
      held_resources = [];
    } in
    (
      record m {
        next_task_id = (m.next_task_id + 1) % u32;
        tasks = set_task m.next_task_id (some info) m.tasks;
      },
      m.next_task_id,
    )

pub without_task : ℕ → List LockRequest → List LockRequest
without_task t [] = []
without_task t (req ∷ reqs) =
    let rest = without_task t reqs in if req.task_id == t then rest else req ∷ rest

-- `!lock_entry.is_held() && lock_entry.waiters.empty()`: such an entry is erased.
pub kept : LockEntry → Option LockEntry
kept e = if not (is_held e) && is_empty e.waiters then none else some e

-- The body of the loop of cleanup_task_locks: an entry that nobody holds or waits for is erased.
pub clean_entry : ℕ → LockEntry → Option LockEntry
clean_entry t e = kept (record e {
  exclusive_owner = if e.exclusive_owner == t then 0 else e.exclusive_owner;
  owners = erase_id t e.owners;
  waiters = without_task t e.waiters;
})

pub cleanup_task_locks : ℕ → (ResourceId → Option LockEntry) → ResourceId → Option LockEntry
cleanup_task_locks t locks r = elim (locks r) [ none ↦ none | some e ↦ clean_entry t e ]

pub end_task : TaskControlManager → ℕ → TaskControlManager × Result ⊤
end_task m t = elim (m.tasks t) [
  | none ↦ (m, err record_not_found)
  | some info ↦
      (record m { locks = cleanup_task_locks t m.locks; tasks = set_task t none m.tasks }, ok tt)
]

pub deq_all : TaskControlManager → ℕ → TaskControlManager × Result ⊤
deq_all m current =
    if current == 0
    then (m, ok tt)
    else (record m { locks = cleanup_task_locks current m.locks }, ok tt)

-- `suspend`: the two critical sections, and what other threads do between them.
pub suspend_begin : TaskControlManager → ℕ → TaskControlManager × Result ⊤
suspend_begin m current =
    let m' = record m {
      stats = record m.stats { suspend_count = add64 m.stats.suspend_count 1 };
    } in
    if current == 0
    then (m', err invalid_argument)
    else (at_task current (λ info. record info { state = suspended }) m', ok tt)

pub suspend_end : TaskControlManager → ℕ → TaskControlManager
suspend_end m current = at_task current (λ info. record info { state = running }) m

pub is_locked : TaskControlManager → ResourceId → Bool
is_locked m r = elim (m.locks r) [ none ↦ false | some e ↦ is_held e ]

abbrev pub owns : ℕ → LockEntry → Bool
owns t e = (e.exclusive_owner == t) || has_id t e.owners

pub owns_lock : TaskControlManager → ℕ → ResourceId → Bool
owns_lock m current r =
    if current == 0 then false else elim (m.locks r) [ none ↦ false | some e ↦ owns current e ]

pub reset_statistics : TaskControlManager → TaskControlManager
reset_statistics m = record m { stats = no_statistics }
