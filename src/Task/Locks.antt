-- ===== src/Task/Locks.antt =====
-- enq, deq and the guard object ResourceLock: libs/task-control/src/task_control.cpp.
pub mod Exclusion
pub mod Laws
pub mod Waiting
mod Tests
use ibm_cics_emulation.Base.{
  ℕ, ◌+◌, ◌%◌, Bool, true, false, not, ◌&&◌, ◌||◌, Option, none, some, List, [], ◌∷◌, ◌++◌, ltb,
  ◌==◌, if◌then◌else◌, length, Bytes, bytes_eq,
}
use ibm_cics_emulation.Result.{
  Result, ok, err, undefined, is_ok, invalid_argument, record_not_found, resource_exhausted,
  timeout, add64, ⊤,
}
use ibm_cics_emulation.Task.{
  LockType, exclusive, shared, update, LockScope, task, WaitOption, wait, nowait, nosuspend,
  ResourceId, LockRequest, LockEntry, running, waiting, terminated, TaskInfo, TaskControlManager,
  insert_id, erase_id, has_id, erase_resource, is_empty, is_exclusive, is_held, kept, at_task,
  put_entry,
}

-- What a call of enq comes to: it returns, or it waits with a request; `known` says that the caller's
-- task was in the table (`task_it != tasks_.end()`).
pub data Enq : Type 0 where
  returned : Result ⊤ → Enq
  blocked : LockRequest → (known : Bool) → Enq

-- `locks_[resource]`
abbrev pub entry_of : TaskControlManager → ResourceId → LockEntry
entry_of m r = elim (m.locks r) [
  | none ↦ record { resource = r; kind = exclusive; owners = []; waiters = []; exclusive_owner = 0 }
  | some e ↦ record e { resource = r }
]

-- The closure try_acquire of enq.
pub try_acquire : ℕ → LockType → LockEntry → Option LockEntry
try_acquire t exclusive e =
    if is_held e then none else some (record e { exclusive_owner = t; kind = exclusive })
try_acquire t shared e =
    if is_exclusive e
    then none
    else some (record e { owners = insert_id t e.owners; kind = shared })
try_acquire t update e = none

abbrev pub already_owns : ℕ → LockType → LockEntry → Bool
already_owns t exclusive e = e.exclusive_owner == t
already_owns t shared e = has_id t e.owners
already_owns t update e = false

abbrev pub may_wait : WaitOption → Bool
may_wait wait = true
may_wait nowait = false
may_wait nosuspend = false

-- `held_resources.insert(resource)`, whose order nothing reads.
abbrev pub hold : ResourceId → TaskInfo → TaskInfo
hold r info = record info { held_resources = r ∷ erase_resource r info.held_resources }

abbrev pub resumed : ResourceId → TaskInfo → TaskInfo
resumed r info = hold r (record info { state = running })

abbrev pub set_waiting : TaskInfo → TaskInfo
set_waiting info = record info { state = waiting }

pub has_waiter : ℕ → List LockRequest → Bool
has_waiter t [] = false
has_waiter t (req ∷ reqs) = (req.task_id == t) || has_waiter t reqs

abbrev pub some_owner : LockEntry → ℕ
some_owner e = elim e.owners [
  | [] ↦ e.exclusive_owner
  | t ∷ ts ↦ if e.exclusive_owner == 0 then t else e.exclusive_owner
]

pub waits_for_held : TaskControlManager → ℕ → List ResourceId → Bool
waits_for_held m owner [] = false
waits_for_held m owner (r ∷ held) =
    elim (m.locks r) [ none ↦ false | some e ↦ has_waiter owner e.waiters ]
    || waits_for_held m owner held

pub detect_deadlock : TaskControlManager → ℕ → ResourceId → Bool
detect_deadlock m t r = elim (m.locks r) [
  | none ↦ false
  | some e ↦ if (some_owner e == 0) || (some_owner e == t) then false else elim (m.tasks t) [
    | none ↦ false
    | some info ↦ waits_for_held m (some_owner e) info.held_resources
  ]
]

abbrev pub is_known : TaskControlManager → ℕ → Bool
is_known m t = elim (m.tasks t) [ none ↦ false | some info ↦ true ]

-- The part of enq behind a lock that is busy.
pub enq_busy :
    TaskControlManager
    → ℕ
    → ResourceId
    → LockType
    → LockScope
    → WaitOption
    → LockEntry
    → TaskControlManager × Enq
enq_busy m t r kind scope option e =
    let st = m.stats in
    if not (may_wait option)
    then (
      record m { stats = record st { enq_nowait_fails = add64 st.enq_nowait_fails 1 } },
      returned (err resource_exhausted),
    )
    else if detect_deadlock m t r
    then (
      record m { stats = record st { deadlock_detections = add64 st.deadlock_detections 1 } },
      returned (err timeout),
    )
    else let req : LockRequest = record { resource = r; kind = kind; scope = scope; task_id = t } in
      let waiters = e.waiters ++ req ∷ [] in
      let st' = record st {
        enq_wait_count = add64 st.enq_wait_count 1;
        max_waiters =
            if ltb st.max_waiters (length waiters) then length waiters else st.max_waiters;
      } in
      (
        at_task t set_waiting
            (put_entry r (some (record e { waiters = waiters })) (record m { stats = st' })),
        blocked req (is_known m t),
      )

pub enq :
    TaskControlManager
    → ℕ
    → ResourceId
    → LockType
    → LockScope
    → WaitOption
    → TaskControlManager × Enq
enq m t r kind scope option =
    let m1 = record m { stats = record m.stats { enq_count = add64 m.stats.enq_count 1 } } in
    let e = entry_of m r in
    let m2 = put_entry r (some e) m1 in
    if t == 0
    then (m1, returned (err invalid_argument))
    else if already_owns t kind e
    then (m2, returned (ok tt))
    else elim (try_acquire t kind e) [
      | some e' ↦ (at_task t (hold r) (put_entry r (some e') m1), returned (ok tt))
      | none ↦ enq_busy m2 t r kind scope option e
    ]

-- The condition variable wakes a waiting call: the predicate of `cv_.wait`, and what follows it where it
-- holds. The call keeps an iterator to its task and a reference to the entry, which dangle once the task
-- or the entry is erased.
pub wake : TaskControlManager → LockRequest → (known : Bool) → TaskControlManager × Enq
wake m req known =
    let t = req.task_id in
    let r = req.resource in
    elim (m.locks r) [
      | none ↦ (m, returned undefined)
      | some e ↦
          if known && not (is_known m t)
          then (m, returned undefined)
          else elim (try_acquire t req.kind e) [
            | some e' ↦
                let m' = put_entry r (some e') m in
                ((if known then at_task t (resumed r) m' else m'), returned (ok tt))
            | none ↦ elim (m.tasks t) [
              | none ↦ (m, blocked req known)
              | some info ↦ elim info.state [
                | terminated ↦
                    if known
                    then (at_task t (resumed r) m, returned (ok tt))
                    else (m, blocked req known)
                | _ ↦ (m, blocked req known)
              ]
            ]
          ]
    ]

-- The entry that deq leaves, where the task owns the lock.
pub release : ℕ → LockEntry → Option LockEntry
release t e =
    if e.exclusive_owner == t
    then some (record e { exclusive_owner = 0 })
    else if has_id t e.owners
    then some (record e { owners = erase_id t e.owners })
    else none

pub deq : TaskControlManager → ℕ → ResourceId → TaskControlManager × Result ⊤
deq m t r =
    let m1 = record m { stats = record m.stats { deq_count = add64 m.stats.deq_count 1 } } in
    if t == 0 then (m1, err invalid_argument) else elim (m.locks r) [
      | none ↦ (m1, err record_not_found)
      | some e ↦ elim (release t e) [
        | none ↦ (m1, err invalid_argument)
        | some e' ↦ (
          at_task t (λ info. record info { held_resources = erase_resource r info.held_resources })
              (put_entry r (kept e') m1),
          ok tt,
        )
      ]
    ]

-- ResourceLock: a constructor's call of enq that has returned, the destructor, `unlock`, and the move
-- assignment to a lock other than the one that is moved.
pub record ResourceLock : Type 0 where
  pub resource : ResourceId
  pub locked : Bool

abbrev pub resource_lock : ResourceId → Result ⊤ → ResourceLock
resource_lock r result = record { resource = r; locked = is_ok result }

pub unlock : TaskControlManager → ℕ → ResourceLock → TaskControlManager × ResourceLock
unlock m t l = if l.locked then ((deq m t l.resource).0, record l { locked = false }) else (m, l)

pub destroy : TaskControlManager → ℕ → ResourceLock → TaskControlManager
destroy m t l = if l.locked then (deq m t l.resource).0 else m

pub move_assign :
    TaskControlManager
    → ℕ
    → ResourceLock
    → ResourceLock
    → TaskControlManager × ResourceLock × ResourceLock
move_assign m t l other = (destroy m t l, other, record other { locked = false })

-- The overloads by name, and the EXEC CICS commands.
abbrev pub enq_name :
    TaskControlManager → ℕ → Bytes → (length : ℕ) → LockType → TaskControlManager × Enq
enq_name m t name length kind = enq m t (record { name = name; length = length }) kind task wait

abbrev pub deq_name : TaskControlManager → ℕ → Bytes → (length : ℕ) → TaskControlManager × Result ⊤
deq_name m t name length = deq m t (record { name = name; length = length })

abbrev pub exec_cics_enq_nosuspend : TaskControlManager → ℕ → Bytes → TaskControlManager × Enq
exec_cics_enq_nosuspend m t name =
    enq m t (record { name = name; length = 0 }) exclusive task nosuspend
