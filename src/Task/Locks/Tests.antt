-- ===== src/Task/Locks/Tests.antt =====
-- Two tasks and a resource.
use ibm_cics_emulation.Base.{
  ℕ, true, false, ◌&&◌, none, some, List, [], ◌∷◌, ◌==◌, if◌then◌else◌, codes, bytes_eq, ◌≡◌, ◌≢◌,
  ◌⊎◌, ◌↔◌, refl, arith,
}
use ibm_cics_emulation.Result.{ok}
use ibm_cics_emulation.Task.{
  exclusive, shared, update, task, wait, ResourceId, same_resource, LockRequest, LockEntry,
  TaskInfo, running, TaskControlManager, new_manager, owns_lock, end_task, create_task,
  erase_resource,
}
use ibm_cics_emulation.Task.Locks.{
  returned, enq, wake, deq, enq_busy, try_acquire, is_known, detect_deadlock, waits_for_held,
  has_waiter,
}
use ibm_cics_emulation.Task.Locks.Exclusion.{
  Exclusive, Step, creates, enqs, step, run, run-Exclusive, mutual_exclusion,
}
use ibm_cics_emulation.Task.Locks.Laws.{end_task-owns_lock, enq-owns_lock, deq-owns_lock}
use ibm_cics_emulation.Task.Locks.Waiting.{deq-wake}

abbrev file : ResourceId
file = record { name = codes "FILE"; length = 0 }

-- Task 1 holds the resource, and task 2 waits for it.
abbrev steps : List Step
steps =
    creates (codes "TRN1")
    ∷ creates (codes "TRN2")
    ∷ enqs 1 file exclusive task wait
    ∷ enqs 2 file exclusive task wait
    ∷ []

abbrev busy : TaskControlManager
busy = run new_manager steps

abbrev request : LockRequest
request = record { resource = file; kind = exclusive; scope = task; task_id = 2 }

abbrev held : LockEntry
held = record {
  resource = file;
  kind = exclusive;
  owners = [];
  waiters = request ∷ [];
  exclusive_owner = 1;
}

there : busy.locks file ≡ some held
unfolding run step create_task enq enq_busy try_acquire detect_deadlock waits_for_held bytes_eq
there = refl

busy-Exclusive : Exclusive busy
busy-Exclusive = run-Exclusive new_manager steps (λ s. tt)

known : is_known busy 2 ≡ true
unfolding run step create_task enq enq_busy try_acquire detect_deadlock waits_for_held bytes_eq
known = refl

owned : owns_lock busy 1 file ≡ true
unfolding run step create_task enq enq_busy try_acquire detect_deadlock waits_for_held owns_lock
    bytes_eq
owned = refl

mutual_exclusion_example : 1 ≡ held.exclusive_owner
mutual_exclusion_example = mutual_exclusion steps file held 1 there (omega arith) owned

abbrev first : TaskInfo
first = record {
  task_id = 1;
  transaction_id = codes "TRN1";
  state = running;
  held_resources = file ∷ [];
}

in_table : busy.tasks 1 ≡ some first
unfolding run step create_task enq enq_busy try_acquire detect_deadlock waits_for_held
    erase_resource bytes_eq
in_table = refl

end_task-owns_lock_example :
    ((end_task busy 1).1 ≡ ok tt)
    × ((end_task busy 1).0.tasks 1 ≡ none)
    × ((u : ℕ) (s : ResourceId)
        → owns_lock (end_task busy 1).0 u s ≡ (if u == 1 then false else owns_lock busy u s))
end_task-owns_lock_example = end_task-owns_lock busy 1 first in_table

abbrev other : ResourceId
other = record { name = codes "OTHER"; length = 8 }

enq-owns_lock_example :
    ((enq busy 2 other shared task wait).1 ≡ returned (ok tt)
      → owns_lock (enq busy 2 other shared task wait).0 2 other ≡ true)
    × ((u : ℕ) (s : ResourceId)
        → (u ≢ 2) ⊎ (same_resource other s ≡ false)
        → owns_lock (enq busy 2 other shared task wait).0 u s ≡ owns_lock busy u s)
enq-owns_lock_example = enq-owns_lock busy 2 other shared task wait

deq-owns_lock_example :
    (((deq busy 1 file).1 ≡ ok tt) ↔ (owns_lock busy 1 file ≡ true))
    × ((u : ℕ) (s : ResourceId)
        → owns_lock (deq busy 1 file).0 u s
          ≡ (if (u == 1) && same_resource file s then false else owns_lock busy u s))
deq-owns_lock_example = deq-owns_lock busy 1 file busy-Exclusive (omega arith)

waits : has_waiter request.task_id held.waiters ≡ true
unfolding has_waiter
waits = refl

not_update : request.kind ≢ update
not_update h = cc

deq-wake_example :
    ((deq busy 1 file).1 ≡ ok tt)
    × ((wake (deq busy 1 file).0 request true).1 ≡ returned (ok tt))
    × (owns_lock (wake (deq busy 1 file).0 request true).0 2 file ≡ true)
deq-wake_example =
    deq-wake busy held request busy-Exclusive there (omega arith) waits (omega arith) not_update
      known
