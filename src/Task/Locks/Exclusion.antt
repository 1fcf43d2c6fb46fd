-- ===== src/Task/Locks/Exclusion.antt =====
-- Mutual exclusion over every sequence of the steps of any tasks: libs/task-control/src/task_control.cpp.
use ibm_cics_emulation.Base.{
  ℕ, Bool, true, Option, none, some, List, [], ◌∷◌, Bytes, ◌≡◌, ◌≢◌, ◌⊎◌, inl, inr, refl, ap, subst,
  arith, Bool-cases, Option-cases,
}
use ibm_cics_emulation.Result.{add64}
use ibm_cics_emulation.Task.{
  LockType, exclusive, shared, update, LockScope, WaitOption, ResourceId, same_resource,
  LockRequest, LockEntry, TaskInfo, TaskControlManager, new_manager, erase_id, has_id, kept,
  is_empty, at_task, put_entry, create_task, end_task, clean_entry, cleanup_task_locks, deq_all,
  suspend_begin, suspend_end, owns_lock, reset_statistics,
}
use ibm_cics_emulation.Task.Locks.{enq, wake, deq, enq_busy, entry_of, try_acquire, release}

-- A step of one of the threads, under the mutex.
pub data Step : Type 0 where
  creates : (transid : Bytes) → Step
  ends deq_alls suspends resumes : (task : ℕ) → Step
  enqs : (task : ℕ) → ResourceId → LockType → LockScope → WaitOption → Step
  wakes : LockRequest → (known : Bool) → Step
  deqs : (task : ℕ) → ResourceId → Step
  resets : Step

unfoldable pub step : TaskControlManager → Step → TaskControlManager
step m (creates transid) = (create_task m transid).0
step m (ends t) = (end_task m t).0
step m (deq_alls t) = (deq_all m t).0
step m (suspends t) = (suspend_begin m t).0
step m (resumes t) = suspend_end m t
step m (enqs t r kind scope option) = (enq m t r kind scope option).0
step m (wakes req known) = (wake m req known).0
step m (deqs t r) = (deq m t r).0
step m resets = reset_statistics m

unfoldable pub run : TaskControlManager → List Step → TaskControlManager
run m [] = m
run m (s ∷ steps) = run (step m s) steps

-- An entry is held by one task alone or by sharers, not both.
abbrev pub IsApart : LockEntry → Type 0
IsApart e = (e.exclusive_owner ≡ 0) ⊎ (e.owners ≡ [])

abbrev pub EntryApart : Option LockEntry → Type 0
EntryApart none = Unit
EntryApart (some e) = IsApart e

abbrev pub Exclusive : TaskControlManager → Type 0
Exclusive m = (r : ResourceId) → EntryApart (m.locks r)

at_task-locks :
    (t : ℕ) (f : TaskInfo → TaskInfo) (m : TaskControlManager) → (at_task t f m).locks ≡ m.locks
at_task-locks t f m = elim (Option-cases (m.tasks t)) [
  | inl e ↦ rw (e, at_task) refl
  | inr (i, e) ↦ rw (e, at_task) refl
]

at_task-Exclusive :
    (t : ℕ) (f : TaskInfo → TaskInfo) (m : TaskControlManager)
    → Exclusive m
    → Exclusive (at_task t f m)
at_task-Exclusive t f m h r = rw (ap (λ l. l r) (at_task-locks t f m)) (h r)

put_entry-Exclusive :
    (r : ResourceId) (o : Option LockEntry) (m : TaskControlManager)
    → EntryApart o
    → Exclusive m
    → Exclusive (put_entry r o m)
put_entry-Exclusive r o m a h s = elim (Bool-cases (same_resource r s)) [
  | inl e ↦ rw e a
  | inr e ↦ rw e (h s)
]

empty_owners : (ids : List ℕ) → is_empty ids ≡ true → ids ≡ []
empty_owners [] h = refl
empty_owners (t ∷ ids) h = cc

try_acquire-IsApart : (t : ℕ) (kind : LockType) (e : LockEntry) → EntryApart (try_acquire t kind e)
unfolding try_acquire
try_acquire-IsApart t exclusive e = ground (arith, empty_owners e.owners)
try_acquire-IsApart t shared e = ground arith
try_acquire-IsApart t update e = tt

entry_of-IsApart : (m : TaskControlManager) (r : ResourceId) → Exclusive m → IsApart (entry_of m r)
entry_of-IsApart m r h = ground (arith, h r)

erase_id-empty : (t : ℕ) (ids : List ℕ) → ids ≡ [] → erase_id t ids ≡ []
unfolding erase_id
erase_id-empty t ids h = rw h refl

kept-IsApart : (e : LockEntry) → IsApart e → EntryApart (kept e)
unfolding kept
kept-IsApart e h = ground (arith, h)

clean_entry-IsApart : (t : ℕ) (e : LockEntry) → IsApart e → EntryApart (clean_entry t e)
unfolding clean_entry kept
clean_entry-IsApart t e h = ground (arith, h, erase_id-empty t e.owners)

release-IsApart : (t : ℕ) (e : LockEntry) → IsApart e → EntryApart (release t e)
unfolding release
release-IsApart t e h = ground (arith, h, erase_id-empty t e.owners)

cleanup-Exclusive :
    (t : ℕ) (m : TaskControlManager)
    → Exclusive m
    → (r : ResourceId) → EntryApart (cleanup_task_locks t m.locks r)
unfolding cleanup_task_locks
cleanup-Exclusive t m h r = elim (Option-cases (m.locks r)) [
  | inl none_there ↦ rw (none_there, EntryApart) tt
  | inr (e, there) ↦
      let apart : IsApart e = subst (λ o. EntryApart o) there (h r) in
      rw (there, EntryApart) (clean_entry-IsApart t e apart)
]

enq_busy-Exclusive :
    (m : TaskControlManager) (t : ℕ) (r : ResourceId) (kind : LockType) (scope : LockScope)
    (option : WaitOption) (e : LockEntry)
    → IsApart e
    → Exclusive m
    → Exclusive (enq_busy m t r kind scope option e).0
unfolding enq_busy
enq_busy-Exclusive m t r kind scope option e a h s = ground (arith, a, h s)

enq-Exclusive :
    (m : TaskControlManager) (t : ℕ) (r : ResourceId) (kind : LockType) (scope : LockScope)
    (option : WaitOption)
    → Exclusive m
    → Exclusive (enq m t r kind scope option).0
unfolding enq
enq-Exclusive m t r kind scope option h s =
    let e = entry_of m r in
    let apart = entry_of-IsApart m r h in
    let m1 : TaskControlManager = record m {
      stats = record m.stats { enq_count = add64 m.stats.enq_count 1 };
    } in
    let made = put_entry-Exclusive r (some e) m1 apart h in
    let acquired =
      put_entry-Exclusive r (try_acquire t kind e) m1 (try_acquire-IsApart t kind e) h s in
    let busy = enq_busy-Exclusive (put_entry r (some e) m1) t r kind scope option e apart made s in
    ground (arith, h s, made s, acquired, busy)

wake-Exclusive :
    (m : TaskControlManager) (req : LockRequest) (known : Bool)
    → Exclusive m
    → Exclusive (wake m req known).0
unfolding wake
wake-Exclusive m req known h s = elim (Option-cases (m.locks req.resource)) [
  | inl e ↦ ground (arith, h s, e)
  | inr (x, e) ↦ ground (arith, h s, e, try_acquire-IsApart req.task_id req.kind x)
]

deq-Exclusive :
    (m : TaskControlManager) (t : ℕ) (r : ResourceId) → Exclusive m → Exclusive (deq m t r).0
unfolding deq
deq-Exclusive m t r h s = elim (Option-cases (m.locks r)) [
  | inl e ↦ ground (arith, h s, e)
  | inr (x, e) ↦
      let apart : IsApart x = subst (λ o. EntryApart o) e (h r) in
      let left = release-IsApart t x apart in
      elim (Option-cases (release t x)) [
        | inl f ↦ ground (arith, h s, e, f)
        | inr (x', f) ↦
            let apart' : IsApart x' = subst (λ o. EntryApart o) f left in
            ground (arith, h s, e, f, kept-IsApart x' apart')
      ]
]

step-Exclusive : (m : TaskControlManager) (s : Step) → Exclusive m → Exclusive (step m s)
unfolding step create_task end_task deq_all suspend_begin suspend_end reset_statistics
step-Exclusive m (creates transid) h r = h r
step-Exclusive m (ends t) h r = ground (arith, h r, cleanup-Exclusive t m h r)
step-Exclusive m (deq_alls t) h r = ground (arith, h r, cleanup-Exclusive t m h r)
step-Exclusive m (suspends t) h r = ground (arith, h r)
step-Exclusive m (resumes t) h r = ground (arith, h r)
step-Exclusive m (enqs t r kind scope option) h s = enq-Exclusive m t r kind scope option h s
step-Exclusive m (wakes req known) h r = wake-Exclusive m req known h r
step-Exclusive m (deqs t r) h s = deq-Exclusive m t r h s
step-Exclusive m resets h r = h r

pub run-Exclusive :
    (m : TaskControlManager) (steps : List Step) → Exclusive m → Exclusive (run m steps)
unfolding run
run-Exclusive m [] h = h
run-Exclusive m (s ∷ steps) h = run-Exclusive (step m s) steps (step-Exclusive m s h)

-- After any steps of any tasks (requests, waits that end, releases, tasks that begin and end, in any
-- order), a resource that one task holds exclusively is owned by that task alone, exclusively or shared.
pub mutual_exclusion :
    (steps : List Step) (r : ResourceId) (e : LockEntry) (t : ℕ)
    → (run new_manager steps).locks r ≡ some e
    → e.exclusive_owner ≢ 0
    → owns_lock (run new_manager steps) t r ≡ true
    → t ≡ e.exclusive_owner
unfolding owns_lock has_id
mutual_exclusion steps r e t there held owned =
    let apart : IsApart e =
      subst (λ o. EntryApart o) there (run-Exclusive new_manager steps (λ s. tt) r) in
    ground (arith, apart, there, held, owned)
