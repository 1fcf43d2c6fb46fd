-- ===== src/Task/Locks/Waiting.antt =====
-- Requests that wait, and the guard object: libs/task-control/src/task_control.cpp.
use ibm_cics_emulation.Base.{ℕ, true, none, some, [], ◌∷◌, ◌≡◌, ◌≢◌, subst, arith}
use ibm_cics_emulation.Result.{ok}
use ibm_cics_emulation.Task.{
  LockType, exclusive, update, LockScope, wait, ResourceId, LockRequest, LockEntry,
  TaskControlManager, insert_id, erase_id, has_id, kept, owns_lock,
}
use ibm_cics_emulation.Task.Locks.{
  returned, blocked, enq, wake, deq, enq_busy, try_acquire, release, is_known, detect_deadlock,
  has_waiter, resource_lock, destroy,
}
use ibm_cics_emulation.Task.Locks.Exclusion.{IsApart, EntryApart, Exclusive}
use ibm_cics_emulation.Task.Locks.Laws.{has_id-insert_id, same_resource_refl, same_lock}

-- Where locks are exclusive, a task holds a resource exclusively, and another, whose number is not 0, which is
-- in the table, and which asks with a kind other than UPDATE, waits for it, the release by the first succeeds, and the waiting call returns without an error when it is woken, with the resource owned by its task.
pub deq-wake :
    (m : TaskControlManager) (e : LockEntry) (req : LockRequest)
    → Exclusive m
    → m.locks req.resource ≡ some e
    → e.exclusive_owner ≢ 0
    → has_waiter req.task_id e.waiters ≡ true
    → req.task_id ≢ 0
    → req.kind ≢ update
    → is_known m req.task_id ≡ true
    → ((deq m e.exclusive_owner req.resource).1 ≡ ok tt)
      × ((wake (deq m e.exclusive_owner req.resource).0 req true).1 ≡ returned (ok tt))
      × (owns_lock
            (wake (deq m e.exclusive_owner req.resource).0 req true).0
            req.task_id
            req.resource
          ≡ true)
unfolding deq wake release has_waiter kept try_acquire owns_lock
deq-wake m e req a there held waits some_task kind known =
    let apart : IsApart e = subst (λ o. EntryApart o) there (a req.resource) in
    let same = same_resource_refl req.resource in
    (
      ground (arith, there, held),
      ground (arith, apart, there, held, waits, some_task, kind, known, same),
      ground (
        arith,
        apart,
        there,
        held,
        waits,
        some_task,
        kind,
        known,
        same,
        has_id-insert_id req.task_id req.task_id e.owners,
      ),
    )

-- A task that shares a resource with nobody and asks for it exclusively, ready to wait, waits for
-- itself: the call is taken for no deadlock, and however often it is woken, it waits on.
pub upgrade_waits :
    (m : TaskControlManager) (r : ResourceId) (e : LockEntry) (t : ℕ) (scope : LockScope)
    → m.locks r ≡ some e
    → e.exclusive_owner ≡ 0
    → e.owners ≡ t ∷ []
    → t ≢ 0
    → (req : LockRequest) × ((enq m t r exclusive scope wait).1 ≡ blocked req (is_known m t))
      × (wake (enq m t r exclusive scope wait).0 req (is_known m t)
          ≡ ((enq m t r exclusive scope wait).0, blocked req (is_known m t)))
unfolding enq enq_busy wake detect_deadlock try_acquire
upgrade_waits m r e t scope there free mine some_task =
    let req : LockRequest = record { resource = r; kind = exclusive; scope = scope; task_id = t } in
    (
      req,
      ground (arith, there, free, mine, some_task),
      ground (arith, there, free, mine, some_task, same_resource_refl r),
    )

-- A guard object on a resource that nobody has asked for takes the lock, and its destructor leaves every
-- resource's entry as it was.
pub resource_lock_scope :
    (m : TaskControlManager) (t : ℕ) (r : ResourceId) (kind : LockType)
    → m.locks r ≡ none
    → t ≢ 0
    → kind ≢ update
    → ((enq m t r kind LockScope.task wait).1 ≡ returned (ok tt))
      × ((s : ResourceId)
          → (destroy (enq m t r kind LockScope.task wait).0 t (resource_lock r (ok tt))).locks s
            ≡ m.locks s)
unfolding enq deq release kept try_acquire destroy insert_id erase_id has_id
resource_lock_scope m t r kind absent some_task k = (
  ground (arith, absent, some_task, k),
  λ s. ground (arith, absent, some_task, k, same_resource_refl r, same_lock m r s),
)
