-- ===== src/Task/Locks/Laws.antt =====
-- What a request, a release and the end of a task do to who owns what: libs/task-control/src/task_control.cpp.
use ibm_cics_emulation.Base.{
  ℕ, Bool, true, false, ◌&&◌, ◌||◌, Option, none, some, List, [], ◌∷◌, ◌==◌, if◌then◌else◌,
  bytes_eq_iff, bytes_eq_refl, ◌≡◌, ◌≢◌, ◌⊎◌, ◌↔◌, inl, inr, refl, ap, subst, arith, Option-cases,
}
use ibm_cics_emulation.Result.{ok}
use ibm_cics_emulation.Task.{
  LockType, exclusive, shared, update, LockScope, WaitOption, ResourceId, same_resource, LockEntry,
  TaskInfo, TaskControlManager, insert_id, erase_id, has_id, kept, is_empty, end_task, clean_entry,
  cleanup_task_locks, owns_lock, owns,
}
use ibm_cics_emulation.Task.Locks.{returned, enq, deq, enq_busy, entry_of, try_acquire, release}
use ibm_cics_emulation.Task.Locks.Exclusion.{IsApart, EntryApart, Exclusive}

pub has_id-insert_id :
    (u t : ℕ) (ids : List ℕ) → has_id u (insert_id t ids) ≡ ((u == t) || has_id u ids)
unfolding has_id insert_id
has_id-insert_id u t [] = refl
has_id-insert_id u t (x ∷ ids) = ground (arith, has_id-insert_id u t ids)

pub has_id-erase_id :
    (u t : ℕ) (ids : List ℕ) → has_id u (erase_id t ids) ≡ (if u == t then false else has_id u ids)
unfolding has_id erase_id
has_id-erase_id u t [] = ground arith
has_id-erase_id u t (x ∷ ids) = ground (arith, has_id-erase_id u t ids)

pub has_id_empty : (u : ℕ) (ids : List ℕ) → is_empty ids ≡ true → has_id u ids ≡ false
unfolding has_id
has_id_empty u [] h = refl
has_id_empty u (x ∷ ids) h = cc

-- Ownership of an entry that may be absent.
abbrev owned_in : ℕ → Option LockEntry → Bool
owned_in t none = false
owned_in t (some e) = owns t e

owns_lock_eq :
    (m : TaskControlManager) (u : ℕ) (s : ResourceId)
    → owns_lock m u s ≡ (if u == 0 then false else owned_in u (m.locks s))
unfolding owns_lock
owns_lock_eq m u s = ground arith

owned-try_acquire :
    (t : ℕ) (kind : LockType) (e : LockEntry) (u : ℕ)
    → u ≢ 0
    → (try_acquire t kind e ≡ none) ⊎ (owned_in u (try_acquire t kind e) ≡ ((u == t) || owns u e))
unfolding try_acquire
owned-try_acquire t exclusive e u h = ground (arith, has_id_empty u e.owners)
owned-try_acquire t shared e u h = ground (arith, has_id-insert_id u t e.owners)
owned-try_acquire t update e u h = inl refl

owned-kept : (e : LockEntry) (u : ℕ) → u ≢ 0 → owned_in u (kept e) ≡ owns u e
unfolding kept
owned-kept e u h = ground (arith, h, has_id_empty u e.owners)

owned-clean_entry :
    (t : ℕ) (e : LockEntry) (u : ℕ)
    → u ≢ 0
    → owned_in u (clean_entry t e) ≡ (if u == t then false else owns u e)
unfolding clean_entry kept
owned-clean_entry t e u h =
    ground (arith, h, has_id-erase_id u t e.owners, has_id_empty u (erase_id t e.owners))

owned-release :
    (t : ℕ) (e e' : LockEntry) (u : ℕ)
    → t ≢ 0
    → u ≢ 0
    → IsApart e
    → release t e ≡ some e'
    → (owns t e ≡ true) × (owns u e' ≡ (if u == t then false else owns u e))
unfolding release has_id
owned-release t e e' u h k a r = ground (arith, h, k, a, r, has_id-erase_id u t e.owners)

release-none : (t : ℕ) (e : LockEntry) → release t e ≡ none → owns t e ≡ false
unfolding release
release-none t e h = ground (arith, h)

same_resource_eq : (r s : ResourceId) → same_resource r s ≡ true → r ≡ s
same_resource_eq r s h = ground (arith, h, bytes_eq_iff r.name s.name)

pub same_lock :
    (m : TaskControlManager) (r s : ResourceId) → same_resource r s ≡ true → m.locks r ≡ m.locks s
same_lock m r s h = ap m.locks (same_resource_eq r s h)

pub same_resource_refl : (r : ResourceId) → same_resource r r ≡ true
same_resource_refl r = ground (arith, bytes_eq_refl r.name)

-- `end_task` of a task of the table succeeds and takes it out of the table; it then owns no resource
-- any more, and every other task owns what it owned before.
pub end_task-owns_lock :
    (m : TaskControlManager) (t : ℕ) (info : TaskInfo)
    → m.tasks t ≡ some info
    → ((end_task m t).1 ≡ ok tt)
      × ((end_task m t).0.tasks t ≡ none)
      × ((u : ℕ) (s : ResourceId)
          → owns_lock (end_task m t).0 u s ≡ (if u == t then false else owns_lock m u s))
unfolding end_task owns_lock cleanup_task_locks
end_task-owns_lock m t info h = (
  ground (arith, h),
  ground (arith, h),
  λ u s. elim (Option-cases (m.locks s)) [
    | inl e ↦ ground (arith, h, e)
    | inr (x, e) ↦ ground (arith, h, e, owned-clean_entry t x u)
  ],
)

-- A request that returns without an error leaves the resource owned by the task that made it. Whatever
-- a request comes to, no other task owns more or less than before, and no other resource has a new owner.
pub enq-owns_lock :
    (m : TaskControlManager) (t : ℕ) (r : ResourceId) (kind : LockType) (scope : LockScope)
    (option : WaitOption)
    → ((enq m t r kind scope option).1 ≡ returned (ok tt)
        → owns_lock (enq m t r kind scope option).0 t r ≡ true)
      × ((u : ℕ) (s : ResourceId)
          → (u ≢ t) ⊎ (same_resource r s ≡ false)
          → owns_lock (enq m t r kind scope option).0 u s ≡ owns_lock m u s)
unfolding enq enq_busy owns_lock
enq-owns_lock m t r kind scope option =
    let e = entry_of m r in
    (
      λ success. ground (arith, success, same_resource_refl r, owned-try_acquire t kind e t),
      λ u s h.
          ground (arith, h, same_lock m r s, has_id_empty u [] refl, owned-try_acquire t kind e u),
    )

-- A release succeeds exactly if the task owns the resource; it then does not own it any more, and apart
-- from that everybody owns what they owned before.
pub deq-owns_lock :
    (m : TaskControlManager) (t : ℕ) (r : ResourceId)
    → Exclusive m
    → t ≢ 0
    → (((deq m t r).1 ≡ ok tt) ↔ (owns_lock m t r ≡ true))
      × ((u : ℕ) (s : ResourceId)
          → owns_lock (deq m t r).0 u s
            ≡ (if (u == t) && same_resource r s then false else owns_lock m u s))
unfolding deq owns_lock
deq-owns_lock m t r a h = elim (Option-cases (m.locks r)) [
  | inl e ↦ (ground (arith, h, e), λ u s. ground (arith, h, e, same_lock m r s))
  | inr (x, e) ↦
      let apart : IsApart x = subst (λ o. EntryApart o) e (a r) in
      elim (Option-cases (release t x)) [
        | inl f ↦ (
          ground (arith, h, e, f, release-none t x),
          λ u s. ground (arith, h, e, f, same_lock m r s, release-none t x),
        )
        | inr (x', f) ↦ (
          ground (arith, h, e, f, owned-release t x x' t h h apart),
          λ u s. ground (
            arith,
            h,
            e,
            f,
            same_lock m r s,
            λ (k : u ≢ 0). owned-release t x x' u h k apart f,
            owned-kept x' u,
          ),
        )
      ]
]
