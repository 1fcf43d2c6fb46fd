-- ===== src/Tsq/Manager/Valid.antt =====
-- The queues that the manager holds, and its counters.
use ibm_cics_emulation.Base.{
  ℕ, ◌+◌, ◌%◌, ◌≡◌, refl, inl, inr, false, [], ◌∷◌, some, arith, length, Bytes, Dict, lookup,
  insert, erase, to_upper, to_upper_idem, IsSorted, bytes_eq, bytes_eq_iff, Option-cases,
  insert-IsSorted, erase-IsSorted, length-insert, length-erase, Bool-cases, subst, contains,
}
use ibm_cics_emulation.Result.{Result, u64}
use ibm_cics_emulation.Tsq.{
  TemporaryStorageQueue, create, write, rewrite, read, read_next, delete_item, delete_all,
  TsqLocation,
}
use ibm_cics_emulation.Tsq.Valid.{
  IsValid, write-IsValid, rewrite-IsValid, read-IsValid, read_next-IsValid, delete_item-IsValid,
  create-IsValid,
}
use ibm_cics_emulation.Tsq.Manager.{
  TsqManager, get_or_create_queue, delete_queue, writeq, rewriteq, readq, readq_next, deleteq_item,
  default_definition, at_queue,
}

-- Every queue is valid and not deleted, under a name in upper case.
abbrev pub AllLive : Dict TemporaryStorageQueue → Type 0
AllLive [] = Unit
AllLive ((k, q) ∷ queues) = IsValid q × (q.deleted ≡ false) × (to_upper k ≡ k) × AllLive queues

AllLive-insert :
    (k : Bytes) (q : TemporaryStorageQueue) (queues : Dict TemporaryStorageQueue)
    → IsValid q
    → q.deleted ≡ false
    → to_upper k ≡ k
    → AllLive queues
    → AllLive (insert k q queues)
unfolding insert
AllLive-insert k q [] v l u a = (v, l, u, tt)
AllLive-insert k q ((j, p) ∷ queues) v l u a = ground (arith, AllLive-insert k q queues v l u a.3)

AllLive-erase :
    (k : Bytes) (queues : Dict TemporaryStorageQueue) → AllLive queues → AllLive (erase k queues)
unfolding erase
AllLive-erase k [] a = tt
AllLive-erase k ((j, p) ∷ queues) a = ground (arith, AllLive-erase k queues a.3)

pub AllLive-lookup :
    (k : Bytes) (queues : Dict TemporaryStorageQueue) {q : TemporaryStorageQueue}
    → AllLive queues
    → lookup k queues ≡ some q
    → IsValid q × (q.deleted ≡ false)
unfolding lookup
AllLive-lookup k [] a e = cc
AllLive-lookup k ((j, p) ∷ queues) {q} a e = elim (Bool-cases (bytes_eq j k)) [
  | inl same ↦ subst (λ r. IsValid r × (r.deleted ≡ false)) (ground (arith, same)) (a.0, a.1)
  | inr other ↦ AllLive-lookup k queues a.3 (rw other at e)
]

AllLive-named :
    (k : Bytes) (queues : Dict TemporaryStorageQueue) {q : TemporaryStorageQueue}
    → AllLive queues
    → lookup k queues ≡ some q
    → to_upper k ≡ k
unfolding lookup
AllLive-named k [] a e = cc
AllLive-named k ((j, p) ∷ queues) {q} a e =
    ground (arith, bytes_eq_iff j k, AllLive-named k queues {q = q} a.3)

-- The counters count the queues, created and deleted, modulo 2^64.
pub record IsSound (m : TsqManager) : Type 0 where
  pub live : AllLive m.queues
  pub sorted : IsSorted m.queues
  pub active : m.active_queues ≡ length m.queues % u64
  pub balance : m.total_queues_created ≡ (m.total_queues_deleted + m.active_queues) % u64

-- A call that keeps a queue valid and does not delete it may be made on any queue of the manager.
replaced-IsSound :
    (m : TsqManager) (k : Bytes) (q q' : TemporaryStorageQueue)
    → IsSound m
    → lookup k m.queues ≡ some q
    → IsValid q'
    → q'.deleted ≡ false
    → IsSound (record m { queues = insert k q' m.queues })
unfolding contains
replaced-IsSound m k q q' s e v l = ground (
  arith,
  AllLive-insert k q' m.queues v l (AllLive-named k m.queues s.live e) s.live,
  insert-IsSorted k q' m.queues s.sorted,
  length-insert k q' m.queues s.sorted,
)

pub created-IsSound :
    (m : TsqManager) (name : Bytes) (location : TsqLocation)
    → IsSound m
    → IsSound (get_or_create_queue m name location).0
unfolding get_or_create_queue contains create
created-IsSound m name location s = elim (Option-cases (lookup (to_upper name) m.queues)) [
  | inl e ↦
      let q = create (default_definition (to_upper name) location) in
      ground (
        arith,
        AllLive-insert (to_upper name) q m.queues
            (create-IsValid (default_definition (to_upper name) location) (omega arith)) refl
            (to_upper_idem name) s.live,
        insert-IsSorted (to_upper name) q m.queues s.sorted,
        length-insert (to_upper name) q m.queues s.sorted,
      )
  | inr (q, e) ↦ ground (arith, AllLive-lookup (to_upper name) m.queues s.live e)
]

-- A call of a queue that keeps it valid and does not delete it.
abbrev Keeps : {A : Type 0} → (TemporaryStorageQueue → TemporaryStorageQueue × Result A) → Type 0
Keeps call =
    (q : TemporaryStorageQueue)
    → IsValid q
    → q.deleted ≡ false
    → IsValid (call q).0 × ((call q).0.deleted ≡ false)

at_queue-IsSound :
    {A : Type 0} (m : TsqManager) (k : Bytes)
    (call : TemporaryStorageQueue → TemporaryStorageQueue × Result A)
    → IsSound m
    → Keeps call
    → IsSound (at_queue m k call).0
at_queue-IsSound m k call s keeps = elim (Option-cases (lookup k m.queues)) [
  | inl e ↦ rw (e, at_queue) s
  | inr (q, e) ↦
      let (valid, live) = AllLive-lookup k m.queues s.live e in
      let (valid', live') = keeps q valid live in
      rw (e, at_queue) (replaced-IsSound m k q (call q).0 s e valid' live')
]

write-Keeps : (b : Bytes) → Keeps (λ q. write q b)
unfolding write
write-Keeps b q v l = (write-IsValid q b v, ground (arith, l))

rewrite-Keeps : (n : ℕ) (b : Bytes) → Keeps (λ q. rewrite q n b)
unfolding rewrite
rewrite-Keeps n b q v l = (rewrite-IsValid q n b v, ground (arith, l))

read-Keeps : (n : ℕ) → Keeps (λ q. read q n)
unfolding read
read-Keeps n q v l = (read-IsValid q n v, ground (arith, l))

delete_item-Keeps : (n : ℕ) → Keeps (λ q. delete_item q n)
unfolding delete_item
delete_item-Keeps n q v l = (delete_item-IsValid q n v, ground (arith, l))

read_next-live :
    (q : TemporaryStorageQueue) (n : ℕ) → q.deleted ≡ false → (read_next q n).0.deleted ≡ false
unfolding read_next
read_next-live q n l = ground (arith, l)

module _ (m : TsqManager) (name : Bytes) (s : IsSound m) where
  pub writeq-IsSound : (b : Bytes) (l : TsqLocation) → IsSound (writeq m name b l).0
  unfolding writeq
  writeq-IsSound b l =
      let (m', key) = get_or_create_queue m name l in
      at_queue-IsSound m' key (λ q. write q b) (created-IsSound m name l s) (write-Keeps b)

  pub delete_queue-IsSound : IsSound (delete_queue m name).0
  unfolding delete_queue delete_all contains
  delete_queue-IsSound = elim (Option-cases (lookup (to_upper name) m.queues)) [
    | inl e ↦ ground arith
    | inr (q, e) ↦ ground (
      arith,
      AllLive-lookup (to_upper name) m.queues s.live e,
      AllLive-erase (to_upper name) m.queues s.live,
      erase-IsSorted (to_upper name) m.queues s.sorted,
      length-erase (to_upper name) m.queues s.sorted,
    )
  ]

  pub rewriteq-IsSound : (n : ℕ) (b : Bytes) → IsSound (rewriteq m name n b).0
  unfolding rewriteq
  rewriteq-IsSound n b = elim (Option-cases (lookup (to_upper name) m.queues)) [
    | inl e ↦ ground arith
    | inr (q, e) ↦
        let kept = at_queue-IsSound m (to_upper name) (λ q. rewrite q n b) s (rewrite-Keeps n b) in
        ground (arith, kept, AllLive-lookup (to_upper name) m.queues s.live e)
  ]

  pub deleteq_item-IsSound : (n : ℕ) → IsSound (deleteq_item m name n).0
  unfolding deleteq_item
  deleteq_item-IsSound n = elim (Option-cases (lookup (to_upper name) m.queues)) [
    | inl e ↦ ground arith
    | inr (q, e) ↦
        let kept =
          at_queue-IsSound m (to_upper name) (λ q. delete_item q n) s (delete_item-Keeps n) in
        ground (arith, kept, AllLive-lookup (to_upper name) m.queues s.live e)
  ]

  pub readq-IsSound : (n : ℕ) → IsSound (readq m name n).0
  unfolding readq
  readq-IsSound n = elim (Option-cases (lookup (to_upper name) m.queues)) [
    | inl e ↦ ground arith
    | inr (q, e) ↦
        let kept = at_queue-IsSound m (to_upper name) (λ q. read q n) s (read-Keeps n) in
        ground (arith, kept, AllLive-lookup (to_upper name) m.queues s.live e)
  ]

  pub readq_next-IsSound : (n : ℕ) → IsSound (readq_next m name n).0
  unfolding readq_next
  readq_next-IsSound n = elim (Option-cases (lookup (to_upper name) m.queues)) [
    | inl e ↦ ground arith
    | inr (q, e) ↦
        let (valid, live) = AllLive-lookup (to_upper name) m.queues s.live e in
        let kept =
          replaced-IsSound m (to_upper name) q (read_next q n).0 s e (read_next-IsValid q n valid)
            (read_next-live q n live) in
        ground (arith, kept, live)
  ]
