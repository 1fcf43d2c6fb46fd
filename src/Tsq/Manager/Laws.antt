-- ===== src/Tsq/Manager/Laws.antt =====
-- What the manager's operations do to the queue that a name stands for, and to the others.
use ibm_cics_emulation.Base.{
  ℕ, ◌+◌, ◌-◌, ◌≡◌, ◌≢◌, inl, inr, true, false, [], ◌∷◌, ◌++◌, some, none, arith, length, Bytes,
  lookup, insert, to_upper, bytes_eq, bytes_eq_iff, bytes_eq_refl, Option-cases, sym, ◌∙◌,
  lookup-insert, lookup-insert_self, lookup-erase, lookup-erase_self, get_elem?, get_elem?_lt,
  get_elem?-append_last, if◌then◌else◌,
}
use ibm_cics_emulation.Result.{ok, err, cics_queue_not_found}
use ibm_cics_emulation.Tsq.{
  TsqItem, TsqLocation, TemporaryStorageQueue, create, write, read, delete_all,
}
use ibm_cics_emulation.Tsq.Valid.{IsValid, create-IsValid}
use ibm_cics_emulation.Tsq.Manager.{
  TsqManager, shutdown, writeq, readq, deleteq_item, deleteq, queue_count, default_definition,
}
use ibm_cics_emulation.Tsq.Manager.Valid.{IsSound, AllLive-lookup}

write_ok :
    (q : TemporaryStorageQueue) (b : Bytes) (n : ℕ)
    → IsValid q
    → (write q b).1 ≡ ok n
    → (n ≡ length q.items + 1)
      × ((write q b).0.items ≡ q.items ++ record { bytes = b; item_number = n } ∷ [])
      × ((write q b).0.deleted ≡ false)
unfolding write
write_ok q b n v h = ground arith

read_at :
    (q : TemporaryStorageQueue) (k : ℕ) (x : TsqItem)
    → q.deleted ≡ false
    → get_elem? q.items k ≡ some x
    → (read q (k + 1)).1 ≡ ok x
unfolding read
read_at q k x live e =
    let here : k + 1 - 1 ≡ k = omega arith in
    rw (here, read) (ground (arith, get_elem?_lt q.items k e))

read-write :
    (q : TemporaryStorageQueue) (b : Bytes) (n : ℕ)
    → IsValid q
    → (write q b).1 ≡ ok n
    → (read (write q b).0 n).1 ≡ ok (record { bytes = b; item_number = n })
read-write q b n v h =
    let (number, items, live) = write_ok q b n v h in
    let x : TsqItem = record { bytes = b; item_number = n } in
    let at =
      read_at (write q b).0 (length q.items) x live (rw items (get_elem?-append_last q.items x)) in
    ground (arith, at, number)

-- The queue that `writeq` writes to: the one of the name, or a new one; the others stay.
module _ (m : TsqManager) (name b : Bytes) (l : TsqLocation) (s : IsSound m) where
  target : TemporaryStorageQueue
  target = elim (lookup (to_upper name) m.queues) [
    | none ↦ create (default_definition (to_upper name) l)
    | some q ↦ q
  ]

  target-IsValid : IsValid target × (target.deleted ≡ false)
  unfolding target create
  target-IsValid = elim (Option-cases (lookup (to_upper name) m.queues)) [
    | inl e ↦
        let d = default_definition (to_upper name) l in
        ground (arith, e, create-IsValid d (omega arith))
    | inr (q, e) ↦ ground (arith, e, AllLive-lookup (to_upper name) m.queues s.live e)
  ]

  writeq_result : (writeq m name b l).1 ≡ (write target b).1
  unfolding writeq target create
  writeq_result = elim (Option-cases (lookup (to_upper name) m.queues)) [
    | inl e ↦ ground (
      arith,
      lookup-insert_self (to_upper name) (create (default_definition (to_upper name) l)) m.queues,
    )
    | inr (q, e) ↦ ground (arith, e, AllLive-lookup (to_upper name) m.queues s.live e)
  ]

  -- Writing stores the queue after the write under the name, and leaves every other name alone.
  lookup-writeq :
      (j : Bytes)
      → lookup j (writeq m name b l).0.queues
        ≡ (if bytes_eq (to_upper name) j then some (write target b).0 else lookup j m.queues)
  unfolding writeq target create
  lookup-writeq j = elim (Option-cases (lookup (to_upper name) m.queues)) [
    | inl e ↦
        let q = create (default_definition (to_upper name) l) in
        ground (
          arith,
          lookup-insert_self (to_upper name) q m.queues,
          lookup-insert (to_upper name) j (write q b).0 (insert (to_upper name) q m.queues),
          lookup-insert (to_upper name) j q m.queues,
        )
    | inr (q, e) ↦ ground (
      arith,
      e,
      AllLive-lookup (to_upper name) m.queues s.live e,
      lookup-insert (to_upper name) j (write q b).0 m.queues,
    )
  ]

-- In a manager that a history can reach: what `writeq` writes under a name, `readq` under the same
-- name, in any mix of upper and lower case, reads back at the number that `writeq` returned.
pub readq-writeq :
    (m : TsqManager) (name name' b : Bytes) (l : TsqLocation) (n : ℕ)
    → IsSound m
    → to_upper name' ≡ to_upper name
    → (writeq m name b l).1 ≡ ok n
    → (readq (writeq m name b l).0 name' n).1 ≡ ok (record { bytes = b; item_number = n })
unfolding readq
readq-writeq m name name' b l n s same h =
    let q = target m name b l s in
    let (valid, live) = target-IsValid m name b l s in
    let wrote : (write q b).1 ≡ ok n = sym (writeq_result m name b l s) ∙ h in
    let (_, _, live') = write_ok q b n valid wrote in
    ground (
      arith,
      same,
      live',
      bytes_eq_refl (to_upper name),
      lookup-writeq m name b l s (to_upper name),
      read-write q b n valid wrote,
    )

-- `writeq` leaves the queues of all other names as they are.
pub writeq_others :
    (m : TsqManager) (name other b : Bytes) (l : TsqLocation)
    → IsSound m
    → to_upper name ≢ to_upper other
    → lookup (to_upper other) (writeq m name b l).0.queues ≡ lookup (to_upper other) m.queues
writeq_others m name other b l s ne = ground (
  arith,
  bytes_eq_iff (to_upper name) (to_upper other),
  lookup-writeq m name b l s (to_upper other),
)

-- A successful `deleteq` takes the queue away: reading and item deletion under its name then report
-- that there is no such queue; the queues of all other names stay.
pub deleteq_gone :
    (m : TsqManager) (name other : Bytes) (n : ℕ)
    → (deleteq m name).1 ≡ ok tt
    → to_upper name ≢ to_upper other
    → let m' = (deleteq m name).0 in
      ((readq m' name n).1 ≡ err cics_queue_not_found)
      × ((deleteq_item m' name n).1 ≡ err cics_queue_not_found)
      × ((deleteq m' name).1 ≡ err cics_queue_not_found)
      × (lookup (to_upper other) m'.queues ≡ lookup (to_upper other) m.queues)
unfolding deleteq readq deleteq_item delete_all
deleteq_gone m name other n h ne = elim (Option-cases (lookup (to_upper name) m.queues)) [
  | inl e ↦ ground (arith, e)
  | inr (q, e) ↦ ground (
    arith,
    e,
    lookup-erase_self (to_upper name) m.queues,
    lookup-erase (to_upper name) (to_upper other) m.queues,
    bytes_eq_iff (to_upper name) (to_upper other),
  )
]

-- `shutdown` drops the queues and leaves the counter: after the shutdown of an initialized manager
-- whose `active_queues` is not 0, the counter is not the number of queues.
pub shutdown_miscounts :
    (m : TsqManager)
    → m.initialized ≡ true
    → m.active_queues ≢ 0
    → (queue_count (shutdown m) ≡ 0)
      × ((shutdown m).active_queues ≢ queue_count (shutdown m))
      × ¬ IsSound (shutdown m)
unfolding shutdown queue_count
shutdown_miscounts m i a = (ground arith, ground arith, λ s. ground (arith, s.active))
