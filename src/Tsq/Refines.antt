-- ===== src/Tsq/Refines.antt =====
-- TemporaryStorageQueue against the list of texts.
use ibm_cics_emulation.Base.{
  ℕ, zero, suc, ◌+◌, ◌-◌, ◌%◌, ◌<◌, ◌≡◌, inl, inr, List, [], ◌∷◌, arith, length, get_elem?,
  erase_idx, Bytes, get_elem?_lt, Option-cases, get_elem?_total,
}
use ibm_cics_emulation.Result.{u32}
use ibm_cics_emulation.Tsq.{
  TsqDefinition, TemporaryStorageQueue, create, write, rewrite, read, read_next, delete_item,
  delete_all,
}
use ibm_cics_emulation.Tsq.Items.{
  length-contents, contents-append, contents-set, contents-erase_idx, contents-renumber,
  get_elem?-contents, get_elem?-contents-none, Numbered-get_elem?,
}
use ibm_cics_emulation.Tsq.Spec.{
  Call, writes, rewrites, reads, read_nexts, deletes, delete_alls, step, run, spec_step, live_step,
  view,
}
use ibm_cics_emulation.Tsq.Valid.{
  IsValid, write-IsValid, rewrite-IsValid, read-IsValid, read_next-IsValid, delete_item-IsValid,
  delete_all-IsValid, create-IsValid,
}

pub step-IsValid : (q : TemporaryStorageQueue) (c : Call) → IsValid q → IsValid (step q c).0
unfolding step
step-IsValid q (writes b) v = write-IsValid q b v
step-IsValid q (rewrites n b) v = rewrite-IsValid q n b v
step-IsValid q (reads n) v = read-IsValid q n v
step-IsValid q (read_nexts n) v = read_next-IsValid q n v
step-IsValid q (deletes n) v = delete_item-IsValid q n v
step-IsValid q delete_alls v = delete_all-IsValid q v

run-IsValid : (q : TemporaryStorageQueue) (cs : List Call) → IsValid q → IsValid (run q cs)
unfolding run
run-IsValid q [] v = v
run-IsValid q (c ∷ cs) v = run-IsValid (step q c).0 cs (step-IsValid q c v)

-- After any calls on a new queue whose `max_items` is a UInt32, the items are numbered 1, 2, … in
-- order, within both limits of the definition; the statistics give their count and, modulo 2^64,
-- the sum of their lengths; and a deleted queue holds none.
pub run-create-IsValid :
    (d : TsqDefinition) (cs : List Call) → d.max_items < u32 → IsValid (run (create d) cs)
run-create-IsValid d cs h = run-IsValid (create d) cs (create-IsValid d h)

module _ (q : TemporaryStorageQueue) (v : IsValid q) where
  write_refines :
      (b : Bytes)
      → let (q', r) = step q (writes b) in
        (view q', r)
        ≡ spec_step q.definition.max_item_length q.definition.max_items (view q) (writes b)
  unfolding step spec_step live_step write
  write_refines b = ground (
    arith,
    length-contents q.items,
    contents-append q.items (record { bytes = b; item_number = (length q.items + 1) % u32 }),
  )

  rewrite_refines :
      (n : ℕ) (b : Bytes)
      → let (q', r) = step q (rewrites n b) in
        (view q', r)
        ≡ spec_step q.definition.max_item_length q.definition.max_items (view q) (rewrites n b)
  unfolding step spec_step live_step rewrite
  rewrite_refines zero b = ground arith
  rewrite_refines (suc n) b = elim (Option-cases (get_elem? q.items n)) [
    | inl e ↦ ground (arith, get_elem?_total q.items n, get_elem?-contents-none q.items n)
    | inr (x, e) ↦ ground (
      arith,
      get_elem?_lt q.items n e,
      get_elem?-contents q.items n e,
      contents-set q.items n (record x { bytes = b }),
    )
  ]

  read_refines :
      (n : ℕ)
      → let (q', r) = step q (reads n) in
        (view q', r)
        ≡ spec_step q.definition.max_item_length q.definition.max_items (view q) (reads n)
  unfolding step spec_step live_step read
  read_refines zero = ground arith
  read_refines (suc n) = elim (Option-cases (get_elem? q.items n)) [
    | inl e ↦ ground (arith, get_elem?_total q.items n, get_elem?-contents-none q.items n)
    | inr (x, e) ↦ ground (
      arith,
      get_elem?_lt q.items n e,
      get_elem?-contents q.items n e,
      Numbered-get_elem? 0 n q.items v.numbered e,
    )
  ]

  read_next_refines :
      (n : ℕ)
      → let (q', r) = step q (read_nexts n) in
        (view q', r)
        ≡ spec_step q.definition.max_item_length q.definition.max_items (view q) (read_nexts n)
  unfolding step spec_step live_step read_next
  read_next_refines n = elim (Option-cases (get_elem? q.items n)) [
    | inl e ↦ ground (arith, get_elem?_total q.items n, get_elem?-contents-none q.items n)
    | inr (x, e) ↦
        let here : (n + 1) % u32 - 1 ≡ n =
          omega (arith, get_elem?_lt q.items n e, v.within, v.small) in
        rw (here, read_next)
          (ground (
            arith,
            get_elem?_lt q.items n e,
            get_elem?-contents q.items n e,
            Numbered-get_elem? 0 n q.items v.numbered e,
          ))
  ]

  delete_item_refines :
      (n : ℕ)
      → let (q', r) = step q (deletes n) in
        (view q', r)
        ≡ spec_step q.definition.max_item_length q.definition.max_items (view q) (deletes n)
  unfolding step spec_step live_step delete_item
  delete_item_refines zero = ground arith
  delete_item_refines (suc n) = elim (Option-cases (get_elem? q.items n)) [
    | inl e ↦ ground (arith, get_elem?_total q.items n, get_elem?-contents-none q.items n)
    | inr (x, e) ↦ ground (
      arith,
      get_elem?_lt q.items n e,
      get_elem?-contents q.items n e,
      contents-renumber n 0 (erase_idx q.items n),
      contents-erase_idx q.items n,
    )
  ]

  delete_all_refines :
      let (q', r) = step q delete_alls in
      (view q', r)
      ≡ spec_step q.definition.max_item_length q.definition.max_items (view q) delete_alls
  unfolding step spec_step live_step delete_all
  delete_all_refines = ground arith

-- On a valid queue every call, errors included, gives the answer of the list of texts and leaves the
-- queue with the texts that the list has after it.
pub step_refines :
    (q : TemporaryStorageQueue) (c : Call)
    → IsValid q
    → let (q', r) = step q c in
      (view q', r) ≡ spec_step q.definition.max_item_length q.definition.max_items (view q) c
step_refines q (writes b) v = write_refines q v b
step_refines q (rewrites n b) v = rewrite_refines q v n b
step_refines q (reads n) v = read_refines q v n
step_refines q (read_nexts n) v = read_next_refines q v n
step_refines q (deletes n) v = delete_item_refines q v n
step_refines q delete_alls v = delete_all_refines q v

step-definition : (q : TemporaryStorageQueue) (c : Call) → (step q c).0.definition ≡ q.definition
unfolding step write rewrite read read_next delete_item delete_all
step-definition q (writes b) = ground arith
step-definition q (rewrites n b) = ground arith
step-definition q (reads n) = ground arith
step-definition q (read_nexts n) = ground arith
step-definition q (deletes n) = ground arith
step-definition q delete_alls = ground arith
