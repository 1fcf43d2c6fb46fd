-- ===== src/Tsq/Valid.antt =====
-- The invariant of a queue, and that each call keeps it.
use ibm_cics_emulation.Base.{
  ℕ, ◌+◌, ◌-◌, ◌%◌, ◌<◌, ◌≤◌, ◌≡◌, inl, inr, true, [], ◌∷◌, arith, length, get_elem?, erase_idx,
  Bytes, length-append, length-set, length-erase_idx, get_elem?_lt, Option-cases,
}
use ibm_cics_emulation.Result.{u32, u64}
use ibm_cics_emulation.Tsq.{
  TsqItem, TsqDefinition, TemporaryStorageQueue, create, write, rewrite, read, read_next,
  delete_item, delete_all, sum_lengths,
}
use ibm_cics_emulation.Tsq.Items.{
  Numbered, Numbered-append, Numbered-set, renumber-erase_idx, length-renumber, sum-append, sum-set,
  sum-erase_idx, sum-renumber, Fits, Fits-append, Fits-set, Fits-erase_idx, Fits-renumber,
}

pub record IsValid (q : TemporaryStorageQueue) : Type 0 where
  pub numbered : Numbered 0 q.items
  pub within : length q.items ≤ q.definition.max_items
  pub small : q.definition.max_items < u32
  pub fits : Fits q.definition.max_item_length q.items
  pub counted : q.statistics.total_items ≡ length q.items
  pub measured : q.statistics.total_bytes ≡ sum_lengths q.items % u64
  pub peaked : length q.items ≤ q.statistics.peak_items
  pub gone : q.deleted ≡ true → q.items ≡ []

pub create-IsValid : (d : TsqDefinition) → d.max_items < u32 → IsValid (create d)
unfolding create sum_lengths
create-IsValid d h = ground arith

pub write-IsValid : (q : TemporaryStorageQueue) (b : Bytes) → IsValid q → IsValid (write q b).0
unfolding write
write-IsValid q b v =
    let x : TsqItem = record { bytes = b; item_number = (length q.items + 1) % u32 } in
    ground (
      arith,
      Numbered-append 0 q.items x v.numbered,
      length-append q.items (x ∷ []),
      sum-append q.items x,
      Fits-append q.definition.max_item_length q.items x v.fits,
    )

pub rewrite-IsValid :
    (q : TemporaryStorageQueue) (n : ℕ) (b : Bytes) → IsValid q → IsValid (rewrite q n b).0
unfolding rewrite
rewrite-IsValid q n b v = elim (Option-cases (get_elem? q.items (n - 1))) [
  | inl e ↦ ground arith
  | inr (x, e) ↦ ground (
    arith,
    Numbered-set 0 (n - 1) q.items x b v.numbered e,
    length-set q.items (n - 1) (record x { bytes = b }),
    sum-set q.items (n - 1) x b e,
    Fits-set q.definition.max_item_length q.items (n - 1) (record x { bytes = b }) v.fits,
  )
]

pub delete_item-IsValid :
    (q : TemporaryStorageQueue) (n : ℕ) → IsValid q → IsValid (delete_item q n).0
unfolding delete_item
delete_item-IsValid q n v = elim (Option-cases (get_elem? q.items (n - 1))) [
  | inl e ↦ ground arith
  | inr (x, e) ↦
      let rest = erase_idx q.items (n - 1) in
      let limit = q.definition.max_item_length in
      ground (
        arith,
        renumber-erase_idx (n - 1) 0 (n - 1) q.items (omega arith) v.numbered,
        get_elem?_lt q.items (n - 1) e,
        length-erase_idx q.items (n - 1),
        length-renumber (n - 1) 0 rest,
        sum-renumber (n - 1) 0 rest,
        sum-erase_idx q.items (n - 1) x e,
        Fits-renumber limit (n - 1) 0 rest,
        Fits-erase_idx limit q.items (n - 1) v.fits,
      )
]

pub delete_all-IsValid : (q : TemporaryStorageQueue) → IsValid q → IsValid (delete_all q).0
unfolding delete_all sum_lengths
delete_all-IsValid q v = ground arith

pub read-IsValid : (q : TemporaryStorageQueue) (n : ℕ) → IsValid q → IsValid (read q n).0
unfolding read
read-IsValid q n v = ground arith

pub read_next-IsValid : (q : TemporaryStorageQueue) (n : ℕ) → IsValid q → IsValid (read_next q n).0
unfolding read_next
read_next-IsValid q n v = ground arith
