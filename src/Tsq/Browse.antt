-- ===== src/Tsq/Browse.antt =====
-- A caller that reads a queue from the start by `read_next`, with its own `current_item`.
use ibm_cics_emulation.Base.{
  ℕ, zero, suc, ◌+◌, ◌-◌, ◌%◌, ◌<◌, ◌≤◌, ◌≡◌, refl, inl, inr, false, List, [], ◌∷◌, some, arith,
  length, get_elem?, Bytes, Option-cases, drop, get_elem?_lt, get_elem?_total,
}
use ibm_cics_emulation.Result.{Result, ok, err, undefined, u32, vsam_end_of_file, ErrorCode}
use ibm_cics_emulation.Tsq.{TsqItem, TemporaryStorageQueue, read_next}
use ibm_cics_emulation.Tsq.Items.{contents}
use ibm_cics_emulation.Tsq.Valid.{IsValid, read_next-IsValid}

-- Reads until a call fails, on fuel; the texts read and the way the reading ended.
pub read_on : ℕ → TemporaryStorageQueue → ℕ → List Bytes × Result ErrorCode
read_on zero q current = ([], undefined)
read_on (suc fuel) q current =
    let (q', current', r) = read_next q current in
    elim r [
      | ok x ↦ let (texts, end) = read_on fuel q' current' in (x.bytes ∷ texts, end)
      | err e ↦ ([], ok e)
      | undefined ↦ ([], undefined)
    ]

drop_all {ℓ} : {A : Type ℓ} (n : ℕ) (xs : List A) → length xs ≤ n → drop n xs ≡ []
drop_all zero [] h = refl
drop_all zero (x ∷ xs) h = elim h [ ]
drop_all (suc n) [] h = refl
drop_all (suc n) (x ∷ xs) h = drop_all n xs (omega arith)

drop-contents :
    (n : ℕ) (xs : List TsqItem) {x : TsqItem}
    → get_elem? xs n ≡ some x
    → contents (drop n xs) ≡ x.bytes ∷ contents (drop (suc n) xs)
drop-contents n [] e = cc
drop-contents zero (y ∷ xs) e = ground arith
drop-contents (suc n) (y ∷ xs) e = drop-contents n xs e

-- One call at a position within the queue, and one behind its end.
read_next_step :
    (q : TemporaryStorageQueue) (n : ℕ) (x : TsqItem)
    → IsValid q
    → q.deleted ≡ false
    → get_elem? q.items n ≡ some x
    → ((read_next q n).1 ≡ suc n)
      × ((read_next q n).2 ≡ ok x)
      × ((read_next q n).0.items ≡ q.items)
      × ((read_next q n).0.deleted ≡ false)
unfolding read_next
read_next_step q n x v live e =
    let here : (n + 1) % u32 - 1 ≡ n = omega (arith, get_elem?_lt q.items n e, v.within, v.small) in
    rw (here, read_next) (ground (arith, get_elem?_lt q.items n e))

read_next_end :
    (q : TemporaryStorageQueue) (n : ℕ)
    → q.deleted ≡ false
    → length q.items ≤ n
    → (read_next q n).2 ≡ err vsam_end_of_file
unfolding read_next
read_next_end q n live h = ground arith

read_on_lem :
    (fuel : ℕ) (q : TemporaryStorageQueue) (n : ℕ)
    → IsValid q
    → q.deleted ≡ false
    → length q.items < fuel + n
    → n ≤ length q.items
    → 0 < fuel
    → read_on fuel q n ≡ (contents (drop n q.items), ok vsam_end_of_file)
unfolding read_on
read_on_lem zero q n v live h k p = elim p [ ]
read_on_lem (suc fuel) q n v live h k p = elim (Option-cases (get_elem? q.items n)) [
  | inl e ↦ ground (arith, read_next_end q n live, get_elem?_total q.items n, drop_all n q.items)
  | inr (x, e) ↦
      let (at, got, items, still) = read_next_step q n x v live e in
      let q' = (read_next q n).0 in
      let bound = get_elem?_lt q.items n e in
      let ih =
        read_on_lem fuel q' (suc n) (read_next-IsValid q n v) still (rw items (omega arith))
          (rw items (omega arith)) (omega arith) in
      ground (arith, ih, at, got, items, drop-contents n q.items e)
]

-- Reading a valid queue that is not deleted from position 0 until a call fails gives all its texts in order, and the
-- reading ends by end of file; as much fuel as the queue has items, and one more, is enough.
pub read_on-contents :
    (q : TemporaryStorageQueue) (fuel : ℕ)
    → IsValid q
    → q.deleted ≡ false
    → length q.items < fuel
    → read_on fuel q 0 ≡ (contents q.items, ok vsam_end_of_file)
read_on-contents q fuel v live h =
    read_on_lem fuel q 0 v live (omega arith) (omega arith) (omega arith)
