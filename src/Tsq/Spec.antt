-- ===== src/Tsq/Spec.antt =====
-- What a temporary storage queue promises: a list of texts, addressed from 1, and a mark that it has
-- been deleted. `step` drives the operations of the code by one type of calls and answers.
use ibm_cics_emulation.Base.{
  ℕ, zero, suc, ◌+◌, ◌-◌, Bool, List, [], ◌∷◌, ◌++◌, true, false, none, some, ltb, leb,
  if◌then◌else◌, length, get_elem?, set, erase_idx, Bytes, Option,
}
use ibm_cics_emulation.Result.{
  Result, ok, err, undefined, invalid_argument, invalid_state, resource_exhausted, record_not_found,
  vsam_end_of_file,
}
use ibm_cics_emulation.Tsq.{
  TsqItem, TemporaryStorageQueue, write, rewrite, read, read_next, delete_item, delete_all,
}
use ibm_cics_emulation.Tsq.Items.{contents}

pub data Call : Type 0 where
  writes : Bytes → Call
  rewrites : ℕ → Bytes → Call
  reads read_nexts deletes : ℕ → Call
  delete_alls : Call

pub data Answer : Type 0 where
  done : Answer
  number : ℕ → Answer
  item : ℕ → Bytes → Answer

pub record Texts : Type 0 where
  pub gone : Bool
  pub texts : List Bytes

abbrev pub view : TemporaryStorageQueue → Texts
view q = record { gone = q.deleted; texts = contents q.items }

abbrev pub map_ok {ℓ κ} : {A : Type ℓ} {B : Type κ} → (A → B) → Result A → Result B
map_ok f (ok a) = ok (f a)
map_ok f (err e) = err e
map_ok f undefined = undefined

abbrev answer_item : TsqItem → Answer
answer_item x = item x.item_number x.bytes

unfoldable pub step : TemporaryStorageQueue → Call → TemporaryStorageQueue × Result Answer
step q (writes b) = let (q', r) = write q b in (q', map_ok number r)
step q (rewrites n b) = let (q', r) = rewrite q n b in (q', map_ok (λ _. done) r)
step q (reads n) = let (q', r) = read q n in (q', map_ok answer_item r)
step q (read_nexts n) = let (q', _, r) = read_next q n in (q', map_ok answer_item r)
step q (deletes n) = let (q', r) = delete_item q n in (q', map_ok (λ _. done) r)
step q delete_alls = let (q', r) = delete_all q in (q', map_ok (λ _. done) r)

unfoldable pub run : TemporaryStorageQueue → List Call → TemporaryStorageQueue
run q [] = q
run q (c ∷ cs) = run (step q c).0 cs

-- The text at a position that counts from 1.
abbrev pub text_at : List Bytes → ℕ → Option Bytes
text_at ts zero = none
text_at ts (suc k) = get_elem? ts k

-- A call on a queue that is still there, with the longest text and the most items allowed.
unfoldable pub live_step : ℕ → ℕ → List Bytes → Call → Texts × Result Answer
live_step longest most ts (writes b) =
    if ltb longest (length b)
    then (record { gone = false; texts = ts }, err invalid_argument)
    else if leb most (length ts)
    then (record { gone = false; texts = ts }, err resource_exhausted)
    else (record { gone = false; texts = ts ++ b ∷ [] }, ok (number (length ts + 1)))
live_step longest most ts (rewrites n b) = elim (text_at ts n) [
  | none ↦ (record { gone = false; texts = ts }, err record_not_found)
  | some _ ↦
      if ltb longest (length b)
      then (record { gone = false; texts = ts }, err invalid_argument)
      else (record { gone = false; texts = set ts (n - 1) b }, ok done)
]
live_step longest most ts (reads n) = (
  record { gone = false; texts = ts },
  elim (text_at ts n) [ none ↦ err record_not_found | some b ↦ ok (item n b) ],
)
live_step longest most ts (read_nexts n) = (
  record { gone = false; texts = ts },
  elim (text_at ts (suc n)) [ none ↦ err vsam_end_of_file | some b ↦ ok (item (n + 1) b) ],
)
live_step longest most ts (deletes n) = elim (text_at ts n) [
  | none ↦ (record { gone = false; texts = ts }, err record_not_found)
  | some _ ↦ (record { gone = false; texts = erase_idx ts (n - 1) }, ok done)
]
live_step longest most ts delete_alls = (record { gone = true; texts = [] }, ok done)

unfoldable pub spec_step : ℕ → ℕ → Texts → Call → Texts × Result Answer
spec_step longest most s c =
    if s.gone then (s, err invalid_state) else live_step longest most s.texts c
