-- ===== src/Vsam/Ksds/Spec.antt =====
-- What a key-sequenced file promises to a program that reads and changes it by key: a table from keys
-- to texts, without addresses, statistics or order.
use ibm_cics_emulation.Base.{
  Bool, none, some, Option, List, [], ◌∷◌, inl, inr, if◌then◌else◌, not, Bytes, bytes_eq, lookup,
  contains, lookup-insert, lookup-erase, ◌≡◌, refl, arith, Option-cases, ap₂, ap, sym, ◌∙◌,
}
use ibm_cics_emulation.Result.{
  ErrorCode, Result, ok, err, undefined, vsam_file_not_open, vsam_record_not_found,
  vsam_invalid_request, vsam_duplicate_key, ⊤,
}
use ibm_cics_emulation.Vsam.{VsamRecord, no_address}
use ibm_cics_emulation.Vsam.Ksds.{KsdsFile, read, write, update, erase_record, is_input}

pub data Request : Type 0 where
  read_key : Bytes → Request
  write_key : VsamRecord → Request
  update_key : VsamRecord → Request
  erase_key : Bytes → Request

pub data Answer : Type 0 where
  text : Bytes → Answer
  done : Answer
  failed : ErrorCode → Answer
  no_answer : Answer

answer : Result ⊤ → Answer
answer (ok t) = done
answer (err e) = failed e
answer undefined = no_answer

answer_text : Result VsamRecord → Answer
answer_text (ok r) = text r.bytes
answer_text (err e) = failed e
answer_text undefined = no_answer

pub serve : KsdsFile → Request → KsdsFile × Answer
unfolding answer answer_text
serve f (read_key k) = let (f', r) = read f k in (f', answer_text r)
serve f (write_key r) = let (f', t) = write f r in (f', answer t)
serve f (update_key r) = let (f', t) = update f r in (f', answer t)
serve f (erase_key k) = let (f', t) = erase_record f k in (f', answer t)

pub serve_all : KsdsFile → List Request → List Answer
serve_all f [] = []
serve_all f (q ∷ qs) = let (f', a) = serve f q in a ∷ serve_all f' qs

pub record Table : Type 0 where
  pub is_open : Bool
  pub read_only : Bool
  pub find : Bytes → Option Bytes

text_of : Option VsamRecord → Option Bytes
text_of none = none
text_of (some r) = some r.bytes

pub table : KsdsFile → Table
unfolding text_of
table f = record {
  is_open = f.is_open;
  read_only = is_input f.access_mode;
  find = λ k. text_of (lookup k f.records);
}

put : Table → Bytes → Option Bytes → Table
put t k v = record t { find = λ j. if bytes_eq k j then v else t.find j }

pub spec_step : Table → Request → Table × Answer
unfolding put
spec_step t (read_key k) =
    if not t.is_open
    then (t, failed vsam_file_not_open)
    else elim (t.find k) [ none ↦ (t, failed vsam_record_not_found) | some s ↦ (t, text s) ]
spec_step t (write_key r) =
    if not t.is_open
    then (t, failed vsam_file_not_open)
    else if t.read_only
    then (t, failed vsam_invalid_request)
    else elim (t.find r.key) [
      | some s ↦ (t, failed vsam_duplicate_key)
      | none ↦ (put t r.key (some r.bytes), done)
    ]
spec_step t (update_key r) =
    if not t.is_open then (t, failed vsam_file_not_open) else elim (t.find r.key) [
      | none ↦ (t, failed vsam_record_not_found)
      | some s ↦ (put t r.key (some r.bytes), done)
    ]
spec_step t (erase_key k) =
    if not t.is_open then (t, failed vsam_file_not_open) else elim (t.find k) [
      | none ↦ (t, failed vsam_record_not_found)
      | some s ↦ (put t k none, done)
    ]

pub spec_all : Table → List Request → List Answer
unfolding spec_step
spec_all t [] = []
spec_all t (q ∷ qs) = let (t', a) = spec_step t q in a ∷ spec_all t' qs

serve_open :
    (f : KsdsFile) (q : Request)
    → ((serve f q).0.is_open ≡ (spec_step (table f) q).0.is_open)
      × ((serve f q).0.access_mode ≡ f.access_mode)
      × ((spec_step (table f) q).0.read_only ≡ is_input f.access_mode)
      × ((serve f q).1 ≡ (spec_step (table f) q).1)
unfolding serve spec_step table put text_of read write update erase_record contains answer
    answer_text
serve_open f (read_key k) = ground arith
serve_open f (write_key r) = ground arith
serve_open f (update_key r) = ground arith
serve_open f (erase_key k) = ground arith

serve_find :
    (f : KsdsFile) (q : Request) (j : Bytes)
    → text_of (lookup j (serve f q).0.records) ≡ (spec_step (table f) q).0.find j
unfolding serve spec_step table put text_of read write update erase_record contains
serve_find f (read_key k) j = ground arith
serve_find f (write_key r) j = ground (
  arith,
  lookup-insert r.key j (record r { address = record no_address { rba = f.next_rba } }) f.records,
)
serve_find f (update_key r) j = elim (Option-cases (lookup r.key f.records)) [
  | inl e ↦ ground arith
  | inr (old, e) ↦ ground (arith, lookup-insert r.key j (record old { bytes = r.bytes }) f.records)
]
serve_find f (erase_key k) j = ground (arith, lookup-erase k j f.records)

-- A request by key, whether it succeeds or fails, gives the answer that the table gives, and leaves the
-- file with the table's new contents for every key, and open or closed as it was.
pub serve_refines :
    (f : KsdsFile) (q : Request)
    → (table (serve f q).0 ≡ (spec_step (table f) q).0)
      × ((serve f q).1 ≡ (spec_step (table f) q).1)
unfolding table
serve_refines f q =
    let (same, mode, only, a) = serve_open f q in
    let only' : is_input (serve f q).0.access_mode ≡ (spec_step (table f) q).0.read_only =
      ap (λ m. is_input m) mode ∙ sym only in
    (λ i. record { is_open = same i; read_only = only' i; find = λ j. serve_find f q j i }, a)

-- A sequence of requests by key to a file gives the answers that the table of its contents gives.
pub serve_all_refines : (f : KsdsFile) (qs : List Request) → serve_all f qs ≡ spec_all (table f) qs
unfolding serve_all spec_all
serve_all_refines f [] = refl
serve_all_refines f (q ∷ qs) =
    let (state, a) = serve_refines f q in
    ap₂ (λ x xs. x ∷ xs) a (serve_all_refines (serve f q).0 qs ∙ ap (λ t. spec_all t qs) state)
