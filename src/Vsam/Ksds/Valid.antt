-- ===== src/Vsam/Ksds/Valid.antt =====
-- KsdsFile as an object that callers use: the calls of its interface, in any order.
use ibm_cics_emulation.Base.{
  ◌%◌, some, List, [], ◌∷◌, inl, inr, length, Bytes, Dict, lookup, contains, IsSorted,
  insert-IsSorted, erase-IsSorted, length-insert, length-erase, ◌≡◌, refl, arith, Bool,
  bytes_eq_iff, Option-cases,
}
use ibm_cics_emulation.Result.{u64}
use ibm_cics_emulation.Vsam.{
  VsamDefinition, VsamRecord, AccessMode, ProcessingMode, no_address, record_read, record_write,
  record_update, record_delete,
}
use ibm_cics_emulation.Vsam.Ksds.{
  KsdsFile, new_file, open_file, close, read, write, update, erase_record, start_browse, read_next,
  read_prev, end_browse, reset_browse,
}
use ibm_cics_emulation.Vsam.Ksds.Order.{Keyed, Keyed-insert, Keyed-erase}

pub data Call : Type 0 where
  open_call : AccessMode → ProcessingMode → Call
  close_call : Call
  read_call : Bytes → Call
  write_call : VsamRecord → Call
  update_call : VsamRecord → Call
  erase_call : Bytes → Call
  start_browse_call : (id key : Bytes) → (gteq backward : Bool) → Call
  read_next_call : Bytes → Call
  read_prev_call : Bytes → Call
  end_browse_call : Bytes → Call
  reset_browse_call : (id key : Bytes) → Call

unfoldable pub step : KsdsFile → Call → KsdsFile
step f (open_call mode proc) = (open_file f mode proc).0
step f close_call = (close f).0
step f (read_call key) = (read f key).0
step f (write_call r) = (write f r).0
step f (update_call r) = (update f r).0
step f (erase_call key) = (erase_record f key).0
step f (start_browse_call id key gteq backward) = (start_browse f id key gteq backward).0
step f (read_next_call id) = (read_next f id).0
step f (read_prev_call id) = (read_prev f id).0
step f (end_browse_call id) = (end_browse f id).0
step f (reset_browse_call id key) = (reset_browse f id key).0

unfoldable pub run : KsdsFile → List Call → KsdsFile
unfolding step
run f [] = f
run f (c ∷ cs) = run (step f c) cs

-- The index is ordered, each record has its key, and the count is the number of records.
pub record IsValid (f : KsdsFile) : Type 0 where
  pub ordered : IsSorted f.records
  pub keyed : Keyed f.records
  pub counted : f.stats.record_count ≡ length f.records % u64

pub write-IsValid : (f : KsdsFile) (r : VsamRecord) → IsValid f → IsValid (write f r).0
unfolding write record_write contains
write-IsValid f r v =
    let new_rec : VsamRecord = record r { address = record no_address { rba = f.next_rba } } in
    ground (
      arith,
      length-insert r.key new_rec f.records v.ordered,
      insert-IsSorted r.key new_rec f.records v.ordered,
      Keyed-insert r.key new_rec f.records,
      v.keyed,
      v.counted,
    )

Keyed-lookup :
    (k : Bytes) (r : VsamRecord) (m : Dict VsamRecord) → Keyed m → lookup k m ≡ some r → r.key ≡ k
unfolding lookup
Keyed-lookup k r [] h e = cc
Keyed-lookup k r ((j, s) ∷ m) h e = ground (arith, bytes_eq_iff j k, Keyed-lookup k r m h.1)

pub update-IsValid : (f : KsdsFile) (r : VsamRecord) → IsValid f → IsValid (update f r).0
unfolding update contains record_update
update-IsValid f r v = elim (Option-cases (lookup r.key f.records)) [
  | inl e ↦ ground arith
  | inr (old, e) ↦ ground (
    arith,
    length-insert r.key (record old { bytes = r.bytes }) f.records v.ordered,
    insert-IsSorted r.key (record old { bytes = r.bytes }) f.records v.ordered,
    Keyed-insert r.key (record old { bytes = r.bytes }) f.records,
    Keyed-lookup r.key old f.records v.keyed e,
  )
]

pub erase-IsValid : (f : KsdsFile) (k : Bytes) → IsValid f → IsValid (erase_record f k).0
unfolding erase_record record_delete contains
erase-IsValid f k v = ground (
  arith,
  length-erase k f.records v.ordered,
  erase-IsSorted k f.records v.ordered,
  Keyed-erase k f.records v.keyed,
)

pub step-IsValid : (f : KsdsFile) (c : Call) → IsValid f → IsValid (step f c)
unfolding step record_read open_file close read start_browse read_next read_prev end_browse
    reset_browse
step-IsValid f (open_call mode proc) v = ground arith
step-IsValid f close_call v = ground arith
step-IsValid f (read_call key) v = ground arith
step-IsValid f (write_call r) v = write-IsValid f r v
step-IsValid f (update_call r) v = update-IsValid f r v
step-IsValid f (erase_call key) v = erase-IsValid f key v
step-IsValid f (start_browse_call id key gteq backward) v = ground arith
step-IsValid f (read_next_call id) v = ground arith
step-IsValid f (read_prev_call id) v = ground arith
step-IsValid f (end_browse_call id) v = ground arith
step-IsValid f (reset_browse_call id key) v = ground arith

run-IsValid : (f : KsdsFile) (cs : List Call) → IsValid f → IsValid (run f cs)
unfolding run
run-IsValid f [] v = v
run-IsValid f (c ∷ cs) v = run-IsValid (step f c) cs (step-IsValid f c v)

-- After any calls on a new key-sequenced file, in any order and whether they succeed or fail, the
-- index is strictly ascending by key, every record is stored under its own key, and the counter of
-- records is the number of records modulo 2 ^ 64.
pub run-new_file-IsValid : (d : VsamDefinition) (cs : List Call) → IsValid (run (new_file d) cs)
unfolding new_file
run-new_file-IsValid d cs =
    run-IsValid (new_file d) cs (record { ordered = tt; keyed = tt; counted = refl })
