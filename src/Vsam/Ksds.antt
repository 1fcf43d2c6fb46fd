-- ===== src/Vsam/Ksds.antt =====
-- KsdsFile: libs/vsam/src/ksds_file.cpp. `records_` is an ordered map, here a `Dict` in the
-- lexicographic order of the keys. Every operation takes the file and returns it with its result; the
-- id of a new browse, which UUID::generate makes, is an argument.
pub mod Order
pub mod Valid
pub mod Browse
pub mod Spec
mod Tests
use ibm_cics_emulation.Base.{
  ℕ, ◌+◌, ◌-◌, ◌*◌, ◌%◌, Bool, true, false, none, some, Option, [], ◌∷◌, if◌then◌else◌, length,
  Bytes, Dict, lookup, insert, erase, contains, bytes_eq, bytes_lt, ◌==◌, not,
}
use ibm_cics_emulation.Result.{
  Result, ok, err, vsam_error, vsam_file_not_open, vsam_record_not_found, vsam_rba_not_found,
  vsam_invalid_request, vsam_duplicate_key, vsam_end_of_file, add64, sub64, ⊤,
}
use ibm_cics_emulation.Vsam.{
  VsamDefinition, VsamRecord, VsamAddress, VsamStatistics, BrowseContext, AccessMode, input, io,
  ProcessingMode, dynamic, no_address, new_context, set_current, record_read, record_write,
  record_delete, record_update, VsamType, ksds,
}

pub record KsdsFile : Type 0 where
  pub definition : VsamDefinition
  pub stats : VsamStatistics
  pub records : Dict VsamRecord
  pub browse_contexts : Dict BrowseContext
  pub access_mode : AccessMode
  pub proc_mode : ProcessingMode
  pub is_open : Bool
  pub next_rba : ℕ

-- The constructor. `ci_size * ca_size * 100` is an `int`; both sizes fit 16 bits.
pub new_file : VsamDefinition → KsdsFile
new_file def = record {
  definition = def;
  stats = record {
    record_count = 0;
    deleted_records = 0;
    used_bytes = 0;
    allocated_bytes = def.ci_size * def.ca_size * 100;
    reads = 0;
    writes = 0;
    deletes = 0;
    updates = 0;
    inserts = 0;
    browses = 0;
  };
  records = [];
  browse_contexts = [];
  access_mode = input;
  proc_mode = dynamic;
  is_open = false;
  next_rba = 0;
}

pub open_file : KsdsFile → AccessMode → ProcessingMode → KsdsFile × Result ⊤
open_file f mode proc =
    if f.is_open
    then (f, err vsam_error)
    else (record f { access_mode = mode; proc_mode = proc; is_open = true }, ok tt)

pub close : KsdsFile → KsdsFile × Result ⊤
close f = (record f { browse_contexts = []; is_open = false }, ok tt)

pub read : KsdsFile → Bytes → KsdsFile × Result VsamRecord
read f key = if not f.is_open then (f, err vsam_file_not_open) else elim (lookup key f.records) [
  | none ↦ (f, err vsam_record_not_found)
  | some r ↦ (record f { stats = record_read f.stats }, ok r)
]

find_rba : ℕ → Dict VsamRecord → Result VsamRecord
find_rba rba [] = err vsam_rba_not_found
find_rba rba ((k, r) ∷ records) =
    let rest = find_rba rba records in if r.address.rba == rba then ok r else rest

pub read_by_rba : KsdsFile → ℕ → Result VsamRecord
unfolding find_rba
read_by_rba f rba = find_rba rba f.records

pub read_by_rrn : KsdsFile → ℕ → Result VsamRecord
read_by_rrn f rrn = err vsam_invalid_request

abbrev pub is_input : AccessMode → Bool
is_input m = elim m [ input ↦ true | _ ↦ false ]

pub write : KsdsFile → VsamRecord → KsdsFile × Result ⊤
write f r =
    if not f.is_open
    then (f, err vsam_file_not_open)
    else if is_input f.access_mode
    then (f, err vsam_invalid_request)
    else if contains r.key f.records
    then (f, err vsam_duplicate_key)
    else let new_rec : VsamRecord = record r { address = record no_address { rba = f.next_rba } } in
      let stats = record f.stats { record_count = add64 f.stats.record_count 1 } in
      (
        record f {
          next_rba = add64 f.next_rba (length r.bytes + f.definition.key_length);
          records = insert r.key new_rec f.records;
          stats = record_write stats (length r.bytes);
        },
        ok tt,
      )

pub update : KsdsFile → VsamRecord → KsdsFile × Result ⊤
update f r = if not f.is_open then (f, err vsam_file_not_open) else elim (lookup r.key f.records) [
  | none ↦ (f, err vsam_record_not_found)
  | some old ↦ (
    record f {
      records = insert r.key (record old { bytes = r.bytes }) f.records;
      stats = record_update f.stats;
    },
    ok tt,
  )
]

-- `erase(key)`
pub erase_record : KsdsFile → Bytes → KsdsFile × Result ⊤
erase_record f key =
    if not f.is_open
    then (f, err vsam_file_not_open)
    else if not (contains key f.records)
    then (f, err vsam_record_not_found)
    else let stats = record f.stats { record_count = sub64 f.stats.record_count 1 } in
      (record f { records = erase key f.records; stats = record_delete stats }, ok tt)

-- The first record whose key is not before `key`, and the first whose key comes after it.
pub lower_bound : Bytes → Dict VsamRecord → Option VsamRecord
lower_bound key [] = none
lower_bound key ((k, r) ∷ records) =
    let rest = lower_bound key records in if bytes_lt k key then rest else some r

pub upper_bound : Bytes → Dict VsamRecord → Option VsamRecord
upper_bound key [] = none
upper_bound key ((k, r) ∷ records) =
    let rest = upper_bound key records in if bytes_lt key k then some r else rest

-- The record before `records_.find(key)`; `end()` stands behind the last one. None at `begin()`.
pub before : Option VsamRecord → Bytes → Dict VsamRecord → Option VsamRecord
before last key [] = last
before last key ((k, r) ∷ records) =
    let rest = before (some r) key records in if bytes_eq k key then last else rest

pub start_browse : KsdsFile → Bytes → Bytes → Bool → Bool → KsdsFile × Result Bytes
unfolding lower_bound
start_browse f id key gteq backward =
    let fresh : BrowseContext = record (new_context id) {
      mode = f.proc_mode;
      backward = backward;
    } in
    let ctx : BrowseContext =
      elim (if gteq then lower_bound key f.records else lookup key f.records) [
        | some r ↦ set_current fresh r.key r.address
        | none ↦ record fresh { at_end = true }
      ] in
    (record f { browse_contexts = insert id ctx f.browse_contexts }, ok id)

abbrev put_context : KsdsFile → Bytes → BrowseContext → KsdsFile
put_context f id ctx = record f { browse_contexts = insert id ctx f.browse_contexts }

abbrev pub advance : BrowseContext → VsamRecord → BrowseContext
advance ctx r = record (set_current ctx r.key r.address) { records_read = add64 ctx.records_read 1 }

pub read_next : KsdsFile → Bytes → KsdsFile × Result VsamRecord
read_next f id = elim (lookup id f.browse_contexts) [
  | none ↦ (f, err vsam_error)
  | some ctx ↦
      if ctx.at_end
      then (f, err vsam_end_of_file)
      else elim (upper_bound ctx.current_key f.records) [
        | none ↦ (put_context f id (record ctx { at_end = true }), err vsam_end_of_file)
        | some r ↦ (
          record (put_context f id (advance ctx r)) {
            stats = record f.stats { browses = add64 f.stats.browses 1 };
          },
          ok r,
        )
      ]
]

pub read_prev : KsdsFile → Bytes → KsdsFile × Result VsamRecord
read_prev f id = elim (lookup id f.browse_contexts) [
  | none ↦ (f, err vsam_error)
  | some ctx ↦ elim (before none ctx.current_key f.records) [
    | none ↦ (put_context f id (record ctx { at_start = true }), err vsam_end_of_file)
    | some r ↦ (put_context f id (advance ctx r), ok r)
  ]
]

pub end_browse : KsdsFile → Bytes → KsdsFile × Result ⊤
end_browse f id = (record f { browse_contexts = erase id f.browse_contexts }, ok tt)

pub reset_browse : KsdsFile → Bytes → Bytes → KsdsFile × Result ⊤
reset_browse f id key = elim (lookup id f.browse_contexts) [
  | none ↦ (f, err vsam_error)
  | some ctx ↦ elim (lower_bound key f.records) [
    | none ↦ (f, ok tt)
    | some r ↦
        (put_context f id (record (set_current ctx r.key r.address) { at_end = false }), ok tt)
  ]
]

pub record_count : KsdsFile → ℕ
record_count f = f.stats.record_count

-- `create_vsam_file`, which knows key-sequenced files only.
pub create_vsam_file : VsamDefinition → Option KsdsFile
unfolding new_file
create_vsam_file def = elim def.type [ ksds ↦ some (new_file def) | _ ↦ none ]
