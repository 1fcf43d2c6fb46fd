-- ===== src/Tdq.antt =====
-- TDQRecord, TDQDefinition, TDQStatistics and IntrapartitionQueue: libs/tdq/src/tdq_manager.cpp and
-- include/cics/tdq/tdq_types.hpp. The callback of a trigger acts on a world `W`, which is a parameter;
-- the time stamps are left out. A method runs under the lock of the queue, so it is one step.
pub mod Fifo
pub mod Valid
pub mod Trigger
pub mod Manager
mod Tests
use ibm_cics_emulation.Base.{
  ℕ, ◌+◌, ◌-◌, ◌%◌, ◌^◌, Bool, true, false, ◌&&◌, not, none, some, Option, List, [], ◌∷◌, ◌++◌,
  if◌then◌else◌, ltb, leb, length, Bytes,
}
use ibm_cics_emulation.Result.{
  Result, ok, err, invalid_state, invalid_argument, resource_exhausted, vsam_end_of_file, add64,
  sub64, ⊤,
}
use ibm_cics_emulation.Text.{trimmed, fixed_empty}

abbrev pub max_record_length : ℕ
max_record_length = 32767

pub data TdqType : Type 0 where
  intrapartition extrapartition indirect remote : TdqType

pub data TdqDisposition : Type 0 where
  reread delete : TdqDisposition

pub record TdqRecord : Type 0 where
  pub bytes : Bytes
  pub sequence_number : ℕ

pub record TriggerDefinition (W : Type 0) : Type 0 where
  pub transaction_id : Bytes
  pub trigger_level : ℕ
  pub enabled : Bool
  pub callback : Option (Bytes → Bytes → W → W)

pub record TdqDefinition (W : Type 0) : Type 0 where
  pub dest_id : Bytes
  pub type : TdqType
  pub disposition : TdqDisposition
  pub max_records : ℕ
  pub trigger : Option (TriggerDefinition W)
  pub file_path : Bytes
  pub indirect_dest : Bytes
  pub remote_sysid : Bytes
  pub enabled : Bool

is_blank : Bytes → Bool
is_blank [] = true
is_blank (c ∷ s) = false

pub validate : {W : Type 0} → TdqDefinition W → Result ⊤
unfolding is_blank
validate d = if fixed_empty d.dest_id then err invalid_argument else elim d.type [
  | extrapartition ↦ if is_blank d.file_path then err invalid_argument else ok tt
  | indirect ↦ if is_blank d.indirect_dest then err invalid_argument else ok tt
  | remote ↦ if is_blank d.remote_sysid then err invalid_argument else ok tt
  | intrapartition ↦ ok tt
]

pub record TdqStatistics : Type 0 where
  pub current_depth : ℕ
  pub total_records_written : ℕ
  pub total_records_read : ℕ
  pub total_bytes_written : ℕ
  pub total_bytes_read : ℕ
  pub trigger_count : ℕ
  pub peak_depth : ℕ

abbrev pub no_statistics : TdqStatistics
no_statistics = record {
  current_depth = 0;
  total_records_written = 0;
  total_records_read = 0;
  total_bytes_written = 0;
  total_bytes_read = 0;
  trigger_count = 0;
  peak_depth = 0;
}

record_write : TdqStatistics → ℕ → TdqStatistics
record_write s bytes = record s {
  total_records_written = add64 s.total_records_written 1;
  current_depth = add64 s.current_depth 1;
  total_bytes_written = add64 s.total_bytes_written bytes;
}

record_read : TdqStatistics → ℕ → TdqStatistics
record_read s bytes = record s {
  total_records_read = add64 s.total_records_read 1;
  current_depth = sub64 s.current_depth 1;
  total_bytes_read = add64 s.total_bytes_read bytes;
}

record_trigger : TdqStatistics → TdqStatistics
record_trigger s = record s { trigger_count = add64 s.trigger_count 1 }

update_peak_depth : TdqStatistics → ℕ → TdqStatistics
update_peak_depth s depth = if ltb s.peak_depth depth then record s { peak_depth = depth } else s

pub record IntrapartitionQueue (W : Type 0) : Type 0 where
  pub definition : TdqDefinition W
  pub records : List TdqRecord
  pub statistics : TdqStatistics
  pub sequence_counter : ℕ
  pub enabled : Bool

-- The record is moved out of the front of the queue: what stays there, unless it is popped, has its
-- sequence number and no data.
after_read : TdqDisposition → TdqRecord → List TdqRecord → List TdqRecord
after_read delete r rs = rs
after_read reread r rs = record r { bytes = [] } ∷ rs

module _ {W : Type 0} where
  -- The constructor; `enabled_` starts as true whatever the definition says.
  pub new_queue : TdqDefinition W → IntrapartitionQueue W
  new_queue def = record {
    definition = def;
    records = [];
    statistics = no_statistics;
    sequence_counter = 0;
    enabled = true;
  }

  pub set_enabled : IntrapartitionQueue W → Bool → IntrapartitionQueue W
  set_enabled q on = record q { enabled = on }

  start_transaction : TriggerDefinition W → Bytes → W → W
  start_transaction t dest w = elim t.callback [
    | none ↦ w
    | some callback ↦ callback t.transaction_id dest w
  ]

  pub check_trigger : IntrapartitionQueue W → W → IntrapartitionQueue W × W
  unfolding start_transaction record_trigger
  check_trigger q w = elim q.definition.trigger [
    | none ↦ (q, w)
    | some t ↦
        if not t.enabled
        then (q, w)
        else if leb t.trigger_level (length q.records)
        then (
          record q { statistics = record_trigger q.statistics },
          start_transaction t (trimmed q.definition.dest_id) w,
        )
        else (q, w)
  ]

  -- The queue with a new record behind the others.
  add_record : IntrapartitionQueue W → Bytes → IntrapartitionQueue W
  unfolding record_write update_peak_depth
  add_record q bytes =
      let sequence = add64 q.sequence_counter 1 in
      let records' = q.records ++ record { bytes = bytes; sequence_number = sequence } ∷ [] in
      let stats = record_write q.statistics (length bytes) in
      record q {
        sequence_counter = sequence;
        records = records';
        statistics = update_peak_depth stats (length records');
      }

  pub write : IntrapartitionQueue W → W → Bytes → IntrapartitionQueue W × W × Result ⊤
  unfolding add_record check_trigger
  write q w bytes =
      if not q.enabled
      then (q, w, err invalid_state)
      else if ltb max_record_length (length bytes)
      then (q, w, err invalid_argument)
      else if ltb 0 q.definition.max_records && leb q.definition.max_records (length q.records)
      then (q, w, err resource_exhausted)
      else (let (q', w') = check_trigger (add_record q bytes) w in (q', w', ok tt))

  pub read : IntrapartitionQueue W → IntrapartitionQueue W × Result TdqRecord
  unfolding after_read record_read
  read q = if not q.enabled then (q, err invalid_state) else elim q.records [
    | [] ↦ (q, err vsam_end_of_file)
    | r ∷ rs ↦ (
      record q {
        records = after_read q.definition.disposition r rs;
        statistics = record_read q.statistics (length r.bytes);
      },
      ok r,
    )
  ]

  pub peek : IntrapartitionQueue W → Result TdqRecord
  peek q = elim q.records [ [] ↦ err vsam_end_of_file | r ∷ rs ↦ ok r ]

  pub depth : IntrapartitionQueue W → ℕ
  depth q = length q.records
