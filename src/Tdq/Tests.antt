-- ===== src/Tdq/Tests.antt =====
-- Runs of an intrapartition queue; the world counts the transactions started.
use ibm_cics_emulation.Base.{ℕ, ◌+◌, ◌≡◌, refl, true, false, some, List, [], ◌∷◌, Bytes, codes}
use ibm_cics_emulation.Tdq.{
  TriggerDefinition, TdqDefinition, TdqDisposition, IntrapartitionQueue, intrapartition, delete,
  new_queue, no_statistics,
}
use ibm_cics_emulation.Tdq.Fifo.{
  Call, writes, reads, enables, answers, view, spec_all, answers_refine,
}
use ibm_cics_emulation.Tdq.Valid.{IsValid, run, deepest, run-new_queue-IsValid}

abbrev counting : Bytes → Bytes → ℕ → ℕ
counting transaction dest w = w + 1

abbrev at_two : TriggerDefinition ℕ
at_two = record {
  transaction_id = codes "PRNT";
  trigger_level = 2;
  enabled = true;
  callback = some counting;
}

abbrev printer : TdqDisposition → TdqDefinition ℕ
printer disposition = record {
  dest_id = codes "PRT1";
  type = intrapartition;
  disposition = disposition;
  max_records = 3;
  trigger = some at_two;
  file_path = [];
  indirect_dest = [];
  remote_sysid = [];
  enabled = true;
}

abbrev calls : List Call
calls = writes (codes "one") ∷ writes (codes "two") ∷ reads ∷ enables false ∷ reads ∷ []

abbrev filled : TdqDisposition → IntrapartitionQueue ℕ
filled disposition = record {
  definition = printer disposition;
  records = record { bytes = codes "one"; sequence_number = 1 } ∷ [];
  statistics = record no_statistics {
    current_depth = 1;
    total_records_written = 1;
    peak_depth = 1;
  };
  sequence_counter = 1;
  enabled = true;
}

answers_refine_example : answers (filled delete) 0 calls ≡ spec_all 3 (view (filled delete)) calls
answers_refine_example = answers_refine (filled delete) 0 calls refl

run-new_queue-IsValid_example :
    IsValid (run (new_queue (printer delete)) 0 calls).0
    × ((run (new_queue (printer delete)) 0 calls).0.statistics.peak_depth
        ≡ deepest (new_queue (printer delete)) 0 calls)
run-new_queue-IsValid_example = run-new_queue-IsValid (printer delete) 0 calls refl
