-- ===== src/Tdq/Manager/Tests.antt =====
-- Runs of the manager; no file is used.
use ibm_cics_emulation.Base.{
  ℕ, ◌↔◌, ◌≡◌, refl, true, none, [], ◌∷◌, Bytes, bytes_eq, bytes_lt, codes, Dict, lookup, IsSorted,
  to_upper, to_upper_byte, arith,
}
use ibm_cics_emulation.Result.{ok}
use ibm_cics_emulation.Tdq.{IntrapartitionQueue, intrapartition, delete, no_statistics}
use ibm_cics_emulation.Tdq.Manager.{TdqManager, resolve, resolve_destination}
use ibm_cics_emulation.Tdq.Manager.Resolve.{Leads, resolve_destination-Leads}

abbrev logs : IntrapartitionQueue ℕ
logs = record {
  definition = record {
    dest_id = codes "LOGS";
    type = intrapartition;
    disposition = delete;
    max_records = 0;
    trigger = none;
    file_path = [];
    indirect_dest = [];
    remote_sysid = [];
    enabled = true;
  };
  records = [];
  statistics = no_statistics;
  sequence_counter = 0;
  enabled = true;
}

abbrev aliases : Dict Bytes
aliases = (codes "A", codes "B") ∷ (codes "B", codes "LOGS") ∷ []

abbrev manager : TdqManager ℕ ℕ
manager = record {
  intra_queues = (codes "LOGS", logs) ∷ [];
  extra_queues = [];
  indirect_map = aliases;
  initialized = true;
  total_dests_defined = 3;
  total_writes = 0;
  total_reads = 0;
}

resolves : resolve 9 aliases (codes "a") ≡ ok (codes "LOGS")
unfolding resolve lookup bytes_eq to_upper to_upper_byte
resolves = refl

aliases-IsSorted : IsSorted aliases
unfolding bytes_lt
aliases-IsSorted = ground arith

resolve_destination-Leads_example :
    (resolve_destination aliases (codes "a") ≡ ok (codes "LOGS"))
    ↔ Leads aliases (codes "a") (codes "LOGS")
resolve_destination-Leads_example =
    resolve_destination-Leads aliases (codes "a") (codes "LOGS") aliases-IsSorted
