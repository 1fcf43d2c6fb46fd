-- ===== src/Vsam/Ksds/Tests.antt =====
-- Runs of a key-sequenced file on concrete calls.
use ibm_cics_emulation.Base.{
  ◌<◌, ◌≡◌, refl, false, some, List, [], ◌∷◌, length, Bytes, codes, lookup, insert, bytes_eq,
  bytes_lt, contains, arith,
}
use ibm_cics_emulation.Result.{ok, vsam_end_of_file}
use ibm_cics_emulation.Vsam.{
  VsamDefinition, VsamRecord, BrowseContext, ksds, io, dynamic, no_address, compare_keys,
  lexicographic, compare_keys-lexicographic, new_context, set_current,
}
use ibm_cics_emulation.Vsam.Ksds.{KsdsFile, new_file, open_file, write, start_browse}
use ibm_cics_emulation.Vsam.Ksds.Order.{records_after}
use ibm_cics_emulation.Vsam.Ksds.Valid.{
  Call, open_call, write_call, start_browse_call, IsValid, run, step, run-new_file-IsValid,
}
use ibm_cics_emulation.Vsam.Ksds.Browse.{browse_on, browse_on-records_after}
use ibm_cics_emulation.Vsam.Ksds.Spec.{
  write_key, read_key, Request, serve_all, spec_all, table, serve_all_refines,
}

abbrev customers : VsamDefinition
customers = record {
  cluster_name = codes "CUSTOMER";
  type = ksds;
  key_length = 2;
  maximum_record_length = 80;
  ci_size = 4096;
  ca_size = 180;
}

abbrev customer : Bytes → VsamRecord
customer key = record { key = key; bytes = codes "data"; address = no_address; deleted = false }

abbrev loading : List Call
loading =
    open_call io dynamic
    ∷ write_call (customer (codes "20"))
    ∷ write_call (customer (codes "10"))
    ∷ write_call (customer (codes "30"))
    ∷ []

abbrev loaded : KsdsFile
loaded = run (new_file customers) loading

run-new_file-IsValid_example : IsValid (run (new_file customers) loading)
run-new_file-IsValid_example = run-new_file-IsValid customers loading

abbrev requests : List Request
requests =
    write_key (customer (codes "40"))
    ∷ read_key (codes "40")
    ∷ write_key (customer (codes "10"))
    ∷ []

serve_all_refines_example : serve_all loaded requests ≡ spec_all (table loaded) requests
serve_all_refines_example = serve_all_refines loaded requests

compare_keys-lexicographic_example :
    compare_keys (codes "AB") (codes "ABC") ≡ lexicographic (codes "AB") (codes "ABC")
compare_keys-lexicographic_example = compare_keys-lexicographic (codes "AB") (codes "ABC")

abbrev stored : VsamRecord
stored = record (customer (codes "10")) { address = record no_address { rba = 6 } }

abbrev browsing : KsdsFile
browsing = (start_browse loaded (codes "B1") (codes "10") false false).0

abbrev context : BrowseContext
context =
    set_current (record (new_context (codes "B1")) { mode = dynamic }) (codes "10") stored.address

context_there : lookup (codes "B1") browsing.browse_contexts ≡ some context
unfolding run step new_file open_file write lookup insert contains bytes_eq bytes_lt start_browse
    new_context set_current
context_there = refl

context_open : context.at_end ≡ false
unfolding new_context set_current
context_open = refl

two_left : length (records_after context.current_key browsing.records) < 3
unfolding new_context set_current run step new_file open_file write lookup insert contains bytes_eq
    bytes_lt records_after start_browse
two_left = omega arith

browsing-IsValid : IsValid browsing
unfolding start_browse run step
browsing-IsValid = run-new_file-IsValid customers (
    open_call io dynamic
    ∷ write_call (customer (codes "20"))
    ∷ write_call (customer (codes "10"))
    ∷ write_call (customer (codes "30"))
    ∷ start_browse_call (codes "B1") (codes "10") false false
    ∷ [])

browse_on-records_after_example :
    browse_on 3 browsing (codes "B1")
    ≡ (records_after context.current_key browsing.records, ok vsam_end_of_file)
browse_on-records_after_example =
    browse_on-records_after 3 browsing (codes "B1") context browsing-IsValid context_there
      context_open two_left
