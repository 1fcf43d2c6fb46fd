-- ===== src/Tsq/Manager/Tests.antt =====
-- Runs of the manager on concrete commands.
use ibm_cics_emulation.Base.{
  ◌≡◌, refl, false, List, [], ◌∷◌, codes, lookup, to_upper, to_upper_byte, insert, bytes_eq,
  bytes_lt,
}
use ibm_cics_emulation.Result.{ok}
use ibm_cics_emulation.Tsq.{main, create, write}
use ibm_cics_emulation.Tsq.Manager.{
  TsqManager, new_manager, initialize, writeq, readq, get_or_create_queue, exec_cics_writeq_ts,
}
use ibm_cics_emulation.Tsq.Manager.Valid.{IsSound}
use ibm_cics_emulation.Tsq.Manager.History.{
  Command, initializes, writes, run, run-new_manager-IsSound,
}
use ibm_cics_emulation.Tsq.Manager.Laws.{readq-writeq}

abbrev started : List Command
started = initializes [] ∷ writes (codes "orders") (codes "one") main false 0 ∷ []

abbrev busy : TsqManager
busy = run new_manager started

busy-IsSound : IsSound busy
busy-IsSound = run-new_manager-IsSound started

run-new_manager-IsSound_example : IsSound (run new_manager started)
run-new_manager-IsSound_example = run-new_manager-IsSound started

writes_second : (writeq busy (codes "Orders") (codes "two") main).1 ≡ ok 2
unfolding run new_manager initialize exec_cics_writeq_ts writeq get_or_create_queue create write
    lookup insert bytes_eq bytes_lt to_upper to_upper_byte
writes_second = refl

same_name : to_upper (codes "ORDERS") ≡ to_upper (codes "Orders")
unfolding to_upper to_upper_byte
same_name = refl

readq-writeq_example :
    (readq (writeq busy (codes "Orders") (codes "two") main).0 (codes "ORDERS") 2).1
    ≡ ok (record { bytes = codes "two"; item_number = 2 })
readq-writeq_example =
    readq-writeq busy (codes "Orders") (codes "ORDERS") (codes "two") main 2 busy-IsSound same_name
      writes_second
