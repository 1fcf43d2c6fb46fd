-- ===== src/Tsq/Manager/History.antt =====
-- Any sequence of EXEC CICS commands and initializations.
use ibm_cics_emulation.Base.{ℕ, Bool, List, [], ◌∷◌, some, none, arith, Bytes, Option}
use ibm_cics_emulation.Tsq.{TsqLocation}
use ibm_cics_emulation.Tsq.Manager.{
  TsqManager, new_manager, initialize, exec_cics_writeq_ts, exec_cics_readq_ts,
  exec_cics_deleteq_ts,
}
use ibm_cics_emulation.Tsq.Manager.Valid.{
  IsSound, writeq-IsSound, delete_queue-IsSound, rewriteq-IsSound, deleteq_item-IsSound,
  readq-IsSound, readq_next-IsSound,
}

pub data Command : Type 0 where
  initializes : Bytes → Command
  writes : Bytes → Bytes → TsqLocation → Bool → ℕ → Command
  reads : Bytes → ℕ → Bool → Command
  deletes : Bytes → Option ℕ → Command

unfoldable pub run : TsqManager → List Command → TsqManager
run m [] = m
run m (initializes path ∷ cs) = run (initialize m path).0 cs
run m (writes queue from location rewriting item ∷ cs) =
    run (exec_cics_writeq_ts m queue from location rewriting item).0 cs
run m (reads queue item next ∷ cs) = run (exec_cics_readq_ts m queue item next).0 cs
run m (deletes queue item ∷ cs) = run (exec_cics_deleteq_ts m queue item).0 cs

writeq_ts-IsSound :
    (m : TsqManager) (queue from : Bytes) (l : TsqLocation) (rewriting : Bool) (item : ℕ)
    → IsSound m
    → IsSound (exec_cics_writeq_ts m queue from l rewriting item).0
unfolding exec_cics_writeq_ts
writeq_ts-IsSound m queue from l rewriting item s =
    ground (arith, rewriteq-IsSound m queue s item from, writeq-IsSound m queue s from l)

readq_ts-IsSound :
    (m : TsqManager) (queue : Bytes) (item : ℕ) (next : Bool)
    → IsSound m
    → IsSound (exec_cics_readq_ts m queue item next).0
unfolding exec_cics_readq_ts
readq_ts-IsSound m queue item next s = ground (
  arith,
  readq-IsSound m queue s item,
  readq-IsSound m queue s 1,
  readq_next-IsSound m queue s item,
)

deleteq_ts-IsSound :
    (m : TsqManager) (queue : Bytes) (item : Option ℕ)
    → IsSound m
    → IsSound (exec_cics_deleteq_ts m queue item).0
unfolding exec_cics_deleteq_ts
deleteq_ts-IsSound m queue none s = delete_queue-IsSound m queue s
deleteq_ts-IsSound m queue (some item) s = deleteq_item-IsSound m queue s item

run-IsSound : (m : TsqManager) (cs : List Command) → IsSound m → IsSound (run m cs)
unfolding run initialize
run-IsSound m [] s = s
run-IsSound m (initializes path ∷ cs) s = run-IsSound (initialize m path).0 cs (ground (arith, s))
run-IsSound m (writes queue from l rewriting item ∷ cs) s =
    run-IsSound (exec_cics_writeq_ts m queue from l rewriting item).0 cs
      (writeq_ts-IsSound m queue from l rewriting item s)
run-IsSound m (reads queue item next ∷ cs) s =
    run-IsSound (exec_cics_readq_ts m queue item next).0 cs (readq_ts-IsSound m queue item next s)
run-IsSound m (deletes queue item ∷ cs) s =
    run-IsSound (exec_cics_deleteq_ts m queue item).0 cs (deleteq_ts-IsSound m queue item s)

-- After any sequence of EXEC CICS commands and initializations on a new manager every queue is valid
-- and live under a name in upper case, the names ascend, `active_queues` is the number of queues and
-- `total_queues_created` the number of those and the deleted ones, modulo 2^64.
pub run-new_manager-IsSound : (cs : List Command) → IsSound (run new_manager cs)
unfolding new_manager
run-new_manager-IsSound cs = run-IsSound new_manager cs (ground arith)
