-- ===== src/Syncpoint/Tests.antt =====
-- Runs of a unit of work over scripted resources.
use ibm_cics_emulation.Base.{◌%◌, ◌≡◌, refl, Bool, false, ◌&&◌, List, [], ◌∷◌, ◌++◌, codes}
use ibm_cics_emulation.Result.{ok, err, is_ok, io_error, u32}
use ibm_cics_emulation.Syncpoint.{UnitOfWork, active, new_uow, syncpoint}
use ibm_cics_emulation.Syncpoint.Script.{
  Script, Log, scripted, staged, scripts, protocol, outcome, all_prepare, all_commit,
  syncpoint-protocol,
}
use ibm_cics_emulation.Syncpoint.Lifecycle.{
  UowCall, syncpoints, registers, run, step, IsConsistent, Moves, Unique, rollbacks,
  run-new_uow-IsConsistent, step-Moves, run_final, register_resource_lem, unregister_resource_lem,
}
use ibm_cics_emulation.Syncpoint.Lifecycle as Lifecycle

abbrev willing : Script
willing = record { name = codes "FILE"; on_prepare = ok tt; on_commit = ok tt; on_rollback = ok tt }

abbrev unwilling : Script
unwilling = record {
  name = codes "QUEUE";
  on_prepare = err io_error;
  on_commit = ok tt;
  on_rollback = ok tt;
}

abbrev cast : List (Bool × Script)
cast = (false, willing) ∷ (false, unwilling) ∷ []

abbrev staged_uow : UnitOfWork Log
staged_uow = record {
  id = codes "UOW1";
  state = active;
  resources = staged cast;
  syncpoint_count = 0;
  rollback_count = 0;
}

syncpoint-protocol_example :
    let (u', w', result) = syncpoint staged_uow [] in
    (w' ≡ [] ++ protocol (scripts cast))
    × (u'.state ≡ outcome (scripts cast))
    × (is_ok result ≡ (all_prepare (scripts cast) && all_commit (scripts cast)))
syncpoint-protocol_example = syncpoint-protocol staged_uow cast [] refl refl

abbrev calls : List (UowCall Log)
calls = registers (scripted false willing) ∷ syncpoints ∷ Lifecycle.rolls_back ∷ []

run-new_uow-IsConsistent_example :
    IsConsistent (run (new_uow (codes "UOW1")) [] calls).0
    × ((run (new_uow (codes "UOW1")) [] calls).0.rollback_count
        ≡ rollbacks (new_uow (codes "UOW1")) [] calls % u32)
run-new_uow-IsConsistent_example = run-new_uow-IsConsistent (codes "UOW1") [] calls
