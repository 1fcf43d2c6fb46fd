-- ===== src/Syncpoint/Manager/Guard.antt =====
-- SyncpointGuard and the EXEC CICS commands: libs/syncpoint/src/syncpoint.cpp.
use ibm_cics_emulation.Base.{
  ◌≡◌, ◌≢◌, ◌⊎◌, Bool, true, false, not, some, [], arith, Bytes, lookup, if◌then◌else◌,
  lookup-insert_self,
}
use ibm_cics_emulation.Result.{Result, ok, err, undefined, invalid_state, ⊤}
use ibm_cics_emulation.Syncpoint.{UnitOfWork, active, rolled_back, syncpoint, rollback}
use ibm_cics_emulation.Syncpoint.Lifecycle.{syncpoint_cases, rollback_cases}
use ibm_cics_emulation.Syncpoint.Manager.{
  SyncpointManager, begin_uow, syncpoint_uow, rollback_uow, syncpoint_current, rollback_current,
}

pub record SyncpointGuard : Type 0 where
  pub uow_id : Bytes
  pub auto_commit : Bool
  pub active : Bool

-- `release()`
pub guard_release : SyncpointGuard → SyncpointGuard
guard_release g = record g { active = false }

module _ {W : Type 0} where
  -- The constructor.
  pub guard : SyncpointManager W → W → Bytes → Bool → SyncpointGuard × SyncpointManager W × W
  guard m w stamp auto_commit =
      let (m', w', result) = begin_uow m w stamp in
      elim result [
        | ok id ↦ (record { uow_id = id; auto_commit = auto_commit; active = true }, m', w')
        | err _ ↦ (record { uow_id = []; auto_commit = auto_commit; active = false }, m', w')
        | undefined ↦ (record { uow_id = []; auto_commit = auto_commit; active = false }, m', w')
      ]

  pub guard_commit :
      SyncpointGuard → SyncpointManager W → W → SyncpointGuard × SyncpointManager W × W × Result ⊤
  guard_commit g m w =
      if not g.active
      then (g, m, w, err invalid_state)
      else let (m', w', result) = syncpoint_uow m w g.uow_id in
        (record g { active = false }, m', w', result)

  pub guard_rollback :
      SyncpointGuard → SyncpointManager W → W → SyncpointGuard × SyncpointManager W × W × Result ⊤
  guard_rollback g m w =
      if not g.active
      then (g, m, w, err invalid_state)
      else let (m', w', result) = rollback_uow m w g.uow_id in
        (record g { active = false }, m', w', result)

  -- `~SyncpointGuard`
  pub guard_destroy : SyncpointGuard → SyncpointManager W → W → SyncpointManager W × W
  unfolding guard_commit guard_rollback
  guard_destroy g m w =
      if not g.active
      then (m, w)
      else if g.auto_commit
      then (let (_, m', w', _) = guard_commit g m w in (m', w'))
      else (let (_, m', w', _) = guard_rollback g m w in (m', w'))

  pub exec_cics_syncpoint : SyncpointManager W → W → Bytes → SyncpointManager W × W × Result ⊤
  unfolding syncpoint_current
  exec_cics_syncpoint m w stamp = syncpoint_current m w stamp

  pub exec_cics_syncpoint_rollback : SyncpointManager W → W → SyncpointManager W × W × Result ⊤
  unfolding rollback_current
  exec_cics_syncpoint_rollback m w = rollback_current m w

  pub exec_cics_syncpoint_rollbackuow : SyncpointManager W → W → SyncpointManager W × W × Result ⊤
  unfolding rollback_current
  exec_cics_syncpoint_rollbackuow m w = rollback_current m w

  syncpoint_uow_lem :
      (m : SyncpointManager W) (w : W) (id : Bytes) (u : UnitOfWork W)
      → lookup id m.uows ≡ some u
      → lookup id (syncpoint_uow m w id).0.uows ≡ some (syncpoint u w).0
  unfolding syncpoint_uow
  syncpoint_uow_lem m w id u e = ground (arith, e, lookup-insert_self id (syncpoint u w).0 m.uows)

  rollback_uow_lem :
      (m : SyncpointManager W) (w : W) (id : Bytes) (u : UnitOfWork W)
      → lookup id m.uows ≡ some u
      → lookup id (rollback_uow m w id).0.uows ≡ some (rollback u w).0
  unfolding rollback_uow
  rollback_uow_lem m w id u e = ground (arith, e, lookup-insert_self id (rollback u w).0 m.uows)

  -- An active guard never leaves its ACTIVE unit open: when it is destroyed, the unit is rolled back,
  -- or, if the guard commits automatically, has been through a syncpoint.
  pub guard_destroy_settles :
      (g : SyncpointGuard) (m : SyncpointManager W) (w : W) (u : UnitOfWork W)
      → g.active ≡ true
      → lookup g.uow_id m.uows ≡ some u
      → u.state ≡ active
      → let m' = (guard_destroy g m w).0 in
        ((g.auto_commit ≡ false)
          × (lookup g.uow_id m'.uows ≡ some (rollback u w).0)
          × ((rollback u w).0.state ≡ rolled_back))
        ⊎ ((g.auto_commit ≡ true)
            × (lookup g.uow_id m'.uows ≡ some (syncpoint u w).0)
            × ((syncpoint u w).0.state ≢ active))
  unfolding guard_destroy
  guard_destroy_settles g m w u a e live = ground (
    arith,
    a,
    syncpoint_uow_lem m w g.uow_id u e,
    rollback_uow_lem m w g.uow_id u e,
    syncpoint_cases u w,
    rollback_cases u w,
  )
