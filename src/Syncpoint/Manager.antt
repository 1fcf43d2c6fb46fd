-- ===== src/Syncpoint/Manager.antt =====
-- SyncpointManager, SyncpointGuard and the EXEC CICS commands: libs/syncpoint/src/syncpoint.cpp. The
-- singleton is the record that every operation takes and returns, with the world beside it;
-- `current_uow_id_` is thread-local in the source, and the model is one thread. A unit's pointer is
-- its id. The time stamp in an id is an argument of `begin_uow`, as the text that std::put_time gives.
pub mod Units
pub mod Guard
mod Tests
use ibm_cics_emulation.Base.{
  ℕ, zero, suc, ◌+◌, ◌-◌, ◌/◌, ◌%◌, ◌<◌, Bool, true, false, not, none, some, Option, List, [], ◌∷◌,
  ◌++◌, if◌then◌else◌, length, map, Bytes, Dict, lookup, insert, erase, codes, bytes_eq, ltb,
}
use ibm_cics_emulation.Result.{
  Result, ok, err, undefined, is_ok, invalid_state, record_not_found, not_initialized, add64, ⊤,
}
use ibm_cics_emulation.Syncpoint.{
  RecoveryResource, ResourceType, Callback, UnitOfWork, new_uow, syncpoint, rollback,
  register_resource, destroy, is_active,
}

pub record SyncpointStats : Type 0 where
  pub syncpoints_issued : ℕ
  pub rollbacks_issued : ℕ
  pub uows_created : ℕ
  pub uows_committed : ℕ
  pub uows_rolled_back : ℕ
  pub resources_registered : ℕ
  pub prepare_failures : ℕ
  pub commit_failures : ℕ
  pub rollback_failures : ℕ

abbrev pub no_stats : SyncpointStats
no_stats = record {
  syncpoints_issued = 0;
  rollbacks_issued = 0;
  uows_created = 0;
  uows_committed = 0;
  uows_rolled_back = 0;
  resources_registered = 0;
  prepare_failures = 0;
  commit_failures = 0;
  rollback_failures = 0;
}

pub record SyncpointManager (W : Type 0) : Type 0 where
  pub initialized : Bool
  pub uows : Dict (UnitOfWork W)
  pub current_uow_id : Bytes
  pub stats : SyncpointStats
  pub uow_counter : ℕ

-- `std::setfill('0') << std::setw(8) << counter`: the decimal digits, on fuel that no UInt64 uses up,
-- behind zeros up to a width of 8.
digits : ℕ → ℕ → Bytes → Bytes
digits zero n rest = rest
digits (suc fuel) n rest =
    let more = digits fuel (n / 10) ((48 + n % 10) ∷ rest) in
    if ltb n 10 then (48 + n % 10) ∷ rest else more

zeros : ℕ → Bytes → Bytes
zeros zero s = s
zeros (suc k) s = 48 ∷ zeros k s

pub uow_id : Bytes → ℕ → Bytes
unfolding digits zeros
uow_id stamp counter =
    let number = digits 20 counter [] in codes "UOW" ++ stamp ++ zeros (8 - length number) number

abbrev tally_syncpoint : SyncpointStats → Result ⊤ → SyncpointStats
tally_syncpoint s result =
    if is_ok result
    then record s {
      syncpoints_issued = add64 s.syncpoints_issued 1;
      uows_committed = add64 s.uows_committed 1;
    }
    else record s { commit_failures = add64 s.commit_failures 1 }

abbrev tally_rollback : SyncpointStats → Result ⊤ → SyncpointStats
tally_rollback s result =
    if is_ok result
    then record s {
      rollbacks_issued = add64 s.rollbacks_issued 1;
      uows_rolled_back = add64 s.uows_rolled_back 1;
    }
    else record s { rollback_failures = add64 s.rollback_failures 1 }

module _ {W : Type 0} where
  -- The destructors of `clear()`, unit by unit.
  destroy_all : Dict (UnitOfWork W) → W → W
  destroy_all [] w = w
  destroy_all ((id, u) ∷ uows) w = destroy_all uows (destroy u w)

  pub initialize : SyncpointManager W → W → SyncpointManager W × W
  unfolding destroy_all
  initialize m w = if m.initialized then (m, w) else (
    record m { initialized = true; uows = []; uow_counter = 0; stats = no_stats },
    destroy_all m.uows w,
  )

  -- Rolls the active units back; the units that are left are destroyed, none of them active.
  pub shutdown : SyncpointManager W → W → SyncpointManager W × W
  unfolding destroy_all
  shutdown m w =
      (record m { uows = []; current_uow_id = []; initialized = false }, destroy_all m.uows w)

  pub begin_uow : SyncpointManager W → W → Bytes → SyncpointManager W × W × Result Bytes
  begin_uow m w stamp =
      if not m.initialized
      then (m, w, err not_initialized)
      else let counter = add64 m.uow_counter 1 in
        let id = uow_id stamp counter in
        (
          record m {
            uow_counter = counter;
            uows = insert id (new_uow id) m.uows;
            current_uow_id = id;
            stats = record m.stats { uows_created = add64 m.stats.uows_created 1 };
          },
          elim (lookup id m.uows) [ none ↦ w | some old ↦ destroy old w ],
          ok id,
        )

  pub end_uow : SyncpointManager W → W → Bytes → SyncpointManager W × W × Result ⊤
  end_uow m w id = elim (lookup id m.uows) [
    | none ↦ (m, w, err record_not_found)
    | some u ↦ (
      record m {
        uows = erase id m.uows;
        current_uow_id = if bytes_eq m.current_uow_id id then [] else m.current_uow_id;
      },
      destroy u w,
      ok tt,
    )
  ]

  pub get_uow : SyncpointManager W → Bytes → Option (UnitOfWork W)
  get_uow m id = lookup id m.uows

  pub current_uow : SyncpointManager W → Option (UnitOfWork W)
  current_uow m = elim m.current_uow_id [ [] ↦ none | c ∷ cs ↦ lookup m.current_uow_id m.uows ]

  -- `uow->syncpoint()` through a unit's pointer, and the statistics.
  pub syncpoint_at :
      SyncpointManager W → W → Bytes → UnitOfWork W → SyncpointManager W × W × Result ⊤
  syncpoint_at m w id u =
      let (u', w', result) = syncpoint u w in
      (record m { uows = insert id u' m.uows; stats = tally_syncpoint m.stats result }, w', result)

  pub rollback_at :
      SyncpointManager W → W → Bytes → UnitOfWork W → SyncpointManager W × W × Result ⊤
  rollback_at m w id u =
      let (u', w', result) = rollback u w in
      (record m { uows = insert id u' m.uows; stats = tally_rollback m.stats result }, w', result)

  -- The current unit, or a new one; a null pointer after `begin_uow` would be undefined behaviour.
  pub with_uow :
      {A : Type 0}
      → SyncpointManager W
      → W
      → Bytes
      → (SyncpointManager W → W → UnitOfWork W → SyncpointManager W × W × Result A)
      → SyncpointManager W × W × Result A
  unfolding begin_uow current_uow
  with_uow m w stamp call = elim (current_uow m) [
    | some u ↦ call m w u
    | none ↦
        let (m', w', begun) = begin_uow m w stamp in
        elim begun [
          | err e ↦ (m', w', err e)
          | undefined ↦ (m', w', undefined)
          | ok _ ↦ elim (current_uow m') [ none ↦ (m', w', undefined) | some u ↦ call m' w' u ]
        ]
  ]

  -- `syncpoint()`
  pub syncpoint_current : SyncpointManager W → W → Bytes → SyncpointManager W × W × Result ⊤
  unfolding with_uow syncpoint_at
  syncpoint_current m w stamp =
      with_uow m w stamp (λ m' w' u. syncpoint_at m' w' m'.current_uow_id u)

  -- `syncpoint(uow_id)`
  pub syncpoint_uow : SyncpointManager W → W → Bytes → SyncpointManager W × W × Result ⊤
  unfolding syncpoint_at
  syncpoint_uow m w id = elim (lookup id m.uows) [
    | none ↦ (m, w, err record_not_found)
    | some u ↦ syncpoint_at m w id u
  ]

  -- `rollback()`
  pub rollback_current : SyncpointManager W → W → SyncpointManager W × W × Result ⊤
  unfolding rollback_at current_uow
  rollback_current m w = elim (current_uow m) [
    | none ↦ (m, w, err invalid_state)
    | some u ↦ rollback_at m w m.current_uow_id u
  ]

  -- `rollback(uow_id)`
  pub rollback_uow : SyncpointManager W → W → Bytes → SyncpointManager W × W × Result ⊤
  unfolding rollback_at
  rollback_uow m w id = elim (lookup id m.uows) [
    | none ↦ (m, w, err record_not_found)
    | some u ↦ rollback_at m w id u
  ]

  -- `register_resource(resource)`
  pub register_current :
      SyncpointManager W → W → Bytes → RecoveryResource W → SyncpointManager W × W × Result ⊤
  unfolding with_uow
  register_current m w stamp resource = with_uow m w stamp λ m' w' u.
      let (u', result) = register_resource u resource in
      (
        record m' {
          uows = insert m'.current_uow_id u' m'.uows;
          stats =
              if is_ok result
              then record m'.stats { resources_registered = add64 m'.stats.resources_registered 1 }
              else m'.stats;
        },
        w',
        result,
      )

  -- `register_resource(name, type, prepare, commit, rollback)`
  pub register_callbacks :
      SyncpointManager W
      → W
      → Bytes
      → Bytes
      → ResourceType
      → Option (Callback W)
      → Option (Callback W)
      → Option (Callback W)
      → SyncpointManager W × W × Result ⊤
  unfolding register_current
  register_callbacks m w stamp name kind prepare_cb commit_cb rollback_cb =
      register_current m w stamp (record {
        name = name;
        kind = kind;
        prepare_cb = prepare_cb;
        commit_cb = commit_cb;
        rollback_cb = rollback_cb;
        prepared = false;
      })
