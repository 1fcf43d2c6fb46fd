-- ===== src/Syncpoint.antt =====
-- SimpleRecoveryResource and UnitOfWork: libs/syncpoint/src/syncpoint.cpp. What the callbacks of a
-- resource act on is a parameter, the type `W` of the outside world; a callback takes the world and
-- returns it with its result. The start and end times are left out. The model's resources belong to
-- one unit of work each: a resource shared by two is not modelled.
pub mod Script
pub mod Lifecycle
pub mod Manager
mod Tests
use ibm_cics_emulation.Base.{
  ℕ, ◌+◌, ◌%◌, Bool, true, false, ◌||◌, not, none, some, Option, List, [], ◌∷◌, ◌++◌, if◌then◌else◌,
  length, map, Bytes, bytes_eq,
}
use ibm_cics_emulation.Result.{
  Result, ok, err, undefined, is_ok, invalid_state, duplicate_key, record_not_found, u32, ⊤,
}

pub data UowState : Type 0 where
  active committed rolled_back in_doubt shunted : UowState

pub data ResourceType : Type 0 where
  vsam_file tsq tdq enqueue custom : ResourceType

abbrev pub Callback : Type 0 → Type 0
Callback W = W → W × Result ⊤

pub record RecoveryResource (W : Type 0) : Type 0 where
  pub name : Bytes
  pub kind : ResourceType
  pub prepare_cb : Option (Callback W)
  pub commit_cb : Option (Callback W)
  pub rollback_cb : Option (Callback W)
  pub prepared : Bool

pub record UnitOfWork (W : Type 0) : Type 0 where
  pub id : Bytes
  pub state : UowState
  pub resources : List (RecoveryResource W)
  pub syncpoint_count : ℕ
  pub rollback_count : ℕ

abbrev pub is_active : {W : Type 0} → UnitOfWork W → Bool
is_active u = elim u.state [ active ↦ true | _ ↦ false ]

abbrev pub may_roll_back : {W : Type 0} → UnitOfWork W → Bool
may_roll_back u = elim u.state [ active ↦ true | in_doubt ↦ true | _ ↦ false ]

module _ {W : Type 0} where
  prepare : RecoveryResource W → W → RecoveryResource W × W × Result ⊤
  prepare r w = elim r.prepare_cb [
    | none ↦ (record r { prepared = true }, w, ok tt)
    | some cb ↦
        let (w', result) = cb w in
        ((if is_ok result then record r { prepared = true } else r), w', result)
  ]

  commit : RecoveryResource W → W → W × Result ⊤
  commit r w = elim r.commit_cb [ none ↦ (w, ok tt) | some cb ↦ cb w ]

  rollback_resource : RecoveryResource W → W → RecoveryResource W × W × Result ⊤
  rollback_resource r w =
      let r' : RecoveryResource W = record r { prepared = false } in
      elim r.rollback_cb [
        | none ↦ (r', w, ok tt)
        | some cb ↦ let (w', result) = cb w in (r', w', result)
      ]

  prepare_all : List (RecoveryResource W) → W → List (RecoveryResource W) × W × Result ⊤
  unfolding prepare
  prepare_all [] w = ([], w, ok tt)
  prepare_all (r ∷ rs) w =
      let (r', w', result) = prepare r w in
      elim (is_ok result) [
        | true ↦ let (rs', w'', result') = prepare_all rs w' in (r' ∷ rs', w'', result')
        | false ↦ (r' ∷ rs, w', result)
      ]

  commit_all : List (RecoveryResource W) → W → W × Result ⊤
  unfolding commit
  commit_all [] w = (w, ok tt)
  commit_all (r ∷ rs) w =
      let (w', result) = commit r w in
      elim (is_ok result) [ true ↦ commit_all rs w' | false ↦ (w', result) ]

  -- From the last resource to the first; the result is the last error met, if any.
  rollback_all : List (RecoveryResource W) → W → List (RecoveryResource W) × W × Result ⊤
  unfolding rollback_resource
  rollback_all [] w = ([], w, ok tt)
  rollback_all (r ∷ rs) w =
      let (rs', w', last_error) = rollback_all rs w in
      let (r', w'', result) = rollback_resource r w' in
      (r' ∷ rs', w'', if is_ok result then last_error else result)

  pub new_uow : Bytes → UnitOfWork W
  new_uow id = record {
    id = id;
    state = active;
    resources = [];
    syncpoint_count = 0;
    rollback_count = 0;
  }

  pub named : Bytes → List (RecoveryResource W) → Bool
  named name [] = false
  named name (r ∷ rs) = bytes_eq r.name name || named name rs

  remove : Bytes → List (RecoveryResource W) → List (RecoveryResource W)
  remove name [] = []
  remove name (r ∷ rs) = if bytes_eq r.name name then rs else r ∷ remove name rs

  pub register_resource : UnitOfWork W → RecoveryResource W → UnitOfWork W × Result ⊤
  unfolding named
  register_resource u resource =
      if not (is_active u)
      then (u, err invalid_state)
      else if named resource.name u.resources
      then (u, err duplicate_key)
      else (record u { resources = u.resources ++ resource ∷ [] }, ok tt)

  pub unregister_resource : UnitOfWork W → Bytes → UnitOfWork W × Result ⊤
  unfolding named remove
  unregister_resource u name =
      if named name u.resources
      then (record u { resources = remove name u.resources }, ok tt)
      else (u, err record_not_found)

  pub has_resource : UnitOfWork W → Bytes → Bool
  unfolding named
  has_resource u name = named name u.resources

  pub resource_count : UnitOfWork W → ℕ
  resource_count u = length u.resources % u32

  pub list_resources : UnitOfWork W → List Bytes
  list_resources u = map (λ r. r.name) u.resources

  -- The end of a two-phase commit whose prepare phase came to an end.
  finish : UnitOfWork W → W × Result ⊤ → UnitOfWork W × W × Result ⊤
  finish u (w, commit_result) =
      if is_ok commit_result
      then (
        record u { syncpoint_count = (u.syncpoint_count + 1) % u32; state = committed },
        w,
        ok tt,
      )
      else (record u { state = in_doubt }, w, commit_result)

  pub syncpoint : UnitOfWork W → W → UnitOfWork W × W × Result ⊤
  unfolding finish
  syncpoint u w = elim (is_active u) [
    | false ↦ (u, w, err invalid_state)
    | true ↦
        let (rs, w', prepare_result) = prepare_all u.resources w in
        elim (is_ok prepare_result) [
          | false ↦
              let (rs', w'', _) = rollback_all rs w' in
              (record u { resources = rs'; state = rolled_back }, w'', prepare_result)
          | true ↦ finish (record u { resources = rs }) (commit_all rs w')
        ]
  ]

  pub rollback : UnitOfWork W → W → UnitOfWork W × W × Result ⊤
  rollback u w = elim (may_roll_back u) [
    | false ↦ (u, w, err invalid_state)
    | true ↦
        let (rs, w', result) = rollback_all u.resources w in
        (
          record u {
            resources = rs;
            rollback_count = (u.rollback_count + 1) % u32;
            state = rolled_back;
          },
          w',
          result,
        )
  ]

  -- `~UnitOfWork`: a unit that is still active is rolled back.
  pub destroy : UnitOfWork W → W → W
  unfolding rollback
  destroy u w = elim (is_active u) [ true ↦ (rollback u w).1 | false ↦ w ]
