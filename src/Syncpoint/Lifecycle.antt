-- ===== src/Syncpoint/Lifecycle.antt =====
-- The states of a unit of work, over any resources and any world.
use ibm_cics_emulation.Base.{
  ℕ, suc, ◌+◌, ◌%◌, ◌≡◌, ◌≢◌, refl, ◌∙◌, ◌⊎◌, true, false, ◌||◌, List, [], ◌∷◌, ◌++◌, arith, Bytes,
  bytes_eq, bytes_eq_iff, bytes_eq_refl,
}
use ibm_cics_emulation.Result.{ok, err, is_ok, u32, invalid_state, duplicate_key}
use ibm_cics_emulation.Syncpoint.{
  RecoveryResource, UnitOfWork, UowState, active, committed, rolled_back, in_doubt, shunted,
  syncpoint, rollback, register_resource, unregister_resource, new_uow, named, remove, has_resource,
}

-- The moves between states that the operations make.
abbrev pub Moves : UowState → UowState → Type 0
Moves s t =
    (s ≡ t)
    ⊎ ((s ≡ active) × ((t ≡ committed) ⊎ (t ≡ in_doubt) ⊎ (t ≡ rolled_back)))
    ⊎ ((s ≡ in_doubt) × (t ≡ rolled_back))

-- A COMMITTED unit has one syncpoint and no rollback; no unit has more than one syncpoint or more
-- than one rollback; and nobody shunts a unit.
pub record IsConsistent {W : Type 0} (u : UnitOfWork W) : Type 0 where
  pub once : (u.syncpoint_count ≡ 0) ⊎ ((u.syncpoint_count ≡ 1) × (u.state ≡ committed))
  pub settled : u.state ≡ committed → (u.syncpoint_count ≡ 1) × (u.rollback_count ≡ 0)
  pub backed : (u.rollback_count ≡ 0) ⊎ ((u.rollback_count ≡ 1) × (u.state ≡ rolled_back))
  pub kept : u.state ≢ shunted

module _ {W : Type 0} (u : UnitOfWork W) where
  syncpoint-IsConsistent : (w : W) → IsConsistent u → IsConsistent (syncpoint u w).0
  unfolding syncpoint
  syncpoint-IsConsistent w v = ground (arith, v.once, v.backed)

  rollback-IsConsistent : (w : W) → IsConsistent u → IsConsistent (rollback u w).0
  unfolding rollback
  rollback-IsConsistent w v = ground (arith, v.once, v.backed)

  register-IsConsistent :
      (r : RecoveryResource W) → IsConsistent u → IsConsistent (register_resource u r).0
  unfolding register_resource
  register-IsConsistent r v = ground (arith, v.once, v.backed)

  unregister-IsConsistent : (n : Bytes) → IsConsistent u → IsConsistent (unregister_resource u n).0
  unfolding unregister_resource
  unregister-IsConsistent n v = ground (arith, v.once, v.backed)

  pub syncpoint_cases :
      (w : W)
      → ((u.state ≢ active) × (syncpoint u w ≡ (u, w, err invalid_state)))
        ⊎ ((u.state ≡ active)
            × (((syncpoint u w).0.state ≡ committed)
                ⊎ ((syncpoint u w).0.state ≡ rolled_back)
                ⊎ ((syncpoint u w).0.state ≡ in_doubt)))
  unfolding syncpoint
  syncpoint_cases w = ground arith

  pub rollback_cases :
      (w : W)
      → ((u.state ≢ active) × (u.state ≢ in_doubt) × (rollback u w ≡ (u, w, err invalid_state)))
        ⊎ (((u.state ≡ active) ⊎ (u.state ≡ in_doubt)) × ((rollback u w).0.state ≡ rolled_back))
  unfolding rollback
  rollback_cases w = ground arith

module _ {W : Type 0} where
  -- No two resources of the list share a name.
  abbrev pub Unique : List (RecoveryResource W) → Type 0
  Unique [] = Unit
  Unique (r ∷ rs) = (named r.name rs ≡ false) × Unique rs

  named-append :
      (name : Bytes) (rs : List (RecoveryResource W)) (r : RecoveryResource W)
      → named name (rs ++ r ∷ []) ≡ (named name rs || bytes_eq r.name name)
  unfolding named
  named-append name [] r = ground arith
  named-append name (q ∷ rs) r = ground (arith, named-append name rs r)

  Unique-append :
      (rs : List (RecoveryResource W)) (r : RecoveryResource W)
      → Unique rs
      → named r.name rs ≡ false
      → Unique (rs ++ r ∷ [])
  unfolding named
  Unique-append [] r h n = (refl, tt)
  Unique-append (q ∷ rs) r h n = ground (
    arith,
    named-append q.name rs r,
    bytes_eq_iff q.name r.name,
    bytes_eq_iff r.name q.name,
    Unique-append rs r h.1,
  )

  named-remove :
      (name other : Bytes) (rs : List (RecoveryResource W))
      → named other rs ≡ false
      → named other (remove name rs) ≡ false
  unfolding named remove
  named-remove name other [] h = refl
  named-remove name other (r ∷ rs) h = ground (arith, named-remove name other rs)

  Unique-remove :
      (name : Bytes) (rs : List (RecoveryResource W))
      → Unique rs
      → Unique (remove name rs) × (named name (remove name rs) ≡ false)
  unfolding named remove
  Unique-remove name [] h = (tt, refl)
  Unique-remove name (r ∷ rs) h =
      ground (
        arith,
        bytes_eq_iff r.name name,
        Unique-remove name rs h.1,
        named-remove name r.name rs h.0,
      )

  -- Registering keeps the names of the resources distinct: a name that is taken is refused, with the
  -- unit unchanged, and so is any name unless the unit is ACTIVE; else the resource is there.
  pub register_resource_lem :
      (u : UnitOfWork W) (r : RecoveryResource W)
      → Unique u.resources
      → let (u', result) = register_resource u r in
        Unique u'.resources
        × (((result ≡ ok tt)
              × (u.state ≡ active)
              × (has_resource u r.name ≡ false)
              × (has_resource u' r.name ≡ true))
            ⊎ ((result ≡ err invalid_state) × (u' ≡ u) × (u.state ≢ active))
            ⊎ ((result ≡ err duplicate_key) × (u' ≡ u) × (has_resource u r.name ≡ true)))
  unfolding register_resource has_resource
  register_resource_lem u r h = ground (
    arith,
    Unique-append u.resources r h,
    named-append r.name u.resources r,
    bytes_eq_refl r.name,
  )

  -- Unregistering a name takes away the one resource of that name, and keeps the names distinct.
  pub unregister_resource_lem :
      (u : UnitOfWork W) (name : Bytes)
      → Unique u.resources
      → let (u', result) = unregister_resource u name in
        Unique u'.resources × (has_resource u' name ≡ false) × (is_ok result ≡ has_resource u name)
  unfolding unregister_resource has_resource
  unregister_resource_lem u name h = ground (arith, Unique-remove name u.resources h)

-- Calls on a unit of work; the world goes along.
pub data UowCall (W : Type 0) : Type 0 where
  syncpoints rolls_back : UowCall W
  registers : RecoveryResource W → UowCall W
  unregisters : Bytes → UowCall W

module _ {W : Type 0} where
  unfoldable pub step : UnitOfWork W → W → UowCall W → UnitOfWork W × W
  step u w syncpoints = let (u', w', _) = syncpoint u w in (u', w')
  step u w rolls_back = let (u', w', _) = rollback u w in (u', w')
  step u w (registers r) = ((register_resource u r).0, w)
  step u w (unregisters name) = ((unregister_resource u name).0, w)

  unfoldable pub run : UnitOfWork W → W → List (UowCall W) → UnitOfWork W × W
  run u w [] = (u, w)
  run u w (c ∷ cs) = let (u', w') = step u w c in run u' w' cs

  step-IsConsistent :
      (u : UnitOfWork W) (w : W) (c : UowCall W) → IsConsistent u → IsConsistent (step u w c).0
  unfolding step
  step-IsConsistent u w syncpoints v = syncpoint-IsConsistent u w v
  step-IsConsistent u w rolls_back v = rollback-IsConsistent u w v
  step-IsConsistent u w (registers r) v = register-IsConsistent u r v
  step-IsConsistent u w (unregisters name) v = unregister-IsConsistent u name v

  run-IsConsistent :
      (u : UnitOfWork W) (w : W) (cs : List (UowCall W))
      → IsConsistent u
      → IsConsistent (run u w cs).0
  unfolding run
  run-IsConsistent u w [] v = v
  run-IsConsistent u w (c ∷ cs) v =
      let (u', w') = step u w c in run-IsConsistent u' w' cs (step-IsConsistent u w c v)

  -- How many of the calls are a rollback of a unit that is ACTIVE or IN_DOUBT by then.
  pub rollbacks : UnitOfWork W → W → List (UowCall W) → ℕ
  rollbacks u w [] = 0
  rollbacks u w (c ∷ cs) =
      let (u', w') = step u w c in
      let later = rollbacks u' w' cs in
      elim c [
        | rolls_back ↦ elim u.state [ active ↦ suc later | in_doubt ↦ suc later | _ ↦ later ]
        | _ ↦ later
      ]

  step_count :
      (u : UnitOfWork W) (w : W) (c : UowCall W) (cs : List (UowCall W))
      → (u.rollback_count + rollbacks u w (c ∷ cs)) % u32
        ≡ ((step u w c).0.rollback_count + rollbacks (step u w c).0 (step u w c).1 cs) % u32
  unfolding rollbacks step syncpoint rollback register_resource unregister_resource
  step_count u w syncpoints cs = ground arith
  step_count u w rolls_back cs = ground arith
  step_count u w (registers r) cs = ground arith
  step_count u w (unregisters name) cs = ground arith

  run_count :
      (u : UnitOfWork W) (w : W) (cs : List (UowCall W))
      → (u.rollback_count + rollbacks u w cs) % u32 ≡ (run u w cs).0.rollback_count % u32
  unfolding run rollbacks
  run_count u w [] = omega arith
  run_count u w (c ∷ cs) = let (u', w') = step u w c in step_count u w c cs ∙ run_count u' w' cs

  -- After any calls on a new unit: it has one syncpoint and no rollback if it is COMMITTED, and else no
  -- syncpoint; it has been rolled back at most once, and then is ROLLED_BACK; it is never SHUNTED; and its
  -- count of rollbacks is the number of calls of rollback on it, modulo 2^32, that found it ACTIVE or IN_DOUBT.
  pub run-new_uow-IsConsistent :
      (id : Bytes) (w : W) (cs : List (UowCall W))
      → IsConsistent (run (new_uow id) w cs).0
        × ((run (new_uow id) w cs).0.rollback_count ≡ rollbacks (new_uow id) w cs % u32)
  unfolding new_uow
  run-new_uow-IsConsistent id w cs =
      let sound = run-IsConsistent (new_uow id) w cs (ground arith) in
      let counted = run_count (new_uow id) w cs in (sound, ground (arith, sound.backed, counted))

  -- Every call moves the state along the lifecycle: ACTIVE to COMMITTED, IN_DOUBT or ROLLED_BACK,
  -- IN_DOUBT to ROLLED_BACK, or not at all.
  pub step-Moves : (u : UnitOfWork W) (w : W) (c : UowCall W) → Moves u.state (step u w c).0.state
  unfolding step syncpoint rollback register_resource unregister_resource
  step-Moves u w syncpoints = ground arith
  step-Moves u w rolls_back = ground arith
  step-Moves u w (registers r) = ground arith
  step-Moves u w (unregisters name) = ground arith

  step_final :
      (u : UnitOfWork W) (w : W) (c : UowCall W)
      → (u.state ≡ committed) ⊎ (u.state ≡ rolled_back)
      → ((step u w c).0.state ≡ u.state) × ((step u w c).1 ≡ w)
  unfolding step syncpoint rollback register_resource unregister_resource
  step_final u w syncpoints h = ground arith
  step_final u w rolls_back h = ground arith
  step_final u w (registers r) h = ground arith
  step_final u w (unregisters name) h = ground arith

  -- A unit that is COMMITTED or ROLLED_BACK stays so, and no later call touches the world.
  pub run_final :
      (u : UnitOfWork W) (w : W) (cs : List (UowCall W))
      → (u.state ≡ committed) ⊎ (u.state ≡ rolled_back)
      → ((run u w cs).0.state ≡ u.state) × ((run u w cs).1 ≡ w)
  unfolding run
  run_final u w [] h = (refl, refl)
  run_final u w (c ∷ cs) h =
      let (u', w') = step u w c in
      let (same, still) = step_final u w c h in
      let (later, quiet) = run_final u' w' cs (rw same h) in (later ∙ same, quiet ∙ still)
