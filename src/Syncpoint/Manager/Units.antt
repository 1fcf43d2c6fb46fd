-- ===== src/Syncpoint/Manager/Units.antt =====
-- The manager's current unit of work.
use ibm_cics_emulation.Base.{
  ◌≡◌, ◌≢◌, refl, sym, ap, ◌∙◌, ◌⊎◌, inl, inr, true, none, some, [], arith, Bytes, lookup, bytes_eq,
  bytes_eq_iff, Option-cases, lookup-insert_self, lookup-erase, if◌then◌else◌,
}
use ibm_cics_emulation.Result.{Result, ok, err, invalid_state, add64}
use ibm_cics_emulation.Syncpoint.{
  UnitOfWork, new_uow, active, committed, syncpoint, rollback, destroy, is_active,
}
use ibm_cics_emulation.Syncpoint.Manager.{
  SyncpointManager, uow_id, begin_uow, end_uow, current_uow, with_uow, syncpoint_current,
  syncpoint_at,
}

module _ {W : Type 0} where
  -- The current unit is found by the id that the manager keeps.
  current_named :
      (m : SyncpointManager W) (u : UnitOfWork W)
      → current_uow m ≡ some u
      → lookup m.current_uow_id m.uows ≡ some u
  unfolding current_uow
  current_named m u e = ground arith

  begun_ok :
      (m : SyncpointManager W) (w : W) (stamp : Bytes)
      → m.initialized ≡ true
      → (begin_uow m w stamp).2 ≡ ok (uow_id stamp (add64 m.uow_counter 1))
  unfolding begin_uow
  begun_ok m w stamp h = ground (arith, h)

  begun_current :
      (m : SyncpointManager W) (w : W) (stamp : Bytes)
      → m.initialized ≡ true
      → current_uow (begin_uow m w stamp).0 ≡ some (new_uow (uow_id stamp (add64 m.uow_counter 1)))
  unfolding begin_uow current_uow uow_id
  begun_current m w stamp h =
      let id = uow_id stamp (add64 m.uow_counter 1) in
      rw h (lookup-insert_self id (new_uow id) m.uows)

  with_uow_current :
      {A : Type 0} (m : SyncpointManager W) (w : W) (stamp : Bytes) (u : UnitOfWork W)
      (call : SyncpointManager W → W → UnitOfWork W → SyncpointManager W × W × Result A)
      → current_uow m ≡ some u
      → with_uow m w stamp call ≡ call m w u
  unfolding with_uow
  with_uow_current m w stamp u call e = rw (e, with_uow)

  with_uow_begun :
      {A : Type 0} (m : SyncpointManager W) (w : W) (stamp : Bytes)
      (call : SyncpointManager W → W → UnitOfWork W → SyncpointManager W × W × Result A)
      → m.initialized ≡ true
      → current_uow m ≡ none
      → let (m', w', _) = begin_uow m w stamp in
        with_uow m w stamp call ≡ call m' w' (new_uow (uow_id stamp (add64 m.uow_counter 1)))
  unfolding with_uow
  with_uow_begun m w stamp call h e =
      let now = begun_current m w stamp h in
      let begun = begun_ok m w stamp h in rw (e, with_uow, begun, now)

  -- A command on the current unit of an initialized manager reaches the unit that is current, or, if
  -- there is none, a new ACTIVE one that it makes current: the null pointer is never followed.
  pub with_uow_reaches :
      {A : Type 0} (m : SyncpointManager W) (w : W) (stamp : Bytes)
      (call : SyncpointManager W → W → UnitOfWork W → SyncpointManager W × W × Result A)
      → m.initialized ≡ true
      → (m' : SyncpointManager W) × (w' : W) × (u : UnitOfWork W) × (with_uow m w stamp call
          ≡ call m' w' u)
        × (current_uow m' ≡ some u)
        × ((current_uow m ≡ some u) ⊎ ((current_uow m ≡ none) × (u.state ≡ active)))
  unfolding new_uow
  with_uow_reaches m w stamp call h = elim (Option-cases (current_uow m)) [
    | inr (u, e) ↦ (m, w, u, with_uow_current m w stamp u call e, e, inl e)
    | inl e ↦
        let (m', w', r) = begin_uow m w stamp in
        (
          m',
          w',
          new_uow (uow_id stamp (add64 m.uow_counter 1)),
          with_uow_begun m w stamp call h e,
          begun_current m w stamp h,
          inr (e, refl),
        )
  ]

  syncpoint_ok :
      (u : UnitOfWork W) (w : W) → (syncpoint u w).2 ≡ ok tt → (syncpoint u w).0.state ≡ committed
  unfolding syncpoint
  syncpoint_ok u w h = ground arith

  syncpoint_refused :
      (u : UnitOfWork W) (w : W) → u.state ≡ committed → syncpoint u w ≡ (u, w, err invalid_state)
  unfolding syncpoint
  syncpoint_refused u w h = ground arith

  syncpoint_at_current :
      (m : SyncpointManager W) (w : W) (u : UnitOfWork W)
      → current_uow m ≡ some u
      → current_uow (syncpoint_at m w m.current_uow_id u).0 ≡ some (syncpoint u w).0
  unfolding syncpoint_at current_uow
  syncpoint_at_current m w u e =
      ground (arith, e, lookup-insert_self m.current_uow_id (syncpoint u w).0 m.uows)

  syncpoint_at_refused :
      (m : SyncpointManager W) (w : W) (id : Bytes) (u : UnitOfWork W)
      → u.state ≡ committed
      → let (m', w', result) = syncpoint_at m w id u in
        (result ≡ err invalid_state)
        × (w' ≡ w)
        × (m'.stats.commit_failures ≡ add64 m.stats.commit_failures 1)
  unfolding syncpoint_at
  syncpoint_at_refused m w id u h = ground (arith, syncpoint_refused u w h)

  syncpoint_at_result :
      (m : SyncpointManager W) (w : W) (id : Bytes) (u : UnitOfWork W)
      → (syncpoint_at m w id u).2 ≡ (syncpoint u w).2
  unfolding syncpoint_at
  syncpoint_at_result m w id u = refl

  -- Once a syncpoint on the current unit of an initialized manager has succeeded, the unit stays the
  -- current one and is COMMITTED: the next syncpoint fails with INVALID_STATE, leaves the world alone
  -- and counts a commit failure.
  pub syncpoint_again :
      (m : SyncpointManager W) (w w' : W) (stamp stamp' : Bytes)
      → m.initialized ≡ true
      → (syncpoint_current m w stamp).2 ≡ ok tt
      → let m₁ = (syncpoint_current m w stamp).0 in
        let (m₂, w₂, result) = syncpoint_current m₁ w' stamp' in
        (result ≡ err invalid_state)
        × (w₂ ≡ w')
        × (m₂.stats.commit_failures ≡ add64 m₁.stats.commit_failures 1)
  unfolding syncpoint_current
  syncpoint_again m w w' stamp stamp' i h =
      let call = λ (m : SyncpointManager W) (w : W) (u : UnitOfWork W).
        syncpoint_at m w m.current_uow_id u in
      let (mₒ, wₒ, u, reached, now, _) = with_uow_reaches m w stamp call i in
      let done = syncpoint_ok u wₒ (ap (λ t. t.2) (sym reached) ∙ h) in
      let m₁ = (call mₒ wₒ u).0 in
      let now₁ = syncpoint_at_current mₒ wₒ u now in
      let again = with_uow_current m₁ w' stamp' (syncpoint u wₒ).0 call now₁ in
      rw (reached, again) (syncpoint_at_refused m₁ w' m₁.current_uow_id (syncpoint u wₒ).0 done)

  -- Ending a unit forgets it and no other; one that was still ACTIVE is rolled back, and for any other
  -- the world is left alone.
  pub end_uow_lem :
      (m : SyncpointManager W) (w : W) (u : UnitOfWork W) (id other : Bytes)
      → lookup id m.uows ≡ some u
      → let (m', w', result) = end_uow m w id in
        (result ≡ ok tt)
        × (lookup other m'.uows ≡ (if bytes_eq id other then none else lookup other m.uows))
        × (m'.current_uow_id ≢ id ⊎ (id ≡ []))
        × (w' ≡ (if is_active u then (rollback u w).1 else w))
  unfolding end_uow destroy
  end_uow_lem m w u id other e =
      ground (arith, e, lookup-erase id other m.uows, bytes_eq_iff m.current_uow_id id)
