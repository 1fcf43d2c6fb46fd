-- ===== src/Interval/Scheduler/Waits.antt =====
-- wait_event and wait_any: libs/interval-control/src/interval_control.cpp. Between two readings of the
-- clock a waiting call gives the mutex up, and other threads take steps.
use ibm_cics_emulation.Base.{
  ℕ, ◌≤◌, ◌<◌, refl, sym, subst, Option-cases, Bool, true, false, Option, none, some, List, [], ◌∷◌,
  leb, if◌then◌else◌, ◌≡◌, ◌≢◌, ◌⊎◌, inl, inr, arith, lookup-insert_self, lookup-erase_self, insert,
}
use ibm_cics_emulation.Result.{Result, ok, err, record_not_found, timeout}
use ibm_cics_emulation.Interval.{
  StartRequest, IntervalControlManager, posted, expired, cancel, cancel_transaction, start,
  retrieve, retrieve_any, store_retrieve_data, set_transaction_callback, create_event, delete_event,
  post, post_with_data,
}
use ibm_cics_emulation.Interval.Scheduler.{round, retrieve_key, wait_check, begin_wait}
use ibm_cics_emulation.Interval.Scheduler.Order.{
  Step, starts, cancels, deletes, cancel_transactions, retrieves, passes, retrieve_anys, creates,
  stores, sets_callback, posts, posts_data, begins_wait, checks, step, run,
}

-- The loop: at each turn a reading of the clock, and the steps of other threads before the next.
pub wait_loop :
    IntervalControlManager
    → (event deadline : ℕ) → List (ℕ × List Step)
    → IntervalControlManager × Option (Result ℕ)
wait_loop m i deadline [] = (m, none)
wait_loop m i deadline ((now, steps) ∷ turns) =
    let (m', outcome) = wait_check m i deadline now in
    let rest = wait_loop (run m' steps) i deadline turns in
    elim outcome [ some r ↦ (m', some r) | none ↦ rest ]

-- `wait_event`, given the deadline and the turns of its loop.
pub wait_event :
    IntervalControlManager
    → (event deadline : ℕ) → List (ℕ × List Step)
    → IntervalControlManager × Option (Result ℕ)
wait_event m i deadline turns =
    let m' = begin_wait m in
    elim (m.events i) [
      | none ↦ (m', some (err record_not_found))
      | some eca ↦ wait_loop m' i deadline turns
    ]

abbrev pub is_posted : IntervalControlManager → ℕ → Bool
is_posted m i = elim (m.events i) [
  | none ↦ false
  | some eca ↦ elim eca.status [ posted ↦ true | _ ↦ false ]
]

abbrev pub is_expired : IntervalControlManager → ℕ → Bool
is_expired m i = elim (m.events i) [
  | none ↦ false
  | some eca ↦ elim eca.status [ expired ↦ true | _ ↦ false ]
]

pub posted_of : IntervalControlManager → List ℕ → List ℕ
posted_of m [] = []
posted_of m (i ∷ ids) = let rest = posted_of m ids in if is_posted m i then i ∷ rest else rest

-- A turn of wait_any.
pub wait_any_check :
    IntervalControlManager → (events : List ℕ) → (deadline now : ℕ) → Option (Result (List ℕ))
wait_any_check m ids deadline now = elim (posted_of m ids) [
  | i ∷ rest ↦ some (ok (i ∷ rest))
  | [] ↦ if leb deadline now then some (err timeout) else none
]

-- The steps do not delete the event.
abbrev pub Spares : ℕ → List Step → Type 0
Spares i [] = Unit
Spares i (deletes j ∷ steps) = (i ≢ j) × Spares i steps
Spares i (s ∷ steps) = Spares i steps

-- One of the turns reads the clock at the deadline or later, and no step before it deletes the event.
abbrev pub Ends : (event deadline : ℕ) → List (ℕ × List Step) → Type 0
Ends i deadline [] = ⊥
Ends i deadline ((now, steps) ∷ turns) = (deadline ≤ now) ⊎ (Spares i steps × Ends i deadline turns)

abbrev pub has_event : IntervalControlManager → ℕ → Bool
has_event m i = elim (m.events i) [ none ↦ false | some eca ↦ true ]

step-has_event :
    (m : IntervalControlManager) (i : ℕ) (s : Step)
    → Spares i (s ∷ [])
    → has_event m i ≡ true
    → has_event (step m s) i ≡ true
unfolding step start cancel cancel_transaction retrieve retrieve_any store_retrieve_data
    set_transaction_callback create_event delete_event post post_with_data round begin_wait
    wait_check
step-has_event m i (starts transid termid spec payload due place) k h = h
step-has_event m i (cancels j) k h = ground (arith, h)
step-has_event m i (deletes j) k h = ground (arith, h, k.0)
step-has_event m i (cancel_transactions transid) k h = ground (arith, h)
step-has_event m i (retrieves name) k h = ground (arith, h)
step-has_event m i (passes now) k h = ground (arith, h)
step-has_event m i retrieve_anys k h = ground (arith, h)
step-has_event m i creates k h = ground (arith, h)
step-has_event m i (stores key payload) k h = h
step-has_event m i (sets_callback given) k h = h
step-has_event m i (posts j now) k h = ground (arith, h)
step-has_event m i begins_wait k h = h
step-has_event m i (checks j deadline now) k h = ground (arith, h)
step-has_event m i (posts_data j payload now) k h = ground (arith, h)

Spares-split :
    (i : ℕ) (s : Step) (steps : List Step)
    → Spares i (s ∷ steps)
    → Spares i (s ∷ []) × Spares i steps
Spares-split i (starts transid termid spec payload due place) steps k = (tt, k)
Spares-split i (cancels j) steps k = (tt, k)
Spares-split i (deletes j) steps k = ((k.0, tt), k.1)
Spares-split i (cancel_transactions transid) steps k = (tt, k)
Spares-split i (retrieves name) steps k = (tt, k)
Spares-split i (passes now) steps k = (tt, k)
Spares-split i retrieve_anys steps k = (tt, k)
Spares-split i creates steps k = (tt, k)
Spares-split i (stores key payload) steps k = (tt, k)
Spares-split i (sets_callback given) steps k = (tt, k)
Spares-split i (posts j now) steps k = (tt, k)
Spares-split i begins_wait steps k = (tt, k)
Spares-split i (checks j deadline now) steps k = (tt, k)
Spares-split i (posts_data j payload now) steps k = (tt, k)

run-has_event :
    (m : IntervalControlManager) (i : ℕ) (steps : List Step)
    → Spares i steps
    → has_event m i ≡ true
    → has_event (run m steps) i ≡ true
unfolding run
run-has_event m i [] k h = h
run-has_event m i (s ∷ steps) k h =
    let (one, rest) = Spares-split i s steps k in
    run-has_event (step m s) i steps rest (step-has_event m i s one h)

-- What the wait comes to, turn by turn: at the first turn where the event is posted it is the event, unless an
-- earlier turn reads the clock at the deadline or later, where it is a timeout and the event expires.
abbrev pub Answers :
    IntervalControlManager
    → (event deadline : ℕ) → List (ℕ × List Step)
    → IntervalControlManager × Option (Result ℕ)
    → Type 0
Answers m i deadline [] (m', r) = ⊥
Answers m i deadline ((now, steps) ∷ turns) (m', r) =
    ((is_posted m i ≡ true) × (m' ≡ m) × (r ≡ some (ok i)))
    ⊎ ((is_posted m i ≡ false)
        × (deadline ≤ now)
        × (is_expired m' i ≡ true)
        × (r ≡ some (err timeout)))
    ⊎ ((is_posted m i ≡ false) × (now < deadline) × Answers (run m steps) i deadline turns (m', r))

wait_check_cases :
    (m : IntervalControlManager) (i deadline now : ℕ)
    → has_event m i ≡ true
    → ((is_posted m i ≡ true)
        × ((wait_check m i deadline now).0 ≡ m)
        × ((wait_check m i deadline now).1 ≡ some (ok i)))
      ⊎ ((is_posted m i ≡ false)
          × (deadline ≤ now)
          × (is_expired (wait_check m i deadline now).0 i ≡ true)
          × ((wait_check m i deadline now).1 ≡ some (err timeout)))
      ⊎ ((is_posted m i ≡ false)
          × (now < deadline)
          × ((wait_check m i deadline now).0 ≡ m)
          × ((wait_check m i deadline now).1 ≡ none))
unfolding wait_check
wait_check_cases m i deadline now h = ground (arith, h)

wait_loop-Answers :
    (m : IntervalControlManager) (i deadline : ℕ) (turns : List (ℕ × List Step))
    → has_event m i ≡ true
    → Ends i deadline turns
    → Answers m i deadline turns (wait_loop m i deadline turns)
unfolding wait_loop
wait_loop-Answers m i deadline [] h e = absurd e
wait_loop-Answers m i deadline ((now, steps) ∷ turns) h e =
    elim (wait_check_cases m i deadline now h) [
      | inl (p, same, c) ↦ rw (wait_loop, c) (inl (p, same, refl))
      | inr (inl (p, d, x, c)) ↦ rw (wait_loop, c) (inr (inl (p, d, x, refl)))
      | inr (inr (p, d, same, c)) ↦ elim e [
        | inl late ↦ absurd (omega (arith, late, d))
        | inr (spared, ends) ↦
            let rest = run-has_event m i steps spared h in
            let later = wait_loop-Answers (run m steps) i deadline turns rest ends in
            rw (wait_loop, c)
              (inr (
                inr (
                  p,
                  d,
                  subst
                      (λ z.
                        Answers (run m steps) i deadline turns
                          (wait_loop (run z steps) i deadline turns))
                      (sym same) later,
                )))
      ]
    ]

-- A wait for an event that there is comes back once the clock has reached its deadline: with the event, and
-- nothing else changed, if a turn no later than the first that reads the deadline finds it posted, and else
-- with a timeout, which leaves the event EXPIRED. Between the turns other threads may do anything but
-- delete the event: START, CANCEL, RETRIEVE, posts, other waits, and passes of the scheduler.
pub wait_event_returns :
    (m : IntervalControlManager) (i deadline : ℕ) (turns : List (ℕ × List Step))
    → has_event m i ≡ true
    → Ends i deadline turns
    → Answers (begin_wait m) i deadline turns (wait_event m i deadline turns)
unfolding wait_event begin_wait
wait_event_returns m i deadline turns h e = elim (Option-cases (m.events i)) [
  | inl z ↦ ground (arith, h, z)
  | inr (eca, z) ↦ rw (wait_event, z) (wait_loop-Answers (begin_wait m) i deadline turns h e)
]

-- The data of a request that is due next, unless it is empty, is what RETRIEVE returns under the names
-- of its transaction and terminal after the scheduler's round; asked for again, it is not there.
pub retrieve-round :
    (m : IntervalControlManager) (q : StartRequest) (queue : List StartRequest) (now : ℕ)
    → m.start_queue ≡ q ∷ queue
    → q.scheduled_time ≤ now
    → q.cancelled ≡ false
    → q.payload ≢ []
    → ((retrieve (round m now).0 (retrieve_key q)).1 ≡ ok q.payload)
      × ((retrieve (retrieve (round m now).0 (retrieve_key q)).0 (retrieve_key q)).1
          ≡ err record_not_found)
unfolding round retrieve
retrieve-round m q queue now e t c p =
    let key = retrieve_key q in
    let stored = insert key q.payload m.retrieve_data in
    let there = lookup-insert_self key q.payload m.retrieve_data in
    let gone = lookup-erase_self key stored in
    (ground (arith, e, t, c, p, there), ground (arith, e, t, c, p, there, gone))
