-- ===== src/Interval/Scheduler/Order.antt =====
-- Which requests the scheduler runs, and in which order: libs/interval-control/src/interval_control.cpp.
use ibm_cics_emulation.Base.{
  ℕ, zero, suc, ◌≤◌, ◌<◌, ◌-◌, Bool, true, false, List, [], ◌∷◌, ◌++◌, leb, if◌then◌else◌, length,
  Bytes, ◌≡◌, refl, ap, ◌∙◌, arith, subst,
}
use ibm_cics_emulation.Interval.{
  StartRequest, IntervalControlManager, new_manager, push, cancel, cancel_transaction, start,
  retrieve, retrieve_any, store_retrieve_data, set_transaction_callback, create_event, delete_event,
  post, post_with_data, IntervalSpec,
}
use ibm_cics_emulation.Interval.Scheduler.{
  round, rounds, launches, rounds-launches, wait_check, begin_wait,
}

pub data Step : Type 0 where
  starts : (transid termid : Bytes) → IntervalSpec → (payload : Bytes) → (due place : ℕ) → Step
  cancels deletes : ℕ → Step
  cancel_transactions retrieves : Bytes → Step
  passes : (now : ℕ) → Step
  retrieve_anys creates : Step
  stores : (key payload : Bytes) → Step
  sets_callback : Bool → Step
  posts : (event now : ℕ) → Step
  begins_wait : Step
  checks : (event deadline now : ℕ) → Step
  posts_data : (event : ℕ) → (payload : Bytes) → (now : ℕ) → Step

-- A call of START, CANCEL, RETRIEVE or of the events, a pass of the scheduler's loop, the start of a call of
-- wait_event or wait_any, or a turn of the loop of wait_event; a turn of wait_any changes nothing.
unfoldable pub step : IntervalControlManager → Step → IntervalControlManager
step m (starts transid termid spec payload due place) =
    (start m transid termid spec payload due place).0
step m (cancels i) = (cancel m i).0
step m (deletes i) = (delete_event m i).0
step m (cancel_transactions transid) = (cancel_transaction m transid).0
step m (retrieves name) = (retrieve m name).0
step m (passes now) = (round m now).0
step m retrieve_anys = (retrieve_any m).0
step m creates = (create_event m).0
step m (stores key payload) = store_retrieve_data m key payload
step m (sets_callback given) = set_transaction_callback m given
step m (posts i now) = (post m i now).0
step m begins_wait = begin_wait m
step m (checks i deadline now) = (wait_check m i deadline now).0
step m (posts_data i payload now) = (post_with_data m i payload now).0

unfoldable pub run : IntervalControlManager → List Step → IntervalControlManager
run m [] = m
run m (s ∷ steps) = run (step m s) steps

-- None of the requests is due before the time.
abbrev pub NotBefore : ℕ → List StartRequest → Type 0
NotBefore t [] = Unit
NotBefore t (q ∷ queue) = (t ≤ q.scheduled_time) × NotBefore t queue

-- In the order of their times, and none of them marked as cancelled.
abbrev pub IsScheduled : List StartRequest → Type 0
IsScheduled [] = Unit
IsScheduled (q ∷ queue) =
    (q.cancelled ≡ false) × NotBefore q.scheduled_time queue × IsScheduled queue

NotBefore-push :
    (t place : ℕ) (q : StartRequest) (queue : List StartRequest)
    → t ≤ q.scheduled_time
    → NotBefore t queue
    → NotBefore t (push place q queue)
unfolding push
NotBefore-push t place q [] h a = (h, tt)
NotBefore-push t place q (p ∷ queue) h a =
    ground (
      arith,
      h,
      a,
      NotBefore-push t place q queue h a.1,
      NotBefore-push t (place - 1) q queue h a.1,
    )

NotBefore-earlier :
    (t u : ℕ) (queue : List StartRequest) → t ≤ u → NotBefore u queue → NotBefore t queue
NotBefore-earlier t u [] h a = tt
NotBefore-earlier t u (q ∷ queue) h a = (omega (arith, h, a.0), NotBefore-earlier t u queue h a.1)

push-IsScheduled :
    (place : ℕ) (q : StartRequest) (queue : List StartRequest)
    → q.cancelled ≡ false
    → IsScheduled queue
    → IsScheduled (push place q queue)
unfolding push
push-IsScheduled place q [] c h = (c, tt, tt)
push-IsScheduled place q (p ∷ queue) c h = ground (
  arith,
  c,
  h,
  push-IsScheduled place q queue c h.2,
  push-IsScheduled (place - 1) q queue c h.2,
  NotBefore-earlier q.scheduled_time p.scheduled_time queue,
  NotBefore-push p.scheduled_time place q queue,
  NotBefore-push p.scheduled_time (place - 1) q queue,
)

step-IsScheduled :
    (m : IntervalControlManager) (s : Step)
    → IsScheduled m.start_queue
    → IsScheduled (step m s).start_queue
unfolding step start cancel cancel_transaction retrieve retrieve_any store_retrieve_data
    set_transaction_callback create_event delete_event post post_with_data round begin_wait
    wait_check
step-IsScheduled m (starts transid termid spec payload due place) h =
    push-IsScheduled place
      (record {
        transaction_id = transid;
        terminal_id = termid;
        payload = payload;
        spec = spec;
        request_id = m.next_request_id;
        scheduled_time = due;
        cancelled = false;
      })
      m.start_queue refl h
step-IsScheduled m (cancels i) h = ground (arith, h)
step-IsScheduled m (deletes i) h = ground (arith, h)
step-IsScheduled m (cancel_transactions transid) h = ground (arith, h)
step-IsScheduled m (retrieves name) h = ground (arith, h)
step-IsScheduled m (passes now) h = ground (arith, h)
step-IsScheduled m retrieve_anys h = ground (arith, h)
step-IsScheduled m creates h = h
step-IsScheduled m (stores key payload) h = h
step-IsScheduled m (sets_callback given) h = h
step-IsScheduled m (posts i now) h = ground (arith, h)
step-IsScheduled m begins_wait h = h
step-IsScheduled m (checks i deadline now) h = ground (arith, h)
step-IsScheduled m (posts_data i payload now) h = ground (arith, h)

pub run-IsScheduled :
    (m : IntervalControlManager) (steps : List Step)
    → IsScheduled m.start_queue
    → IsScheduled (run m steps).start_queue
unfolding run
run-IsScheduled m [] h = h
run-IsScheduled m (s ∷ steps) h = run-IsScheduled (step m s) steps (step-IsScheduled m s h)

-- The clock shows the time or a later one at each reading.
abbrev pub Reached : ℕ → List ℕ → Type 0
Reached t [] = Unit
Reached t (now ∷ clock) = (t ≤ now) × Reached t clock

-- The times in front of a request of the queue are not later than its own.
head_time :
    (p q : StartRequest) (before after : List StartRequest)
    → NotBefore p.scheduled_time (before ++ q ∷ after)
    → p.scheduled_time ≤ q.scheduled_time
head_time p q [] after h = h.0
head_time p q (b ∷ before) after h = head_time p q before after h.1

launches_reach :
    (before after : List StartRequest) (q : StartRequest) (clock : List ℕ)
    → IsScheduled (before ++ q ∷ after)
    → Reached q.scheduled_time clock
    → length before < length clock
    → (later : List StartRequest) × (launches (before ++ q ∷ after) clock ≡ before ++ q ∷ later)
unfolding launches
launches_reach before after q [] h r n = absurd (omega (arith, n))
launches_reach [] after q (now ∷ clock) h r n = (launches after clock, ground (arith, h, r))
launches_reach (p ∷ before) after q (now ∷ clock) h r n =
    let (later, e) = launches_reach before after q clock h.2 r.1 (omega (arith, n)) in
    (later, ground (arith, h, r, e, head_time p q before after h.1))

-- After any steps, a request of the scheduler's queue runs, right after those that stand before it there and in
-- their order, if the loop comes round often enough at times not before its own: no step holds it up
-- for good, a cancellation included. This is with a callback to run it by, and for any order of the
-- requests of one time.
pub request_runs :
    (steps : List Step) (before after : List StartRequest) (q : StartRequest) (clock : List ℕ)
    → (run new_manager steps).start_queue ≡ before ++ q ∷ after
    → (run new_manager steps).has_callback ≡ true
    → Reached q.scheduled_time clock
    → length before < length clock
    → (later : List StartRequest) × ((rounds (run new_manager steps) clock).1 ≡ before ++ q ∷ later)
request_runs steps before after q clock e c r n =
    let m = run new_manager steps in
    let scheduled = subst IsScheduled e (run-IsScheduled new_manager steps tt) in
    let (later, l) = launches_reach before after q clock scheduled r n in
    (later, rounds-launches m clock c ∙ ap (λ queue. launches queue clock) e ∙ l)

-- The requests that are due at a time.
pub due : ℕ → List StartRequest → List StartRequest
due now [] = []
due now (q ∷ queue) =
    let rest = due now queue in if leb q.scheduled_time now then q ∷ rest else rest

abbrev pub readings : ℕ → ℕ → List ℕ
readings zero now = []
readings (suc n) now = now ∷ readings n now

none_due : (now : ℕ) (queue : List StartRequest) → NotBefore (suc now) queue → due now queue ≡ []
unfolding due
none_due now [] h = refl
none_due now (q ∷ queue) h = ground (arith, h, none_due now queue)

launches_none :
    (n now : ℕ) (queue : List StartRequest)
    → NotBefore (suc now) queue
    → launches queue (readings n now) ≡ []
unfolding launches
launches_none zero now queue h = refl
launches_none (suc n) now [] h = refl
launches_none (suc n) now (q ∷ queue) h = ground (arith, h, launches_none n now (q ∷ queue) h)

launches-due :
    (n now : ℕ) (queue : List StartRequest)
    → IsScheduled queue
    → length queue ≤ n
    → launches queue (readings n now) ≡ due now queue
unfolding launches due
launches-due zero now [] h k = refl
launches-due zero now (q ∷ queue) h k = absurd (omega (arith, k))
launches-due (suc n) now [] h k = refl
launches-due (suc n) now (q ∷ queue) h k =
    let below : NotBefore q.scheduled_time queue = h.1 in
    ground (
      arith,
      h,
      k,
      launches-due n now queue h.2 (omega (arith, k)),
      none_due now queue,
      launches_none n now (q ∷ queue),
      NotBefore-earlier (suc now) q.scheduled_time queue,
    )

-- After any steps, the requests that run while the clock shows one time, with as many rounds as there are
-- requests, are those of the queue that are due by then, in the order of the queue. This is with a
-- callback to run them by, and for any order of the requests of one time.
pub rounds-due :
    (steps : List Step) (n now : ℕ)
    → (run new_manager steps).has_callback ≡ true
    → length (run new_manager steps).start_queue ≤ n
    → (rounds (run new_manager steps) (readings n now)).1
      ≡ due now (run new_manager steps).start_queue
rounds-due steps n now c k =
    let m = run new_manager steps in
    rounds-launches m (readings n now) c
    ∙ launches-due n now m.start_queue (run-IsScheduled new_manager steps tt) k
