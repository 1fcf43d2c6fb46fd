-- ===== src/Interval/Tests.antt =====
-- A scheduler with two requests, and an event.
use ibm_cics_emulation.Base.{
  ◌≤◌, true, false, List, [], ◌∷◌, ◌++◌, length, codes, ◌≡◌, inl, inr, refl, arith,
}
use ibm_cics_emulation.Interval.{
  IntervalSpec, interval, StartRequest, IntervalControlManager, new_manager, push, start, cancel,
  cancel_transaction, set_transaction_callback, create_event,
}
use ibm_cics_emulation.Interval.Scheduler.{rounds, cancel_ineffective, begin_wait}
use ibm_cics_emulation.Interval.Scheduler.Order.{
  Step, starts, sets_callback, creates, step, run, request_runs, rounds-due, readings, due,
}
use ibm_cics_emulation.Interval.Scheduler.Waits.{has_event, wait_event, wait_event_returns, Answers}

abbrev ten_seconds : IntervalSpec
ten_seconds = record { kind = interval; hours = 0; minutes = 0; seconds = 10; abstime = 0 }

abbrev steps : List Step
steps =
    sets_callback true
    ∷ starts (codes "LATE") (codes "T001") ten_seconds (codes "one") 30 0
    ∷ starts (codes "SOON") (codes "T002") ten_seconds (codes "two") 20 0
    ∷ creates
    ∷ []

abbrev m : IntervalControlManager
m = run new_manager steps

abbrev late : StartRequest
late = record {
  transaction_id = codes "LATE";
  terminal_id = codes "T001";
  payload = codes "one";
  spec = ten_seconds;
  request_id = 1;
  scheduled_time = 30;
  cancelled = false;
}

abbrev soon : StartRequest
soon = record {
  transaction_id = codes "SOON";
  terminal_id = codes "T002";
  payload = codes "two";
  spec = ten_seconds;
  request_id = 2;
  scheduled_time = 20;
  cancelled = false;
}

queue : m.start_queue ≡ soon ∷ late ∷ []
unfolding run step start push set_transaction_callback create_event
queue = refl

callback : m.has_callback ≡ true
unfolding run step start push set_transaction_callback create_event
callback = refl

event : has_event m 1 ≡ true
unfolding run step start push set_transaction_callback create_event
event = refl

size : length m.start_queue ≤ 2
unfolding run step start push set_transaction_callback create_event
size = omega arith

request_runs_example :
    (later : List StartRequest) × ((rounds m (31 ∷ 40 ∷ [])).1 ≡ (soon ∷ []) ++ late ∷ later)
request_runs_example =
    request_runs steps (soon ∷ []) [] late (31 ∷ 40 ∷ []) queue callback
      (omega arith, (omega arith, tt)) (omega arith)

rounds-due_example : (rounds m (readings 2 25)).1 ≡ due 25 m.start_queue
rounds-due_example = rounds-due steps 2 25 callback size

cancel_ineffective_example :
    ((rounds (cancel m 2).0 (25 ∷ [])).1 ≡ (rounds m (25 ∷ [])).1)
    × ((rounds (cancel_transaction m (codes "SOON")).0 (25 ∷ [])).1 ≡ (rounds m (25 ∷ [])).1)
cancel_ineffective_example = cancel_ineffective m 2 (codes "SOON") (25 ∷ []) callback

wait_event_returns_example :
    Answers
      (begin_wait m)
      1
      50
      ((20, []) ∷ (60, []) ∷ [])
      (wait_event m 1 50 ((20, []) ∷ (60, []) ∷ []))
wait_event_returns_example =
    wait_event_returns m 1 50 ((20, []) ∷ (60, []) ∷ []) event (inr (tt, inl (omega arith)))
