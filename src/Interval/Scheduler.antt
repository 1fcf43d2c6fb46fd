-- ===== src/Interval/Scheduler.antt =====
-- scheduler_loop, a round at a time, and the waits for events: libs/interval-control/src/interval_control.cpp.
pub mod Waits
pub mod Order
use ibm_cics_emulation.Base.{
  ℕ, zero, suc, ◌+◌, ◌≤◌, ◌<◌, Bool, true, false, not, ◌&&◌, ◌||◌, Option, none, some, List, [],
  ◌∷◌, ◌++◌, ltb, leb, ◌==◌, if◌then◌else◌, length, Bytes, Dict, lookup, insert, erase,
  lookup-insert_self, lookup-erase_self, ◌≡◌, ◌≢◌, ◌⊎◌, inl, inr, refl, sym, ap, ap₂, ◌∙◌, arith,
  Bool-cases,
}
use ibm_cics_emulation.Result.{Result, ok, err, undefined, record_not_found, timeout, ⊤}
use ibm_cics_emulation.Interval.{
  StartRequest, IntervalControlManager, EventControlArea, posted, expired, push, erase_request,
  cancel, cancel_transaction, cancel_where, start, retrieve, set_at, count_wait, IntervalSpec,
}

-- `String(transaction_id.data(), 4) + "_" + String(terminal_id.data(), 4)`
abbrev pub retrieve_key : StartRequest → Bytes
retrieve_key q = q.transaction_id ++ 95 ∷ q.terminal_id

abbrev pub store_data : StartRequest → Dict Bytes → Dict Bytes
store_data q stored = elim q.payload [
  | [] ↦ stored
  | b ∷ rest ↦ insert (retrieve_key q) q.payload stored
]

-- `start_queue_.pop(); pending_starts_.erase(request.request_id);`
abbrev pub take_next :
    StartRequest → List StartRequest → IntervalControlManager → IntervalControlManager
take_next q queue m = record m {
  start_queue = queue;
  pending_starts = erase_request q.request_id m.pending_starts;
}

-- One pass of the loop of scheduler_loop at a reading of the clock, with the request that the callback is
-- called with, if any. A pass that waits changes nothing.
pub round : IntervalControlManager → (now : ℕ) → IntervalControlManager × Option StartRequest
round m now = elim m.start_queue [
  | [] ↦ (m, none)
  | q ∷ queue ↦
      if not (leb q.scheduled_time now)
      then (m, none)
      else if q.cancelled
      then (take_next q queue m, none)
      else (
        record (take_next q queue m) { retrieve_data = store_data q m.retrieve_data },
        (if m.has_callback then some q else none),
      )
]

-- The loop, at one reading of the clock after another, with the requests that are run.
pub rounds : IntervalControlManager → List ℕ → IntervalControlManager × List StartRequest
rounds m [] = (m, [])
rounds m (now ∷ clock) =
    let (m', run) = round m now in
    let (m'', later) = rounds m' clock in (m'', elim run [ none ↦ later | some q ↦ q ∷ later ])

-- The loop's test at a reading of the clock: whether the call returns, and what. The call keeps an
-- iterator to the event, which dangles once the event is deleted.
pub wait_check :
    IntervalControlManager
    → (event : ℕ) → (deadline now : ℕ) → IntervalControlManager × Option (Result ℕ)
wait_check m i deadline now = elim (m.events i) [
  | none ↦ (m, some undefined)
  | some eca ↦ elim eca.status [
    | posted ↦ (m, some (ok i))
    | _ ↦
        if leb deadline now
        then (
          record m { events = set_at i (some (record eca { status = expired })) m.events },
          some (err timeout),
        )
        else (m, none)
  ]
]

-- What a call of wait_event or wait_any does at its start.
pub begin_wait : IntervalControlManager → IntervalControlManager
begin_wait m = record m { stats = count_wait m.stats }

-- What the rounds run, read off the queue alone.
pub launches : List StartRequest → List ℕ → List StartRequest
launches queue [] = []
launches [] (now ∷ clock) = []
launches (q ∷ queue) (now ∷ clock) =
    let here = launches (q ∷ queue) clock in
    let next = launches queue clock in
    if leb q.scheduled_time now then (if q.cancelled then next else q ∷ next) else here

queue_cases :
    (queue : List StartRequest)
    → (queue ≡ []) ⊎ ((q : StartRequest) × (rest : List StartRequest) × (queue ≡ q ∷ rest))
queue_cases [] = inl refl
queue_cases (q ∷ rest) = inr (q, rest, refl)

launches_empty : (clock : List ℕ) → launches [] clock ≡ []
unfolding launches
launches_empty [] = refl
launches_empty (now ∷ clock) = refl

rounds-launches :
    (m : IntervalControlManager) (clock : List ℕ)
    → m.has_callback ≡ true
    → (rounds m clock).1 ≡ launches m.start_queue clock
unfolding rounds round launches
rounds-launches m [] h = refl
rounds-launches m (now ∷ clock) h = elim (queue_cases m.start_queue) [
  | inl e ↦ ground (arith, h, e, rounds-launches m clock h, launches_empty clock)
  | inr (q, queue, e) ↦
      let next = take_next q queue m in
      let stored : IntervalControlManager = record next {
        retrieve_data = store_data q m.retrieve_data;
      } in
      ground (
        arith,
        h,
        e,
        rounds-launches m clock h,
        rounds-launches next clock h,
        rounds-launches stored clock h,
      )
]

same_rounds :
    (m m' : IntervalControlManager) (clock : List ℕ)
    → m.has_callback ≡ true
    → m'.has_callback ≡ true
    → m'.start_queue ≡ m.start_queue
    → (rounds m' clock).1 ≡ (rounds m clock).1
same_rounds m m' clock h h' e =
    rounds-launches m' clock h'
    ∙ ap (λ queue. launches queue clock) e
    ∙ sym (rounds-launches m clock h)

-- A request runs although it was cancelled: `cancel` marks the copy in the table of pending requests, and
-- the scheduler reads the copy in its queue. Whatever the clock shows in the rounds that follow, the
-- same requests are run as without the cancellation, by number or by transaction.
pub cancel_ineffective :
    (m : IntervalControlManager) (request_id : ℕ) (transid : Bytes) (clock : List ℕ)
    → m.has_callback ≡ true
    → ((rounds (cancel m request_id).0 clock).1 ≡ (rounds m clock).1)
      × ((rounds (cancel_transaction m transid).0 clock).1 ≡ (rounds m clock).1)
unfolding cancel cancel_transaction
cancel_ineffective m i transid clock h = (
  same_rounds m (cancel m i).0 clock h (ground (arith, h)) (ground arith),
  same_rounds m (cancel_transaction m transid).0 clock h (ground (arith, h)) (ground arith),
)
