-- ===== src/Interval.antt =====
-- IntervalControlManager: libs/interval-control/src/interval_control.cpp, the requests of START, the
-- scheduler, RETRIEVE and the events. A time is a count of microseconds; the clock and the local calendar
-- (`today`, the time of a given hhmmss of this day) are arguments. The priority queue is a list in the
-- order in which it gives the requests. The callback that runs a transaction belongs to the caller: a round of the scheduler
-- returns the request that it is called with. A map by number is a function.
pub mod Scheduler
pub mod Times
mod Tests
use ibm_cics_emulation.Base.{
  ℕ, ◌+◌, ◌-◌, ◌*◌, ◌/◌, ◌%◌, ◌^◌, Bool, true, false, not, ◌&&◌, ◌||◌, Option, none, some, List, [],
  ◌∷◌, ◌++◌, ltb, leb, ◌==◌, if◌then◌else◌, length, Bytes, Dict, lookup, insert, erase, bytes_eq,
}
use ibm_cics_emulation.Result.{
  Result, ok, err, undefined, record_not_found, timeout, u32, u64, add64, ⊤,
}

pub data IntervalType : Type 0 where
  interval time after at : IntervalType

pub record IntervalSpec : Type 0 where
  pub kind : IntervalType
  pub hours : ℕ
  pub minutes : ℕ
  pub seconds : ℕ
  pub abstime : ℕ

-- The span in milliseconds at a reading of the clock.
pub to_duration : (today : ℕ → ℕ) → (now : ℕ) → IntervalSpec → ℕ
to_duration today now spec =
    let span = (spec.hours * 3600 + spec.minutes * 60 + spec.seconds) * 1000 in
    let target = today ((spec.hours * 10000 + spec.minutes * 100 + spec.seconds) % u32) in
    let next = if leb target now then target + 24 * 60 * 60 * 1000000 else target in
    elim spec.kind [
      | interval ↦ span
      | after ↦ span
      | time ↦ (next - now) / 1000
      | at ↦ if leb spec.abstime now then 0 else (spec.abstime - now) / 1000
    ]

-- The clock is read once more.
pub to_abstime : (today : ℕ → ℕ) → (now later : ℕ) → IntervalSpec → ℕ
to_abstime today now later spec = (later + to_duration today now spec * 1000) % u64

pub record StartRequest : Type 0 where
  pub transaction_id : Bytes
  pub terminal_id : Bytes
  pub payload : Bytes
  pub spec : IntervalSpec
  pub request_id : ℕ
  pub scheduled_time : ℕ
  pub cancelled : Bool

pub data EventStatus : Type 0 where
  not_posted posted expired : EventStatus

pub record EventControlArea : Type 0 where
  pub status : EventStatus
  pub event_id : ℕ
  pub post_time : ℕ
  pub payload : Bytes

pub record Statistics : Type 0 where
  pub post_count : ℕ
  pub wait_count : ℕ
  pub start_count : ℕ
  pub retrieve_count : ℕ
  pub cancel_count : ℕ

pub record IntervalControlManager : Type 0 where
  pub events : ℕ → Option EventControlArea
  pub next_event_id : ℕ
  pub start_queue : List StartRequest
  pub pending_starts : List StartRequest
  pub next_request_id : ℕ
  pub retrieve_data : Dict Bytes
  pub has_callback : Bool
  pub stats : Statistics

abbrev pub new_manager : IntervalControlManager
new_manager = record {
  events = λ i. none;
  next_event_id = 1;
  start_queue = [];
  pending_starts = [];
  next_request_id = 1;
  retrieve_data = [];
  has_callback = false;
  stats = record {
    post_count = 0;
    wait_count = 0;
    start_count = 0;
    retrieve_count = 0;
    cancel_count = 0;
  };
}

abbrev pub set_at {ℓ} : {V : Type ℓ} → ℕ → Option V → (ℕ → Option V) → ℕ → Option V
set_at i v m j = if i == j then v else m j

-- `start_queue_.push(request)`. The list has the requests in the order in which `top()` will give them.
-- std::priority_queue does not say in which order it gives those of one time: `place` says behind how many
-- of them the new one comes out, and what holds for every `place` holds for every order of them.
pub push : (place : ℕ) → StartRequest → List StartRequest → List StartRequest
push place q [] = q ∷ []
push place q (p ∷ queue) =
    let same = q.scheduled_time == p.scheduled_time in
    let rest = push (if same then place - 1 else place) q queue in
    if ltb q.scheduled_time p.scheduled_time || same && place == 0 then q ∷ p ∷ queue else p ∷ rest

abbrev pub count_start : Statistics → Statistics
count_start s = record s { start_count = add64 s.start_count 1 }

abbrev pub count_post : Statistics → Statistics
count_post s = record s { post_count = add64 s.post_count 1 }

abbrev pub count_wait : Statistics → Statistics
count_wait s = record s { wait_count = add64 s.wait_count 1 }

abbrev pub count_retrieve : Statistics → Statistics
count_retrieve s = record s { retrieve_count = add64 s.retrieve_count 1 }

abbrev pub count_cancel : Statistics → Statistics
count_cancel s = record s { cancel_count = add64 s.cancel_count 1 }

-- `pending_starts_`, each request under its own number: its erasure, a test of all, and a change of some.
pub erase_request : ℕ → List StartRequest → List StartRequest
erase_request i [] = []
erase_request i (q ∷ qs) =
    let rest = erase_request i qs in if q.request_id == i then rest else q ∷ rest

pub any_request : (StartRequest → Bool) → List StartRequest → Bool
any_request p [] = false
any_request p (q ∷ qs) = p q || any_request p qs

pub cancel_where : (StartRequest → Bool) → List StartRequest → List StartRequest
cancel_where p [] = []
cancel_where p (q ∷ qs) = (if p q then record q { cancelled = true } else q) ∷ cancel_where p qs

-- `start`, with the time that `interval.to_abstime()` comes to, and the place among the requests of that
-- time.
pub start :
    IntervalControlManager
    → (transid termid : Bytes) → IntervalSpec
    → (payload : Bytes) → (due place : ℕ) → IntervalControlManager × ℕ
start m transid termid spec payload due place =
    let q : StartRequest = record {
      transaction_id = transid;
      terminal_id = termid;
      payload = payload;
      spec = spec;
      request_id = m.next_request_id;
      scheduled_time = due;
      cancelled = false;
    } in
    (
      record m {
        stats = count_start m.stats;
        next_request_id = (m.next_request_id + 1) % u32;
        pending_starts = q ∷ erase_request m.next_request_id m.pending_starts;
        start_queue = push place q m.start_queue;
      },
      m.next_request_id,
    )

pub cancel : IntervalControlManager → (request_id : ℕ) → IntervalControlManager × Result ⊤
cancel m i =
    let m' = record m { stats = count_cancel m.stats } in
    if any_request (λ q. q.request_id == i) m.pending_starts
    then (
      record m' { pending_starts = cancel_where (λ q. q.request_id == i) m.pending_starts },
      ok tt,
    )
    else (m', err record_not_found)

-- `cancel` by transaction.
pub cancel_transaction :
    IntervalControlManager → (transid : Bytes) → IntervalControlManager × Result ⊤
cancel_transaction m transid =
    let m' = record m { stats = count_cancel m.stats } in
    let matches : StartRequest → Bool = λ q. bytes_eq q.transaction_id transid && not q.cancelled in
    if any_request matches m.pending_starts
    then (record m' { pending_starts = cancel_where matches m.pending_starts }, ok tt)
    else (m', err record_not_found)

pub retrieve : IntervalControlManager → (queue_name : Bytes) → IntervalControlManager × Result Bytes
retrieve m name =
    let m' = record m { stats = count_retrieve m.stats } in
    elim (lookup name m.retrieve_data) [
      | none ↦ (m', err record_not_found)
      | some payload ↦ (record m' { retrieve_data = erase name m.retrieve_data }, ok payload)
    ]

-- `retrieve` without a name takes the first entry, and the map's order is not said.
pub retrieve_any : IntervalControlManager → IntervalControlManager × Result Bytes
retrieve_any m =
    let m' = record m { stats = count_retrieve m.stats } in
    elim m.retrieve_data [
      | [] ↦ (m', err record_not_found)
      | (name, payload) ∷ rest ↦ (record m' { retrieve_data = rest }, ok payload)
    ]

pub store_retrieve_data : IntervalControlManager → (key payload : Bytes) → IntervalControlManager
store_retrieve_data m key payload = record m { retrieve_data = insert key payload m.retrieve_data }

pub set_transaction_callback : IntervalControlManager → Bool → IntervalControlManager
set_transaction_callback m given = record m { has_callback = given }

pub create_event : IntervalControlManager → IntervalControlManager × ℕ
create_event m =
    let eca : EventControlArea = record {
      status = not_posted;
      event_id = m.next_event_id;
      post_time = 0;
      payload = [];
    } in
    (
      record m {
        next_event_id = (m.next_event_id + 1) % u32;
        events = set_at m.next_event_id (some eca) m.events;
      },
      m.next_event_id,
    )

pub delete_event : IntervalControlManager → ℕ → IntervalControlManager × Result ⊤
delete_event m i = elim (m.events i) [
  | none ↦ (m, err record_not_found)
  | some eca ↦ (record m { events = set_at i none m.events }, ok tt)
]

-- `post` and `post_with_data` at a reading of the clock.
abbrev pub post_as :
    IntervalControlManager
    → ℕ
    → (EventControlArea → EventControlArea)
    → IntervalControlManager × Result ⊤
post_as m i change =
    let m' = record m { stats = count_post m.stats } in
    elim (m.events i) [
      | none ↦ (m', err record_not_found)
      | some eca ↦ (record m' { events = set_at i (some (change eca)) m.events }, ok tt)
    ]

pub post : IntervalControlManager → ℕ → (now : ℕ) → IntervalControlManager × Result ⊤
post m i now = post_as m i (λ eca. record eca { status = posted; post_time = now })

pub post_with_data :
    IntervalControlManager → ℕ → (payload : Bytes) → (now : ℕ) → IntervalControlManager × Result ⊤
post_with_data m i payload now =
    post_as m i (λ eca. record eca { status = posted; post_time = now; payload = payload })
