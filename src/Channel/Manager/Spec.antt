-- ===== src/Channel/Manager/Spec.antt =====
-- What the channels promise, without containers, statistics and pointers: a table of tables of bytes.
-- The commands are those of one thread, libs/channel/src/channel.cpp.
mod Tests
mod Views
mod Puts
pub mod Refines
use mathlib.Core.Option
use ibm_cics_emulation.Base.{
  ℕ, ◌%◌, ◌≡◌, refl, sym, ap, ◌∙◌, Bool, true, false, Option, none, some, List, [], ◌∷◌, ltb, leb,
  ◌==◌, if◌then◌else◌, length, take, Bytes, bytes_eq, codes, lookup, insert, erase, lookup-insert,
  lookup-erase, arith, Bool-cases, Option-cases, inl, inr,
}
use ibm_cics_emulation.Result.{
  Result, ok, err, undefined, ◌>>=◌, not_initialized, invreq, lengerr, channelerr, containererr,
  u32, ⊤,
}
use ibm_cics_emulation.Channel.{Container, Channel, max_container_size, store, put, get}
use ibm_cics_emulation.Channel.Laws.{put_lem}
use ibm_cics_emulation.Channel.Manager.{
  ChannelManager, initialize, shutdown, create_channel, delete_channel, set_current_channel,
  get_current, get_container, delete_current, delete_container, move_container, keep,
}
use ibm_cics_emulation.Channel.Manager.Commands.{
  exec_cics_create_channel, exec_cics_put_container, exec_cics_put_container_channel,
}

-- What a channel's containers hold.
abbrev pub Contents : Type 0
Contents = Bytes → Option Bytes

pub record State : Type 0 where
  pub live : Bool
  pub current : Bytes
  pub channels : Bytes → Option Contents

abbrev pub nothing : Contents
nothing co = none

-- The table with one entry changed.
abbrev pub at {ℓ} : {A : Type ℓ} → Bytes → A → (Bytes → A) → Bytes → A
at k v f j = if bytes_eq k j then v else f j

pub data Command : Type 0 where
  initializes shuts_down : Command
  creates drops selects : Bytes → Command
  puts : Bytes → Bytes → Bytes → Command
  puts_current : Bytes → Bytes → Command
  gets removes : Bytes → Bytes → Command
  gets_current removes_current : Bytes → Command
  moves : Bytes → Bytes → Bytes → Command

-- The bytes that a `gets` returns, else none.
abbrev pub Answer : Type 0
Answer = Result (Option Bytes)

abbrev pub done : Answer
done = ok none

abbrev pub answered : Result ⊤ → Answer
answered r = r >>= λ _. done

abbrev pub with_bytes : Result Bytes → Answer
with_bytes r = r >>= λ d. ok (some d)

-- The code's answer and next manager.
pub serve : Command → ChannelManager → Answer × ChannelManager
serve initializes m = (done, initialize m)
serve shuts_down m = (done, shutdown m)
serve (creates ch) m = let r = exec_cics_create_channel ch m in (answered r.0, r.1)
serve (drops ch) m = let r = delete_channel ch m in (answered r.0, r.1)
serve (selects ch) m = (done, set_current_channel ch m)
serve (puts co ch d) m = let r = exec_cics_put_container_channel co ch d m in (answered r.0, r.1)
serve (puts_current co d) m = let r = exec_cics_put_container co d m in (answered r.0, r.1)
serve (gets co ch) m = let r = get_container co ch m in (with_bytes r.0, r.1)
serve (removes co ch) m = let r = delete_container co ch m in (answered r.0, r.1)
serve (gets_current co) m = let r = get_current co m in (with_bytes r.0, r.1)
serve (removes_current co) m = let r = delete_current co m in (answered r.0, r.1)
serve (moves co from to) m = let r = move_container co from to m in (answered r.0, r.1)

-- A channel that is made unless it exists, which needs a manager that is live and a short name.
pub made : Bytes → State → Result (Contents × State)
made ch s =
    if s.live
    then (if ltb 16 (length ch) then err invreq else elim (s.channels ch) [
      | some f ↦ ok (f, s)
      | none ↦ ok (nothing, record s { channels = at ch (some nothing) s.channels })
    ])
    else err not_initialized

-- A channel that exists, else a made one.
pub opened : Bytes → State → Result (Contents × State)
opened ch s = elim (s.channels ch) [ some f ↦ ok (f, s) | none ↦ made ch s ]

-- A put of all bytes, whose number is cut to 32 bits, in the channel `ch` with the contents `f`. When
-- they are too many, the container comes to be all the same, empty if it is new.
pub put_spec : Bytes → Bytes → Contents → Bytes → State → Answer × State
put_spec co ch f d s =
    if ltb 16 (length co)
    then (err invreq, s)
    else (let n = length d % u32 in
        if ltb max_container_size n
        then (
          err lengerr,
          record s {
            channels =
                at ch (some (at co (some (elim (f co) [ none ↦ [] | some b ↦ b ])) f)) s.channels;
          },
        )
        else (done, record s { channels = at ch (some (at co (some (take n d)) f)) s.channels }))

abbrev pub default_name : Bytes
default_name = codes "DFHCNV"

-- The default channel becomes the current one.
pub defaulted : Result (Contents × State) → Result (Contents × State)
defaulted r = r >>= λ p. ok (p.0, record (p.1) { current = default_name })

pub put_opened : Bytes → Bytes → Bytes → Result (Contents × State) → State → Answer × State
put_opened co ch d (ok r) s = put_spec co ch r.0 d r.1
put_opened co ch d (err e) s = (err e, s)
put_opened co ch d undefined s = (undefined, s)

-- The channel that a command without one uses: none when no name or no channel of it is current.
pub current_spec : State → Option Contents
current_spec s = if length s.current == 0 then none else s.channels s.current

pub get_spec : Bytes → Option Contents → Answer
get_spec co none = err channelerr
get_spec co (some f) = elim (f co) [ none ↦ err containererr | some d ↦ ok (some d) ]

pub remove_spec : Bytes → Bytes → Option Contents → State → Answer × State
remove_spec co ch none s = (err channelerr, s)
remove_spec co ch (some f) s = elim (f co) [
  | none ↦ (err containererr, s)
  | some d ↦ (done, record s { channels = at ch (some (at co none f)) s.channels })
]

pub move_spec :
    Bytes → Bytes → Contents → Bytes → Result (Contents × State) → State → Answer × State
move_spec co from f to (err e) s = (err e, s)
move_spec co from f to undefined s = (undefined, s)
move_spec co from f to (ok r) s = elim (f co) [
  | none ↦ (err containererr, r.1)
  | some d ↦ if bytes_eq from to then (undefined, r.1) else (
    done,
    record (r.1) {
      channels = at to (some (at co (some d) r.0)) (at from (some (at co none f)) r.1.channels);
    },
  )
]

-- The promised answer and next state.
pub spec : Command → State → Answer × State
spec initializes s = (done, if s.live then s else record s { live = true; channels = λ ch. none })
spec shuts_down s = (done, record { live = false; current = []; channels = λ ch. none })
spec (creates ch) s = elim (made ch s) [
  | ok r ↦ (done, r.1)
  | err e ↦ (err e, s)
  | undefined ↦ (undefined, s)
]
spec (drops ch) s = elim (s.channels ch) [
  | none ↦ (err channelerr, s)
  | some f ↦ (
    done,
    record s {
      channels = at ch none s.channels;
      current = if bytes_eq s.current ch then [] else s.current;
    },
  )
]
spec (selects ch) s = (done, record s { current = ch })
spec (puts co ch d) s = put_opened co ch d (opened ch s) s
spec (puts_current co d) s = elim (current_spec s) [
  | some f ↦ put_spec co s.current f d s
  | none ↦ put_opened co default_name d (defaulted (made default_name s)) s
]
spec (gets co ch) s = (get_spec co (s.channels ch), s)
spec (removes co ch) s = remove_spec co ch (s.channels ch) s
spec (gets_current co) s = (get_spec co (current_spec s), s)
spec (removes_current co) s = remove_spec co s.current (current_spec s) s
spec (moves co from to) s = elim (s.channels from) [
  | none ↦ (err channelerr, s)
  | some f ↦ move_spec co from f to (opened to s) s
]

-- The answers to commands one after another, and the state in the end.
pub spec_all : List Command → State → List Answer × State
spec_all [] s = ([], s)
spec_all (c ∷ cs) s = let r = spec c s in let rest = spec_all cs r.1 in (r.0 ∷ rest.0, rest.1)

pub serve_all : List Command → ChannelManager → List Answer × ChannelManager
serve_all [] m = ([], m)
serve_all (c ∷ cs) m = let r = serve c m in let rest = serve_all cs r.1 in (r.0 ∷ rest.0, rest.1)

pub contents : Channel → Contents
contents c co = Option.map (λ (k : Container). k.content) (lookup co c.containers)

pub abstraction : ChannelManager → State
abstraction m = record {
  live = m.initialized;
  current = m.current_channel_name;
  channels = λ ch. Option.map contents (lookup ch m.channels);
}
