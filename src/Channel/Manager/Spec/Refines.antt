-- ===== src/Channel/Manager/Spec/Refines.antt =====
-- The channels of libs/channel/src/channel.cpp refine their specification.
use ibm_cics_emulation.Base.{
  ◌≡◌, refl, ap, ap₂, ◌∙◌, Option, some, List, [], ◌∷◌, if◌then◌else◌, Bytes, bytes_eq, lookup,
  Bool-cases, Option-cases, inl, inr,
}
use ibm_cics_emulation.Result.{Result, ok, err, undefined}
use ibm_cics_emulation.Channel
use ibm_cics_emulation.Channel.{
  Container, Channel, DataType, char, max_container_size, store, new_container, new_channel,
  create_container, put, get,
}
use ibm_cics_emulation.Channel.Manager.{
  ChannelManager, initialize, shutdown, create_channel, get_channel, delete_channel,
  set_current_channel, get_current, get_container, delete_current, delete_container, move_container,
  open_channel, current_channel, get_from, delete_from, move_between, keep,
}
use ibm_cics_emulation.Channel.Manager.Commands.{exec_cics_create_channel}
use ibm_cics_emulation.Channel.Manager.Spec.{
  State, Contents, at, Command, Answer, serve, spec, contents, abstraction, done, made,
  current_spec, get_spec, remove_spec, move_spec, with_bytes, puts_current, creates, drops, moves,
  initializes, shuts_down, selects, puts, gets, gets_current, removes, removes_current, serve_all,
  spec_all,
}
use ibm_cics_emulation.Channel.Manager.Spec.Views.{
  contents-store, abstracted, without, contents-erase, abstraction-keep, channels-erase,
}
use ibm_cics_emulation.Channel.Manager.Spec.Puts.{
  lifted, create_refines, open_refines, puts_refines, current_refines, puts_current_refines,
}

get_from_refines :
    (co : Bytes) (c : Channel) (m : ChannelManager)
    → (with_bytes (get_from co c m).0 ≡ get_spec co (some (contents c)))
      × (abstraction (get_from co c m).1 ≡ abstraction m)
unfolding get_from Channel.get_container get_spec contents get abstraction
get_from_refines co c m = elim (Option-cases (lookup co c.containers)) [
  | inl e ↦ rw (get_from, get_spec, Channel.get_container, e) (refl, refl)
  | inr (k, e) ↦ rw (get_from, get_spec, Channel.get_container, e) (refl, refl)
]

remove_from_refines :
    (co ch : Bytes) (c : Channel) (m : ChannelManager)
    → abstracted (delete_from co ch c m) ≡ remove_spec co ch (some (contents c)) (abstraction m)
unfolding delete_from Channel.delete_container remove_spec contents abstraction keep
remove_from_refines co ch c m = elim (Option-cases (lookup co c.containers)) [
  | inl e ↦ rw (delete_from, remove_spec, Channel.delete_container, e) refl
  | inr (k, e) ↦
      rw (delete_from, remove_spec, Channel.delete_container, e)
        (ap (λ (t : State). (done, t))
          (abstraction-keep ch (without co c) m _ (contents-erase co c)))
]

move_between_refines :
    (co from : Bytes) (source : Channel) (to : Bytes) (m : ChannelManager)
    (r : Result (Channel × ChannelManager))
    → abstracted (elim r [
      | err e ↦ (err e, m)
      | undefined ↦ (undefined, m)
      | ok target ↦ move_between co from source to target.0 target.1
    ])
      ≡ move_spec co from (contents source) to (lifted r) (abstraction m)
unfolding move_between Channel.move_container move_spec contents abstraction keep
move_between_refines co from source to m (err e) = refl
move_between_refines co from source to m undefined = refl
move_between_refines co from source to m (ok (target, n)) =
    elim (Option-cases (lookup co source.containers)) [
      | inl e ↦ rw (move_between, move_spec, Channel.move_container, e) refl
      | inr (k, e) ↦ elim (Bool-cases (bytes_eq from to)) [
        | inl same ↦ rw (move_between, move_spec, Channel.move_container, e, same) refl
        | inr other ↦
            rw (move_between, move_spec, Channel.move_container, e, other)
              (ap (λ (t : State). (done, t))
                (abstraction-keep to (store co k target) (keep from (without co source) n) _
                    (contents-store co k target)
                  ∙ ap
                      (λ (t : State). record t {
                        channels =
                            at to (some (at co (some k.content) (contents target))) t.channels;
                      })
                      (abstraction-keep from (without co source) n _ (contents-erase co source))))
      ]
    ]

current_get_refines :
    (co : Bytes) (m : ChannelManager)
    → (with_bytes (get_current co m).0 ≡ get_spec co (current_spec (abstraction m)))
      × (abstraction (get_current co m).1 ≡ abstraction m)
unfolding get_current get_spec
current_get_refines co m = elim (Option-cases (current_channel m)) [
  | inl e ↦ rw (current_refines m, get_current, e) (refl, refl)
  | inr (c, e) ↦ rw (current_refines m, get_current, e) (get_from_refines co c m)
]

named_get_refines :
    (co ch : Bytes) (m : ChannelManager)
    → (with_bytes (get_container co ch m).0 ≡ get_spec co (State.channels (abstraction m) ch))
      × (abstraction (get_container co ch m).1 ≡ abstraction m)
unfolding get_container get_channel get_spec abstraction
named_get_refines co ch m = elim (Option-cases (lookup ch m.channels)) [
  | inl e ↦ rw (get_container, get_channel, e) (refl, refl)
  | inr (c, e) ↦ rw (get_container, get_channel, e) (get_from_refines co c m)
]

removes_refines :
    (co ch : Bytes) (m : ChannelManager)
    → abstracted (delete_container co ch m)
      ≡ remove_spec co ch (State.channels (abstraction m) ch) (abstraction m)
unfolding delete_container get_channel remove_spec abstraction
removes_refines co ch m = elim (Option-cases (lookup ch m.channels)) [
  | inl e ↦ rw (delete_container, get_channel, e) refl
  | inr (c, e) ↦ rw (delete_container, get_channel, e) (remove_from_refines co ch c m)
]

removes_current_refines :
    (co : Bytes) (m : ChannelManager)
    → abstracted (delete_current co m)
      ≡ remove_spec co m.current_channel_name (current_spec (abstraction m)) (abstraction m)
unfolding delete_current remove_spec
removes_current_refines co m = elim (Option-cases (current_channel m)) [
  | inl e ↦ rw (current_refines m, delete_current, e) refl
  | inr (c, e) ↦
      rw (current_refines m, delete_current, e) (remove_from_refines co m.current_channel_name c m)
]

creates_refines :
    (ch : Bytes) (m : ChannelManager)
    → abstracted (exec_cics_create_channel ch m) ≡ spec (creates ch) (abstraction m)
unfolding exec_cics_create_channel spec
creates_refines ch m =
    go (create_channel ch m) ∙ ap (λ (r : Result (Contents × State)). after r) (create_refines ch m)
  where
    after : Result (Contents × State) → Answer × State
    after (ok r) = (done, r.1)
    after (err e) = (err e, abstraction m)
    after undefined = (undefined, abstraction m)

    go :
        (r : Result (Channel × ChannelManager))
        → abstracted
            (elim r [ err e ↦ (err e, m) | undefined ↦ (undefined, m) | ok made ↦ (ok tt, made.1) ])
          ≡ after (lifted r)
    go (ok r) = refl
    go (err e) = refl
    go undefined = refl

drops_refines :
    (ch : Bytes) (m : ChannelManager)
    → abstracted (delete_channel ch m) ≡ spec (drops ch) (abstraction m)
unfolding delete_channel spec abstraction
drops_refines ch m = elim (Option-cases (lookup ch m.channels)) [
  | inl e ↦ rw (delete_channel, spec, e) refl
  | inr (c, e) ↦
      rw (delete_channel, spec, e)
        (ap
          (λ (f : Bytes → Option Contents). (
            done,
            record (abstraction m) {
              channels = f;
              current = if bytes_eq m.current_channel_name ch then [] else m.current_channel_name;
            },
          ))
          (channels-erase ch m))
]

moves_refines :
    (co from to : Bytes) (m : ChannelManager)
    → abstracted (move_container co from to m) ≡ spec (moves co from to) (abstraction m)
unfolding move_container get_channel spec abstraction
moves_refines co from to m = elim (Option-cases (lookup from m.channels)) [
  | inl e ↦ rw (move_container, get_channel, spec, e) refl
  | inr (c, e) ↦
      rw (move_container, get_channel, spec, e)
        (move_between_refines co from c to m (open_channel to m)
          ∙ ap
              (λ (r : Result (Contents × State)).
                move_spec co from (contents c) to r (abstraction m))
              (open_refines to m))
]

initialize_refines :
    (m : ChannelManager) → (done, abstraction (initialize m)) ≡ spec initializes (abstraction m)
unfolding initialize spec abstraction lookup
initialize_refines m = elim (Bool-cases m.initialized) [
  | inl e ↦ rw (initialize, spec, e) refl
  | inr e ↦ rw (initialize, spec, e) refl
]

-- One command gets the promised answer, and leaves the promised contents of every channel.
serve_refines :
    (c : Command) (m : ChannelManager)
    → ((serve c m).0, abstraction (serve c m).1) ≡ spec c (abstraction m)
unfolding serve spec shutdown set_current_channel abstraction lookup
serve_refines initializes m = initialize_refines m
serve_refines shuts_down m = refl
serve_refines (creates ch) m = creates_refines ch m
serve_refines (drops ch) m = drops_refines ch m
serve_refines (selects ch) m = refl
serve_refines (puts co ch d) m = puts_refines co ch d m
serve_refines (puts_current co d) m = puts_current_refines co d m
serve_refines (gets co ch) m =
    ap₂ (λ (a : Answer) (t : State). (a, t)) (named_get_refines co ch m).0
      (named_get_refines co ch m).1
serve_refines (removes co ch) m = removes_refines co ch m
serve_refines (gets_current co) m =
    ap₂ (λ (a : Answer) (t : State). (a, t)) (current_get_refines co m).0
      (current_get_refines co m).1
serve_refines (removes_current co) m = removes_current_refines co m
serve_refines (moves co from to) m = moves_refines co from to m

-- Whatever commands a thread gives one after another, the channels give the answers that a table of
-- tables of bytes gives, and hold in the end what it holds.
pub channels_refine :
    (cs : List Command) (m : ChannelManager)
    → ((serve_all cs m).0, abstraction (serve_all cs m).1) ≡ spec_all cs (abstraction m)
unfolding serve_all spec_all
channels_refine [] m = refl
channels_refine (c ∷ cs) m =
    let rest = channels_refine cs (serve c m).1 in
    ap (λ (p : List Answer × State). ((serve c m).0 ∷ p.0, p.1)) rest
    ∙ ap (λ (p : Answer × State). (p.0 ∷ (spec_all cs p.1).0, (spec_all cs p.1).1))
        (serve_refines c m)
