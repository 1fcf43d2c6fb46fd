-- ===== src/Channel/Manager/Spec/Puts.antt =====
-- The puts of libs/channel/src/channel.cpp, and the channels that they make, against the
-- specification.
use mathlib.Core.Option
use ibm_cics_emulation.Base.{
  ℕ, ◌%◌, ◌≤◌, ◌≡◌, refl, sym, ap, ◌∙◌, some, ltb, ◌==◌, length, take, Bytes, lookup, insert, arith,
  Bool-cases, Option-cases, inl, inr,
}
use ibm_cics_emulation.Result.{Result, ok, err, undefined, ◌>>=◌, lengerr, u32}
use ibm_cics_emulation.Channel.{
  Container, Channel, char, max_container_size, store, new_container, new_channel, create_container,
}
use ibm_cics_emulation.Channel.Laws.{put_lem}
use ibm_cics_emulation.Channel.Manager.{
  ChannelManager, create_channel, get_channel, set_current_channel, open_channel, put_container,
  put_current, current_channel, put_into, keep, count_put,
}
use ibm_cics_emulation.Channel.Manager.Commands.{
  exec_cics_put_container, exec_cics_put_container_channel,
}
use ibm_cics_emulation.Channel.Manager.Spec.{
  State, Contents, nothing, Answer, opened, put_spec, spec, contents, abstraction, done, made,
  put_opened, default_name, defaulted, current_spec, puts_current,
}
use ibm_cics_emulation.Channel.Manager.Spec.Views.{
  contents-store, abstracted, at_same, abstraction-keep, contents-made,
}

pub put_into_refines :
    (co ch : Bytes) (c : Channel) (d : Bytes) (made : ℕ) (m : ChannelManager)
    → abstracted (put_into co ch c (some d) (length d % u32) made m)
      ≡ put_spec co ch (contents c) d (abstraction m)
unfolding put_into put_spec create_container new_container contents abstraction count_put
put_into_refines co ch c d made m =
    let n : ℕ = length d % u32 in
    let fits : n ≤ length d = omega arith in
    let new_one : Container = new_container co char in
    let full : Container → Container = λ k. record k { content = take n d } in
    let failed : Answer = err lengerr in
    elim (Bool-cases (ltb 16 (length co))) [
      | inl long ↦ rw (long, put_into, create_container) refl
      | inr short ↦ elim (Option-cases (lookup co c.containers)) [
        | inl new ↦ elim (Bool-cases (ltb max_container_size n)) [
          | inl big ↦
              rw
                (
                  short,
                  put_into,
                  create_container,
                  new,
                  put_lem d n (new_container co char) fits,
                  big,
                )
                (ap (λ (t : State). (failed, t))
                  (abstraction-keep ch (store co new_one c) m _ (contents-store co new_one c)))
          | inr small ↦
              rw
                (
                  short,
                  put_into,
                  create_container,
                  new,
                  put_lem d n (new_container co char) fits,
                  small,
                )
                (ap (λ (t : State). (done, t))
                  (abstraction-keep ch (store co (full new_one) (store co new_one c)) m _
                    (contents-made co (full new_one) c)))
        ]
        | inr (k, found) ↦ elim (Bool-cases (ltb max_container_size n)) [
          | inl big ↦
              rw (short, put_into, create_container, found, put_lem d n k fits, big)
                (ap (λ (t : State). (failed, t))
                  (abstraction-keep ch c m _
                    (sym (at_same co (some k.content) (contents c) (rw found refl)))))
          | inr small ↦
              rw (short, put_into, create_container, found, put_lem d n k fits, small)
                (ap (λ (t : State). (done, t))
                  (abstraction-keep ch (store co (full k) c) m _ (contents-store co (full k) c)))
        ]
      ]
    ]

abbrev pub lifted : Result (Channel × ChannelManager) → Result (Contents × State)
lifted r = r >>= λ p. ok (contents p.0, abstraction p.1)

pub create_refines :
    (ch : Bytes) (m : ChannelManager) → lifted (create_channel ch m) ≡ made ch (abstraction m)
unfolding create_channel made abstraction contents new_channel lookup keep insert
create_refines ch m = elim (Bool-cases m.initialized) [
  | inr e ↦ rw (create_channel, made, e) refl
  | inl e ↦ elim (Bool-cases (ltb 16 (length ch))) [
    | inl long ↦ rw (create_channel, made, e, long) refl
    | inr short ↦ elim (Option-cases (lookup ch m.channels)) [
      | inr (c, found) ↦ rw (create_channel, made, e, short, found) refl
      | inl new ↦
          rw (create_channel, made, e, short, new)
            (ap (λ (t : State). ok (nothing, t))
              (abstraction-keep ch (new_channel ch) m nothing refl))
    ]
  ]
]

pub open_refines :
    (ch : Bytes) (m : ChannelManager) → lifted (open_channel ch m) ≡ opened ch (abstraction m)
unfolding open_channel get_channel opened abstraction
open_refines ch m = elim (Option-cases (lookup ch m.channels)) [
  | inl new ↦ rw (open_channel, get_channel, opened, new) (create_refines ch m)
  | inr (c, found) ↦ rw (open_channel, get_channel, opened, found) refl
]

pub puts_refines :
    (co ch d : Bytes) (m : ChannelManager)
    → abstracted (exec_cics_put_container_channel co ch d m)
      ≡ put_opened co ch d (opened ch (abstraction m)) (abstraction m)
unfolding exec_cics_put_container_channel put_container put_opened
puts_refines co ch d m =
    go (open_channel ch m)
    ∙ ap (λ (r : Result (Contents × State)). put_opened co ch d r (abstraction m))
        (open_refines ch m)
  where
    go :
        (r : Result (Channel × ChannelManager))
        → abstracted (elim r [
          | err e ↦ (err e, m)
          | undefined ↦ (undefined, m)
          | ok found ↦ put_into co ch found.0 (some d) (length d % u32) 0 found.1
        ])
          ≡ put_opened co ch d (lifted r) (abstraction m)
    go (ok found) = put_into_refines co ch found.0 d 0 found.1
    go (err e) = refl
    go undefined = refl

pub current_refines :
    (m : ChannelManager) → current_spec (abstraction m) ≡ Option.map contents (current_channel m)
unfolding current_spec current_channel abstraction
current_refines m = elim (Bool-cases (length m.current_channel_name == 0)) [
  | inl e ↦ rw (current_spec, current_channel, e) refl
  | inr e ↦ rw (current_spec, current_channel, e) refl
]

pub default_refines :
    (co d : Bytes) (m : ChannelManager) (r : Result (Channel × ChannelManager))
    → abstracted (elim r [
      | err e ↦ (err e, m)
      | undefined ↦ (undefined, m)
      | ok found ↦
          put_into co default_name found.0
            (some d)
            (length d % u32)
            1
            (set_current_channel default_name found.1)
    ])
      ≡ put_opened co default_name d (defaulted (lifted r)) (abstraction m)
unfolding put_opened defaulted set_current_channel abstraction
default_refines co d m (ok found) =
    put_into_refines co default_name found.0 d 1 (set_current_channel default_name found.1)
default_refines co d m (err e) = refl
default_refines co d m undefined = refl

pub puts_current_refines :
    (co d : Bytes) (m : ChannelManager)
    → abstracted (exec_cics_put_container co d m) ≡ spec (puts_current co d) (abstraction m)
unfolding exec_cics_put_container put_current spec abstraction
puts_current_refines co d m = elim (Option-cases (current_channel m)) [
  | inr (c, e) ↦
      rw (spec, current_refines m, exec_cics_put_container, put_current, e)
        (put_into_refines co m.current_channel_name c d 1 m)
  | inl e ↦
      rw (spec, current_refines m, exec_cics_put_container, put_current, e)
        (default_refines co d m (create_channel default_name m)
          ∙ ap
              (λ (r : Result (Contents × State)).
                put_opened co default_name d (defaulted r) (abstraction m))
              (create_refines default_name m))
]
