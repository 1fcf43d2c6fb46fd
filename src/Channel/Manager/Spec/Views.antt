-- ===== src/Channel/Manager/Spec/Views.antt =====
-- How the abstraction of the channels reads the writes of libs/channel/src/channel.cpp.
use mathlib.Core.Option
use ibm_cics_emulation.Base.{
  ◌≡◌, refl, sym, ap, ◌∙◌, Option, none, some, [], if◌then◌else◌, Bytes, bytes_eq, bytes_eq_iff,
  lookup, insert, erase, lookup-insert, lookup-erase, arith, Bool-cases, inl, inr,
}
use ibm_cics_emulation.Result.{Result, ⊤}
use ibm_cics_emulation.Channel.{Container, Channel, char, store, new_container}
use ibm_cics_emulation.Channel.Manager.{ChannelManager, keep}
use ibm_cics_emulation.Channel.Manager.Spec.{
  State, Contents, at, Answer, answered, contents, abstraction,
}

pub contents-store :
    (co : Bytes) (k : Container) (c : Channel)
    → contents (store co k c) ≡ at co (some k.content) (contents c)
unfolding contents store
contents-store co k c i j = law j i
  where
    law :
        (j : Bytes)
        → Option.map (λ (k : Container). k.content) (lookup j (insert co k c.containers)) ≡ (
            if bytes_eq co j
            then some k.content
            else Option.map (λ (k : Container). k.content) (lookup j c.containers))
    law j = rw (lookup-insert co j k c.containers) (ground arith)

pub channels-keep :
    (ch : Bytes) (c : Channel) (m : ChannelManager)
    → abstraction (keep ch c m) ≡ (record (abstraction m) {
      channels = at ch (some (contents c)) (State.channels (abstraction m));
    })
unfolding abstraction keep
channels-keep ch c m =
    ap (λ (f : Bytes → Option Contents). record (abstraction m) { channels = f }) (λ i j. law j i)
  where
    law :
        (j : Bytes)
        → Option.map contents (lookup j (insert ch c m.channels))
          ≡ (if bytes_eq ch j then some (contents c) else Option.map contents (lookup j m.channels))
    law j = rw (lookup-insert ch j c m.channels) (ground arith)

-- The piece of the refinement for one step: the answer and the abstract next state.
abbrev pub abstracted : Result ⊤ × ChannelManager → Answer × State
abstracted r = (answered r.0, abstraction r.1)

module _ {ℓ} {A : Type ℓ} where
  pub at_twice : (k : Bytes) (v w : A) (f : Bytes → A) → at k v (at k w f) ≡ at k v f
  at_twice k v w f i j = law j i
    where
      law : (j : Bytes) → at k v (at k w f) j ≡ at k v f j
      law j = ground arith

  pub at_same : (k : Bytes) (v : A) (f : Bytes → A) → f k ≡ v → at k v f ≡ f
  at_same k v f h i j = law j i
    where
      law : (j : Bytes) → at k v f j ≡ f j
      law j = elim (Bool-cases (bytes_eq k j)) [
        | inl e ↦ rw e (sym h ∙ ap f ((bytes_eq_iff k j).0 e))
        | inr e ↦ rw e refl
      ]

abbrev pub without : Bytes → Channel → Channel
without co c = record c { containers = erase co c.containers }

pub contents-erase : (co : Bytes) (c : Channel) → contents (without co c) ≡ at co none (contents c)
unfolding contents
contents-erase co c i j = law j i
  where
    law :
        (j : Bytes)
        → Option.map (λ (k : Container). k.content) (lookup j (erase co c.containers)) ≡ (
            if bytes_eq co j
            then none
            else Option.map (λ (k : Container). k.content) (lookup j c.containers))
    law j = rw (lookup-erase co j c.containers) (ground arith)

-- Writing back a channel with the contents f.
pub abstraction-keep :
    (ch : Bytes) (c : Channel) (m : ChannelManager) (f : Contents)
    → contents c ≡ f
    → abstraction (keep ch c m)
      ≡ (record (abstraction m) { channels = at ch (some f) (State.channels (abstraction m)) })
abstraction-keep ch c m f e =
    channels-keep ch c m
    ∙ ap
        (λ (f : Contents). record (abstraction m) {
          channels = at ch (some f) (State.channels (abstraction m));
        })
        e

pub contents-made :
    (co : Bytes) (k : Container) (c : Channel)
    → contents (store co k (store co (new_container co char) c))
      ≡ at co (some k.content) (contents c)
unfolding new_container
contents-made co k c =
    contents-store co k (store co (new_container co char) c)
    ∙ ap (at co (some k.content)) (contents-store co (new_container co char) c)
    ∙ at_twice co (some k.content) (some []) (contents c)

pub channels-erase :
    (ch : Bytes) (m : ChannelManager)
    → Path
        (Bytes → Option Contents)
        (λ j. Option.map contents (lookup j (erase ch m.channels)))
        (at ch none (λ j. Option.map contents (lookup j m.channels)))
channels-erase ch m i j = law j i
  where
    law :
        (j : Bytes)
        → Option.map contents (lookup j (erase ch m.channels))
          ≡ (if bytes_eq ch j then none else Option.map contents (lookup j m.channels))
    law j = rw (lookup-erase ch j m.channels) (ground arith)
