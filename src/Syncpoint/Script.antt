-- ===== src/Syncpoint/Script.antt =====
-- Two-phase commit seen from outside: resources whose callbacks have scripted results and note their
-- calls in a log.
use ibm_cics_emulation.Base.{
  ◌≡◌, refl, inl, inr, Bool, true, false, ◌&&◌, some, List, [], ◌∷◌, ◌++◌, if◌then◌else◌, arith,
  map, Bytes, Bool-cases,
}
use mathlib.Core.List.{append-nil, append_assoc}
use ibm_cics_emulation.Result.{Result, ok, is_ok, ⊤}
use ibm_cics_emulation.Syncpoint.{
  RecoveryResource, UnitOfWork, UowState, active, committed, rolled_back, in_doubt, custom,
  prepare_all, commit_all, rollback_all, syncpoint,
}

pub data Event : Type 0 where
  prepares commits rolls_back : Bytes → Event

abbrev pub Log : Type 0
Log = List Event

-- What the three callbacks of a resource answer.
pub record Script : Type 0 where
  pub name : Bytes
  pub on_prepare : Result ⊤
  pub on_commit : Result ⊤
  pub on_rollback : Result ⊤

unfoldable pub scripted : Bool → Script → RecoveryResource Log
scripted prepared s = record {
  name = s.name;
  kind = custom;
  prepare_cb = some (λ w. (w ++ prepares s.name ∷ [], s.on_prepare));
  commit_cb = some (λ w. (w ++ commits s.name ∷ [], s.on_commit));
  rollback_cb = some (λ w. (w ++ rolls_back s.name ∷ [], s.on_rollback));
  prepared = prepared;
}

-- The calls of the prepare phase: in order, up to the first that fails.
unfoldable pub prepare_calls : List Script → Log
prepare_calls [] = []
prepare_calls (s ∷ ss) = prepares s.name ∷ (if is_ok s.on_prepare then prepare_calls ss else [])

unfoldable pub all_prepare : List Script → Bool
all_prepare [] = true
all_prepare (s ∷ ss) = is_ok s.on_prepare && all_prepare ss

unfoldable pub commit_calls : List Script → Log
commit_calls [] = []
commit_calls (s ∷ ss) = commits s.name ∷ (if is_ok s.on_commit then commit_calls ss else [])

pub all_commit : List Script → Bool
all_commit [] = true
all_commit (s ∷ ss) = is_ok s.on_commit && all_commit ss

-- Every resource, from the last to the first.
unfoldable pub rollback_calls : List Script → Log
rollback_calls [] = []
rollback_calls (s ∷ ss) = rollback_calls ss ++ rolls_back s.name ∷ []

-- What a syncpoint does to the world, and the state that it leaves.
unfoldable pub protocol : List Script → Log
protocol ss = prepare_calls ss ++ (if all_prepare ss then commit_calls ss else rollback_calls ss)

pub outcome : List Script → UowState
outcome ss = if all_prepare ss then (if all_commit ss then committed else in_doubt) else rolled_back

-- The resources that run the scripts, each with its `prepared` mark.
unfoldable pub staged : List (Bool × Script) → List (RecoveryResource Log)
staged [] = []
staged ((b, s) ∷ bs) = scripted b s ∷ staged bs

abbrev pub scripts : List (Bool × Script) → List Script
scripts = map (λ e. e.1)

-- The marks after the prepare phase, and the first failure of a phase.
mark : List (Bool × Script) → List (Bool × Script)
mark [] = []
mark ((b, s) ∷ bs) = elim (is_ok s.on_prepare) [ true ↦ (true, s) ∷ mark bs | false ↦ (b, s) ∷ bs ]

unmark : List (Bool × Script) → List (Bool × Script)
unmark [] = []
unmark ((b, s) ∷ bs) = (false, s) ∷ unmark bs

prepare_answer : List (Bool × Script) → Result ⊤
prepare_answer [] = ok tt
prepare_answer ((b, s) ∷ bs) = elim (is_ok s.on_prepare) [
  | true ↦ prepare_answer bs
  | false ↦ s.on_prepare
]

commit_answer : List (Bool × Script) → Result ⊤
commit_answer [] = ok tt
commit_answer ((b, s) ∷ bs) = elim (is_ok s.on_commit) [
  | true ↦ commit_answer bs
  | false ↦ s.on_commit
]

prepare_all_lem :
    (bs : List (Bool × Script)) (w : Log)
    → prepare_all (staged bs) w
      ≡ (staged (mark bs), w ++ prepare_calls (scripts bs), prepare_answer bs)
unfolding prepare_all prepare_calls staged scripted mark prepare_answer
prepare_all_lem [] w = rw (append-nil w)
prepare_all_lem ((b, s) ∷ bs) w = elim (Bool-cases (is_ok s.on_prepare)) [
  | inl y ↦ ground (
    arith,
    y,
    prepare_all_lem bs (w ++ prepares s.name ∷ []),
    append_assoc w (prepares s.name ∷ []) (prepare_calls (scripts bs)),
  )
  | inr n ↦ ground (arith, n)
]

commit_all_lem :
    (bs : List (Bool × Script)) (w : Log)
    → commit_all (staged bs) w ≡ (w ++ commit_calls (scripts bs), commit_answer bs)
unfolding commit_all commit_calls staged scripted commit_answer
commit_all_lem [] w = rw (append-nil w)
commit_all_lem ((b, s) ∷ bs) w = elim (Bool-cases (is_ok s.on_commit)) [
  | inl y ↦ rw (
    y,
    commit_all,
    commit_answer,
    commit_all_lem bs (w ++ commits s.name ∷ []),
    append_assoc w (commits s.name ∷ []) (commit_calls (scripts bs)),
  )
  | inr n ↦ rw (n, commit_all, commit_answer)
]

rollback_answer : List (Bool × Script) → Result ⊤
rollback_answer [] = ok tt
rollback_answer ((b, s) ∷ bs) = if is_ok s.on_rollback then rollback_answer bs else s.on_rollback

rollback_all_lem :
    (bs : List (Bool × Script)) (w : Log)
    → rollback_all (staged bs) w
      ≡ (staged (unmark bs), w ++ rollback_calls (scripts bs), rollback_answer bs)
unfolding rollback_all rollback_calls staged scripted unmark rollback_answer
rollback_all_lem [] w = rw (append-nil w)
rollback_all_lem ((b, s) ∷ bs) w =
    rw
      (rollback_all_lem bs w, append_assoc w (rollback_calls (scripts bs)) (rolls_back s.name ∷ []))

all_prepare-answer :
    (bs : List (Bool × Script)) → is_ok (prepare_answer bs) ≡ all_prepare (scripts bs)
unfolding prepare_answer all_prepare
all_prepare-answer [] = refl
all_prepare-answer ((b, s) ∷ bs) = ground (arith, all_prepare-answer bs)

all_commit-answer : (bs : List (Bool × Script)) → is_ok (commit_answer bs) ≡ all_commit (scripts bs)
unfolding commit_answer all_commit
all_commit-answer [] = refl
all_commit-answer ((b, s) ∷ bs) = ground (arith, all_commit-answer bs)

scripts-mark : (bs : List (Bool × Script)) → scripts (mark bs) ≡ scripts bs
unfolding mark
scripts-mark [] = refl
scripts-mark ((b, s) ∷ bs) = ground (arith, scripts-mark bs)

-- A syncpoint of an active unit over scripted resources calls them by two-phase commit: prepare in
-- order up to the first failure; then, only if none failed, commit in order up to the first failure,
-- and else roll every resource back, from the last to the first. The unit is COMMITTED if all prepared
-- and committed, ROLLED_BACK if one failed to prepare, IN_DOUBT if one failed to commit; the syncpoint
-- succeeds in the first case alone.
pub syncpoint-protocol :
    (u : UnitOfWork Log) (bs : List (Bool × Script)) (w : Log)
    → u.state ≡ active
    → u.resources ≡ staged bs
    → let (u', w', result) = syncpoint u w in
      (w' ≡ w ++ protocol (scripts bs))
      × (u'.state ≡ outcome (scripts bs))
      × (is_ok result ≡ (all_prepare (scripts bs) && all_commit (scripts bs)))
unfolding syncpoint protocol outcome
syncpoint-protocol u bs w a e =
    let w' = w ++ prepare_calls (scripts bs) in
    ground (
      arith,
      prepare_all_lem bs w,
      commit_all_lem (mark bs) w',
      rollback_all_lem (mark bs) w',
      scripts-mark bs,
      all_prepare-answer bs,
      all_commit-answer (mark bs),
      append_assoc w (prepare_calls (scripts bs)) (commit_calls (scripts bs)),
      append_assoc w (prepare_calls (scripts bs)) (rollback_calls (scripts bs)),
    )
