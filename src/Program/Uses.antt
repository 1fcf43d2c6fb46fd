-- ===== src/Program/Uses.antt =====
-- The counts of uses of the programs, through the calls but LINK and XCTL:
-- libs/program-control/src/program_control.cpp.
use ibm_cics_emulation.Base.{
  ℕ, ◌+◌, ◌-◌, ◌%◌, ◌<◌, Bool, true, Option, none, some, [], ◌∷◌, if◌then◌else◌, Bytes, bytes_eq,
  bytes_eq_iff, bytes_eq_refl, Dict, lookup, insert, lookup-insert, ◌≡◌, ◌⊎◌, inl, inr, refl, sym,
  ◌∙◌, arith, Option-cases, Bool-cases, ℤ, subst,
}
use ibm_cics_emulation.Result.{ErrorCode, ok, err, undefined, u32}
use ibm_cics_emulation.Program.{
  not_loaded, loaded, ProgramDefinition, Statistics, ProgramControlManager, begin_use, end_use, pop,
  return_program, load, release, release_each, release_all,
}

-- How often the program of a key is in use; `none` where there is no such program.
abbrev pub use_of : Dict ProgramDefinition → Bytes → Option ℕ
use_of programs key = elim (lookup key programs) [ none ↦ none | some p ↦ some p.use_count ]

-- The counts of uses are UInt32.
abbrev pub Fits : Option ℕ → Type 0
Fits none = Unit
Fits (some n) = n < u32

abbrev pub UsesFit : ProgramControlManager → Type 0
UsesFit m = (key : Bytes) → Fits (use_of m.programs key)

-- The counts of uses, and the levels below the current one, are as before.
pub record Kept (m m' : ProgramControlManager) : Type 0 where
  pub uses : (key : Bytes) → use_of m'.programs key ≡ use_of m.programs key
  pub below : pop m'.link_stack ≡ pop m.link_stack

pub Kept-trans : (a b c : ProgramControlManager) → Kept a b → Kept b c → Kept a c
Kept-trans a b c h k = record { uses = λ key. k.uses key ∙ h.uses key; below = k.below ∙ h.below }

pub Fits-Kept : (m m' : ProgramControlManager) → Kept m m' → UsesFit m → UsesFit m'
Fits-Kept m m' k f key = subst Fits (sym (k.uses key)) (f key)

use_of-release_each :
    (programs : Dict ProgramDefinition) (key : Bytes)
    → use_of (release_each programs) key ≡ use_of programs key
unfolding release_each lookup
use_of-release_each [] key = refl
use_of-release_each ((j, p) ∷ programs) key = ground (arith, use_of-release_each programs key)

use_of-insert :
    (programs : Dict ProgramDefinition) (key j : Bytes) (q : ProgramDefinition)
    → use_of (insert key q programs) j
      ≡ (if bytes_eq key j then some q.use_count else use_of programs j)
use_of-insert programs key j q = ground (arith, lookup-insert key j q programs)

-- A program that is put back with its count.
use_of_same :
    (programs : Dict ProgramDefinition) (key j : Bytes) (p q : ProgramDefinition)
    → lookup key programs ≡ some p
    → q.use_count ≡ p.use_count
    → use_of (insert key q programs) j ≡ use_of programs j
use_of_same programs key j p q e u =
    ground (arith, e, u, use_of-insert programs key j q, bytes_eq_iff key j)

pub return_program-Kept :
    (m : ProgramControlManager) (response : ℤ) → Kept m (return_program m response)
unfolding return_program
return_program-Kept m response = record { uses = λ key. refl; below = ground arith }

pub load-Kept : (m : ProgramControlManager) (key : Bytes) (hold : Bool) → Kept m (load m key hold).0
unfolding load
load-Kept m key hold = elim (Option-cases (lookup key m.programs)) [
  | inl e ↦ record { uses = λ j. ground (arith, e); below = ground (arith, e) }
  | inr (p, e) ↦
      let q : ProgramDefinition = record p {
        status = loaded;
        load_count = (p.load_count + 1) % u32;
        resident = if hold then true else p.resident;
      } in
      record {
        uses = λ j. ground (arith, e, use_of_same m.programs key j p q e refl);
        below = ground (arith, e);
      }
]

pub release-Kept : (m : ProgramControlManager) (key : Bytes) → Kept m (release m key).0
unfolding release
release-Kept m key = elim (Option-cases (lookup key m.programs)) [
  | inl e ↦ record { uses = λ j. ground (arith, e); below = ground (arith, e) }
  | inr (p, e) ↦
      let q : ProgramDefinition = record p { status = not_loaded; load_count = p.load_count - 1 } in
      record {
        uses = λ j. ground (arith, e, use_of_same m.programs key j p q e refl);
        below = ground (arith, e);
      }
]

pub release_all-Kept : (m : ProgramControlManager) → Kept m (release_all m)
unfolding release_all
release_all-Kept m = record { uses = λ key. use_of-release_each m.programs key; below = refl }

-- A use that is begun, a run that keeps the counts, and the end of the use.
use_begun :
    (count : Statistics → Statistics) (m : ProgramControlManager) (key j : Bytes)
    (p : ProgramDefinition)
    → (begin_use count m key).1 ≡ ok p
    → (lookup key m.programs ≡ some p)
      × (use_of (begin_use count m key).0.programs j
          ≡ (if bytes_eq key j then some ((p.use_count + 1) % u32) else use_of m.programs j))
unfolding begin_use
use_begun count m key j p h = elim (Option-cases (lookup key m.programs)) [
  | inl e ↦ (ground (arith, h, e), ground (arith, h, e))
  | inr (q, e) ↦
      let used : ProgramDefinition = record q { use_count = (q.use_count + 1) % u32 } in
      let there = use_of-insert m.programs key j used in
      (ground (arith, h, e), ground (arith, h, e, there))
]

pub use_refused :
    (count : Statistics → Statistics) (m : ProgramControlManager) (key : Bytes) (e : ErrorCode)
    → ((begin_use count m key).1 ≡ err e) ⊎ ((begin_use count m key).1 ≡ undefined)
    → (begin_use count m key).0.programs ≡ m.programs
unfolding begin_use
use_refused count m key e h = ground (arith, h)

pub begin_use-link_stack :
    (count : Statistics → Statistics) (m : ProgramControlManager) (key : Bytes)
    → ((begin_use count m key).0.link_stack ≡ m.link_stack)
      × ((begin_use count m key).0.current_program ≡ m.current_program)
unfolding begin_use
begin_use-link_stack count m key = (ground arith, ground arith)

use_ended :
    (m : ProgramControlManager) (key j : Bytes) (n : ℕ)
    → use_of m.programs key ≡ some ((n + 1) % u32)
    → n < u32
    → use_of (end_use m key).programs j ≡ (if bytes_eq key j then some n else use_of m.programs j)
unfolding end_use
use_ended m key j n h f = elim (Option-cases (lookup key m.programs)) [
  | inl e ↦ ground (arith, h, e)
  | inr (q, e) ↦
      let left : ProgramDefinition = record q { use_count = (q.use_count + u32 - 1) % u32 } in
      let count : q.use_count ≡ (n + 1) % u32 = ground (arith, h, e) in
      let back : (q.use_count + u32 - 1) % u32 ≡ n = omega (arith, count, f) in
      ground (arith, e, back, use_of-insert m.programs key j left)
]

pub end_use-link_stack :
    (m : ProgramControlManager) (key : Bytes)
    → ((end_use m key).link_stack ≡ m.link_stack)
      × ((end_use m key).current_program ≡ m.current_program)
unfolding end_use
end_use-link_stack m key = (ground arith, ground arith)

-- A use of a program around anything that keeps the counts.
pub around-Kept :
    (count : Statistics → Statistics) (m m' : ProgramControlManager) (key j : Bytes)
    (p : ProgramDefinition)
    → UsesFit m
    → (begin_use count m key).1 ≡ ok p
    → ((i : Bytes) → use_of m'.programs i ≡ use_of (begin_use count m key).0.programs i)
    → use_of (end_use m' key).programs j ≡ use_of m.programs j
around-Kept count m m' key j p f h k =
    let (there, begun) = use_begun count m key key p h in
    let (_, begun_j) = use_begun count m key j p h in
    let fits : p.use_count < u32 = ground (arith, there, f key) in
    let inside : use_of m'.programs key ≡ some ((p.use_count + 1) % u32) =
      ground (arith, k key, begun, bytes_eq_refl key) in
    ground
      (arith, use_ended m' key j p.use_count inside fits, k j, begun_j, there, bytes_eq_iff key j)

pub begun-UsesFit :
    (count : Statistics → Statistics) (m : ProgramControlManager) (key : Bytes)
    (p : ProgramDefinition)
    → UsesFit m
    → (begin_use count m key).1 ≡ ok p
    → UsesFit (begin_use count m key).0
begun-UsesFit count m key p f h j =
    let begun = (use_begun count m key j p h).1 in
    let small : (p.use_count + 1) % u32 < u32 = omega arith in
    elim (Bool-cases (bytes_eq key j)) [
      | inl e ↦
          let here : use_of (begin_use count m key).0.programs j ≡ some ((p.use_count + 1) % u32) =
            ground (arith, begun, e) in
          subst Fits (sym here) small
      | inr e ↦
          let same : use_of (begin_use count m key).0.programs j ≡ use_of m.programs j =
            ground (arith, begun, e) in
          subst Fits (sym same) (f j)
    ]
