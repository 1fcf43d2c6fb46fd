-- ===== src/Program/Nesting.antt =====
-- LINK and XCTL restore what they change: libs/program-control/src/program_control.cpp.
use ibm_cics_emulation.Base.{ℕ, Bytes, ◌≡◌, ◌⊎◌, inl, inr, refl, sym, ap, ◌∙◌, ℤ, pos, subst}
use ibm_cics_emulation.Result.{ErrorCode, Result, ok, err, undefined}
use ibm_cics_emulation.Program.{
  ProgramDefinition, Statistics, ProgramControlManager, begin_use, end_use, enter, leave, pop,
  return_program, load, release, release_all, xctl, Body, ends, links, xctls, returns, loads,
  releases, release_alls, run, link, count_link, count_xctl,
}
use ibm_cics_emulation.Program.Uses.{
  use_of, UsesFit, Kept, Kept-trans, Fits-Kept, return_program-Kept, load-Kept, release-Kept,
  release_all-Kept, use_refused, begin_use-link_stack, end_use-link_stack, around-Kept,
  begun-UsesFit,
}

-- The counts of uses, the stack of LINK levels and the current program are as before.
pub record Restored (m m' : ProgramControlManager) : Type 0 where
  pub uses : (key : Bytes) → use_of m'.programs key ≡ use_of m.programs key
  pub stack : m'.link_stack ≡ m.link_stack
  pub current : m'.current_program ≡ m.current_program

abbrev Keeps : Body → Type 0
Keeps body = (m : ProgramControlManager) → UsesFit m → Kept m (run m body)

-- What `link` leaves, around an entry point that keeps the counts and the levels below its own.
around_link :
    (m : ProgramControlManager) (key : Bytes) (size : ℕ) (body : Body) (p : ProgramDefinition)
    → Keeps body
    → UsesFit m
    → (begin_use count_link m key).1 ≡ ok p
    → Restored m (
        leave
          (begin_use count_link m key).0.current_program
          key
          (run (enter (begin_use count_link m key).0 p size) body))
unfolding enter leave
around_link m key size body p k f h =
    let m1 = (begin_use count_link m key).0 in
    let kept = k (enter m1 p size) (begun-UsesFit count_link m key p f h) in
    let m3 = run (enter m1 p size) body in
    let inner : ProgramControlManager = record m3 {
      current_program = m1.current_program;
      link_stack = pop m3.link_stack;
    } in
    let (same_stack, same_current) = begin_use-link_stack count_link m key in
    let (end_stack, end_current) = end_use-link_stack inner key in
    record {
      uses = λ j. around-Kept count_link m inner key j p f h kept.uses;
      stack = end_stack ∙ kept.below ∙ same_stack;
      current = end_current ∙ same_current;
    }

around_xctl :
    (m : ProgramControlManager) (key : Bytes) (body : Body) (p : ProgramDefinition)
    → Keeps body
    → UsesFit m
    → (begin_use count_xctl m key).1 ≡ ok p
    → Kept m (
        end_use
          (run (record (begin_use count_xctl m key).0 { current_program = p.program_name }) body)
          key)
around_xctl m key body p k f h =
    let m1 : ProgramControlManager = record (begin_use count_xctl m key).0 {
      current_program = p.program_name;
    } in
    let kept = k m1 (begun-UsesFit count_xctl m key p f h) in
    let (same_stack, same_current) = begin_use-link_stack count_xctl m key in
    let (end_stack, end_current) = end_use-link_stack (run m1 body) key in
    record {
      uses = λ j. around-Kept count_xctl m (run m1 body) key j p f h kept.uses;
      below = ap pop end_stack ∙ kept.below ∙ ap pop same_stack;
    }

begin_cases :
    (found : Result ProgramDefinition)
    → ((p : ProgramDefinition) × (found ≡ ok p))
      ⊎ ((e : ErrorCode) × ((found ≡ err e) ⊎ (found ≡ undefined)))
begin_cases (ok p) = inl (p, refl)
begin_cases (err e) = inr (e, inl refl)
begin_cases undefined = inr (ErrorCode.success, inr refl)

refused-Restored :
    (count : Statistics → Statistics) (m : ProgramControlManager) (key : Bytes) (e : ErrorCode)
    → ((begin_use count m key).1 ≡ err e) ⊎ ((begin_use count m key).1 ≡ undefined)
    → Restored m (begin_use count m key).0
refused-Restored count m key e h =
    let (same_stack, same_current) = begin_use-link_stack count m key in
    record {
      uses = λ j. ap (λ programs. use_of programs j) (use_refused count m key e h);
      stack = same_stack;
      current = same_current;
    }

Kept-Restored : (m m' : ProgramControlManager) → Restored m m' → Kept m m'
Kept-Restored m m' r = record { uses = r.uses; below = ap pop r.stack }

link-Restored :
    (m : ProgramControlManager) (key : Bytes) (size : ℕ) (body : Body) (response : ℤ)
    → Keeps body
    → UsesFit m
    → Restored m (link m key size body response).0
unfolding link
link-Restored m key size body response k f = elim (begin_cases (begin_use count_link m key).1) [
  | inl (p, h) ↦ rw (h, link) (around_link m key size body p k f h)
  | inr (e, inl h) ↦ rw (h, link) (refused-Restored count_link m key e (inl h))
  | inr (e, inr h) ↦ rw (h, link) (refused-Restored count_link m key e (inr h))
]

xctl-Kept :
    (m : ProgramControlManager) (key : Bytes) (body : Body)
    → Keeps body
    → UsesFit m
    → Kept m (xctl m key body).0
unfolding xctl
xctl-Kept m key body k f = elim (begin_cases (begin_use count_xctl m key).1) [
  | inl (p, h) ↦ rw (h, xctl) (around_xctl m key body p k f h)
  | inr (e, inl h) ↦
      rw (h, xctl)
        (Kept-Restored m (begin_use count_xctl m key).0
          (refused-Restored count_xctl m key e (inl h)))
  | inr (e, inr h) ↦
      rw (h, xctl)
        (Kept-Restored m (begin_use count_xctl m key).0
          (refused-Restored count_xctl m key e (inr h)))
]

then-Kept :
    (m m' : ProgramControlManager) (rest : Body)
    → Keeps rest
    → UsesFit m
    → Kept m m'
    → Kept m (run m' rest)
then-Kept m m' rest k f h = Kept-trans m m' (run m' rest) h (k m' (Fits-Kept m m' h f))

run_links :
    (m : ProgramControlManager) (key : Bytes) (size : ℕ) (body rest : Body)
    → run m (links key size body rest) ≡ run (link m key size body (pos 0)).0 rest
unfolding run link
run_links m key size body rest = elim (begin_cases (begin_use count_link m key).1) [
  | inl (p, h) ↦ rw (h, run, link) refl
  | inr (e, inl h) ↦ rw (h, run, link) refl
  | inr (e, inr h) ↦ rw (h, run, link) refl
]

run_xctls :
    (m : ProgramControlManager) (key : Bytes) (body rest : Body)
    → run m (xctls key body rest) ≡ run (xctl m key body).0 rest
unfolding run xctl
run_xctls m key body rest = elim (begin_cases (begin_use count_xctl m key).1) [
  | inl (p, h) ↦ rw (h, run, xctl) refl
  | inr (e, inl h) ↦ rw (h, run, xctl) refl
  | inr (e, inr h) ↦ rw (h, run, xctl) refl
]

run-Keeps : (body : Body) → Keeps body
unfolding run
run-Keeps ends m f = record { uses = λ key. refl; below = refl }
run-Keeps (links key size body rest) m f =
    let r = link-Restored m key size body (pos 0) (run-Keeps body) f in
    let kept = Kept-Restored m (link m key size body (pos 0)).0 r in
    subst (Kept m) (sym (run_links m key size body rest))
      (then-Kept m (link m key size body (pos 0)).0 rest (run-Keeps rest) f kept)
run-Keeps (xctls key body rest) m f = subst (Kept m) (sym (run_xctls m key body rest)) (
    then-Kept m (xctl m key body).0 rest (run-Keeps rest) f
      (xctl-Kept m key body (run-Keeps body) f))
run-Keeps (returns response rest) m f =
    then-Kept m (return_program m response) rest (run-Keeps rest) f (return_program-Kept m response)
run-Keeps (loads key hold rest) m f =
    then-Kept m (load m key hold).0 rest (run-Keeps rest) f (load-Kept m key hold)
run-Keeps (releases key rest) m f =
    then-Kept m (release m key).0 rest (run-Keeps rest) f (release-Kept m key)
run-Keeps (release_alls rest) m f =
    then-Kept m (release_all m) rest (run-Keeps rest) f (release_all-Kept m)

-- LINK leaves the stack of levels, the current program and the count of uses of every program as they
-- were, also where it reports an error, and whatever the program does: further LINK and XCTL calls to any
-- depth, RETURN, LOAD and RELEASE. The counts of uses are UInt32 before.
pub link_restores :
    (m : ProgramControlManager) (key : Bytes) (size : ℕ) (body : Body) (response : ℤ)
    → UsesFit m
    → Restored m (link m key size body response).0
link_restores m key size body response f = link-Restored m key size body response (run-Keeps body) f
