-- ===== src/Program.antt =====
-- ProgramControlManager: libs/program-control/src/program_control.cpp, on one thread. What the entry point
-- of a program does belongs to the caller: here it is a `Body`, the calls of the manager that it makes, one
-- after the other. The commarea, the type, the addresses, the times and the texts of a program are left
-- out. An exception that an entry point throws leaves the same state as its return.
pub mod Nesting
pub mod Uses
mod Tests
use ibm_cics_emulation.Base.{
  ℕ, ◌+◌, ◌-◌, ◌%◌, Bool, true, false, not, ◌&&◌, ◌||◌, leb, Option, none, some, List, [], ◌∷◌, ltb,
  ◌==◌, if◌then◌else◌, length, Bytes, Dict, lookup, insert, erase, contains, ℤ, pos,
}
use ibm_cics_emulation.Result.{
  Result, ok, err, undefined, record_not_found, invalid_state, resource_exhausted, u32, add64, ⊤,
}

pub data ProgramStatus : Type 0 where
  not_loaded loaded enabled disabled new_copy : ProgramStatus

pub record ProgramDefinition : Type 0 where
  pub program_name : Bytes
  pub status : ProgramStatus
  pub has_entry_point : Bool
  pub use_count : ℕ
  pub load_count : ℕ
  pub resident : Bool

pub record LinkLevel : Type 0 where
  pub program_name : Bytes
  pub commarea_length : ℕ
  pub response_code : ℤ

pub record Statistics : Type 0 where
  pub link_count : ℕ
  pub xctl_count : ℕ
  pub return_count : ℕ
  pub load_count : ℕ
  pub release_count : ℕ
  pub program_not_found : ℕ
  pub max_link_depth : ℕ

pub record ProgramControlManager : Type 0 where
  pub programs : Dict ProgramDefinition
  pub link_stack : List LinkLevel
  pub current_program : Bytes
  pub stats : Statistics

abbrev pub new_manager : ProgramControlManager
new_manager = record {
  programs = [];
  link_stack = [];
  current_program = [];
  stats = record {
    link_count = 0;
    xctl_count = 0;
    return_count = 0;
    load_count = 0;
    release_count = 0;
    program_not_found = 0;
    max_link_depth = 0;
  };
}

abbrev pub put_program : Bytes → ProgramDefinition → ProgramControlManager → ProgramControlManager
put_program key p m = record m { programs = insert key p m.programs }

-- std::isspace; `find_if` from the end over it, and the erasure.
abbrev pub is_space : ℕ → Bool
is_space c = (c == 32) || (leb 9 c && leb c 13)

pub trim : Bytes → Bytes
trim [] = []
trim (c ∷ s) = elim (trim s) [ [] ↦ if is_space c then [] else c ∷ [] | d ∷ t ↦ c ∷ d ∷ t ]

-- The name without its trailing white space is the key.
pub define_program : ProgramControlManager → ProgramDefinition → ProgramControlManager
define_program m def = put_program (trim def.program_name) (record def { status = enabled }) m

pub undefine_program : ProgramControlManager → Bytes → ProgramControlManager × Result ⊤
undefine_program m key = elim (lookup key m.programs) [
  | none ↦ (m, err record_not_found)
  | some p ↦
      if ltb 0 p.use_count
      then (m, err resource_exhausted)
      else (record m { programs = erase key m.programs }, ok tt)
]

abbrev pub is_disabled : ProgramStatus → Bool
is_disabled s = elim s [ disabled ↦ true | _ ↦ false ]

-- The head of `link` and `xctl`, with the counter of its calls: the program is looked up, checked, and
-- counted as in use.
pub begin_use :
    (Statistics → Statistics)
    → ProgramControlManager
    → (key : Bytes) → ProgramControlManager × Result ProgramDefinition
begin_use count m key =
    let m1 = record m { stats = count m.stats } in
    elim (lookup key m.programs) [
      | none ↦ (
        record m1 {
          stats = record m1.stats { program_not_found = add64 m1.stats.program_not_found 1 };
        },
        err record_not_found,
      )
      | some p ↦
          if is_disabled p.status
          then (m1, err invalid_state)
          else if not p.has_entry_point
          then (m1, err invalid_state)
          else (put_program key (record p { use_count = (p.use_count + 1) % u32 }) m1, ok p)
    ]

-- `--program->use_count`, on the entry that begin_use found. No call that a program makes takes an entry
-- out of the table.
pub end_use : ProgramControlManager → (key : Bytes) → ProgramControlManager
end_use m key = elim (lookup key m.programs) [
  | none ↦ m
  | some p ↦ put_program key (record p { use_count = (p.use_count + u32 - 1) % u32 }) m
]

abbrev pub count_link : Statistics → Statistics
count_link s = record s { link_count = add64 s.link_count 1 }

abbrev pub count_xctl : Statistics → Statistics
count_xctl s = record s { xctl_count = add64 s.xctl_count 1 }

-- `link` before the entry point is called, and after it.
pub enter :
    ProgramControlManager → ProgramDefinition → (commarea_length : ℕ) → ProgramControlManager
enter m p size =
    let level : LinkLevel = record {
      program_name = m.current_program;
      commarea_length = size;
      response_code = pos 0;
    } in
    let stack = level ∷ m.link_stack in
    record m {
      link_stack = stack;
      current_program = p.program_name;
      stats = record m.stats {
        max_link_depth =
            if ltb m.stats.max_link_depth (length stack)
            then length stack
            else m.stats.max_link_depth;
      };
    }

abbrev pub pop : List LinkLevel → List LinkLevel
pop [] = []
pop (level ∷ stack) = stack

pub leave : (saved_program : Bytes) → (key : Bytes) → ProgramControlManager → ProgramControlManager
leave saved key m =
    end_use (record m { current_program = saved; link_stack = pop m.link_stack }) key

pub return_program : ProgramControlManager → (response : ℤ) → ProgramControlManager
return_program m response = record m {
  stats = record m.stats { return_count = add64 m.stats.return_count 1 };
  link_stack = elim m.link_stack [
    | [] ↦ []
    | level ∷ stack ↦ record level { response_code = response } ∷ stack
  ];
}

pub load : ProgramControlManager → (key : Bytes) → (hold : Bool) → ProgramControlManager × Result ⊤
load m key hold =
    let m1 = record m { stats = record m.stats { load_count = add64 m.stats.load_count 1 } } in
    elim (lookup key m.programs) [
      | none ↦ (
        record m1 {
          stats = record m1.stats { program_not_found = add64 m1.stats.program_not_found 1 };
        },
        err record_not_found,
      )
      | some p ↦ (
        put_program key
            (record p {
              status = loaded;
              load_count = (p.load_count + 1) % u32;
              resident = if hold then true else p.resident;
            })
            m1,
        ok tt,
      )
    ]

pub release : ProgramControlManager → (key : Bytes) → ProgramControlManager × Result ⊤
release m key =
    let m1 = record m {
      stats = record m.stats { release_count = add64 m.stats.release_count 1 };
    } in
    elim (lookup key m.programs) [
      | none ↦ (m1, err record_not_found)
      | some p ↦
          if ltb 0 p.use_count
          then (m1, err resource_exhausted)
          else if p.resident
          then (m1, ok tt)
          else (
            put_program key (record p { status = not_loaded; load_count = p.load_count - 1 }) m1,
            ok tt,
          )
    ]

pub release_each : Dict ProgramDefinition → Dict ProgramDefinition
release_each [] = []
release_each ((key, p) ∷ programs) =
    (
      key,
      (if (p.use_count == 0) && not p.resident
          then record p { status = not_loaded; load_count = 0 }
          else p),
    )
    ∷ release_each programs

pub release_all : ProgramControlManager → ProgramControlManager
release_all m = record m { programs = release_each m.programs }

-- `it->second.status = …`
abbrev pub set_status :
    ProgramControlManager → (key : Bytes) → ProgramStatus → ProgramControlManager × Result ⊤
set_status m key s = elim (lookup key m.programs) [
  | none ↦ (m, err record_not_found)
  | some p ↦ (put_program key (record p { status = s }) m, ok tt)
]

abbrev pub enable_program : ProgramControlManager → (key : Bytes) → ProgramControlManager × Result ⊤
enable_program m key = set_status m key enabled

abbrev pub newcopy_program :
    ProgramControlManager → (key : Bytes) → ProgramControlManager × Result ⊤
newcopy_program m key = set_status m key new_copy

pub disable_program : ProgramControlManager → (key : Bytes) → ProgramControlManager × Result ⊤
disable_program m key = elim (lookup key m.programs) [
  | none ↦ (m, err record_not_found)
  | some p ↦
      if ltb 0 p.use_count
      then (m, err resource_exhausted)
      else (put_program key (record p { status = disabled }) m, ok tt)
]

-- What an entry point does: a call, and then the rest. LINK and XCTL come with what the entry point of
-- the program that they call does.
pub data Body : Type 0 where
  ends : Body
  links : (key : Bytes) → (commarea_length : ℕ) → Body → Body → Body
  xctls : (key : Bytes) → Body → Body → Body
  returns : ℤ → Body → Body
  loads : (key : Bytes) → (hold : Bool) → Body → Body
  releases : (key : Bytes) → Body → Body
  release_alls : Body → Body

pub run : ProgramControlManager → Body → ProgramControlManager
run m ends = m
run m (links key size body rest) =
    let (m1, found) = begin_use count_link m key in
    run
      (elim found [
        | ok p ↦ leave m1.current_program key (run (enter m1 p size) body)
        | err e ↦ m1
        | undefined ↦ m1
      ])
      rest
run m (xctls key body rest) =
    let (m1, found) = begin_use count_xctl m key in
    run
      (elim found [
        | ok p ↦ end_use (run (record m1 { current_program = p.program_name }) body) key
        | err e ↦ m1
        | undefined ↦ m1
      ])
      rest
run m (returns response rest) = run (return_program m response) rest
run m (loads key hold rest) = run (load m key hold).0 rest
run m (releases key rest) = run (release m key).0 rest
run m (release_alls rest) = run (release_all m) rest

-- `link` and `xctl`, given what the entry point does and returns.
pub link :
    ProgramControlManager
    → (key : Bytes) → (commarea_length : ℕ) → Body
    → (response : ℤ) → ProgramControlManager × Result ℤ
link m key size body response =
    let (m1, found) = begin_use count_link m key in
    elim found [
      | ok p ↦ (leave m1.current_program key (run (enter m1 p size) body), ok response)
      | err e ↦ (m1, err e)
      | undefined ↦ (m1, undefined)
    ]

pub xctl : ProgramControlManager → (key : Bytes) → Body → ProgramControlManager × Result ⊤
xctl m key body =
    let (m1, found) = begin_use count_xctl m key in
    elim found [
      | ok p ↦ (end_use (run (record m1 { current_program = p.program_name }) body) key, ok tt)
      | err e ↦ (m1, err e)
      | undefined ↦ (m1, undefined)
    ]
