-- ===== src/Tdq/Manager.antt =====
-- TDQManager and the EXEC CICS commands: libs/tdq/src/tdq_manager.cpp. The singleton is the record that
-- every operation takes and returns. An ExtrapartitionQueue works on a file: its type `X` and its
-- operations are a parameter, the record FileQueues.
pub mod Resolve
pub mod Laws
mod Tests
use ibm_cics_emulation.Base.{
  ℕ, zero, suc, ◌+◌, ◌%◌, Bool, true, false, ◌||◌, not, none, some, Option, List, [], ◌∷◌, ◌++◌,
  map, if◌then◌else◌, length, Bytes, Dict, lookup, insert, erase, contains, to_upper,
}
use ibm_cics_emulation.Result.{
  Result, ok, err, undefined, ◌>>=◌, invalid_state, invalid_argument, file_exists,
  cics_queue_not_found, add64, ⊤,
}
use ibm_cics_emulation.Text.{trimmed}
use ibm_cics_emulation.Tdq.{
  TdqType, intrapartition, extrapartition, indirect, remote, TdqRecord, TdqDefinition, validate,
  IntrapartitionQueue, new_queue, set_enabled, write, read, depth,
}

pub record FileQueues (W X : Type 0) : Type 0 where
  pub create : TdqDefinition W → X
  pub write_file : X → W → Bytes → X × W × Result ⊤
  pub read_file : X → W → X × W × Result TdqRecord

pub record TdqManager (W X : Type 0) : Type 0 where
  pub intra_queues : Dict (IntrapartitionQueue W)
  pub extra_queues : Dict X
  pub indirect_map : Dict Bytes
  pub initialized : Bool
  pub total_dests_defined : ℕ
  pub total_writes : ℕ
  pub total_reads : ℕ

-- `resolve_destination` on fuel: it calls itself on the target of an indirect destination.
unfoldable pub resolve : ℕ → Dict Bytes → Bytes → Result Bytes
resolve zero targets dest = undefined
resolve (suc fuel) targets dest =
    let name = to_upper dest in
    elim (lookup name targets) [ none ↦ ok name | some target ↦ resolve fuel targets target ]

-- The fuel is one more than there are indirect destinations.
unfoldable pub resolve_destination : Dict Bytes → Bytes → Result Bytes
resolve_destination targets dest = resolve (suc (length targets)) targets dest

abbrev is_intrapartition : TdqType → Bool
is_intrapartition t = elim t [ intrapartition ↦ true | _ ↦ false ]

abbrev is_extrapartition : TdqType → Bool
is_extrapartition t = elim t [ extrapartition ↦ true | _ ↦ false ]

module _ {W X : Type 0} (files : FileQueues W X) where
  pub define_extrapartition : TdqManager W X → TdqDefinition W → TdqManager W X × Result ⊤
  define_extrapartition m def = elim (validate def) [
    | err e ↦ (m, err e)
    | undefined ↦ (m, undefined)
    | ok _ ↦
        let name = to_upper (trimmed def.dest_id) in
        if not (is_extrapartition def.type)
        then (m, err invalid_argument)
        else if contains name m.intra_queues || contains name m.extra_queues
        then (m, err file_exists)
        else (
          record m {
            extra_queues = insert name (files.create def) m.extra_queues;
            total_dests_defined = add64 m.total_dests_defined 1;
          },
          ok tt,
        )
  ]

  -- The destination whose name is resolved.
  write_resolved : TdqManager W X → W → Bytes → Bytes → TdqManager W X × W × Result ⊤
  write_resolved m w name bytes = elim (lookup name m.intra_queues) [
    | some q ↦
        let (q', w', result) = write q w bytes in
        (
          record m {
            intra_queues = insert name q' m.intra_queues;
            total_writes = add64 m.total_writes 1;
          },
          w',
          result,
        )
    | none ↦ elim (lookup name m.extra_queues) [
      | some x ↦
          let (x', w', result) = files.write_file x w bytes in
          (
            record m {
              extra_queues = insert name x' m.extra_queues;
              total_writes = add64 m.total_writes 1;
            },
            w',
            result,
          )
      | none ↦ (m, w, err cics_queue_not_found)
    ]
  ]

  read_resolved : TdqManager W X → W → Bytes → TdqManager W X × W × Result TdqRecord
  read_resolved m w name = elim (lookup name m.intra_queues) [
    | some q ↦
        let (q', result) = read q in
        (
          record m {
            intra_queues = insert name q' m.intra_queues;
            total_reads = add64 m.total_reads 1;
          },
          w,
          result,
        )
    | none ↦ elim (lookup name m.extra_queues) [
      | some x ↦
          let (x', w', result) = files.read_file x w in
          (
            record m {
              extra_queues = insert name x' m.extra_queues;
              total_reads = add64 m.total_reads 1;
            },
            w',
            result,
          )
      | none ↦ (m, w, err cics_queue_not_found)
    ]
  ]

  pub writeq : TdqManager W X → W → Bytes → Bytes → TdqManager W X × W × Result ⊤
  unfolding write_resolved
  writeq m w dest bytes = elim (resolve_destination m.indirect_map dest) [
    | ok name ↦ write_resolved m w name bytes
    | err e ↦ (m, w, err e)
    | undefined ↦ (m, w, undefined)
  ]

  pub readq : TdqManager W X → W → Bytes → TdqManager W X × W × Result TdqRecord
  unfolding read_resolved
  readq m w dest = elim (resolve_destination m.indirect_map dest) [
    | ok name ↦ read_resolved m w name
    | err e ↦ (m, w, err e)
    | undefined ↦ (m, w, undefined)
  ]

module _ {W X : Type 0} where
  pub new_manager : TdqManager W X
  new_manager = record {
    intra_queues = [];
    extra_queues = [];
    indirect_map = [];
    initialized = false;
    total_dests_defined = 0;
    total_writes = 0;
    total_reads = 0;
  }

  pub initialize : TdqManager W X → TdqManager W X × Result ⊤
  initialize m =
      if m.initialized then (m, err invalid_state) else (record m { initialized = true }, ok tt)

  pub shutdown : TdqManager W X → TdqManager W X
  shutdown m =
      if not m.initialized
      then m
      else record m { intra_queues = []; extra_queues = []; indirect_map = []; initialized = false }

  pub define_intrapartition : TdqManager W X → TdqDefinition W → TdqManager W X × Result ⊤
  define_intrapartition m def = elim (validate def) [
    | err e ↦ (m, err e)
    | undefined ↦ (m, undefined)
    | ok _ ↦
        let name = to_upper (trimmed def.dest_id) in
        if not (is_intrapartition def.type)
        then (m, err invalid_argument)
        else if contains name m.intra_queues || contains name m.extra_queues
        then (m, err file_exists)
        else (
          record m {
            intra_queues = insert name (new_queue def) m.intra_queues;
            total_dests_defined = add64 m.total_dests_defined 1;
          },
          ok tt,
        )
  ]

  pub define_indirect : TdqManager W X → Bytes → Bytes → TdqManager W X × Result ⊤
  define_indirect m dest target =
      let name = to_upper dest in
      if contains name m.intra_queues || contains name m.extra_queues
      then (m, err file_exists)
      else (
        record m {
          indirect_map = insert name (to_upper target) m.indirect_map;
          total_dests_defined = add64 m.total_dests_defined 1;
        },
        ok tt,
      )

  pub delete_destination : TdqManager W X → Bytes → TdqManager W X × Result ⊤
  delete_destination m dest =
      let name = to_upper dest in
      if contains name m.intra_queues
      then (record m { intra_queues = erase name m.intra_queues }, ok tt)
      else if contains name m.extra_queues
      then (record m { extra_queues = erase name m.extra_queues }, ok tt)
      else if contains name m.indirect_map
      then (record m { indirect_map = erase name m.indirect_map }, ok tt)
      else (m, err cics_queue_not_found)

  -- `enable_destination`, `disable_destination`
  pub enable_destination : Bool → TdqManager W X → Bytes → TdqManager W X × Result ⊤
  enable_destination on m dest = elim (resolve_destination m.indirect_map dest) [
    | err e ↦ (m, err e)
    | undefined ↦ (m, undefined)
    | ok name ↦ elim (lookup name m.intra_queues) [
      | none ↦ (m, err cics_queue_not_found)
      | some q ↦ (record m { intra_queues = insert name (set_enabled q on) m.intra_queues }, ok tt)
    ]
  ]

  pub destination_exists : TdqManager W X → Bytes → Bool
  destination_exists m dest =
      let name = to_upper dest in
      contains name m.intra_queues || contains name m.extra_queues || contains name m.indirect_map

  pub destination_count : TdqManager W X → ℕ
  destination_count m = length m.intra_queues + length m.extra_queues + length m.indirect_map

  pub list_destinations : TdqManager W X → List Bytes
  list_destinations m =
      map (λ e. e.0) m.intra_queues
      ++ map (λ e. e.0) m.extra_queues
      ++ map (λ e. e.0) m.indirect_map

  pub get_destination_type : TdqManager W X → Bytes → Option TdqType
  get_destination_type m dest =
      let name = to_upper dest in
      if contains name m.intra_queues
      then some intrapartition
      else if contains name m.extra_queues
      then some extrapartition
      else if contains name m.indirect_map
      then some indirect
      else none

  pub get_queue_depth : TdqManager W X → Bytes → Result ℕ
  get_queue_depth m dest = do
    name ← resolve_destination m.indirect_map dest
    elim (lookup name m.intra_queues) [ none ↦ err cics_queue_not_found | some q ↦ ok (depth q) ]
