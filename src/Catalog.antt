-- ===== src/Catalog.antt =====
-- The catalog of datasets: libs/master-catalog/src/master_catalog.cpp and its header. The time of
-- creation is left out. `matches` is what std::regex_match says of a name and a pattern.
pub mod Balance
mod Tests
use ibm_cics_emulation.Base.{
  ℕ, Bool, true, false, ◌||◌, Option, none, some, List, [], ◌∷◌, ◌==◌, if◌then◌else◌, length, Bytes,
  bytes_eq, codes, Dict, lookup, insert, erase, contains,
}
use ibm_cics_emulation.Result.{Result, ok, err, duplicate_key, dataset_not_found, add64, sub64, ⊤}

pub data EntryType : Type 0 where
  nonvsam cluster data_entry index_entry path alias gdg_base user_catalog : EntryType

pub data DatasetOrganization : Type 0 where
  sequential partitioned vsam_ksds vsam_esds vsam_rrds vsam_lds direct gdg : DatasetOrganization

pub record CatalogEntry : Type 0 where
  pub name : Bytes
  pub type : EntryType
  pub organization : DatasetOrganization
  pub volume : Bytes
  pub size_bytes : ℕ
  pub owner : Bytes
  pub cataloged : Bool
  pub attributes : Dict Bytes

pub record CatalogStatistics : Type 0 where
  pub total_entries : ℕ
  pub vsam_entries : ℕ
  pub nonvsam_entries : ℕ
  pub gdg_bases : ℕ
  pub lookups : ℕ
  pub updates : ℕ

pub record MasterCatalog : Type 0 where
  pub name : Bytes
  pub entries : Dict CatalogEntry
  pub stats : CatalogStatistics

pub new_catalog : Bytes → MasterCatalog
new_catalog name = record {
  name = name;
  entries = [];
  stats = record {
    total_entries = 0;
    vsam_entries = 0;
    nonvsam_entries = 0;
    gdg_bases = 0;
    lookups = 0;
    updates = 0;
  };
}

-- A CLUSTER, DATA or INDEX entry.
abbrev pub is_vsam : EntryType → Bool
is_vsam cluster = true
is_vsam data_entry = true
is_vsam index_entry = true
is_vsam nonvsam = false
is_vsam path = false
is_vsam alias = false
is_vsam gdg_base = false
is_vsam user_catalog = false

abbrev pub is_gdg_base : EntryType → Bool
is_gdg_base gdg_base = true
is_gdg_base nonvsam = false
is_gdg_base cluster = false
is_gdg_base data_entry = false
is_gdg_base index_entry = false
is_gdg_base path = false
is_gdg_base alias = false
is_gdg_base user_catalog = false

pub define_dataset : CatalogEntry → MasterCatalog → Result ⊤ × MasterCatalog
define_dataset entry m =
    let s = m.stats in
    if contains entry.name m.entries then (err duplicate_key, m) else (
      ok tt,
      record m {
        entries = insert entry.name (record entry { cataloged = true }) m.entries;
        stats = record s {
          total_entries = add64 s.total_entries 1;
          vsam_entries = if is_vsam entry.type then add64 s.vsam_entries 1 else s.vsam_entries;
          nonvsam_entries =
              if is_vsam entry.type then s.nonvsam_entries else add64 s.nonvsam_entries 1;
          gdg_bases = if is_gdg_base entry.type then add64 s.gdg_bases 1 else s.gdg_bases;
        };
      },
    )

pub get_dataset : Bytes → MasterCatalog → Result CatalogEntry × MasterCatalog
get_dataset name m =
    let s = m.stats in
    let counted = record m { stats = record s { lookups = add64 s.lookups 1 } } in
    elim (lookup name m.entries) [
      | none ↦ (err dataset_not_found, counted)
      | some e ↦ (ok e, counted)
    ]

-- The part of `delete_dataset` for an entry that is found.
pub remove : Bytes → CatalogEntry → MasterCatalog → MasterCatalog
remove name entry m =
    let s = m.stats in
    record m {
      entries = erase name m.entries;
      stats = record s {
        total_entries = sub64 s.total_entries 1;
        vsam_entries = if is_vsam entry.type then sub64 s.vsam_entries 1 else s.vsam_entries;
        nonvsam_entries =
            if is_vsam entry.type then s.nonvsam_entries else sub64 s.nonvsam_entries 1;
        gdg_bases = if is_gdg_base entry.type then sub64 s.gdg_bases 1 else s.gdg_bases;
        updates = add64 s.updates 1;
      };
    }

pub delete_dataset : Bytes → MasterCatalog → Result ⊤ × MasterCatalog
delete_dataset name m = elim (lookup name m.entries) [
  | none ↦ (err dataset_not_found, m)
  | some entry ↦ (ok tt, remove name entry m)
]

pub rename_dataset : Bytes → Bytes → MasterCatalog → Result ⊤ × MasterCatalog
rename_dataset old_name new_name m = elim (lookup old_name m.entries) [
  | none ↦ (err dataset_not_found, m)
  | some entry ↦
      let s = m.stats in
      if contains new_name m.entries then (err duplicate_key, m) else (
        ok tt,
        record m {
          entries = insert new_name (record entry { name = new_name }) (erase old_name m.entries);
          stats = record s { updates = add64 s.updates 1 };
        },
      )
]

entries_where : (Bytes → CatalogEntry → Bool) → Dict CatalogEntry → List CatalogEntry
entries_where keep [] = []
entries_where keep ((k, e) ∷ es) =
    let rest = entries_where keep es in if keep k e then e ∷ rest else rest

-- In the order of the keys, where the source has that of the hash table.
pub list_datasets : (Bytes → Bytes → Bool) → Bytes → MasterCatalog → List CatalogEntry
list_datasets matches pattern m =
    entries_where (λ name e. bytes_eq pattern (codes "*") || matches name pattern) m.entries

pub entry_count : MasterCatalog → ℕ
entry_count m = length m.entries
