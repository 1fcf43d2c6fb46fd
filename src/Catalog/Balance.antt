-- ===== src/Catalog/Balance.antt =====
-- The statistics of the catalog against its entries: libs/master-catalog/src/master_catalog.cpp.
use ibm_cics_emulation.Base.{
  ℕ, suc, Bool, false, not, bytes_eq, bytes_eq_iff, if◌then◌else◌, erase_below, some, ap, subst,
  ◌∙◌, ◌+◌, ◌%◌, ◌≡◌, arith, true, none, List, [], ◌∷◌, length, Bytes, Dict, lookup, insert, erase,
  contains, IsSorted, insert-IsSorted, erase-IsSorted, length-insert, length-erase, lookup-erase,
  Bool-cases, Option-cases, inl, inr,
}
use ibm_cics_emulation.Result.{u64, add64}
use ibm_cics_emulation.Catalog.{
  EntryType, cluster, data_entry, index_entry, gdg_base, is_vsam, is_gdg_base, CatalogEntry,
  MasterCatalog, new_catalog, define_dataset, get_dataset, remove, delete_dataset, rename_dataset,
}

-- How many of the entries have such a type.
unfoldable pub count : (EntryType → Bool) → Dict CatalogEntry → ℕ
count p [] = 0
count p ((k, e) ∷ es) = let rest = count p es in if p e.type then suc rest else rest

abbrev one_if : Bool → ℕ
one_if b = if b then 1 else 0

-- A CLUSTER, DATA or INDEX.
abbrev pub vsam : EntryType → Bool
vsam t = elim t [ cluster ↦ true | data_entry ↦ true | index_entry ↦ true | _ ↦ false ]

abbrev pub nonvsam_type : EntryType → Bool
nonvsam_type t = not (vsam t)

abbrev pub base : EntryType → Bool
base t = elim t [ gdg_base ↦ true | _ ↦ false ]

is_vsam_lem : (t : EntryType) → is_vsam t ≡ vsam t
is_vsam_lem t = ground arith

is_gdg_base_lem : (t : EntryType) → is_gdg_base t ≡ base t
is_gdg_base_lem t = ground arith

count-insert :
    (p : EntryType → Bool) (k : Bytes) (e : CatalogEntry) (m : Dict CatalogEntry)
    → lookup k m ≡ none
    → count p (insert k e m) ≡ count p m + one_if (p e.type)
unfolding count insert lookup
count-insert p k e [] h = ground arith
count-insert p k e ((j, f) ∷ m) h = ground (arith, h, count-insert p k e m)

count-erase :
    (p : EntryType → Bool) (k : Bytes) (e : CatalogEntry) (m : Dict CatalogEntry)
    → IsSorted m
    → lookup k m ≡ some e
    → count p (erase k m) + one_if (p e.type) ≡ count p m
unfolding count erase lookup
count-erase p k e [] s h = cc
count-erase p k e ((j, f) ∷ m) s h = elim (Bool-cases (bytes_eq j k)) [
  | inl same ↦
      let at_k : j ≡ k = (bytes_eq_iff j k).0 same in
      let gone : erase k m ≡ m = subst (λ z. erase z m ≡ m) at_k (erase_below j m s.0) in
      let it : f ≡ e = ground (arith, h, same) in
      let type : f.type ≡ e.type = ap (λ (z : CatalogEntry). z.type) it in
      rw (same, gone, type) (ground arith)
  | inr other ↦ ground (arith, other, count-erase p k e m s.1 (ground (arith, h, other)))
]

-- The counters of the catalog are those of its entries, modulo 2^64.
pub record IsBalanced (m : MasterCatalog) : Type 0 where
  pub total_is : m.stats.total_entries ≡ length m.entries % u64
  pub vsam_is : m.stats.vsam_entries ≡ count vsam m.entries % u64
  pub nonvsam_is : m.stats.nonvsam_entries ≡ count nonvsam_type m.entries % u64
  pub bases_are : m.stats.gdg_bases ≡ count base m.entries % u64

-- The list of the entries stands for a map.
record Sound (m : MasterCatalog) : Type 0 where
  sorted : IsSorted m.entries
  balanced : IsBalanced m

define-Sound : (e : CatalogEntry) (m : MasterCatalog) → Sound m → Sound (define_dataset e m).1
unfolding define_dataset contains
define-Sound e m s = elim (Option-cases (lookup e.name m.entries)) [
  | inr (f, there) ↦ rw (define_dataset, contains, there) s
  | inl new ↦
      let put : CatalogEntry = record e { cataloged = true } in
      let size = length-insert e.name put m.entries s.sorted in
      let b = s.balanced in
      let more = λ (p : EntryType → Bool). count-insert p e.name put m.entries new in
      rw (define_dataset, contains, new)
        (record {
          sorted = insert-IsSorted e.name put m.entries s.sorted;
          balanced = record {
            total_is = ground (arith, size, new, b.total_is);
            vsam_is = ground (arith, more vsam, is_vsam_lem e.type, b.vsam_is);
            nonvsam_is = ground (arith, more nonvsam_type, is_vsam_lem e.type, b.nonvsam_is);
            bases_are = ground (arith, more base, is_gdg_base_lem e.type, b.bases_are);
          };
        })
]

delete-Sound : (name : Bytes) (m : MasterCatalog) → Sound m → Sound (delete_dataset name m).1
unfolding delete_dataset remove contains
delete-Sound name m s = elim (Option-cases (lookup name m.entries)) [
  | inl e ↦ rw (delete_dataset, e) s
  | inr (entry, e) ↦
      let size = length-erase name m.entries s.sorted in
      let b = s.balanced in
      let fewer = λ (p : EntryType → Bool). count-erase p name entry m.entries s.sorted e in
      rw (delete_dataset, e)
        (record {
          sorted = erase-IsSorted name m.entries s.sorted;
          balanced = record {
            total_is = ground (arith, size, e, b.total_is);
            vsam_is = ground (arith, fewer vsam, is_vsam_lem entry.type, b.vsam_is);
            nonvsam_is = ground (arith, fewer nonvsam_type, is_vsam_lem entry.type, b.nonvsam_is);
            bases_are = ground (arith, fewer base, is_gdg_base_lem entry.type, b.bases_are);
          };
        })
]

rename-Sound :
    (old_name new_name : Bytes) (m : MasterCatalog)
    → Sound m
    → Sound (rename_dataset old_name new_name m).1
unfolding rename_dataset contains
rename-Sound old_name new_name m s = elim (Option-cases (lookup old_name m.entries)) [
  | inl e ↦ rw (rename_dataset, e) s
  | inr (entry, e) ↦ elim (Option-cases (lookup new_name m.entries)) [
    | inr (other, f) ↦ rw (rename_dataset, contains, e, f) s
    | inl f ↦
        let left : Dict CatalogEntry = erase old_name m.entries in
        let put : CatalogEntry = record entry { name = new_name } in
        let fewer = length-erase old_name m.entries s.sorted in
        let sorted = erase-IsSorted old_name m.entries s.sorted in
        let more = length-insert new_name put left sorted in
        let gone : lookup new_name left ≡ none =
          ground (arith, f, lookup-erase old_name new_name m.entries) in
        let same : length (insert new_name put left) ≡ length m.entries =
          ground (arith, fewer, more, e, gone) in
        let kept : (p : EntryType → Bool) → count p (insert new_name put left) ≡ count p m.entries =
          λ p.
            count-insert p new_name put left gone
            ∙ count-erase p old_name entry m.entries s.sorted e in
        let b = s.balanced in
        rw (rename_dataset, contains, e, f)
          (record {
            sorted = insert-IsSorted new_name put left sorted;
            balanced = record {
              total_is = rw same b.total_is;
              vsam_is = rw (kept vsam) b.vsam_is;
              nonvsam_is = rw (kept nonvsam_type) b.nonvsam_is;
              bases_are = rw (kept base) b.bases_are;
            };
          })
  ]
]

pub data Call : Type 0 where
  defines : CatalogEntry → Call
  gets deletes : Bytes → Call
  renames : Bytes → Bytes → Call

pub run : List Call → MasterCatalog → MasterCatalog
run [] m = m
run (defines e ∷ cs) m = run cs (define_dataset e m).1
run (gets name ∷ cs) m = run cs (get_dataset name m).1
run (deletes name ∷ cs) m = run cs (delete_dataset name m).1
run (renames old_name new_name ∷ cs) m = run cs (rename_dataset old_name new_name m).1

looked_up :
    (m : MasterCatalog) (n : ℕ)
    → Sound m
    → Sound (record m { stats = record m.stats { lookups = n } })
looked_up m n s =
    let b = s.balanced in
    record {
      sorted = s.sorted;
      balanced = record {
        total_is = b.total_is;
        vsam_is = b.vsam_is;
        nonvsam_is = b.nonvsam_is;
        bases_are = b.bases_are;
      };
    }

get-Sound : (name : Bytes) (m : MasterCatalog) → Sound m → Sound (get_dataset name m).1
unfolding get_dataset
get-Sound name m s =
    let counted = looked_up m (add64 m.stats.lookups 1) s in
    elim (Option-cases (lookup name m.entries)) [
      | inl e ↦ rw (get_dataset, e) counted
      | inr (entry, e) ↦ rw (get_dataset, e) counted
    ]

run-Sound : (cs : List Call) (m : MasterCatalog) → Sound m → Sound (run cs m)
unfolding run
run-Sound [] m s = s
run-Sound (defines e ∷ cs) m s = run-Sound cs (define_dataset e m).1 (define-Sound e m s)
run-Sound (gets name ∷ cs) m s = run-Sound cs (get_dataset name m).1 (get-Sound name m s)
run-Sound (deletes name ∷ cs) m s = run-Sound cs (delete_dataset name m).1 (delete-Sound name m s)
run-Sound (renames old_name new_name ∷ cs) m s =
    run-Sound cs (rename_dataset old_name new_name m).1 (rename-Sound old_name new_name m s)

-- After any calls on a new catalog `total_entries` is the number of entries, `vsam_entries` that of the
-- CLUSTER, DATA and INDEX entries, `nonvsam_entries` that of the others, and `gdg_bases` that of the
-- GDG_BASE entries, each modulo 2^64.
pub run-new_catalog-IsBalanced :
    (name : Bytes) (cs : List Call) → IsBalanced (run cs (new_catalog name))
unfolding new_catalog count
run-new_catalog-IsBalanced name cs =
    let empty : IsBalanced (new_catalog name) = record {
      total_is = omega arith;
      vsam_is = omega arith;
      nonvsam_is = omega arith;
      bases_are = omega arith;
    } in
    (run-Sound cs (new_catalog name) (record { sorted = tt; balanced = empty })).balanced
