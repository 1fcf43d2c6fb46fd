-- ===== src/Base/Dicts.antt =====
-- std::map and std::unordered_map keyed by byte strings, as a list of entries in ascending key
-- order (an unordered map has no order of its own, so this one serves). A key has one entry, so
-- `erase` may drop every entry of the key.
use Prim.Native.Nat.{◌+◌}
use mathlib.Core.Path.{◌≡◌, refl}
use mathlib.Core.Bool.{Bool, true, false}
use mathlib.Core.List.{List, [], ◌∷◌}
use mathlib.Core.Option.{Option, none, some}
use native.Mathlib.Omega.{arith}
use ibm_cics_emulation.Base.Tests.{if◌then◌else◌}
use ibm_cics_emulation.Base.Lists.{length}
use ibm_cics_emulation.Base.ByteStrings.{
  Bytes, bytes_eq, bytes_eq_refl, bytes_eq_iff, bytes_lt, bytes_lt_irrefl, bytes_lt_trans,
  bytes_lt_total,
}

abbrev pub Dict {ℓ} : Type ℓ → Type ℓ
Dict V = List (Bytes × V)

module _ {ℓ} {V : Type ℓ} where
  unfoldable pub lookup : Bytes → Dict V → Option V
  lookup k [] = none
  lookup k ((j, v) ∷ m) = if bytes_eq j k then some v else lookup k m

  -- `m[k] = v`, `m.insert_or_assign(k, v)`
  unfoldable pub insert : Bytes → V → Dict V → Dict V
  insert k v [] = (k, v) ∷ []
  insert k v ((j, w) ∷ m) =
      if bytes_eq j k
      then (k, v) ∷ m
      else if bytes_lt k j
      then (k, v) ∷ (j, w) ∷ m
      else (j, w) ∷ insert k v m

  -- `m.erase(k)`
  unfoldable pub erase : Bytes → Dict V → Dict V
  erase k [] = []
  erase k ((j, w) ∷ m) = if bytes_eq j k then erase k m else (j, w) ∷ erase k m

  -- `m.contains(k)`, `m.find(k) != m.end()`
  unfoldable pub contains : Bytes → Dict V → Bool
  unfolding lookup
  contains k m = elim (lookup k m) [ none ↦ false | some _ ↦ true ]

  -- Every key of the list comes after `k`.
  abbrev pub Above : Bytes → Dict V → Type 0
  Above k [] = Unit
  Above k ((j, v) ∷ m) = (bytes_lt k j ≡ true) × Above k m

  -- The keys ascend strictly.
  abbrev pub IsSorted : Dict V → Type 0
  IsSorted [] = Unit
  IsSorted ((k, v) ∷ m) = Above k m × IsSorted m

  -- In `if` form the laws have no side condition.
  pub lookup-insert :
      (k j : Bytes) (v : V) (m : Dict V)
      → lookup j (insert k v m) ≡ (if bytes_eq k j then some v else lookup j m)
  unfolding lookup insert
  lookup-insert k j v [] = refl
  lookup-insert k j v ((i, w) ∷ m) =
      ground (arith, bytes_eq_iff k j, bytes_eq_iff i k, bytes_eq_iff i j, lookup-insert k j v m)

  pub lookup-erase :
      (k j : Bytes) (m : Dict V)
      → lookup j (erase k m) ≡ (if bytes_eq k j then none else lookup j m)
  unfolding lookup erase
  lookup-erase k j [] = ground arith
  lookup-erase k j ((i, w) ∷ m) =
      ground (arith, bytes_eq_iff k j, bytes_eq_iff i k, bytes_eq_iff i j, lookup-erase k j m)

  pub lookup-insert_self : (k : Bytes) (v : V) (m : Dict V) → lookup k (insert k v m) ≡ some v
  lookup-insert_self k v m = rw (lookup-insert k k v m, bytes_eq_refl k)

  pub lookup-erase_self : (k : Bytes) (m : Dict V) → lookup k (erase k m) ≡ none
  lookup-erase_self k m = rw (lookup-erase k k m, bytes_eq_refl k)

  Above-insert :
      (i k : Bytes) (v : V) (m : Dict V) → bytes_lt i k ≡ true → Above i m → Above i (insert k v m)
  unfolding insert
  Above-insert i k v [] h a = (h, tt)
  Above-insert i k v ((j, w) ∷ m) h a = ground (arith, Above-insert i k v m h a.1)

  Above-below : (i k : Bytes) (m : Dict V) → bytes_lt i k ≡ true → Above k m → Above i m
  Above-below i k [] h a = tt
  Above-below i k ((j, w) ∷ m) h a = (bytes_lt_trans i k j h a.0, Above-below i k m h a.1)

  pub insert-IsSorted : (k : Bytes) (v : V) (m : Dict V) → IsSorted m → IsSorted (insert k v m)
  unfolding insert
  insert-IsSorted k v [] s = (tt, tt)
  insert-IsSorted k v ((j, w) ∷ m) s = ground (
    arith,
    bytes_eq_iff j k,
    bytes_lt_total j k,
    Above-below k j m,
    Above-insert j k v m,
    insert-IsSorted k v m s.1,
  )

  Above-erase : (i k : Bytes) (m : Dict V) → Above i m → Above i (erase k m)
  unfolding erase
  Above-erase i k [] a = tt
  Above-erase i k ((j, w) ∷ m) a = ground (arith, Above-erase i k m a.1)

  pub erase-IsSorted : (k : Bytes) (m : Dict V) → IsSorted m → IsSorted (erase k m)
  unfolding erase
  erase-IsSorted k [] s = tt
  erase-IsSorted k ((j, w) ∷ m) s = ground (arith, erase-IsSorted k m s.1, Above-erase j k m s.0)

  pub lookup_below : (k : Bytes) (m : Dict V) → Above k m → lookup k m ≡ none
  unfolding lookup
  lookup_below k [] a = refl
  lookup_below k ((j, w) ∷ m) a =
      ground (arith, bytes_eq_iff j k, bytes_lt_irrefl k, lookup_below k m a.1)

  pub erase_below : (k : Bytes) (m : Dict V) → Above k m → erase k m ≡ m
  unfolding erase
  erase_below k [] a = refl
  erase_below k ((j, w) ∷ m) a =
      ground (arith, bytes_eq_iff j k, bytes_lt_irrefl k, erase_below k m a.1)

  -- A sorted dictionary grows by one entry under a new key, and keeps its size under an old one.
  pub length-insert :
      (k : Bytes) (v : V) (m : Dict V)
      → IsSorted m
      → length (insert k v m) ≡ (if contains k m then length m else length m + 1)
  unfolding lookup insert contains
  length-insert k v [] s = ground arith
  length-insert k v ((j, w) ∷ m) s =
      ground (arith, bytes_eq_iff j k, length-insert k v m s.1, Above-below k j m, lookup_below k m)

  pub length-erase :
      (k : Bytes) (m : Dict V)
      → IsSorted m
      → (if contains k m then length (erase k m) + 1 else length (erase k m)) ≡ length m
  unfolding lookup erase contains
  length-erase k [] s = ground arith
  length-erase k ((j, w) ∷ m) s =
      ground
        (arith, bytes_eq_iff j k, length-erase k m s.1, erase_below j m s.0, lookup_below j m s.0)
