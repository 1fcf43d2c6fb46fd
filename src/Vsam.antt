-- ===== src/Vsam.antt =====
-- VSAM: libs/vsam. VsamKey, VsamRecord and BrowseContext of include/cics/vsam/vsam_types.hpp, and
-- VsamDefinition::validate of src/vsam_file.cpp. Time stamps and I/O times are left out.
pub mod Ksds
use ibm_cics_emulation.Base.{
  ℕ, ◌-◌, ◌^◌, ◌<◌, Bool, true, false, ◌&&◌, ◌||◌, List, [], ◌∷◌, ltb, leb, ◌==◌, if◌then◌else◌,
  length, Bytes, ◌≡◌, refl, arith, bytes_lt, bytes_eq,
}
use ibm_cics_emulation.Result.{Result, ok, err, invalid_argument, add64, ⊤}

-- The sign of `std::memcmp(a, b, min(size a, size b))`: the first byte that differs decides.
pub data Sign : Type 0 where
  negative zero_sign positive : Sign

memcmp : Bytes → Bytes → Sign
memcmp [] b = zero_sign
memcmp (x ∷ a) [] = zero_sign
memcmp (x ∷ a) (y ∷ b) =
    let rest = memcmp a b in if ltb x y then negative else if ltb y x then positive else rest

pub data StrongOrdering : Type 0 where
  less equal greater : StrongOrdering

is_empty : Bytes → Bool
is_empty [] = true
is_empty (x ∷ a) = false

-- `VsamKey::operator<=>`
pub compare_keys : Bytes → Bytes → StrongOrdering
unfolding memcmp is_empty
compare_keys a b =
    if is_empty a && is_empty b
    then equal
    else if is_empty a
    then less
    else if is_empty b
    then greater
    else elim (memcmp a b) [
      | negative ↦ less
      | positive ↦ greater
      | zero_sign ↦
          if ltb (length a) (length b)
          then less
          else if ltb (length b) (length a)
          then greater
          else equal
    ]

-- The order that the ordered map of a file goes by.
pub lexicographic : Bytes → Bytes → StrongOrdering
lexicographic a b = if bytes_eq a b then equal else if bytes_lt a b then less else greater

memcmp_empty : (a b : Bytes) → is_empty a ≡ true → memcmp a b ≡ zero_sign
unfolding memcmp is_empty
memcmp_empty [] b h = refl
memcmp_empty (x ∷ a) b h = cc

memcmp_empty_right : (a b : Bytes) → is_empty b ≡ true → memcmp a b ≡ zero_sign
unfolding memcmp is_empty
memcmp_empty_right [] b h = refl
memcmp_empty_right (x ∷ a) [] h = refl
memcmp_empty_right (x ∷ a) (y ∷ b) h = cc

length_empty : (a : Bytes) → is_empty a ≡ true → length a ≡ 0
unfolding is_empty
length_empty [] h = refl
length_empty (x ∷ a) h = cc

length_not_empty : (a : Bytes) → is_empty a ≡ false → 0 < length a
unfolding is_empty
length_not_empty [] h = cc
length_not_empty (x ∷ a) h = omega arith

-- The comparison of VSAM keys, with its special cases for empty keys and its two tests on lengths, is
-- the lexicographic order of byte strings.
pub compare_keys-lexicographic : (a b : Bytes) → compare_keys a b ≡ lexicographic a b
unfolding compare_keys lexicographic bytes_lt bytes_eq
compare_keys-lexicographic [] [] = refl
compare_keys-lexicographic [] (y ∷ b) = refl
compare_keys-lexicographic (x ∷ a) [] = refl
compare_keys-lexicographic (x ∷ a) (y ∷ b) = ground (
  arith,
  compare_keys-lexicographic a b,
  memcmp_empty a b,
  memcmp_empty_right a b,
  length_empty a,
  length_empty b,
  length_not_empty a,
  length_not_empty b,
)

pub data VsamType : Type 0 where
  ksds esds rrds lds vrrds : VsamType

pub data AccessMode : Type 0 where
  input output io extend : AccessMode

pub data ProcessingMode : Type 0 where
  sequential random dynamic skip : ProcessingMode

-- The fields that an operation reads.
pub record VsamDefinition : Type 0 where
  pub cluster_name : Bytes
  pub type : VsamType
  pub key_length : ℕ
  pub maximum_record_length : ℕ
  pub ci_size : ℕ
  pub ca_size : ℕ

is_ksds : VsamType → Bool
is_ksds ksds = true
is_ksds _ = false

pub validate : VsamDefinition → Result ⊤
unfolding is_ksds is_empty
validate d =
    if is_empty d.cluster_name
    then err invalid_argument
    else if is_ksds d.type && d.key_length == 0
    then err invalid_argument
    else if ltb d.ci_size 512 || ltb 32768 d.ci_size
    then err invalid_argument
    else if ltb 32760 d.maximum_record_length
    then err invalid_argument
    else ok tt

pub record VsamAddress : Type 0 where
  pub rba : ℕ
  pub rrn : ℕ
  pub ci_number : ℕ
  pub slot_number : ℕ

abbrev pub invalid_rba : ℕ
invalid_rba = 2 ^ 64 - 1

abbrev pub invalid_rrn : ℕ
invalid_rrn = 2 ^ 32 - 1

-- A new VsamAddress.
abbrev pub no_address : VsamAddress
no_address = record { rba = invalid_rba; rrn = invalid_rrn; ci_number = 0; slot_number = 0 }

pub record VsamRecord : Type 0 where
  pub key : Bytes
  pub bytes : Bytes
  pub address : VsamAddress
  pub deleted : Bool

pub record VsamStatistics : Type 0 where
  pub record_count : ℕ
  pub deleted_records : ℕ
  pub used_bytes : ℕ
  pub allocated_bytes : ℕ
  pub reads : ℕ
  pub writes : ℕ
  pub deletes : ℕ
  pub updates : ℕ
  pub inserts : ℕ
  pub browses : ℕ

unfoldable pub record_read : VsamStatistics → VsamStatistics
record_read s = record s { reads = add64 s.reads 1 }

unfoldable pub record_write : VsamStatistics → ℕ → VsamStatistics
record_write s bytes = record s {
  writes = add64 s.writes 1;
  inserts = add64 s.inserts 1;
  used_bytes = add64 s.used_bytes bytes;
}

unfoldable pub record_delete : VsamStatistics → VsamStatistics
record_delete s = record s {
  deletes = add64 s.deletes 1;
  deleted_records = add64 s.deleted_records 1;
}

unfoldable pub record_update : VsamStatistics → VsamStatistics
record_update s = record s { updates = add64 s.updates 1 }

pub record BrowseContext : Type 0 where
  pub browse_id : Bytes
  pub current_key : Bytes
  pub current_address : VsamAddress
  pub mode : ProcessingMode
  pub backward : Bool
  pub at_start : Bool
  pub at_end : Bool
  pub records_read : ℕ

-- The constructor, with the id that UUID::generate gave.
unfoldable pub new_context : Bytes → BrowseContext
new_context id = record {
  browse_id = id;
  current_key = [];
  current_address = no_address;
  mode = dynamic;
  backward = false;
  at_start = true;
  at_end = false;
  records_read = 0;
}

unfoldable pub set_current : BrowseContext → Bytes → VsamAddress → BrowseContext
set_current c key addr = record c { current_key = key; current_address = addr; at_start = false }
