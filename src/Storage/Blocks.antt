-- ===== src/Storage/Blocks.antt =====
-- The blocks and pools of libs/storage-control/src/storage_control.cpp, and the memory as a function of
-- the address.
use Prim.Native.Nat.{bit_and}
use ibm_cics_emulation.Base.{
  ℕ, ◌+◌, ◌-◌, ◌%◌, Bool, not, ◌&&◌, Option, none, some, List, [], ◌∷◌, ltb, ◌==◌, if◌then◌else◌,
  Bytes,
}
use ibm_cics_emulation.Result.{u32, add64}

pub data StorageClass : Type 0 where
  user cicsdsa cdsa udsa sdsa rdsa shared : StorageClass

-- The value of the enumeration.
abbrev pub class_number : StorageClass → ℕ
class_number user = 0
class_number cicsdsa = 1
class_number cdsa = 2
class_number udsa = 3
class_number sdsa = 4
class_number rdsa = 5
class_number shared = 6

pub data StorageInit : Type 0 where
  default_init zero_init high_init low_init : StorageInit

pub record StorageBlock : Type 0 where
  pub address : ℕ
  pub size : ℕ
  pub requested_size : ℕ
  pub storage_class : StorageClass
  pub task_id : ℕ
  pub is_shared : Bool
  pub tag : Bytes

pub record StoragePool : Type 0 where
  pub total_size : ℕ
  pub used_size : ℕ
  pub peak_size : ℕ
  pub allocation_count : ℕ

abbrev pub max : ℕ → ℕ → ℕ
max a b = if ltb a b then b else a

unfoldable pub record_allocation : ℕ → StoragePool → StoragePool
record_allocation size p =
    let used = add64 p.used_size size in
    record {
      total_size = add64 p.total_size size;
      used_size = used;
      peak_size = max p.peak_size used;
      allocation_count = (p.allocation_count + 1) % u32;
    }

-- `used_size_ -= min(used_size_, size)`
unfoldable pub record_free : ℕ → StoragePool → StoragePool
record_free size p = record p { used_size = p.used_size - size }

-- `allocations_.find(address)`
unfoldable pub find : ℕ → List StorageBlock → Option StorageBlock
find a [] = none
find a (b ∷ bs) = if b.address == a then some b else find a bs

unfoldable pub erase : ℕ → List StorageBlock → List StorageBlock
erase a [] = []
erase a (b ∷ bs) = if b.address == a then erase a bs else b ∷ erase a bs

abbrev pub with_pool :
    StorageClass
    → (StoragePool → StoragePool)
    → (StorageClass → StoragePool)
    → StorageClass
    → StoragePool
with_pool c f pools d = if class_number c == class_number d then f (pools d) else pools d

-- `(size + alignment - 1) & ~(alignment - 1)`, in 32 bits.
unfoldable pub aligned : ℕ → ℕ → ℕ
aligned size alignment =
    bit_and ((size + alignment + u32 - 1) % u32) (u32 - 1 - (alignment + u32 - 1) % u32)

-- `std::memset(address, value, n)`
unfoldable pub memset : ℕ → ℕ → ℕ → (ℕ → ℕ) → ℕ → ℕ
memset address value n memory a =
    if not (ltb a address) && ltb a (address + n) then value else memory a

unfoldable pub initialized : StorageInit → ℕ → ℕ → (ℕ → ℕ) → ℕ → ℕ
initialized default_init address n memory = memory
initialized zero_init address n memory = memset address 0 n memory
initialized low_init address n memory = memset address 0 n memory
initialized high_init address n memory = memset address 255 n memory
