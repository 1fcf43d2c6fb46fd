-- ===== src/Channel.antt =====
-- Containers and channels: libs/channel/src/channel.cpp and its header. A container pointer is the
-- container and its name in the channel, where `store` writes it back; the locks are not modelled but
-- where one call takes the same lock twice, nor are the times of creation and change, which only
-- `get_info` reads.
pub mod Laws
pub mod Manager
use ibm_cics_emulation.Base.{
  ℕ, zero, suc, ◌+◌, ◌*◌, ◌%◌, Bool, true, false, ◌&&◌, Option, none, some, List, [], ◌∷◌, ◌++◌,
  ltb, leb, ◌==◌, if◌then◌else◌, length, take, Bytes, Dict, lookup, insert, erase,
}
use ibm_cics_emulation.Result.{
  Result, ok, err, undefined, ◌>>=◌, lengerr, invreq, containererr, u32, add64,
}

abbrev pub max_container_name_length : ℕ
max_container_name_length = 16

abbrev pub max_channel_name_length : ℕ
max_channel_name_length = 16

abbrev pub max_container_size : ℕ
max_container_size = 32 * 1024 * 1024

pub data DataType : Type 0 where
  char bit dfhvalue : DataType

pub data ContainerType : Type 0 where
  normal error abcode abdata : ContainerType

pub record Container : Type 0 where
  pub name : Bytes
  pub content : Bytes
  pub data_type : DataType
  pub container_type : ContainerType

-- The constructor.
pub new_container : Bytes → DataType → Container
new_container name type = record {
  name = name;
  content = [];
  data_type = type;
  container_type = normal;
}

-- `data_.resize(n)`: the first n bytes, then zeros.
unfoldable pub resize : ℕ → Bytes → Bytes
resize zero d = []
resize (suc n) [] = 0 ∷ resize n []
resize (suc n) (c ∷ d) = c ∷ resize n d

-- `std::memcpy(dest + offset, from, n)` of the bytes `from`, within `dest`.
pub write_at : ℕ → Bytes → Bytes → Bytes
write_at offset from [] = []
write_at (suc offset) from (c ∷ dest) = c ∷ write_at offset from dest
write_at zero [] (c ∷ dest) = c ∷ dest
write_at zero (b ∷ from) (c ∷ dest) = b ∷ write_at zero from dest

-- `if (length > 0 && data) memcpy(data_.data() + offset, data, length)`. A copy that leaves either
-- buffer is undefined.
pub fill : Option Bytes → ℕ → ℕ → Bytes → Result Bytes
fill none n offset dest = ok dest
fill (some from) n offset dest =
    if n == 0
    then ok dest
    else if leb n (length from) && leb (offset + n) (length dest)
    then ok (write_at offset (take n from) dest)
    else undefined

-- Container::put(const void*, UInt32): `from` is what the pointer points to, none for a null one.
pub put : Option Bytes → ℕ → Container → Result Container
put from n c =
    if ltb max_container_size n
    then err lengerr
    else fill from n 0 (resize n c.content) >>= λ d. ok (record c { content = d })

-- Container::put(const ByteBuffer&) and put(StringView): the size is cut to 32 bits.
pub put_buffer : Bytes → Container → Result Container
put_buffer from c = put (some from) (length from % u32) c

-- Container::get() and get_string().
pub get : Container → Bytes
get c = c.content

-- Container::get(void*, UInt32): how many bytes are copied, and they.
pub get_into : Bool → ℕ → Container → Result (ℕ × Bytes)
get_into has_buffer max_length c =
    if has_buffer
    then (let copy_length =
          (if ltb (length c.content % u32) max_length
            then length c.content % u32
            else max_length) in
        ok (copy_length, take copy_length c.content))
    else err invreq

pub append : Option Bytes → ℕ → Container → Result Container
append from n c = if ltb max_container_size (length c.content + n) then err lengerr else elim from [
  | none ↦ ok c
  | some b ↦ fill (some b) n (length c.content) (resize (length c.content + n) c.content) >>= λ d.
      ok (record c { content = d })
]

-- The sum of the offset and the length wraps at 32 bits.
pub replace : ℕ → Option Bytes → ℕ → Container → Result Container
replace offset from n c =
    if ltb (length c.content) ((offset + n) % u32)
    then err lengerr
    else fill from n offset c.content >>= λ d. ok (record c { content = d })

-- Container::clear().
pub clear_container : Container → Container
clear_container c = record c { content = [] }

pub record Channel : Type 0 where
  pub name : Bytes
  pub containers : Dict Container

-- The constructor.
pub new_channel : Bytes → Channel
new_channel name = record { name = name; containers = [] }

-- A write through the pointer of the container `name`.
pub store : Bytes → Container → Channel → Channel
store name c ch = record ch { containers = insert name c ch.containers }

pub container_count : Channel → ℕ
container_count ch = length ch.containers % u32

sum_sizes : Dict Container → ℕ → ℕ
sum_sizes [] total = total
sum_sizes ((k, c) ∷ cs) total = sum_sizes cs (add64 total (length c.content % u32))

pub total_size : Channel → ℕ
total_size ch = sum_sizes ch.containers 0

-- Returns the container, with the channel that holds it.
pub create_container : Bytes → DataType → Channel → Result (Container × Channel)
create_container name type ch =
    if ltb max_container_name_length (length name)
    then err invreq
    else elim (lookup name ch.containers) [
      | some c ↦ ok (c, ch)
      | none ↦ ok (new_container name type, store name (new_container name type) ch)
    ]

pub get_container : Bytes → Channel → Result Container
get_container name ch = elim (lookup name ch.containers) [ none ↦ err containererr | some c ↦ ok c ]

pub delete_container : Bytes → Channel → Result Channel
delete_container name ch = elim (lookup name ch.containers) [
  | none ↦ err containererr
  | some c ↦ ok (record ch { containers = erase name ch.containers })
]

pub has_container : Bytes → Channel → Bool
has_container name ch = elim (lookup name ch.containers) [ none ↦ false | some c ↦ true ]

-- Moves from the first channel to the second, which is another one: on the same channel the source
-- locks one mutex twice.
pub move_container : Bytes → Channel → Channel → Result (Channel × Channel)
move_container name source target = elim (lookup name source.containers) [
  | none ↦ err containererr
  | some c ↦ ok (record source { containers = erase name source.containers }, store name c target)
]

-- Copies from the first channel to the second, which is another one, under the new name unless that
-- is empty. Returns the second. The result of `put` on the copy is dropped.
pub copy_container : Bytes → Bytes → Channel → Channel → Result Channel
copy_container name new_name source target = elim (lookup name source.containers) [
  | none ↦ err containererr
  | some c ↦
      let target_name = (if length new_name == 0 then name else new_name) in
      create_container target_name c.data_type target >>= λ made. elim (put_buffer (get c) made.0) [
        | ok d ↦ ok (store target_name d made.1)
        | err e ↦ ok made.1
        | undefined ↦ undefined
      ]
]

names : Dict Container → List Bytes
names [] = []
names ((k, c) ∷ cs) = k ∷ names cs

-- In the order of the keys, where the source has that of the hash table.
pub list_containers : Channel → List Bytes
list_containers ch = names ch.containers

-- Channel::clear().
pub clear : Channel → Channel
clear ch = record ch { containers = [] }

pub set_container_type : ContainerType → Container → Container
set_container_type type c = record c { container_type = type }
