-- ===== src/Channel/Manager.antt =====
-- ChannelManager and the EXEC CICS commands: libs/channel/src/channel.cpp. The record holds the
-- singleton's fields and the current channel's name of the one thread whose calls are followed. A
-- channel pointer is the channel and its name, where `keep` writes it back.
pub mod Commands
pub mod Spec
use ibm_cics_emulation.Base.{
  ℕ, ◌+◌, ◌%◌, Bool, true, false, Option, none, some, List, [], ◌∷◌, ltb, ◌==◌, if◌then◌else◌,
  length, take, Bytes, bytes_eq, codes, Dict, lookup, insert, erase,
}
use ibm_cics_emulation.Result.{
  Result, ok, err, undefined, ◌>>=◌, not_initialized, invreq, channelerr, u32, add64, ⊤,
}
use ibm_cics_emulation.Channel
use ibm_cics_emulation.Channel.{
  Container, Channel, char, max_channel_name_length, new_channel, store, put, get, create_container,
  list_containers,
}

pub record ChannelStats : Type 0 where
  pub channels_created : ℕ
  pub channels_deleted : ℕ
  pub containers_created : ℕ
  pub containers_deleted : ℕ
  pub puts_executed : ℕ
  pub gets_executed : ℕ
  pub bytes_written : ℕ
  pub bytes_read : ℕ

pub reset_stats : ChannelStats
reset_stats = record {
  channels_created = 0;
  channels_deleted = 0;
  containers_created = 0;
  containers_deleted = 0;
  puts_executed = 0;
  gets_executed = 0;
  bytes_written = 0;
  bytes_read = 0;
}

pub record ChannelManager : Type 0 where
  pub initialized : Bool
  pub channels : Dict Channel
  pub current_channel_name : Bytes
  pub stats : ChannelStats

pub new_manager : ChannelManager
new_manager = record {
  initialized = false;
  channels = [];
  current_channel_name = [];
  stats = reset_stats;
}

pub initialize : ChannelManager → ChannelManager
initialize m =
    if m.initialized then m else record m { channels = []; stats = reset_stats; initialized = true }

pub shutdown : ChannelManager → ChannelManager
shutdown m = record m { channels = []; current_channel_name = []; initialized = false }

-- A write through the pointer of the channel `name`.
pub keep : Bytes → Channel → ChannelManager → ChannelManager
keep name ch m = record m { channels = insert name ch m.channels }

-- Returns the channel, with the manager that holds it.
pub create_channel : Bytes → ChannelManager → Result (Channel × ChannelManager)
create_channel name m =
    if m.initialized
    then (if ltb max_channel_name_length (length name)
        then err invreq
        else elim (lookup name m.channels) [
          | some ch ↦ ok (ch, m)
          | none ↦
              let s = m.stats in
              ok (
                new_channel name,
                record m {
                  channels = insert name (new_channel name) m.channels;
                  stats = record s { channels_created = add64 s.channels_created 1 };
                },
              )
        ])
    else err not_initialized

pub get_channel : Bytes → ChannelManager → Result Channel
get_channel name m = elim (lookup name m.channels) [ none ↦ err channelerr | some ch ↦ ok ch ]

pub delete_channel : Bytes → ChannelManager → Result ⊤ × ChannelManager
delete_channel name m = elim (lookup name m.channels) [
  | none ↦ (err channelerr, m)
  | some ch ↦
      let s = m.stats in
      (
        ok tt,
        record m {
          channels = erase name m.channels;
          stats = record s { channels_deleted = add64 s.channels_deleted 1 };
          current_channel_name =
              if bytes_eq m.current_channel_name name then [] else m.current_channel_name;
        },
      )
]

pub has_channel : Bytes → ChannelManager → Bool
has_channel name m = elim (lookup name m.channels) [ none ↦ false | some ch ↦ true ]

pub set_current_channel : Bytes → ChannelManager → ChannelManager
set_current_channel name m = record m { current_channel_name = name }

-- `current_channel()`, none for the null pointer; the channel's name is the current one.
pub current_channel : ChannelManager → Option Channel
current_channel m =
    if length m.current_channel_name == 0 then none else lookup m.current_channel_name m.channels

pub count_put : ℕ → ℕ → ChannelManager → ChannelManager
count_put n made m =
    let s = m.stats in
    record m {
      stats = record s {
        puts_executed = add64 s.puts_executed 1;
        bytes_written = add64 s.bytes_written n;
        containers_created = add64 s.containers_created made;
      };
    }

-- The part of `put_container` from `create_container` on, in the channel `ch` under its name. `made` is
-- what a success adds to `containers_created`: 1 without a named channel, else 0.
pub put_into :
    Bytes → Bytes → Channel → Option Bytes → ℕ → ℕ → ChannelManager → Result ⊤ × ChannelManager
put_into container name ch from n made m = elim (create_container container char ch) [
  | err e ↦ (err e, m)
  | undefined ↦ (undefined, m)
  | ok found ↦ elim (put from n found.0) [
    | err e ↦ (err e, keep name found.1 m)
    | undefined ↦ (undefined, keep name found.1 m)
    | ok c ↦ (ok tt, count_put n made (keep name (store container c found.1) m))
  ]
]

-- put_container(container, data, length), on the current channel or a default one.
pub put_current : Bytes → Option Bytes → ℕ → ChannelManager → Result ⊤ × ChannelManager
put_current container from n m = elim (current_channel m) [
  | some ch ↦ put_into container m.current_channel_name ch from n 1 m
  | none ↦ elim (create_channel (codes "DFHCNV") m) [
    | err e ↦ (err e, m)
    | undefined ↦ (undefined, m)
    | ok made ↦
        put_into container (codes "DFHCNV") made.0 from n 1
          (set_current_channel (codes "DFHCNV") made.1)
  ]
]

-- `get_channel`, and `create_channel` if that finds none.
pub open_channel : Bytes → ChannelManager → Result (Channel × ChannelManager)
open_channel name m = elim (get_channel name m) [
  | ok ch ↦ ok (ch, m)
  | err e ↦ create_channel name m
  | undefined ↦ undefined
]

-- put_container(container, channel_name, data, length).
pub put_container : Bytes → Bytes → Option Bytes → ℕ → ChannelManager → Result ⊤ × ChannelManager
put_container container name from n m = elim (open_channel name m) [
  | err e ↦ (err e, m)
  | undefined ↦ (undefined, m)
  | ok found ↦ put_into container name found.0 from n 0 found.1
]

-- The part of `get_container` after the channel is found.
pub get_from : Bytes → Channel → ChannelManager → Result Bytes × ChannelManager
get_from container ch m = elim (Channel.get_container container ch) [
  | err e ↦ (err e, m)
  | undefined ↦ (undefined, m)
  | ok c ↦
      let s = m.stats in
      (
        ok (get c),
        record m {
          stats = record s {
            gets_executed = add64 s.gets_executed 1;
            bytes_read = add64 s.bytes_read (length (get c));
          };
        },
      )
]

-- get_container(container), of the current channel.
pub get_current : Bytes → ChannelManager → Result Bytes × ChannelManager
get_current container m = elim (current_channel m) [
  | none ↦ (err channelerr, m)
  | some ch ↦ get_from container ch m
]

-- get_container(container, channel_name).
pub get_container : Bytes → Bytes → ChannelManager → Result Bytes × ChannelManager
get_container container name m = elim (get_channel name m) [
  | err e ↦ (err e, m)
  | undefined ↦ (undefined, m)
  | ok ch ↦ get_from container ch m
]

-- The part of `delete_container` after the channel is found.
pub delete_from : Bytes → Bytes → Channel → ChannelManager → Result ⊤ × ChannelManager
delete_from container name ch m = elim (Channel.delete_container container ch) [
  | err e ↦ (err e, m)
  | undefined ↦ (undefined, m)
  | ok left ↦
      let s = m.stats in
      (
        ok tt,
        record m {
          channels = insert name left m.channels;
          stats = record s { containers_deleted = add64 s.containers_deleted 1 };
        },
      )
]

-- delete_container(container), of the current channel.
pub delete_current : Bytes → ChannelManager → Result ⊤ × ChannelManager
delete_current container m = elim (current_channel m) [
  | none ↦ (err channelerr, m)
  | some ch ↦ delete_from container m.current_channel_name ch m
]

-- delete_container(container, channel_name).
pub delete_container : Bytes → Bytes → ChannelManager → Result ⊤ × ChannelManager
delete_container container name m = elim (get_channel name m) [
  | err e ↦ (err e, m)
  | undefined ↦ (undefined, m)
  | ok ch ↦ delete_from container name ch m
]

-- The last call of `move_container`. Between a channel and itself, a container that is found makes the
-- thread lock one mutex twice, which is undefined.
pub move_between :
    Bytes → Bytes → Channel → Bytes → Channel → ChannelManager → Result ⊤ × ChannelManager
move_between container from_name source to_name target m =
    elim (Channel.move_container container source target) [
      | err e ↦ (err e, m)
      | undefined ↦ (undefined, m)
      | ok both ↦
          if bytes_eq from_name to_name
          then (undefined, m)
          else (ok tt, keep to_name both.1 (keep from_name both.0 m))
    ]

pub move_container : Bytes → Bytes → Bytes → ChannelManager → Result ⊤ × ChannelManager
move_container container from_name to_name m = elim (get_channel from_name m) [
  | err e ↦ (err e, m)
  | undefined ↦ (undefined, m)
  | ok source ↦ elim (open_channel to_name m) [
    | err e ↦ (err e, m)
    | undefined ↦ (undefined, m)
    | ok target ↦ move_between container from_name source to_name target.0 target.1
  ]
]

channel_names : Dict Channel → List Bytes
channel_names [] = []
channel_names ((k, ch) ∷ chs) = k ∷ channel_names chs

-- In the order of the keys, where the source has that of the hash table.
pub list_channels : ChannelManager → List Bytes
list_channels m = channel_names m.channels
