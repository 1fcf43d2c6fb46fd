-- ===== src/Channel/Manager/Commands.antt =====
-- The EXEC CICS commands of libs/channel/src/channel.cpp that do more than pass their arguments on.
use ibm_cics_emulation.Base.{ℕ, ◌%◌, some, List, ltb, if◌then◌else◌, length, take, Bytes}
use ibm_cics_emulation.Result.{Result, ok, err, undefined, ◌>>=◌, u32, ⊤}
use ibm_cics_emulation.Channel.{list_containers}
use ibm_cics_emulation.Channel.Manager.{
  ChannelManager, put_current, put_container, get_current, create_channel, get_channel,
}

-- exec_cics_get_container_into: how many bytes are copied, and they.
pub exec_cics_get_container_into : Bytes → ℕ → ChannelManager → Result (ℕ × Bytes) × ChannelManager
exec_cics_get_container_into container max_length m =
    let found = get_current container m in
    (
      found.0 >>= λ d.
          let copy_len = (if ltb (length d % u32) max_length then length d % u32 else max_length) in
          ok (copy_len, take copy_len d),
      found.1,
    )

-- exec_cics_get_container_set: the size, and the bytes.
pub exec_cics_get_container_set : Bytes → ChannelManager → Result (ℕ × Bytes) × ChannelManager
exec_cics_get_container_set container m =
    let found = get_current container m in (found.0 >>= λ d. ok (length d % u32, d), found.1)

-- exec_cics_put_container_channel: the size is cut to 32 bits.
unfoldable pub exec_cics_put_container_channel :
    Bytes → Bytes → Bytes → ChannelManager → Result ⊤ × ChannelManager
exec_cics_put_container_channel container channel from m =
    put_container container channel (some from) (length from % u32) m

-- exec_cics_put_container of a buffer or a text.
unfoldable pub exec_cics_put_container : Bytes → Bytes → ChannelManager → Result ⊤ × ChannelManager
exec_cics_put_container container from m = put_current container (some from) (length from % u32) m

unfoldable pub exec_cics_create_channel : Bytes → ChannelManager → Result ⊤ × ChannelManager
exec_cics_create_channel name m = elim (create_channel name m) [
  | err e ↦ (err e, m)
  | undefined ↦ (undefined, m)
  | ok made ↦ (ok tt, made.1)
]

pub exec_cics_browse_containers : Bytes → ChannelManager → Result (List Bytes)
exec_cics_browse_containers name m = get_channel name m >>= λ ch. ok (list_containers ch)
