-- ===== src/Nfcp/State.antt =====
-- `struct nfcp_s`, and the functions of nfcp.c that guard and time it.
use nodeflight_fw.Base.{
  ℕ, ◌+◌, ◌-◌, ◌*◌, Bool, List, [], ◌∷◌, ◌++◌, if◌then◌else◌, Bytes, Option, none, some, ◌>>=◌, u32,
  ℤ, pos, minus_one,
}

abbrev pub max_packet_length : ℕ
max_packet_length = 128

-- `NFCP_PACKET_BUFFER_SIZE`.
abbrev pub packet_buffer_size : ℕ
packet_buffer_size = max_packet_length * 2 + 3

abbrev pub max_classes : ℕ
max_classes = 4

-- `class_storage[NFCP_CLS_MGMT]` is the one storage with a state, the session id. `tx_depth` is
-- how often the recursive `tx_mutex` is held, and `wire` what `tx_write` was given, in order.
-- `mgmt_storage` is whether that storage is not NULL.
pub record Nfcp : Type 0 where
  pub session_end_time : ℕ
  pub tx_depth : ℕ
  pub rx_buffer : Bytes
  pub tx_buffer : Bytes
  pub session_id : ℕ
  pub mgmt_storage : Bool
  pub wire : List Bytes

-- `granted` is what `xSemaphoreTakeRecursive` returns: with no time limit it fails only where
-- there is no mutex, so it does not change in a run.
unfoldable pub nfcp_tx_take : Bool → Nfcp → ℤ × Nfcp
nfcp_tx_take granted n =
    if granted then (pos 0, record n { tx_depth = n.tx_depth + 1 }) else (minus_one, n)

unfoldable pub nfcp_tx_give : Nfcp → Nfcp
nfcp_tx_give n = record n { tx_depth = n.tx_depth - 1 }

abbrev pub write_bytes : Bytes → Nfcp → Nfcp
write_bytes bytes n = record n { wire = n.wire ++ bytes ∷ [] }

abbrev pub abort_sequence : Bytes
abort_sequence = 0x7d ∷ 0x7e ∷ []

-- Under the mutex, if it is had; `-1` if not.
unfoldable pub guarded : Bool → (Nfcp → Nfcp) → Nfcp → ℤ × Nfcp
unfolding nfcp_tx_take nfcp_tx_give
guarded granted body n =
    if granted then (pos 0, nfcp_tx_give (body (nfcp_tx_take granted n).1)) else (minus_one, n)

unfoldable pub nfcp_tx_abort : Bool → Nfcp → ℤ × Nfcp
unfolding guarded
nfcp_tx_abort granted n = guarded granted (write_bytes abort_sequence) n

-- `pdMS_TO_TICKS(5000)` at the 1000 ticks a second of FreeRTOSConfig.h.
unfoldable pub session_timeout_ticks : ℕ
session_timeout_ticks = 5000

-- The clock is 32 bits wide; `now` is what `xTaskGetTickCount` returns.
unfoldable pub nfcp_refresh_session : ℕ → Nfcp → Nfcp
unfolding session_timeout_ticks
nfcp_refresh_session now n = record n { session_end_time = u32 (now + session_timeout_ticks) }

-- `nfcp_cls_mgmt_reset` stores through its storage, and `none` is that this is NULL.
unfoldable pub nfcp_cls_mgmt_reset : Nfcp → Option Nfcp
nfcp_cls_mgmt_reset n = if n.mgmt_storage then some (record n { session_id = 0 }) else none

-- `nfcp_cls_cap_reset` does nothing.
unfoldable pub nfcp_reset : Bool → ℕ → Nfcp → Option Nfcp
unfolding nfcp_tx_abort nfcp_refresh_session nfcp_cls_mgmt_reset
nfcp_reset granted now n =
    nfcp_cls_mgmt_reset (nfcp_refresh_session now n) >>= λ n1. some (nfcp_tx_abort granted n1).1
