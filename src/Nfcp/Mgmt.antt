-- ===== src/Nfcp/Mgmt.antt =====
-- src/module/nfcp/nfcp_cls_mgmt.c: the session and the log messages.
use nodeflight_fw.Base.{
  none, ℕ, ◌+◌, ◌-◌, ◌*◌, Bool, not, ◌||◌, Option, some, [], ◌∷◌, ◌==◌, ltb, if◌then◌else◌, Bytes,
  bit_or, store, ◌>>=◌,
}
use nodeflight_fw.Pack.{pack_to_u32}
use nodeflight_fw.Nfcp.State.{
  Nfcp, max_packet_length, nfcp_tx_take, nfcp_tx_give, nfcp_refresh_session, nfcp_reset,
}
use nodeflight_fw.Nfcp.Packet.{nfcp_tx_packet}

abbrev pub nfcp_cls_mgmt : ℕ
nfcp_cls_mgmt = 0

abbrev pub op_session_id : ℕ
op_session_id = 0

abbrev pub op_log_message : ℕ
op_log_message = 1

abbrev pub op_invalid_class : ℕ
op_invalid_class = 2

abbrev pub op_invalid_operation : ℕ
op_invalid_operation = 3

abbrev pub hdr_bit_is_call : ℕ
hdr_bit_is_call = 2

abbrev pub hdr_bit_is_resp : ℕ
hdr_bit_is_resp = 1

-- `nfcp_op_status_t`.
pub data Status : Type 0 where
  success invalid_op error : Status

-- `tx_buffer[len++] = c` for each byte.
unfoldable pub fill : Bytes → ℕ → Bytes → Option Bytes
fill buf len [] = some buf
fill buf len (c ∷ cs) = store buf len c >>= λ b. fill b (len + 1) cs

-- Sends the bytes that `body` puts at the start of `tx_buffer`, under the mutex; nothing if it is
-- not had.
unfoldable pub send : Bool → (Bytes → Option (Bytes × ℕ)) → Nfcp → Option Nfcp
unfolding nfcp_tx_take nfcp_tx_give
send granted body n =
    if granted
    then body n.tx_buffer >>= (λ (buf, len).
      nfcp_tx_packet granted (record (nfcp_tx_take granted n).1 { tx_buffer = buf }) len
      >>= λ (r, n'). some (nfcp_tx_give n'))
    else some n

-- "NodeFlight test"
abbrev pub version_tag : Bytes
version_tag =
    b'N' ∷ b'o' ∷ b'd' ∷ b'e' ∷ b'F' ∷ b'l' ∷ b'i' ∷ b'g' ∷ b'h' ∷ b't' ∷ b' ' ∷ b't' ∷ b'e' ∷ b's'
    ∷ b't' ∷ []

-- The answer to a session call.
unfoldable pub session_reply : Bool → ℕ → Bytes → Option (Bytes × ℕ)
session_reply send_version seq_nr buf = do
  a ← fill buf 0 (
      bit_or (bit_or (nfcp_cls_mgmt * 4) hdr_bit_is_call) hdr_bit_is_resp
      ∷ op_session_id
      ∷ seq_nr
      ∷ [])
  b ← fill a 3 (if send_version then version_tag else [])
  some (b, if send_version then 18 else 3)

-- The session that a call leaves: another one resets the port first, if there was any.
unfoldable pub open_session : Bool → ℕ → ℕ → Nfcp → Option Nfcp
unfolding nfcp_reset
open_session granted now id n =
    (if n.session_id == 0 then some n else nfcp_reset granted now n) >>= λ n1.
    some (record n1 { session_id = id })

-- The session id is read through the storage, `none` where that is NULL.
unfoldable pub answer_session : Bool → ℕ → Nfcp → ℕ → ℕ → Option (Status × Nfcp)
unfolding open_session nfcp_refresh_session
answer_session granted now n seq_nr id =
    let send_version = not (n.session_id == id) in
    let answered = (if send_version then open_session granted now id n else some n) >>= λ n1.
    send granted (session_reply send_version seq_nr) n1 >>= λ n2.
    some (success, nfcp_refresh_session now n2) in
    if n.mgmt_storage then answered else none

-- `nfcp_cls_op_session_id`. The clock that `nfcp_reset` reads goes into the same field that the
-- last line sets, so that one `now`, that of the last line, serves for both.
unfoldable pub nfcp_cls_op_session_id :
    Bool → ℕ → Nfcp → Bool → ℕ → Bytes → ℕ → Option (Status × Nfcp)
unfolding answer_session
nfcp_cls_op_session_id granted now n is_call seq_nr payload length =
    if not (length == 4) || not is_call
    then some (error, n)
    else pack_to_u32 payload 0 >>= λ id.
        if id == 0 then some (error, n) else answer_session granted now n seq_nr id

-- `nfcp_cls_op_log_message`, `nfcp_cls_op_invalid_class` and `nfcp_cls_op_invalid_operation`.
unfoldable pub accept : Bool → ℕ → Nfcp → Bool → ℕ → Bytes → ℕ → Option (Status × Nfcp)
accept granted now n is_call seq_nr payload length = some (success, n)

-- `while (*s != '\0' && len < limit) tx_buffer[len++] = *(s++);`
unfoldable pub copy_text : ℕ → Bytes → ℕ → Bytes → Option (Bytes × ℕ)
copy_text limit buf len [] = some (buf, len)
copy_text limit buf len (c ∷ cs) =
    let rest = store buf len c >>= λ b. copy_text limit b (len + 1) cs in
    if ltb len limit then rest else some (buf, len)

-- The packet of a log message.
unfoldable pub log_packet : Bytes → Bytes → Bytes → Option (Bytes × ℕ)
log_packet task_name message buf = do
  a ← fill buf 0 (nfcp_cls_mgmt * 4 ∷ op_log_message ∷ 0 ∷ [])
  (b, len) ← copy_text (max_packet_length - 1) a 3 task_name
  c ← store b len b'\t'
  copy_text max_packet_length c (len + 1) message

unfoldable pub nfcp_cls_mgmt_log_handler : Bool → Bytes → Bytes → Nfcp → Option Nfcp
unfolding log_packet
nfcp_cls_mgmt_log_handler granted task_name message n =
    if n.session_id == 0 then some n else send granted (log_packet task_name message) n
