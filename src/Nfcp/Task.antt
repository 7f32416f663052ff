-- ===== src/Nfcp/Task.antt =====
-- `nfcp_task`: the header of a packet, the class tables, and one turn of the endless loop.
use nodeflight_fw.Base.{
  ℕ, ◌+◌, ◌-◌, ◌*◌, ◌/◌, Bool, true, false, not, ◌&&◌, ◌||◌, Option, none, some, List, [], ◌∷◌,
  ◌==◌, ltb, leb, if◌then◌else◌, Bytes, u8, u32, bit_and, bit_or, get_elem?, drop, ◌>>=◌, ℤ, pos,
  negsuc,
}
use nodeflight_fw.Nfcp.State.{Nfcp, packet_buffer_size, max_classes, nfcp_reset}
use nodeflight_fw.Nfcp.Packet.{Read, Rx, returns, blocked, fault, nfcp_rx_packet}
use nodeflight_fw.Nfcp.Mgmt.{
  Status, fill, send, nfcp_cls_mgmt, op_invalid_class, op_invalid_operation, nfcp_cls_op_session_id,
  accept,
}

-- `nfcp_operation_handler_t`; the first two arguments stand for the mutex and the clock.
abbrev pub Handler : Type 0
Handler = Bool → ℕ → Nfcp → Bool → ℕ → Bytes → ℕ → Option (Status × Nfcp)

-- `nfcp_operation_t`; `none` is a NULL handler.
pub record Operation : Type 0 where
  pub handler : Option Handler
  pub handle_call : Bool
  pub handle_info : Bool

-- `num_ops` and `ops` of `nfcp_cls_t`.
abbrev pub Class : Type 0
Class = List Operation

-- `nfcp_cls_mgmt_ops`.
unfoldable pub nfcp_cls_mgmt_ops : Class
nfcp_cls_mgmt_ops =
    record { handler = some nfcp_cls_op_session_id; handle_call = true; handle_info = false }
    ∷ record { handler = some accept; handle_call = false; handle_info = true }
    ∷ record { handler = some accept; handle_call = false; handle_info = true }
    ∷ record { handler = some accept; handle_call = false; handle_info = true }
    ∷ []

-- What the first bytes of a packet say.
pub record Header : Type 0 where
  pub cls : ℕ
  pub operation : ℕ
  pub is_call : Bool
  pub is_resp : Bool
  pub seq_nr : ℕ
  pub size : ℕ

-- `(buf[0] & mask) != 0`
unfoldable pub flag : ℕ → ℕ → Bool
flag byte mask = not (bit_and byte mask == 0)

-- The header of a packet of `len` bytes, if it is long enough for one.
unfoldable pub parse_header : Bytes → ℕ → Option (Option Header)
unfolding flag
parse_header buf len =
    if ltb len 2
    then some none
    else get_elem? buf 0 >>= λ b0.
        if flag b0 0x02 && ltb len 3
        then some none
        else get_elem? buf 1 >>= λ b1. (if flag b0 0x02 then get_elem? buf 2 else some 0) >>= λ seq.
            some (
              some (record {
                cls = bit_and b0 0xfc / 4;
                operation = b1;
                is_call = flag b0 0x02;
                is_resp = flag b0 0x01;
                seq_nr = seq;
                size = if flag b0 0x02 then 3 else 2;
              }))

-- The handler of an operation that takes this kind of packet; with none, the operation code that
-- tells the sender what is unknown.
unfoldable pub pick_operation : Header → Option Operation → Option Handler × ℕ
pick_operation h none = (none, op_invalid_operation)
pick_operation h (some op) =
    if h.is_call && not op.handle_call || not h.is_call && not op.handle_info
    then (none, op_invalid_operation)
    else (op.handler, op_invalid_operation)

unfoldable pub pick_class : Header → Option Class → Option Handler × ℕ
unfolding pick_operation
pick_class h none = (none, op_invalid_class)
pick_class h (some ops) = pick_operation h (get_elem? ops h.operation)

-- The look-up of a header in the tables, `nfcp_class`.
unfoldable pub find_handler : (ℕ → Option Class) → Header → Option Handler × ℕ
unfolding pick_class
find_handler classes h = pick_class h (if leb max_classes h.cls then none else classes h.cls)

-- The bytes of the answer that something is unknown.
unfoldable pub unknown_packet : ℕ → Header → Bytes
unknown_packet code h =
    nfcp_cls_mgmt * 4
    ∷ code
    ∷ u8 (bit_or (bit_or (h.cls * 4) (if h.is_call then 2 else 0)) (if h.is_resp then 1 else 0))
    ∷ h.operation
    ∷ h.seq_nr
    ∷ []

unfoldable pub reply_unknown : Bool → ℕ → Header → Nfcp → Option Nfcp
reply_unknown granted code h n =
    send granted (λ buf. fill buf 0 (unknown_packet code h) >>= λ b. some (b, 5)) n

-- The call of a handler, or the answer that there is none. The handler's status is not looked at.
unfoldable pub run_handler : Bool → ℕ → Nfcp → ℕ → Header → Option Handler × ℕ → Option Nfcp
unfolding reply_unknown
run_handler granted now n len h (none, code) = reply_unknown granted code h n
run_handler granted now n len h (some run, code) =
    run granted now n h.is_call h.seq_nr (drop h.size n.rx_buffer) (len - h.size)
    >>= λ (status, n'). some n'

unfoldable pub dispatch_header :
    (ℕ → Option Class) → Bool → ℕ → Nfcp → ℕ → Option Header → Option Nfcp
unfolding find_handler run_handler
dispatch_header classes granted now n len none = some n
dispatch_header classes granted now n len (some h) =
    run_handler granted now n len h (find_handler classes h)

-- What is done with a packet of `len` bytes in `rx_buffer`.
unfoldable pub dispatch : (ℕ → Option Class) → Bool → ℕ → Nfcp → ℕ → Option Nfcp
unfolding parse_header dispatch_header
dispatch classes granted now n len =
    parse_header n.rx_buffer len >>= dispatch_header classes granted now n len

-- `(int32_t) (now - session_end_time) >= 0`
unfoldable pub timed_out : ℕ → ℕ → Bool
timed_out session_end_time now = ltb (u32 (now + 4294967296 - session_end_time)) 2147483648

-- The turn ends in a state, or waits for the line, or leaves a buffer.
pub data Turn : Type 0 where
  next : Nfcp → Turn
  waits broken : Turn

unfoldable pub end_turn : Option Nfcp → Turn
end_turn none = broken
end_turn (some n) = next n

-- The part of the turn behind `nfcp_rx_packet`, with what it returned.
unfoldable pub handle_packet : (ℕ → Option Class) → Bool → ℕ → Nfcp → ℤ → Turn
unfolding dispatch end_turn
handle_packet classes granted now n (negsuc _) = next n
handle_packet classes granted now n (pos len) = end_turn (dispatch classes granted now n len)

-- `none` is a reset that stored through NULL.
unfoldable pub handle_kept : (ℕ → Option Class) → Bool → ℕ → Option Nfcp → ℤ → Turn
unfolding handle_packet
handle_kept classes granted now none len = broken
handle_kept classes granted now (some n) len = handle_packet classes granted now n len

unfoldable pub after_receive : (ℕ → Option Class) → Bool → ℕ → Nfcp → Rx → Turn
unfolding handle_kept timed_out nfcp_reset
after_receive classes granted now n blocked = waits
after_receive classes granted now n fault = broken
after_receive classes granted now n (returns len buf) =
    let received = record n { rx_buffer = buf } in
    handle_kept classes granted now
      (if timed_out n.session_end_time now then nfcp_reset granted now received else some received)
      len

-- One turn of the loop, with the reads of the line and the clock after them.
unfoldable pub turn : (ℕ → Option Class) → Bool → List Read → ℕ → Nfcp → Turn
unfolding after_receive
turn classes granted reads now n =
    after_receive classes granted now n
      (nfcp_rx_packet reads n.rx_buffer packet_buffer_size n.session_end_time)
