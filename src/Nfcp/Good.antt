-- ===== src/Nfcp/Good.antt =====
-- The operation handlers, and what `nfcp_task` calls around them, keep the port ready.
use nodeflight_fw.Base.{
  subst, ℕ, zero, suc, ◌≤◌, Bool, true, false, not, ◌||◌, Option, some, ◌++◌, ◌==◌, if◌then◌else◌,
  ◌≡◌, refl, ap, ◌∙◌, inl, inr, Bytes, length, drop, get_elem?, arith, Bool-cases,
}
use nodeflight_fw.Pack.RoundTrip.{pack_to_u32_in_range}
use nodeflight_fw.Nfcp.State.{
  Nfcp, packet_buffer_size, nfcp_tx_abort, guarded, nfcp_tx_take, nfcp_tx_give,
  nfcp_refresh_session,
}
use nodeflight_fw.Nfcp.Mgmt.{
  Status, success, error, send, session_reply, nfcp_cls_op_session_id, accept,
}
use nodeflight_fw.Nfcp.Transmit.{Sent, send_refused}
use nodeflight_fw.Nfcp.Stored.{reset_of, opened_of, answer_session-stored}
use nodeflight_fw.Nfcp.Session.{session_packet, session_reply_lem, reply_small, send_packet}
use nodeflight_fw.Nfcp.Task.{Handler, Operation, Class, nfcp_cls_mgmt_ops}

-- Both buffers have their size, the mutex is held `depth` times, and the storage is not NULL.
pub record IsReady (depth : ℕ) (n : Nfcp) : Type 0 where
  pub rx_size : length n.rx_buffer ≡ packet_buffer_size
  pub tx_size : length n.tx_buffer ≡ packet_buffer_size
  pub held : n.tx_depth ≡ depth
  pub stored : n.mgmt_storage ≡ true

Sent-IsReady :
    {n n' : Nfcp} {payload : Bytes} {depth : ℕ}
    → Sent n n' payload
    → IsReady depth n
    → IsReady depth n'
Sent-IsReady s r = record {
  rx_size = ap length s.rx_buffer ∙ r.rx_size;
  tx_size = s.room ∙ r.tx_size;
  held = s.tx_depth ∙ r.held;
  stored = s.mgmt_storage ∙ r.stored;
}

pub reset_of-IsReady :
    (granted : Bool) (now depth : ℕ) (n : Nfcp)
    → IsReady depth n
    → IsReady depth (reset_of granted now n)
unfolding reset_of nfcp_tx_abort guarded nfcp_tx_take nfcp_tx_give
reset_of-IsReady true now depth n r = record {
  rx_size = r.rx_size;
  tx_size = r.tx_size;
  held = omega (arith, r.held);
  stored = r.stored;
}
reset_of-IsReady false now depth n r = record {
  rx_size = r.rx_size;
  tx_size = r.tx_size;
  held = r.held;
  stored = r.stored;
}

-- Sending a short packet from the start of the buffer, with or without the mutex.
pub send-IsReady :
    (granted : Bool) (body : Bytes → Option (Bytes × ℕ)) (packet : Bytes) (depth : ℕ) (n : Nfcp)
    → length packet ≤ 127
    → body n.tx_buffer ≡ some (packet ++ drop (length packet) n.tx_buffer, length packet)
    → IsReady depth n
    → (n' : Nfcp) × (send granted body n ≡ some n') × IsReady depth n'
send-IsReady true body packet depth n small e r =
    let (n', sent, s) = send_packet body n packet r.tx_size small e in (n', sent, Sent-IsReady s r)
send-IsReady false body packet depth n small e r = (n, send_refused body n, r)

-- A handler that returns, with a ready port, for a payload that can be read.
abbrev pub IsGood : Handler → Type 0
IsGood run =
    (granted : Bool) (now depth : ℕ) (n : Nfcp) (is_call : Bool) (seq_nr : ℕ) (payload : Bytes)
    (len : ℕ)
    → len ≤ length payload
    → IsReady depth n
    → (s : Status) × (n' : Nfcp) × (run granted now n is_call seq_nr payload len ≡ some (s, n'))
      × IsReady depth n'

pub accept-IsGood : IsGood accept
unfolding accept
accept-IsGood granted now depth n is_call seq_nr payload len fits r = (success, n, refl, r)

opened_of-IsReady :
    (t granted : Bool) (now id depth : ℕ) (n : Nfcp)
    → IsReady depth n
    → IsReady depth (if t then opened_of granted now id n else n)
unfolding opened_of
opened_of-IsReady false granted now id depth n r = r
opened_of-IsReady true granted now id depth n r = elim (Bool-cases (n.session_id == 0)) [
  | inl z ↦
      rw z (record { rx_size = r.rx_size; tx_size = r.tx_size; held = r.held; stored = r.stored })
  | inr z ↦
      let q = reset_of-IsReady granted now depth n r in
      rw z (record { rx_size = q.rx_size; tx_size = q.tx_size; held = q.held; stored = q.stored })
]

-- The session call is good, whatever the payload.
pub session-IsGood : IsGood nfcp_cls_op_session_id
unfolding nfcp_cls_op_session_id nfcp_refresh_session
session-IsGood granted now depth n is_call seq_nr payload len fits r =
    elim (Bool-cases (not (len == 4) || not is_call)) [
      | inl g ↦ (error, n, rw g, r)
      | inr g ↦
          let (id, packed) = pack_to_u32_in_range payload (ground arith) in
          elim (Bool-cases (id == 0)) [
            | inl z ↦ (error, n, rw (g, packed, z), r)
            | inr z ↦
                let new : Bool = not (n.session_id == id) in
                let q = opened_of-IsReady new granted now id depth n r in
                let (n', sent, r') =
                  send-IsReady granted (session_reply new seq_nr) (session_packet new seq_nr) depth
                    _ (reply_small new seq_nr) (session_reply_lem new seq_nr _ q.tx_size) q in
                (
                  success,
                  nfcp_refresh_session now n',
                  rw (g, packed, z)
                      (answer_session-stored granted now n seq_nr id r.stored ∙ rw sent refl),
                  record {
                    rx_size = r'.rx_size;
                    tx_size = r'.tx_size;
                    held = r'.held;
                    stored = r'.stored;
                  },
                )
          ]
    ]

-- Every handler of the tables is good.
abbrev pub AllGood : (ℕ → Option Class) → Type 0
AllGood classes =
    (c i : ℕ) (ops : Class) (op : Operation) (run : Handler)
    → classes c ≡ some ops
    → get_elem? ops i ≡ some op
    → op.handler ≡ some run
    → IsGood run

-- The table of the management class is good, and a port may have no other.
pub nfcp_cls_mgmt_ops-IsGood :
    (i : ℕ) (op : Operation) (run : Handler)
    → get_elem? nfcp_cls_mgmt_ops i ≡ some op
    → op.handler ≡ some run
    → IsGood run
unfolding nfcp_cls_mgmt_ops
nfcp_cls_mgmt_ops-IsGood zero op run e h =
    let same : nfcp_cls_op_session_id ≡ run = cc in subst IsGood same session-IsGood
nfcp_cls_mgmt_ops-IsGood (suc zero) op run e h =
    let same : accept ≡ run = cc in subst IsGood same accept-IsGood
nfcp_cls_mgmt_ops-IsGood (suc (suc zero)) op run e h =
    let same : accept ≡ run = cc in subst IsGood same accept-IsGood
nfcp_cls_mgmt_ops-IsGood (suc (suc (suc zero))) op run e h =
    let same : accept ≡ run = cc in subst IsGood same accept-IsGood
nfcp_cls_mgmt_ops-IsGood (suc (suc (suc (suc i)))) op run e h = absurd (ground arith)
