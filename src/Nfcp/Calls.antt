-- ===== src/Nfcp/Calls.antt =====
-- What the handlers of nfcp_cls_mgmt.c do with a call, in every branch.
use nodeflight_fw.Base.{
  ℕ, ◌+◌, ◌*◌, ◌<◌, Bool, true, false, not, ◌||◌, some, [], ◌∷◌, ◌++◌, ◌==◌, if◌then◌else◌, ◌≡◌,
  ◌≢◌, refl, ap, ◌∙◌, ◌⊎◌, inl, inr, Bytes, length, arith, append_assoc, Bool-cases,
}
use nodeflight_fw.Pack.{pack_to_u32}
use nodeflight_fw.Pack.RoundTrip.{pack_to_u32-value}
use nodeflight_fw.Nfcp.State.{Nfcp, packet_buffer_size, nfcp_refresh_session, session_timeout_ticks}
use nodeflight_fw.Nfcp.Sealed.{frame_of}
use nodeflight_fw.Nfcp.Mgmt.{success, error, session_reply, nfcp_cls_op_session_id}
use nodeflight_fw.Nfcp.Stored.{opened_of, answer_session-stored}
use nodeflight_fw.Nfcp.Session.{
  session_packet, session_reply_lem, reply_small, send_packet, Opened, Opening, opened_of-Opening,
}

abbrev pub big_endian : ℕ → ℕ → ℕ → ℕ → ℕ
big_endian b0 b1 b2 b3 = b0 * 16777216 + b1 * 65536 + b2 * 256 + b3

-- With the mutex, a transmit buffer of its size and a storage that is not NULL, a session call of four bytes that are an id
-- other than 0 succeeds. It leaves that id as the session and the
-- session's end 5000 ticks away, on the 32-bit clock; an open session of another id is reset first,
-- with an abort sequence on the line; the answer holds the version where the id is new, and is
-- empty where it was open; the mutex is held as often as before.
pub session_call :
    (n : Nfcp) (now seq_nr b0 b1 b2 b3 : ℕ) (rest : Bytes)
    → b0 < 256
    → b1 < 256
    → b2 < 256
    → b3 < 256
    → big_endian b0 b1 b2 b3 ≢ 0
    → length n.tx_buffer ≡ packet_buffer_size
    → n.mgmt_storage ≡ true
    → (n' : Nfcp) × (nfcp_cls_op_session_id true now n true seq_nr (b0 ∷ b1 ∷ b2 ∷ b3 ∷ rest) 4
        ≡ some (success, n'))
      × Opened n n' (big_endian b0 b1 b2 b3) now seq_nr
unfolding nfcp_cls_op_session_id nfcp_refresh_session session_timeout_ticks
session_call n now seq_nr b0 b1 b2 b3 rest h0 h1 h2 h3 ne size stored =
    let id : ℕ = big_endian b0 b1 b2 b3 in
    let new : Bool = not (n.session_id == id) in
    let n1 : Nfcp = if new then opened_of true now id n else n in
    let o : Opening n n1 id = opened_of-Opening n id now in
    let room : length n1.tx_buffer ≡ packet_buffer_size = rw o.tx_buffer size in
    let (n2, sent, s) =
      send_packet (session_reply new seq_nr) n1 (session_packet new seq_nr) room
        (reply_small new seq_nr) (session_reply_lem new seq_nr n1.tx_buffer room) in
    let some_id : (id == 0) ≡ false = ground (arith, ne) in
    (
      nfcp_refresh_session now n2,
      rw (pack_to_u32-value [] rest b0 b1 b2 b3 h0 h1 h2 h3, some_id)
          (answer_session-stored true now n seq_nr id stored ∙ rw sent refl),
      record {
        session_id = s.session_id ∙ o.session_id;
        mgmt_storage = s.mgmt_storage ∙ o.mgmt_storage;
        session_end_time = refl;
        wire =
            s.wire
            ∙ ap (λ t. t ++ frame_of (session_packet new seq_nr) ∷ []) o.wire
            ∙ append_assoc n.wire _ _;
        tx_depth = s.tx_depth ∙ o.tx_depth;
        rx_buffer = s.rx_buffer ∙ o.rx_buffer;
        room = s.room ∙ ap length o.tx_buffer;
      },
    )

-- Any other session message is an error that changes nothing: one that is no call, one that is not
-- 4 bytes long, and one with the id 0.
session_call_refused :
    (granted : Bool) (n : Nfcp) (now seq_nr : ℕ) (is_call : Bool) (payload : Bytes) (len : ℕ)
    → ((is_call ≡ false) ⊎ (len ≢ 4)) ⊎ (pack_to_u32 payload 0 ≡ some 0)
    → nfcp_cls_op_session_id granted now n is_call seq_nr payload len ≡ some (error, n)
unfolding nfcp_cls_op_session_id
session_call_refused granted n now seq_nr is_call payload len h =
    elim (Bool-cases (not (len == 4) || not is_call)) [
      | inl g ↦ rw g
      | inr g ↦ rw g (elim h [
        | inl (inl e) ↦ absurd (ground arith)
        | inl (inr e) ↦ absurd (ground (arith, e))
        | inr e ↦ rw e
      ])
    ]
