-- ===== src/Nfcp/Transmit.antt =====
-- `nfcp_tx_packet`, and the sending of a packet under the mutex.
use nodeflight_fw.Base.{
  ℕ, ◌+◌, ◌-◌, ◌≤◌, true, false, Option, some, [], ◌∷◌, ◌++◌, ◌≡◌, refl, Bytes, length, pos, arith,
  length-append, take-append,
}
use nodeflight_fw.Nfcp.State.{Nfcp, guarded, nfcp_tx_take, nfcp_tx_give}
use nodeflight_fw.Nfcp.Packet.{transmit, nfcp_tx_packet}
use nodeflight_fw.Nfcp.Sealed.{frame_of, seal-frame_of}
use nodeflight_fw.Nfcp.Mgmt.{send}

-- `n'` is `n` with the frame of `payload` sent, and the buffer overwritten by it.
pub record Sent (n n' : Nfcp) (payload : Bytes) : Type 0 where
  pub wire : n'.wire ≡ n.wire ++ frame_of payload ∷ []
  pub tx_depth : n'.tx_depth ≡ n.tx_depth
  pub session_id : n'.session_id ≡ n.session_id
  pub mgmt_storage : n'.mgmt_storage ≡ n.mgmt_storage
  pub session_end_time : n'.session_end_time ≡ n.session_end_time
  pub rx_buffer : n'.rx_buffer ≡ n.rx_buffer
  pub room : length n'.tx_buffer ≡ length n.tx_buffer

nfcp_tx_packet-cons :
    (n : Nfcp) (payload tail : Bytes) (a b : ℕ)
    → n.tx_buffer ≡ payload ++ a ∷ b ∷ tail
    → length (frame_of payload) ≤ length payload + 2 + length tail
    → (n' : Nfcp) × (nfcp_tx_packet true n (length payload) ≡ some (pos 0, n')) × Sent n n' payload
unfolding nfcp_tx_packet transmit guarded nfcp_tx_take nfcp_tx_give
nfcp_tx_packet-cons n payload tail a b e fits =
    let (rest, sealed, size) = seal-frame_of payload tail a b fits in
    let depth : n.tx_depth + 1 - 1 ≡ n.tx_depth = omega arith in
    (
      record n {
        tx_depth = n.tx_depth;
        tx_buffer = frame_of payload ++ rest;
        wire = n.wire ++ frame_of payload ∷ [];
      },
      rw (e, sealed, take-append (frame_of payload) rest _ refl, depth),
      record {
        wire = refl;
        tx_depth = refl;
        session_id = refl;
        mgmt_storage = refl;
        session_end_time = refl;
        rx_buffer = refl;
        room = rw e (
            omega (
              arith,
              size,
              length-append (frame_of payload) rest,
              length-append payload (a ∷ b ∷ tail),
            ));
      },
    )

-- With the packet at the start of the buffer and room for its frame, `nfcp_tx_packet` returns 0
-- and puts exactly the frame on the line.
pub nfcp_tx_packet-Sent :
    (n : Nfcp) (payload rest : Bytes)
    → n.tx_buffer ≡ payload ++ rest
    → 2 ≤ length rest
    → length (frame_of payload) ≤ length payload + length rest
    → (n' : Nfcp) × (nfcp_tx_packet true n (length payload) ≡ some (pos 0, n')) × Sent n n' payload
nfcp_tx_packet-Sent n payload [] e two fits = absurd (omega arith)
nfcp_tx_packet-Sent n payload (a ∷ []) e two fits = absurd (omega arith)
nfcp_tx_packet-Sent n payload (a ∷ b ∷ tail) e two fits =
    nfcp_tx_packet-cons n payload tail a b e (omega arith)

-- A packet put into the buffer under the mutex is sent, and the mutex is given back.
pub send-Sent :
    (body : Bytes → Option (Bytes × ℕ)) (n : Nfcp) (payload rest : Bytes)
    → body n.tx_buffer ≡ some (payload ++ rest, length payload)
    → length payload + length rest ≡ length n.tx_buffer
    → 2 ≤ length rest
    → length (frame_of payload) ≤ length n.tx_buffer
    → (n' : Nfcp) × (send true body n ≡ some n') × Sent n n' payload
unfolding send nfcp_tx_take nfcp_tx_give
send-Sent body n payload rest e size two fits =
    let filled = record n { tx_depth = n.tx_depth + 1; tx_buffer = payload ++ rest } in
    let (n', sent, s) = nfcp_tx_packet-Sent filled payload rest refl two (omega arith) in
    (
      record n' { tx_depth = n'.tx_depth - 1 },
      rw (e, sent),
      record {
        wire = s.wire;
        tx_depth = omega (arith, s.tx_depth);
        session_id = s.session_id;
        mgmt_storage = s.mgmt_storage;
        session_end_time = s.session_end_time;
        rx_buffer = s.rx_buffer;
        room = omega (arith, s.room, size, length-append payload rest);
      },
    )

-- Without the mutex nothing is sent.
pub send_refused : (body : Bytes → Option (Bytes × ℕ)) (n : Nfcp) → send false body n ≡ some n
unfolding send
send_refused body n = refl
