-- ===== src/Nfcp/Session.antt =====
-- The session call of nfcp_cls_mgmt.c, the log handler, and the answers to unknown packets.
use nodeflight_fw.Base.{
  ℕ, ◌+◌, ◌≤◌, Bool, true, false, not, ◌&&◌, Option, some, List, [], ◌∷◌, ◌++◌, ◌==◌, if◌then◌else◌,
  ◌≡◌, refl, sym, ap, ◌∙◌, inl, inr, Bytes, u32, length, drop, store-append, arith, append_assoc,
  append-nil, length-append, length-drop, Bool-cases, ==→eq, drop-drop,
}
use nodeflight_fw.Nfcp.State.{
  Nfcp, packet_buffer_size, abort_sequence, nfcp_tx_abort, guarded, nfcp_tx_take, nfcp_tx_give,
}
use nodeflight_fw.Nfcp.Sealed.{frame_of}
use nodeflight_fw.Nfcp.Link.{frame_of_fits}
use nodeflight_fw.Nfcp.Mgmt.{fill, send, version_tag, session_reply}
use nodeflight_fw.Nfcp.Stored.{reset_of, opened_of}
use nodeflight_fw.Nfcp.Transmit.{Sent, send-Sent}

-- Filling a buffer that has room behind what is there.
pub fill-append :
    (xs ys cs : Bytes) (len : ℕ)
    → len ≡ length xs
    → length cs ≤ length ys
    → fill (xs ++ ys) len cs ≡ some ((xs ++ cs) ++ drop (length cs) ys)
unfolding fill
fill-append xs ys [] len e h = rw (append-nil xs)
fill-append xs [] (c ∷ cs) len e h = absurd (omega arith)
fill-append xs (y ∷ ys) (c ∷ cs) len e h = rw (store-append xs ys y c len e) (
    rw (sym (append_assoc xs (c ∷ []) ys)) (
      fill-append (xs ++ c ∷ []) ys cs (len + 1) (omega (arith, length-append xs (c ∷ [])))
        (omega arith)
      ∙ ap (λ t. some (t ++ drop (length cs) ys)) (append_assoc xs (c ∷ []) cs)))

pub fill-nil :
    (buf cs : Bytes) → length cs ≤ length buf → fill buf 0 cs ≡ some (cs ++ drop (length cs) buf)
fill-nil buf cs h = fill-append [] buf cs 0 refl h

-- The packet that answers a session call.
abbrev pub session_packet : Bool → ℕ → Bytes
session_packet send_version seq_nr = 3 ∷ 0 ∷ seq_nr ∷ (if send_version then version_tag else [])

pub session_reply_lem :
    (send_version : Bool) (seq_nr : ℕ) (buf : Bytes)
    → length buf ≡ packet_buffer_size
    → session_reply send_version seq_nr buf
      ≡ some (
        session_packet send_version seq_nr
            ++ drop (length (session_packet send_version seq_nr)) buf,
        length (session_packet send_version seq_nr),
      )
unfolding session_reply
session_reply_lem true seq_nr buf size = rw (
  fill-nil buf (3 ∷ 0 ∷ seq_nr ∷ []) (omega arith),
  fill-append (3 ∷ 0 ∷ seq_nr ∷ []) (drop 3 buf) version_tag 3 refl
      (omega (arith, length-drop 3 buf)),
  drop-drop 15 3 18 buf refl,
)
session_reply_lem false seq_nr buf size = rw (
  fill-nil buf (3 ∷ 0 ∷ seq_nr ∷ []) (omega arith),
  fill-append (3 ∷ 0 ∷ seq_nr ∷ []) (drop 3 buf) [] 3 refl (omega arith),
)

pub reply_small :
    (send_version : Bool) (seq_nr : ℕ) → length (session_packet send_version seq_nr) ≤ 127
reply_small true seq_nr = omega arith
reply_small false seq_nr = omega arith

-- Sending what stands at the start of the buffer, if a frame of its length fits in any case.
pub send_packet :
    (body : Bytes → Option (Bytes × ℕ)) (n : Nfcp) (packet : Bytes)
    → length n.tx_buffer ≡ packet_buffer_size
    → length packet ≤ 127
    → body n.tx_buffer ≡ some (packet ++ drop (length packet) n.tx_buffer, length packet)
    → (n' : Nfcp) × (send true body n ≡ some n') × Sent n n' packet
send_packet body n packet size small e =
    let d = length-drop (length packet) n.tx_buffer in
    send-Sent body n packet (drop (length packet) n.tx_buffer) e (omega (arith, d))
      (omega (arith, d)) (omega (arith, frame_of_fits packet))

-- What the frames of a session call are: an abort where it replaces an open session, and the answer.
abbrev pub session_frames : Nfcp → ℕ → ℕ → List Bytes
session_frames n id seq_nr =
    let new = not (n.session_id == id) in
    (if new && not (n.session_id == 0) then abort_sequence ∷ [] else [])
    ++ frame_of (session_packet new seq_nr) ∷ []

-- The state after a session call.
pub record Opened (n n' : Nfcp) (id now seq_nr : ℕ) : Type 0 where
  pub session_id : n'.session_id ≡ id
  pub mgmt_storage : n'.mgmt_storage ≡ n.mgmt_storage
  pub session_end_time : n'.session_end_time ≡ u32 (now + 5000)
  pub wire : n'.wire ≡ n.wire ++ session_frames n id seq_nr
  pub tx_depth : n'.tx_depth ≡ n.tx_depth
  pub rx_buffer : n'.rx_buffer ≡ n.rx_buffer
  pub room : length n'.tx_buffer ≡ length n.tx_buffer

pub record Opening (n n1 : Nfcp) (id : ℕ) : Type 0 where
  pub session_id : n1.session_id ≡ id
  pub mgmt_storage : n1.mgmt_storage ≡ n.mgmt_storage
  pub wire :
      n1.wire
      ≡ n.wire
        ++ (if not (n.session_id == id) && not (n.session_id == 0) then abort_sequence ∷ [] else [])
  pub tx_depth : n1.tx_depth ≡ n.tx_depth
  pub rx_buffer : n1.rx_buffer ≡ n.rx_buffer
  pub tx_buffer : n1.tx_buffer ≡ n.tx_buffer

pub opened_of-Opening :
    (n : Nfcp) (id now : ℕ)
    → let n1 = if not (n.session_id == id) then opened_of true now id n else n in Opening n n1 id
unfolding opened_of reset_of nfcp_tx_abort guarded nfcp_tx_take nfcp_tx_give
opened_of-Opening n id now = elim (Bool-cases (n.session_id == id)) [
  | inl e ↦ rw e (record {
    session_id = ==→eq n.session_id id e;
    mgmt_storage = refl;
    wire = rw e (sym (append-nil n.wire));
    tx_depth = refl;
    rx_buffer = refl;
    tx_buffer = refl;
  })
  | inr e ↦ rw e (elim (Bool-cases (n.session_id == 0)) [
    | inl z ↦ rw z (record {
      session_id = refl;
      mgmt_storage = refl;
      wire = rw (e, z) (sym (append-nil n.wire));
      tx_depth = refl;
      rx_buffer = refl;
      tx_buffer = refl;
    })
    | inr z ↦ rw z (record {
      session_id = refl;
      mgmt_storage = refl;
      wire = rw (e, z);
      tx_depth = omega arith;
      rx_buffer = refl;
      tx_buffer = refl;
    })
  ])
]
