-- ===== src/Nfcp/Exchange.antt =====
-- From one port's buffer over the line into the other's.
use nodeflight_fw.Base.{
  ℕ, ◌+◌, ◌≤◌, some, List, [], ◌∷◌, ◌++◌, ◌≡◌, sym, ap, ◌∙◌, Bytes, length, pos, arith, true,
  append_assoc, length-append,
}
use nodeflight_fw.Hdlc.RoundTrip.{encode-IsClean}
use nodeflight_fw.Hdlc.Spec.{encode}
use nodeflight_fw.Nfcp.State.{Nfcp, packet_buffer_size}
use nodeflight_fw.Nfcp.Packet.{nfcp_tx_packet, Read, returns, nfcp_rx_packet}
use nodeflight_fw.Nfcp.Sealed.{sealed, frame_of}
use nodeflight_fw.Nfcp.Link.{check_frame-frame_of, frame_of_fits}
use nodeflight_fw.Nfcp.Chunks.{arrived, AllInTime, rx_loop-arrived}
use nodeflight_fw.Nfcp.Transmit.{nfcp_tx_packet-Sent}

-- A frame that arrives in time, in any pieces, is received as its packet.
pub nfcp_rx_packet-frame_of :
    (payload buf : Bytes) (reads : List Read) (tick_end : ℕ)
    → length (frame_of payload) ≤ length buf
    → arrived reads ≡ frame_of payload
    → AllInTime tick_end reads
    → (rest : Bytes) × (nfcp_rx_packet reads buf (length buf) tick_end
        ≡ returns (pos (length payload)) (payload ++ rest))
unfolding nfcp_rx_packet
nfcp_rx_packet-frame_of payload buf reads tick_end fits e t =
    let (rest, loop) =
      rx_loop-arrived (encode (sealed payload)) (encode-IsClean (sealed payload)) reads [] buf
        (length buf) tick_end t e fits (omega arith) in
    let (rest', check) = check_frame-frame_of payload rest in
    (_, loop ∙ check ∙ ap (returns (pos (length payload))) (append_assoc payload _ rest'))

-- With the mutex and with buffers of their size, a packet of at most 127 bytes at the start of the
-- transmit buffer is sent as one frame, and whoever gets the
-- bytes of that frame in time, cut into reads in any way, receives the packet: its length, and its
-- bytes at the start of the receive buffer. Neither side leaves its buffer.
pub rx-tx :
    (n : Nfcp) (payload rest : Bytes)
    → n.tx_buffer ≡ payload ++ rest
    → length n.tx_buffer ≡ packet_buffer_size
    → length payload ≤ 127
    → (n' : Nfcp) × (frame : Bytes) × (nfcp_tx_packet true n (length payload) ≡ some (pos 0, n'))
      × (n'.wire ≡ n.wire ++ frame ∷ [])
      × ((buf : Bytes) (reads : List Read) (tick_end : ℕ)
          → length buf ≡ packet_buffer_size
          → arrived reads ≡ frame
          → AllInTime tick_end reads
          → (rest' : Bytes) × (nfcp_rx_packet reads buf packet_buffer_size tick_end
              ≡ returns (pos (length payload)) (payload ++ rest')))
rx-tx n payload rest e size small =
    let total : length payload + length rest ≡ packet_buffer_size =
      sym (length-append payload rest) ∙ ap length (sym e) ∙ size in
    let fits : length (frame_of payload) ≤ packet_buffer_size =
      omega (arith, frame_of_fits payload) in
    let (n', sent, s) = nfcp_tx_packet-Sent n payload rest e (omega arith) (omega arith) in
    (
      n',
      frame_of payload,
      sent,
      s.wire,
      λ buf reads tick_end b a t.
          rw b at (nfcp_rx_packet-frame_of payload buf reads tick_end (omega arith) a t),
    )
