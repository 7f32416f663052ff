-- ===== src/Nfcp/Tests.antt =====
-- The theorems on the control port at concrete ports, packets and reads.
use nodeflight_fw.Base.{
  ℕ, true, some, List, [], ◌∷◌, ◌++◌, ◌≡◌, refl, Bytes, length, length-replicate, replicate, pos,
  arith,
}
use nodeflight_fw.Hdlc.Spec.{decode}
use nodeflight_fw.Hdlc.RoundTrip.{strip}
use nodeflight_fw.Nfcp.State.{Nfcp, packet_buffer_size}
use nodeflight_fw.Nfcp.Packet.{Read, returns, check_frame, nfcp_tx_packet, nfcp_rx_packet}
use nodeflight_fw.Nfcp.Mgmt.{success, nfcp_cls_op_session_id}
use nodeflight_fw.Nfcp.Link.{Verdict, check_frame_lem}
use nodeflight_fw.Nfcp.Chunks.{arrived, AllInTime}
use nodeflight_fw.Nfcp.Exchange.{rx-tx}
use nodeflight_fw.Nfcp.Safe.{IsSafe, nfcp_rx_packet-IsSafe}
use nodeflight_fw.Nfcp.Session.{Opened}
use nodeflight_fw.Nfcp.Calls.{big_endian, session_call}

abbrev payload : Bytes
payload = 0 ∷ 0x7e ∷ []

abbrev behind : Bytes
behind = replicate 257 0

-- A port with an open session and a packet in its transmit buffer.
abbrev port : Nfcp
port = record {
  session_end_time = 5000;
  tx_depth = 0;
  rx_buffer = replicate packet_buffer_size 0;
  tx_buffer = payload ++ behind;
  session_id = 7;
  mgmt_storage = true;
  wire = [];
}

tx_size : length port.tx_buffer ≡ packet_buffer_size
tx_size = omega (arith, length-replicate {A = ℕ} 257 0)

rx_size : length port.rx_buffer ≡ packet_buffer_size
rx_size = length-replicate {A = ℕ} packet_buffer_size 0

rx-tx_example :
    (n' : Nfcp) × (frame : Bytes) × (nfcp_tx_packet true port (length payload) ≡ some (pos 0, n'))
    × (n'.wire ≡ port.wire ++ frame ∷ [])
    × ((buf : Bytes) (reads : List Read) (tick_end : ℕ)
        → length buf ≡ packet_buffer_size
        → arrived reads ≡ frame
        → AllInTime tick_end reads
        → (rest' : Bytes) × (nfcp_rx_packet reads buf packet_buffer_size tick_end
            ≡ returns (pos (length payload)) (payload ++ rest')))
rx-tx_example = rx-tx port payload behind refl tx_size (omega arith)

check_frame_lem_example :
    Verdict
      (decode (strip (payload ++ 0x7e ∷ [])))
      (check_frame ((payload ++ 0x7e ∷ []) ++ behind) (length (payload ++ 0x7e ∷ [])))
check_frame_lem_example = check_frame_lem (payload ++ 0x7e ∷ []) behind

-- The bytes of a frame in two reads, the second after a turn of the clock.
abbrev reads : List Read
reads =
    record { tick = 4294967295; bytes = 0 ∷ 0x7d ∷ [] }
    ∷ record { tick = 3; bytes = 0x5e ∷ 0x7e ∷ [] }
    ∷ []

nfcp_rx_packet-IsSafe_example :
    IsSafe (length behind) (nfcp_rx_packet reads behind (length behind) 10)
nfcp_rx_packet-IsSafe_example = nfcp_rx_packet-IsSafe reads behind 10

session_call_example :
    (n' : Nfcp) × (nfcp_cls_op_session_id true 100 port true 9 (0 ∷ 0 ∷ 1 ∷ 2 ∷ []) 4
      ≡ some (success, n'))
    × Opened port n' (big_endian 0 0 1 2) 100 9
session_call_example =
    session_call port 100 9 0 0 1 2 [] (omega arith) (omega arith) (omega arith) (omega arith)
      (omega arith) tx_size refl
