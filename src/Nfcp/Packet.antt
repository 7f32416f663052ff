-- ===== src/Nfcp/Packet.antt =====
-- `nfcp_tx_packet` and `nfcp_rx_packet`.
use nodeflight_fw.Base.{
  ℕ, ◌+◌, ◌-◌, ◌/◌, ◌^◌, Bool, false, not, ◌&&◌, ◌||◌, Option, none, some, List, [], ◌∷◌, ◌++◌,
  ◌==◌, ltb, leb, if◌then◌else◌, Bytes, u32, bit_and, get_elem?, length, take, drop, store, ◌>>=◌,
  ℤ, pos, negsuc, minus_one,
}
use nodeflight_fw.Crc.{crc16, crc16_poly_ccitt}
use nodeflight_fw.Hdlc.{frame_boundary, hdlc_frame_stuff, hdlc_frame_unstuff}
use nodeflight_fw.Nfcp.State.{Nfcp, write_bytes, guarded}

-- The packet of `len` bytes in `buf` with its checksum behind it, as a frame: its length and the
-- buffer. `none` is an access out of the buffer.
unfoldable pub seal : Bytes → ℕ → Option (ℤ × Bytes)
seal buf len = do
  crc ← crc16 buf len 0 crc16_poly_ccitt
  a ← store buf len (bit_and (crc / 2 ^ 8) 0xff)
  b ← store a (len + 1) (bit_and crc 0xff)
  hdlc_frame_stuff b (len + 2)

-- `tx_write` of the first bytes of the buffer.
unfoldable pub transmit : Bool → Nfcp → ℤ × Bytes → Option (ℤ × Nfcp)
unfolding guarded
transmit granted n (pos len, buf) =
    some (guarded granted (write_bytes (take len buf)) (record n { tx_buffer = buf }))
transmit granted n (negsuc _, buf) = none

-- Every call passes `nfcp->tx_buffer` for `buf`.
unfoldable pub nfcp_tx_packet : Bool → Nfcp → ℕ → Option (ℤ × Nfcp)
unfolding transmit seal
nfcp_tx_packet granted n len = seal n.tx_buffer len >>= transmit granted n

-- A return of `rx_read`: the clock before the call, and the bytes that it brought.
pub record Read : Type 0 where
  pub tick : ℕ
  pub bytes : Bytes

-- `blocked`: the task still waits for the line. `fault`: an access out of the buffer.
pub data Rx : Type 0 where
  returns : ℤ → Bytes → Rx
  blocked fault : Rx

-- `(int32_t) (tick_end - now) <= 0`.
unfoldable pub expired : ℕ → ℕ → Bool
expired tick_end now =
    let diff = u32 (tick_end + 4294967296 - now) in diff == 0 || leb 2147483648 diff

-- The condition of the read loop.
unfoldable pub wants_more : Bytes → ℕ → ℕ → Bool
wants_more buf size len =
    ltb len size
    && (len == 0
        || not (elim (get_elem? buf (len - 1)) [ none ↦ false | some c ↦ c == frame_boundary ]))

-- `rx_read` puts at most `size - len` bytes at `buf + len`.
unfoldable pub receive : Bytes → ℕ → Bytes → Bytes
receive buf len bytes = take len buf ++ (bytes ++ drop (len + length bytes) buf)

-- An access out of the buffer is a fault.
abbrev pub checked : {A : Type 0} → Option A → (A → Rx) → Rx
checked none k = fault
checked (some a) k = k a

-- What follows the loop: unstuff, and compare the checksum.
unfoldable pub check_crc : Bytes → ℤ → Rx
check_crc buf (negsuc _) = returns minus_one buf
check_crc buf (pos len) =
    if ltb len 2
    then returns minus_one buf
    else checked (crc16 buf (len - 2) 0 crc16_poly_ccitt) (λ crc.
      checked (get_elem? buf (len - 2)) (λ hi. checked (get_elem? buf (len - 1)) (λ lo.
        if hi == bit_and (crc / 2 ^ 8) 0xff && lo == bit_and crc 0xff
        then returns (pos (len - 2)) buf
        else returns minus_one buf)))

unfoldable pub check_frame : Bytes → ℕ → Rx
unfolding check_crc
check_frame buf len = checked (hdlc_frame_unstuff buf len) (λ (r, b). check_crc b r)

-- The read loop with `len` bytes in the buffer, and what is done with the frame.
unfoldable pub rx_loop : List Read → Bytes → ℕ → ℕ → ℕ → Rx
rx_loop [] buf size len tick_end = if wants_more buf size len then blocked else check_frame buf len
rx_loop (r ∷ reads) buf size len tick_end =
    let bytes = take (size - len) r.bytes in
    let next = rx_loop reads (receive buf len bytes) size (len + length bytes) tick_end in
    if wants_more buf size len
    then (if expired tick_end r.tick then returns minus_one buf else next)
    else check_frame buf len

unfoldable pub nfcp_rx_packet : List Read → Bytes → ℕ → ℕ → Rx
nfcp_rx_packet reads buf size tick_end = rx_loop reads buf size 0 tick_end
