-- ===== src/Fport.antt =====
-- src/module/rc_io/fport.c: the frames of a receiver of a remote control.
pub mod Checksum
pub mod Channels
mod Tests
use nodeflight_fw.Base.{
  ℕ, zero, suc, ◌+◌, ◌*◌, ◌/◌, ◌^◌, Bool, true, false, not, ◌&&◌, Option, none, some, List, [], ◌∷◌,
  ◌++◌, ◌==◌, ltb, if◌then◌else◌, Bytes, u16, bit_and, bit_or, get_elem?, ◌>>=◌, ℤ, pos, negsuc,
}
use nodeflight_fw.Hdlc.{hdlc_frame_unstuff}

-- The output variables: the channels before `raw2float` makes them floats.
pub record Outputs : Type 0 where
  pub raw_channels : List ℕ
  pub ch17 : Bool
  pub ch18 : Bool
  pub rssi : ℕ
  pub failsafe : Bool
  pub signal_loss : Bool

-- `checksum += buf[i]`, from `i` on with `left` rounds left.
unfoldable pub sum_loop : ℕ → Bytes → ℕ → ℕ → Option ℕ
sum_loop zero buf i checksum = some checksum
sum_loop (suc left) buf i checksum =
    get_elem? buf i >>= λ c. sum_loop left buf (i + 1) (u16 (checksum + c))

-- `while (checksum > 0xff)`, on fuel.
unfoldable pub fold_loop : ℕ → ℕ → Option ℕ
fold_loop zero checksum = none
fold_loop (suc fuel) checksum =
    let next = fold_loop fuel (u16 (bit_and checksum 0xff + checksum / 2 ^ 8)) in
    if ltb 0xff checksum then next else some checksum

unfoldable pub fport_checksum : Bytes → ℕ → Option ℕ
unfolding sum_loop fold_loop
fport_checksum buf len = sum_loop len buf 0 0 >>= fold_loop 4

-- The 11 bits that `raw2float` takes from its argument of 16 bits.
unfoldable pub raw_bits : ℕ → ℕ
raw_bits raw = bit_and (u16 raw) 0x07ff

-- A channel in two bytes, and one in three.
unfoldable pub channel_of_two : Bytes → ℕ → ℕ → ℕ → Option ℕ
unfolding raw_bits
channel_of_two buf i right left = get_elem? buf i >>= λ a.
    get_elem? buf (i + 1) >>= λ b. some (raw_bits (bit_or (a / 2 ^ right) (b * 2 ^ left)))

unfoldable pub channel_of_three : Bytes → ℕ → ℕ → ℕ → ℕ → Option ℕ
unfolding raw_bits
channel_of_three buf i right left far_left = get_elem? buf i >>= λ a. get_elem? buf (i + 1) >>= λ b.
    get_elem? buf (i + 2) >>= λ c.
    some (raw_bits (bit_or (bit_or (a / 2 ^ right) (b * 2 ^ left)) (c * 2 ^ far_left)))

-- `f_chn[0]` to `f_chn[7]` where `i` is 2, and `f_chn[8]` to `f_chn[15]` where it is 13.
unfoldable pub eight_channels : Bytes → ℕ → Option (List ℕ)
unfolding channel_of_two channel_of_three
eight_channels buf i = do
  c0 ← channel_of_two buf i 0 8
  c1 ← channel_of_two buf (i + 1) 3 5
  c2 ← channel_of_three buf (i + 2) 6 2 10
  c3 ← channel_of_two buf (i + 4) 1 7
  c4 ← channel_of_two buf (i + 5) 4 4
  c5 ← channel_of_three buf (i + 6) 7 1 9
  c6 ← channel_of_two buf (i + 8) 2 6
  c7 ← channel_of_two buf (i + 9) 5 3
  some (c0 ∷ c1 ∷ c2 ∷ c3 ∷ c4 ∷ c5 ∷ c6 ∷ c7 ∷ [])

unfoldable pub is_set : ℕ → ℕ → Bool
is_set flags mask = not (bit_and flags mask == 0)

-- A control frame.
unfoldable pub control_frame : Bytes → Option Outputs
unfolding eight_channels is_set
control_frame buf = do
  low ← eight_channels buf 2
  high ← eight_channels buf 13
  flags ← get_elem? buf 24
  rssi ← get_elem? buf 25
  some (record {
    raw_channels = low ++ high;
    ch17 = is_set flags 0x04;
    ch18 = is_set flags 0x02;
    rssi = rssi;
    failsafe = is_set flags 0x08;
    signal_loss = is_set flags 0x04;
  })

-- A packet of `len` bytes: the outputs, and whether the channels are new.
unfoldable pub parse_packet : Outputs → Bytes → ℕ → Option (Outputs × Bool)
unfolding control_frame
parse_packet out buf len = get_elem? buf 1 >>= λ kind.
    if kind == 0 && len == 27
    then control_frame buf >>= (λ new. some (new, true))
    else some (out, false)

-- The checks of the length and the checksum.
unfoldable pub check_packet : Outputs → Bytes → ℤ → Option (Outputs × Bool)
unfolding fport_checksum parse_packet
check_packet out buf (negsuc _) = some (out, false)
check_packet out buf (pos zero) = some (out, false)
check_packet out buf (pos (suc len)) = get_elem? buf 0 >>= λ size.
    if suc len == size + 2
    then fport_checksum buf (suc len) >>= (λ checksum.
      if checksum == 0xff then parse_packet out buf (suc len) else some (out, false))
    else some (out, false)

-- What `fport_task` does with a frame of `len` bytes that it has read.
unfoldable pub handle_frame : Outputs → Bytes → ℕ → Option (Outputs × Bool)
unfolding check_packet
handle_frame out buf len = hdlc_frame_unstuff buf len >>= λ (r, b). check_packet out b r
