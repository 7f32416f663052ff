-- ===== src/Hdlc.antt =====
-- src/lib/hdlc.c: byte stuffing of frames, in place.
-- A buffer is the list of its bytes; `none` is an access out of it.
pub mod Spec
pub mod Unstuff
pub mod Stuff
pub mod RoundTrip
pub mod Length
mod Tests
use nodeflight_fw.Base.{
  ℕ, zero, suc, ◌+◌, ◌-◌, Bool, false, ◌&&◌, ◌||◌, Option, none, some, ◌==◌, ltb, if◌then◌else◌,
  Bytes, u8, bit_xor, get_elem?, store, ◌>>=◌, ℤ, pos, minus_one,
}

abbrev pub frame_boundary : ℕ
frame_boundary = 0x7e

abbrev pub escape_char : ℕ
escape_char = 0x7d

abbrev pub escape_bits : ℕ
escape_bits = 0x20

abbrev pub xon : ℕ
xon = 0x17

abbrev pub xoff : ℕ
xoff = 0x19

-- `while (rd < len)` of `hdlc_frame_unstuff`, on fuel.
pub unstuff_loop : ℕ → Bytes → ℕ → ℕ → ℕ → Option (ℤ × Bytes)
unstuff_loop zero buf len rd wr = none
unstuff_loop (suc fuel) buf len rd wr =
    let normal = λ (c : ℕ). store buf wr c >>= λ b. unstuff_loop fuel b len (rd + 1) (wr + 1) in
    let escaped = λ (c : ℕ). store buf wr (u8 (bit_xor c escape_bits)) >>= λ b.
    unstuff_loop fuel b len (rd + 2) (wr + 1) in
    if ltb rd len
    then get_elem? buf rd >>= (λ c.
      if c == frame_boundary
      then some (minus_one, buf)
      else if c == escape_char
      then (if rd + 1 == len then some (minus_one, buf) else get_elem? buf (rd + 1) >>= escaped)
      else normal c)
    else some (pos wr, buf)

-- Is the last byte of the frame a boundary?
pub ends_frame : Bytes → ℕ → Bool
ends_frame buf len =
    ltb 0 len && elim (get_elem? buf (len - 1)) [ none ↦ false | some c ↦ c == frame_boundary ]

pub hdlc_frame_unstuff : Bytes → ℕ → Option (ℤ × Bytes)
hdlc_frame_unstuff buf len =
    let len' = if ends_frame buf len then len - 1 else len in unstuff_loop (suc len') buf len' 0 0

-- The bytes that `hdlc_frame_stuff` escapes.
pub needs_escape : ℕ → Bool
needs_escape c = c == escape_char || c == frame_boundary || c == xon || c == xoff

-- The first loop, at index `rd` with `left` rounds left.
pub count_loop : ℕ → Bytes → ℕ → ℕ → Option ℕ
count_loop zero buf rd out_len = some out_len
count_loop (suc left) buf rd out_len = get_elem? buf rd >>= λ c.
    count_loop left buf (rd + 1) (out_len + (if needs_escape c then 2 else 1))

-- The second loop, from the end: `suc rd` rounds are left at index `rd`.
pub stuff_loop : ℕ → Bytes → ℕ → Option Bytes
stuff_loop zero buf wr = some buf
stuff_loop (suc rd) buf wr = get_elem? buf rd >>= λ c.
    if needs_escape c
    then store buf (wr - 1) (u8 (bit_xor c escape_bits))
      >>= (λ b. store b (wr - 2) escape_char >>= λ b'. stuff_loop rd b' (wr - 2))
    else store buf (wr - 1) c >>= λ b. stuff_loop rd b (wr - 1)

pub hdlc_frame_stuff : Bytes → ℕ → Option (ℤ × Bytes)
hdlc_frame_stuff buf len = count_loop len buf 0 0 >>= λ n.
    let out_len = n + 1 in
    store buf (out_len - 1) frame_boundary >>= λ b.
    stuff_loop len b (out_len - 1) >>= λ b'. some (pos out_len, b')
