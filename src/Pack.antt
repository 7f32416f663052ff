-- ===== src/Pack.antt =====
-- src/lib/pack.h: big-endian words in a byte buffer. `none` is an access out of the buffer.
pub mod RoundTrip
mod Tests
use nodeflight_fw.Base.{
  ℕ, ◌+◌, ◌*◌, ◌/◌, ◌^◌, Option, some, Bytes, u16, u32, u8, bit_and, bit_or, get_elem?, store,
  ◌>>=◌,
}

pub pack_to_u32 : Bytes → ℕ → Option ℕ
pack_to_u32 buf p = do
  b3 ← get_elem? buf (p + 3)
  b2 ← get_elem? buf (p + 2)
  b1 ← get_elem? buf (p + 1)
  b0 ← get_elem? buf p
  some
      (bit_or (bit_or (bit_or (u32 b3) (u32 (b2 * 2 ^ 8))) (u32 (b1 * 2 ^ 16))) (u32 (b0 * 2 ^ 24)))

-- `uint16_t` operands are promoted to `int`; the result is cut to 16 bits.
unfoldable pub pack_to_u16 : Bytes → ℕ → Option ℕ
pack_to_u16 buf p = do
  b1 ← get_elem? buf (p + 1)
  b0 ← get_elem? buf p
  some (u16 (bit_or b1 (b0 * 2 ^ 8)))

pub pack_from_u32 : Bytes → ℕ → ℕ → Option Bytes
pack_from_u32 buf p val = do
  a ← store buf (p + 3) (u8 (bit_and val 0xff))
  b ← store a (p + 2) (u8 (bit_and (val / 2 ^ 8) 0xff))
  c ← store b (p + 1) (u8 (bit_and (val / 2 ^ 16) 0xff))
  store c p (u8 (bit_and (val / 2 ^ 24) 0xff))

pub pack_from_u16 : Bytes → ℕ → ℕ → Option Bytes
pack_from_u16 buf p val = do
  a ← store buf (p + 1) (u8 (bit_and val 0xff))
  store a p (u8 (bit_and (val / 2 ^ 8) 0xff))
