-- ===== src/Crc.antt =====
-- src/lib/crc.c: the 16-bit checksum, most significant bit first.
pub mod Residue
pub mod Detect
mod Tests
use nodeflight_fw.Base.{
  ℕ, zero, suc, ◌+◌, ◌*◌, ◌^◌, Option, none, some, ◌==◌, if◌then◌else◌, Bytes, u16, bit_and,
  bit_xor, get_elem?, ◌>>=◌,
}

abbrev pub crc16_poly_ccitt : ℕ
crc16_poly_ccitt = 0x1021

-- One round of the inner loop: `crc & 0x8000` is taken for true where it is not 0.
unfoldable pub crc_bit : ℕ → ℕ → ℕ
crc_bit poly crc = if bit_and crc 0x8000 == 0 then u16 (crc * 2) else bit_xor (u16 (crc * 2)) poly

unfoldable pub crc_bits : ℕ → ℕ → ℕ → ℕ
crc_bits poly zero crc = crc
crc_bits poly (suc left) crc = crc_bits poly left (crc_bit poly crc)

-- One byte: `crc ^= buf[i] << 8`, then the eight bits.
unfoldable pub crc_byte : ℕ → ℕ → ℕ → ℕ
crc_byte poly crc c = crc_bits poly 8 (bit_xor crc (u16 (c * 2 ^ 8)))

-- The outer loop at index `i`, with `left` rounds left. `none` is a read out of the buffer.
unfoldable pub crc_loop : ℕ → ℕ → Bytes → ℕ → ℕ → Option ℕ
crc_loop poly zero buf i crc = some crc
crc_loop poly (suc left) buf i crc =
    get_elem? buf i >>= λ c. crc_loop poly left buf (i + 1) (crc_byte poly crc c)

unfoldable pub crc16 : Bytes → ℕ → ℕ → ℕ → Option ℕ
crc16 buf len iv poly = crc_loop poly len buf 0 iv
