-- ===== src/Crc/Tests.antt =====
-- The vector of the unit test, and the theorems at concrete messages.
use nodeflight_fw.Base.{◌/◌, ◌%◌, some, [], ◌∷◌, ◌++◌, ◌≡◌, ◌≢◌, refl, Bytes, arith}
use nodeflight_fw.Crc.{crc16, crc_loop, crc_byte, crc_bits, crc_bit, crc16_poly_ccitt}
use nodeflight_fw.Crc.Residue.{crc_of, residue}
use nodeflight_fw.Crc.Detect.{detects_one_byte}

abbrev message : Bytes
message = 1 ∷ 2 ∷ 3 ∷ 4 ∷ []

crc16_test : crc16 message 4 0 crc16_poly_ccitt ≡ some 0x0d03
unfolding crc16 crc_loop crc_byte crc_bits crc_bit
crc16_test = refl

residue_example :
    let s = crc_of crc16_poly_ccitt 0 message in
    crc_of crc16_poly_ccitt 0 (message ++ s / 256 ∷ s % 256 ∷ []) ≡ 0
residue_example = residue crc16_poly_ccitt 0 message (omega arith) (omega arith)

detects_one_byte_example :
    crc_of crc16_poly_ccitt 0 (message ++ 5 ∷ message)
    ≢ crc_of crc16_poly_ccitt 0 (message ++ 6 ∷ message)
detects_one_byte_example =
    detects_one_byte crc16_poly_ccitt (omega arith) refl 0 message message 5 6 (omega arith)
      (omega arith) (omega arith) (omega arith)
