-- ===== src/Crc/Detect.antt =====
-- What the checksum detects: with an odd polynomial every step is injective.
use nodeflight_fw.Base.{
  ℕ, zero, suc, ◌*◌, ◌/◌, ◌%◌, ◌<◌, ◌^◌, [], ◌∷◌, ◌++◌, ◌≡◌, ◌≢◌, sym, ap, ◌∙◌, ◌==◌, Bytes, u16,
  bit_and, arith, Bool-cases, inl, inr,
}
use nodeflight_fw.Base.Bits.{bit_xor_cancel, bit_xor_comm, bit_xor-lt, bit_xor-mod_two, bit_and_bit}
use nodeflight_fw.Crc.{crc_bit, crc_bits, crc_byte}
use nodeflight_fw.Crc.Residue.{crc_of, crc_of-append, crc_of-lt, crc_byte-lt, crc_bit-lt}

module _ (poly : ℕ) (fits : poly < 65536) (odd : poly % 2 ≡ 1) where
  -- The lowest bit after a round is the highest before it.
  crc_bit-mod_two : (crc : ℕ) → crc < 65536 → crc_bit poly crc % 2 ≡ crc / 32768
  unfolding crc_bit
  crc_bit-mod_two crc h = elim (Bool-cases (bit_and crc 0x8000 == 0)) [
    | inl e ↦ rw e (ground (arith, bit_and_bit 15 crc))
    | inr e ↦ rw e (ground (arith, bit_and_bit 15 crc, bit_xor-mod_two (u16 (crc * 2)) poly))
  ]

  crc_bit_injective : (a b : ℕ) → a < 65536 → b < 65536 → crc_bit poly a ≡ crc_bit poly b → a ≡ b
  unfolding crc_bit
  crc_bit_injective a b ha hb e =
      let top : a / 32768 ≡ b / 32768 =
        cc (crc_bit-mod_two a ha, crc_bit-mod_two b hb, ap (λ (t : ℕ). t % 2) e) in
      ground
        (arith, bit_and_bit 15 a, bit_and_bit 15 b, bit_xor_cancel (u16 (a * 2)) (u16 (b * 2)) poly)

  crc_bits_injective :
      (n a b : ℕ) → a < 65536 → b < 65536 → crc_bits poly n a ≡ crc_bits poly n b → a ≡ b
  unfolding crc_bits
  crc_bits_injective zero a b ha hb e = e
  crc_bits_injective (suc n) a b ha hb e = crc_bit_injective a b ha hb (
      crc_bits_injective n (crc_bit poly a) (crc_bit poly b) (crc_bit-lt poly fits a)
        (crc_bit-lt poly fits b) e)

  crc_byte_injective :
      (a b c : ℕ) → a < 65536 → b < 65536 → crc_byte poly a c ≡ crc_byte poly b c → a ≡ b
  unfolding crc_byte
  crc_byte_injective a b c ha hb e =
      let small : u16 (c * 2 ^ 8) < 65536 = omega arith in
      bit_xor_cancel a b (u16 (c * 2 ^ 8))
        (crc_bits_injective 8 _ _ (bit_xor-lt 16 a _ ha small) (bit_xor-lt 16 b _ hb small) e)

  crc_of_injective :
      (xs : Bytes) (a b : ℕ) → a < 65536 → b < 65536 → crc_of poly a xs ≡ crc_of poly b xs → a ≡ b
  unfolding crc_of
  crc_of_injective [] a b ha hb e = e
  crc_of_injective (c ∷ xs) a b ha hb e = crc_byte_injective a b c ha hb (
      crc_of_injective xs (crc_byte poly a c) (crc_byte poly b c) (crc_byte-lt poly fits a c ha)
        (crc_byte-lt poly fits b c hb) e)

  -- One register, two bytes.
  crc_byte_separates :
      (a c d : ℕ) → a < 65536 → c < 256 → d < 256 → crc_byte poly a c ≡ crc_byte poly a d → c ≡ d
  unfolding crc_byte
  crc_byte_separates a c d ha hc hd e =
      let small : (x : ℕ) → u16 (x * 2 ^ 8) < 65536 = λ x. omega arith in
      let same : u16 (c * 2 ^ 8) ≡ u16 (d * 2 ^ 8) = bit_xor_cancel _ _ a (
        bit_xor_comm _ a
        ∙ crc_bits_injective 8 _ _ (bit_xor-lt 16 a _ ha (small c)) (bit_xor-lt 16 a _ ha (small d))
            e
        ∙ bit_xor_comm a _) in
      omega arith

  -- With an odd polynomial of 16 bits, such as the CCITT one, and any start value of 16 bits, two messages that differ in one byte have
  -- different checksums.
  pub detects_one_byte :
      (iv : ℕ) (xs ys : Bytes) (c d : ℕ)
      → iv < 65536
      → c < 256
      → d < 256
      → c ≢ d
      → crc_of poly iv (xs ++ c ∷ ys) ≢ crc_of poly iv (xs ++ d ∷ ys)
  detects_one_byte iv xs ys c d start hc hd ne e =
      let s : ℕ = crc_of poly iv xs in
      let small : s < 65536 = crc_of-lt poly fits xs iv start in
      let after : crc_of poly s (c ∷ ys) ≡ crc_of poly s (d ∷ ys) =
        sym (crc_of-append poly iv xs (c ∷ ys)) ∙ e ∙ crc_of-append poly iv xs (d ∷ ys) in
      ne (
        crc_byte_separates s c d small hc hd (
          crc_of_injective ys (crc_byte poly s c) (crc_byte poly s d)
            (crc_byte-lt poly fits s c small) (crc_byte-lt poly fits s d small)
            (unfold crc_of in after)))
