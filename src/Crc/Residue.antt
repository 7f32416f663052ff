-- ===== src/Crc/Residue.antt =====
-- The checksum as a fold over the bytes, and the residue that a receiver checks.
use nodeflight_fw.Base.{
  ℕ, zero, suc, ◌+◌, ◌*◌, ◌/◌, ◌%◌, ◌≤◌, ◌<◌, ◌^◌, some, [], ◌∷◌, ◌++◌, ◌≡◌, refl, sym, ap, ◌∙◌,
  ◌==◌, Bytes, u16, bit_and, bit_xor, length, arith, length-append, append_assoc, get_elem?-append,
  Bool-cases, inl, inr, ap₂,
}
use native.Mathlib.Nat.{pow-suc, one-le-pow}
use nodeflight_fw.Base.Bits.{bit_xor_self, bit_xor-lt, bit_xor_high, bit_and_bit}
use nodeflight_fw.Crc.{crc_bit, crc_bits, crc_byte, crc_loop, crc16}

-- The checksum register after a list of bytes.
unfoldable pub crc_of : ℕ → ℕ → Bytes → ℕ
crc_of poly iv [] = iv
crc_of poly iv (c ∷ cs) = crc_of poly (crc_byte poly iv c) cs

pub crc_of-append :
    (poly iv : ℕ) (xs ys : Bytes) → crc_of poly iv (xs ++ ys) ≡ crc_of poly (crc_of poly iv xs) ys
unfolding crc_of
crc_of-append poly iv [] ys = refl
crc_of-append poly iv (x ∷ xs) ys = crc_of-append poly (crc_byte poly iv x) xs ys

crc_loop-crc_of :
    (poly iv : ℕ) (todo done tail : Bytes) (i : ℕ)
    → i ≡ length done
    → crc_loop poly (length todo) (done ++ (todo ++ tail)) i iv ≡ some (crc_of poly iv todo)
unfolding crc_loop crc_of
crc_loop-crc_of poly iv [] done tail i e = refl
crc_loop-crc_of poly iv (c ∷ todo) done tail i e = rw (get_elem?-append done (todo ++ tail) c i e) (
    rw (sym (append_assoc done (c ∷ []) (todo ++ tail))) (
      crc_loop-crc_of poly (crc_byte poly iv c) todo (done ++ c ∷ []) tail (i + 1)
        (omega (arith, length-append done (c ∷ [])))))

-- `crc16` reads its `len` bytes and no other, and its result is the fold over them.
pub crc16-crc_of :
    (xs tail : Bytes) (iv poly : ℕ)
    → crc16 (xs ++ tail) (length xs) iv poly ≡ some (crc_of poly iv xs)
unfolding crc16
crc16-crc_of xs tail iv poly = crc_loop-crc_of poly iv xs [] tail 0 refl

module _ (poly : ℕ) (fits : poly < 65536) where
  pub crc_bit-lt : (crc : ℕ) → crc_bit poly crc < 65536
  unfolding crc_bit
  crc_bit-lt crc = elim (Bool-cases (bit_and crc 0x8000 == 0)) [
    | inl e ↦ rw e (omega arith)
    | inr e ↦ rw e (bit_xor-lt 16 (u16 (crc * 2)) poly (omega arith) fits)
  ]

  crc_bits-lt : (n crc : ℕ) → crc < 65536 → crc_bits poly n crc < 65536
  unfolding crc_bits
  crc_bits-lt zero crc h = h
  crc_bits-lt (suc n) crc h = crc_bits-lt n (crc_bit poly crc) (crc_bit-lt crc)

  pub crc_byte-lt : (crc c : ℕ) → crc < 65536 → crc_byte poly crc c < 65536
  unfolding crc_byte
  crc_byte-lt crc c h = crc_bits-lt 8 _ (bit_xor-lt 16 crc (u16 (c * 2 ^ 8)) h (omega arith))

  -- The register keeps 16 bits.
  pub crc_of-lt : (xs : Bytes) (iv : ℕ) → iv < 65536 → crc_of poly iv xs < 65536
  unfolding crc_of
  crc_of-lt [] iv h = h
  crc_of-lt (c ∷ xs) iv h = crc_of-lt xs (crc_byte poly iv c) (crc_byte-lt iv c h)

-- While the top bit is clear, a round only shifts.
crc_bit_shift : (poly crc : ℕ) → crc < 32768 → crc_bit poly crc ≡ 2 * crc
unfolding crc_bit
crc_bit_shift poly crc h =
    let clear : bit_and crc 0x8000 ≡ 0 = omega (arith, bit_and_bit 15 crc) in rw clear (omega arith)

low_of_shift : (n crc : ℕ) → crc * 2 ^ suc n < 65536 → crc < 32768
low_of_shift n crc h =
    let one = one-le-pow n 2 (omega arith) in
    let e = ap (λ (t : ℕ). crc * t) (pow-suc 2 n) in
    let m : crc * 1 ≤ crc * 2 ^ n = grind (arith, one) in omega (arith, e, m)

crc_bits_shift : (poly n crc : ℕ) → crc * 2 ^ n < 65536 → crc_bits poly n crc ≡ crc * 2 ^ n
unfolding crc_bits
crc_bits_shift poly zero crc h = omega arith
crc_bits_shift poly (suc n) crc h =
    let e : crc * 2 ^ suc n ≡ 2 * crc * 2 ^ n =
      omega (arith, ap (λ (t : ℕ). crc * t) (pow-suc 2 n)) in
    rw (crc_bit_shift poly crc (low_of_shift n crc h))
      (crc_bits_shift poly n (2 * crc) (rw e at h) ∙ sym e)

crc_byte_high : (poly s c : ℕ) → s < 65536 → c ≡ s / 256 → crc_byte poly s c ≡ s % 256 * 256
unfolding crc_byte
crc_byte_high poly s c h e =
    let whole : s ≡ s / 256 * 2 ^ 8 + s % 256 = omega arith in
    let shifted : u16 (c * 2 ^ 8) ≡ s / 256 * 2 ^ 8 = omega arith in
    let low : bit_xor s (u16 (c * 2 ^ 8)) ≡ s % 256 =
      ap₂ bit_xor whole shifted
      ∙ bit_xor_high 8 (s / 256) (s / 256) (s % 256) (omega arith)
      ∙ rw bit_xor_self (omega arith) in
    rw low (crc_bits_shift poly 8 (s % 256) (omega arith))

crc_byte_low : (poly s c : ℕ) → s < 65536 → s ≡ c * 256 → crc_byte poly s c ≡ 0
unfolding crc_byte
crc_byte_low poly s c h e =
    let shifted : u16 (c * 2 ^ 8) ≡ s = omega arith in
    rw (shifted, bit_xor_self s) (crc_bits_shift poly 8 0 (omega arith))

-- A message followed by its checksum, high byte first, has the checksum 0, whatever the message,
-- the 16-bit start value and the 16-bit polynomial.
pub residue :
    (poly iv : ℕ) (xs : Bytes)
    → poly < 65536
    → iv < 65536
    → let s = crc_of poly iv xs in crc_of poly iv (xs ++ s / 256 ∷ s % 256 ∷ []) ≡ 0
residue poly iv xs fits start =
    let s : ℕ = crc_of poly iv xs in
    let small : s < 65536 = crc_of-lt poly fits xs iv start in
    crc_of-append poly iv xs (s / 256 ∷ s % 256 ∷ [])
    ∙ unfold crc_of in
      rw (crc_byte_high poly s (s / 256) small refl)
        (crc_byte_low poly (s % 256 * 256) (s % 256) (omega arith) refl)
