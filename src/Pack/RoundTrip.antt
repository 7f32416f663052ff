-- ===== src/Pack/RoundTrip.antt =====
-- A word that was packed is read back, and packing touches its own bytes only.
use nodeflight_fw.Base.{
  ℕ, ◌+◌, ◌*◌, ◌/◌, ◌%◌, ◌≤◌, ◌<◌, ◌^◌, some, [], ◌∷◌, ◌++◌, ◌≡◌, refl, ap, ◌∙◌, Bytes, u8, bit_and,
  length, arith, get_elem?-skip, store-skip,
}
use nodeflight_fw.Base.Bits.{bit_or_low, bit_and_mask}
use nodeflight_fw.Pack.{pack_to_u32, pack_to_u16, pack_from_u32, pack_from_u16}

-- The bytes of a word, the most significant first.
abbrev pub bytes_of_u16 : ℕ → Bytes
bytes_of_u16 v = v / 256 % 256 ∷ v % 256 ∷ []

abbrev pub bytes_of_u32 : ℕ → Bytes
bytes_of_u32 v = v / 16777216 % 256 ∷ v / 65536 % 256 ∷ v / 256 % 256 ∷ v % 256 ∷ []

pub pack_to_u16-value :
    (xs ys : Bytes) (b0 b1 : ℕ)
    → b0 < 256
    → b1 < 256
    → pack_to_u16 (xs ++ b0 ∷ b1 ∷ ys) (length xs) ≡ some (b0 * 256 + b1)
unfolding pack_to_u16
pack_to_u16-value xs ys b0 b1 h0 h1 =
    let buf : Bytes = b0 ∷ b1 ∷ ys in
    rw
      (
        get_elem?-skip xs buf 1 (length xs + 1) refl,
        get_elem?-skip xs buf 0 (length xs) (omega arith),
      )
      (ap some (omega (arith, bit_or_low 8 b0 b1 h1)))

pub pack_to_u32-value :
    (xs ys : Bytes) (b0 b1 b2 b3 : ℕ)
    → b0 < 256
    → b1 < 256
    → b2 < 256
    → b3 < 256
    → pack_to_u32 (xs ++ b0 ∷ b1 ∷ b2 ∷ b3 ∷ ys) (length xs)
      ≡ some (b0 * 16777216 + b1 * 65536 + b2 * 256 + b3)
unfolding pack_to_u32
pack_to_u32-value xs ys b0 b1 b2 b3 h0 h1 h2 h3 =
    let buf : Bytes = b0 ∷ b1 ∷ b2 ∷ b3 ∷ ys in
    let c3 : b3 % 4294967296 ≡ b3 = omega arith in
    let c2 : b2 * 2 ^ 8 % 4294967296 ≡ b2 * 2 ^ 8 = omega arith in
    let c1 : b1 * 2 ^ 16 % 4294967296 ≡ b1 * 2 ^ 16 = omega arith in
    let c0 : b0 * 2 ^ 24 % 4294967296 ≡ b0 * 2 ^ 24 = omega arith in
    rw
      (
        get_elem?-skip xs buf 3 (length xs + 3) refl,
        get_elem?-skip xs buf 2 (length xs + 2) refl,
        get_elem?-skip xs buf 1 (length xs + 1) refl,
        get_elem?-skip xs buf 0 (length xs) (omega arith),
        c3,
        c2,
        c1,
        c0,
        bit_or_low 8 b2 b3 h3,
        bit_or_low 16 b1 (b2 * 2 ^ 8 + b3) (omega arith),
        bit_or_low 24 b0 (b1 * 2 ^ 16 + (b2 * 2 ^ 8 + b3)) (omega arith),
      )
      (ap some (omega arith))

-- What `val & 0xff` leaves of a shifted word.
low_byte : (v : ℕ) → u8 (bit_and v 0xff) ≡ v % 256
low_byte v = omega (arith, bit_and_mask 8 v)

-- `pack_from_u16` writes the two bytes of the word and keeps the others.
pub pack_from_u16-bytes :
    (xs ys : Bytes) (a b val : ℕ)
    → pack_from_u16 (xs ++ a ∷ b ∷ ys) (length xs) val ≡ some (xs ++ (bytes_of_u16 val ++ ys))
unfolding pack_from_u16
pack_from_u16-bytes xs ys a b val = rw (
  store-skip xs (a ∷ b ∷ ys) 1 (length xs + 1) _ refl (omega arith),
  store-skip xs (a ∷ u8 (bit_and val 0xff) ∷ ys) 0 (length xs) _ (omega arith) (omega arith),
  low_byte val,
  low_byte (val / 2 ^ 8),
)

-- `pack_from_u32` writes the four bytes of the word and keeps the others.
pub pack_from_u32-bytes :
    (xs ys : Bytes) (a b c d val : ℕ)
    → pack_from_u32 (xs ++ a ∷ b ∷ c ∷ d ∷ ys) (length xs) val
      ≡ some (xs ++ (bytes_of_u32 val ++ ys))
unfolding pack_from_u32
pack_from_u32-bytes xs ys a b c d val =
    let v3 = u8 (bit_and val 0xff) in
    let v2 = u8 (bit_and (val / 2 ^ 8) 0xff) in
    let v1 = u8 (bit_and (val / 2 ^ 16) 0xff) in
    rw (
      store-skip xs (a ∷ b ∷ c ∷ d ∷ ys) 3 (length xs + 3) v3 refl (omega arith),
      store-skip xs (a ∷ b ∷ c ∷ v3 ∷ ys) 2 (length xs + 2) v2 refl (omega arith),
      store-skip xs (a ∷ b ∷ v2 ∷ v3 ∷ ys) 1 (length xs + 1) v1 refl (omega arith),
      store-skip xs (a ∷ v1 ∷ v2 ∷ v3 ∷ ys) 0 (length xs) _ (omega arith) (omega arith),
      low_byte val,
      low_byte (val / 2 ^ 8),
      low_byte (val / 2 ^ 16),
      low_byte (val / 2 ^ 24),
    )

-- A 32-bit word packed at any place of a buffer, and a 16-bit one, is read back from there, and
-- the bytes before and behind it are kept.
pub pack_lem :
    (xs ys : Bytes) (a b c d v w : ℕ)
    → v < 4294967296
    → w < 65536
    → ((buf : Bytes) × (pack_from_u32 (xs ++ a ∷ b ∷ c ∷ d ∷ ys) (length xs) v ≡ some buf)
        × (pack_to_u32 buf (length xs) ≡ some v)
        × (buf ≡ xs ++ (bytes_of_u32 v ++ ys)))
      × ((buf : Bytes) × (pack_from_u16 (xs ++ a ∷ b ∷ ys) (length xs) w ≡ some buf)
          × (pack_to_u16 buf (length xs) ≡ some w)
          × (buf ≡ xs ++ (bytes_of_u16 w ++ ys)))
pack_lem xs ys a b c d v w hv hw = (
  (
    _,
    pack_from_u32-bytes xs ys a b c d v,
    pack_to_u32-value xs ys _ _ _ _ (omega arith) (omega arith) (omega arith) (omega arith)
        ∙ ap some (omega arith),
    refl,
  ),
  (
    _,
    pack_from_u16-bytes xs ys a b w,
    pack_to_u16-value xs ys _ _ (omega arith) (omega arith) ∙ ap some (omega arith),
    refl,
  ),
)

-- A word is read wherever four bytes are left.
pub pack_to_u32_in_range :
    (payload : Bytes) → 4 ≤ length payload → (id : ℕ) × (pack_to_u32 payload 0 ≡ some id)
unfolding pack_to_u32
pack_to_u32_in_range [] h = absurd (omega arith)
pack_to_u32_in_range (b0 ∷ []) h = absurd (omega arith)
pack_to_u32_in_range (b0 ∷ b1 ∷ []) h = absurd (omega arith)
pack_to_u32_in_range (b0 ∷ b1 ∷ b2 ∷ []) h = absurd (omega arith)
pack_to_u32_in_range (b0 ∷ b1 ∷ b2 ∷ b3 ∷ rest) h = (_, refl)
