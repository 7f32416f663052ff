-- ===== src/Fport/Channels.antt =====
-- The channels are the digits of a number to the base 2048.
use nodeflight_fw.Base.{
  ℕ, ◌+◌, ◌*◌, ◌/◌, ◌%◌, ◌^◌, ◌<◌, some, List, [], ◌∷◌, ◌++◌, ◌≡◌, refl, ◌∙◌, Bytes, u16, bit_or,
  length, arith, get_elem?-skip,
}
use nodeflight_fw.Base.Bits.{bit_and_mask, bit_or_low}
use nodeflight_fw.Fport.{raw_bits, channel_of_two, channel_of_three, eight_channels}

raw_bits-mod : (raw : ℕ) → raw_bits raw ≡ raw % 2048
unfolding raw_bits
raw_bits-mod raw = bit_and_mask 11 (u16 raw) ∙ omega arith

two_parts : (k a b : ℕ) → a < 2 ^ k → raw_bits (bit_or a (b * 2 ^ k)) ≡ (b * 2 ^ k + a) % 2048
two_parts k a b h = rw (bit_or_low k b a h) (raw_bits-mod (b * 2 ^ k + a))

three_parts :
    (k m a b c : ℕ)
    → a < 2 ^ k
    → b * 2 ^ k + a < 2 ^ m
    → raw_bits (bit_or (bit_or a (b * 2 ^ k)) (c * 2 ^ m)) ≡ (c * 2 ^ m + (b * 2 ^ k + a)) % 2048
three_parts k m a b c h g =
    rw (bit_or_low k b a h, bit_or_low m c (b * 2 ^ k + a) g) (raw_bits-mod _)

-- Little-endian numbers, to any base.
pub number : ℕ → List ℕ → ℕ
number base [] = 0
number base (d ∷ ds) = d + base * number base ds

abbrev pub AllBelow : ℕ → List ℕ → Type 0
AllBelow bound [] = Unit
AllBelow bound (d ∷ ds) = (d < bound) × AllBelow bound ds

eight_channels-cons :
    (xs ys : Bytes) (b0 b1 b2 b3 b4 b5 b6 b7 b8 b9 b10 i : ℕ)
    → i ≡ length xs
    → eight_channels (xs ++ b0 ∷ b1 ∷ b2 ∷ b3 ∷ b4 ∷ b5 ∷ b6 ∷ b7 ∷ b8 ∷ b9 ∷ b10 ∷ ys) i
      ≡ some (
          raw_bits (bit_or (b0 / 2 ^ 0) (b1 * 2 ^ 8))
          ∷ raw_bits (bit_or (b1 / 2 ^ 3) (b2 * 2 ^ 5))
          ∷ raw_bits (bit_or (bit_or (b2 / 2 ^ 6) (b3 * 2 ^ 2)) (b4 * 2 ^ 10))
          ∷ raw_bits (bit_or (b4 / 2 ^ 1) (b5 * 2 ^ 7))
          ∷ raw_bits (bit_or (b5 / 2 ^ 4) (b6 * 2 ^ 4))
          ∷ raw_bits (bit_or (bit_or (b6 / 2 ^ 7) (b7 * 2 ^ 1)) (b8 * 2 ^ 9))
          ∷ raw_bits (bit_or (b8 / 2 ^ 2) (b9 * 2 ^ 6))
          ∷ raw_bits (bit_or (b9 / 2 ^ 5) (b10 * 2 ^ 3))
          ∷ [])
unfolding eight_channels channel_of_two channel_of_three
eight_channels-cons xs ys b0 b1 b2 b3 b4 b5 b6 b7 b8 b9 b10 i e =
    let buf : Bytes = b0 ∷ b1 ∷ b2 ∷ b3 ∷ b4 ∷ b5 ∷ b6 ∷ b7 ∷ b8 ∷ b9 ∷ b10 ∷ ys in
    rw
      (
        get_elem?-skip xs buf 0 i (omega arith),
        get_elem?-skip xs buf 1 (i + 1) (omega arith),
        get_elem?-skip xs buf 2 (i + 1 + 1) (omega arith),
        get_elem?-skip xs buf 2 (i + 2) (omega arith),
        get_elem?-skip xs buf 3 (i + 2 + 1) (omega arith),
        get_elem?-skip xs buf 4 (i + 2 + 2) (omega arith),
        get_elem?-skip xs buf 4 (i + 4) (omega arith),
        get_elem?-skip xs buf 5 (i + 4 + 1) (omega arith),
        get_elem?-skip xs buf 5 (i + 5) (omega arith),
        get_elem?-skip xs buf 6 (i + 5 + 1) (omega arith),
        get_elem?-skip xs buf 6 (i + 6) (omega arith),
        get_elem?-skip xs buf 7 (i + 6 + 1) (omega arith),
        get_elem?-skip xs buf 8 (i + 6 + 2) (omega arith),
        get_elem?-skip xs buf 8 (i + 8) (omega arith),
        get_elem?-skip xs buf 9 (i + 8 + 1) (omega arith),
        get_elem?-skip xs buf 9 (i + 9) (omega arith),
        get_elem?-skip xs buf 10 (i + 9 + 1) (omega arith),
      )
      refl

below : {r : ℕ} (n : ℕ) → r ≡ n % 2048 → r < 2048
below n e = omega (arith, e)

-- Eleven bytes hold eight channels, anywhere in a buffer: the channels have 11 bits each, and read
-- as the digits of a number to the base 2048 they are the same number as the bytes to the base 256.
pub eight_channels-number :
    (xs ys : Bytes) (b0 b1 b2 b3 b4 b5 b6 b7 b8 b9 b10 : ℕ)
    → let bytes = b0 ∷ b1 ∷ b2 ∷ b3 ∷ b4 ∷ b5 ∷ b6 ∷ b7 ∷ b8 ∷ b9 ∷ b10 ∷ [] in
      AllBelow 256 bytes
      → (channels : List ℕ) × (eight_channels (xs ++ (bytes ++ ys)) (length xs) ≡ some channels)
        × (length channels ≡ 8)
        × AllBelow 2048 channels
        × (number 2048 channels ≡ number 256 bytes)
unfolding number
eight_channels-number xs ys b0 b1 b2 b3 b4 b5 b6 b7 b8 b9 b10
      (h0, (h1, (h2, (h3, (h4, (h5, (h6, (h7, (h8, (h9, (h10, u))))))))))) =
    let e0 = two_parts 8 (b0 / 2 ^ 0) b1 (omega arith) in
    let e1 = two_parts 5 (b1 / 2 ^ 3) b2 (omega arith) in
    let e2 = three_parts 2 10 (b2 / 2 ^ 6) b3 b4 (omega arith) (omega arith) in
    let e3 = two_parts 7 (b4 / 2 ^ 1) b5 (omega arith) in
    let e4 = two_parts 4 (b5 / 2 ^ 4) b6 (omega arith) in
    let e5 = three_parts 1 9 (b6 / 2 ^ 7) b7 b8 (omega arith) (omega arith) in
    let e6 = two_parts 6 (b8 / 2 ^ 2) b9 (omega arith) in
    let e7 = two_parts 3 (b9 / 2 ^ 5) b10 (omega arith) in
    (
      _,
      eight_channels-cons xs ys b0 b1 b2 b3 b4 b5 b6 b7 b8 b9 b10 (length xs) refl,
      refl,
      (
        below _ e0,
        (
          below _ e1,
          (below _ e2, (below _ e3, (below _ e4, (below _ e5, (below _ e6, (below _ e7, tt)))))),
        ),
      ),
      omega (arith, e0, e1, e2, e3, e4, e5, e6, e7),
    )
