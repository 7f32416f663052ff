-- ===== src/Hdlc/Spec.antt =====
-- What the frames of src/lib/hdlc.c mean, on lists of bytes and without a buffer.
use mathlib.Core.Option
use nodeflight_fw.Base.{
  ℕ, ◌*◌, ◌≤◌, Option, none, some, [], ◌∷◌, ◌++◌, ◌==◌, ◌≡◌, refl, if◌then◌else◌, Bytes, u8,
  bit_xor, length, arith, length-append, append_assoc, append-nil, Bool-cases, inl, inr,
}
use nodeflight_fw.Hdlc.{frame_boundary, escape_char, escape_bits, needs_escape}

-- The payload that a frame without its boundary carries, if it is well formed.
unfoldable pub decode : Bytes → Option Bytes
decode [] = some []
decode (c ∷ []) =
    if c == frame_boundary then none else if c == escape_char then none else some (c ∷ [])
decode (c ∷ e ∷ cs) =
    let plain = decode (e ∷ cs) in
    let escaped = decode cs in
    if c == frame_boundary
    then none
    else if c == escape_char
    then Option.map (◌∷◌ (u8 (bit_xor e escape_bits))) escaped
    else Option.map (◌∷◌ c) plain

-- One payload byte on the line.
unfoldable pub encode_byte : ℕ → Bytes
unfolding needs_escape
encode_byte c = if needs_escape c then escape_char ∷ u8 (bit_xor c escape_bits) ∷ [] else c ∷ []

unfoldable pub encode : Bytes → Bytes
encode [] = []
encode (c ∷ cs) = encode_byte c ++ encode cs

pub encode-append : (xs ys : Bytes) → encode (xs ++ ys) ≡ encode xs ++ encode ys
unfolding encode
encode-append [] ys = refl
encode-append (x ∷ xs) ys = simp (encode-append xs ys, append_assoc)

pub encode-single : (c : ℕ) → encode (c ∷ []) ≡ encode_byte c
unfolding encode
encode-single c = append-nil (encode_byte c)

pub length-encode_byte : (c : ℕ) → length (encode_byte c) ≡ (if needs_escape c then 2 else 1)
unfolding encode_byte
length-encode_byte c = elim (Bool-cases (needs_escape c)) [ inl e ↦ rw e | inr e ↦ rw e ]

-- A frame is at least as long as its payload, and at most twice as long.
pub encode_bounds :
    (xs : Bytes) → (length xs ≤ length (encode xs)) × (length (encode xs) ≤ 2 * length xs)
unfolding encode
encode_bounds [] = omega arith
encode_bounds (x ∷ xs) =
    ground
      (arith, encode_bounds xs, length-append (encode_byte x) (encode xs), length-encode_byte x)
