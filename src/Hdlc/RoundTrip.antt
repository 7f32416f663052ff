-- ===== src/Hdlc/RoundTrip.antt =====
-- `hdlc_frame_unstuff` as a whole, and after `hdlc_frame_stuff`.
use mathlib.Core.Option
use nodeflight_fw.Base.{
  ℕ, suc, ◌+◌, ◌-◌, ◌*◌, ◌≤◌, Option, none, some, [], ◌∷◌, ◌++◌, ◌==◌, ◌≡◌, refl, ap, ◌∙◌, true,
  false, if◌then◌else◌, Bytes, u8, bit_xor, length, arith, length-append, append_assoc,
  get_elem?-append, drop, ℤ, pos, minus_one, Bool-cases, inl, inr, lt→ltb, snoc-cases, ◌≢◌, ◌⊎◌,
}
use nodeflight_fw.Hdlc.{
  frame_boundary, escape_char, escape_bits, xon, xoff, needs_escape, ends_frame, unstuff_loop,
  hdlc_frame_unstuff, hdlc_frame_stuff,
}
use nodeflight_fw.Hdlc.Spec.{decode, encode_byte, encode, encode_bounds}
use nodeflight_fw.Hdlc.Unstuff.{Unstuffed, unstuff_loop-decode}
use nodeflight_fw.Hdlc.Stuff.{hdlc_frame_stuff-encode}

-- A frame without the boundary that may end it.
unfoldable pub strip : Bytes → Bytes
strip [] = []
strip (c ∷ []) = if c == frame_boundary then [] else c ∷ []
strip (c ∷ d ∷ cs) = c ∷ strip (d ∷ cs)

pub strip-concat :
    (body : Bytes) (c : ℕ)
    → strip (body ++ c ∷ []) ≡ (if c == frame_boundary then body else body ++ c ∷ [])
unfolding strip
strip-concat [] c = refl
strip-concat (b ∷ []) c = ground arith
strip-concat (b ∷ d ∷ body) c = ap (◌∷◌ b) (strip-concat (d ∷ body) c) ∙ ground arith

ends_frame-concat :
    (body tail : Bytes) (c : ℕ)
    → ends_frame ((body ++ c ∷ []) ++ tail) (length (body ++ c ∷ [])) ≡ (c == frame_boundary)
unfolding ends_frame
ends_frame-concat body tail c =
    let n = length-append body (c ∷ []) in
    rw (
      lt→ltb 0 (length (body ++ c ∷ [])) (omega arith),
      append_assoc body (c ∷ []) tail,
      get_elem?-append body tail c (length (body ++ c ∷ []) - 1) (omega arith),
    )

-- What a run of `hdlc_frame_unstuff` returns and leaves, by the payload of the frame.
abbrev pub Returns : Option Bytes → Option (ℤ × Bytes) → Type 0
Returns none r = (b : Bytes) × (r ≡ some (minus_one, b))
Returns (some d) r = (b : Bytes) × (r ≡ some (pos (length d), d ++ b))

Unstuffed-Returns :
    (tail : Bytes) (d : Option Bytes) (r : Option (ℤ × Bytes)) → Unstuffed [] tail d r → Returns d r
Unstuffed-Returns tail none r h = h
Unstuffed-Returns tail (some d) r (junk, e) = (junk ++ tail, e)

-- The loop from the start of the buffer.
unstuff_from_start :
    (body tail : Bytes)
    → Returns (decode body) (unstuff_loop (suc (length body)) (body ++ tail) (length body) 0 0)
unstuff_from_start body tail = Unstuffed-Returns tail (decode body) _ (
    unstuff_loop-decode body [] [] tail (suc (length body)) (length body) 0 0 (omega arith) refl
      refl (omega arith))

hdlc_frame_unstuff-concat :
    (body tail : Bytes) (c : ℕ)
    → Returns
        (decode (if c == frame_boundary then body else body ++ c ∷ []))
        (hdlc_frame_unstuff ((body ++ c ∷ []) ++ tail) (length (body ++ c ∷ [])))
unfolding hdlc_frame_unstuff
hdlc_frame_unstuff-concat body tail c = elim (Bool-cases (c == frame_boundary)) [
  | inl e ↦
      let n : length (body ++ c ∷ []) - 1 ≡ length body =
        omega (arith, length-append body (c ∷ [])) in
      rw (ends_frame-concat body tail c, e, n, append_assoc) (unstuff_from_start body (c ∷ tail))
  | inr e ↦ rw (ends_frame-concat body tail c, e) (unstuff_from_start (body ++ c ∷ []) tail)
]

hdlc_frame_unstuff-nil : (tail : Bytes) → Returns (some []) (hdlc_frame_unstuff tail 0)
unfolding hdlc_frame_unstuff ends_frame unstuff_loop
hdlc_frame_unstuff-nil tail = (tail, refl)

-- `hdlc_frame_unstuff` never reads or writes out of its buffer, whatever the bytes. It returns -1
-- exactly where `decode` refuses the frame less a boundary at its end, and otherwise the length
-- of the decoded payload, which then stands at the start of the buffer.
pub hdlc_frame_unstuff-decode :
    (frame tail : Bytes)
    → Returns (decode (strip frame)) (hdlc_frame_unstuff (frame ++ tail) (length frame))
hdlc_frame_unstuff-decode frame tail = elim (snoc-cases frame) [
  | inl e ↦ rw e (unfold strip decode in hdlc_frame_unstuff-nil tail)
  | inr (body, c, e) ↦ rw (e, strip-concat body c) (hdlc_frame_unstuff-concat body tail c)
]

decode_plain :
    (c : ℕ) (cs : Bytes)
    → (c == frame_boundary) ≡ false
    → (c == escape_char) ≡ false
    → decode (c ∷ cs) ≡ Option.map (◌∷◌ c) (decode cs)
unfolding decode
decode_plain c [] b e = rw (b, e)
decode_plain c (d ∷ cs) b e = rw (b, e)

needs_escape-cases :
    (c : ℕ)
    → needs_escape c ≡ true
    → (c ≡ escape_char) ⊎ ((c ≡ frame_boundary) ⊎ ((c ≡ xon) ⊎ (c ≡ xoff)))
unfolding needs_escape
needs_escape-cases c h = ground arith

unescape-escape :
    (c : ℕ) → needs_escape c ≡ true → u8 (bit_xor (u8 (bit_xor c escape_bits)) escape_bits) ≡ c
unescape-escape c h = elim (needs_escape-cases c h) [
  | inl e ↦ rw e
  | inr (inl e) ↦ rw e
  | inr (inr (inl e)) ↦ rw e
  | inr (inr (inr e)) ↦ rw e
]

decode-encode_byte :
    (c : ℕ) (cs : Bytes) → decode (encode_byte c ++ cs) ≡ Option.map (◌∷◌ c) (decode cs)
unfolding encode_byte
decode-encode_byte c cs = elim (Bool-cases (needs_escape c)) [
  | inl e ↦ rw e (unfold decode in ap (λ v. Option.map (◌∷◌ v) (decode cs)) (unescape-escape c e))
  | inr e ↦ rw e (unfold needs_escape in decode_plain c cs (ground arith) (ground arith))
]

-- Decoding undoes encoding, whatever the bytes.
pub decode-encode : (xs : Bytes) → decode (encode xs) ≡ some xs
unfolding encode
decode-encode [] = unfold decode in refl
decode-encode (x ∷ xs) =
    decode-encode_byte x (encode xs) ∙ ap (Option.map (◌∷◌ x)) (decode-encode xs)

-- A buffer with the worst-case room for the frame, as the header asks.
pub has_room :
    (payload tail : Bytes)
    → length payload + 1 ≤ length tail
    → length (encode payload) + 1 ≤ length payload + length tail
has_room payload tail h = omega (arith, (encode_bounds payload).1)

-- Whatever the payload: with room for twice its size and one byte, `hdlc_frame_stuff` returns a
-- frame of that size at most, and `hdlc_frame_unstuff`
-- gives the payload back from it.
pub unstuff-stuff :
    (payload tail : Bytes)
    → length payload + 1 ≤ length tail
    → (n : ℕ) × (framed : Bytes) × (hdlc_frame_stuff (payload ++ tail) (length payload)
        ≡ some (pos n, framed))
      × (n ≤ 2 * length payload + 1)
      × Returns (some payload) (hdlc_frame_unstuff framed n)
unstuff-stuff payload tail room =
    let rest = drop (length (encode payload) + 1) (payload ++ tail) in
    let e = encode payload ++ frame_boundary ∷ [] in
    let back : Returns (some payload) (hdlc_frame_unstuff (e ++ rest) (length e)) =
      rw (strip-concat (encode payload) frame_boundary, decode-encode payload) at
        (hdlc_frame_unstuff-decode e rest) in
    (
      length (encode payload) + 1,
      encode payload ++ frame_boundary ∷ rest,
      hdlc_frame_stuff-encode payload tail (has_room payload tail room),
      omega (arith, (encode_bounds payload).1),
      rw (append_assoc, length-append (encode payload) (frame_boundary ∷ [])) at back,
    )

abbrev pub IsCleanByte : ℕ → Type 0
IsCleanByte c = (c ≢ frame_boundary) × (c ≢ xon) × (c ≢ xoff)

-- No byte of the list is one that a receiver reads as a control byte.
abbrev pub IsClean : Bytes → Type 0
IsClean [] = Unit
IsClean (c ∷ cs) = IsCleanByte c × IsClean cs

escape_char_clean : IsCleanByte escape_char
escape_char_clean = omega arith

escaped_clean : (c : ℕ) → needs_escape c ≡ true → IsCleanByte (u8 (bit_xor c escape_bits))
escaped_clean c h = elim (needs_escape-cases c h) [
  | inl e ↦ rw e (omega arith)
  | inr (inl e) ↦ rw e (omega arith)
  | inr (inr (inl e)) ↦ rw e (omega arith)
  | inr (inr (inr e)) ↦ rw e (omega arith)
]

encode_byte-IsClean : (c : ℕ) (cs : Bytes) → IsClean cs → IsClean (encode_byte c ++ cs)
unfolding encode_byte needs_escape
encode_byte-IsClean c cs h = elim (Bool-cases (needs_escape c)) [
  | inl e ↦ rw e (escape_char_clean, (escaped_clean c e, h))
  | inr e ↦ rw e (ground arith)
]

pub encode-IsClean : (xs : Bytes) → IsClean (encode xs)
unfolding encode
encode-IsClean [] = tt
encode-IsClean (x ∷ xs) = encode_byte-IsClean x (encode xs) (encode-IsClean xs)

-- With room for the worst case, what `hdlc_frame_stuff` writes is clean up to the boundary that
-- ends it: a receiver sees one boundary, at the end, and no flow-control byte of the header.
stuff-IsClean :
    (payload tail : Bytes)
    → length payload + 1 ≤ length tail
    → (body : Bytes) × (rest : Bytes) × (hdlc_frame_stuff (payload ++ tail) (length payload)
        ≡ some (pos (length body + 1), body ++ frame_boundary ∷ rest))
      × IsClean body
stuff-IsClean payload tail room = (
  encode payload,
  drop (length (encode payload) + 1) (payload ++ tail),
  hdlc_frame_stuff-encode payload tail (has_room payload tail room),
  encode-IsClean payload,
)
