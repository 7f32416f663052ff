-- ===== src/Hdlc/Stuff.antt =====
-- The loops of `hdlc_frame_stuff` compute `encode`, from the end so that no byte is overwritten
-- before it is read.
use nodeflight_fw.Base.{
  ℕ, zero, suc, ◌+◌, ◌-◌, ◌≤◌, ◌<◌, some, [], ◌∷◌, ◌++◌, ◌≡◌, refl, sym, ap, ◌∙◌, true, false,
  if◌then◌else◌, Bytes, u8, bit_xor, length, arith, length-append, append_assoc, get_elem?,
  get_elem?-append, set, take, drop, store-set, pos, Bool-cases, inl, inr, take-set, drop-set_self,
  get_elem?-lt, take-suc, length-set, length-take, take-append, zero-add,
}
use nodeflight_fw.Hdlc.{
  frame_boundary, escape_char, escape_bits, needs_escape, count_loop, stuff_loop, hdlc_frame_stuff,
}
use nodeflight_fw.Hdlc.Spec.{
  encode_byte, encode, encode-append, encode-single, length-encode_byte, encode_bounds,
}

-- The first loop counts the bytes of the frame.
count_loop-encode :
    (todo done tail : Bytes) (rd n : ℕ)
    → rd ≡ length done
    → count_loop (length todo) (done ++ (todo ++ tail)) rd n ≡ some (n + length (encode todo))
unfolding count_loop encode
count_loop-encode [] done tail rd n e = ap some (omega arith)
count_loop-encode (c ∷ todo) done tail rd n e = rw (get_elem?-append done (todo ++ tail) c rd e) (
    rw (sym (append_assoc done (c ∷ []) (todo ++ tail))) (
      count_loop-encode todo (done ++ c ∷ []) tail (rd + 1) (n + (if needs_escape c then 2 else 1))
        (omega (arith, length-append done (c ∷ [])))
      ∙ ap some (omega (arith, length-append (encode_byte c) (encode todo), length-encode_byte c))))

-- The frame of one byte more.
encode-take-suc :
    (buf : Bytes) (k c : ℕ)
    → get_elem? buf k ≡ some c
    → encode (take (suc k) buf) ≡ encode (take k buf) ++ encode_byte c
encode-take-suc buf k c h =
    ap encode (take-suc buf k c h)
    ∙ encode-append (take k buf) (c ∷ [])
    ∙ ap (λ t. encode (take k buf) ++ t) (encode-single c)

module _ (k wr : ℕ) (buf : Bytes) (c : ℕ) (here : get_elem? buf k ≡ some c) where
  step_plain :
      needs_escape c ≡ false
      → wr - 1 < length buf
      → stuff_loop (suc k) buf wr ≡ stuff_loop k (set buf (wr - 1) c) (wr - 1)
  unfolding stuff_loop
  step_plain p h = rw (here, p, store-set buf (wr - 1) c h)

  abbrev escaped_at : Bytes
  escaped_at = set (set buf (wr - 1) (u8 (bit_xor c escape_bits))) (wr - 2) escape_char

  step_escape :
      needs_escape c ≡ true
      → wr - 1 < length buf
      → stuff_loop (suc k) buf wr ≡ stuff_loop k escaped_at (wr - 2)
  unfolding stuff_loop
  step_escape p h = rw (
    here,
    p,
    store-set buf (wr - 1) (u8 (bit_xor c escape_bits)) h,
    store-set (set buf (wr - 1) (u8 (bit_xor c escape_bits))) (wr - 2) escape_char
        (rw length-set (omega arith)),
  )

  take-escaped_at : k ≤ wr - 2 → take k escaped_at ≡ take k buf
  take-escaped_at h = take-set _ k (wr - 2) _ h ∙ take-set buf k (wr - 1) _ (omega arith)

  drop-escaped_at :
      2 ≤ wr
      → wr ≤ length buf
      → drop (wr - 2) escaped_at ≡ escape_char ∷ u8 (bit_xor c escape_bits) ∷ drop wr buf
  drop-escaped_at h l =
      drop-set_self _ (wr - 2) (wr - 1) escape_char (rw length-set (omega arith)) (omega arith)
      ∙ ap (◌∷◌ escape_char) (drop-set_self buf (wr - 1) wr _ (omega arith) (omega arith))

-- The length of a frame of `k + 1` bytes, by its last byte.
length-encode-take-suc :
    (buf : Bytes) (k c : ℕ)
    → get_elem? buf k ≡ some c
    → k ≤ length buf
    → (length (encode (take (suc k) buf))
        ≡ length (encode (take k buf)) + (if needs_escape c then 2 else 1))
      × (k ≤ length (encode (take k buf)))
length-encode-take-suc buf k c h m = (
  ap length (encode-take-suc buf k c h)
      ∙ length-append (encode (take k buf)) (encode_byte c)
      ∙ ap (λ (n : ℕ). length (encode (take k buf)) + n) (length-encode_byte c),
  omega (arith, (encode_bounds (take k buf)).0, length-take k buf),
)

encode_byte_plain : (c : ℕ) → needs_escape c ≡ false → encode_byte c ≡ c ∷ []
unfolding encode_byte
encode_byte_plain c p = rw p

encode_byte_escaped :
    (c : ℕ) → needs_escape c ≡ true → encode_byte c ≡ escape_char ∷ u8 (bit_xor c escape_bits) ∷ []
unfolding encode_byte
encode_byte_escaped c p = rw p

-- The loop from `k` bytes on.
abbrev Done : ℕ → Type 0
Done k =
    (wr : ℕ) (buf : Bytes)
    → wr ≡ length (encode (take k buf))
    → wr ≤ length buf
    → k ≤ length buf
    → stuff_loop k buf wr ≡ some (encode (take k buf) ++ drop wr buf)

Done-suc :
    (k wr : ℕ) (buf : Bytes) (c : ℕ)
    → Done k
    → get_elem? buf k ≡ some c
    → wr ≡ length (encode (take (suc k) buf))
    → wr ≤ length buf
    → suc k ≤ length buf
    → stuff_loop (suc k) buf wr ≡ some (encode (take (suc k) buf) ++ drop wr buf)
Done-suc k wr buf c rest here e l m =
    let (n, low) = length-encode-take-suc buf k c here (omega arith) in
    elim (Bool-cases (needs_escape c)) [
      | inl p ↦
          let n' : wr ≡ length (encode (take k buf)) + 2 = e ∙ n ∙ rw p in
          let same = take-escaped_at k wr buf c here (omega arith) in
          step_escape k wr buf c here p (omega arith)
          ∙ rest (wr - 2) (escaped_at k wr buf c here) (rw same (omega arith))
              (rw (length-set, length-set) (omega arith))
              (rw (length-set, length-set) (omega arith))
          ∙ rw (
            same,
            drop-escaped_at k wr buf c here (omega arith) l,
            encode-take-suc buf k c here,
            encode_byte_escaped c p,
            append_assoc,
          )
      | inr p ↦
          let n' : wr ≡ length (encode (take k buf)) + 1 = e ∙ n ∙ rw p in
          let same = take-set buf k (wr - 1) c (omega arith) in
          step_plain k wr buf c here p (omega arith)
          ∙ rest (wr - 1) (set buf (wr - 1) c) (rw same (omega arith)) (rw length-set (omega arith))
              (rw length-set (omega arith))
          ∙ rw (
            same,
            drop-set_self buf (wr - 1) wr c (omega arith) (omega arith),
            encode-take-suc buf k c here,
            encode_byte_plain c p,
            append_assoc,
          )
    ]

-- The second loop leaves the frame of the first `k` bytes before what was at `wr`.
stuff_loop-encode : (k : ℕ) → Done k
stuff_loop-encode zero wr buf e l m = unfold encode stuff_loop in rw e
stuff_loop-encode (suc k) wr buf e l m =
    let (c, here) = get_elem?-lt buf k (omega arith) in
    Done-suc k wr buf c (stuff_loop-encode k) here e l m

-- `hdlc_frame_stuff` replaces the payload by its frame, if the buffer is large enough, and keeps
-- the bytes of the buffer behind the frame.
pub hdlc_frame_stuff-encode :
    (payload tail : Bytes)
    → length (encode payload) + 1 ≤ length payload + length tail
    → hdlc_frame_stuff (payload ++ tail) (length payload)
      ≡ some (
        pos (length (encode payload) + 1),
        encode payload ++ frame_boundary ∷ drop (length (encode payload) + 1) (payload ++ tail),
      )
unfolding hdlc_frame_stuff
hdlc_frame_stuff-encode payload tail fits =
    let n = length (encode payload) in
    let buf = payload ++ tail in
    let marked = set buf n frame_boundary in
    let size = length-append payload tail in
    let low = (encode_bounds payload).0 in
    let e : n + 1 - 1 ≡ n = omega arith in
    let same : take (length payload) marked ≡ payload =
      take-set buf (length payload) n frame_boundary low ∙ take-append payload tail _ refl in
    rw (
      count_loop-encode payload [] tail 0 0 refl,
      zero-add,
      e,
      store-set buf n frame_boundary (omega arith),
      stuff_loop-encode (length payload) n marked (ap (λ t. length (encode t)) (sym same))
          (rw length-set (omega arith)) (rw length-set (omega arith)),
      same,
      drop-set_self buf n (n + 1) frame_boundary (omega arith) (omega arith),
    )
