-- ===== src/Nfcp/Link.antt =====
-- The two directions of the line together: which frames `nfcp_rx_packet` takes, and that it takes
-- what `nfcp_tx_packet` sends, in whatever pieces `rx_read` hands it over.
use nodeflight_fw.Base.{
  ℕ, ◌+◌, ◌*◌, ◌/◌, ◌%◌, ◌≤◌, ◌<◌, ◌&&◌, Option, none, some, [], ◌∷◌, ◌++◌, ◌==◌, ◌≡◌, ◌≢◌, refl,
  sym, ap, ap₂, ◌∙◌, ◌⊎◌, inl, inr, Bytes, length, take, drop, pos, minus_one, arith, append_assoc,
  length-append, Bool-cases, snoc-cases, lt→ltb, take-append, drop-append,
}
use nodeflight_fw.Hdlc.{frame_boundary, hdlc_frame_unstuff}
use nodeflight_fw.Hdlc.Spec.{decode, encode, encode_bounds}
use nodeflight_fw.Hdlc.RoundTrip.{
  strip, strip-concat, Returns, hdlc_frame_unstuff-decode, decode-encode,
}
use nodeflight_fw.Nfcp.Packet.{check_crc, check_frame, Rx, returns}
use nodeflight_fw.Nfcp.Sealed.{
  crc, sealed, length-sealed, frame_of, length-frame_of, check_crc-concat,
}

-- The decoded bytes are a packet with its checksum and the packet is returned, or they are none and
-- -1 is returned.
abbrev pub Verdict : Option Bytes → Rx → Type 0
Verdict d r =
    ((p : Bytes) × (rest : Bytes) × (d ≡ some (sealed p))
      × (r ≡ returns (pos (length p)) (sealed p ++ rest)))
    ⊎ (((buf : Bytes) × (r ≡ returns minus_one buf)) × ((p : Bytes) → d ≢ some (sealed p)))

short_is_none :
    (d b : Bytes) → length d < 2 → Verdict (some d) (check_crc (d ++ b) (pos (length d)))
unfolding check_crc
short_is_none d b h = inr (
  (d ++ b, rw (lt→ltb (length d) 2 h)),
  λ p e. let same : d ≡ sealed p = cc in omega (arith, ap length same, length-sealed p),
)

concat-injective :
    (p q : Bytes) (x y u v : ℕ) → p ++ x ∷ y ∷ [] ≡ q ++ u ∷ v ∷ [] → (p ≡ q) × (x ≡ u) × (y ≡ v)
concat-injective p q x y u v e =
    let n : length p ≡ length q =
      omega (arith, ap length e, length-append p (x ∷ y ∷ []), length-append q (u ∷ v ∷ [])) in
    let front : p ≡ q =
      sym (take-append p (x ∷ y ∷ []) (length p) refl)
      ∙ ap (take (length p)) e
      ∙ take-append q (u ∷ v ∷ []) (length p) n in
    let back : x ∷ y ∷ [] ≡ u ∷ v ∷ [] =
      sym (drop-append p (x ∷ y ∷ []) (length p) refl)
      ∙ ap (drop (length p)) e
      ∙ drop-append q (u ∷ v ∷ []) (length p) n in
    (front, cc, cc)

two_behind :
    (p b : Bytes) (x y : ℕ)
    → let d = p ++ x ∷ y ∷ [] in Verdict (some d) (check_crc (d ++ b) (pos (length d)))
two_behind p b x y =
    let n : length (p ++ x ∷ y ∷ []) ≡ length p + 2 = length-append p (x ∷ y ∷ []) in
    let run = check_crc-concat p b x y _ n in
    elim (Bool-cases (x == crc p / 256 && y == crc p % 256)) [
      | inl h ↦
          let ex : x ≡ crc p / 256 = ground arith in
          let ey : y ≡ crc p % 256 = ground arith in
          let same : p ++ x ∷ y ∷ [] ≡ sealed p = ap₂ (λ u v. p ++ u ∷ v ∷ []) ex ey in
          inl (
            p,
            b,
            ap some same,
            ap (λ t. check_crc t (pos (length (p ++ x ∷ y ∷ [])))) (append_assoc p (x ∷ y ∷ []) b)
                ∙ run
                ∙ rw h (
                    ap (returns (pos (length p)))
                      (sym (append_assoc p (x ∷ y ∷ []) b) ∙ ap (λ t. t ++ b) same)),
          )
      | inr h ↦ inr (
        (
          p ++ x ∷ y ∷ b,
          ap (λ t. check_crc t (pos (length (p ++ x ∷ y ∷ [])))) (append_assoc p (x ∷ y ∷ []) b)
              ∙ run
              ∙ rw h,
        ),
        λ q e.
            let same : p ++ x ∷ y ∷ [] ≡ sealed q = cc in
            let (front, ex, ey) = concat-injective p q x y _ _ same in
            let ex' : x ≡ crc p / 256 = ex ∙ ap (λ t. crc t / 256) (sym front) in
            let ey' : y ≡ crc p % 256 = ey ∙ ap (λ t. crc t % 256) (sym front) in ground arith,
      )
    ]

Verdict-some : (d b : Bytes) → Verdict (some d) (check_crc (d ++ b) (pos (length d)))
Verdict-some d b = elim (snoc-cases d) [
  | inl e ↦ short_is_none d b (rw e (omega arith))
  | inr (ys, y, e) ↦ elim (snoc-cases ys) [
    | inl e' ↦ short_is_none d b (rw (e, e') (omega arith))
    | inr (p, x, e') ↦
        let whole : d ≡ p ++ x ∷ y ∷ [] = e ∙ rw e' (append_assoc p (x ∷ []) (y ∷ [])) in
        rw whole (two_behind p b x y)
  ]
]

-- Whatever bytes stand in the buffer, the check of a frame accesses none behind it. It returns a
-- packet, which then stands at the start of the buffer, exactly where the frame decodes to the
-- packet followed by its checksum, and -1 everywhere else.
pub check_frame_lem :
    (frame tail : Bytes)
    → Verdict (decode (strip frame)) (check_frame (frame ++ tail) (length frame))
unfolding check_frame
check_frame_lem frame tail =
    by_payload (decode (strip frame)) (hdlc_frame_unstuff-decode frame tail)
  where
    by_payload :
        (d : Option Bytes)
        → Returns d (hdlc_frame_unstuff (frame ++ tail) (length frame))
        → Verdict d (check_frame (frame ++ tail) (length frame))
    by_payload none (b, e) = inr ((b, rw e), λ p h. cc)
    by_payload (some d) (b, e) = rw e (Verdict-some d b)

-- The frame of a packet is taken.
pub check_frame-frame_of :
    (payload tail : Bytes)
    → (rest : Bytes) × (check_frame (frame_of payload ++ tail) (length (frame_of payload))
        ≡ returns (pos (length payload)) (sealed payload ++ rest))
check_frame-frame_of payload tail =
    let decoded : decode (strip (frame_of payload)) ≡ some (sealed payload) =
      rw (strip-concat (encode (sealed payload)) frame_boundary) (decode-encode (sealed payload)) in
    elim (rw decoded at (check_frame_lem (frame_of payload) tail)) [
      | inl (p, rest, e, r) ↦
          let same : sealed payload ≡ sealed p = cc in
          let p' : p ≡ payload = sym (concat-injective payload p _ _ _ _ same).0 in
          (rest, r ∙ ap (λ t. returns (pos (length t)) (sealed t ++ rest)) p')
      | inr (r, not_sealed) ↦ absurd (not_sealed payload refl)
    ]

-- The frame of a packet of at most 127 bytes fits the buffer.
pub frame_of_fits : (payload : Bytes) → length (frame_of payload) ≤ 2 * length payload + 5
frame_of_fits payload =
    omega
      (arith, length-frame_of payload, length-sealed payload, (encode_bounds (sealed payload)).1)
