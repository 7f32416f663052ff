-- ===== src/Nfcp/Chunks.antt =====
-- The read loop of `nfcp_rx_packet`, for a frame that arrives in pieces.
use nodeflight_fw.Base.{
  ℕ, ◌+◌, ◌-◌, ◌≤◌, ◌<◌, true, false, not, ◌&&◌, some, List, [], ◌∷◌, ◌++◌, ◌==◌, ltb, ◌≡◌, ◌≢◌,
  refl, sym, ap, ◌∙◌, inl, inr, Bytes, get_elem?, length, drop, arith, append_assoc, append-nil,
  length-append, snoc-cases, lt→ltb, take-append, take_all, get_elem?-append, length-drop,
}
use nodeflight_fw.Hdlc.{frame_boundary}
use nodeflight_fw.Hdlc.RoundTrip.{IsClean}
use nodeflight_fw.Nfcp.Packet.{check_frame, Rx, Read, expired, wants_more, receive, rx_loop}

-- The bytes that the reads bring.
abbrev pub arrived : List Read → Bytes
arrived [] = []
arrived (r ∷ reads) = r.bytes ++ arrived reads

-- Every read is made before the session ends.
abbrev pub AllInTime : ℕ → List Read → Type 0
AllInTime tick_end [] = Unit
AllInTime tick_end (r ∷ reads) = (expired tick_end r.tick ≡ false) × AllInTime tick_end reads

-- The boundary is the last byte of the frame, and no other.
inside-IsClean :
    (ys body xs : Bytes) (y x : ℕ)
    → IsClean body
    → ys ++ y ∷ x ∷ xs ≡ body ++ frame_boundary ∷ []
    → y ≢ frame_boundary
inside-IsClean [] [] xs y x c e = cc
inside-IsClean [] (b ∷ body) xs y x c e = let same : y ≡ b = cc in rw same c.0.0
inside-IsClean (z ∷ ys) [] xs y x c e =
    let rest : ys ++ y ∷ x ∷ xs ≡ [] = cc in
    absurd (omega (arith, ap length rest, length-append ys (y ∷ x ∷ xs)))
inside-IsClean (z ∷ ys) (b ∷ body) xs y x c e = inside-IsClean ys body xs y x c.1 (cc)

last_at :
    (ys rest : Bytes) (y : ℕ)
    → get_elem? ((ys ++ y ∷ []) ++ rest) (length (ys ++ y ∷ []) - 1) ≡ some y
last_at ys rest y =
    rw (append_assoc ys (y ∷ []) rest)
      (get_elem?-append ys rest y _ (omega (arith, length-append ys (y ∷ []))))

-- The condition of the loop, by the last byte in the buffer.
wants_more-concat :
    (ys rest : Bytes) (y size : ℕ)
    → let got = ys ++ y ∷ [] in
      wants_more (got ++ rest) size (length got)
      ≡ (ltb (length got) size && not (y == frame_boundary))
unfolding wants_more
wants_more-concat ys rest y size =
    let n : (length (ys ++ y ∷ []) == 0) ≡ false = ground (arith, length-append ys (y ∷ [])) in
    rw (n, last_at ys rest y)

wants_more-nil : (rest : Bytes) (size : ℕ) → 0 < size → wants_more rest size 0 ≡ true
unfolding wants_more
wants_more-nil rest size h = rw (lt→ltb 0 size h)

-- A read that fits is stored behind what is there.
receive-append :
    (got rest bytes : Bytes)
    → receive (got ++ rest) (length got) bytes
      ≡ (got ++ bytes) ++ drop (length got + length bytes) (got ++ rest)
unfolding receive
receive-append got rest bytes =
    rw (take-append got rest (length got) refl) (sym (append_assoc got bytes _))

module _ (body : Bytes) (clean : IsClean body) where
  -- While a byte of the frame is missing, the loop goes on.
  wants_rest :
      (got rest xs : Bytes) (x size : ℕ)
      → got ++ x ∷ xs ≡ body ++ frame_boundary ∷ []
      → length got < size
      → wants_more (got ++ rest) size (length got) ≡ true
  wants_rest got rest xs x size e h = elim (snoc-cases got) [
    | inl g ↦ rw g (wants_more-nil rest size (omega arith))
    | inr (ys, y, g) ↦
        let other : y ≢ frame_boundary =
          inside-IsClean ys body xs y x clean
            (sym (append_assoc ys (y ∷ []) (x ∷ xs)) ∙ ap (λ t. t ++ x ∷ xs) (sym g) ∙ e) in
        let n : length (ys ++ y ∷ []) < size = rw g at h in
        rw g (wants_more-concat ys rest y size ∙ ground (arith, other))
  ]

  -- With the whole frame in the buffer it stops.
  wants_nothing :
      (rest : Bytes) (size : ℕ)
      → let frame = body ++ frame_boundary ∷ [] in
        wants_more (frame ++ rest) size (length frame) ≡ false
  wants_nothing rest size = wants_more-concat body rest frame_boundary size ∙ ground arith

  -- What the loop comes to: the frame at the start of the buffer, and its check.
  abbrev HandsOn : Rx → Type 0
  HandsOn r =
      (rest : Bytes) × (r
        ≡ check_frame ((body ++ frame_boundary ∷ []) ++ rest)
            (length (body ++ frame_boundary ∷ [])))

  stopped :
      (reads : List Read) (got rest : Bytes) (size tick_end : ℕ)
      → got ≡ body ++ frame_boundary ∷ []
      → HandsOn (rx_loop reads (got ++ rest) size (length got) tick_end)
  unfolding rx_loop
  stopped [] got rest size tick_end g = (rest, rw (g, wants_nothing rest size))
  stopped (r ∷ reads) got rest size tick_end g = (rest, rw (g, wants_nothing rest size))

  moves_on :
      (r : Read) (reads : List Read) (got rest : Bytes) (size tick_end : ℕ)
      → wants_more (got ++ rest) size (length got) ≡ true
      → expired tick_end r.tick ≡ false
      → length got + length r.bytes ≤ size
      → rx_loop (r ∷ reads) (got ++ rest) size (length got) tick_end
        ≡ rx_loop reads
            ((got ++ r.bytes) ++ drop (length got + length r.bytes) (got ++ rest))
            size
            (length (got ++ r.bytes))
            tick_end
  unfolding rx_loop
  moves_on r reads got rest size tick_end w t fits = rw (
    w,
    t,
    take_all r.bytes (size - length got) (omega arith),
    receive-append got rest r.bytes,
    length-append got r.bytes,
  )

  -- However the bytes of the frame are cut into reads, empty ones too, the loop hands the frame on.
  pub rx_loop-arrived :
      (reads : List Read) (got rest : Bytes) (size tick_end : ℕ)
      → AllInTime tick_end reads
      → got ++ arrived reads ≡ body ++ frame_boundary ∷ []
      → length (body ++ frame_boundary ∷ []) ≤ size
      → length got + length rest ≡ size
      → HandsOn (rx_loop reads (got ++ rest) size (length got) tick_end)
  rx_loop-arrived [] got rest size tick_end t e fits room =
      stopped [] got rest size tick_end (sym (append-nil got) ∙ e)
  rx_loop-arrived (r ∷ reads) got rest size tick_end t e fits room =
      on (r.bytes ++ arrived reads) refl (
        rx_loop-arrived reads (got ++ r.bytes) (drop (length got + length r.bytes) (got ++ rest))
          size tick_end t.1 (append_assoc got r.bytes (arrived reads) ∙ e) fits
          (omega (
            arith,
            length-append got r.bytes,
            length-append got rest,
            length-drop (length got + length r.bytes) (got ++ rest),
            enough,
          )))
    where
      enough : length got + (length r.bytes + length (arrived reads)) ≤ size
      enough = omega (
        arith,
        fits,
        ap length e,
        length-append got (r.bytes ++ arrived reads),
        length-append r.bytes (arrived reads),
      )

      on :
          (todo : Bytes)
          → r.bytes ++ arrived reads ≡ todo
          → HandsOn (
              rx_loop reads
                ((got ++ r.bytes) ++ drop (length got + length r.bytes) (got ++ rest))
                size
                (length (got ++ r.bytes))
                tick_end)
          → HandsOn (rx_loop (r ∷ reads) (got ++ rest) size (length got) tick_end)
      on [] q (rest', ih) =
          stopped (r ∷ reads) got rest size tick_end
            (sym (append-nil got) ∙ ap (λ t. got ++ t) (sym q) ∙ e)
      on (x ∷ xs) q (rest', ih) =
          let frame : got ++ x ∷ xs ≡ body ++ frame_boundary ∷ [] =
            ap (λ t. got ++ t) (sym q) ∙ e in
          let more : length got < size =
            omega (arith, fits, ap length frame, length-append got (x ∷ xs)) in
          (
            rest',
            moves_on r reads got rest size tick_end (wants_rest got rest xs x size frame more) t.0
                  (omega (arith, enough))
                ∙ ih,
          )
