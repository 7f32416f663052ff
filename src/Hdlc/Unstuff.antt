-- ===== src/Hdlc/Unstuff.antt =====
-- The in-place loop of `hdlc_frame_unstuff` computes `decode`. The buffer is seen as
-- `out ++ (junk ++ (todo ++ tail))`: what is written, what is read and stale, what is to be read.
use mathlib.Core.Option
use nodeflight_fw.Base.{
  ℕ, zero, suc, ◌+◌, ◌<◌, Option, none, some, [], ◌∷◌, ◌++◌, ◌==◌, ◌≡◌, refl, sym, ap, ◌∙◌, false,
  Bytes, u8, bit_xor, length, arith, length-append, append_assoc, append-nil, get_elem?,
  get_elem?-append, store, store-append, ℤ, pos, minus_one, Bool-cases, inl, inr, lt→ltb, ge→ltb,
  ==→eq,
}
use nodeflight_fw.Hdlc.{frame_boundary, escape_char, escape_bits, unstuff_loop}
use nodeflight_fw.Hdlc.Spec.{decode}

-- A store at the end of `out` swallows one stale byte.
store_over :
    (out junk rest : Bytes) (c v wr : ℕ)
    → wr ≡ length out
    → (junk' : Bytes) × (store (out ++ (junk ++ c ∷ rest)) wr v
        ≡ some ((out ++ v ∷ []) ++ (junk' ++ rest)))
      × (length junk' ≡ length junk)
store_over out [] rest c v wr e =
    ([], store-append out rest c v wr e ∙ ap some (sym (append_assoc out (v ∷ []) rest)), refl)
store_over out (g ∷ junk) rest c v wr e = (
  junk ++ c ∷ [],
  store-append out (junk ++ c ∷ rest) g v wr e ∙ ap some (simp append_assoc),
  omega (arith, length-append junk (c ∷ [])),
)

-- The result of the loop, by the payload that is left to decode.
abbrev pub Unstuffed : Bytes → Bytes → Option Bytes → Option (ℤ × Bytes) → Type 0
Unstuffed out tail none r = (b : Bytes) × (r ≡ some (minus_one, b))
Unstuffed out tail (some d) r =
    (junk : Bytes) × (r ≡ some (pos (length (out ++ d)), (out ++ d) ++ (junk ++ tail)))

Unstuffed-map :
    (out tail : Bytes) (v : ℕ) (d : Option Bytes) (r : Option (ℤ × Bytes))
    → Unstuffed (out ++ v ∷ []) tail d r
    → Unstuffed out tail (Option.map (◌∷◌ v) d) r
Unstuffed-map out tail v none r h = h
Unstuffed-map out tail v (some d) r (junk, e) = (junk, rw (append_assoc out (v ∷ []) d) at e)

module _ (fuel len rd wr c : ℕ) (buf : Bytes) (here : get_elem? buf rd ≡ some c)
    (more : rd < len) where
  step_boundary : c ≡ frame_boundary → unstuff_loop (suc fuel) buf len rd wr ≡ some (minus_one, buf)
  unfolding unstuff_loop
  step_boundary e = rw (lt→ltb rd len more, here, e)

  step_cut :
      c ≡ escape_char → rd + 1 ≡ len → unstuff_loop (suc fuel) buf len rd wr ≡ some (minus_one, buf)
  unfolding unstuff_loop
  step_cut e last = ground (arith, here)

  step_normal :
      {b : Bytes}
      → (c == frame_boundary) ≡ false
      → (c == escape_char) ≡ false
      → store buf wr c ≡ some b
      → unstuff_loop (suc fuel) buf len rd wr ≡ unstuff_loop fuel b len (rd + 1) (wr + 1)
  unfolding unstuff_loop
  step_normal nb ne s = rw (lt→ltb rd len more, here, nb, ne, s)

  step_escaped :
      (e : ℕ) {b : Bytes}
      → c ≡ escape_char
      → get_elem? buf (rd + 1) ≡ some e
      → rd + 1 < len
      → store buf wr (u8 (bit_xor e escape_bits)) ≡ some b
      → unstuff_loop (suc fuel) buf len rd wr ≡ unstuff_loop fuel b len (rd + 2) (wr + 1)
  unfolding unstuff_loop
  step_escaped e ce there more' s = ground (arith, here, there, s)

-- The cut of the buffer before byte `n` of what is to be read.
regroup :
    (out junk rest tail : Bytes) (c : ℕ)
    → out ++ (junk ++ ((c ∷ rest) ++ tail)) ≡ (out ++ junk) ++ c ∷ (rest ++ tail)
regroup out junk rest tail c = sym (append_assoc out junk _)

read_at :
    (out junk rest tail : Bytes) (c rd : ℕ)
    → rd ≡ length out + length junk
    → get_elem? (out ++ (junk ++ ((c ∷ rest) ++ tail))) rd ≡ some c
read_at out junk rest tail c rd e =
    rw (regroup out junk rest tail c)
      (get_elem?-append (out ++ junk) (rest ++ tail) c rd (omega (arith, length-append out junk)))

read_next :
    (out junk rest tail : Bytes) (c d rd : ℕ)
    → rd ≡ length out + length junk
    → get_elem? (out ++ (junk ++ ((c ∷ d ∷ rest) ++ tail))) (rd + 1) ≡ some d
read_next out junk rest tail c d rd e = rw (regroup out junk (d ∷ rest) tail c) (
    rw (sym (append_assoc (out ++ junk) (c ∷ []) (d ∷ (rest ++ tail)))) (
      get_elem?-append ((out ++ junk) ++ c ∷ []) (rest ++ tail) d (rd + 1)
        (omega (arith, length-append (out ++ junk) (c ∷ []), length-append out junk))))

-- What is left to do behind a plain byte, with the byte moved to `out`.
abbrev Rest : Bytes → Bytes → Bytes → Bytes → ℕ → ℕ → ℕ → ℕ → ℕ → Type 0
Rest todo out tail junk v fuel len rd wr =
    (junk' : Bytes)
    → length junk' ≡ length junk
    → Unstuffed (out ++ v ∷ []) tail (decode todo)
        (unstuff_loop fuel ((out ++ v ∷ []) ++ (junk' ++ (todo ++ tail))) len rd (wr + 1))

module _ (todo out junk tail : Bytes) (fuel len rd wr c : ℕ) (w : wr ≡ length out)
    (r : rd ≡ length out + length junk) where
  take_plain :
      rd < len
      → (c == frame_boundary) ≡ false
      → (c == escape_char) ≡ false
      → Rest todo out tail junk c fuel len (rd + 1) wr
      → Unstuffed out tail
          (Option.map (◌∷◌ c) (decode todo))
          (unstuff_loop (suc fuel) (out ++ (junk ++ ((c ∷ todo) ++ tail))) len rd wr)
  take_plain more nb ne rest =
      let (junk', s, e) = store_over out junk (todo ++ tail) c c wr w in
      rw
        (step_normal fuel len rd wr c (out ++ (junk ++ ((c ∷ todo) ++ tail)))
          (read_at out junk todo tail c rd r) more nb ne s)
        (Unstuffed-map out tail c (decode todo) _ (rest junk' e))

  take_escaped :
      (d : ℕ)
      → rd + 1 < len
      → c ≡ escape_char
      → Rest todo out tail (c ∷ junk) (u8 (bit_xor d escape_bits)) fuel len (rd + 2) wr
      → Unstuffed out tail
          (Option.map (◌∷◌ (u8 (bit_xor d escape_bits))) (decode todo))
          (unstuff_loop (suc fuel) (out ++ (junk ++ ((c ∷ d ∷ todo) ++ tail))) len rd wr)
  take_escaped d more ce rest =
      let v : ℕ = u8 (bit_xor d escape_bits) in
      let (junk', s, e) = store_over out (junk ++ c ∷ []) (todo ++ tail) d v wr w in
      rw
        (step_escaped fuel len rd wr c (out ++ (junk ++ ((c ∷ d ∷ todo) ++ tail)))
          (read_at out junk (d ∷ todo) tail c rd r) (omega arith) d ce
          (read_next out junk todo tail c d rd r) more
          (rw (append_assoc junk (c ∷ []) (d ∷ (todo ++ tail))) at s))
        (Unstuffed-map out tail v (decode todo) _
          (rest junk' (omega (arith, e, length-append junk (c ∷ [])))))

  stop_at :
      rd < len
      → c ≡ frame_boundary
      → Unstuffed out tail none
          (unstuff_loop (suc fuel) (out ++ (junk ++ ((c ∷ todo) ++ tail))) len rd wr)
  stop_at more e = (_, step_boundary fuel len rd wr c _ (read_at out junk todo tail c rd r) more e)

  cut_at :
      rd + 1 ≡ len
      → c ≡ escape_char
      → Unstuffed out tail none
          (unstuff_loop (suc fuel) (out ++ (junk ++ ((c ∷ todo) ++ tail))) len rd wr)
  cut_at last e =
      (_, step_cut fuel len rd wr c _ (read_at out junk todo tail c rd r) (omega arith) e last)

loop_end :
    (out junk tail : Bytes) (fuel len rd wr : ℕ)
    → wr ≡ length out
    → len ≡ rd
    → Unstuffed out tail (some []) (unstuff_loop (suc fuel) (out ++ (junk ++ tail)) len rd wr)
unfolding unstuff_loop
loop_end out junk tail fuel len rd wr w e =
    (junk, rw (append-nil out, ge→ltb rd len (omega arith), w))

-- `hdlc_frame_unstuff` on the part of the buffer still to be read.
pub unstuff_loop-decode :
    (todo out junk tail : Bytes) (fuel len rd wr : ℕ)
    → length todo < fuel
    → wr ≡ length out
    → rd ≡ length out + length junk
    → len ≡ rd + length todo
    → Unstuffed out tail
        (decode todo)
        (unstuff_loop fuel (out ++ (junk ++ (todo ++ tail))) len rd wr)
unfolding decode
unstuff_loop-decode todo out junk tail zero len rd wr f w r l = absurd (omega arith)
unstuff_loop-decode [] out junk tail (suc fuel) len rd wr f w r l =
    loop_end out junk tail fuel len rd wr w (omega arith)
unstuff_loop-decode (c ∷ []) out junk tail (suc fuel) len rd wr f w r l =
    elim (Bool-cases (c == frame_boundary)) [
      | inl b ↦ rw b (stop_at [] out junk tail fuel len rd wr c w r (omega arith) (==→eq c _ b))
      | inr nb ↦ rw nb (elim (Bool-cases (c == escape_char)) [
        | inl e ↦ rw e (cut_at [] out junk tail fuel len rd wr c w r (omega arith) (==→eq c _ e))
        | inr ne ↦ rw ne (
            take_plain [] out junk tail fuel len rd wr c w r (omega arith) nb ne (λ junk' e.
              unstuff_loop-decode [] (out ++ c ∷ []) junk' tail fuel len (rd + 1) (wr + 1)
                (omega arith) (omega (arith, length-append out (c ∷ [])))
                (omega (arith, length-append out (c ∷ []))) (omega arith)))
      ])
    ]
unstuff_loop-decode (c ∷ d ∷ todo) out junk tail (suc fuel) len rd wr f w r l =
    elim (Bool-cases (c == frame_boundary)) [
      | inl b ↦
          rw b (stop_at (d ∷ todo) out junk tail fuel len rd wr c w r (omega arith) (==→eq c _ b))
      | inr nb ↦ rw nb (elim (Bool-cases (c == escape_char)) [
        | inl e ↦ rw e (
            take_escaped todo out junk tail fuel len rd wr c w r d (omega arith) (==→eq c _ e)
              (λ junk' j.
                unstuff_loop-decode todo (out ++ u8 (bit_xor d escape_bits) ∷ []) junk' tail fuel
                  len (rd + 2) (wr + 1) (omega arith)
                  (omega (arith, length-append out (u8 (bit_xor d escape_bits) ∷ [])))
                  (omega (arith, length-append out (u8 (bit_xor d escape_bits) ∷ [])))
                  (omega arith)))
        | inr ne ↦ rw ne (
            take_plain (d ∷ todo) out junk tail fuel len rd wr c w r (omega arith) nb ne (λ junk' e.
              unstuff_loop-decode (d ∷ todo) (out ++ c ∷ []) junk' tail fuel len (rd + 1) (wr + 1)
                (omega arith) (omega (arith, length-append out (c ∷ [])))
                (omega (arith, length-append out (c ∷ []))) (omega arith)))
      ])
    ]
