-- ===== src/Hdlc/Length.antt =====
-- `hdlc_frame_unstuff` works in its buffer: the buffer keeps its length.
use nodeflight_fw.Base.{
  ℕ, zero, suc, ◌+◌, Option, none, some, Bool, ◌==◌, ltb, if◌then◌else◌, ◌≡◌, refl, ◌∙◌, Bytes,
  length, get_elem?, store, length-store, ◌>>=◌, ℤ, true, false, Option-cases, inl, inr,
}
use nodeflight_fw.Hdlc.{frame_boundary, escape_char, unstuff_loop, hdlc_frame_unstuff}

-- A result, if there is one, has a buffer of `n` bytes.
abbrev pub HasLength : ℕ → Option (ℤ × Bytes) → Type 0
HasLength n none = Unit
HasLength n (some (r, b)) = length b ≡ n

stored :
    (buf : Bytes) (wr v n : ℕ) (k : Bytes → Option (ℤ × Bytes))
    → length buf ≡ n
    → ((b : Bytes) → length b ≡ n → HasLength n (k b))
    → HasLength n (store buf wr v >>= k)
stored buf wr v n k e h = elim (Option-cases (store buf wr v)) [
  | inl s ↦ rw s tt
  | inr (b, s) ↦ rw s (h b (length-store buf wr v s ∙ e))
]

loaded :
    (buf : Bytes) (rd n : ℕ) (k : ℕ → Option (ℤ × Bytes))
    → ((c : ℕ) → HasLength n (k c))
    → HasLength n (get_elem? buf rd >>= k)
loaded buf rd n k h = elim (Option-cases (get_elem? buf rd)) [
  | inl s ↦ rw s tt
  | inr (c, s) ↦ rw s (h c)
]

tested :
    (t : Bool) (n : ℕ) (x y : Option (ℤ × Bytes))
    → HasLength n x
    → HasLength n y
    → HasLength n (if t then x else y)
tested true n x y hx hy = hx
tested false n x y hx hy = hy

unstuff_loop-HasLength :
    (fuel : ℕ) (buf : Bytes) (len rd wr n : ℕ)
    → length buf ≡ n
    → HasLength n (unstuff_loop fuel buf len rd wr)
unfolding unstuff_loop
unstuff_loop-HasLength zero buf len rd wr n e = tt
unstuff_loop-HasLength (suc fuel) buf len rd wr n e =
    tested (ltb rd len) n _ _
      (loaded buf rd n _ λ c. tested (c == frame_boundary) n _ _ e (
        tested (c == escape_char) n _ _
          (tested (rd + 1 == len) n _ _ e (
            loaded buf (rd + 1) n _ λ d.
              stored buf wr _ n _ e
                λ b e'. unstuff_loop-HasLength fuel b len (rd + 2) (wr + 1) n e'))
          (stored buf wr c n _ e λ b e'. unstuff_loop-HasLength fuel b len (rd + 1) (wr + 1) n e')))
      e

pub hdlc_frame_unstuff-HasLength :
    (buf : Bytes) (len : ℕ) → HasLength (length buf) (hdlc_frame_unstuff buf len)
unfolding hdlc_frame_unstuff
hdlc_frame_unstuff-HasLength buf len = unstuff_loop-HasLength _ buf _ 0 0 (length buf) refl
