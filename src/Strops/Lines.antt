-- ===== src/Strops/Lines.antt =====
-- What `strops_line_copy` copies and where it leaves the text.
use nodeflight_fw.Base.{
  ℕ, zero, suc, ◌-◌, ◌<◌, some, [], ◌∷◌, ◌++◌, ◌==◌, ltb, leb, if◌then◌else◌, ◌≡◌, refl, Bytes, ℤ,
  pos, minus_one, length, take, drop, arith, Bool-cases, inl, inr, store-append, append_assoc,
  length-append, Bool, true, false,
}
use nodeflight_fw.Strops.{newline, line_loop, strops_line_copy}

-- The text up to its first newline, and behind it.
pub line_of : Bytes → Bytes
line_of [] = []
line_of (c ∷ cs) = if c == newline then [] else c ∷ line_of cs

pub rest_of : Bytes → Bytes
rest_of [] = []
rest_of (c ∷ cs) = if c == newline then cs else rest_of cs

-- Bytes `written` from a place of the buffer on.
abbrev pub overwritten : Bytes → Bytes → Bytes
overwritten written tail = written ++ 0 ∷ drop (suc (length written)) tail

-- A status of -1 for a line that is cut.
abbrev pub line_status : ℕ → ℤ → Bytes → ℤ
line_status room status line = if leb (length line) room then status else minus_one

fits_empty : (room : ℕ) → leb 0 room ≡ true
fits_empty room = ground arith

fits_cons : (n room : ℕ) → leb (suc n) (suc room) ≡ leb n room
fits_cons n room = ground arith

cut_cons : (n : ℕ) → leb (suc n) 0 ≡ false
cut_cons n = ground arith

room_left : (room : ℕ) → ltb 0 (suc room) ≡ true
room_left room = ground arith

one_less : (room : ℕ) → suc room - 1 ≡ room
one_less room = omega arith

take_empty : (room : ℕ) → take {A = ℕ} room [] ≡ []
take_empty zero = refl
take_empty (suc room) = refl

same_status : (b : Bool) → (if b then minus_one else minus_one) ≡ minus_one
same_status true = refl
same_status false = refl

line_loop_lem :
    (room : ℕ) (status : ℤ) (xs tail src : Bytes)
    → length tail ≡ suc room
    → line_loop room status (xs ++ tail) (length xs) src
      ≡ some (
        line_status room status (line_of src),
        (xs ++ overwritten (take room (line_of src)) tail, rest_of src),
      )
unfolding line_loop line_of rest_of
line_loop_lem room status xs [] src e = absurd (omega arith)
line_loop_lem room status xs (t ∷ tail) [] e =
    rw (store-append xs tail t 0 (length xs) refl, fits_empty room, take_empty room) refl
line_loop_lem zero status xs (t ∷ tail) (c ∷ cs) e = elim (Bool-cases (c == newline)) [
  | inl z ↦ rw (z, store-append xs tail t 0 (length xs) refl) refl
  | inr z ↦
      rw
        (
          z,
          line_loop_lem zero minus_one xs (t ∷ tail) cs e,
          same_status (leb (length (line_of cs)) 0),
          cut_cons (length (line_of cs)),
        )
        refl
]
line_loop_lem (suc room) status xs (t ∷ tail) (c ∷ cs) e = elim (Bool-cases (c == newline)) [
  | inl z ↦ rw (z, store-append xs tail t 0 (length xs) refl, fits_empty (suc room)) refl
  | inr z ↦
      let next =
        rw (append_assoc xs (c ∷ []) tail, length-append xs (c ∷ []), append_assoc xs (c ∷ [])) at
          (line_loop_lem room status (xs ++ c ∷ []) tail cs (omega arith)) in
      rw
        (
          z,
          store-append xs tail t c (length xs) refl,
          fits_cons (length (line_of cs)) room,
          room_left room,
          one_less room,
        )
        next
]

-- `strops_line_copy` to a buffer of at least one byte stays in it. It copies the line up to its
-- newline as far as it fits with a NUL behind it, keeps the rest of the buffer, leaves the text
-- behind the newline, and returns 0 if all of the line fits and -1 if not.
pub strops_line_copy-line_of :
    (dst src : Bytes)
    → 0 < length dst
    → strops_line_copy dst (length dst) src
      ≡ some (
        line_status (length dst - 1) (pos 0) (line_of src),
        (overwritten (take (length dst - 1) (line_of src)) dst, rest_of src),
      )
unfolding strops_line_copy
strops_line_copy-line_of dst src h = line_loop_lem (length dst - 1) (pos 0) [] dst src (omega arith)
