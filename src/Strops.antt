-- ===== src/Strops.antt =====
-- src/lib/strops.c: strings, as the lists of their characters before the NUL that ends them.
pub mod Compare
pub mod Lines
pub mod Numbers
pub mod Split
pub mod Words
pub mod Copies
pub mod Stored
pub mod Arguments
pub mod Dup
pub mod Duplicates
mod Tests
use nodeflight_fw.Base.{
  ℕ, zero, suc, ◌+◌, ◌-◌, ◌*◌, Bool, Option, none, some, List, [], ◌∷◌, ◌==◌, ltb, leb, ◌&&◌,
  if◌then◌else◌, Bytes, store, ◌>>=◌, ℤ, pos, negsuc, minus_one, length,
}

-- The sign of the difference. `char` has no sign on the target.
unfoldable pub strops_cmp : Bytes → Bytes → ℤ
strops_cmp [] [] = pos 0
strops_cmp [] (b ∷ bs) = minus_one
strops_cmp (a ∷ cs) [] = pos 1
strops_cmp (a ∷ cs) (b ∷ bs) =
    let rest = strops_cmp cs bs in if ltb a b then minus_one else if ltb b a then pos 1 else rest

abbrev pub newline : ℕ
newline = 10

-- The loop of `strops_line_copy` and what follows it, with `wr` characters written and `room` left
-- beside the NUL: the status, the destination and the text that `*ptr` is left at.
pub line_loop : ℕ → ℤ → Bytes → ℕ → Bytes → Option (ℤ × (Bytes × Bytes))
line_loop room status dst wr [] = store dst wr 0 >>= λ d. some (status, (d, []))
line_loop room status dst wr (c ∷ cs) =
    let kept = store dst wr c >>= λ d. line_loop (room - 1) status d (wr + 1) cs in
    let cut = line_loop room minus_one dst wr cs in
    if c == newline
    then store dst wr 0 >>= (λ d. some (status, (d, cs)))
    else if ltb 0 room
    then kept
    else cut

pub strops_line_copy : Bytes → ℕ → Bytes → Option (ℤ × (Bytes × Bytes))
strops_line_copy dst dst_len src = line_loop (dst_len - 1) (pos 0) dst 0 src

abbrev pub is_digit : ℕ → Bool
is_digit c = leb 48 c && leb c 57

-- `-res`.
unfoldable pub negate : ℕ → ℤ
negate zero = pos 0
negate (suc n) = negsuc n

-- The loop of `strops_word_to_int`; `none` is an overflow of 32 bits, which is undefined.
unfoldable pub digits_loop : ℕ → Bytes → Option ℕ
digits_loop res [] = some res
digits_loop res (c ∷ cs) =
    let next = digits_loop (res * 10 + (c - 48)) cs in
    if is_digit c then if ltb 2147483647 (res * 10 + (c - 48)) then none else next else some res

unfoldable pub strops_word_to_int : Bytes → Option ℤ
unfolding digits_loop negate
strops_word_to_int [] = some (pos 0)
strops_word_to_int (c ∷ word) =
    if c == 45
    then digits_loop 0 word >>= (λ res. some (negate res))
    else digits_loop 0 (c ∷ word) >>= (λ res. some (pos res))
