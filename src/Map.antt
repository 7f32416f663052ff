-- ===== src/Map.antt =====
-- src/lib/map.c: a map from strings to pointers, in chunks of 16.
pub mod Laws
pub mod Iterate
mod Tests
use nodeflight_fw.Base.{
  ℕ, zero, suc, ◌+◌, Bool, true, false, Option, none, some, List, [], ◌∷◌, if◌then◌else◌, Bytes,
  replicate, ℤ, pos, get_elem?, ltb, ◌>>=◌, minus_one,
}
use nodeflight_fw.Strops.{strops_cmp}
use nodeflight_fw.Resource.{is_zero}

-- `map_elem_t`; `none` is NULL.
pub record Elem (V : Type 0) : Type 0 where
  pub tag : Option Bytes
  pub ptr : Option V

abbrev pub Chunk : Type 0 → Type 0
Chunk V = List (Elem V)

-- A chunk of `map_create`.
abbrev pub new_chunk : {V : Type 0} → Chunk V
new_chunk = replicate 16 (record { tag = none; ptr = none })

unfoldable pub keep_elem : {V : Type 0} → Elem V → Option (ℤ × Chunk V) → Option (ℤ × Chunk V)
keep_elem e none = none
keep_elem e (some (r, es)) = some (r, e ∷ es)

-- One element in the loop of `map_set`, with its tag, the ones behind it and what the loop does
-- there. `dup` is whether `strops_dup` has memory.
unfoldable pub set_elem :
    {V : Type 0}
    → Bool
    → Bytes
    → Option V
    → Option Bytes
    → Elem V
    → Chunk V
    → Option (ℤ × Chunk V)
    → Option (ℤ × Chunk V)
unfolding is_zero keep_elem
set_elem dup tag value none e es rest =
    if dup
    then some (pos 0, record { tag = some tag; ptr = value } ∷ es)
    else some (minus_one, record { tag = none; ptr = value } ∷ es)
set_elem dup tag value (some t) e es rest =
    if is_zero (strops_cmp t tag)
    then some (pos 0, record e { ptr = value } ∷ es)
    else keep_elem e rest

-- The loop over the elements of a chunk; `none` where it ends without a return.
unfoldable pub set_elems : {V : Type 0} → Bool → Bytes → Option V → Chunk V → Option (ℤ × Chunk V)
unfolding set_elem
set_elems dup tag value [] = none
set_elems dup tag value (e ∷ es) = set_elem dup tag value e.tag e es (set_elems dup tag value es)

unfoldable pub set_chunk :
    {V : Type 0}
    → Option (ℤ × Chunk V)
    → Chunk V
    → List (Chunk V)
    → ℤ × List (Chunk V)
    → ℤ × List (Chunk V)
set_chunk none c cs rest = (rest.0, c ∷ rest.1)
set_chunk (some (r, c')) c cs rest = (r, c' ∷ cs)

-- The loop over the chunks behind one that is full. Behind the last one a new chunk is made, if `create`
-- says that there is memory; its elements are free, so that the loop ends there.
unfoldable pub set_next :
    {V : Type 0} → Bool → Bool → Bytes → Option V → List (Chunk V) → ℤ × List (Chunk V)
unfolding set_elems set_chunk
set_next dup create tag value [] =
    if create
    then set_chunk (set_elems dup tag value new_chunk) new_chunk [] (minus_one, [])
    else (minus_one, [])
set_next dup create tag value (c ∷ cs) =
    set_chunk (set_elems dup tag value c) c cs (set_next dup create tag value cs)

-- A map that is NULL, `[]`, is an error.
unfoldable pub map_set :
    {V : Type 0} → Bool → Bool → Bytes → Option V → List (Chunk V) → ℤ × List (Chunk V)
unfolding set_next set_chunk
map_set dup create tag value [] = (minus_one, [])
map_set dup create tag value (c ∷ cs) =
    set_chunk (set_elems dup tag value c) c cs (set_next dup create tag value cs)

-- One element in the loop of `map_get`.
unfoldable pub get_elem : {A : Type 0} → Option Bytes → Bytes → A → A → A → A
unfolding is_zero
get_elem none tag found nothing rest = nothing
get_elem (some t) tag found nothing rest = if is_zero (strops_cmp t tag) then found else rest

-- The loop over a chunk: what is returned, or `none` where it ends without a return.
unfoldable pub get_elems : {V : Type 0} → Bytes → Chunk V → Option (Option V)
unfolding get_elem
get_elems tag [] = none
get_elems tag (e ∷ es) = get_elem e.tag tag (some e.ptr) (some none) (get_elems tag es)

unfoldable pub get_chunk : {V : Type 0} → Option (Option V) → Option V → Option V
get_chunk none rest = rest
get_chunk (some r) rest = r

unfoldable pub map_get : {V : Type 0} → Bytes → List (Chunk V) → Option V
unfolding get_elems get_chunk
map_get tag [] = none
map_get tag (c ∷ cs) = get_chunk (get_elems tag c) (map_get tag cs)

-- `map_iter_t`.
pub record Iter (V : Type 0) : Type 0 where
  pub map : List (Chunk V)
  pub next_index : ℕ

unfoldable pub map_iter_start : {V : Type 0} → List (Chunk V) → Iter V
map_iter_start m = record { map = m; next_index = 0 }

-- The iterator behind the element before `index`.
unfoldable pub step_forward : {V : Type 0} → Chunk V → List (Chunk V) → ℕ → Iter V
step_forward c cs index =
    if ltb index 16
    then record { map = c ∷ cs; next_index = index }
    else record { map = cs; next_index = 0 }

-- The name and the value of an element with its tag, and the iterator behind it; `none` is the end.
unfoldable pub iter_elem :
    {V : Type 0} → Option Bytes → Elem V → Iter V → Option ((Bytes × Option V) × Iter V)
iter_elem none e i = none
iter_elem (some t) e i = some ((t, e.ptr), i)

-- The outer `none` is an access out of a chunk.
unfoldable pub iter_chunks :
    {V : Type 0} → List (Chunk V) → ℕ → Option (Option ((Bytes × Option V) × Iter V))
unfolding iter_elem step_forward
iter_chunks [] index = some none
iter_chunks (c ∷ cs) index =
    get_elem? c index >>= λ e. some (iter_elem e.tag e (step_forward c cs (index + 1)))

unfoldable pub map_iter_next : {V : Type 0} → Iter V → Option (Option ((Bytes × Option V) × Iter V))
unfolding iter_chunks
map_iter_next i = iter_chunks i.map i.next_index

-- One round of the loop below, with the others.
unfoldable pub iterate_step :
    {V R : Type 0}
    → (Bytes × Option V → Option R → Option R)
    → Option R
    → Option ((Bytes × Option V) × Iter V)
    → (Iter V → Option R)
    → Option R
iterate_step body last none others = last
iterate_step body last (some (x, i)) others = body x (others i)

-- The loop `while (map_iter_next(...))`, on fuel: `body` is what it does with a name and a value, from
-- what the rounds behind return, and `last` is what follows it.
unfoldable pub iterate :
    {V R : Type 0} → (Bytes × Option V → Option R → Option R) → Option R → ℕ → Iter V → Option R
unfolding map_iter_next iterate_step
iterate body last zero i = none
iterate body last (suc fuel) i =
    map_iter_next i >>= λ r. iterate_step body last r (iterate body last fuel)
