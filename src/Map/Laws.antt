-- ===== src/Map/Laws.antt =====
-- The laws of set and get, by way of the list of all elements.
use nodeflight_fw.Base.{
  Bool, minus_one, ℕ, zero, suc, true, false, Option, none, some, List, [], ◌∷◌, ◌++◌,
  if◌then◌else◌, Bytes, ◌≡◌, ◌≢◌, refl, sym, ap, ◌∙◌, ℤ, pos, Bool-cases, inl, inr, subst, ◌⊎◌,
  replicate,
}
use nodeflight_fw.Strops.{strops_cmp}
use nodeflight_fw.Resource.{is_zero}
use nodeflight_fw.Resource.Lookup.{same_string, is_zero_self}
use nodeflight_fw.Map.{
  Elem, Chunk, keep_elem, set_elem, set_elems, set_chunk, set_next, map_set, get_elem, get_elems,
  get_chunk, map_get,
}

-- The elements of all chunks, in order.
unfoldable pub elems : {V : Type 0} → List (Chunk V) → Chunk V
elems [] = []
elems (c ∷ cs) = c ++ elems cs

-- `map_get` and `map_set` without chunks.
get_flat : {V : Type 0} → Bytes → Chunk V → Option V
get_flat tag [] = none
get_flat tag (e ∷ es) = get_elem e.tag tag e.ptr none (get_flat tag es)

put_at : {V : Type 0} → Bytes → Option V → Option Bytes → Elem V → Chunk V → Chunk V → Chunk V
put_at tag value none e es rest = record { tag = some tag; ptr = value } ∷ es
put_at tag value (some t) e es rest =
    if is_zero (strops_cmp t tag) then record e { ptr = value } ∷ es else e ∷ rest

put_flat : {V : Type 0} → Bytes → Option V → Chunk V → Chunk V
put_flat tag value [] =
    record { tag = some tag; ptr = value } ∷ replicate 15 (record { tag = none; ptr = none })
put_flat tag value (e ∷ es) = put_at tag value e.tag e es (put_flat tag value es)

get_elem_step :
    {V : Type 0} (t : Option Bytes) (tag : Bytes) (ptr : Option V) (o : Option (Option V))
    (rest total : Option V)
    → get_chunk o rest ≡ total
    → get_chunk (get_elem t tag (some ptr) (some none) o) rest ≡ get_elem t tag ptr none total
unfolding get_elem get_chunk
get_elem_step none tag ptr o rest total h = refl
get_elem_step (some u) tag ptr o rest total h = elim (Bool-cases (is_zero (strops_cmp u tag))) [
  | inl z ↦ rw z refl
  | inr z ↦ rw z h
]

get_elems-append :
    {V : Type 0} (tag : Bytes) (c es : Chunk V)
    → get_chunk (get_elems tag c) (get_flat tag es) ≡ get_flat tag (c ++ es)
unfolding get_elems get_flat get_chunk
get_elems-append tag [] es = refl
get_elems-append tag (e ∷ c) es =
    get_elem_step e.tag tag e.ptr (get_elems tag c) (get_flat tag es) (get_flat tag (c ++ es))
      (get_elems-append tag c es)

map_get-flat :
    {V : Type 0} (tag : Bytes) (m : List (Chunk V)) → map_get tag m ≡ get_flat tag (elems m)
unfolding map_get elems get_flat
map_get-flat tag [] = refl
map_get-flat tag (c ∷ cs) = rw (map_get-flat tag cs) (get_elems-append tag c (elems cs))

-- The loop over a chunk goes on, or returns 0 with a changed chunk; `f` is what is wanted.
abbrev Puts :
    {V : Type 0} → Bytes → Option V → Chunk V → (Chunk V → Chunk V) → Option (ℤ × Chunk V) → Type 0
Puts {V} tag value c f o =
    ((o ≡ none) × ((es : Chunk V) → f es ≡ c ++ put_flat tag value es))
    ⊎ ((c' : Chunk V) × (o ≡ some (pos 0, c')) × ((es : Chunk V) → f es ≡ c' ++ es))

set_elem-Puts :
    {V : Type 0} (tag : Bytes) (value : Option V) (t : Option Bytes) (e : Elem V) (c : Chunk V)
    (f : Chunk V → Chunk V) (o : Option (ℤ × Chunk V))
    → Puts tag value c f o
    → Puts tag value
        (e ∷ c)
        (λ es. put_at tag value t e (c ++ es) (f es))
        (set_elem true tag value t e c o)
unfolding set_elem put_at keep_elem
set_elem-Puts tag value none e c f o p = inr (_, refl, λ es. refl)
set_elem-Puts tag value (some u) e c f o p = elim (Bool-cases (is_zero (strops_cmp u tag))) [
  | inl z ↦ rw z (inr (_, refl, λ es. refl))
  | inr z ↦ rw z (elim p [
    | inl (run, all) ↦ inl (rw run refl, λ es. ap (◌∷◌ e) (all es))
    | inr (c', run, all) ↦ inr (e ∷ c', rw run refl, λ es. ap (◌∷◌ e) (all es))
  ])
]

set_elems-Puts :
    {V : Type 0} (tag : Bytes) (value : Option V) (c : Chunk V)
    → Puts tag value c (λ es. put_flat tag value (c ++ es)) (set_elems true tag value c)
unfolding set_elems put_flat
set_elems-Puts tag value [] = inl (refl, λ es. refl)
set_elems-Puts tag value (e ∷ c) =
    set_elem-Puts tag value e.tag e c (λ es. put_flat tag value (c ++ es)) _
      (set_elems-Puts tag value c)

set_next-flat :
    {V : Type 0} (tag : Bytes) (value : Option V) (m : List (Chunk V))
    → (m' : List (Chunk V)) × (set_next true true tag value m ≡ (pos 0, m'))
      × (elems m' ≡ put_flat tag value (elems m))
unfolding set_next set_chunk elems put_flat set_elems set_elem
set_next-flat tag value [] = (_, refl, refl)
set_next-flat tag value (c ∷ cs) = elim (set_elems-Puts tag value c) [
  | inl (run, all) ↦
      let (m', rest, e) = set_next-flat tag value cs in
      (c ∷ m', rw (run, rest) refl, ap (λ t. c ++ t) e ∙ sym (all (elems cs)))
  | inr (c', run, all) ↦ (c' ∷ cs, rw run refl, sym (all (elems cs)))
]

map_set-next :
    {V : Type 0} (dup create : Bool) (tag : Bytes) (value : Option V) (c : Chunk V)
    (cs : List (Chunk V))
    → map_set dup create tag value (c ∷ cs) ≡ set_next dup create tag value (c ∷ cs)
unfolding map_set set_next
map_set-next dup create tag value c cs = refl

-- Behind a free element all are free.
abbrev pub AllFree : {V : Type 0} → Chunk V → Type 0
AllFree [] = Unit
AllFree (e ∷ es) = (e.tag ≡ none) × AllFree es

abbrev pub PackedAt : {V : Type 0} → Option Bytes → Chunk V → Type 0 → Type 0
PackedAt none es p = AllFree es
PackedAt (some t) es p = p

abbrev pub Packed : {V : Type 0} → Chunk V → Type 0
Packed [] = Unit
Packed (e ∷ es) = PackedAt e.tag es (Packed es)

is_zero-eq : (xs : Bytes) → is_zero (strops_cmp xs xs) ≡ true
is_zero-eq xs = is_zero_self xs xs refl

is_zero-ne : (xs ys : Bytes) → xs ≢ ys → is_zero (strops_cmp xs ys) ≡ false
is_zero-ne xs ys ne = elim (Bool-cases (is_zero (strops_cmp xs ys))) [
  | inl z ↦ absurd (ne (same_string xs ys z))
  | inr z ↦ z
]

get_put_at :
    {V : Type 0} (tag : Bytes) (value : Option V) (t : Option Bytes) (e : Elem V)
    (es rest : Chunk V)
    → t ≡ e.tag
    → get_flat tag rest ≡ value
    → get_flat tag (put_at tag value t e es rest) ≡ value
unfolding put_at get_flat get_elem
get_put_at tag value none e es rest same h = rw (is_zero-eq tag) refl
get_put_at tag value (some u) e es rest same h = elim (Bool-cases (is_zero (strops_cmp u tag))) [
  | inl z ↦ rw (z, sym same, z) refl
  | inr z ↦ rw (z, sym same, z) h
]

get_put_same :
    {V : Type 0} (tag : Bytes) (value : Option V) (es : Chunk V)
    → get_flat tag (put_flat tag value es) ≡ value
unfolding put_flat get_flat get_elem
get_put_same tag value [] = rw (is_zero-eq tag) refl
get_put_same tag value (e ∷ es) =
    get_put_at tag value e.tag e es (put_flat tag value es) refl (get_put_same tag value es)

get_flat-AllFree : {V : Type 0} (tag : Bytes) (es : Chunk V) → AllFree es → get_flat tag es ≡ none
unfolding get_flat get_elem
get_flat-AllFree tag [] h = refl
get_flat-AllFree tag (e ∷ es) (f, h) = rw f refl

get_put_at_other :
    {V : Type 0} (tag other : Bytes) (value : Option V) (t : Option Bytes) (e : Elem V)
    (es rest : Chunk V) (p : Type 0)
    → t ≡ e.tag
    → tag ≢ other
    → PackedAt t es p
    → (p → get_flat other rest ≡ get_flat other es)
    → get_flat other (put_at tag value t e es rest) ≡ get_flat other (e ∷ es)
unfolding put_at get_flat get_elem
get_put_at_other tag other value none e es rest p same ne packed h =
    rw (is_zero-ne tag other ne, sym same) (get_flat-AllFree other es packed)
get_put_at_other tag other value (some u) e es rest p same ne packed h =
    elim (Bool-cases (is_zero (strops_cmp u tag))) [
      | inl z ↦
          let differs : is_zero (strops_cmp u other) ≡ false =
            is_zero-ne u other (λ q. ne (sym (same_string u tag z) ∙ q)) in
          rw (z, sym same, differs) refl
      | inr z ↦
          rw (z, sym same) (ap (λ r. if is_zero (strops_cmp u other) then e.ptr else r) (h packed))
    ]

get_put_other :
    {V : Type 0} (tag other : Bytes) (value : Option V) (es : Chunk V)
    → tag ≢ other
    → Packed es
    → get_flat other (put_flat tag value es) ≡ get_flat other es
unfolding put_flat get_flat get_elem
get_put_other tag other value [] ne packed = rw (is_zero-ne tag other ne) refl
get_put_other tag other value (e ∷ es) ne packed =
    get_put_at_other tag other value e.tag e es (put_flat tag value es) (Packed es) refl ne packed
      (get_put_other tag other value es ne)

put_at-Packed :
    {V : Type 0} (tag : Bytes) (value : Option V) (t : Option Bytes) (e : Elem V)
    (es rest : Chunk V)
    → t ≡ e.tag
    → PackedAt t es (Packed es)
    → (Packed es → Packed rest)
    → Packed (put_at tag value t e es rest)
unfolding put_at
put_at-Packed tag value none e es rest same packed h = AllFree-Packed es packed
  where
    AllFree-Packed : {V : Type 0} (es : Chunk V) → AllFree es → Packed es
    AllFree-Packed [] f = tt
    AllFree-Packed (e ∷ es) (f, fs) = rw (f, PackedAt) fs
put_at-Packed tag value (some u) e es rest same packed h =
    elim (Bool-cases (is_zero (strops_cmp u tag))) [
      | inl z ↦ rw (z, sym same) packed
      | inr z ↦ rw (z, sym same) (h packed)
    ]

pub all_free :
    (V : Type 0) (n : ℕ) → AllFree (replicate {A = Elem V} n (record { tag = none; ptr = none }))
all_free V zero = tt
all_free V (suc n) = (refl, all_free V n)

put_flat-Packed :
    {V : Type 0} (tag : Bytes) (value : Option V) (es : Chunk V)
    → Packed es
    → Packed (put_flat tag value es)
unfolding put_flat
put_flat-Packed {V} tag value [] packed = all_free V 14
put_flat-Packed tag value (e ∷ es) packed =
    put_at-Packed tag value e.tag e es (put_flat tag value es) refl packed
      (put_flat-Packed tag value es)

-- In a map without a gap between its elements, `map_set` that has memory returns 0 and leaves such
-- a map, in which the tag has the new value and every other tag the value that it had. For a map that is
-- NULL it returns -1.
pub map_get-map_set :
    {V : Type 0} (tag : Bytes) (value : Option V) (m : List (Chunk V))
    → Packed (elems m)
    → ((m ≡ []) × (map_set true true tag value m ≡ (minus_one, [])))
      ⊎ ((m' : List (Chunk V)) × (map_set true true tag value m ≡ (pos 0, m'))
          × (map_get tag m' ≡ value)
          × ((other : Bytes) → tag ≢ other → map_get other m' ≡ map_get other m)
          × Packed (elems m'))
unfolding map_set
map_get-map_set tag value [] packed = inl (refl, refl)
map_get-map_set tag value (c ∷ cs) packed =
    let m = c ∷ cs in
    let (m', run, e) = set_next-flat tag value m in
    inr (
      m',
      map_set-next true true tag value c cs ∙ run,
      map_get-flat tag m' ∙ ap (get_flat tag) e ∙ get_put_same tag value (elems m),
      λ other ne.
          map_get-flat other m'
          ∙ ap (get_flat other) e
          ∙ get_put_other tag other value (elems m) ne packed
          ∙ sym (map_get-flat other m),
      subst Packed (sym e) (put_flat-Packed tag value (elems m) packed),
    )
