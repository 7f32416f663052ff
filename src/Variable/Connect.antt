-- ===== src/Variable/Connect.antt =====
-- src/core/variable.c, `vr_connect`: is every source registered and served?
use nodeflight_fw.Base.{
  ℕ, zero, suc, Option, none, some, List, [], ◌∷◌, ◌≡◌, ◌≢◌, refl, sym, ◌∙◌, ◌⊎◌, inl, inr,
  Option-cases, Bytes, length, get_elem?, ◌>>=◌, ℤ, pos, minus_one, All,
}
use nodeflight_fw.Map.{iterate, map_iter_start}
use nodeflight_fw.Map.Laws.{elems}
use nodeflight_fw.Map.Iterate.{AllWhole, listed, fold, iterate-listed}
use nodeflight_fw.Variable.{NamedType, Reloc, Source, Variables}

-- The tests of a source, before the others.
unfoldable pub connect_source : Option (List NamedType) → List Reloc → Option ℤ → Option ℤ
connect_source none waiting others = some minus_one
connect_source (some types) [] others = others
connect_source (some types) (rlc ∷ waiting) others = some minus_one

-- The body of the loop; `none` is an access through NULL.
unfoldable pub connect_named : List Source → Bytes × Option ℕ → Option ℤ → Option ℤ
unfolding connect_source
connect_named heap x others =
    x.1 >>= λ i. get_elem? heap i >>= λ src. connect_source src.types src.reloc others

-- The loop runs on fuel.
unfoldable pub vr_connect : ℕ → Variables → Option ℤ
unfolding iterate connect_named
vr_connect fuel v = iterate (connect_named v.heap) (some (pos 0)) fuel (map_iter_start v.sources)

-- The value of a name in the map is a source.
abbrev pub Points : List Source → Bytes × Option ℕ → Type 0
Points heap x = (i : ℕ) × (src : Source) × (x.1 ≡ some i) × (get_elem? heap i ≡ some src)

-- A source that is registered, and that no request waits for.
abbrev pub Settled : List Source → Bytes × Option ℕ → Type 0
Settled heap x =
    (i : ℕ) (src : Source)
    → x.1 ≡ some i
    → get_elem? heap i ≡ some src
    → (src.types ≢ none) × (src.reloc ≡ [])

some_injective : {A : Type 0} {a b : A} → some a ≡ some b → a ≡ b
some_injective p = cc

source-Settled :
    (heap : List Source) (x : Bytes × Option ℕ) (i : ℕ) (src : Source) (types : List NamedType)
    → x.1 ≡ some i
    → get_elem? heap i ≡ some src
    → src.types ≡ some types
    → src.reloc ≡ []
    → Settled heap x
source-Settled heap x i src types at_x at_i known alone j other at_x' at_j =
    let same : i ≡ j = some_injective (sym at_x ∙ at_x') in
    let same' : src ≡ other = some_injective (sym at_i ∙ rw same at_j) in
    (rw (sym same', known) (λ e. absurd cc), rw (sym same') alone)

reloc-cases :
    (waiting : List Reloc)
    → (waiting ≡ []) ⊎ ((rlc : Reloc) × (rest : List Reloc) × (waiting ≡ rlc ∷ rest))
reloc-cases [] = inl refl
reloc-cases (rlc ∷ rest) = inr (rlc, rest, refl)

cons-ne-nil : (rlc : Reloc) (rest : List Reloc) → rlc ∷ rest ≡ [] → ⊥
cons-ne-nil rlc rest e = absurd cc

-- What the loop returns for a list of names and sources.
abbrev Answers : List Source → List (Bytes × Option ℕ) → Option ℤ → Type 0
Answers heap xs r =
    ((r ≡ some (pos 0)) × All (Settled heap) xs)
    ⊎ ((r ≡ some minus_one)
        × ((j : ℕ) × (x : Bytes × Option ℕ) × (get_elem? xs j ≡ some x) × (Settled heap x → ⊥)))

connect-Answers :
    (heap : List Source) (xs : List (Bytes × Option ℕ))
    → All (Points heap) xs
    → Answers heap xs (fold (connect_named heap) (some (pos 0)) xs)
unfolding connect_named connect_source
connect-Answers heap [] points = inl (refl, tt)
connect-Answers heap (x ∷ xs) ((i, src, at_x, at_i), points) = elim (Option-cases src.types) [
  | inl e ↦ inr (rw (at_x, at_i, e) refl, (zero, x, refl, λ s. (s i src at_x at_i).0 e))
  | inr (types, e) ↦ elim (reloc-cases src.reloc) [
    | inr (rlc, rest, w) ↦ inr (
      rw (at_x, at_i, e, w) refl,
      (zero, x, refl, λ s. cons-ne-nil rlc rest (sym w ∙ (s i src at_x at_i).1)),
    )
    | inl w ↦ elim (connect-Answers heap xs points) [
      | inl (run, all) ↦
          inl (rw (at_x, at_i, e, w) run, (source-Settled heap x i src types at_x at_i e w, all))
      | inr (run, (j, y, at_y, unsettled)) ↦
          inr (rw (at_x, at_i, e, w) run, (suc j, y, at_y, unsettled))
    ]
  ]
]

-- In a map of sources whose chunks are whole, `vr_connect` ends, after one round more than the map has
-- elements at most. It returns 0 where each source in the map is registered and no request waits for
-- it, and -1 where there is a source in the map that is not so.
pub vr_connect-Answers :
    (v : Variables)
    → AllWhole v.sources
    → All (Points v.heap) (listed (elems v.sources))
    → let r = vr_connect (suc (length (elems v.sources))) v in
      ((r ≡ some (pos 0)) × All (Settled v.heap) (listed (elems v.sources)))
      ⊎ ((r ≡ some minus_one)
          × ((j : ℕ) × (x : Bytes × Option ℕ) × (get_elem? (listed (elems v.sources)) j ≡ some x)
              × (Settled v.heap x → ⊥)))
unfolding vr_connect
vr_connect-Answers v whole points =
    let run = iterate-listed (connect_named v.heap) (some (pos 0)) v.sources whole in
    rw run (connect-Answers v.heap (listed (elems v.sources)) points)
