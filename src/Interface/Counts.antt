-- ===== src/Interface/Counts.antt =====
-- What the counters of the resources are after an interface is created.
use nodeflight_fw.Base.{
  ℕ, zero, suc, ◌+◌, ◌≤◌, ◌<◌, Bool, true, false, Option, none, some, List, [], ◌∷◌, ◌==◌, ◌≡◌,
  refl, sym, ap, ◌∙◌, subst, ◌⊎◌, inl, inr, if◌then◌else◌, ltb, ltb→lt, Bool-cases, Option-cases,
  Bytes, length, length-set, get_elem?, get_elem?-lt, get_elem?-set_self, get_elem?-set_ne, set, u8,
  All, arith, ==→eq, eq→==,
}
use nodeflight_fw.Resource.{Decl, InstDecl, rs_allocate, pp_get_rs_by_tag}
use nodeflight_fw.Resource.Lookup.{rs_get_by_tag_lem}
use nodeflight_fw.Interface.{IfRs, fetch_resources, allocate_next, allocate_resources}

-- A counter, or 0.
abbrev pub value_of : Option ℕ → ℕ
value_of none = 0
value_of (some c) = c

abbrev pub count_at : List ℕ → ℕ → ℕ
count_at states i = value_of (get_elem? states i)

-- How often a resource is named.
abbrev pub used : ℕ → List IfRs → ℕ
used i [] = 0
used i (r ∷ rscs) = (if r.decl == i then 1 else 0) + used i rscs

-- There is a counter of 8 bits for each resource, and it is not above the number of pieces, if that
-- has 8 bits too.
pub record Booked (table : List Decl) (states : List ℕ) : Type 0 where
  pub counters : length states ≡ length table
  pub small : All (λ (c : ℕ). c < 256) states
  pub within :
      (i : ℕ) (d : Decl)
      → get_elem? table i ≡ some d
      → d.count_avail < 256
      → count_at states i ≤ d.count_avail

-- The resources of an interface have the names that were asked for.
abbrev pub Named : List Decl → List IfRs → List Bytes → Type 0
Named table [] [] = Unit
Named table [] (arg ∷ argv) = ⊥
Named table (r ∷ rscs) [] = ⊥
Named table (r ∷ rscs) (arg ∷ argv) =
    ((d : Decl) × (get_elem? table r.decl ≡ some d) × (d.name ≡ arg)) × Named table rscs argv

All-set :
    (xs : List ℕ) (i v : ℕ)
    → All (λ (c : ℕ). c < 256) xs
    → v < 256
    → All (λ (c : ℕ). c < 256) (set xs i v)
All-set [] i v h lt = tt
All-set (x ∷ xs) zero v h lt = (lt, h.1)
All-set (x ∷ xs) (suc i) v h lt = (h.0, All-set xs i v h.1 lt)

pub count_at_small : (xs : List ℕ) (i : ℕ) → All (λ (c : ℕ). c < 256) xs → count_at xs i < 256
count_at_small [] i h = omega arith
count_at_small (x ∷ xs) zero h = h.0
count_at_small (x ∷ xs) (suc i) h = count_at_small xs i h.1

in_table : (table : List Decl) (i : ℕ) (d : Decl) → get_elem? table i ≡ some d → i < length table
in_table [] i d e = absurd cc
in_table (x ∷ table) zero d e = omega arith
in_table (x ∷ table) (suc i) d e = omega (arith, in_table table i d e)

pub true_is_not_false : true ≡ false → ⊥
true_is_not_false q = cc

-- Each counter behind one allocation.
counter_after :
    (states : List ℕ) (rsc count i : ℕ)
    → get_elem? states rsc ≡ some count
    → rsc < length states
    → All (λ (c : ℕ). c < 256) states
    → count_at (set states rsc (u8 (count + 1))) i
      ≡ u8 (count_at states i + (if rsc == i then 1 else 0))
counter_after states rsc count i at_c lt small = elim (Bool-cases (rsc == i)) [
  | inl z ↦
      let same : i ≡ rsc = sym (==→eq rsc i z) in
      rw z (
        rw same (
          ap value_of (get_elem?-set_self states rsc _ lt)
          ∙ ap (λ t. u8 (value_of t + 1)) (sym at_c)))
  | inr z ↦
      let other : count_at (set states rsc (u8 (count + 1))) i ≡ count_at states i = ap value_of (
        get_elem?-set_ne states rsc i _
          (λ e. absurd (true_is_not_false (sym (eq→== rsc i e) ∙ z)))) in
      rw z (other ∙ omega (arith, count_at_small states i small))
]

some_injective : {A : Type 0} {a b : A} → some a ≡ some b → a ≡ b
some_injective p = cc

pub none-ne-some : {A : Type 0} {a : A} → none ≡ some a → ⊥
none-ne-some p = cc

-- One allocation keeps the counters booked, and counts if it succeeds.
rs_allocate-Booked :
    (table : List Decl) (states : List ℕ) (rsc : ℕ) (d : Decl)
    → get_elem? table rsc ≡ some d
    → Booked table states
    → (rs_allocate table states rsc ≡ some (false, states))
      ⊎ ((states' : List ℕ) × (rs_allocate table states rsc ≡ some (true, states'))
          × Booked table states'
          × ((i : ℕ) → count_at states' i ≡ u8 (count_at states i + (if rsc == i then 1 else 0))))
unfolding rs_allocate
rs_allocate-Booked table states rsc d at_d b =
    let lt : rsc < length states = omega (arith, b.counters, in_table table rsc d at_d) in
    let (count, at_c) = get_elem?-lt states rsc lt in
    elim (Bool-cases (ltb count d.count_avail)) [
      | inr z ↦ inl (rw (at_d, at_c, z) refl)
      | inl z ↦ inr (
        set states rsc (u8 (count + 1)),
        rw (at_d, at_c, z) refl,
        record {
          counters = length-set states rsc _ ∙ b.counters;
          small = All-set states rsc (u8 (count + 1)) b.small (omega arith);
          within = λ i e at_e lt_e.
              let after = counter_after states rsc count i at_c lt b.small in
              elim (Bool-cases (rsc == i)) [
                | inl s ↦
                    let is_rsc : rsc ≡ i = ==→eq rsc i s in
                    let at_d' : get_elem? table i ≡ some d = rw is_rsc at at_d in
                    let same : d ≡ e = some_injective (sym at_d' ∙ at_e) in
                    let at_c' : get_elem? states i ≡ some count = rw is_rsc at at_c in
                    let now : count_at states i ≡ count = ap value_of at_c' in
                    let counted : count_at (set states rsc (u8 (count + 1))) i
                        ≡ u8 (count_at states i + 1) =
                      rw s at after in
                    omega (
                      arith,
                      counted,
                      now,
                      ltb→lt count d.count_avail z,
                      ap (λ (x : Decl). x.count_avail) same,
                    )
                | inr s ↦
                    let same : count_at (set states rsc (u8 (count + 1))) i
                        ≡ u8 (count_at states i + 0) =
                      rw s at after in
                    omega (arith, same, b.within i e at_e lt_e, count_at_small states i b.small)
              ];
        },
        λ i. counter_after states rsc count i at_c lt b.small,
      )
    ]

-- The loop over the resources of an interface keeps the counters booked, and counts each resource as
-- often as it is named if it succeeds.
pub allocate_resources-Booked :
    (table : List Decl) (rscs : List IfRs) (argv : List Bytes) (states : List ℕ)
    → Named table rscs argv
    → Booked table states
    → (ok : Bool) × (states' : List ℕ) × (allocate_resources table rscs states ≡ some (ok, states'))
      × Booked table states'
      × ((ok ≡ false) ⊎ ((i : ℕ) → count_at states' i ≡ u8 (count_at states i + used i rscs)))
unfolding allocate_resources allocate_next
allocate_resources-Booked table [] argv states named b =
    (true, states, refl, b, inr λ i. omega (arith, count_at_small states i b.small))
allocate_resources-Booked table (r ∷ rscs) [] states named b = absurd named
allocate_resources-Booked table (r ∷ rscs) (arg ∷ argv) states ((d, at_d, same), named) b =
    elim (rs_allocate-Booked table states r.decl d at_d b) [
      | inl e ↦ (false, states, rw e refl, b, inl refl)
      | inr (states', e, b', counts) ↦
          let (ok, states'', run, b'', rest) =
            allocate_resources-Booked table rscs argv states' named b' in
          (
            ok,
            states'',
            rw (e, run) refl,
            b'',
            elim rest [ inl f ↦ inl f | inr all ↦ inr λ i. omega (arith, all i, counts i) ],
          )
    ]

-- The fetched resources have the names of the arguments.
pub fetch_resources-Named :
    (table : List Decl) (peripheral : InstDecl) (i : ℕ) (argv : List Bytes) (rscs : List IfRs)
    → fetch_resources table peripheral i argv ≡ some rscs
    → Named table rscs argv
unfolding fetch_resources
fetch_resources-Named table peripheral i [] rscs e =
    subst (λ r. Named table r []) (some_injective e) tt
fetch_resources-Named table peripheral i (arg ∷ argv) rscs e = elim (rs_get_by_tag_lem table arg) [
  | inl (missing, all) ↦ absurd (none-ne-some (rw missing at e))
  | inr (k, d, found, at_d, name, first) ↦ elim (Option-cases (pp_get_rs_by_tag peripheral i arg)) [
    | inl missing ↦ absurd (none-ne-some (rw (found, missing) at e))
    | inr (inst, got) ↦ elim (Option-cases (fetch_resources table peripheral (suc i) argv)) [
      | inl missing ↦ absurd (none-ne-some (rw (found, got, missing) at e))
      | inr (rest, run) ↦
          let all : some (record { decl = k; inst = inst } ∷ rest) ≡ some rscs =
            rw (found, got, run) at e in
          subst (λ r. Named table r (arg ∷ argv)) (some_injective all)
            ((d, at_d, name), fetch_resources-Named table peripheral (suc i) argv rest run)
    ]
  ]
]
