-- ===== src/Resource/Counts.antt =====
-- How often a resource can be allocated.
use Prim.Native.Nat.{min}
use nodeflight_fw.Base.{
  ltb→lt, ltb→ge, Bool-cases, inl, inr, ℕ, zero, suc, ◌+◌, ◌-◌, ◌≤◌, ◌<◌, ◌≡◌, refl, ap, ◌∙◌, true,
  false, Option, some, List, [], ◌∷◌, ltb, if◌then◌else◌, length, get_elem?, set, u8, arith,
  get_elem?-set_self, lt→ltb, ge→ltb, ◌>>=◌,
}
use nodeflight_fw.Resource.{Decl, rs_allocate}

-- `n` allocations one after the other: how many succeed, and the counts behind them.
unfoldable pub allocations : List Decl → ℕ → List ℕ → ℕ → Option (ℕ × List ℕ)
allocations table zero states rsc = some (0, states)
allocations table (suc n) states rsc = rs_allocate table states rsc >>= λ (given, states').
    allocations table n states' rsc >>= λ (m, states'').
    some ((if given then 1 else 0) + m, states'')

-- One allocation, where it succeeds and where not.
rs_allocate_given :
    (table : List Decl) (states : List ℕ) (rsc count : ℕ) (d : Decl)
    → get_elem? table rsc ≡ some d
    → get_elem? states rsc ≡ some count
    → count < d.count_avail
    → rs_allocate table states rsc ≡ some (true, set states rsc (u8 (count + 1)))
unfolding rs_allocate
rs_allocate_given table states rsc count d ed es l = rw (ed, es, lt→ltb count d.count_avail l) refl

rs_allocate_refused :
    (table : List Decl) (states : List ℕ) (rsc count : ℕ) (d : Decl)
    → get_elem? table rsc ≡ some d
    → get_elem? states rsc ≡ some count
    → d.count_avail ≤ count
    → rs_allocate table states rsc ≡ some (false, states)
unfolding rs_allocate
rs_allocate_refused table states rsc count d ed es l =
    rw (ed, es, ge→ltb count d.count_avail l) refl

get_elem?_in_range :
    {A : Type 0} (xs : List A) (i : ℕ) (x : A) → get_elem? xs i ≡ some x → i < length xs
get_elem?_in_range [] i x e = absurd cc
get_elem?_in_range (y ∷ xs) zero x e = omega arith
get_elem?_in_range (y ∷ xs) (suc i) x e = omega (arith, get_elem?_in_range xs i x e)

-- A resource of at most 255 pieces of which `count` are given: of `n` allocations exactly as many
-- succeed as pieces are left, and these are then counted.
pub allocations_lem :
    (n : ℕ) (table : List Decl) (states : List ℕ) (rsc count : ℕ) (d : Decl)
    → get_elem? table rsc ≡ some d
    → get_elem? states rsc ≡ some count
    → count ≤ d.count_avail
    → d.count_avail < 256
    → let given = min n (d.count_avail - count) in
      (states' : List ℕ) × (allocations table n states rsc ≡ some (given, states'))
      × (get_elem? states' rsc ≡ some (count + given))
unfolding allocations
allocations_lem zero table states rsc count d ed es le small =
    (states, ap (λ (t : ℕ). some (t, states)) (omega arith), es ∙ ap some (omega arith))
allocations_lem (suc n) table states rsc count d ed es le small =
    elim (Bool-cases (ltb count d.count_avail)) [
      | inl l ↦
          let less : count < d.count_avail = ltb→lt count d.count_avail l in
          let set_states = set states rsc (u8 (count + 1)) in
          let counted =
            get_elem?-set_self states rsc (u8 (count + 1))
              (get_elem?_in_range states rsc count es) in
          let (states', run, e) =
            allocations_lem n table set_states rsc (count + 1) d ed
              (counted ∙ ap some (omega arith)) (omega arith) small in
          (
            states',
            rw (rs_allocate_given table states rsc count d ed es less, run)
                (ap (λ (t : ℕ). some (t, states')) (omega arith)),
            e ∙ ap some (omega arith),
          )
      | inr l ↦
          let more : d.count_avail ≤ count = ltb→ge count d.count_avail l in
          let (states', run, e) = allocations_lem n table states rsc count d ed es le small in
          (
            states',
            rw (rs_allocate_refused table states rsc count d ed es more, run)
                (ap (λ (t : ℕ). some (t, states')) (omega arith)),
            e ∙ ap some (omega arith),
          )
    ]

-- With 256 pieces or more the counter of 8 bits wraps before it gets there, and no allocation is
-- ever refused.
allocations_unbounded :
    (n : ℕ) (table : List Decl) (states : List ℕ) (rsc count : ℕ) (d : Decl)
    → get_elem? table rsc ≡ some d
    → get_elem? states rsc ≡ some count
    → count < 256
    → 256 ≤ d.count_avail
    → (states' : List ℕ) × (allocations table n states rsc ≡ some (n, states'))
unfolding allocations
allocations_unbounded zero table states rsc count d ed es le large = (states, refl)
allocations_unbounded (suc n) table states rsc count d ed es le large =
    let counted =
      get_elem?-set_self states rsc (u8 (count + 1)) (get_elem?_in_range states rsc count es) in
    let (states', run) =
      allocations_unbounded n table (set states rsc (u8 (count + 1))) rsc (u8 (count + 1)) d ed
        counted (omega arith) large in
    (
      states',
      rw (rs_allocate_given table states rsc count d ed es (omega arith), run)
          (ap (λ (t : ℕ). some (t, states')) (omega arith)),
    )
