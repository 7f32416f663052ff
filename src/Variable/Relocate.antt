-- ===== src/Variable/Relocate.antt =====
-- What registering a source does to the requests that wait for it.
use nodeflight_fw.Base.{
  ℕ, zero, suc, ◌+◌, ◌≤◌, ◌<◌, Bool, true, false, ◌&&◌, Option, none, some, List, [], ◌∷◌, ◌==◌,
  ◌≡◌, ◌≢◌, refl, sym, ap, ◌∙◌, subst, ◌⊎◌, inl, inr, Bool-cases, Option-cases, take, length,
  get_elem?, get_elem?-lt, get_elem?-set_self, get_elem?-set_ne, set, length-set, store-set, pos,
  minus_one, All, arith, ==→eq,
}
use nodeflight_fw.Variable.{
  VrType, null, float, bool, int, vr_code, is_null, NamedType, Reloc, Source, type_at,
  connect_target, vr_reloc_exec, num_args, read_args, Relocated, after_exec, update_pending,
}

-- Does a type match the one of a request?
abbrev pub is_offer : Option VrType → VrType → Bool
is_offer none type = false
is_offer (some t) type = vr_code t == vr_code type

abbrev pub offers : List NamedType → Reloc → Bool
offers types r = is_offer (type_at types r.index) r.type

abbrev pub offers_all : List NamedType → List Reloc → Bool
offers_all types [] = true
offers_all types (r ∷ rs) = offers types r && offers_all types rs

-- A request that can be served: for a variable, into one of `n` cells.
pub record Askable (n : ℕ) (r : Reloc) : Type 0 where
  pub typed : is_null r.type ≡ false
  pub cell : r.dst < n

-- No two requests for one cell.
abbrev pub Apart : List Reloc → Type 0
Apart [] = Unit
Apart (r ∷ rs) = All (λ (s : Reloc). s.dst ≢ r.dst) rs × Apart rs

same_code : (a b : VrType) → vr_code a ≡ vr_code b → is_null a ≡ is_null b
unfolding vr_code
same_code null null h = refl
same_code null float h = absurd (omega (arith, h))
same_code null bool h = absurd (omega (arith, h))
same_code null int h = absurd (omega (arith, h))
same_code float null h = absurd (omega (arith, h))
same_code float float h = refl
same_code float bool h = refl
same_code float int h = refl
same_code bool null h = absurd (omega (arith, h))
same_code bool float h = refl
same_code bool bool h = refl
same_code bool int h = refl
same_code int null h = absurd (omega (arith, h))
same_code int float h = refl
same_code int bool h = refl
same_code int int h = refl

-- A type that is found and is not NULL is one that `num_args` counts.
type_at-lt :
    (types : List NamedType) (i : ℕ) (t : VrType)
    → type_at types i ≡ some t
    → is_null t ≡ false
    → i < num_args types
unfolding type_at num_args
type_at-lt [] zero t e h = let same : null ≡ t = cc in absurd cc
type_at-lt [] (suc i) t e h = absurd cc
type_at-lt (u ∷ types) zero t e h =
    let same : u.type ≡ t = cc in
    let typed : is_null u.type ≡ false = ap is_null same ∙ h in rw typed (omega arith)
type_at-lt (u ∷ types) (suc i) t e h = elim (Bool-cases (is_null u.type)) [
  | inl z ↦ let no : none ≡ some t = rw z at e in absurd cc
  | inr z ↦
      let rest : type_at types i ≡ some t = rw z at e in
      rw z (omega (arith, type_at-lt types i t rest h))
]

pub read_args-take :
    (n : ℕ) (args : List ℕ) → n ≤ length args → read_args n args ≡ some (take n args)
unfolding read_args
read_args-take zero args h = refl
read_args-take (suc n) [] h = absurd (omega (arith, h))
read_args-take (suc n) (a ∷ args) h = rw (read_args-take n args (omega (arith, h))) refl

-- The two outcomes of `vr_reloc_exec` with a request that can be served.
pub exec-cases :
    (types : List NamedType) (vars targets : List ℕ) (r : Reloc)
    → length vars ≡ num_args types
    → Askable (length targets) r
    → ((offers types r ≡ true)
        × ((x : ℕ) × (get_elem? vars r.index ≡ some x)
            × (connect_target vars r.index r.type r.dst targets (type_at types r.index)
                ≡ some (pos 0, set targets r.dst x))))
      ⊎ ((offers types r ≡ false)
          × (connect_target vars r.index r.type r.dst targets (type_at types r.index)
              ≡ some (minus_one, targets)))
unfolding connect_target
exec-cases types vars targets r whole ask = elim (Option-cases (type_at types r.index)) [
  | inl e ↦ inr (rw e (refl, refl))
  | inr (t, e) ↦ elim (Bool-cases (vr_code t == vr_code r.type)) [
    | inl z ↦
        let typed = same_code t r.type (==→eq (vr_code t) (vr_code r.type) z) ∙ ask.typed in
        let (x, at_x) =
          get_elem?-lt vars r.index (omega (arith, whole, type_at-lt types r.index t e typed)) in
        inl (rw (e, z) (refl, (x, at_x, rw (at_x, store-set targets r.dst x ask.cell) refl)))
    | inr z ↦ inr (rw (e, z) (refl, refl))
  ]
]

-- Each of these requests has its pointer, and no other cell is changed.
pub record Served (vars : List ℕ) (pending : List Reloc) (targets targets' : List ℕ) : Type 0 where
  pub served : All (λ (r : Reloc). get_elem? targets' r.dst ≡ get_elem? vars r.index) pending
  pub others :
      (cell : ℕ)
      → All (λ (r : Reloc). r.dst ≢ cell) pending
      → get_elem? targets' cell ≡ get_elem? targets cell

Served-nil : (vars targets : List ℕ) → Served vars [] targets targets
Served-nil vars targets = record { served = tt; others = λ cell h. refl }

Served-cons :
    (vars targets targets' : List ℕ) (r : Reloc) (rs : List Reloc) (x : ℕ)
    → r.dst < length targets
    → get_elem? vars r.index ≡ some x
    → All (λ (s : Reloc). s.dst ≢ r.dst) rs
    → Served vars rs (set targets r.dst x) targets'
    → Served vars (r ∷ rs) targets targets'
Served-cons vars targets targets' r rs x lt at_x apart rest = record {
  served =
      (rest.others r.dst apart ∙ get_elem?-set_self targets r.dst x lt ∙ sym at_x, rest.served);
  others = λ cell h. rest.others cell h.1 ∙ get_elem?-set_ne targets r.dst cell x h.0;
}

AllAskable : ℕ → List Reloc → Type 0
AllAskable n rs = All (Askable n) rs

-- The loop over the waiting requests serves all of them, or fails where a type does not match.
pub update_pending-cases :
    (types : List NamedType) (vars : List ℕ) (src : Source) (pending : List Reloc) (free : ℕ)
    (targets : List ℕ)
    → src.types ≡ some types
    → src.vars ≡ vars
    → length vars ≡ num_args types
    → All (Askable (length targets)) pending
    → Apart pending
    → ((offers_all types pending ≡ true)
        × ((targets' : List ℕ) × (update_pending src pending free targets
              ≡ some (record {
                status = pos 0;
                left = [];
                free = free + length pending;
                targets = targets';
              }))
            × Served vars pending targets targets'))
      ⊎ ((offers_all types pending ≡ false)
          × ((q : Relocated) × (update_pending src pending free targets ≡ some q)
              × (q.status ≡ minus_one)))
unfolding update_pending vr_reloc_exec after_exec
update_pending-cases types vars src [] free targets known same whole ask apart =
    let e : free ≡ free + 0 = omega arith in
    inl (
      refl,
      (
        targets,
        ap (λ (n : ℕ). some (record { status = pos 0; left = []; free = n; targets = targets })) e,
        Served-nil vars targets,
      ),
    )
update_pending-cases types vars src (r ∷ rs) free targets known same whole ask apart =
    elim (exec-cases types vars targets r whole ask.0) [
      | inr (unfit, e) ↦ inr (
        rw unfit refl,
        (
          record { status = minus_one; left = rs; free = free; targets = targets },
          rw (known, same, e) refl,
          refl,
        ),
      )
      | inl (fits, (x, at_x, e)) ↦
          elim (update_pending-cases types vars src rs (free + 1) (set targets r.dst x) known same
            whole (subst (λ n. All (Askable n) rs) (sym (length-set targets r.dst x)) ask.1)
            apart.1) [
              | inl (all, (targets', run, served)) ↦
                  let n : free + 1 + length rs ≡ free + length (r ∷ rs) = omega arith in
                  inl (
                    rw (fits, all) refl,
                    (
                      targets',
                      rw (known, same, e, run)
                          (ap
                            (λ (n : ℕ).
                              some (record {
                                status = pos 0;
                                left = [];
                                free = n;
                                targets = targets';
                              }))
                            n),
                      Served-cons vars targets targets' r rs x ask.0.cell at_x apart.0 served,
                    ),
                  )
              | inr (some_not, (q, run, failed)) ↦
                  inr (rw (fits, some_not) refl, (q, rw (known, same, e, run) refl, failed))
            ]
    ]
