-- ===== src/Resource/Lookup.antt =====
-- The look-ups by name and by number.
use nodeflight_fw.Base.{
  ℕ, zero, suc, ◌+◌, ◌≡◌, ◌≢◌, refl, sym, ap, ◌∙◌, Bool, true, false, Option, none, some, List, [],
  ◌∷◌, get_elem?, arith, ◌⊎◌, inl, inr, Bool-cases, ◌<◌, Bytes, ℤ, pos, negsuc, ==→eq,
}
use nodeflight_fw.Resource.{Decl, find_from, rs_get_by_tag, is_zero}
use nodeflight_fw.Strops.{strops_cmp}
use nodeflight_fw.Strops.Compare.{strops_cmp_self, strops_cmp→eq}

-- `find_from` gives the first entry that passes, or none passes.
abbrev pub Picks {ℓ} : {A : Type ℓ} → (A → Bool) → ℕ → List A → Option ℕ → Type ℓ
Picks {A = A} test i xs r =
    ((r ≡ none) × ((j : ℕ) (x : A) → get_elem? xs j ≡ some x → test x ≡ false))
    ⊎ ((k : ℕ) × (x : A) × (r ≡ some (i + k))
        × (get_elem? xs k ≡ some x)
        × (test x ≡ true)
        × ((j : ℕ) (y : A) → j < k → get_elem? xs j ≡ some y → test y ≡ false))

pub find_from-Picks {ℓ} :
    {A : Type ℓ} (test : A → Bool) (i : ℕ) (xs : List A) → Picks test i xs (find_from test i xs)
unfolding find_from
find_from-Picks test i [] = inl (refl, λ j x e. absurd cc)
find_from-Picks {A = A} test i (x ∷ xs) = elim (Bool-cases (test x)) [
  | inl t ↦ rw t (inr (zero, x, ap some (omega arith), refl, t, λ j y l e. absurd (omega arith)))
  | inr t ↦ rw t (elim (find_from-Picks test (suc i) xs) [
    | inl (e, all) ↦ inl (e, fails t all)
    | inr (k, y, e, at_k, passes, before) ↦
        inr (suc k, y, e ∙ ap some (omega arith), at_k, passes, fails_before t k before)
  ])
]
  where
    fails :
        test x ≡ false
        → ((j : ℕ) (y : A) → get_elem? xs j ≡ some y → test y ≡ false)
        → (j : ℕ) (y : A) → get_elem? (x ∷ xs) j ≡ some y
        → test y ≡ false
    fails t all zero y e = let same : x ≡ y = cc in rw same at t
    fails t all (suc j) y e = all j y e

    fails_before :
        test x ≡ false
        → (k : ℕ) → ((j : ℕ) (y : A) → j < k → get_elem? xs j ≡ some y → test y ≡ false)
        → (j : ℕ) (y : A) → j < suc k
        → get_elem? (x ∷ xs) j ≡ some y
        → test y ≡ false
    fails_before t k all zero y l e = let same : x ≡ y = cc in rw same at t
    fails_before t k all (suc j) y l e = all j y (omega arith) e

is_zero→eq : (r : ℤ) → is_zero r ≡ true → r ≡ pos 0
unfolding is_zero
is_zero→eq (pos n) e = ap pos (==→eq n 0 e)
is_zero→eq (negsuc n) e = absurd cc

pub same_string : (xs ys : Bytes) → is_zero (strops_cmp xs ys) ≡ true → xs ≡ ys
same_string xs ys e = strops_cmp→eq xs ys (is_zero→eq (strops_cmp xs ys) e)

pub is_zero_self : (xs ys : Bytes) → xs ≡ ys → is_zero (strops_cmp xs ys) ≡ true
unfolding is_zero
is_zero_self xs ys e = rw e (rw (strops_cmp_self ys) refl)

pub other_string : (xs ys : Bytes) → is_zero (strops_cmp xs ys) ≡ false → xs ≢ ys
other_string xs ys e p = absurd (true_is_not_false (sym (is_zero_self xs ys p) ∙ e))
  where
    true_is_not_false : true ≡ false → ⊥
    true_is_not_false q = cc

-- `rs_get_by_tag` gives the first resource of that name, and NULL only where there is none.
pub rs_get_by_tag_lem :
    (table : List Decl) (tag : Bytes)
    → ((rs_get_by_tag table tag ≡ none)
        × ((j : ℕ) (d : Decl) → get_elem? table j ≡ some d → d.name ≢ tag))
      ⊎ ((k : ℕ) × (d : Decl) × (rs_get_by_tag table tag ≡ some k)
          × (get_elem? table k ≡ some d)
          × (d.name ≡ tag)
          × ((j : ℕ) (c : Decl) → j < k → get_elem? table j ≡ some c → c.name ≢ tag))
unfolding rs_get_by_tag
rs_get_by_tag_lem table tag =
    elim (find_from-Picks (λ (d : Decl). is_zero (strops_cmp d.name tag)) 0 table) [
      | inl (e, all) ↦ inl (e, λ j d at_j. other_string d.name tag (all j d at_j))
      | inr (k, d, e, at_k, passes, before) ↦ inr (
        k,
        d,
        e ∙ ap some (omega arith),
        at_k,
        same_string d.name tag passes,
        λ j c l at_j. other_string c.name tag (before j c l at_j),
      )
    ]
