-- ===== src/Strops/Compare.antt =====
-- `strops_cmp` is the lexicographic order.
use nodeflight_fw.Base.{
  ℕ, ◌<◌, ◌≡◌, ◌⊎◌, inl, inr, refl, ap, sym, ◌∙◌, [], ◌∷◌, ltb, Bytes, ℤ, pos, minus_one, arith,
  Bool-cases, ltb→lt, ltb→ge,
}
use nodeflight_fw.Strops.{strops_cmp}

-- The strict lexicographic order.
pub data Less : Bytes → Bytes → Type 0 where
  ends : (b : ℕ) (bs : Bytes) → Less [] (b ∷ bs)
  differs : (a b : ℕ) (cs bs : Bytes) → a < b → Less (a ∷ cs) (b ∷ bs)
  goes_on : (a : ℕ) (cs bs : Bytes) → Less cs bs → Less (a ∷ cs) (a ∷ bs)

-- What each result says.
abbrev pub Compares : Bytes → Bytes → ℤ → Type 0
Compares xs ys r =
    ((r ≡ minus_one) × Less xs ys) ⊎ (((r ≡ pos 0) × (xs ≡ ys)) ⊎ ((r ≡ pos 1) × Less ys xs))

same_head : (a : ℕ) (xs ys : Bytes) (r : ℤ) → Compares xs ys r → Compares (a ∷ xs) (a ∷ ys) r
same_head a xs ys r (inl (e, l)) = inl (e, goes_on a xs ys l)
same_head a xs ys r (inr (inl (e, p))) = inr (inl (e, ap (◌∷◌ a) p))
same_head a xs ys r (inr (inr (e, l))) = inr (inr (e, goes_on a ys xs l))

-- `strops_cmp` returns -1, 0 or 1, and they say that the first string is before the second one in
-- lexicographic order, that the strings are equal, and that it is behind.
strops_cmp-Compares : (xs ys : Bytes) → Compares xs ys (strops_cmp xs ys)
unfolding strops_cmp
strops_cmp-Compares [] [] = inr (inl (refl, refl))
strops_cmp-Compares [] (b ∷ bs) = inl (refl, ends b bs)
strops_cmp-Compares (a ∷ cs) [] = inr (inr (refl, ends a cs))
strops_cmp-Compares (a ∷ cs) (b ∷ bs) = elim (Bool-cases (ltb a b)) [
  | inl l ↦ rw l (inl (refl, differs a b cs bs (ltb→lt a b l)))
  | inr l ↦ elim (Bool-cases (ltb b a)) [
    | inl g ↦ rw (l, g) (inr (inr (refl, differs b a bs cs (ltb→lt b a g))))
    | inr g ↦
        let e : a ≡ b = omega (arith, ltb→ge a b l, ltb→ge b a g) in
        rw (l, g) (rw e (same_head b cs bs _ (strops_cmp-Compares cs bs)))
  ]
]

pub strops_cmp_self : (xs : Bytes) → strops_cmp xs xs ≡ pos 0
unfolding strops_cmp
strops_cmp_self [] = refl
strops_cmp_self (x ∷ xs) = ground (arith, strops_cmp_self xs)

pub strops_cmp→eq : (xs ys : Bytes) → strops_cmp xs ys ≡ pos 0 → xs ≡ ys
strops_cmp→eq xs ys e = elim (strops_cmp-Compares xs ys) [
  | inl (r, l) ↦ absurd (cc)
  | inr (inl (r, p)) ↦ p
  | inr (inr (r, l)) ↦ absurd (one_is_not_zero (sym r ∙ e))
]
  where
    one_is_not_zero : pos 1 ≡ pos 0 → ⊥
    one_is_not_zero p = cc
