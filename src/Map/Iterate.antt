-- ===== src/Map/Iterate.antt =====
-- The loop with the iterator ends, and gets every element.
use nodeflight_fw.Base.{
  ℕ, zero, suc, ◌+◌, ◌≤◌, ◌<◌, Option, none, some, List, [], ◌∷◌, ◌++◌, Bytes, ◌≡◌, refl, ap, ◌∙◌,
  length, drop, get_elem?, get_elem?-lt, ltb, ltb→lt, ltb→ge, Bool-cases, inl, inr, All, arith,
}
use nodeflight_fw.Map.{
  Elem, Chunk, Iter, map_iter_start, step_forward, iter_elem, iter_chunks, map_iter_next,
  iterate_step, iterate,
}
use nodeflight_fw.Map.Laws.{elems}

-- The elements before the first that is free, as names and values.
abbrev pub listed_behind :
    {V : Type 0} → Option Bytes → Option V → List (Bytes × Option V) → List (Bytes × Option V)
listed_behind none ptr rest = []
listed_behind (some t) ptr rest = (t, ptr) ∷ rest

abbrev pub listed : {V : Type 0} → Chunk V → List (Bytes × Option V)
listed [] = []
listed (e ∷ es) = listed_behind e.tag e.ptr (listed es)

drop-cons {ℓ} :
    {A : Type ℓ} (xs : List A) (k : ℕ) (a : A)
    → get_elem? xs k ≡ some a
    → drop k xs ≡ a ∷ drop (suc k) xs
drop-cons [] k a e = absurd cc
drop-cons {A = A} (x ∷ xs) zero a e = let same : x ≡ a = cc in ap (λ (y : A). y ∷ xs) same
drop-cons (x ∷ xs) (suc k) a e = drop-cons xs k a e

drop_none {ℓ} : {A : Type ℓ} (xs : List A) (k : ℕ) → length xs ≤ k → drop k xs ≡ []
drop_none [] zero h = refl
drop_none [] (suc k) h = refl
drop_none (x ∷ xs) zero h = absurd (omega (arith, h))
drop_none (x ∷ xs) (suc k) h = drop_none xs k (omega (arith, h))

-- What an iterator has before it.
ahead : {V : Type 0} → List (Chunk V) → ℕ → Chunk V
ahead [] k = []
ahead (c ∷ cs) k = drop k c ++ elems cs

ahead_start : {V : Type 0} (m : List (Chunk V)) → ahead m 0 ≡ elems m
unfolding ahead elems
ahead_start [] = refl
ahead_start (c ∷ cs) = refl

-- What the loop returns for a list of names and values.
abbrev pub fold :
    {V R : Type 0}
    → (Bytes × Option V → Option R → Option R)
    → Option R
    → List (Bytes × Option V)
    → Option R
fold body last [] = last
fold body last (x ∷ xs) = body x (fold body last xs)

abbrev pub AllWhole : {V : Type 0} → List (Chunk V) → Type 0
AllWhole {V = V} m = All (λ (c : Chunk V). length c ≡ 16) m

drop-cons_at {ℓ} :
    {A : Type ℓ} (xs : List A) (k : ℕ) (a : A)
    → get_elem? xs k ≡ some a
    → drop k xs ≡ a ∷ drop (k + 1) xs
drop-cons_at xs k a e =
    let next : suc k ≡ k + 1 = omega arith in drop-cons xs k a e ∙ ap (λ j. a ∷ drop j xs) next

module _ {V R : Type 0} (body : Bytes × Option V → Option R → Option R) (last : Option R) where
  round :
      (t : Option Bytes) (e : Elem V) (i : Iter V) (others : Iter V → Option R)
      (rest : List (Bytes × Option V))
      → others i ≡ fold body last rest
      → iterate_step body last (iter_elem t e i) others
        ≡ fold body last (listed_behind t e.ptr rest)
  unfolding iterate_step iter_elem
  round none e i others rest h = refl
  round (some t) e i others rest h = rw h refl

  -- The loop with this fuel gets what an iterator has before it.
  Enough : ℕ → Type 0
  Enough fuel =
      (m : List (Chunk V)) (k : ℕ)
      → AllWhole m
      → k < 16
      → length (ahead m k) < fuel
      → iterate body last fuel (record { map = m; next_index = k })
        ≡ fold body last (listed (ahead m k))

  iterate-step_forward :
      (fuel : ℕ) (c : Chunk V) (cs : List (Chunk V)) (k : ℕ)
      → Enough fuel
      → AllWhole (c ∷ cs)
      → length (drop k c ++ elems cs) < fuel
      → iterate body last fuel (step_forward c cs k)
        ≡ fold body last (listed (drop k c ++ elems cs))
  unfolding step_forward Enough ahead
  iterate-step_forward fuel c cs k enough whole h = elim (Bool-cases (ltb k 16)) [
    | inl z ↦ rw z (enough (c ∷ cs) k whole (ltb→lt k 16 z) h)
    | inr z ↦
        let none_left = drop_none c k (omega (arith, ltb→ge k 16 z, whole.0)) in
        rw (z, none_left)
          (enough cs 0 whole.1 (omega arith) (
              omega (
                arith,
                h,
                ap length (ahead_start cs),
                ap length (ap (λ t. t ++ elems cs) none_left),
              ))
            ∙ ap (λ t. fold body last (listed t)) (ahead_start cs))
  ]

  iterate-Enough : (fuel : ℕ) → Enough fuel
  unfolding Enough iterate map_iter_next iter_chunks ahead
  iterate-Enough zero m k whole lt h = absurd (omega (arith, h))
  iterate-Enough (suc fuel) [] k whole lt h = refl
  iterate-Enough (suc fuel) (c ∷ cs) k whole lt h =
      let (e, at_k) = get_elem?-lt c k (omega (arith, lt, whole.0)) in
      let here = drop-cons_at c k e at_k in
      rw (at_k, here)
        (round e.tag e (step_forward c cs (k + 1)) (iterate body last fuel)
          (listed (drop (k + 1) c ++ elems cs))
          (iterate-step_forward fuel c cs (k + 1) (iterate-Enough fuel) whole
            (omega (arith, h, ap length (ap (λ t. t ++ elems cs) here)))))

  -- In a map whose chunks are whole, the loop ends after one round more than there are elements at
  -- most, looks into no place out of a chunk, and goes through the elements before the first free one.
  pub iterate-listed :
      (m : List (Chunk V))
      → AllWhole m
      → iterate body last (suc (length (elems m))) (map_iter_start m)
        ≡ fold body last (listed (elems m))
  unfolding map_iter_start Enough
  iterate-listed m whole =
      iterate-Enough (suc (length (elems m))) m 0 whole (omega arith)
        (omega (arith, ap length (ahead_start m)))
      ∙ ap (λ t. fold body last (listed t)) (ahead_start m)
