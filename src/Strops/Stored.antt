-- ===== src/Strops/Stored.antt =====
-- What one argument leaves, and what the loop over the arguments leaves.
use nodeflight_fw.Base.{
  ℕ, suc, ◌+◌, ◌<◌, Bool, false, List, [], ◌∷◌, ◌++◌, append_assoc, append-nil, length-append, ◌==◌,
  ◌≡◌, refl, sym, ap, ◌∙◌, Bool-cases, inl, inr, Option, some, Bytes, length, drop, store,
  store-append, ◌>>=◌, arith,
}
use nodeflight_fw.Strops.Split.{
  Split, advance, in_quotes, in_word, copy_while, finish_argument, put_argument, copy_argument,
}
use nodeflight_fw.Strops.Words.{
  IsString, kept, left, first_word, behind_word, joined, places, IsString-left,
}
use nodeflight_fw.Strops.Copies.{
  View, SameArgs, SameArgs-trans, advance-View, copy_while_lem, Ended, finish_next, finish_last,
}

-- An argument is stored where the array has a place.
put_argument_lem :
    (s : Split) (front gap rest : Bytes) (pre slots : List (Option ℕ)) (slot : Option ℕ)
    → View s front gap rest
    → s.argv ≡ pre ++ slot ∷ slots
    → s.argc ≡ length pre
    → (s' : Split) × (put_argument s ≡ some s')
      × View s' front gap rest
      × (s'.argv ≡ pre ++ some (length front) ∷ [] ++ slots)
      × (s'.argc ≡ length pre + 1)
unfolding put_argument
put_argument_lem s front gap rest pre slots slot v has at =
    let stored : store s.argv s.argc (some s.out_ptr) ≡ some (pre ++ some s.out_ptr ∷ slots) =
      ap (λ a. store a s.argc (some s.out_ptr)) has
      ∙ store-append pre slots slot (some s.out_ptr) s.argc at in
    (
      record s { argv = pre ++ some s.out_ptr ∷ slots; argc = s.argc + 1 },
      rw stored refl,
      record { mem = v.mem; out_ptr = v.out_ptr; in_ptr = v.in_ptr },
      ap (λ o. pre ++ some o ∷ slots) v.out_ptr
          ∙ sym (append_assoc pre (some (length front) ∷ []) slots),
      omega (arith, at),
    )

-- What follows an argument: the rest of the line, or its end.
pub data After (s : Split) (front text tail : Bytes) : Type 0 where
  goes_on : (gap : Bytes) → View s front gap (drop 1 text ++ 0 ∷ tail) → After s front text tail
  at_end : (drop 1 text ≡ []) → Ended s front → After s front text tail

finish_lem :
    (s : Split) (front gap text tail : Bytes)
    → IsString text
    → View s front gap (text ++ 0 ∷ tail)
    → (s' : Split) × (finish_argument s ≡ some s')
      × After s' (front ++ 0 ∷ []) text tail
      × SameArgs s s'
finish_lem s front gap [] tail is v =
    let (s', run, ended, same) = finish_last s front gap tail v in
    (s', run, at_end refl ended, same)
finish_lem s front gap (c ∷ cs) tail (n, is) v =
    let (s', gap', run, v', same) = finish_next s front gap cs tail c n v in
    (s', run, goes_on gap' v', same)

-- The part of an argument behind its start.
copied_lem :
    (test : ℕ → Bool) (fuel : ℕ) (s : Split) (front gap text tail : Bytes)
    → test 0 ≡ false
    → IsString text
    → View s front gap (text ++ 0 ∷ tail)
    → length text < fuel
    → (s' : Split) × ((copy_while test fuel s >>= finish_argument) ≡ some s')
      × After s' (front ++ kept test text ++ 0 ∷ []) (left test text) tail
      × SameArgs s s'
copied_lem test fuel s front gap text tail z is v room =
    let (s1, gap1, run, v1, same) = copy_while_lem test fuel s front gap text tail z v room in
    let (s2, run', after, same') =
      finish_lem s1 (front ++ kept test text) gap1 (left test text) tail
        (IsString-left test text is) v1 in
    (s2, rw run run', after, SameArgs-trans s s1 s2 same same')

pub copy_argument_lem :
    (fuel : ℕ) (s : Split) (front gap cs tail : Bytes) (c : ℕ) (pre slots : List (Option ℕ))
    (slot : Option ℕ)
    → (c == 32) ≡ false
    → (c == 10) ≡ false
    → IsString (c ∷ cs)
    → View s front gap (c ∷ cs ++ 0 ∷ tail)
    → s.argv ≡ pre ++ slot ∷ slots
    → s.argc ≡ length pre
    → suc (length cs) < fuel
    → (s' : Split) × (copy_argument fuel c s ≡ some s')
      × After s' (front ++ first_word c cs ++ 0 ∷ []) (behind_word c cs) tail
      × (s'.argv ≡ pre ++ some (length front) ∷ [] ++ slots)
      × (s'.argc ≡ length pre + 1)
unfolding copy_argument first_word behind_word
copy_argument_lem fuel s front gap cs tail c pre slots slot space newline (n, is) v has at room =
    elim (Bool-cases (c == 34)) [
      | inl z ↦
          let (s1, put, v1, has1, at1) =
            put_argument_lem (advance s) front (gap ++ c ∷ []) (cs ++ 0 ∷ tail) pre slots slot
              (advance-View s front gap (cs ++ 0 ∷ tail) c v) has at in
          let (s2, run, after, same) =
            copied_lem in_quotes fuel s1 front (gap ++ c ∷ []) cs tail refl is v1
              (omega (arith, room)) in
          (s2, rw (z, put) run, rw z after, same.argv ∙ has1, same.argc ∙ at1)
      | inr z ↦
          let (s1, put, v1, has1, at1) =
            put_argument_lem s front gap (c ∷ cs ++ 0 ∷ tail) pre slots slot v has at in
          let (s2, run, after, same) =
            copied_lem in_word fuel s1 front gap (c ∷ cs) tail refl (n, is) v1 room in
          (
            s2,
            rw (z, put) run,
            rw z (rw (space, newline, n) at after),
            same.argv ∙ has1,
            same.argc ∙ at1,
          )
    ]

-- What a loop leaves: the words and their places.
abbrev pub Leaves : Option Split → Bytes → List Bytes → List (Option ℕ) → List (Option ℕ) → Type 0
Leaves o front ws pre slots =
    (s' : Split) × (o ≡ some s')
    × (rest : Bytes) × (s'.mem ≡ front ++ joined ws ++ rest)
    × (s'.argv ≡ pre ++ places (length front) ws ++ drop (length ws) slots)
    × (s'.argc ≡ length pre + length ws)

pub Leaves-nothing :
    (o : Option Split) (s : Split) (front rest : Bytes) (pre slots : List (Option ℕ))
    → o ≡ some s
    → s.mem ≡ front ++ rest
    → s.argv ≡ pre ++ slots
    → s.argc ≡ length pre
    → Leaves o front [] pre slots
Leaves-nothing o s front rest pre slots e mem has at =
    (s, e, rest, rw (append-nil front) mem, rw (append-nil pre) has, omega (arith, at))

pub Leaves-cons :
    (o : Option Split) (front w : Bytes) (ws : List Bytes) (pre slots : List (Option ℕ))
    (slot : Option ℕ)
    → Leaves o (front ++ w ++ 0 ∷ []) ws (pre ++ some (length front) ∷ []) slots
    → Leaves o front (w ∷ ws) pre (slot ∷ slots)
Leaves-cons o front w ws pre slots slot (s, e, rest, mem, has, at) =
    let long : length (front ++ w ++ 0 ∷ []) ≡ length front + length w + 1 =
      omega (arith, length-append (front ++ w) (0 ∷ []), length-append front w) in
    (
      s,
      e,
      rest,
      mem ∙ simp append_assoc,
      has
          ∙ ap (λ at'. pre ++ some (length front) ∷ [] ++ places at' ws ++ drop (length ws) slots)
              long
          ∙ simp append_assoc,
      omega (arith, at, length-append pre (some (length front) ∷ [])),
    )
