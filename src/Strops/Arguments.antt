-- ===== src/Strops/Arguments.antt =====
-- What `strops_split_argv` leaves.
use nodeflight_fw.Base.{
  ℕ, zero, suc, ◌+◌, ◌<◌, ◌≤◌, true, false, List, [], ◌∷◌, ◌++◌, length-append, ◌==◌, ◌≡◌, refl,
  sym, ap, subst, ◌∙◌, ◌⊎◌, if◌then◌else◌, Bool-cases, inl, inr, Option, none, some, Bytes, length,
  drop, store, store-append, ◌>>=◌, arith,
}
use nodeflight_fw.Strops.Split.{
  Split, current, ends_line, copy_argument, split_loop, end_arguments, strops_split_argv,
}
use nodeflight_fw.Strops.Words.{
  IsString, left, is_space, words, first_word, behind_word, words_cons, words_nil, words_newline,
  words-left, left-stops, length-behind_word, IsString-behind_word, joined, places, IsString-left,
  length-left,
}
use nodeflight_fw.Strops.Copies.{View, current-View, skip_spaces_lem}
use nodeflight_fw.Strops.Stored.{
  After, goes_on, at_end, copy_argument_lem, Leaves, Leaves-nothing, Leaves-cons,
}

-- The loop does as a run that ends at once.
loop_at_end :
    (inner fuel : ℕ) (s : Split) → current s ≡ some 0 → split_loop inner (suc fuel) s ≡ some s
unfolding split_loop
loop_at_end inner fuel s e = rw e refl

-- A text with room for its words, from a state of the loop.
record Ready (s : Split) (front gap text tail : Bytes) (pre slots : List (Option ℕ)) : Type 0 where
  is_string : IsString text
  view : View s front gap (text ++ 0 ∷ tail)
  argv : s.argv ≡ pre ++ slots
  argc : s.argc ≡ length pre
  room : length (words text) ≤ length slots

-- The loop behind an argument.
after_lem :
    (inner fuel : ℕ) (s : Split) (front text tail : Bytes) (pre slots : List (Option ℕ))
    → After s front text tail
    → IsString (drop 1 text)
    → s.argv ≡ pre ++ slots
    → s.argc ≡ length pre
    → length (words (drop 1 text)) ≤ length slots
    → ((gap : Bytes)
        → Ready s front gap (drop 1 text) tail pre slots
        → Leaves (split_loop inner (suc fuel) s) front (words (drop 1 text)) pre slots)
    → Leaves (split_loop inner (suc fuel) s) front (words (drop 1 text)) pre slots
after_lem inner fuel s front text tail pre slots (goes_on gap v) is has at room next =
    next gap (record { is_string = is; view = v; argv = has; argc = at; room = room })
after_lem inner fuel s front text tail pre slots (at_end e ended) is has at room next =
    let ends =
      Leaves-nothing (split_loop inner (suc fuel) s) s front ended.rest pre slots
        (loop_at_end inner fuel s ended.at_end) ended.mem has at in
    subst (λ ws. Leaves (split_loop inner (suc fuel) s) front ws pre slots)
      (sym (ap words e ∙ words_nil)) ends

IsString-drop : (text : Bytes) → IsString text → IsString (drop 1 text)
IsString-drop [] is = tt
IsString-drop (c ∷ cs) (n, is) = is

length-drop_one : (text : Bytes) → length (drop 1 text) ≤ length text
length-drop_one [] = omega arith
length-drop_one (c ∷ cs) = omega arith

-- One argument and the loop behind it, from what the loop does there.
word_lem :
    (inner fuel : ℕ) (s : Split) (front gap : Bytes) (d : ℕ) (ds tail : Bytes)
    (pre slots : List (Option ℕ))
    → (d == 32) ≡ false
    → (d == 10) ≡ false
    → Ready s front gap (d ∷ ds) tail pre slots
    → suc (length ds) < inner
    → ((s' : Split) (front' gap' text' : Bytes) (pre' slots' : List (Option ℕ))
        → Ready s' front' gap' text' tail pre' slots'
        → length text' ≤ length ds
        → Leaves (split_loop inner (suc fuel) s') front' (words text') pre' slots')
    → Leaves
        (copy_argument inner d s >>= split_loop inner (suc fuel))
        front
        (words (d ∷ ds))
        pre
        slots
word_lem inner fuel s front gap d ds tail pre [] space newline r deep next =
    let some_words = r.room in
    absurd (omega (arith, some_words, ap length (words_cons d ds space newline)))
word_lem inner fuel s front gap d ds tail pre (slot ∷ slots) space newline r deep next =
    let parts = words_cons d ds space newline in
    let text = behind_word d ds in
    let (s', run, after, has, at) =
      copy_argument_lem inner s front gap ds tail d pre slots slot space newline r.is_string r.view
        r.argv r.argc deep in
    let is = IsString-drop text (IsString-behind_word d ds (r.is_string.1)) in
    let at' : s'.argc ≡ length (pre ++ some (length front) ∷ []) =
      omega (arith, at, length-append pre (some (length front) ∷ [])) in
    let room = r.room in
    let short : length (drop 1 text) ≤ length ds =
      omega (arith, length-drop_one text, length-behind_word d ds) in
    let behind : Leaves (split_loop inner (suc fuel) s') (front ++ first_word d ds ++ 0 ∷ [])
        (words (drop 1 text)) (pre ++ some (length front) ∷ []) slots =
      after_lem inner fuel s' (front ++ first_word d ds ++ 0 ∷ []) text tail
        (pre ++ some (length front) ∷ []) slots after is has at'
        (omega (arith, room, ap length parts)) (λ gap' r'. next s' _ gap' _ _ slots r' short) in
    rw (run, parts)
      (Leaves-cons (split_loop inner (suc fuel) s') front (first_word d ds) (words (drop 1 text))
        pre slots slot behind)

cons_head : (a b : ℕ) (xs ys : Bytes) → a ∷ xs ≡ b ∷ ys → a ≡ b
cons_head a b xs ys e = cc

newline-no_space : (c : ℕ) → (c == 10) ≡ true → (c == 32) ≡ false
newline-no_space c e = ground arith

-- The loop once the spaces are skipped.
skipped_lem :
    (inner fuel : ℕ) (s : Split) (front gap text tail : Bytes) (pre slots : List (Option ℕ))
    → ((text ≡ []) ⊎ ((d : ℕ) × (ds : Bytes) × (text ≡ d ∷ ds) × ((d == 32) ≡ false)))
    → Ready s front gap text tail pre slots
    → length text < inner
    → length text ≤ suc fuel
    → ((s' : Split) (front' gap' text' : Bytes) (pre' slots' : List (Option ℕ))
        → Ready s' front' gap' text' tail pre' slots'
        → length text' < inner
        → length text' < suc fuel
        → Leaves (split_loop inner (suc fuel) s') front' (words text') pre' slots')
    → Leaves
        (current s >>= λ d.
          if ends_line d then some s else copy_argument inner d s >>= split_loop inner (suc fuel))
        front
        (words text)
        pre
        slots
skipped_lem inner fuel s front gap [] tail pre slots starts r deep enough next =
    rw (words_nil, current-View s front gap tail 0 r.view)
      (Leaves-nothing (some s) s front (gap ++ 0 ∷ tail) pre slots refl r.view.mem r.argv r.argc)
skipped_lem inner fuel s front gap (d ∷ ds) tail pre slots (inl e) r deep enough next = absurd cc
skipped_lem inner fuel s front gap (d ∷ ds) tail pre slots (inr (d', ds', e, space')) r deep enough
      next =
    let here = current-View s front gap (ds ++ 0 ∷ tail) d r.view in
    let space : (d == 32) ≡ false = rw (cons_head d d' ds ds' e) space' in
    elim (Bool-cases (d == 10)) [
      | inl z ↦
          rw (words_newline d ds space z, here, z)
            (Leaves-nothing (some s) s front (gap ++ (d ∷ ds ++ 0 ∷ tail)) pre slots refl r.view.mem
              r.argv r.argc)
      | inr z ↦
          rw (here, z, r.is_string.0)
            (word_lem inner fuel s front gap d ds tail pre slots space z r deep
              (λ s' front' gap' text' pre' slots' r' short.
                next s' front' gap' text' pre' slots' r' (omega (arith, short, deep))
                  (omega (arith, short, enough))))
    ]

split_loop_lem :
    (inner fuel : ℕ) (s : Split) (front gap text tail : Bytes) (pre slots : List (Option ℕ))
    → Ready s front gap text tail pre slots
    → length text < inner
    → length text < fuel
    → Leaves (split_loop inner fuel s) front (words text) pre slots
unfolding split_loop
split_loop_lem inner zero s front gap text tail pre slots r deep enough =
    absurd (omega (arith, enough))
split_loop_lem inner (suc fuel) s front gap [] tail pre slots r deep enough = rw words_nil (
    Leaves-nothing (split_loop inner (suc fuel) s) s front (gap ++ 0 ∷ tail) pre slots
      (loop_at_end inner fuel s (current-View s front gap tail 0 r.view)) r.view.mem r.argv r.argc)
split_loop_lem inner (suc zero) s front gap (c ∷ cs) tail pre slots r deep enough =
    absurd (omega (arith, enough))
split_loop_lem inner (suc (suc fuel)) s front gap (c ∷ cs) tail pre slots r deep enough =
    let here = current-View s front gap (cs ++ 0 ∷ tail) c r.view in
    elim (Bool-cases (c == 10)) [
      | inl z ↦
          rw (words_newline c cs (newline-no_space c z) z, here, z)
            (Leaves-nothing (some s) s front (gap ++ (c ∷ cs ++ 0 ∷ tail)) pre slots refl r.view.mem
              r.argv r.argc)
      | inr z ↦
          let (s1, gap1, run, v1, same) =
            skip_spaces_lem inner s front gap (c ∷ cs) tail r.view deep in
          let text1 = left is_space (c ∷ cs) in
          let has : s1.argv ≡ pre ++ slots = same.argv ∙ r.argv in
          let at : s1.argc ≡ length pre = same.argc ∙ r.argc in
          let skipped : words (c ∷ cs) ≡ words text1 = words-left (c ∷ cs) in
          let room = r.room in
          let r1 : Ready s1 front gap1 text1 tail pre slots = record {
            is_string = IsString-left is_space (c ∷ cs) r.is_string;
            view = v1;
            argv = has;
            argc = at;
            room = subst (λ ws. length ws ≤ length slots) skipped room;
          } in
          let short = length-left is_space (c ∷ cs) in
          subst (λ ws. Leaves (split_loop inner (suc (suc fuel)) s) front ws pre slots)
            (sym skipped)
            (rw (here, z, r.is_string.0, run)
              (skipped_lem inner fuel s1 front gap1 text1 tail pre slots
                (left-stops is_space (c ∷ cs)) r1 (omega (arith, short, deep))
                (omega (arith, short, enough))
                (λ s' front' gap' text' pre' slots' r' deep' enough'.
                  split_loop_lem inner (suc fuel) s' front' gap' text' tail pre' slots' r' deep'
                    enough')))
    ]

length-places : (at : ℕ) (ws : List Bytes) → length (places at ws) ≡ length ws
length-places at [] = refl
length-places at (w ∷ ws) = ap suc (length-places (at + length w + 1) ws)

drop_cons :
    (n : ℕ) (xs : List (Option ℕ))
    → n < length xs
    → (x : Option ℕ) × (drop n xs ≡ x ∷ drop (suc n) xs)
drop_cons n [] h = absurd (omega (arith, h))
drop_cons zero (x ∷ xs) h = (x, refl)
drop_cons (suc n) (x ∷ xs) h = drop_cons n xs (omega (arith, h))

-- With an array that has a place for each word of a line and for one NULL, `strops_split_argv` ends and
-- stays in the memory of the line and in the array. It returns the number of words, puts the words
-- behind one another at the start of the memory, each with its NUL, and leaves in the array the places
-- where they start, a NULL, and what stood behind that.
pub strops_split_argv-words :
    (line tail : Bytes) (argv : List (Option ℕ))
    → IsString line
    → length (words line) < length argv
    → (rest : Bytes) × (strops_split_argv (line ++ 0 ∷ tail) argv
        ≡ some (
          length (words line),
          joined (words line) ++ rest,
          places 0 (words line) ++ none ∷ drop (suc (length (words line))) argv,
        ))
unfolding strops_split_argv end_arguments
strops_split_argv-words line tail argv is room =
    let fuel = suc (length (line ++ 0 ∷ tail)) in
    let ws = words line in
    let s : Split = record {
      mem = line ++ 0 ∷ tail;
      in_ptr = 0;
      out_ptr = 0;
      argv = argv;
      argc = 0;
    } in
    let deep : length line < fuel = omega (arith, length-append line (0 ∷ tail)) in
    let ready : Ready s [] [] line tail [] argv = record {
      is_string = is;
      view = record { mem = refl; out_ptr = refl; in_ptr = refl };
      argv = refl;
      argc = refl;
      room = omega (arith, room);
    } in
    let (s', run, rest, mem, has, at) =
      split_loop_lem fuel fuel s [] [] line tail [] argv ready deep deep in
    let (slot, last) = drop_cons (length ws) argv room in
    let stored : store s'.argv s'.argc none
        ≡ some (places 0 ws ++ none ∷ drop (suc (length ws)) argv) =
      ap (λ a. store a s'.argc none) (has ∙ ap (◌++◌ (places 0 ws)) last)
      ∙ store-append (places 0 ws) (drop (suc (length ws)) argv) slot none s'.argc
          (omega (arith, at, length-places 0 ws)) in
    let count : s'.argc ≡ length ws = omega (arith, at) in (rest, rw (run, stored, count, mem) refl)
