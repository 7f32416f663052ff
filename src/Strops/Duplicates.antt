-- ===== src/Strops/Duplicates.antt =====
-- What the copies of strings and arguments hold.
use nodeflight_fw.Base.{
  ℕ, suc, ◌+◌, ◌≡◌, refl, sym, ap, ap₂, take, drop, take-append-drop, length-take, length-drop, ◌∙◌,
  Option, none, some, List, [], ◌∷◌, ◌++◌, append_assoc, append-nil, length-append, Bytes, length,
  store, store-append, arith,
}
use nodeflight_fw.Strops.Dup.{
  count_chars, copy_chars, Blocks, strops_dup, memory_usage, copy_args, strops_argv_dup,
}
use nodeflight_fw.Strops.Words.{joined, places}

count_chars_lem : (n : ℕ) (cs : Bytes) → count_chars n cs ≡ n + length cs
unfolding count_chars
count_chars_lem n [] = omega arith
count_chars_lem n (c ∷ cs) = omega (arith, count_chars_lem (n + 1) cs)

-- A string that is copied over a part of the buffer as long as it and its NUL.
copy_chars_lem :
    (front old post cs : Bytes) (at : ℕ)
    → at ≡ length front
    → length old ≡ suc (length cs)
    → copy_chars (front ++ old ++ post) at cs
      ≡ some (front ++ (cs ++ 0 ∷ []) ++ post, at + length cs + 1)
unfolding copy_chars
copy_chars_lem front [] post cs at here long = absurd (omega (arith, long))
copy_chars_lem front (o ∷ []) post [] at here long =
    let assoc = append_assoc front (o ∷ []) post in
    let stored : store (front ++ o ∷ [] ++ post) at 0 ≡ some (front ++ 0 ∷ [] ++ post) =
      ap (λ b. store b at 0) assoc
      ∙ store-append front post o 0 at here
      ∙ ap some (sym (append_assoc front (0 ∷ []) post)) in
    let next : at + 1 ≡ at + 0 + 1 = omega arith in rw (stored, next) refl
copy_chars_lem front (o ∷ o' ∷ old) post [] at here long = absurd (omega (arith, long))
copy_chars_lem front (o ∷ old) post (c ∷ cs) at here long =
    let stored : store (front ++ (o ∷ old) ++ post) at c ≡ some (front ++ c ∷ [] ++ old ++ post) =
      ap (λ b. store b at c) (append_assoc front (o ∷ old) post)
      ∙ store-append front (old ++ post) o c at here
      ∙ ap some (simp append_assoc) in
    let more =
      copy_chars_lem (front ++ c ∷ []) old post cs (at + 1)
        (omega (arith, here, length-append front (c ∷ []))) (omega (arith, long)) in
    let next : at + 1 + length cs + 1 ≡ at + suc (length cs) + 1 = omega arith in
    let same : front ++ c ∷ [] ++ (cs ++ 0 ∷ []) ++ post ≡ front ++ ((c ∷ cs) ++ 0 ∷ []) ++ post =
      simp append_assoc in
    rw stored (more ∙ ap₂ (λ b n. some (b, n)) same next)

memory_usage_lem :
    (argc n : ℕ) (ws : List Bytes)
    → memory_usage argc n ws ≡ (argc + length ws, n + length (joined ws))
unfolding memory_usage
memory_usage_lem argc n [] =
    let same : argc ≡ argc + 0 = omega arith in
    let same' : n ≡ n + 0 = omega arith in ap₂ (λ (a b : ℕ). (a, b)) same same'
memory_usage_lem argc n (w ∷ ws) =
    let count = count_chars_lem n w in
    let same : argc + 1 + length ws ≡ argc + suc (length ws) = omega arith in
    let same' : count_chars n w + 1 + length (joined ws) ≡ n + length (w ++ 0 ∷ joined ws) =
      omega (arith, count, length-append w (0 ∷ joined ws)) in
    memory_usage_lem (argc + 1) (count_chars n w + 1) ws ∙ ap₂ (λ (a b : ℕ). (a, b)) same same'

copy_args_lem :
    (pre slots : List (Option ℕ)) (argc : ℕ) (front old : Bytes) (at : ℕ) (ws : List Bytes)
    → argc ≡ length pre
    → length slots ≡ suc (length ws)
    → at ≡ length front
    → length old ≡ length (joined ws)
    → copy_args (pre ++ slots) argc (front ++ old) at ws
      ≡ some (pre ++ (places at ws ++ none ∷ []), front ++ joined ws)
unfolding copy_args
copy_args_lem pre [] argc front old at ws count room here long = absurd (omega (arith, room))
copy_args_lem pre (slot ∷ []) argc front [] at [] count room here long =
    rw (store-append pre [] slot none argc count) refl
copy_args_lem pre (slot ∷ []) argc front (o ∷ old) at [] count room here long =
    absurd (omega (arith, long))
copy_args_lem pre (slot ∷ slot' ∷ slots) argc front old at [] count room here long =
    absurd (omega (arith, room))
copy_args_lem pre (slot ∷ slots) argc front old at (w ∷ ws) count room here long =
    let size = length-append w (0 ∷ joined ws) in
    let now = take (suc (length w)) old in
    let later = drop (suc (length w)) old in
    let parts : front ++ old ≡ front ++ now ++ later =
      ap (◌++◌ front) (sym (take-append-drop (suc (length w)) old)) ∙ simp append_assoc in
    let copied : copy_chars (front ++ old) at w
        ≡ some (front ++ (w ++ 0 ∷ []) ++ later, at + length w + 1) =
      ap (λ b. copy_chars b at w) parts
      ∙ copy_chars_lem front now later w at here
          (omega (arith, long, size, length-take (suc (length w)) old)) in
    let stored : store (pre ++ slot ∷ slots) argc (some at) ≡ some (pre ++ some at ∷ [] ++ slots) =
      store-append pre slots slot (some at) argc count ∙ ap some (simp append_assoc) in
    let more =
      copy_args_lem (pre ++ some at ∷ []) slots (argc + 1) (front ++ (w ++ 0 ∷ [])) later
        (at + length w + 1) ws (omega (arith, count, length-append pre (some at ∷ [])))
        (omega (arith, room))
        (omega (arith, here, length-append front (w ++ 0 ∷ []), length-append w (0 ∷ [])))
        (omega (arith, long, size, length-drop (suc (length w)) old)) in
    rw (stored, copied)
      (more
        ∙ ap₂ (λ (a : List (Option ℕ)) (b : Bytes). some (a, b)) (simp append_assoc)
            (simp append_assoc))

-- Where the two allocations give blocks of the sizes that are asked for, `strops_argv_dup` fills them
-- exactly: the buffer holds the arguments behind one another, each with its NUL, and the array the places
-- where they start and a NULL.
pub strops_argv_dup-joined :
    (argv_block : Blocks (Option ℕ)) (buf_block : Blocks ℕ) (argv : List Bytes)
    (slots : List (Option ℕ)) (buf : Bytes)
    → argv_block (length argv + 1) ≡ some slots
    → buf_block (length (joined argv)) ≡ some buf
    → length slots ≡ length argv + 1
    → length buf ≡ length (joined argv)
    → strops_argv_dup argv_block buf_block argv ≡ some (places 0 argv ++ none ∷ [], joined argv)
unfolding strops_argv_dup
strops_argv_dup-joined argv_block buf_block argv slots buf given given' room long =
    let usage = memory_usage_lem 0 0 argv in
    let count : 0 + length argv + 1 ≡ length argv + 1 = omega arith in
    let size : 0 + length (joined argv) ≡ length (joined argv) = omega arith in
    rw (usage, count, size, given, given')
      (copy_args_lem [] slots 0 [] buf 0 argv refl (omega (arith, room)) refl long)

-- Where the allocation gives a block of that size, `strops_dup` fills it exactly with the string and its
-- NUL.
strops_dup-copies :
    (block : Blocks ℕ) (source dest : Bytes)
    → block (length source + 1) ≡ some dest
    → length dest ≡ length source + 1
    → strops_dup block source ≡ some (some (source ++ 0 ∷ []))
unfolding strops_dup
strops_dup-copies block source dest given long =
    let count : count_chars 0 source + 1 ≡ length source + 1 =
      omega (arith, count_chars_lem 0 source) in
    let copied : copy_chars dest 0 source ≡ some (source ++ 0 ∷ [], length source + 1) =
      ap (λ b. copy_chars b 0 source) (sym (append-nil dest))
      ∙ copy_chars_lem [] dest [] source 0 refl (omega (arith, long))
      ∙ ap₂ (λ (b : Bytes) (n : ℕ). some (b, n)) (append-nil (source ++ 0 ∷ [])) (omega arith) in
    rw (count, given, copied) refl
