-- ===== src/Strops/Dup.antt =====
-- src/lib/strops.c: copies of strings and of arguments in allocated memory.
use nodeflight_fw.Base.{ℕ, ◌+◌, Option, none, some, List, [], ◌∷◌, Bytes, store, ◌>>=◌}

-- The loops that count the characters up to the NUL.
unfoldable pub count_chars : ℕ → Bytes → ℕ
count_chars n [] = n
count_chars n (c ∷ cs) = count_chars (n + 1) cs

-- The loops that copy a string to a place, with its NUL, and the place behind it.
unfoldable pub copy_chars : Bytes → ℕ → Bytes → Option (Bytes × ℕ)
copy_chars buf at [] = store buf at 0 >>= λ b. some (b, at + 1)
copy_chars buf at (c ∷ cs) = store buf at c >>= λ b. copy_chars b (at + 1) cs

-- What stands in an allocated block of a size; NULL is `none`, which has no place to store to.
abbrev pub Blocks {ℓ} : Type ℓ → Type ℓ
Blocks A = ℕ → Option (List A)

abbrev pub writable {ℓ} : {A : Type ℓ} → Option (List A) → List A
writable none = []
writable (some block) = block

-- The copy, or NULL.
abbrev pub copy_to : Bytes → Option Bytes → Option (Option Bytes)
copy_to source none = some none
copy_to source (some dest) = copy_chars dest 0 source >>= λ r. some (some r.0)

unfoldable pub strops_dup : Blocks ℕ → Bytes → Option (Option Bytes)
unfolding count_chars
strops_dup block source = copy_to source (block (count_chars 0 source + 1))

unfoldable pub count_args : ℕ → List Bytes → ℕ
count_args argc [] = argc
count_args argc (w ∷ ws) = count_args (argc + 1) ws

unfoldable pub strops_get_argc : List Bytes → ℕ
unfolding count_args
strops_get_argc argv = count_args 0 argv

-- The first loop of `strops_argv_dup`: the number of arguments, and of their bytes.
unfoldable pub memory_usage : ℕ → ℕ → List Bytes → ℕ × ℕ
unfolding count_chars
memory_usage argc buflen [] = (argc, buflen)
memory_usage argc buflen (w ∷ ws) = memory_usage (argc + 1) (count_chars buflen w + 1) ws

-- The second loop, and the NULL behind the arguments, which are places in the buffer.
unfoldable pub copy_args :
    List (Option ℕ) → ℕ → Bytes → ℕ → List Bytes → Option (List (Option ℕ) × Bytes)
unfolding copy_chars
copy_args out_argv argc out_buf buflen [] = store out_argv argc none >>= λ a. some (a, out_buf)
copy_args out_argv argc out_buf buflen (w ∷ ws) = store out_argv argc (some buflen) >>= λ a.
    copy_chars out_buf buflen w >>= λ r. copy_args a (argc + 1) r.0 r.1 ws

unfoldable pub strops_argv_dup :
    Blocks (Option ℕ) → Blocks ℕ → List Bytes → Option (List (Option ℕ) × Bytes)
unfolding memory_usage copy_args
strops_argv_dup argv_block buf_block argv =
    let (argc, buflen) = memory_usage 0 0 argv in
    copy_args (writable (argv_block (argc + 1))) 0 (writable (buf_block buflen)) 0 argv
