-- ===== src/Strops/Split.antt =====
-- src/lib/strops.c: the splitting of a line into arguments in place, and copies of arguments.
use nodeflight_fw.Base.{
  ℕ, zero, suc, ◌+◌, Bool, not, ◌&&◌, ◌||◌, Option, none, some, List, ◌==◌, if◌then◌else◌, Bytes,
  length, get_elem?, store, ◌>>=◌,
}

-- The memory from `src` on, `in_ptr` and `out_ptr` as places in it, and the array `argv`, NULL being
-- `none`.
pub record Split : Type 0 where
  pub mem : Bytes
  pub in_ptr : ℕ
  pub out_ptr : ℕ
  pub argv : List (Option ℕ)
  pub argc : ℕ

-- `*in_ptr`.
abbrev pub current : Split → Option ℕ
current s = get_elem? s.mem s.in_ptr

abbrev pub ends_line : ℕ → Bool
ends_line c = (c == 10) || (c == 0)

-- The tests of the loops that copy an argument.
abbrev pub in_quotes : ℕ → Bool
in_quotes c = not (c == 34) && not (c == 0)

abbrev pub in_word : ℕ → Bool
in_word c = not (c == 32) && not (c == 10) && not (c == 0)

abbrev pub advance : Split → Split
advance s = record s { in_ptr = s.in_ptr + 1 }

-- The loops are on fuel: a place for each byte of the memory is enough.
unfoldable pub skip_spaces : ℕ → Split → Option Split
skip_spaces zero s = none
skip_spaces (suc fuel) s =
    let rest = skip_spaces fuel (advance s) in current s >>= λ c. if c == 32 then rest else some s

-- `*(out_ptr++) = c`.
unfoldable pub put_out : ℕ → Split → Option Split
put_out c s =
    store s.mem s.out_ptr c >>= λ mem. some (record s { mem = mem; out_ptr = s.out_ptr + 1 })

unfoldable pub copy_while : (ℕ → Bool) → ℕ → Split → Option Split
unfolding put_out
copy_while test zero s = none
copy_while test (suc fuel) s =
    let copied = λ (c : ℕ). put_out c s >>= λ s'. copy_while test fuel (advance s') in
    current s >>= λ c. if test c then copied c else some s

-- The character behind an argument is left, unless it is the NUL, before the NUL of the argument is
-- written.
unfoldable pub finish_argument : Split → Option Split
unfolding put_out
finish_argument s = current s >>= λ c. put_out 0 (if c == 0 then s else advance s)

-- `argv[argc++] = out_ptr`.
unfoldable pub put_argument : Split → Option Split
put_argument s = store s.argv s.argc (some s.out_ptr) >>= λ argv.
    some (record s { argv = argv; argc = s.argc + 1 })

unfoldable pub copy_argument : ℕ → ℕ → Split → Option Split
unfolding copy_while finish_argument put_argument
copy_argument fuel c s =
    if c == 34
    then put_argument (advance s) >>= copy_while in_quotes fuel >>= finish_argument
    else put_argument s >>= copy_while in_word fuel >>= finish_argument

-- The outer loop, with the fuel of the inner ones.
unfoldable pub split_loop : ℕ → ℕ → Split → Option Split
unfolding skip_spaces copy_argument
split_loop inner zero s = none
split_loop inner (suc fuel) s =
    let copied = λ (d : ℕ) (s' : Split). copy_argument inner d s' >>= split_loop inner fuel in
    let skipped = skip_spaces inner s >>= λ s'.
    current s' >>= λ d. if ends_line d then some s' else copied d s' in
    current s >>= λ c. if ends_line c then some s else skipped

-- `argv[argc] = NULL`, and the result with the memory and the array.
unfoldable pub end_arguments : Split → Option (ℕ × Bytes × List (Option ℕ))
end_arguments s = store s.argv s.argc none >>= λ argv. some (s.argc, s.mem, argv)

unfoldable pub strops_split_argv : Bytes → List (Option ℕ) → Option (ℕ × Bytes × List (Option ℕ))
unfolding split_loop end_arguments
strops_split_argv mem argv =
    let fuel = suc (length mem) in
    split_loop fuel fuel (record { mem = mem; in_ptr = 0; out_ptr = 0; argv = argv; argc = 0 })
    >>= end_arguments
