-- ===== src/Strops/Tests.antt =====
-- The theorems on strings at concrete texts.
use nodeflight_fw.Base.{
  ℕ, suc, Option, none, List, replicate, drop, store, some, [], ◌∷◌, ◌++◌, ◌≡◌, refl, Bytes, length,
  take, ◌-◌, pos, arith,
}
use nodeflight_fw.Strops.{strops_line_copy, strops_word_to_int, negate}
use nodeflight_fw.Strops.Numbers.{chars_of, number_of, strops_word_to_int-number}
use nodeflight_fw.Strops.Lines.{
  line_of, rest_of, overwritten, line_status, strops_line_copy-line_of,
}
use nodeflight_fw.Strops.Split.{
  strops_split_argv, split_loop, skip_spaces, copy_argument, put_argument, copy_while, put_out,
  finish_argument, end_arguments,
}
use nodeflight_fw.Strops.Words.{words_from, words, joined, places}
use nodeflight_fw.Strops.Arguments.{strops_split_argv-words}
use nodeflight_fw.Strops.Dup.{Blocks, strops_argv_dup}
use nodeflight_fw.Strops.Duplicates.{strops_argv_dup-joined}

abbrev text : Bytes
text = 0x61 ∷ 0x62 ∷ 0x63 ∷ 10 ∷ 0x64 ∷ []

abbrev room : Bytes
room = 1 ∷ 2 ∷ 3 ∷ []

strops_line_copy-line_of_example :
    strops_line_copy room (length room) text
    ≡ some (
      line_status (length room - 1) (pos 0) (line_of text),
      (overwritten (take (length room - 1) (line_of text)) room, rest_of text),
    )
strops_line_copy-line_of_example = strops_line_copy-line_of room text (omega arith)

strops_word_to_int-number_example :
    (strops_word_to_int (chars_of (4 ∷ 2 ∷ []) ++ 0x20 ∷ []) ≡ some (pos (number_of (4 ∷ 2 ∷ []))))
    × (strops_word_to_int (45 ∷ chars_of (4 ∷ 2 ∷ []) ++ 0x20 ∷ [])
        ≡ some (negate (number_of (4 ∷ 2 ∷ []))))
strops_word_to_int-number_example =
    strops_word_to_int-number 4 (2 ∷ []) (0x20 ∷ []) (omega arith, (omega arith, tt)) refl
      (omega arith)

-- Two words, the second one with quotes and a space.
abbrev line : Bytes
line = 0x61 ∷ 0x20 ∷ 34 ∷ 0x62 ∷ 0x20 ∷ 34 ∷ 10 ∷ []

split_line :
    strops_split_argv (line ++ 0 ∷ []) (replicate 3 none)
    ≡ some (2, 0x61 ∷ 0 ∷ 0x62 ∷ 0x20 ∷ 0 ∷ 34 ∷ 10 ∷ 0 ∷ [], some 0 ∷ some 2 ∷ none ∷ [])
unfolding strops_split_argv split_loop skip_spaces copy_argument put_argument copy_while put_out
    finish_argument end_arguments store
split_line = refl

-- An array without a place for the last NULL is left by a store.
split_overflow : strops_split_argv (line ++ 0 ∷ []) (replicate 2 none) ≡ none
unfolding strops_split_argv split_loop skip_spaces copy_argument put_argument copy_while put_out
    finish_argument end_arguments store
split_overflow = refl

strops_split_argv-words_example :
    (rest : Bytes) × (strops_split_argv (line ++ 0 ∷ 7 ∷ []) (replicate 3 none)
      ≡ some (
        length (words line),
        joined (words line) ++ rest,
        places 0 (words line)
            ++ none ∷ drop {A = Option ℕ} (suc (length (words line))) (replicate 3 none),
      ))
unfolding words words_from
strops_split_argv-words_example =
    strops_split_argv-words line (7 ∷ []) (replicate 3 none)
      (refl, (refl, (refl, (refl, (refl, (refl, (refl, tt))))))) (omega arith)

-- An allocation that always has memory.
abbrev zeroed : Blocks ℕ
zeroed n = some (replicate n 0)

abbrev nulls : Blocks (Option ℕ)
nulls n = some (replicate n none)

abbrev arguments : List Bytes
arguments = (0x61 ∷ []) ∷ [] ∷ (0x62 ∷ 0x63 ∷ []) ∷ []

strops_argv_dup-joined_example :
    strops_argv_dup nulls zeroed arguments
    ≡ some (places 0 arguments ++ none ∷ [], joined arguments)
strops_argv_dup-joined_example =
    strops_argv_dup-joined nulls zeroed arguments (replicate 4 none) (replicate 6 0) refl refl refl
      refl
