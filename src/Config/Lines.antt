-- ===== src/Config/Lines.antt =====
-- What the lines of a file set up.
use nodeflight_fw.Base.{
  ℕ, suc, ◌+◌, ◌<◌, false, Option, none, some, List, [], ◌∷◌, map, ◌++◌, append_assoc,
  length-append, ◌==◌, ◌≡◌, refl, ap, ◌∙◌, Bool-cases, inl, inr, Bytes, length, drop, drop-append,
  replicate, ◌>>=◌, ℤ, pos, negsuc, minus_one, arith,
}
use nodeflight_fw.Module.Init.{Result, given, failed, halted}
use nodeflight_fw.Strops.Split.{in_word, in_quotes}
use nodeflight_fw.Strops.Words.{
  Mode, between, word, quoted, words_from, words, IsString, joined, places,
}
use nodeflight_fw.Strops.Arguments.{strops_split_argv-words}
use nodeflight_fw.Config.{Config, Found, cf_process_line}
use nodeflight_fw.Config.Load.{
  linebuf_num_args, string_from, args_at, cf_line, LinesEnd, after_line, cf_lines,
}

-- Words without a NUL.
abbrev AllStrings : List Bytes → Type 0
AllStrings [] = Unit {0}
AllStrings (w ∷ ws) = IsString w × AllStrings ws

string_from-joint : (w rest : Bytes) → IsString w → string_from (w ++ 0 ∷ rest) ≡ some w
unfolding string_from
string_from-joint [] rest is = refl
string_from-joint (c ∷ w) rest (n, is) = rw (n, string_from-joint w rest is) refl

-- The arguments of a line that is split are its words.
args_at_lem :
    (front rest : Bytes) (at : ℕ) (ws : List Bytes) (slots : List (Option ℕ))
    → at ≡ length front
    → AllStrings ws
    → args_at (front ++ joined ws ++ rest) (length ws) (places at ws ++ slots) ≡ some ws
unfolding args_at
args_at_lem front rest at [] slots here is = refl
args_at_lem front rest at (w ∷ ws) slots here (is, more) =
    let mem : front ++ (w ++ 0 ∷ joined ws) ++ rest ≡ front ++ (w ++ 0 ∷ (joined ws ++ rest)) =
      simp append_assoc in
    let mem' : front ++ (w ++ 0 ∷ joined ws) ++ rest ≡ front ++ (w ++ 0 ∷ []) ++ joined ws ++ rest =
      simp append_assoc in
    let first : string_from (drop at (front ++ (w ++ 0 ∷ joined ws) ++ rest)) ≡ some w =
      ap (λ m. string_from (drop at m)) mem
      ∙ ap string_from (drop-append front (w ++ 0 ∷ (joined ws ++ rest)) at here)
      ∙ string_from-joint w (joined ws ++ rest) is in
    let later : args_at (front ++ (w ++ 0 ∷ joined ws) ++ rest) (length ws)
          (places (at + length w + 1) ws ++ slots)
        ≡ some ws =
      ap (λ m. args_at m (length ws) (places (at + length w + 1) ws ++ slots)) mem'
      ∙ args_at_lem (front ++ (w ++ 0 ∷ [])) rest (at + length w + 1) ws slots
          (omega (arith, here, length-append front (w ++ 0 ∷ []), length-append w (0 ∷ []))) more in
    rw (first, later) refl

IsString-append : (w : Bytes) (c : ℕ) → IsString w → (c == 0) ≡ false → IsString (w ++ c ∷ [])
IsString-append [] c is n = (n, tt)
IsString-append (x ∷ w) c (m, is) n = (m, IsString-append w c is n)

words_from-AllStrings :
    (mode : Mode) (w text : Bytes)
    → IsString w
    → IsString text
    → AllStrings (words_from mode w text)
unfolding words_from
words_from-AllStrings between w [] is text = tt
words_from-AllStrings word w [] is text = (is, tt)
words_from-AllStrings quoted w [] is text = (is, tt)
words_from-AllStrings between w (c ∷ cs) is (n, text) = elim (Bool-cases (c == 32)) [
  | inl z ↦ rw z (words_from-AllStrings between [] cs tt text)
  | inr z ↦ elim (Bool-cases (c == 10)) [
    | inl y ↦ rw (z, y) tt
    | inr y ↦ elim (Bool-cases (c == 34)) [
      | inl x ↦ rw (z, y, x) (words_from-AllStrings quoted [] cs tt text)
      | inr x ↦ rw (z, y, x) (words_from-AllStrings word (c ∷ []) cs (n, tt) text)
    ]
  ]
]
words_from-AllStrings word w (c ∷ cs) is (n, text) = elim (Bool-cases (in_word c)) [
  | inl z ↦ rw z (words_from-AllStrings word (w ++ c ∷ []) cs (IsString-append w c is n) text)
  | inr z ↦ rw z (is, words_from-AllStrings between [] cs tt text)
]
words_from-AllStrings quoted w (c ∷ cs) is (n, text) = elim (Bool-cases (in_quotes c)) [
  | inl z ↦ rw z (words_from-AllStrings quoted (w ++ c ∷ []) cs (IsString-append w c is n) text)
  | inr z ↦ rw z (is, words_from-AllStrings between [] cs tt text)
]

-- A line that `cf_init` has places for.
pub record IsLine (line : Bytes) : Type 0 where
  pub is_string : IsString line
  pub fits : length (words line) < linebuf_num_args

with_buffer : Bytes → Option (Result ℤ × Config) → Option (Result ℤ × (Bytes × Config))
with_buffer mem none = none
with_buffer mem (some (r, c)) = some (r, (mem, c))

bound_to :
    (mem : Bytes) (o : Option (Result ℤ × Config))
    → (o >>= λ p. some (p.0, (mem, p.1))) ≡ with_buffer mem o
unfolding with_buffer
bound_to mem none = refl
bound_to mem (some p) = refl

-- A line is processed as its words.
cf_line-words :
    (f : Found) (line tail : Bytes) (c : Config)
    → IsLine line
    → (mem : Bytes) × (cf_line f (line ++ 0 ∷ tail) c
        ≡ with_buffer mem (cf_process_line f (words line) c))
unfolding cf_line words
cf_line-words f line tail c is =
    let ws = words line in
    let room : length ws < length {A = Option ℕ} (replicate linebuf_num_args none) = is.fits in
    let (rest, run) =
      strops_split_argv-words line tail (replicate linebuf_num_args none) is.is_string room in
    let slots : List (Option ℕ) = none ∷ drop (suc (length ws)) (replicate linebuf_num_args none) in
    let args : args_at (joined ws ++ rest) (length ws) (places 0 ws ++ slots) ≡ some ws =
      args_at_lem [] rest 0 ws slots refl (words_from-AllStrings between [] line tt is.is_string) in
    (joined ws ++ rest, rw (run, args) (bound_to (joined ws ++ rest) (cf_process_line f ws c)))

-- A file read by its words.
pub after_words :
    ℕ → Result ℤ × Config → Option (ℕ × (Result ℤ × Config)) → Option (ℕ × (Result ℤ × Config))
after_words n (given (pos k), c) next = next
after_words n (given (negsuc k), c) next = some (n, (given minus_one, c))
after_words n (failed, c) next = some (n, (given minus_one, c))
after_words n (halted, c) next = some (n, (halted, c))

pub process_words : (ℕ → Found) → ℕ → List (List Bytes) → Config → Option (ℕ × (Result ℤ × Config))
process_words found n [] c = some (n, (given (pos 0), c))
process_words found n (ws ∷ lines) c =
    cf_process_line (found n) ws c >>= λ r. after_words n r (process_words found (suc n) lines r.1)

pub forget_buffer : Option LinesEnd → Option (ℕ × (Result ℤ × Config))
forget_buffer none = none
forget_buffer (some (n, (r, (linebuf, c)))) = some (n, (r, c))

forgotten :
    (n : ℕ) (linebuf : Bytes) (c : Config)
    → forget_buffer (some (n, (given (pos 0), (linebuf, c)))) ≡ some (n, (given (pos 0), c))
unfolding forget_buffer
forgotten n linebuf c = refl

line_step :
    (found : ℕ → Found) (n : ℕ) (lines : List Bytes) (mem : Bytes) (o : Option (Result ℤ × Config))
    → ((c : Config)
        → forget_buffer (cf_lines found (suc n) lines mem c)
          ≡ process_words found (suc n) (map words lines) c)
    → forget_buffer
        (with_buffer mem o >>= λ r. after_line n r (cf_lines found (suc n) lines r.1.0 r.1.1))
      ≡ (o >>= λ r. after_words n r (process_words found (suc n) (map words lines) r.1))
unfolding forget_buffer with_buffer after_line after_words
line_step found n lines mem none next = refl
line_step found n lines mem (some (given (pos k), c)) next = next c
line_step found n lines mem (some (given (negsuc k), c)) next = refl
line_step found n lines mem (some (failed, c)) next = refl
line_step found n lines mem (some (halted, c)) next = refl

abbrev pub AllLines : List Bytes → Type 0
AllLines [] = Unit {0}
AllLines (line ∷ lines) = IsLine line × AllLines lines

-- The lines of a file, each without a NUL and of less than 32 words, are processed in their order, each
-- as its words, up to the first that fails: what the line buffer holds from one line to the next has no
-- effect.
pub cf_lines-words :
    (found : ℕ → Found) (n : ℕ) (lines : List Bytes) (linebuf : Bytes) (c : Config)
    → AllLines lines
    → forget_buffer (cf_lines found n lines linebuf c) ≡ process_words found n (map words lines) c
unfolding cf_lines process_words
cf_lines-words found n [] linebuf c all = forgotten n linebuf c
cf_lines-words found n (line ∷ lines) linebuf c (is, all) =
    let (mem, run) = cf_line-words (found n) line (drop (suc (length line)) linebuf) c is in
    rw run (
      line_step found n lines mem (cf_process_line (found n) (words line) c)
        (λ c'. cf_lines-words found (suc n) lines mem c' all))
