-- ===== src/Strops/Words.antt =====
-- The words of a line.
use nodeflight_fw.Base.{
  ℕ, ◌+◌, ◌≤◌, Bool, true, false, List, [], ◌∷◌, ◌++◌, append_assoc, append-nil, ◌==◌, ◌≡◌, refl,
  sym, ap, if◌then◌else◌, Bool-cases, inl, inr, ◌⊎◌, Option, some, Bytes, length, drop, arith,
}
use nodeflight_fw.Strops.Split.{in_quotes, in_word}

-- The character that a line is read at: between two words, in a word, or in one with quotes.
pub data Mode : Type 0 where
  between word quoted : Mode

-- The words of a line, with the part `w` of the current word that is read. Spaces part the words and
-- newlines end them; a newline between the words ends the line.
unfoldable pub words_from : Mode → Bytes → Bytes → List Bytes
words_from between w [] = []
words_from word w [] = w ∷ []
words_from quoted w [] = w ∷ []
words_from between w (c ∷ cs) =
    let skipped = words_from between [] cs in
    let opened = words_from quoted [] cs in
    let started = words_from word (c ∷ []) cs in
    if c == 32 then skipped else if c == 10 then [] else if c == 34 then opened else started
words_from word w (c ∷ cs) =
    let next = words_from between [] cs in
    let more = words_from word (w ++ c ∷ []) cs in if in_word c then more else w ∷ next
words_from quoted w (c ∷ cs) =
    let next = words_from between [] cs in
    let more = words_from quoted (w ++ c ∷ []) cs in if in_quotes c then more else w ∷ next

unfoldable pub words : Bytes → List Bytes
unfolding words_from
words line = words_from between [] line

-- No NUL in it.
abbrev pub IsString : Bytes → Type 0
IsString [] = Unit {0}
IsString (c ∷ cs) = ((c == 0) ≡ false) × IsString cs

-- The words behind one another, each with its NUL, and the places where they start.
abbrev pub joined : List Bytes → Bytes
joined [] = []
joined (w ∷ ws) = w ++ 0 ∷ joined ws

abbrev pub places : ℕ → List Bytes → List (Option ℕ)
places at [] = []
places at (w ∷ ws) = some at ∷ places (at + length w + 1) ws

-- A text as far as it passes a test, and behind that.
abbrev pub kept : (ℕ → Bool) → Bytes → Bytes
kept test [] = []
kept test (c ∷ cs) = if test c then c ∷ kept test cs else []

abbrev pub left : (ℕ → Bool) → Bytes → Bytes
left test [] = []
left test (c ∷ cs) = if test c then left test cs else c ∷ cs

abbrev pub is_space : ℕ → Bool
is_space c = c == 32

pub words_from-word :
    (w text : Bytes)
    → words_from word w text ≡ (w ++ kept in_word text) ∷ words (drop 1 (left in_word text))
unfolding words words_from
words_from-word w [] = ap (λ v. v ∷ []) (sym (append-nil w))
words_from-word w (c ∷ cs) = elim (Bool-cases (in_word c)) [
  | inl z ↦ rw (z, words_from-word (w ++ c ∷ []) cs, append_assoc w (c ∷ []) (kept in_word cs)) refl
  | inr z ↦ rw (z, append-nil w) refl
]

pub words_from-quoted :
    (w text : Bytes)
    → words_from quoted w text ≡ (w ++ kept in_quotes text) ∷ words (drop 1 (left in_quotes text))
unfolding words words_from
words_from-quoted w [] = ap (λ v. v ∷ []) (sym (append-nil w))
words_from-quoted w (c ∷ cs) = elim (Bool-cases (in_quotes c)) [
  | inl z ↦
      rw (z, words_from-quoted (w ++ c ∷ []) cs, append_assoc w (c ∷ []) (kept in_quotes cs)) refl
  | inr z ↦ rw (z, append-nil w) refl
]

pub words-left : (text : Bytes) → words text ≡ words (left is_space text)
unfolding words words_from
words-left [] = refl
words-left (c ∷ cs) = elim (Bool-cases (c == 32)) [
  | inl z ↦ rw z (words-left cs)
  | inr z ↦ let same : left is_space (c ∷ cs) ≡ c ∷ cs = rw z refl in ap words (sym same)
]

pub IsString-left : (test : ℕ → Bool) (text : Bytes) → IsString text → IsString (left test text)
IsString-left test [] is = tt
IsString-left test (c ∷ cs) (n, is) = elim (Bool-cases (test c)) [
  | inl z ↦ rw z (IsString-left test cs is)
  | inr z ↦ rw z (n, is)
]

pub length-left : (test : ℕ → Bool) (text : Bytes) → length (left test text) ≤ length text
length-left test [] = omega arith
length-left test (c ∷ cs) = elim (Bool-cases (test c)) [
  | inl z ↦ rw z (omega (arith, length-left test cs))
  | inr z ↦ rw z (omega arith)
]

pub left-stops :
    (test : ℕ → Bool) (text : Bytes)
    → (left test text ≡ [])
      ⊎ ((d : ℕ) × (ds : Bytes) × (left test text ≡ d ∷ ds) × (test d ≡ false))
left-stops test [] = inl refl
left-stops test (c ∷ cs) = elim (Bool-cases (test c)) [
  | inl z ↦ rw z (left-stops test cs)
  | inr z ↦ inr (c, cs, rw z refl, z)
]

pub words_nil : words [] ≡ []
unfolding words words_from
words_nil = refl

pub words_newline :
    (c : ℕ) (cs : Bytes) → (c == 32) ≡ false → (c == 10) ≡ true → words (c ∷ cs) ≡ []
unfolding words words_from
words_newline c cs space newline = rw (space, newline) refl

-- The word that starts with a character, and the text behind it.
unfoldable pub first_word : ℕ → Bytes → Bytes
first_word c cs = if c == 34 then kept in_quotes cs else c ∷ kept in_word cs

unfoldable pub behind_word : ℕ → Bytes → Bytes
behind_word c cs = if c == 34 then left in_quotes cs else left in_word cs

pub length-behind_word : (c : ℕ) (cs : Bytes) → length (behind_word c cs) ≤ length cs
unfolding behind_word
length-behind_word c cs = elim (Bool-cases (c == 34)) [
  | inl z ↦ rw z (length-left in_quotes cs)
  | inr z ↦ rw z (length-left in_word cs)
]

pub IsString-behind_word : (c : ℕ) (cs : Bytes) → IsString cs → IsString (behind_word c cs)
unfolding behind_word
IsString-behind_word c cs is = elim (Bool-cases (c == 34)) [
  | inl z ↦ rw z (IsString-left in_quotes cs is)
  | inr z ↦ rw z (IsString-left in_word cs is)
]

pub words_cons :
    (c : ℕ) (cs : Bytes)
    → (c == 32) ≡ false
    → (c == 10) ≡ false
    → words (c ∷ cs) ≡ first_word c cs ∷ words (drop 1 (behind_word c cs))
unfolding first_word behind_word words words_from
words_cons c cs space newline = elim (Bool-cases (c == 34)) [
  | inl z ↦ rw (space, newline, z) (words_from-quoted [] cs)
  | inr z ↦ rw (space, newline, z) (words_from-word (c ∷ []) cs)
]
