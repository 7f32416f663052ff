-- ===== src/Strops/Numbers.antt =====
-- What number a word of digits is.
use nodeflight_fw.Base.{
  ℕ, zero, suc, ◌+◌, ◌*◌, ◌-◌, ◌^◌, ◌≤◌, ◌<◌, true, false, some, List, [], ◌∷◌, ◌++◌, ◌≡◌, refl,
  ◌∙◌, ap, Bytes, length, ◌==◌, ge→ltb, pos, All, arith,
}
use nodeflight_fw.Strops.{is_digit, negate, digits_loop, strops_word_to_int}

-- The characters of digits.
abbrev pub chars_of : List ℕ → Bytes
chars_of [] = []
chars_of (d ∷ ds) = (48 + d) ∷ chars_of ds

-- The number that digits are, the first one the highest.
abbrev pub number_of : List ℕ → ℕ
number_of [] = 0
number_of (d ∷ ds) = d * 10 ^ length ds + number_of ds

abbrev pub AllDigits : List ℕ → Type 0
AllDigits ds = All (λ (d : ℕ). d < 10) ds

-- A text that does not go on with a digit.
abbrev pub EndsNumber : Bytes → Type 0
EndsNumber [] = Unit
EndsNumber (c ∷ cs) = is_digit c ≡ false

scale : (r d p n : ℕ) → (r * 10 + d) * p + n ≡ r * (p * 10) + (d * p + n)
scale r d p n = grind arith

is_digit_lem : (d : ℕ) → d < 10 → is_digit (48 + d) ≡ true
is_digit_lem d h = ground arith

power_suc : (n : ℕ) → 10 ^ suc n ≡ 10 ^ n * 10
power_suc n = omega arith

power_pos : (n : ℕ) → 1 ≤ 10 ^ n
power_pos zero = omega arith
power_pos (suc n) = omega (arith, power_pos n)

factor_le : (a p : ℕ) → 1 ≤ p → a ≤ a * p
factor_le a zero h = absurd (omega (arith, h))
factor_le a (suc p) h = grind arith

unsigned : (d : ℕ) → (48 + d == 45) ≡ false
unsigned d = ground arith

digits_loop-number :
    (ds : List ℕ) (rest : Bytes) (res : ℕ)
    → AllDigits ds
    → EndsNumber rest
    → res * 10 ^ length ds + number_of ds ≤ 2147483647
    → digits_loop res (chars_of ds ++ rest) ≡ some (res * 10 ^ length ds + number_of ds)
unfolding digits_loop
digits_loop-number [] [] res digits ends fits = let e : res ≡ res * 1 + 0 = omega arith in ap some e
digits_loop-number [] (c ∷ cs) res digits ends fits =
    let e : res ≡ res * 1 + 0 = omega arith in rw ends (ap some e)
digits_loop-number (d ∷ ds) rest res digits ends fits =
    let same : res * 10 + (48 + d - 48) ≡ res * 10 + d = omega arith in
    let e = scale res d (10 ^ length ds) (number_of ds) in
    let p : res * 10 ^ length (d ∷ ds) ≡ res * (10 ^ length ds * 10) =
      ap (λ t. res * t) (power_suc (length ds)) in
    let whole = power_pos (length ds) in
    let fits0 : res * (10 ^ length ds * 10) + (d * 10 ^ length ds + number_of ds) ≤ 2147483647 =
      omega (arith, fits, p) in
    let fits' : (res * 10 + d) * 10 ^ length ds + number_of ds ≤ 2147483647 =
      omega (arith, fits0, e) in
    let small : res * 10 + d ≤ 2147483647 =
      omega (arith, fits', factor_le (res * 10 + d) (10 ^ length ds) whole) in
    rw (is_digit_lem d digits.0, same, ge→ltb 2147483647 (res * 10 + d) small)
      (digits_loop-number ds rest (res * 10 + d) digits.1 ends fits'
        ∙ ap some (e ∙ omega (arith, p)))

-- A word that starts with digits, whose number is at most 2147483647, is that number, and its
-- negative with a sign before it, whatever follows the digits.
pub strops_word_to_int-number :
    (d : ℕ) (ds : List ℕ) (rest : Bytes)
    → AllDigits (d ∷ ds)
    → EndsNumber rest
    → number_of (d ∷ ds) ≤ 2147483647
    → (strops_word_to_int (chars_of (d ∷ ds) ++ rest) ≡ some (pos (number_of (d ∷ ds))))
      × (strops_word_to_int (45 ∷ chars_of (d ∷ ds) ++ rest) ≡ some (negate (number_of (d ∷ ds))))
unfolding strops_word_to_int
strops_word_to_int-number d ds rest digits ends fits =
    let e = digits_loop-number (d ∷ ds) rest 0 digits ends (omega (arith, fits)) in
    let e' : digits_loop 0 (chars_of (d ∷ ds) ++ rest) ≡ some (number_of (d ∷ ds)) =
      e ∙ ap some (omega arith) in
    (rw (unsigned d, e') refl, rw e' refl)
