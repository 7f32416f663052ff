-- ===== src/Base/Memory.antt =====
-- Byte buffers of the source: a load or a store out of range is undefined behaviour, `none`.
use Prim.Native.Nat.{ℕ, zero, suc, ◌+◌, ◌%◌, ◌<◌}
use mathlib.Core.Path.{◌≡◌, ap, ◌∙◌, sym}
use mathlib.Core.List.{List, [], ◌∷◌, ◌++◌}
use mathlib.Core.Option.{Option, none, some}
use native.Mathlib.Omega.{arith}
use mathlib.Core.Logic.{inl, inr}
use nodeflight_fw.Base.Tests.{Bool-cases, ltb, if◌then◌else◌}
use nodeflight_fw.Base.Lists.{length, get_elem?, set, length-append, length-set}

abbrev pub Bytes : Type 0
Bytes = List ℕ

-- The cast to `uint8_t`.
abbrev pub u8 : ℕ → ℕ
u8 n = n % 256

-- The cast to `uint16_t`.
abbrev pub u16 : ℕ → ℕ
u16 n = n % 65536

-- The cast to `uint32_t`.
abbrev pub u32 : ℕ → ℕ
u32 n = n % 4294967296

infixl 5 ◌>>=◌
abbrev pub ◌>>=◌ {ℓ κ} : {A : Type ℓ} {B : Type κ} → Option A → (A → Option B) → Option B
none >>= f = none
some a >>= f = f a

module _ {ℓ} {A : Type ℓ} where
  unfoldable pub store : List A → ℕ → A → Option (List A)
  store buf i v = if ltb i (length buf) then some (set buf i v) else none

  pub store-set :
      (buf : List A) (i : ℕ) (v : A) → i < length buf → store buf i v ≡ some (set buf i v)
  unfolding store
  store-set buf i v h = ground arith

  -- A store in a buffer that is cut there.
  pub store-append :
      (xs ys : List A) (x v : A) (i : ℕ)
      → i ≡ length xs
      → store (xs ++ x ∷ ys) i v ≡ some (xs ++ v ∷ ys)
  unfolding store
  store-append [] ys x v zero e = ground arith
  store-append [] ys x v (suc i) e = absurd (omega arith)
  store-append (y ∷ xs) ys x v zero e = absurd (omega arith)
  store-append (y ∷ xs) ys x v (suc i) e = ground (arith, store-append xs ys x v i)

  pub get_elem?-skip :
      (xs ys : List A) (i j : ℕ) → j ≡ length xs + i → get_elem? (xs ++ ys) j ≡ get_elem? ys i
  get_elem?-skip [] ys i j e = ap (get_elem? ys) (omega arith)
  get_elem?-skip (x ∷ xs) ys i zero e = absurd (omega arith)
  get_elem?-skip (x ∷ xs) ys i (suc j) e = get_elem?-skip xs ys i j (omega arith)

  set-skip :
      (xs ys : List A) (i j : ℕ) (v : A) → j ≡ length xs + i → set (xs ++ ys) j v ≡ xs ++ set ys i v
  set-skip [] ys i j v e = ap (λ (t : ℕ). set ys t v) (omega arith)
  set-skip (x ∷ xs) ys i zero v e = absurd (omega arith)
  set-skip (x ∷ xs) ys i (suc j) v e = ap (◌∷◌ x) (set-skip xs ys i j v (omega arith))

  -- A store behind a prefix.
  pub store-skip :
      (xs ys : List A) (i j : ℕ) (v : A)
      → j ≡ length xs + i
      → i < length ys
      → store (xs ++ ys) j v ≡ some (xs ++ set ys i v)
  store-skip xs ys i j v e h =
      store-set (xs ++ ys) j v (omega (arith, length-append xs ys))
      ∙ ap some (set-skip xs ys i j v e)

  pub length-store :
      (buf : List A) (i : ℕ) (v : A) {b : List A} → store buf i v ≡ some b → length b ≡ length buf
  unfolding store
  length-store buf i v {b} h = elim (Bool-cases (ltb i (length buf))) [
    | inl e ↦
        let same : set buf i v ≡ b = cc (rw e at h) in ap length (sym same) ∙ length-set buf i v
    | inr e ↦ cc (rw e at h)
  ]
