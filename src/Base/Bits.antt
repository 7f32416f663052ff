-- ===== src/Base/Bits.antt =====
-- `&`, `|` and `^` on numbers cut at a bit, `q * 2 ^ k + r`. At variables the libraries give these
-- operations no other law than their recursion on the lowest digit.
mod Step
use mathlib.Core.Path.{◌≡◌, refl, ap, ap₂, ◌∙◌, sym}
use Prim.Native.Nat.{
  ℕ, zero, suc, ◌+◌, ◌-◌, ◌*◌, ◌/◌, ◌%◌, ◌^◌, ◌≤◌, ◌<◌, min, max, differ, bit_and, bit_or, bit_xor,
  bit_or-bitwise, bit_xor-bitwise,
}
use native.Mathlib.Nat.{pow-suc, one-le-pow, div-add-mod'}
use native.Mathlib.Omega.{arith}
use Step.{bit_and_step, bit_or_step, bit_xor_step, differ_self, differ-zero, differ-le}

double_pow : (q k : ℕ) → q * 2 ^ suc k ≡ 2 * (q * 2 ^ k)
double_pow q k = omega (arith, ap (λ (t : ℕ). q * t) (pow-suc 2 k))

-- An operation that works digit by digit.
module _ (op digit : ℕ → ℕ → ℕ)
    (step : (a b : ℕ) → op a b ≡ op (a / 2) (b / 2) * 2 + digit (a % 2) (b % 2))
    (none : digit 0 0 ≡ 0) where
  op_zero_zero : op 0 0 ≡ 0
  op_zero_zero = omega (arith, step 0 0, none)

  -- It works on the two sides of a cut by themselves.
  op_fields :
      (k q s r t : ℕ)
      → r < 2 ^ k
      → t < 2 ^ k
      → op (q * 2 ^ k + r) (s * 2 ^ k + t) ≡ op q s * 2 ^ k + op r t
  op_fields zero q s r t hr ht =
      let r0 : r ≡ 0 = omega arith in
      let t0 : t ≡ 0 = omega arith in
      let a : q * 1 + r ≡ q = omega arith in
      let b : s * 1 + t ≡ s = omega arith in rw (a, b, r0, t0) (omega (arith, op_zero_zero))
  op_fields (suc k) q s r t hr ht =
      let hr' : r / 2 < 2 ^ k = omega (arith, pow-suc 2 k) in
      let ht' : t / 2 < 2 ^ k = omega (arith, pow-suc 2 k) in
      let a1 : (q * 2 ^ suc k + r) / 2 ≡ q * 2 ^ k + r / 2 = omega (arith, double_pow q k) in
      let a2 : (q * 2 ^ suc k + r) % 2 ≡ r % 2 = omega (arith, double_pow q k) in
      let b1 : (s * 2 ^ suc k + t) / 2 ≡ s * 2 ^ k + t / 2 = omega (arith, double_pow s k) in
      let b2 : (s * 2 ^ suc k + t) % 2 ≡ t % 2 = omega (arith, double_pow s k) in
      step (q * 2 ^ suc k + r) (s * 2 ^ suc k + t)
      ∙ rw (a1, a2, b1, b2, op_fields k q s (r / 2) (t / 2) hr' ht')
          (omega (arith, step r t, double_pow (op q s) k))

  op-lt :
      ((a b : ℕ) → digit (a % 2) (b % 2) < 2) → (k a b : ℕ) → a < 2 ^ k → b < 2 ^ k → op a b < 2 ^ k
  op-lt small zero a b ha hb =
      let a0 : a ≡ 0 = omega arith in
      let b0 : b ≡ 0 = omega arith in rw (a0, b0) (omega (arith, op_zero_zero))
  op-lt small (suc k) a b ha hb = omega (
    arith,
    step a b,
    small a b,
    pow-suc 2 k,
    op-lt small k (a / 2) (b / 2) (omega (arith, pow-suc 2 k)) (omega (arith, pow-suc 2 k)),
  )

  -- Where zero is neutral for the digits it is neutral for the operation.
  op-zero : ((x : ℕ) → digit x 0 ≡ x) → (k a : ℕ) → a ≤ k → op a 0 ≡ a
  op-zero neutral zero a h = let a0 : a ≡ 0 = omega arith in rw a0 op_zero_zero
  op-zero neutral (suc k) zero h = op_zero_zero
  op-zero neutral (suc k) (suc a) h =
      omega
        (arith, step (suc a) 0, neutral (suc a % 2), op-zero neutral k (suc a / 2) (omega arith))

  -- Where zero absorbs the digits it absorbs the numbers.
  op_absorb : ((x : ℕ) → digit x 0 ≡ 0) → (k a : ℕ) → a ≤ k → op a 0 ≡ 0
  op_absorb absorb zero a h = let a0 : a ≡ 0 = omega arith in rw a0 op_zero_zero
  op_absorb absorb (suc k) zero h = op_zero_zero
  op_absorb absorb (suc k) (suc a) h =
      omega
        (arith, step (suc a) 0, absorb (suc a % 2), op_absorb absorb k (suc a / 2) (omega arith))

pub bit_xor-zero : (a : ℕ) → bit_xor a 0 ≡ a
bit_xor-zero a = op-zero bit_xor differ bit_xor_step refl differ-zero a a (omega arith)

zero-bit_xor : (b : ℕ) → bit_xor 0 b ≡ b
zero-bit_xor b = bit_xor-bitwise 0 b

xor_self_below : (k a : ℕ) → a ≤ k → bit_xor a a ≡ 0
xor_self_below k zero h = refl
xor_self_below zero (suc a) h = absurd (omega arith)
xor_self_below (suc k) (suc a) h = omega (
  arith,
  bit_xor_step (suc a) (suc a),
  differ_self (suc a % 2),
  xor_self_below k (suc a / 2) (omega arith),
)

pub bit_xor_self : (a : ℕ) → bit_xor a a ≡ 0
bit_xor_self a = xor_self_below a a (omega arith)

pub bit_xor-lt : (k a b : ℕ) → a < 2 ^ k → b < 2 ^ k → bit_xor a b < 2 ^ k
bit_xor-lt =
    op-lt bit_xor differ bit_xor_step refl (λ a b. omega (arith, differ-le (a % 2) (b % 2)))

-- `^` with a number whose low `k` bits are clear.
pub bit_xor_high :
    (k q s r : ℕ) → r < 2 ^ k → bit_xor (q * 2 ^ k + r) (s * 2 ^ k) ≡ bit_xor q s * 2 ^ k + r
bit_xor_high k q s r h =
    ap (λ (t : ℕ). bit_xor (q * 2 ^ k + r) t) (omega arith)
    ∙ op_fields bit_xor differ bit_xor_step refl k q s r 0 h (one-le-pow k 2 (omega arith))
    ∙ rw (bit_xor-zero r)

-- `|` of two fields that do not overlap.
pub bit_or_fields : (k q r : ℕ) → r < 2 ^ k → bit_or (q * 2 ^ k) r ≡ q * 2 ^ k + r
bit_or_fields k q r h =
    ap₂ bit_or (omega arith) (omega arith)
    ∙ op_fields bit_or max bit_or_step refl k q 0 0 r (one-le-pow k 2 (omega arith)) h
    ∙ rw (op-zero bit_or max bit_or_step refl (λ x. omega arith) q q (omega arith))
        (omega (arith, bit_or-bitwise 0 r))

-- The same with the low field first.
pub bit_or_low : (k q r : ℕ) → r < 2 ^ k → bit_or r (q * 2 ^ k) ≡ q * 2 ^ k + r
bit_or_low k q r h =
    ap₂ bit_or (omega arith) (omega arith)
    ∙ op_fields bit_or max bit_or_step refl k 0 q r 0 h (one-le-pow k 2 (omega arith))
    ∙ rw (
      op-zero bit_or max bit_or_step refl (λ x. omega arith) r r (omega arith),
      bit_or-bitwise 0 q,
    )

and_ones : (k r : ℕ) → r < 2 ^ k → bit_and r (2 ^ k - 1) ≡ r
and_ones zero r h = let r0 : r ≡ 0 = omega arith in rw r0
and_ones (suc k) r h =
    let one = one-le-pow k 2 (omega arith) in
    let half : (2 ^ suc k - 1) / 2 ≡ 2 ^ k - 1 = omega (arith, pow-suc 2 k, one) in
    let low : (2 ^ suc k - 1) % 2 ≡ 1 = omega (arith, pow-suc 2 k, one) in
    bit_and_step r (2 ^ suc k - 1)
    ∙ rw (half, low, and_ones k (r / 2) (omega (arith, pow-suc 2 k))) (omega arith)

-- `&` with `k` low ones.
pub bit_and_mask : (k a : ℕ) → bit_and a (2 ^ k - 1) ≡ a % 2 ^ k
bit_and_mask k a =
    let one = one-le-pow k 2 (omega arith) in
    ap₂ bit_and (sym (div-add-mod' a (2 ^ k))) (omega arith)
    ∙ op_fields bit_and min bit_and_step refl k (a / 2 ^ k) 0 (a % 2 ^ k) (2 ^ k - 1)
        (omega (arith, one)) (omega (arith, one))
    ∙ rw
        (
          op_absorb bit_and min bit_and_step refl (λ x. omega arith) (a / 2 ^ k) (a / 2 ^ k)
              (omega arith),
          and_ones k (a % 2 ^ k) (omega (arith, one)),
        )
        (omega arith)

-- `&` with the one bit `k`.
pub bit_and_bit : (k a : ℕ) → bit_and a (2 ^ k) ≡ a / 2 ^ k % 2 * 2 ^ k
bit_and_bit k a =
    let one = one-le-pow k 2 (omega arith) in
    ap₂ bit_and (sym (div-add-mod' a (2 ^ k))) (omega arith)
    ∙ op_fields bit_and min bit_and_step refl k (a / 2 ^ k) 1 (a % 2 ^ k) 0 (omega (arith, one)) one
    ∙ rw
        (
          op_absorb bit_and min bit_and_step refl (λ x. omega arith) (a % 2 ^ k) (a % 2 ^ k)
              (omega arith),
          bit_and_mask 1 (a / 2 ^ k),
        )
        (omega arith)

differ_parity : (x y : ℕ) → x < 2 → y < 2 → differ x y ≡ (x + y) % 2
differ_parity zero y hx hy = omega arith
differ_parity (suc zero) zero hx hy = refl
differ_parity (suc zero) (suc zero) hx hy = refl
differ_parity (suc zero) (suc (suc y)) hx hy = absurd (omega arith)
differ_parity (suc (suc x)) y hx hy = absurd (omega arith)

bit_xor_parity : (a b : ℕ) → bit_xor a b ≡ bit_xor (a / 2) (b / 2) * 2 + (a + b) % 2
bit_xor_parity a b =
    omega (arith, bit_xor_step a b, differ_parity (a % 2) (b % 2) (omega arith) (omega arith))

pub bit_xor-mod_two : (a b : ℕ) → bit_xor a b % 2 ≡ (a + b) % 2
bit_xor-mod_two a b = omega (arith, bit_xor_parity a b)

undo_below : (k a c : ℕ) → a ≤ k → bit_xor (bit_xor a c) c ≡ a
undo_below k zero c h = rw (zero-bit_xor c) (bit_xor_self c)
undo_below zero (suc a) c h = absurd (omega arith)
undo_below (suc k) (suc a) c h =
    let p = bit_xor_parity (suc a) c in
    let half : bit_xor (suc a) c / 2 ≡ bit_xor (suc a / 2) (c / 2) = omega (arith, p) in
    bit_xor_parity (bit_xor (suc a) c) c
    ∙ rw half (omega (arith, p, undo_below k (suc a / 2) (c / 2) (omega arith)))

-- `^` twice with the same number changes nothing.
pub bit_xor_undo : (a c : ℕ) → bit_xor (bit_xor a c) c ≡ a
bit_xor_undo a c = undo_below a a c (omega arith)

pub bit_xor_cancel : (a b c : ℕ) → bit_xor a c ≡ bit_xor b c → a ≡ b
bit_xor_cancel a b c h = cc (bit_xor_undo a c, bit_xor_undo b c)

comm_below : (k a b : ℕ) → a ≤ k → bit_xor a b ≡ bit_xor b a
comm_below k zero b h = zero-bit_xor b ∙ sym (bit_xor-zero b)
comm_below zero (suc a) b h = absurd (omega arith)
comm_below (suc k) (suc a) b h = omega (
  arith,
  bit_xor_parity (suc a) b,
  bit_xor_parity b (suc a),
  comm_below k (suc a / 2) (b / 2) (omega arith),
)

pub bit_xor_comm : (a b : ℕ) → bit_xor a b ≡ bit_xor b a
bit_xor_comm a b = comm_below a a b (omega arith)
