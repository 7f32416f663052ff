-- ===== src/Fport/Checksum.antt =====
-- The checksum is the sum of the bytes to the modulus 255.
use nodeflight_fw.Base.{
  ℕ, zero, suc, ◌+◌, ◌*◌, ◌/◌, ◌%◌, ◌^◌, ◌≤◌, ◌<◌, some, [], ◌∷◌, ◌++◌, ltb, ◌≡◌, refl, ap, ◌∙◌,
  Bytes, u16, bit_and, length, arith, get_elem?-append, append_assoc, length-append, Bool-cases,
  zero-add, inl, inr, true, false, ltb→lt, ltb→ge, ◌⊎◌,
}
use nodeflight_fw.Base.Bits.{bit_and_mask}
use nodeflight_fw.Fport.{sum_loop, fold_loop, fport_checksum}

pub sum : Bytes → ℕ
sum [] = 0
sum (c ∷ cs) = c + sum cs

-- Every element is a byte.
abbrev pub AllBytes : Bytes → Type 0
AllBytes [] = Unit
AllBytes (c ∷ cs) = (c < 256) × AllBytes cs

sum_loop-sum :
    (done todo tail : Bytes) (s : ℕ)
    → s + 256 * length todo < 65536
    → AllBytes todo
    → sum_loop (length todo) (done ++ (todo ++ tail)) (length done) s ≡ some (s + sum todo)
unfolding sum_loop sum
sum_loop-sum done [] tail s h b = ap some (omega arith)
sum_loop-sum done (c ∷ todo) tail s h (small, b) =
    let small_sum : u16 (s + c) ≡ s + c = omega arith in
    let next =
      rw (append_assoc done (c ∷ []) (todo ++ tail), length-append done (c ∷ [])) at
        (sum_loop-sum (done ++ c ∷ []) todo tail (s + c) (omega arith) b) in
    rw (get_elem?-append done (todo ++ tail) c (length done) refl, small_sum, next)
      (ap some (omega arith))

-- A number that a checksum may be folded to.
abbrev pub Folded : ℕ → ℕ → Type 0
Folded s r = (r < 256) × (r % 255 ≡ s % 255) × (r ≡ 0 → s ≡ 0)

-- How large a number may be for the rounds that are left.
abbrev Rounds : ℕ → ℕ → Type 0
Rounds fuel s = (s < 256) ⊎ ((s < 257) × (1 ≤ fuel)) ⊎ ((s < 512) × (2 ≤ fuel)) ⊎ (3 ≤ fuel)

rounds : (f s : ℕ) → 255 < s → s < 65536 → Rounds (suc f) s → Rounds f (s % 256 + s / 256)
rounds f s large fits (inl h) = absurd (omega arith)
rounds f s large fits (inr (inl (h, g))) = inl (omega arith)
rounds f s large fits (inr (inr (inl (h, g)))) = inr (inl (omega arith, omega arith))
rounds f s large fits (inr (inr (inr g))) = inr (inr (inl (omega arith, omega arith)))

no_round : (s : ℕ) → Rounds zero s → 255 < s → ⊥
no_round s (inl r) large = omega arith
no_round s (inr (inl (r, g))) large = omega arith
no_round s (inr (inr (inl (r, g)))) large = omega arith
no_round s (inr (inr (inr g))) large = omega arith

fold_loop-suc :
    (fuel s : ℕ)
    → ltb 0xff s ≡ true
    → fold_loop (suc fuel) s ≡ fold_loop fuel (u16 (bit_and s 0xff + s / 2 ^ 8))
unfolding fold_loop
fold_loop-suc fuel s l = rw l refl

fold_loop_last : (fuel s : ℕ) → ltb 0xff s ≡ false → fold_loop (suc fuel) s ≡ some s
unfolding fold_loop
fold_loop_last fuel s l = rw l refl

fold_loop-Folded :
    (fuel s : ℕ)
    → s < 65536
    → Rounds fuel s
    → (r : ℕ) × (fold_loop (suc fuel) s ≡ some r) × Folded s r
fold_loop-Folded zero s fits h = elim (Bool-cases (ltb 0xff s)) [
  | inr l ↦ (s, fold_loop_last _ s l, (omega (arith, ltb→ge 255 s l), refl, λ e. e))
  | inl l ↦ absurd (no_round s h (ltb→lt 255 s l))
]
fold_loop-Folded (suc f) s fits h = elim (Bool-cases (ltb 0xff s)) [
  | inr l ↦ (s, fold_loop_last _ s l, (omega (arith, ltb→ge 255 s l), refl, λ e. e))
  | inl l ↦
      let low : bit_and s 0xff ≡ s % 256 = bit_and_mask 8 s in
      let large : 255 < s = ltb→lt 255 s l in
      let next : u16 (bit_and s 0xff + s / 2 ^ 8) ≡ s % 256 + s / 256 = omega arith in
      let (r, run, (small, same, none_left)) =
        fold_loop-Folded f (s % 256 + s / 256) (omega arith) (rounds f s large fits h) in
      (
        r,
        fold_loop-suc (suc f) s l ∙ ap (fold_loop (suc f)) next ∙ run,
        (small, same ∙ omega arith, λ e. omega (arith, none_left e)),
      )
]

sum_bound : (cs : Bytes) → AllBytes cs → sum cs ≤ 256 * length cs
unfolding sum
sum_bound [] b = omega arith
sum_bound (c ∷ cs) (small, b) = omega (arith, sum_bound cs b)

-- The checksum of a packet of at most 255 bytes is found, is a byte, is the sum of the packet's bytes
-- to the modulus 255, and is 0 only where all of them are 0.
pub fport_checksum-Folded :
    (packet tail : Bytes)
    → length packet < 256
    → AllBytes packet
    → (r : ℕ) × (fport_checksum (packet ++ tail) (length packet) ≡ some r) × Folded (sum packet) r
unfolding fport_checksum
fport_checksum-Folded packet tail short b =
    let (r, run, folded) =
      fold_loop-Folded 3 (sum packet) (omega (arith, sum_bound packet b))
        (inr (inr (inr (omega arith)))) in
    (r, rw (sum_loop-sum [] packet tail 0 (omega arith) b) (rw (zero-add (sum packet)) run), folded)
