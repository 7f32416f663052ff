-- ===== src/Decim/Counts.antt =====
-- How often the target of a decimator is triggered.
use nodeflight_fw.Base.{
  ℕ, zero, suc, ◌+◌, ◌-◌, ◌*◌, ◌≤◌, ◌≡◌, refl, ap, ap₂, false, if◌then◌else◌, ℤ, pos, negsuc, arith,
  ◌==◌, ◌⊎◌, inl, inr,
}
use nodeflight_fw.Resource.{is_zero}
use nodeflight_fw.Decim.{Decim, sch_decim_init, decrement, sch_decim_src_run}

-- `n` runs: the state, and how often the target was triggered.
unfoldable pub runs : ℕ → Decim → Decim × ℕ
unfolding sch_decim_src_run
runs zero d = (d, 0)
runs (suc n) d =
    let (d', triggered) = sch_decim_src_run d in
    let (d'', times) = runs n d' in (d'', (if triggered then 1 else 0) + times)

abbrev counting : ℕ → ℕ → Decim
counting k c = record { decimation_factor = pos (suc k); current_counter = pos (suc c) }

run_counts : (k c : ℕ) → sch_decim_src_run (counting k (suc c)) ≡ (counting k c, false)
unfolding sch_decim_src_run decrement is_zero
run_counts k c = let more : (suc c == 0) ≡ false = ground arith in rw more refl

suc_times : (q k : ℕ) → suc q * suc k ≡ q * suc k + suc k
suc_times q k = grind arith

runs_lem :
    (n k c : ℕ)
    → c ≤ k
    → (q r : ℕ) → n + (k - c) ≡ q * suc k + r
    → r ≤ k
    → runs n (counting k c) ≡ (counting k (k - r), q)
unfolding runs
runs_lem zero k c h zero r e l = ap₂ (λ (t u : ℕ). (counting k t, u)) (omega arith) refl
runs_lem zero k c h (suc q) r e l = absurd (omega (arith, suc_times q k))
runs_lem (suc n) k zero h zero r e l = absurd (omega arith)
runs_lem (suc n) k zero h (suc q) r e l =
    let left : n + (k - k) ≡ q * suc k + r = omega (arith, suc_times q k) in
    rw (runs_lem n k k (omega arith) q r left l)
      (ap (λ (t : ℕ). (counting k (k - r), t)) (omega arith))
runs_lem (suc n) k (suc c) h q r e l =
    rw (run_counts k c, runs_lem n k c (omega arith) q r (omega arith) l)
      (ap (λ (t : ℕ). (counting k (k - r), t)) (omega arith))

-- A decimator with a factor from 1 on triggers its target on every run whose number is a multiple of
-- the factor: after q times the factor and r more runs, r less than the factor, q times.
pub decimates : (q r k : ℕ) → r ≤ k → (runs (q * suc k + r) (sch_decim_init (pos (suc k)))).1 ≡ q
unfolding sch_decim_init
decimates q r k l = ap (λ t. t.1) (runs_lem (q * suc k + r) k k (omega arith) q r (omega arith) l)

counting_down :
    (n m : ℕ) (factor : ℤ)
    → (runs n (record { decimation_factor = factor; current_counter = negsuc m })).1 ≡ 0
unfolding runs sch_decim_src_run decrement is_zero
counting_down zero m factor = refl
counting_down (suc n) m factor = rw (counting_down n (suc m) factor) (omega arith)

-- A decimator with a factor of 0 or less never triggers its target, as long as the counter of 32
-- bits does not wrap.
never_triggers :
    (n : ℕ) (factor : ℤ)
    → (factor ≡ pos 0) ⊎ ((m : ℕ) × (factor ≡ negsuc m))
    → (runs n (sch_decim_init factor)).1 ≡ 0
unfolding runs sch_decim_init sch_decim_src_run decrement is_zero
never_triggers zero factor h = refl
never_triggers (suc n) factor (inl e) = rw e (rw (counting_down n 0 (pos 0)) (omega arith))
never_triggers (suc n) factor (inr (m, e)) =
    rw e (rw (counting_down n (suc m) (negsuc m)) (omega arith))
