-- ===== src/Decim.antt =====
-- src/module/scheduler/sch_decim.c: a schedule that runs on every n-th run of another.
pub mod Counts
mod Tests
use nodeflight_fw.Base.{ℕ, zero, suc, ◌+◌, Bool, true, false, if◌then◌else◌, ℤ, pos, negsuc}
use nodeflight_fw.Resource.{is_zero}

-- `struct sch_decim_s` without its schedules.
pub record Decim : Type 0 where
  pub decimation_factor : ℤ
  pub current_counter : ℤ

-- The state that `sch_decim_init` leaves, for the argument `decimation_factor`.
unfoldable pub sch_decim_init : ℤ → Decim
sch_decim_init factor = record { decimation_factor = factor; current_counter = factor }

-- `x - 1`; the model does not wrap, and the counter is a number of 32 bits.
unfoldable pub decrement : ℤ → ℤ
decrement (pos zero) = negsuc zero
decrement (pos (suc n)) = pos n
decrement (negsuc n) = negsuc (suc n)

-- A run: the state, and whether the target is triggered.
unfoldable pub sch_decim_src_run : Decim → Decim × Bool
unfolding decrement is_zero
sch_decim_src_run d =
    let counter = decrement d.current_counter in
    if is_zero counter
    then (record d { current_counter = d.decimation_factor }, true)
    else (record d { current_counter = counter }, false)
