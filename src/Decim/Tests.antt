-- ===== src/Decim/Tests.antt =====
-- The theorems on the decimator at concrete factors.
use nodeflight_fw.Base.{◌+◌, ◌*◌, ◌≡◌, suc, pos, arith}
use nodeflight_fw.Decim.{sch_decim_init}
use nodeflight_fw.Decim.Counts.{runs, decimates}

decimates_example : (runs (3 * suc 4 + 2) (sch_decim_init (pos (suc 4)))).1 ≡ 3
decimates_example = decimates 3 2 4 (omega arith)
