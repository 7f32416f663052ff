-- ===== src/Nfcp/Run.antt =====
-- `nfcp_task` as a whole: the tables of the firmware, the start, and its turns one after the other.
pub mod Forever
use nodeflight_fw.Base.{ℕ, zero, suc, Bool, Option, none, some, List, [], ◌∷◌, ◌==◌, if◌then◌else◌}
use nodeflight_fw.Nfcp.State.{Nfcp, max_classes, nfcp_reset}
use nodeflight_fw.Nfcp.Packet.{Read}
use nodeflight_fw.Nfcp.Mgmt.{nfcp_cls_mgmt}
use nodeflight_fw.Nfcp.Task.{Class, nfcp_cls_mgmt_ops, Turn, next, waits, broken, turn}
use nodeflight_fw.Nfcp.Cap.{Tables, nfcp_cls_cap, nfcp_cls_cap_ops}

-- `nfcp_class`, with the tables that the capability class tells of.
unfoldable pub nfcp_class : Tables → ℕ → Option Class
nfcp_class t c =
    if c == nfcp_cls_mgmt
    then some nfcp_cls_mgmt_ops
    else if c == nfcp_cls_cap
    then some (nfcp_cls_cap_ops t)
    else none

-- What one turn meets: the reads of the line, and the clock after them.
pub record Event : Type 0 where
  pub reads : List Read
  pub now : ℕ

unfoldable pub go_on : Turn → (Nfcp → Turn) → Turn
go_on (next n) k = k n
go_on waits k = waits
go_on broken k = broken

-- The endless loop, as far as the events go.
unfoldable pub turns : (ℕ → Option Class) → Bool → List Event → Nfcp → Turn
unfolding turn go_on
turns classes granted [] n = next n
turns classes granted (e ∷ events) n =
    go_on (turn classes granted e.reads e.now n) (turns classes granted events)

-- `nfcp_cls_mgmt_init`: `memory` is whether its storage is allocated, and `stale` what stands in it
-- then. The handler of the log that it registers is in Nfcp.Mgmt.
unfoldable pub nfcp_cls_mgmt_init : Bool → ℕ → Nfcp → Nfcp
nfcp_cls_mgmt_init memory stale n = record n { session_id = stale; mgmt_storage = memory }

-- The storage of one class; the others have none, and `nfcp_cls_cap_init` does nothing.
unfoldable pub init_class : Bool → ℕ → ℕ → Nfcp → Nfcp
unfolding nfcp_cls_mgmt_init
init_class memory stale c n = if c == nfcp_cls_mgmt then nfcp_cls_mgmt_init memory stale n else n

-- The loop over the classes from the `i`-th on, with `left` of them left.
unfoldable pub init_classes : Bool → ℕ → ℕ → ℕ → Nfcp → Nfcp
unfolding init_class
init_classes memory stale zero i n = n
init_classes memory stale (suc left) i n =
    init_classes memory stale left (suc i) (init_class memory stale i n)

unfoldable pub after_start : Option Nfcp → (Nfcp → Turn) → Turn
after_start none loop = broken
after_start (some n) loop = loop n

-- The initialization of the classes, the reset and the loop.
unfoldable pub nfcp_task : Tables → Bool → Bool → ℕ → ℕ → List Event → Nfcp → Turn
unfolding turns nfcp_class nfcp_reset init_classes after_start
nfcp_task t memory granted stale now events n =
    after_start (nfcp_reset granted now (init_classes memory stale max_classes 0 n))
      (turns (nfcp_class t) granted events)
