-- ===== src/Resource/Tests.antt =====
-- The theorems on the tables at two small ones.
use Prim.Native.Nat.{min}
use nodeflight_fw.Base.{ℕ, ◌+◌, ◌-◌, ◌≡◌, refl, some, List, [], ◌∷◌, get_elem?, arith}
use nodeflight_fw.Resource.{Decl}
use nodeflight_fw.Resource.Counts.{allocations, allocations_lem}

abbrev pin : Decl
pin = record { name = 0x61 ∷ 0x31 ∷ []; type = 1; count_avail = 2; ref = 0 }

abbrev stream : Decl
stream = record { name = 0x62 ∷ []; type = 2; count_avail = 300; ref = 0 }

abbrev table : List Decl
table = pin ∷ stream ∷ []

allocations_lem_example :
    let given = min 3 (2 - 1) in
    (states' : List ℕ) × (allocations table 3 (1 ∷ 255 ∷ []) 0 ≡ some (given, states'))
    × (get_elem? states' 0 ≡ some (1 + given))
allocations_lem_example =
    allocations_lem 3 table (1 ∷ 255 ∷ []) 0 1 pin refl refl (omega arith) (omega arith)
