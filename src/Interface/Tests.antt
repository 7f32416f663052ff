-- ===== src/Interface/Tests.antt =====
-- The creation of an interface on a board with one peripheral.
use nodeflight_fw.Base.{
  ℕ, zero, suc, ◌≤◌, ◌<◌, true, some, List, [], ◌∷◌, ◌≡◌, refl, get_elem?, pos, arith,
}
use nodeflight_fw.Resource.{Decl}
use nodeflight_fw.Interface.{Creation, Board, if_create}
use nodeflight_fw.Interface.Counts.{Booked, count_at}
use nodeflight_fw.Interface.Create.{Created, if_create-Created}

abbrev resources : List Decl
resources =
    record { name = 0x70 ∷ 0x31 ∷ []; type = 3; count_avail = 1; ref = 0 }
    ∷ record { name = 0x64 ∷ []; type = 4; count_avail = 2; ref = 0 }
    ∷ []

abbrev board : Board
board = record {
  resources = resources;
  peripherals =
      record {
        decl = record { pp_type = 1; num_rscs = 2; storage_size = 64 };
        tag = 0x75 ∷ [];
        rscs =
            record { tag = 0x70 ∷ 0x31 ∷ []; arg_nr = 0; attr = 7 }
            ∷ record { tag = 0x64 ∷ []; arg_nr = 1; attr = 0 }
            ∷ [];
      }
      ∷ [];
  header_memory = true;
  rscs_memory = true;
}

states-Booked : Booked resources (0 ∷ 1 ∷ [])
states-Booked = record {
  counters = refl;
  small = (omega arith, (omega arith, tt));
  within = within_lem;
}
  where
    within_lem :
        (i : ℕ) (d : Decl)
        → get_elem? resources i ≡ some d
        → d.count_avail < 256
        → count_at (0 ∷ 1 ∷ []) i ≤ d.count_avail
    within_lem zero d e lt = omega arith
    within_lem (suc zero) d e lt = let same : 2 ≡ d.count_avail = cc in omega (arith, same)
    within_lem (suc (suc i)) d e lt = absurd cc

if_create-Created_example :
    (c : Creation) × (states' : List ℕ) × (if_create
        (λ iface. pos 0)
        board
        ((0x75 ∷ []) ∷ (0x70 ∷ 0x31 ∷ []) ∷ (0x64 ∷ []) ∷ [])
        1
        (0 ∷ 1 ∷ [])
      ≡ some (c, states'))
    × Booked resources states'
    × Created resources board.peripherals
        ((0x70 ∷ 0x31 ∷ []) ∷ (0x64 ∷ []) ∷ [])
        (0 ∷ 1 ∷ [])
        states'
        c
if_create-Created_example =
    if_create-Created (λ iface. pos 0) board (0x75 ∷ []) ((0x70 ∷ 0x31 ∷ []) ∷ (0x64 ∷ []) ∷ []) 1
      (0 ∷ 1 ∷ []) states-Booked
