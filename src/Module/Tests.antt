-- ===== src/Module/Tests.antt =====
-- A line that sets up a module with a constant and a name.
use nodeflight_fw.Base.{ℕ, true, none, some, List, [], ◌∷◌, ◌≡◌, refl, Bytes, ℤ, pos, arith, All}
use nodeflight_fw.Strops.{strops_word_to_int}
use nodeflight_fw.Interface.Counts.{Booked}
use nodeflight_fw.Module.{normal, optional, link, const}
use nodeflight_fw.Module.Init.{Setup, Result, md_init}
use nodeflight_fw.Module.Typed.{Readable}
use nodeflight_fw.Module.Line.{Initialized, md_init-Initialized}

abbrev setup : Setup
setup = record {
  board = record { resources = []; peripherals = []; header_memory = true; rscs_memory = true };
  init_peripheral = λ iface. pos 0;
  cf_peripherals = [];
  schedulers = [];
  mutex = true;
  modules =
      record {
        name = 0x6d ∷ [];
        args = some (
            record { name = 0x61 ∷ []; mode = normal; type = const; subtype = 3 }
            ∷ record { name = 0x62 ∷ []; mode = optional; type = link; subtype = 1 }
            ∷ []);
        outputs = [];
      }
      ∷ [];
  init = λ md name args. pos 0;
}

no_states-Booked : Booked [] []
no_states-Booked = record { counters = refl; small = tt; within = λ i d e lt. absurd cc }

abbrev words : List Bytes
words = (52 ∷ 50 ∷ []) ∷ (45 ∷ []) ∷ []

words-Readable : All Readable words
unfolding strops_word_to_int
words-Readable = ((_, refl), ((_, refl), tt))

md_init-Initialized_example :
    (r : Result ℤ) × (states' : List ℕ) × (md_init setup (0x6d ∷ []) none words []
      ≡ some (r, states'))
    × Booked [] states'
    × Initialized setup (0x6d ∷ []) none r
md_init-Initialized_example =
    md_init-Initialized setup (0x6d ∷ []) none words [] (omega arith, tt) words-Readable
      no_states-Booked
