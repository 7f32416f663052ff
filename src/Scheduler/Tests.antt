-- ===== src/Scheduler/Tests.antt =====
-- The theorems on schedules at one with a client.
use nodeflight_fw.Base.{
  ℕ, ◌≡◌, ◌≢◌, Bytes, ℤ, refl, true, false, not, ◌&&◌, ◌==◌, none, some, List, [], ◌∷◌, ◌++◌,
  if◌then◌else◌, take, bit_and, pos, replicate, arith,
}
use nodeflight_fw.Scheduler.{
  Client, Sched, free_client, is_free, is_null, sc_register_client, sc_init_clients, sc_task_turn,
}
use nodeflight_fw.Strops.{strops_cmp}
use nodeflight_fw.Resource.{is_zero}
use nodeflight_fw.Scheduler.Define.{
  Entry, Means, find_sched, bad_priority, sc_get, sc_define, sc_get-sc_define,
}
use nodeflight_fw.Scheduler.Registered.{slots, Holds, sc_register_client-Holds}
use nodeflight_fw.Scheduler.Runs.{
  AllReady, calls_left, run_calls, sc_init_clients-AllHold, sc_task_turn-Holds,
}

abbrev client : Client
client = record { init = some 1; run = some 2; storage = none }

abbrev other : Client
other = record { init = some 3; run = none; storage = some 4 }

abbrev sched : Sched
sched = record {
  clients = (client ∷ replicate 31 free_client) ∷ [];
  clients_initialized = 0;
  period_set = true;
}

sched-Holds : Holds (client ∷ []) sched.clients
unfolding slots is_free is_null
sched-Holds = record { spare = 31; in_slots = refl; set = (refl, tt) }

other_set : is_free other ≡ false
unfolding is_free is_null
other_set = refl

sc_register_client-Holds_example :
    (place : ℕ × ℕ) × (sched' : Sched) × (sc_register_client true true other sched
      ≡ (some place, sched'))
    × Holds ((client ∷ []) ++ other ∷ []) sched'.clients
    × (sched'.clients_initialized ≡ sched.clients_initialized)
sc_register_client-Holds_example =
    sc_register_client-Holds other sched (client ∷ []) other_set sched-Holds

sc_init_clients-AllHold_example :
    (scheds' : List Sched) × (sc_init_clients true (sched ∷ [])
      ≡ (pos 0, (calls_left ((client ∷ []) ∷ []) (sched ∷ []), scheds')))
    × AllReady ((client ∷ []) ∷ []) scheds'
sc_init_clients-AllHold_example =
    sc_init_clients-AllHold ((client ∷ []) ∷ []) (sched ∷ []) ((sched-Holds, omega arith, refl), tt)

abbrev ready : Sched
ready = record sched { clients_initialized = 1 }

sc_task_turn-Holds_example :
    sc_task_turn 1 true ready
    ≡ (if not (bit_and 1 1 == 0) && true then run_calls (take 1 (client ∷ [])) else [])
sc_task_turn-Holds_example = sc_task_turn-Holds (client ∷ []) 1 true ready sched-Holds (omega arith)

abbrev entries : List Entry
entries = record { ptr = 0; name = 0x61 ∷ []; sched = sched } ∷ []

abbrev means : Means
means = record { mutex = true; memory = true; name_memory = true; task = true }

free_name : find_sched (0x62 ∷ []) entries ≡ none
unfolding find_sched is_zero strops_cmp
free_name = refl

good_priority : bad_priority (pos 3) ≡ false
unfolding bad_priority
good_priority = refl

sc_get-sc_define_example :
    (after : List Entry) × (sc_define means 1 (0x62 ∷ []) (pos 3) entries ≡ (some 1, after))
    × (sc_get true (0x62 ∷ []) after ≡ some 1)
    × ((other : Bytes) → (0x62 ∷ []) ≢ other → sc_get true other after ≡ sc_get true other entries)
    × ((means' : Means) (ptr' : ℕ) (priority' : ℤ)
        → sc_define means' ptr' (0x62 ∷ []) priority' after ≡ (none, after))
sc_get-sc_define_example =
    sc_get-sc_define (0x62 ∷ []) 1 (pos 3) entries means refl good_priority free_name
