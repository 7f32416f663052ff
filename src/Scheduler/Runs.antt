-- ===== src/Scheduler/Runs.antt =====
-- Which clients `sc_init_clients` and `sc_task` call.
use nodeflight_fw.Base.{
  ℕ, zero, suc, ◌+◌, ◌-◌, ◌≤◌, ◌≡◌, refl, sym, ap, ap₂, ◌∙◌, Bool, true, false, List, [], ◌∷◌, ◌++◌,
  length, take, drop, replicate, append_assoc, leb, Bool-cases, if◌then◌else◌, arith, add-zero, inl,
  inr, not, ◌&&◌, ◌==◌, bit_and, pos,
}
use nodeflight_fw.Scheduler.{
  Client, Pool, Sched, Call, free_client, is_free, is_null, call_of, init_slot, init_slots,
  init_pools, init_scheds, sc_init_clients, run_slot, run_slots, run_pools, sc_task_turn,
}
use nodeflight_fw.Scheduler.Registered.{slots, AllSet, Holds}

-- The calls of `init` and of `run` of clients, in their order.
pub init_calls : List Client → List Call
init_calls [] = []
init_calls (c ∷ cs) = call_of c.init c.storage ++ init_calls cs

pub run_calls : List Client → List Call
run_calls [] = []
run_calls (c ∷ cs) = run_slot c ++ run_calls cs

init_slots-append :
    (cur done : ℕ) (xs ys : Pool)
    → init_slots cur done (xs ++ ys) ≡ (
      (init_slots (cur + length xs) (init_slots cur done xs).0 ys).0,
      (init_slots cur done xs).1 ++ (init_slots (cur + length xs) (init_slots cur done xs).0 ys).1,
    )
unfolding init_slots
init_slots-append cur done [] ys = rw (add-zero cur) refl
init_slots-append cur done (x ∷ xs) ys =
    let next : suc cur + length xs ≡ cur + suc (length xs) = omega arith in
    rw (init_slots-append (suc cur) (init_slot cur done x).0 xs ys, next)
      (ap₂ (λ (t : ℕ) (u : List Call). (t, u)) refl
        (sym (append_assoc (init_slot cur done x).1 _ _)))

init_slot-free_client : (cur done : ℕ) → init_slot cur done free_client ≡ (done, [])
unfolding init_slot is_free is_null call_of
init_slot-free_client cur done = elim (Bool-cases (leb done cur)) [
  | inl l ↦ rw l refl
  | inr l ↦ rw l refl
]

init_slots-replicate : (cur done m : ℕ) → init_slots cur done (replicate m free_client) ≡ (done, [])
unfolding init_slots
init_slots-replicate cur done zero = refl
init_slots-replicate cur done (suc m) =
    rw (init_slot-free_client cur done, init_slots-replicate (suc cur) done m) refl

run_slots-zero : (xs : Pool) → run_slots zero xs ≡ (zero, [])
unfolding run_slots
run_slots-zero xs = refl

run_slots-append :
    (left : ℕ) (xs ys : Pool)
    → run_slots left (xs ++ ys) ≡ (
      (run_slots (run_slots left xs).0 ys).0,
      (run_slots left xs).1 ++ (run_slots (run_slots left xs).0 ys).1,
    )
unfolding run_slots
run_slots-append zero xs ys = refl
run_slots-append (suc left) [] ys = refl
run_slots-append (suc left) (x ∷ xs) ys =
    rw (run_slots-append left xs ys)
      (ap₂ (λ (t : ℕ) (u : List Call). (t, u)) refl (sym (append_assoc (run_slot x) _ _)))

run_pools-slots :
    (left : ℕ) (pools : List Pool) → run_pools left pools ≡ run_slots left (slots pools)
unfolding run_pools slots
run_pools-slots zero [] = refl
run_pools-slots (suc left) [] = refl
run_pools-slots left (pool ∷ pools) =
    rw (run_slots-append left pool (slots pools), run_pools-slots (run_slots left pool).0 pools)
      refl

run_slots-take :
    (left : ℕ) (cs : List Client) (ys : Pool)
    → left ≤ length cs
    → run_slots left (cs ++ ys) ≡ (zero, run_calls (take left cs))
unfolding run_slots run_calls
run_slots-take zero cs ys h = refl
run_slots-take (suc left) [] ys h = absurd (omega arith)
run_slots-take (suc left) (c ∷ cs) ys h = rw (run_slots-take left cs ys (omega arith)) refl

init_pools-slots :
    (cur done : ℕ) (pools : List Pool)
    → init_pools cur done pools ≡ init_slots cur done (slots pools)
unfolding init_pools init_slots slots
init_pools-slots cur done [] = refl
init_pools-slots cur done (pool ∷ pools) =
    rw
      (
        init_slots-append cur done pool (slots pools),
        init_pools-slots (cur + length pool) (init_slots cur done pool).0 pools,
      )
      refl

init_slot-is_free :
    (cur done : ℕ) (c : Client)
    → is_free c ≡ false
    → init_slot cur done c
      ≡ (if leb done cur then (cur + 1, call_of c.init c.storage) else (done, []))
unfolding init_slot
init_slot-is_free cur done c f = elim (Bool-cases (leb done cur)) [
  | inl l ↦ rw (l, f) refl
  | inr l ↦ rw l refl
]

drop_empty : (n : ℕ) → drop {A = Client} n [] ≡ []
drop_empty zero = refl
drop_empty (suc n) = refl

init_slots-drop :
    (cs : List Client) (cur done m : ℕ)
    → AllSet cs
    → cur ≤ done
    → done ≤ cur + length cs
    → init_slots cur done (cs ++ replicate m free_client)
      ≡ (cur + length cs, init_calls (drop (done - cur) cs))
unfolding init_slots init_calls
init_slots-drop [] cur done m all le ge =
    rw (init_slots-replicate cur done m, drop_empty (done - cur))
      (ap (λ (t : ℕ). (t, [])) (omega arith))
init_slots-drop (c ∷ cs) cur done m (f, all) le ge = elim (Bool-cases (leb done cur)) [
  | inl l ↦
      let here : done - cur ≡ 0 = ground arith in
      let next : cur + 1 - suc cur ≡ 0 = omega arith in
      rw
        (
          init_slot-is_free cur done c f,
          l,
          init_slots-drop cs (suc cur) (cur + 1) m all (omega arith) (omega arith),
          here,
          next,
        )
        (ap₂ (λ (t : ℕ) (u : List Call). (t, u)) (omega arith) refl)
  | inr l ↦
      let later : done - cur ≡ suc (done - suc cur) = ground arith in
      rw
        (
          init_slot-is_free cur done c f,
          l,
          init_slots-drop cs (suc cur) done m all (ground arith) (omega arith),
          later,
        )
        (ap₂ (λ (t : ℕ) (u : List Call). (t, u)) (omega arith) refl)
]

-- Schedules with a period that hold these clients; those initialized are the first ones.
abbrev pub AllHold : List (List Client) → List Sched → Type 0
AllHold [] [] = Unit
AllHold [] (s ∷ scheds) = ⊥
AllHold (cs ∷ css) [] = ⊥
AllHold (cs ∷ css) (s ∷ scheds) =
    (Holds cs s.clients × (s.clients_initialized ≤ length cs) × (s.period_set ≡ true))
    × AllHold css scheds

-- All clients of all schedules are initialized.
abbrev pub AllReady : List (List Client) → List Sched → Type 0
AllReady [] [] = Unit
AllReady [] (s ∷ scheds) = ⊥
AllReady (cs ∷ css) [] = ⊥
AllReady (cs ∷ css) (s ∷ scheds) =
    (Holds cs s.clients × (s.clients_initialized ≡ length cs)) × AllReady css scheds

-- The calls that are left.
pub calls_left : List (List Client) → List Sched → List Call
calls_left [] scheds = []
calls_left (cs ∷ css) [] = []
calls_left (cs ∷ css) (s ∷ scheds) =
    init_calls (drop s.clients_initialized cs) ++ calls_left css scheds

init_pools-Holds :
    (cs : List Client) (done : ℕ) (pools : List Pool)
    → Holds cs pools
    → done ≤ length cs
    → init_pools 0 done pools ≡ (length cs, init_calls (drop done cs))
init_pools-Holds cs done pools h le =
    init_pools-slots 0 done pools
    ∙ ap (init_slots 0 done) h.in_slots
    ∙ init_slots-drop cs 0 done h.spare h.set (omega arith) (omega arith)
    ∙ ap₂ (λ (t u : ℕ). (t, init_calls (drop u cs))) (omega arith) (omega arith)

init_scheds-AllHold :
    (css : List (List Client)) (scheds : List Sched)
    → AllHold css scheds
    → (scheds' : List Sched) × (init_scheds scheds ≡ (pos 0, (calls_left css scheds, scheds')))
      × AllReady css scheds'
unfolding init_scheds calls_left
init_scheds-AllHold [] [] h = ([], refl, tt)
init_scheds-AllHold [] (s ∷ scheds) h = absurd h
init_scheds-AllHold (cs ∷ css) [] h = absurd h
init_scheds-AllHold (cs ∷ css) (s ∷ scheds) ((holds, le, period), rest) =
    let (scheds', run, ready) = init_scheds-AllHold css scheds rest in
    (
      record s { clients_initialized = length cs } ∷ scheds',
      rw (run, period, init_pools-Holds cs s.clients_initialized s.clients holds le) refl,
      ((holds, refl), ready),
    )

-- With the mutex, with a period in every schedule and with no more clients counted as initialized
-- than a schedule has, `sc_init_clients` calls `init` of exactly
-- those clients that were registered since it was called last, each once and in the order of
-- registration, and returns 0 with all of them counted as initialized.
pub sc_init_clients-AllHold :
    (css : List (List Client)) (scheds : List Sched)
    → AllHold css scheds
    → (scheds' : List Sched) × (sc_init_clients true scheds
        ≡ (pos 0, (calls_left css scheds, scheds')))
      × AllReady css scheds'
unfolding sc_init_clients
sc_init_clients-AllHold css scheds h = init_scheds-AllHold css scheds h

-- In a schedule whose pools hold clients, at least as many as are counted as initialized, a turn of
-- `sc_task` that is notified and enabled runs exactly the initialized clients, in the
-- order of registration, and none of those that were registered since; any other turn runs none.
pub sc_task_turn-Holds :
    (cs : List Client) (notify_value : ℕ) (is_enabled : Bool) (sched : Sched)
    → Holds cs sched.clients
    → sched.clients_initialized ≤ length cs
    → sc_task_turn notify_value is_enabled sched ≡ (
        if not (bit_and notify_value 1 == 0) && is_enabled
        then run_calls (take sched.clients_initialized cs)
        else [])
unfolding sc_task_turn
sc_task_turn-Holds cs notify_value is_enabled sched h le =
    rw
      (run_pools-slots sched.clients_initialized sched.clients
        ∙ ap (run_slots sched.clients_initialized) h.in_slots
        ∙ run_slots-take sched.clients_initialized cs (replicate h.spare free_client) le)
      refl
