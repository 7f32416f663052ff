-- ===== src/Scheduler.antt =====
-- src/core/scheduler.c: the clients of a schedule, in pools of 32.
pub mod Registered
pub mod Runs
pub mod Define
mod Tests
use nodeflight_fw.Base.{
  ℕ, zero, suc, ◌+◌, ◌-◌, Bool, true, false, ◌&&◌, Option, none, some, List, [], ◌∷◌, ◌++◌, ltb,
  leb, if◌then◌else◌, replicate, length, bit_and, ◌==◌, not, ℤ, pos, minus_one,
}

abbrev pub clients_per_pool : ℕ
clients_per_pool = 32

-- `sc_client_t`. Functions and storages are known by numbers; `none` is NULL.
pub record Client : Type 0 where
  pub init : Option ℕ
  pub run : Option ℕ
  pub storage : Option ℕ

-- A slot of a new pool.
abbrev pub free_client : Client
free_client = record { init = none; run = none; storage = none }

abbrev pub Pool : Type 0
Pool = List Client

-- `struct sc_s` without its name, its task and its link. `period_set` is `period_sec >= 0`.
pub record Sched : Type 0 where
  pub clients : List Pool
  pub clients_initialized : ℕ
  pub period_set : Bool

-- A call of `init` or `run`, with its storage.
pub record Call : Type 0 where
  pub function : ℕ
  pub storage : Option ℕ

-- Is a function pointer NULL?
unfoldable pub is_null : Option ℕ → Bool
is_null none = true
is_null (some f) = false

-- The call of a function that is not NULL.
unfoldable pub call_of : Option ℕ → Option ℕ → List Call
call_of none storage = []
call_of (some f) storage = record { function = f; storage = storage } ∷ []

unfoldable pub is_free : Client → Bool
unfolding is_null
is_free c = is_null c.init

unfoldable pub keep_slot : Client → Option (ℕ × Pool) → Option (ℕ × Pool)
keep_slot d none = none
keep_slot d (some (i, pool)) = some (i, d ∷ pool)

-- The loop over the slots of a pool: the first free slot, and the pool with the client in it.
unfoldable pub take_slot : Client → ℕ → Pool → Option (ℕ × Pool)
unfolding is_free keep_slot
take_slot c i [] = none
take_slot c i (d ∷ pool) =
    let rest = keep_slot d (take_slot c (suc i) pool) in
    if is_free d then some (i, c ∷ pool) else rest

-- The pool that is put at the end.
unfoldable pub new_pool : Client → Pool
new_pool c = c ∷ replicate 31 free_client

unfoldable pub placed :
    ℕ
    → Pool
    → List Pool
    → Option (ℕ × Pool)
    → Option (ℕ × ℕ) × List Pool
    → Option (ℕ × ℕ) × List Pool
placed p pool pools none rest = (rest.0, pool ∷ rest.1)
placed p pool pools (some (i, pool')) rest = (some (p, i), pool' ∷ pools)

-- The loop over the pools, from pool `p` on: the place of the client, and the pools.
unfoldable pub register_in : Bool → Client → ℕ → List Pool → Option (ℕ × ℕ) × List Pool
unfolding take_slot placed new_pool
register_in alloc c p [] = if alloc then (some (p, 0), new_pool c ∷ []) else (none, [])
register_in alloc c p (pool ∷ pools) =
    placed p pool pools (take_slot c 0 pool) (register_in alloc c (suc p) pools)

-- `granted` and `alloc` are what the mutex and `pvPortMalloc` answer.
unfoldable pub sc_register_client : Bool → Bool → Client → Sched → Option (ℕ × ℕ) × Sched
unfolding register_in
sc_register_client granted alloc c sched =
    let (place, pools) = register_in alloc c 0 sched.clients in
    if granted then (place, record sched { clients = pools }) else (none, sched)

-- One slot of `sc_init_clients`, the slot number `cur`: `clients_initialized` and the call.
unfoldable pub init_slot : ℕ → ℕ → Client → ℕ × List Call
unfolding is_free call_of
init_slot cur done c =
    if leb done cur && not (is_free c) then (cur + 1, call_of c.init c.storage) else (done, [])

unfoldable pub init_slots : ℕ → ℕ → Pool → ℕ × List Call
unfolding init_slot
init_slots cur done [] = (done, [])
init_slots cur done (c ∷ cs) =
    let here = init_slot cur done c in
    let rest = init_slots (suc cur) here.0 cs in (rest.0, here.1 ++ rest.1)

unfoldable pub init_pools : ℕ → ℕ → List Pool → ℕ × List Call
unfolding init_slots
init_pools cur done [] = (done, [])
init_pools cur done (pool ∷ pools) =
    let here = init_slots cur done pool in
    let rest = init_pools (cur + length pool) here.0 pools in (rest.0, here.1 ++ rest.1)

-- The loop over the schedules. It ends at one that has no period.
unfoldable pub init_scheds : List Sched → ℤ × (List Call × List Sched)
unfolding init_pools
init_scheds [] = (pos 0, ([], []))
init_scheds (s ∷ scheds) =
    let here = init_pools 0 s.clients_initialized s.clients in
    let rest = init_scheds scheds in
    if s.period_set
    then (rest.0, (here.1 ++ rest.1.0, record s { clients_initialized = here.0 } ∷ rest.1.1))
    else (minus_one, ([], s ∷ scheds))

unfoldable pub sc_init_clients : Bool → List Sched → ℤ × (List Call × List Sched)
unfolding init_scheds
sc_init_clients granted scheds = if granted then init_scheds scheds else (minus_one, ([], scheds))

-- `if (run != NULL) run(storage)`
unfoldable pub run_slot : Client → List Call
unfolding call_of
run_slot c = call_of c.run c.storage

-- The loops of `sc_task`, with `clients_left`.
unfoldable pub run_slots : ℕ → Pool → ℕ × List Call
unfolding run_slot
run_slots zero pool = (zero, [])
run_slots (suc left) [] = (suc left, [])
run_slots (suc left) (c ∷ cs) = let rest = run_slots left cs in (rest.0, run_slot c ++ rest.1)

unfoldable pub run_pools : ℕ → List Pool → ℕ × List Call
unfolding run_slots
run_pools left [] = (left, [])
run_pools left (pool ∷ pools) =
    let here = run_slots left pool in
    let rest = run_pools here.0 pools in (rest.0, here.1 ++ rest.1)

-- One turn of `sc_task`, with the notification and `sc_is_enabled`.
unfoldable pub sc_task_turn : ℕ → Bool → Sched → List Call
unfolding run_pools
sc_task_turn notify_value is_enabled sched =
    if not (bit_and notify_value 1 == 0) && is_enabled
    then (run_pools sched.clients_initialized sched.clients).1
    else []
