-- ===== src/Scheduler/Define.antt =====
-- src/core/scheduler.c: the list of schedules, newest first. A pointer is the number of an allocation.
use nodeflight_fw.Base.{
  ℕ, Bool, true, false, ◌||◌, not, Option, none, some, List, [], ◌∷◌, ◌≡◌, ◌≢◌, refl, if◌then◌else◌,
  leb, Bytes, ℤ, pos, negsuc, Bool-cases, inl, inr,
}
use nodeflight_fw.Strops.{strops_cmp}
use nodeflight_fw.Resource.{is_zero}
use nodeflight_fw.Resource.Lookup.{same_string, is_zero_self}
use nodeflight_fw.Scheduler.{Sched}

-- A schedule in the list, with its name.
pub record Entry : Type 0 where
  pub ptr : ℕ
  pub name : Bytes
  pub sched : Sched

-- The search loop.
unfoldable pub find_sched : Bytes → List Entry → Option ℕ
find_sched name [] = none
find_sched name (cur ∷ rest) =
    let others = find_sched name rest in
    if is_zero (strops_cmp cur.name name) then some cur.ptr else others

-- `mutex` is whether it is had.
unfoldable pub sc_get : Bool → Bytes → List Entry → Option ℕ
unfolding find_sched
sc_get mutex name schedulers = if mutex then find_sched name schedulers else none

-- What a definition finds: the mutex, memory for the schedule and its name, and a task.
pub record Means : Type 0 where
  pub mutex : Bool
  pub memory : Bool
  pub name_memory : Bool
  pub task : Bool

abbrev pub new_sched : Sched
new_sched = record { clients = []; clients_initialized = 0; period_set = false }

unfoldable pub is_some : Option ℕ → Bool
is_some none = false
is_some (some p) = true

-- `priority < 0 || priority >= SCHEDULER_NUM_PRIORITIES`.
unfoldable pub bad_priority : ℤ → Bool
bad_priority (pos p) = leb 8 p
bad_priority (negsuc p) = true

-- `ptr` is where the schedule would be allocated.
unfoldable pub sc_define : Means → ℕ → Bytes → ℤ → List Entry → Option ℕ × List Entry
unfolding bad_priority find_sched is_some
sc_define means ptr name priority schedulers =
    if bad_priority priority || not means.mutex
    then (none, schedulers)
    else if is_some (find_sched name schedulers)
    then (none, schedulers)
    else if not means.memory || (not means.name_memory || not means.task)
    then (none, schedulers)
    else (some ptr, record { ptr = ptr; name = name; sched = new_sched } ∷ schedulers)

-- `sc_configure_source`, with whether the new period is not negative.
unfoldable pub sc_configure_source : Bool → Sched → Bool × Sched
sc_configure_source set sched =
    if sched.period_set then (false, sched) else (true, record sched { period_set = set })

find_other :
    (name other : Bytes) (ptr : ℕ) (schedulers : List Entry)
    → name ≢ other
    → find_sched other (record { ptr = ptr; name = name; sched = new_sched } ∷ schedulers)
      ≡ find_sched other schedulers
unfolding find_sched
find_other name other ptr schedulers ne = elim (Bool-cases (is_zero (strops_cmp name other))) [
  | inl z ↦ absurd (ne (same_string name other z))
  | inr z ↦ rw z refl
]

find_new :
    (name : Bytes) (ptr : ℕ) (schedulers : List Entry)
    → find_sched name (record { ptr = ptr; name = name; sched = new_sched } ∷ schedulers) ≡ some ptr
unfolding find_sched
find_new name ptr schedulers = rw (is_zero_self name name refl) refl

-- A name that is not taken can be defined, with a priority from 0 to 7, memory, a task and the mutex:
-- then `sc_get` finds the new schedule under this name and what it found before under every other,
-- and a second definition of the name returns NULL and changes nothing.
pub sc_get-sc_define :
    (name : Bytes) (ptr : ℕ) (priority : ℤ) (schedulers : List Entry) (means : Means)
    → means ≡ record { mutex = true; memory = true; name_memory = true; task = true }
    → bad_priority priority ≡ false
    → find_sched name schedulers ≡ none
    → (after : List Entry) × (sc_define means ptr name priority schedulers ≡ (some ptr, after))
      × (sc_get true name after ≡ some ptr)
      × ((other : Bytes) → name ≢ other → sc_get true other after ≡ sc_get true other schedulers)
      × ((means' : Means) (ptr' : ℕ) (priority' : ℤ)
          → sc_define means' ptr' name priority' after ≡ (none, after))
unfolding sc_define sc_get is_some
sc_get-sc_define name ptr priority schedulers means all good free =
    let after : List Entry = record { ptr = ptr; name = name; sched = new_sched } ∷ schedulers in
    (
      after,
      rw (good, all, free) refl,
      find_new name ptr schedulers,
      λ other ne. find_other name other ptr schedulers ne,
      λ means' ptr' priority'. elim (Bool-cases (bad_priority priority' || not means'.mutex)) [
        | inl z ↦ rw z refl
        | inr z ↦ rw (z, find_new name ptr schedulers) refl
      ],
    )
