-- ===== src/Config.antt =====
-- src/core/config.c: a line of the configuration, and the queue of files that it includes.
pub mod Queue
pub mod Load
pub mod Lines
mod Tests
use nodeflight_fw.Base.{
  ℕ, zero, suc, ◌+◌, ◌-◌, ◌%◌, Bool, true, false, ◌&&◌, Option, none, some, List, [], ◌∷◌, ◌==◌,
  leb, if◌then◌else◌, Bytes, length, get_elem?, set, ◌>>=◌, ℤ, pos, negsuc, minus_one, store,
}
use nodeflight_fw.Strops.{strops_word_to_int}
use nodeflight_fw.Map.{Chunk, map_get, map_set}
use nodeflight_fw.Scheduler.Define.{Entry, Means, sc_define}
use nodeflight_fw.Module.Init.{Setup, Result, given, failed, halted, dash, same_word, md_init}

abbrev pub queue_length : ℕ
queue_length = 16

-- The paths in the queue, NULL being `none`, and what the lines set up: the tables of modules, and the
-- counters of resources.
pub record Config : Type 0 where
  pub queue : List (Option Bytes)
  pub head : ℕ
  pub tail : ℕ
  pub setup : Setup
  pub states : List ℕ

-- What a line finds: memory for a tag, a chunk of a map, copies of arguments and of a path; what the
-- definition of a schedule finds, and where that is allocated.
pub record Found : Type 0 where
  pub tag : Bool
  pub chunk : Bool
  pub argv : Bool
  pub path : Bool
  pub means : Means
  pub ptr : ℕ

abbrev pub per_word : Bytes
per_word = 112 ∷ 101 ∷ 114 ∷ []

abbrev pub sch_word : Bytes
sch_word = 115 ∷ 99 ∷ 104 ∷ []

abbrev pub mod_word : Bytes
mod_word = 109 ∷ 111 ∷ 100 ∷ []

abbrev pub inc_word : Bytes
inc_word = 105 ∷ 110 ∷ 99 ∷ []

-- `argv[0][0] == '#'`.
unfoldable pub is_comment : Bytes → Bool
is_comment [] = false
is_comment (c ∷ word) = c == 35

-- `per`; `strops_argv_dup` writes through NULL without memory, and the result of `map_set` is not
-- looked at.
unfoldable pub load_peripheral : Found → List Bytes → Config → Option (Result ℤ × Config)
load_peripheral f [] c = none
load_peripheral f (tag ∷ argv) c =
    if f.argv
    then (let peripherals = (map_set f.tag f.chunk tag (some argv) c.setup.cf_peripherals).1 in
        let setup' : Setup = record c.setup { cf_peripherals = peripherals } in
        some (given (pos 0), record c { setup = setup' }))
    else none

unfoldable pub defined : Config → Option ℕ × List Entry → Result ℤ × Config
defined c (none, schedulers) =
    let setup' : Setup = record c.setup { schedulers = schedulers } in
    (given minus_one, record c { setup = setup' })
defined c (some ptr, schedulers) =
    let setup' : Setup = record c.setup { schedulers = schedulers } in
    (given (pos 0), record c { setup = setup' })

unfoldable pub define_schedule : Found → List Bytes → Config → Option (Result ℤ × Config)
unfolding defined
define_schedule f (name ∷ priority ∷ []) c = strops_word_to_int priority >>= λ p.
    some (defined c (sc_define f.means f.ptr name p c.setup.schedulers))
define_schedule f [] c = none
define_schedule f (name ∷ []) c = none
define_schedule f (name ∷ priority ∷ word ∷ argv) c = none

-- `!= 0`.
unfoldable pub refuse_errors : Result ℤ → Result ℤ
refuse_errors (given (pos zero)) = given (pos 0)
refuse_errors (given (pos (suc n))) = given minus_one
refuse_errors (given (negsuc n)) = given minus_one
refuse_errors failed = failed
refuse_errors halted = halted

unfoldable pub load_module : List Bytes → Config → Option (Result ℤ × Config)
unfolding refuse_errors
load_module (name ∷ mdname ∷ argv) c =
    md_init c.setup mdname (if same_word dash name then none else some name) argv c.states >>= λ r.
    some (refuse_errors r.0, record c { states = r.1 })
load_module [] c = none
load_module (name ∷ []) c = none

-- The path goes to the tail of the queue, which is moved.
unfoldable pub push : Option Bytes → Config → Option Config
push path c = store c.queue c.tail path >>= λ queue'.
    some (record c { queue = queue'; tail = (c.tail + 1) % queue_length })

unfoldable pub include_file : Found → List Bytes → Config → Option (Result ℤ × Config)
unfolding push
include_file f (path ∷ []) c =
    push (if f.path then some path else none) c >>= λ c'. some (given (pos 0), c')
include_file f [] c = none
include_file f (path ∷ word ∷ argv) c = none

-- `cf_process_line`; the line is logged, too.
unfoldable pub cf_process_line : Found → List Bytes → Config → Option (Result ℤ × Config)
unfolding is_comment load_peripheral define_schedule load_module include_file
cf_process_line f [] c = some (given (pos 0), c)
cf_process_line f (word ∷ argv) c =
    if is_comment word
    then some (given (pos 0), c)
    else if leb 1 (length argv) && same_word per_word word
    then load_peripheral f argv c
    else if length argv == 2 && same_word sch_word word
    then define_schedule f argv c
    else if leb 2 (length argv) && same_word mod_word word
    then load_module argv c
    else if length argv == 1 && same_word inc_word word
    then include_file f argv c
    else some (given minus_one, c)

-- How `cf_init` takes the path at the head of the queue; `none` is the end of its loop.
unfoldable pub pop : Config → Option (Option (Option Bytes × Config))
pop c =
    if c.head == c.tail
    then some none
    else (get_elem? c.queue c.head >>= λ path.
        some (some (path, record c { head = (c.head + 1) % queue_length })))

unfoldable pub cf_get_pp_config : Config → Bytes → Option (List Bytes)
cf_get_pp_config c tag = map_get tag c.setup.cf_peripherals
