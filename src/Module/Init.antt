-- ===== src/Module/Init.antt =====
-- src/core/module.c: the arguments of a module, out of the words of the configuration.
use nodeflight_fw.Base.{
  ℕ, suc, Bool, true, false, ◌&&◌, Option, none, some, List, [], ◌∷◌, ◌==◌, ltb, if◌then◌else◌,
  Bytes, get_elem?, ◌>>=◌, ℤ, pos, minus_one,
}
use nodeflight_fw.Strops.{strops_cmp, strops_word_to_int}
use nodeflight_fw.Resource.{is_zero, find_from}
use nodeflight_fw.Map.{Chunk, map_get}
use nodeflight_fw.Scheduler.Define.{Entry, sc_get}
use nodeflight_fw.Interface.{
  IfHeader, Creation, created, refused, stopped, Board, if_create, pp_none,
}
use nodeflight_fw.Module.{
  ModDecl, ArgDecl, ArgMode, normal, optional, ArgType, peripheral, scheduler, link, string, const,
}

-- `md_arg_t`; a float is known by the word that it is read from.
pub data Arg : Type 0 where
  null_arg unset_arg : Arg
  iface_arg : IfHeader → Arg
  sched_arg : ℕ → Arg
  name_arg : Bytes → Arg
  int_arg : ℤ → Arg
  float_arg : Bytes → Arg

-- What the modules are set up with: the board and the initialization of its peripherals, the lines
-- of the configuration on peripherals, the schedules and whether their mutex is had, the modules, and
-- what their functions `init` return.
pub record Setup : Type 0 where
  pub board : Board
  pub init_peripheral : IfHeader → ℤ
  pub cf_peripherals : List (Chunk (List Bytes))
  pub schedulers : List Entry
  pub mutex : Bool
  pub modules : List ModDecl
  pub init : ModDecl → Option Bytes → List Arg → ℤ

-- What comes of something that may fail with -1, or stop at a breakpoint.
pub data Result (A : Type 0) : Type 0 where
  given : A → Result A
  failed halted : Result A

abbrev pub dash : Bytes
dash = 45 ∷ []

abbrev pub true_word : Bytes
true_word = 116 ∷ 114 ∷ 117 ∷ 101 ∷ []

abbrev pub false_word : Bytes
false_word = 102 ∷ 97 ∷ 108 ∷ 115 ∷ 101 ∷ []

abbrev pub same_word : Bytes → Bytes → Bool
same_word a b = is_zero (strops_cmp a b)

unfoldable pub load_configured : Setup → Option (List Bytes) → List ℕ → Option (Creation × List ℕ)
load_configured s none states = some (refused, states)
load_configured s (some pp_argv) states = if_create s.init_peripheral s.board pp_argv pp_none states

unfoldable pub md_load_interface : Setup → Bytes → List ℕ → Option (Creation × List ℕ)
unfolding load_configured
md_load_interface s tag states = load_configured s (map_get tag s.cf_peripherals) states

-- The test of the type of a peripheral.
unfoldable pub checked_interface : Setup → ℕ → Creation × List ℕ → Option (Result Arg × List ℕ)
checked_interface s subtype (refused, states) = some (failed, states)
checked_interface s subtype (stopped, states) = some (halted, states)
checked_interface s subtype (created iface, states) =
    get_elem? s.board.peripherals iface.peripheral >>= λ p.
    if p.decl.pp_type == subtype
    then some (given (iface_arg iface), states)
    else some (failed, states)

unfoldable pub sched_or_fail : Option ℕ → Result Arg
sched_or_fail none = failed
sched_or_fail (some p) = given (sched_arg p)

-- The inner `switch`, on a subtype 1 for a float, 2 for a bool and 3 for an integer.
unfoldable pub const_arg : ℕ → Bytes → Option (Result Arg)
const_arg subtype arg =
    if subtype == 3
    then (strops_word_to_int arg >>= λ n. some (given (int_arg n)))
    else if subtype == 1
    then some (given (float_arg arg))
    else if subtype == 2
    then (if same_word arg true_word
        then some (given (int_arg (pos 1)))
        else if same_word arg false_word
        then some (given (int_arg (pos 0)))
        else some failed)
    else some (given unset_arg)

-- The `switch` on the type.
unfoldable pub typed_arg : Setup → ArgType → ℕ → Bytes → List ℕ → Option (Result Arg × List ℕ)
unfolding md_load_interface checked_interface sched_or_fail const_arg
typed_arg s peripheral subtype arg states =
    md_load_interface s arg states >>= checked_interface s subtype
typed_arg s scheduler subtype arg states =
    some (sched_or_fail (sc_get s.mutex arg s.schedulers), states)
typed_arg s link subtype arg states = some (given (name_arg arg), states)
typed_arg s string subtype arg states = some (given (name_arg arg), states)
typed_arg s const subtype arg states = const_arg subtype arg >>= λ r. some (r, states)

abbrev pub is_optional : ArgMode → Bool
is_optional normal = false
is_optional optional = true

unfoldable pub parse_arg : Setup → ArgDecl → Bytes → List ℕ → Option (Result Arg × List ℕ)
unfolding typed_arg
parse_arg s d arg states =
    if is_optional d.mode && same_word dash arg
    then some (given null_arg, states)
    else typed_arg s d.type d.subtype arg states

unfoldable pub prepend : Arg → Result (List Arg) × List ℕ → Result (List Arg) × List ℕ
prepend a (given args, states) = (given (a ∷ args), states)
prepend a (failed, states) = (failed, states)
prepend a (halted, states) = (halted, states)

-- What a round of the loop below makes of its argument, with the others.
unfoldable pub next_arg :
    Result Arg × List ℕ
    → (List ℕ → Option (Result (List Arg) × List ℕ))
    → Option (Result (List Arg) × List ℕ)
unfolding prepend
next_arg (given a, states) others = others states >>= λ r. some (prepend a r)
next_arg (failed, states) others = some (failed, states)
next_arg (halted, states) others = some (halted, states)

-- The loop over the arguments from the `k`-th on, and the test after it. There is room for 16.
unfoldable pub parse_args :
    Setup → ℕ → List ArgDecl → List Bytes → List ℕ → Option (Result (List Arg) × List ℕ)
unfolding parse_arg next_arg
parse_args s k [] [] states = some (given [], states)
parse_args s k [] (arg ∷ argv) states = some (failed, states)
parse_args s k (d ∷ decls) [] states = some (failed, states)
parse_args s k (d ∷ decls) (arg ∷ argv) states =
    if ltb k 16
    then (parse_arg s d arg states >>= λ x. next_arg x (parse_args s (suc k) decls argv))
    else none

unfoldable pub call_init :
    Setup → ModDecl → Option Bytes → Result (List Arg) × List ℕ → Result ℤ × List ℕ
call_init s md name (given args, states) = (given (s.init md name args), states)
call_init s md name (failed, states) = (given minus_one, states)
call_init s md name (halted, states) = (halted, states)

-- The loop and the test of a module whose `args` may be NULL: without words, the test reads through it.
unfoldable pub parse_declared :
    Setup → Option (List ArgDecl) → List Bytes → List ℕ → Option (Result (List Arg) × List ℕ)
unfolding parse_args
parse_declared s none [] states = none
parse_declared s none (arg ∷ argv) states = some (failed, states)
parse_declared s (some decls) argv states = parse_args s 0 decls argv states

unfoldable pub md_init_mod :
    Setup → ModDecl → Option Bytes → List Bytes → List ℕ → Option (Result ℤ × List ℕ)
unfolding parse_declared call_init
md_init_mod s md name argv states =
    parse_declared s md.args argv states >>= λ r. some (call_init s md name r)

unfoldable pub init_found :
    Setup → Option Bytes → List Bytes → List ℕ → Option ℕ → Option (Result ℤ × List ℕ)
unfolding md_init_mod
init_found s name argv states none = some (given minus_one, states)
init_found s name argv states (some i) =
    get_elem? s.modules i >>= λ md. md_init_mod s md name argv states

unfoldable pub md_init :
    Setup → Bytes → Option Bytes → List Bytes → List ℕ → Option (Result ℤ × List ℕ)
unfolding init_found
md_init s mdname name argv states =
    init_found s name argv states (find_from (λ md. same_word md.name mdname) 0 s.modules)
