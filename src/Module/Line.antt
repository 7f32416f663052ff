-- ===== src/Module/Line.antt =====
-- What `md_init` does with a line of the configuration.
use nodeflight_fw.Base.{
  ℕ, ◌+◌, ◌≤◌, ◌<◌, Option, none, some, List, [], ◌∷◌, ◌≡◌, refl, ap, ◌∙◌, inl, inr, Bytes, length,
  get_elem?, ℤ, minus_one, All, All-get_elem?, arith,
}
use nodeflight_fw.Resource.Lookup.{find_from-Picks, same_string}
use nodeflight_fw.Interface.Counts.{Booked}
use nodeflight_fw.Module.{ArgDecl, ModDecl}
use nodeflight_fw.Module.Typed.{AllSuit, IfGiven, Readable}
use nodeflight_fw.Module.Suits.{parse_args-AllSuit}
use nodeflight_fw.Module.Init.{
  Arg, Setup, Result, given, failed, halted, same_word, parse_declared, call_init, md_init_mod,
  init_found, md_init,
}

-- The arguments suit the declarations, which are not NULL.
abbrev Declares : Setup → Option (List ArgDecl) → List Arg → Type 0
Declares s none args = ⊥
Declares s (some decls) args = AllSuit s decls args

-- At most 16 arguments are declared; without declarations, there is a word on the line.
abbrev pub HasRoom : List Bytes → Option (List ArgDecl) → Type 0
HasRoom argv none = 0 < length argv
HasRoom argv (some decls) = length decls ≤ 16

parse_declared-Declares :
    (s : Setup) (decls : Option (List ArgDecl)) (argv : List Bytes) (states : List ℕ)
    → HasRoom argv decls
    → All Readable argv
    → Booked s.board.resources states
    → (r : Result (List Arg)) × (states' : List ℕ) × (parse_declared s decls argv states
        ≡ some (r, states'))
      × Booked s.board.resources states'
      × IfGiven (Declares s decls) r
unfolding parse_declared
parse_declared-Declares s none [] states room readable b = absurd (omega (arith, room))
parse_declared-Declares s none (arg ∷ argv) states room readable b = (failed, states, refl, b, tt)
parse_declared-Declares s (some decls) argv states room readable b =
    parse_args-AllSuit s 0 decls argv states (omega (arith, room)) readable b

-- What `md_init` comes to.
pub data Initialized (s : Setup) (mdname : Bytes) (name : Option Bytes) : Result ℤ → Type 0 where
  called :
      (i : ℕ) (md : ModDecl) (args : List Arg)
      → get_elem? s.modules i ≡ some md
      → md.name ≡ mdname
      → Declares s md.args args
      → Initialized s mdname name (given (s.init md name args))
  not_called : Initialized s mdname name (given minus_one)
  halts : Initialized s mdname name halted

call_init-Initialized :
    (s : Setup) (mdname : Bytes) (name : Option Bytes) (i : ℕ) (md : ModDecl)
    (r : Result (List Arg)) (states : List ℕ)
    → get_elem? s.modules i ≡ some md
    → md.name ≡ mdname
    → IfGiven (Declares s md.args) r
    → (r' : Result ℤ) × (call_init s md name (r, states) ≡ (r', states))
      × Initialized s mdname name r'
unfolding call_init
call_init-Initialized s mdname name i md (given args) states at_i named all =
    (given (s.init md name args), refl, called i md args at_i named all)
call_init-Initialized s mdname name i md failed states at_i named all =
    (given minus_one, refl, not_called)
call_init-Initialized s mdname name i md halted states at_i named all = (halted, refl, halts)

zero_plus : (k : ℕ) → 0 + k ≡ k
zero_plus k = omega arith

-- If no module declares more than 16 arguments, there is a word for an argument where some module is
-- declared without any (its `args` is NULL), no word overflows as a number and the counters of the resources are within their limits, then `md_init` stays in its arrays and the
-- counters stay so. It calls the function `init` of a module only with as many arguments as that module
-- declares, each of which suits its declaration: an interface of the declared type of peripheral, a
-- schedule, a name, a constant of the declared type, nothing where it is optional, or an argument that
-- is not set where a constant is of none of the three types. In all other cases it returns -1 or stops
-- at a breakpoint.
pub md_init-Initialized :
    (s : Setup) (mdname : Bytes) (name : Option Bytes) (argv : List Bytes) (states : List ℕ)
    → All (λ (md : ModDecl). HasRoom argv md.args) s.modules
    → All Readable argv
    → Booked s.board.resources states
    → (r : Result ℤ) × (states' : List ℕ) × (md_init s mdname name argv states ≡ some (r, states'))
      × Booked s.board.resources states'
      × Initialized s mdname name r
unfolding md_init init_found md_init_mod
md_init-Initialized s mdname name argv states room readable b =
    elim (find_from-Picks (λ (md : ModDecl). same_word md.name mdname) 0 s.modules) [
      | inl (e, all) ↦ (given minus_one, states, rw e refl, b, not_called)
      | inr (k, md, e, at_k, passes, before) ↦
          let found = e ∙ ap some (zero_plus k) in
          let limit =
            All-get_elem? (λ (m : ModDecl). HasRoom argv m.args) s.modules k md room at_k in
          let (r, states', run, b', all) =
            parse_declared-Declares s md.args argv states limit readable b in
          let (r', done, made) =
            call_init-Initialized s mdname name k md r states' at_k
              (same_string md.name mdname passes) all in
          (r', states', rw (found, at_k, run, done) refl, b', made)
    ]
