-- ===== src/Module/Suits.antt =====
-- The arguments that a module is initialized with suit its declaration.
use nodeflight_fw.Base.{
  ℕ, suc, ◌+◌, ◌≤◌, ◌<◌, Bool, true, ◌&&◌, Option, some, List, [], ◌∷◌, ◌==◌, ◌≡◌, refl, sym, ap,
  ◌∙◌, ◌⊎◌, inl, inr, lt→ltb, Bool-cases, Option-cases, Bytes, length, get_elem?, All, arith, ==→eq,
}
use nodeflight_fw.Resource.{InstDecl}
use nodeflight_fw.Map.{map_get}
use nodeflight_fw.Scheduler.Define.{sc_get}
use nodeflight_fw.Interface.{IfHeader, Creation, created, refused, stopped, if_create, pp_none}
use nodeflight_fw.Interface.Counts.{Booked}
use nodeflight_fw.Interface.Create.{
  Created, with_interface, without_interface, at_breakpoint, if_create-Created,
}
use nodeflight_fw.Module.{
  ArgDecl, ArgMode, normal, optional, ArgType, peripheral, scheduler, link, string, const,
}
use nodeflight_fw.Module.Typed.{
  Suits, left_out, interface_of, schedule, linked, text, AllSuit, IfGiven, Readable,
  const_arg-Suits,
}
use nodeflight_fw.Module.Init.{
  Arg, null_arg, iface_arg, sched_arg, name_arg, Setup, Result, given, failed, halted, dash,
  same_word, load_configured, md_load_interface, checked_interface, sched_or_fail, typed_arg,
  is_optional, parse_arg, prepend, next_arg, parse_args,
}

-- An interface that is loaded is one of the board.
Loaded : Setup → Creation → Type 0
Loaded s c =
    (iface : IfHeader)
    → c ≡ created iface
    → (p : InstDecl) × (get_elem? s.board.peripherals iface.peripheral ≡ some p)

created_injective : (a b : IfHeader) → created a ≡ created b → a ≡ b
created_injective a b e = cc

not_created : (c : Creation) (s : Setup) → (c ≡ refused) ⊎ (c ≡ stopped) → Loaded s c
unfolding Loaded
not_created c s (inl e) = λ iface made. absurd cc
not_created c s (inr e) = λ iface made. absurd cc

Created-Loaded :
    (s : Setup) (argv : List Bytes) (states states' : List ℕ) (c : Creation)
    → Created s.board.resources s.board.peripherals argv states states' c
    → Loaded s c
unfolding Loaded
Created-Loaded s argv states states' c (with_interface iface p at_p named counts) = λ other made.
    let same : iface ≡ other = created_injective iface other made in
    (p, ap (λ (i : IfHeader). get_elem? s.board.peripherals i.peripheral) (sym same) ∙ at_p)
Created-Loaded s argv states states' c without_interface = not_created refused s (inl refl)
Created-Loaded s argv states states' c at_breakpoint = not_created stopped s (inr refl)

configured-Loaded :
    (s : Setup) (pp_argv : List Bytes) (states : List ℕ)
    → Booked s.board.resources states
    → (c : Creation) × (states' : List ℕ) × (if_create s.init_peripheral s.board pp_argv pp_none
          states
        ≡ some (c, states'))
      × Booked s.board.resources states'
      × Loaded s c
unfolding if_create
configured-Loaded s [] states b = (refused, states, refl, b, not_created refused s (inl refl))
configured-Loaded s (tag ∷ argv) states b =
    let (c, states', run, b', made) =
      if_create-Created s.init_peripheral s.board tag argv pp_none states b in
    (c, states', run, b', Created-Loaded s argv states states' c made)

load-Loaded :
    (s : Setup) (word : Bytes) (states : List ℕ)
    → Booked s.board.resources states
    → (c : Creation) × (states' : List ℕ) × (md_load_interface s word states ≡ some (c, states'))
      × Booked s.board.resources states'
      × Loaded s c
unfolding md_load_interface load_configured
load-Loaded s word states b = elim (Option-cases (map_get word s.cf_peripherals)) [
  | inl e ↦ (refused, states, rw e refl, b, not_created refused s (inl refl))
  | inr (pp_argv, e) ↦
      let (c, states', run, b', loaded) = configured-Loaded s pp_argv states b in
      (c, states', rw (e, run) refl, b', loaded)
]

-- A result that keeps the counters booked, and whose value has a property.
abbrev Keeps : Setup → {A : Type 0} → (A → Type 0) → Option (Result A × List ℕ) → Type 0
Keeps s {A} P run =
    (r : Result A) × (states' : List ℕ) × (run ≡ some (r, states'))
    × Booked s.board.resources states'
    × IfGiven P r

checked_interface-Suits :
    (s : Setup) (d : ArgDecl) (c : Creation) (states : List ℕ)
    → d.type ≡ peripheral
    → Booked s.board.resources states
    → Loaded s c
    → Keeps s (Suits s d) (checked_interface s d.subtype (c, states))
unfolding checked_interface Loaded
checked_interface-Suits s d refused states is_p b loaded = (failed, states, refl, b, tt)
checked_interface-Suits s d stopped states is_p b loaded = (halted, states, refl, b, tt)
checked_interface-Suits s d (created iface) states is_p b loaded =
    let (p, at_p) = loaded iface refl in
    elim (Bool-cases (p.decl.pp_type == d.subtype)) [
      | inl z ↦ (
        given (iface_arg iface),
        states,
        rw (at_p, z) refl,
        b,
        interface_of iface p is_p at_p (==→eq p.decl.pp_type d.subtype z),
      )
      | inr z ↦ (failed, states, rw (at_p, z) refl, b, tt)
    ]

typed_arg-Suits :
    (s : Setup) (d : ArgDecl) (t : ArgType) (word : Bytes) (states : List ℕ)
    → d.type ≡ t
    → Readable word
    → Booked s.board.resources states
    → Keeps s (Suits s d) (typed_arg s t d.subtype word states)
unfolding typed_arg sched_or_fail
typed_arg-Suits s d peripheral word states e readable b =
    let (c, states', run, b', loaded) = load-Loaded s word states b in
    let (r, states'', run', b'', suits) = checked_interface-Suits s d c states' e b' loaded in
    (r, states'', rw run run', b'', suits)
typed_arg-Suits s d scheduler word states e readable b =
    elim (Option-cases (sc_get s.mutex word s.schedulers)) [
      | inl f ↦ (failed, states, rw f refl, b, tt)
      | inr (ptr, f) ↦ (given (sched_arg ptr), states, rw f refl, b, schedule ptr word e f)
    ]
typed_arg-Suits s d link word states e readable b =
    (given (name_arg word), states, refl, b, linked word e)
typed_arg-Suits s d string word states e readable b =
    (given (name_arg word), states, refl, b, text word e)
typed_arg-Suits s d const word states e readable b =
    let (r, run, suits) = const_arg-Suits s d word e readable in (r, states, rw run refl, b, suits)

optional_mode : (m : ArgMode) (x : Bool) → is_optional m && x ≡ true → m ≡ optional
optional_mode normal x e = absurd cc
optional_mode optional x e = refl

parse_arg-Suits :
    (s : Setup) (d : ArgDecl) (word : Bytes) (states : List ℕ)
    → Readable word
    → Booked s.board.resources states
    → Keeps s (Suits s d) (parse_arg s d word states)
unfolding parse_arg
parse_arg-Suits s d word states readable b =
    elim (Bool-cases (is_optional d.mode && same_word dash word)) [
      | inl z ↦ (
        given null_arg,
        states,
        rw z refl,
        b,
        left_out (optional_mode d.mode (same_word dash word) z),
      )
      | inr z ↦
          let (r, states', run, b', suits) =
            typed_arg-Suits s d d.type word states refl readable b in
          (r, states', rw z run, b', suits)
    ]

next_arg-AllSuit :
    (s : Setup) (d : ArgDecl) (decls : List ArgDecl) (r : Result Arg) (states : List ℕ)
    (others : List ℕ → Option (Result (List Arg) × List ℕ))
    → IfGiven (Suits s d) r
    → Booked s.board.resources states
    → Keeps s (AllSuit s decls) (others states)
    → Keeps s (AllSuit s (d ∷ decls)) (next_arg (r, states) others)
unfolding next_arg prepend
next_arg-AllSuit s d decls failed states others suits b (r', states', run, b', rest) =
    (failed, states, refl, b, tt)
next_arg-AllSuit s d decls halted states others suits b (r', states', run, b', rest) =
    (halted, states, refl, b, tt)
next_arg-AllSuit s d decls (given a) states others suits b (given args, states', run, b', rest) =
    (given (a ∷ args), states', rw run refl, b', (suits, rest))
next_arg-AllSuit s d decls (given a) states others suits b (failed, states', run, b', rest) =
    (failed, states', rw run refl, b', tt)
next_arg-AllSuit s d decls (given a) states others suits b (halted, states', run, b', rest) =
    (halted, states', rw run refl, b', tt)

-- The loop over the arguments.
pub parse_args-AllSuit :
    (s : Setup) (k : ℕ) (decls : List ArgDecl) (argv : List Bytes) (states : List ℕ)
    → k + length decls ≤ 16
    → All Readable argv
    → Booked s.board.resources states
    → (r : Result (List Arg)) × (states' : List ℕ) × (parse_args s k decls argv states
        ≡ some (r, states'))
      × Booked s.board.resources states'
      × IfGiven (AllSuit s decls) r
unfolding parse_args
parse_args-AllSuit s k [] [] states room readable b = (given [], states, refl, b, tt)
parse_args-AllSuit s k [] (word ∷ argv) states room readable b = (failed, states, refl, b, tt)
parse_args-AllSuit s k (d ∷ decls) [] states room readable b = (failed, states, refl, b, tt)
parse_args-AllSuit s k (d ∷ decls) (word ∷ argv) states room readable b =
    let fits : k < 16 = omega (arith, room) in
    let (r, states', run, b', suits) = parse_arg-Suits s d word states readable.0 b in
    let rest =
      parse_args-AllSuit s (suc k) decls argv states' (omega (arith, room)) readable.1 b' in
    let (r', states'', run', b'', all) =
      next_arg-AllSuit s d decls r states' (parse_args s (suc k) decls argv) suits b' rest in
    (r', states'', rw (lt→ltb k 16 fits, run) run', b'', all)
