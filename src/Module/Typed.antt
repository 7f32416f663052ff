-- ===== src/Module/Typed.antt =====
-- When an argument suits its declaration, and that constants do.
use nodeflight_fw.Base.{
  ℕ, ◌<◌, true, false, some, List, [], ◌∷◌, ◌==◌, ◌≡◌, ◌≢◌, refl, sym, ◌∙◌, inl, inr, Bool-cases,
  Bytes, get_elem?, ℤ, pos, arith, ==→eq, eq→==,
}
use nodeflight_fw.Strops.{strops_word_to_int}
use nodeflight_fw.Resource.{InstDecl}
use nodeflight_fw.Scheduler.Define.{sc_get}
use nodeflight_fw.Interface.{IfHeader}
use nodeflight_fw.Module.{ArgDecl, optional, peripheral, scheduler, link, string, const}
use nodeflight_fw.Module.Init.{
  Arg, null_arg, unset_arg, iface_arg, sched_arg, name_arg, int_arg, float_arg, Setup, Result,
  given, failed, halted, true_word, false_word, same_word, const_arg,
}

-- An argument suits its declaration.
pub data Suits (s : Setup) (d : ArgDecl) : Arg → Type 0 where
  left_out : d.mode ≡ optional → Suits s d null_arg
  interface_of :
      (iface : IfHeader) (p : InstDecl)
      → d.type ≡ peripheral
      → get_elem? s.board.peripherals iface.peripheral ≡ some p
      → p.decl.pp_type ≡ d.subtype
      → Suits s d (iface_arg iface)
  schedule :
      (ptr : ℕ) (word : Bytes)
      → d.type ≡ scheduler
      → sc_get s.mutex word s.schedulers ≡ some ptr
      → Suits s d (sched_arg ptr)
  linked : (word : Bytes) → d.type ≡ link → Suits s d (name_arg word)
  text : (word : Bytes) → d.type ≡ string → Suits s d (name_arg word)
  integer : (n : ℤ) → d.type ≡ const → d.subtype ≡ 3 → Suits s d (int_arg n)
  boolean : (n : ℕ) → d.type ≡ const → d.subtype ≡ 2 → n < 2 → Suits s d (int_arg (pos n))
  floating : (word : Bytes) → d.type ≡ const → d.subtype ≡ 1 → Suits s d (float_arg word)
  unknown : d.type ≡ const → d.subtype ≢ 1 → d.subtype ≢ 2 → d.subtype ≢ 3 → Suits s d unset_arg

abbrev pub AllSuit : Setup → List ArgDecl → List Arg → Type 0
AllSuit s [] [] = Unit
AllSuit s [] (a ∷ args) = ⊥
AllSuit s (d ∷ decls) [] = ⊥
AllSuit s (d ∷ decls) (a ∷ args) = Suits s d a × AllSuit s decls args

-- Whatever is given has a property.
abbrev pub IfGiven : {A : Type 0} → (A → Type 0) → Result A → Type 0
IfGiven P (given a) = P a
IfGiven P failed = Unit
IfGiven P halted = Unit

-- Numbers among the words of a configuration are such that `strops_word_to_int` does not overflow.
abbrev pub Readable : Bytes → Type 0
Readable word = (n : ℤ) × (strops_word_to_int word ≡ some n)

ne_of : (a b : ℕ) → (a == b) ≡ false → a ≢ b
ne_of a b z e = absurd (true_is_not_false (sym (eq→== a b e) ∙ z))
  where
    true_is_not_false : true ≡ false → ⊥
    true_is_not_false q = cc

pub const_arg-Suits :
    (s : Setup) (d : ArgDecl) (word : Bytes)
    → d.type ≡ const
    → Readable word
    → (r : Result Arg) × (const_arg d.subtype word ≡ some r) × IfGiven (Suits s d) r
unfolding const_arg
const_arg-Suits s d word is_const (n, e) = elim (Bool-cases (d.subtype == 3)) [
  | inl z ↦ (given (int_arg n), rw (z, e) refl, integer n is_const (==→eq d.subtype 3 z))
  | inr z3 ↦ elim (Bool-cases (d.subtype == 1)) [
    | inl z ↦
        (given (float_arg word), rw (z3, z) refl, floating word is_const (==→eq d.subtype 1 z))
    | inr z1 ↦ elim (Bool-cases (d.subtype == 2)) [
      | inr z2 ↦ (
        given unset_arg,
        rw (z3, z1, z2) refl,
        unknown is_const (ne_of d.subtype 1 z1) (ne_of d.subtype 2 z2) (ne_of d.subtype 3 z3),
      )
      | inl z2 ↦
          let is_bool = ==→eq d.subtype 2 z2 in
          elim (Bool-cases (same_word word true_word)) [
            | inl t ↦ (
              given (int_arg (pos 1)),
              rw (z3, z1, z2, t) refl,
              boolean 1 is_const is_bool (omega arith),
            )
            | inr t ↦ elim (Bool-cases (same_word word false_word)) [
              | inl f ↦ (
                given (int_arg (pos 0)),
                rw (z3, z1, z2, t, f) refl,
                boolean 0 is_const is_bool (omega arith),
              )
              | inr f ↦ (failed, rw (z3, z1, z2, t, f) refl, tt)
            ]
          ]
    ]
  ]
]
