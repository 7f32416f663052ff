-- ===== src/Variable/Register.antt =====
-- `vr_register` with a source that is asked for.
use nodeflight_fw.Base.{
  ℕ, zero, suc, ◌+◌, ◌≤◌, ◌<◌, true, false, none, some, List, [], ◌∷◌, ◌≡◌, refl, ◌∙◌, ◌⊎◌, inl,
  inr, Bytes, length, take, length-take, get_elem?, get_elem?-set_self, ℤ, pos, minus_one, All,
  arith,
}
use nodeflight_fw.Map.{map_get}
use nodeflight_fw.Variable.{
  NamedType, Source, Variables, Granted, num_args, put_source, register_types, register_source,
  found_source, vr_get_source, vr_register,
}
use nodeflight_fw.Variable.Relocate.{
  offers_all, Askable, Apart, Served, read_args-take, update_pending-cases,
}

-- A source that is in the map and has no types yet.
pub record Unbound (v : Variables) (name : Bytes) (i : ℕ) (src : Source) : Type 0 where
  pub in_map : map_get name v.sources ≡ some i
  pub in_heap : get_elem? v.heap i ≡ some src
  pub unknown : src.types ≡ none

pub get_elem?-some-lt {ℓ} :
    {A : Type ℓ} (xs : List A) (i : ℕ) (a : A) → get_elem? xs i ≡ some a → i < length xs
get_elem?-some-lt [] i a e = absurd cc
get_elem?-some-lt (x ∷ xs) zero a e = omega arith
get_elem?-some-lt (x ∷ xs) (suc i) a e = omega (arith, get_elem?-some-lt xs i a e)

-- `vr_get_source` finds a source that is in the map.
pub register-Unbound :
    (granted : Granted) (name : Bytes) (types : List NamedType) (args : List ℕ) (v : Variables)
    (i : ℕ) (src : Source)
    → Unbound v name i src
    → vr_register granted name types args v ≡ register_types granted types args i src v
unfolding vr_register vr_get_source found_source register_source
register-Unbound granted name types args v i src at_i =
    rw (at_i.in_map, at_i.in_heap, at_i.unknown) refl

-- With as many arguments as types, requests for variables into different cells, and memory,
-- `vr_register` of a source that was only asked for so far either returns 0: the source has its types
-- and its variables, each waiting request has the pointer to its variable, none waits any longer and no
-- other pointer is changed; or the type of a request is not the one of its variable or there is no such
-- variable, and it fails. In both cases it stays in all arrays.
pub vr_register-serves :
    (granted : Granted) (name : Bytes) (types : List NamedType) (args : List ℕ) (v : Variables)
    (i : ℕ) (src : Source)
    → granted.vars ≡ true
    → Unbound v name i src
    → num_args types ≤ length args
    → All (Askable (length v.targets)) src.reloc
    → Apart src.reloc
    → (status : ℤ) × (v' : Variables) × (vr_register granted name types args v ≡ some (status, v'))
      × (((offers_all types src.reloc ≡ true)
            × (status ≡ pos 0)
            × Served (take (num_args types) args) src.reloc v.targets v'.targets
            × (get_elem? v'.heap i
                ≡ some
                    (record { types = some types; vars = take (num_args types) args; reloc = [] })))
          ⊎ ((offers_all types src.reloc ≡ false) × (status ≡ minus_one)))
unfolding register_types
vr_register-serves granted name types args v i src memory at_i enough ask apart =
    let vars = take (num_args types) args in
    let whole : length vars ≡ num_args types =
      length-take (num_args types) args ∙ omega (arith, enough) in
    let e = register-Unbound granted name types args v i src at_i in
    let read = read_args-take (num_args types) args enough in
    let bound : Source = record { types = some types; vars = vars; reloc = src.reloc } in
    elim (update_pending-cases types vars bound src.reloc v.free_relocs v.targets refl refl whole
      ask apart) [
        | inl (all, (targets', run, served)) ↦ (
          pos 0,
          put_source i (record { types = some types; vars = vars; reloc = [] })
              (record v { free_relocs = v.free_relocs + length src.reloc; targets = targets' }),
          rw (e, memory, read, run) refl,
          inl (
            all,
            refl,
            served,
            get_elem?-set_self v.heap i _ (get_elem?-some-lt v.heap i src at_i.in_heap),
          ),
        )
        | inr (some_not, (q, run, failed)) ↦ (
          q.status,
          put_source i (record { types = some types; vars = vars; reloc = q.left })
              (record v { free_relocs = q.free; targets = q.targets }),
          rw (e, memory, read, run) refl,
          inr (some_not, failed),
        )
      ]
