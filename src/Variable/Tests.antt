-- ===== src/Variable/Tests.antt =====
-- The theorems on variables, at a source with two variables.
use nodeflight_fw.Base.{
  ℕ, suc, ◌≤◌, true, false, Option, none, some, List, [], ◌∷◌, ◌≡◌, refl, ◌⊎◌, Bytes, length, take,
  get_elem?, replicate, ◌>>=◌, ℤ, pos, minus_one, arith, All,
}
use nodeflight_fw.Strops.{strops_cmp, strops_word_to_int}
use nodeflight_fw.Map.{map_get}
use nodeflight_fw.Map.Laws.{elems}
use nodeflight_fw.Map.Iterate.{listed}
use nodeflight_fw.Variable.{
  float, int, NamedType, Source, Variables, Granted, num_args, vr_register, vr_request, split_name,
}
use nodeflight_fw.Variable.Relocate.{offers_all, Served}
use nodeflight_fw.Variable.Register.{Unbound, vr_register-serves}
use nodeflight_fw.Variable.Connect.{Points, Settled, vr_connect, vr_connect-Answers}
use nodeflight_fw.Variable.Order.{order_lem}

abbrev granted : Granted
granted = record { source = true; name = true; chunk = true; vars = true; reloc = true }

abbrev types : List NamedType
types = record { name = 0x78 ∷ []; type = float } ∷ record { name = 0x79 ∷ []; type = int } ∷ []

abbrev base : Bytes
base = 0x61 ∷ []

abbrev waiting : Source
waiting = record { types = none; vars = []; reloc = record { dst = 2; index = 1; type = int } ∷ [] }

abbrev fresh : Source
fresh = record { types = none; vars = []; reloc = [] }

abbrev state_with : Source → Variables
state_with src = record {
  sources =
      (record { tag = some base; ptr = some 0 } ∷ replicate 15 (record { tag = none; ptr = none }))
      ∷ [];
  heap = src ∷ [];
  free_relocs = 0;
  targets = 0 ∷ 0 ∷ 0 ∷ [];
}

found : (src : Source) → map_get base (state_with src).sources ≡ some 0
unfolding map_get strops_cmp
found src = refl

waiting-Unbound : Unbound (state_with waiting) base 0 waiting
waiting-Unbound = record { in_map = found waiting; in_heap = refl; unknown = refl }

fresh-Unbound : Unbound (state_with fresh) base 0 fresh
fresh-Unbound = record { in_map = found fresh; in_heap = refl; unknown = refl }

enough : num_args types ≤ 2
unfolding num_args
enough = omega arith

vr_register-serves_example :
    (status : ℤ) × (v' : Variables) × (vr_register granted base types
        (100 ∷ 200 ∷ [])
        (state_with waiting)
      ≡ some (status, v'))
    × (((offers_all types waiting.reloc ≡ true)
          × (status ≡ pos 0)
          × Served
              (take (num_args types) (100 ∷ 200 ∷ []))
              waiting.reloc
              (0 ∷ 0 ∷ 0 ∷ [])
              v'.targets
          × (get_elem? v'.heap 0
              ≡ some (record {
                types = some types;
                vars = take (num_args types) (100 ∷ 200 ∷ []);
                reloc = [];
              })))
        ⊎ ((offers_all types waiting.reloc ≡ false) × (status ≡ minus_one)))
vr_register-serves_example =
    vr_register-serves granted base types (100 ∷ 200 ∷ []) (state_with waiting) 0 waiting refl
      waiting-Unbound enough (record { typed = refl; cell = omega arith }, tt) (tt, tt)

-- `a.1`.
abbrev full : Bytes
full = 0x61 ∷ 46 ∷ 49 ∷ []

full_split : split_name full ≡ some (base, 49 ∷ [])
unfolding split_name
full_split = refl

one : strops_word_to_int (49 ∷ []) ≡ some (pos 1)
unfolding strops_word_to_int
one = refl

order_lem_example :
    (s : ℤ) × (early : Variables) × (late : Variables) × ((vr_request granted full int 2
          (state_with fresh)
        >>= λ a. vr_register granted base types (100 ∷ 200 ∷ []) a.1)
      ≡ some (s, early))
    × ((vr_register granted base types (100 ∷ 200 ∷ []) (state_with fresh) >>= λ a.
          vr_request granted full int 2 a.1)
        ≡ some (s, late))
    × (early.sources ≡ late.sources)
    × (early.heap ≡ late.heap)
    × (early.targets ≡ late.targets)
order_lem_example =
    order_lem granted full base (49 ∷ []) 1 int 2 types (100 ∷ 200 ∷ []) (state_with fresh) 0 fresh
      refl refl fresh-Unbound refl full_split one (omega arith) enough refl (omega arith)

-- `65537`, and the name with it.
abbrev far_word : Bytes
far_word = 54 ∷ 53 ∷ 53 ∷ 51 ∷ 55 ∷ []

abbrev far : Bytes
far = 0x61 ∷ 46 ∷ far_word

far_split : split_name far ≡ some (base, far_word)
unfolding split_name
far_split = refl

far_number : strops_word_to_int far_word ≡ some (pos 65537)
unfolding strops_word_to_int
far_number = refl

sources_pointed : All (Points (waiting ∷ [])) (listed (elems (state_with waiting).sources))
unfolding elems
sources_pointed = ((0, waiting, refl, refl), tt)

vr_connect-Answers_example :
    let sources = listed (elems (state_with waiting).sources) in
    let r = vr_connect (suc (length (elems (state_with waiting).sources))) (state_with waiting) in
    ((r ≡ some (pos 0)) × All (Settled (waiting ∷ [])) sources)
    ⊎ ((r ≡ some minus_one)
        × ((j : ℕ) × (x : Bytes × Option ℕ) × (get_elem? sources j ≡ some x)
            × (Settled (waiting ∷ []) x → ⊥)))
vr_connect-Answers_example = vr_connect-Answers (state_with waiting) (refl, tt) sources_pointed
