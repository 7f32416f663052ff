-- ===== src/Interface/Create.antt =====
-- `if_create`, on all of its branches.
use nodeflight_fw.Base.{
  ℕ, ◌+◌, Bool, ◌&&◌, not, Option, none, some, List, ◌∷◌, ◌==◌, ◌≡◌, refl, sym, ◌∙◌, ◌⊎◌, inl, inr,
  Bool-cases, Option-cases, Bytes, length, get_elem?, u8, ℤ, pos, negsuc, arith,
}
use nodeflight_fw.Strops.{strops_cmp}
use nodeflight_fw.Resource.{is_zero, Decl, InstDecl, pp_get_by_tag}
use nodeflight_fw.Resource.Lookup.{find_from-Picks}
use nodeflight_fw.Interface.Counts.{
  count_at, used, Booked, Named, allocate_resources-Booked, fetch_resources-Named,
  true_is_not_false,
}
use nodeflight_fw.Interface.{
  IfRs, IfHeader, pp_none, fetch_resources, allocated, allocate_fetched, if_rs_allocate, Creation,
  created, refused, stopped, initialized, with_resources, Board, create_found, if_create,
}

some_injective : {A : Type 0} {a b : A} → some a ≡ some b → a ≡ b
some_injective p = cc

none-ne-some : {A : Type 0} {a : A} → none ≡ some a → ⊥
none-ne-some p = cc

ℤ-cases : (r : ℤ) → ((n : ℕ) × (r ≡ pos n)) ⊎ ((n : ℕ) × (r ≡ negsuc n))
ℤ-cases (pos n) = inl (n, refl)
ℤ-cases (negsuc n) = inr (n, refl)

-- What `if_create` leaves: an interface with the resources that were asked for, each of which is
-- counted; or none.
pub data Created (table : List Decl) (ps : List InstDecl) (argv : List Bytes)
    (states states' : List ℕ) : Creation → Type 0 where
  with_interface :
      (iface : IfHeader) (p : InstDecl)
      → get_elem? ps iface.peripheral ≡ some p
      → Named table iface.rscs argv
      → ((i : ℕ) → count_at states' i ≡ u8 (count_at states i + used i iface.rscs))
      → Created table ps argv states states' (created iface)
  without_interface : Created table ps argv states states' refused
  at_breakpoint : Created table ps argv states states' stopped

-- What `if_rs_allocate` leaves.
if_rs_allocate-Booked :
    (memory : Bool) (table : List Decl) (peripheral : InstDecl) (argv : List Bytes)
    (states : List ℕ)
    → Booked table states
    → (r : Option (List IfRs)) × (states' : List ℕ) × (if_rs_allocate memory table peripheral argv
          states
        ≡ some (r, states'))
      × Booked table states'
      × ((r ≡ none)
          ⊎ ((rscs : List IfRs) × (r ≡ some rscs)
              × Named table rscs argv
              × ((i : ℕ) → count_at states' i ≡ u8 (count_at states i + used i rscs))))
unfolding if_rs_allocate allocate_fetched allocated
if_rs_allocate-Booked memory table peripheral argv states b =
    elim (Bool-cases (peripheral.decl.num_rscs == length argv && memory)) [
      | inr z ↦ (none, states, rw z refl, b, inl refl)
      | inl z ↦ elim (Option-cases (fetch_resources table peripheral 0 argv)) [
        | inl e ↦ (none, states, rw (z, e) refl, b, inl refl)
        | inr (rscs, e) ↦
            let named = fetch_resources-Named table peripheral 0 argv rscs e in
            let (ok, states', run, b', rest) =
              allocate_resources-Booked table rscs argv states named b in
            elim (Bool-cases ok) [
              | inr f ↦ (none, states', rw (z, e, run, f) refl, b', inl refl)
              | inl t ↦ (
                some rscs,
                states',
                rw (z, e, run, t) refl,
                b',
                elim rest [
                  | inl f ↦ absurd (true_is_not_false (sym t ∙ f))
                  | inr all ↦ inr (rscs, refl, named, all)
                ],
              )
            ]
      ]
    ]

initialized-Created :
    (init : IfHeader → ℤ) (table : List Decl) (ps : List InstDecl) (argv : List Bytes)
    (states states' : List ℕ) (iface : IfHeader) (p : InstDecl)
    → get_elem? ps iface.peripheral ≡ some p
    → Named table iface.rscs argv
    → ((i : ℕ) → count_at states' i ≡ u8 (count_at states i + used i iface.rscs))
    → (c : Creation) × (initialized iface (init iface) ≡ c) × Created table ps argv states states' c
unfolding initialized
initialized-Created init table ps argv states states' iface p at_p named counts =
    elim (ℤ-cases (init iface)) [
      | inl (n, e) ↦ (created iface, rw e refl, with_interface iface p at_p named counts)
      | inr (n, e) ↦ (stopped, rw e refl, at_breakpoint)
    ]

with_resources-Created :
    (init : IfHeader → ℤ) (table : List Decl) (ps : List InstDecl) (argv : List Bytes) (decl : ℕ)
    (r : Option (List IfRs)) (states states' : List ℕ) (p : InstDecl)
    → get_elem? ps decl ≡ some p
    → ((r ≡ none)
        ⊎ ((rscs : List IfRs) × (r ≡ some rscs)
            × Named table rscs argv
            × ((i : ℕ) → count_at states' i ≡ u8 (count_at states i + used i rscs))))
    → (c : Creation) × (with_resources init decl (r, states') ≡ (c, states'))
      × Created table ps argv states states' c
unfolding with_resources
with_resources-Created init table ps argv decl r states states' p at_p (inl e) =
    (stopped, rw e refl, at_breakpoint)
with_resources-Created init table ps argv decl r states states' p at_p
      (inr (rscs, e, named, counts)) =
    let iface : IfHeader = record { peripheral = decl; rscs = rscs } in
    let (c, done, made) =
      initialized-Created init table ps argv states states' iface p at_p named counts in
    (c, rw (e, done) refl, made)

in_peripherals :
    (table : List InstDecl) (tag : Bytes) (k : ℕ)
    → pp_get_by_tag table tag ≡ some k
    → (p : InstDecl) × (get_elem? table k ≡ some p)
unfolding pp_get_by_tag
in_peripherals table tag k e =
    elim (find_from-Picks (λ (p : InstDecl). is_zero (strops_cmp p.tag tag)) 0 table) [
      | inl (missing, all) ↦ absurd (none-ne-some (sym missing ∙ e))
      | inr (j, p, found, at_p, passes, before) ↦
          let same : j ≡ k = omega (arith, some_injective (sym found ∙ e)) in
          (p, rw (sym same) at_p)
    ]

-- If each resource has a counter of 8 bits that is not above the number of its pieces, where that has
-- 8 bits too, then `if_create` with at least the name of a peripheral goes out of no table and the
-- counters stay so. If it returns an interface, that has a peripheral of the board and the resources
-- that were asked for, in order, and each counter is moved, to the modulus 256, by the number of times
-- that the resource was asked for; otherwise it returns NULL or stops at a breakpoint.
pub if_create-Created :
    (init : IfHeader → ℤ) (b : Board) (tag : Bytes) (argv : List Bytes) (type : ℕ) (states : List ℕ)
    → Booked b.resources states
    → (c : Creation) × (states' : List ℕ) × (if_create init b (tag ∷ argv) type states
        ≡ some (c, states'))
      × Booked b.resources states'
      × Created b.resources b.peripherals argv states states' c
unfolding if_create create_found
if_create-Created init b tag argv type states booked =
    elim (Option-cases (pp_get_by_tag b.peripherals tag)) [
      | inl e ↦ (stopped, states, rw e refl, booked, at_breakpoint)
      | inr (k, e) ↦
          let (p, at_p) = in_peripherals b.peripherals tag k e in
          elim (Bool-cases (not (type == pp_none) && not (type == p.decl.pp_type))) [
            | inl z ↦ (stopped, states, rw (e, at_p, z) refl, booked, at_breakpoint)
            | inr z ↦ elim (Bool-cases b.header_memory) [
              | inr f ↦ (stopped, states, rw (e, at_p, z, f) refl, booked, at_breakpoint)
              | inl t ↦
                  let (r, states', run, booked', left) =
                    if_rs_allocate-Booked b.rscs_memory b.resources p argv states booked in
                  let (c, done, made) =
                    with_resources-Created init b.resources b.peripherals argv k r states states' p
                      at_p left in
                  (c, states', rw (e, at_p, z, t, run, done) refl, booked', made)
            ]
          ]
    ]
