-- ===== src/Interface.antt =====
-- src/core/interface.c: peripherals with the resources that they use.
pub mod Counts
pub mod Create
mod Tests
use nodeflight_fw.Base.{
  ℕ, zero, suc, ◌+◌, ◌-◌, Bool, true, false, ◌&&◌, not, Option, none, some, List, [], ◌∷◌, ◌==◌,
  if◌then◌else◌, Bytes, length, get_elem?, ◌>>=◌, ℤ, pos, negsuc,
}
use nodeflight_fw.Resource.{
  Decl, InstDecl, rs_get_by_tag, rs_allocate, pp_get_by_tag, pp_get_rs_by_tag,
}

-- `struct if_rs_s`: the resource, and its entry in the peripheral.
pub record IfRs : Type 0 where
  pub decl : ℕ
  pub inst : ℕ

-- `struct if_header_s`.
pub record IfHeader : Type 0 where
  pub peripheral : ℕ
  pub rscs : List IfRs

-- PP_NONE.
abbrev pub pp_none : ℕ
pp_none = 0

-- The loop that fetches the resources, from `i` on; `none` is the return of NULL.
unfoldable pub fetch_resources : List Decl → InstDecl → ℕ → List Bytes → Option (List IfRs)
fetch_resources table peripheral i [] = some []
fetch_resources table peripheral i (arg ∷ argv) = rs_get_by_tag table arg >>= λ decl.
    pp_get_rs_by_tag peripheral i arg >>= λ inst.
    fetch_resources table peripheral (suc i) argv >>= λ rscs.
    some (record { decl = decl; inst = inst } ∷ rscs)

-- One round of the loop below, with what `rs_allocate` returns, and the others.
unfoldable pub allocate_next :
    Bool × List ℕ → (List ℕ → Option (Bool × List ℕ)) → Option (Bool × List ℕ)
allocate_next (true, states) others = others states
allocate_next (false, states) others = some (false, states)

-- The loop that allocates the resources: whether all of them could be, and the counters. `none` is an
-- access out of the tables.
unfoldable pub allocate_resources : List Decl → List IfRs → List ℕ → Option (Bool × List ℕ)
unfolding allocate_next rs_allocate
allocate_resources table [] states = some (true, states)
allocate_resources table (r ∷ rscs) states =
    rs_allocate table states r.decl >>= λ x. allocate_next x (allocate_resources table rscs)

unfoldable pub allocated : List IfRs → Bool × List ℕ → Option (List IfRs) × List ℕ
allocated rscs (ok, states) = if ok then (some rscs, states) else (none, states)

unfoldable pub allocate_fetched :
    List Decl → List ℕ → Option (List IfRs) → Option (Option (List IfRs) × List ℕ)
unfolding allocate_resources allocated
allocate_fetched table states none = some (none, states)
allocate_fetched table states (some rscs) =
    allocate_resources table rscs states >>= λ x. some (allocated rscs x)

-- `if_rs_allocate`; `memory` is whether `pvPortMalloc` has it, and the inner `none` is NULL.
unfoldable pub if_rs_allocate :
    Bool → List Decl → InstDecl → List Bytes → List ℕ → Option (Option (List IfRs) × List ℕ)
unfolding fetch_resources allocate_fetched
if_rs_allocate memory table peripheral argv states =
    if peripheral.decl.num_rscs == length argv && memory
    then allocate_fetched table states (fetch_resources table peripheral 0 argv)
    else some (none, states)

-- What `if_create` does: it returns the interface or NULL, or stops at a breakpoint.
pub data Creation : Type 0 where
  created : IfHeader → Creation
  refused stopped : Creation

unfoldable pub initialized : IfHeader → ℤ → Creation
initialized iface (pos _) = created iface
initialized iface (negsuc _) = stopped

unfoldable pub with_resources : (IfHeader → ℤ) → ℕ → Option (List IfRs) × List ℕ → Creation × List ℕ
unfolding initialized
with_resources init decl (none, states) = (stopped, states)
with_resources init decl (some rscs, states) =
    let iface : IfHeader = record { peripheral = decl; rscs = rscs } in
    (initialized iface (init iface), states)

-- The tables, and the memory that the two allocations find.
pub record Board : Type 0 where
  pub resources : List Decl
  pub peripherals : List InstDecl
  pub header_memory : Bool
  pub rscs_memory : Bool

-- `init` is the function of the peripheral.
unfoldable pub create_found :
    (IfHeader → ℤ) → Board → ℕ → List Bytes → List ℕ → Option ℕ → Option (Creation × List ℕ)
unfolding if_rs_allocate with_resources
create_found init b type argv states none = some (stopped, states)
create_found init b type argv states (some decl) = get_elem? b.peripherals decl >>= λ peripheral.
    if not (type == pp_none) && not (type == peripheral.decl.pp_type)
    then some (stopped, states)
    else if b.header_memory
    then (if_rs_allocate b.rscs_memory b.resources peripheral argv states >>= λ x.
        some (with_resources init decl x))
    else some (stopped, states)

unfoldable pub if_create :
    (IfHeader → ℤ) → Board → List Bytes → ℕ → List ℕ → Option (Creation × List ℕ)
unfolding create_found
if_create init b [] type states = some (refused, states)
if_create init b (tag ∷ argv) type states =
    create_found init b type argv states (pp_get_by_tag b.peripherals tag)
