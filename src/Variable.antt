-- ===== src/Variable.antt =====
-- src/core/variable.c: the outputs of modules, and the requests for them. A pointer is a number; the
-- pointers to be set (`void **target`) are the cells of a list.
pub mod Relocate
pub mod Register
pub mod Order
pub mod Connect
mod Tests
use nodeflight_fw.Base.{
  ℕ, zero, suc, ◌+◌, ◌-◌, ◌%◌, Bool, true, false, Option, none, some, List, [], ◌∷◌, ◌++◌, ◌==◌,
  ltb, if◌then◌else◌, Bytes, length, get_elem?, set, store, ◌>>=◌, ℤ, pos, negsuc, minus_one,
}
use nodeflight_fw.Strops.{strops_word_to_int}
use nodeflight_fw.Map.{Chunk, map_get, map_set}

-- `vr_type_t`.
pub data VrType : Type 0 where
  null float bool int : VrType

unfoldable pub vr_code : VrType → ℕ
vr_code null = 0
vr_code float = 1
vr_code bool = 2
vr_code int = 3

-- `vr_named_type_t`.
pub record NamedType : Type 0 where
  pub name : Bytes
  pub type : VrType

-- `struct vr_reloc_s`; `index` has 16 bits.
pub record Reloc : Type 0 where
  pub dst : ℕ
  pub index : ℕ
  pub type : VrType

-- `struct vr_source_s`; the list of types ends with a type NULL behind it, and `none` is NULL.
pub record Source : Type 0 where
  pub types : Option (List NamedType)
  pub vars : List ℕ
  pub reloc : List Reloc

-- `vr_sources`, whose values are indices of the allocated sources; how many relocations are in
-- `vr_free_reloc`; and the targets of requests.
pub record Variables : Type 0 where
  pub sources : List (Chunk ℕ)
  pub heap : List Source
  pub free_relocs : ℕ
  pub targets : List ℕ

-- Which of the allocations have memory.
pub record Granted : Type 0 where
  pub source : Bool
  pub name : Bool
  pub chunk : Bool
  pub vars : Bool
  pub reloc : Bool

abbrev pub is_null : VrType → Bool
is_null null = true
is_null float = false
is_null bool = false
is_null int = false

-- What `vr_reloc_alloc` leaves of the free relocations; `none` is NULL.
unfoldable pub vr_reloc_alloc : Bool → ℕ → Option ℕ
vr_reloc_alloc granted (suc free) = some free
vr_reloc_alloc granted zero = if granted then some zero else none

abbrev pub vr_reloc_free : ℕ → ℕ
vr_reloc_free free = free + 1

unfoldable pub new_source : Source
new_source = record { types = none; vars = []; reloc = [] }

unfoldable pub found_source : Granted → Bytes → Variables → Option ℕ → Option ℕ × Variables
unfolding new_source
found_source granted name v (some i) = (some i, v)
found_source granted name v none =
    if granted.source
    then (
      some (length v.heap),
      record v {
        sources = (map_set granted.name granted.chunk name (some (length v.heap)) v.sources).1;
        heap = v.heap ++ new_source ∷ [];
      },
    )
    else (none, v)

unfoldable pub vr_get_source : Granted → Bytes → Variables → Option ℕ × Variables
unfolding found_source
vr_get_source granted name v = found_source granted name v (map_get name v.sources)

-- `types[index].type`, or `none` where the loop before finds the end first.
unfoldable pub type_at : List NamedType → ℕ → Option VrType
type_at [] zero = some null
type_at [] (suc i) = none
type_at (t ∷ types) zero = some t.type
type_at (t ∷ types) (suc i) = let rest = type_at types i in if is_null t.type then none else rest

-- The test of the type, and the update of the target.
unfoldable pub connect_target :
    List ℕ → ℕ → VrType → ℕ → List ℕ → Option VrType → Option (ℤ × List ℕ)
connect_target vars i type dst targets none = some (minus_one, targets)
connect_target vars i type dst targets (some t) =
    if vr_code t == vr_code type
    then get_elem? vars i >>= (λ var. store targets dst var >>= λ targets'. some (pos 0, targets'))
    else some (minus_one, targets)

-- `vr_reloc_exec`; `none` is an access through NULL or out of an array, as with a negative index.
unfoldable pub vr_reloc_exec : Source → ℤ → VrType → ℕ → List ℕ → Option (ℤ × List ℕ)
unfolding type_at connect_target
vr_reloc_exec src (negsuc i) type dst targets = none
vr_reloc_exec src (pos i) type dst targets =
    src.types >>= λ types. connect_target src.vars i type dst targets (type_at types i)

unfoldable pub num_args : List NamedType → ℕ
num_args [] = 0
num_args (t ∷ types) = let rest = num_args types in if is_null t.type then 0 else suc rest

-- The loop with `va_arg`, which has to have an argument each time.
unfoldable pub read_args : ℕ → List ℕ → Option (List ℕ)
read_args zero args = some []
read_args (suc n) [] = none
read_args (suc n) (a ∷ args) = read_args n args >>= λ vars. some (a ∷ vars)

-- The state of the loop over the relocations of a source: the status, the relocations that are left,
-- the number of the free ones, and the targets.
pub record Relocated : Type 0 where
  pub status : ℤ
  pub left : List Reloc
  pub free : ℕ
  pub targets : List ℕ

unfoldable pub after_exec :
    List Reloc → ℕ → (ℕ → List ℕ → Option Relocated) → ℤ × List ℕ → Option Relocated
after_exec left free others (pos r, targets) = others (vr_reloc_free free) targets
after_exec left free others (negsuc r, targets) =
    some (record { status = minus_one; left = left; free = free; targets = targets })

unfoldable pub update_pending : Source → List Reloc → ℕ → List ℕ → Option Relocated
unfolding vr_reloc_exec after_exec
update_pending src [] free targets =
    some (record { status = pos 0; left = []; free = free; targets = targets })
update_pending src (rlc ∷ left) free targets =
    vr_reloc_exec src (pos rlc.index) rlc.type rlc.dst targets
    >>= after_exec left free (update_pending src left)

abbrev pub put_source : ℕ → Source → Variables → Variables
put_source i src v = record v { heap = set v.heap i src }

-- `vr_register` with a source that has no types yet.
unfoldable pub register_types :
    Granted → List NamedType → List ℕ → ℕ → Source → Variables → Option (ℤ × Variables)
unfolding num_args read_args update_pending
register_types granted types args i src v =
    if granted.vars
    then read_args (num_args types) args >>= (λ vars.
      update_pending (record { types = some types; vars = vars; reloc = src.reloc }) src.reloc
        v.free_relocs v.targets
      >>= λ r. some (
        r.status,
        put_source i (record { types = some types; vars = vars; reloc = r.left })
            (record v { free_relocs = r.free; targets = r.targets }),
      ))
    else some
        (minus_one, put_source i (record { types = some types; vars = []; reloc = src.reloc }) v)

unfoldable pub register_source :
    Granted
    → List NamedType
    → List ℕ
    → ℕ
    → Variables
    → Source
    → Option (List NamedType)
    → Option (ℤ × Variables)
unfolding register_types
register_source granted types args i v src (some known) = some (minus_one, v)
register_source granted types args i v src none = register_types granted types args i src v

-- `vr_register`; `args` are the arguments behind `types`.
unfoldable pub vr_register :
    Granted → Bytes → List NamedType → List ℕ → Variables → Option (ℤ × Variables)
unfolding vr_get_source register_source
vr_register granted name types args v =
    let got = vr_get_source granted name v in
    got.0 >>= λ i.
    get_elem? got.1.heap i >>= λ src. register_source granted types args i got.1 src src.types

-- The text before the last dot and the text behind it.
unfoldable pub split_rest : ℕ → Bytes → Option (Bytes × Bytes) → Option (Bytes × Bytes)
split_rest c cs (some (before, behind)) = some (c ∷ before, behind)
split_rest c cs none = if c == 46 then some ([], cs) else none

unfoldable pub split_name : Bytes → Option (Bytes × Bytes)
unfolding split_rest
split_name [] = none
split_name (c ∷ cs) = split_rest c cs (split_name cs)

-- The conversion to 16 bits.
unfoldable pub cut_index : ℤ → ℕ
cut_index (pos i) = i % 65536
cut_index (negsuc i) = 65535 - i % 65536

unfoldable pub request_source :
    Granted
    → ℤ
    → VrType
    → ℕ
    → ℕ
    → Variables
    → Source
    → Option (List NamedType)
    → Option (ℤ × Variables)
unfolding vr_reloc_alloc cut_index vr_reloc_exec
request_source granted index type target i v src none =
    vr_reloc_alloc granted.reloc v.free_relocs >>= λ free. some (
      pos 0,
      put_source i
          (record src {
            reloc = record { dst = target; index = cut_index index; type = type } ∷ src.reloc;
          })
          (record v { free_relocs = free }),
    )
request_source granted index type target i v src (some known) =
    vr_reloc_exec src index type target v.targets >>= λ r. some (r.0, record v { targets = r.1 })

unfoldable pub request_named :
    Granted → VrType → ℕ → Variables → Option (Bytes × Bytes) → Option (ℤ × Variables)
unfolding vr_get_source request_source strops_word_to_int
request_named granted type target v none = some (minus_one, v)
request_named granted type target v (some (name, behind)) =
    let got = vr_get_source granted name v in
    strops_word_to_int behind >>= λ index. got.0 >>= λ i.
    get_elem? got.1.heap i >>= λ src. request_source granted index type target i got.1 src src.types

-- `vr_request`. The name is overwritten by the source, and not looked at again.
unfoldable pub vr_request : Granted → Bytes → VrType → ℕ → Variables → Option (ℤ × Variables)
unfolding split_name request_named
vr_request granted name type target v = request_named granted type target v (split_name name)
