-- ===== src/Resource.antt =====
-- src/core/resource.c and peripheral.c: the tables that the linker collects. A pointer into a table
-- is its index.
pub mod Counts
pub mod Lookup
mod Tests
use nodeflight_fw.Base.{
  ℕ, zero, suc, ◌+◌, Bool, true, false, Option, none, some, List, [], ◌∷◌, ◌==◌, ◌&&◌, ltb,
  if◌then◌else◌, Bytes, length, get_elem?, set, ◌>>=◌, ℤ, pos, negsuc, u8,
}
use nodeflight_fw.Strops.{strops_cmp}

-- `rs_decl_t`; `name` is the string in the array of 16.
pub record Decl : Type 0 where
  pub name : Bytes
  pub type : ℕ
  pub count_avail : ℕ
  pub ref : ℕ

-- Is the result of `strops_cmp` 0?
unfoldable pub is_zero : ℤ → Bool
is_zero (pos r) = r == 0
is_zero (negsuc _) = false

-- `index < 0 || &start[index] >= end`.
unfoldable pub by_index {ℓ} : {A : Type ℓ} → List A → ℤ → Option ℕ
by_index table (pos i) = if ltb i (length table) then some i else none
by_index table (negsuc _) = none

-- The first entry from `i` on that passes the test.
unfoldable pub find_from {ℓ} : {A : Type ℓ} → (A → Bool) → ℕ → List A → Option ℕ
find_from test i [] = none
find_from test i (x ∷ xs) = let rest = find_from test (suc i) xs in if test x then some i else rest

unfoldable pub rs_get_by_id : List Decl → ℤ → Option ℕ
rs_get_by_id table index = by_index table index

unfoldable pub rs_get_count : List Decl → ℕ
rs_get_count table = length table

unfoldable pub rs_get_by_tag : List Decl → Bytes → Option ℕ
rs_get_by_tag table tag = find_from (λ d. is_zero (strops_cmp d.name tag)) 0 table

-- `rs_init_state`: every count is 0.
unfoldable pub rs_init_state : List Decl → List ℕ
rs_init_state [] = []
rs_init_state (d ∷ table) = 0 ∷ rs_init_state table

-- The counts are 8 bits wide. `none` is an access out of the tables.
unfoldable pub rs_allocate : List Decl → List ℕ → ℕ → Option (Bool × List ℕ)
rs_allocate table states rsc = get_elem? table rsc >>= λ d. get_elem? states rsc >>= λ count.
    if ltb count d.count_avail
    then some (true, set states rsc (u8 (count + 1)))
    else some (false, states)

-- `pp_inst_rs_t`.
pub record InstRs : Type 0 where
  pub tag : Bytes
  pub arg_nr : ℕ
  pub attr : ℕ

-- `pp_decl_t` without its `init`; `pp_type` is the value of `pp_type_t`.
pub record PpDecl : Type 0 where
  pub pp_type : ℕ
  pub num_rscs : ℕ
  pub storage_size : ℕ

-- `pp_inst_decl_t`; `rscs` without the entry that ends it.
pub record InstDecl : Type 0 where
  pub decl : PpDecl
  pub tag : Bytes
  pub rscs : List InstRs

unfoldable pub pp_get_by_index : List InstDecl → ℤ → Option ℕ
pp_get_by_index table index = by_index table index

unfoldable pub pp_get_count : List InstDecl → ℕ
pp_get_count table = length table

unfoldable pub pp_get_by_tag : List InstDecl → Bytes → Option ℕ
pp_get_by_tag table tag = find_from (λ d. is_zero (strops_cmp d.tag tag)) 0 table

unfoldable pub pp_get_rs_by_tag : InstDecl → ℕ → Bytes → Option ℕ
pp_get_rs_by_tag peripheral arg_nr tag =
    find_from (λ r. (r.arg_nr == arg_nr) && is_zero (strops_cmp r.tag tag)) 0 peripheral.rscs
