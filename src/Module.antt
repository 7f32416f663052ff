-- ===== src/Module.antt =====
-- src/core/module.c: the modules that the linker collects, and their arguments.
pub mod Init
pub mod Typed
pub mod Suits
pub mod Line
mod Tests
use nodeflight_fw.Base.{ℕ, Option, List, Bytes, length, ℤ}
use nodeflight_fw.Resource.{by_index}
use nodeflight_fw.Variable.{NamedType}

pub data ArgMode : Type 0 where
  normal optional : ArgMode

pub data ArgType : Type 0 where
  peripheral scheduler link string const : ArgType

unfoldable pub mode_code : ArgMode → ℕ
mode_code normal = 0
mode_code optional = 1

unfoldable pub type_code : ArgType → ℕ
type_code peripheral = 0
type_code scheduler = 1
type_code link = 2
type_code string = 3
type_code const = 4

-- `md_arg_decl_t`.
pub record ArgDecl : Type 0 where
  pub name : Bytes
  pub mode : ArgMode
  pub type : ArgType
  pub subtype : ℕ

-- `md_decl_t` without its `init`; `args` and `outputs` without the entries that end them. `args` is NULL,
-- `none`, for a module that is declared without them; `outputs` may be NULL, too, which the source reads
-- as no outputs.
pub record ModDecl : Type 0 where
  pub name : Bytes
  pub args : Option (List ArgDecl)
  pub outputs : List NamedType

unfoldable pub md_get_decl_by_id : List ModDecl → ℤ → Option ℕ
md_get_decl_by_id table index = by_index table index

unfoldable pub md_get_decl_count : List ModDecl → ℕ
md_get_decl_count table = length table
