-- ===== src/Nfcp/Cap/Contents.antt =====
-- The bytes of the answers of the capability class.
use nodeflight_fw.Base.{
  none, some, List, Option, ℕ, ◌/◌, ◌≤◌, ◌&&◌, [], ◌∷◌, ◌++◌, ◌==◌, ltb, if◌then◌else◌, Bytes,
  length, get_elem?, u8, u16, arith, All, All-get_elem?,
}
use nodeflight_fw.Pack.RoundTrip.{bytes_of_u16}
use nodeflight_fw.Resource.{Decl, InstDecl, InstRs}
use nodeflight_fw.Module.{ModDecl, ArgDecl, mode_code, type_code}
use nodeflight_fw.Variable.{NamedType, vr_code}
use nodeflight_fw.Nfcp.Cap.{
  Tables, Query, put_resource, put_option, put_peripheral, put_arg, put_output, put_declared,
  put_module, put_info,
}
use nodeflight_fw.Nfcp.Cap.Writes.{
  Writes, Writes-some, Writes-put_u8, Writes-put_u16, Writes-put_text, Writes-then, Writes-if,
  entry_bytes, checked_entry-Writes, within_count, nfcp_set_header-Writes, header_bytes,
}

-- The answers' contents, from the entry of a table.
abbrev pub resource_bytes : Query → Decl → Bytes
resource_bytes q rs =
    if q.field_type == 0 && q.field_idx == 0
    then (bytes_of_u16 rs.type ++ bytes_of_u16 rs.count_avail) ++ rs.name
    else []

pub put_resource-Writes :
    (q : Query) (rs : Decl)
    → length rs.name ≤ 100
    → Writes 105 (put_resource q rs) (resource_bytes q rs)
unfolding put_resource
put_resource-Writes q rs h =
    Writes-if (q.field_type == 0 && q.field_idx == 0) _ _ _ _ 105
      (λ e.
        Writes-then _ _ _ _ 4 100 105
          (Writes-then _ _ _ _ 2 2 4 (Writes-put_u16 rs.type) (Writes-put_u16 rs.count_avail)
            (omega arith))
          (Writes-put_text rs.name 100 h) (omega arith))
      (λ e. Writes-some 105)

abbrev pub option_bytes : InstRs → Bytes
option_bytes r = bytes_of_u16 r.arg_nr ++ r.tag

put_option-Writes : (r : InstRs) → length r.tag ≤ 100 → Writes 105 (put_option r) (option_bytes r)
unfolding put_option
put_option-Writes r h =
    Writes-then _ _ _ _ 2 100 105 (Writes-put_u16 r.arg_nr) (Writes-put_text r.tag 100 h)
      (omega arith)

abbrev pub peripheral_bytes : Query → InstDecl → Bytes
peripheral_bytes q pp =
    if q.field_type == 0 && q.field_idx == 0
    then ((u8 pp.decl.pp_type ∷ [] ++ bytes_of_u16 pp.decl.num_rscs)
        ++ bytes_of_u16 (u16 (length pp.rscs)))
      ++ pp.tag
    else if q.field_type == 1 && ltb q.field_idx (u16 (length pp.rscs))
    then entry_bytes (get_elem? pp.rscs q.field_idx) option_bytes
    else []

pub put_peripheral-Writes :
    (q : Query) (pp : InstDecl)
    → length pp.tag ≤ 100
    → All (λ (r : InstRs). length r.tag ≤ 100) pp.rscs
    → Writes 105 (put_peripheral q pp) (peripheral_bytes q pp)
unfolding put_peripheral
put_peripheral-Writes q pp h all =
    Writes-if (q.field_type == 0 && q.field_idx == 0) _ _ _ _ 105
      (λ e.
        Writes-then _ _ _ _ 5 100 105
          (Writes-then _ _ _ _ 3 2 5
            (Writes-then _ _ _ _ 1 2 3 (Writes-put_u8 pp.decl.pp_type)
              (Writes-put_u16 pp.decl.num_rscs) (omega arith))
            (Writes-put_u16 (u16 (length pp.rscs))) (omega arith))
          (Writes-put_text pp.tag 100 h) (omega arith))
      (λ e.
        Writes-if (q.field_type == 1 && ltb q.field_idx (u16 (length pp.rscs))) _ _ _ _ 105
          (λ t.
            checked_entry-Writes pp.rscs q.field_idx 105 put_option option_bytes
              (within_count q.field_idx (length pp.rscs) (q.field_type == 1) t)
              (λ r at_r. put_option-Writes r (
                All-get_elem? (λ (r : InstRs). length r.tag ≤ 100) pp.rscs q.field_idx r all at_r)))
          (λ t. Writes-some 105))

abbrev pub arg_bytes : ArgDecl → Bytes
arg_bytes a =
    ((u8 (mode_code a.mode) ∷ [] ++ u8 (type_code a.type) ∷ []) ++ u8 a.subtype ∷ []) ++ a.name

put_arg-Writes : (a : ArgDecl) → length a.name ≤ 100 → Writes 105 (put_arg a) (arg_bytes a)
unfolding put_arg
put_arg-Writes a h =
    Writes-then _ _ _ _ 3 100 105
      (Writes-then _ _ _ _ 2 1 3
        (Writes-then _ _ _ _ 1 1 2 (Writes-put_u8 (mode_code a.mode))
          (Writes-put_u8 (type_code a.type)) (omega arith))
        (Writes-put_u8 a.subtype) (omega arith))
      (Writes-put_text a.name 100 h) (omega arith)

abbrev pub output_bytes : NamedType → Bytes
output_bytes o = u8 (vr_code o.type) ∷ [] ++ o.name

put_output-Writes :
    (o : NamedType) → length o.name ≤ 100 → Writes 105 (put_output o) (output_bytes o)
unfolding put_output
put_output-Writes o h =
    Writes-then _ _ _ _ 1 100 105 (Writes-put_u8 (vr_code o.type)) (Writes-put_text o.name 100 h)
      (omega arith)

abbrev pub declared_bytes : Query → ModDecl → List ArgDecl → Bytes
declared_bytes q md args =
    if q.field_type == 0 && q.field_idx == 0
    then (bytes_of_u16 (u16 (length args)) ++ bytes_of_u16 (u16 (length md.outputs))) ++ md.name
    else if q.field_type == 1 && ltb q.field_idx (u16 (length args))
    then entry_bytes (get_elem? args q.field_idx) arg_bytes
    else if q.field_type == 2 && ltb q.field_idx (u16 (length md.outputs))
    then entry_bytes (get_elem? md.outputs q.field_idx) output_bytes
    else []

-- The declared arguments, where there are any.
abbrev pub args_of : Option (List ArgDecl) → List ArgDecl
args_of none = []
args_of (some args) = args

abbrev pub module_bytes : Query → ModDecl → Bytes
module_bytes q md = declared_bytes q md (args_of md.args)

-- Arguments are declared, with short names.
abbrev pub ShortArgs : Option (List ArgDecl) → Type 0
ShortArgs none = ⊥
ShortArgs (some args) = All (λ (a : ArgDecl). length a.name ≤ 100) args

-- The names of a module are short, and its `args` are not NULL.
pub record ShortNames (md : ModDecl) : Type 0 where
  pub own : length md.name ≤ 100
  pub args : ShortArgs md.args
  pub outputs : All (λ (o : NamedType). length o.name ≤ 100) md.outputs

put_declared-Writes :
    (q : Query) (md : ModDecl) (args : List ArgDecl)
    → length md.name ≤ 100
    → All (λ (a : ArgDecl). length a.name ≤ 100) args
    → All (λ (o : NamedType). length o.name ≤ 100) md.outputs
    → Writes 105 (put_declared q md (some args)) (declared_bytes q md args)
unfolding put_declared
put_declared-Writes q md args own arg_names outputs =
    Writes-if (q.field_type == 0 && q.field_idx == 0) _ _ _ _ 105
      (λ e.
        Writes-then _ _ _ _ 4 100 105
          (Writes-then _ _ _ _ 2 2 4 (Writes-put_u16 (u16 (length args)))
            (Writes-put_u16 (u16 (length md.outputs))) (omega arith))
          (Writes-put_text md.name 100 own) (omega arith))
      (λ e.
        Writes-if (q.field_type == 1 && ltb q.field_idx (u16 (length args))) _ _ _ _ 105
          (λ t.
            checked_entry-Writes args q.field_idx 105 put_arg arg_bytes
              (within_count q.field_idx (length args) (q.field_type == 1) t)
              (λ a at_a. put_arg-Writes a (
                All-get_elem? (λ (a : ArgDecl). length a.name ≤ 100) args q.field_idx a arg_names
                  at_a)))
          (λ t.
            Writes-if (q.field_type == 2 && ltb q.field_idx (u16 (length md.outputs))) _ _ _ _ 105
              (λ u.
                checked_entry-Writes md.outputs q.field_idx 105 put_output output_bytes
                  (within_count q.field_idx (length md.outputs) (q.field_type == 2) u)
                  (λ o at_o. put_output-Writes o (
                    All-get_elem? (λ (o : NamedType). length o.name ≤ 100) md.outputs q.field_idx o
                      outputs at_o)))
              (λ u. Writes-some 105)))

put_args-Writes :
    (q : Query) (md : ModDecl) (args : Option (List ArgDecl))
    → length md.name ≤ 100
    → ShortArgs args
    → All (λ (o : NamedType). length o.name ≤ 100) md.outputs
    → Writes 105 (put_declared q md args) (declared_bytes q md (args_of args))
put_args-Writes q md none own arg_names outputs = absurd arg_names
put_args-Writes q md (some args) own arg_names outputs =
    put_declared-Writes q md args own arg_names outputs

pub put_module-Writes :
    (q : Query) (md : ModDecl) → ShortNames md → Writes 105 (put_module q md) (module_bytes q md)
unfolding put_module
put_module-Writes q md short = put_args-Writes q md md.args short.own short.args short.outputs

abbrev pub info_bytes : Tables → ℕ → Bytes
info_bytes t seq_nr =
    ((((header_bytes 0 seq_nr ++ bytes_of_u16 (length t.resources))
          ++ bytes_of_u16 (length t.peripherals))
        ++ bytes_of_u16 (length t.modules))
      ++ bytes_of_u16 (t.clock / 1000000))
    ++ t.target

pub put_info-Writes :
    (t : Tables) (seq_nr : ℕ)
    → length t.target ≤ 100
    → Writes 111 (put_info t seq_nr) (info_bytes t seq_nr)
unfolding put_info
put_info-Writes t seq_nr h =
    Writes-then _ _ _ _ 11 100 111
      (Writes-then _ _ _ _ 9 2 11
        (Writes-then _ _ _ _ 7 2 9
          (Writes-then _ _ _ _ 5 2 7
            (Writes-then _ _ _ _ 3 2 5 (nfcp_set_header-Writes 0 seq_nr)
              (Writes-put_u16 (length t.resources)) (omega arith))
            (Writes-put_u16 (length t.peripherals)) (omega arith))
          (Writes-put_u16 (length t.modules)) (omega arith))
        (Writes-put_u16 (t.clock / 1000000)) (omega arith))
      (Writes-put_text t.target 100 h) (omega arith)
