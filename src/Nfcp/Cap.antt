-- ===== src/Nfcp/Cap.antt =====
-- src/module/nfcp/nfcp_cls_cap.c: what the firmware can do, told to the host.
pub mod Writes
pub mod Contents
pub mod Answers
mod Tests
use nodeflight_fw.Base.{
  ℕ, zero, suc, ◌+◌, ◌/◌, ◌*◌, Bool, true, false, ◌&&◌, ◌||◌, Option, none, some, List, [], ◌∷◌,
  ◌==◌, ltb, if◌then◌else◌, Bytes, length, get_elem?, store, ◌>>=◌, ℤ, pos, bit_or, u8, u16,
}
use nodeflight_fw.Pack.{pack_to_u16}
use nodeflight_fw.Resource.{
  Decl, InstDecl, PpDecl, InstRs, rs_get_by_id, rs_get_count, pp_get_by_index, pp_get_count,
}
use nodeflight_fw.Module.{
  ModDecl, ArgDecl, mode_code, type_code, md_get_decl_by_id, md_get_decl_count,
}
use nodeflight_fw.Variable.{NamedType, vr_code}
use nodeflight_fw.Nfcp.State.{Nfcp}
use nodeflight_fw.Nfcp.Mgmt.{Status, success, send, hdr_bit_is_call, hdr_bit_is_resp}
use nodeflight_fw.Nfcp.Task.{Handler, Operation, Class}
use nodeflight_fw.Nfcp.Put.{Put, Cursor, ◌then_put◌, put_u8, put_u16, put_text}

abbrev pub nfcp_cls_cap : ℕ
nfcp_cls_cap = 1

abbrev pub get_info : ℕ
get_info = 0

abbrev pub get_rs : ℕ
get_rs = 1

abbrev pub get_pp : ℕ
get_pp = 2

abbrev pub get_md : ℕ
get_md = 3

-- What the linker and the build give: the tables, NF_TARGET and `SystemCoreClock`.
pub record Tables : Type 0 where
  pub resources : List Decl
  pub peripherals : List InstDecl
  pub modules : List ModDecl
  pub target : Bytes
  pub clock : ℕ

-- `nfcp_set_header` at `ptr`, which it moves.
unfoldable pub nfcp_set_header : ℕ → ℕ → Bool → Bool → ℕ → Put
unfolding put_u8
nfcp_set_header cls op is_call is_resp seq_nr =
    put_u8 (
      bit_or (bit_or (cls * 4) (if is_call then hdr_bit_is_call else 0))
        (if is_resp then hdr_bit_is_resp else 0))
    then_put put_u8 op
    then_put (if is_call then put_u8 seq_nr else some)

-- What a request asks for.
pub record Query : Type 0 where
  pub obj_id : ℕ
  pub field_type : ℕ
  pub field_idx : ℕ

-- The payload of a request of at least 5 bytes.
unfoldable pub parse_query : Bytes → Option Query
parse_query payload = pack_to_u16 payload 0 >>= λ obj. get_elem? payload 2 >>= λ field_type.
    pack_to_u16 payload 3 >>= λ idx.
    some (record { obj_id = obj; field_type = field_type; field_idx = idx })

-- The headers that `prepare_response` puts.
unfoldable pub prepare_response : ℕ → ℕ → Query → Put
unfolding nfcp_set_header put_u16
prepare_response op seq_nr q =
    nfcp_set_header nfcp_cls_cap op true true seq_nr
    then_put put_u16 q.obj_id
    then_put put_u8 q.field_type
    then_put put_u16 q.field_idx

-- A request answered with what `contents` puts; a short one is not answered.
unfoldable pub respond : ℕ → (Query → Put) → Handler
unfolding parse_query prepare_response
respond op contents granted now n is_call seq_nr payload len =
    if ltb len 5
    then some (success, n)
    else parse_query payload >>= λ q.
        send granted (λ buf. (prepare_response op seq_nr q then_put contents q) (buf, 0)) n
        >>= λ n'. some (success, n')

-- A read out of a table is a fault.
unfoldable pub checked_entry {ℓ} : {A : Type ℓ} → Option A → (A → Put) → Put
checked_entry none write = λ c. none
checked_entry (some a) write = write a

-- The writer for an entry of a table, if there is one.
unfoldable pub entry_of {ℓ} : {A : Type ℓ} → List A → Option ℕ → (A → Put) → Put
entry_of table none write = some
entry_of table (some i) write = checked_entry (get_elem? table i) write

unfoldable pub put_resource : Query → Decl → Put
unfolding put_u16 put_text
put_resource q rs =
    if q.field_type == 0 && q.field_idx == 0
    then put_u16 rs.type then_put put_u16 rs.count_avail then_put put_text rs.name
    else some

unfoldable pub put_option : InstRs → Put
unfolding put_u16 put_text
put_option r = put_u16 r.arg_nr then_put put_text r.tag

unfoldable pub put_peripheral : Query → InstDecl → Put
unfolding put_u8 put_u16 put_text put_option checked_entry
put_peripheral q pp =
    let num_arg_opts = u16 (length pp.rscs) in
    if q.field_type == 0 && q.field_idx == 0
    then put_u8 pp.decl.pp_type
      then_put put_u16 pp.decl.num_rscs
      then_put put_u16 num_arg_opts
      then_put put_text pp.tag
    else if q.field_type == 1 && ltb q.field_idx num_arg_opts
    then checked_entry (get_elem? pp.rscs q.field_idx) put_option
    else some

unfoldable pub put_arg : ArgDecl → Put
unfolding put_u8 put_text mode_code type_code
put_arg a =
    put_u8 (mode_code a.mode)
    then_put put_u8 (type_code a.type)
    then_put put_u8 a.subtype
    then_put put_text a.name

unfoldable pub put_output : NamedType → Put
unfolding put_u8 put_text vr_code
put_output o = put_u8 (vr_code o.type) then_put put_text o.name

-- `args` is counted, and read through where it is NULL.
unfoldable pub put_declared : Query → ModDecl → Option (List ArgDecl) → Put
unfolding put_u16 put_text put_arg put_output checked_entry
put_declared q md none = λ b. none
put_declared q md (some args) =
    let num_args = u16 (length args) in
    let num_outputs = u16 (length md.outputs) in
    if q.field_type == 0 && q.field_idx == 0
    then put_u16 num_args then_put put_u16 num_outputs then_put put_text md.name
    else if q.field_type == 1 && ltb q.field_idx num_args
    then checked_entry (get_elem? args q.field_idx) put_arg
    else if q.field_type == 2 && ltb q.field_idx num_outputs
    then checked_entry (get_elem? md.outputs q.field_idx) put_output
    else some

unfoldable pub put_module : Query → ModDecl → Put
unfolding put_declared
put_module q md = put_declared q md md.args

unfoldable pub put_info : Tables → ℕ → Put
unfolding nfcp_set_header put_u16 put_text rs_get_count pp_get_count md_get_decl_count
put_info t seq_nr =
    nfcp_set_header nfcp_cls_cap get_info true true seq_nr
    then_put put_u16 (rs_get_count t.resources)
    then_put put_u16 (pp_get_count t.peripherals)
    then_put put_u16 (md_get_decl_count t.modules)
    then_put put_u16 (t.clock / 1000000)
    then_put put_text t.target

unfoldable pub nfcp_cls_cap_op_get_info : Tables → Handler
unfolding put_info
nfcp_cls_cap_op_get_info t granted now n is_call seq_nr payload len =
    send granted (λ buf. put_info t seq_nr (buf, 0)) n >>= λ n'. some (success, n')

unfoldable pub nfcp_cls_cap_op_get_resource : Tables → Handler
unfolding respond entry_of checked_entry put_resource rs_get_by_id
nfcp_cls_cap_op_get_resource t =
    respond get_rs
      (λ q. entry_of t.resources (rs_get_by_id t.resources (pos q.obj_id)) (put_resource q))

unfoldable pub nfcp_cls_cap_op_get_peripheral : Tables → Handler
unfolding respond entry_of checked_entry put_peripheral pp_get_by_index
nfcp_cls_cap_op_get_peripheral t =
    respond get_pp (λ q.
      entry_of t.peripherals (pp_get_by_index t.peripherals (pos q.obj_id)) (put_peripheral q))

unfoldable pub nfcp_cls_cap_op_get_module : Tables → Handler
unfolding respond entry_of checked_entry put_module md_get_decl_by_id
nfcp_cls_cap_op_get_module t =
    respond get_md
      (λ q. entry_of t.modules (md_get_decl_by_id t.modules (pos q.obj_id)) (put_module q))

-- `nfcp_cls_cap_ops`.
unfoldable pub nfcp_cls_cap_ops : Tables → Class
nfcp_cls_cap_ops t =
    record { handler = some (nfcp_cls_cap_op_get_info t); handle_call = true; handle_info = false }
    ∷ record {
      handler = some (nfcp_cls_cap_op_get_resource t);
      handle_call = true;
      handle_info = false;
    }
    ∷ record {
      handler = some (nfcp_cls_cap_op_get_peripheral t);
      handle_call = true;
      handle_info = false;
    }
    ∷ record {
      handler = some (nfcp_cls_cap_op_get_module t);
      handle_call = true;
      handle_info = false;
    }
    ∷ []
