-- ===== src/Nfcp/Cap/Answers.antt =====
-- What the operations of the capability class send.
use nodeflight_fw.Base.{
  ℕ, ◌≤◌, Bool, true, some, [], ◌∷◌, ◌++◌, ◌≡◌, refl, ap, ◌∙◌, Bytes, length, drop, get_elem?, ltb,
  pos, ltb→ge, inl, inr, Bool-cases, All, All-get_elem?, arith, zero, suc, subst, ge→ltb,
}
use nodeflight_fw.Pack.{pack_to_u16}
use nodeflight_fw.Resource.{Decl, InstDecl, InstRs, rs_get_by_id, pp_get_by_index}
use nodeflight_fw.Module.{md_get_decl_by_id}
use nodeflight_fw.Nfcp.State.{Nfcp, packet_buffer_size}
use nodeflight_fw.Nfcp.Mgmt.{success}
use nodeflight_fw.Nfcp.Transmit.{Sent}
use nodeflight_fw.Nfcp.Session.{send_packet}
use nodeflight_fw.Nfcp.Task.{Handler, Operation}
use nodeflight_fw.Nfcp.Good.{IsGood, send-IsReady}
use nodeflight_fw.Nfcp.Put.{Put, ◌then_put◌}
use nodeflight_fw.Nfcp.Cap.{
  Tables, Query, parse_query, prepare_response, respond, put_info, nfcp_cls_cap_op_get_info,
  nfcp_cls_cap_op_get_resource, nfcp_cls_cap_op_get_peripheral, nfcp_cls_cap_op_get_module,
  nfcp_cls_cap_ops, put_resource, put_peripheral, put_module, entry_of,
}
use nodeflight_fw.Nfcp.Cap.Writes.{
  Writes, Writes-then, entry_bytes, entry_of-Writes, prefix_bytes, prepare_response-Writes,
}
use nodeflight_fw.Nfcp.Cap.Contents.{
  resource_bytes, put_resource-Writes, peripheral_bytes, put_peripheral-Writes, module_bytes,
  put_module-Writes, ShortNames, info_bytes, put_info-Writes,
}

-- The names in the tables are short: a C array of 16 in a resource, texts of the source elsewhere.
pub record IsShort (t : Tables) : Type 0 where
  pub target : length t.target ≤ 100
  pub resources : All (λ (d : Decl). length d.name ≤ 100) t.resources
  pub peripherals :
      All
        (λ (p : InstDecl). (length p.tag ≤ 100) × All (λ (r : InstRs). length r.tag ≤ 100) p.rscs)
        t.peripherals
  pub modules : All ShortNames t.modules

-- A request that can be read.
pub parse_query-some :
    (payload : Bytes) → 5 ≤ length payload → (q : Query) × (parse_query payload ≡ some q)
unfolding parse_query pack_to_u16
parse_query-some [] h = absurd (omega arith)
parse_query-some (a ∷ []) h = absurd (omega arith)
parse_query-some (a ∷ b ∷ []) h = absurd (omega arith)
parse_query-some (a ∷ b ∷ c ∷ []) h = absurd (omega arith)
parse_query-some (a ∷ b ∷ c ∷ d ∷ []) h = absurd (omega arith)
parse_query-some (a ∷ b ∷ c ∷ d ∷ e ∷ rest) h = (_, refl)

-- What a short writer leaves in a whole buffer.
pub whole_packet :
    (w : Put) (bytes buf : Bytes)
    → Writes 127 w bytes
    → length buf ≡ packet_buffer_size
    → w (buf, 0) ≡ some (bytes ++ drop (length bytes) buf, length bytes)
whole_packet w bytes buf h size =
    h.emits [] buf (omega (arith, h.small))
    ∙ ap (λ (t : ℕ). some (bytes ++ drop (length bytes) buf, t)) (omega arith)

-- The packet of an answer.
abbrev pub answer_bytes : ℕ → ℕ → Query → Bytes → Bytes
answer_bytes op seq_nr q contents = prefix_bytes op seq_nr q ++ contents

pub answer-Writes :
    (op seq_nr : ℕ) (q : Query) (w : Put) (contents : Bytes)
    → Writes 105 w contents
    → Writes 127 (prepare_response op seq_nr q then_put w) (answer_bytes op seq_nr q contents)
answer-Writes op seq_nr q w contents h =
    Writes-then (prepare_response op seq_nr q) w _ contents 8 105 127
      (prepare_response-Writes op seq_nr q) h (omega arith)

-- What each operation answers, from the tables.
abbrev pub resource_answer : Tables → Query → Bytes
resource_answer t q = entry_bytes (get_elem? t.resources q.obj_id) (resource_bytes q)

abbrev pub peripheral_answer : Tables → Query → Bytes
peripheral_answer t q = entry_bytes (get_elem? t.peripherals q.obj_id) (peripheral_bytes q)

abbrev pub module_answer : Tables → Query → Bytes
module_answer t q = entry_bytes (get_elem? t.modules q.obj_id) (module_bytes q)

module _ (op : ℕ) (contents : Query → Put) (f : Query → Bytes)
    (h : (q : Query) → Writes 105 (contents q) (f q)) where
  -- A request of at least 5 bytes is answered.
  pub respond-Sent :
      (now : ℕ) (n : Nfcp) (is_call : Bool) (seq_nr : ℕ) (payload : Bytes) (len : ℕ) (q : Query)
      → 5 ≤ len
      → parse_query payload ≡ some q
      → length n.tx_buffer ≡ packet_buffer_size
      → (n' : Nfcp) × (respond op contents true now n is_call seq_nr payload len
          ≡ some (success, n'))
        × Sent n n' (answer_bytes op seq_nr q (f q))
  unfolding respond
  respond-Sent now n is_call seq_nr payload len q long e size =
      let w = answer-Writes op seq_nr q (contents q) (f q) (h q) in
      let (n', sent, s) =
        send_packet (λ buf. (prepare_response op seq_nr q then_put contents q) (buf, 0)) n
          (answer_bytes op seq_nr q (f q)) size w.small
          (whole_packet (prepare_response op seq_nr q then_put contents q) _ n.tx_buffer w size) in
      (n', rw (ge→ltb len 5 long, e, sent) refl, s)

  pub respond-IsGood : IsGood (respond op contents)
  unfolding respond
  respond-IsGood granted now depth n is_call seq_nr payload len fits r =
      elim (Bool-cases (ltb len 5)) [
        | inl short ↦ (success, n, rw short refl, r)
        | inr long ↦
            let (q, e) = parse_query-some payload (omega (arith, ltb→ge len 5 long)) in
            let w = answer-Writes op seq_nr q (contents q) (f q) (h q) in
            let (n', sent, r') =
              send-IsReady granted
                (λ buf. (prepare_response op seq_nr q then_put contents q) (buf, 0))
                (answer_bytes op seq_nr q (f q)) depth n w.small
                (whole_packet (prepare_response op seq_nr q then_put contents q) _ n.tx_buffer w
                  r.tx_size)
                r in
            (success, n', rw (long, e, sent) refl, r')
      ]

module _ (t : Tables) (short : IsShort t) where
  resource_contents :
      (q : Query)
      → Writes 105
          (entry_of t.resources (rs_get_by_id t.resources (pos q.obj_id)) (put_resource q))
          (resource_answer t q)
  unfolding rs_get_by_id
  resource_contents q =
      entry_of-Writes t.resources q.obj_id 105 (put_resource q) (resource_bytes q) λ d at_d.
        put_resource-Writes q d (
          All-get_elem? (λ (d : Decl). length d.name ≤ 100) t.resources q.obj_id d short.resources
            at_d)

  peripheral_contents :
      (q : Query)
      → Writes 105
          (entry_of t.peripherals (pp_get_by_index t.peripherals (pos q.obj_id)) (put_peripheral q))
          (peripheral_answer t q)
  unfolding pp_get_by_index
  peripheral_contents q =
      entry_of-Writes t.peripherals q.obj_id 105 (put_peripheral q) (peripheral_bytes q) λ p at_p.
        let (own, options) =
          All-get_elem?
            (λ (p : InstDecl).
              (length p.tag ≤ 100) × All (λ (r : InstRs). length r.tag ≤ 100) p.rscs)
            t.peripherals q.obj_id p short.peripherals at_p in
        put_peripheral-Writes q p own options

  module_contents :
      (q : Query)
      → Writes 105
          (entry_of t.modules (md_get_decl_by_id t.modules (pos q.obj_id)) (put_module q))
          (module_answer t q)
  unfolding md_get_decl_by_id
  module_contents q =
      entry_of-Writes t.modules q.obj_id 105 (put_module q) (module_bytes q) λ m at_m.
        put_module-Writes q m (All-get_elem? ShortNames t.modules q.obj_id m short.modules at_m)

  get_info-IsGood : IsGood (nfcp_cls_cap_op_get_info t)
  unfolding nfcp_cls_cap_op_get_info
  get_info-IsGood granted now depth n is_call seq_nr payload len fits r =
      let w = put_info-Writes t seq_nr short.target in
      let (n', sent, r') =
        send-IsReady granted (λ buf. put_info t seq_nr (buf, 0)) (info_bytes t seq_nr) depth n
          (omega (arith, w.small))
          (whole_packet (put_info t seq_nr) (info_bytes t seq_nr) n.tx_buffer
            (record { emits = w.emits; small = omega (arith, w.small) }) r.tx_size)
          r in
      (success, n', rw sent refl, r')

  -- The operations of the capability class are good.
  pub nfcp_cls_cap_ops-IsGood :
      (i : ℕ) (op : Operation) (run : Handler)
      → get_elem? (nfcp_cls_cap_ops t) i ≡ some op
      → op.handler ≡ some run
      → IsGood run
  unfolding nfcp_cls_cap_ops nfcp_cls_cap_op_get_resource nfcp_cls_cap_op_get_peripheral
      nfcp_cls_cap_op_get_module
  nfcp_cls_cap_ops-IsGood zero op run e h =
      let same : nfcp_cls_cap_op_get_info t ≡ run = cc in subst IsGood same get_info-IsGood
  nfcp_cls_cap_ops-IsGood (suc zero) op run e h =
      let same : nfcp_cls_cap_op_get_resource t ≡ run = cc in
      subst IsGood same (respond-IsGood 1 _ (resource_answer t) resource_contents)
  nfcp_cls_cap_ops-IsGood (suc (suc zero)) op run e h =
      let same : nfcp_cls_cap_op_get_peripheral t ≡ run = cc in
      subst IsGood same (respond-IsGood 2 _ (peripheral_answer t) peripheral_contents)
  nfcp_cls_cap_ops-IsGood (suc (suc (suc zero))) op run e h =
      let same : nfcp_cls_cap_op_get_module t ≡ run = cc in
      subst IsGood same (respond-IsGood 3 _ (module_answer t) module_contents)
  nfcp_cls_cap_ops-IsGood (suc (suc (suc (suc i)))) op run e h = absurd cc
