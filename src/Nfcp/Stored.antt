-- ===== src/Nfcp/Stored.antt =====
-- The functions that use the storage of the management class, where it is not NULL.
use nodeflight_fw.Base.{
  ℕ, Bool, true, false, not, Option, none, some, ◌==◌, if◌then◌else◌, ◌≡◌, refl, ap, ◌∙◌, inl, inr,
  Bool-cases, ◌>>=◌,
}
use nodeflight_fw.Nfcp.State.{
  Nfcp, nfcp_tx_abort, nfcp_refresh_session, nfcp_cls_mgmt_reset, nfcp_reset,
}
use nodeflight_fw.Nfcp.Mgmt.{success, send, session_reply, open_session, answer_session}

-- What a reset leaves.
unfoldable pub reset_of : Bool → ℕ → Nfcp → Nfcp
unfolding nfcp_refresh_session
reset_of granted now n =
    (nfcp_tx_abort granted (record (nfcp_refresh_session now n) { session_id = 0 })).1

pub nfcp_reset-reset_of :
    (granted : Bool) (now : ℕ) (n : Nfcp)
    → n.mgmt_storage ≡ true
    → nfcp_reset granted now n ≡ some (reset_of granted now n)
unfolding nfcp_reset nfcp_cls_mgmt_reset reset_of nfcp_refresh_session
nfcp_reset-reset_of granted now n stored =
    let n' : Nfcp = record (nfcp_refresh_session now n) { session_id = 0 } in
    ap (λ (b : Bool). (if b then some n' else none) >>= λ n1. some (nfcp_tx_abort granted n1).1)
      stored

-- The session that a call leaves.
unfoldable pub opened_of : Bool → ℕ → ℕ → Nfcp → Nfcp
unfolding reset_of
opened_of granted now id n = record (if n.session_id == 0 then n else reset_of granted now n) {
  session_id = id;
}

open_session-opened_of :
    (t granted : Bool) (now id : ℕ) (n : Nfcp)
    → n.mgmt_storage ≡ true
    → (if t then open_session granted now id n else some n)
      ≡ some (if t then opened_of granted now id n else n)
unfolding open_session opened_of
open_session-opened_of false granted now id n stored = refl
open_session-opened_of true granted now id n stored = elim (Bool-cases (n.session_id == 0)) [
  | inl z ↦ rw z refl
  | inr z ↦ rw z (
      ap (λ (o : Option Nfcp). o >>= λ n1. some (record n1 { session_id = id }))
        (nfcp_reset-reset_of granted now n stored))
]

-- The answer to a session call.
pub answer_session-stored :
    (granted : Bool) (now : ℕ) (n : Nfcp) (seq_nr id : ℕ)
    → n.mgmt_storage ≡ true
    → let new = not (n.session_id == id) in
      answer_session granted now n seq_nr id ≡ (
        send granted (session_reply new seq_nr) (if new then opened_of granted now id n else n)
        >>= λ n2. some (success, nfcp_refresh_session now n2))
unfolding answer_session nfcp_refresh_session
answer_session-stored granted now n seq_nr id stored =
    let new = not (n.session_id == id) in
    let answer = λ (n1 : Nfcp). send granted (session_reply new seq_nr) n1 >>= λ n2.
    some (success, nfcp_refresh_session now n2) in
    ap
      (λ (b : Bool).
        if b then (if new then open_session granted now id n else some n) >>= answer else none)
      stored
    ∙ ap (λ (o : Option Nfcp). o >>= answer) (open_session-opened_of new granted now id n stored)
