-- ===== src/Nfcp/Run/Forever.antt =====
-- `nfcp_task` runs on, whatever it meets.
use nodeflight_fw.Base.{
  subst, sym, ap, true, false, refl, length, ℕ, Bool, Option, none, some, List, [], ◌∷◌, ◌==◌, ◌≡◌,
  Bool-cases, inl, inr,
}
use nodeflight_fw.Nfcp.State.{
  Nfcp, packet_buffer_size, nfcp_reset, nfcp_cls_mgmt_reset, nfcp_refresh_session,
}
use nodeflight_fw.Nfcp.Stored.{reset_of, nfcp_reset-reset_of}
use nodeflight_fw.Nfcp.Mgmt.{nfcp_cls_mgmt}
use nodeflight_fw.Nfcp.Task.{Class, nfcp_cls_mgmt_ops, Turn, next, waits, broken, turn}
use nodeflight_fw.Nfcp.Good.{IsReady, AllGood, reset_of-IsReady, nfcp_cls_mgmt_ops-IsGood}
use nodeflight_fw.Nfcp.Turn.{Turned, turn_lem}
use nodeflight_fw.Nfcp.Cap.{Tables, nfcp_cls_cap, nfcp_cls_cap_ops}
use nodeflight_fw.Nfcp.Cap.Answers.{IsShort, nfcp_cls_cap_ops-IsGood}
use nodeflight_fw.Nfcp.Run.{Event, go_on, turns, nfcp_class, init_classes, after_start, nfcp_task}

some_injective : {a b : Class} → some a ≡ some b → a ≡ b
some_injective p = cc

none-ne-some : {a : Class} → none ≡ some a → ⊥
none-ne-some p = cc

nfcp_class-AllGood : (t : Tables) → IsShort t → AllGood (nfcp_class t)
unfolding nfcp_class
nfcp_class-AllGood t short c i ops op run e at_i h = elim (Bool-cases (c == nfcp_cls_mgmt)) [
  | inl z ↦
      let same : nfcp_cls_mgmt_ops ≡ ops = some_injective (rw z at e) in
      nfcp_cls_mgmt_ops-IsGood i op run (rw same at_i) h
  | inr z ↦ elim (Bool-cases (c == nfcp_cls_cap)) [
    | inl y ↦
        let same : nfcp_cls_cap_ops t ≡ ops = some_injective (rw (z, y) at e) in
        nfcp_cls_cap_ops-IsGood t short i op run (rw same at_i) h
    | inr y ↦ absurd (none-ne-some (rw (z, y) at e))
  ]
]

go_on-Turned :
    (depth : ℕ) (r : Turn) (k : Nfcp → Turn)
    → Turned depth r
    → ((n : Nfcp) → IsReady depth n → Turned depth (k n))
    → Turned depth (go_on r k)
unfolding go_on
go_on-Turned depth (next n) k h step = step n h
go_on-Turned depth waits k h step = tt
go_on-Turned depth broken k h step = h

turns-Turned :
    (classes : ℕ → Option Class) (granted : Bool) (events : List Event) (depth : ℕ) (n : Nfcp)
    → AllGood classes
    → IsReady depth n
    → Turned depth (turns classes granted events n)
unfolding turns
turns-Turned classes granted [] depth n good r = r
turns-Turned classes granted (e ∷ events) depth n good r =
    go_on-Turned depth (turn classes granted e.reads e.now n) (turns classes granted events)
      (turn_lem classes granted e.reads e.now depth n good r)
      (λ n' r'. turns-Turned classes granted events depth n' good r')

no_storage-nfcp_reset :
    (granted : Bool) (stale now : ℕ) (n : Nfcp)
    → nfcp_reset granted now (init_classes false stale 4 0 n) ≡ none
unfolding nfcp_reset nfcp_refresh_session nfcp_cls_mgmt_reset init_classes
no_storage-nfcp_reset granted stale now n = refl

-- The buffers and the mutex before the start.
pub record HasBuffers (depth : ℕ) (n : Nfcp) : Type 0 where
  pub rx_size : length n.rx_buffer ≡ packet_buffer_size
  pub tx_size : length n.tx_buffer ≡ packet_buffer_size
  pub held : n.tx_depth ≡ depth

init_classes-IsReady :
    (depth stale : ℕ) (n : Nfcp)
    → HasBuffers depth n
    → IsReady depth (init_classes true stale 4 0 n)
unfolding init_classes
init_classes-IsReady depth stale n b = record {
  rx_size = b.rx_size;
  tx_size = b.tx_size;
  held = b.held;
  stored = refl;
}

-- With memory for the storage of the management class the turns go on, without it the first reset
-- stores through NULL.
abbrev pub Started : Bool → ℕ → Turn → Type 0
Started true depth r = Turned depth r
Started false depth r = r ≡ broken

-- Let no name in the tables of the firmware be longer than 100 characters and every module declare
-- arguments. If `nfcp_task` with the management and the capability class has memory for the storage of
-- the management class, it never goes out of a buffer nor through NULL, however many turns it makes,
-- whatever bytes the line brings in whatever pieces and whatever the clock says, with the mutex or
-- without: after each turn both buffers have their size and the mutex is held as often as before, or the
-- task waits for the line. Without that memory, its first reset stores through NULL.
pub nfcp_task-Turned :
    (t : Tables) (memory granted : Bool) (stale now : ℕ) (events : List Event) (depth : ℕ)
    (n : Nfcp)
    → IsShort t
    → HasBuffers depth n
    → Started memory depth (nfcp_task t memory granted stale now events n)
unfolding nfcp_task after_start
nfcp_task-Turned t true granted stale now events depth n short b =
    let n1 = init_classes true stale 4 0 n in
    let r : IsReady depth n1 = init_classes-IsReady depth stale n b in
    subst (λ o. Turned depth (after_start o (turns (nfcp_class t) granted events)))
      (sym (nfcp_reset-reset_of granted now n1 r.stored))
      (turns-Turned (nfcp_class t) granted events depth (reset_of granted now n1)
        (nfcp_class-AllGood t short) (reset_of-IsReady granted now depth n1 r))
nfcp_task-Turned t false granted stale now events depth n short b =
    ap (λ o. after_start o (turns (nfcp_class t) granted events))
      (no_storage-nfcp_reset granted stale now n)
