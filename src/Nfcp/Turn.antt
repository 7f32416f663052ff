-- ===== src/Nfcp/Turn.antt =====
-- One turn of `nfcp_task`, whatever the line brings.
use nodeflight_fw.Base.{
  ℕ, ◌-◌, ◌≤◌, Bool, true, false, not, ◌&&◌, ◌||◌, Option, none, some, List, ltb, leb,
  if◌then◌else◌, ◌≡◌, refl, ◌⊎◌, inl, inr, Bytes, length, drop, get_elem?, get_elem?-lt, pos,
  negsuc, arith, length-drop, Bool-cases, ltb→ge,
}
use nodeflight_fw.Nfcp.State.{Nfcp, packet_buffer_size, nfcp_reset}
use nodeflight_fw.Nfcp.Packet.{Read, Rx, returns, blocked, fault}
use nodeflight_fw.Nfcp.Stored.{reset_of, nfcp_reset-reset_of}
use nodeflight_fw.Nfcp.Session.{fill-nil}
use nodeflight_fw.Nfcp.Safe.{IsSafe, nfcp_rx_packet-IsSafe}
use nodeflight_fw.Nfcp.Task.{
  Handler, Operation, Class, Header, flag, parse_header, pick_operation, pick_class, find_handler,
  unknown_packet, reply_unknown, run_handler, dispatch_header, dispatch, timed_out, end_turn,
  handle_packet, handle_kept, Turn, next, waits, broken, after_receive, turn,
}
use nodeflight_fw.Nfcp.Mgmt.{op_invalid_operation}
use nodeflight_fw.Nfcp.Good.{IsReady, reset_of-IsReady, send-IsReady, IsGood, AllGood}

-- `find_handler` gives a handler of the tables, or none and one of the two codes.
abbrev Found : (ℕ → Option Class) → Option Handler × ℕ → Type 0
Found classes (none, code) = Unit
Found classes (some run, code) = IsGood run

pick_operation-Found :
    (classes : ℕ → Option Class) (h : Header) (c i : ℕ) (ops : Class) (o : Option Operation)
    → AllGood classes
    → classes c ≡ some ops
    → get_elem? ops i ≡ o
    → Found classes (pick_operation h o)
unfolding pick_operation
pick_operation-Found classes h c i ops none good e e' = tt
pick_operation-Found classes h c i ops (some op) good e e' =
    elim (Bool-cases (h.is_call && not op.handle_call || not h.is_call && not op.handle_info)) [
      | inl bad ↦ rw (bad, Found) tt
      | inr fine ↦ rw (fine, Found) (by_handler op.handler refl)
    ]
  where
    by_handler : (o : Option Handler) → op.handler ≡ o → Found classes (o, op_invalid_operation)
    by_handler none e'' = tt
    by_handler (some run) e'' = good c i ops op run e e' e''

pick_class-Found :
    (classes : ℕ → Option Class) (h : Header) (c : ℕ) (o : Option Class)
    → AllGood classes
    → (o ≡ none) ⊎ (classes c ≡ o)
    → Found classes (pick_class h o)
unfolding pick_class
pick_class-Found classes h c none good e = tt
pick_class-Found classes h c (some ops) good (inl e) = cc
pick_class-Found classes h c (some ops) good (inr e) =
    pick_operation-Found classes h c h.operation ops _ good e refl

find_handler-Found :
    (classes : ℕ → Option Class) (h : Header)
    → AllGood classes
    → Found classes (find_handler classes h)
unfolding find_handler
find_handler-Found classes h good = pick_class-Found classes h h.cls _ good (by_size (leb 4 h.cls))
  where
    by_size :
        (b : Bool)
        → ((if b then none else classes h.cls) ≡ none)
          ⊎ (classes h.cls ≡ (if b then none else classes h.cls))
    by_size true = inl refl
    by_size false = inr refl

reply_unknown-IsReady :
    (granted : Bool) (code depth : ℕ) (h : Header) (n : Nfcp)
    → IsReady depth n
    → (n' : Nfcp) × (reply_unknown granted code h n ≡ some n') × IsReady depth n'
unfolding reply_unknown unknown_packet
reply_unknown-IsReady granted code depth h n r =
    send-IsReady granted _ (unknown_packet code h) depth n (omega arith)
      (rw (fill-nil n.tx_buffer (unknown_packet code h) (omega (arith, r.tx_size)))) r

-- A header was looked for in the buffer, and one that was found is not longer than the packet.
abbrev Sized : ℕ → Option (Option Header) → Type 0
Sized len none = ⊥
Sized len (some none) = Unit
Sized len (some (some h)) = h.size ≤ len

parse_header-three :
    (buf : Bytes) (len b0 b1 b2 : ℕ)
    → get_elem? buf 0 ≡ some b0
    → get_elem? buf 1 ≡ some b1
    → get_elem? buf 2 ≡ some b2
    → Sized len (parse_header buf len)
unfolding parse_header
parse_header-three buf len b0 b1 b2 e0 e1 e2 = elim (Bool-cases (ltb len 2)) [
  | inl short ↦ rw short tt
  | inr long ↦ elim (Bool-cases (flag b0 0x02)) [
    | inl call ↦ elim (Bool-cases (ltb len 3)) [
      | inl short ↦ rw (long, e0, call, short) tt
      | inr fits ↦ rw (long, e0, call, fits, e1, e2) (ltb→ge len 3 fits)
    ]
    | inr info ↦ rw (long, e0, info, e1) (ltb→ge len 2 long)
  ]
]

parse_header-Sized :
    (buf : Bytes) (len : ℕ) → length buf ≡ packet_buffer_size → Sized len (parse_header buf len)
parse_header-Sized buf len size =
    let (b0, e0) = get_elem?-lt buf 0 (omega arith) in
    let (b1, e1) = get_elem?-lt buf 1 (omega arith) in
    let (b2, e2) = get_elem?-lt buf 2 (omega arith) in parse_header-three buf len b0 b1 b2 e0 e1 e2

run_handler-IsReady :
    (classes : ℕ → Option Class) (granted : Bool) (now depth : ℕ) (n : Nfcp) (len : ℕ) (h : Header)
    (found : Option Handler × ℕ)
    → Found classes found
    → h.size ≤ len
    → len ≤ packet_buffer_size
    → IsReady depth n
    → (n' : Nfcp) × (run_handler granted now n len h found ≡ some n') × IsReady depth n'
unfolding run_handler
run_handler-IsReady classes granted now depth n len h (none, code) good fits in_buf r =
    reply_unknown-IsReady granted code depth h n r
run_handler-IsReady classes granted now depth n len h (some run, code) good fits in_buf r =
    let left : len - h.size ≤ length (drop h.size n.rx_buffer) =
      omega (arith, length-drop h.size n.rx_buffer, r.rx_size) in
    let (s, n', ran, r') =
      good granted now depth n h.is_call h.seq_nr (drop h.size n.rx_buffer) (len - h.size) left r in
    (n', rw ran refl, r')

dispatch-IsReady :
    (classes : ℕ → Option Class) (granted : Bool) (now depth : ℕ) (n : Nfcp) (len : ℕ)
    → AllGood classes
    → len ≤ packet_buffer_size
    → IsReady depth n
    → (n' : Nfcp) × (dispatch classes granted now n len ≡ some n') × IsReady depth n'
unfolding dispatch dispatch_header
dispatch-IsReady classes granted now depth n len good in_buf r =
    by_header (parse_header n.rx_buffer len) refl (parse_header-Sized n.rx_buffer len r.rx_size)
  where
    by_header :
        (o : Option (Option Header))
        → parse_header n.rx_buffer len ≡ o
        → Sized len o
        → (n' : Nfcp) × (dispatch classes granted now n len ≡ some n') × IsReady depth n'
    by_header none e fits = absurd fits
    by_header (some none) e fits = (n, rw e refl, r)
    by_header (some (some h)) e fits =
        let (n', ran, r') =
          run_handler-IsReady classes granted now depth n len h _
            (find_handler-Found classes h good) fits in_buf r in
        (n', rw (e, ran) refl, r')

-- How a turn may end: in a port that is ready, or waiting for the line.
abbrev pub Turned : ℕ → Turn → Type 0
Turned depth (next n) = IsReady depth n
Turned depth waits = Unit
Turned depth broken = ⊥

handle_packet-Turned :
    (classes : ℕ → Option Class) (granted : Bool) (now depth : ℕ) (n : Nfcp) (len : ℕ)
    → AllGood classes
    → len ≤ packet_buffer_size
    → IsReady depth n
    → Turned depth (handle_packet classes granted now n (pos len))
unfolding handle_packet end_turn
handle_packet-Turned classes granted now depth n len good in_buf r =
    let (n', ran, r') = dispatch-IsReady classes granted now depth n len good in_buf r in rw ran r'

kept-IsReady :
    (t granted : Bool) (now depth : ℕ) (n : Nfcp)
    → IsReady depth n
    → (n' : Nfcp) × ((if t then nfcp_reset granted now n else some n) ≡ some n') × IsReady depth n'
kept-IsReady true granted now depth n r = (
  reset_of granted now n,
  nfcp_reset-reset_of granted now n r.stored,
  reset_of-IsReady granted now depth n r,
)
kept-IsReady false granted now depth n r = (n, refl, r)

after_receive-Turned :
    (classes : ℕ → Option Class) (granted : Bool) (now depth : ℕ) (n : Nfcp) (rx : Rx)
    → AllGood classes
    → IsReady depth n
    → IsSafe packet_buffer_size rx
    → Turned depth (after_receive classes granted now n rx)
unfolding after_receive handle_kept handle_packet
after_receive-Turned classes granted now depth n blocked good r safe = tt
after_receive-Turned classes granted now depth n fault good r safe = safe
after_receive-Turned classes granted now depth n (returns (pos len) buf) good r (size, in_buf) =
    let (n', kept, r') =
      kept-IsReady (timed_out n.session_end_time now) granted now depth
        (record n { rx_buffer = buf })
        (record { rx_size = size; tx_size = r.tx_size; held = r.held; stored = r.stored }) in
    rw kept (handle_packet-Turned classes granted now depth n' len good in_buf r')
after_receive-Turned classes granted now depth n (returns (negsuc k) buf) good r size =
    let (n', kept, r') =
      kept-IsReady (timed_out n.session_end_time now) granted now depth
        (record n { rx_buffer = buf })
        (record { rx_size = size; tx_size = r.tx_size; held = r.held; stored = r.stored }) in
    rw kept r'

-- Let every handler of the class tables return, for every payload that it may read, with both
-- buffers at their size, the storage not NULL and the mutex as it was. Then a turn of `nfcp_task` that starts with such
-- buffers goes out of no buffer, whatever bytes the line brings in whatever pieces and whatever
-- the clock says, with the mutex or without: it waits for the line, or it ends with both buffers
-- at their size and the mutex held as often as before.
pub turn_lem :
    (classes : ℕ → Option Class) (granted : Bool) (reads : List Read) (now depth : ℕ) (n : Nfcp)
    → AllGood classes
    → IsReady depth n
    → Turned depth (turn classes granted reads now n)
unfolding turn
turn_lem classes granted reads now depth n good r =
    after_receive-Turned classes granted now depth n _ good r
      (rw r.rx_size at (nfcp_rx_packet-IsSafe reads n.rx_buffer n.session_end_time))
