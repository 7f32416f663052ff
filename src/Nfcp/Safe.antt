-- ===== src/Nfcp/Safe.antt =====
-- `nfcp_rx_packet` accesses nothing out of its buffer, whatever the line brings.
use nodeflight_fw.Base.{
  ℕ, ◌+◌, ◌-◌, ◌≤◌, Bool, true, false, Option, none, some, List, [], ◌∷◌, ◌++◌, ltb, if◌then◌else◌,
  ◌≡◌, refl, ◌∙◌, inl, inr, Bytes, length, take, drop, ℤ, pos, negsuc, arith, length-append,
  length-take, length-drop, take-append-drop, Bool-cases, get_elem?, bit_and, ◌==◌, ◌&&◌, ◌/◌, ◌^◌,
}
use nodeflight_fw.Crc.{crc16, crc16_poly_ccitt}
use nodeflight_fw.Hdlc.{hdlc_frame_unstuff}
use nodeflight_fw.Hdlc.Spec.{decode}
use nodeflight_fw.Hdlc.RoundTrip.{strip}
use nodeflight_fw.Hdlc.Length.{HasLength, hdlc_frame_unstuff-HasLength}
use nodeflight_fw.Nfcp.Packet.{
  check_crc, check_frame, checked, Rx, returns, blocked, fault, Read, expired, wants_more, receive,
  rx_loop, nfcp_rx_packet,
}
use nodeflight_fw.Nfcp.Sealed.{sealed, length-sealed}
use nodeflight_fw.Nfcp.Link.{Verdict, check_frame_lem}

-- A packet that is returned lies in the buffer, which keeps its length, and there is no fault.
abbrev pub IsSafe : ℕ → Rx → Type 0
IsSafe size (returns (pos len) buf) = (length buf ≡ size) × (len ≤ size)
IsSafe size (returns (negsuc _) buf) = length buf ≡ size
IsSafe size blocked = Unit
IsSafe size fault = ⊥

-- The buffer that is returned has `n` bytes.
abbrev Returned : ℕ → Rx → Type 0
Returned n (returns r buf) = length buf ≡ n
Returned n blocked = Unit
Returned n fault = Unit

checked-Returned :
    (n : ℕ) (o : Option ℕ) (k : ℕ → Rx) → ((a : ℕ) → Returned n (k a)) → Returned n (checked o k)
checked-Returned n none k h = tt
checked-Returned n (some a) k h = h a

tested :
    (t : Bool) (n : ℕ) (x y : Rx) → Returned n x → Returned n y → Returned n (if t then x else y)
tested true n x y hx hy = hx
tested false n x y hx hy = hy

check_crc-Returned : (buf : Bytes) (n : ℕ) (r : ℤ) → length buf ≡ n → Returned n (check_crc buf r)
unfolding check_crc
check_crc-Returned buf n (negsuc k) e = e
check_crc-Returned buf n (pos len) e = tested (ltb len 2) n _ _ e (
    checked-Returned n (crc16 buf (len - 2) 0 crc16_poly_ccitt) _ λ crc.
      checked-Returned n (get_elem? buf (len - 2)) _ λ hi.
        checked-Returned n (get_elem? buf (len - 1)) _
          λ lo. tested (hi == bit_and (crc / 2 ^ 8) 0xff && lo == bit_and crc 0xff) n _ _ e e)

check_frame-Returned : (buf : Bytes) (len : ℕ) → Returned (length buf) (check_frame buf len)
unfolding check_frame
check_frame-Returned buf len =
    by_result (hdlc_frame_unstuff buf len) (hdlc_frame_unstuff-HasLength buf len)
  where
    by_result :
        (r : Option (ℤ × Bytes))
        → HasLength (length buf) r
        → Returned (length buf) (checked r (λ (x, b). check_crc b x))
    by_result none h = tt
    by_result (some (x, b)) h = check_crc-Returned b (length buf) x h

check_frame-IsSafe :
    (frame tail : Bytes)
    → IsSafe (length (frame ++ tail)) (check_frame (frame ++ tail) (length frame))
check_frame-IsSafe frame tail =
    by_verdict (check_frame (frame ++ tail) (length frame)) (check_frame_lem frame tail)
      (check_frame-Returned (frame ++ tail) (length frame))
  where
    by_verdict :
        (r : Rx)
        → Verdict (decode (strip frame)) r
        → Returned (length (frame ++ tail)) r
        → IsSafe (length (frame ++ tail)) r
    by_verdict r (inl (p, rest, d, e)) h =
        let n : length (sealed p ++ rest) ≡ length (frame ++ tail) = rw e at h in
        rw e (n, omega (arith, n, length-append (sealed p) rest, length-sealed p))
    by_verdict r (inr ((buf, e), refuted)) h = rw e (rw e at h)

check_frame-IsSafe_within :
    (buf : Bytes) (len : ℕ) → len ≤ length buf → IsSafe (length buf) (check_frame buf len)
check_frame-IsSafe_within buf len h =
    let n : length (take len buf) ≡ len = omega (arith, length-take len buf) in
    rw (take-append-drop len buf, n) at (check_frame-IsSafe (take len buf) (drop len buf))

length-receive :
    (buf bytes : Bytes) (len : ℕ)
    → len + length bytes ≤ length buf
    → length (receive buf len bytes) ≡ length buf
unfolding receive
length-receive buf bytes len h = omega (
  arith,
  length-append (take len buf) (bytes ++ drop (len + length bytes) buf),
  length-append bytes (drop (len + length bytes) buf),
  length-take len buf,
  length-drop (len + length bytes) buf,
)

rx_loop-IsSafe :
    (reads : List Read) (buf : Bytes) (size len tick_end : ℕ)
    → length buf ≡ size
    → len ≤ size
    → IsSafe size (rx_loop reads buf size len tick_end)
unfolding rx_loop
rx_loop-IsSafe [] buf size len tick_end e h = elim (Bool-cases (wants_more buf size len)) [
  | inl w ↦ rw w tt
  | inr w ↦ rw w (rw e at (check_frame-IsSafe_within buf len (omega arith)))
]
rx_loop-IsSafe (r ∷ reads) buf size len tick_end e h =
    let bytes = take (size - len) r.bytes in
    let fits : len + length bytes ≤ size = omega (arith, length-take (size - len) r.bytes) in
    elim (Bool-cases (wants_more buf size len)) [
      | inl w ↦ rw w (elim (Bool-cases (expired tick_end r.tick)) [
        | inl x ↦ rw x e
        | inr x ↦ rw x (
            rx_loop-IsSafe reads (receive buf len bytes) size (len + length bytes) tick_end
              (length-receive buf bytes len (omega arith) ∙ e) fits)
      ])
      | inr w ↦ rw w (rw e at (check_frame-IsSafe_within buf len (omega arith)))
    ]

-- Whatever bytes the line brings, in whatever pieces and at whatever times, `nfcp_rx_packet` reads
-- and writes nothing out of its buffer; the buffer keeps its length, and a packet that is returned
-- lies in it.
pub nfcp_rx_packet-IsSafe :
    (reads : List Read) (buf : Bytes) (tick_end : ℕ)
    → IsSafe (length buf) (nfcp_rx_packet reads buf (length buf) tick_end)
unfolding nfcp_rx_packet
nfcp_rx_packet-IsSafe reads buf tick_end =
    rx_loop-IsSafe reads buf (length buf) 0 tick_end refl (omega arith)
