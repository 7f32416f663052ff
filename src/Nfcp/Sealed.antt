-- ===== src/Nfcp/Sealed.antt =====
-- What `nfcp_tx_packet` puts on the line, and what `nfcp_rx_packet` takes from it, for one frame.
use nodeflight_fw.Base.{
  ℕ, ◌+◌, ◌-◌, ◌/◌, ◌%◌, ◌^◌, ◌≤◌, ◌<◌, ◌&&◌, some, [], ◌∷◌, ◌++◌, ◌==◌, if◌then◌else◌, ◌≡◌, refl,
  sym, ap, Bytes, bit_and, length, drop, store-append, store-skip, get_elem?-skip, pos, minus_one,
  arith, append_assoc, length-append, ge→ltb, get_elem?-append, length-drop,
}
use nodeflight_fw.Base.Bits.{bit_and_mask}
use nodeflight_fw.Crc.{crc16_poly_ccitt}
use nodeflight_fw.Crc.Residue.{crc_of, crc_of-lt, crc16-crc_of}
use nodeflight_fw.Hdlc.{frame_boundary}
use nodeflight_fw.Hdlc.Spec.{encode}
use nodeflight_fw.Hdlc.Stuff.{hdlc_frame_stuff-encode}
use nodeflight_fw.Nfcp.Packet.{seal, check_crc, returns}

-- The checksum of a packet.
abbrev pub crc : Bytes → ℕ
crc payload = crc_of crc16_poly_ccitt 0 payload

-- A packet with its checksum.
abbrev pub sealed : Bytes → Bytes
sealed payload = payload ++ crc payload / 256 ∷ crc payload % 256 ∷ []

pub crc-lt : (payload : Bytes) → crc payload < 65536
crc-lt payload = crc_of-lt crc16_poly_ccitt (omega arith) payload 0 (omega arith)

high_byte : (payload : Bytes) → bit_and (crc payload / 2 ^ 8) 0xff ≡ crc payload / 256
high_byte payload = omega (arith, bit_and_mask 8 (crc payload / 2 ^ 8), crc-lt payload)

low_byte : (payload : Bytes) → bit_and (crc payload) 0xff ≡ crc payload % 256
low_byte payload = omega (arith, bit_and_mask 8 (crc payload))

pub length-sealed : (payload : Bytes) → length (sealed payload) ≡ length payload + 2
length-sealed payload = length-append payload _

-- The bytes on the line.
abbrev pub frame_of : Bytes → Bytes
frame_of payload = encode (sealed payload) ++ frame_boundary ∷ []

pub length-frame_of :
    (payload : Bytes) → length (frame_of payload) ≡ length (encode (sealed payload)) + 1
length-frame_of payload = length-append (encode (sealed payload)) _

-- `seal` leaves the frame of the packet at the start of the buffer, if the frame fits.
pub seal-frame_of :
    (payload tail : Bytes) (a b : ℕ)
    → length (frame_of payload) ≤ length payload + 2 + length tail
    → (rest : Bytes) × (seal (payload ++ a ∷ b ∷ tail) (length payload)
        ≡ some (pos (length (frame_of payload)), frame_of payload ++ rest))
      × (length (frame_of payload) + length rest ≡ length payload + 2 + length tail)
unfolding seal
seal-frame_of payload tail a b fits =
    let hi : ℕ = crc payload / 256 in
    let lo : ℕ = crc payload % 256 in
    let n : length (sealed payload) ≡ length payload + 2 = length-sealed payload in
    let stuffed =
      hdlc_frame_stuff-encode (sealed payload) tail (omega (arith, length-frame_of payload, n)) in
    (
      drop (length (encode (sealed payload)) + 1) (sealed payload ++ tail),
      rw
          (
            crc16-crc_of payload (a ∷ b ∷ tail) 0 crc16_poly_ccitt,
            high_byte payload,
            low_byte payload,
            store-append payload (b ∷ tail) a hi (length payload) refl,
            store-skip payload (hi ∷ b ∷ tail) 1 (length payload + 1) lo refl (omega arith),
            sym (append_assoc payload (hi ∷ lo ∷ []) tail),
            sym n,
            stuffed,
            length-frame_of payload,
          )
          (ap (λ t. some (pos (length (encode (sealed payload)) + 1), t))
            (sym (append_assoc (encode (sealed payload)) (frame_boundary ∷ []) _))),
      omega (
        arith,
        fits,
        n,
        length-frame_of payload,
        length-append (sealed payload) tail,
        length-drop (length (encode (sealed payload)) + 1) (sealed payload ++ tail),
      ),
    )

-- The comparison of the checksum, for two bytes behind a packet.
pub check_crc-concat :
    (payload rest : Bytes) (x y n : ℕ)
    → n ≡ length payload + 2
    → let buf = payload ++ x ∷ y ∷ rest in
      check_crc buf (pos n) ≡ (
        if x == crc payload / 256 && y == crc payload % 256
        then returns (pos (length payload)) buf
        else returns minus_one buf)
unfolding check_crc
check_crc-concat payload rest x y n e =
    let n2 : n - 2 ≡ length payload = omega arith in
    let n1 : n - 1 ≡ length payload + 1 = omega arith in
    rw (
      ge→ltb n 2 (omega arith),
      n2,
      n1,
      crc16-crc_of payload (x ∷ y ∷ rest) 0 crc16_poly_ccitt,
      get_elem?-append payload (y ∷ rest) x (length payload) refl,
      get_elem?-skip payload (x ∷ y ∷ rest) 1 (length payload + 1) refl,
      high_byte payload,
      low_byte payload,
    )
