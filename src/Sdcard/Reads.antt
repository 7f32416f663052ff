-- ===== src/Sdcard/Reads.antt =====
-- What the commands of a card and the reading of a block come to.
use nodeflight_fw.Base.{
  ℕ, zero, suc, ◌+◌, ◌/◌, ◌%◌, ◌≤◌, ◌<◌, Bool, true, false, not, ◌&&◌, Option, none, some, List, [],
  ◌∷◌, ◌==◌, ◌≡◌, refl, append-nil, ◌⊎◌, inl, inr, Bool-cases, Option-cases, Bytes, length, bit_and,
  arith, ==→eq,
}
use nodeflight_fw.Crc.{crc16, crc16_poly_ccitt}
use nodeflight_fw.Crc.Residue.{crc_of, crc16-crc_of}
use nodeflight_fw.Sdcard.{
  Sdcard, timeout_iterations, shifted_out, receive_while, wait_ready, sdcard_wait_token,
  sdcard_read_r1, command_frame, sdcard_send_command, crc_matches, BlockRead, read_data,
  read_selected, clock,
}

-- The state with the bus at a later byte.
abbrev pub on_bus : ℕ → Sdcard → Sdcard
on_bus n s = record s { bus_at = n }

-- The same, behind a command.
abbrev pub behind : ℕ → Bytes → Sdcard → Sdcard
behind n frame s = record s { bus_at = n; sent = frame ∷ s.sent }

-- A loop stops at a byte that does not pass its test, or with its time.
pub receive_while_lem :
    (test : ℕ → Bool) (time_left : ℕ) (s : Sdcard)
    → (p : ℕ) × (receive_while test time_left s ≡ (s.card p, on_bus (suc p) s))
      × (s.bus_at ≤ p)
      × ((test (s.card p) ≡ false) ⊎ (p ≡ s.bus_at + time_left))
unfolding receive_while
receive_while_lem test zero s =
    let e : s.bus_at + 1 ≡ suc s.bus_at = omega arith in
    (s.bus_at, rw e refl, omega arith, inr (omega arith))
receive_while_lem test (suc time_left) s = elim (Bool-cases (test (s.card s.bus_at))) [
  | inr z ↦
      let e : s.bus_at + 1 ≡ suc s.bus_at = omega arith in
      (s.bus_at, rw (z, e) refl, omega arith, inl z)
  | inl z ↦
      let (p, run, le, ends) = receive_while_lem test time_left (clock 1 s) in
      let ends' : (test (s.card p) ≡ false) ⊎ (p ≡ s.bus_at + suc time_left) = elim ends [
        | inl f ↦ inl f
        | inr e ↦ inr (omega (arith, e))
      ] in
      (p, rw z run, omega (arith, le), ends')
]

pub wait_ready_lem :
    (time_left : ℕ) (s : Sdcard)
    → (n : ℕ) × (o : Option (Unit {0})) × (wait_ready time_left s ≡ (o, on_bus n s))
      × (s.bus_at < n)
unfolding wait_ready
wait_ready_lem zero s = (s.bus_at + 1, none, refl, omega arith)
wait_ready_lem (suc time_left) s = elim (Bool-cases (s.card s.bus_at == 0xff)) [
  | inl z ↦ (s.bus_at + 1, some tt, rw z refl, omega arith)
  | inr z ↦
      let (n, o, run, lt) = wait_ready_lem time_left (clock 1 s) in
      (n, o, rw z run, omega (arith, lt))
]

-- A command is sent once, or not at all where the card stays busy.
pub send_command_lem :
    (command arg : ℕ) (s : Sdcard)
    → (n : ℕ) × (s.bus_at ≤ n)
      × ((sdcard_send_command command arg s ≡ (none, on_bus n s))
          ⊎ (sdcard_send_command command arg s ≡ (some tt, behind n (command_frame command arg) s)))
unfolding sdcard_send_command
send_command_lem command arg s = elim (Bool-cases (command == 0)) [
  | inl z ↦ (s.bus_at + length (command_frame command arg), omega arith, inr (rw z refl))
  | inr z ↦
      let (n, o, run, lt) = wait_ready_lem timeout_iterations s in
      elim (Option-cases o) [
        | inl e ↦ (n, omega (arith, lt), inl (rw (z, run, e) refl))
        | inr (u, e) ↦
            (n + length (command_frame command arg), omega (arith, lt), inr (rw (z, run, e) refl))
      ]
]

pub read_r1_lem :
    (s : Sdcard)
    → (p : ℕ) × (sdcard_read_r1 s ≡ (some (s.card p), on_bus (suc p) s)) × (s.bus_at ≤ p)
unfolding sdcard_read_r1
read_r1_lem s =
    let (p, run, le, ends) =
      receive_while_lem (λ r1. not (bit_and r1 0x80 == 0)) timeout_iterations s in
    (p, rw run refl, le)

pub wait_token_lem :
    (s : Sdcard)
    → (p : ℕ) × (sdcard_wait_token s ≡ (some (s.card p), on_bus (suc p) s)) × (s.bus_at ≤ p)
unfolding sdcard_wait_token
wait_token_lem s =
    let (p, run, le, ends) = receive_while_lem (λ rx. rx == 0xff) timeout_iterations s in
    (p, rw run refl, le)

-- The block behind the byte at `p`, as long as `size`, and its checksum.
abbrev pub block_behind : (ℕ → ℕ) → ℕ → ℕ → Bytes
block_behind card size p = shifted_out card size (suc p)

abbrev pub checksum_of : Bytes → ℕ
checksum_of block = crc_of crc16_poly_ccitt 0 block

-- Where a read of a block leaves the bus, and what it gives: nothing; a block with a wrong checksum;
-- or the block behind the token, whose checksum stands behind it.
pub data Gives (card : ℕ → ℕ) (from token size : ℕ) : BlockRead → ℕ → Type 0 where
  no_block :
      (n : ℕ) → from ≤ n → Gives card from token size (record { ok = false; written = none }) n
  bad_block :
      (p n : ℕ)
      → from ≤ p
      → p < n
      → card p ≡ token
      → Gives card from token size
          (record { ok = false; written = some (block_behind card size p) })
          n
  good_block :
      (p n : ℕ)
      → from ≤ p
      → p < n
      → card p ≡ token
      → card (suc p + size) ≡ checksum_of (block_behind card size p) / 256
      → card (suc (suc p + size)) ≡ checksum_of (block_behind card size p) % 256
      → Gives card from token size
          (record { ok = true; written = some (block_behind card size p) })
          n

pub length-shifted_out : (card : ℕ → ℕ) (n at : ℕ) → length (shifted_out card n at) ≡ n
unfolding shifted_out
length-shifted_out card zero at = refl
length-shifted_out card (suc n) at = omega (arith, length-shifted_out card n (suc at))

crc_of_block :
    (card : ℕ → ℕ) (size p : ℕ)
    → crc16 (block_behind card size p) size 0 crc16_poly_ccitt
      ≡ some (checksum_of (block_behind card size p))
crc_of_block card size p =
    let block = block_behind card size p in
    let whole = length-shifted_out card size (suc p) in
    rw (append-nil block, whole) at (crc16-crc_of block [] 0 crc16_poly_ccitt)

and_parts : (a b : Bool) → (a && b ≡ true) → (a ≡ true) × (b ≡ true)
and_parts true true e = (refl, refl)
and_parts true false e = absurd cc
and_parts false b e = absurd cc

-- What is left of a read behind its token.
data_lem :
    (from size p token : ℕ) (s : Sdcard)
    → from ≤ p
    → s.card p ≡ token
    → (r : BlockRead) × (read_data size (on_bus (suc p) s) ≡ (some r, on_bus (suc p + size + 2) s))
      × Gives s.card from token size r (suc p + size + 2)
unfolding read_data crc_matches shifted_out
data_lem from size p token s le at_p =
    let crc = crc_of_block s.card size p in
    let c = checksum_of (block_behind s.card size p) in
    elim (Bool-cases
      ((s.card (suc p + size) == c / 256) && (s.card (suc (suc p + size)) == c % 256))) [
        | inl z ↦
            let (hi, lo) =
              and_parts (s.card (suc p + size) == c / 256) (s.card (suc (suc p + size)) == c % 256)
                z in
            (
              record { ok = true; written = some (block_behind s.card size p) },
              rw (crc, z) refl,
              good_block p (suc p + size + 2) le (omega arith) at_p (==→eq _ (c / 256) hi)
                  (==→eq _ (c % 256) lo),
            )
        | inr z ↦ (
          record { ok = false; written = some (block_behind s.card size p) },
          rw (crc, z) refl,
          bad_block p (suc p + size + 2) le (omega arith) at_p,
        )
      ]

-- What is sent by then: the command, or nothing.
abbrev pub SentBy : Bytes → Sdcard → List Bytes → Type 0
SentBy frame s sent = (sent ≡ s.sent) ⊎ (sent ≡ frame ∷ s.sent)

-- The outcome of a read before the card is deselected.
abbrev pub Selected : ℕ → ℕ → ℕ → ℕ → Sdcard → Type 0
Selected command arg token size s =
    (o : Option BlockRead) × (n : ℕ) × (sent : List Bytes) × (read_selected command arg token size s
      ≡ (o, record s { bus_at = n; sent = sent }))
    × (((o ≡ none) × SentBy (command_frame command arg) s sent × (s.bus_at ≤ n))
        ⊎ ((r : BlockRead) × (o ≡ some r)
            × (sent ≡ command_frame command arg ∷ s.sent)
            × Gives s.card s.bus_at token size r n))

pub read_selected_lem :
    (command arg token size : ℕ) (s : Sdcard) → Selected command arg token size s
unfolding read_selected
read_selected_lem command arg token size s =
    let (n, le, sends) = send_command_lem command arg s in
    let frame = command_frame command arg in
    elim sends [
      | inl e ↦ (none, n, s.sent, rw e refl, inl (refl, inl refl, le))
      | inr e ↦
          let (p, run, le') = read_r1_lem (behind n frame s) in
          elim (Bool-cases (s.card p == 0)) [
            | inr z ↦ (
              none,
              suc p,
              frame ∷ s.sent,
              rw (e, run, z) refl,
              inl (refl, inr refl, omega (arith, le, le')),
            )
            | inl z ↦
                let (q, run', le'') = wait_token_lem (behind (suc p) frame s) in
                elim (Bool-cases (s.card q == token)) [
                  | inr z' ↦ (
                    none,
                    suc q,
                    frame ∷ s.sent,
                    rw (e, run, z, run', z') refl,
                    inl (refl, inr refl, omega (arith, le, le', le'')),
                  )
                  | inl z' ↦
                      let (r, run'', gives) =
                        data_lem s.bus_at size q token (behind (suc q) frame s)
                          (omega (arith, le, le', le'')) (==→eq (s.card q) token z') in
                      (
                        some r,
                        suc q + size + 2,
                        frame ∷ s.sent,
                        rw (e, run, z, run', z') run'',
                        inr (r, refl, refl, gives),
                      )
                ]
          ]
    ]
