-- ===== src/Sdcard.antt =====
-- src/module/mgmt/sdcard.c: a memory card on an SPI bus. The card is the stream of the bytes that it
-- shifts out; each byte on the bus, sent or received, takes one.
pub mod Reads
pub mod Blocks
pub mod Startup
pub mod Negotiation
pub mod Identified
pub mod Jobs
pub mod Returns
pub mod Removed
pub mod Transfer
mod Tests
use nodeflight_fw.Base.{
  ℕ, zero, suc, ◌+◌, ◌*◌, ◌/◌, ◌%◌, ◌^◌, ◌++◌, Bool, true, false, not, ◌&&◌, Option, none, some,
  List, [], ◌∷◌, ◌==◌, if◌then◌else◌, Bytes, length, bit_and, bit_or, bit_xor, u8,
}
use nodeflight_fw.Crc.{crc16, crc16_poly_ccitt}

unfoldable pub timeout_iterations : ℕ
timeout_iterations = 50000

-- `struct sdcard_s`, with its bus: `bus_at` counts the bytes on it, `deselected` is the level of the
-- chip select, `running` whether the bus is at its running rate, and `sent` has what was sent, the
-- latest first.
pub record Sdcard : Type 0 where
  pub card : ℕ → ℕ
  pub bus_at : ℕ
  pub deselected : Bool
  pub running : Bool
  pub sent : List Bytes
  pub card_available : Bool
  pub reg_ocr : ℕ
  pub reg_csd : Bytes
  pub reg_cid : Bytes

-- One bit in the loop of `sdcard_crc7`; the register has 16 bits.
unfoldable pub crc7_bit : ℕ → ℕ
crc7_bit crc =
    let mixed = if bit_and crc 0x80 == 0 then crc else bit_xor crc 0x89 in mixed * 2 % 65536

unfoldable pub crc7_bits : ℕ → ℕ → ℕ
unfolding crc7_bit
crc7_bits zero crc = crc
crc7_bits (suc left) crc = crc7_bits left (crc7_bit crc)

unfoldable pub crc7_loop : ℕ → Bytes → ℕ
unfolding crc7_bits
crc7_loop crc [] = crc
crc7_loop crc (c ∷ bytes) = crc7_loop (crc7_bits 8 (bit_xor crc c)) bytes

unfoldable pub sdcard_crc7 : Bytes → ℕ
unfolding crc7_loop
sdcard_crc7 bytes = u8 (bit_or (crc7_loop 0 bytes) 1)

-- An action that may fail, and then goes to the label `error`.
abbrev pub Step : Type 0 → Type 0
Step A = Sdcard → Option A × Sdcard

abbrev pub continue : {A B : Type 0} → Option A × Sdcard → (A → Step B) → Option B × Sdcard
continue (none, s) f = (none, s)
continue (some a, s) f = f a s

infixl 5 ◌>>=◌ ◌>>◌
abbrev pub ◌>>=◌ : {A B : Type 0} → Step A → (A → Step B) → Step B
◌>>=◌ m f s = continue (m s) f

abbrev pub ◌>>◌ : {A B : Type 0} → Step A → Step B → Step B
m >> k = m >>= λ _. k

abbrev pub pure : {A : Type 0} → A → Step A
pure a s = (some a, s)

-- `if (!...) goto error`.
abbrev pub expect : Bool → Step (Unit {0})
expect true s = (some tt, s)
expect false s = (none, s)

abbrev pub set_value : Bool → Sdcard → Sdcard
set_value level s = record s { deselected = level }

-- A transfer that looks at no byte.
abbrev pub clock : ℕ → Sdcard → Sdcard
clock n s = record s { bus_at = s.bus_at + n }

abbrev pub spi_transmit : Bytes → Sdcard → Sdcard
spi_transmit bytes s = record s { bus_at = s.bus_at + length bytes; sent = bytes ∷ s.sent }

-- The bytes of the card from a place on.
unfoldable pub shifted_out : (ℕ → ℕ) → ℕ → ℕ → Bytes
shifted_out card zero at = []
shifted_out card (suc n) at = card at ∷ shifted_out card n (suc at)

abbrev pub spi_receive : ℕ → Step Bytes
spi_receive n s = (some (shifted_out s.card n s.bus_at), clock n s)

-- The loops `do { receive one byte } while (... && time_left--)`.
unfoldable pub receive_while : (ℕ → Bool) → ℕ → Sdcard → ℕ × Sdcard
receive_while test zero s = (s.card s.bus_at, clock 1 s)
receive_while test (suc time_left) s =
    let rest = receive_while test time_left (clock 1 s) in
    if test (s.card s.bus_at) then rest else (s.card s.bus_at, clock 1 s)

abbrev pub returned : {A : Type 0} → A × Sdcard → Option A × Sdcard
returned (a, s) = (some a, s)

unfoldable pub sdcard_wait_token : Step ℕ
sdcard_wait_token s = returned (receive_while (λ rx. rx == 0xff) timeout_iterations s)

-- The loop until the card is not busy, with whether it ended so.
unfoldable pub wait_ready : ℕ → Sdcard → Option (Unit {0}) × Sdcard
wait_ready zero s = (none, clock 1 s)
wait_ready (suc time_left) s =
    let rest = wait_ready time_left (clock 1 s) in
    if s.card s.bus_at == 0xff then (some tt, clock 1 s) else rest

-- The six bytes of a command.
unfoldable pub command_frame : ℕ → ℕ → Bytes
unfolding sdcard_crc7
command_frame command arg =
    let head =
      bit_or 0x40 command
      ∷ arg / 2 ^ 24 % 256
      ∷ arg / 2 ^ 16 % 256
      ∷ arg / 2 ^ 8 % 256
      ∷ arg % 256
      ∷ [] in
    head ++ sdcard_crc7 head ∷ []

unfoldable pub sdcard_send_command : ℕ → ℕ → Step (Unit {0})
sdcard_send_command command arg =
    (λ s. if command == 0 then (some tt, s) else wait_ready timeout_iterations s)
    >> (λ s. (some tt, spi_transmit (command_frame command arg) s))

unfoldable pub sdcard_read_r1 : Step ℕ
sdcard_read_r1 s = returned (receive_while (λ r1. not (bit_and r1 0x80 == 0)) timeout_iterations s)

-- A word in the order that the card sends it.
unfoldable pub word_of : Bytes → ℕ
word_of [] = 0
word_of (c ∷ bytes) = c * 256 ^ length bytes + word_of bytes

-- The response and the word behind it, which is 0 where there is no response.
unfoldable pub sdcard_read_r3 : Step (ℕ × ℕ)
sdcard_read_r3 = sdcard_read_r1 >>= λ r1.
    if bit_and r1 0x80 == 0 then (spi_receive 4 >>= λ buf. pure (r1, word_of buf)) else pure (r1, 0)

-- What `sdcard_read_block` returns, with what it wrote to `dst`.
pub record BlockRead : Type 0 where
  pub ok : Bool
  pub written : Option Bytes

-- `exp_crc` against the two bytes behind the block.
unfoldable pub crc_matches : Option ℕ → Bytes → Bool
crc_matches none crc = false
crc_matches (some exp_crc) [] = false
crc_matches (some exp_crc) (hi ∷ []) = false
crc_matches (some exp_crc) (hi ∷ lo ∷ rest) = (hi == exp_crc / 256) && (lo == exp_crc % 256)

unfoldable pub read_data : ℕ → Step BlockRead
unfolding shifted_out crc_matches
read_data size = do
  dst ← spi_receive size
  crc ← spi_receive 2
  pure (record { ok = crc_matches (crc16 dst size 0 crc16_poly_ccitt) crc; written = some dst })

unfoldable pub read_selected : ℕ → ℕ → ℕ → ℕ → Step BlockRead
read_selected command arg data_token size = do
  sdcard_send_command command arg
  r1 ← sdcard_read_r1
  expect (r1 == 0)
  token ← sdcard_wait_token
  expect (token == data_token)
  read_data size

abbrev pub deselect_read : Option BlockRead × Sdcard → BlockRead × Sdcard
deselect_read (none, s) = (record { ok = false; written = none }, set_value true s)
deselect_read (some r, s) = (r, set_value true s)

unfoldable pub sdcard_read_block : ℕ → ℕ → ℕ → ℕ → Sdcard → BlockRead × Sdcard
sdcard_read_block command arg data_token size s =
    deselect_read (read_selected command arg data_token size (set_value false s))
