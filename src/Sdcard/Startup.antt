-- ===== src/Sdcard/Startup.antt =====
-- src/module/mgmt/sdcard.c: the start of a card.
use nodeflight_fw.Base.{
  ℕ, zero, suc, Bool, true, false, not, ◌&&◌, ◌||◌, Option, none, some, ◌==◌, if◌then◌else◌, Bytes,
  bit_and, take, get_elem?, replicate, ℤ, pos, minus_one,
}
use nodeflight_fw.Sdcard.{
  Sdcard, Step, ◌>>=◌, ◌>>◌, pure, expect, set_value, clock, sdcard_send_command, sdcard_read_r1,
  sdcard_read_r3, sdcard_read_block, sdcard_crc7,
}

abbrev pub sdcard_spi_configure_startup : Sdcard → Sdcard
sdcard_spi_configure_startup s = record s { running = false }

abbrev pub sdcard_spi_configure_running : Sdcard → Sdcard
sdcard_spi_configure_running s = record s { running = true }

-- The reset, and the question for the voltage.
unfoldable pub reset_card : Step (Unit {0})
reset_card = do
  sdcard_send_command 0 0
  r1 ← sdcard_read_r1
  expect (r1 == 1)
  sdcard_send_command 8 0x1aa
  r ← sdcard_read_r3
  expect (r.0 == 1 && bit_and r.1 0x1ff == 0x1aa)

-- One round of the negotiation: the last response.
unfoldable pub negotiate_once : Step ℕ
negotiate_once = do
  sdcard_send_command 55 0
  r1 ← sdcard_read_r1
  expect (r1 == 1)
  sdcard_send_command 41 0x40000000
  r1' ← sdcard_read_r1
  expect (r1' == 1 || r1' == 0)
  pure r1'

-- What an end of the loop below gives; the outer `none` is that its fuel is used up.
abbrev pub LoopEnd : Type 0
LoopEnd = Option (Option (Unit {0}) × Sdcard)

-- After a round: an error, the end, or another round.
unfoldable pub after_round : Option ℕ × Sdcard → (Sdcard → LoopEnd) → LoopEnd
after_round (none, s) again = some (none, s)
after_round (some r1, s) again = if r1 == 0 then some (some tt, s) else again s

-- The loop `do ... while (r1 != 0x00)`, on fuel.
unfoldable pub negotiate : ℕ → Sdcard → LoopEnd
unfolding after_round
negotiate zero s = none
negotiate (suc fuel) s = after_round (negotiate_once s) (negotiate fuel)

-- OCR, which is stored whatever the response is.
unfoldable pub read_ocr : Step (Unit {0})
read_ocr = do
  sdcard_send_command 58 0
  r ← sdcard_read_r3
  (λ s. (some tt, record s { reg_ocr = r.1 }))
  expect (r.0 == 0)

-- A block that is written to a register, and whether it was read.
abbrev pub written_to : Bytes → Option Bytes → Bytes
written_to reg none = reg
written_to reg (some bytes) = bytes

unfoldable pub read_csd : Step (Unit {0})
read_csd s =
    let r = sdcard_read_block 9 0 0xfe 16 s in
    expect r.0.ok (record r.1 { reg_csd = written_to s.reg_csd r.0.written })

unfoldable pub read_cid : Step (Unit {0})
read_cid s =
    let r = sdcard_read_block 10 0 0xfe 16 s in
    expect r.0.ok (record r.1 { reg_cid = written_to s.reg_cid r.0.written })

-- `get_elem?` out of a register is a fault; here it fails the test.
unfoldable pub byte_is : Option ℕ → (ℕ → Bool) → Bool
byte_is none test = false
byte_is (some c) test = test c

-- A card of high capacity, and version 2 of its CSD.
unfoldable pub check_csd : Step (Unit {0})
unfolding byte_is
check_csd s =
    expect
      (not (bit_and s.reg_ocr 0x40000000 == 0)
        && byte_is (get_elem? s.reg_csd 0) (λ c. bit_and c 0xc0 == 0x40))
      s

unfoldable pub check_cid : Step (Unit {0})
unfolding byte_is sdcard_crc7
check_cid s =
    expect (byte_is (get_elem? s.reg_cid 15) (λ c. sdcard_crc7 (take 15 s.reg_cid) == c)) s

-- What follows the negotiation.
unfoldable pub identify : Step (Unit {0})
identify = do
  read_ocr
  (λ s. (some tt, set_value true s))
  read_csd
  check_csd
  read_cid
  check_cid
  (λ s. (some tt, record s { card_available = true }))

-- The returns of `sdcard_init_card`.
unfoldable pub finish_init : Option (Unit {0}) × Sdcard → ℤ × Sdcard
finish_init (none, s) = (minus_one, set_value true s)
finish_init (some u, s) = (pos 0, s)

unfoldable pub after_reset : ℕ → Option (Unit {0}) × Sdcard → LoopEnd
unfolding negotiate
after_reset fuel (none, s) = some (none, s)
after_reset fuel (some u, s) = negotiate fuel s

unfoldable pub after_negotiation : LoopEnd → Option (ℤ × Sdcard)
after_negotiation none = none
after_negotiation (some (none, s)) = some (finish_init (none, s))
after_negotiation (some (some u, s)) = some (finish_init (identify s))

-- `none` is that the negotiation runs on after `fuel` rounds.
unfoldable pub sdcard_init_card : ℕ → Sdcard → Option (ℤ × Sdcard)
sdcard_init_card fuel s =
    after_negotiation
      (after_reset fuel (reset_card (set_value false (clock 16 (set_value true s)))))

-- It is not called.
unfoldable pub sdcard_disconnect : Sdcard → Sdcard
sdcard_disconnect s = record s {
  card_available = false;
  reg_ocr = 0;
  reg_csd = replicate 16 0;
  reg_cid = replicate 16 0;
}
