-- ===== src/Sdcard/Tests.antt =====
-- The theorems on memory cards at a card that answers, and a run of its initialization.
use nodeflight_fw.Base.{
  ◌+◌, ◌⊎◌, ℕ, true, false, Option, none, some, [], ◌∷◌, ◌++◌, ◌==◌, ◌≡◌, refl, Bytes, length,
  replicate, length-replicate, get_elem?, get_elem?-ge, if◌then◌else◌, arith, ℤ, pos,
}
use nodeflight_fw.Sdcard.{
  Sdcard, timeout_iterations, sdcard_crc7, crc7_loop, crc7_bits, crc7_bit, command_frame,
  shifted_out, receive_while, sdcard_wait_token, wait_ready, sdcard_send_command, sdcard_read_r1,
  word_of, sdcard_read_r3, crc_matches, read_data, read_selected, sdcard_read_block,
}
use nodeflight_fw.Sdcard.Startup.{
  reset_card, negotiate_once, after_round, negotiate, read_ocr, read_csd, read_cid, byte_is,
  check_csd, check_cid, identify, finish_init, after_reset, after_negotiation, sdcard_init_card,
}
use nodeflight_fw.Sdcard.Jobs.{DiskCodes, read, initialize, status, Outcome, run_job}
use nodeflight_fw.Sdcard.Identified.{Initializes}
use nodeflight_fw.Sdcard.Removed.{Silent, Initialized, initialize_ends, removed-available}
use nodeflight_fw.Sdcard.Returns.{AnswersFrom, init_card_returns}
use nodeflight_fw.Sdcard.Transfer.{Transfers, run_job-read}
use nodeflight_fw.Crc.{crc16, crc_loop, crc_byte, crc_bits, crc_bit}

-- The frames that the SD specification gives for the reset and for the question of the voltage.
reset_frame : command_frame 0 0 ≡ 0x40 ∷ 0 ∷ 0 ∷ 0 ∷ 0 ∷ 0x95 ∷ []
unfolding command_frame sdcard_crc7 crc7_loop crc7_bits crc7_bit
reset_frame = refl

voltage_frame : command_frame 8 0x1aa ≡ 0x48 ∷ 0 ∷ 0 ∷ 1 ∷ 0xaa ∷ 0x87 ∷ []
unfolding command_frame sdcard_crc7 crc7_loop crc7_bits crc7_bit
voltage_frame = refl

abbrev codes : DiskCodes
codes = record { sta_nodisk = 2; res_ok = 0; res_error = 1; res_notrdy = 3 }

abbrev or_idle : Option ℕ → ℕ
or_idle none = 255
or_idle (some c) = c

-- What a card of high capacity sends while it is initialized.
abbrev answers : Bytes
answers =
    255 ∷ 255 ∷ 255 ∷ 255 ∷ 255 ∷ 255 ∷ 255 ∷ 255 ∷ 255 ∷ 255 ∷ 255 ∷ 255 ∷ 255 ∷ 255 ∷ 255 ∷ 255
    ∷ 255 ∷ 255 ∷ 255 ∷ 255 ∷ 255 ∷ 255 ∷ 1 ∷ 255 ∷ 255 ∷ 255 ∷ 255 ∷ 255 ∷ 255 ∷ 255 ∷ 1 ∷ 0 ∷ 0
    ∷ 1 ∷ 170 ∷ 255 ∷ 255 ∷ 255 ∷ 255 ∷ 255 ∷ 255 ∷ 255 ∷ 1 ∷ 255 ∷ 255 ∷ 255 ∷ 255 ∷ 255 ∷ 255
    ∷ 255 ∷ 0 ∷ 255 ∷ 255 ∷ 255 ∷ 255 ∷ 255 ∷ 255 ∷ 255 ∷ 0 ∷ 64 ∷ 0 ∷ 0 ∷ 0 ∷ 255 ∷ 255 ∷ 255 ∷ 255
    ∷ 255 ∷ 255 ∷ 255 ∷ 0 ∷ 254 ∷ 64 ∷ 0 ∷ 0 ∷ 0 ∷ 0 ∷ 0 ∷ 0 ∷ 0 ∷ 0 ∷ 0 ∷ 0 ∷ 0 ∷ 0 ∷ 0 ∷ 0 ∷ 0
    ∷ 140 ∷ 40 ∷ 255 ∷ 255 ∷ 255 ∷ 255 ∷ 255 ∷ 255 ∷ 255 ∷ 0 ∷ 254 ∷ 0 ∷ 0 ∷ 0 ∷ 0 ∷ 0 ∷ 0 ∷ 0 ∷ 0
    ∷ 0 ∷ 0 ∷ 0 ∷ 0 ∷ 0 ∷ 0 ∷ 0 ∷ 1 ∷ 16 ∷ 33 ∷ []

abbrev answering : ℕ → ℕ
answering q = or_idle (get_elem? answers q)

answering-Silent : Silent (length answers) answering
answering-Silent q le = rw (get_elem?-ge answers q le) refl

abbrev fresh : Sdcard
fresh = record {
  card = answering;
  bus_at = 0;
  deselected = true;
  running = false;
  sent = [];
  card_available = false;
  reg_ocr = 0;
  reg_csd = replicate 16 0;
  reg_cid = replicate 16 0;
}

abbrev returns : Option (ℤ × Sdcard) → Option ℤ
returns none = none
returns (some r) = some r.0

-- It is identified in the first round of the negotiation.
answering_run : returns (sdcard_init_card 1 fresh) ≡ some (pos 0)
unfolding sdcard_init_card after_negotiation after_reset negotiate after_round negotiate_once
    reset_card identify finish_init read_ocr read_csd read_cid check_csd check_cid byte_is
    sdcard_crc7 crc7_loop crc7_bits crc7_bit sdcard_send_command sdcard_read_r1 sdcard_read_r3
    receive_while wait_ready sdcard_wait_token shifted_out word_of sdcard_read_block read_selected
    read_data crc_matches crc16 crc_loop command_frame timeout_iterations crc_byte crc_bits crc_bit
answering_run = refl

init_card_returns_example :
    ((sdcard_init_card 118 fresh ≡ none) × AnswersFrom (0 + 117) answering)
    ⊎ ((r : ℤ × Sdcard) × (sdcard_init_card 118 fresh ≡ some r) × Initializes fresh r)
init_card_returns_example = init_card_returns 117 fresh

initialize_ends_example :
    (o : Outcome) × (run_job codes 118 initialize fresh ≡ some o) × Initialized fresh o
initialize_ends_example =
    initialize_ends codes 118 (length answers) fresh answering-Silent (omega arith)

-- The card after it is taken out.
abbrev taken : Sdcard
taken = record fresh { bus_at = length answers; card_available = true }

removed-available_example :
    (o : Outcome) × (run_job codes 1 initialize taken ≡ some o)
    × (o.result ≡ 1)
    × (run_job codes 1 status o.sdc ≡ some (record { result = 0; buff = []; sdc = o.sdc }))
removed-available_example = removed-available codes 1 taken refl answering-Silent

-- A card that sends a block of zeros, whose checksum is 0, as the next sector.
abbrev zeros : ℕ → ℕ
zeros q = if q == 0 then 255 else (if q == 8 then 0xfe else 0)

abbrev ready : Sdcard
ready = record fresh { card = zeros; card_available = true }

run_job-read_example :
    (new : Bytes) × (o : Outcome) × (run_job codes 1 (read (replicate 512 7 ++ 9 ∷ []) 40 1) ready
      ≡ some o)
    × (o.buff ≡ new ++ 9 ∷ [])
    × (length new ≡ length {A = ℕ} (replicate 512 7))
    × Transfers codes zeros 40 0 1 0 [] new o.result o.sdc.sent
run_job-read_example =
    run_job-read codes 1 40 1 (replicate 512 7) (9 ∷ []) ready refl (length-replicate {A = ℕ} 512 7)
