-- ===== src/Sdcard/Blocks.antt =====
-- What `sdcard_read_block` comes to, and responses with a word.
use nodeflight_fw.Base.{
  ℕ, suc, ◌+◌, ◌<◌, true, false, none, some, List, ◌∷◌, ◌==◌, ◌≡◌, refl, ◌⊎◌, inl, inr, Bool-cases,
  Bytes, bit_and, arith,
}
use nodeflight_fw.Sdcard.{
  Sdcard, BlockRead, set_value, shifted_out, word_of, sdcard_read_block, sdcard_read_r3,
  command_frame,
}
use nodeflight_fw.Sdcard.Reads.{on_bus, SentBy, Gives, no_block, read_selected_lem, read_r1_lem}

-- The state behind a read of a block.
abbrev pub after_block : ℕ → List Bytes → Sdcard → Sdcard
after_block n sent s = record s { bus_at = n; deselected = true; sent = sent }

-- `sdcard_read_block` always ends, with the card deselected and nothing else of it changed but the
-- place on the bus and what was sent: its command, or nothing where the card stays busy. It gives no
-- block; a block that stands behind the token, and an error; or, with the command sent, the block behind
-- the token, whose 16-bit checksum stands behind it.
pub read_block_lem :
    (command arg token size : ℕ) (s : Sdcard)
    → (r : BlockRead) × (n : ℕ) × (sent : List Bytes) × (sdcard_read_block command arg token size s
        ≡ (r, after_block n sent s))
      × Gives s.card s.bus_at token size r n
      × (((r.ok ≡ false) × SentBy (command_frame command arg) s sent)
          ⊎ (sent ≡ command_frame command arg ∷ s.sent))
unfolding sdcard_read_block
read_block_lem command arg token size s =
    let (o, n, sent, run, ends) = read_selected_lem command arg token size (set_value false s) in
    elim ends [
      | inl (e, by, le) ↦ (
        record { ok = false; written = none },
        n,
        sent,
        rw (run, e) refl,
        no_block n le,
        inl (refl, by),
      )
      | inr (r, e, by, gives) ↦ (r, n, sent, rw (run, e) refl, gives, inr by)
    ]

pub read_r3_lem :
    (s : Sdcard)
    → (r : ℕ × ℕ) × (n : ℕ) × (sdcard_read_r3 s ≡ (some r, on_bus n s)) × (s.bus_at < n)
unfolding sdcard_read_r3
read_r3_lem s =
    let (p, run, le) = read_r1_lem s in
    elim (Bool-cases (bit_and (s.card p) 0x80 == 0)) [
      | inl z ↦ (
        (s.card p, word_of (shifted_out s.card 4 (suc p))),
        suc p + 4,
        rw (run, z) refl,
        omega (arith, le),
      )
      | inr z ↦ ((s.card p, 0), suc p, rw (run, z) refl, omega (arith, le))
    ]
