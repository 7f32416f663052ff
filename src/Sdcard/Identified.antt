-- ===== src/Sdcard/Identified.antt =====
-- What `sdcard_init_card` leaves behind the negotiation.
use nodeflight_fw.Base.{
  ℕ, Bool, true, false, not, ◌&&◌, Option, none, some, List, ◌==◌, ◌≡◌, refl, ◌∙◌, ◌⊎◌, inl, inr,
  Bool-cases, Option-cases, Bytes, bit_and, get_elem?, take, ℤ, pos, minus_one,
}
use nodeflight_fw.Sdcard.{Sdcard, set_value, clock, command_frame, sdcard_crc7}
use nodeflight_fw.Sdcard.Startup.{
  read_ocr, written_to, read_csd, read_cid, byte_is, check_csd, check_cid, identify, finish_init,
  after_negotiation,
}
use nodeflight_fw.Sdcard.Reads.{behind, send_command_lem}
use nodeflight_fw.Sdcard.Negotiation.{moved}
use nodeflight_fw.Sdcard.Blocks.{read_block_lem, read_r3_lem}

some_injective : {A : Type 0} {a b : A} → some a ≡ some b → a ≡ b
some_injective p = cc

-- What `identify` leaves where it succeeds.
pub record IsIdentified (s : Sdcard) : Type 0 where
  pub available : s.card_available ≡ true
  pub deselected : s.deselected ≡ true
  pub high_capacity : (bit_and s.reg_ocr 0x40000000 == 0) ≡ false
  pub version_two : byte_is (get_elem? s.reg_csd 0) (λ c. bit_and c 0xc0 == 0x40) ≡ true
  pub cid_checked :
      byte_is (get_elem? s.reg_cid 15) (λ c. sdcard_crc7 (take 15 s.reg_cid) == c) ≡ true

-- `read_ocr` stores OCR.
ocr_lem :
    (s : Sdcard)
    → (o : Option (Unit {0})) × (n ocr : ℕ) × (sent : List Bytes) × (read_ocr s
        ≡ (o, record s { bus_at = n; sent = sent; reg_ocr = ocr }))
unfolding read_ocr
ocr_lem s =
    let (n, le, sends) = send_command_lem 58 0 s in
    elim sends [
      | inl e ↦ (none, n, s.reg_ocr, s.sent, rw e refl)
      | inr e ↦
          let s1 = behind n (command_frame 58 0) s in
          let (r, q, run, lt) = read_r3_lem s1 in
          elim (Bool-cases (r.0 == 0)) [
            | inr z ↦ (none, q, r.1, s1.sent, rw (e, run, z) refl)
            | inl z ↦ (some tt, q, r.1, s1.sent, rw (e, run, z) refl)
          ]
    ]

csd_lem :
    (s : Sdcard)
    → (o : Option (Unit {0})) × (n : ℕ) × (sent : List Bytes) × (csd : Bytes) × (read_csd s
        ≡ (o, record s { bus_at = n; deselected = true; sent = sent; reg_csd = csd }))
unfolding read_csd
csd_lem s =
    let (r, n, sent, run, gives, by) = read_block_lem 9 0 0xfe 16 s in
    elim (Bool-cases r.ok) [
      | inr z ↦ (none, n, sent, written_to s.reg_csd r.written, rw (run, z) refl)
      | inl z ↦ (some tt, n, sent, written_to s.reg_csd r.written, rw (run, z) refl)
    ]

cid_lem :
    (s : Sdcard)
    → (o : Option (Unit {0})) × (n : ℕ) × (sent : List Bytes) × (cid : Bytes) × (read_cid s
        ≡ (o, record s { bus_at = n; deselected = true; sent = sent; reg_cid = cid }))
unfolding read_cid
cid_lem s =
    let (r, n, sent, run, gives, by) = read_block_lem 10 0 0xfe 16 s in
    elim (Bool-cases r.ok) [
      | inr z ↦ (none, n, sent, written_to s.reg_cid r.written, rw (run, z) refl)
      | inl z ↦ (some tt, n, sent, written_to s.reg_cid r.written, rw (run, z) refl)
    ]

-- An error that leaves the availability of the card alone, or a card that is identified.
abbrev Identifies : Sdcard → Option (Unit {0}) × Sdcard → Type 0
Identifies s r =
    (r.1.card ≡ s.card)
    × (((r.0 ≡ none) × (r.1.card_available ≡ s.card_available))
        ⊎ ((r.0 ≡ some tt) × IsIdentified r.1))

not-true : (b : Bool) → not b ≡ true → b ≡ false
not-true true e = absurd cc
not-true false e = refl

and_parts : (a b : Bool) → (a && b ≡ true) → (a ≡ true) × (b ≡ true)
and_parts true true e = (refl, refl)
and_parts true false e = absurd cc
and_parts false b e = absurd cc

-- The two tests.
abbrev is_supported : Sdcard → Bool
is_supported s =
    not (bit_and s.reg_ocr 0x40000000 == 0)
    && byte_is (get_elem? s.reg_csd 0) (λ c. bit_and c 0xc0 == 0x40)

abbrev is_checked : Sdcard → Bool
is_checked s = byte_is (get_elem? s.reg_cid 15) (λ c. sdcard_crc7 (take 15 s.reg_cid) == c)

identify_lem : (s : Sdcard) → (r : Option (Unit {0}) × Sdcard) × (identify s ≡ r) × Identifies s r
unfolding identify check_csd check_cid
identify_lem s =
    let (o, n, ocr, sent, run) = ocr_lem s in
    let s1 : Sdcard = record s { bus_at = n; sent = sent; reg_ocr = ocr } in
    elim (Option-cases o) [
      | inl e ↦ ((none, s1), rw (run, e) refl, (refl, inl (refl, refl)))
      | inr (u, e) ↦
          let (o2, n2, sent2, csd, run2) = csd_lem (set_value true s1) in
          let s2 : Sdcard = record s1 {
            bus_at = n2;
            deselected = true;
            sent = sent2;
            reg_csd = csd;
          } in
          elim (Option-cases o2) [
            | inl e2 ↦ ((none, s2), rw (run, e, run2, e2) refl, (refl, inl (refl, refl)))
            | inr (u2, e2) ↦ elim (Bool-cases (is_supported s2)) [
              | inr z ↦ ((none, s2), rw (run, e, run2, e2, z) refl, (refl, inl (refl, refl)))
              | inl z ↦
                  let (o3, n3, sent3, cid, run3) = cid_lem s2 in
                  let s3 : Sdcard = record s2 {
                    bus_at = n3;
                    deselected = true;
                    sent = sent3;
                    reg_cid = cid;
                  } in
                  elim (Option-cases o3) [
                    | inl e3 ↦ (
                      (none, s3),
                      rw (run, e, run2, e2, z, run3, e3) refl,
                      (refl, inl (refl, refl)),
                    )
                    | inr (u3, e3) ↦ elim (Bool-cases (is_checked s3)) [
                      | inr z3 ↦ (
                        (none, s3),
                        rw (run, e, run2, e2, z, run3, e3, z3) refl,
                        (refl, inl (refl, refl)),
                      )
                      | inl z3 ↦
                          let (high, two) = and_parts _ _ z in
                          (
                            (some tt, record s3 { card_available = true }),
                            rw (run, e, run2, e2, z, run3, e3, z3) refl,
                            (
                              refl,
                              inr (
                                refl,
                                record {
                                  available = refl;
                                  deselected = refl;
                                  high_capacity = not-true _ high;
                                  version_two = two;
                                  cid_checked = z3;
                                },
                              ),
                            ),
                          )
                    ]
                  ]
            ]
          ]
    ]

-- What `sdcard_init_card` returns: an error that leaves the availability of the card alone, or 0 and a
-- card that is identified. The card is deselected.
abbrev pub Initializes : Sdcard → ℤ × Sdcard → Type 0
Initializes s r =
    (r.1.deselected ≡ true)
    × (r.1.card ≡ s.card)
    × (((r.0 ≡ minus_one) × (r.1.card_available ≡ s.card_available))
        ⊎ ((r.0 ≡ pos 0) × IsIdentified r.1))

finished :
    (s s1 : Sdcard) (r : Option (Unit {0}) × Sdcard)
    → s1.card ≡ s.card
    → s1.card_available ≡ s.card_available
    → identify s1 ≡ r
    → Identifies s1 r
    → (r' : ℤ × Sdcard) × (some (finish_init (identify s1)) ≡ some r') × Initializes s r'
unfolding finish_init
finished s s1 (none, s2) card same run (at_card, inl (e, kept)) =
    ((minus_one, set_value true s2), rw run refl, (refl, at_card ∙ card, inl (refl, kept ∙ same)))
finished s s1 (some u, s2) card same run (at_card, inl (e, kept)) = absurd cc
finished s s1 (none, s2) card same run (at_card, inr (e, is)) = absurd cc
finished s s1 (some u, s2) card same run (at_card, inr (e, is)) =
    ((pos 0, s2), rw run refl, (is.deselected, at_card ∙ card, inr (refl, is)))

pub after_negotiation-Initializes :
    (s : Sdcard) (o : Option (Unit {0})) (n : ℕ) (sent : List Bytes)
    → (r : ℤ × Sdcard) × (after_negotiation (some (o, moved n sent s)) ≡ some r) × Initializes s r
unfolding after_negotiation finish_init
after_negotiation-Initializes s none n sent =
    ((minus_one, set_value true (moved n sent s)), refl, (refl, refl, inl (refl, refl)))
after_negotiation-Initializes s (some u) n sent =
    let (r, run, ends) = identify_lem (moved n sent s) in
    finished s (moved n sent s) r refl refl run ends

-- The start of a card, as far as the negotiation.
abbrev pub started : Sdcard → Sdcard
started s = set_value false (clock 16 (set_value true s))
