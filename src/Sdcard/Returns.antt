-- ===== src/Sdcard/Returns.antt =====
-- When `sdcard_init_card` returns, and what it leaves.
use nodeflight_fw.Base.{
  ℕ, zero, suc, ◌+◌, ◌≤◌, ◌<◌, Option, none, some, List, ◌==◌, ◌≡◌, refl, sym, ◌∙◌, ◌⊎◌, inl, inr,
  Bool-cases, Option-cases, Bytes, ℤ, arith,
}
use nodeflight_fw.Sdcard.{Sdcard}
use nodeflight_fw.Sdcard.Startup.{
  negotiate_once, after_round, negotiate, after_reset, after_negotiation, sdcard_init_card,
}
use nodeflight_fw.Sdcard.Negotiation.{moved, reset_lem, once_lem}
use nodeflight_fw.Sdcard.Identified.{Initializes, started, after_negotiation-Initializes}

none-ne-some : {A : Type 0} {a : A} → none ≡ some a → ⊥
none-ne-some p = cc

-- A byte 1 that the card sends at a place on the bus or later.
abbrev pub AnswersFrom : ℕ → (ℕ → ℕ) → Type 0
AnswersFrom at card = (p : ℕ) × (at ≤ p) × (card p ≡ 1)

-- The negotiation, or its rounds are used up behind a late response 1.
abbrev Negotiates : ℕ → Sdcard → Option (Option (Unit {0}) × Sdcard) → Type 0
Negotiates fuel s r =
    ((r ≡ none) × AnswersFrom (s.bus_at + fuel) s.card)
    ⊎ ((o : Option (Unit {0})) × (n : ℕ) × (sent : List Bytes) × (r ≡ some (o, moved n sent s)))

round_lem :
    (fuel : ℕ) (s : Sdcard) (again : Sdcard → Option (Option (Unit {0}) × Sdcard))
    → ((n : ℕ) (sent : List Bytes)
        → s.bus_at < n
        → AnswersFrom s.bus_at s.card
        → Negotiates fuel s (again (moved n sent s)))
    → Negotiates fuel s (after_round (negotiate_once s) again)
unfolding after_round
round_lem fuel s again next =
    let (o, n, sent, run, le, answer) = once_lem s in
    elim (Option-cases o) [
      | inl z ↦ inr (none, n, sent, rw (run, z) refl)
      | inr (r1, z) ↦ elim (Bool-cases (r1 == 0)) [
        | inl y ↦ inr (some tt, n, sent, rw (run, z, y) refl)
        | inr y ↦ elim answer [
          | inl f ↦ absurd (none-ne-some (sym f ∙ z))
          | inr (p, from, to, at_p) ↦
              rw (run, z, y) (next n sent (omega (arith, from, to)) (p, from, at_p))
        ]
      ]
    ]

negotiate-Negotiates : (fuel : ℕ) (s : Sdcard) → Negotiates fuel s (negotiate (suc fuel) s)
unfolding negotiate
negotiate-Negotiates zero s =
    round_lem zero s (negotiate zero)
      (λ n sent lt late. inl (refl, (late.0, omega (arith, late.1), late.2)))
negotiate-Negotiates (suc fuel) s = round_lem (suc fuel) s (negotiate (suc fuel)) (λ n sent lt late.
    elim (negotiate-Negotiates fuel (moved n sent s)) [
      | inl (e, (p, from, at_p)) ↦ inl (e, (p, omega (arith, from, lt), at_p))
      | inr (o, n', sent', e) ↦ inr (o, n', sent', e)
    ])

-- `sdcard_init_card` deselects the card and returns -1 and leaves `card_available` as it was, or
-- returns 0 with a card of high capacity, whose CSD is of version 2, whose CID has its checksum, and
-- that is available. It goes on past any number of rounds of its negotiation only with a card that
-- sends a byte 1 at least as many bytes on the bus later.
pub init_card_returns :
    (fuel : ℕ) (s : Sdcard)
    → ((sdcard_init_card (suc fuel) s ≡ none) × AnswersFrom (s.bus_at + fuel) s.card)
      ⊎ ((r : ℤ × Sdcard) × (sdcard_init_card (suc fuel) s ≡ some r) × Initializes s r)
unfolding sdcard_init_card after_reset after_negotiation
init_card_returns fuel s =
    let (o, n, sent, run, le, answer) = reset_lem (started s) in
    let s1 = moved n sent (started s) in
    elim (Option-cases o) [
      | inl z ↦
          let (r, run', is) = after_negotiation-Initializes (started s) none n sent in
          inr (r, rw (run, z) run', is)
      | inr (u, z) ↦ elim (negotiate-Negotiates fuel s1) [
        | inl (e, (p, from, at_p)) ↦ inl (rw (run, z, e) refl, (p, omega (arith, from, le), at_p))
        | inr (o2, n2, sent2, e) ↦
            let (r, run', is) = after_negotiation-Initializes (started s) o2 n2 sent2 in
            inr (r, rw (run, z, e) run', is)
      ]
    ]
