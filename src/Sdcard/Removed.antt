-- ===== src/Sdcard/Removed.antt =====
-- A card that falls silent: every job ends.
use nodeflight_fw.Base.{
  ℕ, zero, suc, ◌-◌, ◌≤◌, ◌<◌, Bool, true, false, Option, none, some, List, [], ◌==◌, ◌≡◌, refl,
  sym, ap, ◌∙◌, subst, ◌⊎◌, inl, inr, if◌then◌else◌, ltb, ltb→lt, ltb→ge, Bool-cases, Option-cases,
  Bytes, arith, ℤ, pos, negsuc, minus_one,
}
use nodeflight_fw.Sdcard.{Sdcard}
use nodeflight_fw.Sdcard.Startup.{
  after_round, negotiate, after_reset, after_negotiation, sdcard_init_card, finish_init,
}
use nodeflight_fw.Sdcard.Negotiation.{moved, reset_lem, once_lem}
use nodeflight_fw.Sdcard.Identified.{
  IsIdentified, Initializes, started, after_negotiation-Initializes,
}
use nodeflight_fw.Sdcard.Jobs.{
  DiskCodes, initialize, status, Outcome, init_retries, try_again, retry_init, run_job,
  at_running_rate,
}

-- From its byte `limit` on the line is at its idle level, as without a card.
abbrev pub Silent : ℕ → (ℕ → ℕ) → Type 0
Silent limit card = (q : ℕ) → limit ≤ q → card q ≡ 255

none-ne-some : {A : Type 0} {a : A} → none ≡ some a → ⊥
none-ne-some p = cc

answered_before : (limit p : ℕ) (card : ℕ → ℕ) → Silent limit card → card p ≡ 1 → p < limit
answered_before limit p card silent at_p = elim (Bool-cases (ltb p limit)) [
  | inl z ↦ ltb→lt p limit z
  | inr z ↦ absurd (omega (arith, at_p, silent p (ltb→ge p limit z)))
]

negotiate_ends :
    (fuel limit : ℕ) (s : Sdcard)
    → Silent limit s.card
    → limit - s.bus_at < fuel
    → (o : Option (Unit {0})) × (n : ℕ) × (sent : List Bytes) × (negotiate fuel s
        ≡ some (o, moved n sent s))
unfolding negotiate after_round
negotiate_ends zero limit s silent room = absurd (omega (arith, room))
negotiate_ends (suc fuel) limit s silent room =
    let (o, n, sent, run, le, answer) = once_lem s in
    elim (Option-cases o) [
      | inl z ↦ (none, n, sent, rw (run, z) refl)
      | inr (r1, z) ↦ elim (Bool-cases (r1 == 0)) [
        | inl y ↦ (some tt, n, sent, rw (run, z, y) refl)
        | inr y ↦ elim answer [
          | inl f ↦ absurd (none-ne-some (sym f ∙ z))
          | inr (p, from, to, at_p) ↦
              let early : p < limit = answered_before limit p s.card silent at_p in
              let (o', n', sent', run') =
                negotiate_ends fuel limit (moved n sent s) silent
                  (omega (arith, room, from, to, early)) in
              (o', n', sent', rw (run, z, y) run')
        ]
      ]
    ]

-- With a card that falls silent, `sdcard_init_card` ends.
pub init_card_ends :
    (fuel limit : ℕ) (s : Sdcard)
    → Silent limit s.card
    → limit < fuel
    → (r : ℤ × Sdcard) × (sdcard_init_card fuel s ≡ some r) × Initializes s r
unfolding sdcard_init_card after_reset
init_card_ends fuel limit s silent room =
    let (o, n, sent, run, le, answer) = reset_lem (started s) in
    let s1 = moved n sent (started s) in
    elim (Option-cases o) [
      | inl z ↦
          let (r, run', is) = after_negotiation-Initializes (started s) none n sent in
          (r, rw (run, z) run', is)
      | inr (u, z) ↦
          let (o2, n2, sent2, run2) = negotiate_ends fuel limit s1 silent (omega (arith, room)) in
          let (r, run', is) = after_negotiation-Initializes (started s) o2 n2 sent2 in
          (r, rw (run, z, run2) run', is)
    ]

-- What the initialization leaves: an identified card and 0, or 1 and the availability that was.
abbrev pub Initialized : Sdcard → Outcome → Type 0
Initialized s o =
    ((o.result ≡ 0) × IsIdentified o.sdc)
    ⊎ ((o.result ≡ 1) × (o.sdc.card_available ≡ s.card_available))

try_again-Initialized :
    (s : Sdcard) (r : ℤ × Sdcard) (again : Sdcard → Option Outcome)
    → Initializes s r
    → ((s' : Sdcard)
        → s'.card ≡ s.card
        → s'.card_available ≡ s.card_available
        → (o : Outcome) × (again s' ≡ some o) × Initialized s o)
    → (o : Outcome) × (try_again r again ≡ some o) × Initialized s o
unfolding try_again
try_again-Initialized s (pos n, s') again (up, card, inl (e, kept)) rest = absurd cc
try_again-Initialized s (pos n, s') again (up, card, inr (e, is)) rest =
    (record { result = 0; buff = []; sdc = s' }, refl, inl (refl, is))
try_again-Initialized s (negsuc n, s') again (up, card, inl (e, kept)) rest = rest s' card kept
try_again-Initialized s (negsuc n, s') again (up, card, inr (e, is)) rest = absurd cc

retry-Initialized :
    (fuel limit retries : ℕ) (s s' : Sdcard)
    → Silent limit s.card
    → limit < fuel
    → s'.card ≡ s.card
    → s'.card_available ≡ s.card_available
    → (o : Outcome) × (retry_init fuel retries s' ≡ some o) × Initialized s o
unfolding retry_init
retry-Initialized fuel limit zero s s' silent room card kept =
    (record { result = 1; buff = []; sdc = s' }, refl, inr (refl, kept))
retry-Initialized fuel limit (suc retries) s s' silent room card kept =
    let (r, run, (up, card', ends)) =
      init_card_ends fuel limit s' (subst (Silent limit) (sym card) silent) room in
    let ends' : ((r.0 ≡ minus_one) × (r.1.card_available ≡ s.card_available))
        ⊎ ((r.0 ≡ pos 0) × IsIdentified r.1) =
      elim ends [ inl (e, same) ↦ inl (e, same ∙ kept) | inr (e, is) ↦ inr (e, is) ] in
    let (o, run', is) =
      try_again-Initialized s r (retry_init fuel retries) (up, card' ∙ card, ends')
        (λ s2 card2 kept2. retry-Initialized fuel limit retries s s2 silent room card2 kept2) in
    (o, rw run run', is)

at_rate : (s : Sdcard) (o : Outcome) → Initialized s o → Initialized s (at_running_rate o)
at_rate s o (inl (e, is)) = inl (
  e,
  record {
    available = is.available;
    deselected = is.deselected;
    high_capacity = is.high_capacity;
    version_two = is.version_two;
    cid_checked = is.cid_checked;
  },
)
at_rate s o (inr (e, kept)) = inr (e, kept)

-- With a card that falls silent at some byte, as one that is taken out, the job of `initialize` ends: no
-- round of the negotiation is made behind that byte. It leaves 0 and a card that is identified, or 1 and
-- `card_available` as it was.
pub initialize_ends :
    (codes : DiskCodes) (fuel limit : ℕ) (s : Sdcard)
    → Silent limit s.card
    → limit < fuel
    → (o : Outcome) × (run_job codes fuel initialize s ≡ some o) × Initialized s o
unfolding run_job
initialize_ends codes fuel limit s silent room =
    let (o, run, ends) =
      retry-Initialized fuel limit init_retries s (record s { running = false }) silent room refl
        refl in
    (at_running_rate o, rw run refl, at_rate s o ends)

-- A card that is silent already.
removed_fails :
    (fuel limit : ℕ) (s : Sdcard)
    → Silent limit s.card
    → limit ≤ s.bus_at
    → (n : ℕ) × (sent : List Bytes) × (sdcard_init_card fuel s
        ≡ some (minus_one, record s { bus_at = n; deselected = true; sent = sent }))
      × (limit ≤ n)
unfolding sdcard_init_card after_reset after_negotiation finish_init
removed_fails fuel limit s silent gone =
    let (o, n, sent, run, le, answer) = reset_lem (started s) in
    elim (Option-cases o) [
      | inl z ↦ (n, sent, rw (run, z) refl, omega (arith, gone, le))
      | inr (u, z) ↦ elim answer [
        | inl f ↦ absurd (none-ne-some (sym f ∙ z))
        | inr (p, from, at_p) ↦
            let early : p < limit = answered_before limit p s.card silent at_p in
            absurd (omega (arith, early, from, gone))
      ]
    ]

removed_retries :
    (fuel limit retries : ℕ) (s : Sdcard)
    → Silent limit s.card
    → limit ≤ s.bus_at
    → (o : Outcome) × (retry_init fuel retries s ≡ some o)
      × (o.result ≡ 1)
      × (o.sdc.card_available ≡ s.card_available)
unfolding retry_init try_again
removed_retries fuel limit zero s silent gone =
    (record { result = 1; buff = []; sdc = s }, refl, refl, refl)
removed_retries fuel limit (suc retries) s silent gone =
    let (n, sent, run, gone') = removed_fails fuel limit s silent gone in
    let s' : Sdcard = record s { bus_at = n; deselected = true; sent = sent } in
    let (o, run', failed, kept) = removed_retries fuel limit retries s' silent gone' in
    (o, rw run run', failed, kept)

-- After a card that was available is taken out, the job of `initialize` fails with 1, but the job of
-- `status` behind it still reports an available card.
pub removed-available :
    (codes : DiskCodes) (fuel : ℕ) (s : Sdcard)
    → s.card_available ≡ true
    → Silent s.bus_at s.card
    → (o : Outcome) × (run_job codes fuel initialize s ≡ some o)
      × (o.result ≡ 1)
      × (run_job codes fuel status o.sdc ≡ some (record { result = 0; buff = []; sdc = o.sdc }))
unfolding run_job
removed-available codes fuel s available silent =
    let (o, run, failed, kept) =
      removed_retries fuel s.bus_at init_retries (record s { running = false }) silent
        (omega arith) in
    let o' = at_running_rate o in
    let still : o'.sdc.card_available ≡ true = kept ∙ available in
    (
      o',
      rw run refl,
      failed,
      ap
          (λ (b : Bool).
            some (record { result = if b then 0 else codes.sta_nodisk; buff = []; sdc = o'.sdc }))
          still,
    )
