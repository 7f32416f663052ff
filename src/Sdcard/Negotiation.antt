-- ===== src/Sdcard/Negotiation.antt =====
-- The reset of a card and the negotiation with it.
use nodeflight_fw.Base.{
  ℕ, suc, ◌≤◌, ◌<◌, ◌&&◌, ◌||◌, Option, none, some, List, ◌==◌, ◌≡◌, refl, ◌⊎◌, inl, inr,
  Bool-cases, Bytes, bit_and, arith, ==→eq,
}
use nodeflight_fw.Sdcard.{Sdcard, command_frame}
use nodeflight_fw.Sdcard.Startup.{reset_card, negotiate_once}
use nodeflight_fw.Sdcard.Reads.{on_bus, behind, send_command_lem, read_r1_lem}
use nodeflight_fw.Sdcard.Blocks.{read_r3_lem}

some_injective : {A : Type 0} {a b : A} → some a ≡ some b → a ≡ b
some_injective p = cc

-- The state with a later place on the bus, and more that was sent.
abbrev pub moved : ℕ → List Bytes → Sdcard → Sdcard
moved n sent s = record s { bus_at = n; sent = sent }

pub reset_lem :
    (s : Sdcard)
    → (o : Option (Unit {0})) × (n : ℕ) × (sent : List Bytes) × (reset_card s ≡ (o, moved n sent s))
      × (s.bus_at ≤ n)
      × ((o ≡ none) ⊎ ((p : ℕ) × (s.bus_at ≤ p) × (s.card p ≡ 1)))
unfolding reset_card
reset_lem s =
    let (n, le, sends) = send_command_lem 0 0 s in
    elim sends [
      | inl e ↦ (none, n, s.sent, rw e refl, le, inl refl)
      | inr e ↦
          let s1 = behind n (command_frame 0 0) s in
          let (p, run, le1) = read_r1_lem s1 in
          elim (Bool-cases (s.card p == 1)) [
            | inr z ↦ (none, suc p, s1.sent, rw (e, run, z) refl, omega (arith, le, le1), inl refl)
            | inl z ↦
                let s2 = on_bus (suc p) s1 in
                let (m, le2, sends2) = send_command_lem 8 0x1aa s2 in
                elim sends2 [
                  | inl e2 ↦ (
                    none,
                    m,
                    s2.sent,
                    rw (e, run, z, e2) refl,
                    omega (arith, le, le1, le2),
                    inl refl,
                  )
                  | inr e2 ↦
                      let s3 = behind m (command_frame 8 0x1aa) s2 in
                      let (r, q, run3, lt3) = read_r3_lem s3 in
                      elim (Bool-cases ((r.0 == 1) && (bit_and r.1 0x1ff == 0x1aa))) [
                        | inr z3 ↦ (
                          none,
                          q,
                          s3.sent,
                          rw (e, run, z, e2, run3, z3) refl,
                          omega (arith, le, le1, le2, lt3),
                          inl refl,
                        )
                        | inl z3 ↦ (
                          some tt,
                          q,
                          s3.sent,
                          rw (e, run, z, e2, run3, z3) refl,
                          omega (arith, le, le1, le2, lt3),
                          inr (p, omega (arith, le, le1), ==→eq (s.card p) 1 z),
                        )
                      ]
                ]
          ]
    ]

-- A round of the negotiation takes bytes, and goes on only after a response 1 to its first command.
pub once_lem :
    (s : Sdcard)
    → (o : Option ℕ) × (n : ℕ) × (sent : List Bytes) × (negotiate_once s ≡ (o, moved n sent s))
      × (s.bus_at ≤ n)
      × ((o ≡ none) ⊎ ((p : ℕ) × (s.bus_at ≤ p) × (p < n) × (s.card p ≡ 1)))
unfolding negotiate_once
once_lem s =
    let (n, le, sends) = send_command_lem 55 0 s in
    elim sends [
      | inl e ↦ (none, n, s.sent, rw e refl, le, inl refl)
      | inr e ↦
          let s1 = behind n (command_frame 55 0) s in
          let (p, run, le1) = read_r1_lem s1 in
          elim (Bool-cases (s.card p == 1)) [
            | inr z ↦ (none, suc p, s1.sent, rw (e, run, z) refl, omega (arith, le, le1), inl refl)
            | inl z ↦
                let s2 = on_bus (suc p) s1 in
                let (m, le2, sends2) = send_command_lem 41 0x40000000 s2 in
                elim sends2 [
                  | inl e2 ↦ (
                    none,
                    m,
                    s2.sent,
                    rw (e, run, z, e2) refl,
                    omega (arith, le, le1, le2),
                    inl refl,
                  )
                  | inr e2 ↦
                      let s3 = behind m (command_frame 41 0x40000000) s2 in
                      let (q, run3, le3) = read_r1_lem s3 in
                      elim (Bool-cases ((s.card q == 1) || (s.card q == 0))) [
                        | inr z3 ↦ (
                          none,
                          suc q,
                          s3.sent,
                          rw (e, run, z, e2, run3, z3) refl,
                          omega (arith, le, le1, le2, le3),
                          inl refl,
                        )
                        | inl z3 ↦ (
                          some (s.card q),
                          suc q,
                          s3.sent,
                          rw (e, run, z, e2, run3, z3) refl,
                          omega (arith, le, le1, le2, le3),
                          inr (
                            p,
                            omega (arith, le, le1),
                            omega (arith, le2, le3),
                            ==→eq (s.card p) 1 z,
                          ),
                        )
                      ]
                ]
          ]
    ]
