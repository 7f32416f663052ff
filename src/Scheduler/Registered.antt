-- ===== src/Scheduler/Registered.antt =====
-- The clients of a schedule, without the pools.
use nodeflight_fw.Base.{
  ℕ, zero, suc, ◌≡◌, refl, sym, ap, ◌∙◌, true, false, none, some, List, [], ◌∷◌, ◌++◌, replicate,
  append_assoc, inl, inr, ◌⊎◌, ap₂, Bool-cases,
}
use nodeflight_fw.Scheduler.{
  Client, Pool, Sched, free_client, is_free, keep_slot, take_slot, new_pool, placed, register_in,
  sc_register_client,
}

-- The slots of all pools, in order.
unfoldable pub slots : List Pool → Pool
slots [] = []
slots (pool ∷ pools) = pool ++ slots pools

-- Every client has an `init`.
abbrev pub AllSet : List Client → Type 0
AllSet [] = Unit
AllSet (c ∷ cs) = (is_free c ≡ false) × AllSet cs

-- The pools hold these clients in this order, and free slots behind them.
pub record Holds (clients : List Client) (pools : List Pool) : Type 0 where
  pub spare : ℕ
  pub in_slots : slots pools ≡ clients ++ replicate spare free_client
  pub set : AllSet clients

-- A pool with a free slot, and one without.
take_slot-cases :
    (c : Client) (i : ℕ) (pool : Pool)
    → ((take_slot c i pool ≡ none) × AllSet pool)
      ⊎ ((j : ℕ) × (xs : Pool) × (d : Client) × (ys : Pool) × (take_slot c i pool
            ≡ some (j, xs ++ c ∷ ys))
          × (pool ≡ xs ++ d ∷ ys)
          × (is_free d ≡ true)
          × AllSet xs)
unfolding take_slot keep_slot
take_slot-cases c i [] = inl (refl, tt)
take_slot-cases c i (d ∷ pool) = elim (Bool-cases (is_free d)) [
  | inl f ↦ inr (i, [], d, pool, rw f refl, refl, f, tt)
  | inr f ↦ elim (take_slot-cases c (suc i) pool) [
    | inl (e, all) ↦ inl (rw (f, e) refl, (f, all))
    | inr (j, xs, d', ys, e, at_d, free, all) ↦
        inr (j, d ∷ xs, d', ys, rw (f, e) refl, ap (◌∷◌ d) at_d, free, (f, all))
  ]
]

true_is_not_false : true ≡ false → ⊥
true_is_not_false e = cc

cons_injective : {A : Type 0} {x y : A} {xs ys : List A} → x ∷ xs ≡ y ∷ ys → (x ≡ y) × (xs ≡ ys)
cons_injective e = (cc, cc)

-- A client with an `init` is no spare slot.
spare_is_free : (d : Client) (r : Pool) (m : ℕ) → d ∷ r ≡ replicate m free_client → is_free d ≡ true
unfolding is_free
spare_is_free d r zero e = absurd cc
spare_is_free d r (suc m) e = ap is_free (cons_injective e).0

-- The slots up to the first free one are the clients.
at_first_free :
    (xs : Pool) (d : Client) (r : Pool) (cs : List Client) (m : ℕ)
    → xs ++ d ∷ r ≡ cs ++ replicate m free_client
    → AllSet xs
    → is_free d ≡ true
    → AllSet cs
    → (m' : ℕ) × (xs ≡ cs) × (r ≡ replicate m' free_client)
at_first_free [] d r [] zero e a f b = absurd cc
at_first_free [] d r [] (suc m) e a f b = (m, refl, (cons_injective e).1)
at_first_free [] d r (c ∷ cs) m e a f b =
    absurd (true_is_not_false (sym f ∙ ap is_free (cons_injective e).0 ∙ b.0))
at_first_free (x ∷ xs) d r [] m e a f b =
    absurd (true_is_not_false (sym (spare_is_free x (xs ++ d ∷ r) m e) ∙ a.0))
at_first_free (x ∷ xs) d r (c ∷ cs) m e a f b =
    let (m', same, rest) = at_first_free xs d r cs m (cons_injective e).1 a.1 f b.1 in
    (m', ap₂ ◌∷◌ (cons_injective e).0 same, rest)

-- A pool without a free slot holds the first clients.
behind_full :
    (pool r : Pool) (cs : List Client) (m : ℕ)
    → pool ++ r ≡ cs ++ replicate m free_client
    → AllSet pool
    → AllSet cs
    → (cs' : List Client) × (cs ≡ pool ++ cs') × (r ≡ cs' ++ replicate m free_client) × AllSet cs'
behind_full [] r cs m e a b = (cs, refl, e, b)
behind_full (x ∷ pool) r [] m e a b =
    absurd (true_is_not_false (sym (spare_is_free x (pool ++ r) m e) ∙ a.0))
behind_full (x ∷ pool) r (c ∷ cs) m e a b =
    let (cs', same, rest, all) = behind_full pool r cs m (cons_injective e).1 a.1 b.1 in
    (cs', ap₂ ◌∷◌ (sym (cons_injective e).0) same, rest, all)

AllSet-concat :
    (cs : List Client) (c : Client) → AllSet cs → is_free c ≡ false → AllSet (cs ++ c ∷ [])
AllSet-concat [] c a f = (f, tt)
AllSet-concat (x ∷ cs) c a f = (a.0, AllSet-concat cs c a.1 f)

register_in-Holds :
    (c : Client) (p : ℕ) (pools : List Pool) (clients : List Client)
    → is_free c ≡ false
    → Holds clients pools
    → (place : ℕ × ℕ) × (pools' : List Pool) × (register_in true c p pools ≡ (some place, pools'))
      × Holds (clients ++ c ∷ []) pools'
unfolding register_in placed new_pool slots
register_in-Holds c p [] [] f h =
    ((p, 0), new_pool c ∷ [], refl, record { spare = 31; in_slots = refl; set = (f, tt) })
register_in-Holds c p [] (x ∷ clients) f h = absurd (let e = h.in_slots in cc)
register_in-Holds c p (pool ∷ pools) clients f h = elim (take_slot-cases c 0 pool) [
  | inl (e, all) ↦
      let (cs', same, rest, set') =
        behind_full pool (slots pools) clients h.spare h.in_slots all h.set in
      let (place, pools', run, h') =
        register_in-Holds c (suc p) pools cs' f
          (record { spare = h.spare; in_slots = rest; set = set' }) in
      (
        place,
        pool ∷ pools',
        rw (e, run) refl,
        record {
          spare = h'.spare;
          in_slots = append_pool pool cs' clients (slots pools') h'.spare same h'.in_slots;
          set = AllSet-concat clients c h.set f;
        },
      )
  | inr (j, xs, d, ys, e, at_d, free, all) ↦
      let (m', same, rest) =
        at_first_free xs d (ys ++ slots pools) clients h.spare
          (sym (append_assoc xs (d ∷ ys) (slots pools))
            ∙ ap (λ t. t ++ slots pools) (sym at_d)
            ∙ h.in_slots)
          all free h.set in
      (
        (p, j),
        (xs ++ c ∷ ys) ∷ pools,
        rw e refl,
        record {
          spare = m';
          in_slots =
              append_assoc xs (c ∷ ys) (slots pools)
              ∙ ap₂ (λ s t. s ++ c ∷ t) same rest
              ∙ sym (append_assoc clients (c ∷ []) (replicate m' free_client));
          set = AllSet-concat clients c h.set f;
        },
      )
]
  where
    append_pool :
        (pool cs clients r : Pool) (m : ℕ)
        → clients ≡ pool ++ cs
        → r ≡ (cs ++ c ∷ []) ++ replicate m free_client
        → pool ++ r ≡ (clients ++ c ∷ []) ++ replicate m free_client
    append_pool pool cs clients r m same e =
        ap (λ t. pool ++ t) e
        ∙ sym (append_assoc pool (cs ++ c ∷ []) (replicate m free_client))
        ∙ ap (λ t. t ++ replicate m free_client) (sym (append_assoc pool cs (c ∷ [])))
        ∙ ap (λ t. (t ++ c ∷ []) ++ replicate m free_client) (sym same)

-- With the mutex and with memory, `sc_register_client` puts a client that has an `init` behind the ones that the
-- schedule has, in the last pool or a new one, and marks no further client as initialized.
pub sc_register_client-Holds :
    (c : Client) (sched : Sched) (clients : List Client)
    → is_free c ≡ false
    → Holds clients sched.clients
    → (place : ℕ × ℕ) × (sched' : Sched) × (sc_register_client true true c sched
        ≡ (some place, sched'))
      × Holds (clients ++ c ∷ []) sched'.clients
      × (sched'.clients_initialized ≡ sched.clients_initialized)
unfolding sc_register_client
sc_register_client-Holds c sched clients f h =
    let (place, pools', run, h') = register_in-Holds c 0 sched.clients clients f h in
    (place, record sched { clients = pools' }, rw run refl, h', refl)
