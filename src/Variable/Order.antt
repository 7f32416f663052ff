-- ===== src/Variable/Order.antt =====
-- A request before the registration of its source, and one after it.
use nodeflight_fw.Base.{
  ℕ, zero, suc, ◌+◌, ◌%◌, ◌≤◌, ◌<◌, Bool, true, false, some, List, [], ◌∷◌, ◌≡◌, refl, ap, ◌∙◌, inl,
  inr, Bytes, length, take, length-take, get_elem?, get_elem?-set_self, set, ◌>>=◌, ℤ, pos, negsuc,
  minus_one, arith,
}
use nodeflight_fw.Strops.{strops_word_to_int}
use nodeflight_fw.Map.{map_get}
use nodeflight_fw.Variable.{
  VrType, NamedType, Reloc, Source, Variables, Granted, num_args, is_null, type_at, connect_target,
  vr_reloc_exec, after_exec, vr_reloc_alloc, cut_index, update_pending, put_source, register_types,
  found_source, vr_get_source, vr_register, split_name, request_source, request_named, vr_request,
}
use nodeflight_fw.Variable.Relocate.{read_args-take, exec-cases}
use nodeflight_fw.Variable.Register.{Unbound, register-Unbound, get_elem?-some-lt}

set-set {ℓ} : {A : Type ℓ} (xs : List A) (i : ℕ) (a b : A) → set (set xs i a) i b ≡ set xs i b
set-set [] i a b = refl
set-set (x ∷ xs) zero a b = refl
set-set (x ∷ xs) (suc i) a b = ap (◌∷◌ x) (set-set xs i a b)

-- `vr_request` of a source that is in the map.
request-known :
    (granted : Granted) (full base behind : Bytes) (index : ℤ) (type : VrType) (target : ℕ)
    (v : Variables) (i : ℕ) (src : Source)
    → split_name full ≡ some (base, behind)
    → strops_word_to_int behind ≡ some index
    → map_get base v.sources ≡ some i
    → get_elem? v.heap i ≡ some src
    → vr_request granted full type target v
      ≡ request_source granted index type target i v src src.types
unfolding vr_request request_named vr_get_source found_source
request-known granted full base behind index type target v i src split word in_map in_heap =
    rw (split, word, in_map, in_heap) refl

reloc_memory :
    (granted : Bool) (free : ℕ)
    → granted ≡ true
    → (left : ℕ) × (vr_reloc_alloc granted free ≡ some left)
unfolding vr_reloc_alloc
reloc_memory granted zero e = (zero, rw e refl)
reloc_memory granted (suc free) e = (free, refl)

-- The status that is returned for what `vr_reloc_exec` returned.
settled : ℤ → ℤ
settled (pos n) = pos 0
settled (negsuc n) = minus_one

-- The loop over one waiting request.
one_pending :
    (types : List NamedType) (src : Source) (r : Reloc) (free : ℕ) (targets t : List ℕ) (s : ℤ)
    → src.types ≡ some types
    → connect_target src.vars r.index r.type r.dst targets (type_at types r.index) ≡ some (s, t)
    → (left : ℕ) × (update_pending src (r ∷ []) free targets
        ≡ some (record { status = settled s; left = []; free = left; targets = t }))
unfolding update_pending vr_reloc_exec after_exec settled
one_pending types src r free targets t (pos n) known e = (free + 1, rw (known, e) refl)
one_pending types src r free targets t (negsuc n) known e = (free, rw (known, e) refl)

module _ (granted : Granted) (full base behind : Bytes) (k : ℕ) (type : VrType) (target : ℕ)
    (types : List NamedType) (args : List ℕ) (v : Variables) (i : ℕ) (src : Source) where
  vars : List ℕ
  vars = take (num_args types) args

  bound : List Reloc → Source
  bound waiting = record { types = some types; vars = vars; reloc = waiting }

  -- Registered first.
  late_order :
      (s : ℤ) (t : List ℕ)
      → granted.vars ≡ true
      → Unbound v base i src
      → src.reloc ≡ []
      → split_name full ≡ some (base, behind)
      → strops_word_to_int behind ≡ some (pos k)
      → num_args types ≤ length args
      → connect_target vars k type target v.targets (type_at types k) ≡ some (s, t)
      → (vr_register granted base types args v >>= λ a. vr_request granted full type target a.1)
        ≡ some (s, record (put_source i (bound []) v) { targets = t })
  unfolding register_types update_pending request_source vr_reloc_exec vars bound
  late_order s t memory at_i alone split word enough e =
      let v' = put_source i (bound []) v in
      let registered : vr_register granted base types args v ≡ some (pos 0, v') =
        register-Unbound granted base types args v i src at_i
        ∙ rw (memory, alone, read_args-take (num_args types) args enough) refl in
      rw
        (
          registered,
          request-known granted full base behind (pos k) type target v' i (bound []) split word
              at_i.in_map
              (get_elem?-set_self v.heap i (bound [])
                (get_elem?-some-lt v.heap i src at_i.in_heap)),
          e,
        )
        refl

  -- Asked for first.
  early_order :
      (s : ℤ) (t : List ℕ)
      → granted.vars ≡ true
      → granted.reloc ≡ true
      → Unbound v base i src
      → src.reloc ≡ []
      → split_name full ≡ some (base, behind)
      → strops_word_to_int behind ≡ some (pos k)
      → k < 65536
      → num_args types ≤ length args
      → connect_target vars k type target v.targets (type_at types k) ≡ some (s, t)
      → (free : ℕ) × ((vr_request granted full type target v >>= λ a.
            vr_register granted base types args a.1)
          ≡ some
              (settled s, record (put_source i (bound []) v) { free_relocs = free; targets = t }))
  unfolding request_source cut_index register_types vars bound
  early_order s t memory room at_i alone split word small enough e =
      let (left, got) = reloc_memory granted.reloc v.free_relocs room in
      let r : Reloc = record { dst = target; index = k; type = type } in
      let waiting : Source = record src { reloc = r ∷ [] } in
      let v' = put_source i waiting (record v { free_relocs = left }) in
      let fits : k % 65536 ≡ k = omega (arith, small) in
      let requested : vr_request granted full type target v ≡ some (pos 0, v') =
        request-known granted full base behind (pos k) type target v i src split word at_i.in_map
          at_i.in_heap
        ∙ rw (at_i.unknown, got, fits, alone) refl in
      let at_i' : Unbound v' base i waiting = record {
        in_map = at_i.in_map;
        in_heap = get_elem?-set_self v.heap i waiting (get_elem?-some-lt v.heap i src at_i.in_heap);
        unknown = at_i.unknown;
      } in
      let (free, run) = one_pending types (bound (r ∷ [])) r left v.targets t s refl e in
      (
        free,
        rw
            (
              requested,
              register-Unbound granted base types args v' i waiting at_i',
              memory,
              read_args-take (num_args types) args enough,
              run,
              set-set v.heap i waiting (bound []),
            )
            refl,
      )

-- Let a source be in the map, without types and without waiting requests, and ask for its variable
-- with an index below 65536 in a name that can be read. With memory, as many arguments as types and a
-- target that exists, asking first and registering first return the same status from the second
-- call, and leave the same sources and the same pointers; neither goes out of an array.
pub order_lem :
    (granted : Granted) (full base behind : Bytes) (k : ℕ) (type : VrType) (target : ℕ)
    (types : List NamedType) (args : List ℕ) (v : Variables) (i : ℕ) (src : Source)
    → granted.vars ≡ true
    → granted.reloc ≡ true
    → Unbound v base i src
    → src.reloc ≡ []
    → split_name full ≡ some (base, behind)
    → strops_word_to_int behind ≡ some (pos k)
    → k < 65536
    → num_args types ≤ length args
    → is_null type ≡ false
    → target < length v.targets
    → (s : ℤ) × (early : Variables) × (late : Variables) × ((vr_request granted full type target v
          >>= λ a. vr_register granted base types args a.1)
        ≡ some (s, early))
      × ((vr_register granted base types args v >>= λ a. vr_request granted full type target a.1)
          ≡ some (s, late))
      × (early.sources ≡ late.sources)
      × (early.heap ≡ late.heap)
      × (early.targets ≡ late.targets)
unfolding vars bound settled
order_lem granted full base behind k type target types args v i src memory room at_i alone split
      word small enough typed cell =
    let whole : length (take (num_args types) args) ≡ num_args types =
      length-take (num_args types) args ∙ omega (arith, enough) in
    let r : Reloc = record { dst = target; index = k; type = type } in
    elim (exec-cases types (take (num_args types) args) v.targets r whole
      (record { typed = typed; cell = cell })) [
        | inl (fits, (x, at_x, e)) ↦
            let (free, run) =
              early_order granted full base behind k type target types args v i src (pos 0)
                (set v.targets target x) memory room at_i alone split word small enough e in
            (
              pos 0,
              _,
              _,
              run,
              late_order granted full base behind k type target types args v i src (pos 0)
                  (set v.targets target x) memory at_i alone split word enough e,
              refl,
              refl,
              refl,
            )
        | inr (unfit, e) ↦
            let (free, run) =
              early_order granted full base behind k type target types args v i src minus_one
                v.targets memory room at_i alone split word small enough e in
            (
              minus_one,
              _,
              _,
              run,
              late_order granted full base behind k type target types args v i src minus_one
                  v.targets memory at_i alone split word enough e,
              refl,
              refl,
              refl,
            )
      ]

-- A request that waits keeps 16 bits of its index: if a source is in the map without types, asking
-- for the variables k and k + 65536 does the same.
request_cut :
    (granted : Granted) (near far base behind behind' : Bytes) (k : ℕ) (type : VrType) (target : ℕ)
    (v : Variables) (i : ℕ) (src : Source)
    → Unbound v base i src
    → split_name near ≡ some (base, behind)
    → split_name far ≡ some (base, behind')
    → strops_word_to_int behind ≡ some (pos k)
    → strops_word_to_int behind' ≡ some (pos (k + 65536))
    → vr_request granted far type target v ≡ vr_request granted near type target v
unfolding request_source cut_index
request_cut granted near far base behind behind' k type target v i src at_i split split' word
      word' =
    let same : (k + 65536) % 65536 ≡ k % 65536 = omega arith in
    let far_run =
      request-known granted far base behind' (pos (k + 65536)) type target v i src split' word'
        at_i.in_map at_i.in_heap in
    let near_run =
      request-known granted near base behind (pos k) type target v i src split word at_i.in_map
        at_i.in_heap in
    rw (far_run, near_run, at_i.unknown, same) refl
