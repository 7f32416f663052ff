-- ===== src/Strops/Copies.antt =====
-- What the loops of `strops_split_argv` do to the memory.
use nodeflight_fw.Base.{
  ℕ, zero, suc, ◌+◌, ◌<◌, Bool, false, [], ◌∷◌, ◌++◌, append_assoc, append-nil, length-append, ◌==◌,
  ◌≡◌, refl, sym, ap, ◌∙◌, Bool-cases, inl, inr, some, Bytes, length, get_elem?, get_elem?-skip,
  store, store-append, arith,
}
use nodeflight_fw.Strops.Split.{
  Split, current, advance, skip_spaces, put_out, copy_while, finish_argument,
}
use nodeflight_fw.Strops.Words.{kept, left, is_space}

-- The memory is what is written, a gap, and what is left to read.
pub record View (s : Split) (front gap rest : Bytes) : Type 0 where
  pub mem : s.mem ≡ front ++ (gap ++ rest)
  pub out_ptr : s.out_ptr ≡ length front
  pub in_ptr : s.in_ptr ≡ length front + length gap

-- A change that keeps the arguments.
pub record SameArgs (s s' : Split) : Type 0 where
  pub argv : s'.argv ≡ s.argv
  pub argc : s'.argc ≡ s.argc

SameArgs-refl : (s : Split) → SameArgs s s
SameArgs-refl s = record { argv = refl; argc = refl }

pub SameArgs-trans : (s s' s'' : Split) → SameArgs s s' → SameArgs s' s'' → SameArgs s s''
SameArgs-trans s s' s'' a b = record { argv = b.argv ∙ a.argv; argc = b.argc ∙ a.argc }

pub current-View :
    (s : Split) (front gap rest : Bytes) (c : ℕ) → View s front gap (c ∷ rest) → current s ≡ some c
current-View s front gap rest c v =
    ap (λ m. get_elem? m s.in_ptr) v.mem
    ∙ get_elem?-skip front (gap ++ c ∷ rest) (length gap) s.in_ptr v.in_ptr
    ∙ get_elem?-skip gap (c ∷ rest) 0 (length gap) (omega arith)

pub advance-View :
    (s : Split) (front gap rest : Bytes) (c : ℕ)
    → View s front gap (c ∷ rest)
    → View (advance s) front (gap ++ c ∷ []) rest
advance-View s front gap rest c v = record {
  mem = v.mem ∙ ap (◌++◌ front) (sym (append_assoc gap (c ∷ []) rest));
  out_ptr = v.out_ptr;
  in_ptr = omega (arith, v.in_ptr, length-append gap (c ∷ []));
}

-- A byte that is put in the gap.
put_gap :
    (s : Split) (front gap rest : Bytes) (g c : ℕ)
    → View s front (g ∷ gap) rest
    → (s' : Split) × (put_out c s ≡ some s') × View s' (front ++ c ∷ []) gap rest × SameArgs s s'
unfolding put_out
put_gap s front gap rest g c v =
    let stored : store s.mem s.out_ptr c ≡ some (front ++ c ∷ (gap ++ rest)) =
      ap (λ m. store m s.out_ptr c) v.mem
      ∙ store-append front (gap ++ rest) g c s.out_ptr v.out_ptr in
    let s' : Split = record s { mem = front ++ c ∷ (gap ++ rest); out_ptr = s.out_ptr + 1 } in
    (
      s',
      rw stored refl,
      record {
        mem = sym (append_assoc front (c ∷ []) (gap ++ rest));
        out_ptr = omega (arith, v.out_ptr, length-append front (c ∷ []));
        in_ptr = omega (arith, v.in_ptr, length-append front (c ∷ []));
      },
      record { argv = refl; argc = refl },
    )

-- A byte that is put over itself, before it is passed.
put_self :
    (s : Split) (front rest : Bytes) (d c : ℕ)
    → View s front [] (d ∷ rest)
    → (s' : Split) × (put_out c s ≡ some s')
      × (s'.mem ≡ front ++ c ∷ [] ++ rest)
      × (s'.out_ptr ≡ length front + 1)
      × (s'.in_ptr ≡ length front)
      × SameArgs s s'
unfolding put_out
put_self s front rest d c v =
    let stored : store s.mem s.out_ptr c ≡ some (front ++ c ∷ rest) =
      ap (λ m. store m s.out_ptr c) v.mem ∙ store-append front rest d c s.out_ptr v.out_ptr in
    let s' : Split = record s { mem = front ++ c ∷ rest; out_ptr = s.out_ptr + 1 } in
    (
      s',
      rw stored refl,
      sym (append_assoc front (c ∷ []) rest),
      omega (arith, v.out_ptr),
      omega (arith, v.in_ptr),
      record { argv = refl; argc = refl },
    )

-- One step of a copy.
copy_step :
    (s : Split) (front gap rest : Bytes) (c : ℕ)
    → View s front gap (c ∷ rest)
    → (s' : Split) × (gap' : Bytes) × (put_out c s ≡ some s')
      × View (advance s') (front ++ c ∷ []) gap' rest
      × SameArgs s s'
copy_step s front [] rest c v =
    let (s', run, mem, out, inp, same) = put_self s front rest c c v in
    (
      s',
      [],
      run,
      record {
        mem = mem;
        out_ptr = omega (arith, out, length-append front (c ∷ []));
        in_ptr = omega (arith, inp, length-append front (c ∷ []));
      },
      same,
    )
copy_step s front (g ∷ gap) rest c v =
    let (s', run, v', same) = put_gap s front gap (c ∷ rest) g c v in
    (s', gap ++ c ∷ [], run, advance-View s' (front ++ c ∷ []) gap rest c v', same)

-- A loop that copies, up to the first character that does not pass its test.
pub copy_while_lem :
    (test : ℕ → Bool) (fuel : ℕ) (s : Split) (front gap text tail : Bytes)
    → test 0 ≡ false
    → View s front gap (text ++ 0 ∷ tail)
    → length text < fuel
    → (s' : Split) × (gap' : Bytes) × (copy_while test fuel s ≡ some s')
      × View s' (front ++ kept test text) gap' (left test text ++ 0 ∷ tail)
      × SameArgs s s'
unfolding copy_while
copy_while_lem test zero s front gap text tail z v room = absurd (omega (arith, room))
copy_while_lem test (suc fuel) s front gap [] tail z v room = (
  s,
  gap,
  rw (current-View s front gap tail 0 v, z) refl,
  rw (append-nil front) v,
  SameArgs-refl s,
)
copy_while_lem test (suc fuel) s front gap (c ∷ cs) tail z v room =
    let here = current-View s front gap (cs ++ 0 ∷ tail) c v in
    elim (Bool-cases (test c)) [
      | inl y ↦
          let (s1, gap1, run, v1, same) = copy_step s front gap (cs ++ 0 ∷ tail) c v in
          let (s2, gap2, run', v2, same') =
            copy_while_lem test fuel (advance s1) (front ++ c ∷ []) gap1 cs tail z v1
              (omega (arith, room)) in
          (
            s2,
            gap2,
            rw (here, y, run) run',
            rw (y, sym (append_assoc front (c ∷ []) (kept test cs))) v2,
            SameArgs-trans s s1 s2 same (record { argv = same'.argv; argc = same'.argc }),
          )
      | inr y ↦ (s, gap, rw (here, y) refl, rw (y, append-nil front) v, SameArgs-refl s)
    ]

pub skip_spaces_lem :
    (fuel : ℕ) (s : Split) (front gap text tail : Bytes)
    → View s front gap (text ++ 0 ∷ tail)
    → length text < fuel
    → (s' : Split) × (gap' : Bytes) × (skip_spaces fuel s ≡ some s')
      × View s' front gap' (left is_space text ++ 0 ∷ tail)
      × SameArgs s s'
unfolding skip_spaces
skip_spaces_lem zero s front gap text tail v room = absurd (omega (arith, room))
skip_spaces_lem (suc fuel) s front gap [] tail v room =
    (s, gap, rw (current-View s front gap tail 0 v) refl, v, SameArgs-refl s)
skip_spaces_lem (suc fuel) s front gap (c ∷ cs) tail v room =
    let here = current-View s front gap (cs ++ 0 ∷ tail) c v in
    elim (Bool-cases (c == 32)) [
      | inl y ↦
          let (s', gap', run, v', same) =
            skip_spaces_lem fuel (advance s) front (gap ++ c ∷ []) cs tail
              (advance-View s front gap (cs ++ 0 ∷ tail) c v) (omega (arith, room)) in
          (s', gap', rw (here, y) run, rw y v', record { argv = same.argv; argc = same.argc })
      | inr y ↦ (s, gap, rw (here, y) refl, rw y v, SameArgs-refl s)
    ]

-- The line is at its end: the NUL is the current character.
pub record Ended (s : Split) (front : Bytes) : Type 0 where
  pub rest : Bytes
  pub mem : s.mem ≡ front ++ rest
  pub at_end : current s ≡ some 0

-- The end of an argument: the line goes on behind the character that ended it, or is at its end.
pub finish_next :
    (s : Split) (front gap text tail : Bytes) (d : ℕ)
    → (d == 0) ≡ false
    → View s front gap (d ∷ text ++ 0 ∷ tail)
    → (s' : Split) × (gap' : Bytes) × (finish_argument s ≡ some s')
      × View s' (front ++ 0 ∷ []) gap' (text ++ 0 ∷ tail)
      × SameArgs s s'
unfolding finish_argument
finish_next s front [] text tail d z v =
    let here = current-View s front [] (text ++ 0 ∷ tail) d v in
    let (s', run, v', same) =
      put_gap (advance s) front [] (text ++ 0 ∷ tail) d 0
        (advance-View s front [] (text ++ 0 ∷ tail) d v) in
    (s', [], rw (here, z) run, v', record { argv = same.argv; argc = same.argc })
finish_next s front (g ∷ gap) text tail d z v =
    let here = current-View s front (g ∷ gap) (text ++ 0 ∷ tail) d v in
    let (s', run, v', same) =
      put_gap (advance s) front (gap ++ d ∷ []) (text ++ 0 ∷ tail) g 0
        (advance-View s front (g ∷ gap) (text ++ 0 ∷ tail) d v) in
    (s', gap ++ d ∷ [], rw (here, z) run, v', record { argv = same.argv; argc = same.argc })

pub finish_last :
    (s : Split) (front gap tail : Bytes)
    → View s front gap (0 ∷ tail)
    → (s' : Split) × (finish_argument s ≡ some s') × Ended s' (front ++ 0 ∷ []) × SameArgs s s'
unfolding finish_argument
finish_last s front [] tail v =
    let here = current-View s front [] tail 0 v in
    let (s', run, mem, out, inp, same) = put_self s front tail 0 0 v in
    let at_end : current s' ≡ some 0 =
      ap (λ m. get_elem? m s'.in_ptr) (mem ∙ append_assoc front (0 ∷ []) tail)
      ∙ get_elem?-skip front (0 ∷ tail) 0 s'.in_ptr (omega (arith, inp)) in
    (s', rw here run, record { rest = tail; mem = mem; at_end = at_end }, same)
finish_last s front (g ∷ gap) tail v =
    let here = current-View s front (g ∷ gap) tail 0 v in
    let (s', run, v', same) = put_gap s front gap (0 ∷ tail) g 0 v in
    (
      s',
      rw here run,
      record {
        rest = gap ++ 0 ∷ tail;
        mem = v'.mem;
        at_end = current-View s' (front ++ 0 ∷ []) gap tail 0 v';
      },
      same,
    )
