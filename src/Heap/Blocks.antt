-- ===== src/Heap/Blocks.antt =====
-- The blocks of the heap do not overlap.
use native.Mathlib.Nat.{mod-lt}
use nodeflight_fw.Base.{
  false, ◌⊎◌, ℕ, ◌+◌, ◌-◌, ◌≤◌, ◌<◌, true, Option, none, some, List, [], ◌∷◌, ◌≡◌, refl, ◌∙◌, inl,
  inr, leb, u32, Bool-cases, All, arith,
}
use nodeflight_fw.Heap.{
  Heap, req_size, pv_port_malloc, x_port_get_free_heap_size, heap_get_size, heap_get_usage, Block,
  with_block, allocate_all,
}

pub record IsHeap (h : Heap) : Type 0 where
  pub lower : h.heap_start ≤ h.cur_alloc
  pub upper : h.cur_alloc ≤ h.heap_end
  pub small : h.heap_end < 4294967296

-- A size that does not overflow behind the end of the heap.
abbrev pub Moderate : ℕ → Heap → ℕ → Type 0
Moderate align h wanted = h.heap_end + wanted + align < 4294967296

-- Blocks that follow one another without overlap between two addresses.
abbrev pub Within : ℕ → ℕ → List Block → Type 0
Within from to [] = from ≤ to
Within from to (b ∷ blocks) = (from ≤ b.at) × Within (b.at + b.size) to blocks

leb→le : (a b : ℕ) → leb a b ≡ true → a ≤ b
leb→le a b e = ground arith

leb→gt : (a b : ℕ) → leb a b ≡ false → b < a
leb→gt a b e = ground arith

req_size-ge :
    (align wanted : ℕ)
    → 0 < align
    → wanted + align < 4294967296
    → (wanted ≤ req_size align wanted) × (req_size align wanted < wanted + align)
unfolding req_size
req_size-ge align wanted positive moderate =
    let sum : u32 (wanted + (align - 1)) ≡ wanted + (align - 1) = omega (arith, moderate) in
    let left = mod-lt (wanted + (align - 1)) positive in
    rw sum (omega (arith, left, positive), omega (arith, left, positive))

-- What one request leaves: the heap as it was and no block, or a block from the old address to the
-- new one at most.
data Grants (wanted : ℕ) (h : Heap) : Option ℕ × Heap → Type 0 where
  refusal : Grants wanted h (none, h)
  block :
      (next : ℕ)
      → h.cur_alloc + wanted ≤ next
      → next ≤ h.heap_end
      → Grants wanted h (some h.cur_alloc, record h { cur_alloc = next })

pv_port_malloc-Grants :
    (align wanted : ℕ) (h : Heap)
    → 0 < align
    → IsHeap h
    → Moderate align h wanted
    → Grants wanted h (pv_port_malloc align wanted h)
unfolding pv_port_malloc
pv_port_malloc-Grants align wanted h positive is moderate =
    let (ge, lt) = req_size-ge align wanted positive (omega (arith, moderate)) in
    let next : u32 (h.cur_alloc + req_size align wanted) ≡ h.cur_alloc + req_size align wanted =
      omega (arith, lt, is.upper, moderate) in
    elim (Bool-cases (leb (u32 (h.cur_alloc + req_size align wanted)) h.heap_end)) [
      | inl z ↦ rw z (
          block (u32 (h.cur_alloc + req_size align wanted)) (omega (arith, next, ge))
            (leb→le _ h.heap_end z))
      | inr z ↦ rw z refusal
    ]

Within-le :
    (from from' to : ℕ) (blocks : List Block)
    → from' ≤ from
    → Within from to blocks
    → Within from' to blocks
Within-le from from' to [] le w = omega (arith, le, w)
Within-le from from' to (b ∷ blocks) le w = (omega (arith, le, w.0), w.1)

-- Requests whose sizes do not reach over the end of the 32 bits, each with its block or none.
record Allocated (h : Heap) (r : List Block × Heap) : Type 0 where
  pub blocks : Within h.cur_alloc r.1.cur_alloc r.0
  pub is : IsHeap r.1
  pub ends : r.1.heap_end ≡ h.heap_end
  pub starts : r.1.heap_start ≡ h.heap_start

after_request :
    (align wanted : ℕ) (rest : List ℕ) (h : Heap) (first : Option ℕ × Heap)
    → IsHeap h
    → Grants wanted h first
    → ((h' : Heap)
        → IsHeap h'
        → h'.heap_end ≡ h.heap_end
        → h'.heap_start ≡ h.heap_start
        → Allocated h' (allocate_all align rest h'))
    → Allocated h (
      with_block wanted first.0 (allocate_all align rest first.1).0,
      (allocate_all align rest first.1).1,
    )
unfolding with_block
after_request align wanted rest h first is refusal others = others h is refl refl
after_request align wanted rest h first is (block next ge le) others =
    let h' : Heap = record h { cur_alloc = next } in
    let a =
      others h' (record { lower = omega (arith, is.lower, ge); upper = le; small = is.small }) refl
        refl in
    record {
      blocks = (omega arith, Within-le _ _ _ _ ge a.blocks);
      is = a.is;
      ends = a.ends;
      starts = a.starts;
    }

allocate_all-Allocated :
    (align : ℕ) (sizes : List ℕ) (h : Heap) (limit : ℕ)
    → 0 < align
    → h.heap_end ≡ limit
    → IsHeap h
    → All (λ (wanted : ℕ). limit + wanted + align < 4294967296) sizes
    → Allocated h (allocate_all align sizes h)
unfolding allocate_all
allocate_all-Allocated align [] h limit positive same is moderate = record {
  blocks = omega arith;
  is = is;
  ends = refl;
  starts = refl;
}
allocate_all-Allocated align (wanted ∷ rest) h limit positive same is moderate =
    after_request align wanted rest h (pv_port_malloc align wanted h) is
      (pv_port_malloc-Grants align wanted h positive is (omega (arith, moderate.0, same)))
      (λ h' is' ends starts.
        allocate_all-Allocated align rest h' limit positive (ends ∙ same) is' moderate.1)

-- A request that is refused is too large for what is left.
given_or_full :
    (align wanted : ℕ) (h : Heap)
    → 0 < align
    → IsHeap h
    → Moderate align h wanted
    → ((h' : Heap) × (pv_port_malloc align wanted h ≡ (some h.cur_alloc, h')))
      ⊎ ((h.heap_end < h.cur_alloc + wanted + align) × (pv_port_malloc align wanted h ≡ (none, h)))
unfolding pv_port_malloc
given_or_full align wanted h positive is moderate =
    let (ge, lt) = req_size-ge align wanted positive (omega (arith, moderate)) in
    let next : u32 (h.cur_alloc + req_size align wanted) ≡ h.cur_alloc + req_size align wanted =
      omega (arith, lt, is.upper, moderate) in
    elim (Bool-cases (leb (u32 (h.cur_alloc + req_size align wanted)) h.heap_end)) [
      | inl z ↦ inl (record h { cur_alloc = u32 (h.cur_alloc + req_size align wanted) }, rw z refl)
      | inr z ↦ inr (omega (arith, next, lt, leb→gt _ h.heap_end z), rw z refl)
    ]

-- From a heap whose bounds are in order, with requests whose sizes do not reach over the 32 bits
-- behind its end, the blocks that `pvPortMalloc` gives follow one another without overlap, each with
-- the size that was wanted, between the address before and the one behind; the heap stays in its
-- bounds, and what is used and what is free make up its size. A further request of that kind is given a
-- block, or less is left than its size and the alignment.
pub allocate_all-Within :
    (align : ℕ) (sizes : List ℕ) (further : ℕ) (h : Heap)
    → 0 < align
    → IsHeap h
    → All (Moderate align h) sizes
    → Moderate align h further
    → let end = (allocate_all align sizes h).1 in
      Within h.cur_alloc end.cur_alloc (allocate_all align sizes h).0
      × IsHeap end
      × (heap_get_usage end + x_port_get_free_heap_size end ≡ heap_get_size h)
      × (((h' : Heap) × (pv_port_malloc align further end ≡ (some end.cur_alloc, h')))
          ⊎ ((end.heap_end < end.cur_alloc + further + align)
              × (pv_port_malloc align further end ≡ (none, end))))
unfolding heap_get_usage x_port_get_free_heap_size heap_get_size
allocate_all-Within align sizes further h positive is moderate moderate' =
    let a = allocate_all-Allocated align sizes h h.heap_end positive refl is moderate in
    (
      a.blocks,
      a.is,
      omega (arith, a.ends, a.starts, a.is.lower, a.is.upper, a.is.small),
      given_or_full align further (allocate_all align sizes h).1 positive a.is
          (omega (arith, moderate', a.ends)),
    )
