-- ===== src/Heap.antt =====
-- src/integration/heap.c: blocks one behind the other, never freed. Addresses have 32 bits.
pub mod Blocks
mod Tests
use nodeflight_fw.Base.{
  ℕ, ◌+◌, ◌-◌, ◌%◌, Option, none, some, List, [], ◌∷◌, if◌then◌else◌, leb, u32,
}

-- `__heap_start`, `__heap_end` and `cur_alloc`.
pub record Heap : Type 0 where
  pub heap_start : ℕ
  pub heap_end : ℕ
  pub cur_alloc : ℕ

-- The size up to the next multiple of `align`, which is portBYTE_ALIGNMENT; the mask clears what is
-- left of the sum by that power of two.
unfoldable pub req_size : ℕ → ℕ → ℕ
req_size align wanted = let sum = u32 (wanted + (align - 1)) in sum - sum % align

unfoldable pub pv_port_malloc : ℕ → ℕ → Heap → Option ℕ × Heap
unfolding req_size
pv_port_malloc align wanted h =
    let next_block = u32 (h.cur_alloc + req_size align wanted) in
    if leb next_block h.heap_end
    then (some h.cur_alloc, record h { cur_alloc = next_block })
    else (none, h)

unfoldable pub v_port_initialise_blocks : Heap → Heap
v_port_initialise_blocks h = record h { cur_alloc = h.heap_start }

unfoldable pub x_port_get_free_heap_size : Heap → ℕ
x_port_get_free_heap_size h = u32 (h.heap_end + 4294967296 - h.cur_alloc)

unfoldable pub heap_get_size : Heap → ℕ
heap_get_size h = u32 (h.heap_end + 4294967296 - h.heap_start)

unfoldable pub heap_get_usage : Heap → ℕ
heap_get_usage h = u32 (h.cur_alloc + 4294967296 - h.heap_start)

-- A block that was given, and the size that was wanted.
pub record Block : Type 0 where
  pub at : ℕ
  pub size : ℕ

unfoldable pub with_block : ℕ → Option ℕ → List Block → List Block
with_block wanted none blocks = blocks
with_block wanted (some at) blocks = record { at = at; size = wanted } ∷ blocks

-- Requests one after the other: the blocks that were given, and the heap.
unfoldable pub allocate_all : ℕ → List ℕ → Heap → List Block × Heap
unfolding pv_port_malloc with_block
allocate_all align [] h = ([], h)
allocate_all align (wanted ∷ rest) h =
    let first = pv_port_malloc align wanted h in
    let others = allocate_all align rest first.1 in (with_block wanted first.0 others.0, others.1)
