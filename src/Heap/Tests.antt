-- ===== src/Heap/Tests.antt =====
-- Three requests, the second of which is too large.
use nodeflight_fw.Base.{ℕ, ◌+◌, List, [], ◌∷◌, ◌≡◌, ◌<◌, ◌⊎◌, some, none, arith}
use nodeflight_fw.Heap.{
  pv_port_malloc, Heap, allocate_all, heap_get_usage, heap_get_size, x_port_get_free_heap_size,
}
use nodeflight_fw.Heap.Blocks.{IsHeap, Within, allocate_all-Within}

abbrev heap : Heap
heap = record { heap_start = 536870912; heap_end = 536871912; cur_alloc = 536870920 }

heap-IsHeap : IsHeap heap
heap-IsHeap = record { lower = omega arith; upper = omega arith; small = omega arith }

abbrev sizes : List ℕ
sizes = 10 ∷ 2000 ∷ 3 ∷ []

allocate_all-Within_example :
    let end = (allocate_all 8 sizes heap).1 in
    Within heap.cur_alloc end.cur_alloc (allocate_all 8 sizes heap).0
    × IsHeap end
    × (heap_get_usage end + x_port_get_free_heap_size end ≡ heap_get_size heap)
    × (((h' : Heap) × (pv_port_malloc 8 5 end ≡ (some end.cur_alloc, h')))
        ⊎ ((end.heap_end < end.cur_alloc + 5 + 8) × (pv_port_malloc 8 5 end ≡ (none, end))))
allocate_all-Within_example =
    allocate_all-Within 8 sizes 5 heap (omega arith) heap-IsHeap
      (omega arith, (omega arith, (omega arith, tt))) (omega arith)
