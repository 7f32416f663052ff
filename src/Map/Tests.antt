-- ===== src/Map/Tests.antt =====
-- The law of set and get at a map with one element.
use nodeflight_fw.Base.{
  minus_one, ◌⊎◌, ℕ, true, none, some, List, [], ◌∷◌, Bytes, ◌≡◌, ◌≢◌, pos, replicate,
}
use nodeflight_fw.Map.{Chunk, map_set, map_get}
use nodeflight_fw.Map.Laws.{elems, Packed, all_free, map_get-map_set}

abbrev one_chunk : Chunk ℕ
one_chunk =
    record { tag = some (0x61 ∷ []); ptr = some 1 }
    ∷ replicate 15 (record { tag = none; ptr = none })

one_chunk-Packed : Packed (elems (one_chunk ∷ []))
unfolding elems
one_chunk-Packed = all_free ℕ 14

map_get-map_set_example :
    ((one_chunk ∷ [] ≡ [])
      × (map_set true true (0x62 ∷ []) (some 2) (one_chunk ∷ []) ≡ (minus_one, [])))
    ⊎ ((m' : List (Chunk ℕ)) × (map_set true true (0x62 ∷ []) (some 2) (one_chunk ∷ [])
          ≡ (pos 0, m'))
        × (map_get (0x62 ∷ []) m' ≡ some 2)
        × ((other : Bytes) → 0x62 ∷ [] ≢ other → map_get other m' ≡ map_get other (one_chunk ∷ []))
        × Packed (elems m'))
map_get-map_set_example = map_get-map_set (0x62 ∷ []) (some 2) (one_chunk ∷ []) one_chunk-Packed
