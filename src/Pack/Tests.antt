-- ===== src/Pack/Tests.antt =====
-- Words in a small buffer.
use nodeflight_fw.Base.{some, [], ◌∷◌, ◌++◌, ◌≡◌, Bytes, length, arith}
use nodeflight_fw.Pack.{pack_from_u32, pack_to_u32, pack_from_u16, pack_to_u16}
use nodeflight_fw.Pack.RoundTrip.{pack_lem, bytes_of_u32, bytes_of_u16}

abbrev before : Bytes
before = 1 ∷ 2 ∷ []

abbrev behind : Bytes
behind = 7 ∷ []

pack_lem_example :
    ((buf : Bytes) × (pack_from_u32 (before ++ 0 ∷ 0 ∷ 0 ∷ 0 ∷ behind) (length before) 0xdeadbeef
        ≡ some buf)
      × (pack_to_u32 buf (length before) ≡ some 0xdeadbeef)
      × (buf ≡ before ++ (bytes_of_u32 0xdeadbeef ++ behind)))
    × ((buf : Bytes) × (pack_from_u16 (before ++ 0 ∷ 0 ∷ behind) (length before) 0xcafe ≡ some buf)
        × (pack_to_u16 buf (length before) ≡ some 0xcafe)
        × (buf ≡ before ++ (bytes_of_u16 0xcafe ++ behind)))
pack_lem_example = pack_lem before behind 0 0 0 0 0xdeadbeef 0xcafe (omega arith) (omega arith)
