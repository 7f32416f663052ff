-- ===== src/Fport/Tests.antt =====
-- The theorems on the frames of the receiver at concrete bytes.
use nodeflight_fw.Base.{ℕ, ◌≡◌, some, List, [], ◌∷◌, ◌++◌, Bytes, length, arith}
use nodeflight_fw.Fport.{fport_checksum, eight_channels}
use nodeflight_fw.Fport.Checksum.{sum, Folded, fport_checksum-Folded}
use nodeflight_fw.Fport.Channels.{AllBelow, number, eight_channels-number}

abbrev packet : Bytes
packet = 0x01 ∷ 0xf0 ∷ 0x0e ∷ []

fport_checksum-Folded_example :
    (r : ℕ) × (fport_checksum (packet ++ 7 ∷ []) (length packet) ≡ some r) × Folded (sum packet) r
fport_checksum-Folded_example =
    fport_checksum-Folded packet (7 ∷ []) (omega arith)
      (omega arith, (omega arith, (omega arith, tt)))

abbrev bytes : Bytes
bytes = 1 ∷ 2 ∷ 3 ∷ 4 ∷ 5 ∷ 6 ∷ 7 ∷ 8 ∷ 9 ∷ 10 ∷ 255 ∷ []

bytes_below : AllBelow 256 bytes
bytes_below = (
  omega arith,
  (
    omega arith,
    (
      omega arith,
      (
        omega arith,
        (
          omega arith,
          (
            omega arith,
            (omega arith, (omega arith, (omega arith, (omega arith, (omega arith, tt))))),
          ),
        ),
      ),
    ),
  ),
)

eight_channels-number_example :
    (channels : List ℕ) × (eight_channels
        ((0x19 ∷ 0 ∷ []) ++ (bytes ++ []))
        (length {A = ℕ} (0x19 ∷ 0 ∷ []))
      ≡ some channels)
    × (length channels ≡ 8)
    × AllBelow 2048 channels
    × (number 2048 channels ≡ number 256 bytes)
eight_channels-number_example =
    eight_channels-number (0x19 ∷ 0 ∷ []) [] 1 2 3 4 5 6 7 8 9 10 255 bytes_below
