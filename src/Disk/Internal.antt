-- ===== src/Disk/Internal.antt =====
-- The bounds of the disk in the flash memory.
use nodeflight_fw.Base.{
  true, false, ap₂, ◌∷◌, lt→ltb, ge→ltb, ltb→lt, zero, suc, ◌≤◌, ◌++◌, Bool-cases, ltb→ge, inl, inr,
  some, List, Bytes, length, take, drop, get_elem?, sym, ap, ◌∙◌, ℕ, ◌+◌, ◌*◌, ◌<◌, ◌≡◌, refl, ltb,
  if◌then◌else◌, [], u32, arith,
}
use nodeflight_fw.Disk.{
  IntCodes, Flash, DiskAccess, Disks, disk_int, disk_int_read, flash_bytes, disk_read,
}
use nodeflight_fw.Disk.Registered.{Registered, disk_of-Registered}
use nodeflight_fw.Sdcard.Transfer.{write_at_split}

-- Without a wrap of the addresses, a read of sectors that end in the image gives them, and a read of
-- sectors that end behind it is an error that copies nothing.
disk_int_read-bounds :
    (codes : IntCodes) (f : Flash) (sector count : ℕ)
    → f.l1conf_start + 512 * sector + 512 * count < 4294967296
    → disk_int_read codes f sector count ≡ (
        if ltb f.l1conf_end (f.l1conf_start + 512 * sector + 512 * count)
        then (codes.res_error, [])
        else (codes.res_ok, flash_bytes f.byte (512 * count) (f.l1conf_start + 512 * sector)))
unfolding disk_int_read
disk_int_read-bounds codes f sector count room =
    let same : u32 (512 * sector) ≡ 512 * sector = omega (arith, room) in
    let same' : u32 (512 * count) ≡ 512 * count = omega (arith, room) in
    let from : u32 (f.l1conf_start + 512 * sector) ≡ f.l1conf_start + 512 * sector =
      omega (arith, room) in
    let to : u32 (f.l1conf_start + 512 * sector + 512 * count)
        ≡ f.l1conf_start + 512 * sector + 512 * count =
      omega (arith, room) in
    rw (same, same', from, to) refl

-- The number of a sector counts only modulo 2^23: a read far behind the image gives its sectors.
disk_int_read-wraps :
    (codes : IntCodes) (f : Flash) (sector count : ℕ)
    → disk_int_read codes f (sector + 8388608) count ≡ disk_int_read codes f sector count
unfolding disk_int_read
disk_int_read-wraps codes f sector count =
    let same : u32 (512 * (sector + 8388608)) ≡ u32 (512 * sector) = omega arith in rw same refl

length-flash_bytes : (byte : ℕ → ℕ) (n at : ℕ) → length (flash_bytes byte n at) ≡ n
unfolding flash_bytes
length-flash_bytes byte zero at = refl
length-flash_bytes byte (suc n) at = omega (arith, length-flash_bytes byte n (suc at))

-- A part of what the flash memory holds.
flash_bytes-part :
    (byte : ℕ → ℕ) (k m n at : ℕ)
    → k + m ≤ n
    → flash_bytes byte m (at + k) ≡ take m (drop k (flash_bytes byte n at))
unfolding flash_bytes
flash_bytes-part byte zero zero n at le = refl
flash_bytes-part byte zero (suc m) zero at le = absurd (omega (arith, le))
flash_bytes-part byte zero (suc m) (suc n) at le =
    let here : at + 0 ≡ at = omega arith in
    let next : suc (at + 0) ≡ suc at + 0 = omega arith in
    ap₂ (λ (a : ℕ) (bytes : Bytes). byte a ∷ bytes) here
      (ap (flash_bytes byte m) next ∙ flash_bytes-part byte zero m n (suc at) (omega (arith, le)))
flash_bytes-part byte (suc k) m zero at le = absurd (omega (arith, le))
flash_bytes-part byte (suc k) m (suc n) at le =
    let next : at + suc k ≡ suc at + k = omega arith in
    ap (flash_bytes byte m) next ∙ flash_bytes-part byte k m n (suc at) (omega (arith, le))

-- The whole way of a read: the disk of the volume, the test of the bounds and the copy to the buffer.
-- If the internal disk is registered as a volume, its image stands in the flash memory between the two
-- addresses, no address wraps and the buffer has `512 * count` bytes, then `disk_read` of that volume
-- replaces the buffer by that part of the image where the sectors end in the image, and returns
-- `res_error` and leaves the buffer where they do not; what stands in the memory behind the buffer stays.
pub disk_read-image :
    (codes : IntCodes) (f : Flash) (image old post : Bytes) (ff_volumes pdrv sector count : ℕ)
    (ds : List (DiskAccess (Unit {0}))) (d : Disks (Unit {0}))
    → Registered ff_volumes ds d
    → get_elem? ds pdrv ≡ some (disk_int codes f)
    → flash_bytes f.byte (length image) f.l1conf_start ≡ image
    → f.l1conf_end ≡ f.l1conf_start + length image
    → f.l1conf_start + 512 * sector + 512 * count < 4294967296
    → length old ≡ 512 * count
    → disk_read d pdrv (old ++ post) sector count tt ≡ (
        if ltb (length image) (512 * sector + 512 * count)
        then some ((codes.res_error, old ++ post), tt)
        else some ((codes.res_ok, take (512 * count) (drop (512 * sector) image) ++ post), tt))
unfolding disk_read disk_int
disk_read-image codes f image old post ff_volumes pdrv sector count ds d r is_disk stored ends room
      size =
    let given = disk_of-Registered ff_volumes pdrv (disk_int codes f) ds d r is_disk in
    let bounds = disk_int_read-bounds codes f sector count room in
    elim (Bool-cases (ltb (length image) (512 * sector + 512 * count))) [
      | inl z ↦
          let behind : ltb f.l1conf_end (f.l1conf_start + 512 * sector + 512 * count) ≡ true =
            lt→ltb _ _
              (omega (arith, ends, ltb→lt (length image) (512 * sector + 512 * count) z)) in
          let kept = write_at_split [] [] [] (old ++ post) 0 refl refl in
          rw (given, bounds, z, behind, kept) refl
      | inr z ↦
          let within = ltb→ge (length image) (512 * sector + 512 * count) z in
          let inside : ltb f.l1conf_end (f.l1conf_start + 512 * sector + 512 * count) ≡ false =
            ge→ltb _ _ (omega (arith, ends, within)) in
          let part : flash_bytes f.byte (512 * count) (f.l1conf_start + 512 * sector)
              ≡ take (512 * count) (drop (512 * sector) image) =
            flash_bytes-part f.byte (512 * sector) (512 * count) (length image) f.l1conf_start
              within
            ∙ ap (λ b. take (512 * count) (drop (512 * sector) b)) stored in
          let copied =
            write_at_split [] old (flash_bytes f.byte (512 * count) (f.l1conf_start + 512 * sector))
              post 0 refl
              (size
                ∙ sym (length-flash_bytes f.byte (512 * count) (f.l1conf_start + 512 * sector))) in
          rw (given, bounds, z, inside, copied, part) refl
    ]
