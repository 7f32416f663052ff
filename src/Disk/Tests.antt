-- ===== src/Disk/Tests.antt =====
-- The theorems on disks at the disk in the flash memory.
use nodeflight_fw.Base.{
  List, ℕ, zero, suc, refl, none, ltb, if◌then◌else◌, take, drop, replicate, ap, ltb, if◌then◌else◌,
  ◌+◌, ◌*◌, ◌<◌, true, some, [], ◌∷◌, ◌++◌, ◌≡◌, ◌⊎◌, length, pos, minus_one, arith,
}
use nodeflight_fw.Disk.{
  IntCodes, Flash, volume_str_not_mounted, DiskAccess, Disks, disk_access_init,
  disk_access_register, disk_int, disk_read, flash_bytes,
}
use nodeflight_fw.Disk.Internal.{disk_read-image}
use nodeflight_fw.Disk.Registered.{Registered, init-Registered, register-Registered}

abbrev codes : IntCodes
codes = record { sta_protect = 4; res_ok = 0; res_error = 1; res_wrprt = 2; res_parerr = 4 }

-- An image of two sectors.
abbrev flash : Flash
flash = record { byte = λ at. 7; l1conf_start = 0x08000000; l1conf_end = 0x08000400 }

abbrev internal : DiskAccess (Unit {0})
internal = disk_int codes flash

abbrev empty : Disks (Unit {0})
empty = disk_access_init 4

register-Registered_example :
    ((length {A = DiskAccess (Unit {0})} [] ≡ 4)
      × (disk_access_register 4 true true internal empty ≡ some (minus_one, empty)))
    ⊎ ((d' : Disks (Unit {0})) × (length {A = DiskAccess (Unit {0})} [] < 4)
        × (disk_access_register 4 true true internal empty ≡ some (pos 0, d'))
        × Registered 4 ([] ++ internal ∷ []) d')
register-Registered_example = register-Registered 4 true true internal [] empty (init-Registered 4)

sevens : (n at : ℕ) → flash_bytes (λ at. 7) n at ≡ replicate n 7
unfolding flash_bytes
sevens zero at = refl
sevens (suc n) at = ap (λ bytes. 7 ∷ bytes) (sevens n (suc at))

abbrev image : List ℕ
image = replicate 1024 7

abbrev one_disk : Disks (Unit {0})
one_disk = record {
  disk_access = some internal ∷ none ∷ [];
  volume_str = internal.name ∷ volume_str_not_mounted ∷ [];
  disks_mounted = 1;
}

one_disk-Registered : Registered 2 (internal ∷ []) one_disk
one_disk-Registered = record {
  room = 1;
  volumes = refl;
  disk_access = refl;
  volume_str = refl;
  disks_mounted = refl;
}

-- The second sector.
disk_read-image_example : disk_read one_disk 0 (replicate 512 0 ++ 9 ∷ []) 1 1 tt ≡ (
    if ltb (length {A = ℕ} (replicate 1024 7)) (512 * 1 + 512 * 1)
    then some ((1, replicate 512 0 ++ 9 ∷ []), tt)
    else some ((0, take (512 * 1) (drop (512 * 1) image) ++ 9 ∷ []), tt))
disk_read-image_example =
    disk_read-image codes flash image (replicate 512 0) (9 ∷ []) 2 0 1 1 (internal ∷ []) one_disk
      one_disk-Registered refl (sevens (length image) 0x08000000) refl (omega arith) refl
