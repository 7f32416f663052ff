-- ===== src/Disk.antt =====
-- src/core/disk_access.c and disk_int.c: the disks of FatFs, and the one in the flash memory.
pub mod Registered
pub mod Internal
mod Tests
use nodeflight_fw.Base.{
  ℕ, zero, suc, ◌+◌, ◌*◌, Bool, Option, none, some, List, [], ◌∷◌, Bytes, length, replicate,
  get_elem?, store, leb, ltb, if◌then◌else◌, ◌==◌, u32, ◌>>=◌, ℤ, pos, minus_one,
}
use nodeflight_fw.Sdcard.Jobs.{write_at}

-- The functions of a disk over its storage, whose state is `S`; a result stands with the state behind it.
-- A read gets what stands in the memory from `buff` on; `none` is a store out of it.
pub record DiskAccess (S : Type 0) : Type 0 where
  pub name : Bytes
  pub initialize : S → ℕ × S
  pub status : S → ℕ × S
  pub read : Bytes → ℕ → ℕ → S → Option ((ℕ × Bytes) × S)
  pub write : Bytes → ℕ → ℕ → S → ℕ × S
  pub ioctl : ℕ → Bytes → S → (ℕ × Bytes) × S

-- The tables, with as many places as FatFs has volumes.
pub record Disks (S : Type 0) : Type 0 where
  pub disk_access : List (Option (DiskAccess S))
  pub volume_str : List Bytes
  pub disks_mounted : ℕ

-- "not_mounted".
abbrev pub volume_str_not_mounted : Bytes
volume_str_not_mounted = 110 ∷ 111 ∷ 116 ∷ 95 ∷ 109 ∷ 111 ∷ 117 ∷ 110 ∷ 116 ∷ 101 ∷ 100 ∷ []

module _ {S : Type 0} where
  unfoldable pub disk_access_init : ℕ → Disks S
  disk_access_init ff_volumes = record {
    disk_access = replicate ff_volumes none;
    volume_str = replicate ff_volumes volume_str_not_mounted;
    disks_mounted = 0;
  }

  -- `memory` is whether there is memory for the state of FatFs, `mounts` whether `f_mount` gives FR_OK.
  unfoldable pub disk_access_register :
      ℕ → Bool → Bool → DiskAccess S → Disks S → Option (ℤ × Disks S)
  disk_access_register ff_volumes memory mounts dacc d =
      if leb ff_volumes d.disks_mounted
      then some (minus_one, d)
      else (store d.disk_access d.disks_mounted (some dacc) >>= λ access.
          store d.volume_str d.disks_mounted dacc.name >>= λ names.
          (let d' : Disks S = record {
            disk_access = access;
            volume_str = names;
            disks_mounted = d.disks_mounted + 1;
          } in
            some (if memory then if mounts then pos 0 else minus_one else minus_one, d')))

  -- The disk of a number; `none` is a read out of the table or through NULL.
  abbrev pub or_fault : Option (Option (DiskAccess S)) → Option (DiskAccess S)
  or_fault none = none
  or_fault (some dacc) = dacc

  abbrev pub disk_of : Disks S → ℕ → Option (DiskAccess S)
  disk_of d pdrv = or_fault (get_elem? d.disk_access pdrv)

  unfoldable pub disk_initialize : Disks S → ℕ → S → Option (ℕ × S)
  disk_initialize d pdrv s = disk_of d pdrv >>= λ dacc. some (dacc.initialize s)

  unfoldable pub disk_status : Disks S → ℕ → S → Option (ℕ × S)
  disk_status d pdrv s = disk_of d pdrv >>= λ dacc. some (dacc.status s)

  unfoldable pub disk_read : Disks S → ℕ → Bytes → ℕ → ℕ → S → Option ((ℕ × Bytes) × S)
  disk_read d pdrv buff sector count s = disk_of d pdrv >>= λ dacc. dacc.read buff sector count s

  unfoldable pub disk_write : Disks S → ℕ → Bytes → ℕ → ℕ → S → Option (ℕ × S)
  disk_write d pdrv buff sector count s =
      disk_of d pdrv >>= λ dacc. some (dacc.write buff sector count s)

  unfoldable pub disk_ioctl : Disks S → ℕ → ℕ → Bytes → S → Option ((ℕ × Bytes) × S)
  disk_ioctl d pdrv cmd buff s = disk_of d pdrv >>= λ dacc. some (dacc.ioctl cmd buff s)

-- The codes of FatFs that the internal disk returns.
pub record IntCodes : Type 0 where
  pub sta_protect : ℕ
  pub res_ok : ℕ
  pub res_error : ℕ
  pub res_wrprt : ℕ
  pub res_parerr : ℕ

-- The flash memory, and where the image of the disk starts and ends in it.
pub record Flash : Type 0 where
  pub byte : ℕ → ℕ
  pub l1conf_start : ℕ
  pub l1conf_end : ℕ

-- `memcpy` of a part of the flash memory.
unfoldable pub flash_bytes : (ℕ → ℕ) → ℕ → ℕ → Bytes
flash_bytes byte zero at = []
flash_bytes byte (suc n) at = byte at ∷ flash_bytes byte n (suc at)

-- The read of sectors: the result, and what is copied. Numbers and addresses have 32 bits.
unfoldable pub disk_int_read : IntCodes → Flash → ℕ → ℕ → ℕ × Bytes
unfolding flash_bytes
disk_int_read codes f sector count =
    let from = u32 (f.l1conf_start + u32 (512 * sector)) in
    if ltb f.l1conf_end (u32 (from + u32 (512 * count)))
    then (codes.res_error, [])
    else (codes.res_ok, flash_bytes f.byte (u32 (512 * count)) from)

-- The internal disk, as `disk_int_init` registers it.
unfoldable pub disk_int : IntCodes → Flash → DiskAccess (Unit {0})
unfolding disk_int_read
disk_int codes f = record {
  name = 105 ∷ 110 ∷ 116 ∷ [];
  initialize = λ s. (codes.sta_protect, s);
  status = λ s. (codes.sta_protect, s);
  read = λ buff sector count s.
      (let r = disk_int_read codes f sector count in
        write_at buff 0 (some r.1) >>= λ buff'. some ((r.0, buff'), s));
  write = λ buff sector count s. (codes.res_wrprt, s);
  ioctl = λ cmd buff s. ((codes.res_parerr, buff), s);
}
