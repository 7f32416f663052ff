-- ===== src/Disk/Registered.antt =====
-- The disks that are registered.
use nodeflight_fw.Base.{
  ℕ, zero, suc, ◌+◌, ◌<◌, Bool, true, false, none, some, List, [], ◌∷◌, ◌++◌, map, length-append,
  ◌≡◌, refl, sym, ap, ◌∙◌, ◌⊎◌, inl, inr, if◌then◌else◌, leb, le→leb, length, replicate, get_elem?,
  store, store-append, pos, minus_one, arith,
}
use nodeflight_fw.Disk.{
  DiskAccess, Disks, volume_str_not_mounted, disk_access_init, disk_access_register, disk_of,
  or_fault,
}

gt→leb : (a b : ℕ) → b < a → leb a b ≡ false
gt→leb a b h = ground arith

module _ {S : Type 0} where
  -- The tables hold the disks in the order they were registered in.
  pub record Registered (ff_volumes : ℕ) (ds : List (DiskAccess S)) (d : Disks S) : Type 0 where
    pub room : ℕ
    pub volumes : length ds + room ≡ ff_volumes
    pub disk_access : d.disk_access ≡ map some ds ++ replicate room none
    pub volume_str : d.volume_str ≡ map DiskAccess.name ds ++ replicate room volume_str_not_mounted
    pub disks_mounted : d.disks_mounted ≡ length ds

  pub init-Registered : (ff_volumes : ℕ) → Registered ff_volumes [] (disk_access_init ff_volumes)
  unfolding disk_access_init
  init-Registered ff_volumes = record {
    room = ff_volumes;
    volumes = omega arith;
    disk_access = refl;
    volume_str = refl;
    disks_mounted = refl;
  }

  map-append :
      {B : Type 0} (g : DiskAccess S → B) (ds : List (DiskAccess S)) (dacc : DiskAccess S)
      (bs : List B)
      → map g ds ++ g dacc ∷ bs ≡ map g (ds ++ dacc ∷ []) ++ bs
  map-append g [] dacc bs = refl
  map-append g (e ∷ ds) dacc bs = ap (◌∷◌ (g e)) (map-append g ds dacc bs)

  length-map :
      {B : Type 0} (g : DiskAccess S → B) (ds : List (DiskAccess S)) → length (map g ds) ≡ length ds
  length-map g [] = refl
  length-map g (e ∷ ds) = ap suc (length-map g ds)

  register_room :
      (ff_volumes : ℕ) (memory mounts : Bool) (dacc : DiskAccess S) (ds : List (DiskAccess S))
      (d : Disks S) (room : ℕ)
      → length ds + room ≡ ff_volumes
      → d.disk_access ≡ map some ds ++ replicate room none
      → d.volume_str ≡ map DiskAccess.name ds ++ replicate room volume_str_not_mounted
      → d.disks_mounted ≡ length ds
      → ((length ds ≡ ff_volumes)
          × (disk_access_register ff_volumes memory mounts dacc d ≡ some (minus_one, d)))
        ⊎ ((d' : Disks S) × (length ds < ff_volumes)
            × (disk_access_register ff_volumes memory mounts dacc d
                ≡ some (if memory then if mounts then pos 0 else minus_one else minus_one, d'))
            × Registered ff_volumes (ds ++ dacc ∷ []) d')
  unfolding disk_access_register
  register_room ff_volumes memory mounts dacc ds d zero volumes access names mounted =
      let full : leb ff_volumes d.disks_mounted ≡ true =
        le→leb ff_volumes d.disks_mounted (omega (arith, volumes, mounted)) in
      inl (omega (arith, volumes), rw full refl)
  register_room ff_volumes memory mounts dacc ds d (suc room) volumes access names mounted =
      let free : leb ff_volumes d.disks_mounted ≡ false =
        gt→leb ff_volumes d.disks_mounted (omega (arith, volumes, mounted)) in
      let put : store d.disk_access d.disks_mounted (some dacc)
          ≡ some (map some (ds ++ dacc ∷ []) ++ replicate room none) =
        ap (λ t. store t d.disks_mounted (some dacc)) access
        ∙ store-append (map some ds) (replicate room none) none (some dacc) d.disks_mounted
            (mounted ∙ sym (length-map some ds))
        ∙ ap some (map-append some ds dacc (replicate room none)) in
      let name : store d.volume_str d.disks_mounted dacc.name
          ≡ some (map DiskAccess.name (ds ++ dacc ∷ []) ++ replicate room volume_str_not_mounted) =
        ap (λ t. store t d.disks_mounted dacc.name) names
        ∙ store-append (map DiskAccess.name ds) (replicate room volume_str_not_mounted)
            volume_str_not_mounted dacc.name d.disks_mounted
            (mounted ∙ sym (length-map DiskAccess.name ds))
        ∙ ap some (map-append DiskAccess.name ds dacc (replicate room volume_str_not_mounted)) in
      let d' : Disks S = record {
        disk_access = map some (ds ++ dacc ∷ []) ++ replicate room none;
        volume_str = map DiskAccess.name (ds ++ dacc ∷ []) ++ replicate room volume_str_not_mounted;
        disks_mounted = d.disks_mounted + 1;
      } in
      inr (
        d',
        omega (arith, volumes),
        rw (free, put, name) refl,
        record {
          room = room;
          volumes = omega (arith, volumes, length-append ds (dacc ∷ []));
          disk_access = refl;
          volume_str = refl;
          disks_mounted = omega (arith, mounted, length-append ds (dacc ∷ []));
        },
      )

  -- A disk is refused with -1 while all volumes are taken, and nothing is changed. Else it is put behind
  -- the others, with its name, also where the result is -1 since there is no memory or it is not mounted.
  pub register-Registered :
      (ff_volumes : ℕ) (memory mounts : Bool) (dacc : DiskAccess S) (ds : List (DiskAccess S))
      (d : Disks S)
      → Registered ff_volumes ds d
      → ((length ds ≡ ff_volumes)
          × (disk_access_register ff_volumes memory mounts dacc d ≡ some (minus_one, d)))
        ⊎ ((d' : Disks S) × (length ds < ff_volumes)
            × (disk_access_register ff_volumes memory mounts dacc d
                ≡ some (if memory then if mounts then pos 0 else minus_one else minus_one, d'))
            × Registered ff_volumes (ds ++ dacc ∷ []) d')
  register-Registered ff_volumes memory mounts dacc ds d r =
      register_room ff_volumes memory mounts dacc ds d r.room r.volumes r.disk_access r.volume_str
        r.disks_mounted

  get_elem?-registered :
      (ds : List (DiskAccess S)) (room pdrv : ℕ) (dacc : DiskAccess S)
      → get_elem? ds pdrv ≡ some dacc
      → or_fault (get_elem? (map some ds ++ replicate room none) pdrv) ≡ some dacc
  get_elem?-registered [] room pdrv dacc e = absurd cc
  get_elem?-registered (x ∷ ds) room zero dacc e = e
  get_elem?-registered (x ∷ ds) room (suc pdrv) dacc e = get_elem?-registered ds room pdrv dacc e

  -- The calls for a volume go to the disk that was registered as that one.
  pub disk_of-Registered :
      (ff_volumes pdrv : ℕ) (dacc : DiskAccess S) (ds : List (DiskAccess S)) (d : Disks S)
      → Registered ff_volumes ds d
      → get_elem? ds pdrv ≡ some dacc
      → disk_of d pdrv ≡ some dacc
  disk_of-Registered ff_volumes pdrv dacc ds d r e =
      ap (λ t. or_fault (get_elem? t pdrv)) r.disk_access
      ∙ get_elem?-registered ds r.room pdrv dacc e
