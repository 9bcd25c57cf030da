-- ===== src/BlockDevice/Bounds.antt =====
-- The paths and UUIDs that a probe makes fit the arrays of `struct block_device_info`, NUL included.
use nerves_initramfs.Base.{
  ℕ, zero, suc, ◌+◌, ◌-◌, ◌*◌, ◌%◌, ◌^◌, ◌<◌, true, not, ◌&&◌, ◌||◌, List, [], ◌∷◌, ◌++◌, Option,
  none, some, ◌≡◌, ◌≢◌, ◌⊎◌, refl, arith, Bool-cases, Option-cases, inl, inr, ltb, length, take,
  ◌==◌, All, length-take, lt→ltb, subst,
}
use nerves_initramfs.Base.CString.{Bytes, codes, strcase_eq}
use nerves_initramfs.Base.Format.{hex, hex_02, hex_08, length-hex, dec}
use nerves_initramfs.Base.Int.{pos}
use nerves_initramfs.BlockDevice.Defs.{
  BlockDeviceType, BlockDeviceInfo, Rc, success, failure, byte_at, slice?, p_or_np, from_le32,
  is_zeros, uuid_to_string_me, partition_path, device_path,
}
use nerves_initramfs.BlockDevice.Probe.{
  Pread, System, gpt_loop, gpt_partitions, gpt_disk, probe_gpt_devices, mbr_loop, mbr_disk,
  probe_mbr_devices, has_boot_signature, has_gpt_signature, probe_partitions, probe_loop,
  probe_block_devices,
}
use nerves_initramfs.BlockDevice.Spec.{
  same_type, find_device, strcpy_path, find_block_device_by_uuid,
}

abbrev pub Fits : BlockDeviceInfo → Type 0
Fits device = (length device.path < 32) × (length device.uuid < 48)

-- Nothing, or devices that fit.
abbrev pub AllFit : Option (List BlockDeviceInfo) → Type 0
AllFit none = Unit
AllFit (some devices) = All Fits devices

abbrev pub AllFitRc : Option (Rc × List BlockDeviceInfo) → Type 0
AllFitRc none = Unit
AllFitRc (some (rc, devices)) = All Fits devices

device_path-lt : (devname : Bytes) → length (device_path devname) < 32
unfolding device_path
device_path-lt devname = omega (arith, length-take 31 (codes "/dev/" ++ take 16 devname))

partition_path-lt : (devname p : Bytes) (i : ℕ) → length (partition_path devname p i) < 32
unfolding partition_path
partition_path-lt devname p i =
    omega (arith, length-take 31 (codes "/dev/" ++ (take 16 devname ++ (p ++ dec (pos i)))))

-- The text of a UUID has 36 characters.
length-uuid : (buffer : Bytes) (at : ℕ) → length (uuid_to_string_me buffer at) ≡ 36
unfolding uuid_to_string_me hex
length-uuid buffer at = refl

mbr_uuid-lt : (u i : ℕ) → length (hex_08 u ++ (b'-' ∷ hex_02 i)) < 48
unfolding hex
mbr_uuid-lt u i = omega arith

gpt_loop-AllFit :
    (table devname : Bytes) (size n at : ℕ) (devices : List BlockDeviceInfo)
    → All Fits devices
    → AllFit (gpt_loop table devname size n at devices)
unfolding gpt_loop
gpt_loop-AllFit table devname size zero at devices h = h
gpt_loop-AllFit table devname size (suc n) at devices h = elim (Bool-cases (ltb at size)) [
  | inl e ↦ rw (e, gpt_loop) tt
  | inr e ↦ elim (Option-cases (slice? table (at - size) 16)) [
    | inl e₁ ↦ rw (e, e₁, gpt_loop) tt
    | inr (guid, e₁) ↦ elim (Bool-cases (is_zeros guid)) [
      | inl z ↦ rw (e, e₁, z, gpt_loop) (gpt_loop-AllFit table devname size n (at - size) devices h)
      | inr z ↦ elim (Option-cases (slice? table (at - size + 16) 16)) [
        | inl e₂ ↦ rw (e, e₁, z, e₂, gpt_loop) tt
        | inr (uuid, e₂) ↦
            rw (e, e₁, z, e₂, gpt_loop)
              (gpt_loop-AllFit table devname size n (at - size) _ (
                (
                  partition_path-lt devname (p_or_np devname) (suc n),
                  omega (arith, length-uuid uuid 0),
                ),
                h,
              ))
      ]
    ]
  ]
]

mbr_loop-AllFit :
    (mbr devname : Bytes) (u n : ℕ) (devices : List BlockDeviceInfo)
    → All Fits devices
    → All Fits (mbr_loop mbr devname u n devices)
unfolding mbr_loop
mbr_loop-AllFit mbr devname u zero devices h = h
mbr_loop-AllFit mbr devname u (suc i) devices h =
    mbr_loop-AllFit mbr devname u i _ (elim (Bool-cases (byte_at mbr (446 + i * 16 + 4) == 0)) [
      | inl e ↦ rw e h
      | inr e ↦
          rw e ((partition_path-lt devname (p_or_np devname) (suc i), mbr_uuid-lt u (suc i)), h)
    ])

gpt_partitions-AllFit :
    (pread : Pread) (block devname : Bytes) (devices : List BlockDeviceInfo)
    → All Fits devices
    → AllFitRc (gpt_partitions pread block devname devices)
unfolding gpt_partitions
gpt_partitions-AllFit pread block devname devices h =
    let count = from_le32 block 80 in
    let size = from_le32 block 84 in
    elim (Bool-cases (ltb 256 count)) [
      | inl e ↦ rw (e, gpt_partitions) h
      | inr e ↦ elim (Option-cases (pread (count * size % 2 ^ 32) 1024)) [
        | inl e₁ ↦ rw (e, e₁, gpt_partitions) h
        | inr (table, e₁) ↦
            let walked =
              gpt_loop-AllFit table devname size count (size * count % 2 ^ 32) devices h in
            elim (Option-cases
              (gpt_loop table devname size count (size * count % 2 ^ 32) devices)) [
                | inl e₂ ↦ rw (e, e₁, e₂, gpt_partitions) tt
                | inr (found, e₂) ↦ rw (e, e₁, e₂, gpt_partitions) (subst AllFit e₂ walked)
              ]
      ]
    ]

gpt_disk-Fits : (block devname : Bytes) → Fits (gpt_disk block devname)
unfolding gpt_disk
gpt_disk-Fits block devname = (device_path-lt devname, omega (arith, length-uuid block 56))

mbr_disk-Fits : (mbr devname : Bytes) → Fits (mbr_disk mbr devname)
unfolding mbr_disk
mbr_disk-Fits mbr devname =
    (device_path-lt devname, omega (arith, length-hex 8 (from_le32 mbr 440)))

gpt-AllFit :
    (pread : Pread) (devname : Bytes) (devices : List BlockDeviceInfo)
    → All Fits devices
    → AllFitRc (probe_gpt_devices pread devname devices)
unfolding probe_gpt_devices
gpt-AllFit pread devname devices h = elim (Option-cases (pread 512 0)) [
  | inl e ↦ rw (e, probe_gpt_devices) h
  | inr (mbr, e) ↦
      elim (Bool-cases (not (has_boot_signature mbr) || not (byte_at mbr (446 + 4) == 0xee))) [
        | inl b ↦ rw (e, b, probe_gpt_devices) h
        | inr b ↦ elim (Option-cases (pread 512 512)) [
          | inl e₁ ↦ rw (e, b, e₁, probe_gpt_devices) h
          | inr (block, e₁) ↦ elim (Bool-cases (not (has_gpt_signature block))) [
            | inl s ↦ rw (e, b, e₁, s, probe_gpt_devices) h
            | inr s ↦
                rw (e, b, e₁, s, probe_gpt_devices)
                  (gpt_partitions-AllFit pread block devname (gpt_disk block devname ∷ devices)
                    (gpt_disk-Fits block devname, h))
          ]
        ]
      ]
]

mbr-AllFit :
    (pread : Pread) (devname : Bytes) (devices : List BlockDeviceInfo)
    → All Fits devices
    → All Fits (probe_mbr_devices pread devname devices).1
unfolding probe_mbr_devices
mbr-AllFit pread devname devices h = elim (Option-cases (pread 512 0)) [
  | inl e ↦ rw (e, probe_mbr_devices) h
  | inr (mbr, e) ↦ elim (Bool-cases (not (has_boot_signature mbr))) [
    | inl b ↦ rw (e, b, probe_mbr_devices) h
    | inr b ↦ elim (Bool-cases (byte_at mbr (446 + 4) == 0xee)) [
      | inl g ↦ rw (e, b, g, probe_mbr_devices) h
      | inr g ↦
          rw (e, b, g, probe_mbr_devices)
            (mbr_loop-AllFit mbr devname (from_le32 mbr 440) 4 (mbr_disk mbr devname ∷ devices)
              (mbr_disk-Fits mbr devname, h))
    ]
  ]
]

Rc-cases : (rc : Rc) → (rc ≡ success) ⊎ (rc ≡ failure)
Rc-cases success = inl refl
Rc-cases failure = inr refl

probe_partitions-AllFit :
    (system : System) (devname : Bytes) (devices : List BlockDeviceInfo)
    → All Fits devices
    → AllFitRc (probe_partitions system devname devices)
unfolding probe_partitions
probe_partitions-AllFit system devname devices h =
    elim (Option-cases (system.open_device (device_path devname))) [
      | inl e ↦ rw (e, probe_partitions) h
      | inr (pread, e) ↦
          let fits = mbr-AllFit pread devname devices h in
          elim (Rc-cases (probe_mbr_devices pread devname devices).0) [
            | inl m ↦ rw (e, m, probe_partitions) fits
            | inr m ↦
                rw (e, m, probe_partitions)
                  (gpt-AllFit pread devname (probe_mbr_devices pread devname devices).1 fits)
          ]
    ]

probe_loop-AllFit :
    (system : System) (names : List Bytes) (devices : List BlockDeviceInfo)
    → All Fits devices
    → AllFit (probe_loop system names devices)
unfolding probe_loop
probe_loop-AllFit system [] devices h = h
probe_loop-AllFit system (name ∷ names) devices h = elim (Bool-cases (byte_at name 0 == b'.')) [
  | inl e ↦ rw (e, probe_loop) (probe_loop-AllFit system names devices h)
  | inr e ↦
      let probed = probe_partitions-AllFit system name devices h in
      elim (Option-cases (probe_partitions system name devices)) [
        | inl e₁ ↦ rw (e, e₁, probe_loop) tt
        | inr ((rc, found), e₁) ↦
            rw (e, e₁, probe_loop) (probe_loop-AllFit system names found (subst AllFitRc e₁ probed))
      ]
]

-- Whatever the disks hold, each probed device has a path that fits 32 bytes and a UUID that fits 48,
-- with the terminating NUL.
pub probe_block_devices-AllFit : (system : System) → AllFit (probe_block_devices system)
unfolding probe_block_devices
probe_block_devices-AllFit system = elim (Option-cases system.sys_block) [
  | inl e ↦ rw (e, probe_block_devices) tt
  | inr (names, e) ↦ rw (e, probe_block_devices) (probe_loop-AllFit system names [] tt)
]

find_device-Fits :
    (type : BlockDeviceType) (uuid : Bytes) (devices : List BlockDeviceInfo) {path : Bytes}
    → All Fits devices
    → find_device type uuid devices ≡ some path
    → length path < 32
unfolding find_device
find_device-Fits type uuid [] h e = ground arith
find_device-Fits type uuid (d ∷ devices) {path} h e =
    elim (Bool-cases (same_type type d.type && strcase_eq uuid d.uuid)) [
      | inl m ↦ let same : d.path ≡ path = ground arith in subst (λ p. length p < 32) same h.0.0
      | inr m ↦ find_device-Fits type uuid devices h.1 (rw (m, find_device) at e)
    ]

-- A lookup by UUID never overflows the caller's path buffer: it has a fault only where the probe
-- has.
by_uuid_no_overflow :
    (system : System) (type : BlockDeviceType) (uuid path : Bytes)
    → probe_block_devices system ≢ none
    → find_block_device_by_uuid system type uuid path ≢ none
unfolding find_block_device_by_uuid strcpy_path
by_uuid_no_overflow system type uuid path ok = elim (Option-cases (probe_block_devices system)) [
  | inl e ↦ absurd (ok e)
  | inr (devices, e) ↦ elim (Option-cases (find_device type uuid devices)) [
    | inl e₁ ↦ rw (e, e₁, find_block_device_by_uuid) (λ x. ground arith)
    | inr (found, e₁) ↦
        let short : ltb (length found) 32 ≡ true = lt→ltb _ _ (
          find_device-Fits type uuid devices (subst AllFit e (probe_block_devices-AllFit system))
            e₁) in
        rw (e, e₁, short, find_block_device_by_uuid) (λ x. ground arith)
  ]
]
