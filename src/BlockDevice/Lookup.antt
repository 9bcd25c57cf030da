-- ===== src/BlockDevice/Lookup.antt =====
-- Which device a specification names, and what a specification that is too long does.
use nerves_initramfs.Base.{
  true, List, [], ◌∷◌, ◌++◌, none, some, ◌≡◌, ◌⊎◌, inl, inr, refl, ap, arith, Bool-cases,
  Option-cases, All, ◌&&◌,
}
use nerves_initramfs.Base.CString.{Bytes, codes, strcase_eq, has_prefix}
use nerves_initramfs.BlockDevice.Defs.{BlockDeviceType, disk, partition, BlockDeviceInfo}
use nerves_initramfs.BlockDevice.Probe.{System, probe_block_devices}
use nerves_initramfs.BlockDevice.Spec.{
  same_type, find_device, find_block_device_by_uuid, find_block_device_by_spec,
}

-- A device that the lookup takes.
abbrev pub Matches : BlockDeviceType → Bytes → BlockDeviceInfo → Type 0
Matches type uuid device =
    (same_type type device.type ≡ true) × (strcase_eq uuid device.uuid ≡ true)

-- The lookup returns the path of the first device of its type with its UUID, and nothing exactly
-- when there is none.
find_device_first :
    (type : BlockDeviceType) (uuid : Bytes) (devices : List BlockDeviceInfo)
    → ((find_device type uuid devices ≡ none) × All (λ d. ¬ Matches type uuid d) devices)
      ⊎ ((before : List BlockDeviceInfo) × (device : BlockDeviceInfo) × (after : List
            BlockDeviceInfo)
          × (devices ≡ before ++ (device ∷ after))
          × Matches type uuid device
          × All (λ d. ¬ Matches type uuid d) before
          × (find_device type uuid devices ≡ some device.path))
unfolding find_device
find_device_first type uuid [] = inl (refl, tt)
find_device_first type uuid (d ∷ devices) =
    elim (Bool-cases (same_type type d.type && strcase_eq uuid d.uuid)) [
      | inl e ↦ inr ([], d, devices, refl, ground arith, tt, rw e)
      | inr e ↦ elim (find_device_first type uuid devices) [
        | inl (absent, others) ↦ inl (rw e absent, (λ m. ground arith, others))
        | inr (before, device, after, split, m, others, found) ↦ inr (
          d ∷ before,
          device,
          after,
          ap (◌∷◌ d) split,
          m,
          (λ k. ground arith, others),
          rw e found,
        )
      ]
    ]

strcase_eq_trans : (a b c : Bytes) → strcase_eq a b ≡ true → strcase_eq a c ≡ strcase_eq b c
unfolding strcase_eq
strcase_eq_trans [] [] c h = refl
strcase_eq_trans [] (y ∷ b) c h = ground arith
strcase_eq_trans (x ∷ a) [] c h = ground arith
strcase_eq_trans (x ∷ a) (y ∷ b) [] h = refl
strcase_eq_trans (x ∷ a) (y ∷ b) (z ∷ c) h = ground (arith, strcase_eq_trans a b c)

find_device_case :
    (type : BlockDeviceType) (u v : Bytes) (devices : List BlockDeviceInfo)
    → strcase_eq u v ≡ true
    → find_device type u devices ≡ find_device type v devices
unfolding find_device
find_device_case type u v [] h = refl
find_device_case type u v (d ∷ devices) h =
    rw (strcase_eq_trans u v d.uuid h, find_device_case type u v devices h)

by_uuid_case :
    (system : System) (type : BlockDeviceType) (u v path : Bytes)
    → strcase_eq u v ≡ true
    → find_block_device_by_uuid system type u path ≡ find_block_device_by_uuid system type v path
unfolding find_block_device_by_uuid
by_uuid_case system type u v path h = elim (Option-cases (probe_block_devices system)) [
  | inl e ↦ rw (e, find_block_device_by_uuid)
  | inr (devices, e) ↦ rw (e, find_device_case type u v devices h, find_block_device_by_uuid)
]

-- Two UUIDs that differ in the case of letters alone resolve alike, partitions and disks.
pub spec_case_insensitive :
    (system : System) (u v path : Bytes)
    → strcase_eq u v ≡ true
    → (find_block_device_by_spec system (codes "PARTUUID=" ++ u) path
        ≡ find_block_device_by_spec system (codes "PARTUUID=" ++ v) path)
      × (find_block_device_by_spec system (codes "DISKUUID=" ++ u) path
          ≡ find_block_device_by_spec system (codes "DISKUUID=" ++ v) path)
unfolding find_block_device_by_spec has_prefix
spec_case_insensitive system u v path h =
    (by_uuid_case system partition u v path h, by_uuid_case system disk u v path h)
