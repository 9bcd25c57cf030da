-- ===== src/BlockDevice/Spec.antt =====
-- `find_block_device_by_uuid`, `find_block_device_by_spec`, `open_block_device` and
-- `resolve_block_device_spec` of src/block_device.c.
use nerves_initramfs.Base.{
  ℕ, zero, suc, Bool, true, false, ◌&&◌, List, [], ◌∷◌, Option, none, some, ltb, if◌then◌else◌,
  length, drop,
}
use nerves_initramfs.Base.CString.{Bytes, codes, strcase_eq, has_prefix}
use nerves_initramfs.BlockDevice.Defs.{
  BlockDeviceType, disk, partition, BlockDeviceInfo, Rc, success, failure, block_device_path_len,
}
use nerves_initramfs.BlockDevice.Probe.{System, probe_block_devices}

unfoldable pub same_type : BlockDeviceType → BlockDeviceType → Bool
same_type disk disk = true
same_type partition partition = true
same_type _ _ = false

-- `strcpy` into a path buffer of `block_device_path_len` bytes; `none`: it writes past the end
unfoldable pub strcpy_path : Bytes → Option Bytes
strcpy_path src = if ltb (length src) block_device_path_len then some src else none

-- the loop over the probed devices: the path of the first match
unfoldable pub find_device : BlockDeviceType → Bytes → List BlockDeviceInfo → Option Bytes
unfolding same_type
find_device type uuid [] = none
find_device type uuid (device ∷ devices) =
    if same_type type device.type && strcase_eq uuid device.uuid
    then some device.path
    else find_device type uuid devices

-- The return code and the path buffer, which is left as it was on failure; `none` is a fault.
unfoldable pub find_block_device_by_uuid :
    System → BlockDeviceType → Bytes → Bytes → Option (Rc × Bytes)
find_block_device_by_uuid system type uuid path = elim (probe_block_devices system) [
  | none ↦ none
  | some devices ↦ elim (find_device type uuid devices) [
    | none ↦ some (failure, path)
    | some found ↦ elim (strcpy_path found) [ none ↦ none | some copied ↦ some (success, copied) ]
  ]
]

unfoldable pub find_block_device_by_spec : System → Bytes → Bytes → Option (Rc × Bytes)
unfolding strcpy_path
find_block_device_by_spec system spec path =
    if has_prefix (codes "PARTUUID=") spec
    then find_block_device_by_uuid system partition (drop 9 spec) path
    else if has_prefix (codes "DISKUUID=") spec
    then find_block_device_by_uuid system disk (drop 9 spec) path
    else elim (strcpy_path spec) [ none ↦ none | some copied ↦ some (success, copied) ]

-- The files as they are at one moment: /dev fills while the program waits. `open_path` is `open`
-- with the caller's flags.
pub record Snapshot {ℓ} (Fd : Type ℓ) : Type ℓ where
  pub system : System
  pub open_path : Bytes → Option Fd

-- What a call leaves: the descriptor, the path buffer, the static `tries`, and the millisecond.
pub record Opened {ℓ} (Fd : Type ℓ) : Type ℓ where
  pub fd : Option Fd
  pub path : Bytes
  pub tries : ℕ
  pub time : ℕ

module _ {ℓ} {Fd : Type ℓ} where
  unfoldable pub open_block_device_impl : Snapshot Fd → Bytes → Bytes → Option (Option Fd × Bytes)
  open_block_device_impl now spec path = elim (find_block_device_by_spec now.system spec path) [
    | none ↦ none
    | some (rc, path') ↦ elim rc [
      | failure ↦ some (none, path')
      | success ↦ some (now.open_path path', path')
    ]
  ]

  -- `while (fd < 0 && tries > 0)`; `history` is the state of the files at each millisecond
  unfoldable pub wait_loop :
      (ℕ → Snapshot Fd) → Bytes → ℕ → ℕ → Option Fd → Bytes → Option (Opened Fd)
  wait_loop history spec tries time (some fd) path =
      some (record { fd = some fd; path = path; tries = tries; time = time })
  wait_loop history spec zero time none path =
      some (record { fd = none; path = path; tries = 0; time = time })
  wait_loop history spec (suc tries) time none path =
      elim (open_block_device_impl (history (suc time)) spec path) [
        | none ↦ none
        | some (fd, path') ↦ wait_loop history spec tries (suc time) fd path'
      ]

  -- The message where the device does not open is left out.
  unfoldable pub open_block_device : (ℕ → Snapshot Fd) → Bytes → ℕ → ℕ → Bytes → Option (Opened Fd)
  open_block_device history spec tries time path =
      elim (open_block_device_impl (history time) spec path) [
        | none ↦ none
        | some (fd, path') ↦ wait_loop history spec tries time fd path'
      ]

  -- the descriptor is closed again
  unfoldable pub resolve_block_device_spec :
      (ℕ → Snapshot Fd) → Bytes → ℕ → ℕ → Bytes → Option (Rc × Opened Fd)
  resolve_block_device_spec history spec tries time path =
      elim (open_block_device history spec tries time path) [
        | none ↦ none
        | some opened ↦ elim opened.fd [
          | none ↦ some (failure, opened)
          | some fd ↦ some (success, opened)
        ]
      ]
