-- ===== src/BlockDevice/Probe.antt =====
-- The partition tables: `probe_gpt_devices`, `probe_mbr_devices`, `probe_partitions` and
-- `probe_block_devices` of src/block_device.c. The kernel's files are arguments: what `pread`
-- leaves in a buffer of the given length, which devices open, what /sys/block lists.
use nerves_initramfs.Base.{
  ℕ, zero, suc, ◌+◌, ◌-◌, ◌*◌, ◌%◌, ◌^◌, Bool, true, false, not, ◌&&◌, ◌||◌, List, [], ◌∷◌, ◌++◌,
  Option, none, some, ltb, ◌==◌, if◌then◌else◌, take,
}
use nerves_initramfs.Base.CString.{Bytes, codes, str_eq}
use nerves_initramfs.Base.Format.{hex_02, hex_08}
use nerves_initramfs.BlockDevice.Defs.{
  disk, partition, BlockDeviceInfo, Rc, success, failure, byte_at, slice?, p_or_np, from_le32,
  is_zeros, uuid_to_string_me, device_path, partition_path,
}

-- `pread(fd, buffer, length, offset)`: `none` for a negative result, else the buffer's bytes
abbrev pub Pread : Type 0
Pread = ℕ → ℕ → Option Bytes

-- the signature bytes at the end of the first sector
unfoldable pub has_boot_signature : Bytes → Bool
has_boot_signature block = byte_at block 510 == 0x55 && byte_at block 511 == 0xaa

-- The loop from `i` down to 1, with `at` the offset of `partition` before its decrement. `none`:
-- the pointer leaves the table.
unfoldable pub gpt_loop :
    Bytes → Bytes → ℕ → ℕ → ℕ → List BlockDeviceInfo → Option (List BlockDeviceInfo)
gpt_loop table devname size zero at devices = some devices
gpt_loop table devname size (suc i) at devices =
    if ltb at size then none else elim (slice? table (at - size) 16) [
      | none ↦ none
      | some guid ↦ elim (is_zeros guid) [
        | true ↦ gpt_loop table devname size i (at - size) devices
        | false ↦ elim (slice? table (at - size + 16) 16) [
          | none ↦ none
          | some uuid ↦ gpt_loop table devname size i (at - size) (
              record {
                type = partition;
                path = partition_path devname (p_or_np devname) (suc i);
                uuid = uuid_to_string_me uuid 0;
              }
              ∷ devices)
        ]
      ]
    ]

-- from the partition table on, in `uint32_t` arithmetic; both tests of the source are of the count
unfoldable pub gpt_partitions :
    Pread → Bytes → Bytes → List BlockDeviceInfo → Option (Rc × List BlockDeviceInfo)
gpt_partitions pread block devname devices =
    let partition_count = from_le32 block 80 in
    let partition_size = from_le32 block 84 in
    let partition_table_size = partition_count * partition_size % 2 ^ 32 in
    if ltb 256 partition_count
    then some (failure, devices)
    else if ltb 256 partition_count
    then some (failure, devices)
    else elim (pread partition_table_size (512 * 2)) [
      | none ↦ some (failure, devices)
      | some partitions ↦
          elim (gpt_loop partitions devname partition_size partition_count
            (partition_size * partition_count % 2 ^ 32) devices) [
              | none ↦ none
              | some devices' ↦ some (success, devices')
            ]
    ]

-- "EFI PART"
unfoldable pub has_gpt_signature : Bytes → Bool
has_gpt_signature block = str_eq (take 8 block) (codes "EFI PART")

unfoldable pub gpt_disk : Bytes → Bytes → BlockDeviceInfo
gpt_disk block devname = record {
  type = disk;
  path = device_path devname;
  uuid = uuid_to_string_me block 56;
}

-- The outer `none` is a read outside the partition table.
unfoldable pub probe_gpt_devices :
    Pread → Bytes → List BlockDeviceInfo → Option (Rc × List BlockDeviceInfo)
probe_gpt_devices pread devname devices = elim (pread 512 0) [
  | none ↦ some (failure, devices)
  | some mbr ↦
      if not (has_boot_signature mbr) || not (byte_at mbr (446 + 4) == 0xee)
      then some (failure, devices)
      else elim (pread 512 512) [
        | none ↦ some (failure, devices)
        | some block ↦
            if not (has_gpt_signature block)
            then some (failure, devices)
            else gpt_partitions pread block devname (gpt_disk block devname ∷ devices)
      ]
]

-- The loop over the primary partitions from `i` down to 1; entry `i` stands at 446 + 16 (i - 1).
unfoldable pub mbr_loop : Bytes → Bytes → ℕ → ℕ → List BlockDeviceInfo → List BlockDeviceInfo
mbr_loop mbr devname disk_uuid zero devices = devices
mbr_loop mbr devname disk_uuid (suc i) devices = mbr_loop mbr devname disk_uuid i (
    if not (byte_at mbr (446 + i * 16 + 4) == 0)
    then record {
      type = partition;
      path = partition_path devname (p_or_np devname) (suc i);
      uuid = hex_08 disk_uuid ++ (b'-' ∷ hex_02 (suc i));
    }
      ∷ devices
    else devices)

unfoldable pub mbr_disk : Bytes → Bytes → BlockDeviceInfo
unfolding from_le32
mbr_disk mbr devname = record {
  type = disk;
  path = device_path devname;
  uuid = hex_08 (from_le32 mbr 440);
}

unfoldable pub probe_mbr_devices : Pread → Bytes → List BlockDeviceInfo → Rc × List BlockDeviceInfo
probe_mbr_devices pread devname devices = elim (pread 512 0) [
  | none ↦ (failure, devices)
  | some mbr ↦
      if not (has_boot_signature mbr)
      then (failure, devices)
      else if byte_at mbr (446 + 4) == 0xee
      then (failure, devices)
      else (success, mbr_loop mbr devname (from_le32 mbr 440) 4 (mbr_disk mbr devname ∷ devices))
]

-- The system's files: the reads of each device that opens, and the entries of /sys/block in the
-- order of `reverse_alphasort`, or `none` where `scandir` fails.
pub record System : Type 0 where
  pub open_device : Bytes → Option Pread
  pub sys_block : Option (List Bytes)

unfoldable pub probe_partitions :
    System → Bytes → List BlockDeviceInfo → Option (Rc × List BlockDeviceInfo)
probe_partitions system devname devices = elim (system.open_device (device_path devname)) [
  | none ↦ some (failure, devices)
  | some pread ↦
      let (rc, devices') = probe_mbr_devices pread devname devices in
      elim rc [
        | success ↦ some (success, devices')
        | failure ↦ probe_gpt_devices pread devname devices'
      ]
]

-- the loop over /sys/block; the return codes are not looked at
unfoldable pub probe_loop :
    System → List Bytes → List BlockDeviceInfo → Option (List BlockDeviceInfo)
probe_loop system [] devices = some devices
probe_loop system (name ∷ names) devices = elim (byte_at name 0 == b'.') [
  | true ↦ probe_loop system names devices
  | false ↦ elim (probe_partitions system name devices) [
    | none ↦ none
    | some (rc, devices') ↦ probe_loop system names devices'
  ]
]

unfoldable pub probe_block_devices : System → Option (List BlockDeviceInfo)
probe_block_devices system = elim system.sys_block [
  | none ↦ some []
  | some names ↦ probe_loop system names []
]
