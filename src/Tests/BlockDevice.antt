-- ===== src/Tests/BlockDevice.antt =====
-- Block devices.
use nerves_initramfs.Base.{
  true, ℕ, ◌+◌, ◌++◌, ◌≤◌, [], ◌∷◌, none, some, ◌≡◌, ◌≢◌, refl, arith, ltb, if◌then◌else◌,
}
use nerves_initramfs.Base.CString.{Bytes, codes, strcase_eq, str_eq, has_prefix, tolower}
use nerves_initramfs.BlockDevice.{disk, BlockDeviceInfo, success, from_le32}
use nerves_initramfs.BlockDevice.Probe.{
  System, has_boot_signature, has_gpt_signature, gpt_disk, mbr_disk, probe_gpt_devices,
  probe_mbr_devices, probe_block_devices,
}
use nerves_initramfs.BlockDevice.Spec.{
  find_block_device_by_spec, Snapshot, Opened, open_block_device, open_block_device_impl, wait_loop,
}
use nerves_initramfs.BlockDevice.Tables.{
  HasGpt, gpt_entries, mbr_entry, probe_gpt_lem, gpt_small_entries_fault, probe_mbr_lem,
}
use nerves_initramfs.BlockDevice.Bounds.{AllFit, probe_block_devices-AllFit}
use nerves_initramfs.BlockDevice.Lookup.{spec_case_insensitive}
use nerves_initramfs.BlockDevice.Wait.{
  OpensAt, NoFault, open_block_device_budget, open_block_device_finds,
}
use nerves_initramfs.Tests.Disks.{
  sector_of, header_of, table_128, table_8, good_gpt, small_gpt, mbr_reads, sda, one_disk,
}

good-HasGpt : HasGpt good_gpt (sector_of 0xee) (header_of 128)
unfolding has_boot_signature has_gpt_signature str_eq
good-HasGpt = record {
  sector_0 = refl;
  boot = refl;
  protective = refl;
  sector_1 = refl;
  signature = refl;
}

small-HasGpt : HasGpt small_gpt (sector_of 0xee) (header_of 8)
unfolding has_boot_signature has_gpt_signature str_eq
small-HasGpt = record {
  sector_0 = refl;
  boot = refl;
  protective = refl;
  sector_1 = refl;
  signature = refl;
}

count_2 : (size : ℕ) → from_le32 (header_of size) 80 ≡ 2
unfolding from_le32
count_2 size = refl

size_128 : from_le32 (header_of 128) 84 ≡ 128
unfolding from_le32
size_128 = refl

size_8 : from_le32 (header_of 8) 84 ≡ 8
unfolding from_le32
size_8 = refl

probe_gpt_lem_example :
    probe_gpt_devices good_gpt sda []
    ≡ some (success, gpt_entries table_128 sda 128 2 ++ (gpt_disk (header_of 128) sda ∷ []))
probe_gpt_lem_example =
    probe_gpt_lem sda [] good-HasGpt 2 128 table_128 (count_2 128) size_128 (omega arith)
      (omega arith) refl refl (omega arith)

gpt_small_entries_fault_example : probe_gpt_devices small_gpt sda [] ≡ none
gpt_small_entries_fault_example =
    gpt_small_entries_fault sda [] small-HasGpt 2 8 table_8 (count_2 8) size_8 (omega arith)
      (omega arith) refl refl (omega arith) (omega arith)

mbr_boot : has_boot_signature (sector_of 0x0c) ≡ true
unfolding has_boot_signature
mbr_boot = refl

probe_mbr_lem_example : probe_mbr_devices mbr_reads sda [] ≡ (
  success,
  mbr_entry (sector_of 0x0c) sda 0
      ++ (mbr_entry (sector_of 0x0c) sda 1
          ++ (mbr_entry (sector_of 0x0c) sda 2
              ++ (mbr_entry (sector_of 0x0c) sda 3 ++ (mbr_disk (sector_of 0x0c) sda ∷ [])))),
)
probe_mbr_lem_example = probe_mbr_lem mbr_reads (sector_of 0x0c) sda [] refl mbr_boot (omega arith)

mbr_probed : (probe_mbr_devices mbr_reads sda []).0 ≡ success
unfolding probe_mbr_devices has_boot_signature
mbr_probed = refl

probe_block_devices-AllFit_example : AllFit (probe_block_devices one_disk)
probe_block_devices-AllFit_example = probe_block_devices-AllFit one_disk

abbrev found : BlockDeviceInfo
found = record { type = disk; path = codes "/dev/sda"; uuid = codes "0000000A" }

abbrev uuid_a : Bytes
uuid_a = codes "0000000a"

same_case : strcase_eq uuid_a (codes "0000000A") ≡ true
unfolding strcase_eq tolower
same_case = refl

spec_case_insensitive_example :
    (find_block_device_by_spec one_disk (codes "PARTUUID=" ++ uuid_a) []
      ≡ find_block_device_by_spec one_disk (codes "PARTUUID=" ++ codes "0000000A") [])
    × (find_block_device_by_spec one_disk (codes "DISKUUID=" ++ uuid_a) []
        ≡ find_block_device_by_spec one_disk (codes "DISKUUID=" ++ codes "0000000A") [])
spec_case_insensitive_example =
    spec_case_insensitive one_disk uuid_a (codes "0000000A") [] same_case

abbrev no_system : System
no_system = record { open_device = λ path. none; sys_block = none }

-- the file appears at the millisecond 3
abbrev late : ℕ → Snapshot ℕ
late time = record { system = no_system; open_path = λ path. if ltb time 3 then none else some 7 }

late-OpensAt : OpensAt late sda 3
unfolding open_block_device_impl find_block_device_by_spec has_prefix
late-OpensAt path = (7, sda, refl)

late-NoFault : NoFault late sda
unfolding open_block_device_impl find_block_device_by_spec has_prefix
late-NoFault time path e = ground arith

open_block_device_finds_example :
    (o : Opened ℕ) × (open_block_device late sda 1000 0 [] ≡ some o)
    × (o.fd ≢ none)
    × (o.time ≤ 0 + 3)
open_block_device_finds_example =
    open_block_device_finds late sda 3 1000 0 [] late-NoFault (omega arith) late-OpensAt

abbrev late_opened : Opened ℕ
late_opened = record { fd = some 7; path = sda; tries = 997; time = 3 }

late_run : open_block_device late sda 1000 0 [] ≡ some late_opened
unfolding open_block_device wait_loop open_block_device_impl find_block_device_by_spec has_prefix
late_run = refl

open_block_device_budget_example :
    (late_opened.tries + late_opened.time ≡ 1000 + 0)
    × (late_opened.fd ≡ none → late_opened.tries ≡ 0)
open_block_device_budget_example = open_block_device_budget late sda 1000 0 [] late_run
