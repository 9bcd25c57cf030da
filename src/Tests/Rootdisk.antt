-- ===== src/Tests/Rootdisk.antt =====
-- The links to a root disk of two partitions, between disks of none.
use nerves_initramfs.Base.{
  ◌+◌, ◌*◌, false, true, [], ◌∷◌, ◌++◌, ◌==◌, none, some, ◌≡◌, refl, arith, List, Option,
  if◌then◌else◌,
}
use nerves_initramfs.Base.CString.{Bytes, codes, str_eq}
use nerves_initramfs.Base.Int.{wrap}
use nerves_initramfs.Base.Format.{dec}
use nerves_initramfs.Rootdisk.{
  scan_for_block_devices, scan_for_partitions, disk_links, partition_link, DirEntry, SysFiles,
  links, scandir, not_special_filter, directory_filter, read_dev_file, read_partition_file,
  create_dev_symlink, create_rootdisk_symlinks,
}
use nerves_initramfs.Rootdisk.Scan.{base_of, part_names}
use nerves_initramfs.Rootdisk.Links.{
  used_links, lists_root, Elsewhere, create_rootdisk_symlinks_lem,
}

abbrev directory : Bytes → DirEntry
directory name = record { d_name = name; d_type = 4 }

abbrev link_entry : Bytes → DirEntry
link_entry name = record { d_name = name; d_type = 10 }

-- what an association list gives, from the right where a name stands twice
abbrev look_up {ℓ} : {A : Type ℓ} → List (Bytes × A) → Bytes → Option A
look_up [] path = none
look_up ((key, value) ∷ entries) path =
    let rest = look_up entries path in if str_eq key path then some value else rest

abbrev two_disks : SysFiles
two_disks = record {
  dev_file = look_up (
      (codes "/sys/block/mmcblk0/dev", (179, 0))
      ∷ (codes "/sys/block/sda/dev", (8, 0))
      ∷ (codes "/sys/block/zram0/dev", (252, 0))
      ∷ (codes "/sys/block/sda/sda1/dev", (8, 1))
      ∷ (codes "/sys/block/sda/sda2/dev", (8, 2))
      ∷ []);
  partition_file = look_up (
      (codes "/sys/block/sda/sda1/partition", 1) ∷ (codes "/sys/block/sda/sda2/partition", 2) ∷ []);
  makedev = λ major minor. major * 256 + minor;
  sorted_entries = λ path.
      if str_eq path (codes "/sys/block")
      then directory (codes ".")
        ∷ directory (codes "..")
        ∷ link_entry (codes "mmcblk0")
        ∷ link_entry (codes "sda")
        ∷ link_entry (codes "zram0")
        ∷ []
      else if str_eq path (codes "/sys/block/sda")
      then directory (codes ".")
        ∷ directory (codes "queue")
        ∷ directory (codes "sda1")
        ∷ directory (codes "sda2")
        ∷ []
      else [];
}

two_links :
    create_rootdisk_symlinks two_disks (codes "/dev/sda2") (some 2050)
    ≡ links (codes "/dev/rootdisk0", codes "/dev/sda")
      ∷ links (codes "/dev/rootdisk0p2", codes "/dev/sda2")
      ∷ links (codes "/dev/rootdisk0p1", codes "/dev/sda1")
      ∷ []
unfolding create_rootdisk_symlinks scandir not_special_filter directory_filter read_dev_file
    read_partition_file create_dev_symlink str_eq wrap dec scan_for_block_devices
    scan_for_partitions disk_links partition_link
two_links = refl

names_listed :
    scandir not_special_filter (two_disks.sorted_entries (codes "/sys/block"))
    ≡ (codes "mmcblk0" ∷ []) ++ (codes "sda" ∷ (codes "zram0" ∷ []))
unfolding scandir not_special_filter str_eq
names_listed = refl

sda_has_dev : (read_dev_file two_disks (codes "/sys/block") (codes "sda") == 0) ≡ false
unfolding read_dev_file str_eq
sda_has_dev = refl

sda_lists_root :
    lists_root two_disks (base_of (codes "sda")) 2050 (part_names two_disks (codes "sda")) ≡ true
unfolding lists_root scandir directory_filter read_dev_file read_partition_file str_eq
sda_lists_root = refl

zram0-Elsewhere : Elsewhere two_disks 2050 (codes "zram0")
unfolding Elsewhere scandir directory_filter read_dev_file read_partition_file str_eq
zram0-Elsewhere = (refl, tt)

create_rootdisk_symlinks_lem_example :
    create_rootdisk_symlinks two_disks (codes "/dev/sda2") (some 2050)
    ≡ links (create_dev_symlink (codes "0") (codes "sda"))
      ∷ used_links two_disks (base_of (codes "sda")) (part_names two_disks (codes "sda"))
create_rootdisk_symlinks_lem_example =
    create_rootdisk_symlinks_lem two_disks (codes "/dev/sda2") 2050 (codes "mmcblk0" ∷ [])
      (codes "sda") (codes "zram0" ∷ []) names_listed sda_has_dev sda_lists_root
      (zram0-Elsewhere, tt) (omega arith)
