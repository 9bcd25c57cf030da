-- ===== src/Rootdisk.antt =====
-- src/rootdisk.c: the links /dev/rootdisk0 and /dev/rootdisk0p1 and so on, to the disk that the root
-- file system is on. What /sys holds is an argument.
pub mod Nodes
pub mod Scan
pub mod Links
use nerves_initramfs.Base.{
  ℕ, Bool, true, false, not, ◌||◌, ◌&&◌, List, [], ◌∷◌, ◌++◌, Option, none, some, ◌==◌,
  if◌then◌else◌, length, take, get_or, bit_and,
}
use nerves_initramfs.Base.CString.{Bytes, codes, dt_dir}
use nerves_initramfs.Base.Format.{dec}
use nerves_initramfs.Base.Int.{pos, wrap}

-- `struct block_device_info` of this file. A node's address is the number of nodes made before it;
-- the parent is a node's address, or NULL.
pub record RootInfo : Type 0 where
  pub address : ℕ
  pub name : Bytes
  pub dev : ℕ
  pub partition_number : ℕ
  pub parent : Option ℕ

-- `struct dirent`
pub record DirEntry : Type 0 where
  pub d_name : Bytes
  pub d_type : ℕ

-- The files: the two numbers of a `dev` file and the number of a `partition` file, `none` where
-- `fopen` or `fscanf` fails; `makedev`; and the entries of a directory in the order of `alphasort`,
-- none where `scandir` fails.
pub record SysFiles : Type 0 where
  pub dev_file : Bytes → Option (ℕ × ℕ)
  pub partition_file : Bytes → Option ℕ
  pub makedev : ℕ → ℕ → ℕ
  pub sorted_entries : Bytes → List DirEntry

unfoldable pub not_special_filter : DirEntry → Bool
not_special_filter d = not (get_or d.d_name 0 0 == b'.')

unfoldable pub directory_filter : DirEntry → Bool
directory_filter d = not (get_or d.d_name 0 0 == b'.') && not (bit_and d.d_type dt_dir == 0)

-- the names of the entries that pass a filter
unfoldable pub scandir : (DirEntry → Bool) → List DirEntry → List Bytes
scandir filter [] = []
scandir filter (d ∷ ds) =
    let names = scandir filter ds in if filter d then d.d_name ∷ names else names

-- What is done, in order: a message, or a symbolic link, with where it stands and what it points to.
pub data LinkStep : Type 0 where
  notes : Bytes → LinkStep
  links : Bytes × Bytes → LinkStep

abbrev file_of : Bytes → Bytes → Bytes → Bytes
file_of base name file = take 64 base ++ (codes "/" ++ (take 32 name ++ file))

module _ (sys : SysFiles) where
  unfoldable pub read_dev_file : Bytes → Bytes → ℕ
  read_dev_file base name = elim (sys.dev_file (file_of base name (codes "/dev"))) [
    | none ↦ 0
    | some (dev_major, dev_minor) ↦ sys.makedev dev_major dev_minor
  ]

  unfoldable pub read_partition_file : Bytes → Bytes → ℕ
  read_partition_file base name =
      elim (sys.partition_file (file_of base name (codes "/partition"))) [
        | none ↦ 0
        | some partition ↦ partition
      ]

  -- the loop of `scan_for_partitions`
  unfoldable pub partitions_loop : Bytes → RootInfo → List Bytes → List RootInfo → List RootInfo
  partitions_loop base_dir parent [] infos = infos
  partitions_loop base_dir parent (name ∷ names) infos =
      let dev = read_dev_file base_dir name in
      let partition_number = read_partition_file base_dir name in
      let added : RootInfo = record {
        address = length infos;
        name = name;
        dev = dev;
        partition_number = partition_number;
        parent = some parent.address;
      } in
      partitions_loop base_dir parent names
        (if dev == 0 || partition_number == 0 then infos else added ∷ infos)

  unfoldable pub scan_for_partitions : RootInfo → List RootInfo → List RootInfo
  unfolding partitions_loop
  scan_for_partitions parent infos =
      let base_dir = take 255 (codes "/sys/block/" ++ parent.name) in
      partitions_loop base_dir parent (scandir directory_filter (sys.sorted_entries base_dir)) infos

  unfoldable pub devices_loop : List Bytes → List RootInfo → List RootInfo
  devices_loop [] infos = infos
  devices_loop (name ∷ names) infos =
      let dev = read_dev_file (codes "/sys/block") name in
      let info : RootInfo = record {
        address = length infos;
        name = name;
        dev = dev;
        partition_number = 0;
        parent = none;
      } in
      devices_loop names (if dev == 0 then infos else scan_for_partitions info (info ∷ infos))

  unfoldable pub scan_for_block_devices : List LinkStep × List RootInfo
  unfolding devices_loop
  scan_for_block_devices =
      let names = scandir not_special_filter (sys.sorted_entries (codes "/sys/block")) in
      (
        if length names == 0
            then notes (codes "No directories found under /sys/block. Check that /sys is mounted")
              ∷ []
            else [],
        devices_loop names [],
      )

-- a symbolic link: where it stands, and what it points to
unfoldable pub create_dev_symlink : Bytes → Bytes → Bytes × Bytes
create_dev_symlink partition_suffix devname =
    (take 255 (codes "/dev/rootdisk" ++ partition_suffix), take 255 (codes "/dev/" ++ devname))

unfoldable pub find_root : List RootInfo → ℕ → Option RootInfo
find_root [] rootfs_dev = none
find_root (i ∷ infos) rootfs_dev =
    if i.dev == rootfs_dev then some i else find_root infos rootfs_dev

-- the node at an address
unfoldable pub node_at : List RootInfo → ℕ → Option RootInfo
node_at [] address = none
node_at (i ∷ infos) address = if i.address == address then some i else node_at infos address

abbrev has_parent : ℕ → RootInfo → Bool
has_parent disk i = elim i.parent [ none ↦ false | some address ↦ address == disk ]

unfoldable pub partition_link : RootInfo → Bytes × Bytes
partition_link i =
    create_dev_symlink (take 7 (codes "0p" ++ dec (wrap (pos i.partition_number)))) i.name

unfoldable pub partition_links : ℕ → List RootInfo → List LinkStep
partition_links disk [] = []
partition_links disk (i ∷ infos) =
    let rest = partition_links disk infos in
    if has_parent disk i then links (partition_link i) ∷ rest else rest

-- `stat` gives a device number, or fails: then there is a message, and the number is 0.
unfoldable pub rootfs_device : Bytes → Option ℕ → List LinkStep × ℕ
rootfs_device rootfs_devname (some st_rdev) = ([], st_rdev)
rootfs_device rootfs_devname none =
    (notes (codes "Could not determine root device for " ++ rootfs_devname) ∷ [], 0)

-- the links to the node that the root file system's node has for a parent
unfoldable pub disk_links : List RootInfo → ℕ → List LinkStep
unfolding node_at partition_links
disk_links infos disk = elim (node_at infos disk) [
  | none ↦ []
  | some rootdisk_info ↦
      links (create_dev_symlink (codes "0") rootdisk_info.name) ∷ partition_links disk infos
]

abbrev parent_of : Option RootInfo → Option ℕ
parent_of none = none
parent_of (some i) = i.parent

unfoldable pub link_root : Bytes → List RootInfo → Option ℕ → List LinkStep
link_root rootfs_devname infos none =
    notes (
      codes "Root disk is supposed to be "
      ++ (rootfs_devname ++ codes ", but it wasn't found or wasn't a partition."))
    ∷ []
link_root rootfs_devname infos (some disk) = disk_links infos disk

-- What is done for the path of the root file system, and what `stat` gives of it.
unfoldable pub create_rootdisk_symlinks : SysFiles → Bytes → Option ℕ → List LinkStep
unfolding scan_for_block_devices rootfs_device find_root link_root
create_rootdisk_symlinks sys rootfs_devname stat =
    let (scan_steps, infos) = scan_for_block_devices sys in
    let (stat_steps, rootfs_dev) = rootfs_device rootfs_devname stat in
    scan_steps
    ++ (stat_steps
        ++ (if rootfs_dev == 0
            then []
            else link_root rootfs_devname infos (parent_of (find_root infos rootfs_dev))))
