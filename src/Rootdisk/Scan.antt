-- ===== src/Rootdisk/Scan.antt =====
-- What the scan of /sys of src/rootdisk.c adds to the list of nodes.
use nerves_initramfs.Base.{
  ℕ, suc, ◌≤◌, ◌<◌, ◌||◌, List, [], ◌∷◌, ◌++◌, none, some, ◌≡◌, refl, arith, inl, inr, ◌==◌, length,
  take, All, Bool-cases,
}
use nerves_initramfs.Base.CString.{Bytes, codes}
use nerves_initramfs.Rootdisk.{
  RootInfo, SysFiles, directory_filter, scandir, read_dev_file, read_partition_file,
  partitions_loop, scan_for_partitions, devices_loop,
}
use nerves_initramfs.Rootdisk.Nodes.{Earlier, Extends, one-Extends, more-Extends, size_le, All-imp}

abbrev pub block_dir : Bytes
block_dir = codes "/sys/block"

-- the directory of a disk, and the names in it that may be partitions
abbrev pub base_of : Bytes → Bytes
base_of disk = take 255 (codes "/sys/block/" ++ disk)

module _ (sys : SysFiles) where
  abbrev pub part_names : Bytes → List Bytes
  part_names disk = scandir directory_filter (sys.sorted_entries (base_of disk))

  abbrev pub device_node : Bytes → ℕ → RootInfo
  device_node name n = record {
    address = n;
    name = name;
    dev = read_dev_file sys block_dir name;
    partition_number = 0;
    parent = none;
  }

  abbrev pub partition_node : Bytes → ℕ → Bytes → ℕ → RootInfo
  partition_node base disk name n = record {
    address = n;
    name = name;
    dev = read_dev_file sys base name;
    partition_number = read_partition_file sys base name;
    parent = some disk;
  }

  pub partitions_loop-Extends :
      (P : RootInfo → Type 0) (base : Bytes) (parent : RootInfo) (names : List Bytes)
      (infos : List RootInfo)
      → All
          (λ name. (n : ℕ) → length infos ≤ n → P (partition_node base parent.address name n))
          names
      → Extends P infos (partitions_loop sys base parent names infos)
  unfolding partitions_loop
  partitions_loop-Extends P base parent [] infos made = record {
    front = [];
    split = refl;
    all = tt;
  }
  partitions_loop-Extends P base parent (name ∷ names) infos (now, made) =
      elim (Bool-cases
        (read_dev_file sys base name == 0 || read_partition_file sys base name == 0)) [
          | inl e ↦ rw e (partitions_loop-Extends P base parent names infos made)
          | inr e ↦
              let added = partition_node base parent.address name (length infos) in
              rw e (
                more-Extends (one-Extends added infos (now (length infos) (omega arith))) (
                  partitions_loop-Extends P base parent names (added ∷ infos)
                    (All-imp _ _ (λ name made n h. made n (omega arith)) names made)))
        ]

  -- what the scan of a disk makes behind the first `n` nodes
  abbrev pub Makes : (RootInfo → Type 0) → ℕ → Bytes → Type 0
  Makes P n name =
      (m : ℕ)
      → n ≤ m
      → P (device_node name m)
        × All (λ part. (k : ℕ) → suc m ≤ k → P (partition_node (base_of name) m part k))
            (part_names name)

  pub devices_loop-Extends :
      (P : RootInfo → Type 0) (names : List Bytes) (infos : List RootInfo)
      → All (Makes P (length infos)) names
      → Extends P infos (devices_loop sys names infos)
  unfolding devices_loop scan_for_partitions
  devices_loop-Extends P [] infos made = record { front = []; split = refl; all = tt }
  devices_loop-Extends P (name ∷ names) infos (now, made) =
      elim (Bool-cases (read_dev_file sys block_dir name == 0)) [
        | inl e ↦ rw e (devices_loop-Extends P names infos made)
        | inr e ↦
            let node = device_node name (length infos) in
            let (device, parts) = now (length infos) (omega arith) in
            let scanned = more-Extends (one-Extends node infos device) (
              partitions_loop-Extends P (base_of name) node (part_names name) (node ∷ infos)
                parts) in
            let more = size_le scanned in
            rw e (
              more-Extends scanned (
                devices_loop-Extends P names
                  (partitions_loop sys (base_of name) node (part_names name) (node ∷ infos))
                  (All-imp _ _ (λ name made m h. made m (omega (arith, more, h))) names made)))
      ]

  pub partitions_loop-Earlier :
      (base : Bytes) (parent : RootInfo) (names : List Bytes) (infos : List RootInfo)
      → parent.address < length infos
      → All (Earlier (length infos)) infos
      → All
          (Earlier (length (partitions_loop sys base parent names infos)))
          (partitions_loop sys base parent names infos)
  unfolding partitions_loop
  partitions_loop-Earlier base parent [] infos inside all = all
  partitions_loop-Earlier base parent (name ∷ names) infos inside all =
      elim (Bool-cases
        (read_dev_file sys base name == 0 || read_partition_file sys base name == 0)) [
          | inl e ↦ rw e (partitions_loop-Earlier base parent names infos inside all)
          | inr e ↦
              let added = partition_node base parent.address name (length infos) in
              rw e (
                partitions_loop-Earlier base parent names (added ∷ infos) (omega (arith, inside)) (
                  λ disk far. ground arith,
                  All-imp _ _ (λ i h disk far. h disk (omega arith)) infos all,
                ))
        ]

  pub devices_loop-Earlier :
      (names : List Bytes) (infos : List RootInfo)
      → All (Earlier (length infos)) infos
      → All (Earlier (length (devices_loop sys names infos))) (devices_loop sys names infos)
  unfolding devices_loop scan_for_partitions
  devices_loop-Earlier [] infos all = all
  devices_loop-Earlier (name ∷ names) infos all =
      elim (Bool-cases (read_dev_file sys block_dir name == 0)) [
        | inl e ↦ rw e (devices_loop-Earlier names infos all)
        | inr e ↦
            let node = device_node name (length infos) in
            rw e (
              devices_loop-Earlier names
                (partitions_loop sys (base_of name) node (part_names name) (node ∷ infos))
                (partitions_loop-Earlier (base_of name) node (part_names name) (node ∷ infos)
                  (omega arith)
                  (
                    (λ disk far. refl),
                    All-imp _ _ (λ i h disk far. h disk (omega arith)) infos all,
                  )))
      ]

  pub devices_loop-append :
      (before after : List Bytes) (infos : List RootInfo)
      → devices_loop sys (before ++ after) infos
        ≡ devices_loop sys after (devices_loop sys before infos)
  unfolding devices_loop
  devices_loop-append [] after infos = refl
  devices_loop-append (name ∷ before) after infos = devices_loop-append before after _
