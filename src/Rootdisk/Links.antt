-- ===== src/Rootdisk/Links.antt =====
-- Which links a scan of /sys leads to.
use nerves_initramfs.Base.{
  ℕ, suc, ◌≤◌, ◌<◌, Bool, true, false, not, ◌||◌, ◌&&◌, List, [], ◌∷◌, ◌++◌, some, ◌≡◌, ◌⊎◌, refl,
  sym, ap, ◌∙◌, subst, arith, inl, inr, ◌==◌, if◌then◌else◌, length, length-append, take, All,
  Bool-cases, append_assoc, append-nil,
}
use nerves_initramfs.Base.CString.{Bytes, codes}
use nerves_initramfs.Base.Format.{dec}
use nerves_initramfs.Base.Int.{pos, wrap}
use nerves_initramfs.Rootdisk.{
  RootInfo, SysFiles, not_special_filter, scandir, LinkStep, links, read_dev_file,
  read_partition_file, partitions_loop, scan_for_partitions, devices_loop, scan_for_block_devices,
  create_dev_symlink, find_root, node_at, has_parent, partition_link, partition_links,
  rootfs_device, disk_links, parent_of, link_root, create_rootdisk_symlinks,
}
use nerves_initramfs.Rootdisk.Nodes.{
  Later, Earlier, Extends, size_le, All-imp, All-every, partition_links-Later,
  partition_links-Earlier, node_at_skips, find_root_skips,
}
use nerves_initramfs.Rootdisk.Scan.{
  block_dir, base_of, part_names, device_node, partition_node, Makes, partitions_loop-Extends,
  devices_loop-Extends, devices_loop-Earlier, devices_loop-append,
}

module _ (sys : SysFiles) where
  -- The links of the partitions of a disk: of those that have both numbers, in reverse order.
  unfoldable pub used_links : Bytes → List Bytes → List LinkStep
  used_links base [] = []
  used_links base (name ∷ names) =
      let rest = used_links base names in
      if read_dev_file sys base name == 0 || read_partition_file sys base name == 0
      then rest
      else rest
        ++ (links (
              create_dev_symlink
                (take 7 (codes "0p" ++ dec (wrap (pos (read_partition_file sys base name))))) name)
            ∷ [])

  -- a partition with that device number is among the names
  unfoldable pub lists_root : Bytes → ℕ → List Bytes → Bool
  lists_root base dev [] = false
  lists_root base dev (name ∷ names) =
      (read_dev_file sys base name == dev && not (read_partition_file sys base name == 0))
      || lists_root base dev names

  partition_links_loop :
      (base : Bytes) (parent : RootInfo) (names : List Bytes) (infos : List RootInfo)
      → partition_links parent.address (partitions_loop sys base parent names infos)
        ≡ used_links base names ++ partition_links parent.address infos
  unfolding partitions_loop used_links partition_links partition_link
  partition_links_loop base parent [] infos = refl
  partition_links_loop base parent (name ∷ names) infos =
      elim (Bool-cases
        (read_dev_file sys base name == 0 || read_partition_file sys base name == 0)) [
          | inl e ↦ rw e (partition_links_loop base parent names infos)
          | inr e ↦
              let added = partition_node sys base parent.address name (length infos) in
              let child : has_parent parent.address added ≡ true = ground arith in
              rw e (
                partition_links_loop base parent names (added ∷ infos)
                ∙ ap
                    (λ b.
                      used_links base names
                      ++ (if b
                          then links (partition_link added) ∷ partition_links parent.address infos
                          else partition_links parent.address infos))
                    child
                ∙ sym (
                    append_assoc (used_links base names) (links (partition_link added) ∷ [])
                      (partition_links parent.address infos)))
        ]

  -- where a parent's node or one of its partitions has the number, a node behind the scan has
  Found : Bytes → RootInfo → ℕ → List Bytes → List RootInfo → Type 0
  Found base parent dev names infos =
      (parent_of (find_root infos dev) ≡ some parent.address) ⊎ (lists_root base dev names ≡ true)

  Found-skipped :
      (base : Bytes) (parent : RootInfo) (dev : ℕ) (name : Bytes) (names : List Bytes)
      (infos : List RootInfo)
      → 0 < dev
      → (read_dev_file sys base name == 0 || read_partition_file sys base name == 0) ≡ true
      → Found base parent dev (name ∷ names) infos
      → Found base parent dev names infos
  unfolding Found lists_root
  Found-skipped base parent dev name names infos big e (inl h) = inl h
  Found-skipped base parent dev name names infos big e (inr h) = inr (ground arith)

  Found-added :
      (base : Bytes) (parent : RootInfo) (dev : ℕ) (name : Bytes) (names : List Bytes)
      (infos : List RootInfo)
      → Found base parent dev (name ∷ names) infos
      → Found base parent dev names
          (partition_node sys base parent.address name (length infos) ∷ infos)
  unfolding Found lists_root find_root
  Found-added base parent dev name names infos h =
      elim (Bool-cases (read_dev_file sys base name == dev)) [
        | inl e ↦ inl (rw e refl)
        | inr e ↦ elim h [ inl found ↦ inl (rw e found) | inr listed ↦ inr (ground arith) ]
      ]

  find_root_loop :
      (base : Bytes) (parent : RootInfo) (dev : ℕ) (names : List Bytes) (infos : List RootInfo)
      → 0 < dev
      → Found base parent dev names infos
      → parent_of (find_root (partitions_loop sys base parent names infos) dev)
        ≡ some parent.address
  unfolding partitions_loop Found lists_root
  find_root_loop base parent dev [] infos big (inl h) = h
  find_root_loop base parent dev [] infos big (inr h) = absurd (ground arith)
  find_root_loop base parent dev (name ∷ names) infos big h =
      elim (Bool-cases
        (read_dev_file sys base name == 0 || read_partition_file sys base name == 0)) [
          | inl e ↦ rw e (
              find_root_loop base parent dev names infos big
                (Found-skipped base parent dev name names infos big e h))
          | inr e ↦ rw e (
              find_root_loop base parent dev names
                (partition_node sys base parent.address name (length infos) ∷ infos) big
                (Found-added base parent dev name names infos h))
        ]

  -- neither the disk nor what is in its directory has that device number
  unfoldable pub Elsewhere : ℕ → Bytes → Type 0
  Elsewhere dev name =
      ((read_dev_file sys block_dir name == dev) ≡ false)
      × All (λ part. (read_dev_file sys (base_of name) part == dev) ≡ false) (part_names sys name)

  -- the nodes that a scan of disks elsewhere makes
  abbrev Apart : ℕ → ℕ → RootInfo → Type 0
  Apart n dev i = Later n i × ((i.dev == dev) ≡ false)

  Elsewhere-Makes : (n dev : ℕ) (name : Bytes) → Elsewhere dev name → Makes sys (Apart n dev) n name
  unfolding Elsewhere
  Elsewhere-Makes n dev name (other, others) m h = (
    (record { behind = h; no_child = λ disk low. refl }, other),
    All-imp _ _
        (λ part other k later.
          (record { behind = omega (arith, h, later); no_child = λ disk low. ground arith }, other))
        (part_names sys name) others,
  )

  node_here : (i : RootInfo) (infos : List RootInfo) → node_at (i ∷ infos) i.address ≡ some i
  unfolding node_at
  node_here i infos = ground arith

  scanned_links :
      (disk : Bytes) (front mid infos : List RootInfo)
      → mid
        ≡ partitions_loop sys
            (base_of disk)
            (device_node sys disk (length infos))
            (part_names sys disk)
            (device_node sys disk (length infos) ∷ infos)
      → All (Later (length mid)) front
      → All (Earlier (length infos)) infos
      → disk_links (front ++ mid) (length infos)
        ≡ links (create_dev_symlink (codes "0") disk)
          ∷ used_links (base_of disk) (part_names sys disk)
  unfolding disk_links
  scanned_links disk front mid infos is later earlier =
      let d = length infos in
      let node = device_node sys disk d in
      let parts = part_names sys disk in
      let made : Extends (λ i. suc d ≤ i.address) (node ∷ infos) mid =
        subst (Extends _ (node ∷ infos)) (sym is) (
          partitions_loop-Extends sys (λ i. suc d ≤ i.address) (base_of disk) node parts
            (node ∷ infos) (All-every _ (λ name n h. h) parts)) in
      let size = size_le made in
      let at_disk : node_at (front ++ mid) d ≡ some node =
        node_at_skips (length mid) d front mid (omega (arith, size))
          (All-imp _ _ (λ i h. h.behind) front later)
        ∙ ap (λ l. node_at l d) made.split
        ∙ node_at_skips (suc d) d made.front (node ∷ infos) (omega arith) made.all
        ∙ node_here node infos in
      let parts_linked =
        partition_links-Later (length mid) d front mid (omega (arith, size)) later
        ∙ ap (partition_links d) is
        ∙ partition_links_loop (base_of disk) node parts (node ∷ infos)
        ∙ ap (◌++◌ (used_links (base_of disk) parts))
            (partition_links-Earlier d d (node ∷ infos) (omega arith) ((λ disk far. refl), earlier))
        ∙ append-nil (used_links (base_of disk) parts) in
      rw (disk_links, at_disk) (ap (◌∷◌ (links (create_dev_symlink (codes "0") disk))) parts_linked)

  -- The parent that is found behind the scan of the disk and of those after it, and the links.
  scanned_disk :
      (dev : ℕ) (disk : Bytes) (after : List Bytes) (infos : List RootInfo)
      → (read_dev_file sys block_dir disk == 0) ≡ false
      → lists_root (base_of disk) dev (part_names sys disk) ≡ true
      → All (Elsewhere dev) after
      → 0 < dev
      → All (Earlier (length infos)) infos
      → (path : Bytes)
      → link_root path
          (devices_loop sys (disk ∷ after) infos)
          (parent_of (find_root (devices_loop sys (disk ∷ after) infos) dev))
        ≡ links (create_dev_symlink (codes "0") disk)
          ∷ used_links (base_of disk) (part_names sys disk)
  unfolding devices_loop scan_for_partitions link_root Found
  scanned_disk dev disk after infos there listed elsewhere big earlier path =
      let node = device_node sys disk (length infos) in
      let mid = partitions_loop sys (base_of disk) node (part_names sys disk) (node ∷ infos) in
      let rest : Extends (Apart (length mid) dev) mid (devices_loop sys after mid) =
        devices_loop-Extends sys (Apart (length mid) dev) after mid
          (All-imp _ _ (Elsewhere-Makes (length mid) dev) after elsewhere) in
      let later = All-imp _ (Later (length mid)) (λ i h. h.0) rest.front rest.all in
      let parent : parent_of (find_root (rest.front ++ mid) dev) ≡ some (length infos) =
        ap parent_of
          (find_root_skips dev rest.front mid (All-imp _ _ (λ i h. h.1) rest.front rest.all))
        ∙ find_root_loop (base_of disk) node dev (part_names sys disk) (node ∷ infos) big
            (inr listed) in
      let split : devices_loop sys (disk ∷ after) infos ≡ rest.front ++ mid = rw there rest.split in
      ap (λ l. link_root path l (parent_of (find_root l dev))) split
      ∙ ap (link_root path (rest.front ++ mid)) parent
      ∙ scanned_links disk rest.front mid infos refl later earlier

  -- Where a disk under /sys/block has a device number, one of the partitions in its directory has the
  -- device number of the root file system, which is not 0, and a partition number, and no disk listed
  -- behind it, nor a directory in those, has that device number: the links made are that to the disk
  -- and those to its partitions with both numbers, the last first, and there is no message.
  pub create_rootdisk_symlinks_lem :
      (path : Bytes) (dev : ℕ) (before : List Bytes) (disk : Bytes) (after : List Bytes)
      → scandir not_special_filter (sys.sorted_entries block_dir) ≡ before ++ (disk ∷ after)
      → (read_dev_file sys block_dir disk == 0) ≡ false
      → lists_root (base_of disk) dev (part_names sys disk) ≡ true
      → All (Elsewhere dev) after
      → 0 < dev
      → create_rootdisk_symlinks sys path (some dev)
        ≡ links (create_dev_symlink (codes "0") disk)
          ∷ used_links (base_of disk) (part_names sys disk)
  unfolding create_rootdisk_symlinks scan_for_block_devices rootfs_device
  create_rootdisk_symlinks_lem path dev before disk after names there listed elsewhere big =
      let some_names = ap length names ∙ length-append before (disk ∷ after) in
      let not_empty : (length (scandir not_special_filter (sys.sorted_entries block_dir)) == 0)
          ≡ false =
        ground (arith, some_names) in
      let not_zero : (dev == 0) ≡ false = ground arith in
      let loop =
        ap (λ l. devices_loop sys l []) names ∙ devices_loop-append sys before (disk ∷ after) [] in
      let scanned =
        scanned_disk dev disk after (devices_loop sys before []) there listed elsewhere big
          (devices_loop-Earlier sys before [] tt) path in
      rw (not_empty, not_zero)
        (ap (λ l. link_root path l (parent_of (find_root l dev))) loop ∙ scanned)
