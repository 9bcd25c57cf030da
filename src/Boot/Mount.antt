-- ===== src/Boot/Mount.antt =====
-- The mounts of src/nerves_initramfs.c: the kernel's file systems, the root file system, and the device
-- that decrypts it.
use nerves_initramfs.Base.{
  ℕ, zero, suc, ◌+◌, ◌-◌, ◌/◌, true, false, [], ◌∷◌, ◌++◌, Option, none, some, ltb, ◌==◌,
  if◌then◌else◌, length,
}
use nerves_initramfs.Base.CString.{Bytes, codes}
use nerves_initramfs.Base.Int.{ℤ, pos, negsuc, ltb_ℤ, pos_part, neg_part}
use nerves_initramfs.Script.Machine.{undefined}
use nerves_initramfs.Boot.Kernel.{
  ms_rdonly, ms_nosuid, ms_nodev, ms_noexec, DmRequest, dm_dev_create, dm_table_load,
  dm_dev_suspend, mkdir, mount, open_read, open_write, close, lseek_end, lseek_start,
  block_size_get, loop_set_fd, dm_ioctl, Kernel, B, ◌>>=◌, ◌>>◌, pure, halt, call, asks,
  fatal_error, ok_or_fatal, ok_or_warn,
}

abbrev negate : ℕ → ℤ
negate zero = pos 0
negate (suc n) = negsuc n

-- C's division of signed integers, towards zero; `none` where the divisor is zero
unfoldable pub div_ℤ : ℤ → ℤ → Option ℤ
div_ℤ a b =
    let q = (pos_part a + neg_part a) / (pos_part b + neg_part b) in
    if pos_part b + neg_part b == 0
    then none
    else if ltb_ℤ a (pos 0)
    then some (if ltb_ℤ b (pos 0) then pos q else negate q)
    else some (if ltb_ℤ b (pos 0) then negate q else pos q)

abbrev plain_request : DmRequest
plain_request = record {
  target_count = 0;
  secure_data = false;
  name = codes "rootfs";
  uuid = [];
  target = none;
}

unfoldable pub create_request : DmRequest
create_request = record plain_request { uuid = codes "CRYPT-PLAIN-rootfs" }

unfoldable pub table_parameters : Bytes → Bytes → Bytes
table_parameters cipher secret = cipher ++ (codes " " ++ (secret ++ codes " 0 /dev/loop0 0"))

unfoldable pub table_request : ℤ → Bytes → Bytes → DmRequest
unfolding table_parameters
table_request rootfs_blocks cipher secret = record plain_request {
  target_count = 1;
  secure_data = true;
  target = some (record {
    sector_start = 0;
    length = rootfs_blocks;
    target_type = codes "crypt";
    parameters = table_parameters cipher secret;
  });
}

unfoldable pub suspend_request : DmRequest
suspend_request = record plain_request { secure_data = true }

-- What the request buffer has behind `struct dm_ioctl` and `struct dm_target_spec`, of 312 and 40 bytes.
abbrev pub parameter_room : ℕ
parameter_room = 16384 - 312 - 40

module _ {W : Type 0} (k : Kernel) where
  unfoldable pub losetup : ℤ → B W ℤ
  losetup rootfs_fd = do
    loop_fd ← call k (open_read (codes "/dev/loop0"))
    (if ltb_ℤ loop_fd (pos 0)
        then fatal_error k (codes "Enable CONFIG_BLK_DEV_LOOP in kernel")
        else pure tt)
    ok_or_fatal k (loop_set_fd loop_fd rootfs_fd) (codes "LOOP_SET_FD failed")
    pure loop_fd

  -- `sprintf` into the request buffer runs over its end where the parameters do not fit.
  unfoldable pub dm_create : ℤ → Bytes → Bytes → B W (Unit {0})
  dm_create rootfs_blocks cipher secret = do
    dm_control ← call k (open_write (codes "/dev/mapper/control"))
    (if ltb_ℤ dm_control (pos 0)
        then fatal_error k (codes "Can't continue since '/dev/mapper/control' does not exist.")
        else pure tt)
    ok_or_fatal k (dm_ioctl dm_control dm_dev_create create_request)
        (codes "Enable CONFIG_DM_CRYPT in kernel")
    (if ltb (length (table_parameters cipher secret)) parameter_room
        then pure tt
        else halt undefined)
    ok_or_fatal k (dm_ioctl dm_control dm_table_load (table_request rootfs_blocks cipher secret))
        (codes "Check CONFIG_DM_CRYPT and crypto algs enabled")
    ok_or_fatal k (dm_ioctl dm_control dm_dev_suspend suspend_request)
        (codes "DM_DEV_SUSPEND failed")
    call k (close dm_control)
    pure tt

  unfoldable pub setup_initramfs : B W (Unit {0})
  setup_initramfs = do
    call k (mkdir (codes "/mnt") 493)
    call k (mkdir (codes "/dev") 493)
    call k (mkdir (codes "/sys") 365)
    call k (mkdir (codes "/proc") 365)
    ok_or_warn k
        (mount (codes "devtmpfs") (codes "/dev") (some (codes "devtmpfs"))
          (ms_nosuid ∷ ms_noexec ∷ []) (some (codes "mode=755,size=5%")))
        (codes "Can't mount /dev")
    ok_or_warn k
        (mount (codes "sysfs") (codes "/sys") (some (codes "sysfs"))
          (ms_nosuid ∷ ms_nodev ∷ ms_noexec ∷ []) none)
        (codes "Can't mount /sys")
    ok_or_warn k
        (mount (codes "proc") (codes "/proc") (some (codes "proc"))
          (ms_nosuid ∷ ms_nodev ∷ ms_noexec ∷ []) none)
        (codes "Can't mount /proc")

  -- `open`, or the end
  unfoldable pub open_rootfs : Bytes → B W ℤ
  open_rootfs rootfs_path = do
    rootfs_fd ← call k (open_read rootfs_path)
    (if ltb_ℤ rootfs_fd (pos 0)
        then fatal_error k
            (codes "Can't continue since '" ++ (rootfs_path ++ codes "' does not exist."))
        else pure tt)
    pure rootfs_fd

  -- the mount of the root file system, from a device
  unfoldable pub mount_root : Bytes → Bytes → Bytes → B W (Unit {0})
  mount_root device rootfs_path rootfs_type =
      ok_or_fatal k (mount device (codes "/mnt") (some rootfs_type) (ms_rdonly ∷ []) none)
        (codes "Expecting " ++ (rootfs_type ++ (codes " filesystem on " ++ rootfs_path)))

  unfoldable pub mount_fs : Bytes → Bytes → B W (Unit {0})
  mount_fs rootfs_path rootfs_type = do
    rootfs_fd ← open_rootfs rootfs_path
    call k (close rootfs_fd)
    mount_root rootfs_path rootfs_path rootfs_type

  -- a division by zero is undefined
  unfoldable pub quotient : Option ℤ → B W ℤ
  quotient none = halt undefined
  quotient (some blocks) = pure blocks

  unfoldable pub mount_encrypted_fs : Bytes → Bytes → Bytes → Bytes → B W (Unit {0})
  mount_encrypted_fs rootfs_path rootfs_type cipher secret = do
    rootfs_fd ← open_rootfs rootfs_path
    rootfs_size ← call k (lseek_end rootfs_fd)
    call k (lseek_start rootfs_fd)
    rc ← call k (block_size_get rootfs_fd)
    stored ← asks k.sector_size
    let block_size = if ltb_ℤ rc (pos 0) then pos 512 else stored
    rootfs_blocks ← quotient (div_ℤ rootfs_size block_size)
    loop_fd ← losetup rootfs_fd
    call k (close rootfs_fd)
    dm_create rootfs_blocks cipher secret
    mount_root (codes "/dev/dm-0") rootfs_path rootfs_type
    call k (close loop_fd)
    pure tt
