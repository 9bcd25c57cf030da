-- ===== src/Boot/Main.antt =====
-- `switch_root` and `main` of src/nerves_initramfs.c.
use nerves_initramfs.Base.{drop, ℕ, false, List, [], ◌∷◌, ◌++◌, Option, none, some, if◌then◌else◌}
use nerves_initramfs.Base.CString.{Bytes, codes}
use nerves_initramfs.Base.Int.{pos, ltb_ℤ, eqb_ℤ}
use nerves_initramfs.Rootdisk.{LinkStep, notes, links, create_rootdisk_symlinks}
use nerves_initramfs.Script.Machine
use nerves_initramfs.Script.Machine.{Platform, M, exited, does}
use nerves_initramfs.Script.Convert.{get_variable_as_string, get_variable_as_boolean}
use nerves_initramfs.Script.Storage.{open_spec}
use nerves_initramfs.Script.Run.{evaluator}
use nerves_initramfs.Boot.{initialize_script_defaults, cut_options}
use nerves_initramfs.Boot.Cleanup.{Step, says, removes, root_skip_list, cleanup_dir}
use nerves_initramfs.Boot.Kernel.{
  ms_move, mount, umount, rmdir, chdir, chroot, execv, open_read, getpid, unlinkat, symlink, Kernel,
  B, ◌>>=◌, ◌>>◌, pure, halt, script, call, asks, info, fatal_error, ok_or_warn, ok_or_debug,
}
use nerves_initramfs.Boot.Mount.{setup_initramfs, mount_fs, mount_encrypted_fs}

module _ {W : Type 0} (k : Kernel) where
  -- the calls of `cleanup_dir`
  unfoldable pub run_steps : List Step → B W (Unit {0})
  run_steps [] = pure tt
  run_steps (says message ∷ steps) = do info k message; run_steps steps
  run_steps (removes path is_dir message ∷ steps) = do
    ok_or_warn k (unlinkat path is_dir) message
    run_steps steps

  unfoldable pub cleanup_old_rootfs : B W (Unit {0})
  cleanup_old_rootfs = do
    fd ← call k (open_read (codes "/"))
    directory ← asks k.root
    if ltb_ℤ fd (pos 0)
        then info k (codes "Can't open '/'?") >> pure tt
        else run_steps (cleanup_dir [] root_skip_list directory)
          >> (call k (rmdir (codes "/sys")) >> (call k (rmdir (codes "/proc")) >> pure tt))

  unfoldable pub switch_root : B W (Unit {0})
  switch_root = do
    ok_or_warn k (mount (codes "/dev") (codes "/mnt/dev") none (ms_move ∷ []) none)
        (codes "moving /dev failed")
    ok_or_warn k (umount (codes "/sys")) (codes "unmounting /sys failed")
    ok_or_warn k (umount (codes "/proc")) (codes "unmounting /proc failed")
    cleanup_old_rootfs
    ok_or_debug k (chdir (codes "/mnt"))
    ok_or_warn k (mount (codes ".") (codes "/") none (ms_move ∷ []) none) (codes "moving / failed")
    ok_or_debug k (chroot (codes "."))

  -- the calls of `create_rootdisk_symlinks`
  unfoldable pub make_links : List LinkStep → B W (Unit {0})
  make_links [] = pure tt
  make_links (notes message ∷ steps) = do info k message; make_links steps
  make_links (links (symlinkpath, devpath) ∷ steps) = do
    ok_or_warn k (symlink devpath symlinkpath) (
        codes "Could not create symlink '"
        ++ (symlinkpath ++ (codes "'->'" ++ (devpath ++ codes "'"))))
    make_links steps

  unfoldable pub link_rootdisk : Bytes → B W (Unit {0})
  link_rootdisk rootfs_path = do
    sys ← asks k.sys
    st_rdev ← asks (λ tr. k.stat tr rootfs_path)
    make_links (create_rootdisk_symlinks sys rootfs_path st_rdev)

-- The script of /nerves_initramfs.conf and the REPL are arguments. A program that `execv` starts takes
-- the place of this one, which the stop `exited` stands for.
module _ {W Fd : Type 0} (k : Kernel) (p : Platform W Fd) (fuel : ℕ)
    (eval_file repl : M W (Unit {0})) where
  -- what `resolve_block_device_spec` does with the descriptor, and `main` without one
  unfoldable pub close_resolved : Bytes → Option Fd → B W (Unit {0})
  close_resolved rootfs_spec (some fd) = script (does (p.close fd))
  close_resolved rootfs_spec none =
      fatal_error k (codes "Can't continue since '" ++ (rootfs_spec ++ codes "' does not exist."))

  -- from the variables to the mounted root file system: its path
  unfoldable pub mount_rootfs : B W Bytes
  mount_rootfs = do
    let e = evaluator p fuel
    rootfs_spec ← script (get_variable_as_string p e (codes "rootfs.path"))
    (fd, rootfs_path) ← script (open_spec p e rootfs_spec false)
    close_resolved rootfs_spec fd
    rootfs_fstype ← script (get_variable_as_string p e (codes "rootfs.fstype"))
    encrypted ← script (get_variable_as_boolean p e (codes "rootfs.encrypted"))
    cipher ←
        script (
          if encrypted then get_variable_as_string p e (codes "rootfs.cipher") else Machine.pure [])
    secret ←
        script (
          if encrypted then get_variable_as_string p e (codes "rootfs.secret") else Machine.pure [])
    (if encrypted
        then mount_encrypted_fs k rootfs_path rootfs_fstype cipher secret
        else mount_fs k rootfs_path rootfs_fstype)
    pure rootfs_path

  unfoldable pub main : List Bytes → B W (Unit {0})
  main argv = do
    info k (codes "version unknown")
    pid ← call k getpid
    (if eqb_ℤ pid (pos 1) then pure tt else fatal_error k (codes "Must be pid 1"))
    setup_initramfs k
    script (initialize_script_defaults p (drop 1 argv))
    script eval_file
    run_repl ← script (get_variable_as_boolean p (evaluator p fuel) (codes "run_repl"))
    (if run_repl then script repl else pure tt)
    rootfs_path ← mount_rootfs
    link_rootdisk k rootfs_path
    switch_root k
    rc ← call k (execv (codes "/sbin/init") (cut_options argv))
    if ltb_ℤ rc (pos 0) then fatal_error k (codes "Couldn't run /sbin/init") else halt exited
