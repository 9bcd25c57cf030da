-- ===== src/Boot/Order/Mounts.antt =====
-- The mounts keep the order.
use nerves_initramfs.Base.{Bool, true, false, Option, none, some, refl, if◌then◌else◌}
use nerves_initramfs.Base.CString.{Bytes, str_eq}
use nerves_initramfs.Base.Int.{ℤ, pos, ltb_ℤ}
use nerves_initramfs.Boot.Kernel.{Kernel, pure, fatal_error, ok_or_fatal}
use nerves_initramfs.Boot.Mount.{
  losetup, dm_create, setup_initramfs, open_rootfs, mount_root, mount_fs, mount_encrypted_fs,
  quotient,
}
use nerves_initramfs.Boot.Phases.{preparing, mounted, next_phase}
use nerves_initramfs.Boot.Order.Steps.{
  Leads, bind-Leads, pure-Leads, halt-Leads, if-Leads, asks-Leads, call-Leads, fatal-Leads,
  warn-Leads, need-Leads, guard-Leads, answer-Leads,
}

module _ {W : Type 0} (k : Kernel) where
  pub setup-Leads : Leads preparing preparing (setup_initramfs {W = W} k)
  unfolding setup_initramfs next_phase str_eq
  setup-Leads = bind-Leads (call-Leads k _ (λ a. refl)) (λ a.
      bind-Leads (call-Leads k _ (λ a. refl)) (λ a. bind-Leads (call-Leads k _ (λ a. refl)) (λ a.
        bind-Leads (call-Leads k _ (λ a. refl)) (λ a.
          bind-Leads (warn-Leads k _ _ (λ a. refl))
            (λ a. bind-Leads (warn-Leads k _ _ (λ a. refl)) (λ a. warn-Leads k _ _ (λ a. refl)))))))

  losetup-Leads : (fd : ℤ) → Leads preparing preparing (losetup {W = W} k fd)
  unfolding losetup next_phase
  losetup-Leads fd = bind-Leads (call-Leads k _ (λ a. refl)) (λ loop_fd.
      bind-Leads (guard-Leads k (ltb_ℤ loop_fd (pos 0)) _)
        (λ u. bind-Leads (need-Leads k _ _ (λ a. refl)) (λ u. (pure-Leads _))))

  dm_create-Leads :
      (blocks : ℤ) (cipher secret : Bytes)
      → Leads preparing preparing (dm_create {W = W} k blocks cipher secret)
  unfolding dm_create next_phase
  dm_create-Leads blocks cipher secret = bind-Leads (call-Leads k _ (λ a. refl)) (λ fd.
      bind-Leads (guard-Leads k (ltb_ℤ fd (pos 0)) _) (λ u.
        bind-Leads (need-Leads k _ _ (λ a. refl)) (λ u.
          bind-Leads (if-Leads _ (pure-Leads _) (halt-Leads _)) (λ u.
            bind-Leads (need-Leads k _ _ (λ a. refl)) (λ u.
              bind-Leads (need-Leads k _ _ (λ a. refl))
                (λ u. bind-Leads (call-Leads k _ (λ a. refl)) (λ u. (pure-Leads _))))))))

  open_rootfs-Leads : (path : Bytes) → Leads preparing preparing (open_rootfs {W = W} k path)
  unfolding open_rootfs next_phase
  open_rootfs-Leads path =
      bind-Leads (call-Leads k _ (λ a. refl))
        (λ fd. bind-Leads (guard-Leads k (ltb_ℤ fd (pos 0)) _) (λ u. (pure-Leads _)))

  mounted_if :
      (b : Bool) (text : Bytes)
      → Leads
          (if b then preparing else mounted)
          mounted
          (if b then fatal_error {W = W} k text else pure tt)
  mounted_if true text = fatal-Leads k text
  mounted_if false text = pure-Leads _

  mount_root-Leads :
      (device path type : Bytes) → Leads preparing mounted (mount_root {W = W} k device path type)
  unfolding mount_root ok_or_fatal next_phase str_eq
  mount_root-Leads device path type =
      answer-Leads k _ (λ a. if ltb_ℤ a (pos 0) then preparing else mounted) (λ a. refl)
        (λ a. mounted_if (ltb_ℤ a (pos 0)) _)

  pub mount_fs-Leads : (path type : Bytes) → Leads preparing mounted (mount_fs {W = W} k path type)
  unfolding mount_fs next_phase
  mount_fs-Leads path type =
      bind-Leads (open_rootfs-Leads path)
        (λ fd. bind-Leads (call-Leads k _ (λ a. refl)) (λ a. mount_root-Leads path path type))

  quotient-Leads : (q : Option ℤ) → Leads preparing preparing (quotient {W = W} k q)
  unfolding quotient
  quotient-Leads none = halt-Leads _
  quotient-Leads (some blocks) = pure-Leads _

  pub mount_encrypted_fs-Leads :
      (path type cipher secret : Bytes)
      → Leads preparing mounted (mount_encrypted_fs {W = W} k path type cipher secret)
  unfolding mount_encrypted_fs next_phase
  mount_encrypted_fs-Leads path type cipher secret = bind-Leads (open_rootfs-Leads path) (λ fd.
      bind-Leads (call-Leads k _ (λ a. refl)) (λ size. bind-Leads (call-Leads k _ (λ a. refl)) (λ a.
        bind-Leads (call-Leads k _ (λ a. refl)) (λ rc. bind-Leads (asks-Leads _) (λ stored.
          bind-Leads (quotient-Leads _) (λ blocks. bind-Leads (losetup-Leads fd) (λ loop_fd.
            bind-Leads (call-Leads k _ (λ a. refl)) (λ a.
              bind-Leads (dm_create-Leads blocks cipher secret) (λ u.
                bind-Leads (mount_root-Leads _ path type)
                  (λ u. bind-Leads (call-Leads k _ (λ a. refl)) (λ a. pure-Leads _)))))))))))
