-- ===== src/Boot/Mounting.antt =====
-- The mounts of the root file system where no call fails: `mount_fs` and `mount_encrypted_fs` of
-- src/nerves_initramfs.c.
use nerves_initramfs.Base.{
  ltb, length, Bool, true, false, List, [], ◌∷◌, ◌++◌, append_assoc, none, some, ◌≡◌, refl, sym, ap,
  ◌∙◌, if◌then◌else◌,
}
use nerves_initramfs.Base.CString.{Bytes, codes}
use nerves_initramfs.Base.Int.{ℤ, pos, ltb_ℤ}
use nerves_initramfs.Script.Machine.{State, ok}
use nerves_initramfs.Boot.Kernel.{
  Call, mount, Trace, Kernel, ◌>>=◌, pure, call, asks, ms_rdonly, open_read, open_write, close,
  lseek_end, lseek_start, block_size_get, loop_set_fd, dm_ioctl, dm_dev_create, dm_table_load,
  dm_dev_suspend, ok_or_fatal,
}
use nerves_initramfs.Boot.Mount.{
  table_parameters, parameter_room, mount_encrypted_fs, mount_root, mount_fs, open_rootfs, losetup,
  dm_create, quotient, div_ℤ, create_request, table_request, suspend_request,
}
use nerves_initramfs.Boot.Success.{Succeeds, bind_runs, need_runs, div_some}

-- Calls one behind the other, with what the kernel answers.
abbrev pub performs : Kernel → List Call → Trace → Trace
performs k [] tr = tr
performs k (c ∷ cs) tr = performs k cs ((c, k.answer tr c) ∷ tr)

-- The calls that make a device with the name "rootfs", give it a table of one "crypt" target from
-- sector 0 on with that many sectors, over /dev/loop0, with the cipher and the secret in that order,
-- and resume it.
abbrev pub mapping_calls : ℤ → ℤ → Bytes → Bytes → List Call
mapping_calls control sectors cipher secret =
    open_write (codes "/dev/mapper/control")
    ∷ dm_ioctl control dm_dev_create (record {
      target_count = 0;
      secure_data = false;
      name = codes "rootfs";
      uuid = codes "CRYPT-PLAIN-rootfs";
      target = none;
    })
    ∷ dm_ioctl control dm_table_load (record {
      target_count = 1;
      secure_data = true;
      name = codes "rootfs";
      uuid = [];
      target = some (record {
        sector_start = 0;
        length = sectors;
        target_type = codes "crypt";
        parameters = cipher ++ (codes " " ++ (secret ++ codes " 0 /dev/loop0 0"));
      });
    })
    ∷ dm_ioctl control dm_dev_suspend (record {
      target_count = 0;
      secure_data = true;
      name = codes "rootfs";
      uuid = [];
      target = none;
    })
    ∷ close control
    ∷ []

-- From `before` to `tr`, the kernel was asked to decrypt what the path opens: its size was taken in
-- its sectors, /dev/loop0 was set on it, and it was mapped with that many sectors.
pub record Decrypts (k : Kernel) (path cipher secret : Bytes) (before tr : Trace) : Type 0 where
  pub rootfs_fd : ℤ
  pub loop_fd : ℤ
  pub control : ℤ
  pub sectors : ℤ
  pub measured : Trace
  pub attached : Trace
  pub rootfs_opened : rootfs_fd ≡ k.answer before (open_read path)
  pub measures :
      measured
      ≡ performs k
          (open_read path
            ∷ lseek_end rootfs_fd
            ∷ lseek_start rootfs_fd
            ∷ block_size_get rootfs_fd
            ∷ [])
          before
  pub counted :
      div_ℤ
        (k.answer ((open_read path, rootfs_fd) ∷ before) (lseek_end rootfs_fd))
        (k.sector_size measured)
      ≡ some sectors
  pub loop_opened : loop_fd ≡ k.answer measured (open_read (codes "/dev/loop0"))
  pub attaches :
      attached
      ≡ performs k
          (open_read (codes "/dev/loop0") ∷ loop_set_fd loop_fd rootfs_fd ∷ close rootfs_fd ∷ [])
          measured
  pub control_opened : control ≡ k.answer attached (open_write (codes "/dev/mapper/control"))
  pub maps : tr ≡ performs k (mapping_calls control sectors cipher secret) attached

-- What comes before the mount: the decryption, or a test that the path opens.
abbrev pub Readies : Kernel → Bool → Bytes → Bytes → Bytes → Trace → Trace → Type 0
Readies k true path cipher secret before tr = Decrypts k path cipher secret before tr
Readies k false path cipher secret before tr =
    tr ≡ performs k (open_read path ∷ close (k.answer before (open_read path)) ∷ []) before

-- what is mounted: the device, or the one that decrypts it
abbrev pub mounted_device : Bool → Bytes → Bytes
mounted_device encrypted path = if encrypted then codes "/dev/dm-0" else path

-- The root file system is mounted read-only at /mnt in the trace, right behind what readies its
-- device; there are other calls before and behind.
pub record Mounts (k : Kernel) (encrypted : Bool) (path fstype cipher secret : Bytes) (tr : Trace)
    : Type 0 where
  pub after : Trace
  pub ready : Trace
  pub before : Trace
  pub answer : ℤ
  pub readied : Readies k encrypted path cipher secret before ready
  pub succeeds : ltb_ℤ answer (pos 0) ≡ false
  pub split :
      tr
      ≡ after
        ++ ((
          mount (mounted_device encrypted path) (codes "/mnt") (some fstype) (ms_rdonly ∷ []) none,
          answer,
        )
            ∷ ready)

pub more_calls :
    {k : Kernel} {encrypted : Bool} {path fstype cipher secret : Bytes} {tr : Trace} (more : Trace)
    → Mounts k encrypted path fstype cipher secret tr
    → Mounts k encrypted path fstype cipher secret (more ++ tr)
more_calls more m = record {
  after = more ++ m.after;
  ready = m.ready;
  before = m.before;
  answer = m.answer;
  readied = m.readied;
  succeeds = m.succeeds;
  split = ap (◌++◌ more) m.split ∙ sym (append_assoc more m.after _);
}

-- the block size that is stored, where the call for it succeeds
stored_size :
    (a stored : ℤ)
    → ltb_ℤ a (pos 0) ≡ false
    → (if ltb_ℤ a (pos 0) then pos 512 else stored) ≡ stored
stored_size a stored h = rw h refl

-- the calls of `dm_create`
requests_lem :
    (control sectors : ℤ) (cipher secret : Bytes)
    → (open_write (codes "/dev/mapper/control")
        ∷ dm_ioctl control dm_dev_create create_request
        ∷ dm_ioctl control dm_table_load (table_request sectors cipher secret)
        ∷ dm_ioctl control dm_dev_suspend suspend_request
        ∷ close control
        ∷ [])
      ≡ mapping_calls control sectors cipher secret
unfolding create_request table_request suspend_request table_parameters
requests_lem control sectors cipher secret = refl

module _ {W : Type 0} where
  asks_runs : (f : Trace → ℤ) (s : State W) (tr : Trace) → asks f s tr ≡ (ok (f tr), s, tr)
  unfolding asks
  asks_runs f s tr = refl

module _ {W : Type 0} (k : Kernel) (good : Succeeds k) where
  call_runs :
      (c : Call) (s : State W) (tr : Trace)
      → call k c s tr ≡ (ok (k.answer tr c), s, (c, k.answer tr c) ∷ tr)
  unfolding call
  call_runs c s tr = refl

  open_rootfs_runs :
      (path : Bytes) (s : State W) (tr : Trace)
      → open_rootfs k path s tr
        ≡ (ok (k.answer tr (open_read path)), s, performs k (open_read path ∷ []) tr)
  unfolding open_rootfs call pure ◌>>=◌
  open_rootfs_runs path s tr = rw (good.no_failure tr (open_read path)) refl

  losetup_runs :
      (fd : ℤ) (s : State W) (tr : Trace)
      → losetup k fd s tr ≡ (
        ok (k.answer tr (open_read (codes "/dev/loop0"))),
        s,
        performs k
            (open_read (codes "/dev/loop0")
              ∷ loop_set_fd (k.answer tr (open_read (codes "/dev/loop0"))) fd
              ∷ [])
            tr,
      )
  unfolding losetup call pure ◌>>=◌ ok_or_fatal
  losetup_runs fd s tr =
      let c = open_read (codes "/dev/loop0") in
      let a = k.answer tr c in
      rw (good.no_failure tr c, good.no_failure ((c, a) ∷ tr) (loop_set_fd a fd)) refl

  pub mount_fs_runs :
      (path fstype cipher secret : Bytes) (s : State W) (tr : Trace)
      → (tr' : Trace) × (mount_fs k path fstype s tr ≡ (ok tt, s, tr'))
        × Mounts k false path fstype cipher secret tr'
  unfolding mount_fs mount_root
  mount_fs_runs path fstype cipher secret s tr = (
    _,
    bind_runs _ _ (open_rootfs_runs path s tr)
        ∙ bind_runs _ _ (call_runs (close (k.answer tr (open_read path))) s _)
        ∙ need_runs k good _ _ s _,
    record {
      after = [];
      ready = _;
      before = tr;
      answer = _;
      readied = refl;
      succeeds = good.no_failure _ _;
      split = refl;
    },
  )

  -- the device, created, loaded and resumed
  dm_create_runs :
      (blocks : ℤ) (cipher secret : Bytes) (s : State W) (tr : Trace)
      → ltb (length (table_parameters cipher secret)) parameter_room ≡ true
      → let control = k.answer tr (open_write (codes "/dev/mapper/control")) in
        dm_create k blocks cipher secret s tr ≡ (
          ok tt,
          s,
          performs k
              (open_write (codes "/dev/mapper/control")
                ∷ dm_ioctl control dm_dev_create create_request
                ∷ dm_ioctl control dm_table_load (table_request blocks cipher secret)
                ∷ dm_ioctl control dm_dev_suspend suspend_request
                ∷ close control
                ∷ [])
              tr,
        )
  unfolding dm_create call pure ◌>>=◌ ok_or_fatal
  dm_create_runs blocks cipher secret s tr fits =
      let opens = open_write (codes "/dev/mapper/control") in
      let t₁ = performs k (opens ∷ []) tr in
      let creates = dm_ioctl (k.answer tr opens) dm_dev_create create_request in
      let t₂ = performs k (creates ∷ []) t₁ in
      let loads = dm_ioctl (k.answer tr opens) dm_table_load (table_request blocks cipher secret) in
      let t₃ = performs k (loads ∷ []) t₂ in
      let resumes = dm_ioctl (k.answer tr opens) dm_dev_suspend suspend_request in
      rw
        (
          good.no_failure tr opens,
          good.no_failure t₁ creates,
          fits,
          good.no_failure t₂ loads,
          good.no_failure t₃ resumes,
        )
        refl

  pub mount_encrypted_fs_runs :
      (path fstype cipher secret : Bytes) (s : State W) (tr : Trace)
      → ltb (length (table_parameters cipher secret)) parameter_room ≡ true
      → (tr' : Trace) × (mount_encrypted_fs k path fstype cipher secret s tr ≡ (ok tt, s, tr'))
        × Mounts k true path fstype cipher secret tr'
  unfolding mount_encrypted_fs mount_root quotient pure
  mount_encrypted_fs_runs path fstype cipher secret s tr fits =
      let fd = k.answer tr (open_read path) in
      let t₁ = performs k (open_read path ∷ []) tr in
      let t₂ = performs k (lseek_end fd ∷ []) t₁ in
      let t₃ = performs k (lseek_start fd ∷ []) t₂ in
      let t₄ = performs k (block_size_get fd ∷ []) t₃ in
      let size = k.answer t₁ (lseek_end fd) in
      let (sectors, counted) = div_some size (k.sector_size t₄) (good.sectors t₄) in
      let loop_fd = k.answer t₄ (open_read (codes "/dev/loop0")) in
      let t₅ =
        performs k (open_read (codes "/dev/loop0") ∷ loop_set_fd loop_fd fd ∷ close fd ∷ []) t₄ in
      let control = k.answer t₅ (open_write (codes "/dev/mapper/control")) in
      let t₆ =
        performs k
          (open_write (codes "/dev/mapper/control")
            ∷ dm_ioctl control dm_dev_create create_request
            ∷ dm_ioctl control dm_table_load (table_request sectors cipher secret)
            ∷ dm_ioctl control dm_dev_suspend suspend_request
            ∷ close control
            ∷ [])
          t₅ in
      let mounts = mount (codes "/dev/dm-0") (codes "/mnt") (some fstype) (ms_rdonly ∷ []) none in
      let t₇ = performs k (mounts ∷ []) t₆ in
      let used =
        ap (λ b. quotient {W = W} k (div_ℤ size b) s t₄)
          (stored_size (k.answer t₃ (block_size_get fd)) (k.sector_size t₄)
            (good.no_failure t₃ (block_size_get fd)))
        ∙ ap (λ o. quotient {W = W} k o s t₄) counted in
      (
        performs k (close loop_fd ∷ []) t₇,
        bind_runs _ _ (open_rootfs_runs path s tr)
            ∙ bind_runs _ _ (call_runs (lseek_end fd) s t₁)
            ∙ bind_runs _ _ (call_runs (lseek_start fd) s t₂)
            ∙ bind_runs _ _ (call_runs (block_size_get fd) s t₃)
            ∙ bind_runs _ _ (asks_runs k.sector_size s t₄)
            ∙ bind_runs (quotient {W = W} k _) _ used
            ∙ bind_runs _ _ (losetup_runs fd s t₄)
            ∙ bind_runs _ _ (call_runs (close fd) s _)
            ∙ bind_runs _ _ (dm_create_runs sectors cipher secret s t₅ fits)
            ∙ bind_runs _ _ (need_runs k good mounts _ s t₆)
            ∙ bind_runs _ _ (call_runs (close loop_fd) s t₇),
        record {
          after = (close loop_fd, k.answer t₇ (close loop_fd)) ∷ [];
          ready = t₆;
          before = tr;
          answer = k.answer t₆ mounts;
          readied = record {
            rootfs_fd = fd;
            loop_fd = loop_fd;
            control = control;
            sectors = sectors;
            measured = t₄;
            attached = t₅;
            rootfs_opened = refl;
            measures = refl;
            counted = counted;
            loop_opened = refl;
            attaches = refl;
            control_opened = refl;
            maps = ap (λ cs. performs k cs t₅) (requests_lem control sectors cipher secret);
          };
          succeeds = good.no_failure t₆ mounts;
          split = refl;
        },
      )
