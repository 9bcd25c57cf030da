-- ===== src/Boot/Finish.antt =====
-- `main` of src/nerves_initramfs.c from its start to /sbin/init.
use nerves_initramfs.Base.{
  ltb, subst, true, length, ℕ, suc, Bool, false, List, [], ◌∷◌, ◌++◌, some, ◌≡◌, refl, ap, ◌∙◌,
  if◌then◌else◌, drop, arith,
}
use nerves_initramfs.Base.CString.{Bytes, codes}
use nerves_initramfs.Base.Int.{ℤ, pos, ltb_ℤ, eqb_ℤ}
use nerves_initramfs.Script.{string, boolean, Variable}
use nerves_initramfs.Script.Machine
use nerves_initramfs.Script.Machine.{State, Platform, ok, stop, exited, M, does}
use nerves_initramfs.Script.Vars.{value_of}
use nerves_initramfs.Script.Convert.{get_variable_as_string}
use nerves_initramfs.Script.Storage.{open_spec}
use nerves_initramfs.Boot.{initialize_script_defaults, cut_options}
use nerves_initramfs.Boot.Kernel.{
  execv, getpid, Trace, Kernel, ◌>>=◌, pure, halt, script, call, fatal_error,
}
use nerves_initramfs.Boot.Main.{close_resolved, mount_rootfs, main}
use nerves_initramfs.Script.Reads.{level, string_variable, boolean_variable, open_spec_keeps}
use nerves_initramfs.Boot.Mounting.{Mounts, more_calls, mount_fs_runs, mount_encrypted_fs_runs}
use nerves_initramfs.Boot.Mount.{table_parameters, parameter_room, mount_fs, mount_encrypted_fs}
use nerves_initramfs.Boot.Success.{
  Succeeds, bind_runs, info-Quiet, setup-Quiet, switch_root-Quiet, link_rootdisk-Quiet,
}

module _ {W : Type 0} where
  script_runs :
      {A : Type 0} (m : M W A) {a : A} {s s' : State W} (tr : Trace)
      → m s ≡ (ok a, s')
      → script m s tr ≡ (ok a, s', tr)
  unfolding script
  script_runs m tr h = ap (λ r. (r.0, r.1, tr)) h

-- What the script leaves: no REPL, and a root file system of that type at that path, encrypted or not.
pub record Asks (vars : List Variable) (spec fstype cipher secret : Bytes) (encrypted : Bool)
    : Type 0 where
  pub no_repl : value_of vars (codes "run_repl") ≡ some (some (boolean false))
  pub path : value_of vars (codes "rootfs.path") ≡ some (some (string spec))
  pub type : value_of vars (codes "rootfs.fstype") ≡ some (some (string fstype))
  pub is_encrypted : value_of vars (codes "rootfs.encrypted") ≡ some (some (boolean encrypted))
  pub with_cipher : value_of vars (codes "rootfs.cipher") ≡ some (some (string cipher))
  pub with_secret : value_of vars (codes "rootfs.secret") ≡ some (some (string secret))

module _ {W Fd : Type 0} (k : Kernel) (p : Platform W Fd) (fuel : ℕ)
    (eval_file repl : M W (Unit {0})) (good : Succeeds k) where
  is_first :
      (before : Trace) (text : Bytes) (s : State W) (tr : Trace)
      → (if eqb_ℤ (k.answer before getpid) (pos 1) then pure tt else fatal_error k text) s tr
        ≡ (ok tt, s, tr)
  unfolding pure
  is_first before text s tr = rw (good.first before)

  execv_ends :
      (argv : List Bytes) (text : Bytes) (s : State W) (tr : Trace)
      → (call k (execv (codes "/sbin/init") argv) >>= λ rc.
            if ltb_ℤ rc (pos 0) then fatal_error {A = Unit {0}} k text else halt exited)
          s tr
        ≡ (
          stop exited,
          s,
          (execv (codes "/sbin/init") argv, k.answer tr (execv (codes "/sbin/init") argv)) ∷ tr,
        )
  unfolding call halt ◌>>=◌
  execv_ends argv text s tr = rw (good.no_failure tr (execv (codes "/sbin/init") argv))

  rootfs_mounted :
      (encrypted : Bool) (path fstype cipher secret : Bytes) (s : State W) (tr : Trace)
      → (encrypted ≡ true → ltb (length (table_parameters cipher secret)) parameter_room ≡ true)
      → (tr' : Trace) × ((if encrypted
              then mount_encrypted_fs k path fstype cipher secret
              else mount_fs k path fstype)
            s tr
          ≡ (ok tt, s, tr'))
        × Mounts k encrypted path fstype cipher secret tr'
  rootfs_mounted true path fstype cipher secret s tr fits =
      mount_encrypted_fs_runs k good path fstype cipher secret s tr (fits refl)
  rootfs_mounted false path fstype cipher secret s tr fits =
      mount_fs_runs k good path fstype cipher secret s tr

  -- the mount with what was read of the cipher and the secret is that with what they are
  kept_secrets :
      (encrypted : Bool) (path fstype cipher secret c x : Bytes) {tr : Trace}
      → (encrypted ≡ true → c ≡ cipher)
      → (encrypted ≡ true → x ≡ secret)
      → Mounts k encrypted path fstype c x tr
      → Mounts k encrypted path fstype cipher secret tr
  kept_secrets true path fstype cipher secret c x {tr} is_cipher is_secret m =
      subst (λ c. Mounts k true path fstype c secret tr) (is_cipher refl)
        (subst (λ x. Mounts k true path fstype c x tr) (is_secret refl) m)
  kept_secrets false path fstype cipher secret c x is_cipher is_secret m = record {
    after = m.after;
    ready = m.ready;
    before = m.before;
    answer = m.answer;
    readied = m.readied;
    succeeds = m.succeeds;
    split = m.split;
  }

  -- `rootfs.cipher` and `rootfs.secret` are read for an encrypted file system only
  secret_read :
      (encrypted : Bool) (name text : Bytes) (s : State W)
      → value_of s.variables name ≡ some (some (string text))
      → (used : Bytes) × ((if encrypted
              then get_variable_as_string p (level p fuel) name
              else Machine.pure [])
            s
          ≡ (ok used, s))
        × (encrypted ≡ true → used ≡ text)
  secret_read true name text s h = (text, string_variable p fuel name text s h, λ e. refl)
  secret_read false name text s h = ([], refl, λ e. ground arith)

  mount_rootfs_runs :
      (s s' : State W) (spec fstype cipher secret path : Bytes) (encrypted : Bool) (fd : Fd)
      (tr : Trace)
      → Asks s.variables spec fstype cipher secret encrypted
      → (encrypted ≡ true → ltb (length (table_parameters cipher secret)) parameter_room ≡ true)
      → open_spec p (level p fuel) spec false s ≡ (ok (some fd, path), s')
      → (last : State W) × (tr' : Trace) × (mount_rootfs k p (suc fuel) eval_file repl s tr
          ≡ (ok path, last, tr'))
        × (last.world ≡ p.close fd s'.world)
        × Mounts k encrypted path fstype cipher secret tr'
  unfolding mount_rootfs close_resolved pure
  mount_rootfs_runs s s' spec fstype cipher secret path encrypted fd tr asks fits opens =
      let same = open_spec_keeps p fuel spec false s opens in
      let kept : (name : Bytes) → value_of s'.variables name ≡ value_of s.variables name =
        λ name. ap (λ vs. value_of vs name) same in
      let last : State W = record s' { world = p.close fd s'.world } in
      let get_type =
        string_variable p fuel (codes "rootfs.fstype") fstype last (kept _ ∙ asks.type) in
      let get_encrypted =
        boolean_variable p fuel (codes "rootfs.encrypted") encrypted last
          (kept _ ∙ asks.is_encrypted) in
      let (c, get_cipher, is_cipher) =
        secret_read encrypted (codes "rootfs.cipher") cipher last (kept _ ∙ asks.with_cipher) in
      let (x, get_secret, is_secret) =
        secret_read encrypted (codes "rootfs.secret") secret last (kept _ ∙ asks.with_secret) in
      let (tr', run, mounts) =
        rootfs_mounted encrypted path fstype c x last tr
          (λ e. rw (is_cipher e, is_secret e) (fits e)) in
      (
        last,
        tr',
        bind_runs _ _ (
              script_runs (get_variable_as_string p (level p fuel) (codes "rootfs.path")) tr
                (string_variable p fuel (codes "rootfs.path") spec s asks.path))
            ∙ bind_runs _ _ (script_runs (open_spec p (level p fuel) spec false) tr opens)
            ∙ bind_runs _ _ (script_runs (does (p.close fd)) tr refl)
            ∙ bind_runs _ _ (script_runs _ tr get_type)
            ∙ bind_runs _ _ (script_runs _ tr get_encrypted)
            ∙ bind_runs _ _ (script_runs _ tr get_cipher)
            ∙ bind_runs _ _ (script_runs _ tr get_secret)
            ∙ bind_runs _ _ run,
        refl,
        kept_secrets encrypted path fstype cipher secret c x is_cipher is_secret mounts,
      )

  -- A boot in which no call fails and a sector has some bytes: where the defaults are set, the script
  -- ends well and leaves no REPL and a root file system, of which the cipher and the secret fit the
  -- request if it is encrypted, and its device opens, `main` mounts that file system with its type,
  -- read-only, at /mnt, and ends by starting /sbin/init with what is left of its arguments, in the world
  -- that the device was opened and closed in. Right before
  -- the mount, an encrypted device is measured in sectors and put on /dev/loop0, and a device "rootfs" is
  -- created, gets a table of one "crypt" target, of that many sectors from 0 on over /dev/loop0, with the
  -- cipher and the secret, and is resumed; then /dev/dm-0 is mounted. Any other is opened and closed, and
  -- mounted itself.
  pub main_finishes :
      (argv : List Bytes) (s s₀ s₁ s₂ : State W) (spec fstype cipher secret path : Bytes)
      (encrypted : Bool) (fd : Fd)
      → initialize_script_defaults p (drop 1 argv) s ≡ (ok tt, s₀)
      → eval_file s₀ ≡ (ok tt, s₁)
      → Asks s₁.variables spec fstype cipher secret encrypted
      → (encrypted ≡ true → ltb (length (table_parameters cipher secret)) parameter_room ≡ true)
      → open_spec p (level p fuel) spec false s₁ ≡ (ok (some fd, path), s₂)
      → (last : State W) × (tr : Trace) × (a : ℤ) × (main k p (suc fuel) eval_file repl argv s []
          ≡ (stop exited, last, (execv (codes "/sbin/init") (cut_options argv), a) ∷ tr))
        × (last.world ≡ p.close fd s₂.world)
        × Mounts k encrypted path fstype cipher secret tr
  unfolding main call pure
  main_finishes argv s s₀ s₁ s₂ spec fstype cipher secret path encrypted fd defaults script_ends
        asks fits opens =
      let (a₁, tr₁, starts) = (info-Quiet k good (codes "version unknown")).runs s [] in
      let tr₂ = (getpid, k.answer (tr₁ ++ []) getpid) ∷ (tr₁ ++ []) in
      let called : call k getpid s (tr₁ ++ []) ≡ (ok (k.answer (tr₁ ++ []) getpid), s, tr₂) =
        refl in
      let (u, tr₃, sets_up) = (setup-Quiet k good).runs s tr₂ in
      let tr₄ = tr₃ ++ tr₂ in
      let goes_on : pure tt s₁ tr₄ ≡ (ok tt, s₁, tr₄) = refl in
      let (last, tr₅, run, world, mounts) =
        mount_rootfs_runs s₁ s₂ spec fstype cipher secret path encrypted fd tr₄ asks fits opens in
      let (u₁, tr₆, linked) = (link_rootdisk-Quiet k good path).runs last tr₅ in
      let (u₂, tr₇, switched) = (switch_root-Quiet k good).runs last (tr₆ ++ tr₅) in
      (
        last,
        tr₇ ++ (tr₆ ++ tr₅),
        _,
        bind_runs _ _ starts
            ∙ bind_runs _ _ called
            ∙ bind_runs _ _ (is_first (tr₁ ++ []) (codes "Must be pid 1") s tr₂)
            ∙ bind_runs _ _ sets_up
            ∙ bind_runs _ _ (script_runs (initialize_script_defaults p (drop 1 argv)) tr₄ defaults)
            ∙ bind_runs _ _ (script_runs eval_file tr₄ script_ends)
            ∙ bind_runs _ _ (
                script_runs _ tr₄
                  (boolean_variable p fuel (codes "run_repl") false s₁ asks.no_repl))
            ∙ bind_runs _ _ goes_on
            ∙ bind_runs _ _ run
            ∙ bind_runs _ _ linked
            ∙ bind_runs _ _ switched
            ∙ execv_ends (cut_options argv) (codes "Couldn't run /sbin/init") last
                (tr₇ ++ (tr₆ ++ tr₅)),
        world,
        more_calls tr₇ (more_calls tr₆ mounts),
      )
