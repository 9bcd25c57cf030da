-- ===== src/Boot/Order.antt =====
-- `main` keeps the order of `Boot/Phases.antt`, whatever the kernel answers and whatever the script does.
pub mod Steps
pub mod Mounts
use nerves_initramfs.Base.{ℕ, Bool, List, [], ◌∷◌, Option, none, some, ◌≡◌, refl, All}
use nerves_initramfs.Base.CString.{Bytes, str_eq}
use nerves_initramfs.Base.Int.{ℤ, pos, ltb_ℤ}
use nerves_initramfs.Script.Machine.{State, Outcome, ok, stop, M, Platform}
use nerves_initramfs.Boot.Cleanup.{
  root_skip_list, StartsOutside, KeepsList, cleanup_dir_skips, Step, says, removes,
}
use nerves_initramfs.Boot.Kernel.{unlinkat, Trace, Kernel}
use nerves_initramfs.Rootdisk.{LinkStep, notes, links}
use nerves_initramfs.Boot.Main.{
  run_steps, cleanup_old_rootfs, switch_root, make_links, link_rootdisk, close_resolved,
  mount_rootfs, main,
}
use nerves_initramfs.Boot.Phases.{Phase, preparing, mounted, switching, next_phase, phase_of}
use nerves_initramfs.Boot.Order.Steps.{
  Ended, Leads, bind-Leads, pure-Leads, halt-Leads, if-Leads, asks-Leads, script-Leads, call-Leads,
  info-Leads, fatal-Leads, warn-Leads, debug-Leads,
}
use nerves_initramfs.Boot.Order.Mounts.{setup-Leads, mount_fs-Leads, mount_encrypted_fs-Leads}

-- the calls, the latest first
abbrev pub trace_of : {W A : Type 0} → Outcome A × State W × Trace → Trace
trace_of (r, s, tr) = tr

unlink_step :
    (path : List Bytes) (is_dir : Bool) (a : ℤ)
    → StartsOutside root_skip_list path
    → next_phase switching (unlinkat path is_dir) a ≡ some switching
unfolding next_phase
unlink_step [] is_dir a h = absurd h
unlink_step (name ∷ path) is_dir a h = rw h

module _ {W : Type 0} (k : Kernel) where
  run_steps-Leads :
      (steps : List Step)
      → All (KeepsList root_skip_list) steps
      → Leads switching switching (run_steps {W = W} k steps)
  unfolding run_steps
  run_steps-Leads [] h = pure-Leads _
  run_steps-Leads (says message ∷ steps) (h, hs) =
      bind-Leads (info-Leads k _) (λ a. run_steps-Leads steps hs)
  run_steps-Leads (removes path is_dir message ∷ steps) (h, hs) =
      bind-Leads (warn-Leads k _ _ (λ a. unlink_step path is_dir a h))
        (λ a. run_steps-Leads steps hs)

  cleanup-Leads : Leads switching switching (cleanup_old_rootfs {W = W} k)
  unfolding cleanup_old_rootfs next_phase
  cleanup-Leads = bind-Leads (call-Leads k _ (λ a. refl)) (λ fd.
      bind-Leads (asks-Leads _) (λ directory.
        if-Leads (ltb_ℤ fd (pos 0)) (bind-Leads (info-Leads k _) (λ a. pure-Leads _)) (
          bind-Leads (run_steps-Leads _ (cleanup_dir_skips root_skip_list directory)) (λ u.
            bind-Leads (call-Leads k _ (λ a. refl))
              (λ a. bind-Leads (call-Leads k _ (λ a. refl)) (λ a. pure-Leads _))))))

  switch_root-Leads : Leads mounted switching (switch_root {W = W} k)
  unfolding switch_root next_phase str_eq
  switch_root-Leads = bind-Leads (warn-Leads k _ _ (λ a. refl)) (λ u.
      bind-Leads (warn-Leads k _ _ (λ a. refl)) (λ u.
        bind-Leads (warn-Leads k _ _ (λ a. refl)) (λ u. bind-Leads cleanup-Leads (λ u.
          bind-Leads (debug-Leads k _ (λ a. refl))
            (λ u. bind-Leads (warn-Leads k _ _ (λ a. refl)) (λ u. debug-Leads k _ (λ a. refl)))))))

  make_links-Leads : (steps : List LinkStep) → Leads mounted mounted (make_links {W = W} k steps)
  unfolding make_links next_phase
  make_links-Leads [] = pure-Leads _
  make_links-Leads (notes message ∷ steps) =
      bind-Leads (info-Leads k _) (λ u. make_links-Leads steps)
  make_links-Leads (links (link, dev) ∷ steps) =
      bind-Leads (warn-Leads k _ _ (λ a. refl)) (λ u. make_links-Leads steps)

  link_rootdisk-Leads : (path : Bytes) → Leads mounted mounted (link_rootdisk {W = W} k path)
  unfolding link_rootdisk
  link_rootdisk-Leads path =
      bind-Leads (asks-Leads _) (λ sys. bind-Leads (asks-Leads _) (λ dev. make_links-Leads _))

module _ {W Fd : Type 0} (k : Kernel) (p : Platform W Fd) (fuel : ℕ)
    (eval_file repl : M W (Unit {0})) where
  close_resolved-Leads :
      (spec : Bytes) (fd : Option Fd)
      → Leads preparing preparing (close_resolved k p fuel eval_file repl spec fd)
  unfolding close_resolved
  close_resolved-Leads spec none = fatal-Leads k _
  close_resolved-Leads spec (some fd) = script-Leads _

  mount_rootfs-Leads : Leads preparing mounted (mount_rootfs k p fuel eval_file repl)
  unfolding mount_rootfs
  mount_rootfs-Leads = bind-Leads (script-Leads _) (λ spec. bind-Leads (script-Leads _) (λ r.
      bind-Leads (close_resolved-Leads spec r.0) (λ u. bind-Leads (script-Leads _) (λ fstype.
        bind-Leads (script-Leads _) (λ encrypted. bind-Leads (script-Leads _) (λ cipher.
          bind-Leads (script-Leads _) (λ secret.
            bind-Leads
              (if-Leads encrypted (mount_encrypted_fs-Leads k r.1 fstype cipher secret)
                (mount_fs-Leads k r.1 fstype))
              (λ u. pure-Leads _))))))))

  main-Leads : (args : List Bytes) → Leads preparing switching (main k p fuel eval_file repl args)
  unfolding main next_phase
  main-Leads args = bind-Leads (info-Leads k _) (λ a.
      bind-Leads (call-Leads k _ (λ a. refl)) (λ pid.
        bind-Leads (if-Leads _ (pure-Leads _) (fatal-Leads k _)) (λ u.
          bind-Leads (setup-Leads k) (λ u. bind-Leads (script-Leads _) (λ u.
            bind-Leads (script-Leads _) (λ u. bind-Leads (script-Leads _) (λ run_repl.
              bind-Leads (if-Leads run_repl (script-Leads _) (pure-Leads _)) (λ u.
                bind-Leads mount_rootfs-Leads (λ path. bind-Leads (link_rootdisk-Leads k path) (λ u.
                  bind-Leads (switch_root-Leads k) (λ u.
                    bind-Leads (call-Leads k _ (λ a. refl))
                      (λ rc. if-Leads _ (fatal-Leads k _) (halt-Leads _)))))))))))))

  some_phase :
      {A : Type 0} (to : Phase) (x : Outcome A × State W × Trace)
      → Ended to x
      → (phase : Phase) × (phase_of (trace_of x) ≡ some phase)
  some_phase to (ok a, s, tr) h = (to, h)
  some_phase to (stop why, s, tr) h = h

  -- The calls of `main`, from the first to wherever it ends, keep the order of the automaton: whatever
  -- the kernel answers, the script and the REPL do and the command line says.
  pub main_keeps_order :
      (args : List Bytes) (s : State W)
      → (phase : Phase) × (phase_of (trace_of (main k p fuel eval_file repl args s []))
          ≡ some phase)
  unfolding phase_of
  main_keeps_order args s =
      some_phase switching (main k p fuel eval_file repl args s [])
        ((main-Leads args).ends s [] refl)
