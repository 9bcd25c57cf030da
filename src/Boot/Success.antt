-- ===== src/Boot/Success.antt =====
-- The boot with a kernel that does what it is asked for: `main` ends in /sbin/init.
use nerves_initramfs.Base.{
  Bool, ◌+◌, ◌==◌, if◌then◌else◌, true, false, List, [], ◌∷◌, ◌++◌, append_assoc, some, ◌≡◌, refl,
  sym, ap, ◌∙◌,
}
use nerves_initramfs.Base.CString.{Bytes}
use nerves_initramfs.Base.Int.{pos_part, neg_part, ℤ, pos, ltb_ℤ, eqb_ℤ}
use nerves_initramfs.Script.Machine.{State, ok}
use nerves_initramfs.Rootdisk.{LinkStep, notes, links}
use nerves_initramfs.Boot.Cleanup.{Step, says, removes}
use nerves_initramfs.Boot.Kernel.{
  Call, getpid, Trace, Kernel, B, go_on, ◌>>=◌, pure, call, asks, info, ok_or_fatal, ok_or_warn,
  ok_or_debug,
}
use nerves_initramfs.Boot.Mount.{div_ℤ, setup_initramfs}
use nerves_initramfs.Boot.Main.{
  run_steps, cleanup_old_rootfs, switch_root, make_links, link_rootdisk,
}

-- No call fails, this is the first process, and a sector has some bytes.
pub record Succeeds (k : Kernel) : Type 0 where
  pub no_failure : (tr : Trace) (c : Call) → ltb_ℤ (k.answer tr c) (pos 0) ≡ false
  pub first : (tr : Trace) → eqb_ℤ (k.answer tr getpid) (pos 1) ≡ true
  pub sectors :
      (tr : Trace) → (pos_part (k.sector_size tr) + neg_part (k.sector_size tr) == 0) ≡ false

-- It goes on, with the interpreter's state as it was and some calls more.
pub record Quiet {W A : Type 0} (m : B W A) : Type 0 where
  pub runs :
      (s : State W) (tr : Trace) → (a : A) × (after : Trace) × (m s tr ≡ (ok a, s, after ++ tr))

some_if : (b : Bool) (x y : ℤ) → (q : ℤ) × ((if b then some x else some y) ≡ some q)
some_if true x y = (x, refl)
some_if false x y = (y, refl)

pub div_some : (a b : ℤ) → (pos_part b + neg_part b == 0) ≡ false → (q : ℤ) × (div_ℤ a b ≡ some q)
unfolding div_ℤ
div_some a b h = rw (div_ℤ, h) (some_if (ltb_ℤ a (pos 0)) _ _)

module _ {W : Type 0} where
  -- what goes on, and what follows it
  pub bind_runs :
      {A C : Type 0} (m : B W A) (f : A → B W C) {a : A} {s s' : State W} {tr tr' : Trace}
      → m s tr ≡ (ok a, s', tr')
      → (m >>= f) s tr ≡ f a s' tr'
  unfolding ◌>>=◌
  bind_runs m f h = ap (λ r. go_on r f) h

  pub bind-Quiet :
      {A C : Type 0} {m : B W A} {f : A → B W C}
      → Quiet m
      → ((a : A) → Quiet (f a))
      → Quiet (m >>= f)
  bind-Quiet {m = m} {f} qm qf = record {
    runs = λ s tr.
        let (a, after, run) = qm.runs s tr in
        let (c, after', run') = (qf a).runs s (after ++ tr) in
        (
          c,
          after' ++ after,
          bind_runs m f run ∙ run' ∙ ap (λ t. (ok c, s, t)) (sym (append_assoc after' after tr)),
        );
  }

  pub pure-Quiet : {A : Type 0} (a : A) → Quiet (pure {W = W} a)
  unfolding pure
  pure-Quiet a = record { runs = λ s tr. (a, [], refl) }

  pub asks-Quiet : {A : Type 0} (f : Trace → A) → Quiet (asks {W = W} f)
  unfolding asks
  asks-Quiet f = record { runs = λ s tr. (f tr, [], refl) }

  module _ (k : Kernel) (good : Succeeds k) where
    pub call-Quiet : (c : Call) → Quiet (call {W = W} k c)
    unfolding call
    call-Quiet c = record { runs = λ s tr. (k.answer tr c, (c, k.answer tr c) ∷ [], refl) }

    -- a call, and what follows an answer that is no error
    pub checked-Quiet :
        {C : Type 0} (c : Call) {f : ℤ → B W C}
        → ((a : ℤ) → ltb_ℤ a (pos 0) ≡ false → Quiet (f a))
        → Quiet (call k c >>= f)
    unfolding call
    checked-Quiet c {f} qf = record {
      runs = λ s tr.
          let a = k.answer tr c in
          let (r, after, run) = (qf a (good.no_failure tr c)).runs s ((c, a) ∷ tr) in
          (
            r,
            after ++ ((c, a) ∷ []),
            bind_runs (call k c) f refl
                ∙ run
                ∙ ap (λ t. (ok r, s, t)) (sym (append_assoc after ((c, a) ∷ []) tr)),
          );
    }

    pub info-Quiet : (text : Bytes) → Quiet (info {W = W} k text)
    unfolding info
    info-Quiet text = call-Quiet _

    pub warn-Quiet : (c : Call) (text : Bytes) → Quiet (ok_or_warn {W = W} k c text)
    unfolding ok_or_warn
    warn-Quiet c text = checked-Quiet c (λ a h. rw h (pure-Quiet tt))

    pub debug-Quiet : (c : Call) → Quiet (ok_or_debug {W = W} k c)
    unfolding ok_or_debug
    debug-Quiet c = bind-Quiet (call-Quiet c) (λ a. pure-Quiet tt)

    pub need_runs :
        (c : Call) (text : Bytes) (s : State W) (tr : Trace)
        → ok_or_fatal k c text s tr ≡ (ok tt, s, (c, k.answer tr c) ∷ tr)
    unfolding ok_or_fatal call pure ◌>>=◌
    need_runs c text s tr = rw (good.no_failure tr c) refl

    pub setup-Quiet : Quiet (setup_initramfs {W = W} k)
    unfolding setup_initramfs
    setup-Quiet = bind-Quiet (call-Quiet _) (λ a. bind-Quiet (call-Quiet _) (λ a.
        bind-Quiet (call-Quiet _) (λ a. bind-Quiet (call-Quiet _) (λ a.
          bind-Quiet (warn-Quiet _ _) (λ u. bind-Quiet (warn-Quiet _ _) (λ u. warn-Quiet _ _))))))

    run_steps-Quiet : (steps : List Step) → Quiet (run_steps {W = W} k steps)
    unfolding run_steps
    run_steps-Quiet [] = pure-Quiet tt
    run_steps-Quiet (says message ∷ steps) = bind-Quiet (info-Quiet _) (λ u. run_steps-Quiet steps)
    run_steps-Quiet (removes path is_dir message ∷ steps) =
        bind-Quiet (warn-Quiet _ _) (λ u. run_steps-Quiet steps)

    cleanup-Quiet : Quiet (cleanup_old_rootfs {W = W} k)
    unfolding cleanup_old_rootfs
    cleanup-Quiet = checked-Quiet _ (λ fd h. bind-Quiet (asks-Quiet _) (λ directory. rw h (
        bind-Quiet (run_steps-Quiet _)
          (λ u. bind-Quiet (call-Quiet _) (λ a. bind-Quiet (call-Quiet _) (λ a. pure-Quiet tt))))))

    pub switch_root-Quiet : Quiet (switch_root {W = W} k)
    unfolding switch_root
    switch_root-Quiet = bind-Quiet (warn-Quiet _ _) (λ u. bind-Quiet (warn-Quiet _ _) (λ u.
        bind-Quiet (warn-Quiet _ _) (λ u. bind-Quiet cleanup-Quiet (λ u.
          bind-Quiet (debug-Quiet _) (λ u. bind-Quiet (warn-Quiet _ _) (λ u. debug-Quiet _))))))

    make_links-Quiet : (steps : List LinkStep) → Quiet (make_links {W = W} k steps)
    unfolding make_links
    make_links-Quiet [] = pure-Quiet tt
    make_links-Quiet (notes message ∷ steps) =
        bind-Quiet (info-Quiet _) (λ u. make_links-Quiet steps)
    make_links-Quiet (links (link, dev) ∷ steps) =
        bind-Quiet (warn-Quiet _ _) (λ u. make_links-Quiet steps)

    pub link_rootdisk-Quiet : (path : Bytes) → Quiet (link_rootdisk {W = W} k path)
    unfolding link_rootdisk
    link_rootdisk-Quiet path =
        bind-Quiet (asks-Quiet _) (λ sys. bind-Quiet (asks-Quiet _) (λ dev. make_links-Quiet _))
