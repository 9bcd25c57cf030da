-- ===== src/Boot/Defaults.antt =====
-- The variables that `initialize_script_defaults` of src/nerves_initramfs.c leaves behind: the
-- defaults, and over them the options of the kernel command line.
use nerves_initramfs.Base.{
  ◌≤◌, true, false, List, [], ◌∷◌, ◌++◌, Option, none, some, ◌≡◌, refl, ap, ap₂, ◌∙◌, arith,
  if◌then◌else◌, ◌==◌, get_or, Bool-cases, inl, inr,
}
use nerves_initramfs.Base.CString.{Bytes, codes}
use nerves_initramfs.UbootEnv.{uboot_env_init}
use nerves_initramfs.Script.Machine.{State, Platform, ok, ◌>>◌, heap_size}
use nerves_initramfs.Script.Value.{gc_loop, term_gc_heap}
use nerves_initramfs.Script.Gc.{IsDistinct, gc_bytes}
use nerves_initramfs.Script.Tidy.{Tidy, wider}
use nerves_initramfs.Script.Vars.{value_of}
use nerves_initramfs.Script.Flags.{bind_ok}
use nerves_initramfs.Boot.{
  split_equals, set_parsed, set_option, options_loop, initialize_script_defaults,
}
use nerves_initramfs.Script.Settings.{
  text, flag, count, Setting, last_set, last_set-append, settings_bytes, apply, apply_all,
  apply_all_fits, then_all, then_apply_all,
}

unfoldable pub defaults : List Setting
defaults =
    (codes "rootfs.fstype", text (codes "squashfs"))
    ∷ (codes "rootfs.path", text (codes "/dev/mmcblk0p2"))
    ∷ (codes "rootfs.encrypted", flag false)
    ∷ (codes "rootfs.cipher", text [])
    ∷ (codes "rootfs.secret", text [])
    ∷ (codes "uboot_env.path", text (codes "/dev/mmcblk0"))
    ∷ (codes "uboot_env.loaded", flag false)
    ∷ (codes "uboot_env.modified", flag false)
    ∷ (codes "uboot_env.start", count 256)
    ∷ (codes "uboot_env.count", count 256)
    ∷ (codes "run_repl", flag false)
    ∷ []

abbrev parsed : Bytes × Option Bytes → Setting
parsed (key, some value) = (key, text value)
parsed (key, none) = (key, flag true)

-- The settings of the arguments: none of one that starts with a dash.
unfoldable pub options : List Bytes → List Setting
options [] = []
options (arg ∷ args) =
    let rest = options args in
    if get_or arg 0 0 == b'-' then rest else parsed (split_equals arg) ∷ rest

module _ {W Fd : Type 0} (p : Platform W Fd) where
  set_parsed_lem : (option : Bytes × Option Bytes) → set_parsed p option ≡ apply p (parsed option)
  unfolding set_parsed
  set_parsed_lem (key, some value) = refl
  set_parsed_lem (key, none) = refl

  options_loop_lem : (args : List Bytes) → options_loop p args ≡ apply_all p (options args)
  unfolding options_loop options set_option set_parsed
  options_loop_lem [] = refl
  options_loop_lem (arg ∷ args) = elim (Bool-cases (get_or arg 0 0 == b'-')) [
    | inl e ↦ rw e (options_loop_lem args)
    | inr e ↦ rw e (ap₂ ◌>>◌ (set_parsed_lem (split_equals arg)) (options_loop_lem args))
  ]

  -- The defaults and the options, and what a collection needs of the variables.
  pub defaults_run :
      (args : List Bytes) (s : State W)
      → s.variables ≡ []
      → settings_bytes p (defaults ++ options args) ≤ heap_size
      → (s' : State W) × (initialize_script_defaults p args s ≡ (ok tt, s'))
        × ((name : Bytes)
            → value_of s'.variables name
              ≡ last_set (options args) name (last_set defaults name none))
        × (s'.working_uboot_env ≡ uboot_env_init)
        × (s'.tries ≡ s.tries)
        × Tidy p (settings_bytes p (defaults ++ options args)) s'.variables
  unfolding initialize_script_defaults term_gc_heap gc_loop value_of then_all defaults IsDistinct
      gc_bytes
  defaults_run args s empty fits =
      let s₀ : State W = record s {
        heap_index = 0;
        variables = [];
        working_uboot_env = uboot_env_init;
      } in
      let none_yet : Tidy p 0 [] = record { kept = tt; distinct = tt; small = omega arith } in
      let (s', run, values, env, tries, tidies) =
        apply_all_fits p (defaults ++ options args) s₀ refl (omega (arith, fits)) in
      (
        s',
        bind_ok (term_gc_heap p) _ {s = s}
              (ap (λ vs. gc_loop p vs (record s { heap_index = 0; variables = [] })) empty)
            ∙ ap (λ m. then_all p defaults m s₀) (options_loop_lem args)
            ∙ ap (λ m. m s₀) (then_apply_all p defaults (options args))
            ∙ run,
        λ name. values name ∙ last_set-append defaults (options args) name none,
        env,
        tries,
        wider p s'.variables _ _ (omega arith) (tidies 0 none_yet),
      )

  -- Started with no variables and with room on the heap for the defaults and the options: the variables
  -- are set, a name has the value of the last option of its name, or its default, or none, and the
  -- environment is empty.
  pub initialize_script_defaults_lem :
      (args : List Bytes) (s : State W)
      → s.variables ≡ []
      → settings_bytes p (defaults ++ options args) ≤ heap_size
      → (s' : State W) × (initialize_script_defaults p args s ≡ (ok tt, s'))
        × ((name : Bytes)
            → value_of s'.variables name
              ≡ last_set (options args) name (last_set defaults name none))
        × (s'.working_uboot_env ≡ uboot_env_init)
  initialize_script_defaults_lem args s empty fits =
      let (s', run, values, env, tries, tidy) = defaults_run args s empty fits in
      (s', run, values, env)
