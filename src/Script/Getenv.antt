-- ===== src/Script/Getenv.antt =====
-- `setenv` and then `getenv`, as a script runs them.
use nerves_initramfs.Base.{ℕ, suc, ◌+◌, ◌≤◌, true, some, ◌≡◌, refl, ◌∙◌, ap, arith, if◌then◌else◌}
use nerves_initramfs.Base.CString.{Bytes, str_eq, str_eq_iff}
use nerves_initramfs.UbootEnv.{Env, uboot_env_setenv, uboot_env_getenv, find_value}
use nerves_initramfs.UbootEnv.Access.{getenv-setenv, setenv_success}
use nerves_initramfs.Script.Defs.{string, boolean, end, link}
use nerves_initramfs.Script.Machine.{State, Platform, ok, heap_size}
use nerves_initramfs.Script.Value.{term_dupe}
use nerves_initramfs.Script.Gc.{dupe_bytes, dupe_fits}
use nerves_initramfs.Script.Vars.{value_of}
use nerves_initramfs.Script.Convert.{to_string_resolved}
use nerves_initramfs.Script.Run.{evaluator}
use nerves_initramfs.Script.Flags.{bind_ok, flag_bytes, IsReady, flag_set}
use nerves_initramfs.Script.Storage.{
  modified_name, setenv_done, function_setenv, getenv_done, function_getenv,
}

getenv_found :
    (env : Env) (name : Bytes) {value : Bytes}
    → find_value env.vars name ≡ some value
    → (uboot_env_getenv env name).1 ≡ some value
unfolding uboot_env_getenv
getenv_found env name h = rw (h, uboot_env_getenv) refl

module _ {W Fd : Type 0} (p : Platform W Fd) (fuel : ℕ) where
  -- What a script sees of `setenv` with two strings.
  setenv_run :
      (s : State W) (name value : Bytes)
      → IsReady p 1 s
      → (s' : State W) × (function_setenv p
            (evaluator p (suc fuel))
            (link (string name) (link (string value) end))
            s
          ≡ (ok (some (string value)), s'))
        × (s'.working_uboot_env ≡ (uboot_env_setenv s.working_uboot_env name value).1)
        × (value_of s'.variables modified_name ≡ some (some (boolean true)))
        × IsReady p 0 s'
        × (s'.heap_index ≡ s.heap_index + flag_bytes p 1)
  unfolding function_setenv setenv_done evaluator to_string_resolved
  setenv_run s name value ready =
      let env' = (uboot_env_setenv s.working_uboot_env name value).1 in
      let s₁ : State W = record s { working_uboot_env = env' } in
      let ready₁ : IsReady p 1 s₁ = record {
        aligned = ready.aligned;
        room = ready.room;
        loaded = ready.loaded;
        modified = ready.modified;
      } in
      let (s', set, flagged) = flag_set p 0 s₁ modified_name true ready₁ ready₁.modified in
      (
        s',
        bind_ok (setenv_done p name value (uboot_env_setenv s.working_uboot_env name value).0) _ (
            ap (λ status. setenv_done p name value status s₁)
              (setenv_success s.working_uboot_env name value)
            ∙ set),
        flagged.same_env,
        flagged.binds.bound,
        flagged.ready,
        flagged.index,
      )

  -- With the flags there and the heap roomy enough for one of them and for the copy of the value,
  -- `setenv` of a name and a value, two strings, returns the value; `getenv` of that name behind it
  -- returns the value too, every other name keeps what it had, and the environment counts as modified.
  pub function_getenv-function_setenv :
      (s : State W) (name value : Bytes)
      → IsReady p 1 s
      → s.heap_index + flag_bytes p 1 + dupe_bytes p (string value) ≤ heap_size
      → (s' s₂ : State W) × (function_setenv p
            (evaluator p (suc fuel))
            (link (string name) (link (string value) end))
            s
          ≡ (ok (some (string value)), s'))
        × (function_getenv p (evaluator p (suc fuel)) (link (string name) end) s'
            ≡ (ok (some (string value)), s₂))
        × ((other : Bytes)
            → find_value s₂.working_uboot_env.vars other ≡ (
                if str_eq name other
                then some value
                else find_value s.working_uboot_env.vars other))
        × (value_of s₂.variables modified_name ≡ some (some (boolean true)))
  unfolding function_getenv getenv_done evaluator term_dupe to_string_resolved uboot_env_getenv
  function_getenv-function_setenv s name value ready room =
      let (s', run, env_set, modified, ready', index) = setenv_run s name value ready in
      let found : find_value s'.working_uboot_env.vars name ≡ some value =
        ap (λ x. find_value x.vars name) env_set
        ∙ getenv-setenv s.working_uboot_env name value name
        ∙ ap (λ b. if b then some value else find_value s.working_uboot_env.vars name)
            ((str_eq_iff name name).1 refl) in
      let copied = dupe_fits p (string value) s' tt ready'.aligned (omega (arith, room, index)) in
      (
        s',
        record s' { heap_index = s'.heap_index + dupe_bytes p (string value) },
        run,
        ap (λ o. getenv_done p o s') (getenv_found s'.working_uboot_env name found) ∙ copied,
        λ other.
            ap (λ x. find_value x.vars other) env_set
            ∙ getenv-setenv s.working_uboot_env name value other,
        modified,
      )
