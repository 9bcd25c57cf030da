-- ===== src/Boot/Conf.antt =====
-- A boot from the text of /nerves_initramfs.conf: `main` of src/nerves_initramfs.c with a script that
-- sets variables.
use nerves_initramfs.Base.{
  ltb, true, length, ℕ, suc, ◌+◌, ◌*◌, ◌^◌, ◌≤◌, ◌<◌, Bool, false, List, map, [], ◌∷◌, ◌++◌, Option,
  none, some, ◌≡◌, ap, ◌∙◌, drop, arith, All, sym, subst, Option-cases, inl, inr,
}
use mathlib.Core.Path.{fun_ext}
use nerves_initramfs.Base.CString.{Bytes, codes}
use nerves_initramfs.Base.Int.{ℤ}
use nerves_initramfs.Script.{Term, string, boolean}
use nerves_initramfs.Script.Machine
use nerves_initramfs.Script.Machine.{
  State, Platform, ok, stop, exited, M, heap_size, Outcome, undefined,
}
use nerves_initramfs.Script.Vars.{value_of}
use nerves_initramfs.Script.Flags.{bind_ok}
use nerves_initramfs.Script.Settings.{last_set, settings_bytes}
use nerves_initramfs.Script.Grammar.Line.{
  Line, statement_of, script_bytes, Values, outcome, AreReadable,
}
use nerves_initramfs.Script.Storage.{open_spec}
use nerves_initramfs.Script.Reads.{level}
use nerves_initramfs.Script.Lexer.{Lexeme, token}
use nerves_initramfs.Script.Grammar.{eval_file}
use nerves_initramfs.Script.Grammar.Trees.{Parsed}
use nerves_initramfs.Script.Grammar.Scripts.{
  IsWritable, script_tokens, script_text, eval_string_lines, eval_file-eval_string,
}
use nerves_initramfs.BlockDevice.Spec.{Opened, open_block_device}
use nerves_initramfs.BlockDevice.Wait.{NoFault, OpensAt, open_block_device_finds}
use nerves_initramfs.Boot.{cut_options, initialize_script_defaults}
use nerves_initramfs.Boot.Kernel.{execv, Trace, Kernel}
use nerves_initramfs.Boot.Mount.{table_parameters, parameter_room}
use nerves_initramfs.Boot.Mounting.{Mounts}
use nerves_initramfs.Boot.Success.{Succeeds}
use nerves_initramfs.Boot.Defaults.{defaults, options, defaults_run}
use nerves_initramfs.Boot.Finish.{Asks, main_finishes}
use nerves_initramfs.Boot.Repl.{Console, run_conf, repl, boot}

-- what the defaults and the options leave the names bound to
unfoldable pub chosen : List Bytes → Values
chosen args name = last_set (options args) name (last_set defaults name none)

-- What a name has behind the defaults, the options and the script.
unfoldable pub configured : List Bytes → List Line → Values
unfolding chosen
configured args lines = outcome lines (chosen args)

-- They leave no REPL, and a root file system of that type at that path, encrypted or not.
pub record Configures (args : List Bytes) (script : List Line) (spec fstype cipher secret : Bytes)
    (encrypted : Bool) : Type 0 where
  pub no_repl : configured args script (codes "run_repl") ≡ some (some (boolean false))
  pub path : configured args script (codes "rootfs.path") ≡ some (some (string spec))
  pub type : configured args script (codes "rootfs.fstype") ≡ some (some (string fstype))
  pub is_encrypted :
      configured args script (codes "rootfs.encrypted") ≡ some (some (boolean encrypted))
  pub with_cipher : configured args script (codes "rootfs.cipher") ≡ some (some (string cipher))
  pub with_secret : configured args script (codes "rootfs.secret") ≡ some (some (string secret))

module _ {W Fd : Type 0} (k : Kernel) (p : Platform W Fd) (c : Console W) (fuel ulong_max : ℕ)
    (wide : 2 ^ 31 ≤ ulong_max) (parse : List Lexeme → Parsed) (lexer_max : ℕ)
    (positive : 0 < lexer_max) (script : List Line) (writable : All IsWritable script)
    (short : length (script_text script) < 2 * lexer_max)
    (parses : parse (map token (script_tokens script))
      ≡ record { statements = map statement_of script; syntax_error = none })
    (file : (w : W) → c.conf w ≡ (some (script_text script), length (script_text script))) where
  -- the defaults, the options and the script
  variables_set :
      (args : List Bytes) (s : State W)
      → s.variables ≡ []
      → AreReadable script (chosen args)
      → settings_bytes p (defaults ++ options args) + script_bytes p script ≤ heap_size
      → (s₀ s₁ : State W) × (initialize_script_defaults p args s ≡ (ok tt, s₀))
        × (run_conf p c (suc (suc fuel)) ulong_max parse lexer_max s₀ ≡ (ok tt, s₁))
        × ((name : Bytes) → value_of s₁.variables name ≡ configured args script name)
        × (s₁.tries ≡ s.tries)
  unfolding run_conf configured chosen
  variables_set args s empty readable fits =
      let (s₀, run, before, env, tries, tidy) = defaults_run p args s empty (omega arith) in
      let small = tidy.small in
      let same : value_of s₀.variables ≡ chosen args = fun_ext before in
      let (s₁, evaluated, values, tries') =
        eval_string_lines p fuel ulong_max wide parse lexer_max script s₀ writable positive short
          parses (subst (AreReadable script) (sym same) readable) tidy.kept tidy.distinct
          (omega (arith, small, fits)) in
      let reads : Option Bytes → ℕ → M W (ℤ × Option Term) =
        eval_file p (suc (suc fuel)) ulong_max parse lexer_max [] in
      let content = some (script_text script) in
      let len = length (script_text script) in
      (
        s₀,
        s₁,
        run,
        ap (λ r. Machine.◌>>◌ (reads r.0 r.1) (Machine.pure tt) s₀) (file s₀.world)
            ∙ bind_ok (reads content len) (λ _. Machine.pure tt)
                (eval_file-eval_string p fuel ulong_max wide parse lexer_max (script_text script) s₀
                  ∙ evaluated),
        (λ name. values name ∙ ap (λ before. outcome script before name) same),
        tries' ∙ tries,
      )

  -- the device, opened within the tries
  device_opens :
      (spec : Bytes) (n : ℕ) (s : State W)
      → n ≤ s.tries
      → NoFault (p.files s.world false) spec
      → OpensAt (p.files s.world false) spec n
      → (fd : Fd) × (s' : State W) × (o : Opened Fd) × (open_block_device
            (p.files s.world false)
            spec
            s.tries
            0
            []
          ≡ some o)
        × (o.time ≤ n)
        × (s'.world ≡ p.opened (some fd) o.time s.world)
        × (open_spec p (level p (suc fuel)) spec false s ≡ (ok (some fd, o.path), s'))
  unfolding open_spec
  device_opens spec n s le safe appears =
      let (o, run, found, soon) =
        open_block_device_finds (p.files s.world false) spec n s.tries 0 [] safe le
          (subst (OpensAt (p.files s.world false) spec) (omega arith) appears) in
      elim (Option-cases o.fd) [
        | inl e ↦ absurd (found e)
        | inr (fd, e) ↦ (
          fd,
          _,
          o,
          run,
          omega (arith, soon),
          ap (λ x. p.opened x o.time s.world) e,
          ap
                (λ r. elim r as (λ r. Outcome (Option Fd × Bytes) × State W) [
                  | none ↦ (stop undefined, s)
                  | some o ↦ (
                    ok (o.fd, o.path),
                    record s { tries = o.tries; world = p.opened o.fd o.time s.world },
                  )
                ])
                run
              ∙ ap
                  (λ x. (
                    ok (x, o.path),
                    record s { tries = o.tries; world = p.opened o.fd o.time s.world },
                  ))
                  e,
        )
      ]

  -- A boot from its start to /sbin/init, in which no call fails and a sector has some bytes. It starts
  -- with no variables, and /nerves_initramfs.conf holds lines that each set an identifier to a text
  -- without quotes and new lines, a truth value or a number below 2 ^ 31, always or where a variable
  -- compares with a text, with a blank behind each token, in less than twice what flex asks for; the
  -- parser reduces these tokens to these statements, a variable that is compared is a string by then,
  -- and the heap has room for the defaults, the options and the script. What the lines make of the
  -- defaults and the options leaves no REPL and a root file system, of which the cipher and the secret
  -- fit the request if it is encrypted; whatever the calls before did, no attempt to open its device
  -- runs outside a buffer, and the device opens at a millisecond within the tries. Then this boot sets the
  -- defaults and runs the script, and from the state that leaves opens the device after a wait no longer
  -- than that; it ends by starting /sbin/init with what is left of its arguments, in the world that the
  -- device was opened in after that wait, and closed. Before, it mounts that file system with its type,
  -- read-only, at /mnt, from the path that the device was opened by or, if it is encrypted, from
  -- /dev/dm-0, right behind the calls that map it with the cipher and the secret.
  pub boot-Mounts :
      (good : Succeeds k) (argv : List Bytes) (s : State W) (spec fstype cipher secret : Bytes)
      (encrypted : Bool) (lines n : ℕ)
      → s.variables ≡ []
      → AreReadable script (chosen (drop 1 argv))
      → settings_bytes p (defaults ++ options (drop 1 argv)) + script_bytes p script ≤ heap_size
      → Configures (drop 1 argv) script spec fstype cipher secret encrypted
      → (encrypted ≡ true → ltb (length (table_parameters cipher secret)) parameter_room ≡ true)
      → n ≤ s.tries
      → ((w : W) → NoFault (p.files w false) spec)
      → ((w : W) → OpensAt (p.files w false) spec n)
      → (s₀ s₁ last : State W) × (o : Opened Fd) × (fd : Fd) × (tr : Trace) × (a : ℤ)
        × (initialize_script_defaults p (drop 1 argv) s ≡ (ok tt, s₀))
        × (run_conf p c (suc (suc fuel)) ulong_max parse lexer_max s₀ ≡ (ok tt, s₁))
        × (open_block_device (p.files s₁.world false) spec s.tries 0 [] ≡ some o)
        × (o.time ≤ n)
        × (boot p c (suc (suc fuel)) ulong_max parse lexer_max k lines argv s []
            ≡ (stop exited, last, (execv (codes "/sbin/init") (cut_options argv), a) ∷ tr))
        × (last.world ≡ p.close fd (p.opened (some fd) o.time s₁.world))
        × Mounts k encrypted o.path fstype cipher secret tr
  unfolding boot
  boot-Mounts good argv s spec fstype cipher secret encrypted lines n empty readable room configures
        fits le safe appears =
      let (s₀, s₁, defaults_set, conf_read, values, tries) =
        variables_set (drop 1 argv) s empty readable room in
      let (fd, s₂, o, found, soon, world, opened) =
        device_opens spec n s₁ (omega (arith, tries, le)) (safe s₁.world) (appears s₁.world) in
      let asks : Asks s₁.variables spec fstype cipher secret encrypted = record {
        no_repl = values (codes "run_repl") ∙ configures.no_repl;
        path = values (codes "rootfs.path") ∙ configures.path;
        type = values (codes "rootfs.fstype") ∙ configures.type;
        is_encrypted = values (codes "rootfs.encrypted") ∙ configures.is_encrypted;
        with_cipher = values (codes "rootfs.cipher") ∙ configures.with_cipher;
        with_secret = values (codes "rootfs.secret") ∙ configures.with_secret;
      } in
      let (last, tr, a, run, closed, mounts) =
        main_finishes k p (suc fuel) (run_conf p c (suc (suc fuel)) ulong_max parse lexer_max)
          (repl p c (suc (suc fuel)) ulong_max parse lexer_max lines) good argv s s₀ s₁ s₂ spec
          fstype cipher secret o.path encrypted fd defaults_set conf_read asks fits opened in
      (
        s₀,
        s₁,
        last,
        o,
        fd,
        tr,
        a,
        defaults_set,
        conf_read,
        ap (λ t. open_block_device (p.files s₁.world false) spec t 0 []) (sym tries) ∙ found,
        soon,
        run,
        closed ∙ ap (p.close fd) world,
        mounts,
      )
