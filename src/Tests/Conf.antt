-- ===== src/Tests/Conf.antt =====
-- A boot with a script that chooses the root file system.
use nerves_initramfs.Base.{
  ◌+◌, ◌≤◌, false, List, [], ◌∷◌, ◌++◌, none, some, ◌≡◌, refl, arith, ap, All, drop, length, ℕ,
  if◌then◌else◌, ltb,
}
use nerves_initramfs.Base.CString.{Bytes, codes, str_eq, has_prefix}
use nerves_initramfs.Base.Int.{ℤ}
use nerves_initramfs.Script.Machine.{State, ok, stop, exited, heap_size, Platform}
use nerves_initramfs.Script.Gc.{dupe_bytes}
use nerves_initramfs.Script.Settings.{text, last_set, settings_bytes}
use nerves_initramfs.Script.Lexer.{identifier_token, span, is_identifier}
use nerves_initramfs.Script.Lexer.Print.{IsToken, print_tokens}
use nerves_initramfs.Script.Grammar.Text.{
  term_tokens, action_tokens, statement_tokens, statements_tokens, condition_tokens,
  comparator_token, block_tokens,
}
use nerves_initramfs.Script.Grammar.Assign.{leaf_of, HasLiteral}
use nerves_initramfs.Script.Grammar.Line.{
  Line, always, where_holds, statement_of, script_bytes, line_bytes, outcome, step, compares,
  satisfies, AreReadable, IsReadable,
}
use nerves_initramfs.Script.Grammar.Trees.{eq}
use nerves_initramfs.Script.Grammar.Scripts.{IsWritable, script_text}
use nerves_initramfs.BlockDevice.Wait.{NoFault, OpensAt}
use nerves_initramfs.BlockDevice.Spec.{
  Opened, Snapshot, open_block_device, open_block_device_impl, find_block_device_by_spec,
  strcpy_path,
}
use nerves_initramfs.Boot.{cut_options, split_equals, initialize_script_defaults}
use nerves_initramfs.Boot.Kernel.{execv, Trace}
use nerves_initramfs.Boot.Mounting.{Mounts}
use nerves_initramfs.Boot.Defaults.{defaults, options}
use nerves_initramfs.Boot.Repl.{Console, run_conf, boot}
use nerves_initramfs.Boot.Conf.{chosen, configured, Configures, boot-Mounts}
use nerves_initramfs.Tests.Grammar.{line_parser}
use nerves_initramfs.Tests.Boot.{willing, willing-Succeeds, open_platform, at_start}

-- rootfs.fstype = "ext4", active == "b" -> rootfs.path = "/dev/sda2"
abbrev conf_lines : List Line
conf_lines =
    always (codes "rootfs.fstype", text (codes "ext4"))
    ∷ where_holds (codes "active") eq (codes "b") (codes "rootfs.path", text (codes "/dev/sda2"))
    ∷ []

active-IsToken : IsToken (identifier_token (codes "active"))
unfolding IsToken is_identifier span has_prefix
active-IsToken = (
  b'a',
  codes "ctive",
  refl,
  (refl, (refl, (refl, (refl, (refl, (refl, tt)))))),
  (λ same. omega (arith, ap length same)),
  (λ same. omega (arith, ap length same)),
  omega arith,
  omega arith,
)

path-IsToken : IsToken (identifier_token (codes "rootfs.path"))
unfolding IsToken is_identifier span has_prefix
path-IsToken = (
  b'r',
  codes "ootfs.path",
  refl,
  (refl, (refl, (refl, (refl, (refl, (refl, (refl, (refl, (refl, (refl, (refl, tt))))))))))),
  (λ same. omega (arith, ap length same)),
  (λ same. omega (arith, ap length same)),
  omega arith,
  omega arith,
)

fstype-IsToken : IsToken (identifier_token (codes "rootfs.fstype"))
unfolding IsToken is_identifier span has_prefix
fstype-IsToken = (
  b'r',
  codes "ootfs.fstype",
  refl,
  (
    refl,
    (
      refl,
      (refl, (refl, (refl, (refl, (refl, (refl, (refl, (refl, (refl, (refl, (refl, tt))))))))))),
    ),
  ),
  (λ same. omega (arith, ap length same)),
  (λ same. omega (arith, ap length same)),
  omega arith,
  omega arith,
)

conf-AreWritable : All IsWritable conf_lines
unfolding IsWritable HasLiteral
conf-AreWritable = (
  (fstype-IsToken, (refl, (refl, (refl, (refl, tt))))),
  (
    (
      active-IsToken,
      (refl, tt),
      path-IsToken,
      (refl, (refl, (refl, (refl, (refl, (refl, (refl, (refl, (refl, tt))))))))),
    ),
    tt,
  ),
)

-- the file with this script
abbrev with_conf : Console (Unit {0})
with_conf = record {
  linenoise = λ prompt w. (none, w);
  history_add = λ line w. w;
  stdout = λ text w. w;
  held = λ w. [];
  conf = λ w. (some (script_text conf_lines), length (script_text conf_lines));
}

abbrev conf_argv : List Bytes
conf_argv = codes "/init" ∷ codes "active=b" ∷ []

-- a platform on which every path opens from the millisecond 3 on
abbrev late_platform : Platform (Unit {0}) ℕ
late_platform = record open_platform {
  files = λ w writing time. record {
    system = record { open_device = λ path. none; sys_block = none };
    open_path = λ path. if ltb time 3 then none else some 7;
  };
}

conf_fits :
    settings_bytes late_platform (defaults ++ options (drop 1 conf_argv))
      + script_bytes late_platform conf_lines
    ≤ heap_size
unfolding settings_bytes defaults options split_equals dupe_bytes script_bytes line_bytes
conf_fits = omega arith

active_compares : AreReadable conf_lines (chosen (drop 1 conf_argv))
unfolding AreReadable IsReadable step chosen last_set options defaults split_equals str_eq
active_compares = (tt, ((codes "b", refl), tt))

conf-Configures :
    Configures (drop 1 conf_argv) conf_lines (codes "/dev/sda2") (codes "ext4") [] [] false
unfolding configured outcome step compares satisfies chosen last_set options defaults split_equals
    str_eq
conf-Configures = record {
  no_repl = refl;
  path = refl;
  type = refl;
  is_encrypted = refl;
  with_cipher = refl;
  with_secret = refl;
}

abbrev late_files : ℕ → Snapshot ℕ
late_files = late_platform.files tt false

sda2-OpensAt : OpensAt late_files (codes "/dev/sda2") 3
unfolding open_block_device_impl find_block_device_by_spec strcpy_path has_prefix
sda2-OpensAt path = (7, codes "/dev/sda2", refl)

sda2-NoFault : NoFault late_files (codes "/dev/sda2")
unfolding open_block_device_impl find_block_device_by_spec strcpy_path has_prefix
sda2-NoFault time path e = ground arith

boot-Mounts_example :
    (s₀ s₁ last : State (Unit {0})) × (o : Opened ℕ) × (fd : ℕ) × (tr : Trace) × (a : ℤ)
    × (initialize_script_defaults late_platform (drop 1 conf_argv) at_start ≡ (ok tt, s₀))
    × (run_conf late_platform with_conf 21 4294967295 line_parser 8192 s₀ ≡ (ok tt, s₁))
    × (open_block_device
          (late_platform.files s₁.world false)
          (codes "/dev/sda2")
          at_start.tries
          0
          []
        ≡ some o)
    × (o.time ≤ 3)
    × (boot late_platform with_conf 21 4294967295 line_parser 8192 willing 1 conf_argv at_start []
        ≡ (stop exited, last, (execv (codes "/sbin/init") (cut_options conf_argv), a) ∷ tr))
    × (last.world ≡ late_platform.close fd (late_platform.opened (some fd) o.time s₁.world))
    × Mounts willing false o.path (codes "ext4") [] [] tr
unfolding print_tokens statements_tokens statement_tokens statement_of action_tokens term_tokens
    condition_tokens comparator_token block_tokens leaf_of
boot-Mounts_example =
    boot-Mounts willing late_platform with_conf 19 4294967295 (omega arith) line_parser 8192
      (omega arith) conf_lines conf-AreWritable (omega arith) refl (λ w. refl) willing-Succeeds
      conf_argv at_start (codes "/dev/sda2") (codes "ext4") [] [] false 1 3 refl active_compares
      conf_fits conf-Configures (λ e. ground (arith, e)) (omega arith) (λ w. sda2-NoFault)
      (λ w. sda2-OpensAt)
