-- ===== src/Tests/Boot.antt =====
-- The root disk's links, the start and the end of the boot, and the commands that a script runs.
use nerves_initramfs.Cmd.Redirect.{
  Descriptors, IsPosix, Redirected, child, executes, child_redirects,
}
use nerves_initramfs.Cmd.{Child, system_cmd, cut_output, concat, system_cmd_lem}
use nerves_initramfs.Script.Machine
use nerves_initramfs.Script.Machine.{State, Platform, ok, stop, exited, heap_size}
use nerves_initramfs.UbootEnv.{uboot_env_init}
use nerves_initramfs.Boot.Kernel.{Kernel, Trace, execv}
use nerves_initramfs.Boot.Main.{main}
use nerves_initramfs.Boot.Success.{Succeeds}
use nerves_initramfs.Boot.Finish.{Asks, main_finishes}
use nerves_initramfs.Script.Reads.{level}
use nerves_initramfs.Boot.Mounting.{Mounts}
use nerves_initramfs.Boot.Mount.{table_parameters, parameter_room}
use nerves_initramfs.Script.Storage.{open_spec}
use nerves_initramfs.BlockDevice.Spec.{
  find_block_device_by_spec, strcpy_path, open_block_device_impl, wait_loop, open_block_device,
}
use nerves_initramfs.Boot.{split_equals, initialize_script_defaults, cut_options}
use nerves_initramfs.Script.Settings.{last_set, settings_bytes}
use nerves_initramfs.Boot.Defaults.{defaults, options, initialize_script_defaults_lem}
use nerves_initramfs.Script.{string}
use nerves_initramfs.Script.Vars.{value_of}
use nerves_initramfs.Script.Gc.{dupe_bytes}
use nerves_initramfs.Boot.Phases.{Phase, phase_of}
use nerves_initramfs.Boot.Order.{trace_of, main_keeps_order}
use nerves_initramfs.Base.{
  length, Option, ap, ltb, if◌then◌else◌, ◌==◌, List, ◌≤◌, arith, ℕ, false, ◌+◌, ◌*◌, [], ◌∷◌, ◌++◌,
  some, none, true, ◌≡◌, refl,
}
use nerves_initramfs.Base.CString.{has_prefix, Bytes, codes, str_eq}
use nerves_initramfs.Base.Int.{ℤ, pos}
use nerves_initramfs.Rootdisk.{SysFiles}
use nerves_initramfs.Boot.Cleanup.{
  in_skip_list, Entry, entry, opened, not_opened, Directory, lists, not_listed, ended, listed, says,
  removes, cleanup_dir, root_skip_list,
}
use nerves_initramfs.Tests.Script.{idle}

abbrev old_dev : Entry
old_dev = entry (codes "dev") 4 (opened (lists (listed (entry (codes "null") 2 not_opened) ended)))

-- a directory that does not list, and a device node, whose `d_type` has the bit of a directory
abbrev old_root : Directory
old_root = lists (
    listed old_dev (
      listed (entry (codes "lib") 4 (opened not_listed)) (
        listed (entry (codes "init") 8 not_opened)
          (listed (entry (codes "sda") 6 (opened not_listed)) ended))))

old_root_steps :
    cleanup_dir [] root_skip_list old_root
    ≡ says (codes "fdopendir failed")
      ∷ removes (codes "lib" ∷ []) true (codes "unlinkat directory  lib")
      ∷ removes (codes "init" ∷ []) false (codes "unlinkat init")
      ∷ says (codes "fdopendir failed")
      ∷ removes (codes "sda" ∷ []) true (codes "unlinkat directory  sda")
      ∷ []
unfolding cleanup_dir in_skip_list str_eq
old_root_steps = refl

abbrev nothing_in_sys : SysFiles
nothing_in_sys = record {
  dev_file = λ path. none;
  partition_file = λ path. none;
  makedev = λ major minor. major * 256 + minor;
  sorted_entries = λ path. [];
}

-- a kernel that answers 1 to all, with 3 blocks on the disk
abbrev pub willing : Kernel
willing = record {
  answer = λ tr c. pos 1;
  sector_size = λ tr. pos 512;
  root = λ tr. old_root;
  sys = λ tr. nothing_in_sys;
  stat = λ tr path. some 2050;
}

-- a platform on which every path opens
abbrev pub open_platform : Platform (Unit {0}) ℕ
open_platform = record idle {
  files = λ w writing time. record {
    system = record { open_device = λ path. none; sys_block = none };
    open_path = λ path. some 7;
  };
}

abbrev no_script : Machine.M (Unit {0}) (Unit {0})
no_script = Machine.pure tt

abbrev pub at_start : State (Unit {0})
at_start = record {
  heap_index = 0;
  variables = [];
  working_uboot_env = uboot_env_init;
  tries = 10000;
  world = tt;
}

main_keeps_order_example :
    (phase : Phase) × (phase_of (
        trace_of (
          main willing open_platform 20 no_script no_script
            (codes "/init" ∷ codes "run_repl" ∷ [])
            at_start
            []))
      ≡ some phase)
main_keeps_order_example =
    main_keeps_order willing open_platform 20 no_script no_script
      (codes "/init" ∷ codes "run_repl" ∷ []) at_start

-- a path, a path again, what starts with a dash, and a flag
abbrev command_line : List Bytes
command_line =
    codes "rootfs.path=/dev/sda1"
    ∷ codes "--verbose"
    ∷ codes "rootfs.path=/dev/sda2"
    ∷ codes "run_repl"
    ∷ []

command_line_fits : settings_bytes idle (defaults ++ options command_line) ≤ heap_size
unfolding settings_bytes defaults options split_equals dupe_bytes
command_line_fits = omega arith

initialize_script_defaults_lem_example :
    (s' : State (Unit {0})) × (initialize_script_defaults idle command_line at_start ≡ (ok tt, s'))
    × ((name : Bytes)
        → value_of s'.variables name
          ≡ last_set (options command_line) name (last_set defaults name none))
    × (s'.working_uboot_env ≡ uboot_env_init)
initialize_script_defaults_lem_example =
    initialize_script_defaults_lem idle command_line at_start refl command_line_fits

last_path :
    last_set
      (options command_line)
      (codes "rootfs.path")
      (last_set defaults (codes "rootfs.path") none)
    ≡ some (some (string (codes "/dev/sda2")))
unfolding last_set options defaults split_equals str_eq
last_path = refl

-- a boot without a script, of an encrypted file system, on the platform where every path opens
abbrev encrypted_options : List Bytes
encrypted_options =
    codes "rootfs.encrypted"
    ∷ codes "rootfs.cipher=aes-xts-plain64"
    ∷ codes "rootfs.secret=00ff"
    ∷ []

encrypted_options_fit :
    settings_bytes open_platform (defaults ++ options encrypted_options) ≤ heap_size
unfolding settings_bytes defaults options split_equals dupe_bytes
encrypted_options_fit = omega arith

defaults_set :
    (s' : State (Unit {0})) × (initialize_script_defaults open_platform encrypted_options at_start
      ≡ (ok tt, s'))
    × ((name : Bytes)
        → value_of s'.variables name
          ≡ last_set (options encrypted_options) name (last_set defaults name none))
    × (s'.working_uboot_env ≡ uboot_env_init)
defaults_set =
    initialize_script_defaults_lem open_platform encrypted_options at_start refl
      encrypted_options_fit

abbrev started : State (Unit {0})
started = defaults_set.0

started-Asks :
    Asks started.variables
      (codes "/dev/mmcblk0p2")
      (codes "squashfs")
      (codes "aes-xts-plain64")
      (codes "00ff")
      true
unfolding last_set options defaults split_equals str_eq
started-Asks = record {
  no_repl = defaults_set.2 (codes "run_repl");
  path = defaults_set.2 (codes "rootfs.path");
  type = defaults_set.2 (codes "rootfs.fstype");
  is_encrypted = defaults_set.2 (codes "rootfs.encrypted");
  with_cipher = defaults_set.2 (codes "rootfs.cipher");
  with_secret = defaults_set.2 (codes "rootfs.secret");
}

secret_fits :
    ltb (length (table_parameters (codes "aes-xts-plain64") (codes "00ff"))) parameter_room ≡ true
unfolding table_parameters
secret_fits = refl

started_opens :
    open_spec open_platform (level open_platform 19) (codes "/dev/mmcblk0p2") false started
    ≡ (ok (some 7, codes "/dev/mmcblk0p2"), started)
unfolding open_spec open_block_device open_block_device_impl wait_loop find_block_device_by_spec
    strcpy_path has_prefix
started_opens = refl

pub willing-Succeeds : Succeeds willing
willing-Succeeds = record { no_failure = λ tr c. refl; first = λ tr. refl; sectors = λ tr. refl }

abbrev boot_argv : List Bytes
boot_argv = codes "/init" ∷ encrypted_options

main_finishes_example :
    (last : State (Unit {0})) × (tr : Trace) × (a : ℤ) × (main willing open_platform 20 no_script
        no_script boot_argv at_start []
      ≡ (stop exited, last, (execv (codes "/sbin/init") (cut_options boot_argv), a) ∷ tr))
    × (last.world ≡ open_platform.close 7 started.world)
    × Mounts willing true
        (codes "/dev/mmcblk0p2")
        (codes "squashfs")
        (codes "aes-xts-plain64")
        (codes "00ff")
        tr
main_finishes_example =
    main_finishes willing open_platform 19 no_script no_script willing-Succeeds boot_argv at_start
      started started started (codes "/dev/mmcblk0p2") (codes "squashfs") (codes "aes-xts-plain64")
      (codes "00ff") (codes "/dev/mmcblk0p2") true 7 defaults_set.1 refl started-Asks
      (λ e. secret_fits) started_opens

-- the calls of that boot before /sbin/init starts, and the last one
abbrev before_init : Trace
before_init =
    (main_finishes willing open_platform 19 no_script no_script willing-Succeeds boot_argv at_start
      started started started (codes "/dev/mmcblk0p2") (codes "squashfs") (codes "aes-xts-plain64")
      (codes "00ff") (codes "/dev/mmcblk0p2") true 7 defaults_set.1 refl started-Asks
      (λ e. secret_fits) started_opens).1

abbrev init_answer : ℤ
init_answer =
    (main_finishes willing open_platform 19 no_script no_script willing-Succeeds boot_argv at_start
      started started started (codes "/dev/mmcblk0p2") (codes "squashfs") (codes "aes-xts-plain64")
      (codes "00ff") (codes "/dev/mmcblk0p2") true 7 defaults_set.1 refl started-Asks
      (λ e. secret_fits) started_opens).2

abbrev echo_child : Child
echo_child = record {
  pipe_opens = true;
  pid = pos 9;
  chunks = codes "hel" ∷ codes "lo\n" ∷ [];
  waited = pos 9;
  stored = some (pos 0);
}

system_cmd_lem_example :
    system_cmd echo_child (1 ∷ 2 ∷ 3 ∷ 4 ∷ []) 4
    ≡ some (some (pos 0), cut_output 3 (concat echo_child.chunks))
system_cmd_lem_example = system_cmd_lem echo_child (1 ∷ 2 ∷ 3 ∷ 4 ∷ []) 3 refl refl

-- descriptors as a function to the number of the file that is open
abbrev Table : Type 0
Table = ℕ → Option ℕ

abbrev tables : Descriptors Table ℕ
tables = record {
  file = λ t b. t b;
  close = λ a t. λ b. if a == b then none else t b;
  dup2 = λ a b t. λ c. if b == c then t a else t c;
  execvp = λ argv t. true;
}

tables-IsPosix : IsPosix tables
tables-IsPosix = record {
  closed = λ a b t. refl;
  duplicated = λ a b c t h. ap (λ o. if b == c then o else t c) h;
}

-- the console is file 0, the pipe has 1 and 2, and /dev/null is 3
abbrev forked : Table
forked b = if ltb b 3 then some 0 else if b == 3 then some 1 else if b == 4 then some 2 else some 3

child_redirects_example :
    (t' : Table) × (child tables (some 5) 3 4 (codes "fwup" ∷ []) forked
      ≡ executes (codes "fwup" ∷ []) t')
    × Redirected tables 3 2 forked t' 3 5
child_redirects_example =
    child_redirects tables tables-IsPosix 5 3 4 (codes "fwup" ∷ []) forked 3 2 refl refl
      (omega arith) (omega arith) (omega arith) (omega arith) (omega arith) (omega arith)
      (λ t. refl)
