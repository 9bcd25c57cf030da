-- ===== src/Tests/Save.antt =====
-- `saveenv` and `loadenv`, `setenv` and `getenv` with a device that keeps what is written.
use nerves_initramfs.Base.{
  ℕ, ◌+◌, ◌-◌, ◌≤◌, true, false, [], ◌∷◌, none, some, ◌≡◌, refl, ap, ◌∙◌, arith, replicate, length,
  take, take_all, length-replicate, if◌then◌else◌,
}
use nerves_initramfs.Base.CString.{Bytes, codes, str_eq, has_prefix}
use nerves_initramfs.Base.Int.{ℤ, eqb_ℤ, pos, negsuc, wrap, scale}
use nerves_initramfs.UbootEnv.{Env, find_value, uboot_env_getenv}
use nerves_initramfs.UbootEnv.Layout.{encode, HasRoom}
use nerves_initramfs.UbootEnv.Access.{IsDistinct}
use nerves_initramfs.BlockDevice.Spec.{
  find_block_device_by_spec, strcpy_path, open_block_device_impl, wait_loop, open_block_device,
}
use nerves_initramfs.Script.{string, number, boolean, end, link}
use nerves_initramfs.Script.Machine.{State, Platform, ok, heap_size}
use nerves_initramfs.Script.Gc.{dupe_bytes}
use nerves_initramfs.Script.Vars.{value_of}
use nerves_initramfs.Script.Convert.{Evaluator, to_string_resolved}
use nerves_initramfs.Script.Run.{evaluator}
use nerves_initramfs.Script.Flags.{IsBound, flag_bytes, IsReady}
use nerves_initramfs.Script.Location.{Locates, offset_of, size_of, sized}
use nerves_initramfs.Script.Save.{IsDisk, loadenv-saveenv}
use nerves_initramfs.Script.Getenv.{function_getenv-function_setenv}
use nerves_initramfs.Script.Storage.{
  path_name, loaded_name, modified_name, to_size, open_spec, function_saveenv, function_loadenv,
  function_setenv, function_getenv,
}
use nerves_initramfs.Tests.Qsort.{insertion_qsort, insertion-Sorts}

-- The world is the position in the device, and what stands in the area at the byte 8192.
abbrev World : Type 0
World = ℤ × Bytes

abbrev with_disk : Platform World ℕ
with_disk = record {
  term_size = 32;
  qsort = insertion_qsort;
  stderr = λ text w. w;
  info = λ text w. w;
  files = λ w writing time. record {
    system = record { open_device = λ path. none; sys_block = none };
    open_path = λ path. some 3;
  };
  opened = λ fd time w. w;
  lseek = λ fd offset w. (true, (offset, w.1));
  malloc = λ n w. replicate n 0;
  read = λ fd n w. (if eqb_ℤ w.0 (pos 8192) then some (take n w.1) else none, w);
  write = λ fd block w. (length block, if eqb_ℤ w.0 (pos 8192) then (w.0, block) else w);
  close = λ fd w. w;
  fork = λ argv w. (
    record { pipe_opens = false; pid = negsuc 0; chunks = []; waited = negsuc 0; stored = none },
    w,
  );
  read_file = λ path w. (none, w);
  list_files = λ path w. ([], w);
  usleep = λ t w. w;
  reboot = λ w. w;
  power_off = λ w. w;
}

here : (x : ℤ) → x ≡ pos 8192 → eqb_ℤ x (pos 8192) ≡ true
here x h = ap (λ y. eqb_ℤ y (pos 8192)) h

with_disk-IsDisk :
    IsDisk with_disk (λ w. w.1) (λ fd w. w.0) (offset_of (pos 16)) (size_of (pos 1)) 3
unfolding to_size wrap scale
with_disk-IsDisk = record {
  mallocs = λ w. length-replicate {A = ℕ} 512 0;
  seeks = λ w. refl;
  sought = λ w. refl;
  seek_keeps = λ w. refl;
  writes_all = λ block w at_area len. refl;
  writes = λ block w at_area len. ap (λ b. (if b then (w.0, block) else w).1) (here w.0 at_area);
  closes = λ w. refl;
  reads = λ w at_area len.
      ap (λ b. if b then some (take 512 w.1) else none) (here w.0 at_area)
      ∙ ap some (take_all 512 w.1 (omega (arith, len)));
}

abbrev with_env : State World
with_env = record {
  heap_index = 0;
  variables =
      record { name = path_name; value = some (string (codes "/dev/sda")) }
      ∷ record { name = codes "uboot_env.start"; value = some (number (pos 16)) }
      ∷ record { name = codes "uboot_env.count"; value = some (number (pos 1)) }
      ∷ record { name = loaded_name; value = some (boolean false) }
      ∷ record { name = modified_name; value = some (boolean true) }
      ∷ [];
  working_uboot_env = record {
    env_size = 0;
    vars =
        record { name = codes "a"; value = codes "b" }
        ∷ record { name = codes "bootcmd"; value = codes "run nerves" }
        ∷ [];
  };
  tries = 1000;
  world = (pos 0, []);
}

abbrev level : Evaluator World
level = evaluator with_disk 1

env-Locates : Locates (codes "/dev/sda") (pos 16) (pos 1) with_env
unfolding value_of str_eq
env-Locates = record { path = refl; start = refl; blocks = refl }

abbrev opened_env : State World
opened_env = record with_env {
  working_uboot_env = record with_env.working_uboot_env { env_size = 512 };
}

opens :
    open_spec with_disk level (codes "/dev/sda") true (sized (pos 1) with_env)
    ≡ (ok (some 3, codes "/dev/sda"), opened_env)
unfolding open_spec to_string_resolved evaluator open_block_device open_block_device_impl wait_loop
    find_block_device_by_spec strcpy_path to_size wrap scale has_prefix
opens = refl

with_env-IsDistinct : IsDistinct with_env.working_uboot_env.vars
unfolding find_value str_eq
with_env-IsDistinct = (refl, (refl, tt))

with_env-HasRoom : HasRoom (size_of (pos 1) - 4) with_env.working_uboot_env.vars
unfolding encode to_size wrap scale
with_env-HasRoom = omega arith

has_loaded : IsBound with_env.variables loaded_name
unfolding IsBound value_of str_eq
has_loaded = (some (boolean false), refl)

has_modified : IsBound with_env.variables modified_name
unfolding IsBound value_of str_eq
has_modified = (some (boolean true), refl)

ready :
    (n : ℕ) (env : Env) (world : World)
    → flag_bytes with_disk n ≤ heap_size
    → IsReady with_disk n (record with_env { working_uboot_env = env; world = world })
ready n env world room = record {
  aligned = refl;
  room = omega (arith, room);
  loaded = has_loaded;
  modified = has_modified;
}

-- the state of a later boot: no environment, and what the device then holds
abbrev later_boot : ℕ → State World
later_boot size = record with_env {
  working_uboot_env = record { env_size = size; vars = [] };
  world = (function_saveenv with_disk level with_env).1.world;
}

reopens :
    open_spec with_disk level (codes "/dev/sda") false (sized (pos 1) (later_boot 0))
    ≡ (ok (some 3, codes "/dev/sda"), later_boot 512)
unfolding open_spec to_string_resolved evaluator open_block_device open_block_device_impl wait_loop
    find_block_device_by_spec strcpy_path to_size wrap scale has_prefix
reopens = refl

later-Locates : Locates (codes "/dev/sda") (pos 16) (pos 1) (later_boot 0)
unfolding value_of str_eq
later-Locates = record { path = refl; start = refl; blocks = refl }

area_size : size_of (pos 1) ≡ 512
unfolding to_size wrap scale
area_size = refl

loadenv-saveenv_example :
    (t' : State World) × ((function_saveenv with_disk level with_env).0 ≡ ok none)
    × (function_loadenv with_disk level (later_boot 0) ≡ (ok none, t'))
    × ((name : Bytes)
        → uboot_env_getenv t'.working_uboot_env name
          ≡ uboot_env_getenv with_env.working_uboot_env name)
    × (value_of t'.variables loaded_name ≡ some (some (boolean true)))
    × (value_of t'.variables modified_name ≡ some (some (boolean false)))
loadenv-saveenv_example =
    loadenv-saveenv with_disk 0 insertion-Sorts (λ w. w.1) (λ fd w. w.0) (pos 16) (pos 1) 3 3
      with_disk-IsDisk with_disk-IsDisk with_env opened_env (later_boot 0) (later_boot 512)
      (codes "/dev/sda") (codes "/dev/sda") (codes "/dev/sda") (codes "/dev/sda") env-Locates opens
      (omega (arith, area_size)) (omega (arith, area_size)) with_env-HasRoom (omega arith)
      with_env-IsDistinct (ready 1 with_env.working_uboot_env (pos 0, []) (omega arith))
      later-Locates reopens refl
      (ready 3 (later_boot 0).working_uboot_env (later_boot 0).world (omega arith))

copy_fits : 0 + flag_bytes with_disk 1 + dupe_bytes with_disk (string (codes "c")) ≤ heap_size
unfolding dupe_bytes
copy_fits = omega arith

function_getenv-function_setenv_example :
    (s' s₂ : State World) × (function_setenv with_disk level
        (link (string (codes "a")) (link (string (codes "c")) end))
        with_env
      ≡ (ok (some (string (codes "c"))), s'))
    × (function_getenv with_disk level (link (string (codes "a")) end) s'
        ≡ (ok (some (string (codes "c"))), s₂))
    × ((other : Bytes)
        → find_value s₂.working_uboot_env.vars other ≡ (
            if str_eq (codes "a") other
            then some (codes "c")
            else find_value with_env.working_uboot_env.vars other))
    × (value_of s₂.variables modified_name ≡ some (some (boolean true)))
function_getenv-function_setenv_example =
    function_getenv-function_setenv with_disk 0 with_env (codes "a") (codes "c")
      (ready 1 with_env.working_uboot_env (pos 0, []) (omega arith)) copy_fits
