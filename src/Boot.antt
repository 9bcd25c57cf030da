-- ===== src/Boot.antt =====
-- Of src/nerves_initramfs.c: the variables that a script starts with, and the options of the kernel
-- command line; the rest is in the child modules.
pub mod Cleanup
pub mod Kernel
pub mod Mount
pub mod Main
pub mod Phases
pub mod Order
pub mod Repl
pub mod Success
pub mod Mounting
pub mod Finish
pub mod Defaults
pub mod Conf
use nerves_initramfs.Base.{
  ap, map, ℕ, Bool, true, false, List, [], ◌∷◌, ◌++◌, Option, none, some, ◌==◌, if◌then◌else◌,
  get_or, All, ◌≡◌, refl, Bool-cases, inl, inr,
}
use nerves_initramfs.Base.CString.{Bytes, codes, str_eq}
use nerves_initramfs.Base.Int.{pos}
use nerves_initramfs.UbootEnv.{uboot_env_init}
use nerves_initramfs.Script.Machine.{Platform, M, ◌>>◌, pure, changes}
use nerves_initramfs.Script.Value.{
  term_gc_heap, set_string_variable, set_boolean_variable, set_number_variable,
}

-- `strchr(key, '=')`: the bytes in front of it, and those behind it if there is one
unfoldable pub split_equals : Bytes → Bytes × Option Bytes
split_equals [] = ([], none)
split_equals (c ∷ cs) =
    let (key, value) = split_equals cs in if c == b'=' then ([], some cs) else (c ∷ key, value)

-- `*equals = '\0'`, which stays in `argv`
unfoldable pub cut_option : Bytes → Bytes
cut_option arg = if get_or arg 0 0 == b'-' then arg else (split_equals arg).0

-- what `initialize_script_defaults` leaves of `argv`
unfoldable pub cut_options : List Bytes → List Bytes
cut_options [] = []
cut_options (program ∷ args) = program ∷ map cut_option args

module _ {W Fd : Type 0} (p : Platform W Fd) where
  -- the two forms of an option
  unfoldable pub set_parsed : Bytes × Option Bytes → M W (Unit {0})
  set_parsed (key, some text) = set_string_variable p key text
  set_parsed (key, none) = set_boolean_variable p key true

  -- the body of the loop over the arguments
  unfoldable pub set_option : Bytes → M W (Unit {0})
  unfolding split_equals set_parsed
  set_option arg = if get_or arg 0 0 == b'-' then pure tt else set_parsed (split_equals arg)

  unfoldable pub options_loop : List Bytes → M W (Unit {0})
  options_loop [] = pure tt
  options_loop (arg ∷ args) = do set_option arg; options_loop args

  -- the arguments behind `argv[0]`
  unfoldable pub initialize_script_defaults : List Bytes → M W (Unit {0})
  initialize_script_defaults args = do
    term_gc_heap p
    changes (λ s. record s { working_uboot_env = uboot_env_init })
    set_string_variable p (codes "rootfs.fstype") (codes "squashfs")
    set_string_variable p (codes "rootfs.path") (codes "/dev/mmcblk0p2")
    set_boolean_variable p (codes "rootfs.encrypted") false
    set_string_variable p (codes "rootfs.cipher") []
    set_string_variable p (codes "rootfs.secret") []
    set_string_variable p (codes "uboot_env.path") (codes "/dev/mmcblk0")
    set_boolean_variable p (codes "uboot_env.loaded") false
    set_boolean_variable p (codes "uboot_env.modified") false
    set_number_variable p (codes "uboot_env.start") (pos 256)
    set_number_variable p (codes "uboot_env.count") (pos 256)
    set_boolean_variable p (codes "run_repl") false
    options_loop args

split_equals_key :
    (key value : Bytes)
    → All (λ c. (c == b'=') ≡ false) key
    → split_equals (key ++ (b'=' ∷ value)) ≡ (key, some value)
unfolding split_equals
split_equals_key [] value h = refl
split_equals_key (c ∷ key) value (h, hs) = rw (h, split_equals_key key value hs)

-- An argument key=value, with a key that is not empty, does not start with a dash and has no equals sign,
-- sets the variable of that name to that string.
set_option_lem :
    {W Fd : Type 0} (p : Platform W Fd) (c : ℕ) (key value : Bytes)
    → (c == b'-') ≡ false
    → All (λ c. (c == b'=') ≡ false) (c ∷ key)
    → set_option p ((c ∷ key) ++ (b'=' ∷ value)) ≡ set_string_variable p (c ∷ key) value
unfolding set_option set_parsed
set_option_lem p c key value dash h =
    rw dash (ap (set_parsed p) (split_equals_key (c ∷ key) value h))
