-- ===== src/Script/Storage.antt =====
-- The built-in functions of src/script.c on the U-Boot environment.
use nerves_initramfs.Base.{
  ℕ, suc, ◌-◌, ◌^◌, Bool, true, false, List, [], ◌∷◌, ◌++◌, Option, none, some, if◌then◌else◌,
  length, ◌==◌, map,
}
use nerves_initramfs.Base.CString.{Bytes, codes}
use nerves_initramfs.Base.Int.{ℤ, pos, negsuc, eqb_ℤ, wrap, scale}
use nerves_initramfs.Base.Format.{dec}
use nerves_initramfs.BlockDevice.Spec.{open_block_device}
use nerves_initramfs.UbootEnv.{
  Pair, Env, Status, success, failure, uboot_env_setenv, uboot_env_getenv,
}
use nerves_initramfs.UbootEnv.Read.{uboot_env_read}
use nerves_initramfs.UbootEnv.Write.{uboot_env_write}
use nerves_initramfs.Script.Defs.{Term, Terms}
use nerves_initramfs.Script.Machine.{
  State, Platform, ok, stop, exited, undefined, M, ◌>>=◌, ◌>>◌, pure, halt, deref, gets, changes,
  does, asks, term_new_string, term_new_boolean,
}
use nerves_initramfs.Script.Value.{set_boolean_variable}
use nerves_initramfs.Script.Convert.{Evaluator, get_variable_as_string, get_variable_as_number}
use nerves_initramfs.Script.Functions.{first, next, print_lines, run_command}

abbrev pub path_name : Bytes
path_name = codes "uboot_env.path"

abbrev pub loaded_name : Bytes
loaded_name = codes "uboot_env.loaded"

abbrev pub modified_name : Bytes
modified_name = codes "uboot_env.modified"

-- an `int` that becomes a `size_t`
unfoldable pub to_size : ℤ → ℕ
to_size (pos n) = n
to_size (negsuc n) = 2 ^ 64 - suc n

abbrev concat : List Bytes → Bytes
concat [] = []
concat (part ∷ parts) = part ++ concat parts

unfoldable pub env_line : Pair → Bytes
env_line pair = pair.name ++ (codes "=" ++ (pair.value ++ codes "\n"))

unfoldable pub revert_command : Bytes → List Bytes
revert_command devpath =
    codes "/usr/bin/fwup"
    ∷ codes "revert.fw"
    ∷ codes "-d"
    ∷ devpath
    ∷ codes "-t"
    ∷ codes "revert"
    ∷ []

abbrev set_env : {W : Type 0} → Env → State W → State W
set_env env s = record s { working_uboot_env = env }

module _ {W Fd : Type 0} (p : Platform W Fd) where
  -- `set_boolean_variable(...)` for the flags
  abbrev flag : Bytes → Bool → M W (Unit {0})
  flag = set_boolean_variable p

  -- a message, and NULL
  unfoldable pub fails : List Bytes → M W (Option Term)
  fails message = do does (p.info (concat message)); pure none

  unfoldable pub transfer_fails : Bytes → ℤ → Bytes → M W (Option Term)
  transfer_fails what block_count devpath = fails (
      what
      ∷ dec block_count
      ∷ codes " blocks ("
      ∷ dec (wrap (scale 512 block_count))
      ∷ codes " bytes) from '"
      ∷ devpath
      ∷ codes "'"
      ∷ [])

  unfoldable pub seek_fails : ℤ → Bytes → M W (Option Term)
  seek_fails block devpath = fails (
      codes "Could not seek to block "
      ∷ dec block
      ∷ codes " (byte offset "
      ∷ dec (wrap (scale 512 block))
      ∷ codes ") in '"
      ∷ devpath
      ∷ codes "'"
      ∷ [])

  -- the return codes of `uboot_env_read`
  unfoldable pub read_done : Status × Env → M W (Option Term)
  read_done (failure, env') = do changes (set_env env'); pure none
  read_done (success, env') = do changes (set_env env'); flag loaded_name true; pure none

  unfoldable pub read_env : Bytes → M W (Option Term)
  read_env buffer = do
    env ← gets (λ s. s.working_uboot_env)
    done ← deref (uboot_env_read env buffer)
    read_done done

  unfoldable pub use_block : Bytes → M W (Option Term)
  use_block buffer = do flag loaded_name false; flag modified_name false; read_env buffer

  -- `loadenv` behind `read`: it needs as many bytes as it asked for
  unfoldable pub load_content : ℕ → ℤ → Bytes → Option Bytes → M W (Option Term)
  load_content env_size block_count devpath none =
      transfer_fails (codes "Could not read ") block_count devpath
  load_content env_size block_count devpath (some buffer) =
      if length buffer == env_size
      then use_block buffer
      else transfer_fails (codes "Could not read ") block_count devpath

  -- `loadenv` with the device open and sought: the descriptor, the number of blocks and the path
  unfoldable pub load_opened : Option (Fd × ℤ × Bytes) → M W (Option Term)
  load_opened none = pure none
  load_opened (some (fd, block_count, devpath)) = do
    env ← gets (λ s. s.working_uboot_env)
    content ← asks (p.read fd env.env_size)
    does (p.close fd)
    load_content env.env_size block_count devpath content

  -- `saveenv` behind the return code of `uboot_env_write`. The descriptor stays open where it fails.
  unfoldable pub save_written : Fd × ℤ × Bytes → Status × Env × Bytes → M W (Option Term)
  save_written (fd, block_count, devpath) (failure, env', block) = do
    changes (set_env env')
    pure none
  save_written (fd, block_count, devpath) (success, env', block) = do
    changes (set_env env')
    amount ← asks (p.write fd block)
    does (p.close fd)
    if amount == env'.env_size
        then flag modified_name false >> pure none
        else transfer_fails (codes "Could not write ") block_count devpath

  -- `saveenv` with the device open and sought
  unfoldable pub save_opened : Option (Fd × ℤ × Bytes) → M W (Option Term)
  save_opened none = pure none
  save_opened (some opened) = do
    env ← gets (λ s. s.working_uboot_env)
    world ← gets (λ s. s.world)
    written ← deref (uboot_env_write p.qsort env (p.malloc env.env_size world))
    save_written opened written

  -- the copy that `getenv` returns; it is empty where the name is not found
  unfoldable pub getenv_done : Option Bytes → M W (Option Term)
  getenv_done none = do t ← term_new_string p []; pure (some t)
  getenv_done (some value) = do t ← term_new_string p value; pure (some t)

  -- the return codes of `uboot_env_setenv`
  unfoldable pub setenv_done : Bytes → Bytes → Status → M W (Unit {0})
  setenv_done name value failure = do
    fails (
        codes "Error setting uboot environment variable '"
        ∷ name
        ∷ codes "' to '"
        ∷ value
        ∷ codes "'"
        ∷ [])
    pure tt
  setenv_done name value success = flag modified_name true

module _ {W Fd : Type 0} (p : Platform W Fd) (e : Evaluator W) where
  -- `open_block_device` of src/block_device.c, with its static `tries`: the descriptor and the path
  unfoldable pub open_spec : Bytes → Bool → M W (Option Fd × Bytes)
  open_spec spec writing s = elim (open_block_device (p.files s.world writing) spec s.tries 0 []) [
    | none ↦ (stop undefined, s)
    | some o ↦
        (ok (o.fd, o.path), record s { tries = o.tries; world = p.opened o.fd o.time s.world })
  ]

  unfoldable pub function_env : M W (Option Term)
  function_env = do
    env ← gets (λ s. s.working_uboot_env)
    print_lines p e (map env_line env.vars)
    pure none

  -- The common start of `loadenv` and `saveenv`: the size is set, the device opened and sought.
  -- `none`: they return NULL.
  unfoldable pub open_env : Bool → M W (Option (Fd × ℤ × Bytes))
  open_env writing = do
    devpathspec ← get_variable_as_string p e path_name
    block ← get_variable_as_number p e (codes "uboot_env.start")
    block_count ← get_variable_as_number p e (codes "uboot_env.count")
    changes (λ s.
        set_env (record s.working_uboot_env { env_size = to_size (wrap (scale 512 block_count)) })
          s)
    (fd, devpath) ← open_spec devpathspec writing
    elim fd [
      | none ↦ fails p (codes "Could not open '" ∷ devpathspec ∷ codes "'" ∷ []) >> pure none
      | some fd ↦ asks (p.lseek fd (wrap (scale 512 block))) >>= λ sought.
          if sought
          then pure (some (fd, block_count, devpath))
          else seek_fails p block devpath >> (does (p.close fd) >> pure none)
    ]

  unfoldable pub function_loadenv : M W (Option Term)
  function_loadenv = do opened ← open_env false; load_opened p opened

  unfoldable pub function_saveenv : M W (Option Term)
  function_saveenv = do opened ← open_env true; save_opened p opened

  unfoldable pub function_setenv : Terms → M W (Option Term)
  function_setenv parameters = do
    name_term ← deref (first parameters)
    name ← e.term_to_string name_term
    value_term ← deref (first (next parameters))
    value ← e.term_to_string value_term
    env ← gets (λ s. s.working_uboot_env)
    let (status, env') = uboot_env_setenv env name value
    changes (set_env env')
    setenv_done p name value status
    pure (some value_term)

  unfoldable pub function_getenv : Terms → M W (Option Term)
  function_getenv parameters = do
    name_term ← deref (first parameters)
    name ← e.term_to_string name_term
    env ← gets (λ s. s.working_uboot_env)
    getenv_done p (uboot_env_getenv env name).1

  -- a message, and `false`
  unfoldable pub give_up : Bytes → M W (Option Term)
  give_up message = do does (p.info message); t ← term_new_boolean p false; pure (some t)

  unfoldable pub function_fwup_revert : M W (Option Term)
  function_fwup_revert = do
    devpathspec ← get_variable_as_string p e path_name
    (fd, devpath) ← open_spec devpathspec false
    elim fd [
      | none ↦ give_up (codes "Failure to revert due to invalid uboot_env.path")
      | some fd ↦ do
        does (p.close fd)
        (rc, output) ← run_command p e (revert_command devpath)
        if eqb_ℤ rc (pos 0)
            then does p.reboot >> halt exited
            else give_up (codes "Failure from fwup revert: " ++ output)
    ]
