-- ===== src/Script/Functions.antt =====
-- The built-in functions of src/script.c on values, text and files. They are given an evaluator for
-- their parameters; NULL is `none`.
use nerves_initramfs.Base.{
  ℕ, zero, suc, ◌-◌, Bool, false, List, [], ◌∷◌, ◌++◌, Option, none, some, if◌then◌else◌, length,
  take, replicate, map,
}
use nerves_initramfs.Base.CString.{Bytes, codes, until_nul}
use nerves_initramfs.Base.Int.{ℤ, pos, ◌+ℤ◌, ◌-ℤ◌, eqb_ℤ, wrap, scale}
use nerves_initramfs.Base.Format.{dec}
use nerves_initramfs.Cmd.{system_cmd}
use nerves_initramfs.Util.{trim_string_in_place}
use nerves_initramfs.BlockDevice.{disk, partition, BlockDeviceInfo}
use nerves_initramfs.BlockDevice.Probe.{probe_block_devices}
use nerves_initramfs.Script.Defs.{
  Term, identifier, string, Terms, end, link, FunctionInfo, Variable, function_table,
}
use nerves_initramfs.Script.Machine.{
  Platform, exited, M, ◌>>=◌, ◌>>◌, pure, halt, deref, gets, does, asks, term_new_number,
  term_new_string,
}
use nerves_initramfs.Script.Value.{set_variable, inspect_variable}
use nerves_initramfs.Script.Convert.{Evaluator, term_to_number}

-- The first of a list of parameters, and `parameters->next`.
abbrev pub first : Terms → Option Term
first end = none
first (link t next) = some t

abbrev pub next : Terms → Terms
next end = end
next (link t rest) = rest

-- The union member `identifier`, which shares its place with `string`.
abbrev pub identifier_of : Term → Option Bytes
identifier_of (identifier n) = some n
identifier_of (string s) = some s
identifier_of _ = none

-- `%-ns`
abbrev pub pad : ℕ → Bytes → Bytes
pad n s = s ++ replicate (n - length s) b' '

module _ {W Fd : Type 0} (p : Platform W Fd) (e : Evaluator W) where
  unfoldable pub function_assign : Terms → M W (Option Term)
  function_assign parameters = do
    source ← deref (first (next parameters))
    value ← e.term_resolve source
    var ← deref (first parameters)
    name ← deref (identifier_of var)
    set_variable p name value
    pure value

  -- the two numbers, in the order that the initializers have
  unfoldable pub two_numbers : Terms → M W (ℤ × ℤ)
  two_numbers parameters = do
    left ← deref (first parameters)
    a ← term_to_number p e left
    right ← deref (first (next parameters))
    b ← term_to_number p e right
    pure (a, b)

  unfoldable pub function_add : Terms → M W (Option Term)
  function_add parameters = do
    (a, b) ← two_numbers parameters
    t ← term_new_number p (wrap (a +ℤ b))
    pure (some t)

  unfoldable pub function_subtract : Terms → M W (Option Term)
  function_subtract parameters = do
    (a, b) ← two_numbers parameters
    t ← term_new_number p (wrap (a -ℤ b))
    pure (some t)

  unfoldable pub print_loop : Terms → M W (Unit {0})
  print_loop end = pure tt
  print_loop (link t next) = do str ← e.term_to_string t; does (p.stderr str); print_loop next

  unfoldable pub function_print : Terms → M W (Option Term)
  function_print parameters = do print_loop parameters; does (p.stderr (codes "\n")); pure none

  unfoldable pub vars_loop : List Variable → M W (Unit {0})
  vars_loop [] = pure tt
  vars_loop (v ∷ variables) = do
    text ← deref (inspect_variable v)
    does (p.stderr (text ++ codes "\n"))
    vars_loop variables

  unfoldable pub function_vars : M W (Option Term)
  function_vars = do variables ← gets (λ s. s.variables); vars_loop variables; pure none

  unfoldable pub device_line : BlockDeviceInfo → Bytes
  device_line device =
      device.path
      ++ (codes ": "
          ++ (elim device.type [ disk ↦ codes "DISK" | partition ↦ codes "PART" ]
              ++ (codes "UUID=\"" ++ (device.uuid ++ codes "\"\n"))))

  unfoldable pub print_lines : List Bytes → M W (Unit {0})
  print_lines [] = pure tt
  print_lines (line ∷ lines) = do does (p.stderr line); print_lines lines

  unfoldable pub function_blkid : M W (Option Term)
  function_blkid = do
    world ← gets (λ s. s.world)
    let now = p.files world false 0
    devices ← deref (probe_block_devices now.system)
    print_lines (map device_line devices)
    pure none

  -- at most `room` arguments
  unfoldable pub arguments : ℕ → Terms → M W (List Bytes)
  arguments zero parameters = pure []
  arguments (suc room) end = pure []
  arguments (suc room) (link t next) = do
    str ← e.term_to_string t
    rest ← arguments room next
    pure (str ∷ rest)

  abbrev pub head_of : List Bytes → Bytes
  head_of [] = codes "(null)"
  head_of (arg ∷ args) = arg

  -- `system_cmd` into an empty string of 256 bytes; a status that was not stored is read
  unfoldable pub run_command : List Bytes → M W (ℤ × Bytes)
  run_command argv = do
    child ← asks (p.fork argv)
    (status, buffer) ← deref (system_cmd child (replicate 256 0) 256)
    rc ← deref status
    pure (rc, until_nul buffer)

  unfoldable pub function_cmd : Terms → M W (Option Term)
  function_cmd parameters = do
    argv ← arguments 15 parameters
    (rc, output) ← run_command argv
    (if eqb_ℤ rc (pos 0)
        then pure tt
        else does (p.info (codes "Ignoring non-zero exit from " ++ head_of argv)))
    trimmed ← deref (trim_string_in_place output)
    t ← term_new_string p trimmed
    pure (some t)

  unfoldable pub file_line : Bytes × Bool → Bytes
  file_line (name, is_dir) = pad 32 name ++ (if is_dir then codes "<DIR>\n" else codes "\n")

  unfoldable pub function_ls : Terms → M W (Option Term)
  function_ls parameters = do
    path ← elim parameters [ end ↦ pure (codes "/") | link t next ↦ e.term_to_string t ]
    files ← asks (p.list_files path)
    print_lines (map file_line files)
    pure none

  unfoldable pub function_reboot : M W (Option Term)
  function_reboot = do does p.reboot; halt exited

  unfoldable pub function_poweroff : M W (Option Term)
  function_poweroff = do does p.power_off; halt exited

  unfoldable pub function_sleep : Terms → M W (Option Term)
  function_sleep parameters = do
    t ← deref (first parameters)
    milliseconds ← term_to_number p e t
    does (p.usleep (wrap (scale 1000 milliseconds)))
    pure none

  -- `sizeof(buffer) - 1` bytes, of which a string ends at the first NUL
  unfoldable pub function_readfile : Terms → M W (Option Term)
  function_readfile parameters = do
    t ← deref (first parameters)
    path ← e.term_to_string t
    content ← asks (p.read_file path)
    elim content [
      | some bytes ↦ term_new_string p (until_nul (take 4133 bytes)) >>= λ t. pure (some t)
      | none ↦
          does (p.info (codes "Error reading " ++ path))
          >> (term_new_string p [] >>= λ t. pure (some t))
    ]

  unfoldable pub help_line : FunctionInfo → Option Bytes
  help_line entry = elim entry.description [
    | none ↦ none
    | some text ↦ some (
        pad 16 (take 15 (entry.name ++ (codes "/" ++ dec (pos entry.arity))))
        ++ (text ++ codes "\n"))
  ]

  unfoldable pub help_loop : List FunctionInfo → M W (Unit {0})
  help_loop [] = pure tt
  help_loop (entry ∷ table) = do
    elim (help_line entry) [ none ↦ pure tt | some line ↦ does (p.stderr line) ]
    help_loop table

  unfoldable pub function_help : M W (Option Term)
  function_help = do
    help_loop function_table
    does (p.stderr (codes "\nType Ctrl-D to exit repl.\n"))
    pure none
