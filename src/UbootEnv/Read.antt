-- ===== src/UbootEnv/Read.antt =====
-- `uboot_env_read` of src/uboot_env.c. A pointer into the buffer is the list of bytes from it to
-- `end`; so `p == end` is the empty list.
use nerves_initramfs.Base.{
  ℕ, zero, suc, ◌+◌, ◌-◌, ◌*◌, ◌%◌, ◌^◌, ◌||◌, List, [], ◌∷◌, Option, none, some, ◌==◌, ltb,
  if◌then◌else◌, not, length, take, drop, get_or,
}
use nerves_initramfs.Base.CString.{Bytes, strndup}
use nerves_initramfs.Crc32.{crc32buf}
use nerves_initramfs.UbootEnv.Defs.{Pair, Env, Status, success, failure, uboot_env_free}

-- `endname` walks to the '='. The result has the bytes that it passes and those behind the '='.
unfoldable pub scan_name : Bytes → Option (Bytes × Bytes)
scan_name [] = none
scan_name (zero ∷ cs) = none
scan_name (suc c ∷ cs) =
    let later = scan_name cs in
    if suc c == b'='
    then some ([], cs)
    else elim later [ none ↦ none | some (name, rest) ↦ some (suc c ∷ name, rest) ]

-- `endvalue` walks to the NUL
unfoldable pub scan_value : Bytes → Option (Bytes × Bytes)
scan_value [] = none
scan_value (zero ∷ cs) = some ([], cs)
scan_value (suc c ∷ cs) = elim (scan_value cs) [
  | none ↦ none
  | some (value, rest) ↦ some (suc c ∷ value, rest)
]

-- `(size_t) -n`: the code passes `value - endvalue`, the negated length, to `strndup`
abbrev pub negated_size : ℕ → ℕ
negated_size n = (2 ^ 64 - n) % 2 ^ 64

-- How the outer loop ends, with the list that it has built: at its test, or at an ERR_RETURN. The
-- third case is the model's: the fuel ran out.
pub data Parse : Type 0 where
  parsed : List Pair → Parse
  invalid : List Pair → Parse
  no_fuel : Parse

unfoldable pub read_loop : ℕ → Bytes → List Pair → Parse
unfolding scan_name scan_value
read_loop fuel [] vars = parsed vars
read_loop fuel (zero ∷ cs) vars = parsed vars
read_loop zero (suc c ∷ cs) vars = no_fuel
read_loop (suc fuel) (suc c ∷ cs) vars = elim (scan_name cs) [
  | none ↦ invalid vars
  | some (name, value) ↦ elim (scan_value value) [
    | none ↦ invalid vars
    | some (passed, rest) ↦ read_loop fuel rest (
        record {
          name = strndup (suc c ∷ cs) (suc (length name));
          value = strndup value (negated_size (length passed));
        }
        ∷ vars)
  ]
]

-- the little-endian CRC at the start of the block; the `|` of four separate bytes is their sum
unfoldable pub expected_crc32 : Bytes → ℕ
expected_crc32 buffer =
    get_or buffer 0 0
    + get_or buffer 1 0 * 2 ^ 8
    + get_or buffer 2 0 * 2 ^ 16
    + get_or buffer 3 0 * 2 ^ 24

-- the part of the block that the CRC covers
abbrev pub body : ℕ → Bytes → Bytes
body size buffer = take (size - 4) (drop 4 buffer)

abbrev pub returned : Env → Parse → Option (Status × Env)
returned env (parsed vars) = some (success, record env { vars = vars })
returned env (invalid vars) = some (failure, record env { vars = vars })
returned env no_fuel = none

-- `none`: bytes outside the buffer are read, as they are for an `env_size` below 4, where
-- `env_size - 4` wraps. The fuel is the number of bytes. The messages of the errors are left out.
unfoldable pub uboot_env_read : Env → Bytes → Option (Status × Env)
unfolding read_loop expected_crc32 uboot_env_free
uboot_env_read env buffer =
    if ltb env.env_size 4 || ltb (length buffer) env.env_size
    then none
    else if not (expected_crc32 buffer == crc32buf (body env.env_size buffer))
    then some (failure, uboot_env_free env)
    else returned (uboot_env_free env)
        (read_loop (length (body env.env_size buffer)) (body env.env_size buffer) [])
