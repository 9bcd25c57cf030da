-- ===== src/UbootEnv/Defs.antt =====
-- The types of src/uboot_env.h, and of src/uboot_env.c the functions on the linked list.
use nerves_initramfs.Base.{ℕ, Bool, List, [], ◌∷◌, Option, none, some, ◌==◌, if◌then◌else◌, length}
use nerves_initramfs.Base.CString.{Bytes, str_eq, str_le}

-- `struct uboot_name_value`
pub record Pair : Type 0 where
  pub name : Bytes
  pub value : Bytes

-- `struct uboot_env`
pub record Env : Type 0 where
  pub env_size : ℕ
  pub vars : List Pair

-- the return codes 0 and -1
pub data Status : Type 0 where
  success failure : Status

unfoldable pub uboot_env_init : Env
uboot_env_init = record { env_size = 0; vars = [] }

unfoldable pub uboot_env_free : Env → Env
uboot_env_free env = record env { vars = [] }

-- the loop of `uboot_env_setenv`: the list with the first match's value replaced, if there is one
unfoldable pub replace : Bytes → Bytes → List Pair → Option (List Pair)
replace name value [] = none
replace name value (pair ∷ vars) =
    if str_eq pair.name name
    then some (record pair { value = value } ∷ vars)
    else elim (replace name value vars) [ none ↦ none | some vars' ↦ some (pair ∷ vars') ]

unfoldable pub uboot_env_setenv : Env → Bytes → Bytes → Status × Env
unfolding replace
uboot_env_setenv env name value = elim (replace name value env.vars) [
  | some vars ↦ (success, record env { vars = vars })
  | none ↦ (success, record env { vars = record { name = name; value = value } ∷ env.vars })
]

-- the loop of `uboot_env_unsetenv`: the list without the first match
unfoldable pub unlink : Bytes → List Pair → List Pair
unlink name [] = []
unlink name (pair ∷ vars) = if str_eq pair.name name then vars else pair ∷ unlink name vars

unfoldable pub uboot_env_unsetenv : Env → Bytes → Status × Env
unfolding unlink
uboot_env_unsetenv env name = (success, record env { vars = unlink name env.vars })

-- the loop of `uboot_env_getenv`
unfoldable pub find_value : List Pair → Bytes → Option Bytes
find_value [] name = none
find_value (pair ∷ vars) name =
    if str_eq pair.name name then some pair.value else find_value vars name

-- `none` is the value NULL with the return code -1
unfoldable pub uboot_env_getenv : Env → Bytes → Status × Option Bytes
unfolding find_value
uboot_env_getenv env name = elim (find_value env.vars name) [
  | some value ↦ (success, some value)
  | none ↦ (failure, none)
]

-- `env_name_compare(a, b) <= 0`
unfoldable pub env_name_compare : Pair → Pair → Bool
env_name_compare a b = str_le a.name b.name

-- `qsort` of the C library is an argument. The array of pointers is filled in list order, and the
-- links are set anew in array order.
unfoldable pub uboot_env_sort : ((Pair → Pair → Bool) → List Pair → List Pair) → Env → Env
uboot_env_sort qsort env =
    if length env.vars == 0 then env else record env { vars = qsort env_name_compare env.vars }
