-- ===== src/Script/Defs.antt =====
-- The types of src/script.h, the table of functions and the links between terms.
use nerves_initramfs.Base.{
  ℕ, suc, Bool, ◌&&◌, List, [], ◌∷◌, Option, none, some, leb, ◌==◌, if◌then◌else◌,
}
use Prim.Native.String.{String}
use nerves_initramfs.Base.CString.{Bytes, codes, str_eq}
use nerves_initramfs.Base.Int.{ℤ}

-- The handlers, which the source names by function pointers.
pub data Fun : Type 0 where
  fun_assign fun_add fun_subtract fun_blkid fun_cmd : Fun
  fun_env fun_fwup_revert fun_getenv fun_help fun_loadenv : Fun
  fun_ls fun_poweroff fun_print fun_readfile fun_reboot : Fun
  fun_saveenv fun_setenv fun_sleep fun_vars : Fun

-- `struct term`, and the lists of terms that the `next` links make. A `term_variable` stands in the
-- list of variables alone: see `Variable`.
mutual
  pub data Term : Type 0 where
    identifier : Bytes → Term
    string : Bytes → Term
    number : ℤ → Term
    boolean : Bool → Term
    fun : Fun → Terms → Term

  pub data Terms : Type 0 where
    end : Terms
    link : Term → Terms → Terms

-- `struct function_info`
pub record FunctionInfo : Type 0 where
  pub name : Bytes
  pub arity : ℕ
  pub handler : Fun
  pub description : Option Bytes

-- `struct variable`; the value may be NULL
pub record Variable : Type 0 where
  pub name : Bytes
  pub value : Option Term

abbrev entry : String → ℕ → Fun → FunctionInfo
entry name arity handler = record {
  name = codes name;
  arity = arity;
  handler = handler;
  description = none;
}

abbrev described : String → ℕ → Fun → String → FunctionInfo
described name arity handler text = record {
  name = codes name;
  arity = arity;
  handler = handler;
  description = some (codes text);
}

unfoldable pub function_table : List FunctionInfo
function_table =
    entry "=" 2 fun_assign
    ∷ entry "+" 2 fun_add
    ∷ entry "-" 2 fun_subtract
    ∷ described "blkid" 0 fun_blkid "list block devices"
    ∷ described "cmd" 1 fun_cmd "run an external command"
    ∷ described "env" 0 fun_env "print all loaded U-Boot variables"
    ∷ described "fwup_revert" 0 fun_fwup_revert "revert to the previous firmware image"
    ∷ described "getenv" 1 fun_getenv "get the value of a U-Boot variable"
    ∷ described "help" 0 fun_help "print out help in the REPL"
    ∷ described "loadenv" 0 fun_loadenv "load a U-Boot environment block"
    ∷ described "ls" 0 fun_ls "list files"
    ∷ described "poweroff" 0 fun_poweroff "power off the device"
    ∷ described "print" 1 fun_print "print one or more strings and variables"
    ∷ described "readfile" 1 fun_readfile "read a file (truncates long files)"
    ∷ described "reboot" 0 fun_reboot "reset the device"
    ∷ described "saveenv" 0 fun_saveenv "save all U-Boot variables back to storage"
    ∷ described "setenv" 2 fun_setenv
        "set a U-Boot variable. It is not saved until you call saveenv/0"
    ∷ described "sleep" 0 fun_sleep "sleep for n milliseconds"
    ∷ described "vars" 0 fun_vars "print all known variables and their values"
    ∷ []

unfoldable pub find_function : List FunctionInfo → Bytes → ℕ → Option Fun
find_function [] name arity = none
find_function (info ∷ table) name arity =
    if str_eq info.name name && leb info.arity arity
    then some info.handler
    else find_function table name arity

unfoldable pub lookup_function : Bytes → ℕ → Option Fun
unfolding find_function function_table
lookup_function = find_function function_table

-- `entry->handler == fun`
unfoldable pub fun_code : Fun → ℕ
fun_code fun_assign = 0
fun_code fun_add = 1
fun_code fun_subtract = 2
fun_code fun_blkid = 3
fun_code fun_cmd = 4
fun_code fun_env = 5
fun_code fun_fwup_revert = 6
fun_code fun_getenv = 7
fun_code fun_help = 8
fun_code fun_loadenv = 9
fun_code fun_ls = 10
fun_code fun_poweroff = 11
fun_code fun_print = 12
fun_code fun_readfile = 13
fun_code fun_reboot = 14
fun_code fun_saveenv = 15
fun_code fun_setenv = 16
fun_code fun_sleep = 17
fun_code fun_vars = 18

-- `none` is the terminating entry, with the name NULL
unfoldable pub find_info : List FunctionInfo → Fun → Option FunctionInfo
unfolding fun_code
find_info [] f = none
find_info (info ∷ table) f =
    if fun_code info.handler == fun_code f then some info else find_info table f

unfoldable pub function_info_by_fun : Fun → Option FunctionInfo
unfolding find_info function_table
function_info_by_fun = find_info function_table

-- the loop of `term_reverse`, from `prev`
unfoldable pub reverse_onto : Terms → Terms → Terms
reverse_onto prev end = prev
reverse_onto prev (link t next) = reverse_onto (link t prev) next

unfoldable pub term_reverse : Terms → Terms
unfolding reverse_onto
term_reverse = reverse_onto end

unfoldable pub arity_of : Terms → ℕ
arity_of end = 0
arity_of (link t next) = suc (arity_of next)
