-- ===== src/Script.antt =====
-- src/script.c and src/script.h: the interpreter's terms, its heap, its variables and its built-in
-- functions; and the lexer and the grammar, which builds the terms.
mod Defs
pub mod Machine
pub mod Strtoull
pub mod Value
pub mod Convert
pub mod Functions
pub mod Storage
pub mod Run
pub mod Table
pub mod Vars
pub mod Heap
pub mod Lexer
pub mod Location
pub mod Grammar
pub mod Flags
pub mod Save
pub mod Getenv
pub mod Reads
pub mod Gc
pub mod Tidy
pub mod Settings
pub mod Digits
pub mod Numbers
pub mod Compare
pub use Defs.{
  Fun, fun_assign, fun_add, fun_subtract, fun_blkid, fun_cmd, fun_env, fun_fwup_revert, fun_getenv,
  fun_help, fun_loadenv, fun_ls, fun_poweroff, fun_print, fun_readfile, fun_reboot, fun_saveenv,
  fun_setenv, fun_sleep, fun_vars, Term, identifier, string, number, boolean, fun, Terms, end, link,
  FunctionInfo, Variable,
}
unfoldable pub use Defs.{
  function_table, lookup_function, function_info_by_fun, term_reverse, arity_of, find_info,
  fun_code,
}
