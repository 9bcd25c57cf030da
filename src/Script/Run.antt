-- ===== src/Script/Run.antt =====
-- `run_function`, `run_functions` and `term_resolve` of src/script.c on fuel: the C code recurses
-- through parameters and variables without a bound.
use nerves_initramfs.Base.{ℕ, zero, suc, Option, none, some}
use nerves_initramfs.Base.CString.{Bytes}
use nerves_initramfs.Script.Defs.{
  Fun, fun_assign, fun_add, fun_subtract, fun_blkid, fun_cmd, fun_env, fun_fwup_revert, fun_getenv,
  fun_help, fun_loadenv, fun_ls, fun_poweroff, fun_print, fun_readfile, fun_reboot, fun_saveenv,
  fun_setenv, fun_sleep, fun_vars, Term, identifier, string, number, boolean, fun, Terms, end, link,
}
use nerves_initramfs.Script.Machine.{Platform, undefined, no_fuel, M, ◌>>=◌, pure, halt, deref}
use nerves_initramfs.Script.Value.{get_variable}
use nerves_initramfs.Script.Convert.{Evaluator, to_string_resolved}
use nerves_initramfs.Script.Functions.{
  function_assign, function_add, function_subtract, function_blkid, function_cmd, function_help,
  function_ls, function_poweroff, function_print, function_readfile, function_reboot,
  function_sleep, function_vars,
}
use nerves_initramfs.Script.Storage.{
  function_env, function_fwup_revert, function_getenv, function_loadenv, function_saveenv,
  function_setenv,
}

module _ {W Fd : Type 0} (p : Platform W Fd) where
  -- the call through the function pointer
  unfoldable pub run_handler : Evaluator W → Fun → Terms → M W (Option Term)
  run_handler e fun_assign parameters = function_assign p e parameters
  run_handler e fun_add parameters = function_add p e parameters
  run_handler e fun_subtract parameters = function_subtract p e parameters
  run_handler e fun_blkid parameters = function_blkid p e
  run_handler e fun_cmd parameters = function_cmd p e parameters
  run_handler e fun_env parameters = function_env p e
  run_handler e fun_fwup_revert parameters = function_fwup_revert p e
  run_handler e fun_getenv parameters = function_getenv p e parameters
  run_handler e fun_help parameters = function_help p e
  run_handler e fun_loadenv parameters = function_loadenv p e
  run_handler e fun_ls parameters = function_ls p e parameters
  run_handler e fun_poweroff parameters = function_poweroff p e
  run_handler e fun_print parameters = function_print p e parameters
  run_handler e fun_readfile parameters = function_readfile p e parameters
  run_handler e fun_reboot parameters = function_reboot p e
  run_handler e fun_saveenv parameters = function_saveenv p e
  run_handler e fun_setenv parameters = function_setenv p e parameters
  run_handler e fun_sleep parameters = function_sleep p e parameters
  run_handler e fun_vars parameters = function_vars p e

  -- `term_resolve`, with the level below for what it calls
  unfoldable pub term_resolve_impl : Evaluator W → Term → M W (Option Term)
  term_resolve_impl e (identifier name) = do
    value ← get_variable p name
    t ← deref value
    e.term_resolve t
  term_resolve_impl e (fun f parameters) = run_handler e f parameters
  term_resolve_impl e (string s) = pure (some (string s))
  term_resolve_impl e (number n) = pure (some (number n))
  term_resolve_impl e (boolean b) = pure (some (boolean b))

  unfoldable pub term_to_string_impl : Evaluator W → Term → M W Bytes
  term_to_string_impl e rv = do
    resolved ← term_resolve_impl e rv
    t ← deref resolved
    to_string_resolved p e t

  unfoldable pub evaluator : ℕ → Evaluator W
  unfolding term_resolve_impl term_to_string_impl
  evaluator zero = record { term_resolve = λ rv. halt no_fuel; term_to_string = λ rv. halt no_fuel }
  evaluator (suc fuel) =
      let below = evaluator fuel in
      record { term_resolve = term_resolve_impl below; term_to_string = term_to_string_impl below }

  -- The kind is asserted.
  unfoldable pub run_function : ℕ → Term → M W (Option Term)
  run_function fuel (fun f parameters) = run_handler (evaluator fuel) f parameters
  run_function fuel (identifier name) = halt undefined
  run_function fuel (string s) = halt undefined
  run_function fuel (number n) = halt undefined
  run_function fuel (boolean b) = halt undefined

  -- the loop of `run_functions`, from `last_result`
  unfoldable pub run_loop : ℕ → Option Term → Terms → M W (Option Term)
  run_loop fuel last_result end = pure last_result
  run_loop fuel last_result (link rv next) = do
    result ← run_function fuel rv
    run_loop fuel result next

  unfoldable pub run_functions : ℕ → Terms → M W (Option Term)
  unfolding run_loop
  run_functions fuel rv = run_loop fuel none rv
