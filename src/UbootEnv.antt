-- ===== src/UbootEnv.antt =====
-- src/uboot_env.c and src/uboot_env.h: the in-memory U-Boot environment and its block format.
-- The linked list `env->vars` is a list, head first. This file has the list operations; reading and
-- writing the block are in the children `Read` and `Write`, the proofs in the other children.
mod Defs
pub mod Read
pub mod Write
pub mod Valid
pub mod Access
pub mod Order
pub mod Layout
pub mod Bounds
pub mod Total
pub mod RoundTrip
pub use Defs.{Pair, Env, Status, success, failure}
unfoldable pub use Defs.{
  uboot_env_init, uboot_env_free, uboot_env_setenv, uboot_env_unsetenv, find_value,
  uboot_env_getenv, env_name_compare, uboot_env_sort,
}
