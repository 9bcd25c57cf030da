-- ===== src/Tests.antt =====
-- Runs of the modelled code on concrete inputs, and each theorem at an input that exercises it.
pub mod Qsort
pub mod Disks
pub mod BlockDevice
pub mod Script
pub mod Save
pub mod Grammar
pub mod UbootEnv
pub mod Rootdisk
pub mod Boot
pub mod Conf
