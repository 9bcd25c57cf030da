-- ===== src/BlockDevice.antt =====
-- src/block_device.c and src/block_device.h: probing the disks of the system and resolving a block
-- device specification. `Defs` has the types and the helpers on bytes, `Probe` the partition
-- tables, `Spec` the lookup and the wait; proofs are in the other children.
mod Defs
pub mod Probe
pub mod Spec
pub mod Tables
pub mod Bounds
pub mod Lookup
pub mod Wait
pub use Defs.{BlockDeviceType, disk, partition, BlockDeviceInfo, Rc, success, failure}
unfoldable pub use Defs.{
  from_le32, is_zeros, uuid_to_string_me, p_or_np, device_path, partition_path, slice?,
}
