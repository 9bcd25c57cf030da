-- ===== src/Crc32.antt =====
-- src/crc32.c: the table-driven CRC-32 over which U-Boot environment blocks are checked. The
-- feedback terms stand in `Crc32/Table.antt`.
mod Table
pub mod Bits
pub mod Bitwise
unfoldable pub use Table.{crc_32_tab}
use nerves_initramfs.Base.{
  ℕ, zero, suc, ◌+◌, ◌-◌, ◌/◌, ◌%◌, ◌^◌, ◌≤◌, ◌<◌, ◌≡◌, refl, List, [], ◌∷◌, arith, bit_and,
  bit_xor, get_or,
}
use nerves_initramfs.Base.CString.{Bytes, codes}

-- `UPDC32(octet, crc)`; the index is below 256, the length of the table
unfoldable pub updc32 : ℕ → ℕ → ℕ
updc32 octet crc = bit_xor (get_or crc_32_tab (bit_and (bit_xor crc octet) 0xff) 0) (crc / 2 ^ 8)

-- the loop of `crc32buf`
unfoldable pub crc32_loop : Bytes → ℕ → ℕ
unfolding updc32
crc32_loop [] crc = crc
crc32_loop (octet ∷ buf) crc = crc32_loop buf (updc32 octet crc)

-- `~crc32` of a `uint32_t` is `0xFFFFFFFF - crc32`
unfoldable pub crc32buf : Bytes → ℕ
unfolding crc32_loop
crc32buf buf = 0xffff_ffff - crc32_loop buf 0xffff_ffff

pub crc32buf-lt : (buf : Bytes) → crc32buf buf < 2 ^ 32
unfolding crc32buf
crc32buf-lt buf = omega arith

-- The standard check value of CRC-32.
check_value : crc32buf (codes "123456789") ≡ 0xcbf4_3926
unfolding crc32buf crc_32_tab
check_value = refl
