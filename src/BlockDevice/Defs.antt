-- ===== src/BlockDevice/Defs.antt =====
-- The types of src/block_device.h, and of src/block_device.c the helpers on bytes.
use nerves_initramfs.Base.{
  ℕ, ◌+◌, ◌-◌, ◌*◌, ◌%◌, ◌^◌, Bool, true, ◌&&◌, [], ◌∷◌, ◌++◌, Option, none, some, leb, ◌==◌,
  if◌then◌else◌, length, take, drop, get_or,
}
use nerves_initramfs.Base.CString.{Bytes, codes}
use nerves_initramfs.Base.Format.{hex_02, dec}
use nerves_initramfs.Base.Int.{pos}

-- `enum block_device_type`
pub data BlockDeviceType : Type 0 where
  disk partition : BlockDeviceType

-- `struct block_device_info`; the list links are a list
pub record BlockDeviceInfo : Type 0 where
  pub type : BlockDeviceType
  pub path : Bytes
  pub uuid : Bytes

-- the return codes 0 and -1
pub data Rc : Type 0 where
  success failure : Rc

-- `buffer[i]`, of a buffer that is long enough
abbrev pub byte_at : Bytes → ℕ → ℕ
byte_at buffer i = get_or buffer i 0

-- `n` bytes at an offset into an allocated block; `none` if they do not all lie in it
unfoldable pub slice? : Bytes → ℕ → ℕ → Option Bytes
slice? buffer at n = if leb (at + n) (length buffer) then some (take n (drop at buffer)) else none

-- `block_device_path_len`
abbrev pub block_device_path_len : ℕ
block_device_path_len = 32

unfoldable pub p_or_np : Bytes → Bytes
p_or_np devname =
    let last_char = byte_at devname (length devname - 1) in
    if leb b'0' last_char && leb last_char b'9' then codes "p" else []

unfoldable pub from_le32 : Bytes → ℕ → ℕ
from_le32 buffer at =
    (byte_at buffer at
      + byte_at buffer (at + 1) * 2 ^ 8
      + byte_at buffer (at + 2) * 2 ^ 16
      + byte_at buffer (at + 3) * 2 ^ 24)
    % 2 ^ 32

unfoldable pub is_zeros : Bytes → Bool
is_zeros [] = true
is_zeros (b ∷ buffer) = b == 0 && is_zeros buffer

-- the sixteen bytes from `at` on, in the order of the format string
unfoldable pub uuid_to_string_me : Bytes → ℕ → Bytes
uuid_to_string_me buffer at =
    let h = λ (i : ℕ). hex_02 (byte_at buffer (at + i)) in
    h 3
    ++ (h 2
        ++ (h 1
            ++ (h 0
                ++ (b'-'
                    ∷ (h 5
                        ++ (h 4
                            ++ (b'-'
                                ∷ (h 7
                                    ++ (h 6
                                        ++ (b'-'
                                            ∷ (h 8
                                                ++ (h 9
                                                    ++ (b'-'
                                                        ∷ (h 10
                                                            ++ (h 11
                                                            ++ (h 12
                                                            ++ (h 13
                                                            ++ (h 14 ++ h 15))))))))))))))))))

-- `snprintf(path, sizeof(path), "/dev/%.16s", devname)`
unfoldable pub device_path : Bytes → Bytes
device_path devname = take (block_device_path_len - 1) (codes "/dev/" ++ take 16 devname)

-- `snprintf(path, sizeof(path), "/dev/%.16s%s%d", devname, p, i)`
unfoldable pub partition_path : Bytes → Bytes → ℕ → Bytes
partition_path devname p i =
    take (block_device_path_len - 1) (codes "/dev/" ++ (take 16 devname ++ (p ++ dec (pos i))))
