-- ===== src/Tests/Disks.antt =====
-- A disk with a GPT, one with a GPT whose entries are too small, and one with an MBR.
use nerves_initramfs.Base.{ℕ, [], ◌∷◌, ◌++◌, some, ◌==◌, if◌then◌else◌, replicate}
use nerves_initramfs.Base.CString.{Bytes, codes}
use nerves_initramfs.BlockDevice.Probe.{Pread, System}

abbrev pub sector_of : ℕ → Bytes
sector_of kind = replicate 450 0 ++ (kind ∷ (replicate 59 0 ++ (0x55 ∷ 0xaa ∷ [])))

abbrev pub header_of : ℕ → Bytes
header_of size =
    codes "EFI PART" ++ (replicate 72 0 ++ (2 ∷ 0 ∷ 0 ∷ 0 ∷ size ∷ 0 ∷ 0 ∷ 0 ∷ replicate 424 0))

abbrev pub table_128 : Bytes
table_128 = replicate 32 7 ++ replicate 224 0

abbrev pub table_8 : Bytes
table_8 = replicate 16 7

abbrev gpt_reads : ℕ → Bytes → Pread
gpt_reads size table length offset =
    if offset == 0
    then some (sector_of 0xee)
    else if offset == 512
    then some (header_of size)
    else some table

abbrev pub good_gpt : Pread
good_gpt = gpt_reads 128 table_128

abbrev pub small_gpt : Pread
small_gpt = gpt_reads 8 table_8

abbrev pub mbr_reads : Pread
mbr_reads length offset = some (sector_of 0x0c)

abbrev pub sda : Bytes
sda = codes "sda"

abbrev pub one_disk : System
one_disk = record { open_device = λ path. some mbr_reads; sys_block = some (codes "." ∷ sda ∷ []) }
