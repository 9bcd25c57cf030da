-- ===== src/BlockDevice/Tables.antt =====
-- What a probe adds for a partition table: the disk, then its partitions in ascending order, all in
-- front of the devices that were there.
use native.Mathlib.Nat.{mul_comm}
use nerves_initramfs.Base.{
  ℕ, zero, suc, ◌+◌, ◌-◌, ◌*◌, ◌%◌, ◌^◌, ◌≤◌, ◌<◌, true, false, List, [], ◌∷◌, ◌++◌, Option, none,
  some, ◌≡◌, ◌≢◌, refl, ◌∙◌, ap, arith, if◌then◌else◌, Bool-cases, inl, inr, ltb, length, take,
  drop, ◌==◌, append_assoc, append-nil,
}
use nerves_initramfs.Base.CString.{Bytes}
use nerves_initramfs.Base.Format.{hex_02, hex_08}
use nerves_initramfs.BlockDevice.Defs.{
  partition, BlockDeviceInfo, success, failure, byte_at, slice?, p_or_np, from_le32, is_zeros,
  uuid_to_string_me, partition_path,
}
use nerves_initramfs.BlockDevice.Probe.{
  Pread, has_boot_signature, has_gpt_signature, gpt_loop, gpt_partitions, gpt_disk,
  probe_gpt_devices, mbr_loop, mbr_disk, probe_mbr_devices,
}

-- The device of the entry with the number `suc i`, if the entry is in use.
unfoldable pub gpt_entry : Bytes → Bytes → ℕ → ℕ → List BlockDeviceInfo
gpt_entry table devname size i =
    let entry = drop (size * i) table in
    if is_zeros (take 16 entry)
    then []
    else record {
      type = partition;
      path = partition_path devname (p_or_np devname) (suc i);
      uuid = uuid_to_string_me (take 16 (drop (size * i + 16) table)) 0;
    }
      ∷ []

-- The entries with the numbers 1 to `n`.
unfoldable pub gpt_entries : Bytes → Bytes → ℕ → ℕ → List BlockDeviceInfo
unfolding gpt_entry
gpt_entries table devname size zero = []
gpt_entries table devname size (suc n) =
    gpt_entries table devname size n ++ gpt_entry table devname size n

slice?-inside :
    (buffer : Bytes) (at n : ℕ)
    → at + n ≤ length buffer
    → slice? buffer at n ≡ some (take n (drop at buffer))
unfolding slice?
slice?-inside buffer at n h = ground arith

slice?_outside : (buffer : Bytes) (at n : ℕ) → length buffer < at + n → slice? buffer at n ≡ none
unfolding slice?
slice?_outside buffer at n h = ground arith

gpt_loop_entries :
    (table devname : Bytes) (size n at : ℕ) (devices : List BlockDeviceInfo)
    → at ≡ size * n
    → 32 ≤ size
    → size * n ≤ length table
    → gpt_loop table devname size n at devices ≡ some (gpt_entries table devname size n ++ devices)
unfolding gpt_loop gpt_entries
gpt_loop_entries table devname size zero at devices h big fits = refl
gpt_loop_entries table devname size (suc n) at devices h big fits =
    let step : size * suc n ≡ size * n + size = grind arith in
    let enough : ltb at size ≡ false = ground arith in
    let back : at - size ≡ size * n = omega arith in
    let a = slice?-inside table (size * n) 16 (omega arith) in
    let b = slice?-inside table (size * n + 16) 16 (omega arith) in
    elim (Bool-cases (is_zeros (take 16 (drop (size * n) table)))) [
      | inl z ↦
          rw (enough, back, a, z, gpt_loop, gpt_entry, append-nil)
            (gpt_loop_entries table devname size n (at - size) devices back big (omega arith))
      | inr u ↦
          rw (enough, back, a, u, back, b, gpt_loop, gpt_entry, append_assoc)
            (gpt_loop_entries table devname size n (at - size) _ back big (omega arith))
    ]

gpt_loop_small :
    (table devname : Bytes) (size n at : ℕ) (devices : List BlockDeviceInfo)
    → at ≡ size * n
    → 0 < n
    → size < 16
    → length table ≡ size * n
    → gpt_loop table devname size n at devices ≡ none
unfolding gpt_loop
gpt_loop_small table devname size zero at devices h pos small whole = absurd (omega arith)
gpt_loop_small table devname size (suc n) at devices h pos small whole =
    let step : size * suc n ≡ size * n + size = grind arith in
    let enough : ltb at size ≡ false = ground arith in
    let outside = slice?_outside table (at - size) 16 (omega arith) in
    rw (enough, outside, gpt_loop)

-- A readable device with a protective MBR, the GPT signature and a header.
pub record HasGpt (pread : Pread) (mbr block : Bytes) : Type 0 where
  pub sector_0 : pread 512 0 ≡ some mbr
  pub boot : has_boot_signature mbr ≡ true
  pub protective : byte_at mbr 450 ≡ 0xee
  pub sector_1 : pread 512 512 ≡ some block
  pub signature : has_gpt_signature block ≡ true

probe_gpt_header :
    {pread : Pread} {mbr block : Bytes} (devname : Bytes) (devices : List BlockDeviceInfo)
    → HasGpt pread mbr block
    → probe_gpt_devices pread devname devices
      ≡ gpt_partitions pread block devname (gpt_disk block devname ∷ devices)
unfolding probe_gpt_devices
probe_gpt_header devname devices g =
    rw (g.sector_0, g.boot, g.protective, g.sector_1, g.signature, probe_gpt_devices)

module _ {pread : Pread} {mbr block : Bytes} (devname : Bytes) (devices : List BlockDeviceInfo)
    (g : HasGpt pread mbr block) (count size : ℕ) (table : Bytes)
    (counted : from_le32 block 80 ≡ count) (sized : from_le32 block 84 ≡ size) (few : count ≤ 256)
    (no_wrap : count * size < 2 ^ 32) (read : pread (count * size) 1024 ≡ some table)
    (whole : length table ≡ count * size) where
  gpt_partitions_loop :
      (devs : List BlockDeviceInfo) (r : Option (List BlockDeviceInfo))
      → gpt_loop table devname size count (size * count) devs ≡ r
      → gpt_partitions pread block devname devs
        ≡ elim r [ none ↦ none | some devices' ↦ some (success, devices') ]
  unfolding gpt_partitions
  gpt_partitions_loop devs r loop =
      let few' : ltb 256 count ≡ false = ground arith in
      let same : count * size % 2 ^ 32 ≡ count * size = omega arith in
      let same' : size * count % 2 ^ 32 ≡ size * count = omega (arith, mul_comm size count) in
      rw (counted, sized, few', same, read, counted, sized, same', loop, gpt_partitions)

  -- A GPT disk with at most 256 entries, of at least 32 bytes, and a table size below 2 ^ 32 that
  -- is read whole is probed inside its table: the disk is added, and in front of it each entry in
  -- use, by ascending number.
  pub probe_gpt_lem :
      32 ≤ size
      → probe_gpt_devices pread devname devices
        ≡ some (success, gpt_entries table devname size count ++ (gpt_disk block devname ∷ devices))
  probe_gpt_lem big =
      probe_gpt_header devname devices g
      ∙ gpt_partitions_loop (gpt_disk block devname ∷ devices) _ (
          gpt_loop_entries table devname size count (size * count) _ refl big
            (omega (arith, mul_comm size count)))

  -- The size of an entry is not checked: where the header of such a disk gives at least one entry
  -- and fewer than 16 bytes for each, the first look at the table already reads past its end.
  pub gpt_small_entries_fault :
      0 < count → size < 16 → probe_gpt_devices pread devname devices ≡ none
  gpt_small_entries_fault some_entry small =
      probe_gpt_header devname devices g
      ∙ gpt_partitions_loop (gpt_disk block devname ∷ devices) none (
          gpt_loop_small table devname size count (size * count) (gpt_disk block devname ∷ devices)
            refl some_entry small (omega (arith, mul_comm size count)))

-- The device of the primary partition with the number `suc i`, if its type is not 0.
unfoldable pub mbr_entry : Bytes → Bytes → ℕ → List BlockDeviceInfo
mbr_entry mbr devname i =
    if byte_at mbr (446 + i * 16 + 4) == 0
    then []
    else record {
      type = partition;
      path = partition_path devname (p_or_np devname) (suc i);
      uuid = hex_08 (from_le32 mbr 440) ++ (b'-' ∷ hex_02 (suc i));
    }
      ∷ []

mbr_loop_entries :
    (mbr devname : Bytes) (i : ℕ) (devices : List BlockDeviceInfo)
    → mbr_loop mbr devname (from_le32 mbr 440) (suc i) devices
      ≡ mbr_loop mbr devname (from_le32 mbr 440) i (mbr_entry mbr devname i ++ devices)
unfolding mbr_loop mbr_entry
mbr_loop_entries mbr devname i devices = ground arith

mbr_loop_done :
    (mbr devname : Bytes) (uuid : ℕ) (devices : List BlockDeviceInfo)
    → mbr_loop mbr devname uuid 0 devices ≡ devices
unfolding mbr_loop
mbr_loop_done mbr devname uuid devices = refl

-- A device with a boot signature and no protective MBR is probed as an MBR disk: the disk is added,
-- and in front of it the partitions in use of the four, by ascending number.
pub probe_mbr_lem :
    (pread : Pread) (mbr devname : Bytes) (devices : List BlockDeviceInfo)
    → pread 512 0 ≡ some mbr
    → has_boot_signature mbr ≡ true
    → byte_at mbr 450 ≢ 0xee
    → probe_mbr_devices pread devname devices ≡ (
      success,
      mbr_entry mbr devname 0
          ++ (mbr_entry mbr devname 1
              ++ (mbr_entry mbr devname 2
                  ++ (mbr_entry mbr devname 3 ++ (mbr_disk mbr devname ∷ devices)))),
    )
unfolding probe_mbr_devices
probe_mbr_lem pread mbr devname devices read boot other =
    let no_gpt : (byte_at mbr 450 == 0xee) ≡ false = ground arith in
    let d₃ = mbr_entry mbr devname 3 ++ (mbr_disk mbr devname ∷ devices) in
    let d₂ = mbr_entry mbr devname 2 ++ d₃ in
    let d₁ = mbr_entry mbr devname 1 ++ d₂ in
    rw (read, boot, no_gpt, probe_mbr_devices)
      (ap (λ l. (success, l))
        (mbr_loop_entries mbr devname 3 (mbr_disk mbr devname ∷ devices)
          ∙ mbr_loop_entries mbr devname 2 d₃
          ∙ mbr_loop_entries mbr devname 1 d₂
          ∙ mbr_loop_entries mbr devname 0 d₁
          ∙ mbr_loop_done mbr devname (from_le32 mbr 440) (mbr_entry mbr devname 0 ++ d₁)))

-- The two probes exclude each other: where the MBR probe succeeds, the GPT probe of the same device
-- would have failed and added nothing.
probes_exclusive :
    (pread : Pread) (devname : Bytes) (devices : List BlockDeviceInfo)
    → (probe_mbr_devices pread devname devices).0 ≡ success
    → probe_gpt_devices pread devname devices ≡ some (failure, devices)
unfolding probe_mbr_devices probe_gpt_devices
probes_exclusive pread devname devices h = ground arith
