-- ===== src/UbootEnv/Write.antt =====
-- `uboot_env_write` of src/uboot_env.c. `p` and `end` are offsets into the buffer.
use nerves_initramfs.Base.{
  ℕ, ◌+◌, ◌-◌, ◌/◌, ◌%◌, ◌^◌, Bool, List, [], ◌∷◌, Option, none, some, ltb, leb, if◌then◌else◌,
  length, replicate, blit,
}
use nerves_initramfs.Base.CString.{Bytes}
use nerves_initramfs.Crc32.{crc32buf}
use nerves_initramfs.UbootEnv.Defs.{Pair, Env, Status, success, failure, uboot_env_sort}
use nerves_initramfs.UbootEnv.Read.{body}

-- the body of the loop behind its test: name, '=', value and NUL, each written at `p`
unfoldable pub write_pair : Bytes → ℕ → Pair → Bytes
write_pair buffer p pair =
    let named = blit buffer p pair.name in
    let equals = blit named (p + length pair.name) (b'=' ∷ []) in
    let valued = blit equals (p + length pair.name + 1) pair.value in
    blit valued (p + length pair.name + 1 + length pair.value) (0 ∷ [])

-- the loop over the pairs: whether it ran to the end, the buffer, and `p`
unfoldable pub write_loop : ℕ → Bytes → ℕ → List Pair → Status × Bytes × ℕ
unfolding write_pair
write_loop end buffer p [] = (success, buffer, p)
write_loop end buffer p (pair ∷ vars) =
    let rest =
      write_loop end (write_pair buffer p pair) (p + length pair.name + 1 + length pair.value + 1)
        vars in
    if leb end (p + length pair.name + 1 + length pair.value) then (failure, buffer, p) else rest

abbrev pub crc_bytes : ℕ → Bytes
crc_bytes crc32 =
    (crc32 % 2 ^ 8) ∷ (crc32 / 2 ^ 8 % 2 ^ 8) ∷ (crc32 / 2 ^ 16 % 2 ^ 8) ∷ (crc32 / 2 ^ 24) ∷ []

-- what follows the loop
unfoldable pub finish : Env → Status × Bytes × ℕ → Status × Env × Bytes
finish env (failure, buffer, p) = (failure, env, buffer)
finish env (success, buffer, p) =
    let terminated = blit buffer p (0 ∷ []) in
    (success, env, blit terminated 0 (crc_bytes (crc32buf (body env.env_size terminated))))

-- `none`: `memset` writes outside a buffer that is shorter than `env_size`
unfoldable pub uboot_env_write :
    ((Pair → Pair → Bool) → List Pair → List Pair) → Env → Bytes → Option (Status × Env × Bytes)
unfolding write_loop finish uboot_env_sort
uboot_env_write qsort env buffer =
    if ltb env.env_size 8
    then some (failure, env, buffer)
    else if ltb (length buffer) env.env_size
    then none
    else let sorted = uboot_env_sort qsort env in
      some (
        finish sorted (
          write_loop (env.env_size - 2) (blit buffer 0 (replicate env.env_size 0xff)) 4
            sorted.vars))
