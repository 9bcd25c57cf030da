-- ===== src/Tests/UbootEnv.antt =====
-- The U-Boot environment.
use nerves_initramfs.Base.{
  ◌-◌, List, [], ◌∷◌, some, none, ◌≡◌, refl, arith, replicate, length, subst, inl, inr, Bool-cases,
  if◌then◌else◌,
}
use nerves_initramfs.Base.CString.{codes, Bytes, str_eq, str_eq_iff}
use nerves_initramfs.Crc32.{crc32buf}
use nerves_initramfs.Crc32.Bitwise.{shift_bytes, crc32buf_lem}
use nerves_initramfs.UbootEnv.{
  Pair, Env, Status, success, failure, find_value, uboot_env_sort, uboot_env_getenv,
  uboot_env_unsetenv,
}
use nerves_initramfs.UbootEnv.Access.{IsDistinct, getenv-unsetenv}
use nerves_initramfs.UbootEnv.Order.{Ascends, sort-keeps}
use nerves_initramfs.UbootEnv.Layout.{encode, HasRoom}
use nerves_initramfs.UbootEnv.Bounds.{write_short}
use nerves_initramfs.UbootEnv.Total.{IsRead, uboot_env_read-IsRead}
use nerves_initramfs.UbootEnv.RoundTrip.{getenv-read-write, write_deterministic}
use nerves_initramfs.UbootEnv.Read.{uboot_env_read}
use nerves_initramfs.UbootEnv.Write.{uboot_env_write}
use nerves_initramfs.Tests.Qsort.{insertion_qsort, insertion-Sorts}

abbrev pair_b : Pair
pair_b = record { name = codes "bootcmd"; value = codes "run nerves" }

abbrev pair_a : Pair
pair_a = record { name = codes "a"; value = [] }

abbrev small_env : Env
small_env = record { env_size = 48; vars = pair_b ∷ pair_a ∷ [] }

abbrev empty_buffer : Bytes
empty_buffer = replicate 48 0

small_env-IsDistinct : IsDistinct small_env.vars
unfolding find_value str_eq
small_env-IsDistinct = (refl, (refl, tt))

small_env-HasRoom : HasRoom (small_env.env_size - 4) small_env.vars
unfolding encode
small_env-HasRoom = omega arith

-- What the theorem gives at an environment of two pairs.
abbrev ReadsBack : Type 0
ReadsBack =
    (block' : Bytes) × (env' : Env) × (uboot_env_write insertion_qsort small_env empty_buffer
      ≡ some (success, uboot_env_sort insertion_qsort small_env, block'))
    × (uboot_env_read (record { env_size = 48; vars = [] }) block' ≡ some (success, env'))
    × ((name : Bytes) → uboot_env_getenv env' name ≡ uboot_env_getenv small_env name)

getenv-read-write_example : ReadsBack
getenv-read-write_example =
    getenv-read-write insertion_qsort insertion-Sorts small_env empty_buffer [] (omega arith)
      (omega arith) refl small_env-HasRoom (omega arith) small_env-IsDistinct

-- the same pairs in the other order
abbrev swapped_env : Env
swapped_env = record { env_size = 48; vars = pair_a ∷ pair_b ∷ [] }

swapped_env-IsDistinct : IsDistinct swapped_env.vars
unfolding find_value str_eq
swapped_env-IsDistinct = (refl, (refl, tt))

at_a : find_value small_env.vars pair_a.name ≡ find_value swapped_env.vars pair_a.name
unfolding find_value str_eq
at_a = refl

swapped_same : (name : Bytes) → find_value small_env.vars name ≡ find_value swapped_env.vars name
unfolding find_value
swapped_same name = elim (Bool-cases (str_eq pair_a.name name)) [
  | inr e ↦ rw (e, find_value)
  | inl e ↦
      let same : pair_a.name ≡ name = (str_eq_iff pair_a.name name).0 e in
      subst (λ n. find_value small_env.vars n ≡ find_value swapped_env.vars n) same at_a
]

write_deterministic_example :
    (vars : List Pair) × (block' : Bytes) × (uboot_env_write insertion_qsort small_env empty_buffer
      ≡ some (success, record small_env { vars = vars }, block'))
    × (uboot_env_write insertion_qsort swapped_env (replicate 48 255)
        ≡ some (success, record small_env { vars = vars }, block'))
write_deterministic_example =
    write_deterministic insertion_qsort insertion-Sorts small_env swapped_env empty_buffer
      (replicate 48 255) (omega arith) refl refl refl small_env-HasRoom small_env-IsDistinct
      swapped_env-IsDistinct swapped_same

uboot_env_read-IsRead_example :
    (st : Status) × (env' : Env) × (uboot_env_read small_env empty_buffer ≡ some (st, env'))
    × IsRead small_env empty_buffer st env'
uboot_env_read-IsRead_example =
    uboot_env_read-IsRead small_env empty_buffer (omega arith) (omega arith) (omega arith)

-- the same pairs in a block that is too small
abbrev tight_env : Env
tight_env = record { env_size = 16; vars = pair_b ∷ pair_a ∷ [] }

tight_env-HasRoom : ¬ HasRoom (tight_env.env_size - 4) tight_env.vars
unfolding encode
tight_env-HasRoom h = omega arith

write_short_example :
    (b : Bytes) × (uboot_env_write insertion_qsort tight_env (replicate 16 0)
      ≡ some (failure, uboot_env_sort insertion_qsort tight_env, b))
    × (length b ≡ 16)
write_short_example =
    write_short insertion_qsort insertion-Sorts tight_env (replicate 16 0) (omega arith) refl
      tight_env-HasRoom

getenv-unsetenv_example :
    IsDistinct (uboot_env_unsetenv small_env (codes "a")).1.vars
    × ((j : Bytes)
        → find_value (uboot_env_unsetenv small_env (codes "a")).1.vars j
          ≡ (if str_eq (codes "a") j then none else find_value small_env.vars j))
getenv-unsetenv_example = getenv-unsetenv small_env (codes "a") small_env-IsDistinct

sort-keeps_example :
    Ascends (uboot_env_sort insertion_qsort small_env).vars
    × IsDistinct (uboot_env_sort insertion_qsort small_env).vars
    × ((k : Bytes)
        → find_value (uboot_env_sort insertion_qsort small_env).vars k
          ≡ find_value small_env.vars k)
sort-keeps_example = sort-keeps insertion_qsort insertion-Sorts small_env small_env-IsDistinct

crc32buf_lem_example :
    crc32buf (1 ∷ 255 ∷ []) ≡ 0xffff_ffff - shift_bytes (1 ∷ 255 ∷ []) 0xffff_ffff
crc32buf_lem_example = crc32buf_lem (1 ∷ 255 ∷ []) (omega arith, (omega arith, tt))
