-- ===== src/UbootEnv/Bounds.antt =====
-- The block that `uboot_env_write` lays out, when it has room for it, and that it writes nowhere
-- else.
use mathlib.Core.List.{Permᴰ}
use mathlib.Core.List.Permᴰ
use nerves_initramfs.UbootEnv.Order.{Sorts, sort_vars}
use nerves_initramfs.Base.{
  ℕ, suc, drop_all, ◌+◌, ◌-◌, ◌≤◌, Bool, false, List, [], ◌∷◌, ◌++◌, some, ◌≡◌, refl, ◌∙◌, ap,
  arith, length, replicate, blit, blit_fill, length-append, length-replicate, append_assoc,
  append-nil, ltb, take_all,
}
use nerves_initramfs.Base.CString.{Bytes}
use nerves_initramfs.Crc32.{crc32buf}
use nerves_initramfs.UbootEnv.Defs.{Pair, Env, success, failure, uboot_env_sort}
use nerves_initramfs.UbootEnv.Write.{write_loop, finish, crc_bytes, uboot_env_write}
use nerves_initramfs.UbootEnv.Layout.{
  encode, HasRoom, HasRoom-lt, HasRoom-perm, write_loop_fits, write_loop_short,
}

-- The block of `size` bytes that holds the pairs in their order.
unfoldable pub contents : ℕ → List Pair → Bytes
unfolding encode
contents size vars = encode vars ++ (0 ∷ replicate (size - 5 - length (encode vars)) 0xff)

unfoldable pub block : ℕ → List Pair → Bytes
unfolding contents
block size vars = crc_bytes (crc32buf (contents size vars)) ++ contents size vars

abbrev header : Bytes
header = 0xff ∷ 0xff ∷ 0xff ∷ 0xff ∷ []

-- `memset(buffer, 0xff, size)` over the whole buffer; the CRC is skipped over.
memset_lem :
    (buffer : Bytes) (size : ℕ)
    → 8 ≤ size
    → length buffer ≡ size
    → blit buffer 0 (replicate size 0xff) ≡ header ++ replicate (size - 4) 0xff
unfolding blit
memset_lem buffer size big exact =
    let e : size ≡ suc (suc (suc (suc (size - 4)))) = omega arith in
    let whole : length buffer ≤ 0 + length (replicate size (let x : ℕ = 0xff in x)) =
      omega (arith, length-replicate size (let x : ℕ = 0xff in x)) in
    rw (drop_all _ buffer whole) (append-nil _ ∙ ap (λ k. replicate k (let x : ℕ = 0xff in x)) e)

length-crc_bytes : (c : ℕ) → length (crc_bytes c) ≡ 4
length-crc_bytes c = refl

-- The terminating NUL and the CRC behind the loop.
finish_lem :
    (env : Env) (size : ℕ) (vars : List Pair)
    → env.env_size ≡ size
    → length (encode vars) + 5 ≤ size
    → finish env (
      success,
      (header ++ encode vars) ++ replicate (size - 4 - length (encode vars)) 0xff,
      length header + length (encode vars),
    )
      ≡ (success, env, block size vars)
unfolding finish block contents
finish_lem env size vars same room =
    let x : ℕ = 0xff in
    let nul =
      blit_fill (header ++ encode vars) (0 ∷ []) (size - 4 - length (encode vars))
        (length header + length (encode vars)) x (omega (arith, length-append header (encode vars)))
        (omega arith) in
    let left : size - 4 - length (encode vars) - 1 ≡ size - 5 - length (encode vars) =
      omega arith in
    let cover : length (encode vars ++ (0 ∷ replicate (size - 5 - length (encode vars)) x))
        ≤ size - 4 =
      omega (
        arith,
        length-append (encode vars) (0 ∷ replicate (size - 5 - length (encode vars)) x),
        length-replicate (size - 5 - length (encode vars)) x,
      ) in
    rw (same, nul, left) (simp (append_assoc, take_all, cover) (unfold blit contents in refl))

module _ (qsort : (Pair → Pair → Bool) → List Pair → List Pair) (env : Env) (buffer : Bytes)
    (big : 8 ≤ env.env_size) (exact : length buffer ≡ env.env_size) where
  sort-env_size : (uboot_env_sort qsort env).env_size ≡ env.env_size
  unfolding uboot_env_sort
  sort-env_size = ground arith

  -- What is written behind the guards, into the buffer that `memset` has filled.
  write-unfolds :
      uboot_env_write qsort env buffer
      ≡ some (
          finish (uboot_env_sort qsort env) (
            write_loop
              (env.env_size - 2)
              (header ++ replicate (env.env_size - 4) 0xff)
              4
              (uboot_env_sort qsort env).vars))
  unfolding uboot_env_write
  write-unfolds =
      let a : ltb env.env_size 8 ≡ false = ground arith in
      let b : ltb (length buffer) env.env_size ≡ false = ground arith in
      rw (a, b, memset_lem buffer env.env_size big exact)

module _ (qsort : (Pair → Pair → Bool) → List Pair → List Pair) (sorts : Sorts qsort) (env : Env)
    (buffer : Bytes) (big : 8 ≤ env.env_size) (exact : length buffer ≡ env.env_size) where
  sort-perm : Permᴰ (uboot_env_sort qsort env).vars env.vars
  sort-perm = (sort_vars qsort sorts env.env_size env.vars).0

  -- Where the size is at least 8, the buffer has that length and the pairs fit, `uboot_env_write`
  -- succeeds and the buffer is their block, in sorted order.
  pub write-HasRoom :
      HasRoom (env.env_size - 4) env.vars
      → uboot_env_write qsort env buffer
        ≡ some
            (success, uboot_env_sort qsort env, block env.env_size (uboot_env_sort qsort env).vars)
  write-HasRoom room =
      let s = uboot_env_sort qsort env in
      let room' : HasRoom (env.env_size - 4) s.vars =
        HasRoom-perm (env.env_size - 4) (Permᴰ.symm sort-perm) room in
      let loop =
        write_loop_fits header (env.env_size - 4) (env.env_size - 2) 4 s.vars refl (omega arith)
          room' in
      let fits : length (encode s.vars) + 5 ≤ env.env_size =
        omega (arith, HasRoom-lt (env.env_size - 4) s.vars room' (omega arith)) in
      write-unfolds qsort env buffer big exact
      ∙ ap (λ r. some (finish s r)) loop
      ∙ ap some (finish_lem s env.env_size s.vars (sort-env_size qsort env buffer big exact) fits)

  -- Where the size is at least 8, the buffer has that length and the pairs do not fit,
  -- `uboot_env_write` fails with the list sorted, and the buffer keeps its length.
  pub write_short :
      ¬ HasRoom (env.env_size - 4) env.vars
      → (b : Bytes) × (uboot_env_write qsort env buffer
          ≡ some (failure, uboot_env_sort qsort env, b))
        × (length b ≡ env.env_size)
  write_short short =
      let s = uboot_env_sort qsort env in
      let (b, q, loop, len) =
        write_loop_short header (env.env_size - 4) (env.env_size - 2) 4 s.vars refl (omega arith)
          (λ room. short (HasRoom-perm (env.env_size - 4) sort-perm room)) in
      (
        b,
        write-unfolds qsort env buffer big exact
            ∙ ap (λ r. some (finish s r)) loop
            ∙ unfold finish in refl,
        omega arith,
      )
