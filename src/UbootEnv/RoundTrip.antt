-- ===== src/UbootEnv/RoundTrip.antt =====
-- A written block is read back, and the block depends on nothing but the values of the names.
use mathlib.Core.List.{Permᴰ, reverse_aux}
use mathlib.Core.List.Permᴰ
use nerves_initramfs.Base.{
  ℕ, zero, suc, ◌+◌, ◌-◌, ◌^◌, ◌≤◌, Bool, true, List, [], ◌∷◌, ◌++◌, some, ◌≡◌, refl, sym, ◌∙◌, ap,
  subst, arith, All, ◌==◌, ==_iff, length, take_all, append_assoc, length-append, length-replicate,
  reverse, replicate,
}
use nerves_initramfs.Base.CString.{Bytes, strndup}
use nerves_initramfs.Crc32.{crc32buf, crc32buf-lt}
use nerves_initramfs.UbootEnv.Defs.{
  Pair, Env, success, find_value, uboot_env_sort, uboot_env_getenv,
}
use nerves_initramfs.UbootEnv.Read.{
  parsed, read_loop, expected_crc32, body, returned, uboot_env_read,
}
use nerves_initramfs.UbootEnv.Write.{uboot_env_write}
use nerves_initramfs.UbootEnv.Valid.{
  IsName, IsValidPair, scan_name-append, scan_value-append, strndup-negated_size, strndup_name,
  HasNoNul-tail,
}
use nerves_initramfs.UbootEnv.Access.{IsDistinct, getenv_cong}
use nerves_initramfs.UbootEnv.Order.{
  Sorts, sort_vars, find_value-perm, sort-IsSorted, sorted_unique, sort_shape,
}
use nerves_initramfs.UbootEnv.Layout.{encode, HasRoom, HasRoom-lt, HasRoom-perm, length-encode}
use nerves_initramfs.UbootEnv.Bounds.{contents, block, write-HasRoom}
use nerves_initramfs.UbootEnv.Total.{read-match}

-- One round of the loop on an encoded pair.
read_loop_step :
    (fuel : ℕ) (pair : Pair) (rest : Bytes) (acc : List Pair)
    → IsValidPair pair
    → length pair.value ≤ 2 ^ 63
    → read_loop (suc fuel) (pair.name ++ (b'=' ∷ (pair.value ++ (0 ∷ rest)))) acc
      ≡ read_loop fuel rest (pair ∷ acc)
unfolding read_loop
read_loop_step fuel pair rest acc ok small = go pair.name refl ok.0
  where
    go :
        (name : Bytes)
        → pair.name ≡ name
        → IsName name
        → read_loop (suc fuel) (name ++ (b'=' ∷ (pair.value ++ (0 ∷ rest)))) acc
          ≡ read_loop fuel rest (pair ∷ acc)
    go [] e h = absurd h
    go (zero ∷ cs) e h = absurd (omega arith)
    go (suc c ∷ cs) e h =
        let n : strndup (suc c ∷ (cs ++ (b'=' ∷ (pair.value ++ (0 ∷ rest))))) (suc (length cs))
            ≡ pair.name =
          strndup_name (suc c ∷ cs) _ (omega arith, HasNoNul-tail cs h.1) ∙ sym e in
        let v = strndup-negated_size pair.value rest ok.1 small in
        rw
          (
            scan_name-append cs (pair.value ++ (0 ∷ rest)) h.1,
            scan_value-append pair.value rest ok.1,
            read_loop,
          )
          (λ i. read_loop fuel rest (record { name = n i; value = v i } ∷ acc))

-- The lengths of the values are those of a buffer.
values_small :
    (n : ℕ) (vars : List Pair)
    → length (encode vars) ≤ n
    → All (λ (pair : Pair). length pair.value ≤ n) vars
values_small n [] h = tt
values_small n (pair ∷ vars) h = (
  omega (arith, length-encode pair vars),
  values_small n vars (omega (arith, length-encode pair vars)),
)

-- The loop reads an encoded list back, in reverse order.
read_loop-encode :
    (vars : List Pair) (fuel : ℕ) (rest : Bytes) (acc : List Pair)
    → All IsValidPair vars
    → length (encode vars) ≤ fuel
    → length (encode vars) ≤ 2 ^ 63
    → read_loop fuel (encode vars ++ (0 ∷ rest)) acc ≡ parsed (reverse_aux vars acc)
read_loop-encode [] fuel rest acc ok enough small = unfold read_loop encode in refl
read_loop-encode (pair ∷ vars) zero rest acc ok enough small =
    absurd (omega (arith, length-encode pair vars))
read_loop-encode (pair ∷ vars) (suc fuel) rest acc ok enough small =
    let split : encode (pair ∷ vars) ++ (0 ∷ rest)
        ≡ pair.name ++ (b'=' ∷ (pair.value ++ (0 ∷ (encode vars ++ (0 ∷ rest))))) =
      unfold encode in simp append_assoc in
    rw split (
      read_loop_step fuel pair (encode vars ++ (0 ∷ rest)) acc ok.0
        (omega (arith, length-encode pair vars))
      ∙ read_loop-encode vars fuel rest (pair ∷ acc) ok.1 (omega (arith, length-encode pair vars))
          (omega (arith, length-encode pair vars)))

length-contents :
    (size : ℕ) (vars : List Pair)
    → length (encode vars) + 5 ≤ size
    → length (contents size vars) + 4 ≡ size
unfolding contents
length-contents size vars h =
    let x : ℕ = 0xff in
    omega (
      arith,
      length-append (encode vars) (0 ∷ replicate (size - 5 - length (encode vars)) x),
      length-replicate (size - 5 - length (encode vars)) x,
    )

-- The checksum of a block is right, and covers what was laid out.
block-expected_crc32 :
    (size : ℕ) (vars : List Pair) → expected_crc32 (block size vars) ≡ crc32buf (contents size vars)
unfolding expected_crc32 block
block-expected_crc32 size vars = omega (arith, crc32buf-lt (contents size vars))

body-block :
    (size : ℕ) (vars : List Pair)
    → length (encode vars) + 5 ≤ size
    → body size (block size vars) ≡ contents size vars
unfolding block
body-block size vars h =
    take_all (size - 4) (contents size vars) (omega (arith, length-contents size vars h))

length-block :
    (size : ℕ) (vars : List Pair)
    → length (encode vars) + 5 ≤ size
    → length (block size vars) ≡ size
unfolding block
length-block size vars h = omega (arith, length-contents size vars h)

read-block :
    (env : Env) (vars : List Pair)
    → length (encode vars) + 5 ≤ env.env_size
    → env.env_size ≤ 2 ^ 63
    → All IsValidPair vars
    → uboot_env_read env (block env.env_size vars)
      ≡ some (success, record env { vars = reverse vars })
read-block env vars h small ok =
    let size = env.env_size in
    let len = length-contents size vars h in
    let same = body-block size vars h in
    let sum : (expected_crc32 (block size vars) == crc32buf (body size (block size vars))) ≡ true =
      (==_iff _ _).1 (block-expected_crc32 size vars ∙ ap crc32buf (sym same)) in
    let loop : read_loop (length (contents size vars)) (contents size vars) []
        ≡ parsed (reverse vars) =
      unfold contents in
      read_loop-encode vars (length (contents size vars))
        (replicate (size - 5 - length (encode vars)) 0xff) [] ok (omega (arith, len))
        (omega arith) in
    read-match env (block size vars) (omega arith) (omega (arith, length-block size vars h)) sum
    ∙ ap (λ b. returned (record env { vars = [] }) (read_loop (length b) b [])) same
    ∙ ap (returned (record env { vars = [] })) loop

All-perm {ℓ κ} : {A : Type ℓ} (P : A → Type κ) {l r : List A} → Permᴰ l r → All P l → All P r
All-perm P Permᴰ.nil h = tt
All-perm P (Permᴰ.cons e p) h = (subst P e h.0, All-perm P p h.1)
All-perm P (Permᴰ.swap e e') h = (subst P e' h.1.0, (subst P e h.0, h.1.1))
All-perm P (Permᴰ.trans p q) h = All-perm P q (All-perm P p h)

module _ (qsort : (Pair → Pair → Bool) → List Pair → List Pair) (sorts : Sorts qsort) where
  -- Reading a block that was written, from 8 to 2 ^ 63 bytes long, where the pairs fit and each
  -- has a name, with no '=' behind its first byte,
  -- and no NUL: both calls succeed, and the pairs come back in the reverse
  -- of the sorted order, into any environment of the same size.
  read-write :
      (env : Env) (buffer : Bytes) (vars₀ : List Pair)
      → 8 ≤ env.env_size
      → env.env_size ≤ 2 ^ 63
      → length buffer ≡ env.env_size
      → HasRoom (env.env_size - 4) env.vars
      → All IsValidPair env.vars
      → (block' : Bytes) × (uboot_env_write qsort env buffer
          ≡ some (success, uboot_env_sort qsort env, block'))
        × (uboot_env_read (record { env_size = env.env_size; vars = vars₀ }) block'
            ≡ some (
              success,
              record { env_size = env.env_size; vars = reverse (uboot_env_sort qsort env).vars },
            ))
  read-write env buffer vars₀ big small exact room ok =
      let (p, s) = sort_vars qsort sorts env.env_size env.vars in
      let sorted = uboot_env_sort qsort env in
      let room' : HasRoom (env.env_size - 4) sorted.vars =
        HasRoom-perm (env.env_size - 4) (Permᴰ.symm p) room in
      (
        block env.env_size sorted.vars,
        write-HasRoom qsort sorts env buffer big exact room,
        read-block (record { env_size = env.env_size; vars = vars₀ }) sorted.vars
            (omega (arith, HasRoom-lt (env.env_size - 4) sorted.vars room' (omega arith))) small
            (All-perm IsValidPair (Permᴰ.symm p) ok),
      )

  -- The block that is written, its length, and what reads back from it.
  pub written_block :
      (env : Env) (buffer : Bytes)
      → 8 ≤ env.env_size
      → env.env_size ≤ 2 ^ 63
      → length buffer ≡ env.env_size
      → HasRoom (env.env_size - 4) env.vars
      → All IsValidPair env.vars
      → IsDistinct env.vars
      → (block' : Bytes) × (uboot_env_write qsort env buffer
          ≡ some (success, uboot_env_sort qsort env, block'))
        × (length block' ≡ env.env_size)
        × ((vars₀ : List Pair)
            → (env' : Env) × (uboot_env_read
                  (record { env_size = env.env_size; vars = vars₀ })
                  block'
                ≡ some (success, env'))
              × ((name : Bytes) → uboot_env_getenv env' name ≡ uboot_env_getenv env name))
  written_block env buffer big small exact room ok distinct =
      let sorted = uboot_env_sort qsort env in
      let (p, s) = sort_vars qsort sorts env.env_size env.vars in
      let room' = HasRoom-perm (env.env_size - 4) (Permᴰ.symm p) room in
      let fits = HasRoom-lt (env.env_size - 4) sorted.vars room' (omega arith) in
      let (s₂, d, same) = sort-IsSorted qsort sorts env distinct in
      let (d', same') = find_value-perm (Permᴰ.symm (Permᴰ.reverse sorted.vars)) d in
      let written = write-HasRoom qsort sorts env buffer big exact room in
      (
        block env.env_size sorted.vars,
        written,
        length-block env.env_size sorted.vars (omega (arith, fits)),
        λ vars₀. (
          record { env_size = env.env_size; vars = reverse sorted.vars },
          read-block (record { env_size = env.env_size; vars = vars₀ }) sorted.vars
              (omega (arith, fits)) small (All-perm IsValidPair (Permᴰ.symm p) ok),
          λ name. getenv_cong _ env name (sym (same' name) ∙ same name),
        ),
      )

  -- Where the block has from 8 to 2 ^ 63 bytes, the pairs fit, each has a name, with no '=' behind its first byte,
  -- and no NUL, and no name stands twice, writing the environment and reading the block back both succeed
  -- and keep the value of every name.
  pub getenv-read-write :
      (env : Env) (buffer : Bytes) (vars₀ : List Pair)
      → 8 ≤ env.env_size
      → env.env_size ≤ 2 ^ 63
      → length buffer ≡ env.env_size
      → HasRoom (env.env_size - 4) env.vars
      → All IsValidPair env.vars
      → IsDistinct env.vars
      → (block' : Bytes) × (env' : Env) × (uboot_env_write qsort env buffer
          ≡ some (success, uboot_env_sort qsort env, block'))
        × (uboot_env_read (record { env_size = env.env_size; vars = vars₀ }) block'
            ≡ some (success, env'))
        × ((name : Bytes) → uboot_env_getenv env' name ≡ uboot_env_getenv env name)
  getenv-read-write env buffer vars₀ big small exact room ok distinct =
      let (block', written, len, back) =
        written_block env buffer big small exact room ok distinct in
      let (env', read, same) = back vars₀ in (block', env', written, read, same)

  -- Any two environments of one size of at least 8 bytes, in which no name stands twice, that give
  -- every name the same value are written as one and the same block, if the pairs of the first
  -- fit, in whatever order their lists are and whatever the buffers held.
  pub write_deterministic :
      (env env' : Env) (buffer buffer' : Bytes)
      → 8 ≤ env.env_size
      → env'.env_size ≡ env.env_size
      → length buffer ≡ env.env_size
      → length buffer' ≡ env.env_size
      → HasRoom (env.env_size - 4) env.vars
      → IsDistinct env.vars
      → IsDistinct env'.vars
      → ((name : Bytes) → find_value env.vars name ≡ find_value env'.vars name)
      → (vars : List Pair) × (block' : Bytes) × (uboot_env_write qsort env buffer
          ≡ some (success, record env { vars = vars }, block'))
        × (uboot_env_write qsort env' buffer' ≡ some (success, record env { vars = vars }, block'))
  write_deterministic env env' buffer buffer' big size exact exact' room d d' same =
      let (s, ds, keeps) = sort-IsSorted qsort sorts env d in
      let (s', ds', keeps') = sort-IsSorted qsort sorts env' d' in
      let vars = (uboot_env_sort qsort env).vars in
      let vars' = (uboot_env_sort qsort env').vars in
      let one : vars ≡ vars' =
        sorted_unique vars vars' s s' ds ds' (λ k. keeps k ∙ same k ∙ sym (keeps' k)) in
      let p = (sort_vars qsort sorts env.env_size env.vars).0 in
      let p' = (sort_vars qsort sorts env'.env_size env'.vars).0 in
      let room' : HasRoom (env'.env_size - 4) env'.vars =
        subst (λ n. HasRoom (n - 4) env'.vars) (sym size)
          (HasRoom-perm _ p'
            (subst (HasRoom (env.env_size - 4)) one (HasRoom-perm _ (Permᴰ.symm p) room))) in
      let written = write-HasRoom qsort sorts env buffer big exact room in
      let written' = write-HasRoom qsort sorts env' buffer' (omega arith) (omega arith) room' in
      (
        vars,
        block env.env_size vars,
        written ∙ ap (λ e. some (success, e, block env.env_size vars)) (sort_shape qsort env),
        written'
            ∙ ap (λ e. some (success, e, block env'.env_size vars')) (sort_shape qsort env')
            ∙ λ i. some (
              success,
              record { env_size = size i; vars = sym one i },
              block (size i) (sym one i),
            ),
      )
