-- ===== src/UbootEnv/Total.antt =====
-- `uboot_env_read` ends, and keeps in the list only what the format allows.
use nerves_initramfs.Base.{
  ℕ, zero, suc, ◌+◌, ◌-◌, ◌≤◌, true, false, List, [], ◌∷◌, some, ◌≡◌, ◌≢◌, refl, sym, ◌∙◌, ap,
  ==_iff, ◌^◌, subst, arith, Bool-cases, Option-cases, inl, inr, All, ltb, ◌==◌, length, drop, ◌||◌,
  length-take,
}
use nerves_initramfs.Base.CString.{Bytes, strndup}
use nerves_initramfs.Crc32.{crc32buf}
use nerves_initramfs.UbootEnv.Defs.{Pair, Env, Status, success, failure}
use nerves_initramfs.UbootEnv.Read.{
  scan_name, scan_value, negated_size, Parse, parsed, invalid, no_fuel, read_loop, expected_crc32,
  body, returned, uboot_env_read,
}
use nerves_initramfs.UbootEnv.Valid.{
  HasNoNul, IsName, IsValidPair, scan_name_sound, scan_value_sound, strndup-negated_size,
  strndup_name, HasNoNul-tail,
}

scan_name-length :
    (cs : Bytes) {name rest : Bytes}
    → scan_name cs ≡ some (name, rest)
    → length name + 1 + length rest ≡ length cs
unfolding scan_name
scan_name-length [] h = ground arith
scan_name-length (zero ∷ cs) h = ground arith
scan_name-length (suc c ∷ cs) h = elim (Option-cases (scan_name cs)) [
  | inl e ↦ ground arith
  | inr ((n, r), e) ↦ ground (arith, scan_name-length cs e)
]

scan_value-length :
    (cs : Bytes) {value rest : Bytes}
    → scan_value cs ≡ some (value, rest)
    → length value + 1 + length rest ≡ length cs
unfolding scan_value
scan_value-length [] h = ground arith
scan_value-length (zero ∷ cs) h = ground arith
scan_value-length (suc c ∷ cs) h = elim (Option-cases (scan_value cs)) [
  | inl e ↦ ground arith
  | inr ((n, r), e) ↦ ground (arith, scan_value-length cs e)
]

-- Fuel for each byte is enough.
read_loop-total :
    (fuel : ℕ) (rest : Bytes) (vars : List Pair)
    → length rest ≤ fuel
    → read_loop fuel rest vars ≢ no_fuel
unfolding read_loop
read_loop-total fuel [] vars h = ground arith
read_loop-total fuel (zero ∷ cs) vars h = ground arith
read_loop-total zero (suc c ∷ cs) vars h = absurd (omega arith)
read_loop-total (suc fuel) (suc c ∷ cs) vars h = elim (Option-cases (scan_name cs)) [
  | inl e ↦ ground arith
  | inr ((n, v), e) ↦ elim (Option-cases (scan_value v)) [
    | inl e' ↦ ground arith
    | inr ((p, r), e') ↦ ground (
      arith,
      scan_name-length cs e,
      scan_value-length v e',
      read_loop-total fuel r (
          record {
            name = strndup (suc c ∷ cs) (suc (length n));
            value = strndup v (negated_size (length p));
          }
          ∷ vars),
    )
  ]
]

-- What the loop leaves in the list, however it ends.
abbrev pub result_vars : Parse → List Pair
result_vars (parsed vars) = vars
result_vars (invalid vars) = vars
result_vars no_fuel = []

-- A pair that the scanners find is kept as it stands in the block.
scanned-IsValidPair :
    (c : ℕ) (cs n v p r : Bytes)
    → scan_name cs ≡ some (n, v)
    → scan_value v ≡ some (p, r)
    → length v ≤ 2 ^ 63
    → IsValidPair (record {
      name = strndup (suc c ∷ cs) (suc (length n));
      value = strndup v (negated_size (length p));
    })
scanned-IsValidPair c cs n v p r e e' small =
    let (hn, split) = scan_name_sound cs e in
    let (hp, split') = scan_value_sound v e' in
    let name : strndup (suc c ∷ cs) (suc (length n)) ≡ suc c ∷ n =
      ap (λ x. strndup (suc c ∷ x) (suc (length n))) split
      ∙ strndup_name (suc c ∷ n) (b'=' ∷ v) (omega arith, HasNoNul-tail n hn) in
    let value : strndup v (negated_size (length p)) ≡ p =
      ap (λ x. strndup x (negated_size (length p))) split'
      ∙ strndup-negated_size p r hp (omega (arith, scan_value-length v e')) in
    (subst IsName (sym name) (omega arith, hn), subst HasNoNul (sym value) hp)

read_loop-valid :
    (fuel : ℕ) (rest : Bytes) (vars : List Pair)
    → length rest ≤ 2 ^ 63
    → All IsValidPair vars
    → All IsValidPair (result_vars (read_loop fuel rest vars))
unfolding read_loop
read_loop-valid fuel [] vars small h = h
read_loop-valid fuel (zero ∷ cs) vars small h = h
read_loop-valid zero (suc c ∷ cs) vars small h = tt
read_loop-valid (suc fuel) (suc c ∷ cs) vars small h = elim (Option-cases (scan_name cs)) [
  | inl e ↦ rw (e, read_loop) h
  | inr ((n, v), e) ↦ elim (Option-cases (scan_value v)) [
    | inl e' ↦ rw (e, e', read_loop) h
    | inr ((p, r), e') ↦
        rw (e, e', read_loop)
          (read_loop-valid fuel r _ (omega (arith, scan_name-length cs e, scan_value-length v e'))
            (scanned-IsValidPair c cs n v p r e e' (omega (arith, scan_name-length cs e)), h))
  ]
]

returned_total :
    (env : Env) (r : Parse)
    → r ≢ no_fuel
    → (st : Status) × (env' : Env) × (returned env r ≡ some (st, env'))
      × (env'.env_size ≡ env.env_size)
      × (env'.vars ≡ result_vars r)
returned_total env (parsed vars) h = (success, record env { vars = vars }, refl, refl, refl)
returned_total env (invalid vars) h = (failure, record env { vars = vars }, refl, refl, refl)
returned_total env no_fuel h = absurd (h refl)

-- What `uboot_env_read` ensures of the environment it leaves.
pub record IsRead (env : Env) (buffer : Bytes) (st : Status) (env' : Env) : Type 0 where
  pub same_size : env'.env_size ≡ env.env_size
  pub checked :
      expected_crc32 buffer ≢ crc32buf (body env.env_size buffer)
      → (st ≡ failure) × (env'.vars ≡ [])
  pub valid : All IsValidPair env'.vars

module _ (env : Env) (buffer : Bytes) (big : 4 ≤ env.env_size)
    (inside : env.env_size ≤ length buffer) where
  abbrev data_bytes : Bytes
  data_bytes = body env.env_size buffer

  read_guards : (ltb env.env_size 4 || ltb (length buffer) env.env_size) ≡ false
  read_guards = ground arith

  read-mismatch :
      (expected_crc32 buffer == crc32buf data_bytes) ≡ false
      → uboot_env_read env buffer ≡ some (failure, record env { vars = [] })
  unfolding uboot_env_read
  read-mismatch e = rw (read_guards, e)

  pub read-match :
      (expected_crc32 buffer == crc32buf data_bytes) ≡ true
      → uboot_env_read env buffer
        ≡ returned (record env { vars = [] }) (read_loop (length data_bytes) data_bytes [])
  unfolding uboot_env_read
  read-match e = rw (read_guards, e)

  -- On a buffer of at least `env_size` bytes, from 4 to 2 ^ 63 of them, `uboot_env_read` returns:
  -- it reads inside the buffer and its loop ends. It keeps `env_size`. Where the checksum is wrong
  -- it fails and the list is empty. Whatever it returns, each pair has a name, with no '=' behind its
  -- first byte, and no NUL inside.
  pub uboot_env_read-IsRead :
      env.env_size ≤ 2 ^ 63
      → (st : Status) × (env' : Env) × (uboot_env_read env buffer ≡ some (st, env'))
        × IsRead env buffer st env'
  uboot_env_read-IsRead small = elim (Bool-cases (expected_crc32 buffer == crc32buf data_bytes)) [
    | inl e ↦
        let loop = read_loop (length data_bytes) data_bytes [] in
        let (st, env', run, size, vars) =
          returned_total (record env { vars = [] }) loop
            (read_loop-total _ data_bytes [] (omega arith)) in
        let len : length data_bytes ≤ 2 ^ 63 =
          omega (arith, length-take (env.env_size - 4) (drop 4 buffer)) in
        (
          st,
          env',
          read-match e ∙ run,
          record {
            same_size = size;
            checked = λ ne. absurd (ne ((==_iff _ _).0 e));
            valid = subst (All IsValidPair) (sym vars) (read_loop-valid _ data_bytes [] len tt);
          },
        )
    | inr e ↦ (
      failure,
      record env { vars = [] },
      read-mismatch e,
      record { same_size = refl; checked = λ ne. (refl, refl); valid = tt },
    )
  ]
