-- ===== src/UbootEnv/Access.antt =====
-- What `uboot_env_setenv`, `uboot_env_unsetenv` and `uboot_env_getenv` do to the map from names to
-- values that the list of pairs stands for.
use nerves_initramfs.Base.{
  true, false, List, [], ◌∷◌, Option, none, some, ◌≡◌, refl, subst, arith, if◌then◌else◌,
  Bool-cases, Option-cases, inl, inr,
}
use nerves_initramfs.Base.CString.{Bytes, str_eq, str_eq_iff}
use nerves_initramfs.UbootEnv.Defs.{
  Pair, Env, success, replace, unlink, find_value, uboot_env_setenv, uboot_env_unsetenv,
  uboot_env_getenv,
}

-- No two pairs have one name: no name is found again behind its own pair.
abbrev pub IsDistinct : List Pair → Type 0
IsDistinct [] = Unit
IsDistinct (pair ∷ vars) = (find_value vars pair.name ≡ none) × IsDistinct vars

pub str_eq_refl : (a : Bytes) → str_eq a a ≡ true
str_eq_refl a = (str_eq_iff a a).1 refl

find_value-replace :
    (k j v : Bytes) (vars : List Pair) {vars' : List Pair}
    → replace k v vars ≡ some vars'
    → find_value vars' j ≡ (if str_eq k j then some v else find_value vars j)
unfolding find_value replace
find_value-replace k j v [] h = ground arith
find_value-replace k j v (p ∷ vars) h = elim (Option-cases (replace k v vars)) [
  | inl e ↦ ground (arith, str_eq_iff p.name k)
  | inr (w, e) ↦ ground (
    arith,
    str_eq_iff p.name k,
    str_eq_iff p.name j,
    str_eq_iff k j,
    find_value-replace k j v vars e,
  )
]

replace-none : (k v : Bytes) (vars : List Pair) → replace k v vars ≡ none → find_value vars k ≡ none
unfolding find_value replace
replace-none k v [] h = refl
replace-none k v (p ∷ vars) h = ground (arith, replace-none k v vars)

-- After `uboot_env_setenv` the name has the new value and every other name the value that it had.
pub getenv-setenv :
    (env : Env) (k v j : Bytes)
    → find_value (uboot_env_setenv env k v).1.vars j
      ≡ (if str_eq k j then some v else find_value env.vars j)
unfolding uboot_env_setenv find_value
getenv-setenv env k v j = elim (Option-cases (replace k v env.vars)) [
  | inl e ↦ ground arith
  | inr (w, e) ↦ ground (arith, find_value-replace k j v env.vars e)
]

pub setenv_success :
    (env : Env) (name value : Bytes) → (uboot_env_setenv env name value).0 ≡ success
unfolding uboot_env_setenv
setenv_success env name value = elim (Option-cases (replace name value env.vars)) [
  | inl e ↦ ground arith
  | inr (w, e) ↦ ground arith
]

abbrev DistinctIf : Option (List Pair) → Type 0
DistinctIf none = Unit
DistinctIf (some vars) = IsDistinct vars

replace-IsDistinct :
    (k v : Bytes) (vars : List Pair) → IsDistinct vars → DistinctIf (replace k v vars)
unfolding replace
replace-IsDistinct k v [] d = tt
replace-IsDistinct k v (p ∷ vars) d = elim (Bool-cases (str_eq p.name k)) [
  | inl e ↦ rw e d
  | inr e ↦ elim (Option-cases (replace k v vars)) [
    | inl e' ↦ rw (e, e') tt
    | inr (w, e') ↦
        rw (e, e')
          (
            ground (
              arith,
              find_value-replace k p.name v vars e',
              str_eq_iff p.name k,
              str_eq_iff k p.name,
            ),
            subst DistinctIf e' (replace-IsDistinct k v vars d.1),
          )
  ]
]

-- Setting a variable does not make two pairs of one name where there were none.
setenv-IsDistinct :
    (env : Env) (k v : Bytes) → IsDistinct env.vars → IsDistinct (uboot_env_setenv env k v).1.vars
unfolding uboot_env_setenv
setenv-IsDistinct env k v d = elim (Option-cases (replace k v env.vars)) [
  | inl e ↦ rw (e, IsDistinct) (replace-none k v env.vars e, d)
  | inr (w, e) ↦ rw (e, IsDistinct) (subst DistinctIf e (replace-IsDistinct k v env.vars d))
]

find_value-unlink_ne :
    (k j : Bytes) (vars : List Pair)
    → str_eq k j ≡ false
    → find_value (unlink k vars) j ≡ find_value vars j
unfolding find_value unlink
find_value-unlink_ne k j [] h = refl
find_value-unlink_ne k j (p ∷ vars) h =
    ground (
      arith,
      str_eq_iff p.name k,
      str_eq_iff p.name j,
      str_eq_iff k j,
      find_value-unlink_ne k j vars,
    )

find_value-unlink_self :
    (k : Bytes) (vars : List Pair) → IsDistinct vars → find_value (unlink k vars) k ≡ none
unfolding find_value unlink
find_value-unlink_self k [] d = refl
find_value-unlink_self k (p ∷ vars) d =
    ground (arith, str_eq_iff p.name k, find_value-unlink_self k vars)

unlink-IsDistinct : (k : Bytes) (vars : List Pair) → IsDistinct vars → IsDistinct (unlink k vars)
unfolding unlink
unlink-IsDistinct k [] d = tt
unlink-IsDistinct k (p ∷ vars) d = elim (Bool-cases (str_eq p.name k)) [
  | inl e ↦ rw e d.1
  | inr e ↦ rw e (
    ground (arith, find_value-unlink_ne k p.name vars, str_eq_iff p.name k, str_eq_iff k p.name),
    unlink-IsDistinct k vars d.1,
  )
]

-- Where no name stands twice, `uboot_env_unsetenv` removes the name, every other name has the
-- value that it had, and still no name stands twice.
pub getenv-unsetenv :
    (env : Env) (k : Bytes)
    → IsDistinct env.vars
    → IsDistinct (uboot_env_unsetenv env k).1.vars
      × ((j : Bytes)
          → find_value (uboot_env_unsetenv env k).1.vars j
            ≡ (if str_eq k j then none else find_value env.vars j))
unfolding uboot_env_unsetenv
getenv-unsetenv env k d = (
  unlink-IsDistinct k env.vars d,
  λ j. elim (Bool-cases (str_eq k j)) [
    | inl e ↦ ground (arith, str_eq_iff k j, find_value-unlink_self k env.vars)
    | inr e ↦ ground (arith, find_value-unlink_ne k j env.vars)
  ],
)

-- `uboot_env_getenv` answers from `find_value` alone.
pub getenv_cong :
    (env env' : Env) (name : Bytes)
    → find_value env.vars name ≡ find_value env'.vars name
    → uboot_env_getenv env name ≡ uboot_env_getenv env' name
unfolding uboot_env_getenv
getenv_cong env env' name e = ground arith
