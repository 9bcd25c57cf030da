-- ===== src/UbootEnv/Order.antt =====
-- `uboot_env_sort`: what it asks of the C library's `qsort`, and that the sorted list is determined
-- by the map from names to values.
use mathlib.Core.List.{Permᴰ}
use mathlib.Core.List.Permᴰ
use nerves_initramfs.Base.{
  ℕ, suc, Bool, true, false, List, [], ◌∷◌, none, some, ◌≡◌, refl, sym, ◌∙◌, ap, ap₂, arith,
  Bool-cases, inl, inr, All, ◌==◌, length,
}
use nerves_initramfs.Base.CString.{
  Bytes, str_eq, str_eq_iff, str_le, str_le_total, str_le_trans, str_le_antisymm, str_le_refl,
}
use nerves_initramfs.UbootEnv.Defs.{Pair, Env, find_value, env_name_compare, uboot_env_sort}
use nerves_initramfs.UbootEnv.Access.{IsDistinct, str_eq_refl}

-- Each element is at most those behind it.
abbrev pub IsSorted {ℓ} : {A : Type ℓ} → (A → A → Bool) → List A → Type 0
IsSorted le [] = Unit
IsSorted le (x ∷ xs) = All (λ y. le x y ≡ true) xs × IsSorted le xs

-- `qsort` as the C standard has it: the result is a rearrangement of the array, and ascending if
-- the comparison is total and transitive. The order of equal elements is left open.
pub record Sorts {ℓ} {A : Type ℓ} (qsort : (A → A → Bool) → List A → List A) : Type ℓ where
  pub rearranges : (le : A → A → Bool) (xs : List A) → Permᴰ (qsort le xs) xs
  pub ascending :
      (le : A → A → Bool)
      → ((x y : A) → le x y ≡ false → le y x ≡ true)
      → ((x y z : A) → le x y ≡ true → le y z ≡ true → le x z ≡ true)
      → (xs : List A) → IsSorted le (qsort le xs)

-- A rearrangement of pairs with distinct names has distinct names and the same values.
pub find_value-perm :
    {l r : List Pair}
    → Permᴰ l r
    → IsDistinct l
    → IsDistinct r × ((k : Bytes) → find_value l k ≡ find_value r k)
unfolding find_value
find_value-perm Permᴰ.nil d = (tt, λ k. refl)
find_value-perm (Permᴰ.cons {a} {b} {l₁ = l} {l₂ = r} e p) d =
    let (dr, same) = find_value-perm p d.1 in
    (
      (sym (same b.name) ∙ ap (λ (x : Pair). find_value l x.name) (sym e) ∙ d.0, dr),
      λ k. ground (arith, same k),
    )
find_value-perm (Permᴰ.swap {a} {b} {a' = c} {b' = f} {l} p q) d =
    let ne : str_eq f.name c.name ≡ false =
      ground (arith, str_eq_iff f.name c.name, str_eq_iff b.name a.name) in
    (
      (ground arith, (ground arith, d.1.1)),
      λ k. ground (arith, str_eq_iff a.name k, str_eq_iff b.name k, str_eq_iff f.name c.name),
    )
find_value-perm (Permᴰ.trans p q) d =
    let (dm, same) = find_value-perm p d in
    let (dr, same') = find_value-perm q dm in (dr, λ k. same k ∙ same' k)

-- The environment's order is a total order on names.
compare_total : (x y : Pair) → env_name_compare x y ≡ false → env_name_compare y x ≡ true
unfolding env_name_compare
compare_total x y h = str_le_total x.name y.name h

compare_trans :
    (x y z : Pair)
    → env_name_compare x y ≡ true
    → env_name_compare y z ≡ true
    → env_name_compare x z ≡ true
unfolding env_name_compare
compare_trans x y z h k = str_le_trans x.name y.name z.name h k

find_value-le :
    (n k v : Bytes) (l : List Pair)
    → All (λ (y : Pair). str_le n y.name ≡ true) l
    → find_value l k ≡ some v
    → str_le n k ≡ true
unfolding find_value
find_value-le n k v [] h e = ground arith
find_value-le n k v (p ∷ l) h e = ground (arith, str_eq_iff p.name k, find_value-le n k v l)

-- Two ascending lists with distinct names and the same values are one list.
pub sorted_unique :
    (l r : List Pair)
    → IsSorted env_name_compare l
    → IsSorted env_name_compare r
    → IsDistinct l
    → IsDistinct r
    → ((k : Bytes) → find_value l k ≡ find_value r k)
    → l ≡ r
unfolding find_value env_name_compare
sorted_unique [] [] sl sr dl dr same = refl
sorted_unique [] (b ∷ r) sl sr dl dr same = ground (arith, same b.name, str_eq_refl b.name)
sorted_unique (a ∷ l) [] sl sr dl dr same = ground (arith, same a.name, str_eq_refl a.name)
sorted_unique (a ∷ l) (b ∷ r) sl sr dl dr same =
    let fb : find_value (a ∷ l) b.name ≡ some b.value = same b.name ∙ rw (str_eq_refl b.name) in
    let fa : find_value (b ∷ r) a.name ≡ some a.value =
      sym (same a.name) ∙ rw (str_eq_refl a.name) in
    let names : a.name ≡ b.name =
      str_le_antisymm a.name b.name
        (find_value-le a.name b.name b.value (a ∷ l) (str_le_refl a.name, sl.0) fb)
        (find_value-le b.name a.name a.value (b ∷ r) (str_le_refl b.name, sr.0) fa) in
    let heads : a ≡ b = ground (arith, str_eq_iff b.name a.name) in
    ap₂ ◌∷◌ heads (
      sorted_unique l r sl.1 sr.1 dl.1 dr.1 (λ k. elim (Bool-cases (str_eq a.name k)) [
        | inl e ↦ ground (arith, str_eq_iff a.name k)
        | inr e ↦ ground (arith, str_eq_iff a.name k, str_eq_iff b.name k, same k)
      ]))

-- The names ascend: each is below all names behind it, byte for byte.
abbrev pub Ascends : List Pair → Type 0
Ascends [] = Unit
Ascends (x ∷ xs) =
    All (λ y. (str_le x.name y.name ≡ true) × (str_eq x.name y.name ≡ false)) xs × Ascends xs

below_names :
    (n : Bytes) (l : List Pair)
    → All (λ y. str_le n y.name ≡ true) l
    → find_value l n ≡ none
    → All (λ y. (str_le n y.name ≡ true) × (str_eq n y.name ≡ false)) l
unfolding find_value
below_names n [] h absent = tt
below_names n (y ∷ l) (h, hs) absent = elim (Bool-cases (str_eq y.name n)) [
  | inl e ↦ absurd (ground arith)
  | inr e ↦ (
    (h, ground (arith, str_eq_iff n y.name, str_eq_iff y.name n)),
    below_names n l hs (rw (e, find_value) at absent),
  )
]

sorted-Ascends : (l : List Pair) → IsSorted env_name_compare l → IsDistinct l → Ascends l
unfolding env_name_compare
sorted-Ascends [] h d = tt
sorted-Ascends (x ∷ l) (h, hs) (absent, d) = (below_names x.name l h absent, sorted-Ascends l hs d)

module _ (qsort : (Pair → Pair → Bool) → List Pair → List Pair) (sorts : Sorts qsort) where
  pub sort_vars :
      (size : ℕ) (vars : List Pair)
      → Permᴰ (uboot_env_sort qsort (record { env_size = size; vars = vars })).vars vars
        × IsSorted env_name_compare
            (uboot_env_sort qsort (record { env_size = size; vars = vars })).vars
  unfolding uboot_env_sort
  sort_vars size [] = (Permᴰ.nil, tt)
  sort_vars size (x ∷ xs) =
      let e : (suc (length xs) == 0) ≡ false = ground arith in
      rw e (
        sorts.rearranges env_name_compare (x ∷ xs),
        sorts.ascending env_name_compare compare_total compare_trans (x ∷ xs),
      )

  -- sorted, with the order that the code compares by
  pub sort-IsSorted :
      (env : Env)
      → IsDistinct env.vars
      → IsSorted env_name_compare (uboot_env_sort qsort env).vars
        × IsDistinct (uboot_env_sort qsort env).vars
        × ((k : Bytes) → find_value (uboot_env_sort qsort env).vars k ≡ find_value env.vars k)
  sort-IsSorted env d =
      let (p, s) = sort_vars env.env_size env.vars in
      let (d', same) = find_value-perm (Permᴰ.symm p) d in (s, d', λ k. sym (same k))

  -- Where no name stands twice, `uboot_env_sort` keeps every value, leaves no name twice and makes
  -- the names ascend byte for byte: each comes before all names behind it, and differs from them.
  pub sort-keeps :
      (env : Env)
      → IsDistinct env.vars
      → Ascends (uboot_env_sort qsort env).vars
        × IsDistinct (uboot_env_sort qsort env).vars
        × ((k : Bytes) → find_value (uboot_env_sort qsort env).vars k ≡ find_value env.vars k)
  sort-keeps env d =
      let (s, d', same) = sort-IsSorted env d in
      (sorted-Ascends (uboot_env_sort qsort env).vars s d', d', same)

pub sort_shape :
    (qsort : (Pair → Pair → Bool) → List Pair → List Pair) (env : Env)
    → uboot_env_sort qsort env
      ≡ record { env_size = env.env_size; vars = (uboot_env_sort qsort env).vars }
unfolding uboot_env_sort
sort_shape qsort env = ground arith
