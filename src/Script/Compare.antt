-- ===== src/Script/Compare.antt =====
-- Comparing terms.
use nerves_initramfs.Base.{
  ℕ, ◌+◌, true, false, some, ◌≡◌, ◌↔◌, refl, sym, ◌∙◌, ap, arith, Bool-cases, inl, inr, ltb, leb,
  not,
}
use nerves_initramfs.Base.CString.{Bytes, str_eq, str_le, str_eq_iff, str_le_antisymm, str_le_total}
use nerves_initramfs.Base.Int.{
  sub_ℕ, ℤ, pos, negsuc, ◌-ℤ◌, ltb_ℤ, pos_part, neg_part, IsInt, wrap_of_IsInt,
}
use nerves_initramfs.Script.Defs.{number, string}
use nerves_initramfs.Script.Convert.{compare_resolved, strcmp}

sub_negative : (m n : ℕ) → ltb_ℤ (sub_ℕ m n) (pos 0) ≡ ltb m n
sub_negative m n = elim (Bool-cases (leb n m)) [
  | inl e ↦ rw e (ground arith)
  | inr e ↦ rw e (ground arith)
]

sub_zero : (m n : ℕ) → (sub_ℕ m n ≡ pos 0) ↔ (m ≡ n)
sub_zero m n = elim (Bool-cases (leb n m)) [
  | inl e ↦ rw e (λ h. ground arith, λ h. ground arith)
  | inr e ↦ rw e (λ h. ground arith, λ h. ground arith)
]

same_parts : (a b : ℤ) → (pos_part a + neg_part b ≡ neg_part a + pos_part b) ↔ (a ≡ b)
same_parts (pos m) (pos n) = (λ h. ap pos (let e : m ≡ n = omega arith in e), λ h. ground arith)
same_parts (pos m) (negsuc n) = (λ h. ground arith, λ h. ground arith)
same_parts (negsuc m) (pos n) = (λ h. ground arith, λ h. ground arith)
same_parts (negsuc m) (negsuc n) =
    (λ h. ap negsuc (let e : m ≡ n = omega arith in e), λ h. ground arith)

-- Where the difference fits an `int`, comparing numbers gives its sign: negative, zero or positive as
-- the left number is less than, equal to or greater than the right one.
pub compare_numbers :
    (a b : ℤ)
    → IsInt (a -ℤ b)
    → (d : ℤ) × (compare_resolved (number a) (number b) ≡ some d)
      × ((ltb_ℤ d (pos 0) ≡ true) ↔ (ltb_ℤ a b ≡ true))
      × ((d ≡ pos 0) ↔ (a ≡ b))
unfolding compare_resolved ◌-ℤ◌
compare_numbers a b fits =
    let l = pos_part a + neg_part b in
    let r = neg_part a + pos_part b in
    let swap : r ≡ pos_part b + neg_part a = omega arith in
    let sign : ltb_ℤ (sub_ℕ l r) (pos 0) ≡ ltb_ℤ a b = sub_negative l r ∙ ap (ltb l) swap in
    (
      sub_ℕ l r,
      ap some (wrap_of_IsInt (sub_ℕ l r) fits),
      (λ h. sym sign ∙ h, λ h. sign ∙ h),
      (λ h. (same_parts a b).0 ((sub_zero l r).0 h), λ h. (sub_zero l r).1 ((same_parts a b).1 h)),
    )

str_eq_comm : (a b : Bytes) → str_eq a b ≡ str_eq b a
str_eq_comm a b = elim (Bool-cases (str_eq a b)) [
  | inl e ↦ e ∙ sym ((str_eq_iff b a).1 (sym ((str_eq_iff a b).0 e)))
  | inr e ↦ elim (Bool-cases (str_eq b a)) [
    | inl f ↦ (str_eq_iff a b).1 (sym ((str_eq_iff b a).0 f)) ∙ sym f
    | inr f ↦ e ∙ sym f
  ]
]

-- Different strings are in one of the two orders only.
str_le_once : (a b : Bytes) → str_eq a b ≡ false → str_le b a ≡ not (str_le a b)
str_le_once a b differ = elim (Bool-cases (str_le a b)) [
  | inl e ↦ elim (Bool-cases (str_le b a)) [
    | inl f ↦ let same = (str_eq_iff a b).1 (str_le_antisymm a b e f) in absurd (ground arith)
    | inr f ↦ rw (e, f)
  ]
  | inr e ↦ rw (e, str_le_total a b e)
]

-- Strings are compared as `strcmp` orders them: zero exactly for equal strings, and the sign changes
-- when the two are swapped.
compare_strings :
    (a b : Bytes)
    → ((compare_resolved (string a) (string b) ≡ some (pos 0)) ↔ (a ≡ b))
      × ((compare_resolved (string a) (string b) ≡ some (negsuc 0))
          ↔ (compare_resolved (string b) (string a) ≡ some (pos 1)))
unfolding compare_resolved strcmp
compare_strings a b = elim (Bool-cases (str_eq a b)) [
  | inl e ↦
      let e₁ = sym (str_eq_comm a b) ∙ e in
      rw (e, e₁) ((λ h. (str_eq_iff a b).0 e, λ h. refl), (λ h. ground arith, λ h. ground arith))
  | inr e ↦
      let e₁ = sym (str_eq_comm a b) ∙ e in
      let o = str_le_once a b e in
      elim (Bool-cases (str_le a b)) [
        | inl l ↦
            rw (e, e₁, o, l)
              (
                (λ h. ground arith, λ h. let y = (str_eq_iff a b).1 h in ground arith),
                (λ h. refl, λ h. refl),
              )
        | inr l ↦
            rw (e, e₁, o, l)
              (
                (λ h. ground arith, λ h. let y = (str_eq_iff a b).1 h in ground arith),
                (λ h. ground arith, λ h. ground arith),
              )
      ]
]
