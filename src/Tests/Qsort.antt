-- ===== src/Tests/Qsort.antt =====
-- A `qsort` that meets what the C standard asks of it: insertion sort.
use mathlib.Core.List.{Permᴰ}
use mathlib.Core.List.Permᴰ
use nerves_initramfs.Base.{
  Bool, true, false, List, [], ◌∷◌, ◌≡◌, refl, if◌then◌else◌, Bool-cases, inl, inr, All,
}
use nerves_initramfs.UbootEnv.Order.{IsSorted, Sorts}

module _ {ℓ} {A : Type ℓ} (le : A → A → Bool) where
  abbrev pub insert_sorted : A → List A → List A
  insert_sorted x [] = x ∷ []
  insert_sorted x (y ∷ ys) =
      let rest = insert_sorted x ys in if le x y then x ∷ y ∷ ys else y ∷ rest

  abbrev pub insertion_qsort : List A → List A
  insertion_qsort [] = []
  insertion_qsort (x ∷ xs) = insert_sorted x (insertion_qsort xs)

  insert_perm : (x : A) (ys : List A) → Permᴰ (insert_sorted x ys) (x ∷ ys)
  insert_perm x [] = Permᴰ.refl (x ∷ [])
  insert_perm x (y ∷ ys) = elim (Bool-cases (le x y)) [
    | inl e ↦ rw e (Permᴰ.refl (x ∷ y ∷ ys))
    | inr e ↦ rw e (Permᴰ.trans (Permᴰ.cons refl (insert_perm x ys)) (Permᴰ.swap refl refl))
  ]

  sort_perm : (xs : List A) → Permᴰ (insertion_qsort xs) xs
  sort_perm [] = Permᴰ.nil
  sort_perm (x ∷ xs) =
      Permᴰ.trans (insert_perm x (insertion_qsort xs)) (Permᴰ.cons refl (sort_perm xs))

  module _ (total : (x y : A) → le x y ≡ false → le y x ≡ true)
      (trans : (x y z : A) → le x y ≡ true → le y z ≡ true → le x z ≡ true) where
    below_insert :
        (w x : A) (ys : List A)
        → le w x ≡ true
        → All (λ y. le w y ≡ true) ys
        → All (λ y. le w y ≡ true) (insert_sorted x ys)
    below_insert w x [] h hs = (h, tt)
    below_insert w x (y ∷ ys) h hs = elim (Bool-cases (le x y)) [
      | inl e ↦ rw e (h, hs)
      | inr e ↦ rw e (hs.0, below_insert w x ys h hs.1)
    ]

    below_trans :
        (w x : A) (ys : List A)
        → le w x ≡ true
        → All (λ y. le x y ≡ true) ys
        → All (λ y. le w y ≡ true) ys
    below_trans w x [] h hs = tt
    below_trans w x (y ∷ ys) h hs = (trans w x y h hs.0, below_trans w x ys h hs.1)

    insert_IsSorted : (x : A) (ys : List A) → IsSorted le ys → IsSorted le (insert_sorted x ys)
    insert_IsSorted x [] s = (tt, tt)
    insert_IsSorted x (y ∷ ys) s = elim (Bool-cases (le x y)) [
      | inl e ↦ rw e ((e, below_trans x y ys e s.0), s)
      | inr e ↦ rw e (below_insert y x ys (total x y e) s.0, insert_IsSorted x ys s.1)
    ]

    sort_IsSorted : (xs : List A) → IsSorted le (insertion_qsort xs)
    sort_IsSorted [] = tt
    sort_IsSorted (x ∷ xs) = insert_IsSorted x (insertion_qsort xs) (sort_IsSorted xs)

pub insertion-Sorts {ℓ} : {A : Type ℓ} → Sorts {A = A} insertion_qsort
insertion-Sorts = record {
  rearranges = λ le xs. sort_perm le xs;
  ascending = λ le total trans xs. sort_IsSorted le total trans xs;
}
