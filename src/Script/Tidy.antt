-- ===== src/Script/Tidy.antt =====
-- The variables as a collection needs them, and that setting one keeps them so.
use nerves_initramfs.Base.{
  ℕ, ◌+◌, ◌≤◌, false, List, [], ◌∷◌, Option, none, some, ◌≡◌, refl, sym, arith, Bool-cases, inl,
  inr, length, All,
}
use nerves_initramfs.Base.CString.{Bytes, str_eq, str_eq_iff}
use nerves_initramfs.Script.Defs.{Term, Variable}
use nerves_initramfs.Script.Machine.{Platform, round_up}
use nerves_initramfs.Script.Value.{get_variable_impl, overwrite}
use nerves_initramfs.Script.Gc.{IsValue, IsKept, IsDistinct, dupe_bytes, value_bytes, gc_bytes}

str_eq_flipped : (a b : Bytes) → str_eq a b ≡ false → str_eq b a ≡ false
str_eq_flipped a b h = elim (Bool-cases (str_eq b a)) [
  | inr e ↦ e
  | inl e ↦ absurd (ground (arith, (str_eq_iff a b).1 (sym ((str_eq_iff b a).0 e))))
]

absent_differs :
    (vs : List Variable) (name : Bytes)
    → get_variable_impl vs name ≡ none
    → All (λ w. str_eq name w.name ≡ false) vs
unfolding get_variable_impl
absent_differs [] name h = tt
absent_differs (v ∷ vs) name h = elim (Bool-cases (str_eq v.name name)) [
  | inl e ↦ absurd (ground arith)
  | inr e ↦ (str_eq_flipped v.name name e, absent_differs vs name (rw (e, get_variable_impl) at h))
]

overwrite_differs :
    (vs : List Variable) (name other : Bytes) (value : Option Term)
    → All (λ w. str_eq other w.name ≡ false) vs
    → All (λ w. str_eq other w.name ≡ false) (overwrite vs name value)
unfolding overwrite
overwrite_differs [] name other value h = tt
overwrite_differs (v ∷ vs) name other value (h, hs) = elim (Bool-cases (str_eq v.name name)) [
  | inl e ↦ rw (e, overwrite) (h, hs)
  | inr e ↦ rw (e, overwrite) (h, overwrite_differs vs name other value hs)
]

overwrite-IsDistinct :
    (vs : List Variable) (name : Bytes) (value : Option Term)
    → IsDistinct vs
    → IsDistinct (overwrite vs name value)
unfolding overwrite IsDistinct
overwrite-IsDistinct [] name value h = tt
overwrite-IsDistinct (v ∷ vs) name value (h, hs) = elim (Bool-cases (str_eq v.name name)) [
  | inl e ↦ rw (e, overwrite) (h, hs)
  | inr e ↦
      rw (e, overwrite)
        (overwrite_differs vs name v.name value h, overwrite-IsDistinct vs name value hs)
]

overwrite-IsKept :
    (vs : List Variable) (name : Bytes) (t : Term)
    → IsValue t
    → All IsKept vs
    → All IsKept (overwrite vs name (some t))
unfolding overwrite
overwrite-IsKept [] name t is h = tt
overwrite-IsKept (v ∷ vs) name t is (h, hs) = elim (Bool-cases (str_eq v.name name)) [
  | inl e ↦ rw (e, overwrite) ((t, refl, is), hs)
  | inr e ↦ rw (e, overwrite) (h, overwrite-IsKept vs name t is hs)
]

module _ {W Fd : Type 0} (p : Platform W Fd) where
  overwrite_bytes :
      (vs : List Variable) (name : Bytes) (t : Term)
      → gc_bytes p (overwrite vs name (some t)) ≤ gc_bytes p vs + dupe_bytes p t
  unfolding overwrite gc_bytes value_bytes
  overwrite_bytes [] name t = omega arith
  overwrite_bytes (v ∷ vs) name t = elim (Bool-cases (str_eq v.name name)) [
    | inl e ↦ rw (e, overwrite) (omega arith)
    | inr e ↦ let rest = overwrite_bytes vs name t in rw (e, overwrite) (omega (arith, rest))
  ]

  -- No name is bound twice, each value is neither NULL nor a call, and copies of all fit some bytes.
  pub record Tidy (bytes : ℕ) (vs : List Variable) : Type 0 where
    pub kept : All IsKept vs
    pub distinct : IsDistinct vs
    pub small : gc_bytes p vs ≤ bytes

  pub wider :
      (vs : List Variable) (bytes bytes' : ℕ) → bytes ≤ bytes' → Tidy bytes vs → Tidy bytes' vs
  wider vs bytes bytes' h tidy = record {
    kept = tidy.kept;
    distinct = tidy.distinct;
    small = let s = tidy.small in omega (arith, s, h);
  }

  pub push-Tidy :
      (bytes : ℕ) (vs : List Variable) (name : Bytes) (t : Term)
      → get_variable_impl vs name ≡ none
      → IsValue t
      → Tidy bytes vs
      → Tidy
          (bytes + (dupe_bytes p t + (round_up p.term_size + round_up (length name + 1))))
          (record { name = name; value = some t } ∷ vs)
  unfolding IsDistinct gc_bytes value_bytes
  push-Tidy bytes vs name t absent is tidy = record {
    kept = ((t, refl, is), tidy.kept);
    distinct = (absent_differs vs name absent, tidy.distinct);
    small = let s = tidy.small in omega (arith, s);
  }

  pub overwrite-Tidy :
      (bytes more : ℕ) (vs : List Variable) (name : Bytes) (t : Term)
      → IsValue t
      → Tidy bytes vs
      → Tidy (bytes + (dupe_bytes p t + more)) (overwrite vs name (some t))
  overwrite-Tidy bytes more vs name t is tidy = record {
    kept = overwrite-IsKept vs name t is tidy.kept;
    distinct = overwrite-IsDistinct vs name (some t) tidy.distinct;
    small = let s = tidy.small in omega (arith, s, overwrite_bytes vs name t);
  }
