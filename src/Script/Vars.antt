-- ===== src/Script/Vars.antt =====
-- The variables as a map.
use nerves_initramfs.Base.{
  ltb, subst, ℕ, ◌+◌, ◌<◌, ◌≤◌, true, false, List, [], ◌∷◌, Option, none, some, if◌then◌else◌, ◌≡◌,
  ◌⊎◌, inl, inr, refl, sym, ap, arith, Bool-cases, Option-cases, length,
}
use nerves_initramfs.Base.CString.{Bytes, str_eq, str_eq_iff}
use nerves_initramfs.Script.Defs.{Term, Variable}
use nerves_initramfs.Script.Machine.{
  State, Platform, Outcome, ok, stop, fatal, alloc_heap, alloc_string, heap_size, round_up,
}
use nerves_initramfs.Script.Value.{get_variable_impl, overwrite, store_value, set_variable}

-- The value that a name is bound to, which may be NULL; `none` if it is not bound.
unfoldable pub value_of : List Variable → Bytes → Option (Option Term)
value_of [] name = none
value_of (v ∷ vs) name = if str_eq v.name name then some v.value else value_of vs name

pub value_of_found :
    (vs : List Variable) (name : Bytes) {v : Variable}
    → get_variable_impl vs name ≡ some v
    → value_of vs name ≡ some v.value
unfolding get_variable_impl value_of
value_of_found [] name h = ground arith
value_of_found (v ∷ vs) name h = elim (Bool-cases (str_eq v.name name)) [
  | inl e ↦ let same = rw (e, get_variable_impl) at h in rw e (ground (arith, same))
  | inr e ↦ rw e (value_of_found vs name (rw (e, get_variable_impl) at h))
]

pub value_of_absent :
    (vs : List Variable) (name : Bytes) → get_variable_impl vs name ≡ none → value_of vs name ≡ none
unfolding get_variable_impl value_of
value_of_absent [] name h = refl
value_of_absent (v ∷ vs) name h = ground (arith, value_of_absent vs name)

value_of-overwrite :
    (vs : List Variable) (name : Bytes) (value : Option Term) {w : Option Term}
    → value_of vs name ≡ some w
    → value_of (overwrite vs name value) name ≡ some value
unfolding value_of overwrite
value_of-overwrite [] name value h = ground arith
value_of-overwrite (v ∷ vs) name value h = elim (Bool-cases (str_eq v.name name)) [
  | inl e ↦ rw (e, overwrite) (rw e refl)
  | inr e ↦ rw (e, overwrite) (rw e (value_of-overwrite vs name value (rw (e, value_of) at h)))
]

str_eq_differs : (a b c : Bytes) → str_eq a b ≡ true → str_eq b c ≡ false → str_eq a c ≡ false
str_eq_differs a b c h k = let same : a ≡ b = (str_eq_iff a b).0 h in rw same k

value_of-overwrite_other :
    (vs : List Variable) (name other : Bytes) (value : Option Term)
    → str_eq name other ≡ false
    → value_of (overwrite vs name value) other ≡ value_of vs other
unfolding value_of overwrite
value_of-overwrite_other [] name other value h = refl
value_of-overwrite_other (v ∷ vs) name other value h = elim (Bool-cases (str_eq v.name name)) [
  | inl e ↦ let f = str_eq_differs v.name name other e h in rw (e, overwrite) (rw f)
  | inr e ↦ rw (e, overwrite) (ground (arith, value_of-overwrite_other vs name other value h))
]

-- The second list binds the name to the value, and every other name as the first does.
pub record Binds (vs vs' : List Variable) (name : Bytes) (value : Option Term) : Type 0 where
  pub bound : value_of vs' name ≡ some value
  pub others : (other : Bytes) → str_eq name other ≡ false → value_of vs' other ≡ value_of vs other

pub overwrite-Binds :
    (vs : List Variable) (name : Bytes) (value : Option Term) {v : Variable}
    → get_variable_impl vs name ≡ some v
    → Binds vs (overwrite vs name value) name value
overwrite-Binds vs name value h = record {
  bound = value_of-overwrite vs name value (value_of_found vs name h);
  others = λ other k. value_of-overwrite_other vs name other value k;
}

pub push-Binds :
    (vs : List Variable) (name : Bytes) (value : Option Term)
    → Binds vs (record { name = name; value = value } ∷ vs) name value
unfolding value_of
push-Binds vs name value = record {
  bound = rw ((str_eq_iff name name).1 refl);
  others = λ other k. rw k;
}

-- The end of the copy of a name on the heap, behind a term.
abbrev pub end_of_name : {W : Type 0} → ℕ → State W → Bytes → ℕ
end_of_name term_size s name = round_up (s.heap_index + term_size) + (length name + 1)

-- What `set_variable` may do: bind the name to the value and change no other binding, for a name that
-- is new with room on the heap, or end the program over a heap without room for a new name, with the
-- variables as they were.
abbrev pub Stored :
    {W : Type 0} → ℕ → State W → Bytes → Option Term → Outcome (Unit {0}) × State W → Type 0
Stored term_size s name value after =
    ((after.0 ≡ stop fatal)
      × (after.1.variables ≡ s.variables)
      × (value_of s.variables name ≡ none)
      × (heap_size < end_of_name term_size s name))
    ⊎ ((after.0 ≡ ok tt)
        × Binds s.variables after.1.variables name value
        × (value_of s.variables name ≡ none → end_of_name term_size s name ≤ heap_size))

module _ {W Fd : Type 0} (p : Platform W Fd) where
  -- An allocation ends the program where the heap has no room, and moves the index where it has.
  pub alloc_cases :
      (n : ℕ) (s : State W)
      → ((heap_size < s.heap_index + n) × (alloc_heap n s ≡ (stop fatal, s)))
        ⊎ ((s.heap_index + n ≤ heap_size)
            × (alloc_heap n s
                ≡ (ok s.heap_index, record s { heap_index = round_up (s.heap_index + n) })))
  unfolding alloc_heap
  alloc_cases n s = elim (Bool-cases (ltb heap_size (s.heap_index + n))) [
    | inl e ↦ inl (ground (arith, e), rw e)
    | inr e ↦ inr (ground (arith, e), rw e)
  ]

  store_value-Stored :
      (name : Bytes) (value : Option Term) (s : State W)
      → value_of s.variables name ≡ none
      → Stored p.term_size s name value (store_value p name value none s)
  unfolding store_value alloc_string
  store_value-Stored name value s new = elim (alloc_cases p.term_size s) [
    | inl (full, a) ↦ rw a (inl (refl, refl, new, omega (arith, full)))
    | inr (fits, a) ↦
        elim (alloc_cases (length name + 1)
          (record s { heap_index = round_up (s.heap_index + p.term_size) })) [
            | inl (full, b) ↦ rw (a, b) (inl (refl, refl, new, full))
            | inr (fits', b) ↦ rw (a, b) (inr (refl, push-Binds s.variables name value, λ _. fits'))
          ]
  ]

  -- `set_variable` binds the name to the value and changes no other binding; for a name that is not
  -- bound that takes a heap with room for a term and, behind it, the name. Without that room it ends
  -- the program, with the variables as they were.
  pub set_variable-Stored :
      (name : Bytes) (value : Option Term) (s : State W)
      → Stored p.term_size s name value (set_variable p name value s)
  unfolding set_variable
  set_variable-Stored name value s = elim (Option-cases (get_variable_impl s.variables name)) [
    | inl e ↦
        let step : set_variable p name value s ≡ store_value p name value none s =
          ap (λ o. store_value p name value o s) e in
        subst (Stored p.term_size s name value) (sym step)
          (store_value-Stored name value s (value_of_absent s.variables name e))
    | inr (v, e) ↦
        let step : set_variable p name value s ≡ store_value p name value (some v) s =
          ap (λ o. store_value p name value o s) e in
        let bound = value_of_found s.variables name e in
        subst (Stored p.term_size s name value) (sym step) (
          inr (
            unfold store_value in refl,
            unfold store_value in overwrite-Binds s.variables name value e,
            λ absent. ground (arith, bound, absent),
          ))
  ]
