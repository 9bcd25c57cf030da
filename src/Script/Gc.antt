-- ===== src/Script/Gc.antt =====
-- The collection: what it needs and what it keeps.
use nerves_initramfs.Base.{
  ℕ, ◌+◌, ◌%◌, ◌≤◌, true, false, List, [], ◌∷◌, Option, none, some, ◌≡◌, ◌≢◌, refl, sym, ◌∙◌, ap,
  arith, Bool-cases, inl, inr, length, All,
}
use nerves_initramfs.Base.CString.{Bytes, str_eq, str_eq_iff}
use nerves_initramfs.Script.Defs.{Term, identifier, string, number, boolean, fun, Variable}
use nerves_initramfs.Script.Machine.{
  State, Platform, ok, alloc_heap, alloc_string, round_up, heap_size, term_new_identifier,
  term_new_string, term_new_number, term_new_boolean,
}
use nerves_initramfs.Script.Value.{
  get_variable_impl, set_variable, store_value, term_dupe, gc_loop, term_gc_heap,
}
use nerves_initramfs.Script.Heap.{alloc_heap_fits}
use nerves_initramfs.Script.Vars.{value_of}

-- A variable with a value that is not NULL and not a call.
abbrev pub IsValue : Term → Type 0
IsValue (fun f parameters) = ⊥
IsValue _ = Unit {0}

abbrev pub IsKept : Variable → Type 0
IsKept v = (t : Term) × (v.value ≡ some t) × IsValue t

module _ {W Fd : Type 0} (p : Platform W Fd) where
  -- what a copy takes of the heap
  unfoldable pub dupe_bytes : Term → ℕ
  dupe_bytes (identifier n) = round_up p.term_size + round_up (length n + 1)
  dupe_bytes (string s) = round_up p.term_size + round_up (length s + 1)
  dupe_bytes (number n) = round_up p.term_size
  dupe_bytes (boolean b) = round_up p.term_size
  dupe_bytes (fun f parameters) = 0

  -- a term, and a string behind it
  pub two_blocks :
      (str : Bytes) (s : State W)
      → s.heap_index % 8 ≡ 0
      → s.heap_index + (round_up p.term_size + round_up (length str + 1)) ≤ heap_size
      → let next = record s { heap_index = s.heap_index + round_up p.term_size } in
        (alloc_heap p.term_size s ≡ (ok s.heap_index, next))
        × (alloc_heap (length str + 1) next ≡ (
          ok next.heap_index,
          record s { heap_index = s.heap_index + round_up p.term_size + round_up (length str + 1) },
        ))
        × (s.heap_index + round_up p.term_size + round_up (length str + 1)
            ≡ s.heap_index + (round_up p.term_size + round_up (length str + 1)))
  two_blocks str s aligned fits =
      let next = record s { heap_index = s.heap_index + round_up p.term_size } in
      (
        alloc_heap_fits p.term_size s aligned (omega arith),
        alloc_heap_fits (length str + 1) next (omega arith) (omega arith),
        omega arith,
      )

  pub dupe_fits :
      (t : Term) (s : State W)
      → IsValue t
      → s.heap_index % 8 ≡ 0
      → s.heap_index + dupe_bytes t ≤ heap_size
      → term_dupe p t s ≡ (ok (some t), record s { heap_index = s.heap_index + dupe_bytes t })
  unfolding term_dupe term_new_identifier term_new_string term_new_number term_new_boolean
      alloc_string dupe_bytes
  dupe_fits (number n) s v aligned fits = rw (alloc_heap_fits p.term_size s aligned fits)
  dupe_fits (boolean b) s v aligned fits = rw (alloc_heap_fits p.term_size s aligned fits)
  dupe_fits (identifier n) s v aligned fits =
      let (a, b, sum) = two_blocks n s aligned fits in rw (a, b, sum)
  dupe_fits (string n) s v aligned fits =
      let (a, b, sum) = two_blocks n s aligned fits in rw (a, b, sum)
  dupe_fits (fun f parameters) s v aligned fits = absurd v

  unfoldable pub value_bytes : Option Term → ℕ
  value_bytes none = 0
  value_bytes (some t) = dupe_bytes t

  pub dupe_aligned : (t : Term) (i : ℕ) → i % 8 ≡ 0 → (i + dupe_bytes t) % 8 ≡ 0
  unfolding dupe_bytes
  dupe_aligned (identifier n) i h = omega arith
  dupe_aligned (string n) i h = omega arith
  dupe_aligned (number n) i h = omega arith
  dupe_aligned (boolean n) i h = omega arith
  dupe_aligned (fun f parameters) i h = omega arith

  -- What the copies of the variables take of the heap.
  unfoldable pub gc_bytes : List Variable → ℕ
  unfolding value_bytes
  gc_bytes [] = 0
  gc_bytes (v ∷ vs) =
      value_bytes v.value + (round_up p.term_size + round_up (length v.name + 1)) + gc_bytes vs

  value_aligned : (value : Option Term) → value_bytes value % 8 ≡ 0
  unfolding value_bytes
  value_aligned none = refl
  value_aligned (some t) = omega (arith, dupe_aligned t 0 refl)

  pub gc_bytes_aligned : (vs : List Variable) → gc_bytes vs % 8 ≡ 0
  unfolding gc_bytes value_bytes
  gc_bytes_aligned [] = refl
  gc_bytes_aligned (v ∷ vs) = omega (arith, value_aligned v.value, gc_bytes_aligned vs)

  pub push_fits :
      (name : Bytes) (value : Option Term) (s : State W)
      → s.heap_index % 8 ≡ 0
      → s.heap_index + (round_up p.term_size + round_up (length name + 1)) ≤ heap_size
      → get_variable_impl s.variables name ≡ none
      → set_variable p name value s ≡ (
        ok tt,
        record s {
          heap_index = s.heap_index + (round_up p.term_size + round_up (length name + 1));
          variables = record { name = name; value = value } ∷ s.variables;
        },
      )
  unfolding set_variable store_value alloc_string
  push_fits name value s aligned fits absent =
      let (a, b, sum) = two_blocks name s aligned fits in
      ap (λ o. store_value p name value o s) absent ∙ rw (a, b, sum)

unfoldable pub rev_onto : List Variable → List Variable → List Variable
rev_onto acc [] = acc
rev_onto acc (v ∷ vs) = rev_onto (v ∷ acc) vs

-- No name is bound twice.
unfoldable pub IsDistinct : List Variable → Type 0
IsDistinct [] = Unit {0}
IsDistinct (v ∷ vs) = All (λ w. str_eq v.name w.name ≡ false) vs × IsDistinct vs

-- No name of the second list is bound in the first.
abbrev pub IsFresh : List Variable → List Variable → Type 0
IsFresh acc vs = All (λ w. get_variable_impl acc w.name ≡ none) vs

push-IsFresh :
    (v : Variable) (acc vs : List Variable)
    → All (λ w. str_eq v.name w.name ≡ false) vs
    → IsFresh acc vs
    → IsFresh (v ∷ acc) vs
unfolding get_variable_impl
push-IsFresh v acc [] other fresh = tt
push-IsFresh v acc (w ∷ vs) (o, other) (f, fresh) = (rw o f, push-IsFresh v acc vs other fresh)

module _ {W Fd : Type 0} (p : Platform W Fd) where
  gc_loop_lem :
      (vs : List Variable) (s : State W) (top : ℕ)
      → All IsKept vs
      → IsDistinct vs
      → IsFresh s.variables vs
      → s.heap_index % 8 ≡ 0
      → s.heap_index + gc_bytes p vs ≡ top
      → top ≤ heap_size
      → gc_loop p vs s ≡ (ok tt, record s { heap_index = top; variables = rev_onto s.variables vs })
  unfolding gc_loop gc_bytes rev_onto IsDistinct
  gc_loop_lem [] s top kept distinct fresh aligned sum fits =
      let same : s.heap_index ≡ top = omega arith in
      ap (λ i. (ok tt, record s { heap_index = i })) same
  gc_loop_lem (v ∷ vs) s top ((t, e, isvalue), kept) (other, distinct) (f, fresh) aligned sum fits =
      let size : value_bytes p v.value ≡ dupe_bytes p t = ap (value_bytes p) e in
      let bound : s.heap_index
            + dupe_bytes p t
            + (round_up p.term_size + round_up (length v.name + 1))
            + gc_bytes p vs
          ≡ top =
        omega (arith, size) in
      let copied : Variable = record { name = v.name; value = some t } in
      let aligned' : (s.heap_index + dupe_bytes p t) % 8 ≡ 0 =
        dupe_aligned p t s.heap_index aligned in
      let s₁ = record s { heap_index = s.heap_index + dupe_bytes p t } in
      let a = dupe_fits p t s isvalue aligned (omega arith) in
      let b = push_fits p v.name (some t) s₁ aligned' (omega arith) f in
      let s₂ = record s₁ {
        heap_index = s₁.heap_index + (round_up p.term_size + round_up (length v.name + 1));
        variables = copied ∷ s.variables;
      } in
      let rest =
        gc_loop_lem vs s₂ top kept distinct (push-IsFresh copied s.variables vs other fresh)
          (omega arith) bound fits in
      rw (e, a, b) rest

str_eq_flip : (a b : Bytes) → str_eq a b ≡ true → str_eq b a ≢ false
str_eq_flip a b h k =
    let same : b ≡ a = sym ((str_eq_iff a b).0 h) in
    let yes = (str_eq_iff b a).1 same in ground arith

all-IsFresh : (vs : List Variable) → IsFresh [] vs
unfolding get_variable_impl
all-IsFresh [] = tt
all-IsFresh (v ∷ vs) = (refl, all-IsFresh vs)

value_of-absent :
    (name : Bytes) (v : Variable) (vs : List Variable)
    → str_eq v.name name ≡ true
    → All (λ w. str_eq v.name w.name ≡ false) vs
    → value_of vs name ≡ none
unfolding value_of
value_of-absent name v [] h other = refl
value_of-absent name v (w ∷ vs) h (o, other) =
    let same : v.name ≡ name = (str_eq_iff v.name name).0 h in
    let differs : str_eq name w.name ≡ false = rw⁻¹ same o in
    elim (Bool-cases (str_eq w.name name)) [
      | inl e ↦ absurd (str_eq_flip w.name name e differs)
      | inr e ↦ rw e (value_of-absent name v vs h other)
    ]

value_of-rev_unbound :
    (name : Bytes) (acc vs : List Variable)
    → value_of vs name ≡ none
    → value_of (rev_onto acc vs) name ≡ value_of acc name
unfolding value_of rev_onto
value_of-rev_unbound name acc [] h = refl
value_of-rev_unbound name acc (v ∷ vs) h = elim (Bool-cases (str_eq v.name name)) [
  | inl e ↦ absurd (ground arith)
  | inr e ↦ value_of-rev_unbound name (v ∷ acc) vs (rw (e, value_of) at h) ∙ rw e
]

value_of-rev :
    (name : Bytes) (acc vs : List Variable)
    → IsDistinct vs
    → value_of acc name ≡ none
    → value_of (rev_onto acc vs) name ≡ value_of vs name
unfolding value_of rev_onto IsDistinct
value_of-rev name acc [] distinct h = h
value_of-rev name acc (v ∷ vs) (other, distinct) h = elim (Bool-cases (str_eq v.name name)) [
  | inl e ↦
      value_of-rev_unbound name (v ∷ acc) vs (value_of-absent name v vs e other) ∙ rw (e, value_of)
  | inr e ↦
      let absent : value_of (v ∷ acc) name ≡ none = rw e h in
      value_of-rev name (v ∷ acc) vs distinct absent ∙ rw e
]

-- a collection, which leaves the tries for a device as they were too
pub gc_run :
    {W Fd : Type 0} (p : Platform W Fd) (s : State W)
    → All IsKept s.variables
    → IsDistinct s.variables
    → gc_bytes p s.variables ≤ heap_size
    → (after : State W) × (term_gc_heap p s ≡ (ok tt, after))
      × (after.heap_index ≡ gc_bytes p s.variables)
      × ((name : Bytes) → value_of after.variables name ≡ value_of s.variables name)
      × (after.tries ≡ s.tries)
unfolding term_gc_heap value_of
gc_run p s kept distinct fits =
    let empty = record s { heap_index = 0; variables = [] } in
    (
      record s { heap_index = gc_bytes p s.variables; variables = rev_onto [] s.variables },
      gc_loop_lem p s.variables empty (gc_bytes p s.variables) kept distinct
          (all-IsFresh s.variables) refl (omega arith) fits,
      refl,
      (λ name. value_of-rev name [] s.variables distinct refl),
      refl,
    )

-- Where no name is bound twice, each value is neither NULL nor a call, and the heap has room for
-- the copies, a collection succeeds: every name keeps its value, and the heap holds the copies and
-- nothing else.
pub term_gc_heap_lem :
    {W Fd : Type 0} (p : Platform W Fd) (s : State W)
    → All IsKept s.variables
    → IsDistinct s.variables
    → gc_bytes p s.variables ≤ heap_size
    → (after : State W) × (term_gc_heap p s ≡ (ok tt, after))
      × (after.heap_index ≡ gc_bytes p s.variables)
      × ((name : Bytes) → value_of after.variables name ≡ value_of s.variables name)
term_gc_heap_lem p s kept distinct fits =
    let (after, run, index, values, tries) = gc_run p s kept distinct fits in
    (after, run, index, values)
