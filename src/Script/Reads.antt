-- ===== src/Script/Reads.antt =====
-- Variables of src/script.c that hold a string or a boolean, read; and what `open_block_device` keeps.
use nerves_initramfs.Base.{
  ℕ, suc, Bool, List, [], Option, none, some, ◌≡◌, sym, ap, ◌∙◌, arith, Option-cases, inl, inr,
  refl, subst,
}
use nerves_initramfs.Base.CString.{Bytes}
use nerves_initramfs.Base.Int.{ℤ}
use nerves_initramfs.Script.{Term, string, number, boolean, Variable}
use nerves_initramfs.BlockDevice.Spec.{open_block_device}
use nerves_initramfs.Script.Machine
use nerves_initramfs.Script.Machine.{State, Platform, ok}
use nerves_initramfs.Script.Value.{get_variable_impl}
use nerves_initramfs.Script.Vars.{value_of, value_of_found, value_of_absent}
use nerves_initramfs.Script.Convert.{
  Evaluator, get_as_string, get_as_boolean, get_variable_as_string, get_variable_as_boolean,
  get_as_number, get_variable_as_number, term_to_number, number_of, term_to_boolean, boolean_of,
  to_string_resolved,
}
use nerves_initramfs.Script.Run.{evaluator}
use nerves_initramfs.Script.Storage.{open_spec}

-- A name that has a value is found with it.
pub found_value :
    (vs : List Variable) (name : Bytes) {value : Option Term}
    → value_of vs name ≡ some value
    → (v : Variable) × (get_variable_impl vs name ≡ some v) × (v.value ≡ value)
found_value vs name h = elim (Option-cases (get_variable_impl vs name)) [
  | inl e ↦ let absent = value_of_absent vs name e in absurd (ground (arith, h, absent))
  | inr (v, e) ↦
      let there = value_of_found vs name e in
      (v, e, ap (λ o. elim o [ none ↦ v.value | some x ↦ x ]) (sym there ∙ h))
]

module _ {W Fd : Type 0} (p : Platform W Fd) (fuel : ℕ) where
  abbrev pub level : Evaluator W
  level = evaluator p (suc fuel)

  pub string_variable :
      (name text : Bytes) (s : State W)
      → value_of s.variables name ≡ some (some (string text))
      → get_variable_as_string p level name s ≡ (ok text, s)
  unfolding get_variable_as_string get_as_string evaluator to_string_resolved
  string_variable name text s h =
      let (v, found, value) = found_value s.variables name h in
      ap (λ o. get_as_string p level o s) found
      ∙ ap (λ o. (Machine.◌>>=◌ (Machine.deref o) level.term_to_string) s) value

  pub boolean_variable :
      (name : Bytes) (b : Bool) (s : State W)
      → value_of s.variables name ≡ some (some (boolean b))
      → get_variable_as_boolean p level name s ≡ (ok b, s)
  unfolding get_variable_as_boolean get_as_boolean evaluator term_to_boolean boolean_of
  boolean_variable name b s h =
      let (v, found, value) = found_value s.variables name h in
      ap (λ o. get_as_boolean p level o s) found
      ∙ ap (λ o. (Machine.◌>>=◌ (Machine.deref o) (term_to_boolean p level)) s) value

  pub number_variable :
      (name : Bytes) (n : ℤ) (s : State W)
      → value_of s.variables name ≡ some (some (number n))
      → get_variable_as_number p level name s ≡ (ok n, s)
  unfolding get_variable_as_number get_as_number evaluator term_to_number number_of
  number_variable name n s h =
      let (v, found, value) = found_value s.variables name h in
      ap (λ o. get_as_number p level o s) found
      ∙ ap (λ o. (Machine.◌>>=◌ (Machine.deref o) (term_to_number p level)) s) value

  -- it changes the tries and the world only
  pub open_spec_changes :
      (spec : Bytes) (writing : Bool) (s : State W) {r : Option Fd × Bytes} {s' : State W}
      → open_spec p level spec writing s ≡ (ok r, s')
      → s' ≡ record s { tries = s'.tries; world = s'.world }
  unfolding open_spec
  open_spec_changes spec writing s {s' = s'} h =
      let changed = λ (x : State W). x ≡ record s { tries = x.tries; world = x.world } in
      elim (Option-cases (open_block_device (p.files s.world writing) spec s.tries 0 [])) [
        | inl e ↦ subst changed (ap (λ x. x.1) (rw (e, open_spec) at h)) refl
        | inr (o, e) ↦ subst changed (ap (λ x. x.1) (rw (e, open_spec) at h)) refl
      ]

  pub open_spec_keeps :
      (spec : Bytes) (writing : Bool) (s : State W) {r : Option Fd × Bytes} {s' : State W}
      → open_spec p level spec writing s ≡ (ok r, s')
      → s'.variables ≡ s.variables
  unfolding open_spec
  open_spec_keeps spec writing s h =
      elim (Option-cases (open_block_device (p.files s.world writing) spec s.tries 0 [])) [
        | inl e ↦ ap (λ x. x.1.variables) (sym (rw (e, open_spec) at h))
        | inr (o, e) ↦ ap (λ x. x.1.variables) (sym (rw (e, open_spec) at h))
      ]
