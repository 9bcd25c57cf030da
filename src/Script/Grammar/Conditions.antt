-- ===== src/Script/Grammar/Conditions.antt =====
-- The conditions of src/parser.y that compare a variable with a text.
use nerves_initramfs.Base.{
  ℕ, suc, ◌+◌, ◌%◌, ◌^◌, ◌≤◌, [], Option, some, ◌≡◌, refl, ap, ◌∙◌, arith, length, none,
}
use nerves_initramfs.Base.CString.{Bytes}
use nerves_initramfs.Script.{Term, identifier, string}
use nerves_initramfs.Script.Machine
use nerves_initramfs.Script.Machine.{
  State, Platform, M, ok, deref, heap_size, round_up, term_new_identifier, term_new_string,
  alloc_string,
}
use nerves_initramfs.Script.Run.{evaluator, term_resolve_impl}
use nerves_initramfs.Script.Flags.{bind_ok}
use nerves_initramfs.Script.Settings.{text}
use nerves_initramfs.Script.Vars.{value_of}
use nerves_initramfs.Script.Grammar.Trees.{Comparator, comparison, identifier_leaf}
use nerves_initramfs.Script.Grammar.{does_step, pure, holds, eval_term, eval_condition}
use nerves_initramfs.Script.Gc.{two_blocks, dupe_bytes}
use nerves_initramfs.Script.Grammar.Assign.{leaf_of, HasLiteral, leaf_made, resolved, g_ok}
use nerves_initramfs.Script.Reads.{found_value}
use nerves_initramfs.Script.Value.{get_variable}
use nerves_initramfs.Script.Convert.{compare_with, compare_resolved, strcmp, term_compare}

module _ {W Fd : Type 0} (p : Platform W Fd) (fuel ulong_max : ℕ) (wide : 2 ^ 31 ≤ ulong_max) where
  -- a variable that holds a string, looked up
  string_resolved :
      (name v : Bytes) (s : State W)
      → value_of s.variables name ≡ some (some (string v))
      → (evaluator p (suc (suc fuel))).term_resolve (identifier name) s ≡ (ok (some (string v)), s)
  unfolding evaluator term_resolve_impl get_variable
  string_resolved name v s h =
      let e = evaluator p (suc fuel) in
      let (found, there, same) = found_value s.variables name h in
      bind_ok (get_variable p name) (λ o. Machine.◌>>=◌ (deref o) e.term_resolve)
        (ap
            (λ o.
              (elim o as (λ o. M W (Option Term)) [
                | some w ↦ Machine.pure w.value
                | none ↦ Machine.◌>>=◌ (term_new_string p []) (λ t. Machine.pure (some t))
              ])
                s)
            there
          ∙ ap (λ o. (ok o, s)) same)

  -- The comparison of a variable with a text.
  pub condition_made :
      (name v t : Bytes) (c : Comparator) (s : State W)
      → HasLiteral (text t)
      → value_of s.variables name ≡ some (some (string v))
      → s.heap_index % 8 ≡ 0
      → s.heap_index + (round_up p.term_size + round_up (length name + 1) + dupe_bytes p (string t))
        ≤ heap_size
      → eval_condition p
          (suc (suc fuel))
          ulong_max
          (comparison c (identifier_leaf name) (leaf_of (text t)))
          s
        ≡ (
          ok (some (holds c (strcmp v t))),
          record s {
            heap_index =
                s.heap_index
                + (round_up p.term_size + round_up (length name + 1))
                + dupe_bytes p (string t);
          },
        )
  unfolding eval_condition eval_term does_step term_new_identifier alloc_string term_compare
      compare_with compare_resolved pure
  condition_made name v t c s literal h aligned fits =
      let name_bytes = round_up p.term_size + round_up (length name + 1) in
      let e = evaluator p (suc (suc fuel)) in
      let (a, b, sum) = two_blocks p name s aligned (omega (arith, fits)) in
      let s₁ : State W = record s { heap_index = s.heap_index + name_bytes } in
      let named : eval_term p (suc (suc fuel)) ulong_max (identifier_leaf name) s
          ≡ (ok (some (identifier name)), s₁) =
        rw (a, b, sum) refl in
      let s₂ : State W = record s₁ { heap_index = s₁.heap_index + dupe_bytes p (string t) } in
      let made =
        leaf_made p (suc (suc fuel)) ulong_max (text t) s₁ wide literal (omega arith)
          (omega (arith, fits)) in
      let compared : term_compare p e (identifier name) (string t) s₂ ≡ (ok (strcmp v t), s₂) =
        bind_ok (e.term_resolve (identifier name)) _ (string_resolved name v s₂ h)
        ∙ bind_ok (e.term_resolve (string t)) _ (resolved p (suc fuel) ulong_max (text t) s₂) in
      g_ok p fuel ulong_max (eval_term p (suc (suc fuel)) ulong_max (identifier_leaf name)) _ named
      ∙ g_ok p fuel ulong_max (eval_term p (suc (suc fuel)) ulong_max (leaf_of (text t))) _ made
      ∙ g_ok p fuel ulong_max (does_step (term_compare p e (identifier name) (string t)))
          (λ order. pure (holds c order))
          (bind_ok (term_compare p e (identifier name) (string t)) (λ a. Machine.pure (some a))
            compared)
