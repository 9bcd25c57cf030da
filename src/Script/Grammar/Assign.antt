-- ===== src/Script/Grammar/Assign.antt =====
-- The statements of src/parser.y that set a variable to a text, a truth value or a number.
use nerves_initramfs.Base.{
  ℕ, suc, ◌+◌, ◌-◌, ◌%◌, ◌^◌, ◌≤◌, ◌<◌, min, true, not, ◌&&◌, [], ◌∷◌, ◌++◌, some, ◌≡◌, refl, ap,
  ◌∙◌, arith, length, All, ◌==◌, length-append, take-append,
}
use nerves_initramfs.Base.CString.{Bytes, codes, str_eq}
use nerves_initramfs.Base.Int.{pos, to_int}
use nerves_initramfs.Base.Format.{dec}
use nerves_initramfs.Script.{identifier, fun, fun_assign, end, link, lookup_function, arity_of}
use nerves_initramfs.Script.Machine
use nerves_initramfs.Script.Machine.{
  State, Platform, ok, alloc_string, alloc_qstring, alloc_call, round_up, heap_size,
  term_new_qstring, term_new_number, term_new_boolean, term_new_identifier, term_new_fun,
}
use nerves_initramfs.Script.Value.{set_variable}
use nerves_initramfs.Script.Functions.{function_assign}
use nerves_initramfs.Script.Run.{
  evaluator, term_resolve_impl, run_handler, run_function, run_loop, run_functions,
}
use nerves_initramfs.Script.Heap.{alloc_heap_fits}
use nerves_initramfs.Script.Gc.{dupe_bytes, dupe_aligned, two_blocks}
use nerves_initramfs.Script.Flags.{bind_ok}
use nerves_initramfs.Script.Digits.{digits_value-dec_onto}
use nerves_initramfs.Script.Settings.{Value, text, flag, count, Setting, term_of}
use nerves_initramfs.Script.Grammar.Trees.{
  TermTree, string_leaf, dec_leaf, boolean_leaf, assignment,
}
use nerves_initramfs.Script.Grammar.{G, next, ◌>>=◌, does_step, built, eval_term, eval_action}

-- the literal of a value
unfoldable pub leaf_of : Value → TermTree
unfolding dec
leaf_of (text s) = string_leaf (b'"' ∷ (s ++ (b'"' ∷ [])))
leaf_of (flag b) = boolean_leaf b
leaf_of (count n) = dec_leaf (dec (pos n))

-- A value with a literal: a text without quotes and new lines, or a number that fits an `int`.
unfoldable pub HasLiteral : Value → Type 0
HasLiteral (text s) = All (λ c. (not (c == b'"') && not (c == b'\n')) ≡ true) s
HasLiteral (flag b) = Unit {0}
HasLiteral (count n) = n < 2 ^ 31

module _ {W Fd : Type 0} (p : Platform W Fd) where
  -- What a statement takes of the heap, at most: the identifier, the value, the call and the variable.
  abbrev pub statement_bytes : Setting → ℕ
  statement_bytes (key, value) =
      let name_bytes = round_up p.term_size + round_up (length key + 1) in
      name_bytes + (dupe_bytes p (term_of value) + (round_up p.term_size + name_bytes))

module _ {W Fd : Type 0} (p : Platform W Fd) (fuel ulong_max : ℕ) where
  pub leaf_made :
      (value : Value) (s : State W)
      → 2 ^ 31 ≤ ulong_max
      → HasLiteral value
      → s.heap_index % 8 ≡ 0
      → s.heap_index + dupe_bytes p (term_of value) ≤ heap_size
      → eval_term p fuel ulong_max (leaf_of value) s ≡ (
        ok (some (term_of value)),
        record s { heap_index = s.heap_index + dupe_bytes p (term_of value) },
      )
  unfolding eval_term leaf_of HasLiteral does_step term_new_qstring term_new_boolean term_new_number
      alloc_qstring dupe_bytes dec to_int
  leaf_made (text v) s wide h aligned fits =
      let (a, b, sum) = two_blocks p v s aligned fits in
      let len : length (v ++ (b'"' ∷ [])) ≡ length v + 1 = length-append v (b'"' ∷ []) in
      let inner : length v + 1 - 1 ≡ length v = omega arith in
      rw (len, inner, take-append, a, b, sum) refl
  leaf_made (flag b) s wide h aligned fits = rw (alloc_heap_fits p.term_size s aligned fits) refl
  leaf_made (count n) s wide h aligned fits =
      let digits = digits_value-dec_onto 9 n [] (omega arith) in
      let small : to_int (min ulong_max n) ≡ pos n = ground arith in
      rw (digits, small, alloc_heap_fits p.term_size s aligned fits) refl

  -- a value, looked up
  pub resolved :
      (value : Value) (s : State W)
      → (evaluator p (suc fuel)).term_resolve (term_of value) s ≡ (ok (some (term_of value)), s)
  unfolding evaluator term_resolve_impl
  resolved (text v) s = refl
  resolved (flag b) s = refl
  resolved (count n) s = refl

  -- The call that assigns a value, run: it sets the variable.
  pub assign_run :
      (key : Bytes) (value : Value) (s s' : State W)
      → set_variable p key (some (term_of value)) s ≡ (ok tt, s')
      → run_functions p
          (suc fuel)
          (link (fun fun_assign (link (identifier key) (link (term_of value) end))) end)
          s
        ≡ (ok (some (term_of value)), s')
  unfolding run_functions run_loop run_function run_handler function_assign
  assign_run key value s s' h =
      let e = evaluator p (suc fuel) in
      let t = term_of value in
      let params = link (identifier key) (link t end) in
      let call : function_assign p e params s ≡ (ok (some t), s') =
        bind_ok (e.term_resolve t) (λ v. Machine.◌>>◌ (set_variable p key v) (Machine.pure v))
          (resolved value s)
        ∙ bind_ok (set_variable p key (some t)) (λ _. Machine.pure (some t)) h in
      bind_ok (function_assign p e params) (λ result. run_loop p (suc fuel) result end) call

  -- a step of an action that succeeds, and what follows it
  pub g_ok :
      {A B : Type 0} (m : G W A) (f : A → G W B) {a : A} {s s' : State W}
      → m s ≡ (ok (some a), s')
      → (m >>= f) s ≡ f a s'
  unfolding ◌>>=◌
  g_ok m f h = ap (λ r. next r f) h

  -- the action of an assignment: the call that `run_functions` runs
  pub action_made :
      (key : Bytes) (value : Value) (s : State W)
      → 2 ^ 31 ≤ ulong_max
      → HasLiteral value
      → s.heap_index % 8 ≡ 0
      → s.heap_index + statement_bytes p (key, value) ≤ heap_size
      → (s' : State W) × (eval_action p fuel ulong_max (assignment key (leaf_of value)) s
          ≡ (ok (some (fun fun_assign (link (identifier key) (link (term_of value) end)))), s'))
        × (s'.heap_index % 8 ≡ 0)
        × (s'.heap_index + (round_up p.term_size + round_up (length key + 1))
            ≤ s.heap_index + statement_bytes p (key, value))
        × (s'.variables ≡ s.variables)
        × (s'.working_uboot_env ≡ s.working_uboot_env)
        × (s'.tries ≡ s.tries)
  unfolding eval_action does_step built term_new_identifier alloc_string term_new_fun alloc_call
      lookup_function arity_of str_eq
  action_made key value s wide literal aligned fits =
      let name_bytes = round_up p.term_size + round_up (length key + 1) in
      let (a, b, sum) = two_blocks p key s aligned (omega (arith, fits)) in
      let s₁ : State W = record s { heap_index = s.heap_index + name_bytes } in
      let named : does_step (term_new_identifier p key) s ≡ (ok (some (identifier key)), s₁) =
        rw (a, b, sum) refl in
      let s₂ : State W = record s₁ { heap_index = s₁.heap_index + dupe_bytes p (term_of value) } in
      let aligned₁ : s₁.heap_index % 8 ≡ 0 = omega arith in
      let aligned₂ = dupe_aligned p (term_of value) s₁.heap_index aligned₁ in
      let made = leaf_made value s₁ wide literal aligned₁ (omega (arith, fits)) in
      let s₃ : State W = record s₂ { heap_index = s₂.heap_index + round_up p.term_size } in
      let args = link (identifier key) (link (term_of value) end) in
      let called : built (term_new_fun p (codes "=") args) s₂
          ≡ (ok (some (fun fun_assign args)), s₃) =
        rw (alloc_heap_fits p.term_size s₂ aligned₂ (omega (arith, fits))) refl in
      (
        s₃,
        g_ok (does_step (term_new_identifier p key)) _ named
            ∙ g_ok (eval_term p fuel ulong_max (leaf_of value)) _ made
            ∙ called,
        omega (arith, aligned₂),
        omega (arith, fits),
        refl,
        refl,
        refl,
      )
