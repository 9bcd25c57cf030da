-- ===== src/Script/Grammar/Statements.antt =====
-- What the statements of a script do, one behind the other.
use nerves_initramfs.Base.{
  sym, true, ℕ, suc, ◌+◌, ◌%◌, ◌^◌, ◌≤◌, List, map, subst, [], ◌∷◌, Option, some, ◌≡◌, refl, ap,
  ◌∙◌, arith, length, All, none, if◌then◌else◌, Bool-cases, inl, inr,
}
use nerves_initramfs.Base.CString.{
  Bytes, str_eq, str_eq_iff, str_le_total, str_le_antisymm, str_le_refl,
}
use nerves_initramfs.Script.{Term, identifier, fun, fun_assign, end, link, string, Variable}
use nerves_initramfs.Script.Machine
use nerves_initramfs.Script.Machine.{State, Platform, ok, heap_size, round_up}
use nerves_initramfs.Script.Run.{run_functions}
use nerves_initramfs.Script.Flags.{bind_ok}
use nerves_initramfs.Script.Settings.{Value, text, term_of, set_fits, Applied, value_behind}
use nerves_initramfs.Script.Vars.{value_of, Binds}
use nerves_initramfs.Script.Grammar.Trees.{
  assignment, Comparator, action, comparison, identifier_leaf, one_action,
}
use nerves_initramfs.Script.Grammar.{
  does_step, eval_action, eval_statement, eval_statements, ◌>>=◌, ◌>>◌, pure, holds, eval_condition,
  eval_block,
}
use nerves_initramfs.Script.Tidy.{Tidy}
use nerves_initramfs.Script.Gc.{dupe_bytes, dupe_aligned}
use nerves_initramfs.Script.Grammar.Assign.{
  leaf_of, HasLiteral, statement_bytes, action_made, assign_run, g_ok,
}
use nerves_initramfs.Script.Convert.{strcmp}
use nerves_initramfs.Script.Grammar.Conditions.{condition_made}
use nerves_initramfs.Script.Grammar.Line.{
  Line, always, where_holds, statement_of, value_left, result_of, Values, set_in, compares,
  satisfies, step, outcome, IsReadable, AreReadable, HasLiterals, line_bytes, script_bytes,
}

module _ {W Fd : Type 0} (p : Platform W Fd) (fuel ulong_max : ℕ) (wide : 2 ^ 31 ≤ ulong_max) where
  -- The statement of a setting succeeds, and sets its variable.
  assignment_lem :
      (key : Bytes) (value : Value) (s : State W)
      → HasLiteral value
      → s.heap_index % 8 ≡ 0
      → s.heap_index + statement_bytes p (key, value) ≤ heap_size
      → (s' : State W) × (eval_statement p
            (suc fuel)
            ulong_max
            (action (assignment key (leaf_of value)))
            s
          ≡ (ok (some (some (term_of value))), s'))
        × Applied p (statement_bytes p (key, value)) s s' key (some (term_of value))
  unfolding eval_statement does_step
  assignment_lem key value s literal aligned fits =
      let (s₁, made, aligned₁, index, variables, env, tries) =
        action_made p (suc fuel) ulong_max key value s wide literal aligned fits in
      let (s', set, applied) =
        set_fits p key (some (term_of value)) s₁ aligned₁ (omega (arith, fits, index)) in
      let binds = applied.binds in
      let index' = applied.index in
      (
        s',
        g_ok p fuel ulong_max (eval_action p (suc fuel) ulong_max (assignment key (leaf_of value)))
              _ made
            ∙ bind_ok
                (run_functions p (suc fuel)
                  (link (fun fun_assign (link (identifier key) (link (term_of value) end))) end))
                (λ a. Machine.pure (some a)) (assign_run p fuel ulong_max key value s₁ s' set),
        record {
          binds = subst (λ vs. Binds vs s'.variables key (some (term_of value))) variables binds;
          aligned = applied.aligned;
          index = omega (arith, index, index');
          same_env = applied.same_env ∙ env;
          same_tries = applied.same_tries ∙ tries;
          tidy = λ room t same is tidy.
              applied.tidy room t same is (subst (Tidy p room) (sym variables) tidy);
        },
      )

-- The sign of `strcmp` decides a comparison as the order of the texts does.
holds-strcmp : (c : Comparator) (v t : Bytes) → holds c (strcmp v t) ≡ satisfies c v t
unfolding holds strcmp satisfies
holds-strcmp c v t =
    let equal = str_eq_iff v t in
    let total = str_le_total v t in
    let back = str_le_antisymm v t in ground (arith, equal, total, back, str_le_refl v)

-- What a line does to the state, with what the names are bound to behind it.
record Done {W : Type 0} (bytes : ℕ) (s s' : State W) (values : Values) : Type 0 where
  aligned : s'.heap_index % 8 ≡ 0
  index : s'.heap_index ≤ s.heap_index + bytes
  same : (name : Bytes) → value_of s'.variables name ≡ values name
  same_tries : s'.tries ≡ s.tries

module _ {W Fd : Type 0} (p : Platform W Fd) (fuel ulong_max : ℕ) (wide : 2 ^ 31 ≤ ulong_max) where
  -- The rule's block, and what runs it.
  rule_made :
      (name v t : Bytes) (c : Comparator) (key : Bytes) (value : Value) (s : State W)
      → HasLiteral (text t)
      → HasLiteral value
      → value_of s.variables name ≡ some (some (string v))
      → s.heap_index % 8 ≡ 0
      → s.heap_index + line_bytes p (where_holds name c t (key, value)) ≤ heap_size
      → (s₂ : State W) × (eval_statement p
            (suc (suc fuel))
            ulong_max
            (statement_of (where_holds name c t (key, value)))
            s
          ≡ (if holds c (strcmp v t)
                then does_step (
                    run_functions p (suc (suc fuel)) (
                      link (fun fun_assign (link (identifier key) (link (term_of value) end))) end))
                  >> pure none
                else pure none)
              s₂)
        × (s₂.heap_index % 8 ≡ 0)
        × (s₂.heap_index + (round_up p.term_size + round_up (length key + 1))
            ≤ s.heap_index + line_bytes p (where_holds name c t (key, value)))
        × (s₂.variables ≡ s.variables)
        × (s₂.tries ≡ s.tries)
  unfolding eval_statement eval_block statement_of line_bytes pure ◌>>=◌
  rule_made name v t c key value s literal literal' h aligned fits =
      let f = suc (suc fuel) in
      let bytes = round_up p.term_size + round_up (length name + 1) in
      let s₁ : State W = record s { heap_index = s.heap_index + bytes + dupe_bytes p (string t) } in
      let condition =
        condition_made p fuel ulong_max wide name v t c s literal h aligned (omega (arith, fits)) in
      let aligned₁ : s₁.heap_index % 8 ≡ 0 =
        dupe_aligned p (string t) (s.heap_index + bytes) (omega arith) in
      let (s₂, made, aligned₂, index, variables, env, tries) =
        action_made p f ulong_max key value s₁ wide literal' aligned₁ (omega (arith, fits)) in
      (
        s₂,
        g_ok p fuel ulong_max
              (eval_condition p f ulong_max
                (comparison c (identifier_leaf name) (leaf_of (text t))))
              _ condition
            ∙ g_ok p fuel ulong_max
                (eval_block p f ulong_max (one_action (assignment key (leaf_of value)))) _
                (g_ok p fuel ulong_max (eval_action p f ulong_max (assignment key (leaf_of value)))
                  (λ a. pure (link a end)) made),
        aligned₂,
        omega (arith, index, fits),
        variables,
        tries,
      )

  values_behind :
      (vs vs' : List Variable) (key : Bytes) (value : Value) (values : Values)
      → Binds vs vs' key (some (term_of value))
      → ((name : Bytes) → value_of vs name ≡ values name)
      → (name : Bytes) → value_of vs' name ≡ set_in (key, value) values name
  values_behind vs vs' key value values binds same name =
      value_behind binds name
      ∙ ap (λ o. if str_eq key name then some (some (term_of value)) else o) (same name)

  -- A line succeeds, and does to the values what it says.
  line_lem :
      (line : Line) (values : Values) (s : State W)
      → HasLiterals line
      → IsReadable line values
      → ((name : Bytes) → value_of s.variables name ≡ values name)
      → s.heap_index % 8 ≡ 0
      → s.heap_index + line_bytes p line ≤ heap_size
      → (s' : State W) × (eval_statement p (suc (suc fuel)) ulong_max (statement_of line) s
          ≡ (ok (some (value_left line)), s'))
        × Done (line_bytes p line) s s' (step line values)
  unfolding statement_of line_bytes value_left step HasLiterals IsReadable compares does_step pure
  line_lem (always (key, value)) values s literal readable same aligned fits =
      let (s', run, applied) =
        assignment_lem p (suc fuel) ulong_max wide key value s literal aligned fits in
      (
        s',
        run,
        record {
          aligned = applied.aligned;
          index = applied.index;
          same = values_behind s.variables s'.variables key value values applied.binds same;
          same_tries = applied.same_tries;
        },
      )
  line_lem (where_holds name c t (key, value)) values s (literal, literal') (v, e) same aligned
        fits =
      let (s₂, made, aligned₂, index, variables, tries) =
        rule_made name v t c key value s literal literal' (same name ∙ e) aligned fits in
      let kept : (other : Bytes) → value_of s₂.variables other ≡ values other =
        λ other. ap (λ vs. value_of vs other) variables ∙ same other in
      let call = link (fun fun_assign (link (identifier key) (link (term_of value) end))) end in
      let runs = does_step (run_functions p (suc (suc fuel)) call) in
      let decided = ap (λ o. compares o c t) e ∙ sym (holds-strcmp c v t) in
      elim (Bool-cases (holds c (strcmp v t))) [
        | inl so ↦
            let (s', set, applied) =
              set_fits p key (some (term_of value)) s₂ aligned₂ (omega (arith, fits, index)) in
            let index' = applied.index in
            let ran = assign_run p (suc fuel) ulong_max key value s₂ s' set in
            (
              s',
              made
                  ∙ ap (λ b. (if b then runs >> pure none else pure none) s₂) so
                  ∙ g_ok p fuel ulong_max runs (λ _. pure none)
                      (bind_ok (run_functions p (suc (suc fuel)) call) (λ a. Machine.pure (some a))
                        ran),
              record {
                aligned = applied.aligned;
                index = omega (arith, index, index');
                same = λ other.
                    values_behind s₂.variables s'.variables key value values applied.binds kept
                      other
                    ∙ ap (λ b. (if b then set_in (key, value) values else values) other)
                        (sym (decided ∙ so));
                same_tries = applied.same_tries ∙ tries;
              },
            )
        | inr not_so ↦ (
          s₂,
          made ∙ ap (λ b. (if b then runs >> pure none else pure none) s₂) not_so ∙ refl,
          record {
            aligned = aligned₂;
            index = omega (arith, index);
            same = λ other.
                kept other
                ∙ ap (λ b. (if b then set_in (key, value) values else values) other)
                    (sym (decided ∙ not_so));
            same_tries = tries;
          },
        )
      ]

  -- The statements of a script succeed one behind the other: the names are bound to what the lines say,
  -- and the result is the value of the last statement.
  pub statements_lem :
      (lines : List Line) (result : Option Term) (values : Values) (s : State W)
      → All HasLiterals lines
      → AreReadable lines values
      → ((name : Bytes) → value_of s.variables name ≡ values name)
      → s.heap_index % 8 ≡ 0
      → s.heap_index + script_bytes p lines ≤ heap_size
      → (s' : State W) × (eval_statements p
            (suc (suc fuel))
            ulong_max
            result
            (map statement_of lines)
            s
          ≡ (ok (result_of result lines, true), s'))
        × ((name : Bytes) → value_of s'.variables name ≡ outcome lines values name)
        × (s'.tries ≡ s.tries)
  unfolding eval_statements outcome AreReadable script_bytes result_of
  statements_lem [] result values s literals readable same aligned fits = (s, refl, same, refl)
  statements_lem (line ∷ lines) result values s (literal, literals) (now, later) same aligned fits =
      let (s₁, run, done) = line_lem line values s literal now same aligned (omega (arith, fits)) in
      let index = done.index in
      let (s', more, values', tries) =
        statements_lem lines (value_left line) (step line values) s₁ literals later done.same
          done.aligned (omega (arith, fits, index)) in
      (
        s',
        bind_ok (eval_statement p (suc (suc fuel)) ulong_max (statement_of line)) _ run ∙ more,
        values',
        tries ∙ done.same_tries,
      )
