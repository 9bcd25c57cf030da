-- ===== src/Script/Grammar/Calls.antt =====
-- The terms that the actions of the grammar make.
use nerves_initramfs.Base.Int.{ℤ}
use nerves_initramfs.Base.{
  ℕ, Bool, List, [], ◌∷◌, Option, none, some, ◌≡◌, refl, sym, subst, inl, inr,
}
use nerves_initramfs.Base.CString.{Bytes, codes, str_eq}
use nerves_initramfs.Script.Defs.{
  Fun, fun_add, fun_subtract, fun_assign, Term, identifier, string, number, boolean, fun, Terms,
  end, link, reverse_onto, term_reverse, lookup_function, find_function, function_table, arity_of,
}
use nerves_initramfs.Script.Machine
use nerves_initramfs.Script.Machine.{
  State, Platform, Outcome, ok, stop, M, deref, term_new_number, term_new_qstring, term_new_boolean,
  term_new_identifier, term_new_fun, alloc_heap, alloc_string, alloc_qstring,
}
use nerves_initramfs.Script.Table.{IsCallable, AllCallable, term_new_fun-IsCallable}
use nerves_initramfs.Script.Grammar.{
  G, ◌>>=◌, pure, does_step, built, called, eval_term, eval_call, eval_parameters, eval_action,
  eval_actions, eval_block, next,
}
use nerves_initramfs.Script.Grammar.Trees.{
  TermTree, plus, minus, negative, parens, identifier_leaf, string_leaf, hex_leaf, dec_leaf,
  boolean_leaf, call_term, CallTree, call, ParametersTree, no_parameters, more_parameters,
  one_parameter, ActionTree, function_call, assignment, BlockTree, one_action, braces,
}

-- A value that the computation gives has the property.
abbrev Holds : {W A : Type 0} → (A → Type 0) → Outcome (Option A) × State W → Type 0
Holds P (ok (some a), s) = P a
Holds P (ok none, s) = Unit {0}
Holds P (stop why, s) = Unit {0}

record Gives {W A : Type 0} (P : A → Type 0) (m : G W A) : Type 0 where
  gives : (s : State W) → Holds P (m s)

bind-Gives :
    {W A B : Type 0} {P : A → Type 0} {Q : B → Type 0} {m : G W A} {f : A → G W B}
    → Gives P m
    → ((a : A) → P a → Gives Q (f a))
    → Gives Q (m >>= f)
unfolding ◌>>=◌
bind-Gives {W = W} {A = A} {P = P} {Q = Q} {m = m} {f = f} g h = record {
  gives = λ s. step (m s) (g.gives s);
}
  where
    step : (r : Outcome (Option A) × State W) → Holds P r → Holds Q (next r f)
    step (ok (some a), s) holding = (h a holding).gives s
    step (ok none, s) holding = tt
    step (stop why, s) holding = tt

pure-Gives : {W A : Type 0} {P : A → Type 0} (a : A) → P a → Gives {W = W} P (pure a)
unfolding pure
pure-Gives a h = record { gives = λ s. h }

-- A call, as `run_function` needs it.
unfoldable pub IsCall : Term → Type 0
IsCall t = (f : Fun) × (ps : Terms) × (t ≡ fun f ps) × IsCallable t

unfoldable pub AllCalls : Terms → Type 0
unfolding IsCall
AllCalls end = Unit {0}
AllCalls (link t rest) = IsCall t × AllCalls rest

-- The same for the steps of the interpreter.
abbrev HoldsStep : {W A : Type 0} → (A → Type 0) → Outcome A × State W → Type 0
HoldsStep P (ok a, s) = P a
HoldsStep P (stop why, s) = Unit {0}

record Makes {W A : Type 0} (P : A → Type 0) (m : M W A) : Type 0 where
  makes : (s : State W) → HoldsStep P (m s)

bind-Makes :
    {W A B : Type 0} {P : A → Type 0} {Q : B → Type 0} {m : M W A} {f : A → M W B}
    → Makes P m
    → ((a : A) → P a → Makes Q (f a))
    → Makes Q (Machine.◌>>=◌ m f)
bind-Makes {W = W} {A = A} {P = P} {Q = Q} {m = m} {f = f} g h = record {
  makes = λ s. step (m s) (g.makes s);
}
  where
    step : (r : Outcome A × State W) → HoldsStep P r → HoldsStep Q (Machine.continue r.0 f r.1)
    step (ok a, s) holding = (h a holding).makes s
    step (stop why, s) holding = tt

-- nothing is known of the first step
then-Makes :
    {W A B : Type 0} {Q : B → Type 0} (m : M W A) {f : A → M W B}
    → ((a : A) → Makes Q (f a))
    → Makes Q (Machine.◌>>=◌ m f)
then-Makes {W = W} {A = A} {Q = Q} m {f = f} h = record { makes = λ s. step (m s) }
  where
    step : (r : Outcome A × State W) → HoldsStep Q (Machine.continue r.0 f r.1)
    step (ok a, s) = (h a).makes s
    step (stop why, s) = tt

made : {W A : Type 0} {P : A → Type 0} (a : A) → P a → Makes {W = W} P (Machine.pure a)
made a h = record { makes = λ s. h }

step-Gives : {W A : Type 0} {P : A → Type 0} {m : M W A} → Makes P m → Gives P (does_step m)
unfolding does_step
step-Gives {W = W} {A = A} {P = P} {m = m} g = record { gives = λ s. step (m s) (g.makes s) }
  where
    step :
        (r : Outcome A × State W)
        → HoldsStep P r
        → Holds P (Machine.continue r.0 (λ a. Machine.pure (some a)) r.1)
    step (ok a, s) holding = holding
    step (stop why, s) holding = tt

-- any step, of whose value nothing is said
any-Gives : {W A : Type 0} (m : M W A) → Gives (λ a. Unit {0}) (does_step m)
any-Gives m = step-Gives (record { makes = λ s. trivial (m s) })
  where
    trivial : {W A : Type 0} (r : Outcome A × State W) → HoldsStep (λ a. Unit {0}) r
    trivial (ok a, s) = tt
    trivial (stop why, s) = tt

abbrev IsCallOr : Option Term → Type 0
IsCallOr none = Unit {0}
IsCallOr (some t) = IsCall t

call-IsCallable : (t : Term) → IsCall t → IsCallable t
unfolding IsCall
call-IsCallable t (f, ps, e, callable) = callable

reverse_onto-AllCallable :
    (before ps : Terms) → AllCallable before → AllCallable ps → AllCallable (reverse_onto before ps)
unfolding reverse_onto IsCallable
reverse_onto-AllCallable before end h k = h
reverse_onto-AllCallable before (link t rest) h (k, ks) =
    reverse_onto-AllCallable (link t before) rest (k, h) ks

reverse-AllCallable : (ps : Terms) → AllCallable ps → AllCallable (term_reverse ps)
unfolding term_reverse IsCallable
reverse-AllCallable ps h = reverse_onto-AllCallable end ps tt h

all_end : AllCallable end
unfolding IsCallable
all_end = tt

all_link : (a : Term) (ps : Terms) → IsCallable a → AllCallable ps → AllCallable (link a ps)
unfolding IsCallable
all_link a ps h hs = (h, hs)

reverse_onto-AllCalls :
    (before ps : Terms) → AllCalls before → AllCalls ps → AllCalls (reverse_onto before ps)
unfolding reverse_onto AllCalls
reverse_onto-AllCalls before end h k = h
reverse_onto-AllCalls before (link t rest) h (k, ks) =
    reverse_onto-AllCalls (link t before) rest (k, h) ks

module _ {W Fd : Type 0} (p : Platform W Fd) where
  term_new_fun-Makes :
      (name : Bytes) (ps : Terms) → AllCallable ps → Makes IsCallOr (term_new_fun p name ps)
  unfolding IsCall
  term_new_fun-Makes name ps callable = record {
    makes = λ s. elim (term_new_fun-IsCallable p name ps s callable) [
      | inl (same, absent) ↦ subst (HoldsStep IsCallOr) (sym same) tt
      | inr (f, e, is_call, inl (fits, same)) ↦ found f is_call (term_new_fun p name ps s) same
      | inr (f, e, is_call, inr (no_room, same)) ↦ subst (HoldsStep IsCallOr) (sym same) tt
    ];
  }
    where
      found :
          (f : Fun)
          → IsCallable (fun f ps)
          → (r : Outcome (Option Term) × State W) → r.0 ≡ ok (some (fun f ps))
          → HoldsStep IsCallOr r
      found f is_call (r, s) same =
          subst (λ r. HoldsStep IsCallOr (r, s)) (sym same) (f, ps, refl, is_call)

  deref-Makes : (t : Option Term) → IsCallOr t → Makes {W = W} IsCall (deref t)
  deref-Makes none h = record { makes = λ s. tt }
  deref-Makes (some t) h = made t h

  built-Gives :
      (name : Bytes) (ps : Terms) → AllCallable ps → Gives IsCall (built (term_new_fun p name ps))
  unfolding built
  built-Gives name ps callable =
      step-Gives (bind-Makes (term_new_fun-Makes name ps callable) deref-Makes)

  called-Gives : (line : ℕ) (rc : Option Term) → IsCallOr rc → Gives IsCall (called p line rc)
  unfolding called
  called-Gives line none h = record { gives = λ s. tt }
  called-Gives line (some rc) h = pure-Gives rc h

  -- the constructors that the lexer and the grammar call
  new_number-Gives : (n : ℤ) → Gives IsCallable (does_step (term_new_number p n))
  unfolding term_new_number IsCallable
  new_number-Gives n = step-Gives (then-Makes (alloc_heap p.term_size) (λ u. made (number n) tt))

  new_boolean-Gives : (b : Bool) → Gives IsCallable (does_step (term_new_boolean p b))
  unfolding term_new_boolean IsCallable
  new_boolean-Gives b = step-Gives (then-Makes (alloc_heap p.term_size) (λ u. made (boolean b) tt))

  new_identifier-Gives : (text : Bytes) → Gives IsCallable (does_step (term_new_identifier p text))
  unfolding term_new_identifier IsCallable
  new_identifier-Gives text = step-Gives (
      then-Makes (alloc_heap p.term_size)
        (λ u. then-Makes (alloc_string text) (λ copy. made (identifier copy) tt)))

  new_qstring-Gives : (text : Bytes) → Gives IsCallable (does_step (term_new_qstring p text))
  unfolding term_new_qstring IsCallable
  new_qstring-Gives text = step-Gives (
      then-Makes (alloc_heap p.term_size)
        (λ u. then-Makes (alloc_qstring text) (λ copy. made (string copy) tt)))

  weaken-IsCallable : {m : G W Term} → Gives IsCall m → Gives IsCallable m
  weaken-IsCallable {m} g = record { gives = λ s. weaken (m s) (g.gives s) }
    where
      weaken : (r : Outcome (Option Term) × State W) → Holds IsCall r → Holds IsCallable r
      weaken (ok (some t), s) h = call-IsCallable t h
      weaken (ok none, s) h = tt
      weaken (stop why, s) h = tt

  -- a call of two operands
  two-Gives :
      (name : Bytes) (a b : Term)
      → IsCallable a
      → IsCallable b
      → Gives IsCall (built (term_new_fun p name (link a (link b end))))
  unfolding IsCallable
  two-Gives name a b ha hb = built-Gives name (link a (link b end)) (ha, (hb, tt))

  module _ (fuel ulong_max : ℕ) where
    mutual
      unfolding eval_term

      eval_term-Gives : (tree : TermTree) → Gives IsCallable (eval_term p fuel ulong_max tree)
      eval_term-Gives (plus left right) = bind-Gives (eval_term-Gives left) (λ a ha.
          bind-Gives (eval_term-Gives right) (λ b hb. weaken-IsCallable (two-Gives _ a b ha hb)))
      eval_term-Gives (minus left right) = bind-Gives (eval_term-Gives left) (λ a ha.
          bind-Gives (eval_term-Gives right) (λ b hb. weaken-IsCallable (two-Gives _ a b ha hb)))
      eval_term-Gives (negative tree) =
          bind-Gives (eval_term-Gives tree)
            (λ a ha. bind-Gives (any-Gives _) (λ n u. new_number-Gives _))
      eval_term-Gives (parens tree) = eval_term-Gives tree
      eval_term-Gives (identifier_leaf text) = new_identifier-Gives text
      eval_term-Gives (string_leaf text) = new_qstring-Gives text
      eval_term-Gives (hex_leaf digits) = new_number-Gives _
      eval_term-Gives (dec_leaf digits) = new_number-Gives _
      eval_term-Gives (boolean_leaf b) = new_boolean-Gives b
      eval_term-Gives (call_term tree) = weaken-IsCallable (eval_call-Gives tree)

      eval_call-Gives : (tree : CallTree) → Gives IsCall (eval_call p fuel ulong_max tree)
      eval_call-Gives (call line name tree) = bind-Gives (any-Gives _) (λ u h.
          bind-Gives (eval_parameters-Gives tree) (λ ps hs.
            bind-Gives
              (step-Gives (term_new_fun-Makes name (term_reverse ps) (reverse-AllCallable ps hs)))
              (λ rc hc. called-Gives line rc hc)))

      eval_parameters-Gives :
          (tree : ParametersTree) → Gives AllCallable (eval_parameters p fuel ulong_max tree)
      eval_parameters-Gives no_parameters = pure-Gives end all_end
      eval_parameters-Gives (more_parameters tree last) =
          bind-Gives (eval_parameters-Gives tree) (λ ps hs.
            bind-Gives (eval_term-Gives last)
              (λ a ha. pure-Gives (link a ps) (all_link a ps ha hs)))
      eval_parameters-Gives (one_parameter tree) =
          bind-Gives (eval_term-Gives tree)
            (λ a ha. pure-Gives (link a end) (all_link a end ha all_end))

    eval_action-Gives : (tree : ActionTree) → Gives IsCall (eval_action p fuel ulong_max tree)
    unfolding eval_action
    eval_action-Gives (function_call tree) = eval_call-Gives tree
    eval_action-Gives (assignment name tree) =
        bind-Gives (new_identifier-Gives name)
          (λ a ha. bind-Gives (eval_term-Gives tree) (λ b hb. two-Gives _ a b ha hb))

    eval_actions-Gives :
        (before : Terms) (trees : List ActionTree)
        → AllCalls before
        → Gives AllCalls (eval_actions p fuel ulong_max before trees)
    unfolding eval_actions AllCalls
    eval_actions-Gives before [] h = pure-Gives before h
    eval_actions-Gives before (tree ∷ trees) h =
        bind-Gives (eval_action-Gives tree)
          (λ a ha. eval_actions-Gives (link a before) trees (ha, h))

    eval_block-Gives : (tree : BlockTree) → Gives AllCalls (eval_block p fuel ulong_max tree)
    unfolding eval_block AllCalls term_reverse
    eval_block-Gives (one_action tree) =
        bind-Gives (eval_action-Gives tree) (λ a ha. pure-Gives (link a end) (ha, tt))
    eval_block-Gives (braces trees) =
        bind-Gives (eval_actions-Gives end trees tt)
          (λ ps hs. pure-Gives (term_reverse ps) (reverse_onto-AllCalls end ps tt hs))

    -- What a block of actions gives to run, where its parse goes well, are calls of functions of the
    -- table, each with at least the parameters that the table asks for, and so are the calls among
    -- its parameters.
    pub eval_block-AllCalls :
        (tree : BlockTree) (ps : Terms) (s s' : State W)
        → eval_block p fuel ulong_max tree s ≡ (ok (some ps), s')
        → AllCalls ps
    eval_block-AllCalls tree ps s s' e = subst (Holds AllCalls) e ((eval_block-Gives tree).gives s)

-- The names of the operators are in the table, so `built` follows no NULL.
operators_found :
    (a b : Term)
    → (lookup_function (codes "+") (arity_of (link a (link b end))) ≡ some fun_add)
      × (lookup_function (codes "-") (arity_of (link a (link b end))) ≡ some fun_subtract)
      × (lookup_function (codes "=") (arity_of (link a (link b end))) ≡ some fun_assign)
unfolding lookup_function find_function function_table str_eq arity_of
operators_found a b = (refl, refl, refl)
