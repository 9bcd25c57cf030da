-- ===== src/Script/Grammar.antt =====
-- The grammar of src/parser.y as parse trees, with a constructor for each production, and its actions,
-- which bison runs from the leaves up and from left to right. The term of a token is made where the
-- tree has the token; the lexer makes it one token ahead.
pub mod Trees
pub mod Text
pub mod Assign
pub mod Line
pub mod Conditions
pub mod Statements
pub mod Scripts
pub mod Calls
use nerves_initramfs.Base.{
  ℕ, ◌+◌, min, Bool, true, false, not, ◌&&◌, ◌||◌, List, [], ◌∷◌, ◌++◌, Option, none, some,
  if◌then◌else◌, length,
}
use nerves_initramfs.Base.CString.{Bytes, codes}
use nerves_initramfs.Base.Int.{ℤ, pos, negsuc, ◌-ℤ◌, wrap, to_int, ltb_ℤ, eqb_ℤ}
use nerves_initramfs.Base.Format.{dec}
use nerves_initramfs.Script.Defs.{Term, Terms, end, link, term_reverse}
use nerves_initramfs.Script.Machine
use nerves_initramfs.Script.Machine.{
  State, Platform, Outcome, ok, stop, M, deref, does, term_new_number, term_new_qstring,
  term_new_boolean, term_new_identifier, term_new_fun,
}
use nerves_initramfs.Script.Strtoull.{digits_value}
use nerves_initramfs.Script.Value.{term_gc_heap}
use nerves_initramfs.Script.Convert.{term_compare, term_to_boolean, term_to_number}
use nerves_initramfs.Script.Run.{evaluator, run_functions}
use nerves_initramfs.Script.Lexer.{Lexeme, lex}
use nerves_initramfs.Script.Lexer.Input.{Input, lexer_set_input, lexer_set_file, read_all}
use nerves_initramfs.Script.Grammar.Trees.{
  TermTree, plus, minus, negative, parens, identifier_leaf, string_leaf, hex_leaf, dec_leaf,
  boolean_leaf, call_term, CallTree, call, ParametersTree, no_parameters, more_parameters,
  one_parameter, ActionTree, function_call, assignment, BlockTree, one_action, braces, Comparator,
  neq, lt, lte, eq, gte, gt, ConditionTree, term_condition, parens_condition, comparison, negation,
  conjunction, disjunction, StatementTree, rule, action, Symbol, name_symbol, term_symbol,
  parameters_symbol, action_symbol, actions_symbol, condition_symbol, SyntaxError, Parsed,
}

-- An action: `none` is YYERROR, which ends the parse.
abbrev pub G : Type 0 → Type 0 → Type 0
G W A = M W (Option A)

module _ {W : Type 0} where
  abbrev pub next :
      {A B : Type 0} → Outcome (Option A) × State W → (A → G W B) → Outcome (Option B) × State W
  next (ok (some a), s) f = f a s
  next (ok none, s) f = (ok none, s)
  next (stop why, s) f = (stop why, s)

  infixl 5 ◌>>=◌ ◌>>◌
  unfoldable pub ◌>>=◌ : {A B : Type 0} → G W A → (A → G W B) → G W B
  ◌>>=◌ m f s = next (m s) f

  abbrev pub ◌>>◌ : {A B : Type 0} → G W A → G W B → G W B
  m >> n = m >>= λ _. n

  unfoldable pub pure : {A : Type 0} → A → G W A
  pure a s = (ok (some a), s)

  unfoldable pub does_step : {A : Type 0} → M W A → G W A
  does_step m = Machine.◌>>=◌ m (λ a. Machine.pure (some a))

unfoldable pub holds : Comparator → ℤ → Bool
holds neq c = not (eqb_ℤ c (pos 0))
holds lt c = ltb_ℤ c (pos 0)
holds lte c = not (ltb_ℤ (pos 0) c)
holds eq c = eqb_ℤ c (pos 0)
holds gte c = not (ltb_ℤ c (pos 0))
holds gt c = ltb_ℤ (pos 0) c

-- the term of a name in the table
unfoldable pub built : {W : Type 0} → M W (Option Term) → G W Term
built m = does_step (Machine.◌>>=◌ m deref)

module _ {W Fd : Type 0} (p : Platform W Fd) where
  -- `yyerror` at a line
  unfoldable pub yyerror : ℕ → Bytes → M W (Unit {0})
  yyerror line msg =
      does (
        p.stderr
          (codes "Error on line " ++ (dec (pos line) ++ (codes ": " ++ (msg ++ codes "\n")))))

  -- a function that is found, or YYERROR
  unfoldable pub called : ℕ → Option Term → G W Term
  unfolding yyerror
  called line (some rc) = pure rc
  called line none =
      Machine.◌>>=◌ (yyerror line (codes "unknown function")) (λ u. Machine.pure none)

-- `ulong_max` is `ULONG_MAX`, where `strtoul` stops.
module _ {W Fd : Type 0} (p : Platform W Fd) (fuel ulong_max : ℕ) where
  unfoldable mutual
    pub eval_term : TermTree → G W Term
    eval_term (plus left right) = do
      a ← eval_term left
      b ← eval_term right
      built (term_new_fun p (codes "+") (link a (link b end)))
    eval_term (minus left right) = do
      a ← eval_term left
      b ← eval_term right
      built (term_new_fun p (codes "-") (link a (link b end)))
    eval_term (negative tree) = do
      a ← eval_term tree
      n ← does_step (term_to_number p (evaluator p fuel) a)
      does_step (term_new_number p (wrap (pos 0 -ℤ n)))
    eval_term (parens tree) = eval_term tree
    eval_term (identifier_leaf text) = does_step (term_new_identifier p text)
    eval_term (string_leaf text) = does_step (term_new_qstring p text)
    eval_term (hex_leaf digits) =
        does_step (term_new_number p (to_int (min ulong_max (digits_value 16 digits 0))))
    eval_term (dec_leaf digits) =
        does_step (term_new_number p (to_int (min ulong_max (digits_value 10 digits 0))))
    eval_term (boolean_leaf b) = does_step (term_new_boolean p b)
    eval_term (call_term tree) = eval_call tree

    pub eval_call : CallTree → G W Term
    eval_call (call line name tree) = do
      does_step (term_new_identifier p name)
      parameters ← eval_parameters tree
      rc ← does_step (term_new_fun p name (term_reverse parameters))
      called p line rc

    -- the last parameter first
    pub eval_parameters : ParametersTree → G W Terms
    eval_parameters no_parameters = pure end
    eval_parameters (more_parameters tree last) = do
      parameters ← eval_parameters tree
      a ← eval_term last
      pure (link a parameters)
    eval_parameters (one_parameter tree) = do a ← eval_term tree; pure (link a end)

  unfoldable pub eval_action : ActionTree → G W Term
  eval_action (function_call tree) = eval_call tree
  eval_action (assignment name tree) = do
    a ← does_step (term_new_identifier p name)
    b ← eval_term tree
    built (term_new_fun p (codes "=") (link a (link b end)))

  -- the actions in braces, the last first
  unfoldable pub eval_actions : Terms → List ActionTree → G W Terms
  eval_actions before [] = pure before
  eval_actions before (tree ∷ trees) = do a ← eval_action tree; eval_actions (link a before) trees

  unfoldable pub eval_block : BlockTree → G W Terms
  eval_block (one_action tree) = do a ← eval_action tree; pure (link a end)
  eval_block (braces trees) = do actions ← eval_actions end trees; pure (term_reverse actions)

  -- Both sides of && and || are evaluated while they are parsed.
  unfoldable pub eval_condition : ConditionTree → G W Bool
  eval_condition (term_condition tree) = do
    a ← eval_term tree
    does_step (term_to_boolean p (evaluator p fuel) a)
  eval_condition (parens_condition tree) = eval_condition tree
  eval_condition (comparison c left right) = do
    a ← eval_term left
    b ← eval_term right
    order ← does_step (term_compare p (evaluator p fuel) a b)
    pure (holds c order)
  eval_condition (negation tree) = do a ← eval_condition tree; pure (not a)
  eval_condition (conjunction left right) = do
    a ← eval_condition left
    b ← eval_condition right
    pure (a && b)
  eval_condition (disjunction left right) = do
    a ← eval_condition left
    b ← eval_condition right
    pure (a || b)

  -- the value of a statement; `none` inside is NULL
  unfoldable pub eval_statement : StatementTree → G W (Option Term)
  eval_statement (rule condition block) = do
    holding ← eval_condition condition
    actions ← eval_block block
    if holding then does_step (run_functions p fuel actions) >> pure none else pure none
  eval_statement (action tree) = do
    a ← eval_action tree
    does_step (run_functions p fuel (link a end))

  -- `parser_result`, and whether all statements were reduced
  unfoldable pub eval_statements : Option Term → List StatementTree → M W (Option Term × Bool)
  eval_statements parser_result [] = Machine.pure (parser_result, true)
  eval_statements parser_result (tree ∷ trees) = Machine.◌>>=◌ (eval_statement tree) (λ result.
      elim result [
        | none ↦ Machine.pure (parser_result, false)
        | some value ↦ eval_statements value trees
      ])

  -- A symbol that no statement takes: its actions have run when the syntax error comes.
  unfoldable pub eval_symbol : Symbol → G W (Unit {0})
  eval_symbol (name_symbol text) = does_step (term_new_identifier p text) >> pure tt
  eval_symbol (term_symbol tree) = eval_term tree >> pure tt
  eval_symbol (parameters_symbol tree) = eval_parameters tree >> pure tt
  eval_symbol (action_symbol tree) = eval_action tree >> pure tt
  eval_symbol (actions_symbol trees) = eval_actions end trees >> pure tt
  eval_symbol (condition_symbol tree) = eval_condition tree >> pure tt

  unfoldable pub eval_symbols : List Symbol → G W (Unit {0})
  unfolding eval_symbol
  eval_symbols [] = pure tt
  eval_symbols (symbol ∷ symbols) = eval_symbol symbol >> eval_symbols symbols

  -- a syntax error, unless a call of an unknown function ends the parse before it
  unfoldable pub syntax_fails : ℕ → Option Term → Option (Unit {0}) → M W (ℤ × Option Term)
  syntax_fails line result none = Machine.pure (pos 1, result)
  syntax_fails line result (some u) =
      Machine.◌>>=◌ (yyerror p line (codes "syntax error")) (λ u. Machine.pure (pos 1, result))

  -- What follows the last statement: bison's error, if there is one, behind the actions of what it has
  -- reduced by then.
  unfoldable pub finish_parse : Option SyntaxError → Option Term × Bool → M W (ℤ × Option Term)
  unfolding syntax_fails
  finish_parse error (result, false) = Machine.pure (pos 1, result)
  finish_parse none (result, true) = Machine.pure (pos 0, result)
  finish_parse (some error) (result, true) =
      Machine.◌>>=◌ (eval_symbols error.unfinished) (syntax_fails error.line result)

  -- The value, and `parser_result`.
  unfoldable pub yyparse : Parsed → M W (ℤ × Option Term)
  yyparse parsed =
      Machine.◌>>=◌ (eval_statements none parsed.statements) (finish_parse parsed.syntax_error)

  -- The parser of bison is an argument. flex asks for `lexer_max` bytes at a time until it gets none;
  -- its buffer still holds `held` in front of them, which is the rest of an input whose parse failed,
  -- since only the end of an input empties it.
  module _ (parse : List Lexeme → Parsed) (lexer_max : ℕ) (held : Bytes) where
    unfoldable pub eval_input : Input → M W (ℤ × Option Term)
    eval_input input =
        Machine.◌>>=◌ (deref (read_all (length input.lexer_input + 3) input lexer_max))
          (λ text. yyparse (parse (lex (length (held ++ text)) (held ++ text))))

    unfoldable pub eval_string : Bytes → M W (ℤ × Option Term)
    eval_string input = Machine.◌>>◌ (term_gc_heap p) (eval_input (lexer_set_input input))

    -- A file's bytes, or `none` where it does not open, and its length. Where it cannot be read,
    -- `parser_result` stays, which `none` stands for.
    unfoldable pub eval_file : Option Bytes → ℕ → M W (ℤ × Option Term)
    eval_file file len = Machine.◌>>◌ (term_gc_heap p) (elim (lexer_set_file file len) [
      | none ↦ Machine.pure (negsuc 0, none)
      | some input ↦ eval_input input
    ])
