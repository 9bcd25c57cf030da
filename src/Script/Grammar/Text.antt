-- ===== src/Script/Grammar/Text.antt =====
-- The tokens of the parse trees of src/parser.y, by the right sides of its productions.
use nerves_initramfs.Base.{List, [], ◌∷◌, ◌++◌}
use nerves_initramfs.Script.Lexer.{
  Token, boolean_token, open_brace, close_brace, open_paren, close_paren, and_token, or_token,
  eq_token, neq_token, lte_token, gte_token, gt_token, lt_token, not_token, assign_token,
  arrow_token, plus_token, minus_token, comma_token, string_token, hex_token, dec_token,
  identifier_token,
}
use nerves_initramfs.Script.Grammar.Trees.{
  TermTree, plus, minus, negative, parens, identifier_leaf, string_leaf, hex_leaf, dec_leaf,
  boolean_leaf, call_term, CallTree, call, ParametersTree, no_parameters, more_parameters,
  one_parameter, ActionTree, function_call, assignment, BlockTree, one_action, braces, Comparator,
  neq, lt, lte, eq, gte, gt, ConditionTree, term_condition, parens_condition, comparison, negation,
  conjunction, disjunction, StatementTree, rule, action,
}

unfoldable mutual
  pub term_tokens : TermTree → List Token
  term_tokens (plus left right) = term_tokens left ++ (plus_token ∷ term_tokens right)
  term_tokens (minus left right) = term_tokens left ++ (minus_token ∷ term_tokens right)
  term_tokens (negative tree) = minus_token ∷ term_tokens tree
  term_tokens (parens tree) = open_paren ∷ (term_tokens tree ++ (close_paren ∷ []))
  term_tokens (identifier_leaf text) = identifier_token text ∷ []
  term_tokens (string_leaf text) = string_token text ∷ []
  term_tokens (hex_leaf digits) = hex_token (b'0' ∷ b'x' ∷ digits) ∷ []
  term_tokens (dec_leaf digits) = dec_token digits ∷ []
  term_tokens (boolean_leaf b) = boolean_token b ∷ []
  term_tokens (call_term tree) = call_tokens tree

  pub call_tokens : CallTree → List Token
  call_tokens (call line name tree) =
      identifier_token name ∷ open_paren ∷ (parameters_tokens tree ++ (close_paren ∷ []))

  pub parameters_tokens : ParametersTree → List Token
  parameters_tokens no_parameters = []
  parameters_tokens (more_parameters tree last) =
      parameters_tokens tree ++ (comma_token ∷ term_tokens last)
  parameters_tokens (one_parameter tree) = term_tokens tree

unfoldable pub action_tokens : ActionTree → List Token
action_tokens (function_call tree) = call_tokens tree
action_tokens (assignment name tree) = identifier_token name ∷ assign_token ∷ term_tokens tree

unfoldable pub actions_tokens : List ActionTree → List Token
actions_tokens [] = []
actions_tokens (tree ∷ trees) = action_tokens tree ++ actions_tokens trees

unfoldable pub block_tokens : BlockTree → List Token
block_tokens (one_action tree) = action_tokens tree
block_tokens (braces trees) = open_brace ∷ (actions_tokens trees ++ (close_brace ∷ []))

unfoldable pub comparator_token : Comparator → Token
comparator_token neq = neq_token
comparator_token lt = lt_token
comparator_token lte = lte_token
comparator_token eq = eq_token
comparator_token gte = gte_token
comparator_token gt = gt_token

unfoldable pub condition_tokens : ConditionTree → List Token
condition_tokens (term_condition tree) = term_tokens tree
condition_tokens (parens_condition tree) =
    open_paren ∷ (condition_tokens tree ++ (close_paren ∷ []))
condition_tokens (comparison c left right) =
    term_tokens left ++ (comparator_token c ∷ term_tokens right)
condition_tokens (negation tree) = not_token ∷ condition_tokens tree
condition_tokens (conjunction left right) =
    condition_tokens left ++ (and_token ∷ condition_tokens right)
condition_tokens (disjunction left right) =
    condition_tokens left ++ (or_token ∷ condition_tokens right)

unfoldable pub statement_tokens : StatementTree → List Token
statement_tokens (rule condition block) =
    condition_tokens condition ++ (arrow_token ∷ block_tokens block)
statement_tokens (action tree) = action_tokens tree

unfoldable pub statements_tokens : List StatementTree → List Token
statements_tokens [] = []
statements_tokens (tree ∷ trees) = statement_tokens tree ++ statements_tokens trees
