-- ===== src/Script/Grammar/Trees.antt =====
-- The parse trees of src/parser.y.
use nerves_initramfs.Base.{ℕ, Bool, List, Option}
use nerves_initramfs.Base.CString.{Bytes}

-- term, FunctionCall and Parameters. A call has the line where the lexer is behind it; a hexadecimal
-- number has the digits behind 0x.
mutual
  pub data TermTree : Type 0 where
    plus minus : TermTree → TermTree → TermTree
    negative parens : TermTree → TermTree
    identifier_leaf string_leaf hex_leaf dec_leaf : Bytes → TermTree
    boolean_leaf : Bool → TermTree
    call_term : CallTree → TermTree

  pub data CallTree : Type 0 where
    call : ℕ → Bytes → ParametersTree → CallTree

  pub data ParametersTree : Type 0 where
    no_parameters : ParametersTree
    more_parameters : ParametersTree → TermTree → ParametersTree
    one_parameter : TermTree → ParametersTree

-- Action
pub data ActionTree : Type 0 where
  function_call : CallTree → ActionTree
  assignment : Bytes → TermTree → ActionTree

-- ActionBlock, and Actions from first to last
pub data BlockTree : Type 0 where
  one_action : ActionTree → BlockTree
  braces : List ActionTree → BlockTree

-- the operators of Comparison
pub data Comparator : Type 0 where
  neq lt lte eq gte gt : Comparator

-- BooleanExpression and Comparison
pub data ConditionTree : Type 0 where
  term_condition : TermTree → ConditionTree
  parens_condition negation : ConditionTree → ConditionTree
  comparison : Comparator → TermTree → TermTree → ConditionTree
  conjunction disjunction : ConditionTree → ConditionTree → ConditionTree

-- Rule and Statement
pub data StatementTree : Type 0 where
  rule : ConditionTree → BlockTree → StatementTree
  action : ActionTree → StatementTree

-- What the parser has reduced of a statement that a syntax error breaks: the symbols on its stack.
pub data Symbol : Type 0 where
  name_symbol : Bytes → Symbol
  term_symbol : TermTree → Symbol
  parameters_symbol : ParametersTree → Symbol
  action_symbol : ActionTree → Symbol
  actions_symbol : List ActionTree → Symbol
  condition_symbol : ConditionTree → Symbol

-- The symbols of that statement from left to right, and the line of the error.
pub record SyntaxError : Type 0 where
  pub unfinished : List Symbol
  pub line : ℕ

-- What the parser reduces: the statements, and a syntax error behind them.
pub record Parsed : Type 0 where
  pub statements : List StatementTree
  pub syntax_error : Option SyntaxError
