-- ===== src/Tests/Grammar.antt =====
-- The lexer and the grammar.
use nerves_initramfs.Base.{
  ◌*◌, true, [], ◌∷◌, ◌++◌, none, some, ◌≡◌, refl, arith, length, if◌then◌else◌, ltb, List, ap, map,
  All,
}
use nerves_initramfs.Base.CString.{codes, has_prefix, str_eq, Bytes}
use nerves_initramfs.Script.{
  Terms, end, link, fun, fun_reboot, lookup_function, arity_of, term_reverse,
}
use nerves_initramfs.Script.Machine.{
  State, ok, term_new_identifier, term_new_fun, alloc_heap, alloc_string, alloc_call,
}
use nerves_initramfs.Script.Lexer.{
  token, echo, line_end, identifier_token, assign_token, hex_token, arrow_token, boolean_token,
  eq_token, lex, lex_step, longest, rules, span, is_identifier, Lexeme, Token, string_token,
  dec_token,
}
use nerves_initramfs.Base.Int.{pos}
use nerves_initramfs.Script.Lexer.Print.{print_tokens, IsToken}
use nerves_initramfs.Script.Lexer.RoundTrip.{lex-print_tokens}
use nerves_initramfs.Script.Settings.{text, count, flag}
use nerves_initramfs.Script.Vars.{value_of}
use nerves_initramfs.Script.Gc.{gc_bytes, dupe_bytes}
use nerves_initramfs.Script.Grammar.Trees.{
  StatementTree, action, assignment, string_leaf, dec_leaf, boolean_leaf, Parsed, rule, comparison,
  eq, identifier_leaf, BlockTree, one_action, function_call, call, no_parameters,
}
use nerves_initramfs.Script.Grammar.Text.{
  term_tokens, action_tokens, statement_tokens, statements_tokens, condition_tokens,
  comparator_token, block_tokens,
}
use nerves_initramfs.Script.Grammar
use nerves_initramfs.Script.Grammar.{
  eval_string, eval_block, eval_action, eval_call, eval_parameters, does_step, pure, called,
}
use nerves_initramfs.Script.Grammar.Assign.{leaf_of, HasLiteral}
use nerves_initramfs.Script.Grammar.Line.{
  Line, always, where_holds, statement_of, result_of, script_bytes, line_bytes, outcome, step,
  AreReadable, IsReadable,
}
use nerves_initramfs.Script.Grammar.Scripts.{IsWritable, script_text, eval_string_lines}
use nerves_initramfs.Script.Lexer.Lines.{lex-append}
use nerves_initramfs.Script.Lexer.Input.{lexer_set_input, read_all, read_all_lem}
use nerves_initramfs.Script.Grammar.Calls.{AllCalls, eval_block-AllCalls}
use nerves_initramfs.Tests.Script.{idle, two_vars, two_vars-IsDistinct}

-- the longest match, and of matches of one length the first
rule_tokens :
    lex 40 (codes "a==true->b=0x1F;truer $\n")
    ≡ token (identifier_token (codes "a"))
      ∷ token eq_token
      ∷ token (boolean_token true)
      ∷ token arrow_token
      ∷ token (identifier_token (codes "b"))
      ∷ token assign_token
      ∷ token (hex_token (codes "0x1F"))
      ∷ token (identifier_token (codes "truer"))
      ∷ echo b'$'
      ∷ line_end
      ∷ []
unfolding lex lex_step longest rules span is_identifier has_prefix
rule_tokens = refl

-- a string that the first line does not close
lex-append_example :
    lex 12 (codes "a=\"b # c\nd=1") ≡ lex 8 (codes "a=\"b # c") ++ (line_end ∷ lex 3 (codes "d=1"))
lex-append_example =
    lex-append 12 8 3 (codes "a=\"b # c") (codes "d=1")
      (refl, (refl, (refl, (refl, (refl, (refl, (refl, (refl, tt)))))))) (omega arith) (omega arith)
      (omega arith)

read_all_lem_example :
    read_all 3 (lexer_set_input (codes "reboot()")) 4
    ≡ (if ltb (length (codes "reboot()")) (2 * 4) then some (codes "reboot()") else none)
read_all_lem_example = read_all_lem 0 (codes "reboot()") 4 (omega arith)

abbrev a_name : Bytes
a_name = codes "a"

-- identifiers of one letter that are no digit
a_name-IsToken : IsToken (identifier_token a_name)
unfolding IsToken is_identifier span has_prefix
a_name-IsToken = (
  b'a',
  [],
  refl,
  (refl, tt),
  (λ same. omega (arith, ap length same)),
  (λ same. omega (arith, ap length same)),
  omega arith,
  omega arith,
)

abbrev some_tokens : List Token
some_tokens =
    identifier_token a_name
    ∷ eq_token
    ∷ hex_token (codes "0x1F")
    ∷ arrow_token
    ∷ identifier_token a_name
    ∷ assign_token
    ∷ string_token (codes "\"b c\"")
    ∷ dec_token (codes "10")
    ∷ []

some_tokens-AreTokens : All IsToken some_tokens
unfolding IsToken
some_tokens-AreTokens = (
  a_name-IsToken,
  (
    tt,
    (
      (b'1', codes "F", refl, (refl, (refl, tt))),
      (
        tt,
        (
          a_name-IsToken,
          (
            tt,
            (
              (codes "b c", refl, (refl, (refl, (refl, tt)))),
              ((b'1', codes "0", refl, (refl, (refl, tt))), tt),
            ),
          ),
        ),
      ),
    ),
  ),
)

lex-print_tokens_example : lex 40 (print_tokens some_tokens) ≡ map token some_tokens
unfolding print_tokens
lex-print_tokens_example = lex-print_tokens some_tokens 40 some_tokens-AreTokens (omega arith)

-- a parser of assignments of literals, and of rules that compare a variable with a text
abbrev parse_lines : List Lexeme → List StatementTree
parse_lines (token (identifier_token key) ∷ token assign_token ∷ token (string_token s) ∷ rest) =
    action (assignment key (string_leaf s)) ∷ parse_lines rest
parse_lines (token (identifier_token key) ∷ token assign_token ∷ token (dec_token s) ∷ rest) =
    action (assignment key (dec_leaf s)) ∷ parse_lines rest
parse_lines (token (identifier_token key) ∷ token assign_token ∷ token (boolean_token b) ∷ rest) =
    action (assignment key (boolean_leaf b)) ∷ parse_lines rest
parse_lines
      (token (identifier_token name)
        ∷ token eq_token
        ∷ token (string_token t)
        ∷ token arrow_token
        ∷ token (identifier_token key)
        ∷ token assign_token
        ∷ token (string_token s)
        ∷ rest) =
    rule (comparison eq (identifier_leaf name) (string_leaf t))
      (one_action (assignment key (string_leaf s)))
    ∷ parse_lines rest
parse_lines _ = []

abbrev pub line_parser : List Lexeme → Parsed
line_parser lexemes = record { statements = parse_lines lexemes; syntax_error = none }

-- a="b c" a=="b c"->a="d" a=12 a=true
abbrev four_lines : List Line
four_lines =
    always (a_name, text (codes "b c"))
    ∷ where_holds a_name eq (codes "b c") (a_name, text (codes "d"))
    ∷ always (a_name, count 12)
    ∷ always (a_name, flag true)
    ∷ []

four_lines-AreWritable : All IsWritable four_lines
unfolding IsWritable HasLiteral
four_lines-AreWritable = (
  (a_name-IsToken, (refl, (refl, (refl, tt)))),
  (
    (a_name-IsToken, (refl, (refl, (refl, tt))), a_name-IsToken, (refl, tt)),
    ((a_name-IsToken, omega arith), ((a_name-IsToken, tt), tt)),
  ),
)

four_lines-AreReadable : AreReadable four_lines (value_of two_vars.variables)
unfolding AreReadable IsReadable step str_eq
four_lines-AreReadable = (tt, ((codes "b c", refl), (tt, (tt, tt))))

eval_string_lines_example :
    (s' : State (Unit {0})) × (eval_string idle 4 4294967295 line_parser 8192 []
        (script_text four_lines)
        two_vars
      ≡ (ok (pos 0, result_of none four_lines), s'))
    × ((name : Bytes)
        → value_of s'.variables name ≡ outcome four_lines (value_of two_vars.variables) name)
    × (s'.tries ≡ two_vars.tries)
unfolding print_tokens statements_tokens statement_tokens statement_of action_tokens term_tokens
    condition_tokens comparator_token block_tokens leaf_of gc_bytes script_bytes line_bytes
    dupe_bytes
eval_string_lines_example =
    eval_string_lines idle 2 4294967295 (omega arith) line_parser 8192 four_lines two_vars
      four_lines-AreWritable (omega arith) (omega arith) refl four_lines-AreReadable
      ((_, refl, tt), ((_, refl, tt), tt)) two_vars-IsDistinct (omega arith)

abbrev reboot_block : BlockTree
reboot_block = one_action (function_call (call 1 (codes "reboot") no_parameters))

abbrev reboot_call : Terms
reboot_call = link (fun fun_reboot end) end

abbrev behind_reboot : State (Unit {0})
behind_reboot = record two_vars { heap_index = 192 }

reboot_made :
    eval_block idle 5 4294967295 reboot_block two_vars ≡ (ok (some reboot_call), behind_reboot)
unfolding eval_block Grammar.◌>>=◌ eval_action eval_call eval_parameters does_step
    term_new_identifier alloc_string alloc_heap pure term_new_fun alloc_call lookup_function str_eq
    arity_of term_reverse called
reboot_made = refl

eval_block-AllCalls_example : AllCalls reboot_call
eval_block-AllCalls_example =
    eval_block-AllCalls idle 5 4294967295 reboot_block reboot_call two_vars behind_reboot
      reboot_made
