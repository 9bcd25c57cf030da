-- ===== src/Script/Grammar/Scripts.antt =====
-- Scripts that set variables, from their text to the variables: the input, the lexer, the actions of
-- the grammar, and the functions they call.
use nerves_initramfs.Base.{
  leb, take_all, true, ℕ, suc, ◌+◌, ◌^◌, ◌≤◌, ◌<◌, List, map, [], ◌∷◌, some, ◌≡◌, refl, ap, ◌∙◌,
  arith, length, All, ◌*◌, none, if◌then◌else◌, append_All, ltb,
}
use nerves_initramfs.Base.CString.{Bytes}
use nerves_initramfs.Base.Int.{pos, negsuc}
use nerves_initramfs.Base.Format.{dec}
use nerves_initramfs.Script.Machine
use nerves_initramfs.Script.Machine.{State, Platform, ok, deref, heap_size}
use nerves_initramfs.Script.Flags.{bind_ok}
use nerves_initramfs.Script.Settings.{Value, text, flag, count}
use nerves_initramfs.Script.Vars.{value_of}
use nerves_initramfs.Script.Grammar.Trees.{
  assignment, Parsed, Comparator, neq, lt, lte, eq, gte, gt, comparison, identifier_leaf,
}
use nerves_initramfs.Script.Grammar.{
  eval_statements, yyparse, finish_parse, eval_input, eval_file, eval_string,
}
use nerves_initramfs.Script.Grammar.Assign.{leaf_of, HasLiteral}
use nerves_initramfs.Script.Grammar.Text.{
  term_tokens, action_tokens, statement_tokens, statements_tokens, condition_tokens, block_tokens,
  comparator_token,
}
use nerves_initramfs.Script.Lexer.{Lexeme, Token, token, lex, identifier_token, arrow_token}
use nerves_initramfs.Script.Lexer.Print.{print_tokens, IsToken}
use nerves_initramfs.Script.Lexer.RoundTrip.{lex-print_tokens}
use nerves_initramfs.Script.Lexer.Input.{lexer_set_input, lexer_set_file, read_all, read_all_lem}
use nerves_initramfs.Script.Gc.{IsKept, IsDistinct, gc_bytes, gc_bytes_aligned, gc_run}
use nerves_initramfs.Script.Value.{term_gc_heap}
use nerves_initramfs.Script.Digits.{dec_onto-AreDigits}
use nerves_initramfs.Script.Grammar.Line.{
  Line, always, where_holds, statement_of, result_of, outcome, AreReadable, HasLiterals,
  script_bytes,
}
use nerves_initramfs.Script.Grammar.Statements.{statements_lem}

-- A line that a script can have: its names are identifiers, and its values have literals.
unfoldable pub IsWritable : Line → Type 0
IsWritable (always (key, value)) = IsToken (identifier_token key) × HasLiteral value
IsWritable (where_holds name c t (key, value)) =
    IsToken (identifier_token name)
    × HasLiteral (text t)
    × IsToken (identifier_token key)
    × HasLiteral value

-- the tokens and the text of a script
abbrev pub script_tokens : List Line → List Token
script_tokens lines = statements_tokens (map statement_of lines)

abbrev pub script_text : List Line → Bytes
script_text lines = print_tokens (script_tokens lines)

leaf-AreTokens : (value : Value) → HasLiteral value → All IsToken (term_tokens (leaf_of value))
unfolding term_tokens leaf_of HasLiteral IsToken dec
leaf-AreTokens (text s) h = ((s, refl, h), tt)
leaf-AreTokens (flag b) h = (tt, tt)
leaf-AreTokens (count n) h = (dec_onto-AreDigits 9 n, tt)

assignment-AreTokens :
    (key : Bytes) (value : Value)
    → IsToken (identifier_token key)
    → HasLiteral value
    → All IsToken (action_tokens (assignment key (leaf_of value)))
unfolding action_tokens IsToken
assignment-AreTokens key value name literal = (name, (tt, leaf-AreTokens value literal))

comparator-IsToken : (c : Comparator) → IsToken (comparator_token c)
unfolding comparator_token IsToken
comparator-IsToken neq = tt
comparator-IsToken lt = tt
comparator-IsToken lte = tt
comparator-IsToken eq = tt
comparator-IsToken gte = tt
comparator-IsToken gt = tt

arrow-IsToken : IsToken arrow_token
unfolding IsToken
arrow-IsToken = tt

line-AreTokens :
    (line : Line) → IsWritable line → All IsToken (statement_tokens (statement_of line))
unfolding statement_tokens statement_of IsWritable condition_tokens block_tokens term_tokens leaf_of
line-AreTokens (always (key, value)) (name, literal) = assignment-AreTokens key value name literal
line-AreTokens (where_holds other c t (key, value)) (name, literal, name', literal') =
    append_All IsToken (condition_tokens (comparison c (identifier_leaf other) (leaf_of (text t))))
      (arrow_token ∷ action_tokens (assignment key (leaf_of value)))
      (name, (comparator-IsToken c, leaf-AreTokens (text t) literal))
      (arrow-IsToken, assignment-AreTokens key value name' literal')

lines-AreTokens :
    (lines : List Line)
    → All IsWritable lines
    → All IsToken (statements_tokens (map statement_of lines))
unfolding statements_tokens
lines-AreTokens [] all = tt
lines-AreTokens (line ∷ lines) (h, all) =
    append_All IsToken _ _ (line-AreTokens line h) (lines-AreTokens lines all)

writable-HasLiterals : (lines : List Line) → All IsWritable lines → All HasLiterals lines
unfolding IsWritable HasLiterals
writable-HasLiterals [] all = tt
writable-HasLiterals (always (key, value) ∷ lines) ((name, literal), all) =
    (literal, writable-HasLiterals lines all)
writable-HasLiterals (where_holds other c t (key, value) ∷ lines) ((name, l, name', l'), all) =
    ((l, l'), writable-HasLiterals lines all)

module _ {W Fd : Type 0} (p : Platform W Fd) (fuel ulong_max : ℕ) (wide : 2 ^ 31 ≤ ulong_max)
    (parse : List Lexeme → Parsed) (lexer_max : ℕ) where
  -- A text of tokens reaches the parser as these tokens.
  eval_tokens :
      (tokens : List Token) (s : State W)
      → 0 < lexer_max
      → length (print_tokens tokens) < 2 * lexer_max
      → All IsToken tokens
      → eval_input p
          (suc (suc fuel))
          ulong_max
          parse
          lexer_max
          []
          (lexer_set_input (print_tokens tokens))
          s
        ≡ yyparse p (suc (suc fuel)) ulong_max (parse (map token tokens)) s
  unfolding eval_input lexer_set_input
  eval_tokens tokens s positive short all =
      let input = print_tokens tokens in
      let fits : ltb (length input) (2 * lexer_max) ≡ true = ground arith in
      let three : length input + 3 ≡ suc (suc (suc (length input))) = omega arith in
      let read : read_all (length input + 3) (lexer_set_input input) lexer_max ≡ some input =
        ap (λ n. read_all n (lexer_set_input input) lexer_max) three
        ∙ read_all_lem (length input) input lexer_max positive
        ∙ ap (λ b. if b then some input else none) fits in
      ap
        (λ o.
          Machine.◌>>=◌ (deref o)
            (λ text. yyparse p (suc (suc fuel)) ulong_max (parse (lex (length text) text))) s)
        read
      ∙ ap (λ l. yyparse p (suc (suc fuel)) ulong_max (parse l) s)
          (lex-print_tokens tokens (length input) all (omega arith))

  -- A script that sets variables, from its text to the variables. Each line sets a name that is an
  -- identifier to a text without quotes and new lines, a truth value or a number below 2 ^ 31, always
  -- or where a variable compares with a text, by any of the comparisons; a blank stands behind each
  -- token. Where flex holds nothing of an input before, the text is shorter than twice what flex asks for, the parser reduces these tokens to
  -- these statements, a variable that is compared is a string by then, no name is bound twice, each
  -- value is neither NULL nor a call, and the heap has room for the collection and the script,
  -- `eval_string` succeeds: its result is the value of the last statement, and the names are bound to
  -- what the lines, one behind the other, make of what they were bound to; no try for a device is used.
  pub eval_string_lines :
      (lines : List Line) (s : State W)
      → All IsWritable lines
      → 0 < lexer_max
      → length (script_text lines) < 2 * lexer_max
      → parse (map token (script_tokens lines))
        ≡ record { statements = map statement_of lines; syntax_error = none }
      → AreReadable lines (value_of s.variables)
      → All IsKept s.variables
      → IsDistinct s.variables
      → gc_bytes p s.variables + script_bytes p lines ≤ heap_size
      → (s' : State W) × (eval_string p
            (suc (suc fuel))
            ulong_max
            parse
            lexer_max
            []
            (script_text lines)
            s
          ≡ (ok (pos 0, result_of none lines), s'))
        × ((name : Bytes) → value_of s'.variables name ≡ outcome lines (value_of s.variables) name)
        × (s'.tries ≡ s.tries)
  unfolding eval_string yyparse finish_parse
  eval_string_lines lines s writable positive short parses readable kept distinct fits =
      let f = suc (suc fuel) in
      let tokens = script_tokens lines in
      let (s₁, gc, index, same, tries) = gc_run p s kept distinct (omega (arith, fits)) in
      let aligned = gc_bytes_aligned p s.variables in
      let (s', run, values, tries') =
        statements_lem p fuel ulong_max wide lines none (value_of s.variables) s₁
          (writable-HasLiterals lines writable) readable same (omega (arith, index, aligned))
          (omega (arith, index, fits)) in
      (
        s',
        bind_ok (term_gc_heap p) _ gc
            ∙ eval_tokens tokens s₁ positive short (lines-AreTokens lines writable)
            ∙ ap (λ parsed. yyparse p f ulong_max parsed s₁) parses
            ∙ bind_ok (eval_statements p f ulong_max none (map statement_of lines))
                (finish_parse p f ulong_max none) run,
        values,
        tries' ∙ tries,
      )

  -- A file that is read whole is evaluated as a string is.
  pub eval_file-eval_string :
      (content : Bytes) (s : State W)
      → eval_file p (suc (suc fuel)) ulong_max parse lexer_max [] (some content) (length content) s
        ≡ eval_string p (suc (suc fuel)) ulong_max parse lexer_max [] content s
  unfolding eval_file eval_string lexer_set_file
  eval_file-eval_string content s =
      let len = length content in
      let whole : leb len len ≡ true = ground arith in
      let same : lexer_set_file (some content) len ≡ some (lexer_set_input content) =
        rw (whole, take_all len content (omega arith)) refl in
      ap
        (λ o.
          Machine.◌>>◌ (term_gc_heap p)
            (elim o [
              | none ↦ Machine.pure (negsuc 0, none)
              | some input ↦ eval_input p (suc (suc fuel)) ulong_max parse lexer_max [] input
            ])
            s)
        same
