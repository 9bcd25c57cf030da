-- ===== src/Script/Lexer.antt =====
-- The rules of src/lexer.l and the reading of its input. flex takes the longest match, and of matches
-- of one length the first rule; a byte that no rule matches is echoed.
pub mod Rules
pub mod Munch
pub mod Stops
pub mod Lines
pub mod Print
pub mod Fixed
pub mod Reads
pub mod RoundTrip
pub mod Input
use nerves_initramfs.Base.{
  ℕ, zero, suc, ◌+◌, Bool, true, false, not, ◌&&◌, ◌||◌, List, [], ◌∷◌, ◌++◌, Option, none, some,
  ltb, leb, ◌==◌, if◌then◌else◌, length, take, drop,
}
use Prim.Native.String.{String}
use nerves_initramfs.Base.CString.{Bytes, codes, has_prefix}

-- The tokens, with the text of those that have a value.
pub data Token : Type 0 where
  boolean_token : Bool → Token
  open_brace close_brace open_paren close_paren : Token
  and_token or_token eq_token neq_token lte_token gte_token gt_token lt_token not_token : Token
  assign_token arrow_token plus_token minus_token comma_token : Token
  string_token hex_token dec_token identifier_token : Bytes → Token

-- What a rule does: nothing, a token, or a new line.
pub data Rule : Type 0 where
  skip newline : Rule
  makes : Token → Rule
  makes_text : (Bytes → Token) → Rule

abbrev pub is_digit : ℕ → Bool
is_digit c = leb b'0' c && leb c b'9'

abbrev pub is_hex : ℕ → Bool
is_hex c = is_digit c || (leb b'a' c && leb c b'f') || (leb b'A' c && leb c b'F')

-- [_a-zA-Z0-9.]
unfoldable pub is_identifier : ℕ → Bool
is_identifier c =
    c == b'_' || c == b'.' || is_digit c || (leb b'a' c && leb c b'z') || (leb b'A' c && leb c b'Z')

-- how many bytes in front satisfy a test
unfoldable pub span : (ℕ → Bool) → Bytes → ℕ
span p [] = 0
span p (c ∷ cs) = let rest = span p cs in if p c then suc rest else 0

-- The length of a match, 0 for none.
abbrev pub literal : Bytes → Bytes → ℕ
literal text input = if has_prefix text input then length text else 0

abbrev pub comment : Bytes → ℕ
comment [] = 0
comment (c ∷ cs) = if c == b'#' then suc (span (λ d. not (d == b'\n')) cs) else 0

-- 0x and a digit at least
abbrev pub hex_number : Bytes → ℕ
hex_number input =
    let digits = span is_hex (drop 2 input) in
    if has_prefix (codes "0x") input && ltb 0 digits then 2 + digits else 0

-- a quote, and bytes that are no quote and no new line, up to a quote
abbrev pub string : Bytes → ℕ
string [] = 0
string (c ∷ cs) =
    let inside = span (λ d. not (d == b'"') && not (d == b'\n')) cs in
    if c == b'"' && has_prefix (b'"' ∷ []) (drop inside cs) then inside + 2 else 0

abbrev pub fixed : String → Token → (Bytes → ℕ) × Rule
fixed text token = (literal (codes text), makes token)

unfoldable pub rules : List ((Bytes → ℕ) × Rule)
rules =
    (span (λ c. c == b' ' || c == b'\t'), skip)
    ∷ (comment, skip)
    ∷ fixed "true" (boolean_token true)
    ∷ fixed "false" (boolean_token false)
    ∷ fixed "{" open_brace
    ∷ fixed "}" close_brace
    ∷ fixed "(" open_paren
    ∷ fixed ")" close_paren
    ∷ fixed "&&" and_token
    ∷ fixed "||" or_token
    ∷ fixed "==" eq_token
    ∷ fixed "!=" neq_token
    ∷ fixed "<=" lte_token
    ∷ fixed ">=" gte_token
    ∷ fixed ">" gt_token
    ∷ fixed "<" lt_token
    ∷ fixed "!" not_token
    ∷ fixed "=" assign_token
    ∷ fixed "->" arrow_token
    ∷ (literal (codes ";"), skip)
    ∷ fixed "+" plus_token
    ∷ fixed "-" minus_token
    ∷ fixed "," comma_token
    ∷ (string, makes_text string_token)
    ∷ (hex_number, makes_text hex_token)
    ∷ (span is_digit, makes_text dec_token)
    ∷ (span is_identifier, makes_text identifier_token)
    ∷ (literal (codes "\n"), newline)
    ∷ []

-- The first of the longest matches, longer than `best`.
unfoldable pub longest :
    List ((Bytes → ℕ) × Rule) → Bytes → ℕ → Option (ℕ × Rule) → Option (ℕ × Rule)
longest [] input best found = found
longest ((match, rule) ∷ rest) input best found = elim (ltb best (match input)) [
  | true ↦ longest rest input (match input) (some (match input, rule))
  | false ↦ longest rest input best found
]

-- What comes out: tokens, echoed bytes, and where `yylineno` goes up by one.
pub data Lexeme : Type 0 where
  token : Token → Lexeme
  echo : ℕ → Lexeme
  line_end : Lexeme

abbrev pub lexeme_of : Rule → Bytes → List Lexeme
lexeme_of skip text = []
lexeme_of newline text = line_end ∷ []
lexeme_of (makes t) text = token t ∷ []
lexeme_of (makes_text f) text = token (f text) ∷ []

abbrev pub lex_found : Option (ℕ × Rule) → ℕ → Bytes → List Lexeme × Bytes
lex_found none c cs = (echo c ∷ [], cs)
lex_found (some (n, rule)) c cs = (lexeme_of rule (take n (c ∷ cs)), drop n (c ∷ cs))

-- one round of `yylex`: what it gives, and the rest of the input
unfoldable pub lex_step : ℕ → Bytes → List Lexeme × Bytes
lex_step c cs = lex_found (longest rules (c ∷ cs) 0 none) c cs

-- The whole input; the fuel is its length.
unfoldable pub lex : ℕ → Bytes → List Lexeme
lex fuel [] = []
lex zero (c ∷ cs) = []
lex (suc fuel) (c ∷ cs) = let (out, rest) = lex_step c cs in out ++ lex fuel rest
