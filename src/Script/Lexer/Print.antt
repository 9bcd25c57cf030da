-- ===== src/Script/Lexer/Print.antt =====
-- The text of the tokens of src/lexer.l, and which tokens the lexer can give.
use nerves_initramfs.Base.{
  ℕ, ◌≤◌, ◌<◌, true, false, not, ◌&&◌, List, [], ◌∷◌, ◌++◌, Option, some, ◌≡◌, ◌≢◌, refl, ap, ◌∙◌,
  arith, inl, inr, ltb, ◌==◌, length, All, Bool-cases,
}
use nerves_initramfs.Base.CString.{Bytes, codes}
use nerves_initramfs.Script.Lexer.Rules.{Rules}
use nerves_initramfs.Script.Lexer.Munch.{IsLongest, here, behind}
use nerves_initramfs.Script.Lexer.{
  Token, boolean_token, open_brace, close_brace, open_paren, close_paren, and_token, or_token,
  eq_token, neq_token, lte_token, gte_token, gt_token, lt_token, not_token, assign_token,
  arrow_token, plus_token, minus_token, comma_token, string_token, hex_token, dec_token,
  identifier_token, Rule, longest, is_hex, is_digit, is_identifier, span, hex_number,
}

-- A rule that is the longest, and the first of its length, is the one that is chosen.
kept :
    (list : Rules) (input : Bytes) (n : ℕ) (found : Option (ℕ × Rule))
    → All (λ r. r.0 input ≤ n) list
    → longest list input n found ≡ found
unfolding longest
kept [] input n found all = refl
kept ((match, rule) ∷ list) input n found (bound, all) =
    let no : ltb n (match input) ≡ false = ground (arith, bound) in
    rw (no, longest) (kept list input n found all)

pub longest-IsLongest :
    (input : Bytes) (n : ℕ) (rule : Rule) {list : Rules}
    → IsLongest input n rule list
    → (best : ℕ) (found : Option (ℕ × Rule)) → best < n
    → longest list input best found ≡ some (n, rule)
unfolding longest
longest-IsLongest input n rule (here {match} {later} same all) best found less =
    let yes : ltb best (match input) ≡ true = ground (arith, same) in
    rw (yes, longest)
      (ap (λ k. longest later input k (some (k, rule))) same
        ∙ kept later input n (some (n, rule)) all)
longest-IsLongest input n rule (behind {match} {other} {later} shorter more) best found less =
    elim (Bool-cases (ltb best (match input))) [
      | inl e ↦
          rw (e, longest)
            (longest-IsLongest input n rule more (match input) (some (match input, other)) shorter)
      | inr e ↦ rw (e, longest) (longest-IsLongest input n rule more best found less)
    ]

unfoldable pub print : Token → Bytes
print (boolean_token true) = codes "true"
print (boolean_token false) = codes "false"
print open_brace = codes "{"
print close_brace = codes "}"
print open_paren = codes "("
print close_paren = codes ")"
print and_token = codes "&&"
print or_token = codes "||"
print eq_token = codes "=="
print neq_token = codes "!="
print lte_token = codes "<="
print gte_token = codes ">="
print gt_token = codes ">"
print lt_token = codes "<"
print not_token = codes "!"
print assign_token = codes "="
print arrow_token = codes "->"
print plus_token = codes "+"
print minus_token = codes "-"
print comma_token = codes ","
print (string_token text) = text
print (hex_token text) = text
print (dec_token text) = text
print (identifier_token text) = text

-- What the lexer gives as the text of a token: in quotes, 0x and digits, digits, or an identifier
-- that is no other token.
unfoldable pub IsToken : Token → Type 0
IsToken (string_token text) =
    (inside : Bytes) × (text ≡ b'"' ∷ (inside ++ (b'"' ∷ [])))
    × All (λ c. (not (c == b'"') && not (c == b'\n')) ≡ true) inside
IsToken (hex_token text) =
    (digit : ℕ) × (digits : Bytes) × (text ≡ b'0' ∷ b'x' ∷ digit ∷ digits)
    × All (λ c. is_hex c ≡ true) (digit ∷ digits)
IsToken (dec_token text) =
    (digit : ℕ) × (digits : Bytes) × (text ≡ digit ∷ digits)
    × All (λ c. is_digit c ≡ true) (digit ∷ digits)
IsToken (identifier_token text) =
    (c : ℕ) × (cs : Bytes) × (text ≡ c ∷ cs)
    × All (λ c. is_identifier c ≡ true) (c ∷ cs)
    × (text ≢ codes "true")
    × (text ≢ codes "false")
    × (hex_number text < length text)
    × (span is_digit text < length text)
IsToken _ = Unit {0}

-- each with a blank behind it
unfoldable pub print_tokens : List Token → Bytes
unfolding print
print_tokens [] = []
print_tokens (t ∷ ts) = print t ++ (b' ' ∷ print_tokens ts)
