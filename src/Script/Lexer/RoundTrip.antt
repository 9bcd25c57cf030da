-- ===== src/Script/Lexer/RoundTrip.antt =====
-- Tokens that are printed are what the lexer reads.
use nerves_initramfs.Base.{
  ℕ, suc, ◌+◌, ◌≤◌, ◌<◌, Bool, true, false, ◌||◌, List, [], ◌∷◌, ◌++◌, ◌≡◌, ◌≢◌, refl, ap, ◌∙◌,
  subst, arith, ◌==◌, length, All, map,
}
use nerves_initramfs.Base.CString.{Bytes, codes, has_prefix}
use nerves_initramfs.Script.Lexer.Munch.{here}
use nerves_initramfs.Script.Lexer.Lines.{lex_enough}
use nerves_initramfs.Script.Lexer.Print.{print, IsToken, print_tokens}
use nerves_initramfs.Script.Lexer.Fixed.{differs}
use nerves_initramfs.Script.Lexer.{
  Token, boolean_token, open_brace, close_brace, open_paren, close_paren, and_token, or_token,
  eq_token, neq_token, lte_token, gte_token, gt_token, lt_token, not_token, assign_token,
  arrow_token, plus_token, minus_token, comma_token, string_token, hex_token, dec_token,
  identifier_token, skip, rules, longest, token, is_digit, is_identifier, lex_step, lex, span,
  hex_number,
}
use nerves_initramfs.Script.Lexer.Reads.{lex_one, identifier_read, dec_read, hex_read, string_read}

abbrev blank : ℕ → Bool
blank c = c == b' ' || c == b'\t'

-- A blank with none behind it is passed over.
blank_read :
    (fuel : ℕ) (rest : Bytes) → span blank rest ≡ 0 → lex (suc fuel) (b' ' ∷ rest) ≡ lex fuel rest
unfolding rules longest span has_prefix is_identifier
blank_read fuel rest h =
    let z : 0 ≤ 1 = omega arith in
    lex_one fuel b' ' 1 rest skip (omega arith) (
      here (ap suc h) (
        z,
        (
          z,
          (
            z,
            (
              z,
              (
                z,
                (
                  z,
                  (
                    z,
                    (
                      z,
                      (
                        z,
                        (
                          z,
                          (
                            z,
                            (
                              z,
                              (
                                z,
                                (
                                  z,
                                  (
                                    z,
                                    (z, (z, (z, (z, (z, (z, (z, (z, (z, (z, (z, (z, tt)))))))))))),
                                  ),
                                ),
                              ),
                            ),
                          ),
                        ),
                      ),
                    ),
                  ),
                ),
              ),
            ),
          ),
        ),
      ))

-- One token and the blank behind it.
token_read :
    (fuel : ℕ) (t : Token) (rest : Bytes)
    → IsToken t
    → lex (suc fuel) (print t ++ (b' ' ∷ rest)) ≡ token t ∷ lex fuel (b' ' ∷ rest)
unfolding lex lex_step rules longest span has_prefix is_identifier print IsToken
token_read fuel (boolean_token true) rest h = refl
token_read fuel (boolean_token false) rest h = refl
token_read fuel open_brace rest h = refl
token_read fuel close_brace rest h = refl
token_read fuel open_paren rest h = refl
token_read fuel close_paren rest h = refl
token_read fuel and_token rest h = refl
token_read fuel or_token rest h = refl
token_read fuel eq_token rest h = refl
token_read fuel neq_token rest h = refl
token_read fuel lte_token rest h = refl
token_read fuel gte_token rest h = refl
token_read fuel gt_token rest h = refl
token_read fuel lt_token rest h = refl
token_read fuel not_token rest h = refl
token_read fuel assign_token rest h = refl
token_read fuel arrow_token rest h = refl
token_read fuel plus_token rest h = refl
token_read fuel minus_token rest h = refl
token_read fuel comma_token rest h = refl
token_read fuel (string_token text) rest (inside, same, all) =
    rw same (string_read fuel inside rest all)
token_read fuel (hex_token text) rest (d, ds, same, all) = rw same (hex_read fuel d ds rest all)
token_read fuel (dec_token text) rest (d, ds, same, all) = rw same (dec_read fuel d ds rest all)
token_read fuel (identifier_token text) rest (c, cs, same, all, no_true, no_false, no_hex, no_dec) =
    rw same (
      identifier_read fuel c cs rest all (subst (λ x. x ≢ codes "true") same no_true)
        (subst (λ x. x ≢ codes "false") same no_false)
        (subst (λ x. hex_number x < length x) same no_hex)
        (subst (λ x. span is_digit x < length x) same no_dec))

print-span : (t : Token) (rest : Bytes) → IsToken t → span blank (print t ++ rest) ≡ 0
unfolding span print IsToken is_identifier
print-span (boolean_token true) rest h = refl
print-span (boolean_token false) rest h = refl
print-span open_brace rest h = refl
print-span close_brace rest h = refl
print-span open_paren rest h = refl
print-span close_paren rest h = refl
print-span and_token rest h = refl
print-span or_token rest h = refl
print-span eq_token rest h = refl
print-span neq_token rest h = refl
print-span lte_token rest h = refl
print-span gte_token rest h = refl
print-span gt_token rest h = refl
print-span lt_token rest h = refl
print-span not_token rest h = refl
print-span assign_token rest h = refl
print-span arrow_token rest h = refl
print-span plus_token rest h = refl
print-span minus_token rest h = refl
print-span comma_token rest h = refl
print-span (string_token text) rest (inside, same, all) = rw same refl
print-span (hex_token text) rest (d, ds, same, all) = rw same refl
print-span (dec_token text) rest (d, ds, same, (h, all)) =
    rw (same, (differs is_digit b' ' d refl h).1, (differs is_digit b'\t' d refl h).1) refl
print-span (identifier_token text) rest (c, cs, same, (h, all), a, b, d, e) =
    rw (same, (differs is_identifier b' ' c refl h).1, (differs is_identifier b'\t' c refl h).1)
      refl

print_tokens-span : (ts : List Token) → All IsToken ts → span blank (print_tokens ts) ≡ 0
unfolding span print_tokens
print_tokens-span [] all = refl
print_tokens-span (t ∷ ts) (h, all) = print-span t (b' ' ∷ print_tokens ts) h

lex_tokens :
    (ts : List Token)
    → All IsToken ts
    → (fuel : ℕ) → lex (length ts + length ts + fuel) (print_tokens ts) ≡ map token ts
unfolding lex print_tokens
lex_tokens [] all fuel = refl
lex_tokens (t ∷ ts) (h, all) fuel =
    let more = length ts + length ts + fuel in
    let two : length (t ∷ ts) + length (t ∷ ts) + fuel ≡ suc (suc more) = omega arith in
    ap (λ n. lex n (print t ++ (b' ' ∷ print_tokens ts))) two
    ∙ token_read (suc more) t (print_tokens ts) h
    ∙ ap (◌∷◌ (token t))
        (blank_read more (print_tokens ts) (print_tokens-span ts all) ∙ lex_tokens ts all fuel)

-- Tokens that are printed with a blank behind each are what the lexer reads: with fuel for the text,
-- it gives these tokens, in their order, and echoes nothing.
pub lex-print_tokens :
    (ts : List Token) (fuel : ℕ)
    → All IsToken ts
    → length (print_tokens ts) ≤ fuel
    → lex fuel (print_tokens ts) ≡ map token ts
lex-print_tokens ts fuel all bound =
    let size = length (print_tokens ts) in
    lex_enough fuel (length ts + length ts + size) (print_tokens ts) bound (omega arith)
    ∙ lex_tokens ts all size
