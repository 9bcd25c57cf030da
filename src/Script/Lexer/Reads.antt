-- ===== src/Script/Lexer/Reads.antt =====
-- The tokens of src/lexer.l that have a value, read in front of a blank.
use nerves_initramfs.Base.{
  ℕ, suc, ◌+◌, ◌<◌, Bool, true, false, not, ◌&&◌, [], ◌∷◌, ◌++◌, none, ◌≡◌, ◌≢◌, ◌⊎◌, refl, sym, ap,
  ◌∙◌, arith, inl, inr, ◌==◌, ==_iff, length, take, drop, All, Bool-cases, if◌then◌else◌,
  length-append, ap₂, take-append, drop-append, append_assoc,
}
use nerves_initramfs.Base.CString.{Bytes, codes, has_prefix}
use nerves_initramfs.Script.Lexer.Munch.{IsLongest, here, behind, span-le}
use nerves_initramfs.Script.Lexer.Stops.{span_stops, prefix_stops, hex_stops, one_byte, hexed}
use nerves_initramfs.Script.Lexer.Print.{longest-IsLongest}
use nerves_initramfs.Script.Lexer.Fixed.{
  after_fixed, fixed-lt, differs, literal-lt, string-lt, newline-lt, quote-lt,
}
use nerves_initramfs.Script.Lexer.{
  string_token, hex_token, dec_token, identifier_token, Rule, makes_text, rules, token, is_hex,
  is_digit, is_identifier, lexeme_of, lex_found, lex_step, lex, span, literal, hex_number, string,
}

spans_whole : (p : ℕ → Bool) (cs : Bytes) → All (λ c. p c ≡ true) cs → span p cs ≡ length cs
unfolding span
spans_whole p [] all = refl
spans_whole p (c ∷ cs) (h, all) = rw h (ap suc (spans_whole p cs all))

-- A prefix that is not the whole is shorter.
prefix_whole : (a b : Bytes) → has_prefix a b ≡ true → (length a < length b) ⊎ (b ≡ a)
unfolding has_prefix
prefix_whole [] [] h = inr refl
prefix_whole [] (c ∷ b) h = inl (omega arith)
prefix_whole (x ∷ a) [] h = absurd (ground arith)
prefix_whole (x ∷ a) (c ∷ b) h = elim (Bool-cases (x == c)) [
  | inr e ↦ absurd (ground arith)
  | inl e ↦ elim (prefix_whole a b (ground arith)) [
    | inl less ↦ inl (omega arith)
    | inr same ↦ inr (ap₂ ◌∷◌ (sym ((==_iff x c).0 e)) same)
  ]
]

other_word :
    (word text rest : Bytes)
    → All (λ t. (t == b' ') ≡ false) word
    → text ≢ word
    → 0 < length text
    → literal word (text ++ (b' ' ∷ rest)) < length text
other_word word text rest no_blank other some_bytes =
    rw (prefix_stops b' ' word text rest no_blank) (elim (Bool-cases (has_prefix word text)) [
      | inr e ↦ rw e some_bytes
      | inl e ↦
          rw e
            (elim (prefix_whole word text e) [ inl less ↦ less | inr same ↦ absurd (other same) ])
    ])

-- One round takes the longest match.
pub lex_one :
    (fuel c n : ℕ) (cs : Bytes) (rule : Rule)
    → 0 < n
    → IsLongest (c ∷ cs) n rule rules
    → lex (suc fuel) (c ∷ cs) ≡ lexeme_of rule (take n (c ∷ cs)) ++ lex fuel (drop n (c ∷ cs))
unfolding lex lex_step
lex_one fuel c n cs rule some_bytes found =
    ap (λ o. (lex_found o c cs).0 ++ lex fuel (lex_found o c cs).1)
      (longest-IsLongest (c ∷ cs) n rule found 0 none some_bytes)

-- A rule that takes the text in front of a blank gives its lexeme, and what is behind the text stays.
chosen :
    (fuel c : ℕ) (cs rest : Bytes) (rule : Rule)
    → IsLongest (c ∷ (cs ++ (b' ' ∷ rest))) (length (c ∷ cs)) rule rules
    → lex (suc fuel) (c ∷ (cs ++ (b' ' ∷ rest))) ≡ lexeme_of rule (c ∷ cs) ++ lex fuel (b' ' ∷ rest)
chosen fuel c cs rest rule found =
    lex_one fuel c (length (c ∷ cs)) (cs ++ (b' ' ∷ rest)) rule (omega arith) found
    ∙ ap₂ (λ text behind. lexeme_of rule text ++ lex fuel behind)
        (take-append (c ∷ cs) (b' ' ∷ rest)) (drop-append (c ∷ cs) (b' ' ∷ rest))

pub identifier_read :
    (fuel c : ℕ) (cs rest : Bytes)
    → All (λ c. is_identifier c ≡ true) (c ∷ cs)
    → (c ∷ cs) ≢ codes "true"
    → (c ∷ cs) ≢ codes "false"
    → hex_number (c ∷ cs) < length (c ∷ cs)
    → span is_digit (c ∷ cs) < length (c ∷ cs)
    → lex (suc fuel) (c ∷ (cs ++ (b' ' ∷ rest)))
      ≡ token (identifier_token (c ∷ cs)) ∷ lex fuel (b' ' ∷ rest)
unfolding is_identifier rules
identifier_read fuel c cs rest (first, all) no_true no_false no_hex no_dec =
    let n = length (c ∷ cs) in
    let long = cs ++ (b' ' ∷ rest) in
    let hex_same = hex_stops b' ' c cs rest refl (refl, (refl, tt)) in
    let dec_same = span_stops b' ' is_digit (c ∷ cs) rest refl in
    let whole =
      span_stops b' ' is_identifier (c ∷ cs) rest refl
      ∙ spans_whole is_identifier (c ∷ cs) (first, all) in
    let newline = newline-lt c long n first (omega arith) in
    chosen fuel c cs rest (makes_text identifier_token) (
      after_fixed _ n _
        (fixed-lt c long n first (omega arith)
          (other_word (codes "true") (c ∷ cs) rest (refl, (refl, (refl, (refl, tt)))) no_true
            (omega arith))
          (other_word (codes "false") (c ∷ cs) rest (refl, (refl, (refl, (refl, (refl, tt)))))
            no_false (omega arith)))
        (behind (string-lt c long n first (omega arith)) (
          behind (omega (arith, hex_same, no_hex))
            (behind (omega (arith, dec_same, no_dec)) (here whole (omega (arith, newline), tt))))))

-- Digits are no hexadecimal number: the x is missing.
digits_no_hex : (c : ℕ) (cs : Bytes) → All (λ c. is_digit c ≡ true) cs → hex_number (c ∷ cs) ≡ 0
unfolding has_prefix span
digits_no_hex c [] all = ap (λ b. hexed b 0) (one_byte c)
digits_no_hex c (d ∷ cs) (h, all) = elim (Bool-cases (b'0' == c)) [
  | inl e ↦ rw (e, (differs is_digit b'x' d refl h).0) refl
  | inr e ↦ rw e refl
]

digit_identifier : (c : ℕ) → is_digit c ≡ true → is_identifier c ≡ true
unfolding is_identifier
digit_identifier c h = ground arith

pub dec_read :
    (fuel c : ℕ) (cs rest : Bytes)
    → All (λ c. is_digit c ≡ true) (c ∷ cs)
    → lex (suc fuel) (c ∷ (cs ++ (b' ' ∷ rest)))
      ≡ token (dec_token (c ∷ cs)) ∷ lex fuel (b' ' ∷ rest)
unfolding rules is_identifier
dec_read fuel c cs rest (first, all) =
    let n = length (c ∷ cs) in
    let long = cs ++ (b' ' ∷ rest) in
    let letter = digit_identifier c first in
    let no_hex = hex_stops b' ' c cs rest refl (refl, (refl, tt)) ∙ digits_no_hex c cs all in
    let whole =
      span_stops b' ' is_digit (c ∷ cs) rest refl ∙ spans_whole is_digit (c ∷ cs) (first, all) in
    let same = span_stops b' ' is_identifier (c ∷ cs) rest refl in
    let bound = span-le is_identifier (c ∷ cs) in
    let newline = newline-lt c long n letter (omega arith) in
    chosen fuel c cs rest (makes_text dec_token) (
      after_fixed _ n _
        (fixed-lt c long n letter (omega arith)
          (literal-lt c long n letter (omega arith) is_digit b't' _ refl first)
          (literal-lt c long n letter (omega arith) is_digit b'f' _ refl first))
        (behind (string-lt c long n letter (omega arith)) (
          behind (omega (arith, no_hex))
            (here whole (omega (arith, same, bound), (omega (arith, newline), tt))))))

pub hex_read :
    (fuel d : ℕ) (ds rest : Bytes)
    → All (λ c. is_hex c ≡ true) (d ∷ ds)
    → lex (suc fuel) (b'0' ∷ (b'x' ∷ d ∷ ds) ++ (b' ' ∷ rest))
      ≡ token (hex_token (b'0' ∷ b'x' ∷ d ∷ ds)) ∷ lex fuel (b' ' ∷ rest)
unfolding rules is_identifier has_prefix
hex_read fuel d ds rest all =
    let cs = b'x' ∷ d ∷ ds in
    let n = length (b'0' ∷ cs) in
    let long = cs ++ (b' ' ∷ rest) in
    let digits = spans_whole is_hex (d ∷ ds) all in
    let whole : hex_number (b'0' ∷ long) ≡ n =
      hex_stops b' ' b'0' cs rest refl (refl, (refl, tt)) ∙ ap (hexed true) digits ∙ ground arith in
    let dec_same = span_stops b' ' is_digit (b'0' ∷ cs) rest refl in
    let dec_bound = span-le is_digit (b'0' ∷ cs) in
    let same = span_stops b' ' is_identifier (b'0' ∷ cs) rest refl in
    let bound = span-le is_identifier (b'0' ∷ cs) in
    let newline = newline-lt b'0' long n refl (omega arith) in
    chosen fuel b'0' cs rest (makes_text hex_token) (
      after_fixed _ n _
        (fixed-lt b'0' long n refl (omega arith)
          (literal-lt b'0' long n refl (omega arith) is_digit b't' (codes "rue") refl refl)
          (literal-lt b'0' long n refl (omega arith) is_digit b'f' (codes "alse") refl refl))
        (behind (string-lt b'0' long n refl (omega arith)) (
          here whole (
            omega (arith, dec_same, dec_bound),
            (omega (arith, same, bound), (omega (arith, newline), tt)),
          ))))

pub string_read :
    (fuel : ℕ) (inside rest : Bytes)
    → All (λ c. (not (c == b'"') && not (c == b'\n')) ≡ true) inside
    → lex (suc fuel) (b'"' ∷ (inside ++ (b'"' ∷ [])) ++ (b' ' ∷ rest))
      ≡ token (string_token (b'"' ∷ (inside ++ (b'"' ∷ [])))) ∷ lex fuel (b' ' ∷ rest)
unfolding rules span is_identifier has_prefix
string_read fuel inside rest all =
    let p : ℕ → Bool = λ d. not (d == b'"') && not (d == b'\n') in
    let cs = inside ++ (b'"' ∷ []) in
    let n = length (b'"' ∷ cs) in
    let long = cs ++ (b' ' ∷ rest) in
    let size = length-append inside (b'"' ∷ []) in
    let same_text : long ≡ inside ++ (b'"' ∷ b' ' ∷ rest) =
      append_assoc inside (b'"' ∷ []) (b' ' ∷ rest) in
    let inner : span p long ≡ length inside =
      ap (span p) same_text
      ∙ span_stops b'"' p inside (b' ' ∷ rest) refl
      ∙ spans_whole p inside all in
    let quote : has_prefix (b'"' ∷ []) (drop (span p long) long) ≡ true =
      ap₂ (λ k xs. has_prefix (b'"' ∷ []) (drop k xs)) inner same_text
      ∙ ap (has_prefix (b'"' ∷ [])) (drop-append inside (b'"' ∷ b' ' ∷ rest)) in
    let whole : string (b'"' ∷ long) ≡ n =
      ap₂ (λ k b. if b then k + 2 else 0) inner quote ∙ (omega (arith, size)) in
    chosen fuel b'"' cs rest (makes_text string_token) (
      after_fixed _ n _ (quote-lt long n (omega arith))
        (here whole (omega arith, (omega arith, (omega arith, (omega arith, tt))))))
