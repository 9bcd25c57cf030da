-- ===== src/Script/Lexer/Lines.antt =====
-- The lexer of src/lexer.l goes by lines: no rule reads over a new line.
use nerves_initramfs.Base.{
  ℕ, zero, suc, ◌+◌, ◌≤◌, Bool, false, not, ◌&&◌, [], ◌∷◌, ◌++◌, Option, none, some, ◌≡◌, refl, sym,
  ap, ◌∙◌, subst, arith, inl, inr, ltb, ◌==◌, length, take, drop, All, length-drop, take-append_le,
  drop-append_le, drop-All, append_assoc, Bool-cases, if◌then◌else◌, length-append,
}
use nerves_initramfs.Base.CString.{Bytes, has_prefix}
use nerves_initramfs.Script.Lexer.Rules.{
  Rules, AllMatch, ◌▸◌, no_more, NotNewline, Every, rules_all,
}
use nerves_initramfs.Script.Lexer.Munch.{longest-Best, every-Fits, match_length, span-le}
use nerves_initramfs.Script.Lexer.Stops.{span_stops, prefix_stops, hex_stops}
use nerves_initramfs.Script.Lexer.{
  Rule, rules, longest, echo, line_end, is_identifier, lexeme_of, lex_found, lex_step, lex, span,
  literal, comment, hex_number, string,
}

-- What is behind the line makes no difference to the match.
abbrev Local : (Bytes → ℕ) → Type 0
Local match =
    (c : ℕ) (cs rest : Bytes) → NotNewline c → match (c ∷ (cs ++ (b'\n' ∷ rest))) ≡ match (c ∷ cs)

spans-Local : (p : ℕ → Bool) → p b'\n' ≡ false → Local (span p)
spans-Local p h c cs rest k = span_stops b'\n' p (c ∷ cs) rest h

comment-Local : Local comment
comment-Local c cs rest h =
    ap (λ n. if c == b'#' then suc n else 0) (span_stops b'\n' (λ d. not (d == b'\n')) cs rest refl)

literal-Local : (text : Bytes) → All NotNewline text → Local (literal text)
literal-Local text h c cs rest k =
    ap (λ b. if b then length text else 0) (prefix_stops b'\n' text (c ∷ cs) rest h)

newline-Local : Local (literal (b'\n' ∷ []))
unfolding has_prefix
newline-Local c cs rest h = refl

-- the length of a string, from where its inside ends and what is there
abbrev closed : ℕ → ℕ → Bool → ℕ
closed c inside quote = if c == b'"' && quote then inside + 2 else 0

string-Local : Local string
string-Local c cs rest h =
    let inside_p : ℕ → Bool = λ d. not (d == b'"') && not (d == b'\n') in
    let same = span_stops b'\n' inside_p cs rest refl in
    let quote : Bytes → Bool = λ xs. has_prefix (b'"' ∷ []) xs in
    ap (λ n. closed c n (quote (drop n (cs ++ (b'\n' ∷ rest))))) same
    ∙ ap (λ xs. closed c (span inside_p cs) (quote xs))
        (drop-append_le (span inside_p cs) cs (b'\n' ∷ rest) (span-le inside_p cs))
    ∙ ap (closed c (span inside_p cs))
        (prefix_stops b'\n' (b'"' ∷ []) (drop (span inside_p cs) cs) rest (refl, tt))

hex-Local : Local hex_number
hex-Local c cs rest h = hex_stops b'\n' c cs rest refl (refl, (refl, tt))

every-Local : Every Local
every-Local = record {
  spans = spans-Local;
  comments = comment-Local;
  literals = literal-Local;
  newlines = newline-Local;
  strings = string-Local;
  hex_numbers = hex-Local;
}

longest_line :
    (c : ℕ) (cs rest : Bytes)
    → NotNewline c
    → {list : Rules} → AllMatch Local list
    → (best : ℕ) (found : Option (ℕ × Rule))
    → longest list (c ∷ (cs ++ (b'\n' ∷ rest))) best found ≡ longest list (c ∷ cs) best found
unfolding longest
longest_line c cs rest h no_more best found = refl
longest_line c cs rest h (◌▸◌ {match} {rule} {list} local more) best found =
    let long : Bytes = c ∷ (cs ++ (b'\n' ∷ rest)) in
    let same = local c cs rest h in
    elim (Bool-cases (ltb best (match (c ∷ cs)))) [
      | inl e ↦
          rw (longest, ap (ltb best) same ∙ e, e)
            (ap (λ n. longest list long n (some (n, rule))) same
              ∙ longest_line c cs rest h more (match (c ∷ cs)) (some (match (c ∷ cs), rule)))
      | inr e ↦ rw (longest, ap (ltb best) same ∙ e, e) (longest_line c cs rest h more best found)
    ]

newline_step : (rest : Bytes) → lex_step b'\n' rest ≡ (line_end ∷ [], rest)
unfolding lex_step rules longest span has_prefix is_identifier
newline_step rest = refl

-- what a round leaves is shorter
abbrev Shortens : ℕ → Bytes → Option (ℕ × Rule) → Type 0
Shortens c cs found = length (lex_found found c cs).1 ≤ length cs

step-Shortens : (c : ℕ) (cs : Bytes) → Shortens c cs (longest rules (c ∷ cs) 0 none)
step-Shortens c cs = elim (longest-Best rules (c ∷ cs) 0 none) [
  | inl (same, bound) ↦ subst (Shortens c cs) (sym same) (omega arith)
  | inr (n, rule, same, some_bytes, found) ↦
      let rest = length-drop n (c ∷ cs) in subst (Shortens c cs) (sym same) (omega (arith, rest))
]

pub lex_enough :
    (n m : ℕ) (input : Bytes) → length input ≤ n → length input ≤ m → lex n input ≡ lex m input
unfolding lex lex_step
lex_enough n m [] h k = refl
lex_enough zero m (c ∷ cs) h k = absurd (omega arith)
lex_enough (suc n) zero (c ∷ cs) h k = absurd (omega arith)
lex_enough (suc n) (suc m) (c ∷ cs) h k =
    let left = step-Shortens c cs in
    ap (◌++◌ (lex_step c cs).0)
      (lex_enough n m (lex_step c cs).1 (omega (arith, left)) (omega (arith, left)))

abbrev Lined : (fuel n m c : ℕ) (cs rest : Bytes) → Option (ℕ × Rule) → Type 0
Lined fuel n m c cs rest found =
    (lex_found found c (cs ++ (b'\n' ∷ rest))).0
      ++ lex fuel (lex_found found c (cs ++ (b'\n' ∷ rest))).1
    ≡ ((lex_found found c cs).0 ++ lex n (lex_found found c cs).1) ++ (line_end ∷ lex m rest)

-- A line that a new line ends is lexed by itself: with enough fuel for each, the lexemes of the text
-- are those of the line, then the new line, and behind it those of what follows.
pub lex-append :
    (fuel n m : ℕ) (line rest : Bytes)
    → All NotNewline line
    → length (line ++ (b'\n' ∷ rest)) ≤ fuel
    → length line ≤ n
    → length rest ≤ m
    → lex fuel (line ++ (b'\n' ∷ rest)) ≡ lex n line ++ (line_end ∷ lex m rest)
unfolding lex lex_step
lex-append zero n m [] rest h all fits behind = absurd (omega arith)
lex-append (suc fuel) n m [] rest h all fits behind =
    ap (λ r. r.0 ++ lex fuel r.1) (newline_step rest)
    ∙ ap (◌∷◌ line_end) (lex_enough fuel m rest (omega arith) behind)
lex-append zero n m (c ∷ cs) rest h all fits behind = absurd (omega arith)
lex-append (suc fuel) zero m (c ∷ cs) rest h all fits behind = absurd (omega arith)
lex-append (suc fuel) (suc n) m (c ∷ cs) rest (h, hs) all fits behind =
    rw (longest_line c cs rest h (rules_all every-Local) 0 none)
      (elim (longest-Best rules (c ∷ cs) 0 none) [
        | inl (same, bound) ↦
            subst (Lined fuel n m c cs rest) (sym same) (
              ap (◌∷◌ (echo c)) (lex-append fuel n m cs rest hs (omega arith) (omega arith) behind))
        | inr (k, rule, same, some_bytes, found) ↦
            let few = match_length found (rules_all every-Fits) in
            let left = length-drop k (c ∷ cs) in
            let whole = length-append cs (b'\n' ∷ rest) in
            let now = length-append (drop k (c ∷ cs)) (b'\n' ∷ rest) in
            subst (Lined fuel n m c cs rest) (sym same) (
              ap (λ text. lexeme_of rule text ++ lex fuel (drop k ((c ∷ cs) ++ (b'\n' ∷ rest))))
                (take-append_le k (c ∷ cs) (b'\n' ∷ rest) few)
              ∙ ap (◌++◌ (lexeme_of rule (take k (c ∷ cs)))) (
                  ap (lex fuel) (drop-append_le k (c ∷ cs) (b'\n' ∷ rest) few)
                  ∙ lex-append fuel n m (drop k (c ∷ cs)) rest
                      (drop-All NotNewline k (c ∷ cs) (h, hs))
                      (omega (arith, all, whole, now, left)) (omega (arith, fits, left)) behind)
              ∙ sym (
                  append_assoc (lexeme_of rule (take k (c ∷ cs))) (lex n (drop k (c ∷ cs)))
                    (line_end ∷ lex m rest)))
      ])
