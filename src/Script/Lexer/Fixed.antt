-- ===== src/Script/Lexer/Fixed.antt =====
-- Which rules of src/lexer.l do not match in front of a string, a number or an identifier.
use nerves_initramfs.Base.{
  ℕ, ◌<◌, Bool, true, false, ◌||◌, [], ◌∷◌, ◌++◌, ◌≡◌, ◌≢◌, refl, ap, arith, ◌==◌, ==_iff, take,
  drop,
}
use nerves_initramfs.Base.CString.{Bytes, codes, has_prefix}
use nerves_initramfs.Script.Lexer.Rules.{Rules, AllMatch, ◌▸◌, no_more}
use nerves_initramfs.Script.Lexer.Munch.{IsLongest, behind}
use nerves_initramfs.Script.Lexer.{Rule, rules, is_identifier, span, literal, comment, string}

-- the rules in front of that of strings
abbrev pub fixed_rules : Rules
fixed_rules = take 23 rules

after_all :
    (input : Bytes) (n : ℕ) (rule : Rule) (list later : Rules)
    → AllMatch (λ match. match input < n) list
    → IsLongest input n rule later
    → IsLongest input n rule (list ++ later)
after_all input n rule [] later no_more found = found
after_all input n rule ((match, other) ∷ list) later (less ▸ all) found =
    behind less (after_all input n rule list later all found)

pub after_fixed :
    (input : Bytes) (n : ℕ) (rule : Rule)
    → AllMatch (λ match. match input < n) fixed_rules
    → IsLongest input n rule (drop 23 rules)
    → IsLongest input n rule rules
unfolding rules
after_fixed input n rule all found = after_all input n rule fixed_rules (drop 23 rules) all found

-- A byte of another kind is another byte.
pub differs :
    (p : ℕ → Bool) (a c : ℕ) → p a ≡ false → p c ≡ true → ((a == c) ≡ false) × ((c == a) ≡ false)
differs p a c h k =
    let apart : a ≢ c = λ same. ground (arith, ap p same, h, k) in
    (ground (arith, ==_iff a c), ground (arith, ==_iff c a))

-- What starts with a byte of an identifier is none of the fixed tokens but true or false, no blank and
-- no comment.
module _ (c : ℕ) (cs : Bytes) (n : ℕ) (first : is_identifier c ≡ true) (some_bytes : 0 < n) where
  pub literal-lt :
      (p : ℕ → Bool) (a : ℕ) (text : Bytes)
      → p a ≡ false
      → p c ≡ true
      → literal (a ∷ text) (c ∷ cs) < n
  unfolding has_prefix
  literal-lt p a text h k = rw (differs p a c h k).0 some_bytes

  pub string-lt : string (c ∷ cs) < n
  unfolding is_identifier
  string-lt = rw (differs is_identifier b'"' c refl first).1 some_bytes

  pub newline-lt : literal (codes "\n") (c ∷ cs) < n
  unfolding is_identifier
  newline-lt = literal-lt is_identifier b'\n' [] refl first

  blank-lt : span (λ c. c == b' ' || c == b'\t') (c ∷ cs) < n
  unfolding span is_identifier
  blank-lt =
      rw ((differs is_identifier b' ' c refl first).1, (differs is_identifier b'\t' c refl first).1)
        some_bytes

  comment-lt : comment (c ∷ cs) < n
  unfolding is_identifier
  comment-lt = rw (differs is_identifier b'#' c refl first).1 some_bytes

  pub fixed-lt :
      literal (codes "true") (c ∷ cs) < n
      → literal (codes "false") (c ∷ cs) < n
      → AllMatch (λ match. match (c ∷ cs) < n) fixed_rules
  unfolding rules is_identifier
  fixed-lt no_true no_false =
      blank-lt
      ▸ comment-lt
      ▸ no_true
      ▸ no_false
      ▸ literal-lt is_identifier b'{' _ refl first
      ▸ literal-lt is_identifier b'}' _ refl first
      ▸ literal-lt is_identifier b'(' _ refl first
      ▸ literal-lt is_identifier b')' _ refl first
      ▸ literal-lt is_identifier b'&' _ refl first
      ▸ literal-lt is_identifier b'|' _ refl first
      ▸ literal-lt is_identifier b'=' _ refl first
      ▸ literal-lt is_identifier b'!' _ refl first
      ▸ literal-lt is_identifier b'<' _ refl first
      ▸ literal-lt is_identifier b'>' _ refl first
      ▸ literal-lt is_identifier b'>' _ refl first
      ▸ literal-lt is_identifier b'<' _ refl first
      ▸ literal-lt is_identifier b'!' _ refl first
      ▸ literal-lt is_identifier b'=' _ refl first
      ▸ literal-lt is_identifier b'-' _ refl first
      ▸ literal-lt is_identifier b';' _ refl first
      ▸ literal-lt is_identifier b'+' _ refl first
      ▸ literal-lt is_identifier b'-' _ refl first
      ▸ literal-lt is_identifier b',' _ refl first
      ▸ no_more

-- In front of a string no other rule matches.
pub quote-lt : (cs : Bytes) (n : ℕ) → 0 < n → AllMatch (λ match. match (b'"' ∷ cs) < n) fixed_rules
unfolding rules span has_prefix
quote-lt cs n h =
    h ▸ h ▸ h ▸ h ▸ h ▸ h ▸ h ▸ h ▸ h ▸ h ▸ h ▸ h ▸ h ▸ h ▸ h ▸ h ▸ h ▸ h ▸ h ▸ h ▸ h ▸ h ▸ h
    ▸ no_more
