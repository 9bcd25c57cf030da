-- ===== src/Script/Lexer/Rules.antt =====
-- What holds of the match of every rule of src/lexer.l.
use nerves_initramfs.Base.{ℕ, Bool, false, ◌||◌, List, [], ◌∷◌, ◌≡◌, refl, ◌==◌, All}
use nerves_initramfs.Base.CString.{Bytes, codes}
use nerves_initramfs.Script.Lexer.{
  Rule, rules, span, literal, comment, hex_number, string, is_digit, is_identifier,
}

abbrev pub Rules : Type 0
Rules = List ((Bytes → ℕ) × Rule)

infixr 4 ◌▸◌
pub data AllMatch (P : (Bytes → ℕ) → Type 0) : Rules → Type 0 where
  no_more : AllMatch P []
  ◌▸◌ :
      {match : Bytes → ℕ} {rule : Rule} {list : Rules}
      → P match
      → AllMatch P list
      → AllMatch P ((match, rule) ∷ list)

abbrev pub NotNewline : ℕ → Type 0
NotNewline c = (c == b'\n') ≡ false

-- The kinds of matches: none but that of the new line itself takes a new line in, or what is a blank,
-- a digit or a letter.
pub record Every (P : (Bytes → ℕ) → Type 0) : Type 0 where
  pub spans : (p : ℕ → Bool) → p b'\n' ≡ false → P (span p)
  pub comments : P comment
  pub literals : (text : Bytes) → All NotNewline text → P (literal text)
  pub newlines : P (literal (b'\n' ∷ []))
  pub strings : P string
  pub hex_numbers : P hex_number

module _ {P : (Bytes → ℕ) → Type 0} (every : Every P) where
  one : (a : ℕ) → NotNewline a → P (literal (a ∷ []))
  one a h = every.literals (a ∷ []) (h, tt)

  two : (a b : ℕ) → NotNewline a → NotNewline b → P (literal (a ∷ b ∷ []))
  two a b h k = every.literals (a ∷ b ∷ []) (h, (k, tt))

  pub rules_all : AllMatch P rules
  unfolding rules is_identifier
  rules_all =
      every.spans (λ c. c == b' ' || c == b'\t') refl
      ▸ every.comments
      ▸ every.literals (codes "true") (refl, (refl, (refl, (refl, tt))))
      ▸ every.literals (codes "false") (refl, (refl, (refl, (refl, (refl, tt)))))
      ▸ one b'{' refl
      ▸ one b'}' refl
      ▸ one b'(' refl
      ▸ one b')' refl
      ▸ two b'&' b'&' refl refl
      ▸ two b'|' b'|' refl refl
      ▸ two b'=' b'=' refl refl
      ▸ two b'!' b'=' refl refl
      ▸ two b'<' b'=' refl refl
      ▸ two b'>' b'=' refl refl
      ▸ one b'>' refl
      ▸ one b'<' refl
      ▸ one b'!' refl
      ▸ one b'=' refl
      ▸ two b'-' b'>' refl refl
      ▸ one b';' refl
      ▸ one b'+' refl
      ▸ one b'-' refl
      ▸ one b',' refl
      ▸ every.strings
      ▸ every.hex_numbers
      ▸ every.spans is_digit refl
      ▸ every.spans is_identifier refl
      ▸ every.newlines
      ▸ no_more
