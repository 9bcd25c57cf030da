-- ===== src/Script/Lexer/Munch.antt =====
-- The longest match among the rules of src/lexer.l, and that a match is within the input.
use nerves_initramfs.Base.{
  ℕ, ◌≤◌, ◌<◌, Bool, true, not, ◌&&◌, [], ◌∷◌, Option, some, ◌≡◌, ◌⊎◌, refl, arith, inl, inr, ltb,
  ◌==◌, length, drop, All, length-drop, Bool-cases,
}
use nerves_initramfs.Base.CString.{Bytes, codes, has_prefix}
use nerves_initramfs.Script.Lexer.Rules.{Rules, AllMatch, ◌▸◌, Every}
use nerves_initramfs.Script.Lexer.{
  Rule, longest, is_hex, span, literal, comment, hex_number, string,
}

-- The rule is of the list, its match has the length `n`, no rule before it has as long a match, and
-- no rule behind it a longer one.
pub data IsLongest (input : Bytes) (n : ℕ) (rule : Rule) : Rules → Type 0 where
  here :
      {match : Bytes → ℕ} {later : Rules}
      → match input ≡ n
      → All (λ r. r.0 input ≤ n) later
      → IsLongest input n rule ((match, rule) ∷ later)
  behind :
      {match : Bytes → ℕ} {other : Rule} {later : Rules}
      → match input < n
      → IsLongest input n rule later
      → IsLongest input n rule ((match, other) ∷ later)

-- What `longest` makes of rules behind a best match.
abbrev pub Best : Bytes → Rules → ℕ → Option (ℕ × Rule) → Option (ℕ × Rule) → Type 0
Best input list best found result =
    ((result ≡ found) × All (λ r. r.0 input ≤ best) list)
    ⊎ ((n : ℕ) × (rule : Rule) × (result ≡ some (n, rule))
        × (best < n)
        × IsLongest input n rule list)

All-weaken :
    (input : Bytes) (list : Rules) (n m : ℕ)
    → n ≤ m
    → All (λ r. r.0 input ≤ n) list
    → All (λ r. r.0 input ≤ m) list
All-weaken input [] n m le h = tt
All-weaken input (r ∷ list) n m le (h, hs) = (omega arith, All-weaken input list n m le hs)

pub longest-Best :
    (list : Rules) (input : Bytes) (best : ℕ) (found : Option (ℕ × Rule))
    → Best input list best found (longest list input best found)
unfolding longest
longest-Best [] input best found = inl (refl, tt)
longest-Best ((match, rule) ∷ list) input best found = elim (Bool-cases (ltb best (match input))) [
  | inl e ↦
      rw (e, longest)
        (elim (longest-Best list input (match input) (some (match input, rule))) [
          | inl (same, bound) ↦ inr (match input, rule, same, ground arith, here refl bound)
          | inr (n, other, same, more, found_later) ↦
              inr (n, other, same, ground arith, behind more found_later)
        ])
  | inr e ↦
      rw (e, longest)
        (elim (longest-Best list input best found) [
          | inl (same, bound) ↦ inl (same, (ground arith, bound))
          | inr (n, other, same, more, found_later) ↦
              inr (n, other, same, more, behind (ground arith) found_later)
        ])
]

pub span-le : (p : ℕ → Bool) (cs : Bytes) → span p cs ≤ length cs
unfolding span
span-le p [] = omega arith
span-le p (c ∷ cs) = let rest = span-le p cs in ground arith

prefix-le : (text input : Bytes) → has_prefix text input ≡ true → length text ≤ length input
unfolding has_prefix
prefix-le [] input h = omega arith
prefix-le (t ∷ text) [] h = ground arith
prefix-le (t ∷ text) (c ∷ cs) h = ground (arith, prefix-le text cs)

abbrev pub Fits : (Bytes → ℕ) → Type 0
Fits match = (input : Bytes) → match input ≤ length input

literal-Fits : (text : Bytes) → Fits (literal text)
literal-Fits text input = ground (arith, prefix-le text input)

comment-Fits : Fits comment
comment-Fits [] = omega arith
comment-Fits (c ∷ cs) = let rest = span-le (λ d. not (d == b'\n')) cs in ground arith

hex-Fits : Fits hex_number
hex-Fits input =
    let digits = span-le is_hex (drop 2 input) in
    let behind = length-drop 2 input in let prefix = prefix-le (codes "0x") input in ground arith

string-Fits : Fits string
string-Fits [] = omega arith
string-Fits (c ∷ cs) =
    let inside = span-le (λ d. not (d == b'"') && not (d == b'\n')) cs in
    let rest = drop (span (λ d. not (d == b'"') && not (d == b'\n')) cs) cs in
    let behind = length-drop (span (λ d. not (d == b'"') && not (d == b'\n')) cs) cs in
    let quote = prefix-le (b'"' ∷ []) rest in ground arith

pub every-Fits : Every Fits
every-Fits = record {
  spans = λ p h. span-le p;
  comments = comment-Fits;
  literals = λ text h. literal-Fits text;
  newlines = literal-Fits (b'\n' ∷ []);
  strings = string-Fits;
  hex_numbers = hex-Fits;
}

pub match_length :
    {input : Bytes} {n : ℕ} {rule : Rule} {list : Rules}
    → IsLongest input n rule list
    → AllMatch Fits list
    → n ≤ length input
match_length {input} (here e bound) (fits ▸ more) = let f = fits input in omega (arith, f, e)
match_length (behind less found) (fits ▸ more) = match_length found more
