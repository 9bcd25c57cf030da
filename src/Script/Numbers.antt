-- ===== src/Script/Numbers.antt =====
-- A number that is converted to a string, and back by `strtoull`.
use nerves_initramfs.Base.{
  length, ℕ, zero, suc, ◌+◌, ◌-◌, ◌/◌, ◌%◌, ◌^◌, ◌<◌, ◌≤◌, true, false, ◌&&◌, [], ◌∷◌, ◌≡◌, refl,
  sym, ◌∙◌, ap, arith, Bool-cases, inl, inr, ◌==◌, if◌then◌else◌, subst,
}
use nerves_initramfs.Base.CString.{Bytes, isspace, tolower}
use nerves_initramfs.Base.Int.{ℤ, pos, negsuc, IsInt, to_int}
use nerves_initramfs.Base.Format.{dec, dec_onto}
use nerves_initramfs.Script.{string, number}
use nerves_initramfs.Script.Machine.{
  State, Platform, ok, alloc_string, term_new_string, round_up, heap_size,
}
use nerves_initramfs.Script.Gc.{two_blocks}
use nerves_initramfs.Script.Run.{evaluator, term_to_string_impl, term_resolve_impl}
use nerves_initramfs.Script.Strtoull.{
  digits_value, skip_space, unsigned_value, ranged, signed_value, strtoull,
}
use nerves_initramfs.Script.Lexer.{is_digit}
use nerves_initramfs.Script.Convert.{number_of, to_string_resolved, term_to_number}
use nerves_initramfs.Script.Digits.{digits_value-dec_onto, AreDigits, dec_onto-AreDigits}

-- no 0 in front
abbrev Leads : Bytes → Type 0
Leads text = (c : ℕ) × (cs : Bytes) × (text ≡ c ∷ cs) × ((c == b'0') ≡ false)

front-Leads :
    (fuel n d : ℕ) (acc : Bytes) → 0 < n → n < 10 ^ fuel → Leads (dec_onto fuel n (d ∷ acc))
unfolding dec_onto
front-Leads zero n d acc some_more fits = absurd (omega arith)
front-Leads (suc fuel) n d acc some_more fits = elim (Bool-cases (n / 10 == 0)) [
  | inl e ↦ rw e (b'0' + n % 10, d ∷ acc, refl, ground arith)
  | inr e ↦ rw e (front-Leads fuel (n / 10) (b'0' + n % 10) (d ∷ acc) (ground arith) (omega arith))
]

unsigned_plain : (text : Bytes) → Leads text → unsigned_value text ≡ digits_value 10 text 0
unfolding tolower
unsigned_plain text (c, [], same, plain) = rw same refl
unsigned_plain text (c, d ∷ cs, same, plain) = rw same (
    ap
      (λ b.
        if b && tolower d == b'x'
        then digits_value 16 cs 0
        else if b
        then digits_value 8 (d ∷ cs) 0
        else digits_value 10 (c ∷ d ∷ cs) 0)
      plain)

one_digit : (fuel n : ℕ) → (n / 10 == 0) ≡ true → dec_onto (suc fuel) n [] ≡ (b'0' + n % 10) ∷ []
unfolding dec_onto
one_digit fuel n e = rw e refl

more_digits :
    (fuel n : ℕ)
    → (n / 10 == 0) ≡ false
    → dec_onto (suc fuel) n [] ≡ dec_onto fuel (n / 10) ((b'0' + n % 10) ∷ [])
unfolding dec_onto
more_digits fuel n e = rw e refl

-- Read with the base by its prefix, the digits are decimal.
unsigned-dec_onto : (fuel n : ℕ) → n < 10 ^ suc fuel → unsigned_value (dec_onto (suc fuel) n []) ≡ n
unfolding tolower
unsigned-dec_onto fuel n fits =
    let decimal = digits_value-dec_onto fuel n [] fits in
    elim (Bool-cases (n / 10 == 0)) [
      | inl e ↦
          let one = one_digit fuel n e in
          ap unsigned_value one ∙ ap (λ text. digits_value 10 text 0) (sym one) ∙ decimal
      | inr e ↦
          let more = more_digits fuel n e in
          unsigned_plain (dec_onto (suc fuel) n []) (
            subst Leads (sym more)
              (front-Leads fuel (n / 10) (b'0' + n % 10) [] (ground arith) (omega arith)))
          ∙ decimal
    ]

kept_space : (c : ℕ) (cs : Bytes) → isspace c ≡ false → skip_space (c ∷ cs) ≡ c ∷ cs
kept_space c cs h = ap (λ b. if b then skip_space cs else c ∷ cs) h

digit_space : (c : ℕ) → is_digit c ≡ true → isspace c ≡ false
unfolding isspace
digit_space c h = ground arith

-- Digits have no blank and no sign in front.
signed_digits :
    (c : ℕ) (cs : Bytes)
    → is_digit c ≡ true
    → strtoull (c ∷ cs) ≡ ranged false (unsigned_value (c ∷ cs))
unfolding strtoull
signed_digits c cs digit =
    let no_minus : (c == b'-') ≡ false = ground arith in
    let no_plus : (c == b'+') ≡ false = ground arith in
    ap signed_value (kept_space c cs (digit_space c digit)) ∙ rw (no_minus, no_plus) refl

strtoull-AreDigits :
    (text : Bytes) → AreDigits text → strtoull text ≡ ranged false (unsigned_value text)
strtoull-AreDigits text (c, cs, same, (digit, digits)) = rw same (signed_digits c cs digit)

strtoull_minus : (text : Bytes) → strtoull (b'-' ∷ text) ≡ ranged true (unsigned_value text)
unfolding strtoull isspace
strtoull_minus text = refl

strtoull-dec : (n : ℕ) → n < 2 ^ 32 → strtoull (dec (pos n)) ≡ n
unfolding dec
strtoull-dec n low =
    strtoull-AreDigits (dec_onto 10 n []) (dec_onto-AreDigits 9 n)
    ∙ ap (ranged false) (unsigned-dec_onto 9 n (omega (arith, low)))
    ∙ ground arith

strtoull-dec_minus : (n : ℕ) → n < 2 ^ 32 → strtoull (dec (negsuc n)) ≡ 2 ^ 64 - suc n
unfolding dec
strtoull-dec_minus n low =
    strtoull_minus (dec_onto 10 (suc n) [])
    ∙ ap (ranged true) (unsigned-dec_onto 9 (suc n) (omega (arith, low)))
    ∙ ground arith

-- A number of type `int` that is converted to a string, and the string to a number, is the same number.
number_of-dec : (n : ℤ) → IsInt n → number_of (string (dec n)) ≡ n
unfolding number_of to_int
number_of-dec (pos n) (low, high) =
    ap (λ v. to_int (v % 2 ^ 32)) (strtoull-dec n (omega (arith, low))) ∙ ground arith
number_of-dec (negsuc n) (low, high) =
    ap (λ v. to_int (v % 2 ^ 32)) (strtoull-dec_minus n (omega (arith, high))) ∙ ground arith

-- A number that the interpreter converts to a string, with room for the string on the heap, and back
-- to a number is the same number, if it is one of type `int`.
pub term_to_number-term_to_string :
    {W Fd : Type 0} (p : Platform W Fd) (fuel : ℕ) (n : ℤ) (s : State W)
    → IsInt n
    → s.heap_index % 8 ≡ 0
    → s.heap_index + (round_up p.term_size + round_up (length (dec n) + 1)) ≤ heap_size
    → (s' : State W) × (text : Bytes) × ((evaluator p (suc fuel)).term_to_string (number n) s
        ≡ (ok text, s'))
      × (term_to_number p (evaluator p (suc fuel)) (string text) s' ≡ (ok n, s'))
unfolding evaluator term_to_string_impl term_resolve_impl to_string_resolved term_new_string
    alloc_string term_to_number
term_to_number-term_to_string p fuel n s int aligned fits =
    let (a, b, sum) = two_blocks p (dec n) s aligned fits in
    let s' = record s {
      heap_index = s.heap_index + (round_up p.term_size + round_up (length (dec n) + 1));
    } in
    (s', dec n, rw (a, b, sum) refl, ap (λ m. (ok m, s')) (number_of-dec n int))
