-- ===== src/Script/Digits.antt =====
-- What `%d` prints is read back by `strtoul` with base 10.
use nerves_initramfs.Base.{
  ℕ, zero, suc, ◌+◌, ◌-◌, ◌*◌, ◌/◌, ◌%◌, ◌^◌, ◌<◌, true, [], ◌∷◌, ◌≡◌, refl, ◌∙◌, ap, arith, All,
  Bool-cases, inl, inr, ltb, leb, ◌==◌,
}
use nerves_initramfs.Base.CString.{Bytes}
use nerves_initramfs.Base.Format.{dec_onto}
use nerves_initramfs.Script.Strtoull.{digit_value, digits_value}
use nerves_initramfs.Script.Lexer.{is_digit}

digit_read :
    (d acc : ℕ) (cs : Bytes)
    → d < 10
    → digits_value 10 ((b'0' + d) ∷ cs) acc ≡ digits_value 10 cs (acc * 10 + d)
digit_read d acc cs h =
    let low : leb b'0' (b'0' + d) ≡ true = ground arith in
    let high : leb (b'0' + d) b'9' ≡ true = ground arith in
    let small : ltb (b'0' + d - b'0') 10 ≡ true = ground arith in
    let same : b'0' + d - b'0' ≡ d = omega arith in
    rw (low, high, small, same, digits_value, digit_value) refl

pub digits_value-dec_onto :
    (fuel n : ℕ) (acc : Bytes)
    → n < 10 ^ suc fuel
    → digits_value 10 (dec_onto (suc fuel) n acc) 0 ≡ digits_value 10 acc n
unfolding dec_onto
digits_value-dec_onto zero n acc h =
    let first : n / 10 ≡ 0 = omega arith in
    let only : 0 * 10 + n % 10 ≡ n = omega arith in
    rw first (digit_read (n % 10) 0 acc (omega arith) ∙ ap (digits_value 10 acc) only)
digits_value-dec_onto (suc fuel) n acc h = elim (Bool-cases (n / 10 == 0)) [
  | inl e ↦
      let only : 0 * 10 + n % 10 ≡ n = ground arith in
      rw e (digit_read (n % 10) 0 acc (omega arith) ∙ ap (digits_value 10 acc) only)
  | inr e ↦
      let all : n / 10 * 10 + n % 10 ≡ n = omega arith in
      rw e (
        digits_value-dec_onto fuel (n / 10) ((b'0' + n % 10) ∷ acc) (omega arith)
        ∙ digit_read (n % 10) (n / 10) acc (omega arith)
        ∙ ap (digits_value 10 acc) all)
]

-- a digit at least, and nothing else
abbrev pub AreDigits : Bytes → Type 0
AreDigits text = (d : ℕ) × (ds : Bytes) × (text ≡ d ∷ ds) × All (λ c. is_digit c ≡ true) (d ∷ ds)

last_digit : (n : ℕ) → is_digit (b'0' + n % 10) ≡ true
last_digit n = ground arith

digits_in_front :
    (fuel n d : ℕ) (acc : Bytes)
    → All (λ c. is_digit c ≡ true) (d ∷ acc)
    → AreDigits (dec_onto fuel n (d ∷ acc))
unfolding dec_onto
digits_in_front zero n d acc all = (d, acc, refl, all)
digits_in_front (suc fuel) n d acc all =
    let more : All (λ c. is_digit c ≡ true) ((b'0' + n % 10) ∷ d ∷ acc) = (last_digit n, all) in
    elim (Bool-cases (n / 10 == 0)) [
      | inl e ↦ rw e (b'0' + n % 10, d ∷ acc, refl, more)
      | inr e ↦ rw e (digits_in_front fuel (n / 10) (b'0' + n % 10) (d ∷ acc) more)
    ]

pub dec_onto-AreDigits : (fuel n : ℕ) → AreDigits (dec_onto (suc fuel) n [])
unfolding dec_onto
dec_onto-AreDigits fuel n =
    let more : All (λ c. is_digit c ≡ true) ((b'0' + n % 10) ∷ []) = (last_digit n, tt) in
    elim (Bool-cases (n / 10 == 0)) [
      | inl e ↦ rw e (b'0' + n % 10, [], refl, more)
      | inr e ↦ rw e (digits_in_front fuel (n / 10) (b'0' + n % 10) [] more)
    ]
