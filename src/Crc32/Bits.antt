-- ===== src/Crc32/Bits.antt =====
-- Exclusive or and the low octet of a number, digit by digit.
use Prim.Native.Nat.{digits, differ, bit_and-bitwise, bit_xor-bitwise, min}
use nerves_initramfs.Base.{
  ℕ, zero, suc, ◌+◌, ◌*◌, ◌/◌, ◌%◌, ◌^◌, ◌≤◌, ◌<◌, ◌≡◌, refl, ap, sym, ◌∙◌, arith, bit_and, bit_xor,
}

-- Induction that goes from half of a number to the number.
halves_below :
    (P : ℕ → Type 0) (start : P 0) (goes_on : (a : ℕ) → P (suc a / 2) → P (suc a)) (bound a : ℕ)
    → a ≤ bound
    → P a
halves_below P start goes_on bound zero fits = start
halves_below P start goes_on zero (suc a) fits = absurd (omega arith)
halves_below P start goes_on (suc bound) (suc a) fits =
    goes_on a (halves_below P start goes_on bound (suc a / 2) (omega arith))

by_halves : (P : ℕ → Type 0) → P 0 → ((a : ℕ) → P (suc a / 2) → P (suc a)) → (a : ℕ) → P a
by_halves P start goes_on a = halves_below P start goes_on a a (omega arith)

-- What both operations share: `rest` is the result once the first number is used up, and `f` that of
-- two digits.
module _ (rest : ℕ → ℕ) (f : ℕ → ℕ → ℕ) where
  abbrev by_digits : ℕ → ℕ → ℕ
  by_digits a b = digits rest f a a b

  -- a count of digits that is at least the number gives the same as the number itself
  count_enough : (a count b : ℕ) → a ≤ count → digits rest f count a b ≡ by_digits a b
  count_enough a =
      by_halves (λ a. (count b : ℕ) → a ≤ count → digits rest f count a b ≡ by_digits a b) none_left
        one_more a
    where
      none_left : (count b : ℕ) → 0 ≤ count → digits rest f count 0 b ≡ by_digits 0 b
      none_left zero b fits = refl
      none_left (suc count) b fits = refl

      one_more :
          (a : ℕ)
          → ((count b : ℕ)
              → suc a / 2 ≤ count
              → digits rest f count (suc a / 2) b ≡ by_digits (suc a / 2) b)
          → (count b : ℕ) → suc a ≤ count
          → digits rest f count (suc a) b ≡ by_digits (suc a) b
      one_more a half zero b fits = absurd (omega arith)
      one_more a half (suc count) b fits =
          ap (λ high. high * 2 + f (suc a % 2) (b % 2))
            (half count (b / 2) (omega arith) ∙ sym (half a (b / 2) (omega arith)))

  -- the lowest digit apart
  by_digits_step :
      ((b : ℕ) → rest b ≡ rest (b / 2) * 2 + f 0 (b % 2))
      → (a b : ℕ) → by_digits a b ≡ by_digits (a / 2) (b / 2) * 2 + f (a % 2) (b % 2)
  by_digits_step used_up zero b = used_up b
  by_digits_step used_up (suc a) b =
      ap (λ high. high * 2 + f (suc a % 2) (b % 2))
        (count_enough (suc a / 2) a (b / 2) (omega arith))

differ_lem : (x y : ℕ) → x < 2 → y < 2 → differ x y ≡ (x + y) % 2
differ_lem zero y h k = omega arith
differ_lem (suc x) zero h k = omega arith
differ_lem (suc zero) (suc zero) h k = refl
differ_lem (suc zero) (suc (suc y)) h k = absurd (omega arith)
differ_lem (suc (suc x)) (suc y) h k = absurd (omega arith)

pub bit_xor_step : (a b : ℕ) → bit_xor a b ≡ bit_xor (a / 2) (b / 2) * 2 + (a % 2 + b % 2) % 2
bit_xor_step a b =
    let low = differ_lem (a % 2) (b % 2) (omega arith) (omega arith) in
    let apart = by_digits_step (λ c. c) differ (λ c. omega arith) a b in
    omega (arith, apart, low, bit_xor-bitwise a b, bit_xor-bitwise (a / 2) (b / 2))

bit_and_step : (a b : ℕ) → bit_and a b ≡ bit_and (a / 2) (b / 2) * 2 + min (a % 2) (b % 2)
bit_and_step a b =
    let apart = by_digits_step (λ c. 0) min (λ c. omega arith) a b in
    omega (arith, apart, bit_and-bitwise a b, bit_and-bitwise (a / 2) (b / 2))

pub zero-bit_xor : (b : ℕ) → bit_xor 0 b ≡ b
zero-bit_xor b = bit_xor-bitwise 0 b

pub bit_xor-zero : (a : ℕ) → bit_xor a 0 ≡ a
bit_xor-zero =
    by_halves (λ a. bit_xor a 0 ≡ a) refl (λ a half. omega (arith, bit_xor_step (suc a) 0, half))

bit_and-zero : (a : ℕ) → bit_and a 0 ≡ 0
bit_and-zero =
    by_halves (λ a. bit_and a 0 ≡ 0) refl (λ a half. omega (arith, bit_and_step (suc a) 0, half))

pub bit_xor_half : (a b : ℕ) → bit_xor a b / 2 ≡ bit_xor (a / 2) (b / 2)
bit_xor_half a b = omega (arith, bit_xor_step a b)

pub bit_xor_low : (a b : ℕ) → bit_xor a b % 2 ≡ (a % 2 + b % 2) % 2
bit_xor_low a b = omega (arith, bit_xor_step a b)

bit_xor_comm : (a b : ℕ) → bit_xor a b ≡ bit_xor b a
bit_xor_comm =
    by_halves (λ a. (b : ℕ) → bit_xor a b ≡ bit_xor b a)
      (λ b. zero-bit_xor b ∙ sym (bit_xor-zero b))
      (λ a half b. omega (arith, bit_xor_step (suc a) b, bit_xor_step b (suc a), half (b / 2)))

-- of three numbers, the last two in either order
pub bit_xor_swap : (a b c : ℕ) → bit_xor (bit_xor a b) c ≡ bit_xor (bit_xor a c) b
bit_xor_swap =
    by_halves (λ a. (b c : ℕ) → bit_xor (bit_xor a b) c ≡ bit_xor (bit_xor a c) b)
      (λ b c.
        ap (λ t. bit_xor t c) (zero-bit_xor b)
        ∙ bit_xor_comm b c
        ∙ ap (λ t. bit_xor t b) (sym (zero-bit_xor c)))
      (λ a half b c.
        let left = ap (λ t. bit_xor t (c / 2)) (bit_xor_half (suc a) b) in
        let right = ap (λ t. bit_xor t (b / 2)) (bit_xor_half (suc a) c) in
        let low_left = bit_xor_low (suc a) b in
        let low_right = bit_xor_low (suc a) c in
        let same = half (b / 2) (c / 2) in
        omega (
          arith,
          bit_xor_step (bit_xor (suc a) b) c,
          bit_xor_step (bit_xor (suc a) c) b,
          left,
          right,
          low_left,
          low_right,
          same,
        ))

abbrev halves : ℕ → ℕ → ℕ
halves zero x = x
halves (suc k) x = halves k (x / 2)

halves-bit_xor : (k a b : ℕ) → halves k (bit_xor a b) ≡ bit_xor (halves k a) (halves k b)
halves-bit_xor zero a b = refl
halves-bit_xor (suc k) a b = ap (halves k) (bit_xor_half a b) ∙ halves-bit_xor k (a / 2) (b / 2)

-- Above an octet, exclusive or with it changes nothing.
pub bit_xor_above : (a o : ℕ) → o < 256 → bit_xor a o / 2 ^ 8 ≡ a / 2 ^ 8
bit_xor_above a o h =
    let above : halves 8 o ≡ 0 = omega arith in
    omega (arith, halves-bit_xor 8 a o, ap (bit_xor (halves 8 a)) above, bit_xor-zero (halves 8 a))

-- a mask with its lowest bit set
bit_and_odd : (a m : ℕ) → bit_and a (m * 2 + 1) ≡ bit_and (a / 2) m * 2 + a % 2
bit_and_odd a m =
    let half : (m * 2 + 1) / 2 ≡ m = omega arith in
    omega (arith, bit_and_step a (m * 2 + 1), ap (bit_and (a / 2)) half)

pub bit_and_octet : (a : ℕ) → bit_and a 0xff ≡ a % 2 ^ 8
bit_and_octet a = omega (
  arith,
  bit_and_odd a 127,
  bit_and_odd (halves 1 a) 63,
  bit_and_odd (halves 2 a) 31,
  bit_and_odd (halves 3 a) 15,
  bit_and_odd (halves 4 a) 7,
  bit_and_odd (halves 5 a) 3,
  bit_and_odd (halves 6 a) 1,
  bit_and_odd (halves 7 a) 0,
  bit_and-zero (halves 8 a),
)
