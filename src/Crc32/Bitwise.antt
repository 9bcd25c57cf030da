-- ===== src/Crc32/Bitwise.antt =====
-- The CRC-32 of the standard, bit by bit, and that the table computes it.
use nerves_initramfs.Base.{
  ℕ, zero, suc, ◌+◌, ◌-◌, ◌*◌, ◌/◌, ◌%◌, ◌<◌, Bool, true, ◌&&◌, [], ◌∷◌, All, ◌≡◌, refl, sym, ap,
  ap₂, ◌∙◌, arith, bit_xor, get_or, ◌==◌,
}
use nerves_initramfs.Base.CString.{Bytes}
use nerves_initramfs.Crc32.{crc_32_tab, updc32, crc32_loop, crc32buf}
use nerves_initramfs.Crc32.Bits.{
  zero-bit_xor, bit_xor-zero, bit_xor_half, bit_xor_low, bit_xor_swap, bit_xor_above, bit_and_octet,
}

-- one step of the shift register, with the reversed polynomial fed back where a bit falls out
unfoldable pub shift_bit : ℕ → ℕ
shift_bit x = bit_xor (x / 2) (x % 2 * 0xedb8_8320)

unfoldable pub shift_bits : ℕ → ℕ → ℕ
shift_bits zero x = x
shift_bits (suc k) x = shift_bit (shift_bits k x)

-- The first n entries of the table are what the register makes of their index.
agrees_below : ℕ → Bool
agrees_below zero = true
agrees_below (suc i) = get_or crc_32_tab i 0 == shift_bits 8 i && agrees_below i

table_agrees : agrees_below 256 ≡ true
unfolding agrees_below shift_bits shift_bit crc_32_tab
table_agrees = refl

entry_of : (n i : ℕ) → agrees_below n ≡ true → i < n → get_or crc_32_tab i 0 ≡ shift_bits 8 i
unfolding agrees_below
entry_of zero i agrees below = absurd (omega arith)
entry_of (suc n) i agrees below = ground (arith, entry_of n i)

-- A bit that stays above the one that falls out moves down unchanged.
shift_bit_above :
    (a h c : ℕ) → c < 2 → shift_bit (bit_xor a (h * 2 + c)) ≡ bit_xor (shift_bit (bit_xor a c)) h
unfolding shift_bit
shift_bit_above a h c small =
    let low : bit_xor a (h * 2 + c) % 2 ≡ bit_xor a c % 2 =
      omega (arith, bit_xor_low a (h * 2 + c), bit_xor_low a c) in
    let upper : (h * 2 + c) / 2 ≡ h = omega arith in
    let none_left : c / 2 ≡ 0 = omega arith in
    let left : bit_xor a (h * 2 + c) / 2 ≡ bit_xor (a / 2) h =
      bit_xor_half a (h * 2 + c) ∙ ap (bit_xor (a / 2)) upper in
    let right : bit_xor a c / 2 ≡ a / 2 =
      bit_xor_half a c ∙ ap (bit_xor (a / 2)) none_left ∙ bit_xor-zero (a / 2) in
    ap₂ (λ u b. bit_xor u (b * 0xedb8_8320)) left low
    ∙ bit_xor_swap (a / 2) h (bit_xor a c % 2 * 0xedb8_8320)
    ∙ ap (λ u. bit_xor (bit_xor u (bit_xor a c % 2 * 0xedb8_8320)) h) (sym right)

-- What k shifts do to the bits above the lowest k, where m is 2 ^ k: they move down unchanged.
abbrev Above : ℕ → ℕ → Type 0
Above k m = (x : ℕ) → shift_bits k x ≡ bit_xor (shift_bits k (x % m)) (x / m)

step-Above :
    (k m : ℕ)
    → ((x : ℕ)
        → (x % (m * 2) % m ≡ x % m) × (x % (m * 2) / m ≡ x / m % 2) × (x / (m * 2) ≡ x / m / 2))
    → Above k m
    → Above (suc k) (m * 2)
unfolding shift_bits
step-Above k m splits above x =
    let (low, bit, upper) = splits x in
    let parts : x / m ≡ x / m / 2 * 2 + x / m % 2 = omega arith in
    let low_part : shift_bits k (x % (m * 2)) ≡ bit_xor (shift_bits k (x % m)) (x / m % 2) =
      above (x % (m * 2)) ∙ ap₂ (λ l b. bit_xor (shift_bits k l) b) low bit in
    ap shift_bit (above x ∙ ap (bit_xor (shift_bits k (x % m))) parts)
    ∙ shift_bit_above (shift_bits k (x % m)) (x / m / 2) (x / m % 2) (omega arith)
    ∙ ap₂ (λ u h. bit_xor (shift_bit u) h) (sym low_part) (sym upper)

none-Above : Above 0 1
unfolding shift_bits
none-Above x =
    let low : x % 1 ≡ 0 = omega arith in
    let upper : x / 1 ≡ x = omega arith in sym (ap₂ bit_xor low upper ∙ zero-bit_xor x)

octet-Above : Above 8 256
octet-Above =
    step-Above 7 128 (λ x. (omega arith, omega arith, omega arith))
      (step-Above 6 64 (λ x. (omega arith, omega arith, omega arith))
        (step-Above 5 32 (λ x. (omega arith, omega arith, omega arith))
          (step-Above 4 16 (λ x. (omega arith, omega arith, omega arith))
            (step-Above 3 8 (λ x. (omega arith, omega arith, omega arith))
              (step-Above 2 4 (λ x. (omega arith, omega arith, omega arith))
                (step-Above 1 2 (λ x. (omega arith, omega arith, omega arith))
                  (step-Above 0 1 (λ x. (omega arith, omega arith, omega arith)) none-Above)))))))

updc32_lem : (octet crc : ℕ) → octet < 256 → updc32 octet crc ≡ shift_bits 8 (bit_xor crc octet)
unfolding updc32
updc32_lem octet crc h =
    let x = bit_xor crc octet in
    let index = bit_and_octet x in
    let entry : get_or crc_32_tab (x % 256) 0 ≡ shift_bits 8 (x % 256) =
      entry_of 256 (x % 256) table_agrees (omega arith) in
    sym (
      octet-Above x
      ∙ ap₂ bit_xor (sym entry ∙ ap (λ i. get_or crc_32_tab i 0) (sym index))
          (bit_xor_above crc octet h))

-- The register behind a buffer.
unfoldable pub shift_bytes : Bytes → ℕ → ℕ
shift_bytes [] crc = crc
shift_bytes (octet ∷ buf) crc = shift_bytes buf (shift_bits 8 (bit_xor crc octet))

loop_bits :
    (buf : Bytes) (crc : ℕ)
    → All (λ octet. octet < 256) buf
    → crc32_loop buf crc ≡ shift_bytes buf crc
unfolding crc32_loop shift_bytes
loop_bits [] crc h = refl
loop_bits (octet ∷ buf) crc (h, hs) =
    ap (crc32_loop buf) (updc32_lem octet crc h)
    ∙ loop_bits buf (shift_bits 8 (bit_xor crc octet)) hs

-- On octets, the table-driven code computes the CRC-32 of the reversed polynomial 0xEDB88320: the
-- register starts with ones, takes in each octet by exclusive or and shifts it out bit by bit, and is
-- complemented at the end.
pub crc32buf_lem :
    (buf : Bytes)
    → All (λ octet. octet < 256) buf
    → crc32buf buf ≡ 0xffff_ffff - shift_bytes buf 0xffff_ffff
unfolding crc32buf
crc32buf_lem buf h = ap (λ crc. 0xffff_ffff - crc) (loop_bits buf 0xffff_ffff h)
