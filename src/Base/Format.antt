-- ===== src/Base/Format.antt =====
-- The conversions of <stdio.h> that the program prints with: `%02x`, `%08x` and `%d`.
use Prim.Native.Nat.{ℕ, zero, suc, ◌+◌, ◌-◌, ◌/◌, ◌%◌, ◌^◌, ◌≤◌}
use mathlib.Core.Path.{◌≡◌, refl}
use mathlib.Core.List.{[], ◌∷◌}
use native.Mathlib.Omega.{arith}
use nerves_initramfs.Base.Tests.{ltb, ◌==◌, if◌then◌else◌}
use nerves_initramfs.Base.Lists.{length}
use nerves_initramfs.Base.CString.{Bytes}
use nerves_initramfs.Base.Int.{ℤ, pos, negsuc}

unfoldable pub hex_digit : ℕ → ℕ
hex_digit d = if ltb d 10 then b'0' + d else b'a' + (d - 10)

-- the low `n` hexadecimal digits, the highest first
unfoldable pub hex : ℕ → ℕ → Bytes
unfolding hex_digit
hex zero w = []
hex (suc n) w = hex_digit (w / 16 ^ n % 16) ∷ hex n w

-- `%02x` of a `uint8_t`
abbrev pub hex_02 : ℕ → Bytes
hex_02 = hex 2

-- `%08x` of a `uint32_t`
abbrev pub hex_08 : ℕ → Bytes
hex_08 = hex 8

-- the decimal digits of `n`, at most `fuel` of them, in front of `acc`
unfoldable pub dec_onto : ℕ → ℕ → Bytes → Bytes
dec_onto zero n acc = acc
dec_onto (suc fuel) n acc =
    let rest = dec_onto fuel (n / 10) ((b'0' + n % 10) ∷ acc) in
    if n / 10 == 0 then (b'0' + n % 10) ∷ acc else rest

-- `%d` of an `int`; ten digits are enough for 32 bits
unfoldable pub dec : ℤ → Bytes
unfolding dec_onto
dec (pos n) = dec_onto 10 n []
dec (negsuc n) = b'-' ∷ dec_onto 10 (suc n) []

pub length-hex : (n w : ℕ) → length (hex n w) ≡ n
unfolding hex
length-hex zero w = refl
length-hex (suc n) w = omega (arith, length-hex n w)

pub length-dec_onto : (fuel n : ℕ) (acc : Bytes) → length (dec_onto fuel n acc) ≤ fuel + length acc
unfolding dec_onto
length-dec_onto zero n acc = omega arith
length-dec_onto (suc fuel) n acc =
    ground (arith, length-dec_onto fuel (n / 10) ((b'0' + n % 10) ∷ acc))
