-- ===== src/Base/CString.antt =====
-- C strings as lists of bytes without the final NUL, and the functions of <string.h>, <ctype.h>
-- and <stdio.h> that the program calls on them.
use Prim.Native.Char.{code}
use Prim.Native.String.{String}
use nerves_initramfs.Base.Tests.{ltb, leb, ◌==◌, if◌then◌else◌}
use nerves_initramfs.Base.Lists.{take}
use Prim.Native.Nat.{ℕ, zero, suc, ◌+◌}
use mathlib.Core.Path.{◌≡◌, refl}
use mathlib.Core.Logic.{◌↔◌}
use mathlib.Core.Bool.{Bool, true, false, ◌&&◌, ◌||◌}
use mathlib.Core.List.{List, [], ◌∷◌}
use native.Mathlib.Omega.{arith}

abbrev pub Bytes : Type 0
Bytes = List ℕ

-- The bytes of an ASCII literal.
abbrev pub codes : String → Bytes
codes String.[] = []
codes (String.◌∷◌ c s) = code c ∷ codes s

-- `strcmp(a, b) == 0`
unfoldable pub str_eq : Bytes → Bytes → Bool
str_eq [] [] = true
str_eq (x ∷ xs) (y ∷ ys) = x == y && str_eq xs ys
str_eq _ _ = false

-- `strcmp(a, b) <= 0`; bytes are compared as unsigned char
unfoldable pub str_le : Bytes → Bytes → Bool
str_le [] ys = true
str_le (x ∷ xs) [] = false
str_le (x ∷ xs) (y ∷ ys) = ltb x y || (x == y && str_le xs ys)

-- `tolower` in the C locale
unfoldable pub tolower : ℕ → ℕ
tolower c = if leb b'A' c && leb c b'Z' then c + 32 else c

-- `isspace`
unfoldable pub isspace : ℕ → Bool
isspace c = c == b' ' || (leb 9 c && leb c 13)

-- `strcasecmp(a, b) == 0`
unfoldable pub strcase_eq : Bytes → Bytes → Bool
strcase_eq [] [] = true
strcase_eq (x ∷ xs) (y ∷ ys) = tolower x == tolower y && strcase_eq xs ys
strcase_eq _ _ = false

-- `DT_DIR` of dirent.h; a test of `d_type & DT_DIR` tests the one bit
abbrev pub dt_dir : ℕ
dt_dir = 4

-- `strncmp(prefix, s, strlen(prefix)) == 0`
unfoldable pub has_prefix : Bytes → Bytes → Bool
has_prefix [] s = true
has_prefix (p ∷ ps) [] = false
has_prefix (p ∷ ps) (c ∷ cs) = p == c && has_prefix ps cs

-- What a `char *` into a buffer stands for: the bytes before the first NUL.
abbrev pub until_nul : Bytes → Bytes
until_nul [] = []
until_nul (zero ∷ cs) = []
until_nul (suc c ∷ cs) = suc c ∷ until_nul cs

-- `strndup(s, n)`
abbrev pub strndup : Bytes → ℕ → Bytes
strndup s n = take n (until_nul s)

pub str_eq_iff : (a b : Bytes) → (str_eq a b ≡ true) ↔ (a ≡ b)
unfolding str_eq
str_eq_iff [] [] = (λ _. refl, λ _. refl)
str_eq_iff [] (y ∷ ys) = ground arith
str_eq_iff (x ∷ xs) [] = ground arith
str_eq_iff (x ∷ xs) (y ∷ ys) = ground (arith, str_eq_iff xs ys)

pub str_le_refl : (a : Bytes) → str_le a a ≡ true
unfolding str_le
str_le_refl [] = refl
str_le_refl (x ∷ xs) = ground (arith, str_le_refl xs)

pub str_le_antisymm : (a b : Bytes) → str_le a b ≡ true → str_le b a ≡ true → a ≡ b
unfolding str_le
str_le_antisymm [] [] p q = refl
str_le_antisymm [] (y ∷ ys) p q = ground arith
str_le_antisymm (x ∷ xs) [] p q = ground arith
str_le_antisymm (x ∷ xs) (y ∷ ys) p q = ground (arith, str_le_antisymm xs ys)

pub str_le_trans : (a b c : Bytes) → str_le a b ≡ true → str_le b c ≡ true → str_le a c ≡ true
unfolding str_le
str_le_trans [] b c p q = refl
str_le_trans (x ∷ xs) [] c p q = ground arith
str_le_trans (x ∷ xs) (y ∷ ys) [] p q = ground arith
str_le_trans (x ∷ xs) (y ∷ ys) (z ∷ zs) p q = ground (arith, str_le_trans xs ys zs)

pub str_le_total : (a b : Bytes) → str_le a b ≡ false → str_le b a ≡ true
unfolding str_le
str_le_total [] b p = ground arith
str_le_total (x ∷ xs) [] p = refl
str_le_total (x ∷ xs) (y ∷ ys) p = ground (arith, str_le_total xs ys)
