-- ===== src/Script/Strtoull.antt =====
-- `strtoull(s, NULL, 0)` of the C library in the C locale: blanks, a sign, a base by prefix, digits.
use nerves_initramfs.Base.{
  ℕ, ◌+◌, ◌-◌, ◌*◌, ◌%◌, ◌^◌, Bool, true, false, ◌&&◌, [], ◌∷◌, Option, none, some, ltb, leb, ◌==◌,
  if◌then◌else◌,
}
use nerves_initramfs.Base.CString.{Bytes, tolower, isspace}

abbrev pub skip_space : Bytes → Bytes
skip_space [] = []
skip_space (c ∷ cs) = let rest = skip_space cs in if isspace c then rest else c ∷ cs

-- The value of a digit in a base, if it is one.
abbrev pub digit_value : ℕ → ℕ → Option ℕ
digit_value base c =
    let v =
      if leb b'0' c && leb c b'9'
      then c - b'0'
      else if leb b'a' (tolower c) && leb (tolower c) b'z'
      then tolower c - b'a' + 10
      else 36 in
    if ltb v base then some v else none

abbrev pub digits_value : ℕ → Bytes → ℕ → ℕ
digits_value base [] acc = acc
digits_value base (c ∷ cs) acc = elim (digit_value base c) [
  | none ↦ acc
  | some d ↦ digits_value base cs (acc * base + d)
]

-- By prefix: 0x is 16, 0 is 8, else 10. (The value of 0x with no digit behind is 0 either way.)
abbrev pub unsigned_value : Bytes → ℕ
unsigned_value (c ∷ d ∷ cs) =
    if c == b'0' && tolower d == b'x'
    then digits_value 16 cs 0
    else if c == b'0'
    then digits_value 8 (d ∷ cs) 0
    else digits_value 10 (c ∷ d ∷ cs) 0
unsigned_value cs = digits_value 10 cs 0

-- Out of range is `ULLONG_MAX`; a minus sign negates modulo 2 ^ 64.
abbrev pub ranged : Bool → ℕ → ℕ
ranged negative v =
    if leb (2 ^ 64) v then 2 ^ 64 - 1 else if negative then (2 ^ 64 - v) % 2 ^ 64 else v

abbrev pub signed_value : Bytes → ℕ
signed_value [] = 0
signed_value (c ∷ cs) =
    if c == b'-'
    then ranged true (unsigned_value cs)
    else if c == b'+'
    then ranged false (unsigned_value cs)
    else ranged false (unsigned_value (c ∷ cs))

unfoldable pub strtoull : Bytes → ℕ
unfolding isspace tolower
strtoull s = signed_value (skip_space s)
