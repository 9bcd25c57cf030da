-- ===== src/UbootEnv/Valid.antt =====
-- The pairs that a block can hold, and the two scanners of `uboot_env_read` on them.
use nerves_initramfs.Base.{
  zero, suc, ◌^◌, ◌≤◌, ◌<◌, false, [], ◌∷◌, ◌++◌, some, ◌≡◌, ◌≢◌, refl, ap, arith, Bool-cases,
  Option-cases, inl, inr, All, ◌==◌, length, take-append, take_all,
}
use nerves_initramfs.Base.CString.{Bytes, strndup, until_nul}
use nerves_initramfs.UbootEnv.Defs.{Pair}
use nerves_initramfs.UbootEnv.Read.{scan_name, scan_value, negated_size}

abbrev pub HasNoNul : Bytes → Type 0
HasNoNul = All (λ b. 0 < b)

-- A name is not empty, and has an '=' at most as its first byte, at which the scanner does not look.
abbrev pub IsName : Bytes → Type 0
IsName [] = ⊥
IsName (c ∷ cs) = (0 < c) × All (λ b. (0 < b) × (b ≢ b'=')) cs

abbrev pub IsValidPair : Pair → Type 0
IsValidPair pair = IsName pair.name × HasNoNul pair.value

pub scan_name-append :
    (cs rest : Bytes)
    → All (λ b. (0 < b) × (b ≢ b'=')) cs
    → scan_name (cs ++ (b'=' ∷ rest)) ≡ some (cs, rest)
unfolding scan_name
scan_name-append [] rest h = refl
scan_name-append (zero ∷ cs) rest h = absurd (omega arith)
scan_name-append (suc c ∷ cs) rest h =
    let ne : (suc c == b'=') ≡ false = ground arith in rw (ne, scan_name-append cs rest h.1)

pub scan_value-append :
    (value rest : Bytes) → HasNoNul value → scan_value (value ++ (0 ∷ rest)) ≡ some (value, rest)
unfolding scan_value
scan_value-append [] rest h = refl
scan_value-append (zero ∷ cs) rest h = absurd (omega arith)
scan_value-append (suc c ∷ cs) rest h = rw (scan_value-append cs rest h.1)

pub scan_name_sound :
    (cs : Bytes) {name rest : Bytes}
    → scan_name cs ≡ some (name, rest)
    → All (λ b. (0 < b) × (b ≢ b'=')) name × (cs ≡ name ++ (b'=' ∷ rest))
unfolding scan_name
scan_name_sound [] h = ground arith
scan_name_sound (zero ∷ cs) h = ground arith
scan_name_sound (suc c ∷ cs) {name} {rest} h = elim (Bool-cases (suc c == b'=')) [
  | inl e ↦
      let en : [] ≡ name = ground arith in
      let er : cs ≡ rest = ground arith in
      let head : suc c ≡ b'=' = ground arith in rw (← en, ← er) (tt, ap (λ x. x ∷ cs) head)
  | inr ne ↦ elim (Option-cases (scan_name cs)) [
    | inl e ↦ absurd (ground arith)
    | inr ((n, r), e) ↦
        let en : suc c ∷ n ≡ name = ground arith in
        let er : r ≡ rest = ground arith in
        let head : (0 < suc c) × (suc c ≢ b'=') = ground arith in
        let (tail, split) = scan_name_sound cs e in
        rw (← en, ← er) ((head, tail), ap (◌∷◌ (suc c)) split)
  ]
]

pub scan_value_sound :
    (cs : Bytes) {value rest : Bytes}
    → scan_value cs ≡ some (value, rest)
    → HasNoNul value × (cs ≡ value ++ (0 ∷ rest))
unfolding scan_value
scan_value_sound [] h = ground arith
scan_value_sound (zero ∷ cs) {value} {rest} h =
    let en : [] ≡ value = ground arith in
    let er : cs ≡ rest = ground arith in rw (← en, ← er) (tt, refl)
scan_value_sound (suc c ∷ cs) {value} {rest} h = elim (Option-cases (scan_value cs)) [
  | inl e ↦ absurd (ground arith)
  | inr ((n, r), e) ↦
      let en : suc c ∷ n ≡ value = ground arith in
      let er : r ≡ rest = ground arith in
      let (tail, split) = scan_value_sound cs e in
      rw (← en, ← er) ((omega arith, tail), ap (◌∷◌ (suc c)) split)
]

until_nul_stop : (v rest : Bytes) → HasNoNul v → until_nul (v ++ (0 ∷ rest)) ≡ v
until_nul_stop [] rest h = refl
until_nul_stop (zero ∷ v) rest h = absurd (omega arith)
until_nul_stop (suc c ∷ v) rest h = ap (◌∷◌ (suc c)) (until_nul_stop v rest h.1)

-- The negated length that the code passes is at least the length, so `strndup` stops at the NUL.
pub strndup-negated_size :
    (v rest : Bytes)
    → HasNoNul v
    → length v ≤ 2 ^ 63
    → strndup (v ++ (0 ∷ rest)) (negated_size (length v)) ≡ v
strndup-negated_size v rest h small =
    rw (until_nul_stop v rest h) (take_all (negated_size (length v)) v (omega arith))

until_nul_keeps :
    (name rest : Bytes) → HasNoNul name → until_nul (name ++ rest) ≡ name ++ until_nul rest
until_nul_keeps [] rest h = refl
until_nul_keeps (zero ∷ v) rest h = absurd (omega arith)
until_nul_keeps (suc c ∷ v) rest h = ap (◌∷◌ (suc c)) (until_nul_keeps v rest h.1)

pub strndup_name : (name rest : Bytes) → HasNoNul name → strndup (name ++ rest) (length name) ≡ name
strndup_name name rest h = rw (until_nul_keeps name rest h) (take-append name (until_nul rest))

pub HasNoNul-tail : (cs : Bytes) → All (λ b. (0 < b) × (b ≢ b'=')) cs → HasNoNul cs
HasNoNul-tail [] h = tt
HasNoNul-tail (c ∷ cs) h = (h.0.0, HasNoNul-tail cs h.1)
