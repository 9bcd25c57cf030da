-- ===== src/Script/Lexer/Stops.antt =====
-- Matches of src/lexer.l that end at a byte which they do not take in: what is behind it makes no
-- difference.
use nerves_initramfs.Base.{
  ℕ, suc, ◌+◌, Bool, false, ◌&&◌, [], ◌∷◌, ◌++◌, ◌≡◌, refl, sym, ap, ◌∙◌, inl, inr, ltb, ◌==◌, All,
  Bool-cases, if◌then◌else◌,
}
use nerves_initramfs.Base.CString.{Bytes, codes, has_prefix}
use nerves_initramfs.Script.Lexer.{is_hex, span, hex_number}

pub span_stops :
    (d : ℕ) (p : ℕ → Bool) (cs rest : Bytes) → p d ≡ false → span p (cs ++ (d ∷ rest)) ≡ span p cs
unfolding span
span_stops d p [] rest h = rw h refl
span_stops d p (c ∷ cs) rest h = ap (λ n. if p c then suc n else 0) (span_stops d p cs rest h)

pub prefix_stops :
    (d : ℕ) (text cs rest : Bytes)
    → All (λ t. (t == d) ≡ false) text
    → has_prefix text (cs ++ (d ∷ rest)) ≡ has_prefix text cs
unfolding has_prefix
prefix_stops d [] cs rest h = refl
prefix_stops d (t ∷ text) [] rest (h, hs) = ap (λ b. b && has_prefix text rest) h
prefix_stops d (t ∷ text) (c ∷ cs) rest (h, hs) =
    ap (λ b. t == c && b) (prefix_stops d text cs rest hs)

-- 0x needs two bytes
pub one_byte : (c : ℕ) → has_prefix (codes "0x") (c ∷ []) ≡ false
unfolding has_prefix
one_byte c = elim (Bool-cases (b'0' == c)) [
  | inl e ↦ ap (λ b. b && false) e
  | inr e ↦ ap (λ b. b && false) e
]

-- the length of a number, from whether 0x is there and how many digits
abbrev pub hexed : Bool → ℕ → ℕ
hexed b n = if b && ltb 0 n then 2 + n else 0

pub hex_stops :
    (d c : ℕ) (cs rest : Bytes)
    → is_hex d ≡ false
    → All (λ t. (t == d) ≡ false) (codes "0x")
    → hex_number (c ∷ (cs ++ (d ∷ rest))) ≡ hex_number (c ∷ cs)
unfolding span
hex_stops d c [] rest h k =
    ap (λ b. hexed b (span is_hex rest)) (prefix_stops d (codes "0x") (c ∷ []) rest k ∙ one_byte c)
    ∙ sym (ap (λ b. hexed b 0) (one_byte c))
hex_stops d c (e ∷ cs) rest h k =
    ap (λ b. hexed b (span is_hex (cs ++ (d ∷ rest))))
      (prefix_stops d (codes "0x") (c ∷ e ∷ cs) rest k)
    ∙ ap (hexed (has_prefix (codes "0x") (c ∷ e ∷ cs))) (span_stops d is_hex cs rest h)
