-- ===== src/Util.antt =====
-- `trim_string_in_place` of src/util.c; the messages are in Log.antt.
use nerves_initramfs.Base.{
  ℕ, true, false, [], ◌∷◌, ◌++◌, Option, none, some, ◌≡◌, ◌⊎◌, inl, inr, refl, sym, ◌∙◌, ap, arith,
  if◌then◌else◌, All, Bool-cases, append-nil, subst,
}
use nerves_initramfs.Base.CString.{Bytes, isspace}

-- `first`: behind the leading blanks
unfoldable pub skip_leading : Bytes → Bytes
skip_leading [] = []
skip_leading (c ∷ cs) = let rest = skip_leading cs in if isspace c then rest else c ∷ cs

-- a byte in front of what is left behind it
unfoldable pub keep_unless_blank : ℕ → Bytes → Bytes
keep_unless_blank c [] = if isspace c then [] else c ∷ []
keep_unless_blank c (d ∷ ds) = c ∷ d ∷ ds

-- `last`, which stops at `first` at the latest: the bytes behind the first one without the trailing
-- blanks
unfoldable pub drop_trailing : Bytes → Bytes
unfolding keep_unless_blank
drop_trailing [] = []
drop_trailing (c ∷ cs) = keep_unless_blank c (drop_trailing cs)

-- `none`: nothing is left behind the leading blanks. Then `last` starts before `first`, does not
-- meet it, and is read in front of the string; the length is negative.
unfoldable pub trim_string_in_place : Bytes → Option Bytes
unfolding skip_leading drop_trailing
trim_string_in_place str = elim (skip_leading str) [
  | [] ↦ none
  | first ∷ rest ↦ some (first ∷ drop_trailing rest)
]

-- A string of blanks alone.
abbrev pub AllBlank : Bytes → Type 0
AllBlank = All (λ c. isspace c ≡ true)

-- The last byte, if there is one, is no blank.
unfoldable pub EndsSolid : Bytes → Type 0
EndsSolid [] = Unit {0}
EndsSolid (c ∷ []) = isspace c ≡ false
EndsSolid (c ∷ d ∷ ds) = EndsSolid (d ∷ ds)

cons-EndsSolid : (c : ℕ) (ds : Bytes) → isspace c ≡ false → EndsSolid ds → EndsSolid (c ∷ ds)
unfolding EndsSolid
cons-EndsSolid c [] h solid = h
cons-EndsSolid c (d ∷ ds) h solid = solid

List-cases : (l : Bytes) → (l ≡ []) ⊎ ((c : ℕ) × (rest : Bytes) × (l ≡ c ∷ rest))
List-cases [] = inl refl
List-cases (c ∷ rest) = inr (c, rest, refl)

-- what the two loops leave off is blank
skip_leading_lem :
    (str : Bytes) → (before : Bytes) × AllBlank before × (str ≡ before ++ skip_leading str)
unfolding skip_leading
skip_leading_lem [] = ([], tt, refl)
skip_leading_lem (c ∷ cs) = elim (Bool-cases (isspace c)) [
  | inl e ↦
      let (before, blank, split) = skip_leading_lem cs in
      (c ∷ before, (e, blank), rw (e, skip_leading) (ap (◌∷◌ c) split))
  | inr e ↦ ([], tt, rw (e, skip_leading))
]

skip_leading_solid :
    (str : Bytes) {c : ℕ} {rest : Bytes} → skip_leading str ≡ c ∷ rest → isspace c ≡ false
unfolding skip_leading
skip_leading_solid [] h = ground arith
skip_leading_solid (d ∷ cs) h = elim (Bool-cases (isspace d)) [
  | inl e ↦ skip_leading_solid cs (rw (e, skip_leading) at h)
  | inr e ↦ ground arith
]

keep_unless_blank_lem :
    (c : ℕ) (kept after : Bytes)
    → AllBlank after
    → EndsSolid kept
    → (after' : Bytes) × AllBlank after'
      × (c ∷ (kept ++ after) ≡ keep_unless_blank c kept ++ after')
      × EndsSolid (keep_unless_blank c kept)
unfolding keep_unless_blank EndsSolid
keep_unless_blank_lem c [] after blank solid = elim (Bool-cases (isspace c)) [
  | inl e ↦ (c ∷ after, (e, blank), rw e, rw e tt)
  | inr e ↦ (after, blank, rw e, rw e e)
]
keep_unless_blank_lem c (d ∷ ds) after blank solid = (after, blank, refl, solid)

drop_trailing_lem :
    (str : Bytes)
    → (after : Bytes) × AllBlank after
      × (str ≡ drop_trailing str ++ after)
      × EndsSolid (drop_trailing str)
unfolding drop_trailing EndsSolid
drop_trailing_lem [] = ([], tt, refl, tt)
drop_trailing_lem (c ∷ cs) =
    let (after, blank, split, solid) = drop_trailing_lem cs in
    let (after', blank', whole, solid') =
      keep_unless_blank_lem c (drop_trailing cs) after blank solid in
    (after', blank', ap (◌∷◌ c) split ∙ whole, solid')

-- A string of blanks alone makes the pointers run out of it. Of any other, what is left starts and
-- ends with a byte that is no blank, and only blanks are left off in front and behind.
pub trim_string_in_place_lem :
    (str : Bytes)
    → ((trim_string_in_place str ≡ none) × AllBlank str)
      ⊎ ((before : Bytes) × (c : ℕ) × (rest : Bytes) × (after : Bytes) × (trim_string_in_place str
            ≡ some (c ∷ rest))
          × (str ≡ before ++ ((c ∷ rest) ++ after))
          × AllBlank before
          × AllBlank after
          × (isspace c ≡ false)
          × EndsSolid (c ∷ rest))
unfolding trim_string_in_place
trim_string_in_place_lem str =
    let (before, blank, split) = skip_leading_lem str in
    elim (List-cases (skip_leading str)) [
      | inl e ↦ inl (
        rw (e, trim_string_in_place),
        subst AllBlank (sym (split ∙ ap (◌++◌ before) e ∙ append-nil before)) blank,
      )
      | inr (c, rest, e) ↦
          let (after, blank', split', solid) = drop_trailing_lem rest in
          inr (
            before,
            c,
            drop_trailing rest,
            after,
            rw (e, trim_string_in_place),
            split ∙ ap (◌++◌ before) (e ∙ ap (◌∷◌ c) split'),
            blank,
            blank',
            skip_leading_solid str e,
            cons-EndsSolid c (drop_trailing rest) (skip_leading_solid str e) solid,
          )
    ]
