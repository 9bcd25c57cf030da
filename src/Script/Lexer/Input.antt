-- ===== src/Script/Lexer/Input.antt =====
-- How src/lexer.l gives its input to flex, which asks for at most `max_size` bytes until it gets none.
use nerves_initramfs.Base.{
  ℕ, zero, suc, ◌+◌, ◌-◌, ◌*◌, ◌≤◌, ◌<◌, true, false, ◌&&◌, [], ◌∷◌, ◌++◌, Option, none, some, ◌≡◌,
  refl, ◌∙◌, ap, arith, ltb, leb, if◌then◌else◌, length, take, drop, Bool-cases, inl, inr, take_all,
  drop_all, length-drop, length-take, take-drop, append-nil, sym,
}
use nerves_initramfs.Base.CString.{Bytes}

-- `lexer_input`, of `lexer_input_length` bytes, and `lexer_input_index`. NULL has no bytes either.
pub record Input : Type 0 where
  pub lexer_input : Bytes
  pub lexer_input_index : ℕ

-- the start of a string
unfoldable pub lexer_set_input : Bytes → Input
lexer_set_input str = record { lexer_input = str; lexer_input_index = 0 }

-- The start of a file: its bytes, the length that `lseek` gives, and how many bytes `read` gives.
-- `none` for the value -1.
unfoldable pub lexer_set_file : Option Bytes → ℕ → Option Input
unfolding lexer_set_input
lexer_set_file none len = none
lexer_set_file (some bytes) len =
    if leb len (length bytes) then some (lexer_set_input (take len bytes)) else none

-- What `memcpy` copies, where it stays inside its buffer of `max_size` bytes and the input.
unfoldable pub copied : Input → ℕ → ℕ → Option (Bytes × Input)
copied input max_size n =
    let end = input.lexer_input_index + n in
    if leb n max_size && leb end (length input.lexer_input)
    then some (
      take n (drop input.lexer_input_index input.lexer_input),
      record input { lexer_input_index = end },
    )
    else none

unfoldable pub lexer_next : Input → ℕ → Option (Bytes × Input)
lexer_next input max_size =
    let n = input.lexer_input_index + max_size in
    let lexer_input_length = length input.lexer_input in
    copied input max_size
      (if ltb lexer_input_length n then lexer_input_length - input.lexer_input_index else n)

-- what flex has read at the end
abbrev pub onward : (Input → Option Bytes) → Option (Bytes × Input) → Option Bytes
onward more none = none
onward more (some ([], input)) = some []
onward more (some (c ∷ cs, input)) = elim (more input) [
  | none ↦ none
  | some rest ↦ some ((c ∷ cs) ++ rest)
]

unfoldable pub read_all : ℕ → Input → ℕ → Option Bytes
read_all zero input max_size = none
read_all (suc fuel) input max_size =
    onward (λ i. read_all fuel i max_size) (lexer_next input max_size)

abbrev from : Bytes → ℕ → Input
from str i = record { lexer_input = str; lexer_input_index = i }

copied_lem :
    (str : Bytes) (i max_size n : ℕ)
    → n ≤ max_size
    → i + n ≤ length str
    → copied (from str i) max_size n ≡ some (take n (drop i str), from str (i + n))
unfolding copied
copied_lem str i max_size n room inside =
    let fits : leb n max_size ≡ true = ground arith in
    let in_input : leb (i + n) (length str) ≡ true = ground arith in
    rw (fits, in_input, copied) refl

-- the last read with bytes, or one at the end
next_rest :
    (str : Bytes) (i max_size : ℕ)
    → i ≤ length str
    → length str < i + max_size
    → lexer_next (from str i) max_size ≡ some (drop i str, from str (length str))
unfolding lexer_next
next_rest str i max_size inside short =
    let ends : ltb (length str) (i + max_size) ≡ true = ground arith in
    let to_end : i + (length str - i) ≡ length str = omega arith in
    let all = take_all (length str - i) (drop i str) (omega (arith, length-drop i str)) in
    rw (ends, lexer_next)
      (copied_lem str i max_size (length str - i) (omega arith) (omega arith)
        ∙ ap (λ l. some (l, from str (i + (length str - i)))) all
        ∙ ap (λ k. some (drop i str, from str k)) to_end)

-- the first read of a long input
next_first :
    (str : Bytes) (max_size : ℕ)
    → max_size ≤ length str
    → lexer_next (from str 0) max_size ≡ some (take max_size str, from str max_size)
unfolding lexer_next
next_first str max_size long =
    let goes_on : ltb (length str) (0 + max_size) ≡ false = ground arith in
    let e : 0 + max_size ≡ max_size = omega arith in
    rw (goes_on, lexer_next)
      (ap (copied (from str 0) max_size) e
        ∙ copied_lem str 0 max_size max_size (omega arith) (omega arith)
        ∙ ap (λ k. some (take max_size str, from str k)) e)

-- a second read that is too long
next_overflow :
    (str : Bytes) (max_size : ℕ)
    → 0 < max_size
    → 2 * max_size ≤ length str
    → lexer_next (from str max_size) max_size ≡ none
unfolding lexer_next copied
next_overflow str max_size positive long =
    let goes_on : ltb (length str) (max_size + max_size) ≡ false = ground arith in
    let over : leb (max_size + max_size) max_size ≡ false = ground arith in
    rw (goes_on, over, lexer_next, copied) refl

read_end :
    (fuel : ℕ) (str : Bytes) (max_size : ℕ)
    → 0 < max_size
    → read_all (suc fuel) (from str (length str)) max_size ≡ some []
unfolding read_all
read_end fuel str max_size positive =
    let none_left = drop_all (length str) str (omega arith) in
    ap (onward (λ i. read_all fuel i max_size)) (
      next_rest str (length str) max_size (omega arith) (omega arith)
      ∙ ap (λ l. some (l, from str (length str))) none_left)

-- bytes that were read, where the rest is known, and empty if they are
onward_read :
    (more : Input → Option Bytes) (bytes : Bytes) (input : Input) (rest : Bytes)
    → more input ≡ some rest
    → (length bytes ≡ 0 → rest ≡ [])
    → onward more (some (bytes, input)) ≡ some (bytes ++ rest)
onward_read more [] input rest e empty = ap some (sym (empty refl))
onward_read more (c ∷ cs) input rest e empty = rw (e, onward) refl

onward_fails :
    (more : Input → Option Bytes) (bytes : Bytes) (input : Input)
    → more input ≡ none
    → 0 < length bytes
    → onward more (some (bytes, input)) ≡ none
onward_fails more [] input e some_bytes = absurd (omega arith)
onward_fails more (c ∷ cs) input e some_bytes = rw (e, onward) refl

read_rest :
    (fuel : ℕ) (str : Bytes) (i max_size : ℕ)
    → 0 < max_size
    → i ≤ length str
    → length str < i + max_size
    → read_all (suc (suc fuel)) (from str i) max_size ≡ some (drop i str)
unfolding read_all
read_rest fuel str i max_size positive inside short =
    ap (onward (λ i. read_all (suc fuel) i max_size)) (next_rest str i max_size inside short)
    ∙ onward_read (λ i. read_all (suc fuel) i max_size) (drop i str) (from str (length str)) []
        (read_end fuel str max_size positive) (λ e. refl)
    ∙ ap some (append-nil (drop i str))

-- flex, which asks for up to `max_size` bytes at a time, gets a string of less than twice that size
-- whole and in order, in three reads at most. For a longer string the second read copies more than
-- flex has room for.
pub read_all_lem :
    (fuel : ℕ) (str : Bytes) (max_size : ℕ)
    → 0 < max_size
    → read_all (suc (suc (suc fuel))) (lexer_set_input str) max_size
      ≡ (if ltb (length str) (2 * max_size) then some str else none)
unfolding read_all lexer_set_input
read_all_lem fuel str max_size positive = elim (Bool-cases (ltb (length str) max_size)) [
  | inl short ↦
      let fits : ltb (length str) (2 * max_size) ≡ true = ground arith in
      rw fits (read_rest (suc fuel) str 0 max_size positive (omega arith) (ground arith))
  | inr long ↦ elim (Bool-cases (ltb (length str) (2 * max_size))) [
    | inl fits ↦
        let len = length-take max_size str in
        rw fits (
          ap (onward (λ i. read_all (suc (suc fuel)) i max_size))
            (next_first str max_size (ground arith))
          ∙ onward_read (λ i. read_all (suc (suc fuel)) i max_size) (take max_size str)
              (from str max_size) (drop max_size str)
              (read_rest fuel str max_size max_size positive (ground arith) (ground arith))
              (λ e. absurd (ground (arith, len)))
          ∙ ap some (take-drop max_size str))
    | inr over ↦
        let len = length-take max_size str in
        rw over (
          ap (onward (λ i. read_all (suc (suc fuel)) i max_size))
            (next_first str max_size (ground arith))
          ∙ onward_fails (λ i. read_all (suc (suc fuel)) i max_size) (take max_size str)
              (from str max_size)
              (ap (onward (λ i. read_all (suc fuel) i max_size))
                (next_overflow str max_size positive (ground arith)))
              (ground (arith, len)))
  ]
]
