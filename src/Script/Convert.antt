-- ===== src/Script/Convert.antt =====
-- `term_resolve` and the conversions of src/script.c. They call each other and the functions of a
-- program through variables and parameters, without a bound: an `Evaluator` is the two that recurse,
-- and each level of fuel makes one from the one below (see `Run`).
use nerves_initramfs.Base.{
  ◌||◌, ◌%◌, ◌^◌, Bool, true, false, not, [], Option, none, some, if◌then◌else◌, ◌==◌, length,
}
use nerves_initramfs.Base.CString.{Bytes, codes, strcase_eq, str_eq, str_le}
use nerves_initramfs.Base.Int.{ℤ, pos, negsuc, ◌-ℤ◌, eqb_ℤ, to_int, to_word, wrap}
use nerves_initramfs.Base.Format.{dec}
use nerves_initramfs.Script.Defs.{Term, identifier, string, number, boolean, fun, Variable}
use nerves_initramfs.Script.Machine.{Platform, M, ◌>>=◌, ◌>>◌, pure, deref, gets, term_new_string}
use nerves_initramfs.Script.Strtoull.{strtoull}
use nerves_initramfs.Script.Value.{get_variable_impl, get_variable, bool_text}

-- `term_resolve`, which may return NULL, and `term_to_string`, as the string of the term it returns.
pub record Evaluator (W : Type 0) : Type 0 where
  pub term_resolve : Term → M W (Option Term)
  pub term_to_string : Term → M W Bytes

-- The switches, on a term that is resolved.
unfoldable pub string_to_boolean : Bytes → Bool
string_to_boolean s =
    not (length s == 0 || strcase_eq s (codes "0") || strcase_eq s (codes "false"))

unfoldable pub boolean_of : Term → Bool
boolean_of (string s) = string_to_boolean s
boolean_of (number n) = not (eqb_ℤ n (pos 0))
boolean_of (boolean b) = b
boolean_of (identifier n) = false
boolean_of (fun f parameters) = false

-- the conversion to `int` keeps the low 32 bits
unfoldable pub number_of : Term → ℤ
number_of (string s) = to_int (strtoull s % 2 ^ 32)
number_of (number n) = n
number_of (boolean b) = if b then pos 1 else pos 0
number_of (identifier n) = pos 0
number_of (fun f parameters) = pos 0

-- the sign that `strcmp` returns
unfoldable pub strcmp : Bytes → Bytes → ℤ
strcmp a b = if str_eq a b then pos 0 else if str_le a b then negsuc 0 else pos 1

unfoldable pub bit_of : Bool → ℤ
bit_of b = if b then pos 1 else pos 0

-- The member `boolean` of a number: the lowest byte, which is a `bool` for 0 and 1 only.
unfoldable pub boolean_member : ℤ → Option Bool
boolean_member n =
    let byte = to_word n % 256 in
    if byte == 0 then some false else if byte == 1 then some true else none

-- The switch on the left kind, which reads that member of the right term, whatever its kind is. A
-- number and a boolean overlap from the lowest byte on, the other bytes of a new term being 0; an
-- identifier holds its string where a string holds its own. `none`: the union holds something else.
unfoldable pub compare_resolved : Term → Term → Option ℤ
unfolding strcmp bit_of boolean_member
compare_resolved (string a) (string b) = some (strcmp a b)
compare_resolved (string a) (identifier b) = some (strcmp a b)
compare_resolved (string a) (number b) = none
compare_resolved (string a) (boolean b) = none
compare_resolved (string a) (fun f ps) = none
compare_resolved (number a) (number b) = some (wrap (a -ℤ b))
compare_resolved (number a) (string b) = none
compare_resolved (number a) (identifier b) = none
compare_resolved (number a) (boolean b) = some (wrap (a -ℤ bit_of b))
compare_resolved (number a) (fun f ps) = none
compare_resolved (boolean a) (boolean b) = some (bit_of a -ℤ bit_of b)
compare_resolved (boolean a) (string b) = none
compare_resolved (boolean a) (identifier b) = none
compare_resolved (boolean a) (number b) = elim (boolean_member b) [
  | none ↦ none
  | some b' ↦ some (bit_of a -ℤ bit_of b')
]
compare_resolved (boolean a) (fun f ps) = none
compare_resolved (identifier a) right = some (pos 1)
compare_resolved (fun f ps) right = some (pos 1)

-- The right term is looked at only where the left kind asks for it, and may be NULL.
unfoldable pub compare_with : Term → Option Term → Option ℤ
unfolding compare_resolved
compare_with left (some right) = compare_resolved left right
compare_with (identifier n) none = some (pos 1)
compare_with (fun f ps) none = some (pos 1)
compare_with (string s) none = none
compare_with (number n) none = none
compare_with (boolean b) none = none

module _ {W Fd : Type 0} (p : Platform W Fd) (e : Evaluator W) where
  unfoldable pub term_compare : Term → Term → M W ℤ
  term_compare left right = do
    rleft ← e.term_resolve left
    rright ← e.term_resolve right
    l ← deref rleft
    deref (compare_with l rright)

  unfoldable pub term_to_boolean : Term → M W Bool
  term_to_boolean rv = do resolved ← e.term_resolve rv; t ← deref resolved; pure (boolean_of t)

  unfoldable pub term_to_number : Term → M W ℤ
  term_to_number rv = do resolved ← e.term_resolve rv; t ← deref resolved; pure (number_of t)

  -- `term_to_string` behind its `term_resolve`, which may end at an identifier
  unfoldable pub to_string_resolved : Term → M W Bytes
  to_string_resolved (identifier name) = do
    value ← get_variable p name
    t ← deref value
    e.term_to_string t
  to_string_resolved (string s) = pure s
  to_string_resolved (number n) = do term_new_string p (dec n); pure (dec n)
  to_string_resolved (boolean b) = do term_new_string p (bool_text b); pure (bool_text b)
  to_string_resolved (fun f parameters) = do term_new_string p []; pure []

  -- `get_variable_as_string` behind its look for the variable
  unfoldable pub get_as_string : Option Variable → M W Bytes
  get_as_string none = pure []
  get_as_string (some v) = do t ← deref v.value; e.term_to_string t

  unfoldable pub get_variable_as_string : Bytes → M W Bytes
  unfolding get_as_string
  get_variable_as_string name = do
    variables ← gets (λ s. s.variables)
    get_as_string (get_variable_impl variables name)

  -- `get_variable_as_boolean` behind its look for the variable
  unfoldable pub get_as_boolean : Option Variable → M W Bool
  get_as_boolean none = pure false
  get_as_boolean (some v) = do t ← deref v.value; term_to_boolean t

  unfoldable pub get_variable_as_boolean : Bytes → M W Bool
  unfolding get_as_boolean
  get_variable_as_boolean name = do
    variables ← gets (λ s. s.variables)
    get_as_boolean (get_variable_impl variables name)

  -- `get_variable_as_number` behind its look for the variable
  unfoldable pub get_as_number : Option Variable → M W ℤ
  get_as_number none = pure (pos 0)
  get_as_number (some v) = do t ← deref v.value; term_to_number t

  unfoldable pub get_variable_as_number : Bytes → M W ℤ
  unfolding get_as_number
  get_variable_as_number name = do
    variables ← gets (λ s. s.variables)
    get_as_number (get_variable_impl variables name)
