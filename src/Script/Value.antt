-- ===== src/Script/Value.antt =====
-- The variables of src/script.c, the copies that a collection makes, and `inspect`.
use nerves_initramfs.Base.{
  ℕ, zero, suc, Bool, List, [], ◌∷◌, ◌++◌, Option, none, some, if◌then◌else◌,
}
use nerves_initramfs.Base.CString.{Bytes, codes, str_eq}
use nerves_initramfs.Base.Int.{ℤ}
use nerves_initramfs.Base.Format.{dec}
use nerves_initramfs.Script.Defs.{
  Term, identifier, string, number, boolean, fun, Terms, end, link, Variable, function_info_by_fun,
}
use nerves_initramfs.Script.Machine.{
  Platform, M, ◌>>=◌, ◌>>◌, pure, deref, gets, changes, alloc_heap, alloc_string,
  term_new_identifier, term_new_string, term_new_number, term_new_boolean,
}

-- The outer `none` is no such variable; the value may be NULL.
unfoldable pub get_variable_impl : List Variable → Bytes → Option Variable
get_variable_impl [] name = none
get_variable_impl (v ∷ variables) name =
    if str_eq v.name name then some v else get_variable_impl variables name

-- `var->var.value = value` through the pointer that `get_variable_impl` returns
unfoldable pub overwrite : List Variable → Bytes → Option Term → List Variable
overwrite [] name value = []
overwrite (v ∷ variables) name value =
    if str_eq v.name name
    then record v { value = value } ∷ variables
    else v ∷ overwrite variables name value

module _ {W Fd : Type 0} (p : Platform W Fd) where
  unfoldable pub get_variable : Bytes → M W (Option Term)
  get_variable name = do
    variables ← gets (λ s. s.variables)
    elim (get_variable_impl variables name) [
      | some v ↦ pure v.value
      | none ↦ term_new_string p [] >>= λ t. pure (some t)
    ]

  -- `set_variable` behind its look for the variable
  unfoldable pub store_value : Bytes → Option Term → Option Variable → M W (Unit {0})
  store_value name value (some v) =
      changes (λ s. record s { variables = overwrite s.variables name value })
  store_value name value none = do
    alloc_heap p.term_size
    copy ← alloc_string name
    changes (λ s. record s { variables = record { name = copy; value = value } ∷ s.variables })

  unfoldable pub set_variable : Bytes → Option Term → M W (Unit {0})
  unfolding store_value
  set_variable name value = do
    variables ← gets (λ s. s.variables)
    store_value name value (get_variable_impl variables name)

  unfoldable pub set_string_variable : Bytes → Bytes → M W (Unit {0})
  set_string_variable name value = do t ← term_new_string p value; set_variable name (some t)

  unfoldable pub set_boolean_variable : Bytes → Bool → M W (Unit {0})
  set_boolean_variable name value = do t ← term_new_boolean p value; set_variable name (some t)

  unfoldable pub set_number_variable : Bytes → ℤ → M W (Unit {0})
  set_number_variable name value = do t ← term_new_number p value; set_variable name (some t)

  unfoldable pub term_dupe : Term → M W (Option Term)
  term_dupe (identifier n) = term_new_identifier p n >>= λ t. pure (some t)
  term_dupe (string s) = term_new_string p s >>= λ t. pure (some t)
  term_dupe (number n) = term_new_number p n >>= λ t. pure (some t)
  term_dupe (boolean b) = term_new_boolean p b >>= λ t. pure (some t)
  term_dupe (fun f parameters) = pure none

  -- the loop over the old variables; a value NULL is followed
  unfoldable pub gc_loop : List Variable → M W (Unit {0})
  gc_loop [] = pure tt
  gc_loop (v ∷ old_variables) = do
    value ← deref v.value
    copy ← term_dupe value
    set_variable v.name copy
    gc_loop old_variables

  -- The first call finds no heap; there are no variables then either.
  unfoldable pub term_gc_heap : M W (Unit {0})
  term_gc_heap = do
    old_variables ← gets (λ s. s.variables)
    changes (λ s. record s { heap_index = 0; variables = [] })
    gc_loop old_variables

unfoldable pub bool_text : Bool → Bytes
bool_text b = if b then codes "true" else codes "false"

-- What `inspect` prints; `none`: it follows NULL. `inspect_list` is the loop over as many parameters
-- as the table gives the function.
unfoldable mutual
  pub inspect : Term → Option Bytes
  inspect (identifier n) = some n
  inspect (string s) = some (codes "\"" ++ (s ++ codes "\""))
  inspect (number n) = some (dec n)
  inspect (boolean b) = some (bool_text b)
  inspect (fun f parameters) = elim (function_info_by_fun f) [
    | none ↦ none
    | some info ↦ elim (inspect_list info.arity parameters) [
      | none ↦ none
      | some text ↦ some (info.name ++ (codes "(" ++ (text ++ codes ")")))
    ]
  ]

  pub inspect_list : ℕ → Terms → Option Bytes
  inspect_list zero parameters = some []
  inspect_list (suc n) end = none
  inspect_list (suc n) (link t next) = elim (inspect t) [
    | none ↦ none
    | some text ↦ elim (inspect_list n next) [
      | none ↦ none
      | some more ↦ some (text ++ (elim next [ end ↦ [] | link u rest ↦ codes "," ] ++ more))
    ]
  ]

-- the case `term_variable`
unfoldable pub inspect_variable : Variable → Option Bytes
inspect_variable v = elim v.value [
  | none ↦ none
  | some value ↦ elim (inspect value) [
    | none ↦ none
    | some text ↦ some (v.name ++ (codes "=" ++ text))
  ]
]
