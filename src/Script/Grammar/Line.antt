-- ===== src/Script/Grammar/Line.antt =====
-- Scripts line by line: a line sets a variable, always or where a variable compares with a text.
use nerves_initramfs.Base.{
  ℕ, ◌+◌, List, [], ◌∷◌, Option, some, ◌≡◌, length, none, if◌then◌else◌, Bool, false, not, ◌&&◌,
}
use nerves_initramfs.Base.CString.{Bytes, str_eq, str_le}
use nerves_initramfs.Script.{Term, string}
use nerves_initramfs.Script.Machine.{Platform, round_up}
use nerves_initramfs.Script.Settings.{text, Setting, term_of}
use nerves_initramfs.Script.Grammar.Trees.{
  assignment, ActionTree, StatementTree, Comparator, rule, action, comparison, identifier_leaf,
  one_action, eq, neq, lt, lte, gt, gte,
}
use nerves_initramfs.Script.Gc.{dupe_bytes}
use nerves_initramfs.Script.Grammar.Assign.{leaf_of, HasLiteral, statement_bytes}

-- name = value, or: other < "text" -> name = value
pub data Line : Type 0 where
  always : Setting → Line
  where_holds : Bytes → Comparator → Bytes → Setting → Line

abbrev assign : Setting → ActionTree
assign (key, value) = assignment key (leaf_of value)

unfoldable pub statement_of : Line → StatementTree
unfolding leaf_of
statement_of (always setting) = action (assign setting)
statement_of (where_holds name c t setting) =
    rule (comparison c (identifier_leaf name) (leaf_of (text t))) (one_action (assign setting))

-- The value of a statement; that of a rule is NULL.
unfoldable pub value_left : Line → Option Term
value_left (always (key, value)) = some (term_of value)
value_left (where_holds name c t setting) = none

-- The value of the last of some statements.
unfoldable pub result_of : Option Term → List Line → Option Term
unfolding value_left
result_of result [] = result
result_of result (line ∷ lines) = result_of (value_left line) lines

-- what the names are bound to
abbrev pub Values : Type 0
Values = Bytes → Option (Option Term)

abbrev pub set_in : Setting → Values → Values
set_in (key, value) values name =
    if str_eq key name then some (some (term_of value)) else values name

-- What a comparator says of two texts, in the order of their bytes.
unfoldable pub satisfies : Comparator → Bytes → Bytes → Bool
satisfies eq v t = str_eq v t
satisfies neq v t = not (str_eq v t)
satisfies lt v t = str_le v t && not (str_eq v t)
satisfies lte v t = str_le v t
satisfies gt v t = str_le t v && not (str_eq v t)
satisfies gte v t = str_le t v

-- A string compares with the text so; a name that has no string does not.
unfoldable pub compares : Option (Option Term) → Comparator → Bytes → Bool
unfolding satisfies
compares (some (some (string v))) c t = satisfies c v t
compares _ c t = false

unfoldable pub step : Line → Values → Values
unfolding compares
step (always setting) values = set_in setting values
step (where_holds name c t setting) values =
    if compares (values name) c t then set_in setting values else values

-- What the lines leave the names bound to.
unfoldable pub outcome : List Line → Values → Values
unfolding step
outcome [] values = values
outcome (line ∷ lines) values = outcome lines (step line values)

-- A variable that is compared is a string.
unfoldable pub IsReadable : Line → Values → Type 0
IsReadable (always setting) values = Unit {0}
IsReadable (where_holds name c t setting) values =
    (v : Bytes) × (values name ≡ some (some (string v)))

-- The variables that are compared are strings when they are.
unfoldable pub AreReadable : List Line → Values → Type 0
unfolding IsReadable step
AreReadable [] values = Unit {0}
AreReadable (line ∷ lines) values = IsReadable line values × AreReadable lines (step line values)

-- The literals of a line can be written.
unfoldable pub HasLiterals : Line → Type 0
HasLiterals (always setting) = HasLiteral setting.1
HasLiterals (where_holds name c t setting) = HasLiteral (text t) × HasLiteral setting.1

module _ {W Fd : Type 0} (p : Platform W Fd) where
  -- What a line takes of the heap, at most.
  unfoldable pub line_bytes : Line → ℕ
  line_bytes (always setting) = statement_bytes p setting
  line_bytes (where_holds name c t setting) =
      round_up p.term_size
      + round_up (length name + 1)
      + (dupe_bytes p (string t) + statement_bytes p setting)

  unfoldable pub script_bytes : List Line → ℕ
  unfolding line_bytes
  script_bytes [] = 0
  script_bytes (line ∷ lines) = line_bytes line + script_bytes lines
