-- ===== src/Script/Table.antt =====
-- The table of functions.
use nerves_initramfs.Base.{
  ap, ◌∙◌, zero, List, All, Bool-cases, ◌&&◌, subst, ◌⊎◌, ℕ, ◌+◌, ◌<◌, ◌≤◌, suc, leb, [], ◌∷◌, none,
  some, ◌≡◌, ◌≢◌, refl, arith, if◌then◌else◌, Option-cases, inl, inr,
}
use nerves_initramfs.Base.CString.{Bytes, str_eq}
use nerves_initramfs.Script.Defs.{
  Fun, fun_assign, fun_add, fun_subtract, fun_blkid, fun_cmd, fun_env, fun_fwup_revert, fun_getenv,
  fun_help, fun_loadenv, fun_ls, fun_poweroff, fun_print, fun_readfile, fun_reboot, fun_saveenv,
  fun_setenv, fun_sleep, fun_vars, Term, identifier, string, number, boolean, fun, Terms, end, link,
  FunctionInfo, function_table, find_function, lookup_function, fun_code, find_info,
  function_info_by_fun, arity_of,
}
use nerves_initramfs.Script.Machine.{
  State, Platform, ok, stop, fatal, alloc_call, term_new_fun, heap_size,
}
use nerves_initramfs.Script.Vars.{alloc_cases}
use nerves_initramfs.Script.Value.{inspect, inspect_list}

-- The entry of a function: it has the function's handler, and its name finds that function with as
-- many parameters as it needs or more, and nothing with fewer.
pub record IsEntry (f : Fun) (info : FunctionInfo) : Type 0 where
  pub found : function_info_by_fun f ≡ some info
  pub handles : info.handler ≡ f
  pub looked_up :
      (arity : ℕ)
      → lookup_function info.name arity ≡ (if leb info.arity arity then some f else none)

-- Every function has an entry in the table: looking up its name gives the function for as many
-- parameters as it needs or more, and nothing for fewer.
table-IsEntry : (f : Fun) → (info : FunctionInfo) × IsEntry f info
unfolding function_info_by_fun find_info fun_code function_table lookup_function find_function
    str_eq
table-IsEntry fun_assign = (_, record { found = refl; handles = refl; looked_up = λ arity. refl })
table-IsEntry fun_add = (_, record { found = refl; handles = refl; looked_up = λ arity. refl })
table-IsEntry fun_subtract = (_, record { found = refl; handles = refl; looked_up = λ arity. refl })
table-IsEntry fun_blkid = (_, record { found = refl; handles = refl; looked_up = λ arity. refl })
table-IsEntry fun_cmd = (_, record { found = refl; handles = refl; looked_up = λ arity. refl })
table-IsEntry fun_env = (_, record { found = refl; handles = refl; looked_up = λ arity. refl })
table-IsEntry fun_fwup_revert =
    (_, record { found = refl; handles = refl; looked_up = λ arity. refl })
table-IsEntry fun_getenv = (_, record { found = refl; handles = refl; looked_up = λ arity. refl })
table-IsEntry fun_help = (_, record { found = refl; handles = refl; looked_up = λ arity. refl })
table-IsEntry fun_loadenv = (_, record { found = refl; handles = refl; looked_up = λ arity. refl })
table-IsEntry fun_ls = (_, record { found = refl; handles = refl; looked_up = λ arity. refl })
table-IsEntry fun_poweroff = (_, record { found = refl; handles = refl; looked_up = λ arity. refl })
table-IsEntry fun_print = (_, record { found = refl; handles = refl; looked_up = λ arity. refl })
table-IsEntry fun_readfile = (_, record { found = refl; handles = refl; looked_up = λ arity. refl })
table-IsEntry fun_reboot = (_, record { found = refl; handles = refl; looked_up = λ arity. refl })
table-IsEntry fun_saveenv = (_, record { found = refl; handles = refl; looked_up = λ arity. refl })
table-IsEntry fun_setenv = (_, record { found = refl; handles = refl; looked_up = λ arity. refl })
table-IsEntry fun_sleep = (_, record { found = refl; handles = refl; looked_up = λ arity. refl })
table-IsEntry fun_vars = (_, record { found = refl; handles = refl; looked_up = λ arity. refl })

-- The number of parameters that the table gives a function.
abbrev pub required : Fun → ℕ
required f = elim (function_info_by_fun f) [ none ↦ 0 | some info ↦ info.arity ]

-- A term as the constructors of src/script.c make it: a call has at least the parameters that its
-- function needs, and they are such terms.
unfoldable mutual
  pub IsCallable : Term → Type 0
  IsCallable (identifier n) = Unit {0}
  IsCallable (string s) = Unit {0}
  IsCallable (number n) = Unit {0}
  IsCallable (boolean b) = Unit {0}
  IsCallable (fun f ps) = (required f ≤ arity_of ps) × AllCallable ps

  pub AllCallable : Terms → Type 0
  AllCallable end = Unit {0}
  AllCallable (link t next) = IsCallable t × AllCallable next

find_function_enough :
    (table : List FunctionInfo) (name : Bytes) (n : ℕ) (f : Fun)
    → All (λ info. required info.handler ≡ info.arity) table
    → find_function table name n ≡ some f
    → required f ≤ n
unfolding find_function
find_function_enough [] name n f same h = ground arith
find_function_enough (info ∷ table) name n f (e, same) h =
    elim (Bool-cases (str_eq info.name name && leb info.arity n)) [
      | inl e₁ ↦
          let found : info.handler ≡ f = ground arith in
          let enough : info.arity ≤ n = ground arith in
          subst (λ g. required g ≤ n) found (rw e enough)
      | inr e₁ ↦ find_function_enough table name n f same (rw (e₁, find_function) at h)
    ]

table_arities : All (λ info. required info.handler ≡ info.arity) function_table
unfolding function_table function_info_by_fun find_info fun_code
table_arities = (
  refl,
  (
    refl,
    (
      refl,
      (
        refl,
        (
          refl,
          (
            refl,
            (
              refl,
              (
                refl,
                (
                  refl,
                  (
                    refl,
                    (refl, (refl, (refl, (refl, (refl, (refl, (refl, (refl, (refl, tt))))))))),
                  ),
                ),
              ),
            ),
          ),
        ),
      ),
    ),
  ),
)

-- With parameters that are such terms, a call by a name that is found, with at most as many
-- parameters as there are, makes a call of that function, with at least the parameters that it needs,
-- where the heap has room for a term, and ends the program where it has none; a name that is not found
-- makes no term and leaves the state.
pub term_new_fun-IsCallable :
    {W Fd : Type 0} (p : Platform W Fd) (name : Bytes) (ps : Terms) (s : State W)
    → AllCallable ps
    → ((term_new_fun p name ps s ≡ (ok none, s)) × (lookup_function name (arity_of ps) ≡ none))
      ⊎ ((f : Fun) × (lookup_function name (arity_of ps) ≡ some f)
          × IsCallable (fun f ps)
          × (((s.heap_index + p.term_size ≤ heap_size)
                × ((term_new_fun p name ps s).0 ≡ ok (some (fun f ps))))
              ⊎ ((heap_size < s.heap_index + p.term_size)
                  × (term_new_fun p name ps s ≡ (stop fatal, s)))))
unfolding term_new_fun alloc_call lookup_function IsCallable
term_new_fun-IsCallable p name ps s callable =
    elim (Option-cases (find_function function_table name (arity_of ps))) [
      | inl e ↦ inl (ap (λ o. alloc_call p o ps s) e, e)
      | inr (f, e) ↦
          let enough = find_function_enough function_table name (arity_of ps) f table_arities e in
          let step : term_new_fun p name ps s ≡ alloc_call p (some f) ps s =
            ap (λ o. alloc_call p o ps s) e in
          inr (
            f,
            e,
            (enough, callable),
            elim (alloc_cases p p.term_size s) [
              | inl (full, a) ↦ inr (full, step ∙ rw a)
              | inr (fits, a) ↦ inl (fits, ap (λ r. r.0) step ∙ rw a)
            ],
          )
    ]

inspect_call :
    (f : Fun) (ps : Terms) → inspect_list (required f) ps ≢ none → inspect (fun f ps) ≢ none
unfolding inspect
inspect_call f ps lists =
    let (info, entry) = table-IsEntry f in
    let needs : required f ≡ info.arity = rw (entry.found, required) in
    elim (Option-cases (inspect_list info.arity ps)) [
      | inl e ↦ absurd (lists (rw needs e))
      | inr (text, e) ↦ rw (entry.found, e, inspect) (λ x. ground arith)
    ]

mutual
  unfolding inspect IsCallable arity_of

  inspect_callable : (t : Term) → IsCallable t → inspect t ≢ none
  inspect_callable (identifier n) h = λ e. ground arith
  inspect_callable (string n) h = λ e. ground arith
  inspect_callable (number n) h = λ e. ground arith
  inspect_callable (boolean n) h = λ e. ground arith
  inspect_callable (fun f ps) (enough, h) =
      inspect_call f ps (inspect_list_callable (required f) ps enough h)

  inspect_list_callable :
      (n : ℕ) (ps : Terms) → n ≤ arity_of ps → AllCallable ps → inspect_list n ps ≢ none
  inspect_list_callable zero ps le h = λ e. ground arith
  inspect_list_callable (suc n) end le h = absurd (omega arith)
  inspect_list_callable (suc n) (link t next) le (h, hs) =
      let more = inspect_list_callable n next (omega arith) hs in
      elim (Option-cases (inspect t)) [
        | inl e ↦ absurd (inspect_callable t h e)
        | inr (text, e) ↦ elim (Option-cases (inspect_list n next)) [
          | inl e₁ ↦ absurd (more e₁)
          | inr (rest, e₁) ↦ rw (e, e₁, inspect_list) (λ x. ground arith)
        ]
      ]

-- On a term whose calls have the parameters that their functions need, `inspect` follows no NULL:
-- the parameters do not run out before the table's count.
pub inspect_total : (t : Term) → IsCallable t → (text : Bytes) × (inspect t ≡ some text)
inspect_total t h = elim (Option-cases (inspect t)) [
  | inl e ↦ absurd (inspect_callable t h e)
  | inr found ↦ found
]
