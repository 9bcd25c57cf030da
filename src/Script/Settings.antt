-- ===== src/Script/Settings.antt =====
-- Variables that are set one behind the other, with room on the heap for all.
use nerves_initramfs.Base.{
  subst, ℕ, ◌+◌, ◌%◌, ◌≤◌, Bool, List, [], ◌∷◌, ◌++◌, Option, some, ◌≡◌, refl, sym, ap, ◌∙◌, arith,
  if◌then◌else◌, length, Bool-cases, Option-cases, inl, inr,
}
use nerves_initramfs.Base.CString.{Bytes, str_eq, str_eq_iff}
use nerves_initramfs.Base.Int.{pos}
use nerves_initramfs.Script.{Term, string, number, boolean, Variable}
use nerves_initramfs.Script.Machine.{
  State, Platform, ok, M, ◌>>=◌, ◌>>◌, pure, alloc_string, round_up, heap_size, term_new_string,
  term_new_number, term_new_boolean,
}
use nerves_initramfs.Script.Value.{
  get_variable_impl, overwrite, store_value, set_variable, set_string_variable,
  set_boolean_variable, set_number_variable,
}
use nerves_initramfs.Script.Heap.{alloc_heap_fits}
use nerves_initramfs.Script.Vars.{value_of, Binds, overwrite-Binds, push-Binds}
use nerves_initramfs.Script.Flags.{bind_ok}
use nerves_initramfs.Script.Tidy.{Tidy, wider, push-Tidy, overwrite-Tidy}
use nerves_initramfs.Script.Gc.{IsValue, dupe_bytes, two_blocks, push_fits}

-- What a variable is set to, of the three kinds.
pub data Value : Type 0 where
  text : Bytes → Value
  flag : Bool → Value
  count : ℕ → Value

abbrev pub Setting : Type 0
Setting = Bytes × Value

abbrev pub term_of : Value → Term
term_of (text s) = string s
term_of (flag b) = boolean b
term_of (count n) = number (pos n)

-- The value of a name behind some settings: that of the last one of the name, or what it had.
unfoldable pub last_set : List Setting → Bytes → Option (Option Term) → Option (Option Term)
last_set [] name before = before
last_set ((key, value) ∷ settings) name before =
    last_set settings name (if str_eq key name then some (some (term_of value)) else before)

pub last_set-append :
    (xs ys : List Setting) (name : Bytes) (before : Option (Option Term))
    → last_set (xs ++ ys) name before ≡ last_set ys name (last_set xs name before)
unfolding last_set
last_set-append [] ys name before = refl
last_set-append ((key, value) ∷ xs) ys name before = last_set-append xs ys name _

pub value_behind :
    {vs vs' : List Variable} {key : Bytes} {value : Option Term}
    → Binds vs vs' key value
    → (name : Bytes)
    → value_of vs' name ≡ (if str_eq key name then some value else value_of vs name)
value_behind {vs' = vs'} {key} binds name = elim (Bool-cases (str_eq key name)) [
  | inl e ↦ rw e (ap (value_of vs') (sym ((str_eq_iff key name).0 e)) ∙ binds.bound)
  | inr e ↦ rw e (binds.others name e)
]

term_of-IsValue : (value : Value) → IsValue (term_of value)
term_of-IsValue (text s) = tt
term_of-IsValue (flag b) = tt
term_of-IsValue (count n) = tt

module _ {W Fd : Type 0} (p : Platform W Fd) where
  -- what a setting takes of the heap, at most
  abbrev pub setting_bytes : Setting → ℕ
  setting_bytes (key, value) =
      dupe_bytes p (term_of value) + (round_up p.term_size + round_up (length key + 1))

  unfoldable pub settings_bytes : List Setting → ℕ
  settings_bytes [] = 0
  settings_bytes (setting ∷ settings) = setting_bytes setting + settings_bytes settings

  abbrev pub apply : Setting → M W (Unit {0})
  apply (key, text s) = set_string_variable p key s
  apply (key, flag b) = set_boolean_variable p key b
  apply (key, count n) = set_number_variable p key (pos n)

  abbrev pub apply_all : List Setting → M W (Unit {0})
  apply_all [] = pure tt
  apply_all (setting ∷ settings) = apply setting >> apply_all settings

  -- what `set_variable` does with room for a new variable
  pub record Applied (bytes : ℕ) (s s' : State W) (name : Bytes) (value : Option Term)
      : Type 0 where
    pub binds : Binds s.variables s'.variables name value
    pub aligned : s'.heap_index % 8 ≡ 0
    pub index : s'.heap_index ≤ s.heap_index + bytes
    pub same_env : s'.working_uboot_env ≡ s.working_uboot_env
    pub same_tries : s'.tries ≡ s.tries
    pub tidy :
        (room : ℕ) (t : Term)
        → value ≡ some t
        → IsValue t
        → Tidy p room s.variables
        → Tidy p
            (room + (dupe_bytes p t + (round_up p.term_size + round_up (length name + 1))))
            s'.variables

  pub set_fits :
      (name : Bytes) (value : Option Term) (s : State W)
      → s.heap_index % 8 ≡ 0
      → s.heap_index + (round_up p.term_size + round_up (length name + 1)) ≤ heap_size
      → (s' : State W) × (set_variable p name value s ≡ (ok tt, s'))
        × Applied (round_up p.term_size + round_up (length name + 1)) s s' name value
  unfolding set_variable store_value
  set_fits name value s aligned fits = elim (Option-cases (get_variable_impl s.variables name)) [
    | inl e ↦ (
      _,
      push_fits p name value s aligned fits e,
      record {
        binds = push-Binds s.variables name value;
        aligned = omega arith;
        index = omega arith;
        same_env = refl;
        same_tries = refl;
        tidy = λ room t same is t₀.
            subst
              (λ o.
                Tidy p
                  (room + (dupe_bytes p t + (round_up p.term_size + round_up (length name + 1))))
                  (record { name = name; value = o } ∷ s.variables))
              (sym same) (push-Tidy p room s.variables name t e is t₀);
      },
    )
    | inr (v, e) ↦ (
      record s { variables = overwrite s.variables name value },
      ap (λ o. store_value p name value o s) e,
      record {
        binds = overwrite-Binds s.variables name value e;
        aligned = aligned;
        index = omega arith;
        same_env = refl;
        same_tries = refl;
        tidy = λ room t same is t₀.
            subst
              (λ o.
                Tidy p
                  (room + (dupe_bytes p t + (round_up p.term_size + round_up (length name + 1))))
                  (overwrite s.variables name o))
              (sym same)
              (overwrite-Tidy p room (round_up p.term_size + round_up (length name + 1)) s.variables
                name t is t₀);
      },
    )
  ]

  -- a new term, and then the variable
  then_set :
      (key : Bytes) (t : Term) (make : M W Term) (bytes : ℕ) (s : State W)
      → make s ≡ (ok t, record s { heap_index = s.heap_index + bytes })
      → (s.heap_index + bytes) % 8 ≡ 0
      → s.heap_index + (bytes + (round_up p.term_size + round_up (length key + 1))) ≤ heap_size
      → (s' : State W) × ((make >>= λ t. set_variable p key (some t)) s ≡ (ok tt, s'))
        × Applied (bytes + (round_up p.term_size + round_up (length key + 1))) s s' key (some t)
  then_set key t make bytes s made aligned fits =
      let s₁ : State W = record s { heap_index = s.heap_index + bytes } in
      let (s', set, applied) = set_fits key (some t) s₁ aligned (omega (arith, fits)) in
      (
        s',
        bind_ok make (λ t. set_variable p key (some t)) made ∙ set,
        record {
          binds = applied.binds;
          aligned = applied.aligned;
          index = let i = applied.index in omega (arith, i);
          same_env = applied.same_env;
          same_tries = applied.same_tries;
          tidy = applied.tidy;
        },
      )

  apply_fits :
      (key : Bytes) (value : Value) (s : State W)
      → s.heap_index % 8 ≡ 0
      → s.heap_index + setting_bytes (key, value) ≤ heap_size
      → (s' : State W) × (apply (key, value) s ≡ (ok tt, s'))
        × Applied (setting_bytes (key, value)) s s' key (some (term_of value))
  unfolding set_string_variable set_boolean_variable set_number_variable term_new_string
      term_new_boolean term_new_number alloc_string dupe_bytes
  apply_fits key (text v) s aligned fits =
      let (a, b, sum) = two_blocks p v s aligned (omega (arith, fits)) in
      then_set key (string v) (term_new_string p v) _ s (rw (a, b, sum)) (omega arith) fits
  apply_fits key (flag b) s aligned fits =
      then_set key (boolean b) (term_new_boolean p b) _ s
        (rw (alloc_heap_fits p.term_size s aligned (omega (arith, fits)))) (omega arith) fits
  apply_fits key (count n) s aligned fits =
      then_set key (number (pos n)) (term_new_number p (pos n)) _ s
        (rw (alloc_heap_fits p.term_size s aligned (omega (arith, fits)))) (omega arith) fits

  -- All settings with room for each: every name has what the last of its name set.
  pub apply_all_fits :
      (settings : List Setting) (s : State W)
      → s.heap_index % 8 ≡ 0
      → s.heap_index + settings_bytes settings ≤ heap_size
      → (s' : State W) × (apply_all settings s ≡ (ok tt, s'))
        × ((name : Bytes)
            → value_of s'.variables name ≡ last_set settings name (value_of s.variables name))
        × (s'.working_uboot_env ≡ s.working_uboot_env)
        × (s'.tries ≡ s.tries)
        × ((room : ℕ)
            → Tidy p room s.variables
            → Tidy p (room + settings_bytes settings) s'.variables)
  unfolding last_set settings_bytes
  apply_all_fits [] s aligned fits = (
    s,
    refl,
    (λ name. refl),
    refl,
    refl,
    (λ room tidy. wider p s.variables room (room + 0) (omega arith) tidy),
  )
  apply_all_fits ((key, value) ∷ settings) s aligned fits =
      let (s₁, run, applied) = apply_fits key value s aligned (omega (arith, fits)) in
      let index = applied.index in
      let (s', more, values, env, tries, tidies) =
        apply_all_fits settings s₁ applied.aligned (omega (arith, fits, index)) in
      (
        s',
        bind_ok (apply (key, value)) _ run ∙ more,
        λ name. values name ∙ ap (last_set settings name) (value_behind applied.binds name),
        env ∙ applied.same_env,
        tries ∙ applied.same_tries,
        λ room tidy.
            wider p s'.variables _ _ (omega arith)
              (tidies _ (applied.tidy room (term_of value) refl (term_of-IsValue value) tidy)),
      )

  -- some settings, and what follows them
  unfoldable pub then_all : List Setting → M W (Unit {0}) → M W (Unit {0})
  then_all [] m = m
  then_all (setting ∷ settings) m = apply setting >> then_all settings m

  pub then_apply_all : (xs ys : List Setting) → then_all xs (apply_all ys) ≡ apply_all (xs ++ ys)
  unfolding then_all
  then_apply_all [] ys = refl
  then_apply_all (x ∷ xs) ys = ap (◌>>◌ (apply x)) (then_apply_all xs ys)
