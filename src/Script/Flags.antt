-- ===== src/Script/Flags.antt =====
-- Setting the variables that are flags of the environment: uboot_env.loaded and uboot_env.modified.
use nerves_initramfs.Base.{
  ℕ, zero, suc, ◌+◌, ◌%◌, ◌≤◌, Bool, List, Option, some, ◌≡◌, refl, sym, ◌∙◌, ap, arith, Bool-cases,
  Option-cases, inl, inr,
}
use nerves_initramfs.Base.CString.{Bytes, str_eq, str_eq_iff}
use nerves_initramfs.Script.Defs.{Term, boolean, Variable}
use nerves_initramfs.Script.Machine.{
  State, Platform, ok, M, continue, ◌>>=◌, alloc_heap, round_up, heap_size, term_new_boolean,
}
use nerves_initramfs.Script.Value.{
  get_variable_impl, overwrite, store_value, set_variable, set_boolean_variable,
}
use nerves_initramfs.Script.Heap.{alloc_heap_fits}
use nerves_initramfs.Script.Vars.{value_of, Binds, overwrite-Binds, value_of_absent}
use nerves_initramfs.Script.Storage.{loaded_name, modified_name}

-- A step that succeeds, and what follows it.
pub bind_ok :
    {W A B : Type 0} (m : M W A) (f : A → M W B) {a : A} {s s' : State W}
    → m s ≡ (ok a, s')
    → (m >>= f) s ≡ f a s'
bind_ok m f h = ap (λ r. continue r.0 f r.1) h

-- The variable exists.
unfoldable pub IsBound : List Variable → Bytes → Type 0
IsBound vs name = (value : Option Term) × (value_of vs name ≡ some value)

bound_found :
    (vs : List Variable) (name : Bytes)
    → IsBound vs name
    → (v : Variable) × (get_variable_impl vs name ≡ some v)
unfolding IsBound
bound_found vs name (value, h) = elim (Option-cases (get_variable_impl vs name)) [
  | inl e ↦ let absent = value_of_absent vs name e in absurd (ground (arith, absent))
  | inr found ↦ found
]

Binds-IsBound :
    {vs vs' : List Variable} {name : Bytes} {value : Option Term} (other : Bytes)
    → Binds vs vs' name value
    → IsBound vs other
    → IsBound vs' other
unfolding IsBound
Binds-IsBound {vs' = vs'} {name} {value} other binds (w, h) =
    elim (Bool-cases (str_eq name other)) [
      | inl e ↦
          let same = (str_eq_iff name other).0 e in
          (value, ap (value_of vs') (sym same) ∙ binds.bound)
      | inr e ↦ (w, binds.others other e ∙ h)
    ]

module _ {W Fd : Type 0} (p : Platform W Fd) where
  -- what `n` flags take of the heap
  abbrev pub flag_bytes : ℕ → ℕ
  flag_bytes zero = 0
  flag_bytes (suc n) = round_up p.term_size + flag_bytes n

  -- The flags exist, and the heap has room for `n` more values of them.
  pub record IsReady (n : ℕ) (s : State W) : Type 0 where
    pub aligned : s.heap_index % 8 ≡ 0
    pub room : s.heap_index + flag_bytes n ≤ heap_size
    pub loaded : IsBound s.variables loaded_name
    pub modified : IsBound s.variables modified_name

  -- What setting a flag does.
  pub record Flagged (n : ℕ) (s s' : State W) (name : Bytes) (value : Bool) : Type 0 where
    pub ready : IsReady n s'
    pub binds : Binds s.variables s'.variables name (some (boolean value))
    pub same_env : s'.working_uboot_env ≡ s.working_uboot_env
    pub index : s'.heap_index ≡ s.heap_index + flag_bytes 1
    pub same_world : s'.world ≡ s.world

  pub flag_set :
      (n : ℕ) (s : State W) (name : Bytes) (value : Bool)
      → IsReady (suc n) s
      → IsBound s.variables name
      → (s' : State W) × (set_boolean_variable p name value s ≡ (ok tt, s'))
        × Flagged n s s' name value
  unfolding set_boolean_variable term_new_boolean set_variable store_value
  flag_set n s name value ready bound =
      let (v, found) = bound_found s.variables name bound in
      let allocated =
        alloc_heap_fits p.term_size s ready.aligned (let r = ready.room in omega (arith, r)) in
      let s₁ : State W = record s { heap_index = s.heap_index + round_up p.term_size } in
      let s₂ : State W = record s₁ {
        variables = overwrite s.variables name (some (boolean value));
      } in
      let binds = overwrite-Binds s.variables name (some (boolean value)) found in
      (
        s₂,
        bind_ok (term_new_boolean p value) _ (bind_ok (alloc_heap p.term_size) _ allocated)
            ∙ ap (λ o. store_value p name (some (boolean value)) o s₁) found,
        record {
          ready = record {
            aligned = let a = ready.aligned in omega (arith, a);
            room = let r = ready.room in omega (arith, r);
            loaded = Binds-IsBound loaded_name binds ready.loaded;
            modified = Binds-IsBound modified_name binds ready.modified;
          };
          binds = binds;
          same_env = refl;
          index = omega arith;
          same_world = refl;
        },
      )
