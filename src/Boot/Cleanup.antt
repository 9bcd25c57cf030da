-- ===== src/Boot/Cleanup.antt =====
-- `cleanup_dir` of src/nerves_initramfs.c: the removal of the old root file system, over what the
-- directories list when they are opened.
use nerves_initramfs.Base.{
  ℕ, Bool, true, false, List, [], ◌∷◌, ◌++◌, ◌==◌, if◌then◌else◌, bit_and, All, append_All, ◌≡◌,
  Bool-cases, inl, inr,
}
use nerves_initramfs.Base.CString.{Bytes, codes, str_eq, dt_dir}

abbrev pub root_skip_list : List Bytes
root_skip_list =
    codes "." ∷ codes ".." ∷ codes "dev" ∷ codes "mnt" ∷ codes "proc" ∷ codes "sys" ∷ []

abbrev pub nonroot_skip_list : List Bytes
nonroot_skip_list = codes "." ∷ codes ".." ∷ []

unfoldable pub in_skip_list : Bytes → List Bytes → Bool
in_skip_list what [] = false
in_skip_list what (item ∷ list) = if str_eq item what then true else in_skip_list what list

-- An entry of `readdir`: its name, its `d_type`, and what `openat` gives for it. `fdopendir` may fail
-- on what was opened, or it lists entries.
mutual
  pub data Entry : Type 0 where
    entry : Bytes → ℕ → Opened → Entry

  pub data Opened : Type 0 where
    not_opened : Opened
    opened : Directory → Opened

  pub data Directory : Type 0 where
    not_listed : Directory
    lists : Entries → Directory

  pub data Entries : Type 0 where
    ended : Entries
    listed : Entry → Entries → Entries

-- What is done, in order: a message, or `unlinkat` of the path of an entry from the first directory
-- on, with AT_REMOVEDIR or not, and the message that is written where it fails.
pub data Step : Type 0 where
  says : Bytes → Step
  removes : List Bytes → Bool → Bytes → Step

unfoldable mutual
  pub cleanup_dir : List Bytes → List Bytes → Directory → List Step
  cleanup_dir path skip_list not_listed = says (codes "fdopendir failed") ∷ []
  cleanup_dir path skip_list (lists entries) = cleanup_entries path skip_list entries

  -- the loop over the entries
  pub cleanup_entries : List Bytes → List Bytes → Entries → List Step
  cleanup_entries path skip_list ended = []
  cleanup_entries path skip_list (listed e entries) =
      cleanup_entry path skip_list e ++ cleanup_entries path skip_list entries

  pub cleanup_entry : List Bytes → List Bytes → Entry → List Step
  cleanup_entry path skip_list (entry name d_type inside) =
      let within = cleanup_opened (path ++ (name ∷ [])) name inside in
      let as_dir = removes (path ++ (name ∷ [])) true (codes "unlinkat directory  " ++ name) ∷ [] in
      let as_file = removes (path ++ (name ∷ [])) false (codes "unlinkat " ++ name) ∷ [] in
      if in_skip_list name skip_list
      then []
      else if bit_and d_type dt_dir == 0
      then as_file
      else within ++ as_dir

  pub cleanup_opened : List Bytes → Bytes → Opened → List Step
  cleanup_opened path name not_opened = says (codes "openat " ++ (name ++ codes " failed")) ∷ []
  cleanup_opened path name (opened directory) = cleanup_dir path nonroot_skip_list directory

-- A path whose first name is not in a list.
abbrev pub StartsOutside : List Bytes → List Bytes → Type 0
StartsOutside list [] = ⊥
StartsOutside list (name ∷ rest) = in_skip_list name list ≡ false

-- A step that removes no other path.
abbrev pub KeepsList : List Bytes → Step → Type 0
KeepsList list (says message) = Unit {0}
KeepsList list (removes path is_dir message) = StartsOutside list path

-- Of what is done for an entry, where all that is done inside it and the removal itself keep the list.
entry_keeps :
    (list path skip : List Bytes) (name : Bytes) (d_type : ℕ) (inside : Opened)
    → (in_skip_list name skip ≡ false → StartsOutside list (path ++ (name ∷ [])))
    → (in_skip_list name skip ≡ false
        → All (KeepsList list) (cleanup_opened (path ++ (name ∷ [])) name inside))
    → All (KeepsList list) (cleanup_entry path skip (entry name d_type inside))
unfolding cleanup_dir
entry_keeps list path skip name d_type inside outside within =
    elim (Bool-cases (in_skip_list name skip)) [
      | inl e ↦ rw (e, cleanup_entry) tt
      | inr e ↦ elim (Bool-cases (bit_and d_type dt_dir == 0)) [
        | inl f ↦ rw (e, f, cleanup_entry) (outside e, tt)
        | inr f ↦
            rw (e, f, cleanup_entry) (append_All (KeepsList list) _ _ (within e) (outside e, tt))
      ]
    ]

mutual
  unfolding cleanup_dir

  inside_dir :
      (name : Bytes) (rest list skip : List Bytes) (directory : Directory)
      → in_skip_list name list ≡ false
      → All (KeepsList list) (cleanup_dir (name ∷ rest) skip directory)
  inside_dir name rest list skip not_listed h = (tt, tt)
  inside_dir name rest list skip (lists entries) h = inside_entries name rest list skip entries h

  inside_entries :
      (name : Bytes) (rest list skip : List Bytes) (entries : Entries)
      → in_skip_list name list ≡ false
      → All (KeepsList list) (cleanup_entries (name ∷ rest) skip entries)
  inside_entries name rest list skip ended h = tt
  inside_entries name rest list skip (listed e entries) h =
      append_All (KeepsList list) (cleanup_entry (name ∷ rest) skip e) _
        (inside_entry name rest list skip e h) (inside_entries name rest list skip entries h)

  inside_entry :
      (name : Bytes) (rest list skip : List Bytes) (e : Entry)
      → in_skip_list name list ≡ false
      → All (KeepsList list) (cleanup_entry (name ∷ rest) skip e)
  inside_entry name rest list skip (entry n d_type inside) h =
      entry_keeps list (name ∷ rest) skip n d_type inside (λ e. h)
        (λ e. inside_opened name (rest ++ (n ∷ [])) list n inside h)

  inside_opened :
      (name : Bytes) (rest list : List Bytes) (n : Bytes) (inside : Opened)
      → in_skip_list name list ≡ false
      → All (KeepsList list) (cleanup_opened (name ∷ rest) n inside)
  inside_opened name rest list n not_opened h = (tt, tt)
  inside_opened name rest list n (opened directory) h =
      inside_dir name rest list nonroot_skip_list directory h

entries_skip :
    (list : List Bytes) (entries : Entries) → All (KeepsList list) (cleanup_entries [] list entries)
unfolding cleanup_dir
entries_skip list ended = tt
entries_skip list (listed (entry name d_type inside) entries) =
    append_All (KeepsList list) (cleanup_entry [] list (entry name d_type inside)) _
      (entry_keeps list [] list name d_type inside (λ e. e)
        (λ e. inside_opened name [] list name inside e))
      (entries_skip list entries)

pub cleanup_dir_skips :
    (list : List Bytes) (directory : Directory)
    → All (KeepsList list) (cleanup_dir [] list directory)
unfolding cleanup_dir
cleanup_dir_skips list not_listed = (tt, tt)
cleanup_dir_skips list (lists entries) = entries_skip list entries
