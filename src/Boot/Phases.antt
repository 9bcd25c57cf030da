-- ===== src/Boot/Phases.antt =====
-- The order that the boot keeps, as an automaton over its calls: the specification of `main`.
use nerves_initramfs.Base.{
  Bool, true, false, List, [], ◌∷◌, ◌++◌, Option, none, some, ◌≡◌, refl, ◌∙◌, ap, arith,
  if◌then◌else◌, Bool-cases, inl, inr, ◌⊎◌, Option-cases,
}
use nerves_initramfs.Base.CString.{Bytes, codes, str_eq}
use nerves_initramfs.Base.Int.{ℤ, pos, ltb_ℤ}
use nerves_initramfs.Boot.Cleanup.{in_skip_list, root_skip_list, StartsOutside}
use nerves_initramfs.Boot.Kernel.{
  Flag, ms_rdonly, ms_move, Call, mkdir, mount, umount, rmdir, chdir, chroot, execv, unlinkat,
  symlink, Trace,
}

-- Before the root file system is mounted; behind that; and when the old root is given up.
pub data Phase : Type 0 where
  preparing mounted switching : Phase

-- A mount of the root file system, read-only on /mnt.
abbrev pub mounts_root : Bytes → List Flag → Bool
mounts_root target (ms_rdonly ∷ []) = str_eq target (codes "/mnt")
mounts_root target _ = false

-- The move of /dev, which starts the switch.
abbrev pub moves_dev : Bytes → List Flag → Bool
moves_dev target (ms_move ∷ []) = str_eq target (codes "/mnt/dev")
moves_dev target _ = false

-- The phase behind a call and its answer, or `none` for a call that the phase does not allow. A failed
-- mount of the root leaves the phase. Nothing is removed, unmounted or replaced before the switch, and
-- what is removed is not on the skip list.
unfoldable pub next_phase : Phase → Call → ℤ → Option Phase
next_phase preparing (mount source target type flags text) a =
    if mounts_root target flags
    then some (if ltb_ℤ a (pos 0) then preparing else mounted)
    else if moves_dev target flags
    then none
    else some preparing
next_phase mounted (mount source target type flags text) a =
    if moves_dev target flags then some switching else none
next_phase switching (mount source target type flags text) a = some switching
next_phase preparing (umount path) a = none
next_phase preparing (rmdir path) a = none
next_phase preparing (chdir path) a = none
next_phase preparing (chroot path) a = none
next_phase preparing (execv path argv) a = none
next_phase preparing (unlinkat path is_dir) a = none
next_phase preparing (symlink target path) a = none
next_phase preparing c a = some preparing
next_phase mounted (umount path) a = none
next_phase mounted (rmdir path) a = none
next_phase mounted (chdir path) a = none
next_phase mounted (chroot path) a = none
next_phase mounted (execv path argv) a = none
next_phase mounted (unlinkat path is_dir) a = none
next_phase mounted (mkdir path mode) a = none
next_phase mounted c a = some mounted
next_phase switching (unlinkat [] is_dir) a = none
next_phase switching (unlinkat (name ∷ path) is_dir) a =
    if in_skip_list name root_skip_list then none else some switching
next_phase switching c a = some switching

-- The phase at the end of a trace, which has the latest call first.
unfoldable pub phase_of : Trace → Option Phase
phase_of [] = some preparing
phase_of ((c, a) ∷ tr) = elim (phase_of tr) [ none ↦ none | some phase ↦ next_phase phase c a ]

-- A successful mount of the root file system, read-only on /mnt, is among the calls.
unfoldable pub HasRootMount : Trace → Type 0
HasRootMount [] = ⊥
HasRootMount ((mount source target type flags text, a) ∷ tr) =
    ((mounts_root target flags ≡ true) × (ltb_ℤ a (pos 0) ≡ false)) ⊎ HasRootMount tr
HasRootMount ((c, a) ∷ tr) = HasRootMount tr

-- What a phase says of the trace.
abbrev Meaning : Phase → Trace → Type 0
Meaning preparing tr = Unit {0}
Meaning mounted tr = HasRootMount tr
Meaning switching tr = HasRootMount tr

HasRootMount-cons : (c : Call) (a : ℤ) (tr : Trace) → HasRootMount tr → HasRootMount ((c, a) ∷ tr)
unfolding HasRootMount
HasRootMount-cons (mount source target type flags text) a tr h = inr h
HasRootMount-cons c a tr h = h

-- From `preparing` only a successful mount of the root leads on.
preparing_next :
    (c : Call) (a : ℤ) (tr : Trace) (phase : Phase)
    → next_phase preparing c a ≡ some phase
    → Meaning phase ((c, a) ∷ tr)
unfolding next_phase HasRootMount
preparing_next (mount source target type flags text) a tr preparing h = tt
preparing_next (mount source target type flags text) a tr mounted h =
    elim (Bool-cases (mounts_root target flags)) [
      | inl m ↦ elim (Bool-cases (ltb_ℤ a (pos 0))) [
        | inl e ↦ absurd (ground arith)
        | inr e ↦ inl (m, e)
      ]
      | inr m ↦ absurd (ground arith)
    ]
preparing_next (mount source target type flags text) a tr switching h = absurd (ground arith)
preparing_next c a tr preparing h = tt
preparing_next c a tr mounted h = ground arith
preparing_next c a tr switching h = ground arith

phase_step :
    (before phase : Phase) (c : Call) (a : ℤ) (tr : Trace)
    → Meaning before tr
    → next_phase before c a ≡ some phase
    → Meaning phase ((c, a) ∷ tr)
phase_step preparing phase c a tr m h = preparing_next c a tr phase h
phase_step before preparing c a tr m h = tt
phase_step mounted mounted c a tr m h = HasRootMount-cons c a tr m
phase_step mounted switching c a tr m h = HasRootMount-cons c a tr m
phase_step switching mounted c a tr m h = HasRootMount-cons c a tr m
phase_step switching switching c a tr m h = HasRootMount-cons c a tr m

-- A phase behind the mount has the mount behind it.
phase-Meaning : (tr : Trace) (phase : Phase) → phase_of tr ≡ some phase → Meaning phase tr
unfolding phase_of
phase-Meaning [] preparing h = tt
phase-Meaning [] mounted h = ground arith
phase-Meaning [] switching h = ground arith
phase-Meaning ((c, a) ∷ tr) phase h = elim (Option-cases (phase_of tr)) [
  | inl e ↦ absurd (ground arith)
  | inr (before, e) ↦
      phase_step before phase c a tr (phase-Meaning tr before e) (rw (e, phase_of) at h)
]

-- A trace in a phase is in a phase at each of its calls.
phase_of-suffix :
    (later earlier : Trace) {phase : Phase}
    → phase_of (later ++ earlier) ≡ some phase
    → (before : Phase) × (phase_of earlier ≡ some before)
unfolding phase_of
phase_of-suffix [] earlier {phase} h = (phase, h)
phase_of-suffix ((c, a) ∷ later) earlier h = elim (Option-cases (phase_of (later ++ earlier))) [
  | inl e ↦ absurd (ground arith)
  | inr (before, e) ↦ phase_of-suffix later earlier e
]

-- The calls that give the old root up.
unfoldable pub GivesUp : Call → Type 0
GivesUp (unlinkat path is_dir) = StartsOutside root_skip_list path
GivesUp (umount path) = Unit {0}
GivesUp (rmdir path) = Unit {0}
GivesUp (chroot path) = Unit {0}
GivesUp (execv path argv) = Unit {0}
GivesUp c = ⊥

abbrev pub gives_up : Call → Bool
gives_up (unlinkat path is_dir) = true
gives_up (umount path) = true
gives_up (rmdir path) = true
gives_up (chroot path) = true
gives_up (execv path argv) = true
gives_up c = false

gives_up_late :
    (c : Call) (a : ℤ) (before phase : Phase)
    → gives_up c ≡ true
    → next_phase before c a ≡ some phase
    → (before ≡ switching) × GivesUp c
unfolding next_phase GivesUp
gives_up_late (unlinkat [] is_dir) a switching phase g h = ground arith
gives_up_late (unlinkat (name ∷ path) is_dir) a switching phase g h =
    elim (Bool-cases (in_skip_list name root_skip_list)) [
      | inl e ↦ absurd (ground arith)
      | inr e ↦ (refl, e)
    ]
gives_up_late (umount path) a switching phase g h = (refl, tt)
gives_up_late (rmdir path) a switching phase g h = (refl, tt)
gives_up_late (chroot path) a switching phase g h = (refl, tt)
gives_up_late (execv path argv) a switching phase g h = (refl, tt)
gives_up_late c a before phase g h = ground arith

-- In a trace that keeps the order, a call that gives the old root up is late, and allowed.
pub phase_of-gives_up :
    (later earlier : Trace) (c : Call) (a : ℤ) {phase : Phase}
    → phase_of (later ++ ((c, a) ∷ earlier)) ≡ some phase
    → gives_up c ≡ true
    → HasRootMount earlier × GivesUp c
unfolding phase_of
phase_of-gives_up later earlier c a h g =
    let (phase, here) = phase_of-suffix later ((c, a) ∷ earlier) h in
    elim (Option-cases (phase_of earlier)) [
      | inl e ↦ absurd (ground arith)
      | inr (before, e) ↦
          let (late, allowed) = gives_up_late c a before phase g (rw (e, phase_of) at here) in
          (phase-Meaning earlier switching (e ∙ ap some late), allowed)
    ]
