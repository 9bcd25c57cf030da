-- ===== src/Script/Machine.antt =====
-- The state that the interpreter runs on, what the kernel and the other files do for it, the bump
-- allocator and the constructors of terms of src/script.c.
use nerves_initramfs.Base.{
  ℕ, ◌+◌, ◌-◌, ◌*◌, ◌/◌, Bool, List, Option, none, some, ltb, if◌then◌else◌, length, take, drop,
}
use nerves_initramfs.Base.CString.{Bytes}
use nerves_initramfs.Base.Int.{ℤ}
use nerves_initramfs.Cmd.{Child}
use nerves_initramfs.BlockDevice.Spec.{Snapshot}
use nerves_initramfs.UbootEnv.{Pair, Env}
use nerves_initramfs.Script.Defs.{
  Term, identifier, string, number, boolean, fun, Fun, Terms, Variable, lookup_function, arity_of,
}

-- What ends the program before its time: `fatal`, the `exit` behind a reboot or a power-off, an
-- access that C leaves undefined, and a recursion that did not end within the fuel.
pub data Stop : Type 0 where
  fatal exited undefined no_fuel : Stop

pub data Outcome (A : Type 0) : Type 0 where
  ok : A → Outcome A
  stop : Stop → Outcome A

pub record State (W : Type 0) : Type 0 where
  pub heap_index : ℕ
  pub variables : List Variable
  pub working_uboot_env : Env
  pub tries : ℕ
  pub world : W

-- The calls that leave the modelled code, over a world `W` and file descriptors `Fd`. `term_size` is
-- `sizeof(struct term)` and `qsort` that of the C library. `files` are the files from now on, at each
-- millisecond, for an `open` that writes or not, and `opened` what `open_block_device` does to the
-- world in the milliseconds that it takes; `fork` starts a command.
pub record Platform (W Fd : Type 0) : Type 0 where
  pub term_size : ℕ
  pub qsort : (Pair → Pair → Bool) → List Pair → List Pair
  pub stderr : Bytes → W → W
  pub info : Bytes → W → W
  pub files : W → Bool → ℕ → Snapshot Fd
  pub opened : Option Fd → ℕ → W → W
  pub lseek : Fd → ℤ → W → Bool × W
  pub malloc : ℕ → W → Bytes
  pub read : Fd → ℕ → W → Option Bytes × W
  pub write : Fd → Bytes → W → ℕ × W
  pub close : Fd → W → W
  pub fork : List Bytes → W → Child × W
  pub read_file : Bytes → W → Option Bytes × W
  pub list_files : Bytes → W → List (Bytes × Bool) × W
  pub usleep : ℤ → W → W
  pub reboot : W → W
  pub power_off : W → W

-- A step of the interpreter: the state comes back beside a stop too.
abbrev pub M : Type 0 → Type 0 → Type 0
M W A = State W → Outcome A × State W

module _ {W : Type 0} where
  abbrev pub continue : {A B : Type 0} → Outcome A → (A → M W B) → M W B
  continue (ok a) f s = f a s
  continue (stop why) f s = (stop why, s)

  infixl 5 ◌>>=◌ ◌>>◌
  abbrev pub ◌>>=◌ : {A B : Type 0} → M W A → (A → M W B) → M W B
  ◌>>=◌ m f s = let (r, s') = m s in continue r f s'

  abbrev pub ◌>>◌ : {A B : Type 0} → M W A → M W B → M W B
  m >> n = m >>= λ _. n

  abbrev pub pure : {A : Type 0} → A → M W A
  pure a s = (ok a, s)

  abbrev pub halt : {A : Type 0} → Stop → M W A
  halt why s = (stop why, s)

  abbrev pub gets : {A : Type 0} → (State W → A) → M W A
  gets f s = (ok (f s), s)

  -- a pointer that is followed; `none` is NULL
  abbrev pub deref : {A : Type 0} → Option A → M W A
  deref none = halt undefined
  deref (some a) = pure a

  abbrev pub changes : (State W → State W) → M W (Unit {0})
  changes f s = (ok tt, f s)

  -- an effect on the world alone
  abbrev pub does : (W → W) → M W (Unit {0})
  does f s = (ok tt, record s { world = f s.world })

  -- a call that answers
  abbrev pub asks : {A : Type 0} → (W → A × W) → M W A
  asks f s = let (a, w) = f s.world in (ok a, record s { world = w })

abbrev pub heap_size : ℕ
heap_size = 16536

-- `(n + 7) & ~7`
abbrev pub round_up : ℕ → ℕ
round_up n = (n + 7) / 8 * 8

module _ {W : Type 0} where
  -- the offset of the block in the heap
  unfoldable pub alloc_heap : ℕ → M W ℕ
  alloc_heap num_bytes s =
      if ltb heap_size (s.heap_index + num_bytes)
      then (stop fatal, s)
      else (ok s.heap_index, record s { heap_index = round_up (s.heap_index + num_bytes) })

  unfoldable pub alloc_string : Bytes → M W Bytes
  unfolding alloc_heap
  alloc_string str = do alloc_heap (length str + 1); pure str

  -- between the quotes; `str++` skips the first, and the NUL overwrites the last
  unfoldable pub alloc_qstring : Bytes → M W Bytes
  unfolding alloc_heap
  alloc_qstring str = do
    let len = length (drop 1 str)
    alloc_heap len
    pure (take (len - 1) (drop 1 str))

module _ {W Fd : Type 0} (p : Platform W Fd) where
  unfoldable pub term_new_number : ℤ → M W Term
  unfolding alloc_heap
  term_new_number value = do alloc_heap p.term_size; pure (number value)

  unfoldable pub term_new_string : Bytes → M W Term
  unfolding alloc_heap alloc_string
  term_new_string value = do alloc_heap p.term_size; copy ← alloc_string value; pure (string copy)

  unfoldable pub term_new_qstring : Bytes → M W Term
  unfolding alloc_heap alloc_qstring
  term_new_qstring value = do alloc_heap p.term_size; copy ← alloc_qstring value; pure (string copy)

  unfoldable pub term_new_boolean : Bool → M W Term
  unfolding alloc_heap
  term_new_boolean value = do alloc_heap p.term_size; pure (boolean value)

  unfoldable pub term_new_identifier : Bytes → M W Term
  unfolding alloc_heap alloc_string
  term_new_identifier value = do
    alloc_heap p.term_size
    copy ← alloc_string value
    pure (identifier copy)

  -- `term_new_fun` behind its look for the function; `none` is NULL
  unfoldable pub alloc_call : Option Fun → Terms → M W (Option Term)
  alloc_call none parameters = pure none
  alloc_call (some f) parameters = do alloc_heap p.term_size; pure (some (fun f parameters))

  unfoldable pub term_new_fun : Bytes → Terms → M W (Option Term)
  unfolding alloc_call
  term_new_fun name parameters = alloc_call (lookup_function name (arity_of parameters)) parameters
