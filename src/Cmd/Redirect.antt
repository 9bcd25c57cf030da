-- ===== src/Cmd/Redirect.antt =====
-- The child of `system_cmd` of src/cmd.c, up to the command that takes its place. What `close`, `dup2`
-- and `execvp` do to the descriptors of a process is an argument.
use nerves_initramfs.Base.{
  ℕ, ◌<◌, Bool, true, false, List, Option, none, some, ◌≡◌, ◌≢◌, refl, ◌∙◌, arith, ◌==◌, ==_iff,
  if◌then◌else◌,
}
use nerves_initramfs.Base.CString.{Bytes}

-- The descriptors of a process, and the calls that change them; `execvp` tells whether the command takes
-- the place of the process.
pub record Descriptors (T File : Type 0) : Type 0 where
  pub file : T → ℕ → Option File
  pub close : ℕ → T → T
  pub dup2 : ℕ → ℕ → T → T
  pub execvp : List Bytes → T → Bool

-- How the child ends: as the command, with the descriptors that it has, or by `exit`.
pub data ChildEnd (T : Type 0) : Type 0 where
  executes : List Bytes → T → ChildEnd T
  exits : ChildEnd T

module _ {T File : Type 0} (d : Descriptors T File) where
  -- behind `open("/dev/null", O_RDWR)`, `none` where it fails, with the two ends of the pipe
  unfoldable pub child : Option ℕ → ℕ → ℕ → List Bytes → T → ChildEnd T
  child none read_end write_end argv t = exits
  child (some devnull) read_end write_end argv t =
      let closed = d.close 1 (d.close 0 (d.close read_end t)) in
      let redirected = d.close devnull (d.dup2 write_end 1 (d.dup2 devnull 0 closed)) in
      if d.execvp argv redirected then executes argv redirected else exits

-- What POSIX says of `close`, and of `dup2` where it does not fail.
pub record IsPosix {T File : Type 0} (d : Descriptors T File) : Type 0 where
  pub closed : (a b : ℕ) (t : T) → d.file (d.close a t) b ≡ (if a == b then none else d.file t b)
  pub duplicated :
      (a b c : ℕ) (t : T) {f : File}
      → d.file t a ≡ some f
      → d.file (d.dup2 a b t) c ≡ (if b == c then some f else d.file t c)

-- What the command starts with.
pub record Redirected {T File : Type 0} (d : Descriptors T File) (null pipe : File) (before t : T)
    (read_end devnull : ℕ) : Type 0 where
  pub stdin : d.file t 0 ≡ some null
  pub stdout : d.file t 1 ≡ some pipe
  pub stderr : d.file t 2 ≡ d.file before 2
  pub no_reads : d.file t read_end ≡ none
  pub no_devnull : d.file t devnull ≡ none

differs : (a b : ℕ) → a ≢ b → (a == b) ≡ false
differs a b h = ground (arith, ==_iff a b)

module _ {T File : Type 0} (d : Descriptors T File) (posix : IsPosix d) where
  keeps_close : (a b : ℕ) (t : T) → a ≢ b → d.file (d.close a t) b ≡ d.file t b
  keeps_close a b t h = posix.closed a b t ∙ rw (differs a b h)

  gone : (a : ℕ) (t : T) → d.file (d.close a t) a ≡ none
  gone a t = posix.closed a a t ∙ rw ((==_iff a a).1 refl)

  keeps_dup2 :
      (a b c : ℕ) (t : T) {f : File}
      → d.file t a ≡ some f
      → b ≢ c
      → d.file (d.dup2 a b t) c ≡ d.file t c
  keeps_dup2 a b c t h k = posix.duplicated a b c t h ∙ rw (differs b c k)

  -- Where the ends of the pipe and /dev/null have three descriptors behind those of the standard streams,
  -- and the command can be executed, it starts with /dev/null as its input, the pipe as its output, the
  -- error stream as it was, and neither the end that is read nor the descriptor of /dev/null.
  pub child_redirects :
      (devnull read_end write_end : ℕ) (argv : List Bytes) (t : T) (null pipe : File)
      → d.file t devnull ≡ some null
      → d.file t write_end ≡ some pipe
      → 2 < devnull
      → 2 < read_end
      → 2 < write_end
      → devnull ≢ write_end
      → devnull ≢ read_end
      → read_end ≢ write_end
      → ((t : T) → d.execvp argv t ≡ true)
      → (t' : T) × (child d (some devnull) read_end write_end argv t ≡ executes argv t')
        × Redirected d null pipe t t' read_end devnull
  unfolding child
  child_redirects devnull r w argv t null pipe at_null at_pipe n₁ n₂ n₃ h₁ h₂ h₃ runs =
      let closed = d.close 1 (d.close 0 (d.close r t)) in
      let kept : (b : ℕ) → 1 < b → r ≢ b → d.file closed b ≡ d.file t b = λ b low other.
        keeps_close 1 b _ (omega arith)
        ∙ keeps_close 0 b _ (omega arith)
        ∙ keeps_close r b t other in
      let null_there = kept devnull (omega arith) (λ e. omega (arith, e, h₂)) ∙ at_null in
      let with_input = d.dup2 devnull 0 closed in
      let pipe_there : d.file with_input w ≡ some pipe =
        keeps_dup2 devnull 0 w closed null_there (omega arith)
        ∙ kept w (omega arith) h₃
        ∙ at_pipe in
      let with_output = d.dup2 w 1 with_input in
      (
        d.close devnull with_output,
        rw (runs (d.close devnull with_output)) refl,
        record {
          stdin =
              keeps_close devnull 0 with_output (omega arith)
              ∙ keeps_dup2 w 1 0 with_input pipe_there (omega arith)
              ∙ posix.duplicated devnull 0 0 closed null_there;
          stdout =
              keeps_close devnull 1 with_output (omega arith)
              ∙ posix.duplicated w 1 1 with_input pipe_there;
          stderr =
              keeps_close devnull 2 with_output (omega arith)
              ∙ keeps_dup2 w 1 2 with_input pipe_there (omega arith)
              ∙ keeps_dup2 devnull 0 2 closed null_there (omega arith)
              ∙ kept 2 (omega arith) (omega arith);
          no_reads =
              keeps_close devnull r with_output h₂
              ∙ keeps_dup2 w 1 r with_input pipe_there (omega arith)
              ∙ keeps_dup2 devnull 0 r closed null_there (omega arith)
              ∙ keeps_close 1 r _ (omega arith)
              ∙ keeps_close 0 r _ (omega arith)
              ∙ gone r t;
          no_devnull = gone devnull with_output;
        },
      )
