-- ===== src/Boot/Kernel.antt =====
-- The calls that src/nerves_initramfs.c makes itself, with their arguments, and computations that make
-- them between steps of the interpreter.
use nerves_initramfs.Base.{ℕ, Bool, List, ◌∷◌, Option, if◌then◌else◌}
use nerves_initramfs.Base.CString.{Bytes, codes}
use nerves_initramfs.Base.Int.{ℤ, pos, ltb_ℤ}
use nerves_initramfs.Script.Machine.{State, Outcome, ok, stop, fatal, Stop, M}
use nerves_initramfs.Log.{format_message}
use nerves_initramfs.Rootdisk.{SysFiles}
use nerves_initramfs.Boot.Cleanup.{Directory}

pub data Flag : Type 0 where
  ms_rdonly ms_nosuid ms_nodev ms_noexec ms_move : Flag

pub data DmCommand : Type 0 where
  dm_dev_create dm_table_load dm_dev_suspend : DmCommand

-- `struct dm_target_spec`, and the string behind it
pub record DmTarget : Type 0 where
  pub sector_start : ℕ
  pub length : ℤ
  pub target_type : Bytes
  pub parameters : Bytes

-- The fields of `struct dm_ioctl` that are set, in a request of 16384 zeroed bytes; the version is that
-- of the header.
pub record DmRequest : Type 0 where
  pub target_count : ℕ
  pub secure_data : Bool
  pub name : Bytes
  pub uuid : Bytes
  pub target : Option DmTarget

pub data Call : Type 0 where
  mkdir : Bytes → ℕ → Call
  mount : Bytes → Bytes → Option Bytes → List Flag → Option Bytes → Call
  umount rmdir chdir chroot open_read open_write : Bytes → Call
  execv : Bytes → List Bytes → Call
  close : ℤ → Call
  lseek_end lseek_start block_size_get : ℤ → Call
  loop_set_fd : ℤ → ℤ → Call
  dm_ioctl : ℤ → DmCommand → DmRequest → Call
  unlinkat : List Bytes → Bool → Call
  symlink : Bytes → Bytes → Call
  getpid : Call
  log_line : Bytes → Call

-- The calls so far, the latest first, each with what it returned.
abbrev pub Trace : Type 0
Trace = List (Call × ℤ)

-- The kernel answers as it likes, whatever has happened. `sector_size` is what BLKSSZGET stores,
-- `root` what the root lists, and `stat` gives the `st_rdev` of a path, `none`
-- where it fails; `sys` is what /sys holds.
pub record Kernel : Type 0 where
  pub answer : Trace → Call → ℤ
  pub sector_size : Trace → ℤ
  pub root : Trace → Directory
  pub sys : Trace → SysFiles
  pub stat : Trace → Bytes → Option ℕ

-- A computation over the interpreter's state and the calls.
abbrev pub B : Type 0 → Type 0 → Type 0
B W A = State W → Trace → Outcome A × State W × Trace

module _ {W : Type 0} where
  abbrev pub go_on :
      {A C : Type 0} → Outcome A × State W × Trace → (A → B W C) → Outcome C × State W × Trace
  go_on (ok a, s, tr) f = f a s tr
  go_on (stop why, s, tr) f = (stop why, s, tr)

  infixl 5 ◌>>=◌ ◌>>◌
  unfoldable pub ◌>>=◌ : {A C : Type 0} → B W A → (A → B W C) → B W C
  ◌>>=◌ m f s tr = go_on (m s tr) f

  abbrev pub ◌>>◌ : {A C : Type 0} → B W A → B W C → B W C
  m >> n = m >>= λ _. n

  unfoldable pub pure : {A : Type 0} → A → B W A
  pure a s tr = (ok a, s, tr)

  unfoldable pub halt : {A : Type 0} → Stop → B W A
  halt why s tr = (stop why, s, tr)

  -- a step of the interpreter, which makes none of these calls
  unfoldable pub script : {A : Type 0} → M W A → B W A
  script m s tr = let (r, s') = m s in (r, s', tr)

  unfoldable pub call : Kernel → Call → B W ℤ
  call k c s tr = let a = k.answer tr c in (ok a, s, (c, a) ∷ tr)

  unfoldable pub asks : {A : Type 0} → (Trace → A) → B W A
  asks f s tr = (ok (f tr), s, tr)

  unfoldable pub info : Kernel → Bytes → B W ℤ
  info k message = call k (log_line (format_message message))

  -- `fatal`: the message between its banners, and the exit behind them
  unfoldable pub fatal_error : {A : Type 0} → Kernel → Bytes → B W A
  unfolding info
  fatal_error k message =
      call k (log_line (codes "\r\n\r\nFATAL ERROR:\r\n"))
      >> (info k message
          >> (call k (log_line (codes "\r\n\r\nCANNOT CONTINUE.\r\n")) >> halt fatal))

  -- OK_OR_FATAL, OK_OR_WARN and OK_OR_DEBUG
  unfoldable pub ok_or_fatal : Kernel → Call → Bytes → B W (Unit {0})
  unfolding fatal_error
  ok_or_fatal k c message =
      call k c >>= λ rc. if ltb_ℤ rc (pos 0) then fatal_error k message else pure tt

  unfoldable pub ok_or_warn : Kernel → Call → Bytes → B W (Unit {0})
  ok_or_warn k c message =
      call k c >>= λ rc. if ltb_ℤ rc (pos 0) then info k message >> pure tt else pure tt

  unfoldable pub ok_or_debug : Kernel → Call → B W (Unit {0})
  ok_or_debug k c = call k c >> pure tt
