-- ===== src/BlockDevice/Wait.antt =====
-- The wait for device files: a bounded number of tries, shared by all calls.
use nerves_initramfs.Base.{
  ℕ, zero, suc, ◌+◌, ◌≤◌, ◌<◌, Option, none, some, ◌≡◌, ◌≢◌, inl, inr, refl, subst, arith,
  Option-cases,
}
use nerves_initramfs.Base.CString.{Bytes}
use nerves_initramfs.BlockDevice.Spec.{
  Snapshot, Opened, open_block_device_impl, wait_loop, open_block_device,
}

module _ {ℓ} {Fd : Type ℓ} (history : ℕ → Snapshot Fd) (spec : Bytes) where
  wait_loop_budget :
      (tries time : ℕ) (fd : Option Fd) (path : Bytes) {o : Opened Fd}
      → wait_loop history spec tries time fd path ≡ some o
      → (o.tries + o.time ≡ tries + time) × (o.fd ≡ none → o.tries ≡ 0)
  unfolding wait_loop
  wait_loop_budget tries time (some fd) path h = ground arith
  wait_loop_budget zero time none path h = ground arith
  wait_loop_budget (suc tries) time none path h =
      elim (Option-cases (open_block_device_impl (history (suc time)) spec path)) [
        | inl e ↦ absurd (ground arith)
        | inr ((fd, path'), e) ↦
            let (sum, spent) =
              wait_loop_budget tries (suc time) fd path' (rw (e, wait_loop) at h) in
            (omega (arith, sum), spent)
      ]

  -- A call uses up one try for each millisecond that it waits, and gives up only when no try is left.
  pub open_block_device_budget :
      (tries time : ℕ) (path : Bytes) {o : Opened Fd}
      → open_block_device history spec tries time path ≡ some o
      → (o.tries + o.time ≡ tries + time) × (o.fd ≡ none → o.tries ≡ 0)
  unfolding open_block_device
  open_block_device_budget tries time path h =
      elim (Option-cases (open_block_device_impl (history time) spec path)) [
        | inl e ↦ absurd (ground arith)
        | inr ((fd, path'), e) ↦
            wait_loop_budget tries time fd path' (rw (e, open_block_device) at h)
      ]

  -- The specification resolves and opens at that millisecond, whatever the path buffer holds.
  abbrev pub OpensAt : ℕ → Type ℓ
  OpensAt time =
      (path : Bytes)
      → (fd : Fd) × (path' : Bytes) × (open_block_device_impl (history time) spec path
          ≡ some (some fd, path'))

  -- No attempt runs outside a buffer.
  abbrev pub NoFault : Type ℓ
  NoFault = (time : ℕ) (path : Bytes) → open_block_device_impl (history time) spec path ≢ none

  wait_loop_finds :
      (k tries time : ℕ) (fd : Option Fd) (path : Bytes)
      → NoFault
      → k < tries
      → OpensAt (time + suc k)
      → (o : Opened Fd) × (wait_loop history spec tries time fd path ≡ some o)
        × (o.fd ≢ none)
        × (o.time ≤ time + suc k)
  unfolding wait_loop
  wait_loop_finds k tries time (some fd) path ok lt h = (
    record { fd = some fd; path = path; tries = tries; time = time },
    refl,
    ground arith,
    omega arith,
  )
  wait_loop_finds k zero time none path ok lt h = absurd (omega arith)
  wait_loop_finds zero (suc tries) time none path ok lt h =
      let now : time + 1 ≡ suc time = omega arith in
      let (fd, path', e) = subst OpensAt now h path in
      (
        record { fd = some fd; path = path'; tries = tries; time = suc time },
        rw (e, wait_loop),
        ground arith,
        omega arith,
      )
  wait_loop_finds (suc k) (suc tries) time none path ok lt h =
      elim (Option-cases (open_block_device_impl (history (suc time)) spec path)) [
        | inl e ↦ absurd (ok (suc time) path e)
        | inr ((fd, path'), e) ↦
            let shift : time + suc (suc k) ≡ suc time + suc k = omega arith in
            let (o, run, found, soon) =
              wait_loop_finds k tries (suc time) fd path' ok (omega arith)
                (subst OpensAt shift h) in
            (o, rw (e, wait_loop) run, found, omega arith)
      ]

  -- Where no attempt runs outside a buffer, a device that appears within the tries that are left
  -- is opened, no later than it appears.
  pub open_block_device_finds :
      (k tries time : ℕ) (path : Bytes)
      → NoFault
      → k ≤ tries
      → OpensAt (time + k)
      → (o : Opened Fd) × (open_block_device history spec tries time path ≡ some o)
        × (o.fd ≢ none)
        × (o.time ≤ time + k)
  unfolding open_block_device wait_loop
  open_block_device_finds zero tries time path ok le h =
      let now : time + 0 ≡ time = omega arith in
      let (fd, path', e) = subst OpensAt now h path in
      (
        record { fd = some fd; path = path'; tries = tries; time = time },
        rw (e, open_block_device),
        ground arith,
        omega arith,
      )
  open_block_device_finds (suc k) tries time path ok le h =
      elim (Option-cases (open_block_device_impl (history time) spec path)) [
        | inl e ↦ absurd (ok time path e)
        | inr ((fd, path'), e) ↦
            let (o, run, found, soon) = wait_loop_finds k tries time fd path' ok (omega arith) h in
            (o, rw (e, open_block_device) run, found, soon)
      ]
