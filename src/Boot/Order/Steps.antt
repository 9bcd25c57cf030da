-- ===== src/Boot/Order/Steps.antt =====
-- What a computation does to the phase of `Boot/Phases.antt`, and the rules for its steps.
use nerves_initramfs.Base.{Bool, true, false, ◌∷◌, some, ◌≡◌, refl, if◌then◌else◌}
use nerves_initramfs.Base.CString.{Bytes}
use nerves_initramfs.Base.Int.{ℤ, pos, ltb_ℤ}
use nerves_initramfs.Script.Machine.{State, Outcome, ok, stop, Stop, M}
use nerves_initramfs.Boot.Kernel.{
  Call, log_line, Trace, Kernel, B, go_on, ◌>>=◌, pure, halt, script, call, asks, info, fatal_error,
  ok_or_fatal, ok_or_warn, ok_or_debug,
}
use nerves_initramfs.Boot.Phases.{Phase, preparing, mounted, switching, next_phase, phase_of}

pub log_keeps :
    (phase : Phase) (text : Bytes) (a : ℤ) → next_phase phase (log_line text) a ≡ some phase
unfolding next_phase
log_keeps preparing text a = refl
log_keeps mounted text a = refl
log_keeps switching text a = refl

-- The trace of a computation that went on is in a phase; of one that stopped, in some phase.
abbrev pub Ended : {W A : Type 0} → Phase → Outcome A × State W × Trace → Type 0
Ended to (ok a, s, tr) = phase_of tr ≡ some to
Ended to (stop why, s, tr) = (phase : Phase) × (phase_of tr ≡ some phase)

-- From one phase, the computation keeps the order and leads to the other.
pub record Leads {W A : Type 0} (from to : Phase) (m : B W A) : Type 0 where
  pub ends : (s : State W) (tr : Trace) → phase_of tr ≡ some from → Ended to (m s tr)

module _ {W : Type 0} where
  go_on-Ended :
      {A C : Type 0} {mid to : Phase} {f : A → B W C}
      → ((a : A) → Leads mid to (f a))
      → (x : Outcome A × State W × Trace) → Ended mid x
      → Ended to (go_on x f)
  go_on-Ended lf (ok a, s, tr) h = (lf a).ends s tr h
  go_on-Ended lf (stop why, s, tr) h = h

  pub bind-Leads :
      {A C : Type 0} {from mid to : Phase} {m : B W A} {f : A → B W C}
      → Leads from mid m
      → ((a : A) → Leads mid to (f a))
      → Leads from to (m >>= f)
  unfolding ◌>>=◌
  bind-Leads {m = m} lm lf = record { ends = λ s tr h. go_on-Ended lf (m s tr) (lm.ends s tr h) }

  pub pure-Leads : {A : Type 0} {phase : Phase} (a : A) → Leads phase phase (pure {W = W} a)
  unfolding pure
  pure-Leads a = record { ends = λ s tr h. h }

  pub halt-Leads :
      {A : Type 0} {from to : Phase} (why : Stop) → Leads from to (halt {W = W} {A = A} why)
  unfolding halt
  halt-Leads {from = from} why = record { ends = λ s tr h. (from, h) }

  pub if-Leads :
      {A : Type 0} {from to : Phase} {m n : B W A} (b : Bool)
      → Leads from to m
      → Leads from to n
      → Leads from to (if b then m else n)
  if-Leads true lm ln = lm
  if-Leads false lm ln = ln

  pub asks-Leads : {A : Type 0} {phase : Phase} (f : Trace → A) → Leads phase phase (asks {W = W} f)
  unfolding asks
  asks-Leads f = record { ends = λ s tr h. h }

  pub script-Leads : {A : Type 0} {phase : Phase} (m : M W A) → Leads phase phase (script m)
  unfolding script
  script-Leads {phase = phase} m = record { ends = λ s tr h. after (m s) tr h }
    where
      after :
          {A : Type 0} {phase : Phase} (x : Outcome A × State W) (tr : Trace)
          → phase_of tr ≡ some phase
          → Ended phase (x.0, x.1, tr)
      after (ok a, s) tr h = h
      after {phase = phase} (stop why, s) tr h = (phase, h)

  module _ (k : Kernel) where
    pub call-Leads :
        {from to : Phase} (c : Call)
        → ((a : ℤ) → next_phase from c a ≡ some to)
        → Leads from to (call {W = W} k c)
    unfolding phase_of call
    call-Leads c step = record { ends = λ s tr h. rw h (step (k.answer tr c)) }

    pub info-Leads : {phase : Phase} (text : Bytes) → Leads phase phase (info {W = W} k text)
    unfolding info
    info-Leads {phase} text = call-Leads (log_line _) (log_keeps phase _)

    pub fatal-Leads :
        {A : Type 0} {from to : Phase} (text : Bytes)
        → Leads from to (fatal_error {W = W} {A = A} k text)
    unfolding fatal_error
    fatal-Leads {from = from} text = bind-Leads (call-Leads (log_line _) (log_keeps from _)) (λ a.
        bind-Leads (info-Leads text)
          (λ a. bind-Leads (call-Leads (log_line _) (log_keeps from _)) (λ a. halt-Leads _)))

    -- a call that its phase allows, whatever it returns
    pub warn-Leads :
        {from to : Phase} (c : Call) (text : Bytes)
        → ((a : ℤ) → next_phase from c a ≡ some to)
        → Leads from to (ok_or_warn {W = W} k c text)
    unfolding ok_or_warn
    warn-Leads c text step = bind-Leads (call-Leads c step) (λ rc.
        if-Leads (ltb_ℤ rc (pos 0)) (bind-Leads (info-Leads _) (λ a. (pure-Leads _)))
          (pure-Leads _))

    pub debug-Leads :
        {from to : Phase} (c : Call)
        → ((a : ℤ) → next_phase from c a ≡ some to)
        → Leads from to (ok_or_debug {W = W} k c)
    unfolding ok_or_debug
    debug-Leads c step = bind-Leads (call-Leads c step) (λ rc. (pure-Leads _))

    pub need-Leads :
        {from to : Phase} (c : Call) (text : Bytes)
        → ((a : ℤ) → next_phase from c a ≡ some to)
        → Leads from to (ok_or_fatal {W = W} k c text)
    unfolding ok_or_fatal
    need-Leads c text step =
        bind-Leads (call-Leads c step)
          (λ rc. if-Leads (ltb_ℤ rc (pos 0)) (fatal-Leads _) (pure-Leads _))

    pub guard-Leads :
        {phase : Phase} (b : Bool) (text : Bytes)
        → Leads phase phase (if b then fatal_error {W = W} k text else pure tt)
    guard-Leads b text = if-Leads b (fatal-Leads _) (pure-Leads _)

    -- a call whose answer decides the phase
    pub answer-Leads :
        {A : Type 0} {from to : Phase} {f : ℤ → B W A} (c : Call) (mid : ℤ → Phase)
        → ((a : ℤ) → next_phase from c a ≡ some (mid a))
        → ((a : ℤ) → Leads (mid a) to (f a))
        → Leads from to (call k c >>= f)
    unfolding ◌>>=◌ call phase_of
    answer-Leads c mid step rest = record {
      ends = λ s tr h. let a = k.answer tr c in (rest a).ends s ((c, a) ∷ tr) (rw h (step a));
    }
