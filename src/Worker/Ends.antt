-- ===== src/Worker/Ends.antt =====
-- How a claimed job's run ends (processJob of pool.go), on every branch.
use tasker.Base.{
  ◌+◌, arith, ℕ, ◌≡◌, refl, ◌∙◌, Bool, sym, ap, ◌⊎◌, inl, inr, true, false, Bool-cases, Option,
  none, some, [], ℤ, pos, ◌+ℤ◌, ◌≤ℤ◌, ◌<ℤ◌, ltb_ℤ, ltb_ℤ→<, ltb_ℤ→≥, not, subst, String,
  text_append,
}
use tasker.Job.{
  completed, retryable, failed, Time, Duration, JobRow, Error, failure, error_text, BackoffConfig,
}
use tasker.Around.{around}
use tasker.Machine.{compute_next_state, compute_backoff, compute_backoff_with_config, effective_max}
use tasker.Machine.Transitions.{Limit, effective_max-Limit}
use tasker.Sql.Statement.{Result, ok, err}
use tasker.Worker.{
  JobCode, Registry, ExecResult, Outcome, returns, panics, decode_job, collect_middlewares,
  run_func, run_job, recovered, too_late, retry_delay, before_retry, after_run, failed_run,
  ask_hook, process_job,
}

-- The job's code inside its middlewares, before the recover.
abbrev pub raw_run : {W : Type 0} → Registry W → JobCode W → W → Outcome × W
raw_run reg code w = around (collect_middlewares reg code) (run_func code) w

-- It returned this error, or panicked with the text of this one.
abbrev pub FailsWith : Outcome → Error → Type 0
FailsWith o e =
    (o ≡ returns (some e))
    ⊎ ((p : String) × (o ≡ panics p) × (e ≡ failure (text_append "panic: " p)))

-- The delay before another try: that of the job's own backoff where it has one.
abbrev pub Waits : {W : Type 0} → JobCode W → JobRow → Duration → Type 0
Waits code job d =
    ((code.retry_backoff ≡ none) × (d ≡ compute_backoff job (job.attempt + 1)))
    ⊎ ((cfg : BackoffConfig) × (code.retry_backoff ≡ some cfg)
        × (d ≡ compute_backoff_with_config cfg (job.attempt + 1)))

-- RetryUntil has passed at that time, or not.
abbrev pub Over : {W : Type 0} → JobCode W → Time → Type 0
Over code at = (until : Time) × (code.retry_until ≡ some until) × (until ≤ℤ at)

abbrev pub InTime : {W : Type 0} → JobCode W → Time → Type 0
InTime code at =
    (code.retry_until ≡ none) ⊎ ((until : Time) × (code.retry_until ≡ some until) × (at <ℤ until))

-- What the BeforeRetry hook says, which is asked in the world that the run left.
abbrev pub Refuses : {W : Type 0} → JobCode W → JobRow → Error → W → Error → Type 0
Refuses {W} code job e w hook_err =
    (h : _) × (code.before_retry ≡ some h) × ((h job.attempt e w).0 ≡ some hook_err)

abbrev pub Permits : {W : Type 0} → JobCode W → JobRow → Error → W → Type 0
Permits code job e w =
    (code.before_retry ≡ none)
    ⊎ ((h : _) × (code.before_retry ≡ some h) × ((h job.attempt e w).0 ≡ none))

-- A run whose job fails for good, with this error.
abbrev pub fails_for : Error → ExecResult
fails_for e = record { state = failed; output = []; error = some e; backoff = pos 0 }

-- How a run ends, told apart by its causes.
pub data Ended {W : Type 0} (reg : Registry W) (job : JobRow) (now : Time) (w : W)
    : ExecResult → Type 0 where
  undecodable :
      (e : Error)
      → decode_job reg job.kind job.payload ≡ err e
      → Ended reg job now w (fails_for (failure (text_append "decode error: " (error_text e))))
  done :
      (code : JobCode W)
      → decode_job reg job.kind job.payload ≡ ok code
      → (raw_run reg code w).0 ≡ returns none
      → Ended reg job now w
          (record { state = completed; output = []; error = none; backoff = pos 0 })
  exhausted :
      (code : JobCode W) (e : Error) (m : ℤ)
      → decode_job reg job.kind job.payload ≡ ok code
      → FailsWith (raw_run reg code w).0 e
      → Limit job m
      → m <ℤ pos (job.attempt + 1)
      → Ended reg job now w (fails_for e)
  expired :
      (code : JobCode W) (e : Error) (m : ℤ) (delay : Duration)
      → decode_job reg job.kind job.payload ≡ ok code
      → FailsWith (raw_run reg code w).0 e
      → Limit job m
      → pos (job.attempt + 1) ≤ℤ m
      → Waits code job delay
      → Over code (now +ℤ delay)
      → Ended reg job now w (fails_for e)
  refused :
      (code : JobCode W) (e hook_err : Error) (m : ℤ) (delay : Duration)
      → decode_job reg job.kind job.payload ≡ ok code
      → FailsWith (raw_run reg code w).0 e
      → Limit job m
      → pos (job.attempt + 1) ≤ℤ m
      → Waits code job delay
      → InTime code (now +ℤ delay)
      → Refuses code job e (raw_run reg code w).1 hook_err
      → Ended reg job now w
          (fails_for (failure (text_append "before retry hook: " (error_text hook_err))))
  again :
      (code : JobCode W) (e : Error) (m : ℤ) (delay : Duration)
      → decode_job reg job.kind job.payload ≡ ok code
      → FailsWith (raw_run reg code w).0 e
      → Limit job m
      → pos (job.attempt + 1) ≤ℤ m
      → Waits code job delay
      → InTime code (now +ℤ delay)
      → Permits code job e (raw_run reg code w).1
      → Ended reg job now w
          (record { state = retryable; output = []; error = some e; backoff = delay })

module _ {W : Type 0} (code : JobCode W) (job : JobRow) where
  delay_of : Option BackoffConfig → Duration
  delay_of none = compute_backoff job (job.attempt + 1)
  delay_of (some cfg) = compute_backoff_with_config cfg (job.attempt + 1)

  retry_delay-delay_of :
      (o : Option BackoffConfig)
      → code.retry_backoff ≡ o
      → retry_delay code job (compute_backoff job (job.attempt + 1)) ≡ delay_of o
  unfolding delay_of
  retry_delay-delay_of none same =
      ap
        (λ (o : Option BackoffConfig). elim o [
          | none ↦ compute_backoff job (job.attempt + 1)
          | some cfg ↦ compute_backoff_with_config cfg (job.attempt + 1)
        ])
        same
  retry_delay-delay_of (some c) same =
      ap
        (λ (o : Option BackoffConfig). elim o [
          | none ↦ compute_backoff job (job.attempt + 1)
          | some cfg ↦ compute_backoff_with_config cfg (job.attempt + 1)
        ])
        same

  retry_delay-Waits :
      (o : Option BackoffConfig)
      → code.retry_backoff ≡ o
      → Waits code job (retry_delay code job (compute_backoff job (job.attempt + 1)))
  unfolding delay_of
  retry_delay-Waits none same = inl (same, retry_delay-delay_of none same)
  retry_delay-Waits (some cfg) same = inr (cfg, same, retry_delay-delay_of (some cfg) same)

  abbrev late_for : Time → Option Time → Bool
  late_for at none = false
  late_for at (some until) = not (ltb_ℤ at until)

  late-eq :
      (now : Time) (delay : Duration) (o : Option Time)
      → code.retry_until ≡ o
      → too_late code now delay ≡ late_for (now +ℤ delay) o
  late-eq now delay none same =
      ap
        (λ (o : Option Time). elim o [
          | none ↦ false
          | some until ↦ not (ltb_ℤ (now +ℤ delay) until)
        ])
        same
  late-eq now delay (some u) same =
      ap
        (λ (o : Option Time). elim o [
          | none ↦ false
          | some until ↦ not (ltb_ℤ (now +ℤ delay) until)
        ])
        same

  too_late-Over :
      (now : Time) (delay : Duration) (o : Option Time)
      → code.retry_until ≡ o
      → too_late code now delay ≡ true
      → Over code (now +ℤ delay)
  too_late-Over now delay none same late =
      let never : false ≡ true = sym (late-eq now delay none same) ∙ late in absurd (ground arith)
  too_late-Over now delay (some until) same late = (
    until,
    same,
    ltb_ℤ→≥ (now +ℤ delay) until (not_true _ (sym (late-eq now delay (some until) same) ∙ late)),
  )
    where
      not_true : (b : Bool) → not b ≡ true → b ≡ false
      not_true true h = cc
      not_true false h = refl

  too_late-InTime :
      (now : Time) (delay : Duration) (o : Option Time)
      → code.retry_until ≡ o
      → too_late code now delay ≡ false
      → InTime code (now +ℤ delay)
  too_late-InTime now delay none same early = inl same
  too_late-InTime now delay (some until) same early = inr (
    until,
    same,
    ltb_ℤ→< (now +ℤ delay) until (not_not _ (sym (late-eq now delay (some until) same) ∙ early)),
  )
    where
      not_not : (b : Bool) → not b ≡ false → b ≡ true
      not_not true h = refl
      not_not false h = cc

  -- What the hook answers, if there is one.
  asked_of : Error → W → Option (ℕ → Error → W → Option Error × W) → Option Error
  asked_of e w none = none
  asked_of e w (some h) = (h job.attempt e w).0

  before_retry-asked_of :
      (e : Error) (w : W) (o : _)
      → code.before_retry ≡ o
      → (before_retry code job e w).0 ≡ asked_of e w o
  unfolding asked_of
  before_retry-asked_of e w none same =
      ap
        (λ (o : Option (ℕ → Error → W → Option Error × W)).
          (elim o as (λ _. Option Error × W) [ none ↦ (none, w) | some h ↦ h job.attempt e w ]).0)
        same
  before_retry-asked_of e w (some g) same =
      ap
        (λ (o : Option (ℕ → Error → W → Option Error × W)).
          (elim o as (λ _. Option Error × W) [ none ↦ (none, w) | some h ↦ h job.attempt e w ]).0)
        same

  before_retry-Permits :
      (e : Error) (w : W) (o : _)
      → code.before_retry ≡ o
      → (before_retry code job e w).0 ≡ none
      → Permits code job e w
  unfolding asked_of
  before_retry-Permits e w none same answer = inl same
  before_retry-Permits e w (some h) same answer =
      inr (h, same, sym (before_retry-asked_of e w (some h) same) ∙ answer)

  before_retry-Refuses :
      (e : Error) (w : W) (hook_err : Error) (o : _)
      → code.before_retry ≡ o
      → (before_retry code job e w).0 ≡ some hook_err
      → Refuses code job e w hook_err
  unfolding asked_of
  before_retry-Refuses e w hook_err none same answer =
      let never : none ≡ some hook_err = sym (before_retry-asked_of e w none same) ∙ answer in
      absurd (ground arith)
  before_retry-Refuses e w hook_err (some h) same answer =
      (h, same, sym (before_retry-asked_of e w (some h) same) ∙ answer)

-- What the deferred recover makes of a run that failed.
recovered-FailsWith :
    {W : Type 0} (p : Outcome × W) (e : Error) → (recovered p).0 ≡ some e → FailsWith p.0 e
recovered-FailsWith (returns o, w) e h = inl (ap returns h)
recovered-FailsWith (panics text, w) e h = inr (text, refl, ground arith)

recovered-none : {W : Type 0} (p : Outcome × W) → (recovered p).0 ≡ none → p.0 ≡ returns none
recovered-none (returns o, w) h = ap returns h
recovered-none (panics text, w) h = cc

recovered-world : {W : Type 0} (p : Outcome × W) → (recovered p).1 ≡ p.1
recovered-world (returns o, w) = refl
recovered-world (panics text, w) = refl

module _ {W : Type 0} (reg : Registry W) (job : JobRow) (now : Time) (w : W) where
  module _ (code : JobCode W) (decoded : decode_job reg job.kind job.payload ≡ ok code) where
    waits : Waits code job (retry_delay code job (compute_backoff job (job.attempt + 1)))
    waits = retry_delay-Waits code job code.retry_backoff refl

    module _ (e : Error) (ran : FailsWith (raw_run reg code w).0 e)
        (left : pos (job.attempt + 1) ≤ℤ effective_max job) (v : W)
        (same : v ≡ (raw_run reg code w).1) where
      asked :
          too_late code now (retry_delay code job (compute_backoff job (job.attempt + 1))) ≡ false
          → (p : Option Error × W) → p ≡ before_retry code job e v
          → Ended reg job now w
              (ask_hook e (retry_delay code job (compute_backoff job (job.attempt + 1))) p).0
      asked on_time (none, u) answer =
          again code e (effective_max job) _ decoded ran (effective_max-Limit job) left waits
            (too_late-InTime code job now _ code.retry_until refl on_time)
            (subst (λ x. Permits code job e x) same
              (before_retry-Permits code job e v code.before_retry refl
                (sym (ap (λ (q : Option Error × W). q.0) answer))))
      asked on_time (some hook_err, u) answer =
          refused code e hook_err (effective_max job) _ decoded ran (effective_max-Limit job) left
            waits (too_late-InTime code job now _ code.retry_until refl on_time)
            (subst (λ x. Refuses code job e x hook_err) same
              (before_retry-Refuses code job e v hook_err code.before_retry refl
                (sym (ap (λ (q : Option Error × W). q.0) answer))))

    tried :
        (e : Error) (v : W)
        → FailsWith (raw_run reg code w).0 e
        → v ≡ (raw_run reg code w).1
        → Ended reg job now w (failed_run code job now e (compute_next_state job (some e)) v).0
    unfolding compute_next_state
    tried e v ran same = elim (Bool-cases (ltb_ℤ (effective_max job) (pos (job.attempt + 1)))) [
      | inl over ↦ rw over (
          exhausted code e (effective_max job) decoded ran (effective_max-Limit job)
            (ltb_ℤ→< (effective_max job) (pos (job.attempt + 1)) over))
      | inr under ↦
          rw under
            (elim (Bool-cases
              (too_late code now (retry_delay code job (compute_backoff job (job.attempt + 1))))) [
                | inl late ↦ rw late (
                    expired code e (effective_max job) _ decoded ran (effective_max-Limit job)
                      (ltb_ℤ→≥ (effective_max job) (pos (job.attempt + 1)) under) waits
                      (too_late-Over code job now _ code.retry_until refl late))
                | inr on_time ↦ rw on_time (
                    asked e ran (ltb_ℤ→≥ (effective_max job) (pos (job.attempt + 1)) under) v same
                      on_time (before_retry code job e v) refl)
              ])
    ]

    ended :
        (o : Option Error)
        → o ≡ (recovered (raw_run reg code w)).0
        → Ended reg job now w (after_run code job now (o, (recovered (raw_run reg code w)).1)).0
    ended none same = done code decoded (recovered-none (raw_run reg code w) (sym same))
    ended (some e) same =
        tried e _ (recovered-FailsWith (raw_run reg code w) e (sym same))
          (recovered-world (raw_run reg code w))

  -- processJob ends a run in one of six ways, each given by its cause: the job cannot be decoded;
  -- its code returns no error; or it returns an error, or panics, which counts as the error with
  -- the text of the panic, and then the attempts are used up, or RetryUntil is not after the time
  -- of the next try, or the BeforeRetry hook refuses, or the job is to be tried again after its
  -- backoff. It is completed where there is no error, retryable with its error and its delay where
  -- it is tried again, and else failed, with its error, or the decoder's or the hook's.
  pub process_job_cases : Ended reg job now w (process_job reg job now w).0
  unfolding process_job run_job
  process_job_cases = go (decode_job reg job.kind job.payload) refl
    where
      decoded_run : Result (JobCode W) → ExecResult × W
      decoded_run (err e) = (fails_for (failure (text_append "decode error: " (error_text e))), w)
      decoded_run (ok code) = after_run code job now (run_job reg code w)

      go :
          (d : Result (JobCode W))
          → decode_job reg job.kind job.payload ≡ d
          → Ended reg job now w (decoded_run d).0
      go (err e) d = undecodable e d
      go (ok code) d = ended code d _ refl
