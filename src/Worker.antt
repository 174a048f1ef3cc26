-- ===== src/Worker.antt =====
-- The worker of pool.go: how one claimed job is decoded, run inside its middlewares, and reported to
-- the driver. A job's own code is a parameter: functions on a world that the driver shares.
pub mod Ends
pub mod Loop
pub mod Middlewares
pub mod Keeps
pub mod Sql
use tasker.Base.{
  ℕ, ◌+◌, Bool, false, not, String, Option, none, some, List, [], ◌∷◌, ◌++◌, pos, ltb_ℤ, ◌+ℤ◌,
  str_eq, if◌then◌else◌, text_append,
}
use tasker.Around.{around}
use tasker.Job.{
  State, completed, retryable, failed, same, Time, Duration, JobRow, Error, failure, error_text,
  BackoffConfig,
}
use tasker.Machine.{compute_next_state, compute_backoff_with_config}
use tasker.Sql.Statement.{Result, ok, err}

-- How a call of the job's code ends.
pub data Outcome : Type 0 where
  returns : Option Error → Outcome
  panics : String → Outcome

abbrev pub Run : Type 0 → Type 0
Run W = W → Outcome × W

abbrev pub JobMiddleware : Type 0 → Type 0
JobMiddleware W = Run W → Run W

-- A decoded job: Handle, and each optional interface that it implements.
pub record JobCode (W : Type 0) : Type 0 where
  pub handle : Run W
  pub before_handle : Option (Run W)
  pub after_handle : Option (Run W)
  pub middleware : Option (List (JobMiddleware W))
  pub retry_backoff : Option BackoffConfig
  pub retry_until : Option Time
  pub before_retry : Option (ℕ → Error → W → Option Error × W)
  pub on_failed : Option (Option Error → W → Option Error × W)

-- The maps of registry.go. A factory is what it makes, filled by json.Unmarshal.
pub record Registry (W : Type 0) : Type 0 where
  pub factories : List (String × (List ℕ → Result (JobCode W)))
  pub global_middlewares : List (JobMiddleware W)

-- The worker's calls of the driver that end a run.
pub record WorkerDriver (W : Type 0) : Type 0 where
  pub complete : ℕ → List ℕ → W → Result (Unit {0}) × W
  pub schedule_retry : ℕ → Option String → Time → W → Result (Unit {0}) × W
  pub fail : ℕ → Option String → W → Result (Unit {0}) × W

pub record ExecResult : Type 0 where
  pub state : State
  pub output : List ℕ
  pub error : Option Error
  pub backoff : Duration

abbrev pub prefixed : String → Error → Error
prefixed text e = failure (text_append text (error_text e))

abbrev pub failed_with : Error → ExecResult
failed_with e = record { state = failed; output = []; error = some e; backoff = pos 0 }

abbrev pub error_message : Option Error → Option String
error_message none = none
error_message (some e) = some (error_text e)

module _ {W : Type 0} where
  abbrev pub find_factory :
      String → List (String × (List ℕ → Result (JobCode W))) → Option (List ℕ → Result (JobCode W))
  find_factory kind [] = none
  find_factory kind ((k, f) ∷ fs) = if str_eq k kind then some f else find_factory kind fs

  abbrev put_factory :
      String
      → (List ℕ → Result (JobCode W))
      → List (String × (List ℕ → Result (JobCode W)))
      → List (String × (List ℕ → Result (JobCode W)))
  put_factory kind f [] = (kind, f) ∷ []
  put_factory kind f ((k, g) ∷ fs) =
      if str_eq k kind then (kind, f) ∷ fs else (k, g) ∷ put_factory kind f fs

  unfoldable pub register_job : String → (List ℕ → Result (JobCode W)) → Registry W → Registry W
  register_job kind f reg = record reg { factories = put_factory kind f reg.factories }

  unfoldable pub add_global_middleware : JobMiddleware W → Registry W → Registry W
  add_global_middleware mw reg = record reg {
    global_middlewares = reg.global_middlewares ++ mw ∷ [];
  }

  unfoldable pub decode_job : Registry W → String → List ℕ → Result (JobCode W)
  decode_job reg kind payload = elim (find_factory kind reg.factories) [
    | none ↦ err (failure (text_append "no job registered for kind: " kind))
    | some factory ↦ factory payload
  ]

  unfoldable pub collect_middlewares : Registry W → JobCode W → List (JobMiddleware W)
  collect_middlewares reg code = elim code.middleware [
    | none ↦ reg.global_middlewares
    | some own ↦ reg.global_middlewares ++ own
  ]

  -- On an error or a panic the rest is not run.
  abbrev pub and_run : Outcome × W → (Error → Error) → Run W → Outcome × W
  and_run (returns none, w) wrapped next = next w
  and_run (returns (some e), w) wrapped next = (returns (some (wrapped e)), w)
  and_run (panics p, w) wrapped next = (panics p, w)

  abbrev pub hook : Option (Run W) → String → Run W → Run W
  hook none text next w = next w
  hook (some h) text next w = and_run (h w) (prefixed text) next

  abbrev pub finish_run : Run W
  finish_run w = (returns none, w)

  -- The innermost function: the hooks around Handle.
  abbrev pub run_func : JobCode W → Run W
  run_func code = hook code.before_handle "before handle hook: " λ w.
      and_run (code.handle w) (λ e. e) (hook code.after_handle "after handle hook: " finish_run)

  -- The deferred recover; the stack that the text ends in is left out.
  abbrev pub recovered : Outcome × W → Option Error × W
  recovered (returns e, w) = (e, w)
  recovered (panics p, w) = (some (failure (text_append "panic: " p)), w)

  unfoldable pub run_job : Registry W → JobCode W → W → Option Error × W
  unfolding collect_middlewares
  run_job reg code w = recovered (around (collect_middlewares reg code) (run_func code) w)

  abbrev pub retry_delay : JobCode W → JobRow → Duration → Duration
  retry_delay code job delay = elim code.retry_backoff [
    | none ↦ delay
    | some cfg ↦ compute_backoff_with_config cfg (job.attempt + 1)
  ]

  -- !time.Now().Add(backoff).Before(until).
  abbrev pub too_late : JobCode W → Time → Duration → Bool
  too_late code now delay = elim code.retry_until [
    | none ↦ false
    | some until ↦ not (ltb_ℤ (now +ℤ delay) until)
  ]

  abbrev pub ask_hook : Error → Duration → Option Error × W → ExecResult × W
  ask_hook e delay (none, w) =
      (record { state = retryable; output = []; error = some e; backoff = delay }, w)
  ask_hook e delay (some hook_err, w) = (failed_with (prefixed "before retry hook: " hook_err), w)

  abbrev pub before_retry : JobCode W → JobRow → Error → W → Option Error × W
  before_retry code job e w = elim code.before_retry [
    | none ↦ (none, w)
    | some h ↦ h job.attempt e w
  ]

  abbrev pub try_again : JobCode W → JobRow → Time → Error → Duration → W → ExecResult × W
  try_again code job now e delay w =
      if too_late code now delay
      then (failed_with e, w)
      else ask_hook e delay (before_retry code job e w)

  abbrev pub failed_run : JobCode W → JobRow → Time → Error → State × Duration → W → ExecResult × W
  failed_run code job now e (next, delay) w =
      if same next retryable
      then try_again code job now e (retry_delay code job delay) w
      else (record { state = next; output = []; error = some e; backoff = delay }, w)

  -- What processJob makes of the run's error; `now` is read for RetryUntil.
  abbrev pub after_run : JobCode W → JobRow → Time → Option Error × W → ExecResult × W
  after_run code job now (none, w) =
      (record { state = completed; output = []; error = none; backoff = pos 0 }, w)
  after_run code job now (some e, w) = failed_run code job now e (compute_next_state job (some e)) w

  unfoldable pub process_job : Registry W → JobRow → Time → W → ExecResult × W
  unfolding decode_job run_job
  process_job reg job now w = elim (decode_job reg job.kind job.payload) [
    | err e ↦ (failed_with (prefixed "decode error: " e), w)
    | ok code ↦ after_run code job now (run_job reg code w)
  ]

  unfoldable pub call_failed_hook : Registry W → JobRow → Option Error → W → W
  unfolding decode_job
  call_failed_hook reg job e w = elim (decode_job reg job.kind job.payload) [
    | err decode_err ↦ w
    | ok code ↦ elim code.on_failed [ none ↦ w | some f ↦ (f e w).1 ]
  ]

  -- A driver's error is logged only. `retry_from` is read for the retry's time.
  unfoldable report : WorkerDriver W → Registry W → JobRow → Time → ExecResult × W → W
  unfolding call_failed_hook
  report driver reg job retry_from (res, w) = elim res.state [
    | completed ↦ (driver.complete job.id res.output w).1
    | retryable ↦
        (driver.schedule_retry job.id (error_message res.error) (retry_from +ℤ res.backoff) w).1
    | failed ↦ call_failed_hook reg job res.error (driver.fail job.id (error_message res.error) w).1
    | _ ↦ w
  ]

  unfoldable pub execute : WorkerDriver W → Registry W → JobRow → Time → Time → W → W
  unfolding process_job report
  execute driver reg job now retry_from w =
      report driver reg job retry_from (process_job reg job now w)

  -- One round of the worker's loop: a claim of one job, and its execution if there is one.
  unfoldable pub work_once :
      (W → Result (List JobRow) × W) → WorkerDriver W → Registry W → Time → Time → W → W
  unfolding execute
  work_once claim driver reg now retry_from w =
      let (claimed, w') = claim w in
      elim claimed [
        | err e ↦ w'
        | ok [] ↦ w'
        | ok (job ∷ jobs) ↦ execute driver reg job now retry_from w'
      ]
