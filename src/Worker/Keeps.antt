-- ===== src/Worker/Keeps.antt =====
-- A condition on the world that a worker's round keeps, and the validity of the jobs table as one.
use tasker.Base.{
  ◌≡◌, refl, sym, subst, Option, none, some, List, [], ◌∷◌, ◌++◌, All, All-append, ℕ, Bool, true,
  false, String, if◌then◌else◌, ◌+ℤ◌,
}
use tasker.Around.{around, around-outermost}
use tasker.Job.{
  same, pending, scheduled, available, running, completed, retryable, failed, cancelled, other,
  State, Time, JobRow, Error, Duration,
}
use tasker.Machine.{compute_next_state}
use tasker.Sql.Statement.{Result, ok, err}
use tasker.Worker.{
  Outcome, returns, panics, Run, JobMiddleware, JobCode, Registry, WorkerDriver, ExecResult,
  decode_job, collect_middlewares, and_run, hook, run_func, recovered, run_job, process_job,
  execute, report, work_once, after_run, failed_run, try_again, ask_hook, before_retry,
  call_failed_hook, finish_run, failed_with, error_message, prefixed, too_late, retry_delay,
}

module _ {W : Type 0} (I : W → Type 0) where
  abbrev pub RunKeeps : Run W → Type 0
  RunKeeps run = (w : W) → I w → I (run w).1

  abbrev pub OptionKeeps : Option (Run W) → Type 0
  OptionKeeps none = Unit
  OptionKeeps (some run) = RunKeeps run

  abbrev pub MiddlewareKeeps : JobMiddleware W → Type 0
  MiddlewareKeeps mw = (next : Run W) → RunKeeps next → RunKeeps (mw next)

  abbrev own_middlewares : Option (List (JobMiddleware W)) → List (JobMiddleware W)
  own_middlewares none = []
  own_middlewares (some mws) = mws

  -- Whatever a job's code does, it keeps the condition.
  pub record CodeKeeps (code : JobCode W) : Type 0 where
    pub handle : RunKeeps code.handle
    pub before_handle : OptionKeeps code.before_handle
    pub after_handle : OptionKeeps code.after_handle
    pub middleware : All MiddlewareKeeps (own_middlewares code.middleware)
    pub asked : (job : JobRow) (e : Error) (w : W) → I w → I (before_retry code job e w).1
    pub on_failed :
        (f : Option Error → W → Option Error × W)
        → code.on_failed ≡ some f
        → (e : Option Error) (w : W) → I w
        → I (f e w).1

  around-Keeps :
      (mws : List (JobMiddleware W)) (run : Run W)
      → All MiddlewareKeeps mws
      → RunKeeps run
      → RunKeeps (around mws run)
  unfolding around
  around-Keeps [] run keep h = h
  around-Keeps (mw ∷ mws) run keep h =
      subst RunKeeps (sym (around-outermost mw mws run)) (keep.0 _ (around-Keeps mws run keep.1 h))

  and_run-Keeps :
      (p : Outcome × W) (wrapped : Error → Error) (next : Run W)
      → I p.1
      → RunKeeps next
      → I (and_run p wrapped next).1
  and_run-Keeps (returns none, w) wrapped next i h = h w i
  and_run-Keeps (returns (some e), w) wrapped next i h = i
  and_run-Keeps (panics p, w) wrapped next i h = i

  hook-Keeps :
      (o : Option (Run W)) (text : _) (next : Run W)
      → OptionKeeps o
      → RunKeeps next
      → RunKeeps (hook o text next)
  hook-Keeps none text next k h w i = h w i
  hook-Keeps (some run) text next k h w i = and_run-Keeps (run w) _ next (k w i) h

  run_func-Keeps : (code : JobCode W) → CodeKeeps code → RunKeeps (run_func code)
  run_func-Keeps code k = hook-Keeps code.before_handle _ _ k.before_handle (λ w i.
      and_run-Keeps (code.handle w) _ _ (k.handle w i)
        (hook-Keeps code.after_handle _ finish_run k.after_handle (λ v j. j)))

  recovered-Keeps : (p : Outcome × W) → I p.1 → I (recovered p).1
  recovered-Keeps (returns e, w) i = i
  recovered-Keeps (panics p, w) i = i

  pub record RegistryKeeps (reg : Registry W) : Type 0 where
    pub decoded :
        (kind : String) (payload : List ℕ) (code : JobCode W)
        → decode_job reg kind payload ≡ ok code
        → CodeKeeps code
    pub global : All MiddlewareKeeps reg.global_middlewares

  -- The driver's calls keep the condition.
  pub record DriverKeeps (driver : WorkerDriver W) : Type 0 where
    pub completing : (id : ℕ) (output : List ℕ) (w : W) → I w → I (driver.complete id output w).1
    pub retrying :
        (id : ℕ) (e : Option String) (at : Time) (w : W)
        → I w
        → I (driver.schedule_retry id e at w).1
    pub failing : (id : ℕ) (e : Option String) (w : W) → I w → I (driver.fail id e w).1

  module _ (reg : Registry W) (all_keep : RegistryKeeps reg) (job : JobRow) where
    collect-Keeps :
        (code : JobCode W) → CodeKeeps code → All MiddlewareKeeps (collect_middlewares reg code)
    unfolding collect_middlewares
    collect-Keeps code k = go code.middleware k.middleware
      where
        go :
            (o : Option (List (JobMiddleware W)))
            → All MiddlewareKeeps (own_middlewares o)
            → All MiddlewareKeeps (elim o [
              | none ↦ reg.global_middlewares
              | some own ↦ reg.global_middlewares ++ own
            ])
        go none h = all_keep.global
        go (some own) h = All-append MiddlewareKeeps reg.global_middlewares own all_keep.global h

    run_job-Keeps : (code : JobCode W) → CodeKeeps code → (w : W) → I w → I (run_job reg code w).1
    unfolding run_job
    run_job-Keeps code k w i = recovered-Keeps _ (
        around-Keeps (collect_middlewares reg code) (run_func code) (collect-Keeps code k)
          (run_func-Keeps code k) w i)

    ask_hook-Keeps :
        (e : Error) (delay : Duration) (p : Option Error × W) → I p.1 → I (ask_hook e delay p).1
    ask_hook-Keeps e delay (none, w) i = i
    ask_hook-Keeps e delay (some h, w) i = i

    choice-Keeps : (b : Bool) (p q : ExecResult × W) → I p.1 → I q.1 → I (if b then p else q).1
    choice-Keeps true p q i j = i
    choice-Keeps false p q i j = j

    try_again-Keeps :
        (code : JobCode W) (now : Time) (e : Error) (delay : Duration) (w : W)
        → CodeKeeps code
        → I w
        → I (try_again code job now e delay w).1
    try_again-Keeps code now e delay w k i =
        choice-Keeps (too_late code now delay) (failed_with e, w)
          (ask_hook e delay (before_retry code job e w)) i
          (ask_hook-Keeps e delay (before_retry code job e w) (k.asked job e w i))

    failed_run-Keeps :
        (code : JobCode W) (now : Time) (e : Error) (p : State × Duration) (w : W)
        → CodeKeeps code
        → I w
        → I (failed_run code job now e p w).1
    failed_run-Keeps code now e (next, delay) w k i =
        choice-Keeps (same next retryable) (try_again code job now e (retry_delay code job delay) w)
          (record { state = next; output = []; error = some e; backoff = delay }, w)
          (try_again-Keeps code now e (retry_delay code job delay) w k i) i

    after_run-Keeps :
        (code : JobCode W) (now : Time) (p : Option Error × W)
        → CodeKeeps code
        → I p.1
        → I (after_run code job now p).1
    after_run-Keeps code now (none, w) k i = i
    after_run-Keeps code now (some e, w) k i =
        failed_run-Keeps code now e (compute_next_state job (some e)) w k i

    process_job-Keeps : (now : Time) (w : W) → I w → I (process_job reg job now w).1
    unfolding process_job
    process_job-Keeps now w i = go (decode_job reg job.kind job.payload) refl
      where
        ran : Result (JobCode W) → ExecResult × W
        ran (err e) = (failed_with (prefixed "decode error: " e), w)
        ran (ok code) = after_run code job now (run_job reg code w)

        go : (d : Result (JobCode W)) → decode_job reg job.kind job.payload ≡ d → I (ran d).1
        go (err e) d = i
        go (ok code) d =
            let k = all_keep.decoded job.kind job.payload code d in
            after_run-Keeps code now (run_job reg code w) k (run_job-Keeps code k w i)

    call_failed_hook-Keeps : (e : Option Error) (w : W) → I w → I (call_failed_hook reg job e w)
    unfolding call_failed_hook
    call_failed_hook-Keeps e w i = go (decode_job reg job.kind job.payload) refl
      where
        called : Option (Option Error → W → Option Error × W) → W
        called none = w
        called (some f) = (f e w).1

        ran : Result (JobCode W) → W
        ran (err x) = w
        ran (ok code) = called code.on_failed

        told :
            (code : JobCode W) (o : Option (Option Error → W → Option Error × W))
            → code.on_failed ≡ o
            → CodeKeeps code
            → I (called o)
        told code none same k = i
        told code (some f) same k = k.on_failed f same e w i

        go : (d : Result (JobCode W)) → decode_job reg job.kind job.payload ≡ d → I (ran d)
        go (err x) d = i
        go (ok code) d =
            told code code.on_failed refl (all_keep.decoded job.kind job.payload code d)

    report-Keeps :
        (driver : WorkerDriver W)
        → DriverKeeps driver
        → (retry_from : Time) (p : ExecResult × W) → I p.1
        → I (report driver reg job retry_from p)
    unfolding report
    report-Keeps driver d retry_from (res, w) i = go res.state
      where
        at : State → W
        at completed = (driver.complete job.id res.output w).1
        at retryable =
            (driver.schedule_retry job.id (error_message res.error) (retry_from +ℤ res.backoff) w).1
        at failed =
            call_failed_hook reg job res.error (driver.fail job.id (error_message res.error) w).1
        at _ = w

        go : (s : State) → I (at s)
        go completed = d.completing job.id res.output w i
        go retryable = d.retrying job.id (error_message res.error) (retry_from +ℤ res.backoff) w i
        go failed =
            call_failed_hook-Keeps res.error _ (d.failing job.id (error_message res.error) w i)
        go pending = i
        go scheduled = i
        go available = i
        go running = i
        go cancelled = i
        go (other text) = i

  pub work_once-Keeps :
      (take_jobs : W → Result (List JobRow) × W) (driver : WorkerDriver W) (reg : Registry W)
      (now retry_from : Time) (w : W)
      → ((v : W) → I v → I (take_jobs v).1)
      → DriverKeeps driver
      → RegistryKeeps reg
      → I w
      → I (work_once take_jobs driver reg now retry_from w)
  unfolding work_once execute
  work_once-Keeps take_jobs driver reg now retry_from w taking d k i = go (take_jobs w).0
    where
      v : W
      v = (take_jobs w).1

      after : Result (List JobRow) → W
      after (err e) = v
      after (ok []) = v
      after (ok (job ∷ jobs)) = execute driver reg job now retry_from v

      go : (r : Result (List JobRow)) → I (after r)
      go (err e) = taking w i
      go (ok []) = taking w i
      go (ok (job ∷ jobs)) =
          report-Keeps reg k job driver d retry_from (process_job reg job now v)
            (process_job-Keeps reg k job now v (taking w i))
