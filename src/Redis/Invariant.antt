-- ===== src/Redis/Invariant.antt =====
-- Any calls of the Redis driver, one after the other, with any of them failing.
use tasker.Base.{
  ℕ, false, Option, List, [], ◌∷◌, String, ◌≡◌, ℤ, pos, leb_ℤ, pos_part, Bool-cases, inl, inr, All,
  subst, sym, refl,
}
use tasker.Job.{State, JobRow, Error, Time, Duration}
use tasker.Sql.Statement.{Result, ok, err}
use tasker.Redis.Store.{Store, empty_store, Sent, Answer}
use tasker.Redis.Enqueue.{enqueue_batch}
use tasker.Redis.Claim.{claim, claim_script, decoded, found}
use tasker.Redis.Finish.{complete, fail, schedule_retry}
use tasker.Redis.Admin.{retry_batch, cancel_batch, requeue_stale, prune}
use tasker.Redis.Linked.{Consistent, is_running, empty-Consistent}
use tasker.Redis.Steps.Add.{enqueue_batch-Consistent}
use tasker.Redis.Steps.Take.{claim_script-Consistent}
use tasker.Redis.Steps.Finish.{
  send-Consistent, complete-Consistent, fail-Consistent, schedule_retry-Consistent,
}
use tasker.Redis.Steps.Batch.{retry_batch-Consistent, cancel_batch-Consistent}
use tasker.Redis.Steps.Sweep.{requeue_stale-Consistent, prune-Consistent}

-- The calls of the driver that change jobs. Enqueue, Retry and Cancel are their batches with one
-- job, and a reading.
pub data Call : Type 0 where
  enqueue_jobs : List (Option JobRow) → Call
  claim_jobs : String → String → Time → ℤ → Call
  complete_job : ℕ → List ℕ → Time → Call
  fail_job : ℕ → Option Error → Time → Call
  retry_later : ℕ → Option Error → Time → Time → Call
  retry_jobs cancel_jobs : List ℕ → Time → Call
  requeue : Duration → Time → Call
  prune_jobs : Time → List State → Call

module _ (decode : JobRow → Result JobRow) where
  abbrev pub call : Sent → Call → Store → Store
  call sent (enqueue_jobs jobs) s = (enqueue_batch sent jobs s).1
  call sent (claim_jobs queue node now max) s = (claim decode sent queue node now max s).1
  call sent (complete_job id output now) s = (complete sent id output now s).1
  call sent (fail_job id e now) s = (fail sent id e now s).1
  call sent (retry_later id e now at) s = (schedule_retry sent id e now at s).1
  call sent (retry_jobs ids now) s = (retry_batch sent ids now s).1
  call sent (cancel_jobs ids now) s = (cancel_batch sent ids now s).1
  call sent (requeue timeout now) s = (requeue_stale sent timeout now s).1
  call sent (prune_jobs before states) s = (prune sent before states s).1

  abbrev pub run : List (Sent × Call) → Store → Store
  run [] s = s
  run ((sent, c) ∷ calls) s = run calls (call sent c s)

-- The rows that are enqueued do not run.
abbrev pub NewIdle : Sent × Call → Type 0
NewIdle (sent, enqueue_jobs jobs) = All (λ o. is_running o ≡ false) jobs
NewIdle (sent, claim_jobs queue node now max) = Unit
NewIdle (sent, complete_job id output now) = Unit
NewIdle (sent, fail_job id e now) = Unit
NewIdle (sent, retry_later id e now at) = Unit
NewIdle (sent, retry_jobs ids now) = Unit
NewIdle (sent, cancel_jobs ids now) = Unit
NewIdle (sent, requeue timeout now) = Unit
NewIdle (sent, prune_jobs before states) = Unit

module _ (decode : JobRow → Result JobRow) where
  decoded-store : (a : Answer (List JobRow)) → (decoded decode a).1 ≡ a.1
  decoded-store (ok rows, s) = refl
  decoded-store (err e, s) = refl

  claim-Consistent :
      (sent : Sent) (queue node : String) (now : Time) (max : ℤ) (s : Store)
      → Consistent s
      → Consistent (claim decode sent queue node now max s).1
  unfolding claim
  claim-Consistent sent queue node now max s h = elim (Bool-cases (leb_ℤ max (pos 0))) [
    | inl none_wanted ↦ rw none_wanted h
    | inr some_wanted ↦ rw some_wanted (
        subst Consistent (sym (decoded-store _)) (
          send-Consistent sent (λ t. found (claim_script queue node now (pos_part max) t)) s
            (claim_script-Consistent queue node now (pos_part max) s h) h))
  ]

  call-Consistent :
      (sent : Sent) (c : Call) (s : Store)
      → NewIdle (sent, c)
      → Consistent s
      → Consistent (call decode sent c s)
  call-Consistent sent (enqueue_jobs jobs) s idle h = enqueue_batch-Consistent sent jobs s idle h
  call-Consistent sent (claim_jobs queue node now max) s idle h =
      claim-Consistent sent queue node now max s h
  call-Consistent sent (complete_job id output now) s idle h =
      complete-Consistent sent id output now s h
  call-Consistent sent (fail_job id e now) s idle h = fail-Consistent sent id e now s h
  call-Consistent sent (retry_later id e now at) s idle h =
      schedule_retry-Consistent sent id e now at s h
  call-Consistent sent (retry_jobs ids now) s idle h = retry_batch-Consistent sent ids now s h
  call-Consistent sent (cancel_jobs ids now) s idle h = cancel_batch-Consistent sent ids now s h
  call-Consistent sent (requeue timeout now) s idle h =
      requeue_stale-Consistent sent timeout now s h
  call-Consistent sent (prune_jobs before states) s idle h = prune-Consistent sent before states s h

  run-from :
      (calls : List (Sent × Call)) (s : Store)
      → All NewIdle calls
      → Consistent s
      → Consistent (run decode calls s)
  run-from [] s idle h = h
  run-from ((sent, c) ∷ calls) s idle h =
      run-from calls (call decode sent c s) idle.1 (call-Consistent sent c s idle.0 h)

  -- From the empty store, any calls of the Redis driver that change jobs, each one answered, not
  -- run, or run with its reply lost, where no row is enqueued as running, leave a consistent store:
  -- every id that is due is that of a job that waits in that queue, every job that waits with
  -- attempts left is due, "job:running" holds exactly the ids of the running jobs, "job:ids" and
  -- "job:created" exactly those of all jobs, "job:uuids" gives each job's id for its uuid and gives
  -- none that is not so, and no id is above the counter.
  pub run-Consistent :
      (calls : List (Sent × Call)) → All NewIdle calls → Consistent (run decode calls empty_store)
  run-Consistent calls idle = run-from calls empty_store idle empty-Consistent
