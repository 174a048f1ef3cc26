-- ===== src/Redis/Finish.antt =====
-- Complete, Fail and ScheduleRetry of driver/redisdriver/driver.go. `failed_jobs` has no
-- counterpart here: a failed job stays in the hash "jobs" only.
use tasker.Base.{ℕ, Option, none, some, List, [], ◌∷◌, ◌++◌, if◌then◌else◌}
use tasker.Job.{
  State, running, completed, retryable, failed, Time, JobRow, AttemptError, Error, error_text,
  job_not_found,
}
use tasker.Sql.Store.{state_in}
use tasker.Sql.Statement.{ok, err}
use tasker.Redis.Store.{
  Store, find_row, store_row, due_add, due_remove, running_remove, unix_micros, Sent, Answer, send,
}

-- The scripts give 0 or 1; 0 becomes ErrJobNotFound.
abbrev pub not_found : Store → Answer (Unit {0})
not_found s = (err job_not_found, s)

-- A script's beginning: HGET, and the test of the state.
abbrev pub on_row :
    List State → (JobRow → Store → Store) → Store → Option JobRow → Answer (Unit {0})
on_row states f s none = not_found s
on_row states f s (some r) = if state_in states r then (ok tt, f r s) else not_found s

abbrev pub with_row : ℕ → List State → (JobRow → Store → Store) → Store → Answer (Unit {0})
with_row id states f s = on_row states f s (find_row id s)

abbrev pub completed_row : List ℕ → Time → JobRow → JobRow
completed_row output now r = record r {
  state = completed;
  output = output;
  completed_at = some now;
  finalized_at = some now;
}

abbrev pub finish_step : ℕ → List ℕ → Time → JobRow → Store → Store
finish_step id output now r s = running_remove id (store_row (completed_row output now r) s)

unfoldable pub complete : Sent → ℕ → List ℕ → Time → Store → Answer (Unit {0})
complete sent id output now s = send sent (with_row id (running ∷ []) (finish_step id output now)) s

-- json.Marshal of the AttemptError, and `failure.attempt` of the script; its stack is "".
abbrev pub push_error : Error → Time → JobRow → List AttemptError
push_error e now r =
    r.errors
    ++ record { attempt = r.attempt; message = error_text e; timestamp = now; stack = "" } ∷ []

abbrev pub failed_row : Error → Time → JobRow → JobRow
failed_row e now r = record r {
  state = failed;
  errors = push_error e now r;
  completed_at = some now;
  finalized_at = some now;
}

abbrev pub fail_step : ℕ → Error → Time → JobRow → Store → Store
fail_step id e now r s =
    due_remove r.queue id (running_remove id (store_row (failed_row e now r) s))

-- A nil error is replaced.
abbrev pub or_job_failed : Option Error → Error
or_job_failed none = Error.failure "job failed"
or_job_failed (some e) = e

unfoldable pub fail : Sent → ℕ → Option Error → Time → Store → Answer (Unit {0})
fail sent id job_err now s =
    send sent (with_row id (running ∷ retryable ∷ []) (fail_step id (or_job_failed job_err) now)) s

abbrev pub retryable_row : Error → Time → Time → JobRow → JobRow
retryable_row e now scheduled_at r = record r {
  state = retryable;
  scheduled_at = scheduled_at;
  node_id = "";
  attempted_at = none;
  started_at = none;
  completed_at = none;
  finalized_at = none;
  output = [];
  errors = push_error e now r;
}

abbrev pub schedule_step : ℕ → Error → Time → Time → JobRow → Store → Store
schedule_step id e now scheduled_at r s =
    due_add r.queue (unix_micros scheduled_at) id
      (running_remove id (store_row (retryable_row e now scheduled_at r) s))

unfoldable pub schedule_retry : Sent → ℕ → Option Error → Time → Time → Store → Answer (Unit {0})
schedule_retry sent id job_err now scheduled_at s =
    send sent
      (with_row id (running ∷ []) (schedule_step id (or_job_failed job_err) now scheduled_at)) s
