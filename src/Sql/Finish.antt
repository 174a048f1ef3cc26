-- ===== src/Sql/Finish.antt =====
-- How a run ends: Complete, Fail and ScheduleRetry of driver/sqldriver/driver.go.
use tasker.Base.{ℕ, Option, none, some, List, [], ◌∷◌, ◌++◌, String, map, ◌==◌, select}
use tasker.Job.{running, retryable, completed, failed, Time, AttemptError, JobRow}
use tasker.Sql.Store.{Db, FailedJob, id_and_state}
use tasker.Sql.Statement.{
  Result, ok, M, ◌>>=◌, ◌>>◌, statement, transaction, update_jobs, read_job, affected,
}

abbrev pub complete_row : List ℕ → Time → JobRow → JobRow
complete_row output now r = record r {
  state = completed;
  output = output;
  completed_at = some now;
  finalized_at = some now;
  node_id = "";
}

unfoldable pub complete : ℕ → List ℕ → Time → M (Unit {0})
complete id output now = do
  n ← statement (update_jobs (id_and_state id (running ∷ [])) (complete_row output now))
  affected n

-- fmt.Sprint of an error, which may be nil.
abbrev pub sprint : Option String → String
sprint none = "<nil>"
sprint (some message) = message

abbrev pub add_error : JobRow → String → Time → List AttemptError
add_error r message now =
    r.errors ++ record { attempt = r.attempt; message = message; timestamp = now; stack = "" } ∷ []

abbrev pub fail_row : List AttemptError → Time → JobRow → JobRow
fail_row errors now r = record r {
  state = failed;
  errors = errors;
  finalized_at = some now;
  completed_at = some now;
  node_id = "";
}

abbrev pub failed_job : JobRow → FailedJob
failed_job r = record {
  uuid = r.uuid;
  queue = r.queue;
  kind = r.kind;
  payload = r.payload;
  attempt = r.attempt;
  max_attempts = r.max_attempts;
  errors = r.errors;
  tags = r.tags;
}

-- insertFailedJobTx: INSERT … SELECT … WHERE id = ….
abbrev pub insert_failed_job : ℕ → Db → Result (Unit {0}) × Db
insert_failed_job id d = (
  ok tt,
  record d { failed_jobs = d.failed_jobs ++ map failed_job (select (λ r. r.id == id) d.jobs) },
)

-- `at` is the time read for the error's entry, `now` that of the update.
unfoldable pub fail : ℕ → Option String → Time → Time → M (Unit {0})
fail id job_err at now = transaction do
  job ← statement (read_job (id_and_state id (running ∷ retryable ∷ [])))
  n ← statement (
      update_jobs (id_and_state id (running ∷ retryable ∷ []))
        (fail_row (add_error job (sprint job_err) at) now))
  affected n
  statement (insert_failed_job id)

abbrev pub retry_later_row : List AttemptError → Time → JobRow → JobRow
retry_later_row errors scheduled_at r = record r {
  state = retryable;
  errors = errors;
  scheduled_at = scheduled_at;
  node_id = "";
  attempted_at = none;
  started_at = none;
  completed_at = none;
  finalized_at = none;
  output = [];
}

abbrev pub or_failed : Option String → String
or_failed none = "job failed"
or_failed (some message) = message

unfoldable pub schedule_retry : ℕ → Option String → Time → Time → M (Unit {0})
schedule_retry id job_err scheduled_at now = transaction do
  job ← statement (read_job (id_and_state id (running ∷ [])))
  n ← statement (
      update_jobs (id_and_state id (running ∷ []))
        (retry_later_row (add_error job (or_failed job_err) now) scheduled_at))
  affected n
