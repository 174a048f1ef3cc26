-- ===== src/Sql/Admin.antt =====
-- Retry, Cancel, their batches, RequeueStale and Prune of driver/sqldriver/driver.go.
use tasker.Base.{ℕ, Bool, false, ◌&&◌, none, some, List, [], ◌∷◌, ltb_ℤ, ◌-ℤ◌, count}
use tasker.Job.{
  State, pending, scheduled, available, running, completed, retryable, failed, cancelled, Time,
  Duration, JobRow,
}
use tasker.Sql.Store.{Db, id_and_state, state_in, delete_where}
use tasker.Sql.Statement.{
  Result, ok, M, ◌>>=◌, ◌>>◌, pure, statement, control, transaction, update_jobs, affected,
  get_by_id,
}

abbrev pub retry_states : List State
retry_states = failed ∷ completed ∷ cancelled ∷ retryable ∷ []

abbrev pub cancel_states : List State
cancel_states = available ∷ pending ∷ scheduled ∷ retryable ∷ []

abbrev pub retry_row : Time → JobRow → JobRow
retry_row now r = record r {
  state = available;
  scheduled_at = now;
  node_id = "";
  attempt = 0;
  errors = [];
  attempted_by = [];
  attempted_at = none;
  started_at = none;
  completed_at = none;
  finalized_at = none;
  output = [];
}

unfoldable pub retry : ℕ → Time → M JobRow
retry id now = do
  n ← statement (update_jobs (id_and_state id retry_states) (retry_row now))
  affected n
  get_by_id id

-- The loop of a batch over its prepared statement; rows affected are not looked at.
-- Each id comes with the time that is read in its round.
unfoldable pub for_each : (ℕ → Time → Db → Result ℕ × Db) → List (ℕ × Time) → M (Unit {0})
for_each f [] = pure tt
for_each f ((id, now) ∷ ids) = do n ← statement (f id now); for_each f ids

-- `control` stands for the prepare.
unfoldable pub retry_batch : List (ℕ × Time) → M (Unit {0})
unfolding for_each
retry_batch ids =
    transaction do
      control
      for_each (λ id now. update_jobs (id_and_state id retry_states) (retry_row now)) ids

abbrev pub cancel_row : Time → JobRow → JobRow
cancel_row now r = record r { state = cancelled; finalized_at = some now; node_id = "" }

unfoldable pub cancel : ℕ → Time → M JobRow
cancel id now = do
  n ← statement (update_jobs (id_and_state id cancel_states) (cancel_row now))
  affected n
  get_by_id id

unfoldable pub cancel_batch : List (ℕ × Time) → M (Unit {0})
unfolding for_each
cancel_batch ids = transaction do
  control
  for_each (λ id now. update_jobs (id_and_state id cancel_states) (cancel_row now)) ids

-- COALESCE(attempted_at, started_at) < cutoff; of NULL it is not true.
abbrev pub started_before : Time → JobRow → Bool
started_before cutoff r = elim r.attempted_at [
  | some t ↦ ltb_ℤ t cutoff
  | none ↦ elim r.started_at [ some t ↦ ltb_ℤ t cutoff | none ↦ false ]
]

abbrev pub is_stale : Time → JobRow → Bool
is_stale cutoff r = state_in (running ∷ []) r && started_before cutoff r

abbrev pub requeue_row : Time → JobRow → JobRow
requeue_row now r = record r {
  state = available;
  node_id = "";
  scheduled_at = now;
  attempted_at = none;
  started_at = none;
}

unfoldable pub requeue_stale : Duration → Time → M ℕ
requeue_stale timeout now = statement (update_jobs (is_stale (now -ℤ timeout)) (requeue_row now))

abbrev pub prunable : Time → List State → JobRow → Bool
prunable before states r = ltb_ℤ r.created_at before && state_in states r

delete_jobs : (JobRow → Bool) → Db → Result ℕ × Db
delete_jobs test d = (ok (count test d.jobs), record d { jobs = delete_where test d.jobs })

unfoldable pub prune : Time → List State → M ℕ
unfolding delete_jobs
prune before [] = pure 0
prune before (s ∷ states) = statement (delete_jobs (prunable before (s ∷ states)))
