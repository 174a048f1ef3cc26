-- ===== src/Redis/Admin.antt =====
-- Retry, Cancel, their batches, GetByID, RequeueStale and Prune of driver/redisdriver/driver.go.
use tasker.Base.{
  ℕ, ◌+◌, Option, none, some, List, [], ◌∷◌, if◌then◌else◌, ℤ, ltb_ℤ, ◌-ℤ◌, select, del_key,
}
use tasker.Job.{
  State, pending, scheduled, available, running, completed, retryable, failed, cancelled, Time,
  Duration, JobRow, job_not_found, invalid_transition,
}
use tasker.Sql.Store.{state_in}
use tasker.Sql.Statement.{Result, ok, err}
use tasker.Redis.Store.{
  Store, Zset, zrem, row_id, change, find_row, store_row, due_add, due_remove, running_remove,
  unix_micros, Sent, Answer, send,
}
use tasker.Redis.Claim.{up_to}

abbrev pub retry_allowed : List State
retry_allowed = failed ∷ completed ∷ cancelled ∷ retryable ∷ []

abbrev pub cancel_allowed : List State
cancel_allowed = available ∷ pending ∷ scheduled ∷ retryable ∷ []

abbrev pub collect_one : List State → Option JobRow → Result (List JobRow) → Result (List JobRow)
collect_one allowed none rest = err job_not_found
collect_one allowed (some r) (ok rows) =
    if state_in allowed r then ok (r ∷ rows) else err invalid_transition
collect_one allowed (some r) (err e) = if state_in allowed r then err e else err invalid_transition

-- The first loop of the two scripts reads every job before one is written.
unfoldable pub collect : List State → Store → List ℕ → Result (List JobRow)
collect allowed s [] = ok []
collect allowed s (id ∷ ids) = collect_one allowed (find_row id s) (collect allowed s ids)

-- The second loop.
abbrev pub write_all : (JobRow → Store → Store) → List JobRow → Store → Store
write_all f [] s = s
write_all f (r ∷ rs) s = write_all f rs (f r s)

abbrev pub write_if : (JobRow → Store → Store) → Store → Result (List JobRow) → Answer (Unit {0})
write_if f s (ok rows) = (ok tt, write_all f rows s)
write_if f s (err e) = (err e, s)

abbrev pub batch_script : List State → (JobRow → Store → Store) → List ℕ → Store → Answer (Unit {0})
batch_script allowed f ids s = write_if f s (collect allowed s ids)

-- `attempted_by` is kept.
abbrev pub retried_row : Time → JobRow → JobRow
retried_row now r = record r {
  state = available;
  scheduled_at = now;
  node_id = "";
  attempt = 0;
  errors = [];
  started_at = none;
  attempted_at = none;
  completed_at = none;
  finalized_at = none;
  output = [];
}

abbrev pub retry_step : Time → JobRow → Store → Store
retry_step now r s =
    running_remove r.id (due_add r.queue (unix_micros now) r.id (store_row (retried_row now r) s))

unfoldable pub retry_batch : Sent → List ℕ → Time → Store → Answer (Unit {0})
unfolding collect
retry_batch sent [] now s = (ok tt, s)
retry_batch sent (id ∷ ids) now s =
    send sent (batch_script retry_allowed (retry_step now) (id ∷ ids)) s

abbrev pub cancelled_row : Time → JobRow → JobRow
cancelled_row now r = record r { state = cancelled; finalized_at = some now }

abbrev pub cancel_step : Time → JobRow → Store → Store
cancel_step now r s = due_remove r.queue r.id (store_row (cancelled_row now r) s)

unfoldable pub cancel_batch : Sent → List ℕ → Time → Store → Answer (Unit {0})
unfolding collect
cancel_batch sent [] now s = (ok tt, s)
cancel_batch sent (id ∷ ids) now s =
    send sent (batch_script cancel_allowed (cancel_step now) (id ∷ ids)) s

-- `decode` is json.Unmarshal of a document into a row.
module _ (decode : JobRow → Result JobRow) where
  abbrev pub read_row : Option JobRow → Result JobRow
  read_row none = err job_not_found
  read_row (some r) = decode r

  unfoldable pub get_by_id : Sent → ℕ → Store → Answer JobRow
  get_by_id sent id s = send sent (λ t. (read_row (find_row id t), t)) s

  abbrev pub then_get : Sent → ℕ → Answer (Unit {0}) → Answer JobRow
  then_get sent id (err e, s) = (err e, s)
  then_get sent id (ok u, s) = get_by_id sent id s

  unfoldable pub retry : Sent → Sent → ℕ → Time → Store → Answer JobRow
  unfolding retry_batch get_by_id
  retry sent sent' id now s = then_get sent' id (retry_batch sent (id ∷ []) now s)

  unfoldable pub cancel : Sent → Sent → ℕ → Time → Store → Answer JobRow
  unfolding cancel_batch get_by_id
  cancel sent sent' id now s = then_get sent' id (cancel_batch sent (id ∷ []) now s)

-- `attempted_at` and `started_at` are kept.
abbrev pub stale_row : Time → JobRow → JobRow
stale_row now r = record r { state = available; node_id = ""; scheduled_at = now }

abbrev pub requeue_one : Time → ℕ → Option JobRow → Store → ℕ × Store
requeue_one now id none s = (0, running_remove id s)
requeue_one now id (some r) s =
    if state_in (running ∷ []) r
    then (
      1,
      running_remove id (due_add r.queue (unix_micros now) id (store_row (stale_row now r) s)),
    )
    else (0, running_remove id s)

-- A loop over ids that counts the jobs it has changed.
abbrev pub count_over : (ℕ → Store → ℕ × Store) → Zset → Store → ℕ × Store
count_over f [] s = (0, s)
count_over f ((id, score) ∷ z) s =
    let (n, s1) = f id s in let (m, s2) = count_over f z s1 in (n + m, s2)

unfoldable pub stale_script : Time → Time → Store → ℕ × Store
stale_script cutoff now s =
    count_over (λ id t. requeue_one now id (find_row id t) t) (up_to (unix_micros cutoff) s.running)
      s

abbrev pub counted : ℕ × Store → Answer ℕ
counted (n, s) = (ok n, s)

unfoldable pub requeue_stale : Sent → Duration → Time → Store → Answer ℕ
unfolding stale_script
requeue_stale sent timeout now s = send sent (λ t. counted (stale_script (now -ℤ timeout) now t)) s

abbrev pub delete_row : ℕ → JobRow → Store → Store
delete_row id r s = record s {
  jobs = del_key row_id id s.jobs;
  uuids = change r.uuid none s.uuids;
  ids = zrem id s.ids;
  created = zrem id s.created;
  running = zrem id s.running;
  due = change r.queue (zrem id (s.due r.queue)) s.due;
}

abbrev pub prune_one : List State → ℕ → Option JobRow → Store → ℕ × Store
prune_one states id none s = (0, record s { ids = zrem id s.ids; created = zrem id s.created })
prune_one states id (some r) s = if state_in states r then (1, delete_row id r s) else (0, s)

-- ZRANGEBYSCORE created -inf (before.
abbrev pub below : ℤ → Zset → Zset
below limit z = select (λ entry. ltb_ℤ entry.1 limit) z

unfoldable pub prune_script : Time → List State → Store → ℕ × Store
prune_script before states s =
    count_over (λ id t. prune_one states id (find_row id t) t)
      (below (unix_micros before) s.created) s

unfoldable pub prune : Sent → Time → List State → Store → Answer ℕ
unfolding prune_script
prune sent before [] s = (ok 0, s)
prune sent before (st ∷ states) s = send sent (λ t. counted (prune_script before (st ∷ states) t)) s
