-- ===== src/Redis/Enqueue.antt =====
-- Enqueue and EnqueueBatch of driver/redisdriver/driver.go. A row that cannot be encoded fails the
-- call before the script is sent, as `not_run` does.
use tasker.Base.{
  ℕ, ◌+◌, Bool, true, false, ◌||◌, Option, none, some, List, [], ◌∷◌, String, if◌then◌else◌, str_eq,
  pos, any, put_key, is_some,
}
use tasker.Job.{State, available, scheduled, retryable, JobRow, failure, job_already_exists}
use tasker.Sql.Store.{state_in}
use tasker.Sql.Statement.{Result, ok, err}
use tasker.Redis.Store.{Store, zadd, row_id, change, due_add, unix_micros, Sent, Answer, send}

abbrev pub waiting_states : List State
waiting_states = available ∷ scheduled ∷ retryable ∷ []

-- The first loop of the script: no uuid is empty, stored already, or sent twice.
unfoldable pub all_new : List String → (String → Option ℕ) → List JobRow → Bool
all_new seen uuids [] = true
all_new seen uuids (r ∷ rs) =
    let rest = all_new (r.uuid ∷ seen) uuids rs in
    if str_eq r.uuid "" || (any (str_eq r.uuid) seen || is_some (uuids r.uuid)) then false else rest

-- One round of its second loop.
abbrev pub numbered : ℕ → JobRow → JobRow
numbered id r = record r { id = id }

abbrev pub insert_new : ℕ → JobRow → Store → Store
insert_new id r s = record s {
  next_id = id;
  uuids = change r.uuid (some id) s.uuids;
  jobs = put_key row_id (numbered id r) s.jobs;
  ids = zadd (pos id) id s.ids;
  created = zadd (unix_micros r.created_at) id s.created;
}

unfoldable pub add_job : JobRow → Store → Store
add_job r s =
    let id = s.next_id + 1 in
    if state_in waiting_states r
    then due_add r.queue (unix_micros r.scheduled_at) id (insert_new id r s)
    else insert_new id r s

unfoldable pub add_jobs : List JobRow → Store → List ℕ × Store
unfolding add_job
add_jobs [] s = ([], s)
add_jobs (r ∷ rs) s = let (ids, s') = add_jobs rs (add_job r s) in ((s.next_id + 1) ∷ ids, s')

abbrev pub added : List ℕ × Store → Answer (List ℕ)
added (ids, s) = (ok ids, s)

unfoldable pub enqueue_script : List JobRow → Store → Answer (List ℕ)
unfolding all_new add_jobs
enqueue_script rows s =
    if all_new [] s.uuids rows then added (add_jobs rows s) else (err job_already_exists, s)

abbrev pub with_ids : List ℕ → List JobRow → List JobRow
with_ids (id ∷ ids) (r ∷ rs) = numbered id r ∷ with_ids ids rs
with_ids [] rs = rs
with_ids (id ∷ ids) [] = []

abbrev pub cons_ok : JobRow → Result (List JobRow) → Result (List JobRow)
cons_ok r (ok rs) = ok (r ∷ rs)
cons_ok r (err e) = err e

abbrev pub no_nil : List (Option JobRow) → Result (List JobRow)
no_nil [] = ok []
no_nil (none ∷ rows) = err (failure "redis driver: nil job")
no_nil (some r ∷ rows) = cons_ok r (no_nil rows)

-- The answer is the caller's rows with their ids; with an error they keep what they had.
abbrev pub set_ids : List JobRow → Answer (List ℕ) → Answer (List JobRow)
set_ids rows (ok ids, s) = (ok (with_ids ids rows), s)
set_ids rows (err e, s) = (err e, s)

abbrev pub submit : Sent → Store → Result (List JobRow) → Answer (List JobRow)
submit sent s (ok rows) = set_ids rows (send sent (enqueue_script rows) s)
submit sent s (err e) = (err e, s)

unfoldable pub enqueue_batch : Sent → List (Option JobRow) → Store → Answer (List JobRow)
unfolding enqueue_script
enqueue_batch sent [] s = (ok [], s)
enqueue_batch sent (job ∷ jobs) s = submit sent s (no_nil (job ∷ jobs))

unfoldable pub enqueue : Sent → Option JobRow → Store → Answer (List JobRow)
unfolding enqueue_batch
enqueue sent job s = enqueue_batch sent (job ∷ []) s
