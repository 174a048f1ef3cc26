-- ===== src/Sql/Changes/Steps.antt =====
-- The calls that a worker, a supervisor and an operator make of the SQL driver, in any order, with
-- any statement failing.
use tasker.Base.{ℕ, Option, List, [], ◌∷◌, String, ℤ, All}
use tasker.Job.{State, Time, Duration, JobRow}
use tasker.Sql.Store.{Dialect}
use tasker.Sql.Statement.{World}
use tasker.Sql.Keys.{IsKeyed}
use tasker.Sql.Enqueue.{enqueue, enqueue_batch}
use tasker.Sql.Claim.{claim}
use tasker.Sql.Finish.{complete, fail, schedule_retry}
use tasker.Sql.Admin.{retry, retry_batch, cancel, cancel_batch, requeue_stale, prune}
use tasker.Sql.Changes.{
  Label, inserting, claiming, finishing, failing, delaying, retrying, cancelling, requeuing,
  pruning, Changes, Changes-trans, Changes-IsKeyed,
}
use tasker.Sql.Changes.Calls.{
  FreshOption, complete-Does, fail-Does, schedule_retry-Does, retry-Does, cancel-Does,
  retry_batch-Does, cancel_batch-Does, requeue_stale-Does, prune-Does, enqueue-Does,
}
use tasker.Sql.Changes.Claims.{claim-Does}
use tasker.Sql.Changes.Batches.{enqueue_batch-Changes}

pub data Call : Type 0 where
  enqueues : Option JobRow → Call
  enqueues_batch : List (Option JobRow) → Call
  claims : Dialect → String → String → Time → ℤ → Call
  completes : ℕ → List ℕ → Time → Call
  fails : ℕ → Option String → Time → Time → Call
  schedules_retry : ℕ → Option String → Time → Time → Call
  retries : ℕ → Time → Call
  retries_batch : List (ℕ × Time) → Call
  cancels : ℕ → Time → Call
  cancels_batch : List (ℕ × Time) → Call
  requeues : Duration → Time → Call
  prunes : Time → List State → Call

unfoldable pub step : World → Call → World
step w (enqueues row) = (enqueue row w).1
step w (enqueues_batch rows) = (enqueue_batch rows w).1
step w (claims dialect queue node now max) = (claim dialect queue node now max w).1
step w (completes id output now) = (complete id output now w).1
step w (fails id job_err at now) = (fail id job_err at now w).1
step w (schedules_retry id job_err at now) = (schedule_retry id job_err at now w).1
step w (retries id now) = (retry id now w).1
step w (retries_batch ids) = (retry_batch ids w).1
step w (cancels id now) = (cancel id now w).1
step w (cancels_batch ids) = (cancel_batch ids w).1
step w (requeues timeout now) = (requeue_stale timeout now w).1
step w (prunes before states) = (prune before states w).1

unfoldable pub run : World → List Call → World
unfolding step
run w [] = w
run w (c ∷ cs) = run (step w c) cs

-- Which kind of change a call makes.
abbrev pub kind_of : Call → Label
kind_of (enqueues row) = inserting
kind_of (enqueues_batch rows) = inserting
kind_of (claims dialect queue node now max) = claiming
kind_of (completes id output now) = finishing
kind_of (fails id job_err at now) = failing
kind_of (schedules_retry id job_err at now) = delaying
kind_of (retries id now) = retrying
kind_of (retries_batch ids) = retrying
kind_of (cancels id now) = cancelling
kind_of (cancels_batch ids) = cancelling
kind_of (requeues timeout now) = requeuing
kind_of (prunes before states) = pruning

-- The rows that a call sends are as the manager builds them.
abbrev pub Sends : Call → Type 0
Sends (enqueues row) = FreshOption row
Sends (enqueues_batch rows) = All FreshOption rows
Sends _ = Unit

-- Each call is a chain of changes of its one kind, whichever statements fail.
pub step-Changes :
    (L : Label → Type 0) (c : Call) (w : World)
    → L (kind_of c)
    → Sends c
    → IsKeyed w.db
    → Changes L w.db (step w c).db
unfolding step
step-Changes L (enqueues row) w l s k = enqueue-Does L row l s w k
step-Changes L (enqueues_batch rows) w l s k = enqueue_batch-Changes L rows w l s k
step-Changes L (claims dialect queue node now max) w l s k =
    claim-Does L dialect queue node now max l w k
step-Changes L (completes id output now) w l s k = complete-Does L id output now l w k
step-Changes L (fails id job_err at now) w l s k = fail-Does L id job_err at now l w k
step-Changes L (schedules_retry id job_err at now) w l s k =
    schedule_retry-Does L id job_err at now l w k
step-Changes L (retries id now) w l s k = retry-Does L id now l w k
step-Changes L (retries_batch ids) w l s k = retry_batch-Does L ids l w k
step-Changes L (cancels id now) w l s k = cancel-Does L id now l w k
step-Changes L (cancels_batch ids) w l s k = cancel_batch-Does L ids l w k
step-Changes L (requeues timeout now) w l s k = requeue_stale-Does L timeout now l w k
step-Changes L (prunes before states) w l s k = prune-Does L before states l w k

pub run-Changes :
    (L : Label → Type 0) (cs : List Call) (w : World)
    → All (λ c. L (kind_of c)) cs
    → All Sends cs
    → IsKeyed w.db
    → Changes L w.db (run w cs).db
unfolding run
run-Changes L [] w l s k = Changes.here
run-Changes L (c ∷ cs) w l s k =
    let first = step-Changes L c w l.0 s.0 k in
    Changes-trans L first (run-Changes L cs (step w c) l.1 s.1 (Changes-IsKeyed first k))
