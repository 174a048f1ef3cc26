-- ===== src/Tests/Parts.antt =====
-- The theorems about the state machine, dispatch, workers, pools and the supervisor at concrete
-- inputs.
use tasker.Base.{
  ℤ, ◌+◌, ◌≡◌, ◌≢◌, ◌⊎◌, ◌↔◌, refl, true, none, some, List, [], ◌∷◌, pos, arith, All, ◌≤ℤ◌, ◌<ℤ◌,
  String,
}
use tasker.Job.{
  available, cancelled, pending, scheduled, running, completed, retryable, failed, failure, JobRow,
  default_backoff,
}
use tasker.Machine.{
  compute_next_state, compute_backoff, validate_transition, compute_backoff_with_config,
}
use tasker.Machine.Transitions.{
  Limit, Drawn, Undrawn, compute_next_state_cases, validate_transition_iff,
}
use tasker.Machine.Backoff.{backoff-le-max, default_backoff_overflow}
use tasker.Sql.Statement.{Result, ok, err, World}
use tasker.Sql.Changes.{IsFresh}
use tasker.Sql.Invariant.{IsValid, empty_db-IsValid}
use tasker.Dispatch.{build_job_row, JobValue, Stamp, default_config}
use tasker.Dispatch.Send.{Send, Middleware, chain, chain_rows}
use tasker.Dispatch.Rows.{sql_driver, Linked, chain_rows-Linked}
use tasker.Dispatch.Sql.{chain-IsValid}
use tasker.Worker.{JobCode, Registry, panics, process_job}
use tasker.Worker.Ends.{Ended, process_job_cases}
use tasker.Pool.{Pool, PoolManager, new_workers}
use tasker.Supervisor.{Config, QueueConfig}
use tasker.Tests.Data.{running_row, empty_world}

compute_next_state_cases_example :
    let (next, delay) = compute_next_state running_row (some (failure "down")) in
    (m : ℤ) × Limit running_row m
    × (((some (failure "down") ≡ none) × (next ≡ completed) × (delay ≡ pos 0))
        ⊎ (((some (failure "down") ≢ none)
              × (pos (running_row.attempt + 1) ≤ℤ m)
              × (next ≡ retryable)
              × (delay ≡ compute_backoff running_row (running_row.attempt + 1)))
            ⊎ ((some (failure "down") ≢ none)
                × (m <ℤ pos (running_row.attempt + 1))
                × (next ≡ failed)
                × (delay ≡ pos 0))))
compute_next_state_cases_example = compute_next_state_cases running_row (some (failure "down"))

validate_transition_iff_example :
    ((validate_transition running failed ≡ none) ↔ (Drawn running failed ⊎ Undrawn running failed))
    × (validate_transition pending scheduled ≢ none)
    × (validate_transition cancelled available ≢ none)
validate_transition_iff_example = validate_transition_iff running failed

backoff-le-max_example : compute_backoff_with_config default_backoff 3 ≤ℤ default_backoff.max_delay
backoff-le-max_example = backoff-le-max default_backoff 3

default_backoff_overflow_example : compute_backoff_with_config default_backoff 60 ≡ pos 0
default_backoff_overflow_example = default_backoff_overflow 60 (omega arith)

abbrev some_job : JobValue
some_job = record {
  marshalled = ok (123 ∷ 125 ∷ []);
  kind = "Send";
  queue = some "mail";
  delay = none;
  max_attempts = none;
  tags = none;
  batch_id = none;
  timeout = none;
}

abbrev some_stamp : String → Stamp
some_stamp uuid = record { uuid = uuid; now = pos 5; checked_at = pos 6; created_at = pos 7 }

abbrev some_jobs : List (JobValue × Stamp)
some_jobs = (some_job, some_stamp "a") ∷ (some_job, some_stamp "b") ∷ []

abbrev quiet : Middleware World
quiet next = next

abbrev refuse : Middleware World
refuse next (rows, w) = (err (failure "refused"), rows, w)

abbrev sends : Send World
sends (rows, w) = (ok tt, rows, w)

abbrev rows_of : Result (List JobRow) → List JobRow
rows_of (ok rows) = rows
rows_of (err e) = []

abbrev some_chain : List JobRow
some_chain = rows_of (chain_rows (default_config "12345678") [] none some_jobs)

chain_rows-Linked_example : Linked none some_chain × All IsFresh some_chain
unfolding chain_rows build_job_row
chain_rows-Linked_example =
    chain_rows-Linked (default_config "12345678") [] some_jobs some_chain refl

chain-IsValid_example :
    IsValid
      (chain sql_driver (quiet ∷ []) (default_config "12345678") some_jobs [] empty_world).1.db
chain-IsValid_example =
    chain-IsValid (quiet ∷ []) (default_config "12345678") some_jobs [] empty_world
      ((λ next keep. keep), tt) empty_db-IsValid

abbrev some_code : JobCode World
some_code = record {
  handle = λ w. (panics "nil map", w);
  before_handle = none;
  after_handle = none;
  middleware = none;
  retry_backoff = none;
  retry_until = some (pos 1);
  before_retry = none;
  on_failed = none;
}

abbrev some_registry : Registry World
some_registry = record {
  factories = ("Send", λ payload. ok some_code) ∷ [];
  global_middlewares = [];
}

process_job_cases_example :
    Ended some_registry running_row
      (pos 9)
      empty_world
      (process_job some_registry running_row (pos 9) empty_world).0
process_job_cases_example = process_job_cases some_registry running_row (pos 9) empty_world

abbrev some_pool : Pool
some_pool = record {
  queue = "mail";
  max_workers = 3;
  workers = new_workers "n1" "mail" 0 3;
  stopping = [];
  running = true;
}

abbrev some_queue : QueueConfig
some_queue = record { max_workers = 3; min_workers = 1 }

abbrev some_config : Config
some_config = record {
  queues = ("mail", some_queue) ∷ [];
  heartbeat_interval = pos 5;
  requeue_interval = pos 30;
  requeue_timeout = pos 60;
  prune_interval = pos 90;
  prune_after = pos 100;
  enable_autoscale = true;
}

abbrev some_pools : PoolManager
some_pools = record { node = "n1"; pools = ("mail", some_pool) ∷ [] }
