-- ===== src/Sql/Statistics.antt =====
-- QueueStats, GlobalStats and JobStats of driver/sqldriver/driver.go: sums over the table. `avg`
-- is the database's AVG of the times between two columns, in milliseconds, or 0 for no rows.
use tasker.Base.{
  ℕ, Bool, false, ◌&&◌, Option, none, some, List, [], ◌∷◌, String, str_eq, if◌then◌else◌, ltb_ℤ,
  ◌-ℤ◌, pos, ◌*◌, count,
}
use tasker.Job.{
  same, pending, scheduled, available, running, completed, retryable, failed, Time, JobRow, second,
  node_liveness_window,
}
use tasker.Sql.Store.{NodeRow, state_in}
use tasker.Sql.Statement.{Result, ok, err, World, M, ◌>>=◌, pure, statement}
use tasker.Stats.{
  Float, QueueStats, GlobalStats, JobTypeStats, no_queue_stats, no_job_stats, no_global_stats,
}

-- `column > ?`, with the time so many seconds ago.
abbrev pub later_than : ℕ → Time → Time → Bool
later_than seconds now t = ltb_ℤ (now -ℤ pos (seconds * second)) t

-- A comparison with NULL is not true.
abbrev pub known_later : ℕ → Time → Option Time → Bool
known_later seconds now none = false
known_later seconds now (some t) = later_than seconds now t

-- started_at and completed_at of the rows that pass a test, where neither is NULL.
abbrev pub add_span : Option Time → Option Time → List (Time × Time) → List (Time × Time)
add_span (some start) (some end) spans = (start, end) ∷ spans
add_span _ _ spans = spans

abbrev pub spans_where : (JobRow → Bool) → List JobRow → List (Time × Time)
spans_where test [] = []
spans_where test (r ∷ rs) =
    if test r
    then add_span r.started_at r.completed_at (spans_where test rs)
    else spans_where test rs

-- SUM(CASE WHEN … THEN 1 ELSE 0 END) over the rows of a WHERE clause.
abbrev pub sum_case : (JobRow → Bool) → (JobRow → Bool) → List JobRow → ℕ
sum_case test of_interest rows = count (λ r. test r && of_interest r) rows

abbrev pub in_queue : String → JobRow → Bool
in_queue queue r = str_eq r.queue queue

abbrev pub of_kind : String → JobRow → Bool
of_kind kind r = str_eq r.kind kind

module _ {F : Type 0} (fl : Float F) (avg : List (Time × Time) → F) where
  abbrev pub count_states : String → List JobRow → QueueStats F
  count_states queue rows = record (no_queue_stats fl queue) {
    available = sum_case (in_queue queue) (λ r. same r.state available) rows;
    running = sum_case (in_queue queue) (λ r. same r.state running) rows;
    completed = sum_case (in_queue queue) (λ r. same r.state completed) rows;
    failed = sum_case (in_queue queue) (λ r. same r.state failed) rows;
    retryable = sum_case (in_queue queue) (λ r. same r.state retryable) rows;
    scheduled = sum_case (in_queue queue) (state_in (scheduled ∷ pending ∷ [])) rows;
  }

  abbrev pub ended_in : String → Time → JobRow → Bool
  ended_in queue cutoff_now r =
      in_queue queue r && (same r.state completed && known_later 3600 cutoff_now r.completed_at)

  -- The clock is read for the cutoff of the hour and again for that of the minute.
  unfoldable pub queue_stats : String → Time → Time → M (QueueStats F)
  queue_stats queue now later = do
    stats ← statement (λ d. (ok (count_states queue d.jobs), d))
    runtime ← statement (λ d. (ok (avg (spans_where (ended_in queue now) d.jobs)), d))
    recent ←
        statement
          (λ d. (ok (sum_case (in_queue queue) (λ r. later_than 60 later r.created_at) d.jobs), d))
    pure (record stats { avg_runtime_ms = runtime; throughput_per_min = recent })

  abbrev pub count_kind : String → List JobRow → JobTypeStats F
  count_kind kind rows = record (no_job_stats fl kind) {
    total_count = count (of_kind kind) rows;
    failed_count = sum_case (of_kind kind) (λ r. same r.state failed) rows;
    avg_runtime_ms = avg (spans_where (λ r. of_kind kind r && same r.state completed) rows);
  }

  -- The error of the second query is dropped, and the throughput then stays 0.
  abbrev pub with_throughput : JobTypeStats F → Result ℕ × World → Result (JobTypeStats F) × World
  with_throughput stats (ok n, w) = (ok (record stats { throughput = n }), w)
  with_throughput stats (err e, w) = (ok stats, w)

  abbrev pub read_throughput : String → Time → JobTypeStats F → M (JobTypeStats F)
  read_throughput kind now stats w = with_throughput stats (
      statement
        (λ d. (ok (sum_case (of_kind kind) (λ r. later_than 60 now r.created_at) d.jobs), d)) w)

  unfoldable pub job_stats : String → Time → M (JobTypeStats F)
  job_stats kind now = do
    stats ← statement (λ d. (ok (count_kind kind d.jobs), d))
    read_throughput kind now stats

abbrev pub count_recent : Time → Time → List JobRow → GlobalStats
count_recent now then_now rows = record no_global_stats {
  jobs_per_minute =
      count (λ r. state_in (completed ∷ failed ∷ []) r && later_than 60 now r.created_at) rows;
  failed_jobs = count (λ r. same r.state failed) rows;
  recent_jobs = count (λ r. later_than 3600 then_now r.created_at) rows;
}

-- A failed read of the nodes is not fatal.
abbrev pub with_processes : GlobalStats → Result ℕ × World → Result GlobalStats × World
with_processes stats (ok n, w) = (ok (record stats { processes = n }), w)
with_processes stats (err e, w) = (ok (record stats { processes = 0 }), w)

abbrev pub live_node : Time → NodeRow → Bool
live_node now n = ltb_ℤ (now -ℤ node_liveness_window) n.last_heartbeat

abbrev pub read_processes : Time → GlobalStats → M GlobalStats
read_processes now stats w =
    with_processes stats (statement (λ d. (ok (count (live_node now) d.nodes), d)) w)

-- The clock is read three times.
unfoldable pub global_stats : Time → Time → Time → M GlobalStats
global_stats now then_now later = do
  stats ← statement (λ d. (ok (count_recent now then_now d.jobs), d))
  read_processes later stats
