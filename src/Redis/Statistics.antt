-- ===== src/Redis/Statistics.antt =====
-- QueueStats, GlobalStats and JobStats of driver/redisdriver/driver.go: each a loop over all jobs.
use tasker.Base.{
  ℕ, suc, Bool, false, ◌&&◌, ◌||◌, Option, none, some, List, [], ◌∷◌, String, str_eq, if◌then◌else◌,
  ltb, ltb_ℤ, ◌-ℤ◌, pos, ◌*◌, length,
}
use tasker.Job.{
  State, same, pending, scheduled, available, running, completed, retryable, failed, cancelled,
  other, Time, JobRow, second,
}
use tasker.Sql.Store.{NodeRow}
use tasker.Sql.Statement.{Result, ok, err}
use tasker.Redis.Store.{Store, Sent}
use tasker.Redis.Query.{all_jobs}
use tasker.Stats.{
  Float, milliseconds, QueueStats, GlobalStats, JobTypeStats, no_queue_stats, no_job_stats,
  no_global_stats,
}

-- Whether t is after now.Add(-d), with d in seconds.
abbrev pub within : ℕ → Time → Time → Bool
within seconds now t = ltb_ℤ (now -ℤ pos (seconds * second)) t

module _ {F : Type 0} where
  abbrev pub count_state : State → QueueStats F → QueueStats F
  count_state available q = record q { available = suc q.available }
  count_state running q = record q { running = suc q.running }
  count_state completed q = record q { completed = suc q.completed }
  count_state failed q = record q { failed = suc q.failed }
  count_state retryable q = record q { retryable = suc q.retryable }
  count_state scheduled q = record q { scheduled = suc q.scheduled }
  count_state pending q = record q { scheduled = suc q.scheduled }
  count_state cancelled q = q
  count_state (other x) q = q

-- The variables of the loop of QueueStats.
pub record QueueTally (F : Type 0) : Type 0 where
  pub stats : QueueStats F
  pub runtimes : F
  pub waits : F
  pub runtime_count : ℕ
  pub wait_count : ℕ

-- The variables of the loop of JobStats.
pub record KindTally (F : Type 0) : Type 0 where
  pub stats : JobTypeStats F
  pub runtime : F

module _ {F : Type 0} (fl : Float F) where
  abbrev pub millis_between : Time → Time → F
  millis_between from to = fl.of_int (milliseconds (to -ℤ from))

  abbrev pub add_wait : Time → Option Time → QueueTally F → QueueTally F
  add_wait created none q = q
  add_wait created (some start) q = record q {
    waits = fl.add q.waits (millis_between created start);
    wait_count = suc q.wait_count;
  }

  abbrev pub add_runtime : Option Time → Option Time → QueueTally F → QueueTally F
  add_runtime (some start) (some end) q = record q {
    runtimes = fl.add q.runtimes (millis_between start end);
    runtime_count = suc q.runtime_count;
  }
  add_runtime _ _ q = q

  abbrev pub add_recent : Time → Time → QueueTally F → QueueTally F
  add_recent now created q =
      if within 60 now created
      then record q {
        stats = record (q.stats) { throughput_per_min = suc q.stats.throughput_per_min };
      }
      else q

  abbrev pub add_state : State → QueueTally F → QueueTally F
  add_state s q = record q { stats = count_state s q.stats }

  unfoldable pub tally_job : String → Time → JobRow → QueueTally F → QueueTally F
  tally_job queue now job q =
      if str_eq job.queue queue
      then add_recent now job.created_at (
          add_runtime job.started_at job.completed_at
            (add_wait job.created_at job.started_at (add_state job.state q)))
      else q

  unfoldable pub tally_jobs : String → Time → List JobRow → QueueTally F → QueueTally F
  tally_jobs queue now [] q = q
  tally_jobs queue now (job ∷ jobs) q = tally_jobs queue now jobs (tally_job queue now job q)

  abbrev pub average : F → ℕ → F → F
  average sum n before = if ltb 0 n then fl.divide sum (fl.of_int (pos n)) else before

  abbrev pub with_averages : QueueTally F → QueueStats F
  with_averages q = record (q.stats) {
    avg_runtime_ms = average q.runtimes q.runtime_count q.stats.avg_runtime_ms;
    wait_time_ms = average q.waits q.wait_count q.stats.wait_time_ms;
  }

  abbrev pub new_tally : String → QueueTally F
  new_tally queue = record {
    stats = no_queue_stats fl queue;
    runtimes = fl.zero;
    waits = fl.zero;
    runtime_count = 0;
    wait_count = 0;
  }

  abbrev pub queue_stats_of : String → Time → Result (List JobRow) → Result (QueueStats F)
  queue_stats_of queue now (err e) = err e
  queue_stats_of queue now (ok jobs) =
      ok (with_averages (tally_jobs queue now jobs (new_tally queue)))

  unfoldable pub queue_stats :
      (JobRow → Result JobRow) → Sent → String → Time → Store → Result (QueueStats F)
  queue_stats decode sent queue now s = queue_stats_of queue now (all_jobs decode sent s)

  abbrev pub add_kind_runtime : Option Time → Option Time → KindTally F → KindTally F
  add_kind_runtime (some start) (some end) k = record {
    stats = record (k.stats) { samples = suc k.stats.samples };
    runtime = fl.add k.runtime (millis_between start end);
  }
  add_kind_runtime _ _ k = k

  abbrev pub count_of_kind : Time → JobRow → JobTypeStats F → JobTypeStats F
  count_of_kind now job s = record s {
    total_count = suc s.total_count;
    failed_count = if same job.state failed then suc s.failed_count else s.failed_count;
    throughput = if within 60 now job.created_at then suc s.throughput else s.throughput;
  }

  unfoldable pub tally_kind_job : String → Time → JobRow → KindTally F → KindTally F
  tally_kind_job kind now job k =
      if str_eq job.kind kind
      then add_kind_runtime job.started_at job.completed_at
          (record k { stats = count_of_kind now job k.stats })
      else k

  unfoldable pub tally_kind : String → Time → List JobRow → KindTally F → KindTally F
  tally_kind kind now [] k = k
  tally_kind kind now (job ∷ jobs) k = tally_kind kind now jobs (tally_kind_job kind now job k)

  abbrev pub with_average : KindTally F → JobTypeStats F
  with_average k = record (k.stats) {
    avg_runtime_ms = average k.runtime k.stats.samples k.stats.avg_runtime_ms;
  }

  abbrev pub job_stats_of : String → Time → Result (List JobRow) → Result (JobTypeStats F)
  job_stats_of kind now (err e) = err e
  job_stats_of kind now (ok jobs) = ok (
      with_average
        (tally_kind kind now jobs (record { stats = no_job_stats fl kind; runtime = fl.zero })))

  unfoldable pub job_stats :
      (JobRow → Result JobRow) → Sent → String → Time → Store → Result (JobTypeStats F)
  job_stats decode sent kind now s = job_stats_of kind now (all_jobs decode sent s)

-- `FinalizedAt != nil` and after a minute ago.
abbrev pub just_ended : Time → Option Time → Bool
just_ended now none = false
just_ended now (some t) = within 60 now t

unfoldable pub count_global : Time → JobRow → GlobalStats → GlobalStats
count_global now job g = record g {
  recent_jobs = if within 3600 now job.created_at then suc g.recent_jobs else g.recent_jobs;
  failed_jobs = if same job.state failed then suc g.failed_jobs else g.failed_jobs;
  jobs_per_minute =
      if just_ended now job.finalized_at && (same job.state completed || same job.state failed)
      then suc g.jobs_per_minute
      else g.jobs_per_minute;
}

unfoldable pub count_all : Time → List JobRow → GlobalStats → GlobalStats
unfolding count_global
count_all now [] g = g
count_all now (job ∷ jobs) g = count_all now jobs (count_global now job g)

abbrev pub with_processes : Result (List NodeRow) → GlobalStats → GlobalStats
with_processes (err e) g = record g { processes = 0 }
with_processes (ok nodes) g = record g { processes = length nodes }

abbrev pub global_stats_of :
    Time → Result (List NodeRow) → Result (List JobRow) → Result GlobalStats
global_stats_of now nodes (err e) = err e
global_stats_of now nodes (ok jobs) = ok (with_processes nodes (count_all now jobs no_global_stats))

-- `nodes` is what ListNodes answers.
unfoldable pub global_stats :
    (JobRow → Result JobRow) → Sent → Time → Result (List NodeRow) → Store → Result GlobalStats
unfolding count_all
global_stats decode sent now nodes s = global_stats_of now nodes (all_jobs decode sent s)
