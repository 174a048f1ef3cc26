-- ===== src/Stats.antt =====
-- The statistics of types.go. Floating point is a parameter: F, with what the drivers do with it.
-- A count that the source holds as a float is a number here: counting is exact below 2^53.
pub mod Agree
use tasker.Base.{ℕ, ◌/◌, ◌-◌, ℤ, pos, negsuc, suc, String, ◌-ℤ◌}

pub record Float (F : Type 0) : Type 0 where
  pub zero : F
  pub add : F → F → F
  pub divide : F → F → F
  pub of_int : ℤ → F

-- Duration.Milliseconds, which rounds toward zero.
abbrev pub milliseconds : ℤ → ℤ
milliseconds (pos n) = pos (n / 1_000_000)
milliseconds (negsuc n) = pos 0 -ℤ pos (suc n / 1_000_000)

pub record QueueStats (F : Type 0) : Type 0 where
  pub queue : String
  pub available : ℕ
  pub running : ℕ
  pub completed : ℕ
  pub failed : ℕ
  pub retryable : ℕ
  pub scheduled : ℕ
  pub avg_runtime_ms : F
  pub throughput_per_min : ℕ
  pub wait_time_ms : F

pub record GlobalStats : Type 0 where
  pub status : String
  pub jobs_per_minute : ℕ
  pub processes : ℕ
  pub failed_jobs : ℕ
  pub recent_jobs : ℕ
  pub paused_masters : ℕ

pub record JobTypeStats (F : Type 0) : Type 0 where
  pub kind : String
  pub throughput : ℕ
  pub avg_runtime_ms : F
  pub failed_count : ℕ
  pub total_count : ℕ
  pub samples : ℕ

module _ {F : Type 0} (fl : Float F) where
  abbrev pub no_queue_stats : String → QueueStats F
  no_queue_stats queue = record {
    queue = queue;
    available = 0;
    running = 0;
    completed = 0;
    failed = 0;
    retryable = 0;
    scheduled = 0;
    avg_runtime_ms = fl.zero;
    throughput_per_min = 0;
    wait_time_ms = fl.zero;
  }

  abbrev pub no_job_stats : String → JobTypeStats F
  no_job_stats kind = record {
    kind = kind;
    throughput = 0;
    avg_runtime_ms = fl.zero;
    failed_count = 0;
    total_count = 0;
    samples = 0;
  }

abbrev pub no_global_stats : GlobalStats
no_global_stats = record {
  status = "running";
  jobs_per_minute = 0;
  processes = 0;
  failed_jobs = 0;
  recent_jobs = 0;
  paused_masters = 0;
}
