-- ===== src/Supervisor/Queues.antt =====
-- What pausing, resuming and autoscaling do to a queue's workers.
use tasker.Base.{
  ℕ, ◌+◌, ◌/◌, ◌≤◌, ◌<◌, ◌≡◌, refl, Bool-cases, inl, inr, String, some, List, [], ◌∷◌, ℤ, pos,
  arith, str_eq, eq_refl,
}
use tasker.Pool.{Pool, PoolManager, clamp_target, find_pool, set_pool, scale, scale_pool}
use tasker.Pool.Numbers.{Numbered, scale_workers}
use tasker.Supervisor.{
  Config, QueueConfig, QueueStats, find_config, pause_queue, resume_queue, compute_desired_workers,
}

find-set :
    (queue : String) (pool : Pool) (ps : List (String × Pool))
    → find_pool queue (set_pool queue pool ps) ≡ some pool
find-set queue pool [] = rw (eq_refl queue) refl
find-set queue pool ((q, p) ∷ ps) = elim (Bool-cases (str_eq q queue)) [
  | inl hit ↦ rw hit (rw (eq_refl queue) refl)
  | inr miss ↦ rw miss (rw miss (find-set queue pool ps))
]

abbrev scaled : String → ℤ → Pool → PoolManager → PoolManager
scaled queue target p pm = record pm { pools = set_pool queue (scale pm.node target p) pm.pools }

scale_pool-found :
    (queue : String) (target : ℤ) (p : Pool) (pm : PoolManager)
    → find_pool queue pm.pools ≡ some p
    → (scale_pool queue target pm).1 ≡ scaled queue target p pm
unfolding scale_pool
scale_pool-found queue target p pm found = rw (found, scale_pool) refl

module _ (cfg : Config) (queue : String) (c : QueueConfig)
    (configured : find_config queue cfg.queues ≡ some c) (p : Pool) (pm : PoolManager)
    (found : find_pool queue pm.pools ≡ some p) where
  pause_queue-found : (pause_queue cfg queue pm).1 ≡ scaled queue (pos 0) p pm
  unfolding pause_queue
  pause_queue-found = rw (configured, pause_queue) (scale_pool-found queue (pos 0) p pm found)

  resume_queue-found : (resume_queue cfg queue pm).1 ≡ scaled queue (pos c.max_workers) p pm
  unfolding resume_queue
  resume_queue-found =
      rw (configured, resume_queue) (scale_pool-found queue (pos c.max_workers) p pm found)

-- Pausing a configured queue whose pool has its workers numbered from 0 leaves it the one worker of
-- index 0, and resuming it then gives it its configured number of workers, or one where none are
-- configured.
pause_resume :
    (cfg : Config) (queue : String) (c : QueueConfig) (pm : PoolManager) (p : Pool) (n : ℕ)
    → find_config queue cfg.queues ≡ some c
    → find_pool queue pm.pools ≡ some p
    → Numbered pm.node n p
    → let paused = (pause_queue cfg queue pm).1 in
      let resumed = (resume_queue cfg queue paused).1 in
      ((q : Pool) × (find_pool queue paused.pools ≡ some q) × Numbered pm.node 1 q)
      × ((q : Pool) × (find_pool queue resumed.pools ≡ some q)
          × Numbered pm.node (clamp_target (pos c.max_workers)) q)
pause_resume cfg queue c pm p n configured found numbered =
    let one = scale_workers pm.node n (pos 0) p numbered in
    let paused = scale pm.node (pos 0) p in
    let again = scale_workers pm.node 1 (pos c.max_workers) paused one in
    let there = find-set queue paused pm.pools in
    rw (pause_queue-found cfg queue c configured p pm found) (
      rw (resume_queue-found cfg queue c configured paused (scaled queue (pos 0) p pm) there) (
        (paused, there, one),
        (scale pm.node (pos c.max_workers) paused, find-set queue _ _, again),
      ))

-- With the lower bound not above the upper, the desired number of workers is within them, is the
-- lower one for an empty queue, and is half the waiting jobs where that is positive and within
-- them.
compute_desired_workers_bounds :
    (s : QueueStats) (c : QueueConfig)
    → c.min_workers ≤ c.max_workers
    → let d = compute_desired_workers s c in
      let half = (s.available + s.retryable) / 2 in
      (c.min_workers ≤ d)
      × (d ≤ c.max_workers)
      × (c.min_workers ≤ half → half ≤ c.max_workers → 0 < half → d ≡ half)
      × (s.available + s.retryable ≡ 0 → d ≡ c.min_workers)
unfolding compute_desired_workers
compute_desired_workers_bounds s c h = ground arith
