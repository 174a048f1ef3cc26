-- ===== src/Supervisor.antt =====
-- supervisor/supervisor.go: Start, Stop, pausing and resuming queues, autoscaling, and the calls of
-- the driver that its tickers make. Each tick is a call.
pub mod Queues
pub mod Restart
use tasker.Base.{
  ℕ, ◌*◌, ◌/◌, ◌+◌, ◌-◌, suc, map, true, false, Bool, not, ◌&&◌, String, Option, none, some, List,
  [], ◌∷◌, pos, leb, ltb, ◌==◌, str_eq, if◌then◌else◌, ◌-ℤ◌, ltb_ℤ, ◌||◌,
}
use tasker.Job.{State, completed, failed, cancelled, Time, Duration, Error, second}
use tasker.Sql.Store.{NodeRow}
use tasker.Sql.Statement.{Result, ok, err, World}
use tasker.Sql.Lease.{register_node, deregister_node, heartbeat}
use tasker.Channel.{Channel, open_channel, close_channel}
use tasker.Sql.Admin.{requeue_stale, prune}
use tasker.Pool.{PoolManager, scale_pool, start_pool, stop_all, worker_count}

-- The bounds are not negative.
pub record QueueConfig : Type 0 where
  pub max_workers : ℕ
  pub min_workers : ℕ

pub record Config : Type 0 where
  pub queues : List (String × QueueConfig)
  pub heartbeat_interval : Duration
  pub requeue_interval : Duration
  pub requeue_timeout : Duration
  pub prune_interval : Duration
  pub prune_after : Duration
  pub enable_autoscale : Bool

abbrev pub default_config : Config
default_config = record {
  queues = ("default", record { max_workers = 10; min_workers = 1 }) ∷ [];
  heartbeat_interval = pos (5 * second);
  requeue_interval = pos (30 * second);
  requeue_timeout = pos (60 * second);
  prune_interval = pos (24 * 3600 * second);
  prune_after = pos (7 * 24 * 3600 * second);
  enable_autoscale = false;
}

-- The counts of QueueStats that autoscaling reads.
pub record QueueStats : Type 0 where
  pub available : ℕ
  pub retryable : ℕ

abbrev pub find_config : String → List (String × QueueConfig) → Option QueueConfig
find_config queue [] = none
find_config queue ((q, c) ∷ cs) = if str_eq q queue then some c else find_config queue cs

-- A pool that does not start is logged and left out.
unfoldable pub start_pools : List (String × QueueConfig) → PoolManager → PoolManager
start_pools [] pm = pm
start_pools ((q, c) ∷ cs) pm = start_pools cs (start_pool q c.max_workers pm).1

unfoldable pub pause_queue : Config → String → PoolManager → Result (Unit {0}) × PoolManager
pause_queue cfg queue pm = elim (find_config queue cfg.queues) [
  | none ↦ (ok tt, pm)
  | some c ↦ scale_pool queue (pos 0) pm
]

unfoldable pub resume_queue : Config → String → PoolManager → Result (Unit {0}) × PoolManager
resume_queue cfg queue pm = elim (find_config queue cfg.queues) [
  | none ↦ (ok tt, pm)
  | some c ↦ scale_pool queue (pos c.max_workers) pm
]

abbrev pub at_least : ℕ → ℕ → ℕ
at_least low n = if ltb n low then low else n

abbrev pub at_most : ℕ → ℕ → ℕ
at_most high n = if ltb high n then high else n

unfoldable pub compute_desired_workers : QueueStats → QueueConfig → ℕ
compute_desired_workers stats cfg =
    let waiting = stats.available + stats.retryable in
    if waiting == 0
    then cfg.min_workers
    else at_most cfg.max_workers (at_least cfg.min_workers (waiting / 2))

-- One round of the loop of doAutoscale; `current` is of all pools together.
unfoldable pub autoscale_queue :
    (String → PoolManager → Option QueueStats) → String → QueueConfig → PoolManager → PoolManager
unfolding compute_desired_workers
autoscale_queue stats queue cfg pm = elim (stats queue pm) [
  | none ↦ pm
  | some s ↦
      let desired = compute_desired_workers s cfg in
      let current = worker_count pm in
      if not (desired == current) && leb cfg.min_workers desired
      then (scale_pool queue (pos desired) pm).1
      else pm
]

unfoldable pub do_autoscale :
    (String → PoolManager → Option QueueStats)
    → List (String × QueueConfig)
    → PoolManager
    → PoolManager
unfolding autoscale_queue
do_autoscale stats [] pm = pm
do_autoscale stats ((q, c) ∷ cs) pm = do_autoscale stats cs (autoscale_queue stats q c pm)

-- The autoscale ticker's call.
unfoldable pub autoscale_tick :
    (String → PoolManager → Option QueueStats) → Config → PoolManager → PoolManager
unfolding do_autoscale
autoscale_tick stats cfg pm = if cfg.enable_autoscale then do_autoscale stats cfg.queues pm else pm

-- Their counts and errors are logged only.
unfoldable pub do_requeue : Config → Time → World → World
do_requeue cfg now w = (requeue_stale cfg.requeue_timeout now w).1

unfoldable pub do_prune : Config → Time → World → World
do_prune cfg now w = (prune (now -ℤ cfg.prune_after) (completed ∷ failed ∷ cancelled ∷ []) w).1

unfoldable pub do_heartbeat : Time → PoolManager → World → World
do_heartbeat now pm w = (heartbeat pm.node now w).1

-- What New makes; `loops` counts the loops that no Stop has cancelled.
pub record Supervisor : Type 0 where
  pub running : Bool
  pub stopped : Channel
  pub loops : ℕ
  pub pool_mgr : PoolManager

abbrev pub new_supervisor : String → Supervisor
new_supervisor node = record {
  running = false;
  stopped = open_channel;
  loops = 0;
  pool_mgr = record { node = node; pools = [] };
}

-- RegisterNode sets the time of the last heartbeat.
abbrev pub node_info : Config → Time → PoolManager → NodeRow
node_info cfg started_at pm = record {
  node_id = pm.node;
  host = "";
  port = 0;
  queues = map (λ q. q.0) cfg.queues;
  workers = worker_count pm;
  status = "active";
  started_at = started_at;
  last_heartbeat = started_at;
  version = "1.0.0";
}

-- time.NewTicker, which the loop calls for the three intervals, panics for one that is not positive.
abbrev pub bad_tickers : Config → Bool
bad_tickers cfg =
    ltb_ℤ cfg.heartbeat_interval (pos 1)
    || (ltb_ℤ cfg.requeue_interval (pos 1) || ltb_ℤ cfg.prune_interval (pos 1))

-- The error of RegisterNode is logged only. `none` is the panic of the new loop, which ends the
-- process.
unfoldable pub start : Config → Time → Time → Supervisor → World → Option (Supervisor × World)
unfolding start_pools
start cfg started_at now s w =
    if s.running
    then some (s, w)
    else let pm = start_pools cfg.queues s.pool_mgr in
      if bad_tickers cfg
      then none
      else some (
        record s { running = true; loops = suc s.loops; pool_mgr = pm },
        (register_node (node_info cfg started_at pm) now w).1,
      )

abbrev pub with_stopped : Supervisor → Option Channel → World → Option (Supervisor × World)
with_stopped s none w = none
with_stopped s (some stopped) w = some (record s { stopped = stopped }, w)

-- The errors of StopAll and of DeregisterNode are logged only. `none` is a panic.
unfoldable pub stop : (String → Option Error) → Supervisor → World → Option (Supervisor × World)
stop ends s w =
    if not s.running
    then some (s, w)
    else with_stopped
        (record s { running = false; loops = s.loops - 1; pool_mgr = (stop_all ends s.pool_mgr).1 })
        (close_channel s.stopped) (deregister_node s.pool_mgr.node w).1
