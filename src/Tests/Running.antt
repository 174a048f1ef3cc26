-- ===== src/Tests/Running.antt =====
-- The theorems about starting, stopping and leading at concrete nodes.
use tasker.Base.{
  ℕ, ◌+◌, ◌*◌, ltb_ℤ, ◌-ℤ◌, -ℤ_parts, true, false, none, some, Option, List, [], ◌∷◌, ◌++◌, String,
  pos, ◌≡◌, ◌≢◌, refl, arith, eq_iff, str_eq, inl, inr, if◌then◌else◌,
}
use tasker.Job.{JobRow, Time, Error, failure, second}
use tasker.Sql.Statement.{Result, ok}
use tasker.Sql.Lease.{is_leader_row}
use tasker.Coordinator as Coordinators
use tasker.Coordinator.{Event, starts, stops, beats, elects, cancelled, new_coordinator}
use tasker.Coordinator.Cluster.{Cluster, Ends, run, run-never_panics}
use tasker.Coordinator.Cluster.Term.{Holds, lead_term}
use tasker.Pool.{Pool, PoolManager, new_pool}
use tasker.Supervisor as Supervisors
use tasker.Supervisor.{Supervisor}
use tasker.Worker.{WorkerDriver, Registry}
use tasker.Worker.Loop as Loops
use tasker.Worker.Loop.{Works, Round, asking, loop_ends}
use tasker.Tests.Data.{some_world, faulty_world, first_row}

abbrev node_config : String → Coordinators.Config
node_config node = record {
  node_id = node;
  host = "localhost";
  port = 80;
  queues = "mail" ∷ [];
  worker_count = 2;
  heartbeat_ttl = pos (10 * second);
  leader_ttl = pos (15 * second);
}

abbrev some_events : List (String × Event)
some_events =
    ("n2", starts (pos 50) (pos 51))
    ∷ ("n2", elects (pos 60) (pos 61))
    ∷ ("n1", starts (pos 62) (pos 63))
    ∷ ("n1", elects (pos 70) (pos 71))
    ∷ ("n2", beats (pos 72))
    ∷ ("n2", cancelled)
    ∷ ("n2", stops)
    ∷ []

abbrev some_cluster : Cluster
some_cluster = record { coordinators = λ node. new_coordinator; world = some_world }

run-never_panics_example : Ends (
    run node_config some_events
      (record { coordinators = λ node. new_coordinator; world = faulty_world }))
run-never_panics_example =
    run-never_panics node_config some_events faulty_world (λ node. (omega arith, omega arith))

n1_not_n2 : ◌≢◌ {A = String} "n1" "n2"
n1_not_n2 = ground (arith, eq_iff "n1" "n2")

still_young : ltb_ℤ (pos 61 -ℤ pos (15 * second)) (pos 40) ≡ true
still_young = ground (arith, -ℤ_parts (pos 61) (pos (15 * second)))

lead_term_example :
    (d : Cluster) × (run node_config some_events some_cluster ≡ some d)
    × Holds "n1" (pos 40) d.world.db.leader
    × (is_leader_row "n2" (pos 80) d.world.db.leader ≡ false)
lead_term_example =
    lead_term "n1" "n2" (pos 40) (pos 80) node_config some_events some_cluster n1_not_n2
      (λ node. (omega arith, omega arith))
      (λ node. record { one_loop = omega arith; can_close = λ h. refl })
      (tt, (inl (n1_not_n2, still_young), (tt, (inr (refl, omega arith), (tt, (tt, (tt, tt)))))))
      (record { row = _; is_row = refl; is_owner = refl; kept_since = omega arith })

abbrev running_pool : String → Pool
running_pool queue = record (new_pool queue 2) { running = true }

abbrev two_pools : PoolManager
two_pools = record {
  node = "n1";
  pools = ("mail", running_pool "mail") ∷ ("sms", running_pool "sms") ∷ [];
}

abbrev sms_is_slow : String → Option Error
sms_is_slow queue = if str_eq queue "sms" then some (failure "context canceled") else none

-- A queue with one job more at each claim, of a kind that is not registered.
abbrev counted_claim : ℕ → Result (List JobRow) × ℕ
counted_claim n = (ok (first_row ∷ []), n + 1)

abbrev counting_driver : WorkerDriver ℕ
counting_driver = record {
  complete = λ id output n. (ok tt, n + 100);
  schedule_retry = λ id e at n. (ok tt, n + 200);
  fail = λ id e n. (ok tt, n + 300);
}

abbrev no_jobs : Registry ℕ
no_jobs = record { factories = []; global_middlewares = [] }

abbrev idle_round : Round
idle_round = record { asked = false; woken = false; now = pos 10; retry_from = pos 11 }

loop_ends_example :
    (v : ℕ) × Works counted_claim counting_driver no_jobs (idle_round ∷ idle_round ∷ []) 0 v
    × ((woken : _) (now retry_from : Time) (more : List Round)
        → Loops.run counted_claim counting_driver no_jobs
            ((idle_round ∷ idle_round ∷ []) ++ asking woken now retry_from ∷ more)
            0
          ≡ some v)
loop_ends_example = loop_ends counted_claim counting_driver no_jobs (idle_round ∷ idle_round ∷ []) 0
