-- ===== src/Coordinator.antt =====
-- coordinator/coordinator.go over the SQL driver: Start, Stop, and the calls that the two tickers of
-- its loop make while the loop's context is live. Each tick is a call.
pub mod Lease
pub mod Cluster
use tasker.Base.{
  ℕ, suc, ◌-◌, Bool, true, false, Option, none, some, List, String, if◌then◌else◌, not, ltb, ltb_ℤ,
  ◌||◌, pos,
}
use tasker.Job.{Time, Duration, Error}
use tasker.Sql.Store.{NodeRow}
use tasker.Sql.Statement.{Result, ok, err, World}
use tasker.Sql.Lease.{is_leader, leader_election, heartbeat, register_node, deregister_node}
use tasker.Channel.{Channel, open_channel, close_channel}

pub record Config : Type 0 where
  pub node_id : String
  pub host : String
  pub port : ℕ
  pub queues : List String
  pub worker_count : ℕ
  pub heartbeat_ttl : Duration
  pub leader_ttl : Duration

-- `loops` counts the loops that have not returned. A loop returns once its context ends: by the
-- cancel of Stop, or with the context that Start was given.
pub record Coordinator : Type 0 where
  pub running : Bool
  pub stopped : Channel
  pub loops : ℕ

abbrev pub new_coordinator : Coordinator
new_coordinator = record { running = false; stopped = open_channel; loops = 0 }

-- RegisterNode sets the time of the last heartbeat.
abbrev pub node_info : Config → Time → NodeRow
node_info cfg started_at = record {
  node_id = cfg.node_id;
  host = cfg.host;
  port = cfg.port;
  queues = cfg.queues;
  workers = cfg.worker_count;
  status = "active";
  started_at = started_at;
  last_heartbeat = started_at;
  version = "1.0.0";
}

-- time.NewTicker, which the loop calls for both, panics for a duration that is not positive; the
-- half is rounded towards 0.
abbrev pub bad_tickers : Config → Bool
bad_tickers cfg = ltb_ℤ cfg.heartbeat_ttl (pos 2) || ltb_ℤ cfg.leader_ttl (pos 1)

abbrev pub looping : Config → Coordinator → World → Option (Result (Unit {0}) × Coordinator × World)
looping cfg c w = if bad_tickers cfg then none else some (ok tt, c, w)

abbrev pub after_register :
    Config
    → Coordinator
    → Result (Unit {0}) × World
    → Option (Result (Unit {0}) × Coordinator × World)
after_register cfg c (err e, w) = some (err e, c, w)
after_register cfg c (ok u, w) =
    looping cfg (record { running = true; stopped = open_channel; loops = suc c.loops }) w

-- `none` is the panic of the new loop, which ends the process.
unfoldable pub start :
    Config → Time → Time → Coordinator → World → Option (Result (Unit {0}) × Coordinator × World)
start cfg started_at now c w =
    if c.running
    then some (ok tt, c, w)
    else after_register cfg c (register_node (node_info cfg started_at) now w)

-- What is closed by Stop; the error of DeregisterNode is logged only.
abbrev pub with_stopped : Coordinator → Option Channel → World → Option (Coordinator × World)
with_stopped c none w = none
with_stopped c (some stopped) w =
    some (record { running = false; stopped = stopped; loops = c.loops - 1 }, w)

-- `none` is a panic.
unfoldable pub stop : Config → Coordinator → World → Option (Coordinator × World)
stop cfg c w =
    if not c.running
    then some (c, w)
    else with_stopped c (close_channel c.stopped) (deregister_node cfg.node_id w).1

-- What the coordinator does with the answer of IsLeader; `elect_at` is read by the election.
abbrev pub if_not_leader : String → Duration → Time → Result Bool × World → World
if_not_leader node ttl elect_at (err e, w) = w
if_not_leader node ttl elect_at (ok true, w) = w
if_not_leader node ttl elect_at (ok false, w) = (leader_election node ttl elect_at w).1

unfoldable pub try_become_leader : String → Duration → Time → Time → World → World
try_become_leader node ttl now elect_at w = if_not_leader node ttl elect_at (is_leader node now w)

-- The heartbeat ticker's call; its error is logged only.
unfoldable pub beat_once : String → Time → World → World
beat_once node now w = (heartbeat node now w).1

-- What happens to a coordinator: its tickers' calls are made only while a loop is live. `cancelled`
-- is the end of the context that Start was given, after which the coordinator is still running.
pub data Event : Type 0 where
  starts : Time → Time → Event
  stops : Event
  beats : Time → Event
  elects : Time → Time → Event
  cancelled : Event

abbrev pub only_state :
    Option (Result (Unit {0}) × Coordinator × World) → Option (Coordinator × World)
only_state none = none
only_state (some (r, c, w)) = some (c, w)

unfoldable pub handle : Config → Event → Coordinator → World → Option (Coordinator × World)
unfolding start stop try_become_leader beat_once
handle cfg (starts started_at now) c w = only_state (start cfg started_at now c w)
handle cfg stops c w = stop cfg c w
handle cfg (beats now) c w = some (c, if ltb 0 c.loops then beat_once cfg.node_id now w else w)
handle cfg (elects now elect_at) c w =
    some
      (c, if ltb 0 c.loops then try_become_leader cfg.node_id cfg.leader_ttl now elect_at w else w)
handle cfg cancelled c w = some (record c { loops = 0 }, w)
