-- ===== src/Manager.antt =====
-- Work and Stop of the Manager of tasker.go: the pools that it keeps itself, beside those of a
-- PoolManager.
pub mod Stops
use tasker.Base.{ℕ, Option, none, some, List, [], ◌∷◌, String}
use tasker.Job.{Error}
use tasker.Sql.Statement.{Result, ok, err}
use tasker.Channel.{Channel, open_channel, close_channel}
use tasker.Pool.{Pool, new_pool, start, stop, set_pool}

-- `node` is the node id of its configuration.
pub record Manager : Type 0 where
  pub node : String
  pub workers : List (String × Pool)
  pub finished : Channel

abbrev pub new_manager : String → Manager
new_manager node = record { node = node; workers = []; finished = open_channel }

-- The pool is put into the map before it is started.
unfoldable pub work : String → ℕ → Manager → Result (Unit {0}) × Manager
work queue concurrency m =
    let (r, pool) = start m.node (new_pool queue concurrency) in
    (r, record m { workers = set_pool queue pool m.workers })

-- The loop of Stop, over the pools in the order in which range meets them. No pool is deleted.
abbrev pub unless_late :
    String
    → List (String × Pool)
    → Result (Unit {0}) × List (String × Pool)
    → Result (Unit {0}) × Pool
    → Result (Unit {0}) × List (String × Pool)
unless_late q ps (r, rest) (ok u, pool) = (r, (q, pool) ∷ rest)
unless_late q ps rest (err e, pool) = (err e, (q, pool) ∷ ps)

unfoldable pub stop_workers :
    (String → Option Error) → List (String × Pool) → Result (Unit {0}) × List (String × Pool)
stop_workers ends [] = (ok tt, [])
stop_workers ends ((q, p) ∷ ps) = unless_late q ps (stop_workers ends ps) (stop (ends q) p)

abbrev pub after_close :
    (String → Option Error) → Manager → Option Channel → Option (Result (Unit {0}) × Manager)
after_close ends m none = none
after_close ends m (some finished) =
    let (r, workers) = stop_workers ends m.workers in
    some (r, record m { workers = workers; finished = finished })

-- `none` is a panic.
unfoldable pub stop_manager :
    (String → Option Error) → Manager → Option (Result (Unit {0}) × Manager)
unfolding stop_workers
stop_manager ends m = after_close ends m (close_channel m.finished)
