-- ===== src/Pool.antt =====
-- Pool and PoolManager of pool.go: which workers a queue has. A worker's goroutine is not modelled
-- here; `stopping` has those whose `stop` was called.
pub mod Numbers
pub mod Stops
use tasker.Base.{
  ℕ, zero, suc, ◌+◌, ◌-◌, Bool, true, false, not, String, Option, none, some, List, [], ◌∷◌, ◌++◌,
  ℤ, pos, pos_part, ltb_ℤ, ltb, take, drop, length, str_eq, if◌then◌else◌, text_append,
}
use tasker.Job.{Error, failure}
use tasker.Sql.Statement.{Result, ok, err}

-- A worker's id is the text "node-queue-index".
pub record WorkerId : Type 0 where
  pub node : String
  pub queue : String
  pub index : ℕ

-- `max_workers` is not negative: `make` panics otherwise.
pub record Pool : Type 0 where
  pub queue : String
  pub max_workers : ℕ
  pub workers : List WorkerId
  pub stopping : List WorkerId
  pub running : Bool

abbrev pub new_pool : String → ℕ → Pool
new_pool queue max_workers = record {
  queue = queue;
  max_workers = max_workers;
  workers = [];
  stopping = [];
  running = false;
}

-- The loops of Start and Scale: `n` workers, from index `i` on.
unfoldable pub new_workers : String → String → ℕ → ℕ → List WorkerId
new_workers node queue i zero = []
new_workers node queue i (suc n) =
    record { node = node; queue = queue; index = i } ∷ new_workers node queue (suc i) n

unfoldable pub start : String → Pool → Result (Unit {0}) × Pool
unfolding new_workers
start node p =
    if p.running
    then (err (failure (text_append "pool already running for queue " p.queue)), p)
    else (ok tt, record p { running = true; workers = new_workers node p.queue 0 p.max_workers })

-- `ctx_err` is the context's error if it ends before the workers do.
unfoldable pub stop : Option Error → Pool → Result (Unit {0}) × Pool
stop ctx_err p = if not p.running then (ok tt, p) else (
  elim ctx_err [ none ↦ ok tt | some e ↦ err e ],
  record p { running = false; stopping = p.stopping ++ p.workers },
)

abbrev pub clamp_target : ℤ → ℕ
clamp_target target = if ltb_ℤ target (pos 1) then 1 else pos_part target

abbrev pub rescale : String → ℕ → Pool → Pool
rescale node target p =
    let current = length p.workers in
    if ltb current target
    then record p { workers = p.workers ++ new_workers node p.queue current (target - current) }
    else if ltb target current
    then record p {
      workers = take target p.workers;
      stopping = p.stopping ++ drop target p.workers;
    }
    else p

unfoldable pub scale : String → ℤ → Pool → Pool
unfolding new_workers
scale node target p = rescale node (clamp_target target) p

-- PoolManager: the map of pools, and the manager's node.
pub record PoolManager : Type 0 where
  pub node : String
  pub pools : List (String × Pool)

abbrev pub find_pool : String → List (String × Pool) → Option Pool
find_pool queue [] = none
find_pool queue ((q, p) ∷ ps) = if str_eq q queue then some p else find_pool queue ps

abbrev pub set_pool : String → Pool → List (String × Pool) → List (String × Pool)
set_pool queue pool [] = (queue, pool) ∷ []
set_pool queue pool ((q, p) ∷ ps) =
    if str_eq q queue then (queue, pool) ∷ ps else (q, p) ∷ set_pool queue pool ps

abbrev pub remove_pool : String → List (String × Pool) → List (String × Pool)
remove_pool queue [] = []
remove_pool queue ((q, p) ∷ ps) = if str_eq q queue then ps else (q, p) ∷ remove_pool queue ps

unfoldable pub start_pool : String → ℕ → PoolManager → Result (Unit {0}) × PoolManager
unfolding start
start_pool queue concurrency pm = elim (find_pool queue pm.pools) [
  | some p ↦ (err (failure (text_append "pool already exists for queue " queue)), pm)
  | none ↦
      let (res, pool) = start pm.node (new_pool queue concurrency) in
      elim res [
        | err e ↦ (err e, pm)
        | ok u ↦ (ok tt, record pm { pools = set_pool queue pool pm.pools })
      ]
]

unfoldable pub stop_pool : String → Option Error → PoolManager → Result (Unit {0}) × PoolManager
unfolding stop
stop_pool queue ctx_err pm = elim (find_pool queue pm.pools) [
  | none ↦ (ok tt, pm)
  | some p ↦
      let (res, pool) = stop ctx_err p in
      elim res [
        | err e ↦ (err e, record pm { pools = set_pool queue pool pm.pools })
        | ok u ↦ (ok tt, record pm { pools = remove_pool queue pm.pools })
      ]
]

unfoldable pub scale_pool : String → ℤ → PoolManager → Result (Unit {0}) × PoolManager
unfolding scale
scale_pool queue target pm = elim (find_pool queue pm.pools) [
  | none ↦ (err (failure (text_append "no pool for queue " queue)), pm)
  | some p ↦ (ok tt, record pm { pools = set_pool queue (scale pm.node target p) pm.pools })
]

abbrev pub total : List (String × Pool) → ℕ
total [] = 0
total ((q, p) ∷ ps) = length p.workers + total ps

unfoldable pub worker_count : PoolManager → ℕ
worker_count pm = total pm.pools

-- One round of the loop of StopAll: a pool that is stopped is deleted, an error ends the loop.
abbrev pub unless_late :
    String
    → List (String × Pool)
    → Result (Unit {0}) × List (String × Pool)
    → Result (Unit {0}) × Pool
    → Result (Unit {0}) × List (String × Pool)
unless_late q ps rest (ok u, pool) = rest
unless_late q ps rest (err e, pool) = (err e, (q, pool) ∷ ps)

-- The loop, over the pools in the order in which range meets them; `ends queue` is the context's
-- error if it ends before the workers of that pool do.
unfoldable pub stop_each :
    (String → Option Error) → List (String × Pool) → Result (Unit {0}) × List (String × Pool)
stop_each ends [] = (ok tt, [])
stop_each ends ((q, p) ∷ ps) = unless_late q ps (stop_each ends ps) (stop (ends q) p)

unfoldable pub stop_all : (String → Option Error) → PoolManager → Result (Unit {0}) × PoolManager
stop_all ends pm = let (res, pools) = stop_each ends pm.pools in (res, record pm { pools = pools })
