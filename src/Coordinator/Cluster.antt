-- ===== src/Coordinator/Cluster.antt =====
-- Several nodes, each with its coordinator, over one database.
pub mod Term
use tasker.Base.{
  ◌-◌, pos, ◌≤◌, ℕ, suc, ◌≡◌, ◌≢◌, refl, sym, ap, subst, ◌⊎◌, inl, inr, Bool, true, false, Option,
  none, some, List, [], ◌∷◌, String, arith, str_eq, eq_iff, eq_refl, ltb_ℤ, leb_ℤ, ◌-ℤ◌, ◌≤ℤ◌, All,
  ℤ, ◌||◌, if◌then◌else◌, change, Bool-cases, if-rule, not, ltb,
}
use tasker.Job.{Time, Duration, Error}
use tasker.Sql.Store.{NodeRow, Db, LeaderRow}
use tasker.Sql.Statement.{Result, ok, err, World, bind-rule, statement-rule, statement}
use tasker.Sql.Lease.{
  is_leader, is_leader_row, leader_election, take_leader, register_node, deregister_node, heartbeat,
}
use tasker.Sql.Leader.{Leads, leader_election-excluded}
use tasker.Channel.{Channel, open_channel, closed_channel, close_channel}
use tasker.Coordinator.{
  Config, Coordinator, Event, if_not_leader, try_become_leader, beat_once, starts, stops, beats,
  elects, cancelled, only_state, bad_tickers, new_coordinator, handle, after_register, with_stopped,
  start, stop,
}

-- The coordinators by the names of their nodes, and the database.
pub record Cluster : Type 0 where
  pub coordinators : String → Coordinator
  pub world : World

abbrev pub put_back : String → Cluster → Option (Coordinator × World) → Option Cluster
put_back node c none = none
put_back node c (some (k, w)) =
    some (record { coordinators = change node k c.coordinators; world = w })

unfoldable pub step : (String → Config) → String → Event → Cluster → Option Cluster
step cfgs node event c = put_back node c (handle (cfgs node) event (c.coordinators node) c.world)

abbrev pub or_panic : (Cluster → Option Cluster) → Option Cluster → Option Cluster
or_panic k none = none
or_panic k (some c) = k c

-- Events of the nodes, in the order in which they happen.
unfoldable pub run : (String → Config) → List (String × Event) → Cluster → Option Cluster
unfolding step
run cfgs [] c = some c
run cfgs ((node, event) ∷ rest) c = or_panic (run cfgs rest) (step cfgs node event c)

abbrev pub loops_if : Bool → ℕ
loops_if true = 1
loops_if false = 0

-- No loop runs but one while the coordinator runs, and then the channel that Stop closes is open.
pub record IsSound (k : Coordinator) : Type 0 where
  pub one_loop : k.loops ≤ loops_if k.running
  pub can_close : k.running ≡ true → k.stopped ≡ open_channel

new-IsSound : IsSound new_coordinator
new-IsSound = record { one_loop = omega arith; can_close = λ h. refl }

abbrev Goes : (Coordinator → Type 0) → Option (Coordinator × World) → Type 0
Goes P none = ⊥
Goes P (some (k, w)) = P k

-- Durations for which time.NewTicker does not panic.
abbrev pub CanTick : Config → Type 0
CanTick cfg = (pos 2 ≤ℤ cfg.heartbeat_ttl) × (pos 1 ≤ℤ cfg.leader_ttl)

starts-IsSound :
    (cfg : Config) (k : Coordinator) (r : Result (Unit {0}) × World)
    → CanTick cfg
    → IsSound k
    → k.running ≡ false
    → Goes IsSound (only_state (after_register cfg k r))
starts-IsSound cfg k (err e, w) can s h = s
starts-IsSound cfg k (ok u, w) can s h =
    if-rule (λ (o : Option (Result (Unit {0}) × Coordinator × World)). Goes IsSound (only_state o))
      (bad_tickers cfg) _ _ (λ bad. absurd (ground arith))
      (λ good. record { one_loop = one_more s.one_loop; can_close = λ _. refl })
  where
    one_more : k.loops ≤ loops_if k.running → suc k.loops ≤ 1
    one_more few = ground arith

stops-IsSound :
    (k : Coordinator) (w : World)
    → IsSound k
    → k.running ≡ true
    → Goes IsSound (with_stopped k (close_channel k.stopped) w)
stops-IsSound k w s h =
    rw (s.can_close h) (record { one_loop = one_less s.one_loop; can_close = λ e. cc })
  where
    one_less : k.loops ≤ loops_if k.running → k.loops - 1 ≤ 0
    one_less few = ground arith

handle-IsSound :
    (cfg : Config) (event : Event) (k : Coordinator) (w : World)
    → CanTick cfg
    → IsSound k
    → Goes IsSound (handle cfg event k w)
unfolding handle start stop
handle-IsSound cfg (starts started_at now) k w can s =
    if-rule (λ (o : Option (Result (Unit {0}) × Coordinator × World)). Goes IsSound (only_state o))
      k.running _ _ (λ e. s) (λ e. starts-IsSound cfg k _ can s e)
handle-IsSound cfg stops k w can s =
    if-rule (Goes IsSound) (not k.running) _ _ (λ e. s) (λ e. stops-IsSound k _ s (ground arith))
handle-IsSound cfg (beats now) k w can s = s
handle-IsSound cfg (elects now elect_at) k w can s = s
handle-IsSound cfg cancelled k w can s = record { one_loop = omega arith; can_close = s.can_close }

abbrev pub AllSound : Cluster → Type 0
AllSound c = (node : String) → IsSound (c.coordinators node)

abbrev pub Ends : Option Cluster → Type 0
Ends o = (c : Cluster) × (o ≡ some c) × AllSound c

change-IsSound :
    (node : String) (k : Coordinator) (c : Cluster)
    → IsSound k
    → AllSound c
    → (other : String) → IsSound (change node k c.coordinators other)
change-IsSound node k c s all other =
    if-rule IsSound (str_eq node other) _ _ (λ e. s) (λ e. all other)

put_back-Ends :
    (node : String) (c : Cluster) (o : Option (Coordinator × World))
    → Goes IsSound o
    → AllSound c
    → Ends (put_back node c o)
put_back-Ends node c none s all = absurd s
put_back-Ends node c (some (k, w)) s all = (_, refl, change-IsSound node k c s all)

or_panic-Ends :
    (f : Cluster → Option Cluster) (o : Option Cluster)
    → ((c : Cluster) → AllSound c → Ends (f c))
    → Ends o
    → Ends (or_panic f o)
or_panic-Ends f none h (c, e, all) = let never : true ≡ false = ground arith in cc
or_panic-Ends f (some d) h (c, e, all) =
    let same_one : c ≡ d = cc in h d (subst AllSound same_one all)

pub run-Ends :
    (cfgs : String → Config) (events : List (String × Event)) (c : Cluster)
    → ((node : String) → CanTick (cfgs node))
    → AllSound c
    → Ends (run cfgs events c)
unfolding run step
run-Ends cfgs [] c can all = (c, refl, all)
run-Ends cfgs ((node, event) ∷ rest) c can all =
    or_panic-Ends (run cfgs rest) _ (λ d all_d. run-Ends cfgs rest d can all_d)
      (put_back-Ends node c _
        (handle-IsSound (cfgs node) event (c.coordinators node) c.world (can node) (all node)) all)

-- New coordinators of any nodes, over any tables, with a heartbeat ttl of two nanoseconds at least
-- and a positive leader ttl, never panic, whatever calls of Start and Stop, ticks and ends of the
-- contexts that Start was given come in whatever order and whichever statements fail: afterwards no
-- coordinator has a loop but one while it is running, and then a channel that Stop can close.
pub run-never_panics :
    (cfgs : String → Config) (events : List (String × Event)) (w : World)
    → ((node : String) → CanTick (cfgs node))
    → Ends (run cfgs events (record { coordinators = λ node. new_coordinator; world = w }))
run-never_panics cfgs events w can = run-Ends cfgs events _ can (λ node. new-IsSound)
