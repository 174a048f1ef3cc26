-- ===== src/Coordinator/Cluster/Term.antt =====
-- How long a lease lasts: other nodes' elections within their ttl leave it alone.
use tasker.Base.{
  ◌≡◌, ◌≢◌, refl, sym, subst, ◌⊎◌, inl, inr, Bool, true, false, Option, none, some, List, [], ◌∷◌,
  String, arith, str_eq, eq_iff, ltb_ℤ, leb_ℤ, ◌-ℤ◌, ◌≤ℤ◌, All, ℤ, ◌||◌, any, count, ◌==◌, if-rule,
  not, ltb,
}
use tasker.Job.{Time, Duration, Error}
use tasker.Sql.Store.{NodeRow, Db, LeaderRow}
use tasker.Sql.Statement.{Result, ok, err, World, bind-rule, statement-rule, statement, M}
use tasker.Sql.Lease.{
  beat, look_again, is_node, is_leader, is_leader_row, leader_election, take_leader, register_node,
  deregister_node, heartbeat,
}
use tasker.Sql.Leader.{Leads, leader_election-excluded}
use tasker.Channel.{Channel}
use tasker.Coordinator.Cluster.{CanTick, Cluster, AllSound, run-Ends, step, run, put_back, or_panic}
use tasker.Coordinator.{
  Config, Coordinator, Event, if_not_leader, try_become_leader, beat_once, starts, stops, beats,
  elects, cancelled, only_state, bad_tickers, handle, after_register, with_stopped, start, stop,
}

-- The owner's lease, with a beat no earlier than `since`.
pub record Holds (owner : String) (since : Time) (o : Option LeaderRow) : Type 0 where
  pub row : LeaderRow
  pub is_row : o ≡ some row
  pub is_owner : row.node_id ≡ owner
  pub kept_since : since ≤ℤ row.last_heartbeat

-- An election of another node before its ttl is over, or of the owner after `since`.
abbrev pub InTerm : String → Time → Config → Event → Type 0
InTerm owner since cfg (elects now elect_at) =
    ((owner ≢ cfg.node_id) × (ltb_ℤ (elect_at -ℤ cfg.leader_ttl) since ≡ true))
    ⊎ ((owner ≡ cfg.node_id) × (since ≤ℤ elect_at))
InTerm owner since cfg _ = Unit

ltb_ℤ-le : (a b c : ℤ) → ltb_ℤ a b ≡ true → b ≤ℤ c → ltb_ℤ a c ≡ true
ltb_ℤ-le a b c h k = ground arith

abbrev renewed : String → Time → Db → Db
renewed owner now d = record d {
  leader = some (record { node_id = owner; started_at = now; last_heartbeat = now });
}

module _ (owner : String) (since : Time) where
  take-own :
      (ttl : Duration) (now : Time) (d : Db)
      → Holds owner since d.leader
      → take_leader owner now ttl d ≡ (ok 1, renewed owner now d)
  take-own ttl now d h =
      let own : (str_eq h.row.node_id owner || leb_ℤ h.row.last_heartbeat (now -ℤ ttl)) ≡ true =
        ground (arith, eq_iff h.row.node_id owner) in
      rw (h.is_row, take_leader) (rw own refl)

  Holds-Leads :
      (ttl : Duration) (now : Time) (o : Option LeaderRow)
      → ltb_ℤ (now -ℤ ttl) since ≡ true
      → Holds owner since o
      → Leads owner ttl now o
  Holds-Leads ttl now o young h = record {
    row = h.row;
    is_row = h.is_row;
    is_owner = h.is_owner;
    alive = ltb_ℤ-le (now -ℤ ttl) since h.row.last_heartbeat young h.kept_since;
  }

  -- The owner's own election renews its lease or leaves it.
  leader_election-Holds :
      (ttl : Duration) (now : Time) (w : World)
      → since ≤ℤ now
      → Holds owner since w.db.leader
      → Holds owner since (leader_election owner ttl now w).1.db.leader
  unfolding leader_election
  leader_election-Holds ttl now w later h =
      bind-rule (take_leader owner now ttl) w _ (λ p. Holds owner since p.1.db.leader) (λ e fs. h)
        (λ fs.
          rw (take-own ttl now w.db h)
            (record { row = _; is_row = refl; is_owner = refl; kept_since = later }))

  election-Holds :
      (cfg : Config) (now elect_at : Time) (w : World)
      → InTerm owner since cfg (elects now elect_at)
      → Holds owner since w.db.leader
      → Holds owner since (leader_election cfg.node_id cfg.leader_ttl elect_at w).1.db.leader
  election-Holds cfg now elect_at w (inl (others, young)) h =
      subst (Holds owner since)
        (sym
          (leader_election-excluded owner cfg.node_id cfg.leader_ttl elect_at w others
            (Holds-Leads cfg.leader_ttl elect_at _ young h)).1)
        h
  election-Holds cfg now elect_at w (inr (own, later)) h =
      subst
        (λ (n : String).
          Holds owner since (leader_election n cfg.leader_ttl elect_at w).1.db.leader)
        own (leader_election-Holds cfg.leader_ttl elect_at w later h)

  answered-Holds :
      (cfg : Config) (now elect_at : Time) (r : Result Bool) (v : World)
      → InTerm owner since cfg (elects now elect_at)
      → Holds owner since v.db.leader
      → Holds owner since (if_not_leader cfg.node_id cfg.leader_ttl elect_at (r, v)).db.leader
  answered-Holds cfg now elect_at (err e) v t h = h
  answered-Holds cfg now elect_at (ok true) v t h = h
  answered-Holds cfg now elect_at (ok false) v t h = election-Holds cfg now elect_at v t h

  try_become_leader-Holds :
      (cfg : Config) (now elect_at : Time) (w : World)
      → InTerm owner since cfg (elects now elect_at)
      → Holds owner since w.db.leader
      → Holds owner since (try_become_leader cfg.node_id cfg.leader_ttl now elect_at w).db.leader
  unfolding try_become_leader is_leader
  try_become_leader-Holds cfg now elect_at w t h =
      statement-rule (λ d. (ok (is_leader_row cfg.node_id now d.leader), d)) w
        (λ p. Holds owner since (if_not_leader cfg.node_id cfg.leader_ttl elect_at p).db.leader)
        (λ e fs. h)
        (λ fs.
          answered-Holds cfg now elect_at (ok (is_leader_row cfg.node_id now w.db.leader))
            (record { db = w.db; faults = fs }) t h)

  -- A statement on another table.
  elsewhere-Holds :
      {A : Type 0} (f : Db → Result A × Db) (w : World)
      → ((d : Db) → (f d).1.leader ≡ d.leader)
      → Holds owner since w.db.leader
      → Holds owner since (statement f w).1.db.leader
  elsewhere-Holds f w same h =
      statement-rule f w (λ p. Holds owner since p.1.db.leader) (λ e fs. h)
        (λ fs. subst (Holds owner since) (sym (same w.db)) h)

  look_again-Holds :
      (node : String) (w : World)
      → Holds owner since w.db.leader
      → Holds owner since (look_again node w).1.db.leader
  look_again-Holds node w h =
      bind-rule (λ d. (ok (count (is_node node) d.nodes), d)) w _
        (λ p. Holds owner since p.1.db.leader) (λ e fs. h)
        (λ fs.
          if-rule
            (λ (m : M (Unit {0})).
              Holds owner since (m (record { db = w.db; faults = fs })).1.db.leader)
            (count (is_node node) w.db.nodes == 0) _ _ (λ e. h) (λ e. h))

  heartbeat-Holds :
      (node : String) (now : Time) (w : World)
      → Holds owner since w.db.leader
      → Holds owner since (beat_once node now w).db.leader
  unfolding beat_once heartbeat
  heartbeat-Holds node now w h =
      bind-rule (beat node now) w _ (λ p. Holds owner since p.1.db.leader) (λ e fs. h)
        (λ fs.
          if-rule (λ (m : M (Unit {0})). Holds owner since (m (beaten fs)).1.db.leader)
            (count (is_node node) w.db.nodes == 0) _ _ (λ e. look_again-Holds node (beaten fs) h)
            (λ e. h))
    where
      beaten : List (Option Error) → World
      beaten fs = record { db = (beat node now w.db).1; faults = fs }

  register-Holds :
      (n : NodeRow) (now : Time) (w : World)
      → Holds owner since w.db.leader
      → Holds owner since (register_node n now w).1.db.leader
  unfolding register_node
  register-Holds n now w h =
      elsewhere-Holds _ w
        (λ d.
          if-rule (λ (p : Result (Unit {0}) × Db). p.1.leader ≡ d.leader)
            (any (is_node n.node_id) d.nodes) _ _ (λ e. refl) (λ e. refl))
        h

  deregister-Holds :
      (node : String) (w : World)
      → Holds owner since w.db.leader
      → Holds owner since (deregister_node node w).1.db.leader
  unfolding deregister_node
  deregister-Holds node w h = elsewhere-Holds _ w (λ d. refl) h

  abbrev HoldsAfter : Option (Coordinator × World) → Type 0
  HoldsAfter none = Unit
  HoldsAfter (some (k, w)) = Holds owner since w.db.leader

  after_register-Holds :
      (cfg : Config) (k : Coordinator) (p : Result (Unit {0}) × World)
      → Holds owner since p.1.db.leader
      → HoldsAfter (only_state (after_register cfg k p))
  after_register-Holds cfg k (ok u, w) h =
      if-rule (λ (o : Option (Result (Unit {0}) × Coordinator × World)). HoldsAfter (only_state o))
        (bad_tickers cfg) _ _ (λ e. tt) (λ e. h)
  after_register-Holds cfg k (err e, w) h = h

  with_stopped-Holds :
      (k : Coordinator) (o : Option Channel) (w : World)
      → Holds owner since w.db.leader
      → HoldsAfter (with_stopped k o w)
  with_stopped-Holds k none w h = tt
  with_stopped-Holds k (some ch) w h = h

  handle-Holds :
      (cfg : Config) (event : Event) (k : Coordinator) (w : World)
      → InTerm owner since cfg event
      → Holds owner since w.db.leader
      → HoldsAfter (handle cfg event k w)
  unfolding handle start stop
  handle-Holds cfg (starts started_at now) k w t h =
      if-rule (λ (o : Option (Result (Unit {0}) × Coordinator × World)). HoldsAfter (only_state o))
        k.running _ _ (λ e. h) (λ e. after_register-Holds cfg k _ (register-Holds _ now w h))
  handle-Holds cfg stops k w t h =
      if-rule HoldsAfter (not k.running) _ _ (λ e. h)
        (λ e. with_stopped-Holds k _ _ (deregister-Holds cfg.node_id w h))
  handle-Holds cfg (beats now) k w t h =
      if-rule (λ (v : World). Holds owner since v.db.leader) (ltb 0 k.loops) _ _
        (λ e. heartbeat-Holds cfg.node_id now w h) (λ e. h)
  handle-Holds cfg (elects now elect_at) k w t h =
      if-rule (λ (v : World). Holds owner since v.db.leader) (ltb 0 k.loops) _ _
        (λ e. try_become_leader-Holds cfg now elect_at w t h) (λ e. h)
  handle-Holds cfg cancelled k w t h = h

  abbrev ClusterHolds : Option Cluster → Type 0
  ClusterHolds none = Unit
  ClusterHolds (some c) = Holds owner since c.world.db.leader

  put_back-Holds :
      (node : String) (c : Cluster) (o : Option (Coordinator × World))
      → HoldsAfter o
      → ClusterHolds (put_back node c o)
  put_back-Holds node c none h = tt
  put_back-Holds node c (some (k, w)) h = h

  or_panic-Holds :
      (f : Cluster → Option Cluster) (o : Option Cluster)
      → ((c : Cluster) → Holds owner since c.world.db.leader → ClusterHolds (f c))
      → ClusterHolds o
      → ClusterHolds (or_panic f o)
  or_panic-Holds f none h p = tt
  or_panic-Holds f (some c) h p = h c p

  run-Holds :
      (cfgs : String → Config) (events : List (String × Event)) (c : Cluster)
      → All (λ (p : String × Event). InTerm owner since (cfgs p.0) p.1) events
      → Holds owner since c.world.db.leader
      → ClusterHolds (run cfgs events c)
  unfolding run step
  run-Holds cfgs [] c t h = h
  run-Holds cfgs ((node, event) ∷ rest) c t h =
      or_panic-Holds (run cfgs rest) _ (λ d p. run-Holds cfgs rest d t.1 p)
        (put_back-Holds node c _
          (handle-Holds (cfgs node) event (c.coordinators node) c.world t.0 h))

not_leading :
    (owner other : String) (since now : Time) (o : Option LeaderRow)
    → owner ≢ other
    → Holds owner since o
    → is_leader_row other now o ≡ false
not_leading owner other since now o others h =
    rw (h.is_row, is_leader_row) (ground (arith, eq_iff h.row.node_id other))

-- While the coordinators of any nodes, with ttls for which the tickers do not panic, start, stop,
-- beat, try to become leader and have their contexts end, in any order and with any statements
-- failing, none panics and the lease of a node stays its own, with a beat no earlier than the one
-- it had: where each election of another node reads a time at which the lease, counted from that
-- beat, is younger than that node's ttl, and each of the owner a time not before the beat. No other
-- node is then told that it is the leader.
pub lead_term :
    (owner other : String) (since now : Time) (cfgs : String → Config)
    (events : List (String × Event)) (c : Cluster)
    → owner ≢ other
    → ((node : String) → CanTick (cfgs node))
    → AllSound c
    → All (λ (p : String × Event). InTerm owner since (cfgs p.0) p.1) events
    → Holds owner since c.world.db.leader
    → (d : Cluster) × (run cfgs events c ≡ some d)
      × Holds owner since d.world.db.leader
      × (is_leader_row other now d.world.db.leader ≡ false)
lead_term owner other since now cfgs events c others can sound t h =
    let (d, e, s) = run-Ends cfgs events c can sound in
    let held : Holds owner since d.world.db.leader =
      subst (ClusterHolds owner since) e (run-Holds owner since cfgs events c t h) in
    (d, e, held, not_leading owner other since now _ others held)
