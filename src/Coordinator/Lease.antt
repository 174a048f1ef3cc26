-- ===== src/Coordinator/Lease.antt =====
-- What a tick of the coordinator does to a lease that is live.
use tasker.Base.{◌≡◌, ◌≢◌, refl, ◌⊎◌, inl, inr, Bool, true, false, String}
use tasker.Job.{Time, Duration}
use tasker.Sql.Statement.{ok, World, statement-rule}
use tasker.Sql.Lease.{is_leader, is_leader_row}
use tasker.Sql.Leader.{Leads, leader_election-excluded}
use tasker.Coordinator.{if_not_leader, try_become_leader}

module _ (node : String) (ttl : Duration) (now elect_at : Time) (w : World) where
  answered :
      (b : Bool) (v : World)
      → v.db ≡ w.db
      → ((b ≡ true) ⊎ ((owner : String) × (owner ≢ node) × Leads owner ttl elect_at v.db.leader))
      → (if_not_leader node ttl elect_at (ok b, v)).db.leader ≡ v.db.leader
  answered true v same h = refl
  answered false v same (inl e) = cc
  answered false v same (inr (owner, others, l)) =
      (leader_election-excluded owner node ttl elect_at v others l).1

  -- A tick does not touch a lease that is live: neither another node's, which is younger than the ttl
  -- when the election reads the clock, nor the node's own, which IsLeader still accepts and which is
  -- therefore not renewed before it lapses.
  try_become_leader-unchanged :
      ((is_leader_row node now w.db.leader ≡ true)
        ⊎ ((owner : String) × (owner ≢ node) × Leads owner ttl elect_at w.db.leader))
      → (try_become_leader node ttl now elect_at w).db.leader ≡ w.db.leader
  unfolding try_become_leader is_leader
  try_become_leader-unchanged h =
      statement-rule (λ d. (ok (is_leader_row node now d.leader), d)) w
        (λ p. (if_not_leader node ttl elect_at p).db.leader ≡ w.db.leader) (λ e fs. refl)
        (λ fs. answered _ (record { db = w.db; faults = fs }) refl h)
