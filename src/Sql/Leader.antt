-- ===== src/Sql/Leader.antt =====
-- Who may lead: the lease in the one row of `leader`.
use tasker.Base.{
  ◌≡◌, refl, ap, ◌≢◌, Bool, true, false, ◌||◌, Option, some, String, arith, str_eq, eq_iff, ltb_ℤ,
  leb_ℤ, ◌-ℤ◌,
}
use tasker.Job.{Time, Duration}
use tasker.Sql.Store.{Db, LeaderRow}
use tasker.Sql.Statement.{Result, ok, World, bind-rule, statement-rule}
use tasker.Sql.Lease.{leader_election, take_leader, insert_leader, read_leader, elect_fresh}

-- Another node's lease is live: its row names it and its beat is younger than the ttl.
pub record Leads (owner : String) (ttl : Duration) (now : Time) (o : Option LeaderRow)
    : Type 0 where
  pub row : LeaderRow
  pub is_row : o ≡ some row
  pub is_owner : row.node_id ≡ owner
  pub alive : ltb_ℤ (now -ℤ ttl) row.last_heartbeat ≡ true

module _ (owner node : String) (ttl : Duration) (now : Time) (others : owner ≢ node) where
  abbrev Refused : Option LeaderRow → Result Bool × World → Type 0
  Refused before (r, w) = (r ≢ ok true) × (w.db.leader ≡ before)

  take-none : (d : Db) → Leads owner ttl now d.leader → take_leader node now ttl d ≡ (ok 0, d)
  take-none d l =
      let stays : (str_eq l.row.node_id node || leb_ℤ l.row.last_heartbeat (now -ℤ ttl)) ≡ false =
        ground (arith, eq_iff l.row.node_id node) in
      rw (l.is_row, take_leader)
        (rw stays (ap (λ (o : Option LeaderRow). (Result.ok 0, record d { leader = o })) l.is_row))

  elect_fresh-Refused :
      (w : World) → Leads owner ttl now w.db.leader → Refused w.db.leader (elect_fresh node now w)
  elect_fresh-Refused w l =
      bind-rule (insert_leader node now) w _ (Refused w.db.leader) (λ e fs. ((λ bad. cc), refl))
        (λ fs. rw l.is_row (
          statement-rule (read_leader node) _ (Refused (some l.row)) (λ e gs. ((λ bad. cc), refl))
            (λ gs. ((λ bad. ground (arith, eq_iff l.row.node_id node)), refl))))

-- While another node's lease is live, an election by this node does not win and does not change the
-- lease, whatever fails on the way.
pub leader_election-excluded :
    (owner node : String) (ttl : Duration) (now : Time) (w : World)
    → owner ≢ node
    → Leads owner ttl now w.db.leader
    → let (r, v) = leader_election node ttl now w in (r ≢ ok true) × (v.db.leader ≡ w.db.leader)
unfolding leader_election
leader_election-excluded owner node ttl now w others l =
    bind-rule (take_leader node now ttl) w _ (Refused owner node ttl now others w.db.leader)
      (λ e fs. ((λ bad. cc), refl))
      (λ fs.
        rw (take-none owner node ttl now others w.db l)
          (elect_fresh-Refused owner node ttl now others _ l))
