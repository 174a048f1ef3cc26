-- ===== src/Sql/Changes/Claims.antt =====
-- A claim, in each dialect, changes only rows that it may take.
use tasker.Base.{
  ℕ, ◌≡◌, refl, inl, inr, true, Option, none, some, List, [], ◌∷◌, String, ℤ, pos, arith, subst,
  sym, All-imp, Bool-cases, leb_ℤ, pos_part,
}
use tasker.Job.{Time, JobRow, Error}
use tasker.Sql.Store.{Db, Dialect, postgres, mysql, sqlite}
use tasker.Sql.Statement.{
  Result, ok, err, World, M, and_then, ◌>>=◌, ◌>>◌, statement, run_statement,
}
use tasker.Sql.Keys.{IsKeyed, chosen-eligible}
use tasker.Sql.Claim
use tasker.Sql.Claim.{eligible, chosen, claim_ids, update_and_read, by_dialect}
use tasker.Sql.Changes.{
  Label, claiming, Move, Change, Changes, one, Does, statement-Does, statement-Changes,
  and_then-Does, transaction-Does,
}

eligible-Move :
    (dialect : Dialect) (node queue : String) (now : Time) (r : JobRow)
    → eligible now queue r ≡ true
    → Move claiming r (Claim.claim_row dialect node now r)
eligible-Move dialect node queue now r h =
    Move.claim r dialect node now (ground arith) (ground arith) (ground arith)

module _ (L : Label → Type 0) where
  claims :
      (dialect : Dialect) (queue node : String) (now : Time) (max : ℕ) (d : Db)
      → L claiming
      → IsKeyed d
      → Changes L d (claim_ids dialect node now (chosen now queue max d.jobs) d)
  claims dialect queue node now max d allowed k = one L (
      Change.update d claiming _ _ allowed (
        All-imp _ _ (λ r pass h. eligible-Move dialect node queue now r (pass h)) d.jobs
          (chosen-eligible now queue max 0 d.next_id d.jobs k)))

  pub claim_update-Does :
      (dialect : Dialect) (queue node : String) (now : Time) (max : ℕ)
      → L claiming
      → Does L (Claim.claim_update dialect queue node now max)
  unfolding Claim.claim_update
  claim_update-Does dialect queue node now max allowed =
      statement-Does L _ (λ d k. claims dialect queue node now max d allowed k)

  -- What a reading statement found is what the tables hold after it.
  read-cases :
      {A : Type 0} (g : Db → A) (w : World) (P : Result A × World → Type 0)
      → ((e : Error) (fs : List (Option Error)) → P (err e, record w { faults = fs }))
      → ((fs : List (Option Error)) → P (ok (g w.db), record w { faults = fs }))
      → P (statement (λ d. (ok (g d), d)) w)
  unfolding statement
  read-cases g w P broken found = go w.faults
    where
      go : (fs : List (Option Error)) → P (run_statement fs w.db (λ d. (ok (g d), d)))
      go [] = found []
      go (none ∷ rest) = found rest
      go (some e ∷ rest) = broken e rest

  >>-Changes :
      {B : Type 0} (w : World) (m : M (Unit {0})) (n : M B)
      → IsKeyed w.db
      → Changes L w.db (m w).1.db
      → Does L n
      → Changes L w.db ((m >> n) w).1.db
  unfolding ◌>>=◌ ◌>>◌
  >>-Changes w m n k c does = and_then-Does L w.db (m w) _ k c (λ _. does)

  update_and_read-Changes :
      (queue node : String) (now : Time) (max : ℕ) (ids : List ℕ) (w : World)
      → ids ≡ chosen now queue max w.db.jobs
      → L claiming
      → IsKeyed w.db
      → Changes L w.db (update_and_read node now ids w).1.db
  unfolding update_and_read
  update_and_read-Changes queue node now max [] w e allowed k = Changes.here
  update_and_read-Changes queue node now max (id ∷ ids) w e allowed k =
      >>-Changes w _ _ k
        (statement-Changes L _ w (
          subst (λ is. Changes L w.db (claim_ids mysql node now is w.db)) (sym e)
            (claims mysql queue node now max w.db allowed k)))
        (statement-Does L _ (λ d k. Changes.here))

  claim_mysql-Does :
      (queue node : String) (now : Time) (max : ℕ)
      → L claiming
      → Does L (Claim.claim_mysql queue node now max)
  unfolding Claim.claim_mysql ◌>>=◌
  claim_mysql-Does queue node now max allowed = transaction-Does L _ body
    where
      body :
          Does L
            (statement (λ d. (ok (chosen now queue max d.jobs), d)) >>= update_and_read node now)
      body w k =
          read-cases (λ d. chosen now queue max d.jobs) w
            (λ p. Changes L w.db (and_then p (update_and_read node now)).1.db)
            (λ e fs. Changes.here)
            (λ fs.
              update_and_read-Changes queue node now max _ (record w { faults = fs }) refl allowed
                k)

  pub claim-Does :
      (dialect : Dialect) (queue node : String) (now : Time) (max : ℤ)
      → L claiming
      → Does L (Claim.claim dialect queue node now max)
  unfolding Claim.claim
  claim-Does dialect queue node now max allowed = elim (Bool-cases (leb_ℤ max (pos 0))) [
    | inl none_ ↦ rw none_ (λ w k. Changes.here)
    | inr some_ ↦ rw some_ (by_dialect-Does dialect)
  ]
    where
      by_dialect-Does :
          (dialect : Dialect) → Does L (by_dialect dialect queue node now (pos_part max))
      by_dialect-Does postgres = claim_update-Does postgres queue node now (pos_part max) allowed
      by_dialect-Does mysql = claim_mysql-Does queue node now (pos_part max) allowed
      by_dialect-Does sqlite = claim_update-Does sqlite queue node now (pos_part max) allowed
