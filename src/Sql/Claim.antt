-- ===== src/Sql/Claim.antt =====
-- Claim of driver/sqldriver/driver.go, in its three dialects. Rows that another transaction has
-- locked do not occur: one statement or transaction runs at a time.
use tasker.Base.{
  ℕ, ◌+◌, ◌-◌, Bool, ◌||◌, ◌&&◌, Option, none, some, List, [], ◌∷◌, ◌++◌, String, map, ℤ, pos,
  pos_part, leb, ◌==◌, ltb_ℤ, leb_ℤ, eqb_ℤ, str_eq, if◌then◌else◌, any, select, take, drop, length,
}
use tasker.Job.{available, scheduled, retryable, running, Time, JobRow}
use tasker.Sql.Store.{Db, Dialect, postgres, mysql, sqlite, update_where, state_in}
use tasker.Sql.Statement.{ok, M, ◌>>=◌, ◌>>◌, pure, statement, transaction}

-- WHERE queue = … AND state IN (…) AND scheduled_at <= now AND attempt < max_attempts.
abbrev pub eligible : Time → String → JobRow → Bool
eligible now queue r =
    str_eq r.queue queue
    && (state_in (available ∷ scheduled ∷ retryable ∷ []) r
        && (leb_ℤ r.scheduled_at now && ltb_ℤ (pos r.attempt) r.max_attempts))

-- ORDER BY priority DESC, scheduled_at ASC, id ASC.
unfoldable pub before : JobRow → JobRow → Bool
before r s =
    ltb_ℤ s.priority r.priority
    || (eqb_ℤ r.priority s.priority
        && (ltb_ℤ r.scheduled_at s.scheduled_at
            || (eqb_ℤ r.scheduled_at s.scheduled_at && leb r.id s.id)))

unfoldable pub insert_row : JobRow → List JobRow → List JobRow
insert_row r [] = r ∷ []
insert_row r (s ∷ rs) = if before r s then r ∷ s ∷ rs else s ∷ insert_row r rs

unfoldable pub order_rows : List JobRow → List JobRow
unfolding insert_row before
order_rows [] = []
order_rows (r ∷ rs) = insert_row r (order_rows rs)

-- The selected ids: SELECT id … ORDER BY … LIMIT max.
unfoldable pub chosen : Time → String → ℕ → List JobRow → List ℕ
unfolding order_rows
chosen now queue max jobs =
    map (λ r. r.id) (take max (order_rows (select (eligible now queue) jobs)))

abbrev pub id_in : List ℕ → JobRow → Bool
id_in ids r = any (λ id. id == r.id) ids

-- At 50 names PostgreSQL keeps the last 49; the others drop the first.
abbrev pub push_attempt : Dialect → String → List String → List String
push_attempt postgres node names =
    (if leb 50 (length names) then drop (length names - 49) names else names) ++ node ∷ []
push_attempt mysql node names = (if leb 50 (length names) then drop 1 names else names) ++ node ∷ []
push_attempt sqlite node names =
    (if leb 50 (length names) then drop 1 names else names) ++ node ∷ []

abbrev pub coalesce : Option Time → Time → Time
coalesce none now = now
coalesce (some t) now = t

abbrev pub claim_row : Dialect → String → Time → JobRow → JobRow
claim_row dialect node now r = record r {
  state = running;
  attempt = r.attempt + 1;
  attempted_at = some now;
  started_at = some (coalesce r.started_at now);
  node_id = node;
  attempted_by = push_attempt dialect node r.attempted_by;
}

abbrev pub claim_ids : Dialect → String → Time → List ℕ → Db → Db
claim_ids dialect node now ids d = record d {
  jobs = update_where (id_in ids) (claim_row dialect node now) d.jobs;
}

-- claimSkipLocked and claimTransaction: one UPDATE … RETURNING. The order of the rows that it
-- returns is the engine's; here it is the table's.
unfoldable pub claim_update : Dialect → String → String → Time → ℕ → M (List JobRow)
unfolding chosen
claim_update dialect queue node now max = statement λ d.
    let ids = chosen now queue max d.jobs in
    let d' = claim_ids dialect node now ids d in (ok (select (id_in ids) d'.jobs), d')

unfoldable pub update_and_read : String → Time → List ℕ → M (List JobRow)
unfolding order_rows
update_and_read node now [] = pure []
update_and_read node now (id ∷ ids) = do
  statement (λ d. (ok tt, claim_ids mysql node now (id ∷ ids) d))
  statement (λ d. (ok (order_rows (select (id_in (id ∷ ids)) d.jobs)), d))

-- claimMySQL: select, update and read again in one transaction.
unfoldable pub claim_mysql : String → String → Time → ℕ → M (List JobRow)
unfolding chosen update_and_read
claim_mysql queue node now max =
    transaction
      do ids ← statement (λ d. (ok (chosen now queue max d.jobs), d)); update_and_read node now ids

unfoldable pub by_dialect : Dialect → String → String → Time → ℕ → M (List JobRow)
unfolding claim_update claim_mysql
by_dialect mysql queue node now max = claim_mysql queue node now max
by_dialect postgres queue node now max = claim_update postgres queue node now max
by_dialect sqlite queue node now max = claim_update sqlite queue node now max

unfoldable pub claim : Dialect → String → String → Time → ℤ → M (List JobRow)
unfolding by_dialect
claim dialect queue node now max =
    if leb_ℤ max (pos 0) then pure [] else by_dialect dialect queue node now (pos_part max)
