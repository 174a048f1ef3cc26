-- ===== src/Sql/Enqueue.antt =====
-- Enqueue and EnqueueBatch of driver/sqldriver/driver.go.
use tasker.Base.{ℕ, suc, Option, none, some, List, [], ◌∷◌, ◌++◌, map, str_eq, if◌then◌else◌, any}
use tasker.Job.{JobRow, failure}
use tasker.Sql.Store.{Db}
use tasker.Sql.Statement.{Result, ok, err, World, M, ◌>>=◌, pure, throw, statement, control}

-- The columns of jobInsertQuery; those that it leaves out are NULL.
abbrev pub stored_row : ℕ → JobRow → JobRow
stored_row id r = record r {
  id = id;
  attempted_at = none;
  output = [];
  started_at = none;
  completed_at = none;
  finalized_at = none;
  node_id = "";
}

-- The insert, which the UNIQUE constraint on uuid can refuse.
unfoldable pub insert_job : JobRow → Db → Result ℕ × Db
insert_job row d =
    if any (λ r. str_eq r.uuid row.uuid) d.jobs
    then (err (failure "UNIQUE constraint failed: uuid"), d)
    else (
      ok d.next_id,
      record d { jobs = d.jobs ++ stored_row d.next_id row ∷ []; next_id = suc d.next_id },
    )

-- The row comes back with its new id.
unfoldable pub enqueue : Option JobRow → M JobRow
unfolding insert_job
enqueue none = throw (failure "enqueue nil job")
enqueue (some row) = do id ← statement (insert_job row); pure (record row { id = id })

-- The result of a call that also writes to the rows it was given.
abbrev pub Written : Type 0
Written = Result (Unit {0}) × List JobRow × World

abbrev pub keep_going : JobRow → Written → Written
keep_going r (res, rs, w) = (res, r ∷ rs, w)

abbrev pub after_insert : JobRow → List JobRow → (World → Written) → Result ℕ × World → Written
after_insert r rs rest (ok id, w) = keep_going (record r { id = id }) (rest w)
after_insert r rs rest (err e, w) = (err e, r ∷ rs, w)

-- The loop over the prepared statement.
unfoldable pub insert_loop : List JobRow → World → Written
insert_loop [] w = (ok tt, [], w)
insert_loop (r ∷ rs) w = after_insert r rs (insert_loop rs) (statement (insert_job r) w)

-- A step of EnqueueBatch that touches no row.
abbrev pub before_rows : Result (Unit {0}) × World → List JobRow → (World → Written) → Written
before_rows (ok u, w) rows next = next w
before_rows (err e, w) rows next = (err e, rows, w)

abbrev pub commit : Written → Written
commit (err e, rows, w) = (err e, rows, w)
commit (ok u, rows, w) = let (res, w') = control w in (res, rows, w')

abbrev pub restore_ids : List ℕ → List JobRow → List JobRow
restore_ids [] rows = rows
restore_ids (id ∷ ids) [] = []
restore_ids (id ∷ ids) (r ∷ rs) = record r { id = id } ∷ restore_ids ids rs

-- The deferred function: rolled back, and the old ids written again, unless it was committed.
abbrev pub undo : Db → List ℕ → Written → Written
undo before ids (ok u, rows, w) = (ok u, rows, w)
undo before ids (err e, rows, w) = (err e, restore_ids ids rows, record w { db = before })

abbrev pub ids : List JobRow → List ℕ
ids = map (λ r. r.id)

-- From the prepared statement to the commit.
abbrev pub sent : List JobRow → World → Written
sent rows w = commit (before_rows (control w) rows (insert_loop rows))

unfoldable pub enqueue_rows : List JobRow → World → Written
enqueue_rows rows w = before_rows (control w) rows λ w₁. undo w.db (ids rows) (sent rows w₁)

abbrev pub all_some : List (Option JobRow) → Option (List JobRow)
all_some [] = some []
all_some (none ∷ rs) = none
all_some (some r ∷ rs) = elim (all_some rs) [ none ↦ none | some xs ↦ some (r ∷ xs) ]

-- A nil job is refused before the transaction begins; `none` in the result says that no row was
-- written to.
unfoldable pub enqueue_batch : List (Option JobRow) → World → Result (List JobRow) × World
unfolding enqueue_rows
enqueue_batch jobs w = elim (all_some jobs) [
  | none ↦ (err (failure "enqueue batch contains nil job"), w)
  | some rows ↦
      let (res, rows', w') = enqueue_rows rows w in
      (elim res [ ok u ↦ ok rows' | err e ↦ err e ], w')
]
