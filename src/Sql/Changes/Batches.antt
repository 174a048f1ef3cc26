-- ===== src/Sql/Changes/Batches.antt =====
-- EnqueueBatch inserts every row or leaves tables and rows as they were.
use tasker.Base.{ℕ, ◌≡◌, inl, inr, Option, none, some, List, [], ◌∷◌, All, subst, Option-cases}
use tasker.Job.{JobRow}
use tasker.Sql.Store.{Db}
use tasker.Sql.Statement.{Result, ok, err, World, control}
use tasker.Sql.Keys.{IsKeyed}
use tasker.Sql.Enqueue.{
  Written, keep_going, after_insert, insert_loop, before_rows, commit, undo, enqueue_rows, ids,
  sent, all_some, enqueue_batch,
}
use tasker.Sql.Changes.{
  Label, inserting, IsFresh, Changes, Changes-trans, Changes-IsKeyed, statement-Changes,
  control-Does,
}
use tasker.Sql.Changes.Calls.{insert_job-Changes, FreshOption}

module _ (L : Label → Type 0) (allowed : L inserting) where
  keep_going-Changes :
      (d : Db) (r : JobRow) (t : Written) → Changes L d t.2.db → Changes L d (keep_going r t).2.db
  keep_going-Changes d r (res, rs, w) c = c

  after_insert-Changes :
      (d : Db) (r : JobRow) (rs : List JobRow) (rest : World → Written) (p : Result ℕ × World)
      → IsKeyed d
      → Changes L d p.1.db
      → ((w : World) → IsKeyed w.db → Changes L w.db (rest w).2.db)
      → Changes L d (after_insert r rs rest p).2.db
  after_insert-Changes d r rs rest (ok id, w) k c does =
      keep_going-Changes d (record r { id = id }) (rest w)
        (Changes-trans L c (does w (Changes-IsKeyed c k)))
  after_insert-Changes d r rs rest (err e, w) k c does = c

  insert_loop-Changes :
      (rows : List JobRow) (w : World)
      → All IsFresh rows
      → IsKeyed w.db
      → Changes L w.db (insert_loop rows w).2.db
  unfolding insert_loop
  insert_loop-Changes [] w fresh k = Changes.here
  insert_loop-Changes (r ∷ rs) w fresh k =
      after_insert-Changes w.db r rs (insert_loop rs) _ k
        (statement-Changes L _ w (insert_job-Changes L r w.db allowed fresh.0))
        (λ v j. insert_loop-Changes rs v fresh.1 j)

  before_rows-Changes :
      (d : Db) (p : Result (Unit {0}) × World) (rows : List JobRow) (rest : World → Written)
      → IsKeyed d
      → Changes L d p.1.db
      → ((w : World) → IsKeyed w.db → Changes L w.db (rest w).2.db)
      → Changes L d (before_rows p rows rest).2.db
  before_rows-Changes d (ok u, w) rows rest k c does =
      Changes-trans L c (does w (Changes-IsKeyed c k))
  before_rows-Changes d (err e, w) rows rest k c does = c

  commit-Changes :
      (d : Db) (t : Written) → IsKeyed d → Changes L d t.2.db → Changes L d (commit t).2.db
  commit-Changes d (err e, rows, w) k c = c
  commit-Changes d (ok u, rows, w) k c = Changes-trans L c (control-Does L w (Changes-IsKeyed c k))

  undo-Changes :
      (before : Db) (ids : List ℕ) (t : Written)
      → Changes L before t.2.db
      → Changes L before (undo before ids t).2.db
  undo-Changes before ids (ok u, rows, w) c = c
  undo-Changes before ids (err e, rows, w) c = Changes.here

  pub enqueue_rows-Changes :
      (rows : List JobRow) (w : World)
      → All IsFresh rows
      → IsKeyed w.db
      → Changes L w.db (enqueue_rows rows w).2.db
  unfolding enqueue_rows
  enqueue_rows-Changes rows w fresh k = go (control w) (control-Does L w k)
    where
      inner : (v : World) → IsKeyed v.db → Changes L v.db (sent rows v).2.db
      inner v j = commit-Changes v.db _ j (
          before_rows-Changes v.db (control v) rows (insert_loop rows) j (control-Does L v j)
            (λ u i. insert_loop-Changes rows u fresh i))

      go :
          (p : Result (Unit {0}) × World)
          → Changes L w.db p.1.db
          → Changes L w.db (before_rows p rows λ v. undo w.db (ids rows) (sent rows v)).2.db
      go (err e, v) c = c
      go (ok u, v) c =
          undo-Changes w.db (ids rows) _ (Changes-trans L c (inner v (Changes-IsKeyed c k)))

all_some-IsFresh :
    (jobs : List (Option JobRow)) {rows : List JobRow}
    → All FreshOption jobs
    → all_some jobs ≡ some rows
    → All IsFresh rows
all_some-IsFresh [] {rows} fresh e = let same : [] ≡ rows = cc in subst (All IsFresh) same tt
all_some-IsFresh (none ∷ jobs) fresh e = cc
all_some-IsFresh (some r ∷ jobs) {rows} fresh e = elim (Option-cases (all_some jobs)) [
  | inl stop ↦ cc (rw stop at e)
  | inr (rs, more) ↦
      let found : some (r ∷ rs) ≡ some rows = rw more at e in
      let same : r ∷ rs ≡ rows = cc in
      subst (All IsFresh) same (fresh.0, all_some-IsFresh jobs fresh.1 more)
]

pub enqueue_batch-Changes :
    (L : Label → Type 0) (jobs : List (Option JobRow)) (w : World)
    → L inserting
    → All FreshOption jobs
    → IsKeyed w.db
    → Changes L w.db (enqueue_batch jobs w).1.db
unfolding enqueue_batch
enqueue_batch-Changes L jobs w allowed fresh k = elim (Option-cases (all_some jobs)) [
  | inl stop ↦ rw (stop, enqueue_batch) Changes.here
  | inr (rows, more) ↦
      rw (more, enqueue_batch)
        (enqueue_rows-Changes L allowed rows w (all_some-IsFresh jobs fresh more) k)
]
