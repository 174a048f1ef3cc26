-- ===== src/Dispatch/Sql.antt =====
-- Dispatch, DispatchBatch and Chain over the SQL driver, whatever middlewares are installed.
use tasker.Base.{◌≡◌, refl, ℕ, none, List, [], ◌∷◌, All}
use tasker.Job.{JobRow}
use tasker.Sql.Statement.{Result, ok, err, World, statement, control}
use tasker.Sql.Enqueue.{
  enqueue_rows, Written, after_insert, insert_loop, before_rows, commit, restore_ids, undo, ids,
  sent, insert_job,
}
use tasker.Sql.Changes.{IsFresh}
use tasker.Sql.Changes.Batches.{enqueue_rows-Changes}
use tasker.Sql.Invariant.{IsValid, Changes-IsValid}
use tasker.Dispatch.{JobValue, ManagerConfig, DispatchOpt, Stamp}
use tasker.Dispatch.Send.{
  Send, Middleware, Keeps, chain, chain_rows, send_all, answer_rows, enqueue-Keeps, send_rows,
}
use tasker.Dispatch.Rows.{sql_driver, Sendable, chain_rows-Linked}

Fresh : List JobRow → Type 0
Fresh = All IsFresh

IsFresh-id : (id : ℕ) (r : JobRow) → IsFresh r → IsFresh (record r { id = id })
IsFresh-id id r f = record { untried = f.untried; unclaimed = f.unclaimed; waiting = f.waiting }

after_insert-Fresh :
    (r : JobRow) (rs : List JobRow) (rest : World → Written) (p : Result ℕ × World)
    → IsFresh r
    → Fresh rs
    → ((w : World) → Fresh (rest w).1)
    → Fresh (after_insert r rs rest p).1
unfolding Fresh
after_insert-Fresh r rs rest (ok id, w) f fs more = (IsFresh-id id r f, more w)
after_insert-Fresh r rs rest (err e, w) f fs more = (f, fs)

insert_loop-Fresh : (rows : List JobRow) (w : World) → Fresh rows → Fresh (insert_loop rows w).1
unfolding insert_loop Fresh
insert_loop-Fresh [] w f = tt
insert_loop-Fresh (r ∷ rs) w f =
    after_insert-Fresh r rs (insert_loop rs) (statement (insert_job r) w) f.0 f.1
      (λ v. insert_loop-Fresh rs v f.1)

before_rows-Fresh :
    (p : Result (Unit {0}) × World) (rows : List JobRow) (rest : World → Written)
    → Fresh rows
    → ((w : World) → Fresh (rest w).1)
    → Fresh (before_rows p rows rest).1
before_rows-Fresh (ok u, w) rows rest f more = more w
before_rows-Fresh (err e, w) rows rest f more = f

commit-Fresh : (t : Written) → Fresh t.1 → Fresh (commit t).1
commit-Fresh (ok u, rows, w) f = f
commit-Fresh (err e, rows, w) f = f

restore_ids-Fresh : (is : List ℕ) (rows : List JobRow) → Fresh rows → Fresh (restore_ids is rows)
unfolding Fresh
restore_ids-Fresh [] rows f = f
restore_ids-Fresh (i ∷ is) [] f = f
restore_ids-Fresh (i ∷ is) (r ∷ rs) f = (IsFresh-id i r f.0, restore_ids-Fresh is rs f.1)

undo-Fresh : (before : _) (is : List ℕ) (t : Written) → Fresh t.1 → Fresh (undo before is t).1
undo-Fresh before is (ok u, rows, w) f = f
undo-Fresh before is (err e, rows, w) f = restore_ids-Fresh is rows f

enqueue_rows-Fresh : (rows : List JobRow) (w : World) → Fresh rows → Fresh (enqueue_rows rows w).1
unfolding enqueue_rows
enqueue_rows-Fresh rows w f = before_rows-Fresh (control w) rows _ f (λ v.
    undo-Fresh w.db (ids rows) (sent rows v) (
      commit-Fresh _ (
        before_rows-Fresh (control v) rows (insert_loop rows) f (λ u. insert_loop-Fresh rows u f))))

send_all-Keeps : Keeps Sendable (send_all sql_driver)
unfolding Fresh
send_all-Keeps (rows, w) s = (
  enqueue_rows-Fresh rows w s.0,
  Changes-IsValid (enqueue_rows-Changes (λ _. Unit) tt rows w s.0 s.1.keyed) s.1,
)

answer_rows-IsValid :
    (t : Result (Unit {0}) × List JobRow × World) → IsValid t.2.db → IsValid (answer_rows t).1.db
answer_rows-IsValid (ok u, rows, w) v = v
answer_rows-IsValid (err e, rows, w) v = v

-- Chain over the SQL driver keeps a valid jobs table valid, whichever statements fail, under any
-- middlewares that send fresh rows on and keep the table valid.
pub chain-IsValid :
    (mws : List (Middleware World)) (cfg : ManagerConfig) (jobs : List (JobValue × Stamp))
    (opts : List DispatchOpt) (w : World)
    → All (λ mw. (next : Send World) → Keeps Sendable next → Keeps Sendable (mw next)) mws
    → IsValid w.db
    → IsValid (chain sql_driver mws cfg jobs opts w).1.db
unfolding chain
chain-IsValid mws cfg jobs opts w keep v =
    go (chain_rows cfg opts none jobs) (λ rows e. (chain_rows-Linked cfg opts jobs rows e).1)
  where
    go :
        (p : Result (List JobRow))
        → ((rows : List JobRow) → p ≡ ok rows → All IsFresh rows)
        → IsValid (send_rows sql_driver mws p w).1.db
    go (err e) fresh = v
    go (ok rows) fresh =
        answer_rows-IsValid _
          (enqueue-Keeps Sendable mws (send_all sql_driver) keep send_all-Keeps (rows, w)
            (fresh rows refl, v)).1
