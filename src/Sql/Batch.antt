-- ===== src/Sql/Batch.antt =====
-- EnqueueBatch writes every row and every id, or nothing.
use tasker.Base.{
  ℕ, suc, ◌≡◌, refl, ◌∙◌, sym, ap, List, [], ◌∷◌, ◌++◌, append_assoc, append-nil, any, str_eq,
  Bool-cases, inl, inr,
}
use tasker.Job.{JobRow}
use tasker.Sql.Store.{Db}
use tasker.Sql.Statement.{ok, err, World, control, statement-rule}
use tasker.Sql.Enqueue.{
  stored_row, insert_job, Written, keep_going, after_insert, insert_loop, before_rows, commit,
  restore_ids, undo, ids, sent, enqueue_rows,
}

-- Rows numbered from `n` on, and as they are stored.
abbrev pub numbered : ℕ → List JobRow → List JobRow
numbered n [] = []
numbered n (r ∷ rs) = record r { id = n } ∷ numbered (suc n) rs

abbrev pub stored : ℕ → List JobRow → List JobRow
stored n [] = []
stored n (r ∷ rs) = stored_row n r ∷ stored (suc n) rs

-- What a call that works leaves behind; of one that fails, that the rows differ in ids only.
abbrev Progress : List JobRow → Db → Written → Type 0
Progress rows d (ok u, rows', w) =
    (rows' ≡ numbered d.next_id rows) × (w.db.jobs ≡ d.jobs ++ stored d.next_id rows)
Progress rows d (err e, rows', w) = restore_ids (ids rows) rows' ≡ rows

restore_ids_self : (rows : List JobRow) → restore_ids (ids rows) rows ≡ rows
restore_ids_self [] = refl
restore_ids_self (r ∷ rs) = ap (λ (xs : List JobRow). r ∷ xs) (restore_ids_self rs)

restore_ids-numbered :
    (n : ℕ) (rows : List JobRow) → restore_ids (ids rows) (numbered n rows) ≡ rows
restore_ids-numbered n [] = refl
restore_ids-numbered n (r ∷ rs) =
    ap (λ (xs : List JobRow). r ∷ xs) (restore_ids-numbered (suc n) rs)

abbrev after : JobRow → Db → Db
after r d = record d { jobs = d.jobs ++ stored_row d.next_id r ∷ []; next_id = suc d.next_id }

keep_going-Progress :
    (r : JobRow) (rs : List JobRow) (d : Db) (t : Written)
    → Progress rs (after r d) t
    → Progress (r ∷ rs) d (keep_going (record r { id = d.next_id }) t)
keep_going-Progress r rs d (ok u, rows', w) h = (
  ap (λ (xs : List JobRow). record r { id = d.next_id } ∷ xs) h.0,
  h.1 ∙ append_assoc d.jobs (stored_row d.next_id r ∷ []) (stored (suc d.next_id) rs),
)
keep_going-Progress r rs d (err e, rows', w) h = ap (λ (xs : List JobRow). r ∷ xs) h

insert_loop-Progress : (rows : List JobRow) (w : World) → Progress rows w.db (insert_loop rows w)
unfolding insert_loop insert_job
insert_loop-Progress [] w = (refl, sym (append-nil w.db.jobs))
insert_loop-Progress (r ∷ rs) w =
    statement-rule (insert_job r) w
      (λ p. Progress (r ∷ rs) w.db (after_insert r rs (insert_loop rs) p))
      (λ e fs. restore_ids_self (r ∷ rs))
      (λ fs. elim (Bool-cases (any (λ s. str_eq s.uuid r.uuid) w.db.jobs)) [
        | inl double ↦ rw double (restore_ids_self (r ∷ rs))
        | inr new ↦ rw new (
            keep_going-Progress r rs w.db _
              (insert_loop-Progress rs (record { db = after r w.db; faults = fs })))
      ])

commit-Progress :
    (rows : List JobRow) (d : Db) (t : Written) → Progress rows d t → Progress rows d (commit t)
unfolding control
commit-Progress rows d (err e, rows', w) h = h
commit-Progress rows d (ok u, rows', w) h =
    statement-rule (λ d'. (ok tt, d')) w (λ p. Progress rows d (p.0, rows', p.1))
      (λ e fs. ap (restore_ids (ids rows)) h.0 ∙ restore_ids-numbered d.next_id rows) (λ fs. h)

-- Rows and table after a batch.
abbrev pub BatchDone : List JobRow → Db → Written → Type 0
BatchDone rows d (ok u, rows', w) =
    (rows' ≡ numbered d.next_id rows) × (w.db.jobs ≡ d.jobs ++ stored d.next_id rows)
BatchDone rows d (err e, rows', w) = (rows' ≡ rows) × (w.db ≡ d)

undo-Done :
    (rows : List JobRow) (d : Db) (t : Written)
    → Progress rows d t
    → BatchDone rows d (undo d (ids rows) t)
undo-Done rows d (ok u, rows', w) h = h
undo-Done rows d (err e, rows', w) h = (h, refl)

before_rows-Progress :
    (rows : List JobRow) (w : World)
    → Progress rows w.db (before_rows (control w) rows (insert_loop rows))
unfolding control
before_rows-Progress rows w =
    statement-rule (λ d. (ok tt, d)) w
      (λ p. Progress rows w.db (before_rows p rows (insert_loop rows)))
      (λ e fs. restore_ids_self rows)
      (λ fs. insert_loop-Progress rows (record { db = w.db; faults = fs }))

-- EnqueueBatch, once no job is nil, adds all rows at the end of the table and gives them the next
-- ids in order, or returns an error and leaves the tables and the caller's rows, old ids included,
-- as they were, whichever statement failed.
pub enqueue_rows_atomic :
    (rows : List JobRow) (w : World) → BatchDone rows w.db (enqueue_rows rows w)
unfolding enqueue_rows control
enqueue_rows_atomic rows w =
    statement-rule (λ d. (ok tt, d)) w
      (λ p. BatchDone rows w.db (before_rows p rows λ v. undo w.db (ids rows) (sent rows v)))
      (λ e fs. (refl, refl))
      (λ fs. undo-Done rows w.db _ (
        commit-Progress rows w.db _
          (before_rows-Progress rows (record { db = w.db; faults = fs }))))
