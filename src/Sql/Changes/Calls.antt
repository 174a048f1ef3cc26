-- ===== src/Sql/Changes/Calls.antt =====
-- Every operation of the SQL driver on jobs is a chain of changes of its own kinds.
use tasker.Base.{
  ℕ, ◌≡◌, ◌⊎◌, inl, inr, Bool, true, Option, none, some, List, [], ◌∷◌, String, arith, any, str_eq,
  subst, sym, All-of, Bool-cases, Option-cases, ◌==◌,
}
use tasker.Job.{
  State, pending, scheduled, available, running, completed, retryable, failed, cancelled, Time,
  Duration, JobRow,
}
use tasker.Sql.Store.{Db, find_first, id_and_state}
use tasker.Sql.Statement.{Result, statement, update_jobs, read_job, affected}
use tasker.Sql.Enqueue
use tasker.Sql.Finish
use tasker.Sql.Admin
use tasker.Sql.Admin.{retry_states, cancel_states, is_stale}
use tasker.Sql.Changes.{
  Label, inserting, finishing, failing, delaying, retrying, cancelling, requeuing, pruning, Move,
  IsFresh, Change, Changes, one, Does, statement-Does, >>=-Does, >>-Does, control-Does,
  transaction-Does,
}

-- What the rows that pass each WHERE clause are.
running_of : (id : ℕ) (r : JobRow) → id_and_state id (running ∷ []) r ≡ true → r.state ≡ running
running_of id r h = ground arith

failing_of :
    (id : ℕ) (r : JobRow)
    → id_and_state id (running ∷ retryable ∷ []) r ≡ true
    → (r.state ≡ running) ⊎ (r.state ≡ retryable)
failing_of id r h = ground arith

retry_of :
    (id : ℕ) (r : JobRow)
    → id_and_state id retry_states r ≡ true
    → (r.state ≡ failed) ⊎ ((r.state ≡ completed) ⊎ ((r.state ≡ cancelled) ⊎ (r.state ≡ retryable)))
retry_of id r h = ground arith

cancel_of :
    (id : ℕ) (r : JobRow)
    → id_and_state id cancel_states r ≡ true
    → (r.state ≡ available)
      ⊎ ((r.state ≡ pending) ⊎ ((r.state ≡ scheduled) ⊎ (r.state ≡ retryable)))
cancel_of id r h = ground arith

stale_of : (cutoff : Time) (r : JobRow) → is_stale cutoff r ≡ true → r.state ≡ running
stale_of cutoff r h = ground arith

abbrev pub FreshOption : Option JobRow → Type 0
FreshOption none = Unit
FreshOption (some r) = IsFresh r

module _ (L : Label → Type 0) where
  pub update-Does :
      (l : Label) (test : JobRow → Bool) (f : JobRow → JobRow)
      → L l
      → ((r : JobRow) → test r ≡ true → Move l r (f r))
      → Does L (statement (update_jobs test f))
  update-Does l test f allowed moves =
      statement-Does L _ (λ d k. one L (Change.update d l test f allowed (All-of _ moves d.jobs)))

  pub affected-Does : (n : ℕ) → Does L (affected n)
  affected-Does n w k = elim (Bool-cases (n == 0)) [
    | inl e ↦ rw e Changes.here
    | inr e ↦ rw e Changes.here
  ]

  -- A statement that only reads.
  read_job-same : (test : JobRow → Bool) (d : Db) → (read_job test d).1 ≡ d
  read_job-same test d = elim (Option-cases (find_first test d.jobs)) [
    | inl e ↦ rw (e, read_job)
    | inr (r, e) ↦ rw (e, read_job)
  ]

  pub read_job-Does : (test : JobRow → Bool) → Does L (statement (read_job test))
  read_job-Does test =
      statement-Does L _ (λ d k. subst (Changes L d) (sym (read_job-same test d)) Changes.here)

  pub complete-Does :
      (id : ℕ) (output : List ℕ) (now : Time) → L finishing → Does L (Finish.complete id output now)
  unfolding Finish.complete
  complete-Does id output now allowed =
      >>=-Does L _ _
        (update-Does finishing _ _ allowed (λ r h. Move.complete r output now (running_of id r h)))
        affected-Does

  pub fail-Does :
      (id : ℕ) (job_err : Option String) (at now : Time)
      → L failing
      → Does L (Finish.fail id job_err at now)
  unfolding Finish.fail
  fail-Does id job_err at now allowed = transaction-Does L _ (
      >>=-Does L _ _ (read_job-Does _) λ job.
        >>=-Does L _ _
          (update-Does failing _ _ allowed (λ r h. Move.fail r _ now (failing_of id r h)))
          λ n.
            >>-Does L _ _ (affected-Does n)
              (statement-Does L _ (λ d k. one L (Change.archive d _))))

  pub schedule_retry-Does :
      (id : ℕ) (job_err : Option String) (scheduled_at now : Time)
      → L delaying
      → Does L (Finish.schedule_retry id job_err scheduled_at now)
  unfolding Finish.schedule_retry
  schedule_retry-Does id job_err scheduled_at now allowed = transaction-Does L _ (
      >>=-Does L _ _ (read_job-Does _) λ job.
        >>=-Does L _ _
          (update-Does delaying _ _ allowed
            (λ r h. Move.delay r _ scheduled_at (running_of id r h)))
          affected-Does)

  pub retry-Does : (id : ℕ) (now : Time) → L retrying → Does L (Admin.retry id now)
  unfolding Admin.retry
  retry-Does id now allowed =
      >>=-Does L _ _ (update-Does retrying _ _ allowed (λ r h. Move.retry r now (retry_of id r h)))
        λ n. >>-Does L _ _ (affected-Does n) (read_job-Does _)

  pub cancel-Does : (id : ℕ) (now : Time) → L cancelling → Does L (Admin.cancel id now)
  unfolding Admin.cancel
  cancel-Does id now allowed =
      >>=-Does L _ _
        (update-Does cancelling _ _ allowed (λ r h. Move.cancel r now (cancel_of id r h)))
        λ n. >>-Does L _ _ (affected-Does n) (read_job-Does _)

  pub for_each-Does :
      (f : ℕ → Time → Db → Result ℕ × Db) (ids : List (ℕ × Time))
      → ((id : ℕ) (now : Time) → Does L (statement (f id now)))
      → Does L (Admin.for_each f ids)
  unfolding Admin.for_each
  for_each-Does f [] each = λ w k. Changes.here
  for_each-Does f ((id, now) ∷ ids) each =
      >>=-Does L _ _ (each id now) (λ n. for_each-Does f ids each)

  pub retry_batch-Does : (ids : List (ℕ × Time)) → L retrying → Does L (Admin.retry_batch ids)
  unfolding Admin.retry_batch
  retry_batch-Does ids allowed = transaction-Does L _ (
      >>-Does L _ _ (control-Does L) (
        for_each-Does _ ids
          λ id now. update-Does retrying _ _ allowed (λ r h. Move.retry r now (retry_of id r h))))

  pub cancel_batch-Does : (ids : List (ℕ × Time)) → L cancelling → Does L (Admin.cancel_batch ids)
  unfolding Admin.cancel_batch
  cancel_batch-Does ids allowed = transaction-Does L _ (
      >>-Does L _ _ (control-Does L) (
        for_each-Does _ ids λ id now.
          update-Does cancelling _ _ allowed (λ r h. Move.cancel r now (cancel_of id r h))))

  pub requeue_stale-Does :
      (timeout : Duration) (now : Time) → L requeuing → Does L (Admin.requeue_stale timeout now)
  unfolding Admin.requeue_stale
  requeue_stale-Does timeout now allowed =
      update-Does requeuing _ _ allowed (λ r h. Move.requeue r now (stale_of _ r h))

  pub prune-Does :
      (before : Time) (states : List State) → L pruning → Does L (Admin.prune before states)
  unfolding Admin.prune
  prune-Does before [] allowed = λ w k. Changes.here
  prune-Does before (s ∷ states) allowed =
      statement-Does L _ (λ d k. one L (Change.delete d _ allowed))

  pub insert_job-Changes :
      (row : JobRow) (d : Db) → L inserting → IsFresh row → Changes L d (Enqueue.insert_job row d).1
  unfolding Enqueue.insert_job
  insert_job-Changes row d allowed fresh =
      elim (Bool-cases (any (λ r. str_eq r.uuid row.uuid) d.jobs)) [
        | inl taken ↦ rw (taken, Enqueue.insert_job) Changes.here
        | inr new ↦ rw (new, Enqueue.insert_job) (one L (Change.insert d row allowed fresh new))
      ]

  pub enqueue-Does :
      (row : Option JobRow) → L inserting → FreshOption row → Does L (Enqueue.enqueue row)
  unfolding Enqueue.enqueue
  enqueue-Does none allowed fresh = λ w k. Changes.here
  enqueue-Does (some row) allowed fresh =
      >>=-Does L _ _ (statement-Does L _ (λ d k. insert_job-Changes row d allowed fresh))
        (λ id w k. Changes.here)
