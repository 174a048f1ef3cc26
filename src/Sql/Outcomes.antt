-- ===== src/Sql/Outcomes.antt =====
-- What Fail and ScheduleRetry leave behind, and that EnqueueBatch is all or nothing.
use tasker.Base.{
  ℕ, ◌≡◌, refl, sym, subst, inl, inr, Bool, Option, none, some, Option-cases, true, Memᴰ, ◌&&◌,
  ◌||◌, ◌⊎◌, if◌then◌else◌, ==_iff, arith, Bool-cases, List, [], ◌∷◌, ◌++◌, String, map, select,
  count, ◌==◌,
}
use mathlib.Core.Path.{ap₂}
use tasker.Job.{running, retryable, failed, same, Time, JobRow, AttemptError, Error}
use tasker.Sql.Store.{Db, FailedJob, id_and_state, find_first, update_where}
use tasker.Sql.Statement.{
  Result, ok, err, World, M, ◌>>=◌, ◌>>◌, and_then, control, statement, statement-rule, bind-rule,
  transaction, restore, read_job, update_jobs, affected, pure,
}
use tasker.Sql.Finish.{
  fail, schedule_retry, fail_row, retry_later_row, add_error, sprint, or_failed, insert_failed_job,
}

-- A body that fails, or works and makes the tables `d`, makes a transaction that fails with the
-- tables as they were, or works and makes them `d`.
module _ {A : Type 0} (before : Db) (Good : A → Db → Type 0) where
  abbrev pub FailsOr : Result A × World → Type 0
  FailsOr (ok a, w) = Good a w.db
  FailsOr (err e, w) = Unit

  abbrev pub AllOrNothing : Result A × World → Type 0
  AllOrNothing (ok a, w) = Good a w.db
  AllOrNothing (err e, w) = w.db ≡ before

  restored : (p : Result A × World) → FailsOr p → AllOrNothing (restore before p)
  restored (ok a, w) g = g
  restored (err e, w) g = refl

  committed : (p : Result A × World) → FailsOr p → FailsOr (and_then p (λ a. control >> pure a))
  unfolding control ◌>>◌
  committed (ok a, w) g = bind-rule (λ d. (ok tt, d)) w (λ _. pure a) FailsOr (λ e fs. tt) (λ fs. g)
  committed (err e, w) g = tt

transaction-rule :
    {A : Type 0} (body : M A) (w : World) (Good : A → Db → Type 0)
    → ((fs : List (Option Error)) → FailsOr w.db Good (body (record { db = w.db; faults = fs })))
    → AllOrNothing w.db Good (transaction body w)
unfolding transaction control ◌>>◌ ◌>>=◌
transaction-rule body w Good works = restored w.db Good _ (
    bind-rule (λ d. (ok tt, d)) w _ (FailsOr w.db Good) (λ e fs. tt)
      (λ fs. committed w.db Good _ (works fs)))

module _ (w : World) (Good : Unit {0} → Db → Type 0) where
  affected-rule :
      (n : ℕ) (v : World) (k : M (Unit {0}))
      → FailsOr w.db Good (k v)
      → FailsOr w.db Good ((affected n >> k) v)
  unfolding ◌>>◌ ◌>>=◌
  affected-rule n v k h = elim (Bool-cases (n == 0)) [
    | inl none_ ↦ rw none_ tt
    | inr some_ ↦ rw some_ h
  ]

  affected-end : (n : ℕ) (v : World) → Good tt v.db → FailsOr w.db Good (affected n v)
  affected-end n v h = elim (Bool-cases (n == 0)) [
    | inl none_ ↦ rw none_ tt
    | inr some_ ↦ rw some_ h
  ]

  -- A read of one job, and then the rest, for the job that it finds.
  read-rule :
      (test : JobRow → Bool) (v : World) (k : JobRow → M (Unit {0}))
      → ((job : JobRow)
          → find_first test v.db.jobs ≡ some job
          → (fs : List (Option Error))
          → FailsOr w.db Good (k job (record { db = v.db; faults = fs })))
      → FailsOr w.db Good ((statement (read_job test) >>= k) v)
  read-rule test v k rest =
      bind-rule (read_job test) v k (FailsOr w.db Good) (λ e fs. tt)
        (λ fs. elim (Option-cases (find_first test v.db.jobs)) [
          | inl missing ↦ rw (missing, read_job) tt
          | inr (job, found) ↦ rw (found, read_job) (rest job found fs)
        ])

module _ (id : ℕ) (job_err : Option String) (w : World) where
  abbrev pub fails_from : JobRow → Bool
  fails_from = id_and_state id (running ∷ retryable ∷ [])

  -- The row of that id, running or retryable.
  abbrev pub CanFail : JobRow → Type 0
  CanFail r = (r.id ≡ id) × ((r.state ≡ running) ⊎ (r.state ≡ retryable))

  -- The last error of a job: of its attempt, at that time, with the text of the error.
  abbrev pub last_error : JobRow → Time → AttemptError
  last_error job at = record {
    attempt = job.attempt;
    message = elim job_err [ none ↦ "<nil>" | some message ↦ message ];
    timestamp = at;
    stack = "";
  }

  -- The row once it has failed.
  abbrev pub failed_as : JobRow → Time → Time → JobRow → JobRow
  failed_as job at now r = record r {
    state = failed;
    errors = job.errors ++ last_error job at ∷ [];
    finalized_at = some now;
    completed_at = some now;
    node_id = "";
  }

  -- The row of failed_jobs that is written for it.
  abbrev pub recorded_as : JobRow → FailedJob
  recorded_as r = record {
    uuid = r.uuid;
    queue = r.queue;
    kind = r.kind;
    payload = r.payload;
    attempt = r.attempt;
    max_attempts = r.max_attempts;
    errors = r.errors;
    tags = r.tags;
  }

  abbrev pub FailedInto : Time → Time → Db → Type 0
  FailedInto at now d =
      (job : JobRow) × CanFail job
      × Memᴰ job w.db.jobs
      × (d.jobs
          ≡ map
              (λ r.
                if (r.id == id) && (same running r.state || same retryable r.state)
                then failed_as job at now r
                else r)
              w.db.jobs)
      × (d.failed_jobs
          ≡ w.db.failed_jobs ++ map recorded_as (select (λ (r : JobRow). r.id == id) d.jobs))

  update-map :
      (test test' : JobRow → Bool) (f g : JobRow → JobRow)
      → ((r : JobRow) → test r ≡ test' r)
      → ((r : JobRow) → f r ≡ g r)
      → (rs : List JobRow) → update_where test f rs ≡ map (λ r. if test' r then g r else r) rs
  update-map test test' f g h k [] = refl
  update-map test test' f g h k (r ∷ rs) =
      ap₂ ◌∷◌ (cc (h r, k r)) (update-map test test' f g h k rs)

  fails_from-states :
      (r : JobRow)
      → fails_from r ≡ ((r.id == id) && (same running r.state || same retryable r.state))
  fails_from-states r = ground arith

  fails_from-CanFail : (r : JobRow) → fails_from r ≡ true → CanFail r
  fails_from-CanFail r h = grind (arith, ==_iff r.id id)

  find_first-Mem :
      (test : JobRow → Bool) (rs : List JobRow) (job : JobRow)
      → find_first test rs ≡ some job
      → Memᴰ job rs × (test job ≡ true)
  find_first-Mem test [] job h = cc
  find_first-Mem test (r ∷ rs) job h = elim (Bool-cases (test r)) [
    | inl hit ↦
        let here : job ≡ r = ground arith in
        (Memᴰ.head here, subst (λ (x : JobRow). test x ≡ true) (sym here) hit)
    | inr miss ↦ let (m, t) = find_first-Mem test rs job (ground arith) in (Memᴰ.tail m, t)
  ]

  failed_as-eq :
      (job : JobRow) (at now : Time) (r : JobRow)
      → fail_row (add_error job (sprint job_err) at) now r ≡ failed_as job at now r
  failed_as-eq job at now r = refl

  -- Fail changes nothing and returns an error; or the table has a running or retryable job with
  -- that id, and each such row becomes failed, finalized and completed now and on no node, with one
  -- error more than the job had, of its attempt and with the text of the error; no other row
  -- changes, and the rows with that id, as they then are, are added to the failed jobs.
  pub fail_outcome :
      (at now : Time) → AllOrNothing w.db (λ u d. FailedInto at now d) (fail id job_err at now w)
  unfolding fail
  fail_outcome at now = transaction-rule _ w _ (λ fs.
      read-rule w _ fails_from (record w { faults = fs }) _
        (λ job found gs.
          bind-rule (update_jobs fails_from (fail_row (add_error job (sprint job_err) at) now)) _ _
            (FailsOr w.db (λ u d. FailedInto at now d)) (λ e hs. tt)
            (λ hs. affected-rule w _ _ _ (statement (insert_failed_job id)) (
              statement-rule (insert_failed_job id) _ (FailsOr w.db (λ u d. FailedInto at now d))
                (λ e is. tt)
                (λ is.
                  let (m, t) = find_first-Mem fails_from w.db.jobs job found in
                  (
                    job,
                    fails_from-CanFail job t,
                    m,
                    update-map _ _ _ _ fails_from-states (failed_as-eq job at now) w.db.jobs,
                    refl,
                  ))))))

  abbrev pub retries_from : JobRow → Bool
  retries_from = id_and_state id (running ∷ [])

  abbrev pub RetriesFrom : Time → Time → Db → Type 0
  RetriesFrom scheduled_at now d =
      (job : JobRow) × (find_first retries_from w.db.jobs ≡ some job)
      × (d.jobs
          ≡ update_where retries_from
              (retry_later_row (add_error job (or_failed job_err) now) scheduled_at) w.db.jobs)
      × (d.failed_jobs ≡ w.db.failed_jobs)

  -- ScheduleRetry changes nothing and returns an error, or makes the running job with that id
  -- retryable at the given time, with one error more, and records no failed job.
  schedule_retry_outcome :
      (scheduled_at now : Time)
      → AllOrNothing w.db
          (λ u d. RetriesFrom scheduled_at now d)
          (schedule_retry id job_err scheduled_at now w)
  unfolding schedule_retry
  schedule_retry_outcome scheduled_at now = transaction-rule _ w _ (λ fs.
      read-rule w _ retries_from (record w { faults = fs }) _
        (λ job found gs.
          bind-rule
            (update_jobs retries_from
              (retry_later_row (add_error job (or_failed job_err) now) scheduled_at))
            _ _ (FailsOr w.db (λ u d. RetriesFrom scheduled_at now d)) (λ e hs. tt)
            (λ hs.
              affected-end w (λ u d. RetriesFrom scheduled_at now d) (count retries_from w.db.jobs)
                _ (job, found, refl, refl))))
