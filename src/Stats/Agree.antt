-- ===== src/Stats/Agree.antt =====
-- The counts of QueueStats are the same from both drivers.
use tasker.Base.{
  ℕ, suc, ◌+◌, Bool, true, false, ◌&&◌, Option, none, some, List, [], ◌∷◌, String, ◌≡◌, refl, ap,
  ◌∙◌, arith, str_eq, if◌then◌else◌, any, is_some, Bool-cases, inl, inr,
}
use tasker.Job.{
  State, same, pending, scheduled, available, running, completed, retryable, failed, Time, JobRow,
  Error,
}
use tasker.Sql.Store.{Db}
use tasker.Sql.Statement.{Result, ok, err, World, ◌>>=◌, statement}
use tasker.Sql.Statistics as SqlStatistics
use tasker.Sql.Statistics.{in_queue, sum_case}
use tasker.Redis.Store.{Store, Sent}
use tasker.Redis.Query.{all_jobs}
use tasker.Redis.Statistics.{
  within, count_state, QueueTally, add_wait, add_runtime, add_recent, tally_job, tally_jobs,
  new_tally, with_averages, queue_stats_of, queue_stats,
}
use tasker.Stats.{Float, QueueStats}

-- One job more in a count, if it is counted.
abbrev if_so : Bool → ℕ → ℕ
if_so b n = if b then suc n else n

waits_in : State → Bool
waits_in s = any (λ t. same t s) (scheduled ∷ pending ∷ [])

module _ {F : Type 0} where
  count_state-counts :
      (s : State) (q : QueueStats F)
      → ((count_state s q).available ≡ if_so (same s available) q.available)
        × ((count_state s q).running ≡ if_so (same s running) q.running)
        × ((count_state s q).completed ≡ if_so (same s completed) q.completed)
        × ((count_state s q).failed ≡ if_so (same s failed) q.failed)
        × ((count_state s q).retryable ≡ if_so (same s retryable) q.retryable)
        × ((count_state s q).scheduled ≡ if_so (waits_in s) q.scheduled)
        × ((count_state s q).throughput_per_min ≡ q.throughput_per_min)
        × ((count_state s q).queue ≡ q.queue)
  unfolding waits_in
  count_state-counts pending q = (refl, refl, refl, refl, refl, refl, refl, refl)
  count_state-counts _ q = (refl, refl, refl, refl, refl, refl, refl, refl)

  abbrev if_recent : Bool → QueueStats F → QueueStats F
  if_recent b q = if b then record q { throughput_per_min = suc q.throughput_per_min } else q

module _ {F : Type 0} (fl : Float F) (queue : String) (now : Time) where
  add_wait-stats :
      (created : Time) (o : Option Time) (q : QueueTally F)
      → (add_wait fl created o q).stats ≡ q.stats
  add_wait-stats created none q = refl
  add_wait-stats created (some t) q = refl

  add_runtime-stats :
      (o p : Option Time) (q : QueueTally F) → (add_runtime fl o p q).stats ≡ q.stats
  add_runtime-stats none p q = refl
  add_runtime-stats (some a) none q = refl
  add_runtime-stats (some a) (some b) q = refl

  add_recent-stats :
      (created : Time) (q : QueueTally F)
      → (add_recent fl now created q).stats ≡ if_recent (within 60 now created) q.stats
  add_recent-stats created q = ground arith

  tally_job-stats :
      (job : JobRow) (q : QueueTally F)
      → (tally_job fl queue now job q).stats ≡ (
          if str_eq job.queue queue
          then if_recent (within 60 now job.created_at) (count_state job.state q.stats)
          else q.stats)
  unfolding tally_job
  tally_job-stats job q = elim (Bool-cases (str_eq job.queue queue)) [
    | inl e ↦
        rw (e, tally_job)
          (add_recent-stats job.created_at _
            ∙ ap (if_recent (within 60 now job.created_at)) (
                add_runtime-stats job.started_at job.completed_at _
                ∙ add_wait-stats job.created_at job.started_at _))
    | inr e ↦ rw (e, tally_job) refl
  ]

  -- A counter that each job adds to exactly if it passes a test counts the jobs that pass it.
  tally-column :
      (column : QueueStats F → ℕ) (test : JobRow → Bool)
      → ((job : JobRow) (q : QueueTally F)
          → column (tally_job fl queue now job q).stats
            ≡ if_so (in_queue queue job && test job) (column q.stats))
      → (jobs : List JobRow) (q : QueueTally F)
      → column (tally_jobs fl queue now jobs q).stats
        ≡ column q.stats + sum_case (in_queue queue) test jobs
  unfolding tally_jobs
  tally-column column test h [] q = omega arith
  tally-column column test h (job ∷ jobs) q =
      ground (arith, h job q, tally-column column test h jobs (tally_job fl queue now job q))

  state-column :
      (column : QueueStats F → ℕ) (test : State → Bool)
      → ((b : Bool) (q : QueueStats F) → column (if_recent b q) ≡ column q)
      → ((s : State) (q : QueueStats F) → column (count_state s q) ≡ if_so (test s) (column q))
      → (jobs : List JobRow) (q : QueueTally F)
      → column (tally_jobs fl queue now jobs q).stats
        ≡ column q.stats + sum_case (in_queue queue) (λ r. test r.state) jobs
  state-column column test keeps counts =
      tally-column column (λ r. test r.state)
        (λ job q. ap column (tally_job-stats job q) ∙ elim (Bool-cases (str_eq job.queue queue)) [
          | inl e ↦ rw e (keeps _ _ ∙ counts job.state q.stats)
          | inr e ↦ rw e refl
        ])

  recent-column :
      (jobs : List JobRow) (q : QueueTally F)
      → (tally_jobs fl queue now jobs q).stats.throughput_per_min
        ≡ q.stats.throughput_per_min
          + sum_case (in_queue queue) (λ r. within 60 now r.created_at) jobs
  recent-column =
      tally-column (λ q. q.throughput_per_min) (λ r. within 60 now r.created_at)
        (λ job q.
          ap (λ (x : QueueStats F). x.throughput_per_min) (tally_job-stats job q)
          ∙ elim (Bool-cases (str_eq job.queue queue)) [
            | inl e ↦ rw e (one-more (within 60 now job.created_at) job.state q.stats)
            | inr e ↦ rw e refl
          ])
    where
      one-more :
          (b : Bool) (s : State) (q : QueueStats F)
          → (if_recent b (count_state s q)).throughput_per_min
            ≡ if_so (true && b) q.throughput_per_min
      one-more true s q = ap suc ((count_state-counts s q).6)
      one-more false s q = (count_state-counts s q).6

-- The counts of two answers, but not their averages.
abbrev pub SameCounts : {F : Type 0} → QueueStats F → QueueStats F → Type 0
SameCounts a b =
    (a.available ≡ b.available)
    × (a.running ≡ b.running)
    × (a.completed ≡ b.completed)
    × (a.failed ≡ b.failed)
    × (a.retryable ≡ b.retryable)
    × (a.scheduled ≡ b.scheduled)
    × (a.throughput_per_min ≡ b.throughput_per_min)

-- QueueStats of the SQL driver beside that of the other: the same counts, or a failed statement.
abbrev pub Agrees :
    {F : Type 0} → World → Result (QueueStats F) → Result (QueueStats F) × World → Type 0
Agrees {F} w r (ok a, v) = (b : QueueStats F) × (r ≡ ok b) × SameCounts a b
Agrees w r (err x, v) = any is_some w.faults ≡ true

module _ {F : Type 0} (fl : Float F) (avg : List (Time × Time) → F) (queue : String)
    (now : Time) where
  abbrev summed : List JobRow → F → QueueStats F
  summed jobs runtime = record (SqlStatistics.count_states fl avg queue jobs) {
    avg_runtime_ms = runtime;
    throughput_per_min = sum_case (in_queue queue) (λ r. within 60 now r.created_at) jobs;
  }

  abbrev looped : List JobRow → QueueStats F
  looped jobs = with_averages fl (tally_jobs fl queue now jobs (new_tally fl queue))

  column-agrees :
      (column : QueueStats F → ℕ) (test : State → Bool)
      → ((b : Bool) (q : QueueStats F) → column (if_recent b q) ≡ column q)
      → ((s : State) (q : QueueStats F) → column (count_state s q) ≡ if_so (test s) (column q))
      → (jobs : List JobRow) → column (new_tally fl queue).stats ≡ 0
      → sum_case (in_queue queue) (λ r. test r.state) jobs
        ≡ column (tally_jobs fl queue now jobs (new_tally fl queue)).stats
  column-agrees column test keeps counts jobs zero =
      omega (arith, state-column fl queue now column test keeps counts jobs (new_tally fl queue))

  counts-agree : (jobs : List JobRow) (runtime : F) → SameCounts (summed jobs runtime) (looped jobs)
  unfolding waits_in
  counts-agree jobs runtime = (
    column-agrees (λ q. q.available) (λ s. same s available) (λ b q. ground arith)
        (λ s q. (count_state-counts s q).0) jobs refl,
    column-agrees (λ q. q.running) (λ s. same s running) (λ b q. ground arith)
        (λ s q. (count_state-counts s q).1) jobs refl,
    column-agrees (λ q. q.completed) (λ s. same s completed) (λ b q. ground arith)
        (λ s q. (count_state-counts s q).2) jobs refl,
    column-agrees (λ q. q.failed) (λ s. same s failed) (λ b q. ground arith)
        (λ s q. (count_state-counts s q).3) jobs refl,
    column-agrees (λ q. q.retryable) (λ s. same s retryable) (λ b q. ground arith)
        (λ s q. (count_state-counts s q).4) jobs refl,
    column-agrees (λ q. q.scheduled) waits_in (λ b q. ground arith)
        (λ s q. (count_state-counts s q).5) jobs refl,
    omega (arith, recent-column fl queue now jobs (new_tally fl queue)),
  )

  Agrees-of :
      (hour_now : Time) (d : Db) (fs : List (Option Error)) (r : Result (QueueStats F))
      → r ≡ ok (looped d.jobs)
      → Agrees
          (record { db = d; faults = fs })
          r
          (SqlStatistics.queue_stats fl avg queue hour_now now (record { db = d; faults = fs }))
  unfolding SqlStatistics.queue_stats ◌>>=◌ statement
  Agrees-of hour_now d [] r h = (_, h, counts-agree d.jobs fl.zero)
  Agrees-of hour_now d (some x ∷ fs) r h = refl
  Agrees-of hour_now d (none ∷ []) r h = (_, h, counts-agree d.jobs fl.zero)
  Agrees-of hour_now d (none ∷ some x ∷ fs) r h = refl
  Agrees-of hour_now d (none ∷ none ∷ []) r h = (_, h, counts-agree d.jobs fl.zero)
  Agrees-of hour_now d (none ∷ none ∷ some x ∷ fs) r h = refl
  Agrees-of hour_now d (none ∷ none ∷ none ∷ fs) r h = (_, h, counts-agree d.jobs fl.zero)

  -- Where both drivers hold the same jobs, and the clock shows the same time when the recent jobs
  -- are counted, QueueStats of the SQL driver and of the Redis driver give the same numbers of
  -- available, running, completed, failed, retryable, scheduled and recent jobs, or a statement of
  -- the SQL driver fails.
  pub queue_stats_agree :
      (decode : JobRow → Result JobRow) (sent : Sent) (s : Store) (hour_now : Time) (w : World)
      → all_jobs decode sent s ≡ ok w.db.jobs
      → Agrees w
          (queue_stats fl decode sent queue now s)
          (SqlStatistics.queue_stats fl avg queue hour_now now w)
  unfolding queue_stats
  queue_stats_agree decode sent s hour_now w h =
      Agrees-of hour_now w.db w.faults _ (ap (queue_stats_of fl queue now) h)
