-- ===== src/Worker/Loop.antt =====
-- The loop of a worker, worker.run of pool.go. A round is what its two selects find and what the
-- clock shows; what comes in the rounds is the environment's choice.
use tasker.Base.{
  Bool, true, false, Option, none, some, List, [], ◌∷◌, ◌++◌, ◌≡◌, refl, if◌then◌else◌, ◌⊎◌, inl,
  inr, ◌≢◌, sym, ap, ◌∙◌, subst, Bool-cases,
}
use tasker.Job.{JobRow, Time, Error}
use tasker.Sql.Statement.{Result, ok, err}
use tasker.Worker.{WorkerDriver, Registry, execute, work_once}

-- `asked` is true where the context or `done` is closed at the first select, and `woken` where one
-- of them is before half a second is over, in a round without a job.
pub record Round : Type 0 where
  pub asked : Bool
  pub woken : Bool
  pub now : Time
  pub retry_from : Time

-- The round in which the loop is asked to end.
abbrev pub asking : Bool → Time → Time → Round
asking woken now retry_from = record {
  asked = true;
  woken = woken;
  now = now;
  retry_from = retry_from;
}

module _ {W : Type 0} (claim : W → Result (List JobRow) × W) (driver : WorkerDriver W)
    (reg : Registry W) where
  -- After Claim: whether the loop ends in this round, and what the round has changed.
  unfoldable pub after_claim : Round → Result (List JobRow) × W → Bool × W
  after_claim r (err e, w) = (false, w)
  after_claim r (ok [], w) = (r.woken, w)
  after_claim r (ok (job ∷ jobs), w) = (false, execute driver reg job r.now r.retry_from w)

  abbrev pub go_on : (W → Option W) → Bool × W → Option W
  go_on rest (true, w) = some w
  go_on rest (false, w) = rest w

  -- `none` is a loop that is still running after these rounds.
  unfoldable pub run : List Round → W → Option W
  unfolding after_claim
  run [] w = none
  run (r ∷ rs) w = if r.asked then some w else go_on (run rs) (after_claim r (claim w))

  -- What the rounds before the loop is asked to end make of the world: a round in which it is asked
  -- already ends them and does nothing; each other is a claim and the run of what is claimed, after
  -- which a loop without a job that is woken ends too.
  pub data Works : List Round → W → W → Type 0 where
    no_more : {w : W} → Works [] w w
    asked_before : {r : Round} {rs : List Round} {w : W} → r.asked ≡ true → Works (r ∷ rs) w w
    woken_idle :
        {r : Round} {rs : List Round} {w : W}
        → r.asked ≡ false
        → (claim w).0 ≡ ok []
        → r.woken ≡ true
        → Works (r ∷ rs) w (claim w).1
    one_round :
        {r : Round} {rs : List Round} {w v : W}
        → r.asked ≡ false
        → (r.woken ≡ false) ⊎ ((claim w).0 ≢ ok [])
        → Works rs (work_once claim driver reg r.now r.retry_from w) v
        → Works (r ∷ rs) w v

  -- The run ends with v when it is asked to, whatever comes then.
  abbrev pub EndsWith : (List Round → Option W) → W → Type 0
  EndsWith f v =
      (woken : Bool) (now retry_from : Time) (more : List Round)
      → f (asking woken now retry_from ∷ more) ≡ some v

  work_once-round :
      (r : Round) (w : W) (p : Result (List JobRow) × W)
      → p ≡ claim w
      → work_once claim driver reg r.now r.retry_from w ≡ elim p.0 as (λ _. W) [
        | err e ↦ p.1
        | ok [] ↦ p.1
        | ok (job ∷ jobs) ↦ execute driver reg job r.now r.retry_from p.1
      ]
  unfolding work_once
  work_once-round r w p same =
      ap
        (λ (q : Result (List JobRow) × W). elim q.0 as (λ _. W) [
          | err e ↦ q.1
          | ok [] ↦ q.1
          | ok (job ∷ jobs) ↦ execute driver reg job r.now r.retry_from q.1
        ])
        (sym same)

  after_claim-Works :
      (r : Round) (rs : List Round) (w : W) (f : List Round → W → Option W)
      (p : Result (List JobRow) × W)
      → r.asked ≡ false
      → p ≡ claim w
      → ((u : W) → (v : W) × Works rs u v × EndsWith (λ more. f more u) v)
      → (v : W) × Works (r ∷ rs) w v × EndsWith (λ more. go_on (f more) (after_claim r p)) v
  unfolding after_claim
  after_claim-Works r rs w f (err e, u) asked same rest =
      let (v, works, ends) = rest u in
      (
        v,
        one_round asked
            (inr (λ none_left.
              some_error (ap (λ (q : Result (List JobRow) × W). q.0) same ∙ none_left)))
            (subst (λ x. Works rs x v) (sym (work_once-round r w (err e, u) same)) works),
        ends,
      )
    where
      some_error : {e : Error} → ◌≢◌ {A = Result (List JobRow)} (err e) (ok [])
      some_error h = cc
  after_claim-Works r rs w f (ok [], u) asked same rest = elim (Bool-cases r.woken) [
    | inl woken ↦ (
      (claim w).1,
      woken_idle asked (sym (ap (λ (q : Result (List JobRow) × W). q.0) same)) woken,
      λ k now retry_from more. rw woken (ap (λ (q : Result (List JobRow) × W). some q.1) same),
    )
    | inr sleeps ↦
        let (v, works, ends) = rest u in
        (
          v,
          one_round asked (inl sleeps)
              (subst (λ x. Works rs x v) (sym (work_once-round r w (ok [], u) same)) works),
          λ k now retry_from more. rw sleeps (ends k now retry_from more),
        )
  ]
  after_claim-Works r rs w f (ok (job ∷ jobs), u) asked same rest =
      let (v, works, ends) = rest (execute driver reg job r.now r.retry_from u) in
      (
        v,
        one_round asked
            (inr
              (λ none_left. some_job (ap (λ (q : Result (List JobRow) × W). q.0) same ∙ none_left)))
            (subst (λ x. Works rs x v) (sym (work_once-round r w (ok (job ∷ jobs), u) same)) works),
        ends,
      )
    where
      some_job :
          {job : JobRow} {jobs : List JobRow}
          → ◌≢◌ {A = Result (List JobRow)} (ok (job ∷ jobs)) (ok [])
      some_job h = cc

  round-Works :
      (r : Round) (rs : List Round) (w : W) (f : List Round → W → Option W)
      → ((u : W) → (v : W) × Works rs u v × EndsWith (λ more. f more u) v)
      → (v : W) × Works (r ∷ rs) w v
        × EndsWith (λ more. if r.asked then some w else go_on (f more) (after_claim r (claim w))) v
  round-Works r rs w f rest = elim (Bool-cases r.asked) [
    | inl asked ↦ (w, asked_before asked, λ k now retry_from more. rw asked refl)
    | inr not_yet ↦
        let (v, works, ends) = after_claim-Works r rs w f (claim w) not_yet refl rest in
        (
          v,
          works,
          λ k now retry_from more.
              ap
                (λ (b : Bool).
                  if b
                  then some w
                  else go_on (f (asking k now retry_from ∷ more)) (after_claim r (claim w)))
                not_yet
              ∙ ends k now retry_from more,
        )
  ]

  -- The loop of a worker ends in the round in which it finds its context or its channel closed, at
  -- the latest, whatever comes in that round and after it, and leaves the world as the rounds before
  -- it have: each of them one claim and the run of what it gives, up to a round in which the loop
  -- was asked to end before, or was woken without a job. No job is claimed or run in the round in
  -- which it is asked, or after it.
  pub loop_ends :
      (before : List Round) (w : W)
      → (v : W) × Works before w v
        × ((woken : Bool) (now retry_from : Time) (more : List Round)
            → run (before ++ asking woken now retry_from ∷ more) w ≡ some v)
  unfolding run
  loop_ends [] w = (w, no_more, λ woken now retry_from more. refl)
  loop_ends (b ∷ before) w = round-Works b before w (λ rs. run (before ++ rs)) (loop_ends before)
