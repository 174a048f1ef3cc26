-- ===== src/Redis/Batches.antt =====
-- What the batches of the Redis driver do: all of it or nothing.
use mathlib.Core.Option
use tasker.Base.{
  ℕ, Bool, true, false, none, some, Option, List, [], ◌∷◌, ◌==◌, if◌then◌else◌, ◌≡◌, ◌⊎◌, inl, inr,
  refl, ◌∙◌, sym, ap, subst, arith, any, get_key, put_key, get_key-key, get_key-put_key, ==_iff,
  All, All-imp, Bool-cases,
}
use tasker.Job.{
  State, available, failed, completed, cancelled, retryable, JobRow, Time, Error, job_not_found,
  invalid_transition,
}
use tasker.Sql.Store.{state_in}
use tasker.Sql.Statement.{Result, ok, err}
use tasker.Redis.Store.{Store, row_id, find_row, answered, Answer}
use tasker.Redis.Admin.{
  collect, collect_one, write_all, write_if, retry_allowed, retry_step, retried_row, retry_batch,
  cancel_allowed, cancel_step, cancelled_row, cancel_batch,
}
use tasker.Redis.Steps.{or_first}
use tasker.Redis.Steps.Batch.{collect-stored, collect_one-stored}

abbrev pub is_in : ℕ → List ℕ → Bool
is_in j ids = any (λ id. id == j) ids

-- The jobs with those ids are all there, in states that are allowed.
abbrev pub AllIn : List State → Store → List ℕ → Type 0
AllIn allowed s ids =
    All (λ id. (r : JobRow) × (find_row id s ≡ some r) × (state_in allowed r ≡ true)) ids

-- One of them is missing and the error is that, or is in another state and the error is that.
abbrev pub OneNotIn : List State → Store → Error → ℕ → Type 0
OneNotIn allowed s e id =
    ((find_row id s ≡ none) × (e ≡ job_not_found))
    ⊎ ((r : JobRow) × (find_row id s ≡ some r)
        × (state_in allowed r ≡ false)
        × (e ≡ invalid_transition))

-- Of the answer to a batch: it gives g to the jobs with those ids, or it leaves the store as it was.
abbrev pub AllOrNothing :
    List State → (JobRow → JobRow) → List ℕ → Store → Answer (Unit {0}) → Type 0
AllOrNothing allowed g ids s (a, s') =
    ((a ≡ ok tt)
      × AllIn allowed s ids
      × ((j : ℕ)
          → find_row j s' ≡ (if is_in j ids then Option.map g (find_row j s) else find_row j s)))
    ⊎ ((e : Error) × (id : ℕ) × (a ≡ err e)
        × (is_in id ids ≡ true)
        × OneNotIn allowed s e id
        × (s' ≡ s))

write_all-find :
    (f : JobRow → Store → Store) (g : JobRow → JobRow)
    → ((r : JobRow) → (g r).id ≡ r.id)
    → ((r : JobRow) (s : Store) → (f r s).jobs ≡ put_key row_id (g r) s.jobs)
    → (jobs rows : List JobRow) (s : Store) (j : ℕ)
    → All (λ r. get_key row_id r.id jobs ≡ some r) rows
    → find_row j (write_all f rows s)
      ≡ (if any (λ r. r.id == j) rows then Option.map g (get_key row_id j jobs) else find_row j s)
write_all-find f g i put jobs [] s j stored = refl
write_all-find f g i put jobs (r ∷ rows) s j stored =
    or_first (r.id == j) (any (λ t. t.id == j) rows) (Option.map g (get_key row_id j jobs))
      (some (g r)) (find_row j s) (find_row j (f r s)) _
      (ap (λ (l : List JobRow). get_key row_id j l) (put r s)
        ∙ (get_key-put_key row_id j (g r) s.jobs
            ∙ ap (λ (k : ℕ). if k == j then some (g r) else find_row j s) (i r)))
      (write_all-find f g i put jobs rows (f r s) j stored.1)
      (λ e.
        let at_j : get_key row_id j jobs ≡ some r =
          subst (λ k. get_key row_id k jobs ≡ some r) ((==_iff r.id j).0 e) stored.0 in
        rw at_j refl)

collect-AllIn :
    (allowed : List State) (s : Store) (ids : List ℕ) (rows : List JobRow)
    → collect allowed s ids ≡ ok rows
    → AllIn allowed s ids
unfolding collect
collect-AllIn allowed s [] rows e = tt
collect-AllIn allowed s (id ∷ ids) rows e =
    let (r, rs, found, good, rest, shape) =
      collect_one-stored allowed (find_row id s) (collect allowed s ids) rows e in
    ((r, found, good), collect-AllIn allowed s ids rs rest)

collect-ids :
    (allowed : List State) (s : Store) (ids : List ℕ) (rows : List JobRow) (j : ℕ)
    → collect allowed s ids ≡ ok rows
    → any (λ r. r.id == j) rows ≡ is_in j ids
unfolding collect
collect-ids allowed s [] rows j e =
    let shape : [] ≡ rows = cc in subst (λ l. any (λ r. r.id == j) l ≡ false) shape refl
collect-ids allowed s (id ∷ ids) rows j e =
    let (r, rs, found, good, rest, shape) =
      collect_one-stored allowed (find_row id s) (collect allowed s ids) rows e in
    let i : r.id ≡ id = get_key-key row_id id s.jobs r found in
    ap (λ (l : List JobRow). any (λ t. t.id == j) l) shape
    ∙ (ap (λ (k : ℕ). if k == j then true else any (λ t. t.id == j) rs) i
        ∙ ap (λ (b : Bool). if id == j then true else b) (collect-ids allowed s ids rs j rest))

collect_one-fails :
    (allowed : List State) (o : Option JobRow) (rest : Result (List JobRow)) (e : Error)
    → collect_one allowed o rest ≡ err e
    → ((o ≡ none) × (e ≡ job_not_found))
      ⊎ (((r : JobRow) × (o ≡ some r) × (state_in allowed r ≡ false) × (e ≡ invalid_transition))
          ⊎ (rest ≡ err e))
collect_one-fails allowed none rest e h = inl (refl, ground arith)
collect_one-fails allowed (some r) (ok rows) e h = elim (Bool-cases (state_in allowed r)) [
  | inl good ↦ let never : false ≡ true = ground arith in cc
  | inr bad ↦ inr (inl (r, refl, bad, ground arith))
]
collect_one-fails allowed (some r) (err x) e h = elim (Bool-cases (state_in allowed r)) [
  | inl good ↦ inr (inr (ground arith))
  | inr bad ↦ inr (inl (r, refl, bad, ground arith))
]

collect-fails :
    (allowed : List State) (s : Store) (ids : List ℕ) (e : Error)
    → collect allowed s ids ≡ err e
    → (id : ℕ) × (is_in id ids ≡ true) × OneNotIn allowed s e id
unfolding collect
collect-fails allowed s [] e h = let never : false ≡ true = ground arith in cc
collect-fails allowed s (id ∷ ids) e h =
    elim (collect_one-fails allowed (find_row id s) (collect allowed s ids) e h) [
      | inl missing ↦ (id, ground arith, inl missing)
      | inr (inl refused) ↦ (id, ground arith, inr refused)
      | inr (inr rest) ↦
          let (k, here, why) = collect-fails allowed s ids e rest in (k, ground arith, why)
    ]

write_if-AllOrNothing :
    (allowed : List State) (f : JobRow → Store → Store) (g : JobRow → JobRow) (ids : List ℕ)
    (s : Store) (o : Result (List JobRow))
    → ((r : JobRow) → (g r).id ≡ r.id)
    → ((r : JobRow) (t : Store) → (f r t).jobs ≡ put_key row_id (g r) t.jobs)
    → collect allowed s ids ≡ o
    → AllOrNothing allowed g ids s (write_if f s o)
write_if-AllOrNothing allowed f g ids s (ok rows) i put e = inl (
  refl,
  collect-AllIn allowed s ids rows e,
  λ j.
      write_all-find f g i put s.jobs rows s j (
        All-imp _ (λ r. get_key row_id r.id s.jobs ≡ some r) (λ r h. h.0) rows
          (collect-stored allowed s ids rows e))
      ∙ ap (λ (b : Bool). if b then Option.map g (find_row j s) else find_row j s)
          (collect-ids allowed s ids rows j e),
)
write_if-AllOrNothing allowed f g ids s (err x) i put e =
    let (id, here, why) = collect-fails allowed s ids x e in inr (x, id, refl, here, why, refl)

-- A job that can be made available again.
abbrev pub CanRetry : JobRow → Type 0
CanRetry r =
    (r.state ≡ failed) ⊎ ((r.state ≡ completed) ⊎ ((r.state ≡ cancelled) ⊎ (r.state ≡ retryable)))

-- The job made available again, as if it had not been tried.
abbrev pub renewed : Time → JobRow → JobRow
renewed now r = record r {
  state = available;
  scheduled_at = now;
  attempt = 0;
  errors = [];
  output = [];
  node_id = "";
  attempted_at = none;
  started_at = none;
  completed_at = none;
  finalized_at = none;
}

-- A job that a retried batch names, before and after.
abbrev pub Renews : Time → Option JobRow → Option JobRow → Type 0
Renews now before after =
    (r : JobRow) × (before ≡ some r) × CanRetry r × (after ≡ some (renewed now r))

-- Why a batch is not retried.
abbrev pub Refused : Store → Error → ℕ → Type 0
Refused s e id =
    ((find_row id s ≡ none) × (e ≡ job_not_found))
    ⊎ ((r : JobRow) × (find_row id s ≡ some r) × ¬ CanRetry r × (e ≡ invalid_transition))

-- Of the answer to a batch that is retried.
abbrev pub RetriesAll : Time → List ℕ → Store → Answer (Unit {0}) → Type 0
RetriesAll now ids s (a, s') =
    ((a ≡ ok tt)
      × ((j : ℕ)
          → if is_in j ids
            then Renews now (find_row j s) (find_row j s')
            else find_row j s' ≡ find_row j s))
    ⊎ ((e : Error) × (id : ℕ) × (a ≡ err e) × (is_in id ids ≡ true) × Refused s e id × (s' ≡ s))

retry_allowed-CanRetry : (r : JobRow) → state_in retry_allowed r ≡ true → CanRetry r
retry_allowed-CanRetry r h = grind arith

CanRetry-allowed : (r : JobRow) → CanRetry r → state_in retry_allowed r ≡ true
CanRetry-allowed r h = grind arith

AllIn-at :
    (s : Store) (j : ℕ) (ids : List ℕ)
    → AllIn retry_allowed s ids
    → is_in j ids ≡ true
    → (r : JobRow) × (find_row j s ≡ some r) × (state_in retry_allowed r ≡ true)
AllIn-at s j [] all h = absurd (ground arith)
AllIn-at s j (id ∷ ids) all h = elim (Bool-cases (id == j)) [
  | inl hit ↦
      subst (λ k. (r : JobRow) × (find_row k s ≡ some r) × (state_in retry_allowed r ≡ true))
        ((==_iff id j).0 hit) all.0
  | inr miss ↦ AllIn-at s j ids all.1 (ground arith)
]

Renews-one :
    (now : Time) (ids : List ℕ) (s s' : Store) (j : ℕ)
    → AllIn retry_allowed s ids
    → find_row j s'
      ≡ (if is_in j ids then Option.map (retried_row now) (find_row j s) else find_row j s)
    → if is_in j ids
      then Renews now (find_row j s) (find_row j s')
      else find_row j s' ≡ find_row j s
Renews-one now ids s s' j all h = elim (Bool-cases (is_in j ids)) [
  | inl named ↦
      let (r, found, good) = AllIn-at s j ids all named in
      rw named (r, found, retry_allowed-CanRetry r good, rw (named, found) at h)
  | inr other ↦ rw other (rw other at h)
]

retries_all :
    (now : Time) (ids : List ℕ) (s : Store) (p : Answer (Unit {0}))
    → AllOrNothing retry_allowed (retried_row now) ids s p
    → RetriesAll now ids s p
retries_all now ids s (a, s') (inl (good, all, each)) =
    inl (good, λ j. Renews-one now ids s s' j all (each j))
retries_all now ids s (a, s') (inr (e, id, bad, here, inl missing, same)) =
    inr (e, id, bad, here, inl missing, same)
retries_all now ids s (a, s') (inr (e, id, bad, here, inr (r, found, refused, why), same)) = inr (
  e,
  id,
  bad,
  here,
  inr (
    r,
    found,
    (λ can.
        let never : false ≡ true = sym refused ∙ CanRetry-allowed r can in absurd (ground arith)),
    why,
  ),
  same,
)

-- An answered RetryBatch of the Redis driver makes all jobs with the given ids available, due now,
-- with no attempt, error, output or node, each of them failed, completed, cancelled or retryable
-- before, changes no other job and returns no error; or it returns an error and changes nothing,
-- and the error is not found for an id that has no job, or an invalid transition for one whose job
-- is in none of these states.
pub retry_batch_outcome :
    (ids : List ℕ) (now : Time) (s : Store) → RetriesAll now ids s (retry_batch answered ids now s)
unfolding retry_batch
retry_batch_outcome [] now s = inl (refl, λ j. refl)
retry_batch_outcome (id ∷ ids) now s = retries_all now (id ∷ ids) s _ (
    write_if-AllOrNothing retry_allowed (retry_step now) (retried_row now) (id ∷ ids) s _
      (λ r. refl) (λ r t. refl) refl)

-- An answered CancelBatch of the Redis driver cancels all jobs with the given ids, each of them
-- available, pending, scheduled or retryable, changes no other job and returns no error; or it
-- returns an error and changes nothing, and the error is not found for an id that has no job, or
-- an invalid transition for one whose job is in another state.
pub cancel_batch_outcome :
    (ids : List ℕ) (now : Time) (s : Store)
    → AllOrNothing cancel_allowed (cancelled_row now) ids s (cancel_batch answered ids now s)
unfolding cancel_batch
cancel_batch_outcome [] now s = inl (refl, tt, λ j. refl)
cancel_batch_outcome (id ∷ ids) now s =
    write_if-AllOrNothing cancel_allowed (cancel_step now) (cancelled_row now) (id ∷ ids) s _
      (λ r. refl) (λ r t. refl) refl
