-- ===== src/Sql/Changes.antt =====
-- What the operations of the SQL driver do to the tables, as a relation: each is a chain of changes,
-- and each change to a row is one of seven moves with its guard.
pub mod Calls
pub mod Claims
pub mod Batches
pub mod Steps
use tasker.Base.{
  ℕ, suc, ◌+◌, ◌≡◌, refl, ◌⊎◌, inl, inr, Bool, true, false, Option, none, some, List, [], ◌∷◌, ◌++◌,
  String, ℤ, pos, ◌<ℤ◌, ◌≤ℤ◌, any, str_eq, subst, sym, All, All-imp,
}
use tasker.Job.{
  State, pending, scheduled, available, running, completed, retryable, failed, cancelled, Time,
  JobRow, AttemptError,
}
use tasker.Sql.Store.{Db, Dialect, FailedJob, update_where, delete_where}
use tasker.Sql.Statement.{
  Result, ok, err, World, M, and_then, ◌>>=◌, ◌>>◌, pure, throw, statement, statement_cases,
  control, transaction, restore,
}
use tasker.Sql.Keys.{IsKeyed, Ordered-update, Ordered-append, Ordered-delete}
use tasker.Sql.Enqueue.{stored_row}
use tasker.Sql.Claim.{claim_row}
use tasker.Sql.Finish.{complete_row, fail_row, retry_later_row}
use tasker.Sql.Admin.{retry_row, cancel_row, requeue_row}

-- The kinds of change.
pub data Label : Type 0 where
  inserting claiming finishing failing delaying retrying cancelling requeuing pruning : Label

pub data Move : Label → JobRow → JobRow → Type 0 where
  claim :
      (r : JobRow) (dialect : Dialect) (node : String) (now : Time)
      → (r.state ≡ available) ⊎ ((r.state ≡ scheduled) ⊎ (r.state ≡ retryable))
      → r.scheduled_at ≤ℤ now
      → pos r.attempt <ℤ r.max_attempts
      → Move claiming r (claim_row dialect node now r)
  complete :
      (r : JobRow) (output : List ℕ) (now : Time)
      → r.state ≡ running
      → Move finishing r (complete_row output now r)
  fail :
      (r : JobRow) (errors : List AttemptError) (now : Time)
      → (r.state ≡ running) ⊎ (r.state ≡ retryable)
      → Move failing r (fail_row errors now r)
  delay :
      (r : JobRow) (errors : List AttemptError) (at : Time)
      → r.state ≡ running
      → Move delaying r (retry_later_row errors at r)
  retry :
      (r : JobRow) (now : Time)
      → (r.state ≡ failed)
        ⊎ ((r.state ≡ completed) ⊎ ((r.state ≡ cancelled) ⊎ (r.state ≡ retryable)))
      → Move retrying r (retry_row now r)
  cancel :
      (r : JobRow) (now : Time)
      → (r.state ≡ available)
        ⊎ ((r.state ≡ pending) ⊎ ((r.state ≡ scheduled) ⊎ (r.state ≡ retryable)))
      → Move cancelling r (cancel_row now r)
  requeue : (r : JobRow) (now : Time) → r.state ≡ running → Move requeuing r (requeue_row now r)

-- A row as the manager sends it: not yet tried, and in a state to wait in.
pub record IsFresh (r : JobRow) : Type 0 where
  pub untried : r.attempt ≡ 0
  pub unclaimed : r.attempted_by ≡ []
  pub waiting : (r.state ≡ available) ⊎ ((r.state ≡ scheduled) ⊎ (r.state ≡ pending))

-- One change to the tables; `L` says which kinds are allowed.
pub data Change (L : Label → Type 0) : Db → Db → Type 0 where
  update :
      (d : Db) (l : Label) (test : JobRow → Bool) (f : JobRow → JobRow)
      → L l
      → All (λ r. test r ≡ true → Move l r (f r)) d.jobs
      → Change L d (record d { jobs = update_where test f d.jobs })
  insert :
      (d : Db) (r : JobRow)
      → L inserting
      → IsFresh r
      → any (λ s. str_eq s.uuid r.uuid) d.jobs ≡ false
      → Change L d
          (record d { jobs = d.jobs ++ stored_row d.next_id r ∷ []; next_id = suc d.next_id })
  delete :
      (d : Db) (test : JobRow → Bool)
      → L pruning
      → Change L d (record d { jobs = delete_where test d.jobs })
  archive : (d : Db) (fs : List FailedJob) → Change L d (record d { failed_jobs = fs })

pub data Changes (L : Label → Type 0) (d : Db) : Db → Type 0 where
  here : Changes L d d
  next : {e f : Db} → Changes L d e → Change L e f → Changes L d f

-- A move keeps the id.
pub Move-id : {l : Label} {r s : JobRow} → Move l r s → s.id ≡ r.id
Move-id (claim r dialect node now a b c) = refl
Move-id (complete r output now a) = refl
Move-id (fail r errors now a) = refl
Move-id (delay r errors at a) = refl
Move-id (retry r now a) = refl
Move-id (cancel r now a) = refl
Move-id (requeue r now a) = refl

pub Change-IsKeyed : {L : Label → Type 0} {d e : Db} → Change L d e → IsKeyed d → IsKeyed e
Change-IsKeyed (update d l test f ok_ moves) k =
    Ordered-update 0 d.next_id test f d.jobs
      (All-imp _ _ (λ r move hit. Move-id (move hit)) d.jobs moves) k
Change-IsKeyed (insert d r ok_ fresh new) k = Ordered-append 0 d.next_id d.jobs _ refl k
Change-IsKeyed (delete d test ok_) k = Ordered-delete 0 d.next_id test d.jobs k
Change-IsKeyed (archive d fs) k = k

pub Changes-IsKeyed : {L : Label → Type 0} {d e : Db} → Changes L d e → IsKeyed d → IsKeyed e
Changes-IsKeyed here k = k
Changes-IsKeyed (next s t) k = Change-IsKeyed t (Changes-IsKeyed s k)

module _ (L : Label → Type 0) where
  pub Changes-trans : {d e f : Db} → Changes L d e → Changes L e f → Changes L d f
  Changes-trans c here = c
  Changes-trans c (next s t) = next (Changes-trans c s) t

  pub one : {d e : Db} → Change L d e → Changes L d e
  one c = next here c

  -- A computation that does no more than changes of these kinds, whatever fails on the way.
  abbrev pub Does : {A : Type 0} → M A → Type 0
  Does m = (w : World) → IsKeyed w.db → Changes L w.db (m w).1.db

  pub statement-Changes :
      {A : Type 0} (f : Db → Result A × Db) (w : World)
      → Changes L w.db (f w.db).1
      → Changes L w.db (statement f w).1.db
  statement-Changes f w c = elim (statement_cases f w) [
    | inl (e, r, same) ↦ subst (Changes L w.db) (sym same) here
    | inr (r, works) ↦ subst (Changes L w.db) (sym works) c
  ]

  pub statement-Does :
      {A : Type 0} (f : Db → Result A × Db)
      → ((d : Db) → IsKeyed d → Changes L d (f d).1)
      → Does (statement f)
  statement-Does f c w k = statement-Changes f w (c w.db k)

  pub and_then-Does :
      {A B : Type 0} (d : Db) (p : Result A × World) (f : A → M B)
      → IsKeyed d
      → Changes L d p.1.db
      → ((a : A) → Does (f a))
      → Changes L d (and_then p f).1.db
  and_then-Does d (ok a, w) f k c does = Changes-trans c (does a w (Changes-IsKeyed c k))
  and_then-Does d (err e, w) f k c does = c

  pub >>=-Does :
      {A B : Type 0} (m : M A) (f : A → M B) → Does m → ((a : A) → Does (f a)) → Does (m >>= f)
  unfolding ◌>>=◌
  >>=-Does m f c does w k = and_then-Does w.db (m w) f k (c w k) does

  pub >>-Does : {B : Type 0} (m : M (Unit {0})) (n : M B) → Does m → Does n → Does (m >> n)
  unfolding ◌>>◌
  >>-Does m n c does = >>=-Does m (λ _. n) c (λ _. does)

  pub control-Does : Does control
  unfolding control
  control-Does = statement-Does _ (λ d k. here)

  restore-Does :
      {A : Type 0} (before : Db) (p : Result A × World)
      → Changes L before p.1.db
      → Changes L before (restore before p).1.db
  restore-Does before (ok a, v) c = c
  restore-Does before (err e, v) c = here

  pub transaction-Does : {A : Type 0} (body : M A) → Does body → Does (transaction body)
  unfolding transaction
  transaction-Does body c w k =
      restore-Does w.db _ (
        >>-Does _ _ control-Does (>>=-Does _ _ c (λ a. >>-Does _ _ control-Does (λ v j. here))) w k)
