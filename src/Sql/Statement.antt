-- ===== src/Sql/Statement.antt =====
-- Statements and transactions. Which statements fail is the environment's choice: `faults` has an
-- entry for each statement to come, and a statement that fails changes nothing.
use tasker.Base.{
  ℕ, Bool, count, ◌==◌, if◌then◌else◌, Option, none, some, List, [], ◌∷◌, ◌≡◌, refl, arith, ◌⊎◌,
  inl, inr,
}
use tasker.Job.{Error, JobRow, job_not_found}
use tasker.Sql.Store.{Db, update_where, find_first}

pub data Result {ℓ} (A : Type ℓ) : Type ℓ where
  ok : A → Result A
  err : Error → Result A

pub record World : Type 0 where
  pub db : Db
  pub faults : List (Option Error)

abbrev pub M : Type 0 → Type 0
M A = World → Result A × World

abbrev pub and_then : {A B : Type 0} → Result A × World → (A → M B) → Result B × World
and_then (ok a, w) f = f a w
and_then (err e, w) f = (err e, w)

infixl 5 ◌>>=◌ ◌>>◌
unfoldable pub ◌>>=◌ : {A B : Type 0} → M A → (A → M B) → M B
◌>>=◌ m f w = and_then (m w) f

unfoldable pub ◌>>◌ : {B : Type 0} → M (Unit {0}) → M B → M B
unfolding ◌>>=◌
m >> k = m >>= λ _. k

abbrev pub pure : {A : Type 0} → A → M A
pure a w = (ok a, w)

abbrev pub throw : {A : Type 0} → Error → M A
throw e w = (err e, w)

abbrev pub done : {A : Type 0} → List (Option Error) → Result A × Db → Result A × World
done rest (r, d) = (r, record { db = d; faults = rest })

abbrev pub run_statement :
    {A : Type 0} → List (Option Error) → Db → (Db → Result A × Db) → Result A × World
run_statement [] d f = done [] (f d)
run_statement (none ∷ rest) d f = done rest (f d)
run_statement (some e ∷ rest) d f = (err e, record { db = d; faults = rest })

-- One statement: it fails if the environment says so, and else does its work.
unfoldable pub statement : {A : Type 0} → (Db → Result A × Db) → M A
statement f w = run_statement w.faults w.db f

-- `BEGIN` and `COMMIT` can fail as well.
unfoldable pub control : M (Unit {0})
unfolding statement
control = statement (λ d. (ok tt, d))

abbrev pub restore : {A : Type 0} → Db → Result A × World → Result A × World
restore before (ok a, w) = (ok a, w)
restore before (err e, w) = (err e, record w { db = before })

-- `BeginTx`, the body, `Commit`, and the deferred `Rollback`.
unfoldable pub transaction : {A : Type 0} → M A → M A
unfolding control
transaction body w = restore w.db ((do control; a ← body; control; pure a) w)

-- A transaction that returns an error has changed no table.
transaction_atomic :
    {A : Type 0} (body : M A) (w : World) {e : Error}
    → (transaction body w).0 ≡ err e
    → (transaction body w).1.db ≡ w.db
unfolding transaction ◌>>=◌ ◌>>◌
transaction_atomic body w h = ground arith

abbrev pub FailsOrWorks : {A : Type 0} → (Db → Result A × Db) → World → Result A × World → Type 0
FailsOrWorks f w (r, w') =
    ((e : Error) × (r ≡ err e) × (w'.db ≡ w.db)) ⊎ ((r ≡ (f w.db).0) × (w'.db ≡ (f w.db).1))

run_statement_cases :
    {A : Type 0} (faults : List (Option Error)) (w : World) (f : Db → Result A × Db)
    → FailsOrWorks f w (run_statement faults w.db f)
run_statement_cases [] w f = inr (refl, refl)
run_statement_cases (none ∷ rest) w f = inr (refl, refl)
run_statement_cases (some e ∷ rest) w f = inl (e, refl, refl)

-- A statement either fails with the tables as they were, or does its work.
pub statement_cases :
    {A : Type 0} (f : Db → Result A × Db) (w : World) → FailsOrWorks f w (statement f w)
unfolding statement
statement_cases f w = run_statement_cases w.faults w f

-- UPDATE jobs SET … WHERE …, with the number of rows affected.
abbrev pub update_jobs : (JobRow → Bool) → (JobRow → JobRow) → Db → Result ℕ × Db
update_jobs test f d = (ok (count test d.jobs), record d { jobs = update_where test f d.jobs })

-- SELECT … FROM jobs WHERE …, for one row.
abbrev pub read_job : (JobRow → Bool) → Db → Result JobRow × Db
read_job test d = elim (find_first test d.jobs) [
  | none ↦ (err job_not_found, d)
  | some r ↦ (ok r, d)
]

-- RowsAffected of 0 means that there was no such job.
abbrev pub affected : ℕ → M (Unit {0})
affected n = if n == 0 then throw job_not_found else pure tt

abbrev pub get_by_id : ℕ → M JobRow
get_by_id id = statement (read_job (λ r. r.id == id))

module _ {A : Type 0} (f : Db → Result A × Db) (w : World) where
  -- What holds if the statement fails, and if it works, holds.
  pub statement-rule {κ} :
      (P : Result A × World → Type κ)
      → ((e : Error) (fs : List (Option Error)) → P (err e, record { db = w.db; faults = fs }))
      → ((fs : List (Option Error)) → P ((f w.db).0, record { db = (f w.db).1; faults = fs }))
      → P (statement f w)
  unfolding statement
  statement-rule P broken works = go w.faults
    where
      go : (fs : List (Option Error)) → P (run_statement fs w.db f)
      go [] = works []
      go (none ∷ rest) = works rest
      go (some e ∷ rest) = broken e rest

  pub bind-rule {κ} :
      {B : Type 0} (k : A → M B) (P : Result B × World → Type κ)
      → ((e : Error) (fs : List (Option Error)) → P (err e, record { db = w.db; faults = fs }))
      → ((fs : List (Option Error))
          → P (and_then ((f w.db).0, record { db = (f w.db).1; faults = fs }) k))
      → P ((statement f >>= k) w)
  unfolding ◌>>=◌
  bind-rule k P broken works = statement-rule (λ p. P (and_then p k)) broken works
