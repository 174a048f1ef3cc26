-- ===== src/Sql/Migrate.antt =====
-- Migrate of driver/sqldriver/driver.go: which tables and indexes it makes, in which order, and
-- what a failing statement leaves. The columns of the tables are text that is not modelled.
pub mod Ensured
pub mod Left
pub mod Complete
use tasker.Base.{
  ℕ, zero, suc, Bool, Option, none, some, List, [], ◌∷◌, ◌++◌, map, String, str_eq, text_append,
  if◌then◌else◌, any, count,
}
use tasker.Job.{Error, failure, error_text}
use tasker.Sql.Store.{Dialect, postgres, mysql, sqlite}
use tasker.Sql.Statement.{Result, ok, err}

-- The names of the tables and indexes that are there.
pub record Schema : Type 0 where
  pub tables : List String
  pub indexes : List String

-- `faults` has an entry for each statement to come.
pub record Session : Type 0 where
  pub schema : Schema
  pub faults : List (Option Error)

abbrev pub Answer : Type 0 → Type 0
Answer A = Result A × Session

abbrev pub has : String → List String → Bool
has name = any (str_eq name)

abbrev pub done : {A : Type 0} → List (Option Error) → Result A × Schema → Answer A
done rest (r, sch) = (r, record { schema = sch; faults = rest })

abbrev pub run_on :
    {A : Type 0} → (Schema → Result A × Schema) → Schema → List (Option Error) → Answer A
run_on f sch [] = done [] (f sch)
run_on f sch (none ∷ rest) = done rest (f sch)
run_on f sch (some e ∷ rest) = (err e, record { schema = sch; faults = rest })

-- A statement fails where the environment says so, and changes nothing then.
abbrev pub exec : {A : Type 0} → (Schema → Result A × Schema) → Session → Answer A
exec f s = run_on f s.schema s.faults

abbrev pub and_then :
    {A : Type 0} → Answer A → (A → Session → Answer (Unit {0})) → Answer (Unit {0})
and_then (ok a, s) next = next a s
and_then (err e, s) next = (err e, s)

-- fmt.Errorf(text+"%w", err).
abbrev pub wrapped : String → Answer (Unit {0}) → Answer (Unit {0})
wrapped text (ok u, s) = (ok u, s)
wrapped text (err e, s) = (err (failure (text_append text (error_text e))), s)

abbrev pub ensure : String → List String → List String
ensure name names = if has name names then names else names ++ name ∷ []

-- CREATE TABLE IF NOT EXISTS, CREATE INDEX IF NOT EXISTS and CREATE INDEX.
abbrev pub create_table : String → Schema → Result (Unit {0}) × Schema
create_table name sch = (ok tt, record sch { tables = ensure name sch.tables })

abbrev pub create_missing_index : String → Schema → Result (Unit {0}) × Schema
create_missing_index name sch = (ok tt, record sch { indexes = ensure name sch.indexes })

abbrev pub create_index : String → Schema → Result (Unit {0}) × Schema
create_index name sch =
    if has name sch.indexes
    then (err (failure "duplicate key name"), sch)
    else (ok tt, record sch { indexes = sch.indexes ++ name ∷ [] })

abbrev pub count_indexes : String → Schema → Result ℕ × Schema
count_indexes name sch = (ok (count (str_eq name) sch.indexes), sch)

abbrev pub table_names : String → List String
table_names prefix =
    map (text_append prefix) ("jobs" ∷ "leader" ∷ "nodes" ∷ "failed_jobs" ∷ "locks" ∷ [])

abbrev pub index_names : String → List String
index_names prefix =
    map (λ name. text_append "idx_" (text_append prefix (text_append "jobs_" name)))
      ("queue_state" ∷ "state" ∷ "kind" ∷ "batch_id" ∷ "node_id" ∷ "scheduled_at" ∷ "unique_key"
        ∷ [])

unfoldable pub make_tables : List String → Session → Answer (Unit {0})
make_tables [] s = (ok tt, s)
make_tables (name ∷ names) s =
    and_then (wrapped "migrate sqldriver: " (exec (create_table name) s)) (λ _. make_tables names)

abbrev pub creating : String → Answer (Unit {0}) → Answer (Unit {0})
creating name = wrapped (text_append "create index " (text_append name ": "))

-- In MySQL an index that is there is passed over.
abbrev pub unless_counted : String → ℕ → Session → Answer (Unit {0})
unless_counted name zero s = creating name (exec (create_index name) s)
unless_counted name (suc n) s = (ok tt, s)

abbrev pub make_index : Dialect → String → Session → Answer (Unit {0})
make_index mysql name s = and_then (exec (count_indexes name) s) (unless_counted name)
make_index postgres name s = creating name (exec (create_missing_index name) s)
make_index sqlite name s = creating name (exec (create_missing_index name) s)

unfoldable pub make_indexes : Dialect → List String → Session → Answer (Unit {0})
make_indexes dialect [] s = (ok tt, s)
make_indexes dialect (name ∷ names) s =
    and_then (make_index dialect name s) (λ _. make_indexes dialect names)

-- PRAGMA busy_timeout, which makes nothing.
abbrev pub set_busy_timeout : Dialect → Session → Answer (Unit {0})
set_busy_timeout sqlite s = exec (λ sch. (ok tt, sch)) s
set_busy_timeout postgres s = (ok tt, s)
set_busy_timeout mysql s = (ok tt, s)

unfoldable pub migrate : Dialect → String → Session → Answer (Unit {0})
unfolding make_tables make_indexes
migrate dialect prefix s =
    and_then (make_tables (table_names prefix) s)
      λ _ s₁. and_then (make_indexes dialect (index_names prefix) s₁) λ _. set_busy_timeout dialect
