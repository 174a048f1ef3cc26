-- ===== src/Sql/Migrate/Complete.antt =====
-- What Migrate makes, and that it takes up what a failed Migrate left.
use mathlib.Core.Path.{ap₂}
use tasker.Base.{ℕ, zero, suc, List, [], ◌∷◌, String, str_eq, count, ◌≡◌, refl, sym, ◌∙◌, ap}
use tasker.Sql.Store.{Dialect, postgres, mysql, sqlite}
use tasker.Sql.Statement.{ok}
use tasker.Sql.Migrate.{
  Schema, Session, Answer, and_then, ensure, table_names, index_names, make_tables, make_index,
  make_indexes, set_busy_timeout, migrate, unless_counted,
}
use tasker.Sql.Migrate.Ensured.{ensure_all, ensure-has, resumed, count-has, has-count}
use tasker.Sql.Migrate.Left.{left, after_tables, migrate-More}

-- The schema that Migrate is to make.
abbrev pub migrated : String → Schema → Schema
migrated prefix sch = record {
  tables = ensure_all (table_names prefix) sch.tables;
  indexes = ensure_all (index_names prefix) sch.indexes;
}

-- A session in which no statement fails.
abbrev pub clean : Schema → Session
clean sch = record { schema = sch; faults = [] }

make_tables-clean :
    (names : List String) (sch : Schema)
    → make_tables names (clean sch)
      ≡ (ok tt, clean (record sch { tables = ensure_all names sch.tables }))
unfolding make_tables
make_tables-clean [] sch = refl
make_tables-clean (name ∷ names) sch =
    make_tables-clean names (record sch { tables = ensure name sch.tables })

abbrev succeeded : Schema → Answer (Unit {0})
succeeded sch = (ok tt, clean sch)

unless_counted-clean :
    (name : String) (sch : Schema) (n : ℕ)
    → count (str_eq name) sch.indexes ≡ n
    → unless_counted name n (clean sch)
      ≡ (ok tt, clean (record sch { indexes = ensure name sch.indexes }))
unless_counted-clean name sch zero h = let new = count-has name sch.indexes h in rw new refl
unless_counted-clean name sch (suc n) h =
    ap (λ (l : List String). succeeded (record sch { indexes = l }))
      (sym (ensure-has name sch.indexes (has-count name sch.indexes n h)))

make_index-clean :
    (dialect : Dialect) (name : String) (sch : Schema)
    → make_index dialect name (clean sch)
      ≡ (ok tt, clean (record sch { indexes = ensure name sch.indexes }))
make_index-clean postgres name sch = refl
make_index-clean sqlite name sch = refl
make_index-clean mysql name sch = unless_counted-clean name sch _ refl

make_indexes-clean :
    (dialect : Dialect) (names : List String) (sch : Schema)
    → make_indexes dialect names (clean sch)
      ≡ (ok tt, clean (record sch { indexes = ensure_all names sch.indexes }))
unfolding make_indexes
make_indexes-clean dialect [] sch = refl
make_indexes-clean dialect (name ∷ names) sch =
    ap (λ a. and_then a (λ _. make_indexes dialect names)) (make_index-clean dialect name sch)
    ∙ make_indexes-clean dialect names (record sch { indexes = ensure name sch.indexes })

set_busy_timeout-clean :
    (dialect : Dialect) (sch : Schema) → set_busy_timeout dialect (clean sch) ≡ (ok tt, clean sch)
set_busy_timeout-clean postgres sch = refl
set_busy_timeout-clean mysql sch = refl
set_busy_timeout-clean sqlite sch = refl

module _ (dialect : Dialect) (prefix : String) where
  migrate-clean :
      (sch : Schema) → migrate dialect prefix (clean sch) ≡ (ok tt, clean (migrated prefix sch))
  unfolding migrate
  migrate-clean sch =
      ap (λ a. and_then a (λ _. after_tables dialect prefix))
        (make_tables-clean (table_names prefix) sch)
      ∙ (ap (λ a. and_then a (λ _. set_busy_timeout dialect))
            (make_indexes-clean dialect (index_names prefix)
              (record sch { tables = ensure_all (table_names prefix) sch.tables }))
          ∙ set_busy_timeout-clean dialect (migrated prefix sch))

  -- A Migrate in which no statement fails, after one in which any statements failed, or none, succeeds
  -- and leaves the schema that the first was to leave: the tables and indexes that were there, and
  -- after them those of the driver's that were missing, in their order. So it finishes what was
  -- begun, and changes nothing where nothing was missing.
  pub migrate-migrate :
      (s : Session)
      → migrate dialect prefix (clean (left (migrate dialect prefix s)))
        ≡ (ok tt, clean (migrated prefix s.schema))
  migrate-migrate s =
      let more = migrate-More dialect prefix s in
      migrate-clean (left (migrate dialect prefix s))
      ∙ ap₂ (λ (t i : List String). succeeded (record { tables = t; indexes = i }))
          (resumed more.tables) (resumed more.indexes)
