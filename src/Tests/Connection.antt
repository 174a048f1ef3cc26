-- ===== src/Tests/Connection.antt =====
-- The theorems about connections and migrations at concrete configurations.
use tasker.Job.{failure}
use tasker.Sql.Store.{mysql}
use tasker.Sql.Migrate.{Session, migrate}
use tasker.Sql.Migrate.Left.{left}
use tasker.Sql.Migrate.Complete.{clean, migrated, migrate-migrate}
use tasker.Base.{◌≡◌, some, refl, none, [], ◌∷◌, text_append}
use tasker.Sql.Statement.{ok}
use tasker.Sql.Connection.{Database, Pools, default_config, valid_identifier_prefix, new_driver}
use tasker.Sql.Connection.Closing.{Opened, pool_of, new_driver-close}

abbrev some_database : Database
some_database = record {
  open_db = λ name dsn. ok 8;
  ping = λ h. none;
  close = λ h. none;
  quote = λ s. text_append "\"" (text_append s "\"");
}

abbrev some_pools : Pools
some_pools = pool_of default_config 3 ∷ []

new_driver-close_example :
    Opened some_database default_config some_pools "jobs"
      (new_driver some_database default_config some_pools)
unfolding valid_identifier_prefix
new_driver-close_example =
    new_driver-close some_database default_config some_pools "jobs" refl (refl, tt)

-- An older schema, over which a Migrate in MySQL loses its third statement.
abbrev some_session : Session
some_session = record {
  schema = record { tables = "tasker_jobs" ∷ []; indexes = "idx_tasker_jobs_kind" ∷ [] };
  faults = none ∷ none ∷ some (failure "bad connection") ∷ [];
}

migrate-migrate_example :
    migrate mysql "tasker_" (clean (left (migrate mysql "tasker_" some_session)))
    ≡ (ok tt, clean (migrated "tasker_" some_session.schema))
migrate-migrate_example = migrate-migrate mysql "tasker_" some_session
