-- ===== src/Sql/Connection.antt =====
-- NewDriver, Close and the names of tables of driver/sqldriver/driver.go. `Database` is what is
-- used of database/sql and strconv: `open_db` is sql.Open, which gives the handle of a new pool. The state is the list of
-- the process's open pools.
pub mod Closing
use Prim.Native.Char.{code}
use Prim.Native.String
use tasker.Base.{
  ℕ, Bool, true, false, not, ◌&&◌, Option, none, some, List, ◌∷◌, map, String, ◌==◌, leb, str_eq,
  if◌then◌else◌, ℤ, pos, select, text_append, ◌||◌,
}
use tasker.Job.{Duration, Error, failure, error_text}
use tasker.Sql.Store.{Dialect, postgres, mysql, sqlite}
use tasker.Sql.Statement.{Result, ok, err}

-- `none` is what sql.Open leaves.
pub record SqlPool : Type 0 where
  pub handle : ℕ
  pub max_open : Option ℤ
  pub max_idle : Option ℤ
  pub lifetime : Option Duration

pub record Database : Type 0 where
  pub open_db : String → String → Result ℕ
  pub ping : ℕ → Option Error
  pub close : ℕ → Option Error
  pub quote : String → String

pub record Config : Type 0 where
  pub db : Option ℕ
  pub dialect : String
  pub dsn : String
  pub driver_name : String
  pub max_open_conns : ℤ
  pub max_idle_conns : ℤ
  pub conn_max_lifetime : Duration
  pub table_prefix : String

unfoldable pub default_config : Config
default_config = record {
  db = none;
  dialect = "";
  dsn = "";
  driver_name = "postgres";
  max_open_conns = pos 25;
  max_idle_conns = pos 10;
  conn_max_lifetime = pos 0;
  table_prefix = "tasker_";
}

pub record Driver : Type 0 where
  pub db : ℕ
  pub config : Config
  pub dialect : Dialect
  pub borrowed : Bool

unfoldable pub dialect_for : String → Dialect
dialect_for name =
    if str_eq name "postgres" || str_eq name "pgx"
    then postgres
    else (if str_eq name "mysql" || str_eq name "mariadb"
        then mysql
        else (if str_eq name "sqlite3" || (str_eq name "sqlite" || str_eq name "modernc.org/sqlite")
            then sqlite
            else postgres))

abbrev pub within : ℕ → ℕ → ℕ → Bool
within low high c = leb low c && leb c high

abbrev pub identifier_code : ℕ → Bool
identifier_code c = within b'a' b'z' c || (within b'A' b'Z' c || (within b'0' b'9' c || c == b'_'))

unfoldable pub valid_identifier_prefix : String → Bool
valid_identifier_prefix String.[] = true
valid_identifier_prefix (String.◌∷◌ c cs) =
    let rest = valid_identifier_prefix cs in if not (identifier_code (code c)) then false else rest

-- What the driver puts into its statements in the place of a table.
unfoldable pub table : Driver → String → String
table d name = text_append d.config.table_prefix name

abbrev pub Pools : Type 0
Pools = List SqlPool

abbrev pub set_pool : (SqlPool → SqlPool) → ℕ → Pools → Pools
set_pool f h = map (λ p. if p.handle == h then f p else p)

abbrev pub close_pool : ℕ → Pools → Pools
close_pool h = select (λ p. not (p.handle == h))

abbrev pub open_pool : ℕ → Pools → Pools
open_pool h pools = record { handle = h; max_open = none; max_idle = none; lifetime = none } ∷ pools

module _ (sql : Database) where
  -- What becomes of the answer of Ping.
  abbrev pub borrowed_driver : Config → ℕ → Pools → Option Error → Result Driver × Pools
  borrowed_driver cfg h pools (some e) =
      (err (failure (text_append "failed to ping the borrowed database: " (error_text e))), pools)
  borrowed_driver cfg h pools none = (
    ok (record { db = h; config = cfg; dialect = dialect_for cfg.dialect; borrowed = true }),
    pools,
  )

  abbrev pub own_driver : Config → ℕ → Pools → Option Error → Result Driver × Pools
  own_driver cfg h pools (some e) =
      (err (failure (text_append "failed to ping database: " (error_text e))), close_pool h pools)
  own_driver cfg h pools none = (
    ok (record { db = h; config = cfg; dialect = dialect_for cfg.driver_name; borrowed = false }),
    pools,
  )

  -- The rest of NewDriver where a pool is given.
  unfoldable pub borrow : Config → ℕ → Pools → Result Driver × Pools
  borrow cfg h pools =
      if str_eq cfg.dialect ""
      then (
        err (
            failure
              "sqldriver: Config.DB was given without a Dialect; a borrowed pool carries no driver name to infer one from"),
        pools,
      )
      else borrowed_driver cfg h pools (sql.ping h)

  abbrev pub sized : Config → ℕ → Pools → Pools
  sized cfg h pools =
      set_pool (λ p. record p { lifetime = some cfg.conn_max_lifetime }) h
        (set_pool (λ p. record p { max_idle = some cfg.max_idle_conns }) h
          (set_pool (λ p. record p { max_open = some cfg.max_open_conns }) h pools))

  -- The rest of it once sql.Open has answered.
  unfoldable pub after_open : Config → Result ℕ → Pools → Result Driver × Pools
  after_open cfg (err e) pools =
      (err (failure (text_append "failed to open database: " (error_text e))), pools)
  after_open cfg (ok h) pools = own_driver cfg h (sized cfg h (open_pool h pools)) (sql.ping h)

  abbrev pub by_pool : Config → Pools → Option ℕ → Result Driver × Pools
  by_pool cfg pools (some h) = borrow cfg h pools
  by_pool cfg pools none = after_open cfg (sql.open_db cfg.driver_name cfg.dsn) pools

  unfoldable pub new_driver : Config → Pools → Result Driver × Pools
  unfolding valid_identifier_prefix borrow after_open
  new_driver cfg pools =
      if not (valid_identifier_prefix cfg.table_prefix)
      then (err (failure (text_append "invalid table prefix " (sql.quote cfg.table_prefix))), pools)
      else by_pool cfg pools cfg.db

  unfoldable pub ping : Driver → Option Error
  ping d = sql.ping d.db

  unfoldable pub close : Driver → Pools → Option Error × Pools
  close d pools = if d.borrowed then (none, pools) else (sql.close d.db, close_pool d.db pools)
