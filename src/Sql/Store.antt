-- ===== src/Sql/Store.antt =====
-- The tables that Migrate of driver/sqldriver/driver.go creates, with rows as scanJob reads them:
-- a NULL text is the empty text, a NULL time is none.
use tasker.Base.{
  ℕ, Bool, ◌&&◌, Option, none, some, List, [], ◌∷◌, String, ◌==◌, if◌then◌else◌, any, ℤ,
}
use tasker.Job.{State, same, Time, JobRow, AttemptError}

pub data Dialect : Type 0 where
  postgres mysql sqlite : Dialect

-- A row of `failed_jobs`.
pub record FailedJob : Type 0 where
  pub uuid : String
  pub queue : String
  pub kind : String
  pub payload : List ℕ
  pub attempt : ℕ
  pub max_attempts : ℤ
  pub errors : List AttemptError
  pub tags : List String

pub record NodeRow : Type 0 where
  pub node_id : String
  pub host : String
  pub port : ℕ
  pub queues : List String
  pub workers : ℕ
  pub status : String
  pub started_at : Time
  pub last_heartbeat : Time
  pub version : String

-- The one row of `leader`, which has the id 1.
pub record LeaderRow : Type 0 where
  pub node_id : String
  pub started_at : Time
  pub last_heartbeat : Time

pub record LockRow : Type 0 where
  pub lock_key : String
  pub node_id : String
  pub expires_at : Time

-- `next_id` is what the id column's sequence gives next.
pub record Db : Type 0 where
  pub jobs : List JobRow
  pub next_id : ℕ
  pub failed_jobs : List FailedJob
  pub nodes : List NodeRow
  pub leader : Option LeaderRow
  pub locks : List LockRow

unfoldable pub empty_db : Db
empty_db = record {
  jobs = [];
  next_id = 1;
  failed_jobs = [];
  nodes = [];
  leader = none;
  locks = [];
}

-- `UPDATE … WHERE`, `DELETE … WHERE` and `state IN (…)`.
abbrev pub update_where {ℓ} : {A : Type ℓ} → (A → Bool) → (A → A) → List A → List A
update_where test f [] = []
update_where test f (r ∷ rs) = (if test r then f r else r) ∷ update_where test f rs

abbrev pub delete_where {ℓ} : {A : Type ℓ} → (A → Bool) → List A → List A
delete_where test [] = []
delete_where test (r ∷ rs) = if test r then delete_where test rs else r ∷ delete_where test rs

abbrev pub state_in : List State → JobRow → Bool
state_in states r = any (λ s. same s r.state) states

abbrev pub find_job : ℕ → List JobRow → Option JobRow
find_job id [] = none
find_job id (r ∷ rs) = if r.id == id then some r else find_job id rs

-- The first row that passes a test, as QueryRow scans it.
abbrev pub find_first {ℓ} : {A : Type ℓ} → (A → Bool) → List A → Option A
find_first test [] = none
find_first test (r ∷ rs) = if test r then some r else find_first test rs

-- WHERE id = … AND state IN (…).
abbrev pub id_and_state : ℕ → List State → JobRow → Bool
id_and_state id states r = (r.id == id) && state_in states r
