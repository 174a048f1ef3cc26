-- ===== src/Redis/Store.antt =====
-- The keys that the job scripts of driver/redisdriver/driver.go read and write, and their Redis
-- commands. A script runs alone, from its first command to its last. The documents of the hash
-- "jobs" are held as the rows that they encode; ids stay below 2^53, where a score is exact.
pub use tasker.Base.{change}
use tasker.Base.{
  ℕ, ◌+◌, ◌-◌, ◌/◌, Bool, Option, none, List, [], String, ◌==◌, if◌then◌else◌, ℤ, pos, negsuc,
  get_key, put_key, del_key, is_some,
}
use tasker.Job.{Time, JobRow, Error}
use tasker.Sql.Statement.{Result, err}

-- A sorted set: its members, which are ids, with their scores.
abbrev pub Zset : Type 0
Zset = List (ℕ × ℤ)

abbrev pub member_id : ℕ × ℤ → ℕ
member_id (id, score) = id

abbrev pub zadd : ℤ → ℕ → Zset → Zset
zadd score id z = put_key member_id (id, score) z

abbrev pub zrem : ℕ → Zset → Zset
zrem id z = del_key member_id id z

abbrev pub has_member : ℕ → Zset → Bool
has_member id z = is_some (get_key member_id id z)

abbrev pub row_id : JobRow → ℕ
row_id r = r.id

-- `next_id` is the counter "job:id", `uuids` the hash "job:uuids", `jobs` the hash "jobs", and
-- `due q` the sorted set "job:due:" .. q. A sorted set that does not exist is empty.
pub record Store : Type 0 where
  pub next_id : ℕ
  pub uuids : String → Option ℕ
  pub jobs : List JobRow
  pub ids : Zset
  pub created : Zset
  pub due : String → Zset
  pub running : Zset

abbrev pub empty_store : Store
empty_store = record {
  next_id = 0;
  uuids = λ _. none;
  jobs = [];
  ids = [];
  created = [];
  due = λ _. [];
  running = [];
}

abbrev pub find_row : ℕ → Store → Option JobRow
find_row id s = get_key row_id id s.jobs

-- HSET jobs, ZADD and ZREM of the due set of a queue, ZADD and ZREM of "job:running".
abbrev pub store_row : JobRow → Store → Store
store_row r s = record s { jobs = put_key row_id r s.jobs }

abbrev pub due_add : String → ℤ → ℕ → Store → Store
due_add queue score id s = record s { due = change queue (zadd score id (s.due queue)) s.due }

abbrev pub due_remove : String → ℕ → Store → Store
due_remove queue id s = record s { due = change queue (zrem id (s.due queue)) s.due }

abbrev pub running_add : ℤ → ℕ → Store → Store
running_add score id s = record s { running = zadd score id s.running }

abbrev pub running_remove : ℕ → Store → Store
running_remove id s = record s { running = zrem id s.running }

-- UnixNano() / 1000: Go divides towards 0.
unfoldable pub unix_micros : Time → ℤ
unix_micros (pos n) = pos (n / 1000)
unix_micros (negsuc n) = if (n + 1) / 1000 == 0 then pos 0 else negsuc ((n + 1) / 1000 - 1)

-- What becomes of one command or script that is sent: its reply arrives, it is not run, or it is
-- run and its reply is lost.
pub data Sent : Type 0 where
  answered : Sent
  not_run reply_lost : Error → Sent

abbrev pub Answer : Type 0 → Type 0
Answer A = Result A × Store

abbrev pub send : {S A : Type 0} → Sent → (S → Result A × S) → S → Result A × S
send answered f s = f s
send (not_run e) f s = (err e, s)
send (reply_lost e) f s = (err e, (f s).1)
