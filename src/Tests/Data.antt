-- ===== src/Tests/Data.antt =====
-- A table of two jobs, and calls on it.
use tasker.Base.{refl, none, some, List, [], ◌∷◌, pos, inl}
use tasker.Job.{available, running, pending, JobRow, failure}
use tasker.Sql.Store.{Db, postgres, empty_db, LockRow}
use tasker.Sql.Statement.{World}
use tasker.Sql.Changes.{IsFresh}
use tasker.Sql.Changes.Steps.{Call, enqueues, claims, fails, schedules_retry}

abbrev pub fresh_row : JobRow
fresh_row = record {
  id = 0;
  uuid = "a";
  queue = "mail";
  kind = "Send";
  payload = 123 ∷ 125 ∷ [];
  state = available;
  priority = pos 0;
  attempt = 0;
  max_attempts = pos 3;
  attempted_by = [];
  attempted_at = none;
  errors = [];
  output = [];
  tags = [];
  scheduled_at = pos 5;
  created_at = pos 5;
  started_at = none;
  completed_at = none;
  finalized_at = none;
  node_id = "";
  batch_id = "";
  timeout = pos 0;
  metadata = [];
  unique_key = "";
}

abbrev pub first_row : JobRow
first_row = record fresh_row { id = 1 }

abbrev pub urgent_row : JobRow
urgent_row = record fresh_row { id = 2; uuid = "b"; priority = pos 9 }

abbrev pub running_row : JobRow
running_row = record fresh_row { id = 3; uuid = "c"; state = running; attempt = 1 }

abbrev pub pending_row : JobRow
pending_row = record fresh_row { id = 4; uuid = "d"; state = pending }

abbrev pub some_rows : List JobRow
some_rows = first_row ∷ urgent_row ∷ running_row ∷ pending_row ∷ []

abbrev pub some_locks : List LockRow
some_locks = record { lock_key = "k"; node_id = "n1"; expires_at = pos 50 } ∷ []

abbrev pub some_db : Db
some_db = record {
  jobs = some_rows;
  next_id = 5;
  failed_jobs = [];
  nodes = [];
  leader = some (record { node_id = "n1"; started_at = pos 1; last_heartbeat = pos 40 });
  locks = some_locks;
}

abbrev pub some_world : World
some_world = record { db = some_db; faults = none ∷ none ∷ [] }

abbrev pub faulty_world : World
faulty_world = record { db = some_db; faults = none ∷ none ∷ none ∷ some (failure "disk") ∷ [] }

abbrev pub empty_world : World
empty_world = record { db = empty_db; faults = [] }

abbrev pub some_calls : List Call
some_calls =
    enqueues (some fresh_row)
    ∷ claims postgres "mail" "n1" (pos 10) (pos 1)
    ∷ schedules_retry 1 (some "timeout") (pos 20) (pos 11)
    ∷ claims postgres "mail" "n2" (pos 30) (pos 1)
    ∷ fails 1 (some "timeout") (pos 31) (pos 32)
    ∷ []

pub fresh_row-IsFresh : IsFresh fresh_row
fresh_row-IsFresh = record { untried = refl; unclaimed = refl; waiting = inl refl }
