-- ===== src/Redis/Claim.antt =====
-- Claim of driver/redisdriver/driver.go. `decode` is json.Unmarshal of a document of the hash
-- "jobs", as Lua has encoded it, into a row.
use tasker.Base.{
  ℕ, ◌+◌, Bool, ◌&&◌, not, Option, none, some, List, [], ◌∷◌, ◌++◌, String, if◌then◌else◌, ℤ, pos,
  pos_part, ltb, leb, ltb_ℤ, leb_ℤ, eqb_ℤ, drop, take, length, select,
}
use tasker.Job.{running, Time, JobRow}
use tasker.Sql.Store.{state_in}
use tasker.Sql.Statement.{Result, ok, err}
use tasker.Redis.Store.{
  Store, Zset, find_row, store_row, due_remove, running_add, unix_micros, Sent, Answer, send,
}
use tasker.Redis.Enqueue.{waiting_states}

pub record Candidate : Type 0 where
  pub id : ℕ
  pub score : ℤ
  pub job : JobRow

-- What the script asks of the document that a due id has.
abbrev pub can_run : JobRow → Bool
can_run r = state_in waiting_states r && ltb_ℤ (pos r.attempt) r.max_attempts

-- ZRANGEBYSCORE due -inf now.
abbrev pub up_to : ℤ → Zset → Zset
up_to now z = select (λ entry. leb_ℤ entry.1 now) z

abbrev pub and_candidate : Candidate → List Candidate × Store → List Candidate × Store
and_candidate c (cs, s) = (c ∷ cs, s)

abbrev pub keep_candidate :
    String
    → ℕ × ℤ
    → Option JobRow
    → (Store → List Candidate × Store)
    → Store
    → List Candidate × Store
keep_candidate queue (id, score) none rest s = rest (due_remove queue id s)
keep_candidate queue (id, score) (some r) rest s =
    if can_run r
    then and_candidate (record { id = id; score = score; job = r }) (rest s)
    else rest (due_remove queue id s)

-- The first loop: a due id whose job is gone, or cannot run, leaves the due set.
unfoldable pub candidates : String → Zset → Store → List Candidate × Store
candidates queue [] s = ([], s)
candidates queue (entry ∷ z) s =
    keep_candidate queue entry (find_row entry.0 s) (candidates queue z) s

-- The comparison that table.sort is given.
unfoldable pub sooner : Candidate → Candidate → Bool
sooner a b =
    if not (eqb_ℤ a.job.priority b.job.priority)
    then ltb_ℤ b.job.priority a.job.priority
    else (if not (eqb_ℤ a.score b.score) then ltb_ℤ a.score b.score else ltb a.id b.id)

unfoldable pub insert_candidate : Candidate → List Candidate → List Candidate
insert_candidate c [] = c ∷ []
insert_candidate c (d ∷ ds) = if sooner d c then d ∷ insert_candidate c ds else c ∷ d ∷ ds

unfoldable pub sort_candidates : List Candidate → List Candidate
unfolding insert_candidate sooner
sort_candidates [] = []
sort_candidates (c ∷ cs) = insert_candidate c (sort_candidates cs)

abbrev pub or_now : Option Time → Time → Time
or_now none now = now
or_now (some t) now = t

unfoldable pub claimed_row : String → Time → JobRow → JobRow
claimed_row node now r = record r {
  state = running;
  attempt = r.attempt + 1;
  attempted_at = some now;
  started_at = some (or_now r.started_at now);
  node_id = node;
  attempted_by =
      (if leb 50 (length r.attempted_by) then drop 1 r.attempted_by else r.attempted_by)
      ++ node ∷ [];
}

abbrev pub take_one : String → String → Time → Candidate → Store → Store
take_one queue node now c s =
    running_add (unix_micros now) c.id
      (due_remove queue c.id (store_row (claimed_row node now c.job) s))

-- The last loop.
unfoldable pub take_all : String → String → Time → List Candidate → Store → List JobRow × Store
unfolding claimed_row
take_all queue node now [] s = ([], s)
take_all queue node now (c ∷ cs) s =
    let (rows, s') = take_all queue node now cs (take_one queue node now c s) in
    (claimed_row node now c.job ∷ rows, s')

abbrev pub take_first : String → String → Time → ℕ → List Candidate × Store → List JobRow × Store
take_first queue node now max (cs, s) = take_all queue node now (take max (sort_candidates cs)) s

unfoldable pub claim_script : String → String → Time → ℕ → Store → List JobRow × Store
unfolding candidates sort_candidates take_all
claim_script queue node now max s =
    take_first queue node now max (candidates queue (up_to (unix_micros now) (s.due queue)) s)

abbrev pub found : List JobRow × Store → Answer (List JobRow)
found (rows, s) = (ok rows, s)

module _ (decode : JobRow → Result JobRow) where
  abbrev pub decode_jobs : List JobRow → Result (List JobRow)
  decode_jobs [] = ok []
  decode_jobs (r ∷ rs) = elim (decode r) [
    | err e ↦ err e
    | ok row ↦ elim (decode_jobs rs) [ ok rows ↦ ok (row ∷ rows) | err e ↦ err e ]
  ]

  abbrev pub decoded : Answer (List JobRow) → Answer (List JobRow)
  decoded (ok rows, s) = (decode_jobs rows, s)
  decoded (err e, s) = (err e, s)

  unfoldable pub claim : Sent → String → String → Time → ℤ → Store → Answer (List JobRow)
  unfolding claim_script
  claim sent queue node now max s =
      if leb_ℤ max (pos 0)
      then (ok [], s)
      else decoded (send sent (λ t. found (claim_script queue node now (pos_part max) t)) s)
