-- ===== src/Redis/Linked.antt =====
-- Do the index sets of the Redis driver say of each id what the hash "jobs" says?
use tasker.Base.{
  ℕ, ◌≤◌, Bool, true, false, ◌&&◌, Option, none, some, ◌∷◌, [], String, ◌==◌, if◌then◌else◌, str_eq,
  ◌≡◌, arith, get_key, put_key, get_key-put_key, get_key-del_key, is_some, refl, ℤ, ltb_ℤ, pos, ap,
  Bool-cases, inl, inr, sym, ◌∙◌,
}
use tasker.Job.{running, JobRow}
use tasker.Sql.Store.{state_in}
use tasker.Redis.Store.{
  Store, Zset, has_member, member_id, row_id, find_row, zadd, zrem, empty_store,
}
use tasker.Redis.Enqueue.{waiting_states}
use tasker.Redis.Claim.{can_run}

abbrev pub waits : JobRow → Bool
waits r = state_in waiting_states r

abbrev pub runs : JobRow → Bool
runs r = state_in (running ∷ []) r

abbrev pub waits_in : String → Option JobRow → Bool
waits_in q none = false
waits_in q (some r) = waits r && str_eq r.queue q

abbrev pub can_run_in : String → Option JobRow → Bool
can_run_in q none = false
can_run_in q (some r) = can_run r && str_eq r.queue q

abbrev pub is_running : Option JobRow → Bool
is_running none = false
is_running (some r) = runs r

abbrev pub has_uuid : String → Option JobRow → Bool
has_uuid u none = false
has_uuid u (some r) = str_eq r.uuid u

-- Of the id j: a due set that has it is that of its waiting job's queue; a waiting job that has
-- attempts left is due; "job:running" has it exactly when its job is running; "job:ids" and
-- "job:created" have it exactly when there is such a job; "job:uuids" gives it for its job's uuid
-- and for no other; and it is one that has been given out.
pub record Linked (s : Store) (j : ℕ) : Type 0 where
  pub due_waits : (q : String) → has_member j (s.due q) ≡ true → waits_in q (find_row j s) ≡ true
  pub run_due : (q : String) → can_run_in q (find_row j s) ≡ true → has_member j (s.due q) ≡ true
  pub in_running : has_member j s.running ≡ is_running (find_row j s)
  pub in_ids : has_member j s.ids ≡ is_some (find_row j s)
  pub in_created : has_member j s.created ≡ is_some (find_row j s)
  pub uuid_stored : (u : String) → has_uuid u (find_row j s) ≡ true → s.uuids u ≡ some j
  pub uuid_used : (u : String) → s.uuids u ≡ some j → has_uuid u (find_row j s) ≡ true
  pub given_out : is_some (find_row j s) ≡ true → j ≤ s.next_id

abbrev pub Consistent : Store → Type 0
Consistent s = (j : ℕ) → Linked s j

pub empty-Consistent : Consistent empty_store
unfolding get_key
empty-Consistent j = record {
  due_waits = λ q h. cc;
  run_due = λ q h. cc;
  in_running = refl;
  in_ids = refl;
  in_created = refl;
  uuid_stored = λ u h. cc;
  uuid_used = λ u h. cc;
  given_out = λ h. ground arith;
}

pub has_member-zadd :
    (j : ℕ) (score : ℤ) (id : ℕ) (z : Zset)
    → has_member j (zadd score id z) ≡ (if id == j then true else has_member j z)
has_member-zadd j score id z = ground (arith, get_key-put_key member_id j (id, score) z)

pub has_member-zrem :
    (j id : ℕ) (z : Zset) → has_member j (zrem id z) ≡ (if id == j then false else has_member j z)
has_member-zrem j id z = ground (arith, get_key-del_key member_id j id z)

due_after :
    (w w' e e' old new : Bool)
    → e' ≡ e
    → (old ≡ true → (w && e) ≡ true)
    → new ≡ (if e then w' else old)
    → new ≡ (w' && e')
due_after w w' e e' old new same before after = ground arith

pub and_left : (a b c : Bool) → ((a && b) && c) ≡ true → (a && c) ≡ true
and_left a b c h = ground arith

-- A script that gives the job r the row r', and sets the membership of its id: in the due set of
-- its queue to whether r' waits, and in "job:running" to whether r' runs.
module _ (s : Store) (r r' : JobRow) (due' : String → Zset) (running' : Zset)
    (found : find_row r.id s ≡ some r) (same_id : r'.id ≡ r.id) (same_uuid : r'.uuid ≡ r.uuid)
    (same_queue : r'.queue ≡ r.queue)
    (due_at : (j : ℕ) (q : String)
      → has_member j (due' q)
        ≡ (if (r.id == j) && str_eq r.queue q then waits r' else has_member j (s.due q)))
    (running_at : (j : ℕ)
      → has_member j running' ≡ (if r.id == j then runs r' else has_member j s.running)) where
  abbrev pub rewritten : Store
  rewritten = record s { jobs = put_key row_id r' s.jobs; due = due'; running = running' }

  find_row-rewritten :
      (j : ℕ) → find_row j rewritten ≡ (if r.id == j then some r' else find_row j s)
  find_row-rewritten j = ground (arith, get_key-put_key row_id j r' s.jobs)

  -- At the id itself.
  rewritten-here : (j : ℕ) → (r.id == j) ≡ true → Linked s j → Linked rewritten j
  rewritten-here j here h =
      let e : find_row j s ≡ some r = ground (arith, found) in
      let e' : find_row j rewritten ≡ some r' = rw here at (find_row-rewritten j) in
      let d : (q : String)
          → has_member j (due' q)
            ≡ (if str_eq r.queue q then waits r' else has_member j (s.due q)) =
        λ q. rw here at (due_at j q) in
      let w : (q : String) → has_member j (s.due q) ≡ true → waits_in q (some r) ≡ true =
        λ q m. rw e at (h.due_waits q m) in
      let c : (q : String) → has_member j (due' q) ≡ waits_in q (some r') = λ q.
        due_after (waits r) (waits r') (str_eq r.queue q) (str_eq r'.queue q)
          (has_member j (s.due q)) (has_member j (due' q))
          (ap (λ (t : String). str_eq t q) same_queue) (w q) (d q) in
      let u_eq : (u : String) → str_eq r.uuid u ≡ str_eq r'.uuid u =
        λ u. ap (λ (t : String). str_eq t u) (sym same_uuid) in
      record {
        due_waits = λ q m. rw e' (sym (c q) ∙ m);
        run_due = λ q m.
            c q
            ∙ and_left (waits r') (ltb_ℤ (pos r'.attempt) r'.max_attempts) (str_eq r'.queue q)
                (rw e' at m);
        in_running = rw (running_at j, here, e') refl;
        in_ids = rw e' (rw e at h.in_ids);
        in_created = rw e' (rw e at h.in_created);
        uuid_stored = λ u m. h.uuid_stored u (rw e (u_eq u ∙ rw e' at m));
        uuid_used = λ u m. rw e' (sym (u_eq u) ∙ rw e at (h.uuid_used u m));
        given_out = λ m. h.given_out (rw e refl);
      }

  pub rewritten-Consistent : Consistent s → Consistent rewritten
  rewritten-Consistent h j = elim (Bool-cases (r.id == j)) [
    | inl here ↦ rewritten-here j here (h j)
    | inr other ↦
        let e : find_row j rewritten ≡ find_row j s = rw other at (find_row-rewritten j) in
        let d : (q : String) → has_member j (due' q) ≡ has_member j (s.due q) =
          λ q. rw other at (due_at j q) in
        record {
          due_waits = λ q m. rw e ((h j).due_waits q (sym (d q) ∙ m));
          run_due = λ q m. d q ∙ (h j).run_due q (rw e at m);
          in_running = sym (rw (running_at j, other, e) (sym (h j).in_running));
          in_ids = rw e (h j).in_ids;
          in_created = rw e (h j).in_created;
          uuid_stored = λ u m. (h j).uuid_stored u (rw e at m);
          uuid_used = λ u m. rw e ((h j).uuid_used u m);
          given_out = λ m. (h j).given_out (rw e at m);
        }
  ]
