-- ===== src/Redis/Steps.antt =====
-- What the commands of the Redis scripts do to the members of the index sets.
pub mod Finish
pub mod Batch
pub mod Claim
pub mod Take
pub mod Add
pub mod Sweep
use tasker.Base.{
  ℕ, ◌≤◌, Bool, true, false, ◌&&◌, Option, none, some, List, ◌∷◌, [], String, ◌==◌, if◌then◌else◌,
  str_eq, ◌≡◌, eq_iff, arith, get_key, put_key, is_some, refl, ℤ, Bool-cases, inl, inr, sym, ◌∙◌,
  get_key-key, subst, ap, ==_self, Option-cases,
}
use tasker.Job.{State, running, JobRow, Time, Error}
use tasker.Sql.Store.{state_in}
use tasker.Redis.Store.{
  Store, Zset, has_member, member_id, row_id, find_row, zadd, zrem, change, due_add, due_remove,
  running_add, running_remove, store_row, unix_micros, Sent, answered, not_run, reply_lost,
}
use tasker.Redis.Linked.{
  Linked, Consistent, has_member-zadd, has_member-zrem, waits, runs, rewritten-Consistent, waits_in,
}
use tasker.Redis.Finish.{
  complete, completed_row, fail, failed_row, schedule_retry, retryable_row, with_row, finish_step,
  fail_step, schedule_step, or_job_failed,
}

pub due_add-at :
    (s : Store) (queue : String) (score : ℤ) (id j : ℕ) (q : String)
    → has_member j ((due_add queue score id s).due q)
      ≡ (if (id == j) && str_eq queue q then true else has_member j (s.due q))
due_add-at s queue score id j q =
    ground (arith, has_member-zadd j score id (s.due queue), eq_iff queue q)

pub due_remove-at :
    (s : Store) (queue : String) (id j : ℕ) (q : String)
    → has_member j ((due_remove queue id s).due q)
      ≡ (if (id == j) && str_eq queue q then false else has_member j (s.due q))
due_remove-at s queue id j q = ground (arith, has_member-zrem j id (s.due queue), eq_iff queue q)

-- The id of a row that does not wait is in no due set.
pub not_due :
    (s : Store) (r : JobRow) (j : ℕ) (q : String)
    → Linked s j
    → find_row j s ≡ some r
    → waits r ≡ false
    → has_member j (s.due q) ≡ false
not_due s r j q h found idle = elim (Bool-cases (has_member j (s.due q))) [
  | inr e ↦ e
  | inl e ↦
      let w : waits_in q (some r) ≡ true = rw found at (h.due_waits q e) in ground (arith, idle)
]

-- A script that does not touch the due sets leaves such an id out of them.
pub still_due :
    (s : Store) (r : JobRow) (j : ℕ) (q : String)
    → Consistent s
    → find_row r.id s ≡ some r
    → waits r ≡ false
    → has_member j (s.due q)
      ≡ (if (r.id == j) && str_eq r.queue q then false else has_member j (s.due q))
still_due s r j q h found idle = elim (Bool-cases (r.id == j)) [
  | inl here ↦
      let at_j : find_row j s ≡ some r = ground (arith, found) in
      ground (arith, not_due s r j q (h j) at_j idle)
  | inr other ↦ ground arith
]

-- One that does not touch "job:running" leaves the id of a row that does not run out of it.
pub still_idle :
    (s : Store) (r : JobRow) (j : ℕ)
    → Consistent s
    → find_row r.id s ≡ some r
    → runs r ≡ false
    → has_member j s.running ≡ (if r.id == j then false else has_member j s.running)
still_idle s r j h found idle = elim (Bool-cases (r.id == j)) [
  | inl here ↦
      let at_j : find_row j s ≡ some r = ground (arith, found) in
      let m : has_member j s.running ≡ runs r = rw at_j at (h j).in_running in ground (arith, idle)
  | inr other ↦ ground arith
]

-- A row in a state that does not wait, or does not run.
module _ (r : JobRow) where
  pub running_waits : runs r ≡ true → waits r ≡ false
  running_waits h = ground arith

  pub found_id : (j : ℕ) (s : Store) → find_row j s ≡ some r → r.id ≡ j
  found_id j s found = get_key-key row_id j s.jobs r found

  pub found_self : (j : ℕ) (s : Store) → find_row j s ≡ some r → find_row r.id s ≡ some r
  found_self j s found = ap (λ (k : ℕ). find_row k s) (found_id j s found) ∙ found

-- A loop that rewrites rows: its first round, and the rest.
pub or_first :
    (a b : Bool) (m m' z w x : Option JobRow)
    → w ≡ (if a then m' else z)
    → x ≡ (if b then m else w)
    → (a ≡ true → m' ≡ m)
    → x ≡ (if (if a then true else b) then m else z)
or_first true true m m' z w x first rest same = rest
or_first true false m m' z w x first rest same = rest ∙ (first ∙ same refl)
or_first false true m m' z w x first rest same = rest
or_first false false m m' z w x first rest same = rest ∙ first
