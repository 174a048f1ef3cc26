-- ===== src/Redis/Steps/Add.antt =====
-- EnqueueBatch of the Redis driver keep the index sets consistent.
use tasker.Base.{
  ℕ, ◌≤◌, ◌+◌, Bool, true, false, ◌&&◌, Option, none, some, List, ◌∷◌, [], String, ◌==◌,
  if◌then◌else◌, str_eq, ◌≡◌, eq_iff, arith, refl, Bool-cases, inl, inr, sym, ◌∙◌, pos, ltb_ℤ,
  get_key-put_key, subst, ap, ==_iff, Option-cases, All, any,
}
use tasker.Job.{JobRow}
use tasker.Sql.Statement.{Result, ok, err}
use tasker.Redis.Store.{
  Store, Zset, has_member, row_id, find_row, due_add, unix_micros, Sent, Answer, send,
}
use tasker.Redis.Linked.{
  Linked, Consistent, has_member-zadd, waits, runs, waits_in, is_running, and_left, has_uuid,
}
use tasker.Redis.Enqueue.{
  all_new, numbered, insert_new, add_job, add_jobs, enqueue_script, enqueue_batch, set_ids, cons_ok,
  no_nil, submit,
}
use tasker.Redis.Steps.{due_add-at}
use tasker.Redis.Steps.Finish.{send-Consistent}

no_member : (a b m : Bool) → (a ≡ true → m ≡ false) → m ≡ (if a && b then false else m)
no_member a b m f = ground arith

not_now :
    (b : Bool) (next j : ℕ) (o : Option ℕ)
    → (next == j) ≡ false
    → (if b then some next else o) ≡ some j
    → o ≡ some j
not_now b next j o other e = ground arith

was_used :
    (b : Bool) (next j : ℕ) (o : Option ℕ)
    → (o ≡ some j → false ≡ true)
    → (if b then some next else o) ≡ some j
    → b ≡ true
was_used b next j o used e = ground arith

module _ (s : Store) (h : Consistent s) where
  no_row : find_row (s.next_id + 1) s ≡ none
  no_row = elim (Option-cases (find_row (s.next_id + 1) s)) [
    | inl e ↦ e
    | inr (t, e) ↦
        let b : (s.next_id + 1) ≤ s.next_id = (h (s.next_id + 1)).given_out (rw e refl) in
        let never : false ≡ true = ground arith in cc
  ]

  not_new : (j : ℕ) (q : String) → find_row j s ≡ none → has_member j (s.due q) ≡ false
  not_new j q gone = elim (Bool-cases (has_member j (s.due q))) [
    | inr e ↦ e
    | inl e ↦ let w : waits_in q none ≡ true = rw gone at ((h j).due_waits q e) in cc
  ]

-- A new row, which does not run, under the next id and a new uuid, with due sets that have that id
-- exactly when the row waits.
module _ (s : Store) (r : JobRow) (due' : String → Zset) (h : Consistent s)
    (fresh : s.uuids r.uuid ≡ none) (idle : runs r ≡ false)
    (due_at : (j : ℕ) (q : String)
      → has_member j (due' q) ≡ (
          if (s.next_id + 1 == j) && str_eq r.queue q
          then waits r
          else has_member j (s.due q))) where
  abbrev next : ℕ
  next = s.next_id + 1

  abbrev inserted : Store
  inserted = record (insert_new next r s) { due = due' }

  find_row-inserted :
      (j : ℕ) → find_row j inserted ≡ (if next == j then some (numbered next r) else find_row j s)
  find_row-inserted j = get_key-put_key row_id j (numbered next r) s.jobs

  inserted-here : (j : ℕ) → (next == j) ≡ true → Linked inserted j
  inserted-here j here =
      let same : next ≡ j = (==_iff next j).0 here in
      let gone : find_row j s ≡ none = subst (λ k. find_row k s ≡ none) same (no_row s h) in
      let e : find_row j inserted ≡ some (numbered next r) = rw here at (find_row-inserted j) in
      let d : (q : String) → has_member j (due' q) ≡ waits r && str_eq r.queue q =
        λ q. ground (arith, due_at j q, not_new s h j q gone) in
      record {
        due_waits = λ q m. rw e (sym (d q) ∙ m);
        run_due = λ q m.
            d q
            ∙ and_left (waits r) (ltb_ℤ (pos r.attempt) r.max_attempts) (str_eq r.queue q)
                (rw e at m);
        in_running = rw (e, idle) (rw gone at (h j).in_running);
        in_ids = rw e (has_member-zadd j (pos next) next s.ids ∙ rw here refl);
        in_created =
            rw e (has_member-zadd j (unix_micros r.created_at) next s.created ∙ rw here refl);
        uuid_stored = λ u m. let m' : str_eq r.uuid u ≡ true = rw e at m in rw m' (ap some same);
        uuid_used = λ u m.
            let used : s.uuids u ≡ some j → has_uuid u none ≡ true =
              λ old. rw gone at ((h j).uuid_used u old) in
            rw e (was_used (str_eq r.uuid u) next j (s.uuids u) used m);
        given_out = λ m. ground arith;
      }

  inserted-there : (j : ℕ) → (next == j) ≡ false → Linked inserted j
  inserted-there j other =
      let e : find_row j inserted ≡ find_row j s = rw other at (find_row-inserted j) in
      let d : (q : String) → has_member j (due' q) ≡ has_member j (s.due q) =
        λ q. rw other at (due_at j q) in
      record {
        due_waits = λ q m. rw e ((h j).due_waits q (sym (d q) ∙ m));
        run_due = λ q m. d q ∙ (h j).run_due q (rw e at m);
        in_running = rw e (h j).in_running;
        in_ids = rw e (has_member-zadd j (pos next) next s.ids ∙ rw other (h j).in_ids);
        in_created = rw e (
            has_member-zadd j (unix_micros r.created_at) next s.created
            ∙ rw other (h j).in_created);
        uuid_stored = λ u m.
            let old : s.uuids u ≡ some j = (h j).uuid_stored u (rw e at m) in
            ground (arith, eq_iff r.uuid u, fresh);
        uuid_used =
            λ u m. rw e ((h j).uuid_used u (not_now (str_eq r.uuid u) next j (s.uuids u) other m));
        given_out = λ m. let b : j ≤ s.next_id = (h j).given_out (rw e at m) in omega arith;
      }

  inserted-Consistent : Consistent inserted
  inserted-Consistent j = elim (Bool-cases (next == j)) [
    | inl here ↦ inserted-here j here
    | inr other ↦ inserted-there j other
  ]

add_job-Consistent :
    (r : JobRow) (s : Store)
    → s.uuids r.uuid ≡ none
    → runs r ≡ false
    → Consistent s
    → Consistent (add_job r s)
unfolding add_job
add_job-Consistent r s fresh idle h = elim (Bool-cases (waits r)) [
  | inl w ↦
      let at : (j : ℕ) (q : String)
          → has_member j ((due_add r.queue (unix_micros r.scheduled_at) (s.next_id + 1) s).due q)
            ≡ (if (s.next_id + 1 == j) && str_eq r.queue q
                then waits r
                else has_member j (s.due q)) =
        λ j q. rw w (due_add-at s r.queue (unix_micros r.scheduled_at) (s.next_id + 1) j q) in
      rw w (inserted-Consistent s r _ h fresh idle at)
  | inr n ↦
      let at : (j : ℕ) (q : String)
          → has_member j (s.due q) ≡ (
              if (s.next_id + 1 == j) && str_eq r.queue q
              then waits r
              else has_member j (s.due q)) =
        λ j q. rw n (
          no_member (s.next_id + 1 == j) (str_eq r.queue q) _ (λ here.
            not_new s h j q (
              subst (λ k. find_row k s ≡ none) ((==_iff (s.next_id + 1) j).0 here)
                (no_row s h)))) in
      rw n (inserted-Consistent s r s.due h fresh idle at)
]

add_job-uuids :
    (r : JobRow) (s : Store) (u : String)
    → str_eq u r.uuid ≡ false
    → (add_job r s).uuids u ≡ s.uuids u
unfolding add_job
add_job-uuids r s u other = elim (Bool-cases (waits r)) [
  | inl w ↦ rw w (ground (arith, eq_iff r.uuid u, eq_iff u r.uuid))
  | inr n ↦ rw n (ground (arith, eq_iff r.uuid u, eq_iff u r.uuid))
]

-- What the first loop has found of the first row.
all_new-head :
    (seen : List String) (uuids : String → Option ℕ) (r : JobRow) (rs : List JobRow)
    → all_new seen uuids (r ∷ rs) ≡ true
    → (any (str_eq r.uuid) seen ≡ false)
      × (uuids r.uuid ≡ none)
      × (all_new (r.uuid ∷ seen) uuids rs ≡ true)
unfolding all_new
all_new-head seen uuids r rs h = ground arith

neither : (a b : Bool) → (if a then true else b) ≡ false → (a ≡ false) × (b ≡ false)
neither a b h = ground arith

-- `uuids` is what the first loop has read, and the second has changed it at `seen` only.
add_jobs-Consistent :
    (uuids : String → Option ℕ) (seen : List String) (rows : List JobRow) (s : Store)
    → all_new seen uuids rows ≡ true
    → ((u : String) → any (str_eq u) seen ≡ false → s.uuids u ≡ uuids u)
    → All (λ r. runs r ≡ false) rows
    → Consistent s
    → Consistent (add_jobs rows s).1
unfolding add_jobs
add_jobs-Consistent uuids seen [] s new old idle h = h
add_jobs-Consistent uuids seen (r ∷ rows) s new old idle h =
    let (unseen, free, rest) = all_new-head seen uuids r rows new in
    add_jobs-Consistent uuids (r.uuid ∷ seen) rows (add_job r s) rest
      (λ u n.
        let (other, unseen') = neither (str_eq u r.uuid) (any (str_eq u) seen) n in
        add_job-uuids r s u other ∙ old u unseen')
      idle.1 (add_job-Consistent r s (old r.uuid unseen ∙ free) idle.0 h)

enqueue_script-Consistent :
    (rows : List JobRow) (s : Store)
    → All (λ r. runs r ≡ false) rows
    → Consistent s
    → Consistent (enqueue_script rows s).1
unfolding enqueue_script
enqueue_script-Consistent rows s idle h = elim (Bool-cases (all_new [] s.uuids rows)) [
  | inl new ↦ rw new (add_jobs-Consistent s.uuids [] rows s new (λ u n. refl) idle h)
  | inr old ↦ rw old h
]

cons_ok-idle :
    (r : JobRow) (o : Result (List JobRow)) (rows : List JobRow)
    → runs r ≡ false
    → ((rs : List JobRow) → o ≡ ok rs → All (λ t. runs t ≡ false) rs)
    → cons_ok r o ≡ ok rows
    → All (λ t. runs t ≡ false) rows
cons_ok-idle r (err e) rows idle rest h = let never : false ≡ true = ground arith in cc
cons_ok-idle r (ok rs) rows idle rest h =
    let shape : r ∷ rs ≡ rows = ground arith in
    subst (All (λ t. runs t ≡ false)) shape (idle, rest rs refl)

no_nil-idle :
    (jobs : List (Option JobRow)) (rows : List JobRow)
    → All (λ o. is_running o ≡ false) jobs
    → no_nil jobs ≡ ok rows
    → All (λ t. runs t ≡ false) rows
no_nil-idle [] rows idle h =
    let shape : [] ≡ rows = ground arith in subst (All (λ t. runs t ≡ false)) shape tt
no_nil-idle (none ∷ jobs) rows idle h = let never : false ≡ true = ground arith in cc
no_nil-idle (some r ∷ jobs) rows idle h =
    cons_ok-idle r (no_nil jobs) rows idle.0 (λ rs e. no_nil-idle jobs rs idle.1 e) h

set_ids-store : (rows : List JobRow) (a : Answer (List ℕ)) → (set_ids rows a).1 ≡ a.1
set_ids-store rows (ok ids, s) = refl
set_ids-store rows (err e, s) = refl

submit-Consistent :
    (sent : Sent) (s : Store) (o : Result (List JobRow))
    → ((rows : List JobRow) → o ≡ ok rows → All (λ t. runs t ≡ false) rows)
    → Consistent s
    → Consistent (submit sent s o).1
submit-Consistent sent s (err e) idle h = h
submit-Consistent sent s (ok rows) idle h =
    subst Consistent (sym (set_ids-store rows (send sent (enqueue_script rows) s)))
      (send-Consistent sent _ s (enqueue_script-Consistent rows s (idle rows refl) h) h)

pub enqueue_batch-Consistent :
    (sent : Sent) (jobs : List (Option JobRow)) (s : Store)
    → All (λ o. is_running o ≡ false) jobs
    → Consistent s
    → Consistent (enqueue_batch sent jobs s).1
unfolding enqueue_batch
enqueue_batch-Consistent sent [] s idle h = h
enqueue_batch-Consistent sent (job ∷ jobs) s idle h =
    submit-Consistent sent s (no_nil (job ∷ jobs)) (λ rows e. no_nil-idle (job ∷ jobs) rows idle e)
      h
