-- ===== src/Redis/Steps/Sweep.antt =====
-- RequeueStale and Prune of the Redis driver keep the index sets consistent.
use tasker.Base.{
  ◌-ℤ◌, eq_refl, ℕ, Bool, true, false, Option, none, some, List, ◌∷◌, [], String, ◌==◌,
  if◌then◌else◌, str_eq, ◌≡◌, eq_iff, arith, is_some, refl, Bool-cases, inl, inr, sym, ◌∙◌,
  get_key-del_key, subst, ==_iff,
}
use tasker.Job.{State, JobRow, Time, Duration}
use tasker.Sql.Store.{state_in}
use tasker.Redis.Store.{
  Store, Zset, has_member, row_id, find_row, zrem, due_add, running_remove, store_row, unix_micros,
  Sent,
}
use tasker.Redis.Linked.{
  Linked, Consistent, has_member-zrem, runs, rewritten-Consistent, waits_in, is_running, has_uuid,
}
use tasker.Redis.Claim.{up_to}
use tasker.Redis.Admin.{
  requeue_one, stale_row, stale_script, requeue_stale, count_over, prune_one, delete_row,
  prune_script, prune, below,
}
use tasker.Redis.Steps.{due_add-at, due_remove-at, found_id, found_self}
use tasker.Redis.Steps.Finish.{send-Consistent}

-- An id that is not that of a running job may leave "job:running".
running_remove-Consistent :
    (id : ℕ) (s : Store)
    → is_running (find_row id s) ≡ false
    → Consistent s
    → Consistent (running_remove id s)
running_remove-Consistent id s idle h j = record {
  due_waits = (h j).due_waits;
  run_due = (h j).run_due;
  in_running = has_member-zrem j id s.running ∙ elim (Bool-cases (id == j)) [
    | inl here ↦
        rw here (sym (subst (λ k. is_running (find_row k s) ≡ false) ((==_iff id j).0 here) idle))
    | inr other ↦ rw other (h j).in_running
  ];
  in_ids = (h j).in_ids;
  in_created = (h j).in_created;
  uuid_stored = (h j).uuid_stored;
  uuid_used = (h j).uuid_used;
  given_out = (h j).given_out;
}

requeue_one-Consistent :
    (now : Time) (id : ℕ) (o : Option JobRow) (s : Store)
    → find_row id s ≡ o
    → Consistent s
    → Consistent (requeue_one now id o s).1
requeue_one-Consistent now id none s found h = running_remove-Consistent id s (rw found refl) h
requeue_one-Consistent now id (some r) s found h = elim (Bool-cases (runs r)) [
  | inr idle ↦ rw idle (running_remove-Consistent id s (rw found idle) h)
  | inl up ↦ rw up (
      subst
        (λ k.
          Consistent (
            running_remove k (due_add r.queue (unix_micros now) k (store_row (stale_row now r) s))))
        (found_id r id s found)
        (rewritten-Consistent s r (stale_row now r) _ (zrem r.id s.running)
          (found_self r id s found) refl refl refl
          (λ i q. due_add-at s r.queue (unix_micros now) r.id i q)
          (λ i. has_member-zrem i r.id s.running) h))
]

count_over-Consistent :
    (f : ℕ → Store → ℕ × Store)
    → ((id : ℕ) (s : Store) → Consistent s → Consistent (f id s).1)
    → (z : Zset) (s : Store) → Consistent s
    → Consistent (count_over f z s).1
count_over-Consistent f step [] s h = h
count_over-Consistent f step ((id, score) ∷ z) s h =
    count_over-Consistent f step z (f id s).1 (step id s h)

pub requeue_stale-Consistent :
    (sent : Sent) (timeout : Duration) (now : Time) (s : Store)
    → Consistent s
    → Consistent (requeue_stale sent timeout now s).1
unfolding requeue_stale stale_script
requeue_stale-Consistent sent timeout now s h =
    send-Consistent sent _ s
      (count_over-Consistent (λ id t. requeue_one now id (find_row id t) t)
        (λ id t. requeue_one-Consistent now id (find_row id t) t refl)
        (up_to (unix_micros (now -ℤ timeout)) s.running) s h)
      h

-- An id that has no job may leave "job:ids" and "job:created".
forget-Consistent :
    (id : ℕ) (s : Store)
    → find_row id s ≡ none
    → Consistent s
    → Consistent (record s { ids = zrem id s.ids; created = zrem id s.created })
forget-Consistent id s gone h j = record {
  due_waits = (h j).due_waits;
  run_due = (h j).run_due;
  in_running = (h j).in_running;
  in_ids = has_member-zrem j id s.ids ∙ left_out s.ids (h j).in_ids;
  in_created = has_member-zrem j id s.created ∙ left_out s.created (h j).in_created;
  uuid_stored = (h j).uuid_stored;
  uuid_used = (h j).uuid_used;
  given_out = (h j).given_out;
}
  where
    left_out :
        (z : Zset)
        → has_member j z ≡ is_some (find_row j s)
        → (if id == j then false else has_member j z) ≡ is_some (find_row j s)
    left_out z e = elim (Bool-cases (id == j)) [
      | inl here ↦
          rw here (
            sym (subst (λ k. is_some (find_row k s) ≡ false) ((==_iff id j).0 here) (rw gone refl)))
      | inr other ↦ rw other e
    ]

not_removed :
    (b : Bool) (j : ℕ) (o : Option ℕ)
    → (if b then none else o) ≡ some j
    → (b ≡ false) × (o ≡ some j)
not_removed b j o e = ground arith

-- A job and its members are deleted together.
module _ (id : ℕ) (r : JobRow) (s : Store) (h : Consistent s) (found : find_row id s ≡ some r) where
  gone_here : (j : ℕ) → (id == j) ≡ true → find_row j (delete_row id r s) ≡ none
  gone_here j here = rw here at (get_key-del_key row_id j id s.jobs)

  row_here : (j : ℕ) → (id == j) ≡ true → find_row j s ≡ some r
  row_here j here = subst (λ k. find_row k s ≡ some r) ((==_iff id j).0 here) found

  not_due_here :
      (j : ℕ) (q : String) → (id == j) ≡ true → has_member j ((delete_row id r s).due q) ≡ false
  not_due_here j q here = elim (Bool-cases (str_eq r.queue q)) [
    | inl same ↦ ground (arith, due_remove-at s r.queue id j q)
    | inr other ↦ elim (Bool-cases (has_member j (s.due q))) [
      | inr e ↦ due_remove-at s r.queue id j q ∙ rw (here, other) e
      | inl e ↦
          let w : waits_in q (some r) ≡ true = rw (row_here j here) at ((h j).due_waits q e) in
          let never : false ≡ true = ground (arith, other) in cc
    ]
  ]

  delete_here : (j : ℕ) → (id == j) ≡ true → Linked (delete_row id r s) j
  delete_here j here =
      let e : find_row j (delete_row id r s) ≡ none = gone_here j here in
      record {
        due_waits = λ q m. let never : false ≡ true = sym (not_due_here j q here) ∙ m in cc;
        run_due = λ q m. let never : false ≡ true = rw e at m in cc;
        in_running = rw e (has_member-zrem j id s.running ∙ rw here refl);
        in_ids = rw e (has_member-zrem j id s.ids ∙ rw here refl);
        in_created = rw e (has_member-zrem j id s.created ∙ rw here refl);
        uuid_stored = λ u m. let never : false ≡ true = rw e at m in cc;
        uuid_used = λ u m.
            let (other, old) = not_removed (str_eq r.uuid u) j (s.uuids u) m in
            let same : str_eq r.uuid u ≡ true = rw (row_here j here) at ((h j).uuid_used u old) in
            let never : false ≡ true = sym other ∙ same in cc;
        given_out = λ m. let never : false ≡ true = rw e at m in ground arith;
      }

  delete_there : (j : ℕ) → (id == j) ≡ false → Linked (delete_row id r s) j
  delete_there j other =
      let e : find_row j (delete_row id r s) ≡ find_row j s =
        rw other at (get_key-del_key row_id j id s.jobs) in
      let d : (q : String) → has_member j ((delete_row id r s).due q) ≡ has_member j (s.due q) =
        λ q. rw other at (due_remove-at s r.queue id j q) in
      record {
        due_waits = λ q m. rw e ((h j).due_waits q (sym (d q) ∙ m));
        run_due = λ q m. d q ∙ (h j).run_due q (rw e at m);
        in_running = rw e (has_member-zrem j id s.running ∙ rw other (h j).in_running);
        in_ids = rw e (has_member-zrem j id s.ids ∙ rw other (h j).in_ids);
        in_created = rw e (has_member-zrem j id s.created ∙ rw other (h j).in_created);
        uuid_stored = λ u m.
            let old : s.uuids u ≡ some j = (h j).uuid_stored u (rw e at m) in
            let mine : has_uuid r.uuid (find_row id s) ≡ true → s.uuids r.uuid ≡ some id =
              (h id).uuid_stored r.uuid in
            let mine' : s.uuids r.uuid ≡ some id = mine (rw found (eq_refl r.uuid)) in
            ground (arith, eq_iff r.uuid u);
        uuid_used =
            λ u m. rw e ((h j).uuid_used u (not_removed (str_eq r.uuid u) j (s.uuids u) m).1);
        given_out = λ m. (h j).given_out (rw e at m);
      }

  delete_row-Consistent : Consistent (delete_row id r s)
  delete_row-Consistent j = elim (Bool-cases (id == j)) [
    | inl here ↦ delete_here j here
    | inr other ↦ delete_there j other
  ]

prune_one-Consistent :
    (states : List State) (id : ℕ) (o : Option JobRow) (s : Store)
    → find_row id s ≡ o
    → Consistent s
    → Consistent (prune_one states id o s).1
prune_one-Consistent states id none s found h = forget-Consistent id s found h
prune_one-Consistent states id (some r) s found h = elim (Bool-cases (state_in states r)) [
  | inl yes_in ↦ rw yes_in (delete_row-Consistent id r s h found)
  | inr not_in ↦ rw not_in h
]

pub prune-Consistent :
    (sent : Sent) (before : Time) (states : List State) (s : Store)
    → Consistent s
    → Consistent (prune sent before states s).1
unfolding prune prune_script
prune-Consistent sent before [] s h = h
prune-Consistent sent before (st ∷ states) s h =
    send-Consistent sent _ s
      (count_over-Consistent (λ id t. prune_one (st ∷ states) id (find_row id t) t)
        (λ id t. prune_one-Consistent (st ∷ states) id (find_row id t) t refl)
        (below (unix_micros before) s.created) s h)
      h
