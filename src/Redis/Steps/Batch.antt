-- ===== src/Redis/Steps/Batch.antt =====
-- Retry, Cancel and their batches of the Redis driver keep the index sets consistent.
use tasker.Base.{
  ℕ, true, false, Option, none, some, List, ◌∷◌, [], ◌==◌, ◌≡◌, arith, get_key, put_key, refl,
  Bool-cases, inl, inr, sym, ◌∙◌, get_key-key, get_key-put_key, subst, ap, ==_iff, All, All-imp,
}
use tasker.Job.{State, JobRow, Time}
use tasker.Sql.Store.{state_in}
use tasker.Sql.Statement.{Result, ok, err}
use tasker.Redis.Store.{Store, row_id, find_row, zrem, unix_micros, Sent}
use tasker.Redis.Linked.{Consistent, has_member-zrem, runs, rewritten-Consistent}
use tasker.Redis.Admin.{
  collect, collect_one, write_all, write_if, retry_batch, retry_step, retried_row, retry_allowed,
  cancel_batch, cancel_step, cancelled_row, cancel_allowed,
}
use tasker.Redis.Steps.{due_add-at, due_remove-at, still_idle, found_self}
use tasker.Redis.Steps.Finish.{send-Consistent}

-- A row that was read is the stored one, up to what a batch has written to it since.
abbrev pub Known : List JobRow → JobRow → Type 0
Known jobs r =
    (r0 : JobRow) × (get_key row_id r.id jobs ≡ some r0)
    × (r0.uuid ≡ r.uuid)
    × (r0.queue ≡ r.queue)
    × (runs r0 ≡ false)

module _ (jobs : List JobRow) (r r' t : JobRow) (same_id : r'.id ≡ r.id)
    (same_uuid : r'.uuid ≡ r.uuid) (same_queue : r'.queue ≡ r.queue) (idle : runs r' ≡ false) where
  Known-put_key : Known jobs r → Known jobs t → Known (put_key row_id r' jobs) t
  Known-put_key (r0, fr, ur, qr, _) (t0, ft, ut, qt, it) = elim (Bool-cases (r'.id == t.id)) [
    | inl here ↦
        let e : r.id ≡ t.id = sym same_id ∙ (==_iff r'.id t.id).0 here in
        let e0 : some r0 ≡ some t0 = sym fr ∙ ap (λ (k : ℕ). get_key row_id k jobs) e ∙ ft in
        (r', ground (arith, get_key-put_key row_id t.id r' jobs), cc, cc, idle)
    | inr other ↦ (t0, ground (arith, get_key-put_key row_id t.id r' jobs), ut, qt, it)
  ]

Known-All :
    (jobs : List JobRow) (r r' : JobRow)
    → r'.id ≡ r.id
    → r'.uuid ≡ r.uuid
    → r'.queue ≡ r.queue
    → runs r' ≡ false
    → Known jobs r
    → (rows : List JobRow) → All (Known jobs) rows
    → All (Known (put_key row_id r' jobs)) rows
Known-All jobs r r' i u q idle k rows =
    All-imp (Known jobs) (Known (put_key row_id r' jobs))
      (λ t known. Known-put_key jobs r r' t i u q idle k known) rows

retry_step-Consistent :
    (now : Time) (r : JobRow) (s : Store)
    → Known s.jobs r
    → Consistent s
    → Consistent (retry_step now r s)
retry_step-Consistent now r s (r0, found, u, q, idle) h =
    let i : r0.id ≡ r.id = get_key-key row_id r.id s.jobs r0 found in
    rewritten-Consistent s r0 (retried_row now r) _ (zrem r.id s.running)
      (found_self r0 r.id s found) (sym i) (sym u) (sym q)
      (λ j p. cc (due_add-at s r.queue (unix_micros now) r.id j p, i, q))
      (λ j. cc (has_member-zrem j r.id s.running, i)) h

cancel_step-Consistent :
    (now : Time) (r : JobRow) (s : Store)
    → Known s.jobs r
    → Consistent s
    → Consistent (cancel_step now r s)
cancel_step-Consistent now r s (r0, found, u, q, idle) h =
    let i : r0.id ≡ r.id = get_key-key row_id r.id s.jobs r0 found in
    rewritten-Consistent s r0 (cancelled_row now r) _ s.running (found_self r0 r.id s found) (sym i)
      (sym u) (sym q) (λ j p. cc (due_remove-at s r.queue r.id j p, i, q))
      (λ j. still_idle s r0 j h (found_self r0 r.id s found) idle) h

-- The loop of a batch: f writes g r where it was given r.
write_all-Consistent :
    (f : JobRow → Store → Store) (g : JobRow → JobRow)
    → ((r : JobRow) → (g r).id ≡ r.id)
    → ((r : JobRow) → (g r).uuid ≡ r.uuid)
    → ((r : JobRow) → (g r).queue ≡ r.queue)
    → ((r : JobRow) → runs (g r) ≡ false)
    → ((r : JobRow) (s : Store) → (f r s).jobs ≡ put_key row_id (g r) s.jobs)
    → ((r : JobRow) (s : Store) → Known s.jobs r → Consistent s → Consistent (f r s))
    → (rows : List JobRow) (s : Store) → All (Known s.jobs) rows
    → Consistent s
    → Consistent (write_all f rows s)
write_all-Consistent f g i u q idle put step [] s known h = h
write_all-Consistent f g i u q idle put step (r ∷ rows) s known h =
    write_all-Consistent f g i u q idle put step rows (f r s)
      (subst (λ jobs. All (Known jobs) rows) (sym (put r s))
        (Known-All s.jobs r (g r) (i r) (u r) (q r) (idle r) known.0 rows known.1))
      (step r s known.0 h)

-- What the first loop reads is stored, in a state that is allowed.
pub collect_one-stored :
    (allowed : List State) (o : Option JobRow) (rest : Result (List JobRow)) (rows : List JobRow)
    → collect_one allowed o rest ≡ ok rows
    → (r : JobRow) × (rs : List JobRow) × (o ≡ some r)
      × (state_in allowed r ≡ true)
      × (rest ≡ ok rs)
      × (rows ≡ r ∷ rs)
collect_one-stored allowed none rest rows e = cc
collect_one-stored allowed (some r) (ok rs) rows e = (r, rs, refl, ground arith, refl, ground arith)
collect_one-stored allowed (some r) (err x) rows e = let never : false ≡ true = ground arith in cc

pub collect-stored :
    (allowed : List State) (s : Store) (ids : List ℕ) (rows : List JobRow)
    → collect allowed s ids ≡ ok rows
    → All (λ r. (find_row r.id s ≡ some r) × (state_in allowed r ≡ true)) rows
unfolding collect
collect-stored allowed s [] rows e =
    let shape : [] ≡ rows = cc in
    subst (λ l. All (λ r. (find_row r.id s ≡ some r) × (state_in allowed r ≡ true)) l) shape tt
collect-stored allowed s (id ∷ ids) rows e =
    let (r, rs, found, good, rest, shape) =
      collect_one-stored allowed (find_row id s) (collect allowed s ids) rows e in
    subst (λ l. All (λ r. (find_row r.id s ≡ some r) × (state_in allowed r ≡ true)) l) (sym shape)
      ((found_self r id s found, good), collect-stored allowed s ids rs rest)

-- A row in one of those states is known until the batch writes to it.
stored-Known :
    (allowed : List State) (s : Store)
    → ((r : JobRow) → state_in allowed r ≡ true → runs r ≡ false)
    → (rows : List JobRow)
    → All (λ r. (find_row r.id s ≡ some r) × (state_in allowed r ≡ true)) rows
    → All (Known s.jobs) rows
stored-Known allowed s idle rows h =
    All-imp (λ r. (find_row r.id s ≡ some r) × (state_in allowed r ≡ true)) (Known s.jobs)
      (λ r (found, good). (r, found, refl, refl, idle r good)) rows h

retry_allowed-idle : (r : JobRow) → state_in retry_allowed r ≡ true → runs r ≡ false
retry_allowed-idle r h = ground arith

cancel_allowed-idle : (r : JobRow) → state_in cancel_allowed r ≡ true → runs r ≡ false
cancel_allowed-idle r h = ground arith

write_if-Consistent :
    (f : JobRow → Store → Store) (s : Store) (o : Result (List JobRow))
    → ((rows : List JobRow) → o ≡ ok rows → Consistent (write_all f rows s))
    → Consistent s
    → Consistent (write_if f s o).1
write_if-Consistent f s (ok rows) written h = written rows refl
write_if-Consistent f s (err e) written h = h

pub retry_batch-Consistent :
    (sent : Sent) (ids : List ℕ) (now : Time) (s : Store)
    → Consistent s
    → Consistent (retry_batch sent ids now s).1
unfolding retry_batch
retry_batch-Consistent sent [] now s h = h
retry_batch-Consistent sent (id ∷ ids) now s h =
    send-Consistent sent _ s
      (write_if-Consistent (retry_step now) s (collect retry_allowed s (id ∷ ids))
        (λ rows e.
          write_all-Consistent (retry_step now) (retried_row now) (λ r. refl) (λ r. refl)
            (λ r. refl) (λ r. refl) (λ r t. refl) (retry_step-Consistent now) rows s
            (stored-Known retry_allowed s retry_allowed-idle rows
              (collect-stored retry_allowed s (id ∷ ids) rows e))
            h)
        h)
      h

pub cancel_batch-Consistent :
    (sent : Sent) (ids : List ℕ) (now : Time) (s : Store)
    → Consistent s
    → Consistent (cancel_batch sent ids now s).1
unfolding cancel_batch
cancel_batch-Consistent sent [] now s h = h
cancel_batch-Consistent sent (id ∷ ids) now s h =
    send-Consistent sent _ s
      (write_if-Consistent (cancel_step now) s (collect cancel_allowed s (id ∷ ids))
        (λ rows e.
          write_all-Consistent (cancel_step now) (cancelled_row now) (λ r. refl) (λ r. refl)
            (λ r. refl) (λ r. refl) (λ r t. refl) (cancel_step-Consistent now) rows s
            (stored-Known cancel_allowed s cancel_allowed-idle rows
              (collect-stored cancel_allowed s (id ∷ ids) rows e))
            h)
        h)
      h
