-- ===== src/Sql/Taken.antt =====
-- The rows that a claim returns, in each dialect, and that two claims never return one job.
use tasker.Base.{
  ℕ, ◌<◌, ◌≡◌, ◌≢◌, refl, sym, subst, ◌==◌, Memᴰ, ◌∙◌, Bool, true, Bool-cases, inl, inr, List, [],
  ◌∷◌, String, pos, ◌≤ℤ◌, arith, any, select, All, All-imp, All-if, eq_iff, some,
}
use tasker.Job.{running, Time, JobRow}
use tasker.Sql.Store.{Dialect, update_where}
use tasker.Sql.Statement.{World, Result, ok, err, statement-rule}
use tasker.Sql.Keys.{IsKeyed, chosen-eligible}
use tasker.Sql.Claim.{eligible, chosen, id_in, claim_row, claim_ids, claim_update}
use tasker.Sql.Changes.{Changes-IsKeyed}
use tasker.Sql.Changes.Claims.{claim_update-Does}
use tasker.Sql.Claimed.{All-at}

-- A claimed row: running on the node, with an attempt that is allowed, on the queue, and due.
pub record Taken (queue node : String) (now : Time) (r : JobRow) : Type 0 where
  pub is_running : r.state ≡ running
  pub on_node : r.node_id ≡ node
  pub on_queue : r.queue ≡ queue
  pub allowed : pos r.attempt ≤ℤ r.max_attempts
  pub due : r.scheduled_at ≤ℤ now
  pub stamped : (r.attempted_at ≡ some now) × (0 < r.attempt)

eligible-Taken :
    (dialect : Dialect) (queue node : String) (now : Time) (r : JobRow)
    → eligible now queue r ≡ true
    → Taken queue node now (claim_row dialect node now r)
eligible-Taken dialect queue node now r e = record {
  is_running = refl;
  on_node = refl;
  on_queue = (eq_iff r.queue queue).0 (ground arith);
  allowed = ground arith;
  due = ground arith;
  stamped = (refl, omega arith);
}

-- After an update that keeps ids, the rows with certain ids are those that it changed.
selected-update {κ} :
    (ids : List ℕ) (f : JobRow → JobRow) (P : JobRow → Type κ) (rs : List JobRow)
    → ((r : JobRow) → id_in ids (f r) ≡ id_in ids r)
    → All (λ r. id_in ids r ≡ true → P (f r)) rs
    → All P (select (id_in ids) (update_where (id_in ids) f rs))
selected-update ids f P [] same h = tt
selected-update ids f P (r ∷ rs) same h = elim (Bool-cases (id_in ids r)) [
  | inl hit ↦
      let still : id_in ids (f r) ≡ true = same r ∙ hit in
      rw hit (rw still (h.0 hit, selected-update ids f P rs same h.1))
  | inr miss ↦ rw miss (rw miss (selected-update ids f P rs same h.1))
]

module _ (dialect : Dialect) (queue node : String) (now : Time) (max : ℕ) where
  abbrev pub AllTaken : Result (List JobRow) × World → Type 0
  AllTaken (ok rows, w) = All (Taken queue node now) rows
  AllTaken (err e, w) = Unit

  -- On a table with rising ids, each row that a claim by one update returns is running on the
  -- claiming node, is of the queue, was due, has been tried, and is on an attempt that its limit
  -- allows.
  pub claim_update-Taken :
      (w : World) → IsKeyed w.db → AllTaken (claim_update dialect queue node now max w)
  unfolding claim_update
  claim_update-Taken w k =
      statement-rule _ w AllTaken (λ e fs. tt)
        (λ fs.
          selected-update (chosen now queue max w.db.jobs) (claim_row dialect node now) _ w.db.jobs
            (λ r. refl)
            (All-imp _ _ (λ r pass hit. eligible-Taken dialect queue node now r (pass hit))
              w.db.jobs (chosen-eligible now queue max 0 w.db.next_id w.db.jobs k)))

  claim_update-IsKeyed :
      (w : World) → IsKeyed w.db → IsKeyed (claim_update dialect queue node now max w).1.db
  unfolding claim_update
  claim_update-IsKeyed w k =
      Changes-IsKeyed (claim_update-Does (λ _. Unit) dialect queue node now max tt w k) k

  -- No returned row has the id of `a`.
  abbrev pub Avoids : JobRow → Result (List JobRow) → Type 0
  Avoids a (ok rows) = All (λ b. a.id ≢ b.id) rows
  Avoids a (err e) = Unit

  not_eligible : (a : JobRow) → a.state ≡ running → eligible now queue a ≡ true → ⊥
  not_eligible a run_ e = ground arith

  select-id_in :
      (ids : List ℕ) (rs : List JobRow) → All (λ b. id_in ids b ≡ true) (select (id_in ids) rs)
  select-id_in ids [] = tt
  select-id_in ids (r ∷ rs) =
      All-if _ (id_in ids r) r (select (id_in ids) rs) (λ hit. hit) (select-id_in ids rs)

  -- A claim returns no job that runs.
  running-Avoids :
      (w : World) (a : JobRow)
      → IsKeyed w.db
      → a.state ≡ running
      → Memᴰ a w.db.jobs
      → Avoids a (claim_update dialect queue node now max w).0
  unfolding claim_update
  running-Avoids w a k run_ m =
      statement-rule _ w (λ p. Avoids a p.0) (λ e fs. tt)
        (λ fs.
          All-imp _ _
            (λ b hit same. not_eligible a run_ (
              All-at _ a w.db.jobs (chosen-eligible now queue max 0 w.db.next_id w.db.jobs k) m (
                subst (λ (i : ℕ). any (λ (id : ℕ). id == i) (chosen now queue max w.db.jobs) ≡ true)
                  (sym same) hit)))
            (select (id_in (chosen now queue max w.db.jobs)) _)
            (select-id_in (chosen now queue max w.db.jobs) _))

  abbrev pub Found : Result (List JobRow) × World → Type 0
  Found (ok rows, w) = All (λ a. (a.state ≡ running) × Memᴰ a w.db.jobs) rows
  Found (err e, w) = Unit

  All-select-Mem : (p : JobRow → Bool) (rs : List JobRow) → All (λ a. Memᴰ a rs) (select p rs)
  All-select-Mem p [] = tt
  All-select-Mem p (r ∷ rs) =
      All-if _ (p r) r (select p rs) (λ hit. Memᴰ.head refl)
        (All-imp _ _ (λ a m. Memᴰ.tail m) (select p rs) (All-select-Mem p rs))

  All-both {κ ι} :
      (P : JobRow → Type κ) (Q : JobRow → Type ι) (rs : List JobRow)
      → All P rs
      → All Q rs
      → All (λ r. P r × Q r) rs
  All-both P Q [] h k = tt
  All-both P Q (r ∷ rs) h k = ((h.0, k.0), All-both P Q rs h.1 k.1)

  claim_update-Found :
      (w : World) → IsKeyed w.db → Found (claim_update dialect queue node now max w)
  unfolding claim_update
  claim_update-Found w k =
      statement-rule _ w Found (λ e fs. tt)
        (λ fs.
          All-both _ _ (select (id_in (chosen now queue max w.db.jobs)) _)
            (selected-update (chosen now queue max w.db.jobs) (claim_row dialect node now)
              (λ r. r.state ≡ running) w.db.jobs (λ r. refl)
              (All-imp _ _ (λ r pass hit. refl) w.db.jobs
                (chosen-eligible now queue max 0 w.db.next_id w.db.jobs k)))
            (All-select-Mem (id_in (chosen now queue max w.db.jobs))
              (claim_ids dialect node now (chosen now queue max w.db.jobs) w.db).jobs))

module _ (dialect : Dialect) (queue node : String) (now : Time) (max : ℕ) (queue' node' : String)
    (now' : Time) (max' : ℕ) where
  abbrev pub Disjoint : Result (List JobRow) → Result (List JobRow) → Type 0
  Disjoint (ok rows) r = All (λ a. Avoids dialect queue' node' now' max' a r) rows
  Disjoint (err e) r = Unit

  claimed-Disjoint :
      (p : Result (List JobRow) × World)
      → IsKeyed p.1.db
      → Found dialect queue node now max p
      → Disjoint p.0 (claim_update dialect queue' node' now' max' p.1).0
  claimed-Disjoint (ok rows, v) k found =
      All-imp _ _ (λ a f. running-Avoids dialect queue' node' now' max' v a k f.0 f.1) rows found
  claimed-Disjoint (err e, v) k found = tt

  -- On a table with rising ids, of two claims by one update each, made one after the other on any
  -- queues, nodes and times, the second returns no job that the first returned.
  pub claim_update-Disjoint :
      (w : World)
      → IsKeyed w.db
      → let (r, v) = claim_update dialect queue node now max w in
        Disjoint r (claim_update dialect queue' node' now' max' v).0
  claim_update-Disjoint w k =
      claimed-Disjoint _ (claim_update-IsKeyed dialect queue node now max w k)
        (claim_update-Found dialect queue node now max w k)
