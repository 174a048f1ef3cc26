-- ===== src/Redis/Claimed.antt =====
-- What Claim of the Redis driver gives out, and that no job is given out twice.
use tasker.Base.{
  ℕ, ◌≤ℤ◌, ◌<ℤ◌, Bool, true, false, ◌&&◌, ◌+◌, ◌++◌, Option, none, some, leb, length, drop,
  if◌then◌else◌, List, [], ◌∷◌, String, ◌==◌, ◌≡◌, ◌≢◌, refl, sym, ◌∙◌, ap, subst, arith, map, any,
  get_key-key, ==_self, All, All-imp, ltb_ℤ→<, ltb_ℤ, pos,
}
use tasker.Job.{running, JobRow, Time}
use tasker.Redis.Store.{Store, row_id, find_row}
use tasker.Redis.Linked.{Consistent, waits, runs}
use tasker.Redis.Claim.{or_now, Candidate, claimed_row, claim_script}
use tasker.Redis.Steps.Claim.{Found}
use tasker.Redis.Steps.Take.{
  picked, picked-Found, claim_script-rows, claim_script-find, claim_script-Consistent,
}

All-map :
    (P : JobRow → Type 0) (f : Candidate → JobRow) (cs : List Candidate)
    → All (λ c. P (f c)) cs
    → All P (map f cs)
All-map P f [] h = tt
All-map P f (c ∷ cs) h = (h.0, All-map P f cs h.1)

-- Every candidate of a list is in it.
own_ids : (cs : List Candidate) → All (λ c. any (λ d. d.id == c.id) cs ≡ true) cs
own_ids [] = tt
own_ids (c ∷ cs) = (
  rw (==_self c.id) refl,
  All-imp (λ d. any (λ e. e.id == d.id) cs ≡ true) (λ d. any (λ e. e.id == d.id) (c ∷ cs) ≡ true)
      (λ d m. ground arith) cs (own_ids cs),
)

-- The row once the node has claimed it: its first start is kept, and its last 50 nodes.
abbrev pub claimed_as : String → Time → JobRow → JobRow
claimed_as node now r0 = record r0 {
  state = running;
  node_id = node;
  attempt = r0.attempt + 1;
  attempted_at = some now;
  started_at = elim r0.started_at [ none ↦ some now | some first ↦ some first ];
  attempted_by =
      (if leb 50 (length r0.attempted_by) then drop 1 r0.attempted_by else r0.attempted_by)
      ++ node ∷ [];
}

claimed_row-eq :
    (node : String) (now : Time) (r : JobRow) → claimed_row node now r ≡ claimed_as node now r
unfolding claimed_row
claimed_row-eq node now r =
    ap (λ (t : Option Time). record (claimed_as node now r) { started_at = t }) (first r.started_at)
  where
    first :
        (o : Option Time)
        → some (or_now o now) ≡ elim o as (λ _. Option Time) [ none ↦ some now | some t ↦ some t ]
    first none = refl
    first (some t) = refl

-- r was r0, which waited in the queue with an attempt left, and is now stored as it is given out:
-- running on the node with one attempt more, and no more than it may have.
abbrev pub Taken : String → String → Time → Store → Store → JobRow → Type 0
Taken queue node now s s' r =
    (r0 : JobRow) × (find_row r.id s ≡ some r0)
    × (waits r0 ≡ true)
    × (r0.queue ≡ queue)
    × (r ≡ claimed_as node now r0)
    × (pos r.attempt ≤ℤ r.max_attempts)
    × (runs r ≡ true)
    × (find_row r.id s' ≡ some r)

both_true : (a b : Bool) → (a && b) ≡ true → (a ≡ true) × (b ≡ true)
both_true a b e = ground arith

claimed_row-id : (node : String) (now : Time) (r : JobRow) → (claimed_row node now r).id ≡ r.id
unfolding claimed_row
claimed_row-id node now r = refl

claimed_row-attempts :
    (node : String) (now : Time) (r : JobRow)
    → ltb_ℤ (pos r.attempt) r.max_attempts ≡ true
    → pos (claimed_row node now r).attempt ≤ℤ (claimed_row node now r).max_attempts
unfolding claimed_row
claimed_row-attempts node now r e =
    let b : pos r.attempt <ℤ r.max_attempts = ltb_ℤ→< (pos r.attempt) r.max_attempts e in
    omega arith

claimed_row-runs : (node : String) (now : Time) (r : JobRow) → runs (claimed_row node now r) ≡ true
unfolding claimed_row
claimed_row-runs node now r = refl

module _ (queue node : String) (now : Time) (max : ℕ) (s : Store) (h : Consistent s) where
  abbrev after : Store
  after = (claim_script queue node now max s).1

  picked-Taken :
      (c : Candidate)
      → Found queue s.jobs c
      → any (λ d. d.id == c.id) (picked queue node now max s h) ≡ true
      → Taken queue node now s after (claimed_row node now c.job)
  picked-Taken c (found, can, at_queue) here =
      let i : (claimed_row node now c.job).id ≡ c.id =
        claimed_row-id node now c.job ∙ get_key-key row_id c.id s.jobs c.job found in
      let (up, left) = both_true (waits c.job) (ltb_ℤ (pos c.job.attempt) c.job.max_attempts) can in
      let now_at : find_row c.id after ≡ some (claimed_row node now c.job) =
        rw (here, found) at (claim_script-find queue node now max s h c.id) in
      (
        c.job,
        subst (λ k. find_row k s ≡ some c.job) (sym i) found,
        up,
        at_queue,
        claimed_row-eq node now c.job,
        claimed_row-attempts node now c.job left,
        claimed_row-runs node now c.job,
        subst (λ k. find_row k after ≡ some (claimed_row node now c.job)) (sym i) now_at,
      )

  -- On a consistent store, each row that a claim returns was stored, waited in the claimed queue
  -- and had an attempt left; it is now stored as it is returned, which is that row made running on
  -- the claiming node, with one attempt more and no more than its limit, that attempt at the time
  -- of the claim, started then where it was not before, and the node after its last 49 nodes.
  pub claim_script-Taken : All (Taken queue node now s after) (claim_script queue node now max s).0
  claim_script-Taken =
      subst (All (Taken queue node now s after)) (sym (claim_script-rows queue node now max s h)) (
        All-map (Taken queue node now s after) (λ c. claimed_row node now c.job) cs
          (All-both cs (picked-Found queue node now max s h) (own_ids cs)))
    where
      cs : List Candidate
      cs = picked queue node now max s h

      All-both :
          (ds : List Candidate)
          → All (Found queue s.jobs) ds
          → All (λ c. any (λ d. d.id == c.id) cs ≡ true) ds
          → All (λ c. Taken queue node now s after (claimed_row node now c.job)) ds
      All-both [] f a = tt
      All-both (d ∷ ds) f a = (picked-Taken d f.0 a.0, All-both ds f.1 a.1)

waiting_idle : (r : JobRow) → waits r ≡ true → runs r ≡ false
waiting_idle r e = ground arith

not_both :
    (s s1 s2 : Store) (queue node queue' node' : String) (now now' : Time) (r t : JobRow)
    → Taken queue node now s s1 r
    → Taken queue' node' now' s1 s2 t
    → r.id ≢ t.id
not_both s s1 s2 queue node queue' node' now now' r t (r0, _, _, _, _, _, up, stored)
      (t0, before, waiting, _, _, _, _, _) same =
    let e : some r ≡ some t0 = sym stored ∙ (ap (λ (k : ℕ). find_row k s1) same ∙ before) in
    let same_row : r ≡ t0 = cc in
    let idle : runs r ≡ false =
      subst (λ x. runs x ≡ false) (sym same_row) (waiting_idle t0 waiting) in
    let never : false ≡ true = sym idle ∙ up in ground arith

-- Of two claims made one after the other on a consistent store, on any queues, nodes, times and
-- numbers of jobs, the second returns no job that the first returned.
pub claim_script-Disjoint :
    (s : Store) (queue node queue' node' : String) (now now' : Time) (max max' : ℕ)
    → Consistent s
    → All
        (λ r.
          All
            (λ t. r.id ≢ t.id)
            (claim_script queue' node' now' max' (claim_script queue node now max s).1).0)
        (claim_script queue node now max s).0
claim_script-Disjoint s queue node queue' node' now now' max max' h =
    let s1 : Store = (claim_script queue node now max s).1 in
    let h1 : Consistent s1 = claim_script-Consistent queue node now max s h in
    let s2 : Store = (claim_script queue' node' now' max' s1).1 in
    All-imp (Taken queue node now s s1) _
      (λ r taken.
        All-imp (Taken queue' node' now' s1 s2) (λ t. r.id ≢ t.id)
          (λ t taken'. not_both s s1 s2 queue node queue' node' now now' r t taken taken')
          (claim_script queue' node' now' max' s1).0
          (claim_script-Taken queue' node' now' max' s1 h1))
      (claim_script queue node now max s).0 (claim_script-Taken queue node now max s h)
