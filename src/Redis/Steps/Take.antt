-- ===== src/Redis/Steps/Take.antt =====
-- The last loop of the Redis driver's claim makes each job that it takes running.
use mathlib.Core.Option
use tasker.Base.{
  map, ℕ, some, List, ◌∷◌, [], String, ◌==◌, if◌then◌else◌, ◌≡◌, arith, get_key, put_key, refl,
  Bool-cases, inl, inr, sym, ◌∙◌, get_key-key, get_key-put_key, subst, ap, ==_iff, All, All-imp,
  All-take, All-select, any, take, leb_ℤ,
}
use tasker.Job.{JobRow, Time}
use tasker.Redis.Store.{Store, row_id, find_row, zadd, unix_micros}
use tasker.Redis.Linked.{Consistent, has_member-zadd, rewritten-Consistent}
use tasker.Redis.Claim.{
  Candidate, up_to, candidates, sort_candidates, claimed_row, take_one, take_all, claim_script,
}
use tasker.Redis.Steps.{or_first, due_remove-at, found_self}
use tasker.Redis.Steps.Claim.{
  Found, OfQueue, due-OfQueue, Good, candidates-Good, All-sort_candidates,
}

-- A candidate's job is stored, up to what the loop has written to it since.
abbrev Stored : String → List JobRow → Candidate → Type 0
Stored queue jobs c =
    (r0 : JobRow) × (get_key row_id c.id jobs ≡ some r0)
    × (c.job.id ≡ c.id)
    × (c.job.queue ≡ queue)
    × (r0.uuid ≡ c.job.uuid)
    × (r0.queue ≡ c.job.queue)

Found-Stored :
    (queue : String) (jobs : List JobRow) (c : Candidate) → Found queue jobs c → Stored queue jobs c
Found-Stored queue jobs c (found, can, at_queue) =
    (c.job, found, get_key-key row_id c.id jobs c.job found, at_queue, refl, refl)

module _ (queue node : String) (now : Time) where
  abbrev claimed : Candidate → JobRow
  claimed c = claimed_row node now c.job

  Stored-put_key :
      (jobs : List JobRow) (c d : Candidate)
      → Stored queue jobs c
      → Stored queue jobs d
      → Stored queue (put_key row_id (claimed c) jobs) d
  unfolding claimed_row
  Stored-put_key jobs c d (r0, fc, ic, pc, uc, qc) (t0, fd, i, p, ud, qd) =
      elim (Bool-cases (c.job.id == d.id)) [
        | inl here ↦
            let e : c.id ≡ d.id = sym ic ∙ (==_iff c.job.id d.id).0 here in
            let e0 : some r0 ≡ some t0 = sym fc ∙ ap (λ (k : ℕ). get_key row_id k jobs) e ∙ fd in
            (claimed c, ground (arith, get_key-put_key row_id d.id (claimed c) jobs), i, p, cc, cc)
        | inr other ↦
            (t0, ground (arith, get_key-put_key row_id d.id (claimed c) jobs), i, p, ud, qd)
      ]

  take_one-Consistent :
      (c : Candidate) (s : Store)
      → Stored queue s.jobs c
      → Consistent s
      → Consistent (take_one queue node now c s)
  unfolding claimed_row
  take_one-Consistent c s (r0, found, i, p, u, q) h =
      let i0 : r0.id ≡ c.id = get_key-key row_id c.id s.jobs r0 found in
      rewritten-Consistent s r0 (claimed c) _ (zadd (unix_micros now) c.id s.running)
        (found_self r0 c.id s found) (i ∙ sym i0) (sym u) (sym q)
        (λ j t. cc (due_remove-at s queue c.id j t, i0, p, q))
        (λ j. cc (has_member-zadd j (unix_micros now) c.id s.running, i0)) h

  pub take_all-Consistent :
      (cs : List Candidate) (s : Store)
      → All (Stored queue s.jobs) cs
      → Consistent s
      → Consistent (take_all queue node now cs s).1
  unfolding take_all
  take_all-Consistent [] s stored h = h
  take_all-Consistent (c ∷ cs) s stored h =
      take_all-Consistent cs (take_one queue node now c s)
        (All-imp (Stored queue s.jobs) (Stored queue (put_key row_id (claimed c) s.jobs))
          (λ d. Stored-put_key s.jobs c d stored.0) cs stored.1)
        (take_one-Consistent c s stored.0 h)

  pub take_all-rows :
      (cs : List Candidate) (s : Store) → (take_all queue node now cs s).0 ≡ map claimed cs
  unfolding take_all
  take_all-rows [] s = refl
  take_all-rows (c ∷ cs) s = cc (take_all-rows cs (take_one queue node now c s))

  take_one-find :
      (c : Candidate) (s : Store) (jobs : List JobRow) (j : ℕ)
      → Found queue jobs c
      → find_row j (take_one queue node now c s)
        ≡ (if c.id == j then some (claimed c) else find_row j s)
  unfolding claimed_row
  take_one-find c s jobs j (found, can, at_queue) =
      let i : c.job.id ≡ c.id = get_key-key row_id c.id jobs c.job found in
      cc (get_key-put_key row_id j (claimed c) s.jobs, i)

  -- The jobs that are taken, and no others, are rewritten.
  pub take_all-find :
      (cs : List Candidate) (s : Store) (jobs : List JobRow) (j : ℕ)
      → All (Found queue jobs) cs
      → find_row j (take_all queue node now cs s).1 ≡ (
          if any (λ c. c.id == j) cs
          then Option.map (claimed_row node now) (get_key row_id j jobs)
          else find_row j s)
  unfolding take_all
  take_all-find [] s jobs j found = refl
  take_all-find (c ∷ cs) s jobs j found =
      let rest = take_all-find cs (take_one queue node now c s) jobs j found.1 in
      or_first (c.id == j) (any (λ d. d.id == j) cs)
        (Option.map (claimed_row node now) (get_key row_id j jobs)) (some (claimed c))
        (find_row j s) (find_row j (take_one queue node now c s)) _
        (take_one-find c s jobs j found.0) rest
        (λ e.
          let same : c.id ≡ j = (==_iff c.id j).0 e in
          let at_j : get_key row_id j jobs ≡ some c.job =
            subst (λ k. get_key row_id k jobs ≡ some c.job) same found.0.0 in
          rw at_j refl)

-- A claim from a consistent store: what the first loop leaves, sorted and cut off, is taken.
module _ (queue node : String) (now : Time) (max : ℕ) (s : Store) (h : Consistent s) where
  abbrev pub picked : List Candidate
  picked = take max (sort_candidates (candidates queue (up_to (unix_micros now) (s.due queue)) s).0)

  abbrev pub kept : Store
  kept = (candidates queue (up_to (unix_micros now) (s.due queue)) s).1

  left : Good queue s.jobs (candidates queue (up_to (unix_micros now) (s.due queue)) s)
  left =
      candidates-Good queue s.jobs (up_to (unix_micros now) (s.due queue)) s
        (All-select (OfQueue queue s.jobs) (λ e. leb_ℤ e.1 (unix_micros now)) (s.due queue)
          (due-OfQueue queue s h))
        h refl

  pub picked-Found : All (Found queue s.jobs) picked
  picked-Found =
      All-take (Found queue s.jobs) max _ (All-sort_candidates (Found queue s.jobs) _ left.2)

  pub claim_script-rows :
      (claim_script queue node now max s).0 ≡ map (λ c. claimed_row node now c.job) picked
  unfolding claim_script
  claim_script-rows = take_all-rows queue node now picked kept

  -- Each job that is claimed becomes running, and no other job changes.
  pub claim_script-find :
      (j : ℕ)
      → find_row j (claim_script queue node now max s).1 ≡ (
          if any (λ c. c.id == j) picked
          then Option.map (claimed_row node now) (find_row j s)
          else find_row j s)
  unfolding claim_script
  claim_script-find j = cc (take_all-find queue node now picked kept s.jobs j picked-Found, left.1)

  pub claim_script-Consistent : Consistent (claim_script queue node now max s).1
  unfolding claim_script
  claim_script-Consistent =
      take_all-Consistent queue node now picked kept
        (All-imp (Found queue s.jobs) (Stored queue kept.jobs)
          (λ c f. Found-Stored queue kept.jobs c (subst (λ l. Found queue l c) (sym left.1) f))
          picked picked-Found)
        left.0
