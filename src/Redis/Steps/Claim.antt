-- ===== src/Redis/Steps/Claim.antt =====
-- What a claim of the Redis driver takes: the first loop finds jobs that can run, and the last
-- loop makes them running.
use tasker.Base.{
  ℕ, Bool, true, false, ◌&&◌, Option, none, some, List, ◌∷◌, [], String, ◌==◌, if◌then◌else◌,
  str_eq, ◌≡◌, eq_iff, arith, get_key, refl, ℤ, Bool-cases, inl, inr, sym, ◌∙◌, subst, ap, ==_self,
  ==_iff, All, All-imp,
}
use tasker.Job.{JobRow}
use tasker.Redis.Store.{Store, Zset, has_member, row_id, find_row, due_remove}
use tasker.Redis.Linked.{Consistent, waits, waits_in, can_run_in}
use tasker.Redis.Claim.{
  Candidate, can_run, and_candidate, keep_candidate, candidates, sooner, insert_candidate,
  sort_candidates,
}
use tasker.Redis.Steps.{due_remove-at}

-- A candidate is a stored job that can run, and its queue is the one that is claimed from.
abbrev pub Found : String → List JobRow → Candidate → Type 0
Found queue jobs c =
    (get_key row_id c.id jobs ≡ some c.job) × (can_run c.job ≡ true) × (c.job.queue ≡ queue)

was_in : (a m : Bool) → (if a then false else m) ≡ true → m ≡ true
was_in a m e = ground arith

stays_in : (a m : Bool) → m ≡ true → (a ≡ true → false ≡ true) → (if a then false else m) ≡ true
stays_in a m e f = ground arith

both : (a b : Bool) → (a && b) ≡ true → (a ≡ true) × (b ≡ true)
both a b e = ground arith

-- An id whose job cannot run may leave the due set of a queue.
due_remove-Consistent :
    (queue : String) (id : ℕ) (s : Store)
    → can_run_in queue (find_row id s) ≡ false
    → Consistent s
    → Consistent (due_remove queue id s)
due_remove-Consistent queue id s stuck h j = record {
  due_waits = λ q m. (h j).due_waits q (
      was_in ((id == j) && str_eq queue q) (has_member j (s.due q))
        (sym (due_remove-at s queue id j q) ∙ m));
  run_due = λ q m.
      due_remove-at s queue id j q
      ∙ stays_in ((id == j) && str_eq queue q) (has_member j (s.due q)) ((h j).run_due q m) (λ e.
        let (same_id, same_queue) = both (id == j) (str_eq queue q) e in
        let i : id ≡ j = (==_iff id j).0 same_id in
        let p : queue ≡ q = (eq_iff queue q).0 same_queue in
        sym stuck
        ∙ (ap (λ (k : ℕ). can_run_in queue (find_row k s)) i
            ∙ (ap (λ (t : String). can_run_in t (find_row j s)) p ∙ m)));
  in_running = (h j).in_running;
  in_ids = (h j).in_ids;
  in_created = (h j).in_created;
  uuid_stored = (h j).uuid_stored;
  uuid_used = (h j).uuid_used;
  given_out = (h j).given_out;
}

-- Every member of a set is in it.
pub own_members : (z : Zset) → All (λ e. has_member e.0 z ≡ true) z
unfolding get_key
own_members [] = tt
own_members ((id, score) ∷ z) = (
  rw (==_self id) refl,
  All-imp (λ e. has_member e.0 z ≡ true) (λ e. has_member e.0 ((id, score) ∷ z) ≡ true)
      (λ e m. ground arith) z (own_members z),
)

-- The job of a due id, where there is one, is of that queue.
abbrev pub OfQueue : String → List JobRow → ℕ × ℤ → Type 0
OfQueue queue jobs e = (r : JobRow) → get_key row_id e.0 jobs ≡ some r → r.queue ≡ queue

pub due-OfQueue :
    (queue : String) (s : Store) → Consistent s → All (OfQueue queue s.jobs) (s.due queue)
due-OfQueue queue s h =
    All-imp (λ e. has_member e.0 (s.due queue) ≡ true) (OfQueue queue s.jobs)
      (λ e m r found.
        let w : waits_in queue (some r) ≡ true = rw found at ((h e.0).due_waits queue m) in
        (eq_iff r.queue queue).0 (both (waits r) (str_eq r.queue queue) w).1)
      (s.due queue) (own_members (s.due queue))

-- What the first loop leaves.
abbrev pub Good : String → List JobRow → List Candidate × Store → Type 0
Good queue jobs (cs, s) = Consistent s × (s.jobs ≡ jobs) × All (Found queue jobs) cs

cannot_run : (r : JobRow) (queue : String) → can_run r ≡ false → can_run_in queue (some r) ≡ false
cannot_run r queue e = ground (arith, e)

and_candidate-Good :
    (queue : String) (jobs : List JobRow) (c : Candidate) (a : List Candidate × Store)
    → Found queue jobs c
    → Good queue jobs a
    → Good queue jobs (and_candidate c a)
and_candidate-Good queue jobs c (cs, s) f (h, same, all) = (h, same, (f, all))

keep_candidate-Good :
    (queue : String) (id : ℕ) (score : ℤ) (o : Option JobRow) (jobs : List JobRow)
    (rest : Store → List Candidate × Store) (s : Store)
    → find_row id s ≡ o
    → OfQueue queue s.jobs (id, score)
    → ((t : Store) → Consistent t → t.jobs ≡ jobs → Good queue jobs (rest t))
    → Consistent s
    → s.jobs ≡ jobs
    → Good queue jobs (keep_candidate queue (id, score) o rest s)
keep_candidate-Good queue id score none jobs rest s found at_queue then_good h same =
    then_good (due_remove queue id s) (due_remove-Consistent queue id s (rw found refl) h) same
keep_candidate-Good queue id score (some r) jobs rest s found at_queue then_good h same =
    elim (Bool-cases (can_run r)) [
      | inl can ↦ rw can (
          and_candidate-Good queue jobs (record { id = id; score = score; job = r }) (rest s)
            (subst (λ l. get_key row_id id l ≡ some r) same found, can, at_queue r found)
            (then_good s h same))
      | inr cannot ↦ rw cannot (
          then_good (due_remove queue id s)
            (due_remove-Consistent queue id s (rw found (cannot_run r queue cannot)) h) same)
    ]

pub candidates-Good :
    (queue : String) (jobs : List JobRow) (z : Zset) (s : Store)
    → All (OfQueue queue jobs) z
    → Consistent s
    → s.jobs ≡ jobs
    → Good queue jobs (candidates queue z s)
unfolding candidates
candidates-Good queue jobs [] s at_queue h same = (h, same, tt)
candidates-Good queue jobs ((id, score) ∷ z) s at_queue h same =
    keep_candidate-Good queue id score (find_row id s) jobs (candidates queue z) s refl
      (λ r found. at_queue.0 r (subst (λ l. get_key row_id id l ≡ some r) same found))
      (λ t. candidates-Good queue jobs z t at_queue.1) h same

-- The order does not change what all candidates have.
module _ (P : Candidate → Type 0) where
  All-insert_candidate :
      (c : Candidate) (cs : List Candidate) → P c → All P cs → All P (insert_candidate c cs)
  unfolding insert_candidate
  All-insert_candidate c [] p h = (p, tt)
  All-insert_candidate c (d ∷ ds) p h = elim (Bool-cases (sooner d c)) [
    | inl e ↦ rw e (h.0, All-insert_candidate c ds p h.1)
    | inr e ↦ rw e (p, h)
  ]

  pub All-sort_candidates : (cs : List Candidate) → All P cs → All P (sort_candidates cs)
  unfolding sort_candidates
  All-sort_candidates [] h = tt
  All-sort_candidates (c ∷ cs) h =
      All-insert_candidate c (sort_candidates cs) h.0 (All-sort_candidates cs h.1)
