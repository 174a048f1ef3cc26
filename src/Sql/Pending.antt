-- ===== src/Sql/Pending.antt =====
-- Jobs that no worker ever takes: pending ones, which Chain makes of all its jobs but the first, and
-- available ones that have no attempt left, which RequeueStale makes of a job on its last attempt.
use tasker.Base.{
  ◌≡◌, ◌≢◌, refl, ◌⊎◌, inl, inr, Bool, true, Bool-cases, List, [], ◌∷◌, Memᴰ, All, arith, subst,
  pos, ◌≤ℤ◌,
}
use mathlib.Core.List.Memᴰ
use tasker.Job.{pending, available, JobRow}
use tasker.Sql.Store.{Db, update_where}
use tasker.Sql.Statement.{World}
use tasker.Sql.Keys.{IsKeyed}
use tasker.Sql.Changes.{
  Label, cancelling, pruning, Move, claim, complete, fail, delay, retry, cancel, requeue, Change,
  update, insert, delete, archive, Changes, here, next,
}
use tasker.Sql.Changes.Steps.{Call, run, kind_of, Sends, run-Changes}

-- The kinds of change that are neither a cancel nor a prune.
abbrev pub Others : Label → Type 0
Others l = (l ≢ cancelling) × (l ≢ pruning)

-- Pending, or available without an attempt left.
abbrev pub Idle : JobRow → Type 0
Idle r = (r.state ≡ pending) ⊎ ((r.state ≡ available) × (r.max_attempts ≤ℤ pos r.attempt))

Move-Idle : {l : Label} {r s : JobRow} → Move l r s → Idle r → l ≡ cancelling
Move-Idle (claim r dialect node now a b c) e = ground arith
Move-Idle (complete r output now a) e = ground arith
Move-Idle (fail r errors now a) e = ground arith
Move-Idle (delay r errors at a) e = ground arith
Move-Idle (retry r now a) e = ground arith
Move-Idle (cancel r now a) e = refl
Move-Idle (requeue r now a) e = ground arith

module _ (r : JobRow) (waits : Idle r) where
  update-Mem :
      (l : Label) (test : JobRow → Bool) (f : JobRow → JobRow) (rs : List JobRow)
      → l ≢ cancelling
      → All (λ s. test s ≡ true → Move l s (f s)) rs
      → Memᴰ r rs
      → Memᴰ r (update_where test f rs)
  update-Mem l test f [] other moves m = elim m [ ]
  update-Mem l test f (s ∷ rs) other moves (Memᴰ.head same) = elim (Bool-cases (test s)) [
    | inl hit ↦ absurd (other (Move-Idle (moves.0 hit) (subst Idle same waits)))
    | inr miss ↦ rw miss (Memᴰ.head same)
  ]
  update-Mem l test f (s ∷ rs) other moves (Memᴰ.tail m) =
      Memᴰ.tail (update-Mem l test f rs other moves.1 m)

  Change-Mem : {d e : Db} → Change Others d e → Memᴰ r d.jobs → Memᴰ r e.jobs
  Change-Mem (update d l test f allowed moves) m = update-Mem l test f d.jobs allowed.0 moves m
  Change-Mem (insert d s allowed fresh new) m = Memᴰ.append_left _ m
  Change-Mem (delete d test allowed) m = absurd (allowed.1 refl)
  Change-Mem (archive d fs) m = m

  Changes-Mem : {d e : Db} → Changes Others d e → Memᴰ r d.jobs → Memᴰ r e.jobs
  Changes-Mem here m = m
  Changes-Mem (next s t) m = Change-Mem t (Changes-Mem s m)

-- On a table with rising ids, a job that is pending, or available without an attempt left, stays in
-- the table unchanged through any calls but cancels and prunes, with any statements failing and
-- fresh rows enqueued: no worker ever runs it.
pub idle-stays :
    (r : JobRow) (cs : List Call) (w : World)
    → Idle r
    → Memᴰ r w.db.jobs
    → IsKeyed w.db
    → All (λ c. Others (kind_of c)) cs
    → All Sends cs
    → Memᴰ r (run w cs).db.jobs
idle-stays r cs w waits m keyed others sends =
    Changes-Mem r waits (run-Changes Others cs w others sends keyed) m
