-- ===== src/Sql/Invariant.antt =====
-- What holds of the jobs table after any calls.
use tasker.Base.{
  length-append, ℕ, zero, suc, ◌+◌, ◌-◌, ◌≤◌, ◌<◌, ◌≡◌, refl, ◌⊎◌, inl, inr, Bool, true, false,
  Option, none, some, List, [], ◌∷◌, ◌++◌, String, pos, ◌≤ℤ◌, arith, any, str_eq, eq_iff, ◌∙◌,
  subst, sym, All-of, All, All-imp, All-append, Bool-cases, length, drop, leb, leb→le,
  if◌then◌else◌,
}
use Prim.Native.Nat.{min}
use tasker.Job.{pending, running, terminal, JobRow}
use tasker.Sql.Store.{Db, Dialect, postgres, mysql, sqlite, empty_db, update_where, delete_where}
use tasker.Sql.Enqueue.{stored_row}
use tasker.Sql.Statement.{World}
use tasker.Sql.Changes.Steps.{Call, run, Sends, run-Changes}
use tasker.Sql.Claim.{push_attempt}
use tasker.Sql.Keys.{IsKeyed}
use tasker.Sql.Changes.{
  Label, Move, claim, complete, fail, delay, retry, cancel, requeue, IsFresh, Change, update,
  insert, delete, archive, Changes, here, next, Change-IsKeyed,
}

abbrev pub is_some {ℓ} : {A : Type ℓ} → Option A → Bool
is_some none = false
is_some (some a) = true

-- A job is never tried more often than it may be, a running job has been tried and knows since when,
-- exactly the jobs in a terminal state are finalized, a pending job was never tried, and the node
-- names are those of the last tries, 50 at most.
pub record RowOk (r : JobRow) : Type 0 where
  pub bounded : (r.attempt ≡ 0) ⊎ (pos r.attempt ≤ℤ r.max_attempts)
  pub tried : r.state ≡ running → (0 < r.attempt) × (is_some r.attempted_at ≡ true)
  pub finalized : is_some r.finalized_at ≡ terminal r.state
  pub untried : r.state ≡ pending → r.attempt ≡ 0
  pub named : length r.attempted_by ≡ min r.attempt 50

length-drop : {A : Type 0} (n : ℕ) (xs : List A) → length (drop n xs) ≡ length xs - n
length-drop zero xs = omega arith
length-drop (suc n) [] = omega arith
length-drop (suc n) (x ∷ xs) = omega (arith, length-drop n xs)

trimmed :
    (b : Bool) (k : ℕ) (node : String) (names : List String) (attempt : ℕ)
    → leb 50 (length names) ≡ b
    → length names ≡ min attempt 50
    → (50 ≤ length names → length names - k ≡ 49)
    → length ((if b then drop k names else names) ++ node ∷ []) ≡ min (attempt + 1) 50
trimmed true k node names attempt e h room =
    let full = leb→le 50 (length names) e in
    length-append (drop k names) (node ∷ []) ∙ omega (arith, length-drop k names, room full)
trimmed false k node names attempt e h room = ground (arith, length-append names (node ∷ []))

-- Each dialect keeps the last 50 names.
push_attempt-named :
    (dialect : Dialect) (node : String) (names : List String) (attempt : ℕ)
    → length names ≡ min attempt 50
    → length (push_attempt dialect node names) ≡ min (attempt + 1) 50
push_attempt-named postgres node names attempt h =
    trimmed _ (length names - 49) node names attempt refl h (omega arith)
push_attempt-named mysql node names attempt h = trimmed _ 1 node names attempt refl h (omega arith)
push_attempt-named sqlite node names attempt h = trimmed _ 1 node names attempt refl h (omega arith)

Move-RowOk : {l : Label} {r s : JobRow} → Move l r s → RowOk r → RowOk s
unfolding terminal
Move-RowOk (claim r dialect node now a b c) v = record {
  bounded = inr (omega arith);
  tried = λ _. (omega arith, refl);
  finalized = ground arith;
  untried = λ e. cc;
  named = push_attempt-named dialect node r.attempted_by r.attempt v.named;
}
Move-RowOk (complete r output now a) v = ground arith
Move-RowOk (fail r errors now a) v = ground arith
Move-RowOk (delay r errors at a) v = ground arith
Move-RowOk (retry r now a) v = ground arith
Move-RowOk (cancel r now a) v = ground arith
Move-RowOk (requeue r now a) v = ground arith

fresh-RowOk : (id : ℕ) (r : JobRow) → IsFresh r → RowOk (stored_row id r)
unfolding terminal
fresh-RowOk id r f = record {
  bounded = inl f.untried;
  tried = λ e. absurd (ground arith);
  finalized = ground arith;
  untried = λ e. f.untried;
  named = rw (f.unclaimed, f.untried) refl;
}

-- No two rows have one uuid.
abbrev pub Unique : List JobRow → Type 0
Unique [] = Unit
Unique (r ∷ rs) = All (λ s. str_eq s.uuid r.uuid ≡ false) rs × Unique rs

pub record IsValid (d : Db) : Type 0 where
  pub keyed : IsKeyed d
  pub rows_ok : All RowOk d.jobs
  pub unique : Unique d.jobs

Move-uuid : {l : Label} {r s : JobRow} → Move l r s → s.uuid ≡ r.uuid
Move-uuid (claim r dialect node now a b c) = refl
Move-uuid (complete r output now a) = refl
Move-uuid (fail r errors now a) = refl
Move-uuid (delay r errors at a) = refl
Move-uuid (retry r now a) = refl
Move-uuid (cancel r now a) = refl
Move-uuid (requeue r now a) = refl

module _ (test : JobRow → Bool) (f : JobRow → JobRow) where
  -- A property of rows that the update keeps where it applies.
  update-All {κ} :
      (P : JobRow → Type κ) (rs : List JobRow)
      → All (λ r. test r ≡ true → P r → P (f r)) rs
      → All P rs
      → All P (update_where test f rs)
  update-All P [] keep h = tt
  update-All P (r ∷ rs) keep h = (
    elim (Bool-cases (test r)) [ inl hit ↦ rw hit (keep.0 hit h.0) | inr miss ↦ rw miss h.0 ],
    update-All P rs keep.1 h.1,
  )

  update-uuid :
      (r : JobRow)
      → (test r ≡ true → (f r).uuid ≡ r.uuid)
      → (if test r then f r else r).uuid ≡ r.uuid
  update-uuid r same = elim (Bool-cases (test r)) [
    | inl hit ↦ rw hit (same hit)
    | inr miss ↦ rw miss
  ]

  update-Unique :
      (rs : List JobRow)
      → All (λ r. test r ≡ true → (f r).uuid ≡ r.uuid) rs
      → Unique rs
      → Unique (update_where test f rs)
  update-Unique [] same u = tt
  update-Unique (r ∷ rs) same u = (
    update-All (λ s. str_eq s.uuid _ ≡ false) rs
        (All-imp _ _ (λ s e hit old. rw (e hit) old) rs same.1) (rw (update-uuid r same.0) u.0),
    update-Unique rs same.1 u.1,
  )

delete-All {κ} :
    (P : JobRow → Type κ) (test : JobRow → Bool) (rs : List JobRow)
    → All P rs
    → All P (delete_where test rs)
delete-All P test [] h = tt
delete-All P test (r ∷ rs) h = elim (Bool-cases (test r)) [
  | inl hit ↦ rw hit (delete-All P test rs h.1)
  | inr miss ↦ rw miss (h.0, delete-All P test rs h.1)
]

delete-Unique :
    (test : JobRow → Bool) (rs : List JobRow) → Unique rs → Unique (delete_where test rs)
delete-Unique test [] u = tt
delete-Unique test (r ∷ rs) u = elim (Bool-cases (test r)) [
  | inl hit ↦ rw hit (delete-Unique test rs u.1)
  | inr miss ↦ rw miss (delete-All _ test rs u.0, delete-Unique test rs u.1)
]

append-Unique :
    (rs : List JobRow) (r : JobRow)
    → any (λ s. str_eq s.uuid r.uuid) rs ≡ false
    → Unique rs
    → Unique (rs ++ r ∷ [])
append-Unique [] r new u = (tt, tt)
append-Unique (s ∷ rs) r new u = (
  All-append _ rs (r ∷ []) u.0 (ground (arith, eq_iff r.uuid s.uuid, eq_iff s.uuid r.uuid), tt),
  append-Unique rs r (ground arith) u.1,
)

-- Every change keeps the table valid.
pub Change-IsValid : {L : Label → Type 0} {d e : Db} → Change L d e → IsValid d → IsValid e
Change-IsValid {L} (update d l test f ok_ moves) v = record {
  keyed = Change-IsKeyed {L = L} (update d l test f ok_ moves) v.keyed;
  rows_ok =
      update-All test f RowOk d.jobs
        (All-imp _ _ (λ r move hit. Move-RowOk (move hit)) d.jobs moves) v.rows_ok;
  unique =
      update-Unique test f d.jobs (All-imp _ _ (λ r move hit. Move-uuid (move hit)) d.jobs moves)
        v.unique;
}
Change-IsValid {L} (insert d r ok_ fresh new) v = record {
  keyed = Change-IsKeyed {L = L} (insert d r ok_ fresh new) v.keyed;
  rows_ok = All-append RowOk d.jobs _ v.rows_ok (fresh-RowOk d.next_id r fresh, tt);
  unique = append-Unique d.jobs _ new v.unique;
}
Change-IsValid {L} (delete d test ok_) v = record {
  keyed = Change-IsKeyed {L = L} (delete d test ok_) v.keyed;
  rows_ok = delete-All RowOk test d.jobs v.rows_ok;
  unique = delete-Unique test d.jobs v.unique;
}
Change-IsValid {L} (archive d fs) v = record {
  keyed = v.keyed;
  rows_ok = v.rows_ok;
  unique = v.unique;
}

pub Changes-IsValid : {L : Label → Type 0} {d e : Db} → Changes L d e → IsValid d → IsValid e
Changes-IsValid here v = v
Changes-IsValid (next s t) v = Change-IsValid t (Changes-IsValid s v)

pub empty_db-IsValid : IsValid empty_db
unfolding empty_db
empty_db-IsValid = record { keyed = omega arith; rows_ok = tt; unique = tt }

-- From the empty tables, after any calls, whichever statements fail, the jobs table is valid, if
-- the rows that are enqueued are fresh.
pub run-IsValid :
    (cs : List Call) (w : World) → w.db ≡ empty_db → All Sends cs → IsValid (run w cs).db
run-IsValid cs w start sends =
    let valid = subst IsValid (sym start) empty_db-IsValid in
    Changes-IsValid (run-Changes (λ _. Unit) cs w (All-of _ (λ _. tt) cs) sends valid.keyed) valid
