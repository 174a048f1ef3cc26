-- ===== src/Dispatch/Rows.antt =====
-- The rows that Dispatch, DispatchBatch and Chain send to the SQL driver.
use tasker.Base.{
  ◌≡◌, refl, inl, inr, Bool-cases, String, Option, none, some, List, [], ◌∷◌, All, arith, sym,
  subst, str_eq, eq_refl, ◌≢◌,
}
use tasker.Job.{pending, JobRow}
use tasker.Sql.Statement.{Result, ok, err, World}
use tasker.Sql.Enqueue.{enqueue, enqueue_rows}
use tasker.Sql.Changes.{IsFresh}
use tasker.Sql.Invariant.{IsValid}
use tasker.Dispatch.{JobValue, ManagerConfig, DispatchOpt, Stamp, put, lookup, build_job_row}
use tasker.Dispatch.Send.{EnqueueDriver, chain_rows, link, cons_row}

-- The SQL driver as the manager sees it.
abbrev pub sql_driver : EnqueueDriver World
sql_driver = record { enqueue_one = λ r w. enqueue (some r) w; enqueue_all = enqueue_rows }

module _ (cfg : ManagerConfig) (opts : List DispatchOpt) where
  -- A built row is not yet tried, and waits.
  pub build_job_row-IsFresh :
      (job : JobValue) (stamp : Stamp) (row : JobRow)
      → build_job_row job cfg opts stamp ≡ ok row
      → IsFresh row
  unfolding build_job_row
  build_job_row-IsFresh job stamp row built = ground arith

-- Reading a key that was just written.
pub lookup-put : (k v : String) (m : List (String × String)) → lookup k (put k v m) ≡ some v
lookup-put k v [] = rw (eq_refl k) refl
lookup-put k v ((l, w) ∷ m) = elim (Bool-cases (str_eq l k)) [
  | inl hit ↦ rw hit (rw (eq_refl k) refl)
  | inr miss ↦ rw miss (rw miss (lookup-put k v m))
]

-- The first row waits for its time only; each later one is pending and names the row before it.
abbrev pub Linked : Option String → List JobRow → Type 0
Linked parent [] = Unit
Linked none (r ∷ rs) = (r.state ≢ pending) × Linked (some r.uuid) rs
Linked (some p) (r ∷ rs) =
    (r.state ≡ pending) × (lookup "parent_id" r.metadata ≡ some p) × Linked (some r.uuid) rs

record Waits (r : JobRow) : Type 0 where
  pub fresh : IsFresh r
  pub not_pending : r.state ≢ pending

built-Waits :
    (cfg : ManagerConfig) (opts : List DispatchOpt) (job : JobValue) (stamp : Stamp) (row : JobRow)
    → build_job_row job cfg opts stamp ≡ ok row
    → Waits row
unfolding build_job_row
built-Waits cfg opts job stamp row built = ground arith

cons_row-inv :
    (r : JobRow) (q : Result (List JobRow)) (rows : List JobRow)
    → cons_row r q ≡ ok rows
    → (rs : List JobRow) × (q ≡ ok rs) × (rows ≡ r ∷ rs)
cons_row-inv r (ok rs) rows e = (rs, refl, cc)
cons_row-inv r (err x) rows e = cc

abbrev Good : Option String → List JobRow → Type 0
Good parent rows = Linked parent rows × All IsFresh rows

Good-cons :
    (parent : Option String) (row : JobRow) (rs : List JobRow)
    → Waits row
    → Good (some row.uuid) rs
    → Good parent (link parent row ∷ rs)
Good-cons none row rs h g = ((h.not_pending, g.0), (h.fresh, g.1))
Good-cons (some p) row rs h g = (
  (refl, lookup-put "parent_id" p row.metadata, g.0),
  (
    record { untried = h.fresh.untried; unclaimed = h.fresh.unclaimed; waiting = inr (inr refl) },
    g.1,
  ),
)

chain_step-Good :
    (parent : Option String) (p : Result JobRow) (q : JobRow → Result (List JobRow))
    (rows : List JobRow)
    → ((row : JobRow) → p ≡ ok row → Waits row)
    → ((row : JobRow) (rs : List JobRow) → q row ≡ ok rs → Good (some row.uuid) rs)
    → elim p [ err e ↦ err e | ok row ↦ cons_row (link parent row) (q row) ] ≡ ok rows
    → Good parent rows
chain_step-Good parent (err x) q rows waits good e = cc
chain_step-Good parent (ok row) q rows waits good e =
    let (rs, found, same) = cons_row-inv (link parent row) (q row) rows e in
    subst (Good parent) (sym same) (Good-cons parent row rs (waits row refl) (good row rs found))

module _ (cfg : ManagerConfig) (opts : List DispatchOpt) where
  pub chain_rows-Good :
      (parent : Option String) (jobs : List (JobValue × Stamp)) (rows : List JobRow)
      → chain_rows cfg opts parent jobs ≡ ok rows
      → Good parent rows
  unfolding chain_rows
  chain_rows-Good parent [] rows e = let same : [] ≡ rows = cc in subst (Good parent) same (tt, tt)
  chain_rows-Good parent ((job, stamp) ∷ jobs) rows e =
      chain_step-Good parent (build_job_row job cfg opts stamp) _ rows
        (λ row built. built-Waits cfg opts job stamp row built)
        (λ row rs rest. chain_rows-Good (some row.uuid) jobs rs rest) e

  -- Of the rows that Chain builds the first is not pending, each later one is pending and has the
  -- uuid of the row before it as parent_id, and all are fresh.
  pub chain_rows-Linked :
      (jobs : List (JobValue × Stamp)) (rows : List JobRow)
      → chain_rows cfg opts none jobs ≡ ok rows
      → Linked none rows × All IsFresh rows
  chain_rows-Linked jobs rows e = chain_rows-Good none jobs rows e

-- Fresh rows, and a valid table.
abbrev pub Sendable : List JobRow × World → Type 0
Sendable (rows, w) = All IsFresh rows × IsValid w.db
