-- ===== src/Dispatch/Send.antt =====
-- The enqueue of tasker.go with its middlewares, and Dispatch, DispatchBatch and Chain over any
-- driver.
use tasker.Base.{◌≡◌, sym, String, Option, none, some, List, [], ◌∷◌, ◌++◌, All, subst}
use tasker.Around.{around, around-outermost, around-refused}
use tasker.Job.{pending, JobRow, failure}
use tasker.Sql.Statement.{Result, ok, err}
use tasker.Dispatch.{JobValue, ManagerConfig, DispatchOpt, Stamp, put, build_job_row}

-- What the manager uses of a driver to enqueue: both write ids to the rows.
pub record EnqueueDriver (W : Type 0) : Type 0 where
  pub enqueue_one : JobRow → W → Result JobRow × W
  pub enqueue_all : List JobRow → W → Result (Unit {0}) × List JobRow × W

-- A call of `next`: it can write to the rows, and to the world.
abbrev pub Send : Type 0 → Type 0
Send W = List JobRow × W → Result (Unit {0}) × List JobRow × W

abbrev pub Middleware : Type 0 → Type 0
Middleware W = Send W → Send W

abbrev pub cons_row : JobRow → Result (List JobRow) → Result (List JobRow)
cons_row row (ok rows) = ok (row ∷ rows)
cons_row row (err e) = err e

-- The loop of DispatchBatch.
unfoldable pub build_rows :
    ManagerConfig → List DispatchOpt → List (JobValue × Stamp) → Result (List JobRow)
build_rows cfg opts [] = ok []
build_rows cfg opts ((job, stamp) ∷ jobs) = elim (build_job_row job cfg opts stamp) [
  | err e ↦ err e
  | ok row ↦ cons_row row (build_rows cfg opts jobs)
]

-- In Chain every row but the first is pending and names the row before it.
abbrev pub link : Option String → JobRow → JobRow
link none row = row
link (some parent) row = record row {
  metadata = put "parent_id" parent row.metadata;
  state = pending;
}

-- The loop of Chain, with the uuid of the row before.
unfoldable pub chain_rows :
    ManagerConfig
    → List DispatchOpt
    → Option String
    → List (JobValue × Stamp)
    → Result (List JobRow)
chain_rows cfg opts parent [] = ok []
chain_rows cfg opts parent ((job, stamp) ∷ jobs) = elim (build_job_row job cfg opts stamp) [
  | err e ↦ err e
  | ok row ↦ cons_row (link parent row) (chain_rows cfg opts (some row.uuid) jobs)
]

module _ {W : Type 0} where
  unfoldable pub enqueue : List (Middleware W) → Send W → Send W
  enqueue mws send = around mws send

  -- The first middleware of an enqueue is the outermost, and one that does not call `next` refuses
  -- the enqueue wherever it stands: what comes after it, the driver's call included, makes no
  -- difference to rows, world and answer.
  enqueue_nested :
      (mw : Middleware W) (outer inner : List (Middleware W)) (send other_send : Send W)
      → (enqueue (mw ∷ inner) send ≡ mw (enqueue inner send))
        × (((next other_next : Send W) → mw next ≡ mw other_next)
            → enqueue (outer ++ mw ∷ inner) send ≡ enqueue (outer ++ mw ∷ []) other_send)
  unfolding enqueue
  enqueue_nested mw outer inner send other_send =
      (around-outermost mw inner send, λ same. around-refused outer inner mw same send other_send)

  -- A condition on rows and world that a call keeps.
  abbrev pub Keeps {κ} : (List JobRow × W → Type κ) → Send W → Type κ
  Keeps I send = (s : List JobRow × W) → I s → I ((send s).1, (send s).2)

  pub enqueue-Keeps {κ} :
      (I : List JobRow × W → Type κ) (mws : List (Middleware W)) (send : Send W)
      → All (λ mw. (next : Send W) → Keeps I next → Keeps I (mw next)) mws
      → Keeps I send
      → Keeps I (enqueue mws send)
  unfolding enqueue around
  enqueue-Keeps I [] send all_keep keep = keep
  enqueue-Keeps I (mw ∷ mws) send all_keep keep =
      subst (Keeps I) (sym (around-outermost mw mws send))
        (all_keep.0 _ (enqueue-Keeps I mws send all_keep.1 keep))

  abbrev pub one_sent :
      JobRow → List JobRow → Result JobRow × W → Result (Unit {0}) × List JobRow × W
  one_sent r rs (ok row, w) = (ok tt, row ∷ rs, w)
  one_sent r rs (err e, w) = (err e, r ∷ rs, w)

  -- The driver's call in Dispatch. A middleware cannot take a row away, so there is one.
  abbrev pub send_one : EnqueueDriver W → Send W
  send_one driver ([], w) = (err (failure "no row"), [], w)
  send_one driver (r ∷ rs, w) = one_sent r rs (driver.enqueue_one r w)

  abbrev pub send_all : EnqueueDriver W → Send W
  send_all driver (rows, w) = driver.enqueue_all rows w

  abbrev pub answer_rows : Result (Unit {0}) × List JobRow × W → Result (List JobRow) × W
  answer_rows (ok u, rows, w) = (ok rows, w)
  answer_rows (err e, rows, w) = (err e, w)

  -- The slice of one row stands for the pointer to it.
  unfoldable pub dispatch :
      EnqueueDriver W
      → List (Middleware W)
      → ManagerConfig
      → JobValue
      → List DispatchOpt
      → Stamp
      → W
      → Result (List JobRow) × W
  unfolding enqueue
  dispatch driver mws cfg job opts stamp w = elim (build_job_row job cfg opts stamp) [
    | err e ↦ (err e, w)
    | ok row ↦ answer_rows (enqueue mws (send_one driver) (row ∷ [], w))
  ]

  abbrev pub send_rows :
      EnqueueDriver W → List (Middleware W) → Result (List JobRow) → W → Result (List JobRow) × W
  send_rows driver mws (err e) w = (err e, w)
  send_rows driver mws (ok rows) w = answer_rows (enqueue mws (send_all driver) (rows, w))

  unfoldable pub dispatch_batch :
      EnqueueDriver W
      → List (Middleware W)
      → ManagerConfig
      → List (JobValue × Stamp)
      → List DispatchOpt
      → W
      → Result (List JobRow) × W
  unfolding enqueue build_rows
  dispatch_batch driver mws cfg jobs opts w = send_rows driver mws (build_rows cfg opts jobs) w

  unfoldable pub chain :
      EnqueueDriver W
      → List (Middleware W)
      → ManagerConfig
      → List (JobValue × Stamp)
      → List DispatchOpt
      → W
      → Result (List JobRow) × W
  unfolding enqueue chain_rows
  chain driver mws cfg jobs opts w = send_rows driver mws (chain_rows cfg opts none jobs) w
