-- ===== src/Batch.antt =====
-- Batcher of batch/batch.go, over the manager that web/web.go also calls.
use tasker.Base.{ℕ, List, [], String, pos, select, str_eq}
use tasker.Job.{JobRow, JobFilter}
use tasker.Sql.Statement.{Result, ok, err}
use tasker.Web.{Manager}

-- JobFilter{Limit: 1000}.
abbrev pub first_thousand : JobFilter
first_thousand = record {
  states = [];
  queues = [];
  kinds = [];
  tags = [];
  search = "";
  limit = pos 1000;
  offset = pos 0;
  order_by = "";
  order = "";
}

module _ {W Q G J : Type 0} (m : Manager W Q G J) where
  unfoldable pub retry : List ℕ → W → Result (Unit {0}) × W
  retry ids w = m.retry_jobs ids w

  unfoldable pub cancel : List ℕ → W → Result (Unit {0}) × W
  cancel ids w = m.cancel_jobs ids w

  of_batch : String → Result (List JobRow × ℕ) × W → Result (List JobRow) × W
  of_batch id (ok (rows, total), w) = (ok (select (λ row. str_eq row.batch_id id) rows), w)
  of_batch id (err e, w) = (err e, w)

  unfoldable pub query_by_batch_id : String → W → Result (List JobRow) × W
  unfolding of_batch
  query_by_batch_id id w = of_batch id (m.query_jobs first_thousand w)
