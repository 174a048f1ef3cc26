-- ===== src/Web/OverRedis.antt =====
-- The management API over the manager of tasker.go and the Redis driver.
use tasker.Base.{Option, none, some, ℕ, String, List, [], ◌∷◌, ◌≡◌, refl, sym, subst}
use tasker.Job.{failure, Time, JobRow}
use tasker.Sql.Store.{NodeRow}
use tasker.Sql.Statement.{Result, ok, err}
use tasker.Redis.Store.{Store, Sent, answered, not_run, reply_lost, Answer}
use tasker.Redis.Admin.{get_by_id, then_get, retry, cancel, retry_batch, cancel_batch, prune}
use tasker.Redis.Query.{Texts, query_jobs}
use tasker.Redis.Linked.{Consistent}
use tasker.Redis.Steps.Batch.{retry_batch-Consistent, cancel_batch-Consistent}
use tasker.Redis.Steps.Sweep.{prune-Consistent}
use tasker.Web.{Std, Request, Manager, Site}
use tasker.Web.Routes.{Route, serve, ManagerKeeps, serve-Keeps}

-- What is read for the statistics and the list of nodes, which changes no job.
pub record Reads (Q G J : Type 0) : Type 0 where
  pub read_global : Store → Result G
  pub read_queue : String → Store → Result Q
  pub read_kind : String → Store → Result J
  pub read_nodes : Store → Result (List NodeRow)

-- A panic ends the request without an answer, as an error does here; the filters of the handlers and
-- of Batcher, with limits up to 1000, do not come to one.
abbrev pub or_error : {A : Type 0} → Option (Result A) → Result A
or_error none = err (failure "slice bounds out of range")
or_error (some r) = r

module _ {Q G J : Type 0} (decode : JobRow → Result JobRow) (texts : Texts)
    (reads : Reads Q G J) where
  -- The manager hands each call on to its driver. `sent` and `now` are of one request.
  unfoldable pub redis_manager : Sent → Time → Manager Store Q G J
  redis_manager sent now = record {
    global_stats = λ s. (reads.read_global s, s);
    query_jobs = λ f s. (or_error (query_jobs texts decode sent f s), s);
    get_job = λ id s. get_by_id decode sent id s;
    retry_job = λ id s. retry decode sent sent id now s;
    cancel_job = λ id s. cancel decode sent sent id now s;
    retry_jobs = λ ids s. retry_batch sent ids now s;
    cancel_jobs = λ ids s. cancel_batch sent ids now s;
    queue_stats = λ q s. (reads.read_queue q s, s);
    job_stats = λ k s. (reads.read_kind k s, s);
    list_nodes = λ s. (reads.read_nodes s, s);
    prune_jobs = λ before states s. prune sent before states s;
  }

  -- Requests, one after the other.
  unfoldable pub serve_all :
      Std → List String → List (Sent × Route × Request) → Site Store → Site Store
  unfolding redis_manager
  serve_all std kinds [] s = s
  serve_all std kinds ((sent, route, r) ∷ rest) s =
      serve_all std kinds rest (serve std (redis_manager sent r.now) kinds route r s).1

module _ (decode : JobRow → Result JobRow) where
  get_by_id-store : (sent : Sent) (id : ℕ) (s : Store) → (get_by_id decode sent id s).1 ≡ s
  unfolding get_by_id
  get_by_id-store answered id s = refl
  get_by_id-store (not_run e) id s = refl
  get_by_id-store (reply_lost e) id s = refl

  then_get-store :
      (sent : Sent) (id : ℕ) (a : Answer (Unit {0})) → (then_get decode sent id a).1 ≡ a.1
  then_get-store sent id (ok u, s) = get_by_id-store sent id s
  then_get-store sent id (err e, s) = refl

  retry-Consistent :
      (sent : Sent) (id : ℕ) (now : Time) (s : Store)
      → Consistent s
      → Consistent (retry decode sent sent id now s).1
  unfolding retry
  retry-Consistent sent id now s h =
      subst Consistent (sym (then_get-store sent id (retry_batch sent (id ∷ []) now s)))
        (retry_batch-Consistent sent (id ∷ []) now s h)

  cancel-Consistent :
      (sent : Sent) (id : ℕ) (now : Time) (s : Store)
      → Consistent s
      → Consistent (cancel decode sent sent id now s).1
  unfolding cancel
  cancel-Consistent sent id now s h =
      subst Consistent (sym (then_get-store sent id (cancel_batch sent (id ∷ []) now s)))
        (cancel_batch-Consistent sent (id ∷ []) now s h)

module _ {Q G J : Type 0} (decode : JobRow → Result JobRow) (texts : Texts)
    (reads : Reads Q G J) where
  redis_manager-Keeps :
      (sent : Sent) (now : Time)
      → ManagerKeeps Consistent (redis_manager decode texts reads sent now)
  unfolding redis_manager
  redis_manager-Keeps sent now = record {
    global_stats = λ s h. h;
    query_jobs = λ f s h. h;
    get_job = λ id s h. subst Consistent (sym (get_by_id-store decode sent id s)) h;
    retry_job = λ id s h. retry-Consistent decode sent id now s h;
    cancel_job = λ id s h. cancel-Consistent decode sent id now s h;
    retry_jobs = λ ids s h. retry_batch-Consistent sent ids now s h;
    cancel_jobs = λ ids s h. cancel_batch-Consistent sent ids now s h;
    queue_stats = λ q s h. h;
    job_stats = λ k s h. h;
    list_nodes = λ s h. h;
    prune_jobs = λ before states s h. prune-Consistent sent before states s h;
  }

  -- Any requests to the routes of the management API over the Redis driver, but the page and the
  -- event stream, each with its calls of the driver answered, not run, or run with the reply lost,
  -- keep a consistent store consistent.
  pub serve_all-Consistent :
      (std : Std) (kinds : List String) (calls : List (Sent × Route × Request)) (s : Site Store)
      → Consistent s.world
      → Consistent (serve_all decode texts reads std kinds calls s).world
  unfolding serve_all
  serve_all-Consistent std kinds [] s h = h
  serve_all-Consistent std kinds ((sent, route, r) ∷ rest) s h =
      serve_all-Consistent std kinds rest
        (serve std (redis_manager decode texts reads sent r.now) kinds route r s).1
        (serve-Keeps Consistent std (redis_manager decode texts reads sent r.now) kinds
          (redis_manager-Keeps sent r.now) route r s h)
