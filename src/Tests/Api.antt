-- ===== src/Tests/Api.antt =====
-- The management API over the Redis driver at concrete requests.
use tasker.Base.{
  ℕ, str_eq, if◌then◌else◌, none, some, List, [], ◌∷◌, String, pos, ◌≡◌, refl, map, get_key,
  put_key,
}
use tasker.Job.{failure, cancelled, available, running}
use tasker.Sql.Statement.{ok}
use tasker.Redis.Store.{Store, Sent, answered, reply_lost, not_run, empty_store}
use tasker.Redis.Admin.{retry_batch, cancel_batch}
use tasker.Redis.Query.{query_jobs}
use tasker.Batch.{retry, cancel, query_by_batch_id}
use tasker.Tests.Data.{first_row, urgent_row, running_row}
use tasker.Redis.Linked.{Consistent}
use tasker.Web.{Std, other_method, get_method, Request, Site, Manager}
use tasker.Web.Routes.{Route, get_jobs, post_retry, post_batch_cancel, post_prune}
use tasker.Web.OverRedis.{Reads, redis_manager, serve_all, serve_all-Consistent}
use tasker.Tests.Redis.{some_store, some_store-Consistent, plain_texts}

abbrev api_std : Std
api_std = record {
  parse_uint = λ s. if str_eq s "1" then some 1 else none;
  atoi = λ s. none;
  split_commas = λ s. s ∷ [];
}

abbrev no_reads : Reads ℕ ℕ ℕ
no_reads = record {
  read_global = λ s. ok 0;
  read_queue = λ q s. ok 0;
  read_kind = λ k s. ok 0;
  read_nodes = λ s. ok [];
}

abbrev request_for : String → List ℕ → Request
request_for id ids = record {
  method = other_method "POST";
  path_id = id;
  path_queue = "";
  query = λ name. "";
  ids = some ids;
  csrf_cookie = some "token";
  csrf_header = "token";
  now = pos 40_000;
}

abbrev api_calls : List (Sent × Route × Request)
api_calls =
    (answered, post_batch_cancel, request_for "" (1 ∷ []))
    ∷ (reply_lost (failure "timeout"), post_retry, request_for "1" [])
    ∷ (answered, get_jobs, record (request_for "" []) { method = get_method })
    ∷ (not_run (failure "timeout"), post_prune, request_for "" [])
    ∷ []

abbrev api_site : Site Store
api_site = record { world = some_store; supervisor = none }

serve_all-Consistent_example :
    Consistent (serve_all (λ r. ok r) plain_texts no_reads api_std [] api_calls api_site).world
serve_all-Consistent_example =
    serve_all-Consistent (λ r. ok r) plain_texts no_reads api_std [] api_calls api_site
      some_store-Consistent

abbrev batch_store : Store
batch_store = record empty_store {
  jobs = record first_row { batch_id = "b1" } ∷ urgent_row ∷ running_row ∷ [];
}

abbrev batch_manager : Manager Store ℕ ℕ ℕ
batch_manager = redis_manager (λ r. ok r) plain_texts no_reads answered (pos 40_000)

batch_found :
    (query_by_batch_id batch_manager "b1" batch_store).0
    ≡ ok (record first_row { batch_id = "b1" } ∷ [])
unfolding query_by_batch_id query_jobs redis_manager tasker.Base.of_word
batch_found = refl

batch_cancelled :
    map
      (λ r. r.state)
      (retry batch_manager (2 ∷ []) (cancel batch_manager (1 ∷ 2 ∷ []) batch_store).1).1.jobs
    ≡ cancelled ∷ available ∷ running ∷ []
unfolding retry cancel retry_batch cancel_batch redis_manager get_key put_key
batch_cancelled = refl
