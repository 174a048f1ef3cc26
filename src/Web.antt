-- ===== src/Web.antt =====
-- The management API, web/web.go: its handlers over the manager and the supervisor. The
-- page and the router of net/http are not modelled; a request comes with its route.
pub mod Answers
pub mod Handlers
pub mod Routes
pub mod Events
pub mod OverRedis
pub mod Guard
pub mod Limits
pub mod Reach
use tasker.Base.{
  ℕ, Bool, true, false, not, Option, none, some, List, [], ◌∷◌, ◌++◌, String, ◌==◌, if◌then◌else◌,
  str_eq, ℤ, pos, ◌-ℤ◌, ◌*◌, ltb_ℤ, leb_ℤ, map, length,
}
use tasker.Job.{
  State, completed, failed, cancelled, state_of, Time, second, JobRow, JobFilter, Error, error_text,
  job_not_found,
}
use tasker.Sql.Store.{NodeRow}
use tasker.Sql.Statement.{Result, ok, err}
use tasker.Pool.{Pool, PoolManager, find_pool}
use tasker.Supervisor.{Config, QueueConfig, pause_queue, resume_queue}

-- strconv.ParseUint(s, 10, 64), strconv.Atoi and strings.Split(s, ",").
pub record Std : Type 0 where
  pub parse_uint : String → Option ℕ
  pub atoi : String → Option ℤ
  pub split_commas : String → List String

pub data Method : Type 0 where
  get_method head_method options_method : Method
  other_method : String → Method

-- What the handlers read of a request: `query` is Query().Get, `ids` the decoded body of a batch,
-- and `csrf_header` the value of the header, which is the empty text where there is none.
pub record Request : Type 0 where
  pub method : Method
  pub path_id : String
  pub path_queue : String
  pub query : String → String
  pub ids : Option (List ℕ)
  pub csrf_cookie : Option String
  pub csrf_header : String
  pub now : Time

pub record QueueInfo (Q : Type 0) : Type 0 where
  pub name : String
  pub stats : Q
  pub paused : Bool

-- Q, G and J stand for the statistics of a queue, of everything and of a kind of job.
pub data Body (Q G J : Type 0) : Type 0 where
  error_body : String → Body Q G J
  status_body : String → Body Q G J
  job_body : JobRow → Body Q G J
  page_body : List JobRow → ℕ → ℤ → ℤ → Body Q G J
  stats_body : G → Body Q G J
  queues_body : List (QueueInfo Q) → Body Q G J
  queue_metrics_body : List Q → Body Q G J
  job_metrics_body : List J → Body Q G J
  nodes_body : List NodeRow → Body Q G J
  pruned_body : ℕ → Body Q G J

pub record Response (Q G J : Type 0) : Type 0 where
  pub status : ℕ
  pub body : Body Q G J
  pub cookie : Option (String × String)

-- What the handlers call of the manager and its driver, on what these keep.
pub record Manager (W Q G J : Type 0) : Type 0 where
  pub global_stats : W → Result G × W
  pub query_jobs : JobFilter → W → Result (List JobRow × ℕ) × W
  pub get_job : ℕ → W → Result JobRow × W
  pub retry_job : ℕ → W → Result JobRow × W
  pub cancel_job : ℕ → W → Result JobRow × W
  pub retry_jobs : List ℕ → W → Result (Unit {0}) × W
  pub cancel_jobs : List ℕ → W → Result (Unit {0}) × W
  pub queue_stats : String → W → Result Q × W
  pub job_stats : String → W → Result J × W
  pub list_nodes : W → Result (List NodeRow) × W
  pub prune_jobs : Time → List State → W → Result ℕ × W

-- `supervisor` is none where the process runs no workers.
pub record Site (W : Type 0) : Type 0 where
  pub world : W
  pub supervisor : Option (Config × PoolManager)

abbrev pub default_page_size : ℤ
default_page_size = pos 50

abbrev pub max_page_size : ℤ
max_page_size = pos 500

unfoldable pub clamp_limit : ℤ → ℤ
clamp_limit n =
    if leb_ℤ n (pos 0)
    then default_page_size
    else (if ltb_ℤ max_page_size n then max_page_size else n)

abbrev pub parse_limit : Option ℤ → ℤ
parse_limit none = pos 50
parse_limit (some n) = clamp_limit n

abbrev pub parse_offset : Option ℤ → ℤ
parse_offset none = pos 0
parse_offset (some n) = n

abbrev pub list_of : Std → String → List String
list_of std text = if str_eq text "" then [] else std.split_commas text

-- The first part of handleListJobs.
unfoldable pub list_filter : Std → (String → String) → JobFilter
unfolding clamp_limit
list_filter std query = record {
  states = map state_of (list_of std (query "states"));
  queues = list_of std (query "queues");
  kinds = list_of std (query "kinds");
  tags = [];
  search = query "search";
  limit = if str_eq (query "limit") "" then pos 50 else parse_limit (std.atoi (query "limit"));
  offset = if str_eq (query "offset") "" then pos 0 else parse_offset (std.atoi (query "offset"));
  order_by = query "order_by";
  order = query "order";
}
