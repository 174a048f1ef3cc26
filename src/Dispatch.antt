-- ===== src/Dispatch.antt =====
-- tasker.go: how a job becomes a row, the middleware around each enqueue, and Dispatch, DispatchBatch
-- and Chain. The options are those of job.go.
pub mod Send
pub mod Rows
pub mod Sql
use tasker.Base.{
  ℕ, Bool, not, ◌&&◌, String, Option, none, some, List, [], ◌∷◌, ◌++◌, map, ℤ, pos, ltb_ℤ, ◌+ℤ◌,
  str_eq, if◌then◌else◌, text_append,
}
use tasker.Job.{
  State, pending, scheduled, available, Time, Duration, JobRow, Error, failure, error_text,
}
use tasker.Sql.Statement.{Result, ok, err}

-- What buildJobRow asks of a job: what json.Marshal makes of it, its type's name, and for each
-- optional interface that it implements what the method returns.
pub record JobValue : Type 0 where
  pub marshalled : Result (List ℕ)
  pub kind : String
  pub queue : Option String
  pub delay : Option Duration
  pub max_attempts : Option ℤ
  pub tags : Option (List String)
  pub batch_id : Option String
  pub timeout : Option Duration

-- A nil slice of tags is none.
pub record DispatchOptions : Type 0 where
  pub queue : String
  pub delay : Duration
  pub priority : ℤ
  pub batch_id : String
  pub tags : Option (List String)
  pub metadata : List (String × String)

pub data DispatchOpt : Type 0 where
  on_queue : String → DispatchOpt
  with_delay : Duration → DispatchOpt
  with_priority : ℤ → DispatchOpt
  with_batch_id : String → DispatchOpt
  with_tags : Option (List String) → DispatchOpt
  with_metadata : String → String → DispatchOpt

-- An assignment to a map's key.
abbrev pub put : String → String → List (String × String) → List (String × String)
put k v [] = (k, v) ∷ []
put k v ((l, w) ∷ m) = if str_eq l k then (k, v) ∷ m else (l, w) ∷ put k v m

abbrev pub lookup : String → List (String × String) → Option String
lookup k [] = none
lookup k ((l, w) ∷ m) = if str_eq l k then some w else lookup k m

abbrev pub apply_opt : DispatchOpt → DispatchOptions → DispatchOptions
apply_opt (on_queue name) o = record o { queue = name }
apply_opt (with_delay d) o = record o { delay = d }
apply_opt (with_priority p) o = record o { priority = p }
apply_opt (with_batch_id id) o = record o { batch_id = id }
apply_opt (with_tags tags) o = record o { tags = tags }
apply_opt (with_metadata k v) o = record o { metadata = put k v o.metadata }

abbrev pub no_options : DispatchOptions
no_options = record {
  queue = "";
  delay = pos 0;
  priority = pos 0;
  batch_id = "";
  tags = none;
  metadata = [];
}

abbrev pub apply_opts : List DispatchOpt → DispatchOptions → DispatchOptions
apply_opts [] o = o
apply_opts (opt ∷ opts) o = apply_opts opts (apply_opt opt o)

pub record ManagerConfig : Type 0 where
  pub default_queue : String
  pub default_max_attempts : ℤ
  pub default_timeout : Duration
  pub node_id : String

pub data ManagerOption : Type 0 where
  with_default_queue : String → ManagerOption
  with_max_attempts : ℤ → ManagerOption
  with_default_timeout : Duration → ManagerOption
  with_node_id : String → ManagerOption

abbrev pub apply_manager_option : ManagerOption → ManagerConfig → ManagerConfig
apply_manager_option (with_default_queue name) c = record c { default_queue = name }
apply_manager_option (with_max_attempts n) c = record c { default_max_attempts = n }
apply_manager_option (with_default_timeout timeout) c = record c { default_timeout = timeout }
apply_manager_option (with_node_id id) c = if str_eq id "" then c else record c { node_id = id }

-- DefaultConfig, given the eight characters of the new uuid.
abbrev pub default_config : String → ManagerConfig
default_config fresh = record {
  default_queue = "default";
  default_max_attempts = pos 3;
  default_timeout = pos 0;
  node_id = text_append "node-" fresh;
}

configure : List ManagerOption → ManagerConfig → ManagerConfig
configure [] c = c
configure (opt ∷ opts) c = configure opts (apply_manager_option opt c)

-- NewManager; the driver is a parameter of what uses it.
unfoldable pub new_manager : List ManagerOption → String → ManagerConfig
unfolding configure
new_manager opts fresh = configure opts (default_config fresh)

unfoldable pub new_configured_manager : String → ℤ → String → String → ManagerConfig
unfolding new_manager
new_configured_manager queue max_attempts node fresh =
    new_manager (with_default_queue queue ∷ with_max_attempts max_attempts ∷ with_node_id node ∷ [])
      fresh

-- The new uuid, and the three times that buildJobRow reads the clock.
pub record Stamp : Type 0 where
  pub uuid : String
  pub now : Time
  pub checked_at : Time
  pub created_at : Time

abbrev pub or_else {ℓ} : {A : Type ℓ} → Option A → A → A
or_else none a = a
or_else (some b) a = b

abbrev row_queue : JobValue → ManagerConfig → DispatchOptions → String
row_queue job cfg o =
    let queue = if not (str_eq o.queue "") then o.queue else cfg.default_queue in
    if str_eq o.queue "" then or_else job.queue queue else queue

abbrev scheduled_time : JobValue → DispatchOptions → Time → Time
scheduled_time job o now =
    if ltb_ℤ (pos 0) o.delay
    then now +ℤ o.delay
    else elim job.delay [ none ↦ now | some d ↦ now +ℤ d ]

abbrev row_tags : JobValue → DispatchOptions → List String
row_tags job o = elim o.tags [ some tags ↦ tags | none ↦ or_else job.tags [] ]

abbrev row_batch : JobValue → DispatchOptions → String
row_batch job o = if not (str_eq o.batch_id "") then o.batch_id else or_else job.batch_id ""

abbrev built : JobValue → ManagerConfig → DispatchOptions → Stamp → List ℕ → JobRow
built job cfg o stamp payload = record {
  id = 0;
  uuid = stamp.uuid;
  queue = row_queue job cfg o;
  kind = job.kind;
  payload = payload;
  state = if ltb_ℤ stamp.checked_at (scheduled_time job o stamp.now) then scheduled else available;
  priority = o.priority;
  attempt = 0;
  max_attempts = or_else job.max_attempts cfg.default_max_attempts;
  attempted_by = [];
  attempted_at = none;
  errors = [];
  output = [];
  tags = row_tags job o;
  scheduled_at = scheduled_time job o stamp.now;
  created_at = stamp.created_at;
  started_at = none;
  completed_at = none;
  finalized_at = none;
  node_id = "";
  batch_id = row_batch job o;
  timeout = or_else job.timeout cfg.default_timeout;
  metadata = o.metadata;
  unique_key = "";
}

unfoldable pub build_job_row : JobValue → ManagerConfig → List DispatchOpt → Stamp → Result JobRow
build_job_row job cfg opts stamp = elim job.marshalled [
  | err e ↦ err (failure (text_append "failed to marshal job payload: " (error_text e)))
  | ok payload ↦ ok (built job cfg (apply_opts opts no_options) stamp payload)
]
