-- ===== src/Job.antt =====
-- The job row and its states (types.go, errors.go), and backoff configurations (job.go).
use tasker.Base.{
  ℕ, ◌*◌, String, Bool, true, false, ◌||◌, Option, List, ℤ, pos, str_eq, if◌then◌else◌,
}

-- `State` is a string: `other` holds a text that is none of the eight constants.
pub data State : Type 0 where
  pending scheduled available running completed retryable failed cancelled : State
  other : String → State

-- `==` on `State`.
abbrev pub same : State → State → Bool
same pending pending = true
same scheduled scheduled = true
same available available = true
same running running = true
same completed completed = true
same retryable retryable = true
same failed failed = true
same cancelled cancelled = true
same (other s) (other t) = str_eq s t
same _ _ = false

unfoldable pub valid : State → Bool
valid (other s) = false
valid _ = true

unfoldable pub terminal : State → Bool
terminal s = same s completed || same s failed || same s cancelled

-- `time.Time` and `time.Duration`, in nanoseconds.
abbrev pub Time : Type 0
Time = ℤ

abbrev pub Duration : Type 0
Duration = ℤ

abbrev pub second : ℕ
second = 1_000_000_000

pub record AttemptError : Type 0 where
  pub attempt : ℕ
  pub message : String
  pub timestamp : Time
  pub stack : String

-- `attempt` starts at 0 and is only counted up or reset, so it is a number.
pub record JobRow : Type 0 where
  pub id : ℕ
  pub uuid : String
  pub queue : String
  pub kind : String
  pub payload : List ℕ
  pub state : State
  pub priority : ℤ
  pub attempt : ℕ
  pub max_attempts : ℤ
  pub attempted_by : List String
  pub attempted_at : Option Time
  pub errors : List AttemptError
  pub output : List ℕ
  pub tags : List String
  pub scheduled_at : Time
  pub created_at : Time
  pub started_at : Option Time
  pub completed_at : Option Time
  pub finalized_at : Option Time
  pub node_id : String
  pub batch_id : String
  pub timeout : Duration
  pub metadata : List (String × String)
  pub unique_key : String

-- What a query for jobs asks for.
pub record JobFilter : Type 0 where
  pub states : List State
  pub queues : List String
  pub kinds : List String
  pub tags : List String
  pub search : String
  pub limit : ℤ
  pub offset : ℤ
  pub order_by : String
  pub order : String

-- The driver's own errors, and those of what it calls.
pub data Error : Type 0 where
  job_not_found job_already_exists invalid_transition node_not_found : Error
  failure : String → Error

pub data BackoffStrategy : Type 0 where
  exponential fibonacci fixed : BackoffStrategy
  other_strategy : String → BackoffStrategy

pub record BackoffConfig : Type 0 where
  pub strategy : BackoffStrategy
  pub base : Duration
  pub max_delay : Duration

unfoldable pub default_backoff : BackoffConfig
default_backoff = record {
  strategy = exponential;
  base = pos (2 * second);
  max_delay = pos (24 * 3600 * second);
}

unfoldable pub fibonacci_backoff : BackoffConfig
fibonacci_backoff = record {
  strategy = fibonacci;
  base = pos (1 * second);
  max_delay = pos (24 * 3600 * second);
}

abbrev pub node_liveness_window : Duration
node_liveness_window = pos (30 * second)

-- What Error() gives; the texts of errors.go.
abbrev pub error_text : Error → String
error_text job_not_found = "job not found"
error_text job_already_exists = "job already exists"
error_text invalid_transition = "invalid state transition"
error_text node_not_found = "node not found"
error_text (failure text) = text

-- State(text).
abbrev pub state_of : String → State
state_of text =
    if str_eq text "pending"
    then pending
    else (if str_eq text "scheduled"
        then scheduled
        else (if str_eq text "available"
            then available
            else (if str_eq text "running"
                then running
                else (if str_eq text "completed"
                    then completed
                    else (if str_eq text "retryable"
                        then retryable
                        else (if str_eq text "failed"
                            then failed
                            else (if str_eq text "cancelled" then cancelled else other text)))))))

-- The text that a State is.
abbrev pub state_text : State → String
state_text pending = "pending"
state_text scheduled = "scheduled"
state_text available = "available"
state_text running = "running"
state_text completed = "completed"
state_text retryable = "retryable"
state_text failed = "failed"
state_text cancelled = "cancelled"
state_text (other s) = s
