-- ===== src/Commands.antt =====
-- The commands of cmd/, over the manager that Global gives, or none. `std` is strconv; the texts
-- that are printed are not modelled. Where a flag is not of the command itself, GetStringSlice gives
-- no texts, and its error is dropped.
use tasker.Base.{ℕ, Option, none, some, List, [], ◌∷◌, String, map, str_eq, if◌then◌else◌}
use tasker.Job.{state_of, Time, Error, failure}
use tasker.Sql.Statement.{Result, ok, err, World}
use tasker.Supervisor.{QueueConfig, Config, default_config, Supervisor, new_supervisor, start, stop}
use tasker.Web.{Std, Manager}

abbrev pub only_error : {A W : Type 0} → Result A × W → Option Error × W
only_error (ok a, w) = (none, w)
only_error (err e, w) = (some e, w)

abbrev pub with_id : {W : Type 0} → Option ℕ → (ℕ → Option Error × W) → W → Option Error × W
with_id none f w = (some (failure "strconv.ParseUint: invalid syntax"), w)
with_id (some id) f w = f id

module _ {W Q G J : Type 0} (std : Std) where
  unfoldable pub retry_command : Option (Manager W Q G J) → String → W → Option Error × W
  retry_command none arg w = (none, w)
  retry_command (some m) arg w =
      with_id (std.parse_uint arg) (λ id. only_error (m.retry_job id w)) w

  unfoldable pub cancel_command : Option (Manager W Q G J) → String → W → Option Error × W
  cancel_command none arg w = (none, w)
  cancel_command (some m) arg w =
      with_id (std.parse_uint arg) (λ id. only_error (m.cancel_job id w)) w

-- A queue whose statistics cannot be read is passed over.
abbrev pub and_stats : {W Q : Type 0} → Result Q × W → (W → List Q × W) → List Q × W
and_stats (err e, w) rest = rest w
and_stats (ok q, w) rest = let (qs, w') = rest w in (q ∷ qs, w')

module _ {W Q G J : Type 0} where
  -- `states` is what GetStringSlice gives for "states".
  unfoldable pub clear_command :
      Option (Manager W Q G J) → Time → List String → W → Option Error × W
  clear_command none now states w = (none, w)
  clear_command (some m) now states w = only_error (m.prune_jobs now (map state_of states) w)

  -- The statistics that are printed.
  abbrev pub queue_loop : Manager W Q G J → List String → W → List Q × W
  queue_loop m [] w = ([], w)
  queue_loop m (q ∷ qs) w = and_stats (m.queue_stats q w) (queue_loop m qs)

  unfoldable pub list_command : Option (Manager W Q G J) → W → List Q × W
  list_command none w = ([], w)
  list_command (some m) w = queue_loop m ("default" ∷ []) w

abbrev pub worker_queue : ℕ → QueueConfig
worker_queue workers = record { max_workers = workers; min_workers = 1 }

abbrev pub put_queue :
    String → QueueConfig → List (String × QueueConfig) → List (String × QueueConfig)
put_queue q c [] = (q, c) ∷ []
put_queue q c ((k, d) ∷ qs) = if str_eq k q then (q, c) ∷ qs else (k, d) ∷ put_queue q c qs

abbrev pub put_queues : List String → ℕ → List (String × QueueConfig) → List (String × QueueConfig)
put_queues [] workers qs = qs
put_queues (q ∷ rest) workers qs = put_queues rest workers (put_queue q (worker_queue workers) qs)

abbrev pub or_default : ℕ → List (String × QueueConfig) → List (String × QueueConfig)
or_default workers [] = ("default", worker_queue workers) ∷ []
or_default workers (q ∷ qs) = q ∷ qs

unfoldable pub work_config : List String → ℕ → Config
work_config queues workers = record default_config {
  queues = or_default workers (put_queues queues workers []);
}

abbrev pub then_stop :
    (String → Option Error) → Option (Supervisor × World) → Option (Supervisor × World)
then_stop ends none = none
then_stop ends (some (s, v)) = stop ends s v

-- With a manager, whose node is `node`: the supervisor is started, and stopped when a signal comes.
-- `none` is a panic. Without a manager the command exits with 1.
unfoldable pub work_command :
    String
    → List String
    → ℕ
    → Time
    → Time
    → (String → Option Error)
    → World
    → Option (Supervisor × World)
unfolding work_config
work_command node queues workers started_at now ends w =
    then_stop ends (start (work_config queues workers) started_at now (new_supervisor node) w)
