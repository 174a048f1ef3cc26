-- ===== src/Web/Answers.antt =====
-- How the handlers of web/web.go answer, and the loops in them.
use tasker.Base.{ℕ, Bool, false, Option, none, some, List, [], ◌∷◌, String, ◌==◌, length}
use tasker.Job.{Error, error_text, job_not_found}
use tasker.Sql.Statement.{Result, ok, err}
use tasker.Pool.{Pool, PoolManager}
use tasker.Supervisor.{Config, pause_queue, resume_queue}
use tasker.Web.{Request, QueueInfo, Body, error_body, status_body, queues_body, Response, Site}

abbrev pub Handler : Type 0 → Type 0 → Type 0 → Type 0 → Type 0
Handler W Q G J = Request → Site W → Response Q G J × Site W

module _ {Q G J : Type 0} where
  abbrev pub write_json : ℕ → Body Q G J → Response Q G J
  write_json status body = record { status = status; body = body; cookie = none }

  abbrev pub write_error : ℕ → String → Response Q G J
  write_error status msg = write_json status (error_body msg)

  abbrev pub server_error : Error → Response Q G J
  server_error e = write_error 500 (error_text e)

  abbrev pub not_found_or_error : Error → Response Q G J
  not_found_or_error job_not_found = write_error 404 "job not found"
  not_found_or_error other = server_error other

module _ {W Q G J : Type 0} where
  -- A call of the manager, with an answer for its result.
  abbrev pub answer :
      {A : Type 0}
      → (Error → Response Q G J)
      → (A → Response Q G J)
      → Site W
      → Result A × W
      → Response Q G J × Site W
  answer on_err on_ok s (ok a, w) = (on_ok a, record s { world = w })
  answer on_err on_ok s (err e, w) = (on_err e, record s { world = w })

  abbrev pub with_id :
      Option ℕ → (ℕ → Site W → Response Q G J × Site W) → Site W → Response Q G J × Site W
  with_id none f s = (write_error 400 "invalid job id", s)
  with_id (some id) f s = f id s

  abbrev pub with_ids :
      Option (List ℕ)
      → (List ℕ → Site W → Response Q G J × Site W)
      → Site W
      → Response Q G J × Site W
  with_ids none f s = (write_error 400 "invalid request body", s)
  with_ids (some ids) f s = f ids s

  abbrev pub show_queues : List (QueueInfo Q) × W → Site W → Response Q G J × Site W
  show_queues (infos, w) s = (write_json 200 (queues_body infos), record s { world = w })

  abbrev pub supervised :
      String → Config → Result (Unit {0}) × PoolManager → Site W → Response Q G J × Site W
  supervised status cfg (ok u, pm) s =
      (write_json 200 (status_body status), record s { supervisor = some (cfg, pm) })
  supervised status cfg (err e, pm) s = (server_error e, record s { supervisor = some (cfg, pm) })

  abbrev pub pause : String → Option (Config × PoolManager) → Site W → Response Q G J × Site W
  pause queue none s =
      (write_error 409 "this process runs no workers, so it cannot pause a queue", s)
  pause queue (some (cfg, pm)) s = supervised "paused" cfg (pause_queue cfg queue pm) s

  abbrev pub resume : String → Option (Config × PoolManager) → Site W → Response Q G J × Site W
  resume queue none s =
      (write_error 409 "this process runs no workers, so it cannot resume a queue", s)
  resume queue (some (cfg, pm)) s = supervised "resumed" cfg (resume_queue cfg queue pm) s

  abbrev pub shown :
      {A : Type 0} → (List A → Body Q G J) → List A × W → Site W → Response Q G J × Site W
  shown body (as', w) s = (write_json 200 (body as'), record s { world = w })

module _ {W Q : Type 0} where
  abbrev pub and_info :
      String → Bool → Result Q × W → (W → List (QueueInfo Q) × W) → List (QueueInfo Q) × W
  and_info name paused (err e, w) rest = rest w
  and_info name paused (ok stats, w) rest =
      let (infos, w') = rest w in
      (record { name = name; stats = stats; paused = paused } ∷ infos, w')

module _ {W A : Type 0} where
  abbrev pub and_metric : Result A × W → (W → List A × W) → List A × W
  and_metric (err e, w) rest = rest w
  and_metric (ok a, w) rest = let (as', w') = rest w in (a ∷ as', w')

  -- The loops of handleJobMetrics, over the registered kinds, and of handleQueueMetrics.
  unfoldable pub metrics : (String → W → Result A × W) → List String → W → List A × W
  metrics f [] w = ([], w)
  metrics f (k ∷ ks) w = and_metric (f k w) (metrics f ks)

-- A queue is shown as paused where its pool has no worker.
abbrev pub is_paused : Option Pool → Bool
is_paused none = false
is_paused (some pool) = length pool.workers == 0
