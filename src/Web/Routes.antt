-- ===== src/Web/Routes.antt =====
-- The routes of web/web.go, and what they keep: what every call of the manager keeps.
use tasker.Base.{ℕ, Bool, map, Option, none, some, List, [], ◌∷◌, String}
use tasker.Job.{State, Time, JobFilter, Error}
use tasker.Sql.Statement.{Result, ok, err}
use tasker.Pool.{PoolManager, find_pool}
use tasker.Supervisor.{Config, QueueConfig, pause_queue, resume_queue}
use tasker.Web.{Std, Request, Response, Manager, Site, QueueInfo, list_filter}
use tasker.Web.Answers.{
  Handler, answer, with_id, with_ids, and_info, is_paused, supervised, pause, resume, and_metric,
  metrics,
}
use tasker.Web.Handlers.{
  handle_stats, handle_list_jobs, handle_get_job, handle_retry_job, handle_cancel_job,
  handle_batch_retry, handle_batch_cancel, queue_infos, list_queues, handle_list_queues,
  handle_pause_queue, handle_resume_queue, handle_list_workers, handle_job_metrics, queue_metrics,
  handle_queue_metrics, handle_prune,
}

-- All but the page and the event stream.
pub data Route : Type 0 where
  get_stats get_jobs get_job post_retry post_cancel post_batch_retry post_batch_cancel : Route
  get_queues post_pause post_resume get_workers get_job_metrics get_queue_metrics post_prune : Route

module _ {W Q G J : Type 0} (std : Std) (m : Manager W Q G J) (kinds : List String) where
  -- `kinds` is what ListRegisteredJobs gives.
  unfoldable pub serve : Route → Handler W Q G J
  serve get_stats = handle_stats std m
  serve get_jobs = handle_list_jobs std m
  serve get_job = handle_get_job std m
  serve post_retry = handle_retry_job std m
  serve post_cancel = handle_cancel_job std m
  serve post_batch_retry = handle_batch_retry std m
  serve post_batch_cancel = handle_batch_cancel std m
  serve get_queues = handle_list_queues std m
  serve post_pause = handle_pause_queue std m
  serve post_resume = handle_resume_queue std m
  serve get_workers = handle_list_workers std m
  serve get_job_metrics = handle_job_metrics std m kinds
  serve get_queue_metrics = handle_queue_metrics std m
  serve post_prune = handle_prune std m

-- Every call of the manager keeps P.
pub record ManagerKeeps {W Q G J : Type 0} (P : W → Type 0) (m : Manager W Q G J) : Type 0 where
  pub global_stats : (w : W) → P w → P (m.global_stats w).1
  pub query_jobs : (f : JobFilter) (w : W) → P w → P (m.query_jobs f w).1
  pub get_job : (id : ℕ) (w : W) → P w → P (m.get_job id w).1
  pub retry_job : (id : ℕ) (w : W) → P w → P (m.retry_job id w).1
  pub cancel_job : (id : ℕ) (w : W) → P w → P (m.cancel_job id w).1
  pub retry_jobs : (ids : List ℕ) (w : W) → P w → P (m.retry_jobs ids w).1
  pub cancel_jobs : (ids : List ℕ) (w : W) → P w → P (m.cancel_jobs ids w).1
  pub queue_stats : (q : String) (w : W) → P w → P (m.queue_stats q w).1
  pub job_stats : (k : String) (w : W) → P w → P (m.job_stats k w).1
  pub list_nodes : (w : W) → P w → P (m.list_nodes w).1
  pub prune_jobs :
      (before : Time) (states : List State) (w : W) → P w → P (m.prune_jobs before states w).1

module _ {W Q G J : Type 0} (P : W → Type 0) where
  answer-Keeps :
      {A : Type 0} (f : Error → Response Q G J) (g : A → Response Q G J) (s : Site W)
      (r : Result A × W)
      → P r.1
      → P (answer f g s r).1.world
  answer-Keeps f g s (ok a, w) p = p
  answer-Keeps f g s (err e, w) p = p

  with_id-Keeps :
      (o : Option ℕ) (f : ℕ → Site W → Response Q G J × Site W) (s : Site W)
      → ((id : ℕ) → P (f id s).1.world)
      → P s.world
      → P (with_id o f s).1.world
  with_id-Keeps none f s h p = p
  with_id-Keeps (some id) f s h p = h id

  with_ids-Keeps :
      (o : Option (List ℕ)) (f : List ℕ → Site W → Response Q G J × Site W) (s : Site W)
      → ((ids : List ℕ) → P (f ids s).1.world)
      → P s.world
      → P (with_ids o f s).1.world
  with_ids-Keeps none f s h p = p
  with_ids-Keeps (some ids) f s h p = h ids

module _ (Q G J : Type 0) {W : Type 0} (P : W → Type 0) where
  supervised-Keeps :
      (status : String) (cfg : Config) (r : Result (Unit {0}) × PoolManager) (s : Site W)
      → P s.world
      → P (supervised {W = W} {Q = Q} {G = G} {J = J} status cfg r s).1.world
  supervised-Keeps status cfg (ok u, pm) s p = p
  supervised-Keeps status cfg (err e, pm) s p = p

  pause-Keeps :
      (queue : String) (o : Option (Config × PoolManager)) (s : Site W)
      → P s.world
      → P (pause {W = W} {Q = Q} {G = G} {J = J} queue o s).1.world
  pause-Keeps queue none s p = p
  pause-Keeps queue (some (cfg, pm)) s p =
      supervised-Keeps "paused" cfg (pause_queue cfg queue pm) s p

  resume-Keeps :
      (queue : String) (o : Option (Config × PoolManager)) (s : Site W)
      → P s.world
      → P (resume {W = W} {Q = Q} {G = G} {J = J} queue o s).1.world
  resume-Keeps queue none s p = p
  resume-Keeps queue (some (cfg, pm)) s p =
      supervised-Keeps "resumed" cfg (resume_queue cfg queue pm) s p

module _ {W Q : Type 0} (P : W → Type 0) where
  and_info-Keeps :
      (name : String) (paused : Bool) (r : Result Q × W) (rest : W → List (QueueInfo Q) × W)
      → P r.1
      → ((w : W) → P w → P (rest w).1)
      → P (and_info name paused r rest).1
  and_info-Keeps name paused (ok a, w) rest p h = h w p
  and_info-Keeps name paused (err e, w) rest p h = h w p

module _ {W A : Type 0} (P : W → Type 0) where
  and_metric-Keeps :
      (r : Result A × W) (rest : W → List A × W)
      → P r.1
      → ((w : W) → P w → P (rest w).1)
      → P (and_metric r rest).1
  and_metric-Keeps (ok a, w) rest p h = h w p
  and_metric-Keeps (err e, w) rest p h = h w p

  metrics-Keeps :
      (f : String → W → Result A × W) (ks : List String) (w : W)
      → ((k : String) (v : W) → P v → P (f k v).1)
      → P w
      → P (metrics f ks w).1
  unfolding metrics
  metrics-Keeps f [] w h p = p
  metrics-Keeps f (k ∷ ks) w h p =
      and_metric-Keeps (f k w) (metrics f ks) (h k w p) (λ v. metrics-Keeps f ks v h)

module _ {W Q G J : Type 0} (P : W → Type 0) (std : Std) (m : Manager W Q G J) (kinds : List String)
    (k : ManagerKeeps P m) where
  queue_infos-Keeps :
      (qs : List (String × QueueConfig)) (pm : PoolManager) (w : W)
      → P w
      → P (queue_infos std m qs pm w).1
  unfolding queue_infos
  queue_infos-Keeps [] pm w p = p
  queue_infos-Keeps ((q, c) ∷ qs) pm w p =
      and_info-Keeps P q (is_paused (find_pool q pm.pools)) (m.queue_stats q w)
        (queue_infos std m qs pm) (k.queue_stats q w p) (queue_infos-Keeps qs pm)

  list_queues-Keeps :
      (o : Option (Config × PoolManager)) (s : Site W)
      → P s.world
      → P (list_queues std m o s).1.world
  list_queues-Keeps none s p = p
  list_queues-Keeps (some (cfg, pm)) s p = queue_infos-Keeps cfg.queues pm s.world p

  queue_metrics-Keeps :
      (o : Option (Config × PoolManager)) (s : Site W)
      → P s.world
      → P (queue_metrics std m o s).1.world
  queue_metrics-Keeps none s p = p
  queue_metrics-Keeps (some (cfg, pm)) s p =
      metrics-Keeps P m.queue_stats (map (λ q. q.0) cfg.queues) s.world k.queue_stats p

  -- Every route keeps what every call of the manager keeps.
  pub serve-Keeps :
      (route : Route) (r : Request) (s : Site W)
      → P s.world
      → P (serve std m kinds route r s).1.world
  unfolding serve handle_stats handle_list_jobs handle_get_job handle_retry_job handle_cancel_job
      handle_batch_retry handle_batch_cancel handle_list_queues handle_pause_queue
      handle_resume_queue handle_list_workers handle_job_metrics metrics handle_queue_metrics
      handle_prune
  serve-Keeps get_stats r s p =
      answer-Keeps P _ _ s (m.global_stats s.world) (k.global_stats s.world p)
  serve-Keeps get_jobs r s p =
      answer-Keeps P _ _ s (m.query_jobs (list_filter std r.query) s.world)
        (k.query_jobs (list_filter std r.query) s.world p)
  serve-Keeps get_job r s p =
      with_id-Keeps P (std.parse_uint r.path_id) _ s
        (λ id. answer-Keeps P _ _ s (m.get_job id s.world) (k.get_job id s.world p)) p
  serve-Keeps post_retry r s p =
      with_id-Keeps P (std.parse_uint r.path_id) _ s
        (λ id. answer-Keeps P _ _ s (m.retry_job id s.world) (k.retry_job id s.world p)) p
  serve-Keeps post_cancel r s p =
      with_id-Keeps P (std.parse_uint r.path_id) _ s
        (λ id. answer-Keeps P _ _ s (m.cancel_job id s.world) (k.cancel_job id s.world p)) p
  serve-Keeps post_batch_retry r s p =
      with_ids-Keeps P r.ids _ s
        (λ ids. answer-Keeps P _ _ s (m.retry_jobs ids s.world) (k.retry_jobs ids s.world p)) p
  serve-Keeps post_batch_cancel r s p =
      with_ids-Keeps P r.ids _ s
        (λ ids. answer-Keeps P _ _ s (m.cancel_jobs ids s.world) (k.cancel_jobs ids s.world p)) p
  serve-Keeps get_queues r s p = list_queues-Keeps s.supervisor s p
  serve-Keeps post_pause r s p = pause-Keeps Q G J P r.path_queue s.supervisor s p
  serve-Keeps post_resume r s p = resume-Keeps Q G J P r.path_queue s.supervisor s p
  serve-Keeps get_workers r s p =
      answer-Keeps P _ _ s (m.list_nodes s.world) (k.list_nodes s.world p)
  serve-Keeps get_job_metrics r s p = metrics-Keeps P m.job_stats kinds s.world k.job_stats p
  serve-Keeps get_queue_metrics r s p = queue_metrics-Keeps s.supervisor s p
  serve-Keeps post_prune r s p =
      answer-Keeps P _ _ s (m.prune_jobs _ _ s.world) (k.prune_jobs _ _ s.world p)
