-- ===== src/Web/Handlers.antt =====
-- The handlers of web/web.go.
use tasker.Base.{Option, none, some, List, [], ◌∷◌, String, pos, ◌-ℤ◌, ◌*◌, map}
use tasker.Job.{completed, failed, cancelled, second}
use tasker.Pool.{PoolManager, find_pool}
use tasker.Supervisor.{Config, QueueConfig}
use tasker.Web.{
  Std, QueueInfo, status_body, job_body, page_body, stats_body, queues_body, queue_metrics_body,
  job_metrics_body, nodes_body, pruned_body, Response, Manager, Site, list_filter,
}
use tasker.Web.Answers.{
  Handler, write_json, server_error, not_found_or_error, answer, with_id, with_ids, and_info,
  is_paused, show_queues, pause, resume, metrics, shown,
}

module _ {W Q G J : Type 0} (std : Std) (m : Manager W Q G J) where
  unfoldable pub handle_stats : Handler W Q G J
  handle_stats r s =
      answer server_error (λ g. write_json 200 (stats_body g)) s (m.global_stats s.world)

  unfoldable pub handle_list_jobs : Handler W Q G J
  unfolding list_filter
  handle_list_jobs r s =
      let f = list_filter std r.query in
      answer server_error (λ page. write_json 200 (page_body page.0 page.1 f.limit f.offset)) s
        (m.query_jobs f s.world)

  unfoldable pub handle_get_job : Handler W Q G J
  handle_get_job r s =
      with_id (std.parse_uint r.path_id)
        (λ id t.
          answer not_found_or_error (λ job. write_json 200 (job_body job)) t (m.get_job id t.world))
        s

  unfoldable pub handle_retry_job : Handler W Q G J
  handle_retry_job r s =
      with_id (std.parse_uint r.path_id)
        (λ id t.
          answer server_error (λ job. write_json 200 (job_body job)) t (m.retry_job id t.world))
        s

  unfoldable pub handle_cancel_job : Handler W Q G J
  handle_cancel_job r s =
      with_id (std.parse_uint r.path_id)
        (λ id t.
          answer server_error (λ job. write_json 200 (job_body job)) t (m.cancel_job id t.world))
        s

  unfoldable pub handle_batch_retry : Handler W Q G J
  handle_batch_retry r s =
      with_ids r.ids
        (λ ids t.
          answer server_error (λ u. write_json 200 (status_body "ok")) t (m.retry_jobs ids t.world))
        s

  unfoldable pub handle_batch_cancel : Handler W Q G J
  handle_batch_cancel r s =
      with_ids r.ids
        (λ ids t.
          answer server_error (λ u. write_json 200 (status_body "ok")) t
            (m.cancel_jobs ids t.world))
        s

  -- The loop over the queues; one whose statistics fail is left out.
  unfoldable pub queue_infos :
      List (String × QueueConfig) → PoolManager → W → List (QueueInfo Q) × W
  queue_infos [] pm w = ([], w)
  queue_infos ((q, c) ∷ qs) pm w =
      and_info q (is_paused (find_pool q pm.pools)) (m.queue_stats q w) (queue_infos qs pm)

  abbrev pub list_queues : Option (Config × PoolManager) → Site W → Response Q G J × Site W
  list_queues none s = (write_json 200 (queues_body []), s)
  list_queues (some (cfg, pm)) s = show_queues (queue_infos cfg.queues pm s.world) s

  unfoldable pub handle_list_queues : Handler W Q G J
  unfolding queue_infos
  handle_list_queues r s = list_queues s.supervisor s

  unfoldable pub handle_pause_queue : Handler W Q G J
  handle_pause_queue r s = pause r.path_queue s.supervisor s

  unfoldable pub handle_resume_queue : Handler W Q G J
  handle_resume_queue r s = resume r.path_queue s.supervisor s

  unfoldable pub handle_list_workers : Handler W Q G J
  handle_list_workers r s =
      answer server_error (λ ns. write_json 200 (nodes_body ns)) s (m.list_nodes s.world)

  unfoldable pub handle_job_metrics : List String → Handler W Q G J
  unfolding metrics
  handle_job_metrics kinds r s = shown job_metrics_body (metrics m.job_stats kinds s.world) s

  abbrev pub queue_metrics : Option (Config × PoolManager) → Site W → Response Q G J × Site W
  queue_metrics none s = (write_json 200 (queue_metrics_body []), s)
  queue_metrics (some (cfg, pm)) s =
      shown queue_metrics_body (metrics m.queue_stats (map (λ q. q.0) cfg.queues) s.world) s

  unfoldable pub handle_queue_metrics : Handler W Q G J
  unfolding metrics
  handle_queue_metrics r s = queue_metrics s.supervisor s

  unfoldable pub handle_prune : Handler W Q G J
  handle_prune r s =
      answer server_error (λ n. write_json 200 (pruned_body n)) s
        (m.prune_jobs (r.now -ℤ pos (7 * 24 * 3600 * second)) (completed ∷ failed ∷ cancelled ∷ [])
          s.world)
