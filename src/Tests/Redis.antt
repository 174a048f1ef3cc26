-- ===== src/Tests/Redis.antt =====
-- The theorems about the Redis driver at concrete stores.
use tasker.Base.{
  str_eq, ◌≡◌, ◌≢◌, refl, String, true, eq_iff, some, none, [], ◌∷◌, pos, arith, All, List, ◌+◌,
  map, get_key, put_key, del_key,
}
use tasker.Job.{JobFilter, available, JobRow, Duration, failure, failed}
use tasker.Sql.Statement.{ok}
use tasker.Redis.Store.{Store, unix_micros, empty_store, Sent, answered, not_run, reply_lost}
use tasker.Redis.Linked.{Consistent}
use tasker.Redis.Claim.{claim_script, claim}
use tasker.Redis.Enqueue.{enqueue_batch}
use tasker.Redis.Finish.{fail}
use tasker.Redis.Admin.{prune, retry_batch}
use tasker.Redis.Invariant.{
  Call, enqueue_jobs, claim_jobs, fail_job, retry_jobs, prune_jobs, run, run-Consistent,
}
use tasker.Redis.Claimed.{Taken, claim_script-Taken, claim_script-Disjoint}
use tasker.Redis.Batches.{RetriesAll, retry_batch_outcome}
use tasker.Redis.Nodes.{Keys, ttl_millis, acquire_lock, renew_script}
use tasker.Redis.Owner.{LockCall, acquire, release, lock_calls, acquire_lock-excludes}
use tasker.Redis.Query.{Texts, query_jobs, all_jobs}
use tasker.Redis.Pages.{Answers, query_jobs-Answers, InSequence, paged, query_jobs_pages}
use tasker.Tests.Data.{fresh_row, first_row, urgent_row, running_row}

abbrev second_row : JobRow
second_row = record fresh_row { uuid = "b"; priority = pos 9 }

abbrev redis_calls : List (Sent × Call)
redis_calls =
    (answered, enqueue_jobs (some fresh_row ∷ some second_row ∷ []))
    ∷ (answered, claim_jobs "mail" "n1" (pos 10_000) (pos 1))
    ∷ (reply_lost (failure "timeout"), fail_job 2 (some (failure "no route")) (pos 11_000))
    ∷ (answered, retry_jobs (2 ∷ []) (pos 12_000))
    ∷ (not_run (failure "timeout"), prune_jobs (pos 13_000) (failed ∷ []))
    ∷ []

run-Consistent_example : Consistent (run (λ r. ok r) redis_calls empty_store)
run-Consistent_example =
    run-Consistent (λ r. ok r) redis_calls ((refl, (refl, tt)), (tt, (tt, (tt, (tt, tt)))))

abbrev pub some_store : Store
some_store = run (λ r. ok r) redis_calls empty_store

pub some_store-Consistent : Consistent some_store
some_store-Consistent =
    run-Consistent (λ r. ok r) redis_calls ((refl, (refl, tt)), (tt, (tt, (tt, (tt, tt)))))

claim_script-Taken_example :
    All
      (Taken "mail" "n2"
        (pos 20_000)
        some_store
        (claim_script "mail" "n2" (pos 20_000) 1 some_store).1)
      (claim_script "mail" "n2" (pos 20_000) 1 some_store).0
claim_script-Taken_example =
    claim_script-Taken "mail" "n2" (pos 20_000) 1 some_store some_store-Consistent

claim_script-Disjoint_example :
    All
      (λ r.
        All
          (λ t. r.id ≢ t.id)
          (claim_script "mail" "n3"
            (pos 21_000)
            5
            (claim_script "mail" "n2" (pos 20_000) 1 some_store).1).0)
      (claim_script "mail" "n2" (pos 20_000) 1 some_store).0
claim_script-Disjoint_example =
    claim_script-Disjoint some_store "mail" "n2" "mail" "n3" (pos 20_000) (pos 21_000) 1 5
      some_store-Consistent

retry_batch_outcome_example :
    RetriesAll
      (pos 30_000)
      (2 ∷ 9 ∷ [])
      some_store
      (retry_batch answered (2 ∷ 9 ∷ []) (pos 30_000) some_store)
retry_batch_outcome_example = retry_batch_outcome (2 ∷ 9 ∷ []) (pos 30_000) some_store

abbrev no_keys : Keys
no_keys = record { nodes = []; node_keys = λ _. none; leader = none; locks = λ _. none }

abbrev five_seconds : Duration
five_seconds = pos 5_000_000_000

abbrev lock_tries : List LockCall
lock_tries = release answered 150 "k" "n2" ∷ acquire answered 160 "k" "n2" five_seconds ∷ []

other_node : ◌≢◌ {A = String} "n2" "n1"
other_node = ground (arith, eq_iff "n2" "n1")

acquire_lock-excludes_example :
    ((lock_calls lock_tries (acquire_lock answered 100 "k" "n1" five_seconds no_keys).1).locks "k"
      ≡ some ("n1", 100 + ttl_millis five_seconds))
    × ((acquire_lock answered 200 "k" "n2" five_seconds
          (lock_calls lock_tries (acquire_lock answered 100 "k" "n1" five_seconds no_keys).1)).0
        ≢ ok true)
unfolding ttl_millis acquire_lock renew_script
acquire_lock-excludes_example =
    acquire_lock-excludes "k" "n1" "n2" 100 200 five_seconds five_seconds no_keys lock_tries
      answered refl ((omega arith, λ _. other_node), ((omega arith, λ _. other_node), tt))
      (omega arith) other_node

-- The urgent job was claimed, failed and made available again; both are due.
claimed_ids : map (λ r. r.id) (claim_script "mail" "n2" (pos 20_000) 5 some_store).0 ≡ 2 ∷ 1 ∷ []
unfolding claim_script enqueue_batch claim fail retry_batch prune unix_micros get_key put_key
    del_key
claimed_ids = refl

abbrev pub plain_texts : Texts
plain_texts = record {
  to_lower = λ t. t;
  has_part = λ text part. str_eq text part;
  compare_texts = λ a b. pos 0;
}

abbrev by_id : JobFilter
by_id = record {
  states = available ∷ [];
  queues = [];
  kinds = [];
  tags = [];
  search = "";
  limit = pos 1;
  offset = pos 0;
  order_by = "id";
  order = "asc";
}

abbrev listed_store : Store
listed_store = record empty_store { jobs = first_row ∷ urgent_row ∷ running_row ∷ [] }

query_jobs-Answers_example :
    (jobs : List JobRow) × (all_jobs (λ r. ok r) answered listed_store ≡ ok jobs)
    × Answers plain_texts by_id jobs (first_row ∷ [], 2)
unfolding query_jobs tasker.Base.of_word
query_jobs-Answers_example =
    query_jobs-Answers plain_texts (λ r. ok r) answered by_id listed_store (first_row ∷ [], 2) refl

query_jobs_pages_example :
    InSequence
      (query_jobs plain_texts (λ r. ok r) answered (paged by_id 1 0) listed_store)
      (query_jobs plain_texts (λ r. ok r) answered (paged by_id 5 (0 + 1)) listed_store)
      (query_jobs plain_texts (λ r. ok r) answered (paged by_id (1 + 5) 0) listed_store)
query_jobs_pages_example =
    query_jobs_pages plain_texts (λ r. ok r) answered by_id 1 5 0 listed_store (omega arith)
      (omega arith) (omega arith)
