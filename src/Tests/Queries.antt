-- ===== src/Tests/Queries.antt =====
-- The theorems about queries and statistics at concrete tables.
use tasker.Base.{List, [], ◌∷◌, ℤ, pos, ◌+ℤ◌, ◌≡◌, refl, str_eq}
use tasker.Job.{JobFilter, Time, available, running}
use tasker.Sql.Statement.{ok}
use tasker.Sql.Query.{Engine, data_query, query_jobs, numbers_from}
use tasker.Sql.Query.Placeholders.{query_placeholders, data_query-numbered}
use tasker.Sql.Query.Meaning.{Alike}
use tasker.Sql.Query.Answers.{Kept, query_jobs_contract}
use tasker.Sql.Statistics as SqlStatistics
use tasker.Redis.Store.{Store, empty_store, answered}
use tasker.Redis.Query.{Texts, all_jobs}
use tasker.Redis.Statistics.{queue_stats}
use tasker.Stats.{Float}
use tasker.Stats.Agree.{Agrees, queue_stats_agree}
use tasker.Tests.Data.{some_rows, some_world}

-- ILIKE and strings.Contains that find the kind Send only.
abbrev some_engine : Engine
some_engine = record {
  ilike = λ text pattern_text. str_eq text "Send";
  order_rows = λ column ascending rows. rows;
  order_keeps = λ column ascending p rows. refl;
}

abbrev some_texts : Texts
some_texts = record {
  to_lower = λ t. t;
  has_part = λ text part. str_eq text "Send";
  compare_texts = λ a b. pos 0;
}

abbrev some_filter : JobFilter
some_filter = record {
  states = available ∷ running ∷ [];
  queues = "mail" ∷ [];
  kinds = [];
  tags = [];
  search = "Send";
  limit = pos 0;
  offset = pos 1;
  order_by = "priority";
  order = "asc";
}

some_engine-Alike : Alike some_engine some_texts "Send"
some_engine-Alike = record { same_empty = refl; same_part = λ text. refl }

query_jobs_contract_example :
    Kept some_texts some_filter some_world (query_jobs some_engine str_eq some_filter some_world)
query_jobs_contract_example =
    query_jobs_contract some_engine some_texts some_filter some_engine-Alike str_eq some_world

data_query-numbered_example :
    query_placeholders (data_query str_eq some_filter)
    ≡ numbers_from 1 (data_query str_eq some_filter).args
data_query-numbered_example = data_query-numbered str_eq some_filter

-- Seven placeholders: two states, a queue, two patterns, the limit and the offset.
seven_placeholders :
    query_placeholders (data_query str_eq some_filter) ≡ 1 ∷ 2 ∷ 3 ∷ 4 ∷ 5 ∷ 6 ∷ 7 ∷ []
unfolding data_query
seven_placeholders = refl

abbrev whole_float : Float ℤ
whole_float = record { zero = pos 0; add = λ a b. a +ℤ b; divide = λ a b. a; of_int = λ n. n }

abbrev some_avg : List (Time × Time) → ℤ
some_avg spans = pos 0

abbrev same_store : Store
same_store = record empty_store { jobs = some_rows }

same_jobs : all_jobs (λ r. ok r) answered same_store ≡ ok some_rows
unfolding all_jobs
same_jobs = refl

queue_stats_agree_example :
    Agrees some_world
      (queue_stats whole_float (λ r. ok r) answered "mail" (pos 60) same_store)
      (SqlStatistics.queue_stats whole_float some_avg "mail" (pos 50) (pos 60) some_world)
queue_stats_agree_example =
    queue_stats_agree whole_float some_avg "mail" (pos 60) (λ r. ok r) answered same_store (pos 50)
      some_world same_jobs
