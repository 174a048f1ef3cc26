-- ===== src/Sql/Query.antt =====
-- QueryJobs of driver/sqldriver/driver.go: the query that it builds, with the numbers of its
-- placeholders and their arguments, and what the query reads. `Engine` is what is used of the
-- database: ILIKE, which is LIKE in some dialects, and ORDER BY; `equal_fold` is
-- strings.EqualFold. The count and the page are read one after the other, with no writer between.
pub mod Placeholders
pub mod Meaning
pub mod Answers
use tasker.Base.{
  ℕ, zero, suc, Bool, true, false, ◌&&◌, ◌||◌, Option, none, some, List, [], ◌∷◌, ◌++◌, String,
  if◌then◌else◌, str_eq, ℤ, pos, pos_part, ltb_ℤ, leb_ℤ, any, select, count, take, drop, map,
  text_append, ◌≡◌,
}
use tasker.Job.{State, same, JobRow, JobFilter}
use tasker.Sql.Store.{Db}
use tasker.Sql.Statement.{Result, ok, M, ◌>>=◌, pure, statement}

pub record Engine : Type 0 where
  pub ilike : String → String → Bool
  pub order_rows : String → Bool → List JobRow → List JobRow
  pub order_keeps :
      (column : String) (ascending : Bool) (p : JobRow → Bool) (rows : List JobRow)
      → count p (order_rows column ascending rows) ≡ count p rows

pub data Arg : Type 0 where
  state_arg : State → Arg
  text_arg : String → Arg
  number_arg : ℤ → Arg

-- A condition of the WHERE clause, with the numbers of its placeholders.
pub data Condition : Type 0 where
  state_in queue_in kind_in : List ℕ → Condition
  kind_or_uuid_like : ℕ → ℕ → Condition
  tagged : ℕ → Condition

pub record Clause : Type 0 where
  pub conditions : List Condition
  pub args : List Arg
  pub arg_idx : ℕ

abbrev pub no_clause : Clause
no_clause = record { conditions = []; args = []; arg_idx = 1 }

abbrev pub states_of : List State → List Arg
states_of ss = map state_arg ss

abbrev pub texts_of : List String → List Arg
texts_of ts = map text_arg ts

-- The loop over the values of one filter: a placeholder and an argument for each.
abbrev pub numbers_from : ℕ → List Arg → List ℕ
numbers_from i [] = []
numbers_from i (v ∷ vs) = i ∷ numbers_from (suc i) vs

abbrev pub bind_args : List Arg → Clause → Clause
bind_args [] c = c
bind_args (v ∷ vs) c = bind_args vs (record c { args = c.args ++ v ∷ []; arg_idx = suc c.arg_idx })

abbrev pub add_condition : Condition → Clause → Clause
add_condition cond c = record c { conditions = c.conditions ++ cond ∷ [] }

abbrev pub one_of : (List ℕ → Condition) → List Arg → Clause → Clause
one_of make [] c = c
one_of make (v ∷ vs) c =
    add_condition (make (numbers_from c.arg_idx (v ∷ vs))) (bind_args (v ∷ vs) c)

abbrev pub search_for : String → Clause → Clause
search_for text c =
    if str_eq text ""
    then c
    else let pattern_arg : Arg = text_arg (text_append "%" (text_append text "%")) in
      bind_args (pattern_arg ∷ pattern_arg ∷ [])
        (add_condition (kind_or_uuid_like c.arg_idx (suc c.arg_idx)) c)

unfoldable pub with_tags : List String → Clause → Clause
with_tags [] c = c
with_tags (tag ∷ tags) c =
    with_tags tags (bind_args (text_arg tag ∷ []) (add_condition (tagged c.arg_idx) c))

unfoldable pub where_clause : JobFilter → Clause
unfolding with_tags
where_clause f = with_tags f.tags (
    search_for f.search (
      one_of kind_in (texts_of f.kinds)
        (one_of queue_in (texts_of f.queues) (one_of state_in (states_of f.states) no_clause))))

abbrev pub limit_or_fifty : ℤ → ℤ
limit_or_fifty limit = if leb_ℤ limit (pos 0) then pos 50 else limit

abbrev pub offset_or_start : ℤ → ℤ
offset_or_start offset = if ltb_ℤ offset (pos 0) then pos 0 else offset

abbrev pub allowed_order : List String
allowed_order =
    "id" ∷ "uuid" ∷ "queue" ∷ "kind" ∷ "state" ∷ "priority" ∷ "attempt" ∷ "scheduled_at"
    ∷ "created_at" ∷ "started_at" ∷ "completed_at" ∷ "finalized_at" ∷ []

-- SELECT … WHERE … ORDER BY … LIMIT … OFFSET …
pub record Query : Type 0 where
  pub conditions : List Condition
  pub order_column : String
  pub ascending : Bool
  pub limit_at : ℕ
  pub offset_at : ℕ
  pub args : List Arg

module _ (equal_fold : String → String → Bool) where
  unfoldable pub data_query : JobFilter → Query
  unfolding where_clause
  data_query f =
      let c = where_clause f in
      let allowed = any (λ column. str_eq column f.order_by) allowed_order in
      record {
        conditions = c.conditions;
        order_column = if allowed then f.order_by else "created_at";
        ascending = allowed && equal_fold f.order "asc";
        limit_at = c.arg_idx;
        offset_at = suc c.arg_idx;
        args =
            c.args
            ++ number_arg (limit_or_fifty f.limit) ∷ number_arg (offset_or_start f.offset) ∷ [];
      }

-- What the database makes of a query. `$1` is the first argument.
abbrev pub arg_at : ℕ → List Arg → Option Arg
arg_at i [] = none
arg_at zero (v ∷ vs) = none
arg_at (suc zero) (v ∷ vs) = some v
arg_at (suc (suc i)) (v ∷ vs) = arg_at (suc i) vs

abbrev pub is_state : State → Option Arg → Bool
is_state s (some (state_arg t)) = same t s
is_state s _ = false

abbrev pub is_text : String → Option Arg → Bool
is_text text (some (text_arg t)) = str_eq t text
is_text text _ = false

abbrev pub number_of : Option Arg → ℤ
number_of (some (number_arg n)) = n
number_of _ = pos 0

module _ (e : Engine) where
  abbrev pub is_like : String → Option Arg → Bool
  is_like text (some (text_arg t)) = e.ilike text t
  is_like text _ = false

  abbrev pub condition_holds : List Arg → JobRow → Condition → Bool
  condition_holds args r (state_in ns) = any (λ n. is_state r.state (arg_at n args)) ns
  condition_holds args r (queue_in ns) = any (λ n. is_text r.queue (arg_at n args)) ns
  condition_holds args r (kind_in ns) = any (λ n. is_text r.kind (arg_at n args)) ns
  condition_holds args r (kind_or_uuid_like n m) =
      is_like r.kind (arg_at n args) || is_like r.uuid (arg_at m args)
  condition_holds args r (tagged n) = any (λ tag. is_text tag (arg_at n args)) r.tags

  abbrev pub all_hold : List Arg → JobRow → List Condition → Bool
  all_hold args r [] = true
  all_hold args r (c ∷ cs) = condition_holds args r c && all_hold args r cs

  abbrev pub count_rows : Clause → Db → Result ℕ × Db
  count_rows c d = (ok (count (λ r. all_hold c.args r c.conditions) d.jobs), d)

  abbrev pub read_page : Query → List JobRow → List JobRow
  read_page q rows = take (pos_part (number_of (arg_at q.limit_at q.args))) (
      drop (pos_part (number_of (arg_at q.offset_at q.args))) (
        e.order_rows q.order_column q.ascending
          (select (λ r. all_hold q.args r q.conditions) rows)))

  unfoldable pub query_jobs : (String → String → Bool) → JobFilter → M (List JobRow × ℕ)
  unfolding data_query where_clause
  query_jobs equal_fold f = do
    total ← statement (count_rows (where_clause f))
    rows ← statement (λ d. (ok (read_page (data_query equal_fold f) d.jobs), d))
    pure (rows, total)
