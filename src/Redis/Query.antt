-- ===== src/Redis/Query.antt =====
-- QueryJobs of driver/redisdriver/driver.go. `Texts` is what it uses of the package strings, and
-- `decode` is json.Unmarshal of a document. The order of HVALS is the table's here; sort.SliceStable
-- is an insertion that puts a row before those that are not less.
use tasker.Base.{
  ℕ, ◌+◌, ◌-◌, ◌%◌, Option, none, some, modulus, of_word, Bool, true, false, ◌&&◌, ◌||◌, not, List,
  [], ◌∷◌, String, if◌then◌else◌, str_eq, ℤ, pos, negsuc, pos_part, ltb, leb, ltb_ℤ, leb_ℤ, eqb_ℤ,
  any, select, take, drop, length,
}
use tasker.Job.{State, state_text, JobRow, JobFilter}
use tasker.Sql.Store.{state_in}
use tasker.Sql.Statement.{Result, ok, err}
use tasker.Redis.Store.{Store, Sent, send}
use tasker.Redis.Claim.{decode_jobs}

-- strings.ToLower, strings.Contains(text, part) and strings.Compare.
pub record Texts : Type 0 where
  pub to_lower : String → String
  pub has_part : String → String → Bool
  pub compare_texts : String → String → ℤ

abbrev pub contains_text : List String → String → Bool
contains_text values value = any (λ candidate. str_eq candidate value) values

abbrev pub no_texts : List String → Bool
no_texts [] = true
no_texts (x ∷ xs) = false

abbrev pub no_states : List State → Bool
no_states [] = true
no_states (x ∷ xs) = false

-- The loop over the tags of the filter.
abbrev pub has_tags : List String → JobRow → Bool
has_tags [] job = true
has_tags (tag ∷ tags) job = contains_text job.tags tag && has_tags tags job

-- compare of two numbers, and Time.Compare.
abbrev pub compare_ids : ℕ → ℕ → ℤ
compare_ids a b = if ltb a b then negsuc 0 else (if ltb b a then pos 1 else pos 0)

abbrev pub compare_ints : ℤ → ℤ → ℤ
compare_ints a b = if ltb_ℤ a b then negsuc 0 else (if ltb_ℤ b a then pos 1 else pos 0)

module _ (t : Texts) where
  unfoldable pub matches_filter : JobFilter → JobRow → Bool
  matches_filter f job =
      if not (no_states f.states) && not (state_in f.states job)
      then false
      else (if not (no_texts f.queues) && not (contains_text f.queues job.queue)
          then false
          else (if not (no_texts f.kinds) && not (contains_text f.kinds job.kind)
              then false
              else (if not (has_tags f.tags job)
                  then false
                  else (str_eq (t.to_lower f.search) ""
                      || (t.has_part (t.to_lower job.kind) (t.to_lower f.search)
                          || t.has_part (t.to_lower job.uuid) (t.to_lower f.search))))))

  -- The comparison that is registered under the name; any other name is created_at.
  unfoldable pub compare_by : String → JobRow → JobRow → ℤ
  compare_by name a b =
      if str_eq name "id"
      then compare_ids a.id b.id
      else (if str_eq name "uuid"
          then t.compare_texts a.uuid b.uuid
          else (if str_eq name "queue"
              then t.compare_texts a.queue b.queue
              else (if str_eq name "kind"
                  then t.compare_texts a.kind b.kind
                  else (if str_eq name "state"
                      then t.compare_texts (state_text a.state) (state_text b.state)
                      else (if str_eq name "priority"
                          then compare_ints a.priority b.priority
                          else (if str_eq name "attempt"
                              then compare_ids a.attempt b.attempt
                              else (if str_eq name "scheduled_at"
                                  then compare_ints a.scheduled_at b.scheduled_at
                                  else compare_ints a.created_at b.created_at)))))))

  unfoldable pub is_less : String → String → JobRow → JobRow → Bool
  unfolding compare_by
  is_less order_by order a b =
      let result = compare_by order_by a b in
      let result' = if eqb_ℤ result (pos 0) then compare_ids a.id b.id else result in
      if not (str_eq (t.to_lower order) "asc") then ltb_ℤ (pos 0) result' else ltb_ℤ result' (pos 0)

  unfoldable pub insert_sorted : String → String → JobRow → List JobRow → List JobRow
  unfolding is_less
  insert_sorted order_by order a [] = a ∷ []
  insert_sorted order_by order a (b ∷ bs) =
      if is_less order_by order b a then b ∷ insert_sorted order_by order a bs else a ∷ b ∷ bs

  unfoldable pub sort_jobs : String → String → List JobRow → List JobRow
  unfolding insert_sorted
  sort_jobs order_by order [] = []
  sort_jobs order_by order (a ∷ bs) = insert_sorted order_by order a (sort_jobs order_by order bs)

abbrev pub or_fifty : ℤ → ℤ
or_fifty limit = if leb_ℤ limit (pos 0) then pos 50 else limit

abbrev pub or_start : ℤ → ℤ
or_start offset = if ltb_ℤ offset (pos 0) then pos 0 else offset

-- filtered[offset:end], where the end is not behind the list; `none` is a panic.
abbrev pub slice : ℕ → ℤ → List JobRow → Option (List JobRow)
slice start (negsuc n) rows = none
slice start (pos stop) rows =
    if ltb stop start then none else some (take (stop - start) (drop start rows))

-- Neither is negative here. The sum is one of 64-bit integers, and wraps.
unfoldable pub page_from : ℕ → ℕ → List JobRow → Option (List JobRow)
page_from limit offset rows =
    if leb (length rows) offset
    then some []
    else (let stop = of_word ((offset + limit) % modulus) in
        if ltb_ℤ (pos (length rows)) stop
        then slice offset (pos (length rows)) rows
        else slice offset stop rows)

unfoldable pub page_of : ℤ → ℤ → List JobRow → Option (List JobRow)
unfolding page_from
page_of limit offset rows = page_from (pos_part (or_fifty limit)) (pos_part (or_start offset)) rows

abbrev pub with_total : ℕ → Option (List JobRow) → Option (Result (List JobRow × ℕ))
with_total total none = none
with_total total (some page) = some (ok (page, total))

unfoldable pub page_and_total :
    Texts → JobFilter → Result (List JobRow) → Option (Result (List JobRow × ℕ))
unfolding matches_filter sort_jobs page_of
page_and_total t f (err e) = some (err e)
page_and_total t f (ok jobs) =
    let filtered = select (matches_filter t f) jobs in
    with_total (length filtered)
      (page_of f.limit f.offset (sort_jobs t f.order_by f.order filtered))

abbrev pub decode_values : (JobRow → Result JobRow) → Result (List JobRow) → Result (List JobRow)
decode_values decode (ok rows) = decode_jobs decode rows
decode_values decode (err e) = err e

-- allJobs, and the beginning of QueryJobs.
unfoldable pub all_jobs : (JobRow → Result JobRow) → Sent → Store → Result (List JobRow)
all_jobs decode sent s = decode_values decode (send sent (λ t. (ok t.jobs, t)) s).0

unfoldable pub query_jobs :
    Texts → (JobRow → Result JobRow) → Sent → JobFilter → Store → Option (Result (List JobRow × ℕ))
unfolding page_and_total all_jobs
query_jobs t decode sent f s = page_and_total t f (all_jobs decode sent s)
