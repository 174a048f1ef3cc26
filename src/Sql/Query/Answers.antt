-- ===== src/Sql/Query/Answers.antt =====
-- What QueryJobs of the SQL driver gives.
use tasker.Base.{
  ℕ, ◌≤◌, Bool, true, false, not, List, [], ◌∷◌, String, ◌≡◌, refl, sym, ap, subst, ◌∙◌, arith,
  length, length-take, append-nil, count, select, pos_part, All, All-imp, All-take, All-drop,
  Bool-cases, inl, inr, any, is_some, Option, none, some,
}
use tasker.Job.{JobRow, JobFilter, Error}
use tasker.Sql.Statement.{Result, ok, err, World, statement, ◌>>=◌}
use tasker.Sql.Store.{Db}
use tasker.Sql.Query.{
  Engine, Query, all_hold, read_page, limit_or_fifty, arg_at, number_of, where_clause, data_query,
  query_jobs, number_arg,
}
use tasker.Sql.Query.Meaning.{Alike, where_clause-matches, arg_at-append}
use tasker.Sql.Query.Placeholders.{where_clause-IsNumbered}
use tasker.Redis.Query.{Texts, matches_filter}
use tasker.Redis.Pages.{Answers}

module _ {ℓ} {A : Type ℓ} where
  count-same : (p q : A → Bool) → ((x : A) → p x ≡ q x) → (xs : List A) → count p xs ≡ count q xs
  count-same p q h [] = refl
  count-same p q h (x ∷ xs) = ground (arith, h x, count-same p q h xs)

  -- What no row fails, all rows meet.
  All-of_none :
      (p : A → Bool) (xs : List A) → count (λ x. not (p x)) xs ≡ 0 → All (λ x. p x ≡ true) xs
  All-of_none p [] h = tt
  All-of_none p (x ∷ xs) h = elim (Bool-cases (p x)) [
    | inl e ↦ (e, All-of_none p xs (ground arith))
    | inr e ↦ let never : false ≡ true = ground arith in cc
  ]

  select-none : (p : A → Bool) (xs : List A) → count (λ x. not (p x)) (select p xs) ≡ 0
  select-none p [] = refl
  select-none p (x ∷ xs) = ground (arith, select-none p xs)

abbrev pub Kept : Texts → JobFilter → World → Result (List JobRow × ℕ) × World → Type 0
Kept t f w (ok a, v) = (v.db ≡ w.db) × Answers t f w.db.jobs a
Kept t f w (err x, v) = (v.db ≡ w.db) × (any is_some w.faults ≡ true)

module _ (e : Engine) (t : Texts) (f : JobFilter) (alike : Alike e t f.search)
    (equal_fold : String → String → Bool) where
  abbrev query : Query
  query = data_query equal_fold f

  limit_is : number_of (arg_at query.limit_at query.args) ≡ limit_or_fifty f.limit
  unfolding data_query
  limit_is =
      let n = where_clause-IsNumbered f in
      ap number_of (
        arg_at-append (where_clause f).args (number_arg (limit_or_fifty f.limit) ∷ _ ∷ []) 0
          (where_clause f).arg_idx (omega (arith, n.next_idx)))

  holds-eq : (r : JobRow) → all_hold e query.args r query.conditions ≡ matches_filter t f r
  unfolding data_query
  holds-eq r = where_clause-matches e t f alike r _

  counted-eq :
      (r : JobRow)
      → all_hold e (where_clause f).args r (where_clause f).conditions ≡ matches_filter t f r
  counted-eq r =
      ap (λ (l : _). all_hold e l r (where_clause f).conditions)
        (sym (append-nil (where_clause f).args))
      ∙ where_clause-matches e t f alike r []

  page-matches :
      (rows : List JobRow) → All (λ r. matches_filter t f r ≡ true) (read_page e query rows)
  page-matches rows =
      let found = select (λ r. all_hold e query.args r query.conditions) rows in
      let ordered = e.order_rows query.order_column query.ascending found in
      let none_fails : count (λ r. not (all_hold e query.args r query.conditions)) ordered ≡ 0 =
        e.order_keeps query.order_column query.ascending _ found
        ∙ select-none (λ r. all_hold e query.args r query.conditions) rows in
      All-take _ _ _ (
        All-drop _ _ _ (
          All-imp _ _ (λ r h. sym (holds-eq r) ∙ h) ordered
            (All-of_none (λ r. all_hold e query.args r query.conditions) ordered none_fails)))

  page-Answers :
      (jobs : List JobRow)
      → Answers t f jobs (
        read_page e query jobs,
        count (λ r. all_hold e (where_clause f).args r (where_clause f).conditions) jobs,
      )
  page-Answers jobs = (
    count-same _ _ counted-eq jobs,
    subst (λ (n : _). length (read_page e query jobs) ≤ pos_part n) limit_is (length-take _ _),
    page-matches jobs,
  )

  Kept-of :
      (d : Db) (fs : List (Option Error))
      → Kept t f
          (record { db = d; faults = fs })
          (query_jobs e equal_fold f (record { db = d; faults = fs }))
  unfolding query_jobs ◌>>=◌ statement
  Kept-of d [] = (refl, page-Answers d.jobs)
  Kept-of d (some x ∷ fs) = (refl, refl)
  Kept-of d (none ∷ []) = (refl, page-Answers d.jobs)
  Kept-of d (none ∷ some x ∷ fs) = (refl, refl)
  Kept-of d (none ∷ none ∷ fs) = (refl, page-Answers d.jobs)

  -- QueryJobs of the SQL driver changes nothing, and keeps the contract of the Redis driver's where
  -- ILIKE with the pattern of the search finds what that driver finds in lower case: the total is
  -- the number of jobs of the table that its filter matches, and the page holds matching jobs only,
  -- no more than the limit, or 50 where that is not positive; or it returns an error, which it does
  -- only if a statement fails.
  pub query_jobs_contract : (w : World) → Kept t f w (query_jobs e equal_fold f w)
  query_jobs_contract w = Kept-of w.db w.faults
