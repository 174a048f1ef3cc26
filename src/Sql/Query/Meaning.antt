-- ===== src/Sql/Query/Meaning.antt =====
-- What the query that QueryJobs builds means: the same jobs as the Redis driver selects.
use tasker.Base.{
  ℕ, suc, ◌+◌, Bool, true, false, ◌&&◌, ◌||◌, not, Option, some, List, [], ◌∷◌, ◌++◌, String, ◌≡◌,
  refl, sym, ap, subst, ◌∙◌, arith, length, length-append, append_assoc, str_eq, text_append,
  Bool-cases, inl, inr, any, eq_iff, if◌then◌else◌,
}
use tasker.Job.{State, same, JobRow, JobFilter}
use tasker.Sql.Store.{state_in as in_states}
use tasker.Sql.Query.{
  Engine, Arg, text_arg, Condition, state_in, queue_in, kind_in, kind_or_uuid_like, tagged, Clause,
  numbers_from, one_of, search_for, with_tags, where_clause, no_clause, states_of, texts_of, arg_at,
  is_state, is_text, condition_holds, all_hold,
}
use tasker.Sql.Query.Placeholders.{Grows, bind_after-Grows, bind_before-Grows}
use tasker.Redis.Query.{Texts, matches_filter, has_tags, contains_text, no_texts, no_states}

-- The arguments of a clause stand after those that were bound before.
pub arg_at-append :
    (xs ys : List Arg) (i k : ℕ) → k ≡ length xs + suc i → arg_at k (xs ++ ys) ≡ arg_at (suc i) ys
arg_at-append [] ys i k h = ap (λ (n : ℕ). arg_at n ys) (omega arith)
arg_at-append (x ∷ xs) ys i k h =
    let e : k ≡ suc (suc (length xs + i)) = omega arith in
    rw e (arg_at-append xs ys i (suc (length xs + i)) (omega arith))

any-bound :
    (test : Option Arg → Bool) (xs vs rest : List Arg) (i : ℕ)
    → i ≡ suc (length xs)
    → any (λ n. test (arg_at n (xs ++ (vs ++ rest)))) (numbers_from i vs)
      ≡ any (λ v. test (some v)) vs
any-bound test xs [] rest i h = refl
any-bound test xs (v ∷ vs) rest i h =
    let here : arg_at i (xs ++ (v ∷ (vs ++ rest))) ≡ some v =
      arg_at-append xs (v ∷ (vs ++ rest)) 0 i (omega arith) in
    let there =
      ap (λ (l : List Arg). any (λ n. test (arg_at n l)) (numbers_from (suc i) vs))
        (sym (append_assoc xs (v ∷ []) (vs ++ rest)))
      ∙ any-bound test (xs ++ v ∷ []) vs rest (suc i) (omega (arith, length-append xs (v ∷ []))) in
    rw here (ap (λ (b : Bool). if test (some v) then true else b) there)

and_true : (b : Bool) → (b && true) ≡ b
and_true true = refl
and_true false = refl

and_assoc : (a b c : Bool) → (a && b && c) ≡ (a && (b && c))
and_assoc true b c = refl
and_assoc false b c = refl

str_eq_comm : (a b : String) → str_eq a b ≡ str_eq b a
str_eq_comm a b = ground (arith, eq_iff a b, eq_iff b a)

any-flipped :
    (tag : String) (tags : List String)
    → any (λ t. is_text t (some (text_arg tag))) tags ≡ contains_text tags tag
any-flipped tag [] = refl
any-flipped tag (t ∷ tags) =
    rw (str_eq_comm tag t)
      (ap (λ (b : Bool). if str_eq t tag then true else b) (any-flipped tag tags))

module _ (e : Engine) (r : JobRow) where
  all_hold-append :
      (args : List Arg) (cs : List Condition) (c : Condition)
      → all_hold e args r (cs ++ c ∷ []) ≡ (all_hold e args r cs && condition_holds e args r c)
  all_hold-append args [] c = and_true (condition_holds e args r c)
  all_hold-append args (b ∷ cs) c =
      ap (λ (x : Bool). condition_holds e args r b && x) (all_hold-append args cs c)
      ∙ sym (
          and_assoc (condition_holds e args r b) (all_hold e args r cs)
            (condition_holds e args r c))

  -- The clause, with any arguments after its own, has the value v on the row.
  record Means (v : Bool) (c : Clause) : Type 0 where
    pub next_idx : c.arg_idx ≡ suc (length c.args)
    pub says : (rest : List Arg) → all_hold e (c.args ++ rest) r c.conditions ≡ v

  Grows-Means :
      (cond : Condition) (vs : List Arg) (c c' : Clause) (v x : Bool)
      → Grows cond vs c c'
      → ((xs rest : List Arg)
          → c.arg_idx ≡ suc (length xs)
          → condition_holds e (xs ++ (vs ++ rest)) r cond ≡ x)
      → Means v c
      → Means (v && x) c'
  Grows-Means cond vs c c' v x g says_x m = record {
    next_idx =
        omega (arith, g.idx_grows, m.next_idx, ap length g.args_grow, length-append c.args vs);
    says = λ rest.
        ap (λ (l : List Arg). all_hold e (l ++ rest) r c'.conditions) g.args_grow
        ∙ ap (λ (l : List Arg). all_hold e l r c'.conditions) (append_assoc c.args vs rest)
        ∙ ap (all_hold e (c.args ++ (vs ++ rest)) r) g.conditions_grow
        ∙ all_hold-append (c.args ++ (vs ++ rest)) c.conditions cond
        ∙ ap (λ (b : Bool). b && condition_holds e (c.args ++ (vs ++ rest)) r cond)
            (m.says (vs ++ rest))
        ∙ ap (λ (b : Bool). v && b) (says_x c.args rest m.next_idx);
  }

  and_then_one : (b : Bool) → b ≡ (b && true)
  and_then_one b = sym (and_true b)

  -- What an IN list of one column says; an empty one is left out.
  abbrev says_one : (Option Arg → Bool) → List Arg → Bool
  says_one test [] = true
  says_one test (a ∷ vs) = any (λ w. test (some w)) (a ∷ vs)

  one_of-Means :
      (make : List ℕ → Condition) (test : Option Arg → Bool) (vs : List Arg) (c : Clause) (v : Bool)
      → ((args : List Arg) (ns : List ℕ)
          → condition_holds e args r (make ns) ≡ any (λ n. test (arg_at n args)) ns)
      → Means v c
      → Means (v && says_one test vs) (one_of make vs c)
  one_of-Means make test [] c v reads m = record {
    next_idx = m.next_idx;
    says = λ rest. m.says rest ∙ and_then_one v;
  }
  one_of-Means make test (a ∷ vs) c v reads m =
      Grows-Means _ (a ∷ vs) c _ v _ (bind_before-Grows _ (a ∷ vs) c)
        (λ xs rest h.
          reads (xs ++ (a ∷ (vs ++ rest))) (numbers_from c.arg_idx (a ∷ vs))
          ∙ any-bound test xs (a ∷ vs) rest c.arg_idx h)
        m

  tagged-says :
      (tag : String) (i : ℕ) (xs rest : List Arg)
      → i ≡ suc (length xs)
      → condition_holds e (xs ++ (text_arg tag ∷ rest)) r (tagged i) ≡ contains_text r.tags tag
  tagged-says tag i xs rest h =
      let here : arg_at i (xs ++ (text_arg tag ∷ rest)) ≡ some (text_arg tag) =
        arg_at-append xs (text_arg tag ∷ rest) 0 i (omega arith) in
      rw here (any-flipped tag r.tags)

  with_tags-Means :
      (tags : List String) (c : Clause) (v : Bool)
      → Means v c
      → Means (v && has_tags tags r) (with_tags tags c)
  unfolding with_tags
  with_tags-Means [] c v m = record {
    next_idx = m.next_idx;
    says = λ rest. m.says rest ∙ and_then_one v;
  }
  with_tags-Means (tag ∷ tags) c v m =
      subst (λ b. Means b (with_tags (tag ∷ tags) c))
        (and_assoc v (contains_text r.tags tag) (has_tags tags r))
        (with_tags-Means tags _ (v && contains_text r.tags tag) (
          Grows-Means (tagged c.arg_idx) (text_arg tag ∷ []) c _ v (contains_text r.tags tag)
            (bind_after-Grows (tagged c.arg_idx) (text_arg tag ∷ []) c)
            (λ xs rest h. tagged-says tag c.arg_idx xs rest h) m))

  -- The pattern of the search, on the kind and on the uuid.
  abbrev says_search : String → Bool
  says_search text =
      str_eq text ""
      || (e.ilike r.kind (text_append "%" (text_append text "%"))
          || e.ilike r.uuid (text_append "%" (text_append text "%")))

  search-says :
      (a : String) (i : ℕ) (xs rest : List Arg)
      → i ≡ suc (length xs)
      → condition_holds e (xs ++ (text_arg a ∷ text_arg a ∷ rest)) r (kind_or_uuid_like i (suc i))
        ≡ (e.ilike r.kind a || e.ilike r.uuid a)
  search-says a i xs rest h =
      let args : List Arg = text_arg a ∷ text_arg a ∷ rest in
      let first : arg_at i (xs ++ args) ≡ some (text_arg a) =
        arg_at-append xs args 0 i (omega arith) in
      let second : arg_at (suc i) (xs ++ args) ≡ some (text_arg a) =
        arg_at-append xs args 1 (suc i) (omega arith) in
      rw first (rw second refl)

  search_for-Means :
      (text : String) (c : Clause) (v : Bool)
      → Means v c
      → Means (v && says_search text) (search_for text c)
  search_for-Means text c v m = elim (Bool-cases (str_eq text "")) [
    | inl none_asked ↦
        rw none_asked
          (record { next_idx = m.next_idx; says = λ rest. m.says rest ∙ and_then_one v })
    | inr asked ↦ rw asked (
        Grows-Means _ _ c _ v _ (bind_after-Grows _ (_ ∷ _ ∷ []) c)
          (λ xs rest h. search-says _ c.arg_idx xs rest h) m)
  ]

  says_states :
      (ss : List State)
      → says_one (is_state r.state) (states_of ss) ≡ (no_states ss || in_states ss r)
  says_states [] = refl
  says_states (s ∷ ss) = go (s ∷ ss)
    where
      go : (ss : List State) → any (λ w. is_state r.state (some w)) (states_of ss) ≡ in_states ss r
      go [] = refl
      go (s ∷ ss) = ap (λ (b : Bool). if same s r.state then true else b) (go ss)

  says_texts :
      (text : String) (ts : List String)
      → says_one (is_text text) (texts_of ts) ≡ (no_texts ts || contains_text ts text)
  says_texts text [] = refl
  says_texts text (t ∷ ts) = go (t ∷ ts)
    where
      go :
          (ts : List String)
          → any (λ w. is_text text (some w)) (texts_of ts) ≡ contains_text ts text
      go [] = refl
      go (t ∷ ts) = ap (λ (b : Bool). if str_eq t text then true else b) (go ts)

  abbrev clause_value : JobFilter → Bool
  clause_value f =
      true
      && says_one (is_state r.state) (states_of f.states)
      && says_one (is_text r.queue) (texts_of f.queues)
      && says_one (is_text r.kind) (texts_of f.kinds)
      && says_search f.search
      && has_tags f.tags r

  where_clause-Means : (f : JobFilter) → Means (clause_value f) (where_clause f)
  unfolding where_clause
  where_clause-Means f = with_tags-Means f.tags _ _ (
      search_for-Means f.search _ _ (
        one_of-Means kind_in (is_text r.kind) (texts_of f.kinds) _ _ (λ args ns. refl)
          (one_of-Means queue_in (is_text r.queue) (texts_of f.queues) _ _ (λ args ns. refl)
            (one_of-Means state_in (is_state r.state) (states_of f.states) no_clause true
              (λ args ns. refl) (record { next_idx = refl; says = λ rest. refl })))))

-- What ILIKE of the engine and the texts of the other driver have to do with each other.
pub record Alike (e : Engine) (t : Texts) (search : String) : Type 0 where
  pub same_empty : str_eq search "" ≡ str_eq (t.to_lower search) ""
  pub same_part :
      (text : String)
      → e.ilike text (text_append "%" (text_append search "%"))
        ≡ t.has_part (t.to_lower text) (t.to_lower search)

nested :
    (n i m j l k s g : Bool)
    → (true && (n || i) && (m || j) && (l || k) && s && g) ≡ (
        if not n && not i
        then false
        else (if not m && not j
            then false
            else (if not l && not k then false else (if not g then false else s))))
nested n i m j l k s g = ground arith

module _ (e : Engine) (t : Texts) (f : JobFilter) (alike : Alike e t f.search) where
  says_search-eq :
      (r : JobRow)
      → says_search e r f.search ≡ (
          str_eq (t.to_lower f.search) ""
          || (t.has_part (t.to_lower r.kind) (t.to_lower f.search)
              || t.has_part (t.to_lower r.uuid) (t.to_lower f.search)))
  says_search-eq r = cc (alike.same_empty, alike.same_part r.kind, alike.same_part r.uuid)

  clause_value-eq : (r : JobRow) → clause_value e r f ≡ matches_filter t f r
  unfolding matches_filter
  clause_value-eq r = cc (
    says_states e r f.states,
    says_texts e r r.queue f.queues,
    says_texts e r r.kind f.kinds,
    says_search-eq r,
    nested (no_states f.states) (in_states f.states r) (no_texts f.queues)
        (contains_text f.queues r.queue) (no_texts f.kinds) (contains_text f.kinds r.kind)
        (says_search e r f.search) (has_tags f.tags r),
  )

  -- The WHERE clause that QueryJobs of the SQL driver builds, with its placeholders bound to its
  -- arguments and to any after them, holds of exactly the jobs that the filter of the Redis driver
  -- matches, where ILIKE with the pattern finds what that driver finds in lower case.
  pub where_clause-matches :
      (r : JobRow) (more : List Arg)
      → all_hold e ((where_clause f).args ++ more) r (where_clause f).conditions
        ≡ matches_filter t f r
  where_clause-matches r more = (where_clause-Means e r f).says more ∙ clause_value-eq r
