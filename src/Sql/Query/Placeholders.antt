-- ===== src/Sql/Query/Placeholders.antt =====
-- The placeholders of the query that QueryJobs builds, in the order in which they stand in it.
use tasker.Base.{
  ℕ, suc, ◌+◌, List, [], ◌∷◌, ◌++◌, String, ◌≡◌, refl, sym, ap, ◌∙◌, arith, length, length-append,
  append_assoc, append-nil, str_eq, Bool-cases, inl, inr, Bool,
}
use tasker.Job.{JobFilter}
use tasker.Sql.Query.{
  Arg, text_arg, Condition, state_in, queue_in, kind_in, kind_or_uuid_like, tagged, Clause,
  numbers_from, bind_args, add_condition, one_of, search_for, with_tags, where_clause, no_clause,
  Query, data_query, states_of, texts_of,
}

-- The condition, with its arguments, is what c' has more than c.
pub record Grows (cond : Condition) (vs : List Arg) (c c' : Clause) : Type 0 where
  pub conditions_grow : c'.conditions ≡ c.conditions ++ cond ∷ []
  pub args_grow : c'.args ≡ c.args ++ vs
  pub idx_grows : c'.arg_idx ≡ c.arg_idx + length vs

bind_args-args : (vs : List Arg) (c : Clause) → (bind_args vs c).args ≡ c.args ++ vs
bind_args-args [] c = sym (append-nil c.args)
bind_args-args (v ∷ vs) c = bind_args-args vs _ ∙ append_assoc c.args (v ∷ []) vs

bind_args-conditions : (vs : List Arg) (c : Clause) → (bind_args vs c).conditions ≡ c.conditions
bind_args-conditions [] c = refl
bind_args-conditions (v ∷ vs) c = bind_args-conditions vs _

bind_args-arg_idx : (vs : List Arg) (c : Clause) → (bind_args vs c).arg_idx ≡ c.arg_idx + length vs
bind_args-arg_idx [] c = omega arith
bind_args-arg_idx (v ∷ vs) c =
    omega
      (arith, bind_args-arg_idx vs (record c { args = c.args ++ v ∷ []; arg_idx = suc c.arg_idx }))

pub bind_after-Grows :
    (cond : Condition) (vs : List Arg) (c : Clause)
    → Grows cond vs c (bind_args vs (add_condition cond c))
bind_after-Grows cond vs c = record {
  conditions_grow = bind_args-conditions vs (add_condition cond c);
  args_grow = bind_args-args vs (add_condition cond c);
  idx_grows = bind_args-arg_idx vs (add_condition cond c);
}

pub bind_before-Grows :
    (cond : Condition) (vs : List Arg) (c : Clause)
    → Grows cond vs c (add_condition cond (bind_args vs c))
bind_before-Grows cond vs c = record {
  conditions_grow = ap (λ (l : List Condition). l ++ cond ∷ []) (bind_args-conditions vs c);
  args_grow = bind_args-args vs c;
  idx_grows = bind_args-arg_idx vs c;
}

abbrev pub numbers_of : Condition → List ℕ
numbers_of (state_in ns) = ns
numbers_of (queue_in ns) = ns
numbers_of (kind_in ns) = ns
numbers_of (kind_or_uuid_like n m) = n ∷ m ∷ []
numbers_of (tagged n) = n ∷ []

abbrev pub placeholders : List Condition → List ℕ
placeholders [] = []
placeholders (c ∷ cs) = numbers_of c ++ placeholders cs

abbrev pub query_placeholders : Query → List ℕ
query_placeholders q = placeholders q.conditions ++ q.limit_at ∷ q.offset_at ∷ []

placeholders-append :
    (cs ds : List Condition) → placeholders (cs ++ ds) ≡ placeholders cs ++ placeholders ds
placeholders-append [] ds = refl
placeholders-append (c ∷ cs) ds =
    ap (λ (l : List ℕ). numbers_of c ++ l) (placeholders-append cs ds)
    ∙ sym (append_assoc (numbers_of c) (placeholders cs) (placeholders ds))

numbers_from-append :
    (i : ℕ) (vs ws : List Arg)
    → numbers_from i (vs ++ ws) ≡ numbers_from i vs ++ numbers_from (i + length vs) ws
numbers_from-append i [] ws = ap (λ (k : ℕ). numbers_from k ws) (omega arith)
numbers_from-append i (v ∷ vs) ws =
    ap (λ (l : List ℕ). i ∷ l)
      (numbers_from-append (suc i) vs ws
        ∙ ap (λ (k : ℕ). numbers_from (suc i) vs ++ numbers_from k ws) (omega arith))

pub record IsNumbered (c : Clause) : Type 0 where
  pub in_order : placeholders c.conditions ≡ numbers_from 1 c.args
  pub next_idx : c.arg_idx ≡ 1 + length c.args

Grows-IsNumbered :
    (cond : Condition) (vs : List Arg) (c c' : Clause)
    → Grows cond vs c c'
    → numbers_of cond ≡ numbers_from c.arg_idx vs
    → IsNumbered c
    → IsNumbered c'
Grows-IsNumbered cond vs c c' g fits n = record {
  in_order =
      ap placeholders g.conditions_grow
      ∙ placeholders-append c.conditions (cond ∷ [])
      ∙ ap (λ (l : List ℕ). placeholders c.conditions ++ l) (append-nil (numbers_of cond) ∙ fits)
      ∙ ap (λ (l : List ℕ). l ++ numbers_from c.arg_idx vs) n.in_order
      ∙ ap (λ (k : ℕ). numbers_from 1 c.args ++ numbers_from k vs) n.next_idx
      ∙ sym (numbers_from-append 1 c.args vs)
      ∙ ap (numbers_from 1) (sym g.args_grow);
  next_idx = omega (arith, g.idx_grows, n.next_idx, ap length g.args_grow, length-append c.args vs);
}

one_of-IsNumbered :
    (make : List ℕ → Condition) (vs : List Arg) (c : Clause)
    → ((ns : List ℕ) → numbers_of (make ns) ≡ ns)
    → IsNumbered c
    → IsNumbered (one_of make vs c)
one_of-IsNumbered make [] c plain n = n
one_of-IsNumbered make (v ∷ vs) c plain n =
    Grows-IsNumbered _ (v ∷ vs) c _ (bind_before-Grows _ (v ∷ vs) c) (plain _) n

search_for-IsNumbered : (text : String) (c : Clause) → IsNumbered c → IsNumbered (search_for text c)
search_for-IsNumbered text c n = elim (Bool-cases (str_eq text "")) [
  | inl e ↦ rw e n
  | inr e ↦ rw e (Grows-IsNumbered _ _ c _ (bind_after-Grows _ (_ ∷ _ ∷ []) c) refl n)
]

with_tags-IsNumbered :
    (tags : List String) (c : Clause) → IsNumbered c → IsNumbered (with_tags tags c)
unfolding with_tags
with_tags-IsNumbered [] c n = n
with_tags-IsNumbered (tag ∷ tags) c n =
    with_tags-IsNumbered tags _
      (Grows-IsNumbered _ _ c _ (bind_after-Grows (tagged c.arg_idx) (text_arg tag ∷ []) c) refl n)

pub where_clause-IsNumbered : (f : JobFilter) → IsNumbered (where_clause f)
unfolding where_clause
where_clause-IsNumbered f = with_tags-IsNumbered f.tags _ (
    search_for-IsNumbered f.search _ (
      one_of-IsNumbered kind_in (texts_of f.kinds) _ (λ ns. refl)
        (one_of-IsNumbered queue_in (texts_of f.queues) _ (λ ns. refl)
          (one_of-IsNumbered state_in (states_of f.states) no_clause (λ ns. refl)
            (record { in_order = refl; next_idx = refl })))))

with_page :
    (c : Clause) (a b : Arg)
    → IsNumbered c
    → placeholders c.conditions ++ c.arg_idx ∷ suc c.arg_idx ∷ []
      ≡ numbers_from 1 (c.args ++ a ∷ b ∷ [])
with_page c a b n =
    ap (λ (l : List ℕ). l ++ c.arg_idx ∷ suc c.arg_idx ∷ []) n.in_order
    ∙ ap (λ (k : ℕ). numbers_from 1 c.args ++ k ∷ suc k ∷ []) n.next_idx
    ∙ sym (numbers_from-append 1 c.args (a ∷ b ∷ []))

-- The placeholders of the query that QueryJobs builds are numbered from 1 in the order in which
-- they stand in the text, one for each argument: a dialect that goes by position binds the same
-- arguments to them as one that goes by number.
pub data_query-numbered :
    (equal_fold : String → String → Bool) (f : JobFilter)
    → let q = data_query equal_fold f in query_placeholders q ≡ numbers_from 1 q.args
unfolding data_query
data_query-numbered equal_fold f = with_page (where_clause f) _ _ (where_clause-IsNumbered f)
