-- ===== src/Redis/Pages.antt =====
-- What QueryJobs of the Redis driver gives: pages of the matching jobs.
use tasker.Base.{
  ◌^◌, ◌%◌, Option, none, some, modulus, of_word, ℤ, negsuc, ltb_ℤ, ltb_ℤ→<, if◌then◌else◌, ◌≢◌,
  if-rule, ℕ, ◌+◌, ◌-◌, ◌≤◌, ◌<◌, Bool, true, false, List, [], ◌∷◌, ◌++◌, String, ◌≡◌, refl, sym,
  ◌∙◌, ap, subst, arith, pos, pos_part, leb, ltb, take, drop, length, count, select, zero, suc, All,
  All-take, All-drop, length-take, All-if, leb→le, ltb→lt, Bool-cases, inl, inr,
}
use tasker.Job.{JobRow, JobFilter}
use tasker.Sql.Statement.{Result, ok, err}
use tasker.Redis.Store.{Store, Sent}
use tasker.Redis.Query.{
  Texts, matches_filter, is_less, insert_sorted, sort_jobs, or_fifty, or_start, slice, page_of,
  page_from, page_and_total, with_total, all_jobs, query_jobs,
}

plus_zero : (m : ℕ) → m ≡ 0 + m
plus_zero m = omega arith

minus_same : (o n : ℕ) → o + n - o ≡ n
minus_same o n = omega arith

plus_suc : (n m : ℕ) → suc (n + m) ≡ suc n + m
plus_suc n m = omega arith

module _ {ℓ} {A : Type ℓ} where
  length-drop : (n : ℕ) (xs : List A) → length (drop n xs) ≡ length xs - n
  length-drop zero xs = omega arith
  length-drop (suc n) [] = omega arith
  length-drop (suc n) (x ∷ xs) = omega (arith, length-drop n xs)

  take_long : (n : ℕ) (xs : List A) → length xs ≤ n → take n xs ≡ xs
  take_long zero [] h = refl
  take_long zero (x ∷ xs) h = ground arith
  take_long (suc n) [] h = refl
  take_long (suc n) (x ∷ xs) h = cc (take_long n xs (omega arith))

  drop_long : (n : ℕ) (xs : List A) → length xs ≤ n → drop n xs ≡ []
  drop_long zero [] h = refl
  drop_long zero (x ∷ xs) h = ground arith
  drop_long (suc n) [] h = refl
  drop_long (suc n) (x ∷ xs) h = drop_long n xs (omega arith)

  take_nil : (n : ℕ) → ◌≡◌ {A = List A} (take n []) []
  take_nil zero = refl
  take_nil (suc n) = refl

  -- Consecutive pieces of a list.
  take_next : (n m : ℕ) (xs : List A) → take n xs ++ take m (drop n xs) ≡ take (n + m) xs
  take_next zero m xs = ap (λ (k : ℕ). take k xs) (plus_zero m)
  take_next (suc n) m [] = take_nil m ∙ sym (take_nil (suc n + m))
  take_next (suc n) m (x ∷ xs) =
      ap (λ (l : List A). x ∷ l) (take_next n m xs) ∙ ap (λ (k : ℕ). take k (x ∷ xs)) (plus_suc n m)

  drop_nil : (n : ℕ) → ◌≡◌ {A = List A} (drop n []) []
  drop_nil zero = refl
  drop_nil (suc n) = refl

  drop-drop : (o n : ℕ) (xs : List A) → drop n (drop o xs) ≡ drop (o + n) xs
  drop-drop zero n xs = ap (λ (k : ℕ). drop k xs) (plus_zero n)
  drop-drop (suc o) n [] = drop_nil n ∙ sym (drop_nil (suc o + n))
  drop-drop (suc o) n (x ∷ xs) = drop-drop o n xs ∙ ap (λ (k : ℕ). drop k (x ∷ xs)) (plus_suc o n)

-- The sum of an offset and a limit, as an int.
fits : (x : ℕ) → x < 2 ^ 63 → of_word (x % modulus) ≡ pos x
unfolding of_word
fits x h = grind arith

-- A sum that wraps is not larger.
abbrev NoMore : ℕ → ℤ → Type 0
NoMore x (pos s) = s ≤ x
NoMore x (negsuc k) = Unit

wraps : (x : ℕ) → NoMore x (of_word (x % modulus))
unfolding of_word
wraps x = if-rule (NoMore x) (ltb (x % modulus) (2 ^ 63)) _ _ (λ e. omega arith) (λ e. tt)

module _ (o : ℕ) (rows : List JobRow) where
  -- The rest of page_from, with the end of the page.
  abbrev up_to_end : ℤ → Option (List JobRow)
  up_to_end stop =
      if ltb_ℤ (pos (length rows)) stop then slice o (pos (length rows)) rows else slice o stop rows

  slice-plain : (k : ℕ) → o ≤ k → slice o (pos k) rows ≡ some (take (k - o) (drop o rows))
  slice-plain k h =
      if-rule (λ (r : Option (List JobRow)). r ≡ some (take (k - o) (drop o rows))) (ltb k o) _ _
        (λ e. absurd (omega (arith, ltb→lt k o e))) (λ e. refl)

  plain_end : (n : ℕ) → o ≤ length rows → up_to_end (pos (o + n)) ≡ some (take n (drop o rows))
  plain_end n here =
      if-rule (λ (r : Option (List JobRow)). r ≡ some (take n (drop o rows)))
        (ltb_ℤ (pos (length rows)) (pos (o + n))) _ _
        (λ short.
          slice-plain (length rows) here
          ∙ ap some (
              take_long (length rows - o) (drop o rows) (omega (arith, length-drop o rows))
              ∙ sym (
                  take_long n (drop o rows) (
                    omega (
                      arith,
                      length-drop o rows,
                      ltb_ℤ→< (pos (length rows)) (pos (o + n)) short,
                    )))))
        (λ full.
          slice-plain (o + n) (omega arith)
          ∙ ap (λ (k : ℕ). some (take k (drop o rows))) (minus_same o n))

  slice-part :
      (n : ℕ) (stop : ℤ) (page : List JobRow)
      → NoMore (o + n) stop
      → slice o stop rows ≡ some page
      → (k : ℕ) × (k ≤ n) × (page ≡ take k (drop o rows))
  slice-part n (negsuc x) page small h = cc
  slice-part n (pos stop) page small h = elim (Bool-cases (ltb stop o)) [
    | inl before ↦ let never : none ≡ some page = rw before at h in cc
    | inr after ↦
        let same : some (take (stop - o) (drop o rows)) ≡ some page = rw after at h in
        (stop - o, omega arith, cc)
  ]

  part_end :
      (n : ℕ) (stop : ℤ) (page : List JobRow)
      → NoMore (o + n) stop
      → up_to_end stop ≡ some page
      → (k : ℕ) × (k ≤ n) × (page ≡ take k (drop o rows))
  part_end n (negsuc x) page small h = elim (Bool-cases (ltb_ℤ (pos (length rows)) (negsuc x))) [
    | inl short ↦ absurd (omega (arith, ltb_ℤ→< (pos (length rows)) (negsuc x) short))
    | inr full ↦ slice-part n (negsuc x) page small (ground arith)
  ]
  part_end n (pos stop) page small h = elim (Bool-cases (ltb_ℤ (pos (length rows)) (pos stop))) [
    | inl short ↦
        slice-part n (pos (length rows)) page
          (omega (arith, small, ltb_ℤ→< (pos (length rows)) (pos stop) short)) (ground arith)
    | inr full ↦ slice-part n (pos stop) page small (ground arith)
  ]

-- A page is what a limit and an offset say, where their sum is an int.
page_from_plain :
    (n o : ℕ) (rows : List JobRow)
    → o + n < 2 ^ 63
    → page_from n o rows ≡ some (take n (drop o rows))
unfolding page_from
page_from_plain n o rows small =
    if-rule (λ (r : Option (List JobRow)). r ≡ some (take n (drop o rows))) (leb (length rows) o) _
      _
      (λ past. ap some (
        sym (
          ap (λ (l : List JobRow). take n l) (drop_long o rows (leb→le (length rows) o past))
          ∙ take_nil n)))
      (λ here. ap (up_to_end o rows) (fits (o + n) small) ∙ plain_end o rows n (ground arith))

-- Any page is at most as long as the limit.
page_from_part :
    (n o : ℕ) (rows page : List JobRow)
    → page_from n o rows ≡ some page
    → (k : ℕ) × (k ≤ n) × (page ≡ take k (drop o rows))
unfolding page_from
page_from_part n o rows page h = elim (Bool-cases (leb (length rows) o)) [
  | inl past ↦ let same : some [] ≡ some page = rw past at h in (0, omega arith, cc)
  | inr here ↦ part_end o rows n _ page (wraps (o + n)) (rw here at h)
]

module _ (t : Texts) (P : JobRow → Type 0) where
  All-insert_sorted :
      (order_by order : String) (a : JobRow) (bs : List JobRow)
      → P a
      → All P bs
      → All P (insert_sorted t order_by order a bs)
  unfolding insert_sorted
  All-insert_sorted order_by order a [] p h = (p, tt)
  All-insert_sorted order_by order a (b ∷ bs) p h =
      elim (Bool-cases (is_less t order_by order b a)) [
        | inl e ↦ rw e (h.0, All-insert_sorted order_by order a bs p h.1)
        | inr e ↦ rw e (p, h)
      ]

  All-sort_jobs :
      (order_by order : String) (bs : List JobRow)
      → All P bs
      → All P (sort_jobs t order_by order bs)
  unfolding sort_jobs
  All-sort_jobs order_by order [] h = tt
  All-sort_jobs order_by order (b ∷ bs) h =
      All-insert_sorted order_by order b (sort_jobs t order_by order bs) h.0
        (All-sort_jobs order_by order bs h.1)

selected : (p : JobRow → Bool) (rows : List JobRow) → All (λ r. p r ≡ true) (select p rows)
selected p [] = tt
selected p (r ∷ rows) = All-if (λ x. p x ≡ true) (p r) r (select p rows) (λ e. e) (selected p rows)

length-select : (p : JobRow → Bool) (rows : List JobRow) → length (select p rows) ≡ count p rows
length-select p [] = refl
length-select p (r ∷ rows) = ground (arith, length-select p rows)

-- What a query has read: the rows of the answer, and its total.
abbrev pub rows_of : Option (Result (List JobRow × ℕ)) → List JobRow
rows_of (some (ok (rows, total))) = rows
rows_of (some (err e)) = []
rows_of none = []

abbrev pub Answers : Texts → JobFilter → List JobRow → List JobRow × ℕ → Type 0
Answers t f jobs (rows, total) =
    (total ≡ count (matches_filter t f) jobs)
    × (length rows ≤ pos_part (or_fifty f.limit))
    × All (λ r. matches_filter t f r ≡ true) rows

module _ (t : Texts) (f : JobFilter) (jobs : List JobRow) where
  abbrev matching : List JobRow
  matching = select (matches_filter t f) jobs

  abbrev sorted : List JobRow
  sorted = sort_jobs t f.order_by f.order matching

  part-Answers :
      (k o : ℕ) (page : List JobRow)
      → k ≤ pos_part (or_fifty f.limit)
      → page ≡ take k (drop o sorted)
      → Answers t f jobs (page, length matching)
  part-Answers k o page small same = (
    length-select (matches_filter t f) jobs,
    subst (λ l. length l ≤ pos_part (or_fifty f.limit)) (sym same)
        (omega (arith, length-take k (drop o sorted))),
    subst (All (λ r. matches_filter t f r ≡ true)) (sym same) (
        All-take (λ r. matches_filter t f r ≡ true) _ _
          (All-drop (λ r. matches_filter t f r ≡ true) _ _
            (All-sort_jobs t (λ r. matches_filter t f r ≡ true) f.order_by f.order matching
              (selected (matches_filter t f) jobs)))),
  )

  with_total-Answers :
      (o : Option (List JobRow)) (a : List JobRow × ℕ)
      → page_of f.limit f.offset sorted ≡ o
      → with_total (length matching) o ≡ some (ok a)
      → Answers t f jobs a
  unfolding page_of
  with_total-Answers none a same h = let never : ◌≡◌ {A = Bool} true false = ground arith in cc
  with_total-Answers (some page) a same h =
      let (k, small, part) =
        page_from_part (pos_part (or_fifty f.limit)) (pos_part (or_start f.offset)) sorted page
          same in
      let e : (page, length matching) ≡ a = cc in
      subst (Answers t f jobs) e (part-Answers k (pos_part (or_start f.offset)) page small part)

page_and_total-Answers :
    (t : Texts) (f : JobFilter) (o : Result (List JobRow)) (a : List JobRow × ℕ)
    → page_and_total t f o ≡ some (ok a)
    → (jobs : List JobRow) × (o ≡ ok jobs) × Answers t f jobs a
unfolding page_and_total
page_and_total-Answers t f (err e) a h = let never : false ≡ true = ground arith in cc
page_and_total-Answers t f (ok jobs) a h =
    (jobs, refl, with_total-Answers t f jobs (page_of f.limit f.offset (sorted t f jobs)) a refl h)

-- Where QueryJobs of the Redis driver answers, the jobs were read and decoded, the total is the
-- number of them that the filter matches, and the page holds matching jobs only, no more than the
-- limit, or 50 where the limit is not positive.
pub query_jobs-Answers :
    (t : Texts) (decode : JobRow → Result JobRow) (sent : Sent) (f : JobFilter) (s : Store)
    (a : List JobRow × ℕ)
    → query_jobs t decode sent f s ≡ some (ok a)
    → (jobs : List JobRow) × (all_jobs decode sent s ≡ ok jobs) × Answers t f jobs a
unfolding query_jobs
query_jobs-Answers t decode sent f s a h = page_and_total-Answers t f (all_jobs decode sent s) a h

abbrev pub paged : JobFilter → ℕ → ℕ → JobFilter
paged f limit offset = record f { limit = pos limit; offset = pos offset }

positive : (n : ℕ) → 0 < n → pos_part (or_fifty (pos n)) ≡ n
positive n h = ground arith

started : (o : ℕ) → pos_part (or_start (pos o)) ≡ o
started o = ground arith

page_of_plain :
    (n o : ℕ) (rows : List JobRow)
    → 0 < n
    → o + n < 2 ^ 63
    → page_of (pos n) (pos o) rows ≡ some (take n (drop o rows))
unfolding page_of
page_of_plain n o rows h small =
    ap (λ (k : ℕ). page_from k (pos_part (or_start (pos o))) rows) (positive n h)
    ∙ (ap (λ (k : ℕ). page_from n k rows) (started o) ∙ page_from_plain n o rows small)

pieces :
    (n m o : ℕ) (rows : List JobRow)
    → take n (drop o rows) ++ take m (drop (o + n) rows) ≡ take (n + m) (drop o rows)
pieces n m o rows =
    ap (λ (l : List JobRow). take n (drop o rows) ++ take m l) (sym (drop-drop o n rows))
    ∙ take_next n m (drop o rows)

-- Three queries that do not panic, of which the first two read together what the last reads.
abbrev pub InSequence :
    Option (Result (List JobRow × ℕ))
    → Option (Result (List JobRow × ℕ))
    → Option (Result (List JobRow × ℕ))
    → Type 0
InSequence first second both =
    (first ≢ none)
    × (second ≢ none)
    × (both ≢ none)
    × (rows_of first ++ rows_of second ≡ rows_of both)

pages_of :
    (t : Texts) (f : JobFilter) (n m o : ℕ) (r : Result (List JobRow))
    → 0 < n
    → 0 < m
    → o + (n + m) < 2 ^ 63
    → InSequence
        (page_and_total t (paged f n o) r)
        (page_and_total t (paged f m (o + n)) r)
        (page_and_total t (paged f (n + m) o) r)
unfolding page_and_total matches_filter
pages_of t f n m o (err e) hn hm small = ((λ h. cc), (λ h. cc), (λ h. cc), refl)
pages_of t f n m o (ok jobs) hn hm small =
    let rows = sort_jobs t f.order_by f.order (select (matches_filter t f) jobs) in
    let first : page_of (pos n) (pos o) rows ≡ some (take n (drop o rows)) =
      page_of_plain n o rows hn (omega arith) in
    let second : page_of (pos m) (pos (o + n)) rows ≡ some (take m (drop (o + n) rows)) =
      page_of_plain m (o + n) rows hm (omega arith) in
    let both : page_of (pos (n + m)) (pos o) rows ≡ some (take (n + m) (drop o rows)) =
      page_of_plain (n + m) o rows (omega arith) small in
    rw (first, second, both) ((λ h. cc), (λ h. cc), (λ h. cc), pieces n m o rows)

-- Two pages of QueryJobs of the Redis driver that follow each other, with positive limits, the same
-- filter and order and the same jobs, are together the page that has both limits as one, and none of
-- the three queries panics, where the sum of the offset and both limits is an int of 64 bits: paging
-- loses no job and repeats none.
pub query_jobs_pages :
    (t : Texts) (decode : JobRow → Result JobRow) (sent : Sent) (f : JobFilter) (n m o : ℕ)
    (s : Store)
    → 0 < n
    → 0 < m
    → o + (n + m) < 2 ^ 63
    → InSequence
        (query_jobs t decode sent (paged f n o) s)
        (query_jobs t decode sent (paged f m (o + n)) s)
        (query_jobs t decode sent (paged f (n + m) o) s)
unfolding query_jobs
query_jobs_pages t decode sent f n m o s hn hm small =
    pages_of t f n m o (all_jobs decode sent s) hn hm small

-- With an offset of 1 and the largest int for the limit, the sum wraps, and QueryJobs panics where
-- more than one job matches.
page_overflow : (r t : JobRow) (rest : List JobRow) → page_from (2 ^ 63 - 1) 1 (r ∷ t ∷ rest) ≡ none
unfolding page_from of_word
page_overflow r t rest = grind arith
