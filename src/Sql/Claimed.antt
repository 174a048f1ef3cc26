-- ===== src/Sql/Claimed.antt =====
-- What a claim returns, and that two claims never return one job.
mod Sorting
use tasker.Base.{
  ℕ, zero, suc, ◌≤◌, ◌≡◌, refl, ap, sym, subst, map, Bool, true, false, Bool-cases, inl, inr, List,
  [], ◌∷◌, String, ◌≤ℤ◌, ◌<ℤ◌, pos, eq_iff, length, length-take, All-take, All-if, ◌∙◌, ◌⊎◌, arith,
  select, take, drop, All, All-imp, Memᴰ,
}
use tasker.Job.{Time, JobRow, available, scheduled, retryable}
use tasker.Sql.Claim.{eligible, before, insert_row, order_rows, chosen}
use tasker.Sql.Claimed.Sorting.{
  Lex, before→Lex, order_rows-Sorted, take-Sorted, order_rows-Mem, take-or-drop,
}

select-Mem :
    (p : JobRow → Bool) (s : JobRow) (rs : List JobRow)
    → p s ≡ true
    → Memᴰ s rs
    → Memᴰ s (select p rs)
select-Mem p s [] h m = m
select-Mem p s (r ∷ rs) h (Memᴰ.head e) = rw (subst (λ (x : JobRow). p x ≡ true) e h) (Memᴰ.head e)
select-Mem p s (r ∷ rs) h (Memᴰ.tail m) = elim (Bool-cases (p r)) [
  | inl hit ↦ rw hit (Memᴰ.tail (select-Mem p s rs h m))
  | inr miss ↦ rw miss (select-Mem p s rs h m)
]

pub All-at {κ} : (P : JobRow → Type κ) (s : JobRow) (rs : List JobRow) → All P rs → Memᴰ s rs → P s
All-at P s [] h m = elim m [ ]
All-at P s (r ∷ rs) h (Memᴰ.head e) = subst P (sym e) h.0
All-at P s (r ∷ rs) h (Memᴰ.tail m) = All-at P s rs h.1 m

-- What a claim may take: a job of that queue that waits, is due, and has an attempt left.
abbrev pub Claimable : Time → String → JobRow → Type 0
Claimable now queue r =
    (r.queue ≡ queue)
    × ((r.state ≡ available) ⊎ ((r.state ≡ scheduled) ⊎ (r.state ≡ retryable)))
    × (r.scheduled_at ≤ℤ now)
    × (pos r.attempt <ℤ r.max_attempts)

eligible-Claimable :
    (now : Time) (queue : String) (r : JobRow) → eligible now queue r ≡ true → Claimable now queue r
eligible-Claimable now queue r h = grind (arith, eq_iff r.queue queue)

Claimable-eligible :
    (now : Time) (queue : String) (r : JobRow) → Claimable now queue r → eligible now queue r ≡ true
Claimable-eligible now queue r (q, st, due, left) = grind (arith, eq_iff r.queue queue)

-- An id of a claimable job of the table.
abbrev pub Takes : Time → String → List JobRow → ℕ → Type 0
Takes now queue jobs i = (r : JobRow) × Memᴰ r jobs × (r.id ≡ i) × Claimable now queue r

-- The same, of a job that is not behind s.
abbrev pub TakesFirst : Time → String → List JobRow → JobRow → ℕ → Type 0
TakesFirst now queue jobs s i =
    (r : JobRow) × Memᴰ r jobs × (r.id ≡ i) × Claimable now queue r × Lex r s

module _ {κ} (P : JobRow → Type κ) where
  All-insert_row : (r : JobRow) (rs : List JobRow) → P r → All P rs → All P (insert_row r rs)
  unfolding insert_row
  All-insert_row r [] p h = (p, tt)
  All-insert_row r (t ∷ ts) p h = elim (Bool-cases (before r t)) [
    | inl yes_ ↦ rw yes_ (p, h)
    | inr no_ ↦ rw no_ (h.0, All-insert_row r ts p h.1)
  ]

  All-order_rows : (rs : List JobRow) → All P rs → All P (order_rows rs)
  unfolding order_rows
  All-order_rows [] h = tt
  All-order_rows (r ∷ rs) h = All-insert_row r (order_rows rs) h.0 (All-order_rows rs h.1)

select-found :
    (p : JobRow → Bool) (rs : List JobRow) → All (λ r. Memᴰ r rs × (p r ≡ true)) (select p rs)
select-found p [] = tt
select-found p (r ∷ rs) =
    All-if _ (p r) r (select p rs) (λ hit. (Memᴰ.head refl, hit))
      (All-imp _ _ (λ a h. (Memᴰ.tail h.0, h.1)) (select p rs) (select-found p rs))

module _ {ℓ κ} {A : Type ℓ} (P : ℕ → Type κ) (f : A → ℕ) where
  All-ids : (xs : List A) → All (λ x. P (f x)) xs → All P (map f xs)
  All-ids [] h = tt
  All-ids (x ∷ xs) h = (h.0, All-ids xs h.1)

length-ids : (rs : List JobRow) → length (map (λ (r : JobRow). r.id) rs) ≡ length rs
length-ids [] = refl
length-ids (r ∷ rs) = ap suc (length-ids rs)

ids-Mem : (s : JobRow) (rs : List JobRow) → Memᴰ s rs → Memᴰ s.id (map (λ (r : JobRow). r.id) rs)
ids-Mem s [] m = elim m [ ]
ids-Mem s (r ∷ rs) (Memᴰ.head e) = Memᴰ.head (ap (λ (x : JobRow). x.id) e)
ids-Mem s (r ∷ rs) (Memᴰ.tail m) = Memᴰ.tail (ids-Mem s rs m)

-- A limit that leaves something out is reached.
take-full : (n : ℕ) (s : JobRow) (rs : List JobRow) → Memᴰ s (drop n rs) → length (take n rs) ≡ n
take-full zero s rs m = refl
take-full (suc n) s [] m = elim m [ ]
take-full (suc n) s (r ∷ rs) m = ap suc (take-full n s rs m)

module _ (now : Time) (queue : String) (max : ℕ) (jobs : List JobRow) where
  abbrev waiting : List JobRow
  waiting = order_rows (select (eligible now queue) jobs)

  abbrev taken : List JobRow
  taken = take max waiting

  taken-found : All (λ r. Memᴰ r jobs × (eligible now queue r ≡ true)) taken
  taken-found = All-take _ max waiting (All-order_rows _ _ (select-found (eligible now queue) jobs))

  length-chosen : length (chosen now queue max jobs) ≡ length taken
  unfolding chosen
  length-chosen = length-ids taken

  few_chosen : length (chosen now queue max jobs) ≤ max
  few_chosen = subst (λ k. k ≤ max) (sym length-chosen) (length-take max waiting)

  chosen-Takes : All (Takes now queue jobs) (chosen now queue max jobs)
  unfolding chosen
  chosen-Takes =
      All-ids (Takes now queue jobs) (λ (r : JobRow). r.id) taken
        (All-imp _ _ (λ r h. (r, h.0, refl, eligible-Claimable now queue r h.1)) taken taken-found)

  behind :
      (s : JobRow)
      → Memᴰ s (drop max waiting)
      → All (TakesFirst now queue jobs s) (chosen now queue max jobs)
  unfolding chosen
  behind s d =
      All-ids (TakesFirst now queue jobs s) (λ (r : JobRow). r.id) taken
        (All-zip taken taken-found (
          All-imp _ _ (λ r h. All-at _ s (drop max waiting) h d) taken
            (take-Sorted max waiting (order_rows-Sorted (select (eligible now queue) jobs)))))
    where
      All-zip :
          (rs : List JobRow)
          → All (λ r. Memᴰ r jobs × (eligible now queue r ≡ true)) rs
          → All (λ r. before r s ≡ true) rs
          → All (λ r. TakesFirst now queue jobs s r.id) rs
      All-zip [] h k = tt
      All-zip (r ∷ rs) h k = (
        (r, h.0.0, refl, eligible-Claimable now queue r h.0.1, before→Lex r s k.0),
        All-zip rs h.1 k.1,
      )

  -- A claim takes no more ids than its limit, each that of a job of the table on its queue that is
  -- available, scheduled or retryable, is due, and has an attempt left. Such a job of the table is
  -- taken; or the limit is reached, and every job that is taken has a higher priority, or the same
  -- and an earlier time, or the same and a smaller id or its own.
  pub chosen_first :
      (s : JobRow)
      → Memᴰ s jobs
      → Claimable now queue s
      → (length (chosen now queue max jobs) ≤ max)
        × All (Takes now queue jobs) (chosen now queue max jobs)
        × (Memᴰ s.id (chosen now queue max jobs)
            ⊎ ((length (chosen now queue max jobs) ≡ max)
                × All (TakesFirst now queue jobs s) (chosen now queue max jobs)))
  unfolding chosen
  chosen_first s m can = (
    few_chosen,
    chosen-Takes,
    elim (take-or-drop max s waiting
        (order_rows-Mem s _ (select-Mem _ s jobs (Claimable-eligible now queue s can) m))) [
          | inl t ↦ inl (ids-Mem s taken t)
          | inr d ↦ inr (length-chosen ∙ take-full max s waiting d, behind s d)
        ],
  )
