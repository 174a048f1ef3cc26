-- ===== src/Sql/Claimed/Sorting.antt =====
-- The order in which a claim takes the jobs, and that sorting by it keeps every job.
use tasker.Base.{
  ℕ, zero, suc, ◌≤◌, ◌≡◌, true, false, Bool-cases, inl, inr, List, [], ◌∷◌, ◌≤ℤ◌, ◌<ℤ◌, ◌⊎◌, arith,
  take, drop, All, All-imp, Memᴰ,
}
use tasker.Job.{JobRow}
use tasker.Sql.Claim.{before, insert_row, order_rows}

before-total : (r s : JobRow) → before r s ≡ false → before s r ≡ true
unfolding before
before-total r s h = ground arith

-- By priority, the highest first, then by time and then by id, the smallest first.
abbrev pub Lex : JobRow → JobRow → Type 0
Lex r s =
    (s.priority <ℤ r.priority)
    ⊎ ((s.priority ≤ℤ r.priority)
        × ((r.scheduled_at <ℤ s.scheduled_at)
            ⊎ ((r.scheduled_at ≤ℤ s.scheduled_at) × (r.id ≤ s.id))))

pub before→Lex : (r s : JobRow) → before r s ≡ true → Lex r s
unfolding before
before→Lex r s h = ground arith

Lex→before : (r s : JobRow) → Lex r s → before r s ≡ true
unfolding before
Lex→before r s h = ground arith

Lex-trans : (r s t : JobRow) → Lex r s → Lex s t → Lex r t
Lex-trans r s t (inl a) (inl b) = inl (omega arith)
Lex-trans r s t (inl a) (inr (b, c)) = inl (omega arith)
Lex-trans r s t (inr (a, c)) (inl b) = inl (omega arith)
Lex-trans r s t (inr (a, inl c)) (inr (b, inl d)) = inr (omega arith, inl (omega arith))
Lex-trans r s t (inr (a, inl c)) (inr (b, inr (d, e))) = inr (omega arith, inl (omega arith))
Lex-trans r s t (inr (a, inr (c, e))) (inr (b, inl d)) = inr (omega arith, inl (omega arith))
Lex-trans r s t (inr (a, inr (c, e))) (inr (b, inr (d, f))) =
    inr (omega arith, inr (omega arith, omega arith))

before_trans : (r s t : JobRow) → before r s ≡ true → before s t ≡ true → before r t ≡ true
before_trans r s t h k = Lex→before r t (Lex-trans r s t (before→Lex r s h) (before→Lex s t k))

-- Each row is before all that follow.
abbrev pub Sorted : List JobRow → Type 0
Sorted [] = Unit
Sorted (r ∷ rs) = All (λ s. before r s ≡ true) rs × Sorted rs

insert_row-before :
    (r s : JobRow) (rs : List JobRow)
    → before s r ≡ true
    → All (λ t. before s t ≡ true) rs
    → All (λ t. before s t ≡ true) (insert_row r rs)
unfolding insert_row
insert_row-before r s [] h hs = (h, tt)
insert_row-before r s (t ∷ ts) h hs = elim (Bool-cases (before r t)) [
  | inl yes_ ↦ rw yes_ (h, hs)
  | inr no_ ↦ rw no_ (hs.0, insert_row-before r s ts h hs.1)
]

insert_row-Sorted : (r : JobRow) (rs : List JobRow) → Sorted rs → Sorted (insert_row r rs)
unfolding insert_row
insert_row-Sorted r [] s = (tt, tt)
insert_row-Sorted r (t ∷ ts) s = elim (Bool-cases (before r t)) [
  | inl yes_ ↦ rw yes_ ((yes_, All-imp _ _ (λ u h. before_trans r t u yes_ h) ts s.0), s)
  | inr no_ ↦
      rw no_ (insert_row-before r t ts (before-total r t no_) s.0, insert_row-Sorted r ts s.1)
]

pub order_rows-Sorted : (rs : List JobRow) → Sorted (order_rows rs)
unfolding order_rows
order_rows-Sorted [] = tt
order_rows-Sorted (r ∷ rs) = insert_row-Sorted r (order_rows rs) (order_rows-Sorted rs)

All-drop {κ} : (P : JobRow → Type κ) (n : ℕ) (rs : List JobRow) → All P rs → All P (drop n rs)
All-drop P zero rs h = h
All-drop P (suc n) [] h = tt
All-drop P (suc n) (r ∷ rs) h = All-drop P n rs h.1

pub take-Sorted :
    (n : ℕ) (rs : List JobRow)
    → Sorted rs
    → All (λ r. All (λ s. before r s ≡ true) (drop n rs)) (take n rs)
take-Sorted zero rs s = tt
take-Sorted (suc n) [] s = tt
take-Sorted (suc n) (r ∷ rs) s = (All-drop _ n rs s.0, take-Sorted n rs s.1)

insert_row-Mem : (s r : JobRow) (rs : List JobRow) → (s ≡ r) ⊎ Memᴰ s rs → Memᴰ s (insert_row r rs)
unfolding insert_row
insert_row-Mem s r [] (inl e) = Memᴰ.head e
insert_row-Mem s r [] (inr m) = elim m [ ]
insert_row-Mem s r (t ∷ ts) m = elim (Bool-cases (before r t)) [
  | inl yes_ ↦ rw yes_ (elim m [ inl e ↦ Memᴰ.head e | inr n ↦ Memᴰ.tail n ])
  | inr no_ ↦ rw no_ (later (λ k. insert_row-Mem s r ts k) m)
]
  where
    later :
        ((s ≡ r) ⊎ Memᴰ s ts → Memᴰ s (insert_row r ts))
        → (s ≡ r) ⊎ Memᴰ s (t ∷ ts)
        → Memᴰ s (t ∷ insert_row r ts)
    later rest (inl e) = Memᴰ.tail (rest (inl e))
    later rest (inr (Memᴰ.head e)) = Memᴰ.head e
    later rest (inr (Memᴰ.tail n)) = Memᴰ.tail (rest (inr n))

pub order_rows-Mem : (s : JobRow) (rs : List JobRow) → Memᴰ s rs → Memᴰ s (order_rows rs)
unfolding order_rows
order_rows-Mem s [] m = m
order_rows-Mem s (r ∷ rs) (Memᴰ.head e) = insert_row-Mem s r (order_rows rs) (inl e)
order_rows-Mem s (r ∷ rs) (Memᴰ.tail m) =
    insert_row-Mem s r (order_rows rs) (inr (order_rows-Mem s rs m))

pub take-or-drop :
    (n : ℕ) (s : JobRow) (rs : List JobRow) → Memᴰ s rs → Memᴰ s (take n rs) ⊎ Memᴰ s (drop n rs)
take-or-drop zero s rs m = inr m
take-or-drop (suc n) s [] m = inr m
take-or-drop (suc n) s (r ∷ rs) (Memᴰ.head e) = inl (Memᴰ.head e)
take-or-drop (suc n) s (r ∷ rs) (Memᴰ.tail m) = elim (take-or-drop n s rs m) [
  | inl t ↦ inl (Memᴰ.tail t)
  | inr d ↦ inr d
]
