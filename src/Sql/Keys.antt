-- ===== src/Sql/Keys.antt =====
-- The ids of the jobs table: they rise along the table and stay below the next one, so an id names
-- one row, and the rows that a claim updates are the rows that it selected.
use tasker.Base.{
  ℕ, suc, ◌≤◌, ◌<◌, ◌≡◌, refl, inl, inr, Bool, true, ◌&&◌, List, [], ◌∷◌, ◌++◌, String, map, arith,
  any, select, ==_iff, ==_self, Bool-cases, ◌==◌, All, All-if, All-take, subst, All-imp,
  All-diagonal, All-under,
}
use tasker.Job.{Time, JobRow}
use tasker.Sql.Store.{Db, update_where, delete_where}
use tasker.Sql.Claim.{eligible, before, insert_row, order_rows, chosen, id_in}

-- The ids rise, from `lo` on and below `hi`.
abbrev pub Ordered : ℕ → ℕ → List JobRow → Type 0
Ordered lo hi [] = lo ≤ hi
Ordered lo hi (r ∷ rs) = (lo ≤ r.id) × Ordered (suc r.id) hi rs

abbrev pub IsKeyed : Db → Type 0
IsKeyed d = Ordered 0 d.next_id d.jobs

Ordered-mono : (lo lo' hi : ℕ) (rs : List JobRow) → lo' ≤ lo → Ordered lo hi rs → Ordered lo' hi rs
Ordered-mono lo lo' hi [] h o = omega arith
Ordered-mono lo lo' hi (r ∷ rs) h o = (omega arith, o.1)

pub Ordered-update :
    (lo hi : ℕ) (test : JobRow → Bool) (f : JobRow → JobRow) (rs : List JobRow)
    → All (λ r. test r ≡ true → (f r).id ≡ r.id) rs
    → Ordered lo hi rs
    → Ordered lo hi (update_where test f rs)
Ordered-update lo hi test f [] same o = o
Ordered-update lo hi test f (r ∷ rs) same o = elim (Bool-cases (test r)) [
  | inl hit ↦ rw (hit, same.0 hit) (o.0, Ordered-update (suc r.id) hi test f rs same.1 o.1)
  | inr miss ↦ rw miss (o.0, Ordered-update (suc r.id) hi test f rs same.1 o.1)
]

pub Ordered-delete :
    (lo hi : ℕ) (test : JobRow → Bool) (rs : List JobRow)
    → Ordered lo hi rs
    → Ordered lo hi (delete_where test rs)
Ordered-delete lo hi test [] o = o
Ordered-delete lo hi test (r ∷ rs) o = elim (Bool-cases (test r)) [
  | inl hit ↦
      rw hit (Ordered-delete lo hi test rs (Ordered-mono (suc r.id) lo hi rs (omega arith) o.1))
  | inr miss ↦ rw miss (o.0, Ordered-delete (suc r.id) hi test rs o.1)
]

pub Ordered-append :
    (lo hi : ℕ) (rs : List JobRow) (r : JobRow)
    → r.id ≡ hi
    → Ordered lo hi rs
    → Ordered lo (suc hi) (rs ++ r ∷ [])
Ordered-append lo hi [] r e o = omega arith
Ordered-append lo hi (s ∷ rs) r e o = (o.0, Ordered-append (suc s.id) hi rs r e o.1)

pub Ordered-above : (lo hi : ℕ) (rs : List JobRow) → Ordered lo hi rs → All (λ r. lo ≤ r.id) rs
Ordered-above lo hi [] o = tt
Ordered-above lo hi (r ∷ rs) o =
    (o.0, All-imp _ _ (λ s h. omega arith) rs (Ordered-above (suc r.id) hi rs o.1))

module _ (e : JobRow → Bool) where
  -- Some row with this id passes the test.
  abbrev Names : List JobRow → ℕ → Type 0
  Names rs id = any (λ s. (s.id == id) && e s) rs ≡ true

  Names-weaken : (r : JobRow) (rs : List JobRow) (id : ℕ) → Names rs id → Names (r ∷ rs) id
  Names-weaken r rs id n = ground arith

  select-Names : (rs : List JobRow) → All (λ r. Names rs r.id) (select e rs)
  select-Names [] = tt
  select-Names (r ∷ rs) =
      All-if _ (e r) r (select e rs) (λ hit. ground (arith, ==_self r.id))
        (All-imp _ _ (λ s h. Names-weaken r rs s.id h) (select e rs) (select-Names rs))

  Names-ge : (id lo hi : ℕ) (rs : List JobRow) → Ordered lo hi rs → id < lo → Names rs id → ⊥
  Names-ge id lo hi [] o h n = cc
  Names-ge id lo hi (r ∷ rs) o h n = elim (Bool-cases (r.id == id)) [
    | inl hit ↦ omega (arith, (==_iff r.id id).0 hit)
    | inr miss ↦ Names-ge id (suc r.id) hi rs o.1 (omega arith) (rw miss at n)
  ]

  -- In an ordered table, every row with that id passes it.
  Names-All :
      (id lo hi : ℕ) (rs : List JobRow)
      → Ordered lo hi rs
      → Names rs id
      → All (λ r. r.id ≡ id → e r ≡ true) rs
  Names-All id lo hi [] o n = tt
  Names-All id lo hi (r ∷ rs) o n = elim (Bool-cases ((r.id == id) && e r)) [
    | inl hit ↦ (
      (λ _. ground arith),
      All-imp _ _ (λ s above same. absurd (ground arith)) rs (Ordered-above (suc r.id) hi rs o.1),
    )
    | inr miss ↦
        let later : Names rs id = rw miss at n in
        (
          (λ same. absurd (Names-ge id (suc r.id) hi rs o.1 (omega arith) later)),
          Names-All id (suc r.id) hi rs o.1 later,
        )
  ]

insert_row-All {κ} :
    (P : JobRow → Type κ) (r : JobRow) (rs : List JobRow) → P r → All P rs → All P (insert_row r rs)
unfolding insert_row
insert_row-All P r [] p h = (p, tt)
insert_row-All P r (s ∷ rs) p h = elim (Bool-cases (before r s)) [
  | inl yes_ ↦ rw yes_ (p, h)
  | inr no_ ↦ rw no_ (h.0, insert_row-All P r rs p h.1)
]

pub order_rows-All {κ} : (P : JobRow → Type κ) (rs : List JobRow) → All P rs → All P (order_rows rs)
unfolding order_rows
order_rows-All P [] h = tt
order_rows-All P (r ∷ rs) h = insert_row-All P r (order_rows rs) h.0 (order_rows-All P rs h.1)

All-ids {κ} :
    (Q : ℕ → Type κ) (rs : List JobRow)
    → All (λ r. Q r.id) rs
    → All Q (map (λ (r : JobRow). r.id) rs)
All-ids Q [] h = tt
All-ids Q (r ∷ rs) h = (h.0, All-ids Q rs h.1)

module _ (now : Time) (queue : String) where
  chosen-Names :
      (max : ℕ) (rs : List JobRow) → All (Names (eligible now queue) rs) (chosen now queue max rs)
  unfolding chosen
  chosen-Names max rs =
      All-ids _ _ (All-take _ max _ (order_rows-All _ _ (select-Names (eligible now queue) rs)))

  id_in-All {κ} :
      (Q : ℕ → Type κ) (ids : List ℕ) (r : JobRow) → All Q ids → id_in ids r ≡ true → Q r.id
  id_in-All Q [] r h e = cc
  id_in-All Q (id ∷ ids) r h e = elim (Bool-cases (id == r.id)) [
    | inl hit ↦ subst Q ((==_iff id r.id).0 hit) h.0
    | inr miss ↦ id_in-All Q ids r h.1 (rw miss at e)
  ]

  -- The rows that bear the selected ids are rows that the claim may take.
  pub chosen-eligible :
      (max lo hi : ℕ) (rs : List JobRow)
      → Ordered lo hi rs
      → All (λ r. id_in (chosen now queue max rs) r ≡ true → eligible now queue r ≡ true) rs
  chosen-eligible max lo hi rs o =
      All-imp _ _ (λ r pass hit. pass (id_in-All (Names e rs) _ r (chosen-Names max rs) hit) refl)
        rs
        (All-diagonal (λ r s. Names e rs r.id → s.id ≡ r.id → e s ≡ true) rs
          (λ r. All-under _ _ rs (λ n. Names-All e r.id lo hi rs o n)))
    where
      e : JobRow → Bool
      e = eligible now queue
