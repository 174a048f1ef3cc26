-- ===== src/Sql/Locks.antt =====
-- Who may hold a lock, and who may lead.
use tasker.Base.{
  ◌≡◌, refl, ap, ◌≢◌, Bool, true, false, ◌&&◌, Bool-cases, inl, inr, some, List, [], ◌∷◌, String,
  arith, any, count, str_eq, eq_iff, All, ltb_ℤ, leb_ℤ, ◌+ℤ◌,
}
use tasker.Job.{Time, Duration, Error}
use tasker.Sql.Store.{LockRow, update_where, delete_where, find_first}
use tasker.Sql.Statement.{Result, ok, World, ◌>>=◌, ◌>>◌, statement, statement-rule, bind-rule}
use tasker.Sql.Lease.{
  is_lock, acquire_lock, renew_lock, delete_expired, insert_lock, read_owner, try_insert,
  lock_fresh, owner_answer, after_insert,
}

-- The key's rows are the owner's, not expired, and there is one.
pub record HeldBy (key owner : String) (now : Time) (locks : List LockRow) : Type 0 where
  pub owned :
      All (λ l. is_lock key l ≡ true → (l.node_id ≡ owner) × (ltb_ℤ now l.expires_at ≡ true)) locks
  pub present : any (is_lock key) locks ≡ true

str_eq-distinct : (a b : String) → a ≢ b → str_eq a b ≡ false
str_eq-distinct a b h = ground (arith, eq_iff a b)

module _ (key owner node : String) (now : Time) (others : owner ≢ node) where
  abbrev mine : LockRow → Bool
  mine l = is_lock key l && (str_eq l.node_id node && ltb_ℤ now l.expires_at)

  abbrev expired : LockRow → Bool
  expired l = is_lock key l && leb_ℤ l.expires_at now

  abbrev Owned : LockRow → Type 0
  Owned l = is_lock key l ≡ true → (l.node_id ≡ owner) × (ltb_ℤ now l.expires_at ≡ true)

  not_mine : (l : LockRow) → Owned l → mine l ≡ false
  not_mine l o = ground (arith, str_eq-distinct l.node_id node)

  not_expired : (l : LockRow) → Owned l → expired l ≡ false
  not_expired l o = ground arith

  renew-none :
      (f : LockRow → LockRow) (ls : List LockRow)
      → All Owned ls
      → (count mine ls ≡ 0) × (update_where mine f ls ≡ ls)
  renew-none f [] h = (refl, refl)
  renew-none f (l ∷ ls) h =
      let (none_, rest) = renew-none f ls h.1 in
      rw (not_mine l h.0) (none_, ap (λ (xs : List LockRow). l ∷ xs) rest)

  delete-none : (ls : List LockRow) → All Owned ls → delete_where expired ls ≡ ls
  delete-none [] h = refl
  delete-none (l ∷ ls) h =
      rw (not_expired l h.0) (ap (λ (xs : List LockRow). l ∷ xs) (delete-none ls h.1))

  owner-found :
      (ls : List LockRow)
      → All Owned ls
      → any (is_lock key) ls ≡ true
      → (l : LockRow) × (find_first (is_lock key) ls ≡ some l) × (l.node_id ≡ owner)
  owner-found [] h p = cc
  owner-found (l ∷ ls) h p = elim (Bool-cases (is_lock key l)) [
    | inl hit ↦ (l, rw hit refl, (h.0 hit).0)
    | inr miss ↦
        let (m, found, same) = owner-found ls h.1 (rw miss at p) in (m, rw miss found, same)
  ]

  -- Whatever fails on the way, the node is not given the lock and the owner keeps it.
  abbrev Denied : Result Bool × World → Type 0
  Denied (r, w) = (r ≢ ok true) × HeldBy key owner now w.db.locks

  owner_answer-Denied :
      (e : Error) (w : World)
      → HeldBy key owner now w.db.locks
      → Denied (owner_answer node e (statement (read_owner key) w))
  owner_answer-Denied e w held =
      let (l, found, same) = owner-found w.db.locks held.owned held.present in
      statement-rule (read_owner key) w (λ p. Denied (owner_answer node e p))
        (λ scan_err fs. ((λ bad. cc), held))
        (λ fs.
          rw (found, owner_answer, read_owner)
            ((λ bad. ground (arith, str_eq-distinct l.node_id node)), held))

  try_insert-Denied :
      (until : Time) (w : World)
      → HeldBy key owner now w.db.locks
      → Denied (try_insert key node until w)
  try_insert-Denied until w held =
      statement-rule (insert_lock key node until) w (λ p. Denied (after_insert key node p))
        (λ e fs. owner_answer-Denied e _ held)
        (λ fs. rw held.present (owner_answer-Denied _ _ held))

  lock_fresh-Denied :
      (ttl : Duration) (w : World)
      → HeldBy key owner now w.db.locks
      → Denied (lock_fresh key node ttl now w)
  unfolding ◌>>=◌ ◌>>◌
  lock_fresh-Denied ttl w held =
      bind-rule (delete_expired key now) w _ Denied (λ e fs. ((λ bad. cc), held))
        (λ fs. try_insert-Denied _ _ (rw (delete-none w.db.locks held.owned) held))

-- A lock that another node holds, not expired, is not acquired, and stays with its holder, whatever
-- fails on the way.
pub acquire_lock-excluded :
    (key owner node : String) (ttl : Duration) (now : Time) (w : World)
    → owner ≢ node
    → HeldBy key owner now w.db.locks
    → let (r, v) = acquire_lock key node ttl now w in
      (r ≢ ok true) × HeldBy key owner now v.db.locks
unfolding acquire_lock
acquire_lock-excluded key owner node ttl now w others held =
    let (none_, kept) =
      renew-none key owner node now others (λ l. record l { expires_at = now +ℤ ttl }) w.db.locks
        held.owned in
    bind-rule (renew_lock key node now ttl) w _ (Denied key owner node now others)
      (λ e fs. ((λ bad. cc), held))
      (λ fs. rw (none_, kept) (lock_fresh-Denied key owner node now others ttl _ held))
