-- ===== src/Redis/Owner.antt =====
-- A lock of the Redis driver is one node's until it expires.
use tasker.Base.{
  ℕ, ◌+◌, ◌<◌, Bool, true, false, none, some, List, [], ◌∷◌, String, str_eq, eq_iff, ◌≡◌, ◌≢◌, refl,
  arith, All, Bool-cases, inl, inr, ap, ◌∙◌, eq_refl,
}
use tasker.Job.{Duration}
use tasker.Sql.Statement.{ok}
use tasker.Redis.Store.{change, Sent, answered, not_run, reply_lost}
use tasker.Redis.Nodes.{
  Key, Keys, ttl_millis, renew_script, owner_delete, acquire_lock, release_lock,
}

-- A call on a lock: what becomes of it, its time, the lock and the node.
pub data LockCall : Type 0 where
  acquire : Sent → ℕ → String → String → Duration → LockCall
  release : Sent → ℕ → String → String → LockCall

abbrev pub lock_call : LockCall → Keys → Keys
lock_call (acquire sent at key node ttl) k = (acquire_lock sent at key node ttl k).1
lock_call (release sent at key node) k = (release_lock sent at key node k).1

abbrev pub lock_calls : List LockCall → Keys → Keys
lock_calls [] k = k
lock_calls (c ∷ cs) k = lock_calls cs (lock_call c k)

-- A call before the time `until`, and not of the owner on that lock.
abbrev pub NotOwners : String → String → ℕ → LockCall → Type 0
NotOwners lock owner until (acquire sent at key node ttl) =
    (at < until) × (key ≡ lock → node ≢ owner)
NotOwners lock owner until (release sent at key node) = (at < until) × (key ≡ lock → node ≢ owner)

renew_script-other :
    (node owner : String) (ttl at until : ℕ)
    → at < until
    → node ≢ owner
    → renew_script node ttl at (some (owner, until)) ≡ (false, some (owner, until))
unfolding renew_script
renew_script-other node owner ttl at until early other = ground (arith, eq_iff owner node)

owner_delete-other :
    (node owner : String) (at until : ℕ)
    → at < until
    → node ≢ owner
    → owner_delete node at (some (owner, until)) ≡ some (owner, until)
unfolding owner_delete
owner_delete-other node owner at until early other = ground (arith, eq_iff owner node)

change-keeps :
    (f : String → Key String) (key lock : String) (v x : Key String)
    → (key ≡ lock → v ≡ x)
    → f lock ≡ x
    → change key v f lock ≡ x
change-keeps f key lock v x here held = elim (Bool-cases (str_eq key lock)) [
  | inl e ↦ rw e (here ((eq_iff key lock).0 e))
  | inr e ↦ rw e held
]

module _ (lock owner : String) (until at : ℕ) (early : at < until) (key node : String)
    (other : key ≡ lock → node ≢ owner) (k : Keys) (held : k.locks lock ≡ some (owner, until)) where
  acquired-other :
      (ttl : ℕ)
      → change key (renew_script node ttl at (k.locks key)).1 k.locks lock ≡ some (owner, until)
  acquired-other ttl =
      change-keeps k.locks key lock _ (some (owner, until))
        (λ e.
          ap (λ (o : Key String). (renew_script node ttl at o).1) (ap k.locks e ∙ held)
          ∙ ap (λ (p : Bool × Key String). p.1)
              (renew_script-other node owner ttl at until early (other e)))
        held

  released-other :
      change key (owner_delete node at (k.locks key)) k.locks lock ≡ some (owner, until)
  released-other =
      change-keeps k.locks key lock _ (some (owner, until))
        (λ e.
          ap (λ (o : Key String). owner_delete node at o) (ap k.locks e ∙ held)
          ∙ owner_delete-other node owner at until early (other e))
        held

  acquire_lock-other :
      (sent : Sent) (ttl : Duration)
      → (acquire_lock sent at key node ttl k).1.locks lock ≡ some (owner, until)
  unfolding acquire_lock
  acquire_lock-other (not_run e) ttl = held
  acquire_lock-other answered ttl = acquired-other (ttl_millis ttl)
  acquire_lock-other (reply_lost e) ttl = acquired-other (ttl_millis ttl)

  release_lock-other :
      (sent : Sent) → (release_lock sent at key node k).1.locks lock ≡ some (owner, until)
  unfolding release_lock
  release_lock-other (not_run e) = held
  release_lock-other answered = released-other
  release_lock-other (reply_lost e) = released-other

lock_calls-held :
    (lock owner : String) (until : ℕ) (calls : List LockCall) (k : Keys)
    → All (NotOwners lock owner until) calls
    → k.locks lock ≡ some (owner, until)
    → (lock_calls calls k).locks lock ≡ some (owner, until)
lock_calls-held lock owner until [] k others held = held
lock_calls-held lock owner until (acquire sent at key node ttl ∷ cs) k others held =
    lock_calls-held lock owner until cs (acquire_lock sent at key node ttl k).1 others.1
      (acquire_lock-other lock owner until at others.0.0 key node others.0.1 k held sent ttl)
lock_calls-held lock owner until (release sent at key node ∷ cs) k others held =
    lock_calls-held lock owner until cs (release_lock sent at key node k).1 others.1
      (release_lock-other lock owner until at others.0.0 key node others.0.1 k held sent)

refused :
    (sent : Sent) (lock owner node : String) (at until : ℕ) (ttl : Duration) (k : Keys)
    → at < until
    → node ≢ owner
    → k.locks lock ≡ some (owner, until)
    → (acquire_lock sent at lock node ttl k).0 ≢ ok true
unfolding acquire_lock
refused (not_run e) lock owner node at until ttl k early other held won = ground arith
refused (reply_lost e) lock owner node at until ttl k early other held won = ground arith
refused answered lock owner node at until ttl k early other held won =
    let e : renew_script node (ttl_millis ttl) at (k.locks lock) ≡ (false, some (owner, until)) =
      ap (λ (o : Key String). renew_script node (ttl_millis ttl) at o) held
      ∙ renew_script-other node owner (ttl_millis ttl) at until early other in
    let no_win : (renew_script node (ttl_millis ttl) at (k.locks lock)).0 ≡ false =
      ap (λ (p : Bool × Key String). p.0) e in
    ground (arith, no_win)

renew_script-won :
    (node : String) (ttl at : ℕ) (key : Key String)
    → (renew_script node ttl at key).0 ≡ true
    → (renew_script node ttl at key).1 ≡ some (node, at + ttl)
unfolding renew_script
renew_script-won node ttl at none won = refl
renew_script-won node ttl at (some (owner, until)) won = ground (arith, eq_iff owner node)

granted :
    (lock owner : String) (start : ℕ) (ttl : Duration) (k : Keys)
    → (acquire_lock answered start lock owner ttl k).0 ≡ ok true
    → (acquire_lock answered start lock owner ttl k).1.locks lock
      ≡ some (owner, start + ttl_millis ttl)
unfolding acquire_lock
granted lock owner start ttl k won =
    let up : (renew_script owner (ttl_millis ttl) start (k.locks lock)).0 ≡ true = ground arith in
    rw (eq_refl lock) (renew_script-won owner (ttl_millis ttl) start (k.locks lock) up)

-- After the Redis driver has granted a node a lock, and any calls on locks after it that are made
-- before the ttl is over and are not of that node on that lock, whatever becomes of them: the lock
-- is still held by that node until the same time, and another node that asks for it before that
-- time is not granted it.
pub acquire_lock-excludes :
    (lock owner node : String) (start at : ℕ) (ttl ttl' : Duration) (k : Keys)
    (calls : List LockCall) (sent : Sent)
    → (acquire_lock answered start lock owner ttl k).0 ≡ ok true
    → All (NotOwners lock owner (start + ttl_millis ttl)) calls
    → at < start + ttl_millis ttl
    → node ≢ owner
    → ((lock_calls calls (acquire_lock answered start lock owner ttl k).1).locks lock
        ≡ some (owner, start + ttl_millis ttl))
      × ((acquire_lock sent at lock node ttl'
            (lock_calls calls (acquire_lock answered start lock owner ttl k).1)).0
          ≢ ok true)
acquire_lock-excludes lock owner node start at ttl ttl' k calls sent won others early other =
    let until : ℕ = start + ttl_millis ttl in
    let held =
      lock_calls-held lock owner until calls (acquire_lock answered start lock owner ttl k).1 others
        (granted lock owner start ttl k won) in
    (held, refused sent lock owner node at until ttl' _ early other held)
