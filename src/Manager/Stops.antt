-- ===== src/Manager/Stops.antt =====
-- What Stop of the manager reaches.
use tasker.Base.{
  ℕ, Option, none, some, List, [], ◌∷◌, String, ◌≡◌, refl, ap, str_eq, eq_refl, Bool-cases, inl,
  inr,
}
use tasker.Job.{Error}
use tasker.Sql.Statement.{Result}
use tasker.Channel.{Channel, open_channel, closed_channel, close_channel}
use tasker.Pool.{Pool, set_pool}
use tasker.Manager.{Manager, work, stop_workers, stop_manager, after_close}

set_pool-set_pool :
    (queue : String) (p q : Pool) (ps : List (String × Pool))
    → set_pool queue q (set_pool queue p ps) ≡ set_pool queue q ps
set_pool-set_pool queue p q [] = rw (eq_refl queue) refl
set_pool-set_pool queue p q ((k, r) ∷ ps) = elim (Bool-cases (str_eq k queue)) [
  | inl hit ↦ rw hit (rw (eq_refl queue) refl)
  | inr miss ↦
      rw miss
        (rw miss (ap (λ (l : List (String × Pool)). (k, r) ∷ l) (set_pool-set_pool queue p q ps)))
]

-- Work called twice for a queue leaves the manager as if the first call had not been made: the
-- first pool, whose workers run on, is in no map any more, and Stop cannot reach it.
work_forgets :
    (queue : String) (n m : ℕ) (mgr : Manager)
    → (work queue m (work queue n mgr).1).1 ≡ (work queue m mgr).1
unfolding work
work_forgets queue n m mgr =
    ap (λ (l : List (String × Pool)). record mgr { workers = l })
      (set_pool-set_pool queue _ _ mgr.workers)

-- Stop of a manager that was stopped before panics, whatever came of the first Stop.
pub stop_twice :
    (ends again_ends : String → Option Error) (m : Manager)
    → m.finished ≡ open_channel
    → (r : Result (Unit {0})) × (m' : Manager) × (stop_manager ends m ≡ some (r, m'))
      × (stop_manager again_ends m' ≡ none)
unfolding stop_manager
stop_twice ends again_ends m fresh = (
  (stop_workers ends m.workers).0,
  record m { workers = (stop_workers ends m.workers).1; finished = closed_channel },
  ap (λ (c : Channel). after_close ends m (close_channel c)) fresh,
  refl,
)
