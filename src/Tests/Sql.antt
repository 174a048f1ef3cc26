-- ===== src/Tests/Sql.antt =====
-- The theorems about the SQL driver at concrete tables.
use tasker.Base.{
  ◌≤◌, length, ◌≡◌, ◌≢◌, refl, ◌⊎◌, inl, String, true, false, sym, ◌∙◌, str_eq, eq_iff, some, [],
  ◌∷◌, pos, arith, All, Memᴰ,
}
use tasker.Sql.Store.{postgres}
use tasker.Sql.Statement.{ok}
use tasker.Sql.Enqueue.{enqueue_rows}
use tasker.Sql.Claim.{chosen, claim_update}
use tasker.Sql.Finish.{fail}
use tasker.Sql.Lease.{acquire_lock}
use tasker.Sql.Changes.Steps.{run}
use tasker.Sql.Invariant.{IsValid, run-IsValid}
use tasker.Sql.Taken.{Disjoint, claim_update-Disjoint, AllTaken, claim_update-Taken}
use tasker.Sql.Claimed.{Takes, TakesFirst, chosen_first}
use tasker.Sql.Batch.{BatchDone, enqueue_rows_atomic}
use tasker.Sql.Outcomes.{AllOrNothing, FailedInto, fail_outcome}
use tasker.Sql.Locks.{HeldBy, acquire_lock-excluded}
use tasker.Sql.Pending.{idle-stays}
use tasker.Tests.Data.{
  fresh_row, first_row, pending_row, some_rows, some_locks, some_db, some_world, empty_world,
  some_calls, fresh_row-IsFresh,
}

run-IsValid_example : IsValid (run empty_world some_calls).db
run-IsValid_example =
    run-IsValid some_calls empty_world refl (fresh_row-IsFresh, (tt, (tt, (tt, (tt, tt)))))

claim_update-Disjoint_example :
    let (r, v) = claim_update postgres "mail" "n1" (pos 10) 1 some_world in
    Disjoint postgres "mail" "n1"
      (pos 10)
      1
      "mail"
      "n2"
      (pos 11)
      5
      r
      (claim_update postgres "mail" "n2" (pos 11) 5 v).0
claim_update-Disjoint_example =
    claim_update-Disjoint postgres "mail" "n1" (pos 10) 1 "mail" "n2" (pos 11) 5 some_world
      (omega arith)

chosen_first_example :
    (length (chosen (pos 10) "mail" 1 some_rows) ≤ 1)
    × All (Takes (pos 10) "mail" some_rows) (chosen (pos 10) "mail" 1 some_rows)
    × (Memᴰ first_row.id (chosen (pos 10) "mail" 1 some_rows)
        ⊎ ((length (chosen (pos 10) "mail" 1 some_rows) ≡ 1)
            × All
                (TakesFirst (pos 10) "mail" some_rows first_row)
                (chosen (pos 10) "mail" 1 some_rows)))
chosen_first_example =
    chosen_first (pos 10) "mail" 1 some_rows first_row (Memᴰ.head refl)
      (refl, inl refl, omega arith, omega arith)

enqueue_rows_atomic_example :
    BatchDone (fresh_row ∷ []) some_db (enqueue_rows (fresh_row ∷ []) some_world)
enqueue_rows_atomic_example = enqueue_rows_atomic (fresh_row ∷ []) some_world

fail_outcome_example :
    AllOrNothing some_db
      (λ u d. FailedInto 3 (some "timeout") some_world (pos 12) (pos 13) d)
      (fail 3 (some "timeout") (pos 12) (pos 13) some_world)
fail_outcome_example = fail_outcome 3 (some "timeout") some_world (pos 12) (pos 13)

claim_update-Taken_example :
    AllTaken postgres "mail" "n1"
      (pos 10)
      2
      (claim_update postgres "mail" "n1" (pos 10) 2 some_world)
claim_update-Taken_example =
    claim_update-Taken postgres "mail" "n1" (pos 10) 2 some_world (omega arith)

distinct_nodes : ◌≢◌ {A = String} "n1" "n2"
distinct_nodes same =
    let equal : str_eq "n1" "n2" ≡ true = (eq_iff "n1" "n2").1 same in
    let other : str_eq "n1" "n2" ≡ false = refl in
    let absurd_ : false ≡ true = sym other ∙ equal in cc

some_lock-HeldBy : HeldBy "k" "n1" (pos 20) some_locks
some_lock-HeldBy = record { owned = ((λ _. (refl, refl)), tt); present = refl }

acquire_lock-excluded_example :
    let (r, v) = acquire_lock "k" "n2" (pos 30) (pos 20) some_world in
    (r ≢ ok true) × HeldBy "k" "n1" (pos 20) v.db.locks
acquire_lock-excluded_example =
    acquire_lock-excluded "k" "n1" "n2" (pos 30) (pos 20) some_world distinct_nodes some_lock-HeldBy

idle-stays_example : Memᴰ pending_row (run some_world some_calls).db.jobs
idle-stays_example =
    idle-stays pending_row some_calls some_world (inl refl)
      (Memᴰ.tail (Memᴰ.tail (Memᴰ.tail (Memᴰ.head refl)))) (omega arith) (grind arith)
      (fresh_row-IsFresh, (tt, (tt, (tt, (tt, tt)))))
