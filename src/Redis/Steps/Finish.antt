-- ===== src/Redis/Steps/Finish.antt =====
-- Complete, Fail and ScheduleRetry of the Redis driver keep the index sets consistent.
use tasker.Base.{ℕ, true, Option, none, some, List, ◌∷◌, [], ◌≡◌, refl, Bool-cases, inl, inr, subst}
use tasker.Job.{State, running, retryable, JobRow, Time, Error}
use tasker.Sql.Store.{state_in}
use tasker.Redis.Store.{
  Store, find_row, zrem, running_remove, store_row, unix_micros, Sent, answered, not_run,
  reply_lost, Answer, send,
}
use tasker.Redis.Linked.{Consistent, has_member-zrem, runs, rewritten-Consistent}
use tasker.Redis.Finish.{
  complete, completed_row, fail, failed_row, schedule_retry, retryable_row, on_row, finish_step,
  fail_step, schedule_step, or_job_failed,
}
use tasker.Redis.Steps.{due_add-at, due_remove-at, still_due, running_waits, found_id, found_self}

module _ (j : ℕ) (r : JobRow) (s : Store) (found : find_row j s ≡ some r) (h : Consistent s) where
  finish_step-Consistent :
      (output : List ℕ) (now : Time) → runs r ≡ true → Consistent (finish_step j output now r s)
  finish_step-Consistent output now up =
      subst (λ k. Consistent (running_remove k (store_row (completed_row output now r) s)))
        (found_id r j s found)
        (rewritten-Consistent s r (completed_row output now r) s.due (zrem r.id s.running)
          (found_self r j s found) refl refl refl
          (λ i q. still_due s r i q h (found_self r j s found) (running_waits r up))
          (λ i. has_member-zrem i r.id s.running) h)

  fail_step-Consistent : (e : Error) (now : Time) → Consistent (fail_step j e now r s)
  fail_step-Consistent e now =
      subst (λ k. Consistent (fail_step k e now r s)) (found_id r j s found)
        (rewritten-Consistent s r (failed_row e now r) _ (zrem r.id s.running)
          (found_self r j s found) refl refl refl (λ i q. due_remove-at s r.queue r.id i q)
          (λ i. has_member-zrem i r.id s.running) h)

  schedule_step-Consistent : (e : Error) (now at : Time) → Consistent (schedule_step j e now at r s)
  schedule_step-Consistent e now at =
      subst (λ k. Consistent (schedule_step k e now at r s)) (found_id r j s found)
        (rewritten-Consistent s r (retryable_row e now at r) _ (zrem r.id s.running)
          (found_self r j s found) refl refl refl
          (λ i q. due_add-at s r.queue (unix_micros at) r.id i q)
          (λ i. has_member-zrem i r.id s.running) h)

-- A script that keeps the sets where it finds a row in those states keeps them.
on_row-Consistent :
    (states : List State) (f : JobRow → Store → Store) (s : Store) (o : Option JobRow)
    → ((r : JobRow) → o ≡ some r → state_in states r ≡ true → Consistent (f r s))
    → Consistent s
    → Consistent (on_row states f s o).1
on_row-Consistent states f s none step h = h
on_row-Consistent states f s (some r) step h = elim (Bool-cases (state_in states r)) [
  | inl good ↦ rw good (step r refl good)
  | inr bad ↦ rw bad h
]

pub send-Consistent :
    {A : Type 0} (sent : Sent) (f : Store → Answer A) (s : Store)
    → Consistent (f s).1
    → Consistent s
    → Consistent (send sent f s).1
send-Consistent answered f s after before = after
send-Consistent (not_run e) f s after before = before
send-Consistent (reply_lost e) f s after before = after

pub complete-Consistent :
    (sent : Sent) (id : ℕ) (output : List ℕ) (now : Time) (s : Store)
    → Consistent s
    → Consistent (complete sent id output now s).1
unfolding complete
complete-Consistent sent id output now s h =
    send-Consistent sent _ s
      (on_row-Consistent (running ∷ []) (finish_step id output now) s (find_row id s)
        (λ r found up. finish_step-Consistent id r s found h output now up) h)
      h

pub fail-Consistent :
    (sent : Sent) (id : ℕ) (e : Option Error) (now : Time) (s : Store)
    → Consistent s
    → Consistent (fail sent id e now s).1
unfolding fail
fail-Consistent sent id e now s h =
    send-Consistent sent _ s
      (on_row-Consistent (running ∷ retryable ∷ []) (fail_step id (or_job_failed e) now) s
        (find_row id s) (λ r found up. fail_step-Consistent id r s found h (or_job_failed e) now) h)
      h

pub schedule_retry-Consistent :
    (sent : Sent) (id : ℕ) (e : Option Error) (now at : Time) (s : Store)
    → Consistent s
    → Consistent (schedule_retry sent id e now at s).1
unfolding schedule_retry
schedule_retry-Consistent sent id e now at s h =
    send-Consistent sent _ s
      (on_row-Consistent (running ∷ []) (schedule_step id (or_job_failed e) now at) s
        (find_row id s)
        (λ r found up. schedule_step-Consistent id r s found h (or_job_failed e) now at) h)
      h
