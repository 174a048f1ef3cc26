-- ===== src/Worker/Sql.antt =====
-- The worker over the SQL driver.
use tasker.Base.{String, pos}
use tasker.Job.{Time}
use tasker.Sql.Store.{Dialect}
use tasker.Sql.Statement.{World}
use tasker.Sql.Claim.{claim}
use tasker.Sql.Finish.{complete, fail, schedule_retry}
use tasker.Sql.Invariant.{IsValid, Changes-IsValid}
use tasker.Sql.Changes.{Label}
use tasker.Sql.Changes.Calls.{complete-Does, fail-Does, schedule_retry-Does}
use tasker.Sql.Changes.Claims.{claim-Does}
use tasker.Worker.{WorkerDriver, Registry, work_once}
use tasker.Worker.Keeps.{DriverKeeps, RegistryKeeps, work_once-Keeps}

-- What the driver's clock shows in the call that ends the run.
pub record Clock : Type 0 where
  pub noted_at : Time
  pub now : Time

abbrev pub sql_worker_driver : Clock → WorkerDriver World
sql_worker_driver clock = record {
  complete = λ id output. complete id output clock.now;
  schedule_retry = λ id e scheduled_at. schedule_retry id e scheduled_at clock.noted_at;
  fail = λ id e. fail id e clock.noted_at clock.now;
}

abbrev pub Valid : World → Type 0
Valid w = IsValid w.db

AnyLabel : Label → Type 0
AnyLabel l = Unit

sql_worker_driver-Keeps : (clock : Clock) → DriverKeeps Valid (sql_worker_driver clock)
unfolding AnyLabel
sql_worker_driver-Keeps clock = record {
  completing =
      λ id output w v. Changes-IsValid (complete-Does AnyLabel id output clock.now tt w v.keyed) v;
  retrying = λ id e at w v.
      Changes-IsValid (schedule_retry-Does AnyLabel id e at clock.noted_at tt w v.keyed) v;
  failing =
      λ id e w v. Changes-IsValid (fail-Does AnyLabel id e clock.noted_at clock.now tt w v.keyed) v;
}

-- A round of a worker over the SQL driver, in any dialect, keeps a valid jobs table valid, however the
-- job ends and whichever statements fail, as long as the code of each job that can be decoded and the
-- middlewares keep it valid.
pub work_once-IsValid :
    (dialect : Dialect) (queue node : String) (claimed_at now retry_from : Time) (clock : Clock)
    (reg : Registry World) (w : World)
    → RegistryKeeps Valid reg
    → IsValid w.db
    → IsValid
        (work_once
          (claim dialect queue node claimed_at (pos 1))
          (sql_worker_driver clock)
          reg
          now
          retry_from
          w).db
unfolding AnyLabel
work_once-IsValid dialect queue node claimed_at now retry_from clock reg w keep v =
    work_once-Keeps Valid (claim dialect queue node claimed_at (pos 1)) (sql_worker_driver clock)
      reg now retry_from w
      (λ u i.
        Changes-IsValid (claim-Does AnyLabel dialect queue node claimed_at (pos 1) tt u i.keyed) i)
      (sql_worker_driver-Keeps clock) keep v
