-- ===== src/Scheduler/Service.antt =====
-- Start and Stop of the scheduler: cron, which is a parameter, is started and stopped with it.
use tasker.Base.{Bool, true, false, not, Option, none, some, if◌then◌else◌}
use tasker.Job.{Error}
use tasker.Sql.Statement.{Result, ok, err}

-- `fires` is whether cron fires entries, and `context_live` whether the context is not cancelled
-- under which their jobs are dispatched.
pub record Service : Type 0 where
  pub running : Bool
  pub context_live : Bool
  pub fires : Bool

abbrev pub new_service : Service
new_service = record { running = false; context_live = false; fires = false }

unfoldable pub start : Service → Result (Unit {0}) × Service
start s =
    if s.running
    then (ok tt, s)
    else (ok tt, record { running = true; context_live = true; fires = true })

-- `ctx_err` is the context's error if it ends before the running entries of cron do.
unfoldable pub stop : Option Error → Service → Result (Unit {0}) × Service
stop ctx_err s = if not s.running then (ok tt, s) else (
  elim ctx_err [ none ↦ ok tt | some e ↦ err e ],
  record { running = false; context_live = false; fires = false },
)
