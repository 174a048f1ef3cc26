-- ===== src/Supervisor/Restart.antt =====
-- Stopping a supervisor a second time, after it was started again.
use tasker.Base.{pos, ◌≤ℤ◌, ◌≡◌, true, Option, some}
use tasker.Sql.Statement.{World}
use tasker.Supervisor.{Config, Supervisor}

-- Intervals for which time.NewTicker does not panic.
abbrev pub CanTick : Config → Type 0
CanTick cfg =
    (pos 1 ≤ℤ cfg.heartbeat_interval)
    × (pos 1 ≤ℤ cfg.requeue_interval)
    × (pos 1 ≤ℤ cfg.prune_interval)

-- A start that does not panic.
abbrev pub Starts : Supervisor → Option (Supervisor × World) → Type 0
Starts s o =
    (t : Supervisor) × (v : World) × (o ≡ some (t, v))
    × (t.running ≡ true)
    × (t.stopped ≡ s.stopped)
