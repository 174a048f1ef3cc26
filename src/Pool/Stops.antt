-- ===== src/Pool/Stops.antt =====
-- What StopAll leaves of the pools.
use tasker.Base.{true, false, Option, none, some, List, [], ◌∷◌, ◌++◌, String, ◌≡◌, ◌⊎◌, All}
use tasker.Job.{Error}
use tasker.Sql.Statement.{Result, ok, err}
use tasker.Pool.{Pool, stop}

-- The pool that is not running any more, with all its workers told to stop.
abbrev pub told_to_stop : Pool → Pool
told_to_stop p = record p { running = false; stopping = p.stopping ++ p.workers }

-- A pool that is not running is left as it is; else its workers are told to stop, and the context
-- does not end first.
abbrev pub CanStop : (String → Option Error) → String × Pool → Type 0
CanStop ends (q, p) =
    ((p.running ≡ false) × (stop (ends q) p ≡ (ok tt, p)))
    ⊎ ((p.running ≡ true) × (ends q ≡ none) × (stop (ends q) p ≡ (ok tt, told_to_stop p)))

-- All pools were stopped and are gone; or one of them is the first whose workers did not end in
-- time: it stays, as a pool that is not running, and so do those after it, untouched.
abbrev pub StopsAll :
    (String → Option Error)
    → List (String × Pool)
    → Result (Unit {0}) × List (String × Pool)
    → Type 0
StopsAll ends pools (ok u, left) = All (CanStop ends) pools × (left ≡ [])
StopsAll ends pools (err e, left) =
    (before : List (String × Pool)) × (after : List (String × Pool)) × (q : String) × (p : Pool)
    × (pools ≡ before ++ (q, p) ∷ after)
    × All (CanStop ends) before
    × (ends q ≡ some e)
    × (p.running ≡ true)
    × (left ≡ (q, told_to_stop p) ∷ after)
