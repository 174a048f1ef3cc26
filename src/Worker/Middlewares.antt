-- ===== src/Worker/Middlewares.antt =====
-- middleware.go and job_context.go: the middlewares that the program brings, and the row of the job
-- on the context.
use tasker.Base.{Option, none, some, List, [], ◌∷◌, subst, sym, text_append}
use tasker.Around.{around, around-outermost}
use tasker.Job.{failure, JobRow}
use tasker.Worker.{Outcome, returns, panics, Run, JobMiddleware}

-- What is logged is not modelled; the error, and a panic, go on.
unfoldable pub logging_middleware : {W : Type 0} → JobMiddleware W
logging_middleware next w = next w

abbrev pub recover : {W : Type 0} → Outcome × W → Outcome × W
recover (returns e, w) = (returns e, w)
recover (panics text, w) = (returns (some (failure (text_append "panic recovered: " text))), w)

unfoldable pub recovery_middleware : {W : Type 0} → JobMiddleware W
recovery_middleware next w = recover (next w)

abbrev pub Returned : {W : Type 0} → Outcome × W → Type 0
Returned (returns e, w) = Unit
Returned (panics text, w) = ⊥

recover-Returned : {W : Type 0} (p : Outcome × W) → Returned (recover p)
recover-Returned (returns e, w) = tt
recover-Returned (panics text, w) = tt

-- A run whose first middleware is RecoveryMiddleware returns, and does not panic, whatever the
-- other middlewares and the code of the job do.
around-recovered :
    {W : Type 0} (mws : List (JobMiddleware W)) (call : Run W) (w : W)
    → Returned (around (recovery_middleware ∷ mws) call w)
unfolding recovery_middleware
around-recovered mws call w =
    subst (λ (run : Run _). Returned (run w)) (sym (around-outermost recovery_middleware mws call))
      (recover-Returned (around mws call w))

-- The values on a context, the last one put there first.
pub record Context : Type 0 where
  pub rows : List JobRow

abbrev pub context_with_row : Context → Option JobRow → Context
context_with_row ctx none = ctx
context_with_row ctx (some row) = record { rows = row ∷ ctx.rows }

abbrev pub first_row : List JobRow → Option JobRow
first_row [] = none
first_row (row ∷ rows) = some row

abbrev pub row_from_context : Context → Option JobRow
row_from_context ctx = first_row ctx.rows
