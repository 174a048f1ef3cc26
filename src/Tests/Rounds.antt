-- ===== src/Tests/Rounds.antt =====
-- A round of a worker on a table of jobs, with a job whose code panics.
use tasker.Base.{◌≡◌, refl, ap, subst, [], ◌∷◌, none, some, pos, str_eq, Bool-cases, inl, inr}
use tasker.Sql.Store.{postgres}
use tasker.Sql.Statement.{Result, ok, err, World}
use tasker.Sql.Claim.{claim}
use tasker.Sql.Changes.Steps.{run}
use tasker.Sql.Invariant.{IsValid, run-IsValid}
use tasker.Worker.{JobCode, Registry, panics, decode_job, work_once}
use tasker.Worker.Keeps.{CodeKeeps, RegistryKeeps}
use tasker.Worker.Sql.{Valid, Clock, sql_worker_driver, work_once-IsValid}
use tasker.Tests.Data.{empty_world, some_calls, fresh_row-IsFresh}

abbrev panicking : JobCode World
panicking = record {
  handle = λ w. (panics "nil map", w);
  before_handle = none;
  after_handle = none;
  middleware = none;
  retry_backoff = none;
  retry_until = some (pos 1);
  before_retry = none;
  on_failed = none;
}

abbrev registry : Registry World
registry = record { factories = ("Send", λ payload. ok panicking) ∷ []; global_middlewares = [] }

panicking-CodeKeeps : CodeKeeps Valid panicking
panicking-CodeKeeps = record {
  handle = λ w i. i;
  before_handle = tt;
  after_handle = tt;
  middleware = tt;
  asked = λ job e w i. i;
  on_failed = λ f missing e w i. cc;
}

abbrev code_of : Result (JobCode World) → JobCode World
code_of (ok code) = code
code_of (err e) = panicking

registry-RegistryKeeps : RegistryKeeps Valid registry
unfolding decode_job
registry-RegistryKeeps = record {
  decoded = λ kind payload code e. elim (Bool-cases (str_eq "Send" kind)) [
    | inl hit ↦
        let found : ok panicking ≡ ok code = rw (hit, decode_job) at e in
        subst (CodeKeeps Valid) (ap code_of found) panicking-CodeKeeps
    | inr miss ↦ cc (rw (miss, decode_job) at e)
  ];
  global = tt;
}

abbrev one_job : World
one_job = run empty_world some_calls

abbrev clock : Clock
clock = record { noted_at = pos 41; now = pos 42 }

work_once-IsValid_example :
    IsValid
      (work_once
        (claim postgres "mail" "n1" (pos 40) (pos 1))
        (sql_worker_driver clock)
        registry
        (pos 40)
        (pos 41)
        one_job).db
work_once-IsValid_example =
    work_once-IsValid postgres "mail" "n1" (pos 40) (pos 40) (pos 41) clock registry one_job
      registry-RegistryKeeps
      (run-IsValid some_calls empty_world refl (fresh_row-IsFresh, (tt, (tt, (tt, (tt, tt))))))
