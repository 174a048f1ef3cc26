-- ===== src/Scheduler.antt =====
-- The scheduler of scheduler/scheduler.go: its two maps beside the entries of cron, which is a
-- parameter, and the firing of an entry. The maps are read by id only: List is not modelled.
pub mod Entries
pub mod Service
use tasker.Base.{
  ℕ, Bool, true, false, Option, none, some, List, [], ◌∷◌, ◌++◌, String, ◌==◌, ◌≡◌, if◌then◌else◌,
  str_eq, is_some, change, ◌-ℤ◌,
}
use tasker.Job.{Time, Duration, JobRow, Error}
use tasker.Dispatch.{DispatchOpt, on_queue}
use tasker.Sql.Statement.{Result, ok, err}

-- J is what a job is.
pub record ScheduledJob (J : Type 0) : Type 0 where
  pub id : String
  pub schedule : String
  pub job : J
  pub queue : String
  pub opts : List DispatchOpt

-- What the scheduler uses of cron: AddFunc refuses a schedule that it cannot parse and changes
-- nothing, and else adds an entry with a new id; Remove removes that entry.
pub record Cron (C : Type 0) : Type 0 where
  pub add_func : String → C → Result ℕ × C
  pub remove_entry : ℕ → C → C
  pub has_entry : ℕ → C → Bool
  pub added :
      (schedule : String) (c : C) (e : ℕ)
      → (add_func schedule c).0 ≡ ok e
      → (has_entry e c ≡ false)
        × ((j : ℕ) → has_entry j (add_func schedule c).1 ≡ (if e == j then true else has_entry j c))
  pub refused :
      (schedule : String) (c : C) (x : Error)
      → (add_func schedule c).0 ≡ err x
      → (j : ℕ) → has_entry j (add_func schedule c).1 ≡ has_entry j c
  pub removed :
      (e : ℕ) (c : C) (j : ℕ)
      → has_entry j (remove_entry e c) ≡ (if e == j then false else has_entry j c)

-- The maps are changed under one lock.
pub record Scheduler (C J : Type 0) : Type 0 where
  pub jobs : String → Option (ScheduledJob J)
  pub entry_ids : String → Option ℕ
  pub cron : C

module _ {C J : Type 0} where
  abbrev pub new_scheduler : C → Scheduler C J
  new_scheduler c = record { jobs = λ _. none; entry_ids = λ _. none; cron = c }

  -- After AddFunc: the job was put into the map before it.
  abbrev pub after_add :
      ScheduledJob J → Result ℕ × C → Scheduler C J → Result (Unit {0}) × Scheduler C J
  after_add job (err x, c) s = (err x, record s { jobs = change job.id none s.jobs; cron = c })
  after_add job (ok e, c) s =
      (ok tt, record s { entry_ids = change job.id (some e) s.entry_ids; cron = c })

  unfoldable pub register :
      Cron C → ScheduledJob J → Scheduler C J → Result (Unit {0}) × Scheduler C J
  register cron job s =
      if is_some (s.jobs job.id)
      then (ok tt, s)
      else after_add job (cron.add_func job.schedule s.cron)
          (record s { jobs = change job.id (some job) s.jobs })

  abbrev pub remove_found : Cron C → String → Option ℕ → Scheduler C J → Scheduler C J
  remove_found cron id none s = s
  remove_found cron id (some e) s = record {
    cron = cron.remove_entry e s.cron;
    entry_ids = change id none s.entry_ids;
    jobs = change id none s.jobs;
  }

  unfoldable pub remove : Cron C → String → Scheduler C J → Scheduler C J
  remove cron id s = remove_found cron id (s.entry_ids id) s

-- One firing of an entry.
pub record Run (J : Type 0) : Type 0 where
  pub id : String
  pub schedule : String
  pub queue : String
  pub job : J
  pub at : Time
  pub duration : Duration
  pub error : Option Error

-- A listener, on what it changes; it may panic, which is a text.
abbrev pub Listener : Type 0 → Type 0 → Type 0
Listener W J = Run J → W → Option String × W

module _ {J : Type 0} where
  abbrev pub run_of : ScheduledJob J → Time → Time → Result JobRow → Run J
  run_of job started ended (ok row) = record {
    id = job.id;
    schedule = job.schedule;
    queue = job.queue;
    job = job.job;
    at = started;
    duration = ended -ℤ started;
    error = none;
  }
  run_of job started ended (err e) = record {
    id = job.id;
    schedule = job.schedule;
    queue = job.queue;
    job = job.job;
    at = started;
    duration = ended -ℤ started;
    error = some e;
  }

module _ {W J : Type 0} where
  -- A panic is logged.
  abbrev pub deliver : Listener W J → Run J → W → W
  deliver listen run w = (listen run w).1

  unfoldable pub deliver_all : List (Listener W J) → Run J → W → W
  deliver_all [] run w = w
  deliver_all (l ∷ ls) run w = deliver_all ls run (deliver l run w)

  -- `dispatch` is the manager's Dispatch; the job's queue comes before its own options.
  unfoldable pub dispatch_job :
      (J → List DispatchOpt → W → Result JobRow × W)
      → List (Listener W J)
      → Time
      → Time
      → ScheduledJob J
      → W
      → W
  unfolding deliver_all
  dispatch_job dispatch listeners started ended job w =
      let (r, w') = dispatch job.job (on_queue job.queue ∷ job.opts) w in
      deliver_all listeners (run_of job started ended r) w'
