-- ===== src/Scheduler/Entries.antt =====
-- The maps of the scheduler and the entries of cron are kept in step.
use tasker.Base.{
  ℕ, true, false, Option, none, some, List, [], ◌∷◌, String, ◌==◌, ◌≡◌, refl, sym, ◌∙◌, ap, subst,
  arith, eq_iff, eq_refl, ==_iff, is_some, change, Bool-cases, inl, inr,
}
use tasker.Job.{Error}
use tasker.Sql.Statement.{Result, ok, err}
use tasker.Scheduler.{
  ScheduledJob, Cron, Scheduler, new_scheduler, after_add, register, remove_found, remove,
}

-- A job is registered exactly when it has an entry; cron has the entries of the registered jobs
-- and no others; and no two jobs have the same entry.
pub record InStep {C J : Type 0} (cron : Cron C) (s : Scheduler C J) : Type 0 where
  pub same_ids : (id : String) → is_some (s.jobs id) ≡ is_some (s.entry_ids id)
  pub known : (id : String) (e : ℕ) → s.entry_ids id ≡ some e → cron.has_entry e s.cron ≡ true
  pub owned : (e : ℕ) → cron.has_entry e s.cron ≡ true → (id : String) × (s.entry_ids id ≡ some e)
  pub distinct : (e : ℕ) (a b : String) → s.entry_ids a ≡ some e → s.entry_ids b ≡ some e → a ≡ b

-- The calls that change the registrations.
pub data RegisterCall (J : Type 0) : Type 0 where
  registering : ScheduledJob J → RegisterCall J
  removing : String → RegisterCall J

change-is_some :
    {A : Type 0} (k j : String) (v : Option A) (f : String → Option A) (g : String → Option ℕ)
    (w : Option ℕ)
    → is_some v ≡ is_some w
    → is_some (f j) ≡ is_some (g j)
    → is_some (change k v f j) ≡ is_some (change k w g j)
change-is_some k j v f g w same rest = ground arith

module _ {C J : Type 0} (cron : Cron C) where
  abbrev pub calls_on : List (RegisterCall J) → Scheduler C J → Scheduler C J
  calls_on [] s = s
  calls_on (registering job ∷ cs) s = calls_on cs (register cron job s).1
  calls_on (removing id ∷ cs) s = calls_on cs (remove cron id s)

  add_ok-InStep :
      (job : ScheduledJob J) (s : Scheduler C J) (e : ℕ)
      → is_some (s.jobs job.id) ≡ false
      → (cron.add_func job.schedule s.cron).0 ≡ ok e
      → InStep cron s
      → InStep cron (record s {
        jobs = change job.id (some job) s.jobs;
        entry_ids = change job.id (some e) s.entry_ids;
        cron = (cron.add_func job.schedule s.cron).1;
      })
  add_ok-InStep job s e absent good h =
      let (fresh, entries) = cron.added job.schedule s.cron e good in
      let no_entry : is_some (s.entry_ids job.id) ≡ false = sym (h.same_ids job.id) ∙ absent in
      record {
        same_ids = λ id.
            change-is_some job.id id (some job) s.jobs s.entry_ids (some e) refl (h.same_ids id);
        known = λ id x at_id. ground (arith, entries x, h.known id x);
        owned = λ x has. elim (Bool-cases (e == x)) [
          | inl same ↦ (job.id, rw (eq_refl job.id) (ap some ((==_iff e x).0 same)))
          | inr other ↦
              let (id, at_id) = h.owned x (ground (arith, entries x)) in
              (id, ground (arith, eq_iff job.id id, no_entry, at_id))
        ];
        distinct = λ x a b at_a at_b. ground (
          arith,
          eq_iff job.id a,
          eq_iff job.id b,
          h.distinct x a b,
          h.known a x,
          h.known b x,
          fresh,
        );
      }

  remove-InStep :
      (id : String) (e : ℕ) (s : Scheduler C J)
      → s.entry_ids id ≡ some e
      → InStep cron s
      → InStep cron (remove_found cron id (some e) s)
  remove-InStep id e s at h = record {
    same_ids = λ j. change-is_some id j none s.jobs s.entry_ids none refl (h.same_ids j);
    known = λ j x at_j.
        ground (arith, cron.removed e s.cron x, h.known j x, h.distinct x id j, at, eq_iff id j);
    owned = λ x has.
        let (j, at_j) = h.owned x (ground (arith, cron.removed e s.cron x)) in
        (j, ground (arith, eq_iff id j, at_j, at, cron.removed e s.cron x));
    distinct = λ x a b at_a at_b. ground (arith, eq_iff id a, eq_iff id b, h.distinct x a b);
  }

  -- A schedule that is refused leaves the maps as they were.
  add_err-InStep :
      (job : ScheduledJob J) (s : Scheduler C J) (x : Error)
      → is_some (s.jobs job.id) ≡ false
      → (cron.add_func job.schedule s.cron).0 ≡ err x
      → InStep cron s
      → InStep cron (record s {
        jobs = change job.id none (change job.id (some job) s.jobs);
        cron = (cron.add_func job.schedule s.cron).1;
      })
  add_err-InStep job s x absent bad h =
      let same = cron.refused job.schedule s.cron x bad in
      record {
        same_ids = λ id. ground (arith, h.same_ids id, eq_iff job.id id, absent);
        known = λ id e at_id. same e ∙ h.known id e at_id;
        owned = λ e has. h.owned e (sym (same e) ∙ has);
        distinct = h.distinct;
      }

  after_add-InStep :
      (job : ScheduledJob J) (s : Scheduler C J) (a : Result ℕ × C)
      → is_some (s.jobs job.id) ≡ false
      → cron.add_func job.schedule s.cron ≡ a
      → InStep cron s
      → InStep cron (after_add job a (record s { jobs = change job.id (some job) s.jobs })).1
  after_add-InStep job s (ok e, c) absent is h =
      subst
        (λ k. InStep cron (record s {
          jobs = change job.id (some job) s.jobs;
          entry_ids = change job.id (some e) s.entry_ids;
          cron = k;
        }))
        (ap (λ (p : Result ℕ × C). p.1) is)
        (add_ok-InStep job s e absent (ap (λ (p : Result ℕ × C). p.0) is) h)
  after_add-InStep job s (err x, c) absent is h =
      subst
        (λ k.
          InStep cron
            (record s { jobs = change job.id none (change job.id (some job) s.jobs); cron = k }))
        (ap (λ (p : Result ℕ × C). p.1) is)
        (add_err-InStep job s x absent (ap (λ (p : Result ℕ × C). p.0) is) h)

  register-InStep :
      (job : ScheduledJob J) (s : Scheduler C J)
      → InStep cron s
      → InStep cron (register cron job s).1
  unfolding register
  register-InStep job s h = elim (Bool-cases (is_some (s.jobs job.id))) [
    | inl there ↦ rw there h
    | inr absent ↦ rw absent (after_add-InStep job s _ absent refl h)
  ]

  remove_found-InStep :
      (id : String) (o : Option ℕ) (s : Scheduler C J)
      → s.entry_ids id ≡ o
      → InStep cron s
      → InStep cron (remove_found cron id o s)
  remove_found-InStep id none s at h = h
  remove_found-InStep id (some e) s at h = remove-InStep id e s at h

  calls_from :
      (cs : List (RegisterCall J)) (s : Scheduler C J) → InStep cron s → InStep cron (calls_on cs s)
  unfolding remove
  calls_from [] s h = h
  calls_from (registering job ∷ cs) s h =
      calls_from cs (register cron job s).1 (register-InStep job s h)
  calls_from (removing id ∷ cs) s h =
      calls_from cs (remove cron id s) (remove_found-InStep id (s.entry_ids id) s refl h)

  -- From a new scheduler whose cron has no entries, any calls of Register and Remove, with any
  -- schedules refused, leave its maps in step with cron: an id is registered exactly when it has an
  -- entry, cron has the entries of the registered ids and no others, and no two ids share an entry.
  pub calls_on-InStep :
      (c : C) (cs : List (RegisterCall J))
      → ((e : ℕ) → cron.has_entry e c ≡ false)
      → InStep cron (calls_on cs (new_scheduler c))
  calls_on-InStep c cs no_entries = calls_from cs (new_scheduler c) (record {
    same_ids = λ id. refl;
    known = λ id e at_id. cc;
    owned = λ e has. let never : false ≡ true = sym (no_entries e) ∙ has in cc;
    distinct = λ e a b at_a at_b. cc;
  })
