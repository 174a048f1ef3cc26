-- ===== src/Machine/Transitions.antt =====
-- The transition table of state_machine.go as a graph, and what a finished run leads to.
use tasker.Base.{
  ◌+◌, ◌≡◌, refl, ◌≢◌, ◌⊎◌, ◌↔◌, true, Option, none, some, pos, arith, ◌≤ℤ◌, ◌<ℤ◌, ltb_ℤ, inl, inr,
  Bool-cases, ℤ, sym, subst, ltb_ℤ→<, ltb_ℤ→≥,
}
use tasker.Job.{
  State, pending, scheduled, available, running, completed, retryable, failed, cancelled, other,
  valid, terminal, JobRow, Error,
}
use tasker.Machine.{
  is_valid, validate_transition, compute_next_state, compute_backoff, effective_max,
}

-- The steps of the table validTransitions.
infix 40 ◌⟶◌ ◌⟶*◌
pub data ◌⟶◌ : State → State → Type 0 where
  release_pending : pending ⟶ available
  release_scheduled : scheduled ⟶ available
  claim : available ⟶ running
  finish : running ⟶ completed
  retry_later : running ⟶ retryable
  give_up : running ⟶ failed
  back_off : retryable ⟶ available
  rerun : completed ⟶ available
  revive : failed ⟶ available
  cancel_pending : pending ⟶ cancelled
  cancel_scheduled : scheduled ⟶ cancelled
  cancel_available : available ⟶ cancelled
  cancel_retryable : retryable ⟶ cancelled

ruleset edges = (
  release_pending, release_scheduled, claim, finish, retry_later, give_up, back_off, rerun, revive,
)

ruleset cancel_edges = (cancel_pending, cancel_scheduled, cancel_available, cancel_retryable)

pub data ◌⟶*◌ : State → State → Type 0 where
  here : {s : State} → s ⟶* s
  step : {s t u : State} → s ⟶ t → t ⟶* u → s ⟶* u

⟶-is_valid : {s t : State} → s ⟶ t → is_valid (record { from = s; to = t }) ≡ true
unfolding is_valid
⟶-is_valid release_pending = refl
⟶-is_valid release_scheduled = refl
⟶-is_valid claim = refl
⟶-is_valid finish = refl
⟶-is_valid retry_later = refl
⟶-is_valid give_up = refl
⟶-is_valid back_off = refl
⟶-is_valid rerun = refl
⟶-is_valid revive = refl
⟶-is_valid cancel_pending = refl
⟶-is_valid cancel_scheduled = refl
⟶-is_valid cancel_available = refl
⟶-is_valid cancel_retryable = refl

is_valid-⟶ : (s t : State) → is_valid (record { from = s; to = t }) ≡ true → s ⟶ t
unfolding is_valid
is_valid-⟶ s t h = grind (arith, edges, cancel_edges)

validate_transition-⟶ : (s t : State) → (validate_transition s t ≡ none) ↔ (s ⟶ t)
unfolding validate_transition
validate_transition-⟶ s t =
    ((λ h. is_valid-⟶ s t (ground arith)), (λ e. ground (arith, ⟶-is_valid e)))

-- The arrows under "Job States" in the README, but for the line between available and cancelled,
-- whose arrowhead stands at available.
pub data Drawn : State → State → Type 0 where
  pending_available : Drawn pending available
  available_running : Drawn available running
  running_completed : Drawn running completed
  running_retryable : Drawn running retryable
  retryable_available : Drawn retryable available
  running_failed : Drawn running failed

-- Steps that are not drawn there.
pub data Undrawn : State → State → Type 0 where
  scheduled_available : Undrawn scheduled available
  again_available : {s : State} → (s ≡ completed) ⊎ (s ≡ failed) → Undrawn s available
  waiting_cancelled :
      {s : State}
      → (s ≡ pending) ⊎ ((s ≡ scheduled) ⊎ ((s ≡ available) ⊎ (s ≡ retryable)))
      → Undrawn s cancelled

split_edge : {s t : State} → s ⟶ t → Drawn s t ⊎ Undrawn s t
split_edge release_pending = inl Drawn.pending_available
split_edge release_scheduled = inr Undrawn.scheduled_available
split_edge claim = inl Drawn.available_running
split_edge finish = inl Drawn.running_completed
split_edge retry_later = inl Drawn.running_retryable
split_edge give_up = inl Drawn.running_failed
split_edge back_off = inl Drawn.retryable_available
split_edge rerun = inr (Undrawn.again_available (inl refl))
split_edge revive = inr (Undrawn.again_available (inr refl))
split_edge cancel_pending = inr (Undrawn.waiting_cancelled (inl refl))
split_edge cancel_scheduled = inr (Undrawn.waiting_cancelled (inr (inl refl)))
split_edge cancel_available = inr (Undrawn.waiting_cancelled (inr (inr (inl refl))))
split_edge cancel_retryable = inr (Undrawn.waiting_cancelled (inr (inr (inr refl))))

Drawn-⟶ : {s t : State} → Drawn s t → s ⟶ t
Drawn-⟶ Drawn.pending_available = release_pending
Drawn-⟶ Drawn.available_running = claim
Drawn-⟶ Drawn.running_completed = finish
Drawn-⟶ Drawn.running_retryable = retry_later
Drawn-⟶ Drawn.retryable_available = back_off
Drawn-⟶ Drawn.running_failed = give_up

Undrawn-⟶ : {s t : State} → Undrawn s t → s ⟶ t
Undrawn-⟶ Undrawn.scheduled_available = release_scheduled
Undrawn-⟶ (Undrawn.again_available (inl e)) = subst (λ x. x ⟶ available) (sym e) rerun
Undrawn-⟶ (Undrawn.again_available (inr e)) = subst (λ x. x ⟶ available) (sym e) revive
Undrawn-⟶ (Undrawn.waiting_cancelled (inl e)) = subst (λ x. x ⟶ cancelled) (sym e) cancel_pending
Undrawn-⟶ (Undrawn.waiting_cancelled (inr (inl e))) =
    subst (λ x. x ⟶ cancelled) (sym e) cancel_scheduled
Undrawn-⟶ (Undrawn.waiting_cancelled (inr (inr (inl e)))) =
    subst (λ x. x ⟶ cancelled) (sym e) cancel_available
Undrawn-⟶ (Undrawn.waiting_cancelled (inr (inr (inr e)))) =
    subst (λ x. x ⟶ cancelled) (sym e) cancel_retryable

refuses_more :
    (validate_transition pending scheduled ≢ none)
    × (validate_transition cancelled available ≢ none)
unfolding validate_transition
refuses_more = ((λ h. cc), (λ h. cc))

-- validateTransition accepts the arrows that the README draws under "Job States" from pending to
-- available, from there to running, from there to completed, retryable and failed, and from
-- retryable to available; besides them exactly scheduled, completed or failed → available, and
-- pending, scheduled, available or retryable → cancelled. It refuses pending → scheduled, which the
-- README's list of features has, and cancelled → available, which is how the diagram draws the
-- line between these two.
pub validate_transition_iff :
    (s t : State)
    → ((validate_transition s t ≡ none) ↔ (Drawn s t ⊎ Undrawn s t))
      × (validate_transition pending scheduled ≢ none)
      × (validate_transition cancelled available ≢ none)
validate_transition_iff s t = (
  (
    (λ h. split_edge ((validate_transition-⟶ s t).0 h)),
    (λ e. (validate_transition-⟶ s t).1 (elim e [ inl d ↦ Drawn-⟶ d | inr u ↦ Undrawn-⟶ u ])),
  ),
  refuses_more.0,
  refuses_more.1,
)

-- From each of the eight states but `cancelled`, `completed` can be reached by the edges
-- of validateTransition.
reaches_completed : (s : State) → valid s ≡ true → s ≢ cancelled → s ⟶* completed
unfolding valid
reaches_completed pending v h = search (here, step, edges)
reaches_completed scheduled v h = search (here, step, edges)
reaches_completed available v h = search (here, step, edges)
reaches_completed running v h = search (here, step, edges)
reaches_completed completed v h = here
reaches_completed retryable v h = search (here, step, edges)
reaches_completed failed v h = search (here, step, edges)
reaches_completed cancelled v h = absurd (h refl)
reaches_completed (other x) v h = cc

terminal_edge : {s t : State} → s ⟶ t → terminal s ≡ true → (t ≡ available) × (s ≢ cancelled)
unfolding terminal
terminal_edge rerun h = ground arith
terminal_edge revive h = ground arith
terminal_edge release_pending h = cc
terminal_edge _ h = cc

-- Where `validateTransition` accepts a step from a terminal state, the step is to `available`, and
-- the state is not `cancelled`.
validate_transition-terminal :
    (s t : State)
    → terminal s ≡ true
    → validate_transition s t ≡ none
    → (t ≡ available) × (s ≢ cancelled)
validate_transition-terminal s t h v = terminal_edge ((validate_transition-⟶ s t).0 v) h

-- How often a job may be tried.
abbrev pub Limit : JobRow → ℤ → Type 0
Limit job m =
    ((job.max_attempts ≤ℤ pos 0) × (m ≡ pos 3))
    ⊎ ((pos 0 <ℤ job.max_attempts) × (m ≡ job.max_attempts))

pub effective_max-Limit : (job : JobRow) → Limit job (effective_max job)
effective_max-Limit job = ground arith

-- What a finished run leads to: completed without an error; with one, retryable as long as the
-- attempt number has not reached the limit, which is max_attempts, or 3 where that is not positive,
-- and else failed. The delay is that of the backoff of the next attempt where the job is retryable,
-- and 0 where it is not.
pub compute_next_state_cases :
    (job : JobRow) (r : Option Error)
    → let (next, delay) = compute_next_state job r in
      (m : ℤ) × Limit job m
      × (((r ≡ none) × (next ≡ completed) × (delay ≡ pos 0))
          ⊎ (((r ≢ none)
                × (pos (job.attempt + 1) ≤ℤ m)
                × (next ≡ retryable)
                × (delay ≡ compute_backoff job (job.attempt + 1)))
              ⊎ ((r ≢ none) × (m <ℤ pos (job.attempt + 1)) × (next ≡ failed) × (delay ≡ pos 0))))
unfolding compute_next_state
compute_next_state_cases job none =
    (effective_max job, effective_max-Limit job, inl (refl, refl, refl))
compute_next_state_cases job (some e) =
    elim (Bool-cases (ltb_ℤ (effective_max job) (pos (job.attempt + 1)))) [
      | inl over ↦ rw over (
        effective_max job,
        effective_max-Limit job,
        inr (inr ((λ h. cc), ltb_ℤ→< (effective_max job) (pos (job.attempt + 1)) over, refl, refl)),
      )
      | inr under ↦ rw under (
        effective_max job,
        effective_max-Limit job,
        inr (
            inl ((λ h. cc), ltb_ℤ→≥ (effective_max job) (pos (job.attempt + 1)) under, refl, refl)),
      )
    ]
