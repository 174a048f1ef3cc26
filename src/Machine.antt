-- ===== src/Machine.antt =====
-- state_machine.go: the table of transitions, the next state of a finished run, and backoff.
pub mod Backoff
pub mod Transitions
use tasker.Base.{
  ℕ, zero, suc, ◌+◌, ◌-◌, ◌%◌, Bool, true, false, Option, none, some, List, [], ◌∷◌, ℤ, pos, ltb,
  leb_ℤ, ltb_ℤ, leb, if◌then◌else◌, any, mul64, shl64, of_word, modulus, text_append,
}
use tasker.Job.{
  State, pending, scheduled, available, running, completed, retryable, failed, cancelled, other,
  same, Duration, JobRow, Error, BackoffStrategy, BackoffConfig, exponential, fixed, other_strategy,
  default_backoff, failure, state_text,
}
use tasker.Job

pub record Transition : Type 0 where
  pub from : State
  pub to : State

-- The map `validTransitions`; a key that is missing has none.
abbrev pub valid_transitions : State → Option (List State)
valid_transitions pending = some (available ∷ cancelled ∷ [])
valid_transitions scheduled = some (available ∷ cancelled ∷ [])
valid_transitions available = some (running ∷ cancelled ∷ [])
valid_transitions running = some (completed ∷ retryable ∷ failed ∷ [])
valid_transitions retryable = some (available ∷ cancelled ∷ [])
valid_transitions completed = some (available ∷ [])
valid_transitions failed = some (available ∷ [])
valid_transitions cancelled = some []
valid_transitions (other s) = none

unfoldable pub is_valid : Transition → Bool
is_valid t = elim (valid_transitions t.from) [
  | none ↦ false
  | some allowed ↦ any (λ s. same s t.to) allowed
]

abbrev bad_transition : State → State → Error
bad_transition from to = failure (
    text_append "invalid state transition: "
      (text_append (state_text from) (text_append " -> " (state_text to))))

unfoldable pub validate_transition : State → State → Option Error
unfolding is_valid
validate_transition from to =
    if is_valid (record { from = from; to = to }) then none else some (bad_transition from to)

-- The loop of `fibonacci` over `(a, b)`, with the rounds left; sums wrap at 64 bits.
unfoldable pub fib_loop : ℕ → ℕ → ℕ → ℕ
fib_loop zero a b = b
fib_loop (suc rounds) a b = fib_loop rounds b ((a + b) % modulus)

unfoldable pub fibonacci : ℕ → ℤ
unfolding fib_loop of_word
fibonacci n = if leb n 1 then pos n else of_word (fib_loop (n - 1) 0 1)

abbrev cap : Duration → Duration → Duration
cap max_delay delay = if ltb_ℤ max_delay delay then max_delay else delay

by_strategy : BackoffStrategy → BackoffConfig → ℕ → Duration
unfolding fibonacci
by_strategy exponential cfg n = cap cfg.max_delay (mul64 cfg.base (shl64 (n - 1)))
by_strategy Job.fibonacci cfg n = cap cfg.max_delay (mul64 (fibonacci n) cfg.base)
by_strategy fixed cfg n = if ltb_ℤ cfg.max_delay cfg.base then cfg.max_delay else cfg.base
by_strategy (other_strategy s) cfg n = cap cfg.max_delay (mul64 cfg.base (shl64 (n - 1)))

-- Both callers pass the attempt plus one, so the shift is by a number.
unfoldable pub compute_backoff_with_config : BackoffConfig → ℕ → Duration
unfolding by_strategy
compute_backoff_with_config cfg next_attempt = by_strategy cfg.strategy cfg next_attempt

unfoldable pub compute_backoff : JobRow → ℕ → Duration
unfolding compute_backoff_with_config default_backoff
compute_backoff job next_attempt = compute_backoff_with_config default_backoff next_attempt

-- `maxAttempts` after its default.
abbrev pub effective_max : JobRow → ℤ
effective_max job = if leb_ℤ job.max_attempts (pos 0) then pos 3 else job.max_attempts

unfoldable pub compute_next_state : JobRow → Option Error → State × Duration
compute_next_state job none = (completed, pos 0)
compute_next_state job (some e) =
    let next_attempt = job.attempt + 1 in
    if ltb_ℤ (effective_max job) (pos next_attempt)
    then (failed, pos 0)
    else (retryable, compute_backoff job next_attempt)

unfoldable pub should_requeue : Duration → Bool
should_requeue node_timeout = ltb_ℤ (pos 0) node_timeout
