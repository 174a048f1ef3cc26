-- ===== src/Machine/Backoff.antt =====
-- How long a retry waits.
use tasker.Base.{
  ℕ, zero, suc, ◌+◌, ◌-◌, ◌*◌, ◌%◌, ◌^◌, ◌≤◌, ◌<◌, ◌≡◌, refl, Bool, true, false, subst, Bool-cases,
  inl, inr, if◌then◌else◌, ℤ, pos, ◌≤ℤ◌, arith, leb, eqb_ℤ, ==_iff, eq_of_parts, of_word, to_word,
  mul64, shl64, modulus,
}
use Prim.Native.Nat.{min}
use native.Mathlib.Nat.{add-zero, add-suc, suc-add, zero-add, pow-suc}
use native.Mathlib.Decide.{dec_le}
use tasker.Job.{BackoffConfig, default_backoff}
use tasker.Machine.{fib_loop, fibonacci, compute_backoff_with_config}

-- No strategy waits longer than the configuration's maximum.
pub backoff-le-max :
    (cfg : BackoffConfig) (n : ℕ) → compute_backoff_with_config cfg n ≤ℤ cfg.max_delay
unfolding compute_backoff_with_config
backoff-le-max cfg n = grind arith

-- The Fibonacci numbers.
pub fib : ℕ → ℕ
fib zero = 0
fib (suc zero) = 1
fib (suc (suc n)) = fib n + fib (suc n)

fib_step :
    (i : ℕ) → (fib i % modulus + fib (suc i) % modulus) % modulus ≡ fib (suc (suc i)) % modulus
unfolding fib
fib_step i = omega arith

fib_loop_lem :
    (rounds i : ℕ)
    → fib_loop rounds (fib i % modulus) (fib (suc i) % modulus) ≡ fib (suc (i + rounds)) % modulus
unfolding fib_loop
fib_loop_lem zero i = rw add-zero
fib_loop_lem (suc rounds) i = rw (fib_step i, add-suc) (rw suc-add at (fib_loop_lem rounds (suc i)))

fib_loop_start : (rounds : ℕ) → fib_loop rounds 0 1 ≡ fib (suc rounds) % modulus
unfolding fib
fib_loop_start rounds = rw zero-add at (fib_loop_lem rounds 0)

not_one : (n : ℕ) → leb (suc (suc n)) 1 ≡ false
not_one n = ground arith

-- `fibonacci` is the Fibonacci number, wrapped to a 64-bit word.
fibonacci-eq-fib : (n : ℕ) → fibonacci n ≡ of_word (fib n % modulus)
unfolding fibonacci fib
fibonacci-eq-fib zero = refl
fibonacci-eq-fib (suc zero) = refl
fibonacci-eq-fib (suc (suc n)) = rw (not_one n) (last (suc (suc n) - 1) (omega arith))
  where
    last : (k : ℕ) → k ≡ suc n → of_word (fib_loop k 0 1) ≡ of_word (fib (suc (suc n)) % modulus)
    last k e = rw (e, fib_loop_start (suc n))

-- A table of values decides a statement about every number below a bound.
module _ (test : ℕ → Bool) where
  passes : ℕ → Bool
  passes zero = true
  passes (suc bound) = if test bound then passes bound else false

  passes-at : (bound : ℕ) → passes bound ≡ true → (i : ℕ) → i < bound → test i ≡ true
  unfolding passes
  passes-at zero table i below = absurd (omega arith)
  passes-at (suc bound) table i below = elim (Bool-cases (test bound)) [
    | inl yes_ ↦ elim (dec_le bound i) [
      | yes top ↦ let last : bound ≡ i = omega arith in subst (λ (j : ℕ). test j ≡ true) last yes_
      | no under ↦ passes-at bound (rw yes_ at table) i (omega arith)
    ]
    | inr no_ ↦ cc (rw no_ at table)
  ]

day : ℕ
day = 86_400_000_000_000

-- The delay without a machine word: two seconds, doubled for each attempt after the first, and a
-- day at most.
pub doubling : ℕ → ℤ
unfolding day
doubling n = pos (min (2_000_000_000 * 2 ^ (n - 1)) day)

doubling_agrees : ℕ → Bool
unfolding compute_backoff_with_config default_backoff doubling mul64 shl64 to_word of_word
doubling_agrees n = eqb_ℤ (compute_backoff_with_config default_backoff n) (doubling n)

doubling_table : passes doubling_agrees 34 ≡ true
unfolding passes doubling_agrees
doubling_table = refl

-- For attempt numbers up to 33 the default backoff is two seconds, doubled for each attempt after
-- the first, and a day at most.
default_backoff-doubling :
    (n : ℕ) → n < 34 → compute_backoff_with_config default_backoff n ≡ doubling n
unfolding doubling_agrees
default_backoff-doubling n h =
    eq_of_parts _ _ ((==_iff _ _).0 (passes-at doubling_agrees 34 doubling_table n h))

to_word-of_word : (w : ℕ) → w < modulus → to_word (of_word w) ≡ w
unfolding to_word of_word
to_word-of_word w h = ground arith

pow_split : (k : ℕ) → 54 ≤ k → (q : ℕ) × (2 ^ k ≡ 18_014_398_509_481_984 * q)
pow_split zero h = absurd (omega arith)
pow_split (suc k) h = elim (dec_le 54 k) [
  | yes more ↦ let (q, e) = pow_split k more in (2 * q, rw (pow-suc, e) (omega arith))
  | no last ↦ let top : k ≡ 53 = omega arith in (1, rw top refl)
]

word_vanishes :
    (q : ℕ) → to_word (pos 2_000_000_000) * (18_014_398_509_481_984 * q % modulus) % modulus ≡ 0
unfolding to_word
word_vanishes q = omega arith

of_word-zero : of_word 0 ≡ pos 0
unfolding of_word
of_word-zero = refl

shift_vanishes : (k : ℕ) → 54 ≤ k → mul64 (pos 2_000_000_000) (shl64 k) ≡ pos 0
unfolding mul64 shl64
shift_vanishes k h =
    let (q, e) = pow_split k h in
    rw (e, to_word-of_word (18_014_398_509_481_984 * q % modulus) (omega arith))
      (rw (word_vanishes q) of_word-zero)

-- From attempt 55 on the doubled delay has left the word, and the default backoff is no delay.
pub default_backoff_overflow :
    (n : ℕ) → 55 ≤ n → compute_backoff_with_config default_backoff n ≡ pos 0
unfolding compute_backoff_with_config default_backoff
default_backoff_overflow n h = rw (shift_vanishes (n - 1) (omega arith))
