-- ===== src/Retry.antt =====
-- packages/queueovn/src/retry: the retry policies. `Math.random()` is the argument `draw`: for a
-- ceiling it is `Math.floor(Math.random() * ceiling)`, of which the proofs use that it stays below.
pub mod Bounds
use oblivinx.Base.{ℕ, ◌*◌, ◌^◌, min, Bool, true, false, ltb, Option, none, some, default_to}
use oblivinx.Job.{RetryPolicy}
use oblivinx.Job.Errors.{Failure}

-- ExponentialBackoff.ts.
pub record ExponentialBackoff : Type 0 where
  pub max_attempts : ℕ
  pub base : ℕ
  pub cap : ℕ

unfoldable pub new_exponential : ℕ → Option ℕ → Option ℕ → ExponentialBackoff
new_exponential max_attempts base cap = record {
  max_attempts = max_attempts;
  base = default_to base 1_000;
  cap = default_to cap 60_000;
}

unfoldable pub ceiling : ExponentialBackoff → ℕ → ℕ
ceiling p attempt = min p.cap (p.base * 2 ^ attempt)

unfoldable pub exponential : (ℕ → ℕ) → ExponentialBackoff → RetryPolicy
unfolding ceiling
exponential draw p = record {
  should_retry = λ attempt _. ltb attempt p.max_attempts;
  next_delay = λ attempt _. draw (ceiling p attempt);
}

-- LinearBackoff.ts.
pub record LinearBackoff : Type 0 where
  pub max_attempts : ℕ
  pub interval : ℕ

unfoldable pub linear : LinearBackoff → RetryPolicy
linear p = record {
  should_retry = λ attempt _. ltb attempt p.max_attempts;
  next_delay = λ _ _. p.interval;
}

-- NoRetry.ts.
unfoldable pub no_retry : RetryPolicy
no_retry = record { should_retry = λ _ _. false; next_delay = λ _ _. 0 }

-- CustomRetry.ts: the delay is a constant, a function, or left out.
pub data DelayOption : Type 0 where
  default_delay : DelayOption
  constant : ℕ → DelayOption
  computed : (ℕ → Failure → ℕ) → DelayOption

delay_fn : DelayOption → ℕ → Failure → ℕ
delay_fn default_delay _ _ = 1_000
delay_fn (constant d) _ _ = d
delay_fn (computed f) attempt error = f attempt error

unfoldable pub custom : (ℕ → Failure → Bool) → DelayOption → RetryPolicy
unfolding delay_fn
custom predicate delay = record { should_retry = predicate; next_delay = delay_fn delay }
