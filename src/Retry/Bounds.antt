-- ===== src/Retry/Bounds.antt =====
-- retry/ExponentialBackoff.ts, `nextDelay`.
use native.Mathlib.Nat.{pow-suc}
use oblivinx.Base.{ℕ, suc, ◌*◌, ◌^◌, ◌≤◌, ◌≡◌, min, arith}
use oblivinx.Job.Errors.{Failure}
use oblivinx.Retry.{ExponentialBackoff, ceiling, exponential}

module _ (draw : ℕ → ℕ) (below : (c : ℕ) → draw c ≤ c) (p : ExponentialBackoff) (attempt : ℕ)
    (error : Failure) where
  -- If a draw is at most its ceiling, the delay of the exponential policy is at most the cap, and
  -- at most the base times two to the power of the attempt.
  pub next_delay_bounds :
      ((exponential draw p).next_delay attempt error ≤ p.cap)
      × ((exponential draw p).next_delay attempt error ≤ p.base * 2 ^ attempt)
  unfolding exponential
  next_delay_bounds =
      (omega (arith, below (ceiling p attempt)), omega (arith, below (ceiling p attempt)))

-- The ceiling of the next attempt is the double of this attempt's ceiling, or the cap if that is
-- less.
pub ceiling-suc : (p : ExponentialBackoff) (n : ℕ) → ceiling p (suc n) ≡ min p.cap (2 * ceiling p n)
unfolding ceiling
ceiling-suc p n = rw pow-suc (grind arith)
