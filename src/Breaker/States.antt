-- ===== src/Breaker/States.antt =====
-- utils/circuitBreaker.ts: the two steps of `execute`, and `reset`, in any order.
use oblivinx.Base.{ℕ, ◌+◌, ◌≤◌, ◌<◌, ◌≡◌, ◌≢◌, true, arith}
use oblivinx.Breaker.{
  Breaker, Options, closed, open_circuit, half_open, new_breaker, admit, on_success, on_failure,
  reset,
}

-- One step: a call begins, returns or throws, or the owner resets the breaker.
pub data Step : Breaker → Breaker → Type 0 where
  begins : (now : ℕ) (b : Breaker) → Step b (admit now b).1
  returns : (b : Breaker) → Step b (on_success b)
  throws : (now : ℕ) (b : Breaker) → Step b (on_failure now b)
  resets : (b : Breaker) → Step b (reset b)

pub data Reach (b : Breaker) : Breaker → Type 0 where
  here : Reach b b
  next : {c d : Breaker} → Reach b c → Step c d → Reach b d

-- The count is below the threshold exactly while the circuit is closed.
pub record IsConsistent (b : Breaker) : Type 0 where
  pub closed_below : b.state ≡ closed → b.failure_count < b.opts.failure_threshold
  pub tripped : b.state ≢ closed → b.opts.failure_threshold ≤ b.failure_count
  pub positive : 0 < b.opts.failure_threshold

Step-IsConsistent : {b c : Breaker} → Step b c → IsConsistent b → IsConsistent c
unfolding admit on_success on_failure reset
Step-IsConsistent (begins now b) h = ground arith
Step-IsConsistent (returns b) h = ground arith
Step-IsConsistent (throws now b) h = ground arith
Step-IsConsistent (resets b) h = ground arith

-- From a new breaker with a positive threshold, after any steps in any order (a call that begins,
-- returns or throws, or a reset): while the circuit is closed the count of failures is below the
-- threshold, and while it is open or half open the count has reached it.
pub Reach-IsConsistent :
    (opts : Options) (b : Breaker)
    → 0 < opts.failure_threshold
    → Reach (new_breaker opts) b
    → IsConsistent b
Reach-IsConsistent opts b pos here = ground arith
Reach-IsConsistent opts b pos (next r s) = Step-IsConsistent s (Reach-IsConsistent opts _ pos r)

-- In a half open breaker whose count has reached the threshold, as it has after any steps from a
-- new one, a call that throws opens the circuit again at once, at the time of the failure.
pub half_open-on_failure :
    (now : ℕ) (b : Breaker)
    → IsConsistent b
    → b.state ≡ half_open
    → ((on_failure now b).state ≡ open_circuit) × ((on_failure now b).last_opened_at ≡ now)
unfolding on_failure
half_open-on_failure now b h probing = ground arith

-- A call that begins in an open circuit once the recovery time has passed is let through, and so
-- is every call that begins after it before it has returned or thrown, at any time, without a
-- change of the breaker.
pub half_open_admits_all :
    (now later : ℕ) (b : Breaker)
    → b.state ≡ open_circuit
    → b.last_opened_at + b.opts.recovery_time_ms ≤ now
    → ((admit now b).0 ≡ true)
      × ((admit later (admit now b).1).0 ≡ true)
      × ((admit later (admit now b).1).1 ≡ (admit now b).1)
unfolding admit
half_open_admits_all now later b opened due = ground arith
