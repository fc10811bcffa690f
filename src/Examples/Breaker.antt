-- ===== src/Examples/Breaker.antt =====
-- utils/circuitBreaker.ts.
use oblivinx.Base.{arith}
use oblivinx.Breaker.{Options, new_breaker, on_failure}
use oblivinx.Breaker.States.{here, next, throws, IsConsistent, Reach-IsConsistent}

abbrev two_failures : Options
two_failures = record { failure_threshold = 2; recovery_time_ms = 100 }

Reach-IsConsistent_example : IsConsistent (on_failure 5 (new_breaker two_failures))
Reach-IsConsistent_example =
    Reach-IsConsistent two_failures (on_failure 5 (new_breaker two_failures)) (omega arith)
      (next here (throws 5 (new_breaker two_failures)))
