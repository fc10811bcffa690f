-- ===== src/Breaker.antt =====
-- packages/queueovn/src/utils/circuitBreaker.ts: the circuit breaker. `execute` awaits the call, so
-- it is two steps, `admit` before and a `settle` step after it; other calls may run between them.
pub mod States
pub mod Runs
use oblivinx.Base.{ℕ, ◌+◌, Bool, true, false, leb, if◌then◌else◌}

pub data CircuitState : Type 0 where
  closed open_circuit half_open : CircuitState

pub record Options : Type 0 where
  pub failure_threshold : ℕ
  pub recovery_time_ms : ℕ

pub record Breaker : Type 0 where
  pub state : CircuitState
  pub failure_count : ℕ
  pub last_opened_at : ℕ
  pub opts : Options

abbrev pub new_breaker : Options → Breaker
new_breaker opts = record { state = closed; failure_count = 0; last_opened_at = 0; opts = opts }

abbrev pub is_open : CircuitState → Bool
is_open open_circuit = true
is_open _ = false

-- The first part of `execute`: `false` for the fast failure. `elapsed >= recoveryTimeMs` is
-- written without the subtraction.
unfoldable pub admit : ℕ → Breaker → Bool × Breaker
admit now b =
    if is_open b.state
    then (if leb (b.last_opened_at + b.opts.recovery_time_ms) now
        then (true, record b { state = half_open })
        else (false, b))
    else (true, b)

unfoldable pub on_success : Breaker → Breaker
on_success b = record b { failure_count = 0; state = closed }

unfoldable pub on_failure : ℕ → Breaker → Breaker
on_failure now b =
    let counted = record b { failure_count = b.failure_count + 1 } in
    if leb b.opts.failure_threshold (b.failure_count + 1)
    then record counted { state = open_circuit; last_opened_at = now }
    else counted

unfoldable pub reset : Breaker → Breaker
reset b = record b { state = closed; failure_count = 0; last_opened_at = 0 }

pub data Outcome : Type 0 where
  fast_failed succeeded threw : Outcome

-- `execute` with nothing between its two parts, for a call that returns or throws at time `later`.
unfoldable pub execute : ℕ → ℕ → Bool → Breaker → Outcome × Breaker
unfolding admit on_success on_failure
execute now later returns b =
    let (allowed, probed) = admit now b in
    if allowed
    then (if returns then (succeeded, on_success probed) else (threw, on_failure later probed))
    else (fast_failed, probed)
