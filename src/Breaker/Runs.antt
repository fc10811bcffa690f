-- ===== src/Breaker/Runs.antt =====
-- utils/circuitBreaker.ts, `execute`: one call after the other.
use oblivinx.Base.{ℕ, ◌+◌, ◌<◌, ◌≡◌, refl, Bool, false, arith, List, [], ◌∷◌, ◌++◌, ◌∙◌, length}
use oblivinx.Breaker.{Breaker, closed, open_circuit, fast_failed, execute}

-- Calls that throw, one after the other, each at its time.
unfoldable pub throw_all : List ℕ → Breaker → Breaker
throw_all [] b = b
throw_all (now ∷ times) b = throw_all times (execute now now false b).1

-- From a closed breaker, while the calls that throw one after the other are fewer than are left to
-- the threshold, the circuit stays closed, and the count has grown by their number.
pub throw_all_closed :
    (times : List ℕ) (b : Breaker)
    → b.state ≡ closed
    → b.failure_count + length times < b.opts.failure_threshold
    → ((throw_all times b).state ≡ closed)
      × ((throw_all times b).failure_count ≡ b.failure_count + length times)
unfolding throw_all execute
throw_all_closed [] b h few = (h, omega arith)
throw_all_closed (now ∷ times) b h few =
    ground (arith, throw_all_closed times (execute now now false b).1)

throw_all-append :
    (xs ys : List ℕ) (b : Breaker) → throw_all (xs ++ ys) b ≡ throw_all ys (throw_all xs b)
unfolding throw_all
throw_all-append [] ys b = refl
throw_all-append (x ∷ xs) ys b = throw_all-append xs ys (execute x x false b).1

opts-throw_all : (times : List ℕ) (b : Breaker) → (throw_all times b).opts ≡ b.opts
unfolding throw_all execute
opts-throw_all [] b = refl
opts-throw_all (now ∷ times) b = opts-throw_all times (execute now now false b).1 ∙ ground arith

last_throw :
    (now : ℕ) (b : Breaker)
    → b.state ≡ closed
    → b.failure_count + 1 ≡ b.opts.failure_threshold
    → ((execute now now false b).1.state ≡ open_circuit)
      × ((execute now now false b).1.last_opened_at ≡ now)
unfolding execute
last_throw now b h full = ground arith

fast_fails :
    (now later : ℕ) (returns : Bool) (b : Breaker)
    → b.state ≡ open_circuit
    → now < b.last_opened_at + b.opts.recovery_time_ms
    → execute now later returns b ≡ (fast_failed, b)
unfolding execute
fast_fails now later returns b opened early = ground arith

-- From a closed breaker, if calls throw one after the other until the count reaches the threshold,
-- the circuit is open after the last of them; and a call that begins before the recovery time has
-- passed since then fails fast and changes nothing, whether the function it is given would return
-- or throw.
pub throw_all_opens :
    (times : List ℕ) (last now later : ℕ) (returns : Bool) (b : Breaker)
    → b.state ≡ closed
    → b.failure_count + length times + 1 ≡ b.opts.failure_threshold
    → now < last + b.opts.recovery_time_ms
    → ((throw_all (times ++ last ∷ []) b).state ≡ open_circuit)
      × (execute now later returns (throw_all (times ++ last ∷ []) b)
          ≡ (fast_failed, throw_all (times ++ last ∷ []) b))
throw_all_opens times last now later returns b h full early =
    let mid = throw_all times b in
    let still = throw_all_closed times b h (omega arith) in
    let kept = opts-throw_all times b in
    let same = throw_all-append times (last ∷ []) b in
    let opened = last_throw last mid still.0 (ground (arith, kept, still.1)) in
    let kept_too = opts-throw_all (last ∷ []) mid in
    let at_last : (throw_all (last ∷ []) mid).last_opened_at ≡ last =
      unfold throw_all in opened.1 in
    rw same (
      unfold throw_all in opened.0,
      fast_fails now later returns (throw_all (last ∷ []) mid) (unfold throw_all in opened.0)
          (ground (arith, kept, kept_too, at_last)),
    )
