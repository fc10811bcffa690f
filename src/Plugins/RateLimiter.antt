-- ===== src/Plugins/RateLimiter.antt =====
-- plugins/RateLimiter.ts: a bucket of tokens for each key, filled again when its window has passed.
-- `keyFn` is a parameter.
pub mod Window
use oblivinx.Base.{ℕ, ◌+◌, ◌-◌, Bool, String, Option, none, some, leb, if◌then◌else◌, List, [], ◌∷◌}
use oblivinx.Base.Dict.{Dict, lookup, insert}
use oblivinx.Job.{Job}
use oblivinx.Job.Errors.{Failure, rate_limit}

pub record Bucket : Type 0 where
  pub tokens : ℕ
  pub reset_at : ℕ

pub record RateLimiter : Type 0 where
  pub buckets : Dict Bucket
  pub limit : ℕ
  pub window_ms : ℕ

abbrev pub new_limiter : ℕ → ℕ → RateLimiter
new_limiter limit window_ms = record { buckets = []; limit = limit; window_ms = window_ms }

abbrev pub full_bucket : ℕ → RateLimiter → Bucket
full_bucket now r = record { tokens = r.limit; reset_at = now + r.window_ms }

-- `if (!bucket || now >= bucket.resetAt) bucket = ...`.
unfoldable pub current_bucket : ℕ → RateLimiter → Option Bucket → Bucket
current_bucket now r none = full_bucket now r
current_bucket now r (some bucket) = if leb bucket.reset_at now then full_bucket now r else bucket

-- A bucket with no token left throws; it was put in the map if it is new.
spend : String → Bucket → RateLimiter → RateLimiter × Option Failure
spend key bucket r =
    if leb bucket.tokens 0
    then (record r { buckets = insert key bucket r.buckets }, some (rate_limit key))
    else (
      record r { buckets = insert key (record bucket { tokens = bucket.tokens - 1 }) r.buckets },
      none,
    )

module _ (key_fn : Job → String) where
  unfoldable pub on_enqueue : ℕ → Job → RateLimiter → RateLimiter × Option Failure
  unfolding spend current_bucket
  on_enqueue now job r =
      let key = key_fn job in spend key (current_bucket now r (lookup key r.buckets)) r
