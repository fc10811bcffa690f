-- ===== src/Client/RateLimiter.antt =====
-- packages/oblivinx3x/src/security/rate-limiter.ts. Tokens are counted in thousandths, so that a
-- refill of some milliseconds is exact: `elapsed * refillRate` tokens, with `elapsed` in seconds, are
-- `ms * rate` thousandths. The rounding of floating-point numbers is left out. The time of
-- `Date.now()` is an argument, and does not go back. `Math.ceil(rate * 0.5 * 0.1)` is the twentieth
-- of the rate, rounded up.
pub mod Fed
pub mod Bounds
use oblivinx.Base.{
  ℕ, ◌+◌, ◌-◌, ◌*◌, ◌/◌, min, Bool, true, false, String, Option, none, some, List, [], ◌∷◌,
  if◌then◌else◌, leb, default_to, is_some,
}
use oblivinx.Base.Dict.{Dict, lookup, insert, erase}

abbrev pub default_rate : ℕ
default_rate = 10_000

-- `TokenBucket`.
pub record TokenBucket : Type 0 where
  pub capacity : ℕ
  pub refill_rate : ℕ
  pub tokens : ℕ
  pub last_refill : ℕ

unfoldable pub new_bucket : ℕ → ℕ → TokenBucket
new_bucket now rate = record {
  capacity = (rate + (rate + 19) / 20) * 1_000;
  refill_rate = rate;
  tokens = rate * 1_000;
  last_refill = now;
}

abbrev pub refill : ℕ → TokenBucket → TokenBucket
refill now b = record b {
  tokens = min b.capacity (b.tokens + (now - b.last_refill) * b.refill_rate);
  last_refill = now;
}

unfoldable pub try_consume : ℕ → TokenBucket → Bool × TokenBucket
try_consume now b =
    let full = refill now b in
    if leb 1_000 full.tokens
    then (true, record full { tokens = full.tokens - 1_000 })
    else (false, full)

pub record Buckets : Type 0 where
  pub reads : TokenBucket
  pub writes : TokenBucket

pub record RateLimiter : Type 0 where
  pub buckets : Dict Buckets
  pub default_read_rate : ℕ
  pub default_write_rate : ℕ

abbrev pub new_limiter : RateLimiter
new_limiter = record {
  buckets = [];
  default_read_rate = default_rate;
  default_write_rate = default_rate;
}

abbrev pub configure : Option ℕ → Option ℕ → RateLimiter → RateLimiter
configure reads writes l = record l {
  default_read_rate = default_to reads l.default_read_rate;
  default_write_rate = default_to writes l.default_write_rate;
}

-- `#getBuckets`: new ones are not yet in the map.
abbrev pub get_buckets : ℕ → String → RateLimiter → Buckets
get_buckets now collection l = default_to (lookup collection l.buckets) (record {
  reads = new_bucket now l.default_read_rate;
  writes = new_bucket now l.default_write_rate;
})

-- The map after a call has used the buckets.
abbrev pub put_buckets : String → Buckets → RateLimiter → RateLimiter
put_buckets collection both l = record l { buckets = insert collection both l.buckets }

unfoldable pub check_read : ℕ → String → RateLimiter → Bool × RateLimiter
check_read now collection l =
    let both = get_buckets now collection l in
    let (allowed, bucket) = try_consume now both.reads in
    (allowed, put_buckets collection (record both { reads = bucket }) l)

unfoldable pub check_write : ℕ → String → RateLimiter → Bool × RateLimiter
check_write now collection l =
    let both = get_buckets now collection l in
    let (allowed, bucket) = try_consume now both.writes in
    (allowed, put_buckets collection (record both { writes = bucket }) l)

pub data AccessKind : Type 0 where
  read write : AccessKind

-- `assertAllowed`: the Boolean says whether the call returns; if not, it throws.
abbrev pub assert_allowed : ℕ → String → AccessKind → RateLimiter → Bool × RateLimiter
assert_allowed now collection AccessKind.read l = check_read now collection l
assert_allowed now collection AccessKind.write l = check_write now collection l

abbrev pub reset : String → RateLimiter → RateLimiter
reset collection l = record l { buckets = erase collection l.buckets }

abbrev pub reset_all : RateLimiter → RateLimiter
reset_all l = record l { buckets = [] }
