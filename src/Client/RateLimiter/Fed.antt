-- ===== src/Client/RateLimiter/Fed.antt =====
-- packages/oblivinx3x/src/security/rate-limiter.ts: the tokens of a bucket through a call.
use oblivinx.Base.{
  ℕ, ◌+◌, ◌-◌, ◌*◌, ◌/◌, ◌≤◌, ◌≡◌, refl, ◌∙◌, ap, Bool, true, false, String, Option, none, some,
  if◌then◌else◌, leb, str_eq, ◌&&◌, default_to, arith, Bool-cases, inl, inr, ◌⊎◌,
}
use oblivinx.Base.Dict.{lookup}
use oblivinx.Client.RateLimiter.{
  TokenBucket, Buckets, RateLimiter, AccessKind, new_bucket, refill, try_consume, get_buckets,
  put_buckets, check_read, check_write, assert_allowed,
}

-- One call: what is let through is paid for by what the refill brings.
try_consume_lem :
    (now : ℕ) (b : TokenBucket)
    → let (allowed, after) = try_consume now b in
      ((if allowed then 1 else 0) * 1_000 + after.tokens
        ≤ b.tokens + (now - b.last_refill) * b.refill_rate)
      × ((if allowed then 1 else 0) * 1_000 + after.tokens ≤ b.capacity)
      × (after.last_refill ≡ now)
      × (after.refill_rate ≡ b.refill_rate)
      × (after.capacity ≡ b.capacity)
unfolding try_consume
try_consume_lem now b =
    let full = refill now b in
    elim (Bool-cases (leb 1_000 full.tokens)) [
      | inl e ↦ rw e (ground arith, ground arith, refl, refl, refl)
      | inr e ↦ rw e (ground arith, ground arith, refl, refl, refl)
    ]

-- What a bucket of a rate can hold, in thousandths.
unfoldable pub most : ℕ → ℕ
most rate = (rate + (rate + 19) / 20) * 1_000

-- A bucket at time `t`, when `count` calls were let through since `mid`.
abbrev pub IsFed : ℕ → ℕ → ℕ → ℕ → TokenBucket → Type 0
IsFed rate mid count t b =
    (b.refill_rate ≡ rate)
    × (b.capacity ≡ most rate)
    × (b.last_refill ≤ t)
    × (b.tokens ≤ most rate)
    × (count * 1_000 + b.tokens ≤ most rate + (b.last_refill - mid) * rate)
    × ((count ≡ 0) ⊎ (mid ≤ b.last_refill))

pub split_time : (a b c r : ℕ) → c ≤ b → b ≤ a → (b - c) * r + (a - b) * r ≡ (a - c) * r
split_time a b c r h k =
    let i = b - c in
    let j = a - b in let whole : a - c ≡ i + j = omega arith in rw whole (omega arith)

try_consume-IsFed :
    (rate mid count t now : ℕ) (b : TokenBucket)
    → t ≤ now
    → mid ≤ now
    → IsFed rate mid count t b
    → IsFed rate mid (count + (if (try_consume now b).0 then 1 else 0)) now (try_consume now b).1
try_consume-IsFed rate mid count t now b later after_mid (rated, sized, past, held, fed, started) =
    let (refilled, capped, last, same_rate, same_size) = try_consume_lem now b in
    let brought : (now - b.last_refill) * b.refill_rate ≡ (now - b.last_refill) * rate =
      ap (λ r. (now - b.last_refill) * r) rated in
    let moved : ((try_consume now b).1.last_refill - mid) * rate ≡ (now - mid) * rate =
      ap (λ u. (u - mid) * rate) last in
    (
      same_rate ∙ rated,
      same_size ∙ sized,
      omega (arith, last),
      omega (arith, capped, sized),
      elim started [
        | inl none_yet ↦ omega (arith, capped, sized, none_yet, moved)
        | inr on ↦ omega (
          arith,
          refilled,
          fed,
          brought,
          moved,
          split_time now b.last_refill mid rate on (omega arith),
        )
      ],
      inr (omega (arith, last)),
    )

new_bucket-IsFed : (rate mid now : ℕ) → IsFed rate mid 0 now (new_bucket now rate)
unfolding new_bucket most
new_bucket-IsFed rate mid now = (refl, refl, omega arith, omega arith, omega arith, inl refl)

abbrev pub bucket_of : AccessKind → Buckets → TokenBucket
bucket_of AccessKind.read both = both.reads
bucket_of AccessKind.write both = both.writes

abbrev pub rate_of : AccessKind → RateLimiter → ℕ
rate_of AccessKind.read l = l.default_read_rate
rate_of AccessKind.write l = l.default_write_rate

abbrev pub IsFedIn : ℕ → ℕ → ℕ → ℕ → AccessKind → Option Buckets → Type 0
IsFedIn rate mid count t kind none = count ≡ 0
IsFedIn rate mid count t kind (some both) = IsFed rate mid count t (bucket_of kind both)

-- The calls of one kind on one collection.
abbrev pub IsFair : ℕ → ℕ → ℕ → ℕ → AccessKind → String → RateLimiter → Type 0
IsFair rate mid count t kind collection l =
    (rate_of kind l ≡ rate) × IsFedIn rate mid count t kind (lookup collection l.buckets)

abbrev pub same_kind : AccessKind → AccessKind → Bool
same_kind AccessKind.read AccessKind.read = true
same_kind AccessKind.write AccessKind.write = true
same_kind _ _ = false

pub IsFed-later :
    (rate mid count t now : ℕ) (b : TokenBucket)
    → t ≤ now
    → IsFed rate mid count t b
    → IsFed rate mid count now b
IsFed-later rate mid count t now b later (rated, sized, past, held, fed, started) =
    (rated, sized, omega arith, held, fed, started)

pub found-IsFed :
    (rate mid count t now : ℕ) (kind : AccessKind) (o : Option Buckets) (fresh : Buckets)
    → t ≤ now
    → IsFed rate mid 0 now (bucket_of kind fresh)
    → IsFedIn rate mid count t kind o
    → IsFed rate mid count now (bucket_of kind (default_to o fresh))
found-IsFed rate mid count t now kind none fresh later begun none_yet = rw none_yet begun
found-IsFed rate mid count t now kind (some both) fresh later begun fed =
    IsFed-later rate mid count t now (bucket_of kind both) later fed

pub fresh-IsFed :
    (rate mid now : ℕ) (kind : AccessKind) (l : RateLimiter)
    → rate_of kind l ≡ rate
    → IsFed rate mid 0 now (
        bucket_of kind (record {
          reads = new_bucket now l.default_read_rate;
          writes = new_bucket now l.default_write_rate;
        }))
fresh-IsFed rate mid now AccessKind.read l rated = rw rated (new_bucket-IsFed rate mid now)
fresh-IsFed rate mid now AccessKind.write l rated = rw rated (new_bucket-IsFed rate mid now)

abbrev pub set_bucket : AccessKind → TokenBucket → Buckets → Buckets
set_bucket AccessKind.read b both = record both { reads = b }
set_bucket AccessKind.write b both = record both { writes = b }

pub assert_allowed-put :
    (now : ℕ) (collection : String) (kind : AccessKind) (l : RateLimiter)
    → let both = get_buckets now collection l in
      let (allowed, bucket) = try_consume now (bucket_of kind both) in
      assert_allowed now collection kind l
      ≡ (allowed, put_buckets collection (set_bucket kind bucket both) l)
unfolding check_read check_write
assert_allowed-put now collection AccessKind.read l = refl
assert_allowed-put now collection AccessKind.write l = refl

-- The calls that are counted.
abbrev pub is_counted : String → AccessKind → String → AccessKind → Bool
is_counted collection kind other used = str_eq other collection && same_kind used kind

pub set_bucket-IsFed :
    (rate mid count now : ℕ) (kind used : AccessKind) (both : Buckets)
    → IsFed rate mid count now (bucket_of kind both)
    → mid ≤ now
    → let (allowed, bucket) = try_consume now (bucket_of used both) in
      IsFed rate mid
        (count + (if same_kind used kind && allowed then 1 else 0))
        now
        (bucket_of kind (set_bucket used bucket both))
set_bucket-IsFed rate mid count now AccessKind.read AccessKind.read both fed reached =
    try_consume-IsFed rate mid count now now both.reads (omega arith) reached fed
set_bucket-IsFed rate mid count now AccessKind.write AccessKind.write both fed reached =
    try_consume-IsFed rate mid count now now both.writes (omega arith) reached fed
set_bucket-IsFed rate mid count now AccessKind.read AccessKind.write both fed reached =
    let same : count + 0 ≡ count = omega arith in rw same fed
set_bucket-IsFed rate mid count now AccessKind.write AccessKind.read both fed reached =
    let same : count + 0 ≡ count = omega arith in rw same fed

abbrev pub hit : Bool → ℕ
hit counted = if counted then 1 else 0
