-- ===== src/Plugins/RateLimiter/Window.antt =====
-- plugins/RateLimiter.ts, `onEnqueue`, over the jobs of one window.
use oblivinx.Base.{
  ℕ, suc, ◌+◌, ◌-◌, ◌≤◌, ◌<◌, ◌≡◌, refl, min, Option, none, some, String, List, [], ◌∷◌, length,
  arith, All, eq_refl, if◌then◌else◌, ltb,
}
use oblivinx.Base.Dict.{lookup, lookup-insert}
use oblivinx.Job.{Job}
use oblivinx.Job.Errors.{Failure, rate_limit}
use oblivinx.Plugins.RateLimiter.{RateLimiter, Bucket, full_bucket, on_enqueue, current_bucket}

abbrev count_if : Option Failure → ℕ → ℕ
count_if none n = suc n
count_if (some e) n = n

module _ (key_fn : Job → String) where
  -- How many of a run of timed jobs are let through.
  unfoldable pub accepted : List (ℕ × Job) → RateLimiter → ℕ
  accepted [] r = 0
  accepted ((now, job) ∷ rest) r =
      let (r', e) = on_enqueue key_fn now job r in count_if e (accepted rest r')

  -- The call comes before the bucket is filled again, with a job of the key.
  abbrev pub InWindow : String → ℕ → ℕ × Job → Type 0
  InWindow key reset_at (now, job) = (key_fn job ≡ key) × (now < reset_at)

  -- No bucket, or one that is to be filled again.
  abbrev pub IsPast : ℕ → Option Bucket → Type 0
  IsPast now none = Unit
  IsPast now (some bucket) = bucket.reset_at ≤ now

  past_full :
      (now : ℕ) (r : RateLimiter) (b : Option Bucket)
      → IsPast now b
      → current_bucket now r b ≡ full_bucket now r
  unfolding current_bucket
  past_full now r none h = refl
  past_full now r (some bucket) h = ground arith

  on_enqueue_new :
      (key : String) (now : ℕ) (job : Job) (r : RateLimiter)
      → key_fn job ≡ key
      → IsPast now (lookup key r.buckets)
      → ((on_enqueue key_fn now job r).1 ≡ (if ltb 0 r.limit then none else some (rate_limit key)))
        × (lookup key (on_enqueue key_fn now job r).0.buckets
            ≡ some (record { tokens = r.limit - 1; reset_at = now + r.window_ms }))
  unfolding on_enqueue
  on_enqueue_new key now job r same past =
      let kept : Bucket = full_bucket now r in
      let spent : Bucket = record { tokens = r.limit - 1; reset_at = now + r.window_ms } in
      let current : current_bucket now r (lookup key r.buckets) ≡ kept =
        past_full now r (lookup key r.buckets) past in
      rw (same, current)
        (ground (
          arith,
          lookup-insert key key kept r.buckets,
          lookup-insert key key spent r.buckets,
          eq_refl key,
        ))

  module _ (key : String) (reset_at : ℕ) where
    on_enqueue_window :
        (now : ℕ) (job : Job) (r : RateLimiter) (tokens : ℕ)
        → InWindow key reset_at (now, job)
        → lookup key r.buckets ≡ some (record { tokens = tokens; reset_at = reset_at })
        → ((on_enqueue key_fn now job r).1 ≡ (if ltb 0 tokens then none else some (rate_limit key)))
          × (lookup key (on_enqueue key_fn now job r).0.buckets
              ≡ some (record { tokens = tokens - 1; reset_at = reset_at }))
    unfolding on_enqueue
    on_enqueue_window now job r tokens (same, early) known =
        let kept : Bucket = record { tokens = tokens; reset_at = reset_at } in
        let spent : Bucket = record { tokens = tokens - 1; reset_at = reset_at } in
        rw (same, known)
          (ground (
            arith,
            lookup-insert key key kept r.buckets,
            lookup-insert key key spent r.buckets,
            eq_refl key,
          ))

    -- Of any run of jobs of one key before the window of its bucket ends, as many are let through
    -- as there are, up to the number of tokens in the bucket.
    pub accepted_window :
        (calls : List (ℕ × Job)) (r : RateLimiter) (tokens : ℕ)
        → All (InWindow key reset_at) calls
        → lookup key r.buckets ≡ some (record { tokens = tokens; reset_at = reset_at })
        → accepted calls r ≡ min tokens (length calls)
    unfolding accepted
    accepted_window [] r tokens h known = omega arith
    accepted_window ((now, job) ∷ rest) r tokens h known =
        let step = on_enqueue_window now job r tokens h.0 known in
        let ih = accepted_window rest (on_enqueue key_fn now job r).0 (tokens - 1) h.1 step.1 in
        rw (step.0, ih) (ground arith)

  -- If a key has no bucket, or its window has passed, then of a job of the key and any further
  -- jobs of the key before the new window ends as many are let through as there are, up to the
  -- limit.
  pub accepted_new_window :
      (key : String) (now : ℕ) (job : Job) (calls : List (ℕ × Job)) (r : RateLimiter)
      → key_fn job ≡ key
      → IsPast now (lookup key r.buckets)
      → All (InWindow key (now + r.window_ms)) calls
      → accepted ((now, job) ∷ calls) r ≡ min r.limit (suc (length calls))
  unfolding accepted
  accepted_new_window key now job calls r same past h =
      let step = on_enqueue_new key now job r same past in
      let ih =
        accepted_window key (now + r.window_ms) calls (on_enqueue key_fn now job r).0 (r.limit - 1)
          h step.1 in
      rw (step.0, ih) (ground arith)
