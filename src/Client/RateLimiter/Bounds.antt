-- ===== src/Client/RateLimiter/Bounds.antt =====
-- packages/oblivinx3x/src/security/rate-limiter.ts: how many calls a limiter lets through.
use oblivinx.Base.{
  ℕ, ◌+◌, ◌-◌, ◌*◌, ◌/◌, ◌≤◌, ◌≡◌, refl, ◌∙◌, false, String, Option, none, some, List, [], ◌∷◌,
  str_eq, eq_iff, eq_refl, ◌&&◌, arith, Bool-cases, inl, inr,
}
use oblivinx.Base.Dict.{lookup, insert, lookup-insert}
use oblivinx.Client.RateLimiter.{
  Buckets, RateLimiter, AccessKind, try_consume, get_buckets, put_buckets, assert_allowed,
  new_limiter, configure,
}
use oblivinx.Client.RateLimiter.Fed.{
  most, split_time, IsFed-later, IsFedIn, IsFair, found-IsFed, fresh-IsFed, set_bucket,
  assert_allowed-put, set_bucket-IsFed, hit, bucket_of, rate_of, same_kind, is_counted,
}

rate_of-put :
    (kind : AccessKind) (collection : String) (both : Buckets) (l : RateLimiter)
    → rate_of kind (put_buckets collection both l) ≡ rate_of kind l
rate_of-put AccessKind.read collection both l = refl
rate_of-put AccessKind.write collection both l = refl

IsFedIn-later :
    (rate mid count t now : ℕ) (kind : AccessKind) (o : Option Buckets)
    → t ≤ now
    → IsFedIn rate mid count t kind o
    → IsFedIn rate mid count now kind o
IsFedIn-later rate mid count t now kind none later none_yet = none_yet
IsFedIn-later rate mid count t now kind (some both) later fed =
    IsFed-later rate mid count t now (bucket_of kind both) later fed

-- The buckets after a call on the collection that is watched, and on another.
same_collection :
    (rate mid count t now : ℕ) (collection : String) (kind used : AccessKind) (l : RateLimiter)
    → t ≤ now
    → mid ≤ now
    → IsFair rate mid count t kind collection l
    → let both = get_buckets now collection l in
      let (allowed, bucket) = try_consume now (bucket_of used both) in
      IsFedIn rate mid
        (count + hit (same_kind used kind && allowed))
        now
        kind
        (lookup collection (insert collection (set_bucket used bucket both) l.buckets))
same_collection rate mid count t now collection kind used l later reached (rated, fed) =
    let both = get_buckets now collection l in
    let bucket = (try_consume now (bucket_of used both)).1 in
    rw
      (
        lookup-insert collection collection (set_bucket used bucket both) l.buckets,
        eq_refl collection,
      )
      (set_bucket-IsFed rate mid count now kind used both
        (found-IsFed rate mid count t now kind (lookup collection l.buckets) _ later
          (fresh-IsFed rate mid now kind l rated) fed)
        reached)

other_collection :
    (rate mid count t now : ℕ) (collection other : String) (kind : AccessKind) (both : Buckets)
    (l : RateLimiter)
    → t ≤ now
    → str_eq other collection ≡ false
    → IsFair rate mid count t kind collection l
    → IsFedIn rate mid (count + 0) now kind (lookup collection (insert other both l.buckets))
other_collection rate mid count t now collection other kind both l later differ (_, fed) =
    let same : count + 0 ≡ count = omega arith in
    rw (same, lookup-insert other collection both l.buckets, differ)
      (IsFedIn-later rate mid count t now kind (lookup collection l.buckets) later fed)

assert_allowed-IsFair :
    (rate mid count t now : ℕ) (collection other : String) (kind used : AccessKind)
    (l : RateLimiter)
    → t ≤ now
    → mid ≤ now
    → IsFair rate mid count t kind collection l
    → let (allowed, after) = assert_allowed now other used l in
      IsFair rate mid
        (count + hit (is_counted collection kind other used && allowed))
        now
        kind
        collection
        after
assert_allowed-IsFair rate mid count t now collection other kind used l later reached fair =
    let both = get_buckets now other l in
    let step = try_consume now (bucket_of used both) in
    rw (assert_allowed-put now other used l) (
      rate_of-put kind other (set_bucket used step.1 both) l ∙ fair.0,
      elim (Bool-cases (str_eq other collection)) [
        | inl e ↦
            rw (e, (eq_iff other collection).0 e)
              (same_collection rate mid count t now collection kind used l later reached fair)
        | inr e ↦ rw e (
            other_collection rate mid count t now collection other kind
              (set_bucket used step.1 both) l later e fair)
      ],
    )

abbrev pub Calls : Type 0
Calls = List (String × (AccessKind × ℕ))

-- Some calls in turn: how many of one kind on one collection are let through, and the limiter.
abbrev pub run : String → AccessKind → Calls → RateLimiter → ℕ × RateLimiter
run collection kind [] l = (0, l)
run collection kind ((other, (used, now)) ∷ calls) l =
    let (allowed, after) = assert_allowed now other used l in
    let (later, end) = run collection kind calls after in
    (hit (is_counted collection kind other used && allowed) + later, end)

-- The times of the calls, from `t` to `until`.
abbrev pub IsTimed : ℕ → Calls → ℕ → Type 0
IsTimed t [] until = t ≤ until
IsTimed t ((_, (_, now)) ∷ calls) until = (t ≤ now) × IsTimed now calls until

run-IsFair :
    (rate mid count t until : ℕ) (collection : String) (kind : AccessKind) (calls : Calls)
    (l : RateLimiter)
    → mid ≤ t
    → IsTimed t calls until
    → IsFair rate mid count t kind collection l
    → let (granted, end) = run collection kind calls l in
      IsFair rate mid (count + granted) until kind collection end
run-IsFair rate mid count t until collection kind [] l reached timed fair =
    let same : count + 0 ≡ count = omega arith in
    rw same
      (fair.0, IsFedIn-later rate mid count t until kind (lookup collection l.buckets) timed fair.1)
run-IsFair rate mid count t until collection kind ((other, (used, now)) ∷ calls) l reached timed
      fair =
    let (allowed, after) = assert_allowed now other used l in
    let one = hit (is_counted collection kind other used && allowed) in
    let (later, end) = run collection kind calls after in
    let sum : count + (one + later) ≡ count + one + later = omega arith in
    rw sum (
      run-IsFair rate mid (count + one) now until collection kind calls after
        (omega (arith, timed.0)) timed.1
        (assert_allowed-IsFair rate mid count t now collection other kind used l timed.0
          (omega (arith, timed.0)) fair))

-- The count begins anew.
IsFair-again :
    (rate mid count t : ℕ) (kind : AccessKind) (o : Option Buckets)
    → IsFedIn rate mid count t kind o
    → IsFedIn rate t 0 t kind o
IsFair-again rate mid count t kind none h = refl
IsFair-again rate mid count t kind (some both) (rated, sized, past, held, fed, started) =
    (rated, sized, past, held, omega arith, inl refl)

IsFedIn-bound :
    (rate mid count t : ℕ) (kind : AccessKind) (o : Option Buckets)
    → IsFedIn rate mid count t kind o
    → count * 1_000 ≤ most rate + (t - mid) * rate
IsFedIn-bound rate mid count t kind none none_yet = rw none_yet (omega arith)
IsFedIn-bound rate mid count t kind (some both) (rated, sized, past, held, fed, started) =
    let last = (bucket_of kind both).last_refill in
    elim started [
      | inl none_yet ↦ omega (arith, none_yet)
      | inr on ↦ omega (arith, fed, split_time t last mid rate on past)
    ]

-- On a new limiter with any rates, whatever calls came before, of the calls of one kind on one
-- collection in a window of time at most so many are let through as the rate, a twentieth of it
-- rounded up, and what the rate gives for the length of the window, with any calls of the other
-- kind and on other collections in between.
pub run_lem :
    (reads writes : Option ℕ) (collection : String) (kind : AccessKind) (before window : Calls)
    (start mid until : ℕ)
    → IsTimed start before mid
    → IsTimed mid window until
    → let l = configure reads writes new_limiter in
      let rate = rate_of kind l in
      let here = (run collection kind before l).1 in
      (run collection kind window here).0 * 1_000
      ≤ (rate + (rate + 19) / 20) * 1_000 + (until - mid) * rate
unfolding most lookup
run_lem reads writes collection kind before window start mid until timed later =
    let l = configure reads writes new_limiter in
    let rate = rate_of kind l in
    let here = run collection kind before l in
    let fair =
      run-IsFair rate start 0 start mid collection kind before l (omega arith) timed (refl, refl) in
    let again =
      IsFair-again rate start (0 + here.0) mid kind (lookup collection here.1.buckets) fair.1 in
    let end =
      run-IsFair rate mid 0 mid until collection kind window here.1 (omega arith) later
        (fair.0, again) in
    let granted = (run collection kind window here.1).0 in
    let same : 0 + granted ≡ granted = omega arith in
    rw same at (
      IsFedIn-bound rate mid (0 + granted) until kind
        (lookup collection (run collection kind window here.1).1.buckets) end.1)
