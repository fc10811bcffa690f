-- ===== src/Stores/KvStore/Counters.antt =====
-- stores/KvStore.ts: `incr` and `rateCheck`, and the time of expiry of a counter.
use oblivinx.Base.{
  ℕ, ◌+◌, ◌-◌, ◌≤◌, ◌≡◌, refl, ap, ◌∙◌, Bool, false, String, Option, none, some, List, [], ◌∷◌,
  default_to, leb, Bool-cases, inl, inr, arith, if◌then◌else◌, ltb, All,
}
use mathlib.Core.Option
use oblivinx.Base.Dict.{lookup}
use oblivinx.Stores.KvStore.{
  KvEntry, KvStore, set, get, incr, plain_set, preserved, left_of, ttl_or, rate_check,
}
use oblivinx.Stores.KvStore.Expiry.{set-lookup, get-seen, seen}

abbrev pub counter : ℕ → Option ℕ → KvEntry ℕ
counter n expires_at = record { value = n; expires_at = expires_at }

-- A counter that is alive counts on, and gets the time of expiry that the call gives.
incr-counter :
    (now by n t : ℕ) (key : String) (reset : Option ℕ) (s : KvStore ℕ)
    → lookup key s.store ≡ some (counter n (some t))
    → now ≤ t
    → ((incr now key by reset s).0 ≡ n + by)
      × (lookup key (incr now key by reset s).1.store
          ≡ some (
              counter
                (n + by)
                (Option.map (λ ttl. now + ttl) (ttl_or reset (left_of now (some t))))))
unfolding incr set
incr-counter now by n t key reset s there soon =
    let alive : ltb t now ≡ false = ground arith in
    let value : (get now key s).0 ≡ some n =
      get-seen now key s ∙ ap (seen now) there ∙ rw alive refl in
    let kept : preserved now (lookup key s.store) ≡ left_of now (some t) =
      ap (preserved now) there ∙ rw alive refl in
    let count : default_to (get now key s).0 0 + by ≡ n + by =
      ap (λ o. default_to o 0 + by) value in
    let ttl = ttl_or reset (preserved now (lookup key s.store)) in
    (
      count,
      set-lookup now key (default_to (get now key s).0 0 + by) (plain_set ttl) (get now key s).1
            (set now key (default_to (get now key s).0 0 + by) (plain_set ttl) (get now key s).1).1
            refl
          ∙ ap (λ k. some (counter k (Option.map (λ x. now + x) ttl))) count
          ∙ ap (λ o. some (counter (n + by) (Option.map (λ x. now + x) (ttl_or reset o)))) kept,
    )

-- `incr` without a new time to live of a counter that is alive adds to it and keeps its time of
-- expiry, except at the very moment of expiry: then the counter has no time of expiry any more.
pub incr-expiry :
    (now by n t : ℕ) (key : String) (s : KvStore ℕ)
    → lookup key s.store ≡ some (counter n (some t))
    → now ≤ t
    → ((incr now key by none s).0 ≡ n + by)
      × (lookup key (incr now key by none s).1.store
          ≡ some (counter (n + by) (if ltb now t then some t else none)))
incr-expiry now by n t key s there soon =
    let (count, left) = incr-counter now by n t key none s there soon in
    (count, left ∙ ap (λ o. some (counter (n + by) o)) same)
  where
    same :
        Option.map (λ ttl. now + ttl) (left_of now (some t)) ≡ (if ltb now t then some t else none)
    same = elim (Bool-cases (ltb now t)) [
      | inl before ↦ let e : now + (t - now) ≡ t = omega (arith, soon) in rw before (ap some e)
      | inr at_end ↦ rw at_end refl
    ]

-- Calls of `rateCheck` at these times, and their answers.
abbrev pub check_all : String → ℕ → ℕ → List ℕ → KvStore ℕ → List (Bool × ℕ)
check_all key limit window_ms [] s = []
check_all key limit window_ms (now ∷ times) s =
    let (answer, t) = rate_check now key limit window_ms s in
    answer ∷ check_all key limit window_ms times t

-- Each time is at most `due`, the first, or a window after the one before.
abbrev pub IsSpaced : ℕ → ℕ → List ℕ → Type 0
IsSpaced window_ms due [] = Unit
IsSpaced window_ms due (now ∷ times) = (now ≤ due) × IsSpaced window_ms (now + window_ms) times

-- Once a counter is at the limit, `rateCheck` refuses every call that comes before the counter
-- expires or within a window of the call before, however many there are and however seldom they
-- come.
pub rate_check-spaced :
    (key : String) (limit window_ms n t : ℕ) (times : List ℕ) (s : KvStore ℕ)
    → lookup key s.store ≡ some (counter n (some t))
    → limit ≤ n
    → IsSpaced window_ms t times
    → All (λ answer. answer.0 ≡ false) (check_all key limit window_ms times s)
unfolding rate_check
rate_check-spaced key limit window_ms n t [] s there full spaced = tt
rate_check-spaced key limit window_ms n t (now ∷ times) s there full (soon, spaced) =
    let (count, left) = incr-counter now 1 n t key (some window_ms) s there soon in
    (
      ap (λ k. leb k limit) count ∙ refused,
      rate_check-spaced key limit window_ms (n + 1) (now + window_ms) times
          (incr now key 1 (some window_ms) s).1 left (omega arith) spaced,
    )
  where
    refused : leb (n + 1) limit ≡ false
    refused = ground arith
