-- ===== src/Stores/KvStore.antt =====
-- stores/KvStore.ts: keys with values and times of expiry. `Date.now()` is an argument, one for each
-- call; the values are of any type, and the counters stand over a store of numbers. A key is not empty.
-- The hashes and lists under a key, the patterns of `keys`, the snapshot file, the timers and the events
-- are left out.
pub mod Bounded
pub mod Named
pub mod Calls
pub mod Runs
pub mod Expiry
pub mod Counters
use oblivinx.Base.{
  ℕ, ◌+◌, ◌-◌, Bool, true, false, String, Option, none, some, List, [], ◌∷◌, ◌++◌, if◌then◌else◌,
  ltb, leb, ◌&&◌, ◌||◌, str_eq, length, not, keep_if, default_to, is_some,
}
use oblivinx.Base.Dict.{Dict, lookup, insert, erase, has}
use mathlib.Core.Option

pub record KvEntry (V : Type 0) : Type 0 where
  pub value : V
  pub expires_at : Option ℕ

pub record KvStore (V : Type 0) : Type 0 where
  pub store : Dict (KvEntry V)
  pub insert_order : List String
  pub max_keys : ℕ

pub record KvSetOptions : Type 0 where
  pub ttl_ms : Option ℕ
  pub nx : Bool
  pub xx : Bool

abbrev pub plain_set : Option ℕ → KvSetOptions
plain_set ttl_ms = record { ttl_ms = ttl_ms; nx = false; xx = false }

-- `_isExpired`, by the time of expiry.
abbrev pub is_past : ℕ → Option ℕ → Bool
is_past now none = false
is_past now (some t) = ltb t now

-- `splice` at the first index of the key, if it is there.
abbrev pub remove_first : String → List String → List String
remove_first key [] = []
remove_first key (k ∷ ks) = let rest = remove_first key ks in if str_eq k key then ks else k ∷ rest

abbrev pub includes : List String → String → Bool
includes [] key = false
includes (k ∷ ks) key = str_eq k key || includes ks key

module _ {V : Type 0} where
  abbrev pub new_store : ℕ → KvStore V
  new_store max_keys = record { store = []; insert_order = []; max_keys = max_keys }

  abbrev pub is_expired : ℕ → KvEntry V → Bool
  is_expired now entry = is_past now entry.expires_at

  -- `_delete`.
  unfoldable pub delete : String → KvStore V → Bool × KvStore V
  delete key s =
      if has key s.store
      then (
        true,
        record s { store = erase key s.store; insert_order = remove_first key s.insert_order },
      )
      else (false, s)

  -- `_isAlive`, which also deletes an entry that is expired.
  abbrev pub alive_found : ℕ → String → Option (KvEntry V) → KvStore V → Bool × KvStore V
  alive_found now key none s = (false, s)
  alive_found now key (some entry) s =
      if is_expired now entry then (false, (delete key s).1) else (true, s)

  unfoldable pub is_alive : ℕ → String → KvStore V → Bool × KvStore V
  is_alive now key s = alive_found now key (lookup key s.store) s

  -- `const oldest = this.insertOrder.shift(); if (oldest) this.store.delete(oldest)`: the empty key
  -- is taken out of the order, but not out of the map.
  abbrev pub shift_oldest : List String → KvStore V → KvStore V
  shift_oldest [] s = s
  shift_oldest (oldest ∷ rest) s = record s {
    store = if str_eq oldest "" then s.store else erase oldest s.store;
    insert_order = rest;
  }

  -- `_evictIfNeeded`.
  unfoldable pub evict : String → KvStore V → KvStore V
  evict key s =
      if ltb (length s.store) s.max_keys
      then s
      else if has key s.store
      then s
      else shift_oldest s.insert_order s

  abbrev pub write : String → KvEntry V → KvStore V → KvStore V
  write key entry s = record s {
    store = insert key entry s.store;
    insert_order =
        if includes s.insert_order key then s.insert_order else s.insert_order ++ key ∷ [];
  }

  abbrev pub set_checked : ℕ → String → V → KvSetOptions → Bool × KvStore V → Bool × KvStore V
  set_checked now key value options (exists, s) =
      let entry : KvEntry V = record {
        value = value;
        expires_at = Option.map (λ ttl. now + ttl) options.ttl_ms;
      } in
      if options.nx && exists
      then (false, s)
      else if options.xx && not exists
      then (false, s)
      else (true, write key entry (evict key s))

  unfoldable pub set : ℕ → String → V → KvSetOptions → KvStore V → Bool × KvStore V
  set now key value options s = set_checked now key value options (is_alive now key s)

  abbrev pub get_found : ℕ → String → Option (KvEntry V) → KvStore V → Option V × KvStore V
  get_found now key none s = (none, s)
  get_found now key (some entry) s =
      if is_expired now entry then (none, (delete key s).1) else (some entry.value, s)

  unfoldable pub get : ℕ → String → KvStore V → Option V × KvStore V
  get now key s = get_found now key (lookup key s.store) s

  unfoldable pub del : List String → KvStore V → ℕ × KvStore V
  del [] s = (0, s)
  del (key ∷ keys) s =
      let (gone, t) = delete key s in
      let (count, u) = del keys t in (if gone then count + 1 else count, u)

  -- `expire` and `persist`: a new time of expiry for a key that is alive.
  abbrev pub touch : ℕ → String → Option ℕ → Option (KvEntry V) → KvStore V → Bool × KvStore V
  touch now key time none s = (false, s)
  touch now key time (some entry) s =
      if is_expired now entry
      then (false, s)
      else (true, record s { store = insert key (record entry { expires_at = time }) s.store })

  unfoldable pub expire : ℕ → String → ℕ → KvStore V → Bool × KvStore V
  expire now key ttl_ms s = touch now key (some (now + ttl_ms)) (lookup key s.store) s

  unfoldable pub persist : ℕ → String → KvStore V → Bool × KvStore V
  persist now key s = touch now key none (lookup key s.store) s

  -- `_cleanupExpired`: the keys that are expired, and their removal.
  abbrev pub expired_keys : ℕ → Dict (KvEntry V) → List String
  expired_keys now [] = []
  expired_keys now ((key, entry) ∷ rest) =
      let later = expired_keys now rest in if is_expired now entry then key ∷ later else later

  abbrev pub remove_keys : List String → KvStore V → KvStore V
  remove_keys [] s = s
  remove_keys (key ∷ keys) s =
      remove_keys keys
        (record s { store = erase key s.store; insert_order = remove_first key s.insert_order })

  unfoldable pub cleanup : ℕ → KvStore V → KvStore V
  cleanup now s = remove_keys (expired_keys now s.store) s

  abbrev pub flush : KvStore V → KvStore V
  flush s = record s { store = []; insert_order = [] }

  abbrev pub setnx : ℕ → String → V → Option ℕ → KvStore V → Bool × KvStore V
  setnx now key value ttl_ms s =
      set now key value (record { ttl_ms = ttl_ms; nx = true; xx = false }) s

  -- `exists`: how many of the keys are alive.
  unfoldable pub exists : ℕ → List String → KvStore V → ℕ × KvStore V
  exists now [] s = (0, s)
  exists now (key ∷ keys) s =
      let (alive, t) = is_alive now key s in
      let (count, u) = exists now keys t in (if alive then count + 1 else count, u)

  -- `ttl`: `none` for -2, no such key, and `some none` for -1, no time of expiry.
  abbrev pub ttl_found : ℕ → Option (KvEntry V) → Option (Option ℕ)
  ttl_found now none = none
  ttl_found now (some entry) =
      if is_expired now entry then none else some (Option.map (λ t. t - now) entry.expires_at)

  unfoldable pub ttl : ℕ → String → KvStore V → Option (Option ℕ)
  ttl now key s = ttl_found now (lookup key s.store)

  unfoldable pub getset : ℕ → String → V → KvSetOptions → KvStore V → Option V × KvStore V
  getset now key value options s =
      let (old, t) = get now key s in (old, (set now key value options t).1)

  unfoldable pub mset : ℕ → List (String × V × Option ℕ) → KvStore V → KvStore V
  mset now [] s = s
  mset now ((key, value, ttl_ms) ∷ entries) s =
      mset now entries (set now key value (plain_set ttl_ms) s).1

  unfoldable pub mget : ℕ → List String → KvStore V → List (Option V) × KvStore V
  mget now [] s = ([], s)
  mget now (key ∷ keys) s =
      let (value, t) = get now key s in let (values, u) = mget now keys t in (value ∷ values, u)

-- `preservedTtlMs`: what is left, if it is positive.
abbrev pub left_of : ℕ → Option ℕ → Option ℕ
left_of now none = none
left_of now (some t) = if ltb now t then some (t - now) else none

abbrev pub preserved : ℕ → Option (KvEntry ℕ) → Option ℕ
preserved now none = none
preserved now (some entry) = if is_expired now entry then none else left_of now entry.expires_at

-- `resetTtlMs`, or the time that is kept.
abbrev pub ttl_or : Option ℕ → Option ℕ → Option ℕ
ttl_or (some reset) kept = some reset
ttl_or none kept = kept

unfoldable pub incr : ℕ → String → ℕ → Option ℕ → KvStore ℕ → ℕ × KvStore ℕ
incr now key by reset s =
    let ttl = ttl_or reset (preserved now (lookup key s.store)) in
    let (current, t) = get now key s in
    let next = default_to current 0 + by in (next, (set now key next (plain_set ttl) t).1)

-- `rateCheck`, whose wait is that of `ttl` at the same time.
unfoldable pub rate_check : ℕ → String → ℕ → ℕ → KvStore ℕ → (Bool × ℕ) × KvStore ℕ
rate_check now key limit window_ms s =
    let (count, t) = incr now key 1 (some window_ms) s in ((leb count limit, count), t)
