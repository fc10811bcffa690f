-- ===== src/Examples/Kv.antt =====
-- stores/KvStore.ts: a store of numbers.
use oblivinx.Base.{ℕ, ◌≤◌, ◌≡◌, refl, none, some, List, [], ◌∷◌, length, arith}
use oblivinx.Base.Dict.{lookup, keys, IsUnique}
use oblivinx.Stores.KvStore.{KvStore, new_store, plain_set, incr}
use oblivinx.Stores.KvStore.Runs.{KvCall, sets, gets, run_all, run_all-IsBounded}
use oblivinx.Stores.KvStore.Counters.{counter, incr-expiry}

abbrev calls : List (KvCall ℕ)
calls =
    sets 1 "ann" 5 (plain_set (some 10))
    ∷ sets 2 "bob" 6 (plain_set none)
    ∷ sets 3 "cid" 7 (plain_set (some 2))
    ∷ gets 9 "cid"
    ∷ []

run_all-IsBounded_example :
    ((run_all calls (new_store 2)).insert_order ≡ keys (run_all calls (new_store 2)).store)
    × IsUnique (run_all calls (new_store 2)).store
    × (length (run_all calls (new_store 2)).store ≤ 2)
run_all-IsBounded_example = run_all-IsBounded 2 calls (omega arith) (refl, (refl, (refl, (tt, tt))))

-- Two counters, of which one expires at 11.
abbrev counters : KvStore ℕ
counters = record {
  store = ("ann", counter 5 (some 11)) ∷ ("bob", counter 6 none) ∷ [];
  insert_order = "ann" ∷ "bob" ∷ [];
  max_keys = 2;
}

abbrev locked : KvStore ℕ
locked = record {
  store = ("lock", counter 1 (some 30)) ∷ [];
  insert_order = "lock" ∷ [];
  max_keys = 2;
}

incr-expiry_example :
    ((incr 11 "ann" 1 none counters).0 ≡ 6)
    × (lookup "ann" (incr 11 "ann" 1 none counters).1.store ≡ some (counter 6 none))
unfolding lookup
incr-expiry_example = incr-expiry 11 1 5 11 "ann" counters refl (omega arith)
