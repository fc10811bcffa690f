-- ===== src/Stores/KvStore/Runs.antt =====
-- stores/KvStore.ts: the store after any run of calls, each at its time.
use oblivinx.Base.{
  ℕ, ◌+◌, ◌≤◌, ◌<◌, ◌≡◌, refl, sym, ap, ◌∙◌, Bool, false, String, Option, none, some, List, [], ◌∷◌,
  Bool-cases, inl, inr, arith, ltb, ◌&&◌, not, length, str_eq, All,
}
use oblivinx.Base.Dict.{
  lookup, insert, erase, has, keys, IsUnique, insert-IsUnique, erase-IsUnique, keys-insert_old,
  lookup-empty,
}
use oblivinx.Stores.KvStore.{
  KvEntry, KvStore, KvSetOptions, new_store, delete, is_alive, is_expired, evict, shift_oldest, set,
  set_checked, get, get_found, del, touch, expire, persist, remove_keys, expired_keys, cleanup,
  flush, remove_first,
}
use oblivinx.Stores.KvStore.Bounded.{
  IsBounded, length-keys, keys-erase, length-erase, delete-IsBounded, get-IsBounded,
}
use oblivinx.Stores.KvStore.Named.{
  IsNamed, delete-IsNamed, set-IsNamed, get-IsNamed, touch-IsNamed, remove-IsNamed,
}
use oblivinx.Stores.KvStore.Calls.{set-IsBounded, delete-max, alive-max}

pub data KvCall (V : Type 0) : Type 0 where
  sets : ℕ → String → V → KvSetOptions → KvCall V
  gets : ℕ → String → KvCall V
  dels : List String → KvCall V
  expires : ℕ → String → ℕ → KvCall V
  persists : ℕ → String → KvCall V
  cleans : ℕ → KvCall V
  flushes : KvCall V

module _ {V : Type 0} where
  abbrev pub run_kv : KvCall V → KvStore V → KvStore V
  run_kv (sets now key value options) s = (set now key value options s).1
  run_kv (gets now key) s = (get now key s).1
  run_kv (dels ks) s = (del ks s).1
  run_kv (expires now key ttl) s = (expire now key ttl s).1
  run_kv (persists now key) s = (persist now key s).1
  run_kv (cleans now) s = cleanup now s
  run_kv flushes s = flush s

  abbrev pub run_all : List (KvCall V) → KvStore V → KvStore V
  run_all [] s = s
  run_all (call ∷ calls) s = run_all calls (run_kv call s)

  -- A `set` is of a key that is not empty.
  abbrev pub IsNaming : KvCall V → Type 0
  IsNaming (sets now key value options) = str_eq key "" ≡ false
  IsNaming _ = Unit

  -- The invariant, and the limit of the store.
  abbrev Fits : ℕ → KvStore V → Type 0
  Fits max s = IsBounded s × (s.max_keys ≡ max) × IsNamed s

  shift-max : (order : List String) (s : KvStore V) → (shift_oldest order s).max_keys ≡ s.max_keys
  shift-max [] s = refl
  shift-max (k ∷ ks) s = refl

  evict-max : (key : String) (s : KvStore V) → (evict key s).max_keys ≡ s.max_keys
  unfolding evict
  evict-max key s = elim (Bool-cases (ltb (length s.store) s.max_keys)) [
    | inl free ↦ rw free refl
    | inr full ↦ elim (Bool-cases (has key s.store)) [
      | inl there ↦ rw (full, there) refl
      | inr new ↦ rw (full, new) (shift-max s.insert_order s)
    ]
  ]

  set-max :
      (now : ℕ) (key : String) (value : V) (options : KvSetOptions) (s : KvStore V)
      → (set now key value options s).1.max_keys ≡ s.max_keys
  unfolding set
  set-max now key value options s =
      checked (is_alive now key s).0 (is_alive now key s).1 ∙ alive-max now key s
    where
      checked :
          (exists : Bool) (t : KvStore V)
          → (set_checked now key value options (exists, t)).1.max_keys ≡ t.max_keys
      checked exists t = elim (Bool-cases (options.nx && exists)) [
        | inl taken ↦ rw taken refl
        | inr free ↦ elim (Bool-cases (options.xx && not exists)) [
          | inl absent ↦ rw (free, absent) refl
          | inr goes ↦ rw (free, goes) (evict-max key t)
        ]
      ]

  get-max : (now : ℕ) (key : String) (s : KvStore V) → (get now key s).1.max_keys ≡ s.max_keys
  unfolding get
  get-max now key s = by_entry (lookup key s.store)
    where
      by_entry : (o : Option (KvEntry V)) → (get_found now key o s).1.max_keys ≡ s.max_keys
      by_entry none = refl
      by_entry (some entry) = elim (Bool-cases (is_expired now entry)) [
        | inl over ↦ rw over (delete-max key s)
        | inr alive ↦ rw alive refl
      ]

  del-Fits : (max : ℕ) (ks : List String) (s : KvStore V) → Fits max s → Fits max (del ks s).1
  unfolding del
  del-Fits max [] s h = h
  del-Fits max (k ∷ ks) s (bounded, limit, named) =
      del-Fits max ks (delete k s).1
        (delete-IsBounded k s bounded, delete-max k s ∙ limit, delete-IsNamed k s named)

  touch-Fits :
      (max now : ℕ) (key : String) (time : Option ℕ) (o : Option (KvEntry V)) (s : KvStore V)
      → lookup key s.store ≡ o
      → Fits max s
      → Fits max (touch now key time o s).1
  touch-Fits max now key time none s known h = h
  touch-Fits max now key time (some entry) s known h = elim (Bool-cases (is_expired now entry)) [
    | inl over ↦ rw over h
    | inr alive ↦
        let named = touch-IsNamed now key time (some entry) s known h.2 in
        rw alive (touched h (rw alive at named))
  ]
    where
      touched :
          Fits max s
          → lookup "" (insert key (record entry { expires_at = time }) s.store) ≡ none
          → Fits max (record s { store = insert key (record entry { expires_at = time }) s.store })
      touched ((order, unique, few), limit, clean) named =
          let same = keys-insert_old key (record entry { expires_at = time }) entry s.store known in
          let before = length-keys s.store in
          let after = length-keys (insert key (record entry { expires_at = time }) s.store) in
          let counted = ap length same in
          (
            (
              order ∙ sym same,
              insert-IsUnique key (record entry { expires_at = time }) s.store unique,
              omega arith,
            ),
            limit,
            named,
          )

  remove-Fits :
      (max : ℕ) (ks : List String) (s : KvStore V) → Fits max s → Fits max (remove_keys ks s)
  remove-Fits max [] s h = h
  remove-Fits max (k ∷ ks) s ((order, unique, few), limit, named) =
      let less = length-erase k s.store in
      remove-Fits max ks
        (record s { store = erase k s.store; insert_order = remove_first k s.insert_order })
        (
          (
            ap (remove_first k) order ∙ sym (keys-erase k s.store unique),
            erase-IsUnique k s.store unique,
            omega arith,
          ),
          limit,
          remove-IsNamed (k ∷ []) s named,
        )

  call-Fits :
      (max : ℕ) (call : KvCall V) (s : KvStore V)
      → 0 < max
      → IsNaming call
      → Fits max s
      → Fits max (run_kv call s)
  unfolding expire persist cleanup
  call-Fits max (sets now key value options) s positive naming (b, limit, named) = (
    set-IsBounded now key value options s b named (omega arith),
    set-max now key value options s ∙ limit,
    set-IsNamed now key value options s naming named,
  )
  call-Fits max (gets now key) s positive naming (b, limit, named) =
      (get-IsBounded now key s b, get-max now key s ∙ limit, get-IsNamed now key s named)
  call-Fits max (dels ks) s positive naming h = del-Fits max ks s h
  call-Fits max (expires now key ttl) s positive naming h =
      touch-Fits max now key (some (now + ttl)) (lookup key s.store) s refl h
  call-Fits max (persists now key) s positive naming h =
      touch-Fits max now key none (lookup key s.store) s refl h
  call-Fits max (cleans now) s positive naming h = remove-Fits max (expired_keys now s.store) s h
  call-Fits max flushes s positive naming (b, limit, named) =
      ((refl, tt, omega arith), limit, lookup-empty "")

  runs :
      (max : ℕ) (calls : List (KvCall V)) (s : KvStore V)
      → 0 < max
      → All IsNaming calls
      → Fits max s
      → Fits max (run_all calls s)
  runs max [] s positive naming h = h
  runs max (call ∷ calls) s positive naming h =
      runs max calls (run_kv call s) positive naming.1 (call-Fits max call s positive naming.0 h)

  -- If the limit is above 0 and no `set` is of the empty key, then after any run of calls of
  -- `set`, `get`, `del`, `expire`, `persist`, the clean-up and `flush` on a new store, there are
  -- at most `maxKeys` keys, none stands twice, and `insertOrder` lists exactly the keys of the map
  -- in its order.
  pub run_all-IsBounded :
      (max : ℕ) (calls : List (KvCall V))
      → 0 < max
      → All IsNaming calls
      → ((run_all calls (new_store max)).insert_order ≡ keys (run_all calls (new_store max)).store)
        × IsUnique (run_all calls (new_store max)).store
        × (length (run_all calls (new_store max)).store ≤ max)
  run_all-IsBounded max calls positive naming =
      let ((order, unique, few), limit, named) =
        runs max calls (new_store max) positive naming
          ((refl, tt, omega arith), refl, lookup-empty "") in
      (order, unique, omega arith)
