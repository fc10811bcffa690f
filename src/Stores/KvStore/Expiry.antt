-- ===== src/Stores/KvStore/Expiry.antt =====
-- stores/KvStore.ts: what a key's time of expiry does.
use oblivinx.Base.{
  ℕ, ◌+◌, ◌≤◌, ◌≡◌, refl, sym, ap, ◌∙◌, Bool, true, false, String, Option, none, some, List, [],
  ◌∷◌, Bool-cases, inl, inr, arith, str_eq, eq_iff, eq_refl, if◌then◌else◌, ltb, ◌&&◌, not,
}
use oblivinx.Base.Dict.{Dict, lookup, erase, IsUnique, lookup-insert, lookup-erase}
use mathlib.Core.Option
use oblivinx.Stores.KvStore.{
  KvEntry, KvStore, KvSetOptions, is_alive, is_expired, evict, set, set_checked, write, get,
  get_found, remove_keys, expired_keys, cleanup, remove_first, includes, setnx,
}

module _ {V : Type 0} where
  -- What a reader sees of an entry.
  abbrev pub seen : ℕ → Option (KvEntry V) → Option V
  seen now none = none
  seen now (some entry) = if is_expired now entry then none else some entry.value

  pub get-seen :
      (now : ℕ) (key : String) (s : KvStore V) → (get now key s).0 ≡ seen now (lookup key s.store)
  unfolding get
  get-seen now key s = by_entry (lookup key s.store)
    where
      by_entry : (o : Option (KvEntry V)) → (get_found now key o s).0 ≡ seen now o
      by_entry none = refl
      by_entry (some entry) = elim (Bool-cases (is_expired now entry)) [
        | inl over ↦ rw over refl
        | inr alive ↦ rw alive refl
      ]

  lookup-remove_keys :
      (key : String) (ks : List String) (s : KvStore V)
      → lookup key (remove_keys ks s).store ≡ (if includes ks key then none else lookup key s.store)
  lookup-remove_keys key [] s = refl
  lookup-remove_keys key (k ∷ ks) s =
      lookup-remove_keys key ks
        (record s { store = erase k s.store; insert_order = remove_first k s.insert_order })
      ∙ ground (arith, lookup-erase k key s.store)

  -- A key without an entry is not among the expired ones, and an expired one is not seen.
  expired-none :
      (now : ℕ) (key : String) (m : Dict (KvEntry V))
      → lookup key m ≡ none
      → includes (expired_keys now m) key ≡ false
  unfolding lookup
  expired-none now key [] h = refl
  expired-none now key ((i, entry) ∷ m) h =
      let other : str_eq i key ≡ false = ground arith in
      let ih = expired-none now key m (ground arith) in
      elim (Bool-cases (is_expired now entry)) [
        | inl over ↦ rw (over, other) ih
        | inr alive ↦ rw alive ih
      ]

  expired-seen :
      (now : ℕ) (key : String) (m : Dict (KvEntry V))
      → IsUnique m
      → includes (expired_keys now m) key ≡ true
      → seen now (lookup key m) ≡ none
  unfolding lookup
  expired-seen now key [] u h = refl
  expired-seen now key ((i, entry) ∷ m) (fresh, u) h = elim (Bool-cases (str_eq i key)) [
    | inl same ↦
        let gone : lookup key m ≡ none =
          ap (λ j. lookup j m) (sym ((eq_iff i key).0 same)) ∙ fresh in
        let unlisted = expired-none now key m gone in
        elim (Bool-cases (is_expired now entry)) [
          | inl over ↦ rw (same, over) refl
          | inr alive ↦
              let e : includes (expired_keys now ((i, entry) ∷ m)) key
                  ≡ includes (expired_keys now m) key =
                rw alive refl in
              absurd (cc)
        ]
    | inr other ↦ rw other (expired-seen now key m u (behind other h))
  ]
    where
      behind :
          str_eq i key ≡ false
          → includes (expired_keys now ((i, entry) ∷ m)) key ≡ true
          → includes (expired_keys now m) key ≡ true
      behind other h = elim (Bool-cases (is_expired now entry)) [
        | inl over ↦
            let e : includes (expired_keys now ((i, entry) ∷ m)) key
                ≡ includes (expired_keys now m) key =
              rw (over, other) refl in
            sym e ∙ h
        | inr alive ↦
            let e : includes (expired_keys now ((i, entry) ∷ m)) key
                ≡ includes (expired_keys now m) key =
              rw alive refl in
            sym e ∙ h
      ]

  -- Where no key stands twice, `get` of any key right after the clean-up of expired keys returns
  -- what it returns without the clean-up.
  pub get-cleanup :
      (now : ℕ) (key : String) (s : KvStore V)
      → IsUnique s.store
      → (get now key (cleanup now s)).0 ≡ (get now key s).0
  unfolding cleanup
  get-cleanup now key s u =
      get-seen now key (remove_keys (expired_keys now s.store) s)
      ∙ ap (seen now) (lookup-remove_keys key (expired_keys now s.store) s)
      ∙ by_listed
      ∙ sym (get-seen now key s)
    where
      by_listed :
          seen now (if includes (expired_keys now s.store) key then none else lookup key s.store)
          ≡ seen now (lookup key s.store)
      by_listed = elim (Bool-cases (includes (expired_keys now s.store) key)) [
        | inl listed ↦ rw listed (sym (expired-seen now key s.store u listed))
        | inr kept ↦ rw kept refl
      ]

  write-lookup :
      (key : String) (entry : KvEntry V) (s : KvStore V)
      → lookup key (write key entry s).store ≡ some entry
  write-lookup key entry s = ground (arith, lookup-insert key key entry s.store, eq_refl key)

  -- What a call that sets the key leaves under it.
  pub set-lookup :
      (now : ℕ) (key : String) (value : V) (options : KvSetOptions) (s t : KvStore V)
      → set now key value options s ≡ (true, t)
      → lookup key t.store
        ≡ some (record { value = value; expires_at = Option.map (λ ttl. now + ttl) options.ttl_ms })
  unfolding set
  set-lookup now key value options s t h = checked (is_alive now key s).0 (is_alive now key s).1 h
    where
      checked :
          (exists : Bool) (u : KvStore V)
          → set_checked now key value options (exists, u) ≡ (true, t)
          → lookup key t.store
            ≡ some (record {
              value = value;
              expires_at = Option.map (λ ttl. now + ttl) options.ttl_ms;
            })
      checked exists u h = elim (Bool-cases (options.nx && exists)) [
        | inl taken ↦
            let e : set_checked now key value options (exists, u) ≡ (false, u) = rw taken refl in
            let bad : false ≡ true = ap (λ p. p.0) (sym e ∙ h) in absurd (cc)
        | inr free ↦ elim (Bool-cases (options.xx && not exists)) [
          | inl absent ↦
              let e : set_checked now key value options (exists, u) ≡ (false, u) =
                rw (free, absent) refl in
              let bad : false ≡ true = ap (λ p. p.0) (sym e ∙ h) in absurd (cc)
          | inr goes ↦
              let e : set_checked now key value options (exists, u) ≡ (
                true,
                write key
                    (record {
                      value = value;
                      expires_at = Option.map (λ ttl. now + ttl) options.ttl_ms;
                    })
                    (evict key u),
              ) =
                rw (free, goes) refl in
              ap (λ (k : KvStore V). lookup key k.store) (ap (λ p. p.1) (sym h ∙ e))
              ∙ write-lookup key _ (evict key u)
        ]
      ]

  -- After a `setnx` that took a key for some time, a next `setnx` of the key up to the end of that
  -- time, its last moment included, fails and changes nothing.
  pub setnx_twice :
      (now ttl later : ℕ) (key : String) (value other : V) (ttl_other : Option ℕ) (s t : KvStore V)
      → setnx now key value (some ttl) s ≡ (true, t)
      → later ≤ now + ttl
      → setnx later key other ttl_other t ≡ (false, t)
  unfolding set is_alive
  setnx_twice now ttl later key value other ttl_other s t taken soon =
      let there =
        set-lookup now key value (record { ttl_ms = some ttl; nx = true; xx = false }) s t taken in
      let alive : ltb (now + ttl) later ≡ false = ground arith in rw (there, alive) refl
