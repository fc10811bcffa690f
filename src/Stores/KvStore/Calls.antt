-- ===== src/Stores/KvStore/Calls.antt =====
-- stores/KvStore.ts: any run of calls keeps the order of insertion and the limit.
use oblivinx.Base.{
  ℕ, ◌≤◌, ◌<◌, ◌≡◌, refl, sym, subst, Bool, true, String, Option, none, some, List, [], ◌∷◌,
  Bool-cases, inl, inr, ◌⊎◌, arith, eq_refl, str_eq, ltb, ◌&&◌, not, length,
}
use oblivinx.Base.Dict.{Dict, lookup, erase, has, keys, IsUnique, erase-none}
use oblivinx.Stores.KvStore.{
  KvEntry, KvStore, KvSetOptions, delete, is_alive, alive_found, is_expired, evict, shift_oldest,
  set, set_checked,
}
use oblivinx.Stores.KvStore.Bounded.{IsBounded, write-IsBounded, alive-IsBounded}
use oblivinx.Stores.KvStore.Named.{IsNamed, alive-IsNamed}

module _ {V : Type 0} where
  -- Bounded, and with room for one more key.
  abbrev HasRoom : KvStore V → Type 0
  HasRoom s = IsBounded s × (length s.store < s.max_keys)

  erase-head :
      (k : String) (v : KvEntry V) (m : Dict (KvEntry V))
      → lookup k m ≡ none
      → erase k ((k, v) ∷ m) ≡ m
  unfolding erase
  erase-head k v m fresh = rw (eq_refl k) (erase-none k m fresh)

  shift-HasRoom :
      (m : Dict (KvEntry V)) (order : List String) (max : ℕ)
      → order ≡ keys m
      → IsUnique m
      → length m ≤ max
      → 0 < max
      → lookup "" m ≡ none
      → HasRoom (shift_oldest (keys m) (record { store = m; insert_order = order; max_keys = max }))
  unfolding lookup
  shift-HasRoom [] order max same u few positive h = ((same, u, few), positive)
  shift-HasRoom ((k, v) ∷ m) order max same (fresh, u) few positive h =
      elim (Bool-cases (str_eq k "")) [
        | inl empty ↦ let found = rw empty at h in absurd (cc)
        | inr named ↦ rw named (
            subst (λ n. HasRoom (record { store = n; insert_order = keys m; max_keys = max }))
              (sym (erase-head k v m fresh)) ((refl, u, omega arith), omega arith))
      ]

  evict-IsBounded :
      (key : String) (s : KvStore V)
      → IsBounded s
      → IsNamed s
      → 0 < s.max_keys
      → IsBounded (evict key s)
        × ((has key (evict key s).store ≡ true)
            ⊎ (length (evict key s).store < (evict key s).max_keys))
  unfolding evict
  evict-IsBounded key s b named positive = elim (Bool-cases (ltb (length s.store) s.max_keys)) [
    | inl free ↦ rw free (b, inr (ground arith))
    | inr full ↦ elim (Bool-cases (has key s.store)) [
      | inl there ↦ rw (full, there) (b, inl there)
      | inr new ↦ rw (full, new) (roomy (shift_all s b named positive))
    ]
  ]
    where
      shift_all :
          (s : KvStore V)
          → IsBounded s
          → IsNamed s
          → 0 < s.max_keys
          → HasRoom (shift_oldest s.insert_order s)
      shift_all s (order, unique, few) named positive =
          subst (λ l. HasRoom (shift_oldest l s)) (sym order)
            (shift-HasRoom s.store s.insert_order s.max_keys order unique few positive named)

      roomy :
          HasRoom (shift_oldest s.insert_order s)
          → IsBounded (shift_oldest s.insert_order s)
            × ((has key (shift_oldest s.insert_order s).store ≡ true)
                ⊎ (length (shift_oldest s.insert_order s).store
                    < (shift_oldest s.insert_order s).max_keys))
      roomy (bounded, room) = (bounded, inr room)

  -- No method changes the limit.
  pub delete-max : (key : String) (s : KvStore V) → (delete key s).1.max_keys ≡ s.max_keys
  unfolding delete
  delete-max key s = elim (Bool-cases (has key s.store)) [
    | inl there ↦ rw there refl
    | inr missing ↦ rw missing refl
  ]

  pub alive-max :
      (now : ℕ) (key : String) (s : KvStore V) → (is_alive now key s).1.max_keys ≡ s.max_keys
  unfolding is_alive
  alive-max now key s = by_entry (lookup key s.store)
    where
      by_entry : (o : Option (KvEntry V)) → (alive_found now key o s).1.max_keys ≡ s.max_keys
      by_entry none = refl
      by_entry (some entry) = elim (Bool-cases (is_expired now entry)) [
        | inl over ↦ rw over (delete-max key s)
        | inr alive ↦ rw alive refl
      ]

  pub set-IsBounded :
      (now : ℕ) (key : String) (value : V) (options : KvSetOptions) (s : KvStore V)
      → IsBounded s
      → IsNamed s
      → 0 < s.max_keys
      → IsBounded (set now key value options s).1
  unfolding set
  set-IsBounded now key value options s b named positive =
      checked (is_alive now key s).0 (is_alive now key s).1 (alive-IsBounded now key s b)
        (alive-IsNamed now key s named) (rw (alive-max now key s) positive)
    where
      checked :
          (exists : Bool) (t : KvStore V)
          → IsBounded t
          → IsNamed t
          → 0 < t.max_keys
          → IsBounded (set_checked now key value options (exists, t)).1
      checked exists t c d some_room =
          let (ready, room) = evict-IsBounded key t c d some_room in
          elim (Bool-cases (options.nx && exists)) [
            | inl taken ↦ rw taken c
            | inr free ↦ elim (Bool-cases (options.xx && not exists)) [
              | inl absent ↦ rw (free, absent) c
              | inr goes ↦ rw (free, goes) (write-IsBounded key _ (evict key t) ready room)
            ]
          ]
