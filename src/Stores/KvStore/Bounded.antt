-- ===== src/Stores/KvStore/Bounded.antt =====
-- stores/KvStore.ts: its order of insertion and its limit, through each method.
use oblivinx.Base.{
  ℕ, ◌≤◌, ◌<◌, ◌≡◌, refl, sym, ap, ◌∙◌, true, false, String, Option, none, some, [], ◌∷◌, ◌++◌,
  Bool-cases, inl, inr, ◌⊎◌, arith, str_eq, eq_iff, length, length-append, is_some,
}
use oblivinx.Base.Dict.{
  Dict, lookup, insert, erase, has, keys, IsUnique, erase-none, insert-IsUnique, erase-IsUnique,
  keys-insert_new, keys-insert_old,
}
use oblivinx.Stores.KvStore.{
  KvEntry, KvStore, delete, is_alive, alive_found, is_expired, write, get, get_found, remove_first,
  includes,
}

module _ {V : Type 0} where
  -- The order of insertion is that of the map, and the keys are within the limit.
  abbrev pub IsBounded : KvStore V → Type 0
  IsBounded s = (s.insert_order ≡ keys s.store) × IsUnique s.store × (length s.store ≤ s.max_keys)

  pub length-keys : (m : Dict (KvEntry V)) → length (keys m) ≡ length m
  length-keys [] = refl
  length-keys ((k, v) ∷ m) = omega (arith, length-keys m)

  pub keys-erase :
      (k : String) (m : Dict (KvEntry V)) → IsUnique m → keys (erase k m) ≡ remove_first k (keys m)
  unfolding erase
  keys-erase k [] u = refl
  keys-erase k ((i, w) ∷ m) (fresh, u) = elim (Bool-cases (str_eq i k)) [
    | inl same ↦
        let gone : lookup k m ≡ none = ap (λ j. lookup j m) (sym ((eq_iff i k).0 same)) ∙ fresh in
        rw same (ap keys (erase-none k m gone))
    | inr other ↦ rw other (ap (λ l. i ∷ l) (keys-erase k m u))
  ]

  pub length-erase : (k : String) (m : Dict (KvEntry V)) → length (erase k m) ≤ length m
  unfolding erase
  length-erase k [] = omega arith
  length-erase k ((i, w) ∷ m) = elim (Bool-cases (str_eq i k)) [
    | inl same ↦ rw same (omega (arith, length-erase k m))
    | inr other ↦ rw other (omega (arith, length-erase k m))
  ]

  includes-keys : (m : Dict (KvEntry V)) (key : String) → includes (keys m) key ≡ has key m
  unfolding lookup
  includes-keys [] key = refl
  includes-keys ((i, w) ∷ m) key = elim (Bool-cases (str_eq i key)) [
    | inl same ↦ rw same refl
    | inr other ↦ rw other (includes-keys m key)
  ]

  pub delete-IsBounded : (key : String) (s : KvStore V) → IsBounded s → IsBounded (delete key s).1
  unfolding delete
  delete-IsBounded key s (order, unique, few) = elim (Bool-cases (has key s.store)) [
    | inl there ↦
        let less = length-erase key s.store in
        rw there (
          ap (remove_first key) order ∙ sym (keys-erase key s.store unique),
          erase-IsUnique key s.store unique,
          omega arith,
        )
    | inr missing ↦ rw missing (order, unique, few)
  ]

  has_some : (o : Option (KvEntry V)) → is_some o ≡ true → (entry : KvEntry V) × (o ≡ some entry)
  has_some none h = absurd (cc)
  has_some (some entry) h = (entry, refl)

  pub has_none : (o : Option (KvEntry V)) → is_some o ≡ false → o ≡ none
  has_none none h = refl
  has_none (some entry) h = absurd (cc)

  -- A write of a key that is there, or where there is room.
  pub write-IsBounded :
      (key : String) (entry : KvEntry V) (s : KvStore V)
      → IsBounded s
      → (has key s.store ≡ true) ⊎ (length s.store < s.max_keys)
      → IsBounded (write key entry s)
  write-IsBounded key entry s (order, unique, few) room =
      let known : includes s.insert_order key ≡ has key s.store =
        ap (λ l. includes l key) order ∙ includes-keys s.store key in
      elim (Bool-cases (has key s.store)) [
        | inl there ↦
            let (old, found) = has_some (lookup key s.store) there in
            let same = keys-insert_old key entry old s.store found in
            let before = length-keys s.store in
            let after = length-keys (insert key entry s.store) in
            let counted = ap length same in
            rw (known ∙ there)
              (order ∙ sym same, insert-IsUnique key entry s.store unique, omega arith)
        | inr missing ↦
            let more = keys-insert_new key entry s.store (has_none (lookup key s.store) missing) in
            let before = length-keys s.store in
            let after = length-keys (insert key entry s.store) in
            let counted = ap length more in
            let longer = length-append (keys s.store) (key ∷ []) in
            rw (known ∙ missing) (
              ap (λ l. l ++ key ∷ []) order ∙ sym more,
              insert-IsUnique key entry s.store unique,
              elim room [ inl there ↦ absurd (cc) | inr free ↦ omega arith ],
            )
      ]

  pub alive-IsBounded :
      (now : ℕ) (key : String) (s : KvStore V) → IsBounded s → IsBounded (is_alive now key s).1
  unfolding is_alive
  alive-IsBounded now key s b = by_entry (lookup key s.store)
    where
      by_entry : (o : Option (KvEntry V)) → IsBounded (alive_found now key o s).1
      by_entry none = b
      by_entry (some entry) = elim (Bool-cases (is_expired now entry)) [
        | inl over ↦ rw over (delete-IsBounded key s b)
        | inr alive ↦ rw alive b
      ]

  pub get-IsBounded :
      (now : ℕ) (key : String) (s : KvStore V) → IsBounded s → IsBounded (get now key s).1
  unfolding get
  get-IsBounded now key s b = by_entry (lookup key s.store)
    where
      by_entry : (o : Option (KvEntry V)) → IsBounded (get_found now key o s).1
      by_entry none = b
      by_entry (some entry) = elim (Bool-cases (is_expired now entry)) [
        | inl over ↦ rw over (delete-IsBounded key s b)
        | inr alive ↦ rw alive b
      ]
