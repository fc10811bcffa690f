-- ===== src/Stores/KvStore/Named.antt =====
-- stores/KvStore.ts: a store without the empty key, which the eviction does not delete.
use oblivinx.Base.{
  ℕ, ◌≡◌, ap, ◌∙◌, Bool, false, String, Option, none, some, List, [], ◌∷◌, Bool-cases, inl, inr,
  ltb, ◌&&◌, not, length, str_eq, eq_iff, if-true, if-false,
}
use oblivinx.Base.Dict.{Dict, lookup, insert, erase, has, lookup-insert, lookup-erase}
use oblivinx.Stores.KvStore.{
  KvEntry, KvStore, KvSetOptions, delete, is_alive, alive_found, is_expired, evict, shift_oldest,
  set, set_checked, get, get_found, del, touch, remove_keys, remove_first,
}

module _ {V : Type 0} where
  abbrev pub IsNamed : KvStore V → Type 0
  IsNamed s = lookup "" s.store ≡ none

  erase-named :
      (k : String) (m : Dict (KvEntry V)) → lookup "" m ≡ none → lookup "" (erase k m) ≡ none
  erase-named k m h = elim (Bool-cases (str_eq k "")) [
    | inl same ↦ lookup-erase k "" m ∙ if-true _ _ same
    | inr other ↦ lookup-erase k "" m ∙ if-false _ _ other ∙ h
  ]

  insert-named :
      (k : String) (entry : KvEntry V) (m : Dict (KvEntry V))
      → str_eq k "" ≡ false
      → lookup "" m ≡ none
      → lookup "" (insert k entry m) ≡ none
  insert-named k entry m named h = lookup-insert k "" entry m ∙ if-false _ _ named ∙ h

  -- A key that is there has a name.
  named-found :
      (k : String) (entry : KvEntry V) (m : Dict (KvEntry V))
      → lookup "" m ≡ none
      → lookup k m ≡ some entry
      → str_eq k "" ≡ false
  named-found k entry m h found = elim (Bool-cases (str_eq k "")) [
    | inl same ↦
        let hidden : lookup k m ≡ none = ap (λ j. lookup j m) ((eq_iff k "").0 same) ∙ h in
        absurd (cc)
    | inr other ↦ other
  ]

  pub delete-IsNamed : (key : String) (s : KvStore V) → IsNamed s → IsNamed (delete key s).1
  unfolding delete
  delete-IsNamed key s h = elim (Bool-cases (has key s.store)) [
    | inl there ↦ rw there (erase-named key s.store h)
    | inr missing ↦ rw missing h
  ]

  pub alive-IsNamed :
      (now : ℕ) (key : String) (s : KvStore V) → IsNamed s → IsNamed (is_alive now key s).1
  unfolding is_alive
  alive-IsNamed now key s h = by_entry (lookup key s.store)
    where
      by_entry : (o : Option (KvEntry V)) → IsNamed (alive_found now key o s).1
      by_entry none = h
      by_entry (some entry) = elim (Bool-cases (is_expired now entry)) [
        | inl over ↦ rw over (delete-IsNamed key s h)
        | inr alive ↦ rw alive h
      ]

  shift-IsNamed : (order : List String) (s : KvStore V) → IsNamed s → IsNamed (shift_oldest order s)
  shift-IsNamed [] s h = h
  shift-IsNamed (k ∷ ks) s h = elim (Bool-cases (str_eq k "")) [
    | inl empty ↦ rw empty h
    | inr named ↦ rw named (erase-named k s.store h)
  ]

  evict-IsNamed : (key : String) (s : KvStore V) → IsNamed s → IsNamed (evict key s)
  unfolding evict
  evict-IsNamed key s h = elim (Bool-cases (ltb (length s.store) s.max_keys)) [
    | inl free ↦ rw free h
    | inr full ↦ elim (Bool-cases (has key s.store)) [
      | inl there ↦ rw (full, there) h
      | inr new ↦ rw (full, new) (shift-IsNamed s.insert_order s h)
    ]
  ]

  pub set-IsNamed :
      (now : ℕ) (key : String) (value : V) (options : KvSetOptions) (s : KvStore V)
      → str_eq key "" ≡ false
      → IsNamed s
      → IsNamed (set now key value options s).1
  unfolding set
  set-IsNamed now key value options s named h =
      checked (is_alive now key s).0 (is_alive now key s).1 (alive-IsNamed now key s h)
    where
      checked :
          (exists : Bool) (t : KvStore V)
          → IsNamed t
          → IsNamed (set_checked now key value options (exists, t)).1
      checked exists t c = elim (Bool-cases (options.nx && exists)) [
        | inl taken ↦ rw taken c
        | inr free ↦ elim (Bool-cases (options.xx && not exists)) [
          | inl absent ↦ rw (free, absent) c
          | inr goes ↦
              rw (free, goes) (insert-named key _ (evict key t).store named (evict-IsNamed key t c))
        ]
      ]

  pub get-IsNamed : (now : ℕ) (key : String) (s : KvStore V) → IsNamed s → IsNamed (get now key s).1
  unfolding get
  get-IsNamed now key s h = by_entry (lookup key s.store)
    where
      by_entry : (o : Option (KvEntry V)) → IsNamed (get_found now key o s).1
      by_entry none = h
      by_entry (some entry) = elim (Bool-cases (is_expired now entry)) [
        | inl over ↦ rw over (delete-IsNamed key s h)
        | inr alive ↦ rw alive h
      ]

  pub del-IsNamed : (ks : List String) (s : KvStore V) → IsNamed s → IsNamed (del ks s).1
  unfolding del
  del-IsNamed [] s h = h
  del-IsNamed (k ∷ ks) s h = del-IsNamed ks (delete k s).1 (delete-IsNamed k s h)

  pub touch-IsNamed :
      (now : ℕ) (key : String) (time : Option ℕ) (o : Option (KvEntry V)) (s : KvStore V)
      → lookup key s.store ≡ o
      → IsNamed s
      → IsNamed (touch now key time o s).1
  touch-IsNamed now key time none s known h = h
  touch-IsNamed now key time (some entry) s known h = elim (Bool-cases (is_expired now entry)) [
    | inl over ↦ rw over h
    | inr alive ↦ rw alive (
        insert-named key (record entry { expires_at = time }) s.store
          (named-found key entry s.store h known) h)
  ]

  pub remove-IsNamed : (ks : List String) (s : KvStore V) → IsNamed s → IsNamed (remove_keys ks s)
  remove-IsNamed [] s h = h
  remove-IsNamed (k ∷ ks) s h =
      remove-IsNamed ks
        (record s { store = erase k s.store; insert_order = remove_first k s.insert_order })
        (erase-named k s.store h)
