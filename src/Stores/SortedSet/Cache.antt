-- ===== src/Stores/SortedSet/Cache.antt =====
-- stores/SortedSet.ts: the cache of sorted views, through each method.
use oblivinx.Base.{
  ℕ, ◌≡◌, refl, sym, ap, ◌∙◌, Bool, false, String, Option, none, some, List, [], ◌∷◌, Option-cases,
  Bool-cases, inl, inr, arith, str_eq, eq_iff, ltb, is_some,
}
use oblivinx.Base.Dict.{Dict, lookup, insert, erase, erase-none, has, lookup-insert, lookup-erase}
use oblivinx.Stores.SortedSet.{
  ZMember, SortedSet, new_set, members_of, set_at, put_set, zadd, zincrby, zrem, remove_found,
  remove_each, del, sort, sorted,
}

module _ (member_le : String → String → Bool) where
  -- Every view in the cache is the sort of its set.
  abbrev pub IsCoherent : SortedSet → Type 0
  IsCoherent s =
      (key : String) (view : List ZMember)
      → lookup key s.cache ≡ some view
      → (set : Dict ℕ) × (lookup key s.sets ≡ some set) × (view ≡ sort member_le (members_of set))

  pub new_set-IsCoherent : IsCoherent new_set
  new_set-IsCoherent key view h = absurd (unfold lookup in cc)

  -- A write of one set that drops its view.
  put-IsCoherent :
      (key : String) (set : Dict ℕ) (s : SortedSet) → IsCoherent s → IsCoherent (put_set key set s)
  put-IsCoherent key set s c k view h = elim (Bool-cases (str_eq key k)) [
    | inl same ↦ absurd (ground (arith, lookup-erase key k s.cache))
    | inr other ↦
        let (old, known, sorted_old) = c k view (ground (arith, lookup-erase key k s.cache)) in
        (old, ground (arith, lookup-insert key k set s.sets), sorted_old)
  ]

  zadd-IsCoherent :
      (key : String) (score : ℕ) (member : String) (s : SortedSet)
      → IsCoherent s
      → IsCoherent (zadd key score member s).1
  unfolding zadd
  zadd-IsCoherent key score member s c = put-IsCoherent key _ s c

  zincrby-IsCoherent :
      (key : String) (by : ℕ) (member : String) (s : SortedSet)
      → IsCoherent s
      → IsCoherent (zincrby key by member s).1
  unfolding zincrby
  zincrby-IsCoherent key by member s c = put-IsCoherent key _ s c

  -- Nothing is removed where the count is 0.
  remove_each-none :
      (members : List String) (set : Dict ℕ)
      → (remove_each members set).0 ≡ 0
      → (remove_each members set).1 ≡ set
  remove_each-none [] set h = refl
  remove_each-none (m ∷ members) set h = elim (Bool-cases (has m set)) [
    | inl there ↦ absurd (ground arith)
    | inr missing ↦
        let gone : erase m set ≡ set = erase-none m set (absent (lookup m set) missing) in
        remove_each-none members (erase m set) (ground arith) ∙ gone
  ]
    where
      absent : (o : Option ℕ) → is_some o ≡ false → o ≡ none
      absent none h = refl
      absent (some n) h = absurd (cc)

  zrem-IsCoherent :
      (key : String) (members : List String) (s : SortedSet)
      → IsCoherent s
      → IsCoherent (zrem key members s).1
  unfolding zrem
  zrem-IsCoherent key members s c = elim (Option-cases (lookup key s.sets)) [
    | inl missing ↦ rw missing c
    | inr (set, known) ↦ rw known (removed set known)
  ]
    where
      same_set :
          (set rest : Dict ℕ)
          → lookup key s.sets ≡ some set
          → rest ≡ set
          → IsCoherent (record { sets = insert key rest s.sets; cache = s.cache })
      same_set set rest known same k view h =
          let (old, found, sorted_old) = c k view h in
          elim (Bool-cases (str_eq key k)) [
            | inl own ↦
                let it : key ≡ k = (eq_iff key k).0 own in
                let one : some old ≡ some set =
                  sym found ∙ ap (λ j. lookup j s.sets) (sym it) ∙ known in
                (rest, ground (arith, lookup-insert key k rest s.sets), cc)
            | inr other ↦ (old, ground (arith, lookup-insert key k rest s.sets), sorted_old)
          ]

      removed :
          (set : Dict ℕ)
          → lookup key s.sets ≡ some set
          → IsCoherent (remove_found key members (some set) s).1
      removed set known = elim (Bool-cases (ltb 0 (remove_each members set).0)) [
        | inl some_gone ↦ rw some_gone (put-IsCoherent key (remove_each members set).1 s c)
        | inr none_gone ↦ rw none_gone (
            same_set set (remove_each members set).1 known
              (remove_each-none members set (ground arith)))
      ]

  del-IsCoherent : (key : String) (s : SortedSet) → IsCoherent s → IsCoherent (del key s).1
  unfolding del
  del-IsCoherent key s c k view h = elim (Bool-cases (str_eq key k)) [
    | inl same ↦ absurd (ground (arith, lookup-erase key k s.cache))
    | inr other ↦
        let (old, known, sorted_old) = c k view (ground (arith, lookup-erase key k s.cache)) in
        (old, ground (arith, lookup-erase key k s.sets), sorted_old)
  ]

  -- What a view of a set is, cached or not.
  pub sorted_lem :
      (key : String) (s : SortedSet)
      → IsCoherent s
      → ((sorted member_le key s).0 ≡ sort member_le (members_of (set_at key s)))
        × ((sorted member_le key s).1.sets ≡ s.sets)
        × IsCoherent (sorted member_le key s).1
  unfolding sorted
  sorted_lem key s c = elim (Option-cases (lookup key s.cache)) [
    | inr (view, cached) ↦
        let (set, known, same) = c key view cached in rw (cached, known) (same, refl, c)
    | inl uncached ↦ elim (Option-cases (lookup key s.sets)) [
      | inl missing ↦ rw (uncached, missing) (refl, refl, c)
      | inr (set, known) ↦ rw (uncached, known) (refl, refl, stored set known)
    ]
  ]
    where
      stored :
          (set : Dict ℕ)
          → lookup key s.sets ≡ some set
          → IsCoherent (record s { cache = insert key (sort member_le (members_of set)) s.cache })
      stored set known k view h = elim (Bool-cases (str_eq key k)) [
        | inl own ↦
            let it : key ≡ k = (eq_iff key k).0 own in
            (
              set,
              sym (ap (λ j. lookup j s.sets) it) ∙ known,
              ground (arith, lookup-insert key k (sort member_le (members_of set)) s.cache),
            )
        | inr other ↦
            c k view (ground (arith, lookup-insert key k (sort member_le (members_of set)) s.cache))
      ]

  -- A call of a method that writes a set, or reads a sorted view.
  pub data Call : Type 0 where
    adds : String → ℕ → String → Call
    increments : String → ℕ → String → Call
    removes : String → List String → Call
    deletes : String → Call
    views : String → Call

  abbrev pub run_call : Call → SortedSet → SortedSet
  run_call (adds key score member) s = (zadd key score member s).1
  run_call (increments key by member) s = (zincrby key by member s).1
  run_call (removes key members) s = (zrem key members s).1
  run_call (deletes key) s = (del key s).1
  run_call (views key) s = (sorted member_le key s).1

  abbrev pub run_calls : List Call → SortedSet → SortedSet
  run_calls [] s = s
  run_calls (call ∷ calls) s = run_calls calls (run_call call s)

  call-IsCoherent : (call : Call) (s : SortedSet) → IsCoherent s → IsCoherent (run_call call s)
  call-IsCoherent (adds key score member) s c = zadd-IsCoherent key score member s c
  call-IsCoherent (increments key by member) s c = zincrby-IsCoherent key by member s c
  call-IsCoherent (removes key members) s c = zrem-IsCoherent key members s c
  call-IsCoherent (deletes key) s c = del-IsCoherent key s c
  call-IsCoherent (views key) s c = (sorted_lem key s c).2

  pub calls-IsCoherent :
      (calls : List Call) (s : SortedSet) → IsCoherent s → IsCoherent (run_calls calls s)
  calls-IsCoherent [] s c = c
  calls-IsCoherent (call ∷ calls) s c =
      calls-IsCoherent calls (run_call call s) (call-IsCoherent call s c)

  -- Whatever the cache holds.
  pub run_calls-sorted :
      (calls : List Call) (key : String)
      → (sorted member_le key (run_calls calls new_set)).0
        ≡ sort member_le (members_of (set_at key (run_calls calls new_set)))
  run_calls-sorted calls key =
      (sorted_lem key (run_calls calls new_set)
        (calls-IsCoherent calls new_set new_set-IsCoherent)).0
