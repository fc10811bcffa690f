-- ===== src/Base/Dict.antt =====
-- `Map<string, V>`: an association list in insertion order. A write to a key that is there keeps
-- its place, as in JavaScript.
use Prim.Native.String.{String}
use mathlib.Core.Path.{◌≡◌, refl}
use mathlib.Core.Logic.{◌≢◌, inl, inr}
use mathlib.Core.Logic.Or
use mathlib.Core.HLevel.{⊥_prop}
use mathlib.Core.List.{Mem, mem-cons, mem-cons_self, mem-cons_of_mem, not-mem-nil}
use mathlib.Core.Bool.{Bool}
use mathlib.Core.Option.{Option, none, some}
use mathlib.Core.List.{List, [], ◌∷◌, ◌++◌, Perm}
use mathlib.Core.List.Perm
use native.Mathlib.Omega.{arith}
use text.Mathlib.Text.{◌==◌}
use text.Mathlib.TextEquality.{eq_iff}
use oblivinx.Base.Tests.{if◌then◌else◌, is_some, Bool-cases}

abbrev pub Dict {ℓ} : Type ℓ → Type ℓ
Dict V = List (String × V)

module _ {ℓ} {V : Type ℓ} where
  unfoldable pub lookup : String → Dict V → Option V
  lookup key [] = none
  lookup key ((other, value) ∷ rest) = if other == key then some value else lookup key rest

  unfoldable pub insert : String → V → Dict V → Dict V
  insert key value [] = (key, value) ∷ []
  insert key value ((other, old) ∷ rest) =
      let later = insert key value rest in
      if other == key then (key, value) ∷ rest else (other, old) ∷ later

  unfoldable pub erase : String → Dict V → Dict V
  erase key [] = []
  erase key ((other, old) ∷ rest) =
      let later = erase key rest in if other == key then later else (other, old) ∷ later

  abbrev pub has : String → Dict V → Bool
  has k m = is_some (lookup k m)

  abbrev pub keys : Dict V → List String
  keys [] = []
  keys ((k, _) ∷ m) = k ∷ keys m

  abbrev pub values : Dict V → List V
  values [] = []
  values ((_, v) ∷ m) = v ∷ values m

  -- No key stands twice: what makes the list a map.
  abbrev pub IsUnique : Dict V → Type ℓ
  IsUnique [] = Unit
  IsUnique ((k, _) ∷ m) = (lookup k m ≡ none) × IsUnique m

module _ {ℓ} {V : Type ℓ} where
  pub lookup-insert :
      (key sought : String) (value : V) (dict : Dict V)
      → lookup sought (insert key value dict)
        ≡ (if key == sought then some value else lookup sought dict)
  unfolding lookup insert
  lookup-insert key sought value [] = refl
  lookup-insert key sought value ((other, old) ∷ rest) = ground (
    arith,
    eq_iff other key,
    eq_iff other sought,
    eq_iff key sought,
    lookup-insert key sought value rest,
  )

  pub lookup-erase :
      (k j : String) (m : Dict V) → lookup j (erase k m) ≡ (if k == j then none else lookup j m)
  unfolding lookup erase
  lookup-erase k j [] = ground arith
  lookup-erase k j ((i, w) ∷ m) =
      ground (arith, eq_iff k j, eq_iff i k, eq_iff i j, lookup-erase k j m)

  pub erase-empty : (k : String) → erase {V = V} k [] ≡ []
  unfolding erase
  erase-empty k = refl

  pub lookup-empty : (k : String) → lookup {V = V} k [] ≡ none
  unfolding lookup
  lookup-empty k = refl

module _ {ℓ} {V : Type ℓ} where
  pub insert-IsUnique : (k : String) (v : V) (m : Dict V) → IsUnique m → IsUnique (insert k v m)
  unfolding insert
  insert-IsUnique k v [] h = (lookup-empty k, tt)
  insert-IsUnique k v ((i, w) ∷ m) h = elim (Bool-cases (i == k)) [
    | inl e ↦ rw e (ground (arith, eq_iff i k))
    | inr e ↦ rw e (
      ground (arith, lookup-insert k i v m, eq_iff i k, eq_iff k i, h.0),
      insert-IsUnique k v m h.1,
    )
  ]

  pub erase-IsUnique : (k : String) (m : Dict V) → IsUnique m → IsUnique (erase k m)
  unfolding erase
  erase-IsUnique k [] h = tt
  erase-IsUnique k ((i, w) ∷ m) h = elim (Bool-cases (i == k)) [
    | inl e ↦ rw e (erase-IsUnique k m h.1)
    | inr e ↦ rw e (ground (arith, lookup-erase k i m, h.0), erase-IsUnique k m h.1)
  ]

  -- Nothing to erase.
  pub erase-none : (k : String) (m : Dict V) → lookup k m ≡ none → erase k m ≡ m
  unfolding lookup erase
  erase-none k [] h = refl
  erase-none k ((i, w) ∷ m) h = ground (arith, erase-none k m)

  pub keys-insert_new :
      (k : String) (v : V) (m : Dict V) → lookup k m ≡ none → keys (insert k v m) ≡ keys m ++ k ∷ []
  unfolding lookup insert
  keys-insert_new k v [] h = refl
  keys-insert_new k v ((i, w) ∷ m) h = ground (arith, keys-insert_new k v m)

  pub keys-insert_old :
      (k : String) (v w : V) (m : Dict V) → lookup k m ≡ some w → keys (insert k v m) ≡ keys m
  unfolding lookup insert
  keys-insert_old k v w [] h = cc
  keys-insert_old k v w ((i, u) ∷ m) h = ground (arith, eq_iff i k, keys-insert_old k v w m)

  -- A key that is there is one of the keys, beside those of the map without it.
  pub keys-erase-perm :
      (k : String) (v : V) (m : Dict V)
      → IsUnique m
      → lookup k m ≡ some v
      → Perm (k ∷ keys (erase k m)) (keys m)
  unfolding lookup erase
  keys-erase-perm k v [] u h = cc
  keys-erase-perm k v ((i, w) ∷ m) u h = elim (Bool-cases (i == k)) [
    | inl e ↦
        let same : i ≡ k = (eq_iff i k).0 e in
        rw (e, erase-none k m (rw same at u.0), same) (Perm.refl _)
    | inr e ↦
        rw e (Perm.trans (Perm.swap _ _ _) (Perm.cons i (keys-erase-perm k v m u.1 (ground arith))))
  ]

  -- A key that stands among the keys has a value.
  pub lookup-ne-none : (k : String) (m : Dict V) → Mem k (keys m) → lookup k m ≢ none
  unfolding lookup
  lookup-ne-none k [] h e = not-mem-nil h
  lookup-ne-none k ((i, w) ∷ m) h e =
      Or.elim ⊥_prop (mem-cons.0 h) (λ same. ground (arith, eq_iff i k))
        (λ later. lookup-ne-none k m later (ground arith))

  -- A key that has a value stands among the keys.
  pub mem-keys : (k : String) (v : V) (m : Dict V) → lookup k m ≡ some v → Mem k (keys m)
  unfolding lookup
  mem-keys k v [] h = cc
  mem-keys k v ((i, w) ∷ m) h = elim (Bool-cases (i == k)) [
    | inl e ↦ rw ((eq_iff i k).0 e) mem-cons_self
    | inr e ↦ mem-cons_of_mem i (mem-keys k v m (ground arith))
  ]

pub ruleset dict_laws = (lookup-empty, lookup-insert, lookup-erase)
