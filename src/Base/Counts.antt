-- ===== src/Base/Counts.antt =====
-- How often a text stands in a list: the specifications compare lists by it where order is free.
use Prim.Native.Nat.{ℕ, suc, ◌+◌, ◌-◌, ◌<◌, ◌≤◌}
use Prim.Native.String.{String}
use mathlib.Core.Path.{◌≡◌, refl, sym, ◌∙◌, subst}
use mathlib.Core.Logic.{inl, inr, ◌≢◌}
use mathlib.Core.Logic.Or
use mathlib.Core.HLevel.{⊥_prop}
use mathlib.Core.List.{
  List, [], ◌∷◌, ◌++◌, Perm, Mem, mem-cons_self, mem-cons, not-mem-nil, mem-cons_of_mem,
}
use mathlib.Core.List.Perm
use native.Mathlib.Omega.{arith}
use text.Mathlib.Text.{◌==◌ as str_eq}
use text.Mathlib.TextEquality.{eq_iff}
use text.Mathlib.TextPositions.{eq_refl}
use oblivinx.Base.Tests.{if◌then◌else◌, Bool-cases}
use oblivinx.Base.Lists.{All}
use oblivinx.Base.Dict.{Dict, IsUnique, keys, has, lookup}

unfoldable pub count : String → List String → ℕ
count x [] = 0
count x (y ∷ l) = let rest = count x l in if str_eq y x then suc rest else rest

abbrev pub remove_first : String → List String → List String
remove_first x [] = []
remove_first x (y ∷ l) = let rest = remove_first x l in if str_eq y x then l else y ∷ rest

pub count-append : (x : String) (l m : List String) → count x (l ++ m) ≡ count x l + count x m
unfolding count
count-append x [] m = omega arith
count-append x (y ∷ l) m = ground (arith, count-append x l m)

pub count-snoc :
    (x y : String) (l : List String)
    → count x (l ++ y ∷ []) ≡ (if str_eq y x then count x l + 1 else count x l)
unfolding count
count-snoc x y l = count-append x l (y ∷ []) ∙ ground arith

pub count_self : (x : String) (l : List String) → 0 < count x (x ∷ l)
unfolding count
count_self x l = ground (arith, eq_refl x)

pub mem_of_count : (x : String) (l : List String) → 0 < count x l → Mem x l
unfolding count
mem_of_count x [] h = absurd (omega arith)
mem_of_count x (y ∷ l) h = elim (Bool-cases (str_eq y x)) [
  | inl e ↦ subst (λ z. Mem z (y ∷ l)) ((eq_iff y x).0 e) mem-cons_self
  | inr e ↦ mem-cons_of_mem y (mem_of_count x l (ground arith))
]

pub count-remove_first :
    (x y : String) (l : List String)
    → count y (remove_first x l) ≡ (if str_eq x y then count y l - 1 else count y l)
unfolding count
count-remove_first x y [] = ground arith
count-remove_first x y (z ∷ l) =
    ground (arith, eq_iff z x, eq_iff z y, eq_iff x y, count-remove_first x y l)

pub remove_first-perm :
    (x : String) (l : List String) → 0 < count x l → Perm (x ∷ remove_first x l) l
unfolding count
remove_first-perm x [] h = absurd (omega arith)
remove_first-perm x (y ∷ l) h = elim (Bool-cases (str_eq y x)) [
  | inl e ↦ rw (e, sym ((eq_iff y x).0 e)) (Perm.refl _)
  | inr e ↦ rw e (Perm.trans (Perm.swap _ _ _) (Perm.cons y (remove_first-perm x l (ground arith))))
]

-- A list that holds nothing more often than another is a part of it: what it leaves out is a list.
pub part :
    (l m : List String)
    → ((x : String) → count x l ≤ count x m)
    → (rest : List String) × Perm (l ++ rest) m
      × ((x : String) → count x l + count x rest ≡ count x m)
unfolding count
part [] m h = (m, Perm.refl _, λ x. omega arith)
part (y ∷ l) m h =
    let there : 0 < count y m = omega (arith, count_self y l, h y) in
    let (rest, perm, counts) =
      part l (remove_first y m) (λ x. ground (arith, h x, count-remove_first y x m)) in
    (
      rest,
      Perm.trans (Perm.cons y perm) (remove_first-perm y m there),
      λ x. ground (arith, h x, counts x, count-remove_first y x m),
    )

pub All-of_count {ℓ} :
    (P : String → Type ℓ) (l : List String) → ((x : String) → 0 < count x l → P x) → All P l
unfolding count
All-of_count P [] h = tt
All-of_count P (x ∷ l) h = (h x (count_self x l), All-of_count P l (λ y p. h y (ground arith)))

pub All-at_count {ℓ} :
    (P : String → Type ℓ) (x : String) (l : List String) → 0 < count x l → All P l → P x
unfolding count
All-at_count P x [] h k = absurd (omega arith)
All-at_count P x (y ∷ l) h k = elim (Bool-cases (str_eq y x)) [
  | inl e ↦ subst P ((eq_iff y x).0 e) k.0
  | inr e ↦ All-at_count P x l (ground arith) k.1
]

pub count-of_mem : (x : String) (l : List String) → Mem x l → count x l ≢ 0
unfolding count
count-of_mem x [] h e = not-mem-nil h
count-of_mem x (y ∷ l) h e =
    Or.elim ⊥_prop (mem-cons.0 h) (λ same. ground (arith, eq_iff y x, sym same))
      (λ later. count-of_mem x l later (ground arith))

-- The keys of a map.
pub count-keys {ℓ} :
    {V : Type ℓ} (x : String) (m : Dict V)
    → IsUnique m
    → count x (keys m) ≡ (if has x m then 1 else 0)
unfolding count lookup
count-keys x [] u = refl
count-keys x ((k, v) ∷ m) u = ground (arith, eq_iff k x, count-keys x m u.1, u.0)
