-- ===== src/Base/Lists.antt =====
-- Lists measured by native numbers.
use mathlib.Core.Option.{Option, none, some}
use Prim.Native.Nat.{◌-◌, ℕ, zero, suc, ◌+◌, ◌≤◌}
use mathlib.Core.Path.{◌≡◌, refl, ap, ◌∙◌}
use mathlib.Core.Logic.{∥∥₁_elim}
use mathlib.Core.Bool.{Bool}
use mathlib.Core.List.{List, [], ◌∷◌, ◌++◌, Perm, Permᴰ}
use native.Mathlib.Nat.{ℕ_set}
use native.Mathlib.Omega.{arith}
use oblivinx.Base.Tests.{if◌then◌else◌}

module _ {ℓ} {A : Type ℓ} where
  abbrev pub length : List A → ℕ
  length [] = 0
  length (_ ∷ l) = suc (length l)

  pub length-append : (l m : List A) → length (l ++ m) ≡ length l + length m
  length-append [] m = omega arith
  length-append (_ ∷ l) m = omega (arith, length-append l m)

  -- `l[l.length - 1]`.
  abbrev pub last : List A → Option A
  last [] = none
  last (x ∷ []) = some x
  last (x ∷ y ∷ l) = last (y ∷ l)

  abbrev pub drop : ℕ → List A → List A
  drop zero l = l
  drop (suc n) [] = []
  drop (suc n) (_ ∷ l) = drop n l

  abbrev pub take : ℕ → List A → List A
  take zero l = []
  take (suc n) [] = []
  take (suc n) (x ∷ l) = x ∷ take n l

  -- `Array.prototype.filter`. One structural call, under both branches at once.
  abbrev pub keep_if : (A → Bool) → List A → List A
  keep_if p [] = []
  keep_if p (x ∷ l) = let rest = keep_if p l in if p x then x ∷ rest else rest

  length-permᴰ : {l m : List A} → Permᴰ l m → length l ≡ length m
  length-permᴰ Permᴰ.nil = refl
  length-permᴰ (Permᴰ.cons _ p) = ap suc (length-permᴰ p)
  length-permᴰ (Permᴰ.swap _ _) = refl
  length-permᴰ (Permᴰ.trans p q) = length-permᴰ p ∙ length-permᴰ q

  pub length-perm : {l m : List A} → Perm l m → length l ≡ length m
  length-perm p = ∥∥₁_elim p (ℕ_set _ _) length-permᴰ

module _ {ℓ} {A : Type ℓ} where
  pub length-keep_if : (p : A → Bool) (l : List A) → length (keep_if p l) ≤ length l
  length-keep_if p [] = omega arith
  length-keep_if p (x ∷ l) = ground (arith, length-keep_if p l)

  -- Every entry has the property: a predicate by recursion, which the tactics take apart.
  abbrev pub All {κ} : (A → Type κ) → List A → Type κ
  All P [] = Unit
  All P (x ∷ l) = P x × All P l

  pub All-append {κ} : (P : A → Type κ) (l m : List A) → All P l → All P m → All P (l ++ m)
  All-append P [] m h k = k
  All-append P (x ∷ l) m h k = (h.0, All-append P l m h.1 k)

module _ {ℓ} {A : Type ℓ} where
  pub drop-nil : (n : ℕ) → drop {A = A} n [] ≡ []
  drop-nil zero = refl
  drop-nil (suc n) = refl

  pub drop-all : (n : ℕ) (l : List A) → length l ≤ n → drop n l ≡ []
  drop-all n [] h = drop-nil n
  drop-all zero (x ∷ l) h = absurd (omega arith)
  drop-all (suc n) (x ∷ l) h = drop-all n l (omega arith)

  pub take-all : (n : ℕ) (l : List A) → length l ≤ n → take n l ≡ l
  take-all zero [] h = refl
  take-all zero (x ∷ l) h = absurd (omega arith)
  take-all (suc n) [] h = refl
  take-all (suc n) (x ∷ l) h = ap (λ m. x ∷ m) (take-all n l (omega arith))

  pub take-append :
      (n : ℕ) (l m : List A) → length l ≤ n → take n (l ++ m) ≡ l ++ take (n - length l) m
  take-append n [] m h = let all : n - 0 ≡ n = omega arith in rw all refl
  take-append zero (x ∷ l) m h = absurd (omega arith)
  take-append (suc n) (x ∷ l) m h =
      let left : suc n - length (x ∷ l) ≡ n - length l = omega arith in
      rw left (ap (λ k. x ∷ k) (take-append n l m (omega arith)))

  pub last-append : (l : List A) (x : A) → last (l ++ x ∷ []) ≡ some x
  last-append [] x = refl
  last-append (_ ∷ []) x = refl
  last-append (_ ∷ y ∷ l) x = last-append (y ∷ l) x
