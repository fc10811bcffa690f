-- ===== src/Base/Arrays.antt =====
-- JavaScript arrays as lists, under native indices. A read past the end gives `none` (`undefined`).
use mathlib.Core.List.Perm
use Prim.Native.Nat.{ℕ, zero, suc, ◌+◌, ◌-◌, ◌<◌}
use mathlib.Core.Path.{◌≡◌, refl, ap}
use mathlib.Core.Option.{Option, none, some}
use mathlib.Core.List.{List, [], ◌∷◌, ◌++◌, Perm}
use native.Mathlib.Omega.{arith}
use oblivinx.Base.Tests.{◌==◌, if◌then◌else◌}
use oblivinx.Base.Lists.{length, All}

module _ {ℓ} {A : Type ℓ} where
  abbrev pub get_elem? : List A → ℕ → Option A
  get_elem? [] i = none
  get_elem? (x ∷ l) zero = some x
  get_elem? (x ∷ l) (suc i) = get_elem? l i

  abbrev pub set : List A → ℕ → A → List A
  set [] i v = []
  set (_ ∷ l) zero v = v ∷ l
  set (x ∷ l) (suc i) v = x ∷ set l i v

  -- `pop()`, without what it returns.
  abbrev pub drop_last : List A → List A
  drop_last [] = []
  drop_last (x ∷ []) = []
  drop_last (x ∷ y ∷ l) = x ∷ drop_last (y ∷ l)

  -- The specifications read an entry with a value for "past the end".
  unfoldable pub get_or : List A → ℕ → A → A
  get_or [] i d = d
  get_or (x ∷ l) zero d = x
  get_or (x ∷ l) (suc i) d = get_or l i d

module _ {ℓ} {A : Type ℓ} where
  pub length-set : (l : List A) (i : ℕ) (v : A) → length (set l i v) ≡ length l
  length-set [] i v = refl
  length-set (_ ∷ l) zero v = refl
  length-set (_ ∷ l) (suc i) v = ap suc (length-set l i v)

  pub length-drop_last : (l : List A) → length (drop_last l) ≡ length l - 1
  length-drop_last [] = refl
  length-drop_last (x ∷ []) = refl
  length-drop_last (x ∷ y ∷ l) = omega (arith, length-drop_last (y ∷ l))

  pub get_elem?-append_left :
      (l m : List A) (i : ℕ) → i < length l → get_elem? (l ++ m) i ≡ get_elem? l i
  get_elem?-append_left [] m i h = absurd (omega arith)
  get_elem?-append_left (_ ∷ l) m zero h = refl
  get_elem?-append_left (_ ∷ l) m (suc i) h = get_elem?-append_left l m i (omega arith)

module _ {ℓ} {A : Type ℓ} (d : A) where
  -- A read in bounds is defined.
  pub get_elem?-some : (l : List A) (i : ℕ) → i < length l → get_elem? l i ≡ some (get_or l i d)
  unfolding get_or
  get_elem?-some [] i h = absurd (omega arith)
  get_elem?-some (x ∷ l) zero h = refl
  get_elem?-some (_ ∷ l) (suc i) h = get_elem?-some l i (omega arith)

  pub get_or-set :
      (l : List A) (i j : ℕ) (v : A)
      → i < length l
      → get_or (set l i v) j d ≡ (if i == j then v else get_or l j d)
  unfolding get_or
  get_or-set [] i j v h = absurd (omega arith)
  get_or-set (_ ∷ l) zero zero v h = refl
  get_or-set (_ ∷ l) zero (suc j) v h = ground arith
  get_or-set (_ ∷ l) (suc i) zero v h = ground arith
  get_or-set (_ ∷ l) (suc i) (suc j) v h = ground (arith, get_or-set l i j v)

  pub get_or-append_left :
      (l m : List A) (i : ℕ) → i < length l → get_or (l ++ m) i d ≡ get_or l i d
  unfolding get_or
  get_or-append_left [] m i h = absurd (omega arith)
  get_or-append_left (_ ∷ l) m zero h = refl
  get_or-append_left (_ ∷ l) m (suc i) h = get_or-append_left l m i (omega arith)

  pub get_or-append_last : (l : List A) (x : A) → get_or (l ++ x ∷ []) (length l) d ≡ x
  unfolding get_or
  get_or-append_last [] x = refl
  get_or-append_last (_ ∷ l) x = get_or-append_last l x

  pub get_or-drop_last :
      (l : List A) (i : ℕ) → i + 1 < length l → get_or (drop_last l) i d ≡ get_or l i d
  unfolding get_or
  get_or-drop_last [] i h = refl
  get_or-drop_last (x ∷ []) i h = absurd (omega arith)
  get_or-drop_last (x ∷ y ∷ l) zero h = refl
  get_or-drop_last (x ∷ y ∷ l) (suc i) h = get_or-drop_last (y ∷ l) i (omega arith)

  -- What `pop()` takes off, beside what it leaves.
  pub drop_last-perm :
      (x : A) (l : List A) → Perm (get_or (x ∷ l) (length l) d ∷ drop_last (x ∷ l)) (x ∷ l)
  unfolding get_or
  drop_last-perm x [] = Perm.refl _
  drop_last-perm x (y ∷ l) = Perm.trans (Perm.swap _ _ _) (Perm.cons x (drop_last-perm y l))

  pub pop-perm : (l : List A) → 0 < length l → Perm (get_or l (length l - 1) d ∷ drop_last l) l
  pop-perm [] h = absurd (omega arith)
  pop-perm (x ∷ l) h =
      let last : length (x ∷ l) - 1 ≡ length l = omega arith in rw last (drop_last-perm x l)

  pub All-of_get_or {κ} :
      (P : A → Type κ) (l : List A) → ((i : ℕ) → i < length l → P (get_or l i d)) → All P l
  unfolding get_or
  All-of_get_or P [] h = tt
  All-of_get_or P (x ∷ l) h =
      (h 0 (omega arith), All-of_get_or P l (λ i p. h (suc i) (omega arith)))

  -- A write puts one entry in and takes one out.
  pub set-perm :
      (l : List A) (i : ℕ) (v : A) → i < length l → Perm (v ∷ l) (get_or l i d ∷ set l i v)
  unfolding get_or
  set-perm [] i v h = absurd (omega arith)
  set-perm (x ∷ l) zero v h = Perm.swap _ _ _
  set-perm (x ∷ l) (suc i) v h =
      Perm.trans (Perm.swap _ _ _)
        (Perm.trans (Perm.cons x (set-perm l i v (omega arith))) (Perm.swap _ _ _))

  -- Two entries trade places.
  unfoldable pub exchange : List A → ℕ → ℕ → List A
  exchange l i j = set (set l i (get_or l j d)) j (get_or l i d)

  pub length-exchange : (l : List A) (i j : ℕ) → length (exchange l i j) ≡ length l
  unfolding exchange
  length-exchange l i j = simp length-set

  pub get_or-exchange :
      (l : List A) (i j c : ℕ)
      → i < length l
      → j < length l
      → get_or (exchange l i j) c d
        ≡ (if j == c then get_or l i d else if i == c then get_or l j d else get_or l c d)
  unfolding exchange
  get_or-exchange l i j c hi hj = rw (
    get_or-set (set l i (get_or l j d)) j c (get_or l i d) (rw length-set hj),
    get_or-set l i c (get_or l j d) hi,
  )

  pub exchange-perm : (l : List A) (i j : ℕ) → i < length l → j < length l → Perm (exchange l i j) l
  unfolding exchange
  exchange-perm l i j hi hj =
      let mid = set l i (get_or l j d) in
      let there : get_or mid j d ≡ get_or l j d = ground (arith, get_or-set l i j (get_or l j d)) in
      let out = rw there at (set-perm mid j (get_or l i d) (rw length-set hj)) in
      Perm.cons_inv (Perm.trans (Perm.symm out) (Perm.symm (set-perm l i (get_or l j d) hi)))
