-- ===== src/Heap/Order.antt =====
-- core/PriorityHeap.ts, `compare` as an order, and what it is for an array to be a heap.
use mathlib.Core.List.Perm
use oblivinx.Base.{ℕ, zero, suc, ◌<◌, ◌≡◌, true, false, List, Perm, length, arith, Option, some}
use oblivinx.Base.Arrays.{get_or, get_elem?-some, exchange, exchange-perm}
use oblivinx.Heap.{HeapEntry, before, parent, swap}

abbrev pub blank : HeapEntry
blank = record { id = ""; priority = 0; run_at = 0; inserted_at = 0 }

-- The entry of a slot that exists.
abbrev pub at : List HeapEntry → ℕ → HeapEntry
at a i = get_or a i blank

-- `x` may stand above `y`.
abbrev pub NotAfter : HeapEntry → HeapEntry → Type 0
NotAfter x y = before y x ≡ false

pub NotAfter-refl : (x : HeapEntry) → NotAfter x x
unfolding before
NotAfter-refl x = ground arith

pub NotAfter-trans : (x y z : HeapEntry) → NotAfter x y → NotAfter y z → NotAfter x z
unfolding before
NotAfter-trans x y z h k = ground arith

pub before-asym : (x y : HeapEntry) → before x y ≡ true → NotAfter x y
unfolding before
before-asym x y h = ground arith

-- Every edge is in order.
abbrev pub IsHeap : List HeapEntry → Type 0
IsHeap a = (c : ℕ) → 0 < c → c < length a → NotAfter (at a (parent c)) (at a c)

-- The entries next to `i`, above and below it, are in order without it.
abbrev pub IsBridged : List HeapEntry → ℕ → Type 0
IsBridged a i =
    (c : ℕ) → 0 < c → c < length a → parent c ≡ i → 0 < i → NotAfter (at a (parent i)) (at a c)

root_first_below :
    (k : ℕ) (a : List HeapEntry) (i : ℕ)
    → IsHeap a
    → i < k
    → i < length a
    → NotAfter (at a 0) (at a i)
root_first_below zero a i h f p = absurd (omega arith)
root_first_below (suc k) a zero h f p = NotAfter-refl (at a 0)
root_first_below (suc k) a (suc i) h f p =
    NotAfter-trans (at a 0) (at a (parent (suc i))) (at a (suc i))
      (root_first_below k a (parent (suc i)) h (omega arith) (omega arith))
      (h (suc i) (omega arith) p)

-- The root of a heap is no later than any entry.
pub root_first : (a : List HeapEntry) (i : ℕ) → IsHeap a → i < length a → NotAfter (at a 0) (at a i)
root_first a i h p = root_first_below (suc i) a i h (omega arith) p

-- A swap of two slots that exist.
pub swap-exchange :
    (a : List HeapEntry) (i j : ℕ)
    → i < length a
    → j < length a
    → swap a i j ≡ some (exchange blank a i j)
unfolding swap exchange
swap-exchange a i j hi hj = rw (get_elem?-some blank a i hi, get_elem?-some blank a j hj)

-- `b` is a heap of the entries of `a`.
abbrev pub Ordered : List HeapEntry → List HeapEntry → Type 0
Ordered a b = IsHeap b × Perm b a

-- The loop returns, and leaves a heap of the entries of `a`.
abbrev pub Settles : List HeapEntry → Option (List HeapEntry) → Type 0
Settles a r = (b : List HeapEntry) × (r ≡ some b) × Ordered a b

pub Settles-exchange :
    (a : List HeapEntry) (i j : ℕ) (r : Option (List HeapEntry))
    → i < length a
    → j < length a
    → Settles (exchange blank a i j) r
    → Settles a r
Settles-exchange a i j r hi hj (b, e, (heap, same)) =
    (b, e, (heap, Perm.trans same (exchange-perm blank a i j hi hj)))
