-- ===== src/Heap/Down.antt =====
-- core/PriorityHeap.ts, `sinkDown`, on a heap with one entry too far up.
use mathlib.Core.List.Perm
use oblivinx.Base.{
  ℕ, zero, suc, ◌+◌, ◌-◌, ◌*◌, ◌<◌, ◌≡◌, ◌≢◌, refl, true, List, length, arith, some, inl, inr, ◌⊎◌,
  Bool-cases, ltb, ◌==◌, if◌then◌else◌,
}
use oblivinx.Base.Arrays.{get_elem?-some, exchange, length-exchange, get_or-exchange}
use oblivinx.Heap.{HeapEntry, before, parent, pick, sink_loop, sink_down}
use oblivinx.Heap.Order.{
  blank, at, NotAfter, NotAfter-refl, NotAfter-trans, before-asym, IsHeap, IsBridged, swap-exchange,
  Settles, Settles-exchange,
}

-- Only the edges below `i` may be out of order.
pub record DownInv (a : List HeapEntry) (i : ℕ) : Type 0 where
  pub edges : (c : ℕ) → 0 < c → c < length a → parent c ≢ i → NotAfter (at a (parent c)) (at a c)
  pub bridged : IsBridged a i

pub IsHeap-DownInv : (a : List HeapEntry) (i : ℕ) → IsHeap a → DownInv a i
IsHeap-DownInv a i h = record {
  edges = λ c p q r. h c p q;
  bridged = λ c p q r s.
      NotAfter-trans (at a (parent i)) (at a i) (at a c) (h i s (omega arith))
        (ground (arith, h c p q));
}

-- What `pick` chooses.
abbrev picked : List HeapEntry → ℕ → ℕ → ℕ
picked a c s = if ltb c (length a) then (if before (at a c) (at a s) then c else s) else s

pick-picked : (a : List HeapEntry) (c s : ℕ) → s < length a → pick a c s ≡ some (picked a c s)
unfolding pick
pick-picked a c s h = elim (Bool-cases (ltb c (length a))) [
  | inl there ↦ rw (there, get_elem?-some blank a c (ground arith), get_elem?-some blank a s h)
  | inr past ↦ rw past
]

abbrev choice : List HeapEntry → ℕ → ℕ
choice a i = picked a (2 * i + 2) (picked a (2 * i + 1) i)

-- `m` is the first of `i` and its children.
record IsFirst (a : List HeapEntry) (i m : ℕ) : Type 0 where
  inside : m < length a
  family : (m ≡ i) ⊎ ((0 < m) × (parent m ≡ i) × (before (at a m) (at a i) ≡ true))
  least : (c : ℕ) → 0 < c → c < length a → parent c ≡ i → NotAfter (at a m) (at a c)

before_trans : (x y z : HeapEntry) → before x y ≡ true → before y z ≡ true → before x z ≡ true
unfolding before
before_trans x y z h k = ground arith

choice-IsFirst : (a : List HeapEntry) (i : ℕ) → i < length a → IsFirst a i (choice a i)
choice-IsFirst a i h =
    let left = 2 * i + 1 in
    let right = 2 * i + 2 in
    record {
      inside = ground arith;
      family = ground (arith, before_trans (at a right) (at a left) (at a i));
      least = λ c p q r.
          let cases : (c ≡ left) ⊎ (c ≡ right) = omega arith in
          ground (
            arith,
            cases,
            NotAfter-refl (at a left),
            NotAfter-refl (at a right),
            before-asym (at a left) (at a i),
            before-asym (at a right) (at a i),
            before-asym (at a right) (at a left),
            NotAfter-trans (at a right) (at a i) (at a left),
          );
    }

module _ (a : List HeapEntry) (i m : ℕ) (hi : i < length a) (f : IsFirst a i m)
    (moves : m ≢ i) where
  sink-DownInv : DownInv a i → DownInv (exchange blank a i m) m
  sink-DownInv v =
      let size = length-exchange blank a i m in
      let slot = λ (c : ℕ). get_or-exchange blank a i m c hi f.inside in
      record {
        edges = λ c p q r. ground (
          arith,
          slot c,
          slot (parent c),
          v.edges c p (omega (arith, size)),
          v.bridged m,
          f.least c p (omega (arith, size)),
          before-asym (at a m) (at a i),
        );
        bridged =
            λ c p q r s. ground (arith, slot c, slot (parent m), v.edges c p (omega (arith, size)));
      }

sink_loop-Settles :
    (fuel : ℕ) (a : List HeapEntry) (i : ℕ)
    → length a - i < fuel
    → i < length a
    → DownInv a i
    → Settles a (sink_loop fuel a i)
unfolding sink_loop
sink_loop-Settles zero a i f h v = absurd (omega arith)
sink_loop-Settles (suc fuel) a i f h v =
    let first = choice-IsFirst a i h in
    let left : picked a (2 * i + 1) i < length a = ground arith in
    rw (pick-picked a (2 * i + 1) i h, pick-picked a (2 * i + 2) (picked a (2 * i + 1) i) left)
      (elim (Bool-cases (choice a i == i)) [
        | inl stays ↦
            rw stays
              (a, refl, (λ c p q. ground (arith, v.edges c p q, first.least c p q), Perm.refl a))
        | inr moves ↦
            let below : i < choice a i = ground arith in
            rw (moves, swap-exchange a i (choice a i) h first.inside)
              (Settles-exchange a i (choice a i) _ h first.inside (
                sink_loop-Settles fuel (exchange blank a i (choice a i)) (choice a i)
                  (omega (arith, length-exchange blank a i (choice a i)))
                  (omega (arith, length-exchange blank a i (choice a i), first.inside))
                  (sink-DownInv a i (choice a i) h first (ground arith) v)))
      ])

-- `sinkDown` returns, and restores the heap.
pub sink_down-Settles :
    (a : List HeapEntry) (i : ℕ) → i < length a → DownInv a i → Settles a (sink_down a i)
unfolding sink_down
sink_down-Settles a i h v = sink_loop-Settles (length a + 1) a i (omega arith) h v
