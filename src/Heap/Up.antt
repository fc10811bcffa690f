-- ===== src/Heap/Up.antt =====
-- core/PriorityHeap.ts, `bubbleUp`, on a heap with one entry too far down.
use mathlib.Core.List.Perm
use oblivinx.Base.{
  ℕ, zero, suc, ◌+◌, ◌<◌, ◌≡◌, ◌≢◌, refl, true, false, List, length, arith, some, inl, inr,
  Bool-cases, ltb, ltb→lt, lt→ltb, ◌&&◌,
}
use oblivinx.Base.Arrays.{get_elem?-some, exchange, length-exchange, get_or-exchange}
use oblivinx.Heap.{HeapEntry, before, parent, bubble_loop, bubble_up}
use oblivinx.Heap.Order.{
  blank, at, NotAfter, NotAfter-trans, before-asym, IsBridged, swap-exchange, Settles,
  Settles-exchange,
}

-- Only the edge above `i` may be out of order.
pub record UpInv (a : List HeapEntry) (i : ℕ) : Type 0 where
  pub inside : i < length a
  pub edges : (c : ℕ) → 0 < c → c < length a → c ≢ i → NotAfter (at a (parent c)) (at a c)
  pub bridged : IsBridged a i

-- Every edge that does not touch `i` is in order.
pub record HoleInv (a : List HeapEntry) (i : ℕ) : Type 0 where
  pub inside : i < length a
  pub edges :
      (c : ℕ) → 0 < c → c < length a → c ≢ i → parent c ≢ i → NotAfter (at a (parent c)) (at a c)
  pub bridged : IsBridged a i

UpInv-HoleInv : {a : List HeapEntry} {i : ℕ} → UpInv a i → HoleInv a i
UpInv-HoleInv v = record {
  inside = v.inside;
  edges = λ c p q r s. v.edges c p q r;
  bridged = v.bridged;
}

module _ (a : List HeapEntry) (i : ℕ) (pos : 0 < i) (inside : i < length a)
    (late : before (at a i) (at a (parent i)) ≡ true) where
  abbrev risen : List HeapEntry
  risen = exchange blank a i (parent i)

  rise-UpInv : HoleInv a i → UpInv risen (parent i)
  rise-UpInv v =
      let size = length-exchange blank a i (parent i) in
      let slot = λ (c : ℕ). get_or-exchange blank a i (parent i) c inside (omega arith) in
      let asym = before-asym (at a i) (at a (parent i)) late in
      record {
        inside = omega (arith, size);
        edges = λ c p q r. ground (
          arith,
          slot c,
          slot (parent c),
          v.edges c p (omega (arith, size)),
          v.bridged c p (omega (arith, size)),
          asym,
          NotAfter-trans (at a i) (at a (parent i)) (at a c) asym,
        );
        bridged = λ c p q r s. ground (
          arith,
          slot c,
          slot (parent (parent i)),
          v.edges c p (omega (arith, size)),
          v.edges (parent i),
          NotAfter-trans (at a (parent (parent i))) (at a (parent i)) (at a c),
        );
      }

bubble_loop-Settles :
    (fuel : ℕ) (a : List HeapEntry) (i : ℕ)
    → i < fuel
    → UpInv a i
    → Settles a (bubble_loop fuel a i)
unfolding bubble_loop
bubble_loop-Settles zero a i f v = absurd (omega arith)
bubble_loop-Settles (suc fuel) a i f v = elim (Bool-cases (ltb 0 i)) [
  | inr root ↦ rw root (a, refl, (λ c p q. v.edges c p q (ground arith), Perm.refl a))
  | inl pos ↦
      let above : parent i < length a = omega (arith, v.inside) in
      let reads = get_elem?-some blank a i v.inside in
      let reads_above = get_elem?-some blank a (parent i) above in
      elim (Bool-cases (before (at a i) (at a (parent i)))) [
        | inl late ↦
            rw (pos, reads, reads_above, late, swap-exchange a i (parent i) v.inside above)
              (Settles-exchange a i (parent i) _ v.inside above (
                bubble_loop-Settles fuel (risen a i (ltb→lt 0 i pos) v.inside late) (parent i)
                  (omega (arith, ltb→lt 0 i pos))
                  (rise-UpInv a i (ltb→lt 0 i pos) v.inside late (UpInv-HoleInv v))))
        | inr settled ↦
            rw (pos, reads, reads_above, settled)
              (a, refl, (λ c p q. ground (arith, v.edges c p q), Perm.refl a))
      ]
]

-- `bubbleUp` returns, and restores the heap.
pub bubble_up-Settles : (a : List HeapEntry) (i : ℕ) → UpInv a i → Settles a (bubble_up a i)
unfolding bubble_up
bubble_up-Settles a i v = bubble_loop-Settles (i + 1) a i (omega arith) v

-- From an array with a hole at `i`, `bubbleUp` that moves the entry restores the heap,
pub bubble_up-rises :
    (a : List HeapEntry) (i : ℕ)
    → HoleInv a i
    → 0 < i
    → before (at a i) (at a (parent i)) ≡ true
    → Settles a (bubble_up a i)
unfolding bubble_up bubble_loop
bubble_up-rises a zero v pos late = absurd (omega arith)
bubble_up-rises a (suc j) v pos late =
    let i = suc j in
    let above : parent i < length a = omega (arith, v.inside) in
    let fuel : suc j + 1 ≡ suc (suc j) = omega arith in
    rw
      (
        fuel,
        lt→ltb 0 i pos,
        get_elem?-some blank a i v.inside,
        get_elem?-some blank a (parent i) above,
        late,
        swap-exchange a i (parent i) v.inside above,
      )
      (Settles-exchange a i (parent i) _ v.inside above (
        bubble_loop-Settles (suc j) (risen a i pos v.inside late) (parent i) (omega arith)
          (rise-UpInv a i pos v.inside late v)))

-- and otherwise it changes nothing.
pub bubble_up-stays :
    (a : List HeapEntry) (i : ℕ)
    → i < length a
    → ltb 0 i && before (at a i) (at a (parent i)) ≡ false
    → bubble_up a i ≡ some a
unfolding bubble_up bubble_loop
bubble_up-stays a zero h stays = refl
bubble_up-stays a (suc j) h stays =
    let i = suc j in
    let above : parent i < length a = omega arith in
    let fuel : suc j + 1 ≡ suc (suc j) = omega arith in
    let settled : before (at a i) (at a (parent i)) ≡ false = ground arith in
    rw (
      fuel,
      lt→ltb 0 i (omega arith),
      get_elem?-some blank a i h,
      get_elem?-some blank a (parent i) above,
      settled,
    )
