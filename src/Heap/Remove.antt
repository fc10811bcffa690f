-- ===== src/Heap/Remove.antt =====
-- core/PriorityHeap.ts, `remove` and `update`.
use mathlib.Core.List.Perm
use mathlib.Core.List.{mem-cons, not-mem-nil}
use mathlib.Core.Logic.Or
use mathlib.Core.HLevel.{⊥_prop}
use oblivinx.Base.{
  ℕ, suc, ◌+◌, ◌-◌, ◌≤◌, ◌<◌, ◌≡◌, refl, List, [], ◌∷◌, Perm, none, some, length, length-perm, ◌&&◌,
  arith, ltb, inl, inr, ltb→lt, Bool-cases, Option-cases, ◌>>=◌, if◌then◌else◌, eq_iff, str_eq,
  String, Mem, sym, subst,
}
use oblivinx.Base.Arrays.{get_or}
use oblivinx.Base.Dict.{
  lookup, erase, insert, keys, has, erase-IsUnique, insert-IsUnique, keys-insert_old, lookup-insert,
  erase-none, mem-keys,
}
use oblivinx.Job.{Job}
use oblivinx.Heap.{
  HeapEntry, PriorityHeap, remove, find_index, resettle, parent, bubble_up, sink_down, before,
  update_entry,
}
use oblivinx.Heap.Order.{at, NotAfter-trans, IsHeap, swap-exchange, Settles}
use oblivinx.Heap.Up.{HoleInv, bubble_up-rises, bubble_up-stays}
use oblivinx.Heap.Down.{IsHeap-DownInv, sink_down-Settles}
use oblivinx.Heap.Valid.{ids, IsValid}
use oblivinx.Heap.Extract.{
  cut, length-cut, at-cut, cut-perm, job_of_entry, tracked_without, erase-IsNamed,
}

find_index-some :
    (id : String) (i : ℕ) (a : List HeapEntry) (k : ℕ)
    → find_index id i a ≡ some k
    → (i ≤ k) × (k < i + length a) × ((at a (k - i)).id ≡ id)
unfolding find_index get_or
find_index-some id i [] k h = cc
find_index-some id i (e ∷ a) k h = elim (Bool-cases (str_eq e.id id)) [
  | inl here ↦
      let at_i : i ≡ k = ground arith in
      let zero_off : k - i ≡ 0 = omega arith in
      (omega arith, omega arith, rw zero_off ((eq_iff e.id id).0 here))
  | inr later ↦
      let (low, high, found) = find_index-some id (suc i) a k (ground arith) in
      let off : k - i ≡ suc (k - suc i) = omega arith in (omega arith, omega arith, rw off found)
]

cut-HoleInv :
    (a : List HeapEntry) (i : ℕ) (hi : i < length a)
    → IsHeap a
    → i < length (cut a i hi)
    → HoleInv (cut a i hi) i
cut-HoleInv a i hi order inside =
    let slot = at-cut a i hi in
    record {
      inside = inside;
      edges = λ c p q r s. ground (arith, length-cut a i hi, slot c, slot (parent c), order c p);
      bridged = λ c p q r s. ground (
        arith,
        length-cut a i hi,
        slot c,
        slot (parent i),
        order c p,
        order i,
        NotAfter-trans (at a (parent i)) (at a i) (at a c),
      );
    }

-- `bubbleUp` and then `sinkDown` at the same index, one of which does nothing.
both-Settles :
    (a : List HeapEntry) (i : ℕ)
    → HoleInv a i
    → Settles a (bubble_up a i >>= λ risen. sink_down risen i)
both-Settles a i v = elim (Bool-cases (ltb 0 i && before (at a i) (at a (parent i)))) [
  | inl rises ↦
      let (b, returns, (order, same)) = bubble_up-rises a i v (ground arith) (ground arith) in
      let inside : i < length b = omega (arith, v.inside, length-perm same) in
      let (c, settles, (ordered, kept)) = sink_down-Settles b i inside (IsHeap-DownInv b i order) in
      rw (returns, settles) (c, refl, (ordered, Perm.trans kept same))
  | inr stays ↦ rw (bubble_up-stays a i v.inside stays) (
      sink_down-Settles a i v.inside
        (record { edges = λ c p q r. ground (arith, v.edges c p q); bridged = v.bridged }))
]

resettle-Settles :
    (a : List HeapEntry) (i : ℕ) (hi : i < length a)
    → IsHeap a
    → Settles (cut a i hi) (resettle i (cut a i hi))
unfolding resettle
resettle-Settles a i hi order = elim (Bool-cases (ltb i (length (cut a i hi)))) [
  | inl inside ↦
      rw inside (both-Settles (cut a i hi) i (cut-HoleInv a i hi order (ltb→lt _ _ inside)))
  | inr last ↦ rw last (
    cut a i hi,
    refl,
    (
      (λ c p q.
          ground (arith, length-cut a i hi, at-cut a i hi c, at-cut a i hi (parent c), order c p)),
      Perm.refl _,
    ),
  )
]

-- What `remove` leaves: one entry with the id taken out, and its job.
pub record Removed (id : String) (q r : PriorityHeap) : Type 0 where
  pub valid : IsValid r
  pub entry : HeapEntry
  pub has_id : entry.id ≡ id
  pub entries : Perm (entry ∷ r.heap) q.heap
  pub jobs : r.jobs ≡ erase id q.jobs

pub find_index-none :
    (id : String) (i : ℕ) (a : List HeapEntry) → find_index id i a ≡ none → Mem id (ids a) → ⊥
unfolding find_index
find_index-none id i [] h m = not-mem-nil m
find_index-none id i (e ∷ a) h m =
    Or.elim ⊥_prop (mem-cons.0 m) (λ same. ground (arith, eq_iff e.id id))
      (λ later. find_index-none id (suc i) a (ground arith) later)

module _ (id : String) (q : PriorityHeap) (k : ℕ) (found : find_index id 0 q.heap ≡ some k) where
  -- On any heap the call returns, and takes out one entry with the id.
  pub remove_returns :
      IsHeap q.heap
      → (r : PriorityHeap) × (remove id q ≡ some r)
        × IsHeap r.heap
        × (e : HeapEntry) × (e.id ≡ id)
        × Perm (e ∷ r.heap) q.heap
        × (r.jobs ≡ erase id q.jobs)
  unfolding remove
  remove_returns order =
      let (low, high, has_id) = find_index-some id 0 q.heap k found in
      let inside : k < length q.heap = omega arith in
      let here : k - 0 ≡ k = omega arith in
      let (heap, returns, (ordered, same)) = resettle-Settles q.heap k inside order in
      (
        record q { heap = heap; jobs = erase id q.jobs },
        rw (found, swap-exchange q.heap k (length q.heap - 1) inside (omega arith), returns),
        ordered,
        at q.heap k,
        rw here at has_id,
        Perm.trans (Perm.cons (at q.heap k) same) (cut-perm q.heap k inside),
        refl,
      )

pub remove_missing :
    (id : String) (q : PriorityHeap) → find_index id 0 q.heap ≡ none → remove id q ≡ some q
unfolding remove
remove_missing id q missing = rw missing

-- `remove` of an id that an entry has takes out that entry and the job.
pub remove_found :
    (id : String) (q : PriorityHeap) (k : ℕ)
    → IsValid q
    → find_index id 0 q.heap ≡ some k
    → (r : PriorityHeap) × (remove id q ≡ some r) × Removed id q r
remove_found id q k v found =
    let (r, returns, order, e, has_id, entries, jobs) = remove_returns id q k found v.order in
    let (job, job_found) = job_of_entry q e r.heap v entries in
    (
      r,
      returns,
      record {
        valid = record {
          order = order;
          tracked = rw jobs (
              subst (λ k. Perm (ids r.heap) (keys (erase k q.jobs))) has_id
                (tracked_without q e job r.heap v entries job_found));
          unique = rw jobs (erase-IsUnique id q.jobs v.unique);
          named = rw jobs (erase-IsNamed q.jobs id v.named);
        };
        entry = e;
        has_id = has_id;
        entries = entries;
        jobs = jobs;
      },
    )

-- On a valid heap `remove` returns for every id, and leaves a valid heap whose map is the old one
-- without the id.
pub remove_lem :
    (id : String) (q : PriorityHeap)
    → IsValid q
    → (r : PriorityHeap) × (remove id q ≡ some r) × IsValid r × (r.jobs ≡ erase id q.jobs)
remove_lem id q v = elim (Option-cases (find_index id 0 q.heap)) [
  | inr (k, found) ↦
      let (r, returns, removed) = remove_found id q k v found in
      (r, returns, removed.valid, removed.jobs)
  | inl missing ↦
      let no_job : lookup id q.jobs ≡ none = elim (Option-cases (lookup id q.jobs)) [
        | inl absent ↦ absent
        | inr (job, there) ↦ absurd (
            find_index-none id 0 q.heap missing
              ((Perm.mem_iff v.tracked).1 (mem-keys id job q.jobs there)))
      ] in
      (q, remove_missing id q missing, v, sym (erase-none id q.jobs no_job))
]

-- `update` of any job keeps a heap valid, whether its id is in the heap or not.
pub update_entry-IsValid : (job : Job) (q : PriorityHeap) → IsValid q → IsValid (update_entry job q)
unfolding update_entry
update_entry-IsValid job q v = elim (Option-cases (lookup job.id q.jobs)) [
  | inl missing ↦ rw missing v
  | inr (old, found) ↦ rw found (record {
    order = v.order;
    tracked = rw (keys-insert_old job.id job old q.jobs found) v.tracked;
    unique = insert-IsUnique job.id job q.jobs v.unique;
    named =
        λ k j h. ground (arith, lookup-insert job.id k job q.jobs, eq_iff job.id k, v.named k j);
  })
]

pub jobs-update_entry :
    (job : Job) (q : PriorityHeap)
    → (update_entry job q).jobs ≡ (if has job.id q.jobs then insert job.id job q.jobs else q.jobs)
unfolding update_entry
jobs-update_entry job q = ground arith

pub heap-update_entry : (job : Job) (q : PriorityHeap) → (update_entry job q).heap ≡ q.heap
unfolding update_entry
heap-update_entry job q = ground arith
