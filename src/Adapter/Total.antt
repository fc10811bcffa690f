-- ===== src/Adapter/Total.antt =====
-- adapters/MemoryAdapter.ts: on an ordered heap every method returns, and leaves an ordered heap.

use oblivinx.Base.{
  eq_refl, [], ℕ, ◌+◌, ◌≡◌, Option, none, some, List, [], length, length-perm, arith, String, inl,
  inr, Option-cases, Bool-cases, ◌⊎◌,
}
use oblivinx.Base.Dict.{lookup, lookup-insert, erase, has, insert}
use oblivinx.Job.{Job}
use oblivinx.Heap.{HeapEntry, PriorityHeap, extract_min, find_index}
use oblivinx.Heap.Order.{at, IsHeap}
use oblivinx.Heap.Insert.{insert_job_returns}
use oblivinx.Heap.Extract.{extract_min_returns, extract_min_early, extract_min-empty}
use oblivinx.Heap.Remove.{remove_returns, remove_missing, heap-update_entry}
use oblivinx.Adapter.Mirror.{pop-cases}
use oblivinx.Adapter.{MemoryAdapter, push, pop, update, remove, size}

-- Whatever the ids are.
abbrev pub IsOrdered : MemoryAdapter → Type 0
IsOrdered a = IsHeap a.heap.heap

-- The call returns an adapter with an ordered heap of `n` entries.
abbrev pub Returns : ℕ → Option MemoryAdapter → Type 0
Returns n r = (b : MemoryAdapter) × (r ≡ some b) × IsOrdered b × (size b ≡ n)

pub push-Returns : (job : Job) (a : MemoryAdapter) → IsOrdered a → Returns (size a + 1) (push job a)
unfolding push
push-Returns job a h =
    let (heap, returns, order, entries, jobs, counter) = insert_job_returns job a.heap h in
    let more = length-perm entries in
    (
      record a { heap = heap; pending_index = insert job.id job a.pending_index },
      rw returns,
      order,
      omega (arith, more),
    )

pub update-IsOrdered : (job : Job) (a : MemoryAdapter) → IsOrdered a → IsOrdered (update job a)
unfolding update
update-IsOrdered job a h = elim (Bool-cases (has job.id a.pending_index)) [
  | inl there ↦ rw (there, heap-update_entry job a.heap) h
  | inr absent ↦ rw absent h
]

pub size-update : (job : Job) (a : MemoryAdapter) → size (update job a) ≡ size a
unfolding update
size-update job a = elim (Bool-cases (has job.id a.pending_index)) [
  | inl there ↦ rw (there, heap-update_entry job a.heap)
  | inr absent ↦ rw absent
]

pub remove-IsOrdered :
    (id : String) (a : MemoryAdapter)
    → IsOrdered a
    → (b : MemoryAdapter) × (remove id a ≡ some b) × IsOrdered b
unfolding remove
remove-IsOrdered id a h = elim (Option-cases (find_index id 0 a.heap.heap)) [
  | inr (k, found) ↦
      let (heap, returns, order, e, has_id, entries, jobs) = remove_returns id a.heap k found h in
      (
        record { heap = heap; pending_index = erase id a.pending_index; store = erase id a.store },
        rw returns,
        order,
      )
  | inl missing ↦ (
    record { heap = a.heap; pending_index = erase id a.pending_index; store = erase id a.store },
    rw (remove_missing id a.heap missing),
    h,
  )
]

-- `pop`: the root is not due or there is none, and nothing changes; or one entry is gone, with the
-- job that stands under its id, if there is one.
pub pop-Returns :
    (now : ℕ) (a : MemoryAdapter)
    → IsOrdered a
    → (pop now a ≡ some (none, a))
      ⊎ ((o : Option Job) × (b : MemoryAdapter) × (pop now a ≡ some (o, b))
          × IsOrdered b
          × (size b + 1 ≡ size a))
unfolding pop
pop-Returns now a h = elim (pop-cases now a) [
  | inl (inl empty) ↦ inl (rw (extract_min-empty now a.heap empty))
  | inl (inr (more, early)) ↦ inl (rw (extract_min_early now a.heap more early))
  | inr (more, due) ↦
      let (heap, returns, order, entries) = extract_min_returns now a.heap h more due in
      let fewer = length-perm entries in
      inr
        (taken (lookup (at a.heap.heap 0).id a.heap.jobs) heap returns order (omega (arith, fewer)))
]
  where
    taken :
        (o : Option Job) (heap : List HeapEntry)
        → extract_min now a.heap
          ≡ some (o, record a.heap { heap = heap; jobs = erase (at a.heap.heap 0).id a.heap.jobs })
        → IsHeap heap
        → length heap + 1 ≡ size a
        → (o : Option Job) × (b : MemoryAdapter) × (pop now a ≡ some (o, b))
          × IsOrdered b
          × (size b + 1 ≡ size a)
    taken none heap returns order fewer =
        let q : PriorityHeap = record a.heap {
          heap = heap;
          jobs = erase (at a.heap.heap 0).id a.heap.jobs;
        } in
        (none, record a { heap = q }, rw returns, order, fewer)
    taken (some job) heap returns order fewer =
        let q : PriorityHeap = record a.heap {
          heap = heap;
          jobs = erase (at a.heap.heap 0).id a.heap.jobs;
        } in
        (
          some job,
          record a { heap = q; pending_index = erase job.id a.pending_index },
          rw returns,
          order,
          fewer,
        )

-- A push puts the job under its id, whatever the adapter holds.
pub push-index :
    (job : Job) (a : MemoryAdapter)
    → IsOrdered a
    → (b : MemoryAdapter) × (push job a ≡ some b) × (lookup job.id b.pending_index ≡ some job)
unfolding push
push-index job a h =
    let (heap, returns, order, entries, jobs, counter) = insert_job_returns job a.heap h in
    (
      record a { heap = heap; pending_index = insert job.id job a.pending_index },
      rw returns,
      ground (arith, lookup-insert job.id job.id job a.pending_index, eq_refl job.id),
    )

pub pop-empty : (now : ℕ) (a : MemoryAdapter) → a.heap.heap ≡ [] → pop now a ≡ some (none, a)
unfolding pop
pop-empty now a h = rw (extract_min-empty now a.heap h)
