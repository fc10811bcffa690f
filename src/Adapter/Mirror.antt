-- ===== src/Adapter/Mirror.antt =====
-- adapters/MemoryAdapter.ts: its index beside the heap's map, through each method.

use oblivinx.Base.{
  ℕ, ◌≤◌, ◌<◌, ◌≡◌, refl, none, some, List, [], ◌∷◌, Perm, arith, String, inl, inr, Option-cases,
  ◌⊎◌, dec_lt,
}
use oblivinx.Base.Dict.{lookup, insert, erase}
use oblivinx.Job.{Job}
use oblivinx.Heap.{HeapEntry, PriorityHeap, update_entry}
use oblivinx.Heap.Order.{at}
use oblivinx.Heap.Valid.{IsValid, empty_heap-IsValid}
use oblivinx.Heap.Insert.{entry_of, insert_job_lem}
use oblivinx.Heap.Extract.{IsLeast, extract_min_due, extract_min_early, extract_min-empty}
use oblivinx.Heap.Remove.{remove_lem, update_entry-IsValid, jobs-update_entry}
use oblivinx.Adapter.{MemoryAdapter, empty_adapter, push, pop, update, remove, size}

pub record IsMirrored (a : MemoryAdapter) : Type 0 where
  pub valid : IsValid a.heap
  pub mirror : a.pending_index ≡ a.heap.jobs

pub empty_adapter-IsMirrored : IsMirrored empty_adapter
empty_adapter-IsMirrored = record { valid = empty_heap-IsValid; mirror = refl }

-- What a push leaves.
pub record Pushed (job : Job) (a b : MemoryAdapter) : Type 0 where
  pub mirrored : IsMirrored b
  pub pending : b.pending_index ≡ insert job.id job a.pending_index
  pub entries : Perm b.heap.heap (entry_of job a.heap ∷ a.heap.heap)
  pub stored : b.store ≡ a.store

-- `push` of a job whose id is not waiting in a mirrored adapter returns: the index has the job
-- under its id, the heap has one more entry, which is the job's, the store is unchanged, and the
-- adapter is mirrored again.
pub push_lem :
    (job : Job) (a : MemoryAdapter)
    → IsMirrored a
    → lookup job.id a.pending_index ≡ none
    → (b : MemoryAdapter) × (push job a ≡ some b) × Pushed job a b
unfolding push
push_lem job a m fresh =
    let (heap, returns, added) = insert_job_lem job a.heap m.valid (rw m.mirror at fresh) in
    (
      record a { heap = heap; pending_index = insert job.id job a.pending_index },
      rw returns,
      record {
        mirrored = record { valid = added.valid; mirror = rw (added.jobs, m.mirror) };
        pending = refl;
        entries = added.entries;
        stored = refl;
      },
    )

-- What a pop that returns a job leaves.
pub record Popped (now : ℕ) (a : MemoryAdapter) (job : Job) (b : MemoryAdapter) : Type 0 where
  pub mirrored : IsMirrored b
  pub entry : HeapEntry
  pub has_id : entry.id ≡ job.id
  pub due : entry.run_at ≤ now
  pub entries : Perm (entry ∷ b.heap.heap) a.heap.heap
  pub least : IsLeast entry a.heap.heap
  pub found : lookup job.id a.pending_index ≡ some job
  pub pending : b.pending_index ≡ erase job.id a.pending_index
  pub stored : b.store ≡ a.store

pub pop_due :
    (now : ℕ) (a : MemoryAdapter)
    → IsMirrored a
    → 0 < size a
    → (at a.heap.heap 0).run_at ≤ now
    → (job : Job) × (b : MemoryAdapter) × (pop now a ≡ some (some job, b)) × Popped now a job b
unfolding pop
pop_due now a m h due =
    let (job, heap, returns, out) = extract_min_due now a.heap m.valid h due in
    (
      job,
      record a { heap = heap; pending_index = erase job.id a.pending_index },
      rw returns,
      record {
        mirrored = record { valid = out.valid; mirror = rw (out.jobs, m.mirror, out.named) };
        entry = at a.heap.heap 0;
        has_id = rw out.named;
        due = due;
        entries = out.entries;
        least = out.least;
        found = rw (m.mirror, out.named) out.found;
        pending = refl;
        stored = refl;
      },
    )

pub remove-IsMirrored :
    (id : String) (a : MemoryAdapter)
    → IsMirrored a
    → (b : MemoryAdapter) × (remove id a ≡ some b)
      × IsMirrored b
      × (b.pending_index ≡ erase id a.pending_index)
      × (b.store ≡ erase id a.store)
unfolding remove
remove-IsMirrored id a m =
    let (heap, returns, valid, jobs) = remove_lem id a.heap m.valid in
    (
      record { heap = heap; pending_index = erase id a.pending_index; store = erase id a.store },
      rw returns,
      record { valid = valid; mirror = rw (jobs, m.mirror) },
      refl,
      refl,
    )

update_mirror :
    (job old : Job) (q : PriorityHeap)
    → lookup job.id q.jobs ≡ some old
    → insert job.id job q.jobs ≡ (update_entry job q).jobs
update_mirror job old q found = rw (jobs-update_entry job q, found)

-- `update` of any job keeps an adapter mirrored, whether the job waits or not: the heap stays
-- valid, and the index stays equal to the heap's map.
pub update-IsMirrored : (job : Job) (a : MemoryAdapter) → IsMirrored a → IsMirrored (update job a)
unfolding update
update-IsMirrored job a m = elim (Option-cases (lookup job.id a.pending_index)) [
  | inl missing ↦ rw missing (record { valid = m.valid; mirror = m.mirror })
  | inr (old, found) ↦ rw found (record {
    valid = update_entry-IsValid job a.heap m.valid;
    mirror = rw m.mirror (update_mirror job old a.heap (rw m.mirror at found));
  })
]

-- Nothing is due: the queue is empty, or its root runs later.
abbrev pub IsQuiet : ℕ → MemoryAdapter → Type 0
IsQuiet now a = (a.heap.heap ≡ []) ⊎ ((0 < size a) × (now < (at a.heap.heap 0).run_at))

pub pop_quiet :
    (now : ℕ) (a : MemoryAdapter) → IsMirrored a → IsQuiet now a → pop now a ≡ some (none, a)
unfolding pop
pop_quiet now a m (inl empty) = rw (extract_min-empty now a.heap empty)
pop_quiet now a m (inr (h, early)) = rw (extract_min_early now a.heap h early)

pub pop-cases :
    (now : ℕ) (a : MemoryAdapter)
    → IsQuiet now a ⊎ ((0 < size a) × ((at a.heap.heap 0).run_at ≤ now))
pop-cases now a = by_list a.heap.heap refl
  where
    by_list :
        (l : List HeapEntry)
        → a.heap.heap ≡ l
        → IsQuiet now a ⊎ ((0 < size a) × ((at a.heap.heap 0).run_at ≤ now))
    by_list [] e = inl (inl e)
    by_list (x ∷ l) e = rw e (elim (dec_lt now (at (x ∷ l) 0).run_at) [
      | yes early ↦ inl (inr (omega arith, early))
      | no due ↦ inr (omega arith, omega arith)
    ])
