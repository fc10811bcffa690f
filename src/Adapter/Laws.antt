-- ===== src/Adapter/Laws.antt =====
-- adapters/MemoryAdapter.ts, as the queue sees its methods.

use oblivinx.Base.{
  ℕ, ◌≡◌, none, some, arith, String, inl, inr, ◌⊎◌, Option-cases, eq_refl, if◌then◌else◌, str_eq,
  false,
}
use oblivinx.Base.Dict.{lookup, insert, lookup-insert, lookup-erase}
use oblivinx.Job.{Job}
use oblivinx.Adapter.{MemoryAdapter, push, pop, get, update, remove}
use oblivinx.Adapter.Mirror.{
  IsMirrored, IsQuiet, Popped, push_lem, pop_due, pop_quiet, pop-cases, remove-IsMirrored,
}

-- `pop` returns on every mirrored adapter. Either the queue is empty or its root is not due, and
-- the adapter is unchanged; or a job comes out, whose entry was due and than which no entry is
-- more urgent: exactly that entry and that job are taken out of the heap and of the index, the
-- store is unchanged, and the adapter is mirrored again.
pub pop_lem :
    (now : ℕ) (a : MemoryAdapter)
    → IsMirrored a
    → (IsQuiet now a × (pop now a ≡ some (none, a)))
      ⊎ ((job : Job) × (b : MemoryAdapter) × (pop now a ≡ some (some job, b)) × Popped now a job b)
pop_lem now a m = elim (pop-cases now a) [
  | inl quiet ↦ inl (quiet, pop_quiet now a m quiet)
  | inr (h, due) ↦ inr (pop_due now a m h due)
]

-- `get` of a job's id after `update` of the job returns that job, whether it waits, is stored or
-- is new.
pub get-update_self : (job : Job) (a : MemoryAdapter) → get job.id (update job a) ≡ some job
unfolding get update
get-update_self job a = elim (Option-cases (lookup job.id a.pending_index)) [
  | inl missing ↦ rw missing (simp (lookup-insert, eq_refl) (rw missing))
  | inr (old, found) ↦ rw found (simp (lookup-insert, eq_refl))
]

-- `update` of a job does not change what `get` finds under an id that is not the job's.
pub get-update_other :
    (job : Job) (id : String) (a : MemoryAdapter)
    → ◌≡◌ (str_eq job.id id) false
    → get id (update job a) ≡ get id a
unfolding get update
get-update_other job id a h = elim (Option-cases (lookup job.id a.pending_index)) [
  | inl missing ↦ rw missing (simp lookup-insert (rw h))
  | inr (old, found) ↦ rw found (simp lookup-insert (rw h))
]

-- On a mirrored adapter `remove` returns; after it `get` finds nothing under the id, and under
-- every other id what it found before.
pub get-remove :
    (id : String) (a : MemoryAdapter)
    → IsMirrored a
    → (b : MemoryAdapter) × (remove id a ≡ some b)
      × ((j : String) → get j b ≡ (if str_eq id j then none else get j a))
unfolding get
get-remove id a m =
    let (b, returns, mirrored, pending, store) = remove-IsMirrored id a m in
    (
      b,
      returns,
      λ j.
          rw (pending, store, lookup-erase id j a.pending_index, lookup-erase id j a.store)
            (ground arith),
    )

-- If a job that does not wait in a mirrored adapter is written by `update`, and then a job with
-- the same id is pushed, the push returns, and both are kept: the heap has the second under the id
-- and the store the first.
pub retried_twice :
    (job retry : Job) (a : MemoryAdapter)
    → IsMirrored a
    → lookup job.id a.pending_index ≡ none
    → retry.id ≡ job.id
    → (b : MemoryAdapter) × (push retry (update job a) ≡ some b)
      × (lookup job.id b.heap.jobs ≡ some retry)
      × (lookup job.id b.store ≡ some job)
retried_twice job retry a m gone same =
    let moved : update job a ≡ record a { store = insert job.id job a.store } =
      unfold update in rw gone in
    let (b, returns, pushed) =
      push_lem retry (record a { store = insert job.id job a.store })
        (record { valid = m.valid; mirror = m.mirror }) (rw same gone) in
    (
      b,
      rw moved returns,
      rw (← pushed.mirrored.mirror, pushed.pending, same) (simp (lookup-insert, eq_refl)),
      rw pushed.stored (simp (lookup-insert, eq_refl)),
    )
