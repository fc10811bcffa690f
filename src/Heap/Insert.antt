-- ===== src/Heap/Insert.antt =====
-- core/PriorityHeap.ts, `insert`.
use mathlib.Core.List.{perm_append_singleton}
use mathlib.Core.List.Perm
use oblivinx.Base.{
  ℕ, ◌+◌, ◌-◌, ◌≡◌, refl, List, [], ◌∷◌, ◌++◌, Perm, none, some, length, length-append, arith,
  eq_iff,
}
use oblivinx.Base.Arrays.{get_or-append_left}
use oblivinx.Base.Dict.{Dict, lookup, insert, keys, insert-IsUnique, keys-insert_new, lookup-insert}
use oblivinx.Job.{Job}
use oblivinx.Heap.{HeapEntry, PriorityHeap, insert_job, parent}
use oblivinx.Heap.Order.{blank, IsHeap}
use oblivinx.Heap.Up.{UpInv, bubble_up-Settles}
use oblivinx.Heap.Valid.{IsNamed, IsValid}

-- The entry that `insert` makes.
abbrev pub entry_of : Job → PriorityHeap → HeapEntry
entry_of job q = record {
  id = job.id;
  priority = job.priority;
  run_at = job.run_at;
  inserted_at = q.insert_counter;
}

-- What `insert` leaves: one more entry and one more job.
pub record Inserted (job : Job) (q r : PriorityHeap) : Type 0 where
  pub valid : IsValid r
  pub entries : Perm r.heap (entry_of job q ∷ q.heap)
  pub jobs : r.jobs ≡ insert job.id job q.jobs
  pub counter : r.insert_counter ≡ q.insert_counter + 1

module _ (job : Job) (q : PriorityHeap) (heaped : IsHeap q.heap) where
  abbrev pushed : List HeapEntry
  pushed = q.heap ++ entry_of job q ∷ []

  pushed-UpInv : UpInv pushed (length pushed - 1)
  pushed-UpInv =
      let size = length-append q.heap (entry_of job q ∷ []) in
      let old = λ (c : ℕ). get_or-append_left blank q.heap (entry_of job q ∷ []) c in
      record {
        inside = omega (arith, size);
        edges = λ c p r s. ground (arith, size, old c, old (parent c), heaped c);
        bridged = λ c p r s t. absurd (omega (arith, size));
      }

  -- On any heap the call returns, with one more entry, and the array is a heap again.
  pub insert_job_returns :
      (r : PriorityHeap) × (insert_job job q ≡ some r)
      × IsHeap r.heap
      × Perm r.heap (entry_of job q ∷ q.heap)
      × (r.jobs ≡ insert job.id job q.jobs)
      × (r.insert_counter ≡ q.insert_counter + 1)
  unfolding insert_job
  insert_job_returns =
      let (heap, returns, (order, same)) = bubble_up-Settles pushed _ pushed-UpInv in
      (
        record {
          heap = heap;
          jobs = insert job.id job q.jobs;
          insert_counter = q.insert_counter + 1;
        },
        rw returns,
        order,
        Perm.trans same (perm_append_singleton (entry_of job q) q.heap),
        refl,
        refl,
      )

pub insert-IsNamed : (job : Job) (m : Dict Job) → IsNamed m → IsNamed (insert job.id job m)
insert-IsNamed job m named k j h =
    ground (arith, lookup-insert job.id k job m, eq_iff job.id k, named k j)

-- `insert` of a job whose id is not in a valid heap returns: the entries are the old ones and one
-- for the job, the map has the job under its id, the counter grows by one, and the heap is valid
-- again.
pub insert_job_lem :
    (job : Job) (q : PriorityHeap)
    → IsValid q
    → lookup job.id q.jobs ≡ none
    → (r : PriorityHeap) × (insert_job job q ≡ some r) × Inserted job q r
insert_job_lem job q v fresh =
    let (r, returns, order, entries, jobs, counter) = insert_job_returns job q v.order in
    let tracked = Perm.trans (Perm.map (λ (e : HeapEntry). e.id) entries) (
      Perm.trans (Perm.cons job.id v.tracked)
        (Perm.symm (perm_append_singleton job.id (keys q.jobs)))) in
    (
      r,
      returns,
      record {
        valid = record {
          order = order;
          tracked = rw (jobs, keys-insert_new job.id job q.jobs fresh) tracked;
          unique = rw jobs (insert-IsUnique job.id job q.jobs v.unique);
          named = rw jobs (insert-IsNamed job q.jobs v.named);
        };
        entries = entries;
        jobs = jobs;
        counter = counter;
      },
    )
