-- ===== src/Heap/Valid.antt =====
-- core/PriorityHeap.ts: its invariant, a heap with one entry for each job.
use oblivinx.Base.{◌≡◌, String, List, Perm, map, some, arith}
use oblivinx.Base.Dict.{Dict, lookup, keys, IsUnique, lookup-empty}
use oblivinx.Job.{Job}
use oblivinx.Heap.{HeapEntry, PriorityHeap, empty_heap}
use oblivinx.Heap.Order.{IsHeap}
use mathlib.Core.List.Perm

abbrev pub ids : List HeapEntry → List String
ids = map (λ e. e.id)

-- Every job stands under its own id.
abbrev pub IsNamed : Dict Job → Type 0
IsNamed m = (k : String) (j : Job) → lookup k m ≡ some j → j.id ≡ k

pub record IsValid (q : PriorityHeap) : Type 0 where
  pub order : IsHeap q.heap
  pub tracked : Perm (ids q.heap) (keys q.jobs)
  pub unique : IsUnique q.jobs
  pub named : IsNamed q.jobs

pub empty_heap-IsValid : IsValid empty_heap
empty_heap-IsValid = record {
  order = λ c p q. absurd (omega arith);
  tracked = Perm.nil;
  unique = tt;
  named = λ k j e. ground (arith, lookup-empty {V = Job} k);
}
