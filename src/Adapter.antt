-- ===== src/Adapter.antt =====
-- packages/queueovn/src/adapters/MemoryAdapter.ts: the default storage adapter. `Date.now()` is an
-- argument; a method that reads an undefined heap slot gives `none`.
pub mod Mirror
pub mod Laws
pub mod Total
use oblivinx.Base.{
  ℕ, Bool, true, false, String, Option, none, some, List, [], ◌++◌, if◌then◌else◌, ◌>>=◌,
}
use oblivinx.Base.Dict.{Dict, lookup, insert, erase, has, values}
use oblivinx.Job.{Job}
use oblivinx.Heap
use oblivinx.Heap.{PriorityHeap, empty_heap, insert_job, extract_min, peek_min, update_entry}

pub record MemoryAdapter : Type 0 where
  pub heap : PriorityHeap
  pub store : Dict Job
  pub pending_index : Dict Job

abbrev pub empty_adapter : MemoryAdapter
empty_adapter = record { heap = empty_heap; store = []; pending_index = [] }

unfoldable pub push : Job → MemoryAdapter → Option MemoryAdapter
push job a = do
  heap ← insert_job job a.heap
  some (record a { heap = heap; pending_index = insert job.id job a.pending_index })

popped : MemoryAdapter → Option Job × PriorityHeap → Option Job × MemoryAdapter
popped a (none, heap) = (none, record a { heap = heap })
popped a (some job, heap) =
    (some job, record a { heap = heap; pending_index = erase job.id a.pending_index })

unfoldable pub pop : ℕ → MemoryAdapter → Option (Option Job × MemoryAdapter)
unfolding popped
pop now a = do taken ← extract_min now a.heap; some (popped a taken)

abbrev pub peek : ℕ → MemoryAdapter → Option Job
peek now a = peek_min now a.heap

or_stored : Option Job → Option Job → Option Job
or_stored none stored = stored
or_stored (some job) stored = some job

unfoldable pub get : String → MemoryAdapter → Option Job
unfolding or_stored
get id a = or_stored (lookup id a.pending_index) (lookup id a.store)

unfoldable pub update : Job → MemoryAdapter → MemoryAdapter
update job a =
    if has job.id a.pending_index
    then record a {
      heap = update_entry job a.heap;
      pending_index = insert job.id job a.pending_index;
    }
    else record a { store = insert job.id job a.store }

unfoldable pub remove : String → MemoryAdapter → Option MemoryAdapter
remove id a = do
  heap ← Heap.remove id a.heap
  some (record { heap = heap; pending_index = erase id a.pending_index; store = erase id a.store })

abbrev pub size : MemoryAdapter → ℕ
size a = Heap.size a.heap

abbrev pub get_all : MemoryAdapter → List Job
get_all a = Heap.to_array a.heap ++ values a.store

abbrev pub clear : MemoryAdapter → MemoryAdapter
clear a = record { heap = Heap.clear a.heap; store = []; pending_index = [] }
