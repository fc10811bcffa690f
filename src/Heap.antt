-- ===== src/Heap.antt =====
-- packages/queueovn/src/core/PriorityHeap.ts: the binary heap of waiting jobs, beside the map from
-- ids to jobs. A read of an undefined slot gives `none`, and so does a loop whose fuel ran out.
pub mod Order
pub mod Up
pub mod Down
pub mod Valid
pub mod Insert
pub mod Extract
pub mod Remove
use oblivinx.Base.{
  ℕ, zero, suc, ◌+◌, ◌-◌, ◌*◌, ◌/◌, Bool, true, false, String, Option, none, some, List, [], ◌∷◌,
  ◌++◌, length, ltb, ◌==◌, str_eq, if◌then◌else◌, not, ◌&&◌, ◌>>=◌, default_to,
}
use oblivinx.Base.Arrays.{get_elem?, set, drop_last}
use oblivinx.Base.Dict.{Dict, lookup, insert, erase, has, values}
use oblivinx.Job.{Job}

pub record HeapEntry : Type 0 where
  pub id : String
  pub priority : ℕ
  pub run_at : ℕ
  pub inserted_at : ℕ

pub record PriorityHeap : Type 0 where
  pub heap : List HeapEntry
  pub jobs : Dict Job
  pub insert_counter : ℕ

abbrev pub empty_heap : PriorityHeap
empty_heap = record { heap = []; jobs = []; insert_counter = 0 }

-- `size`.
abbrev pub size : PriorityHeap → ℕ
size q = length q.heap

-- `compare(a, b)`: `a` is more urgent than `b`.
unfoldable pub before : HeapEntry → HeapEntry → Bool
before a b =
    if not (a.priority == b.priority)
    then ltb a.priority b.priority
    else if not (a.run_at == b.run_at)
    then ltb a.run_at b.run_at
    else ltb a.inserted_at b.inserted_at

unfoldable pub swap : List HeapEntry → ℕ → ℕ → Option (List HeapEntry)
swap heap i j = do
  tmp ← get_elem? heap i
  other ← get_elem? heap j
  some (set (set heap i other) j tmp)

abbrev pub parent : ℕ → ℕ
parent i = (i - 1) / 2

bubble_loop : ℕ → List HeapEntry → ℕ → Option (List HeapEntry)
bubble_loop zero heap i = none
bubble_loop (suc fuel) heap i =
    let rise = swap heap i (parent i) >>= λ risen. bubble_loop fuel risen (parent i) in
    let round : Option (List HeapEntry) = do
      child ← get_elem? heap i
      above ← get_elem? heap (parent i)
      if before child above then rise else some heap
    in if ltb 0 i then round else some heap

-- `bubbleUp`: an index at least halves in each round.
unfoldable pub bubble_up : List HeapEntry → ℕ → Option (List HeapEntry)
unfolding bubble_loop
bubble_up heap i = bubble_loop (i + 1) heap i

-- `if (c < n && compare(heap[c], heap[smallest])) smallest = c`.
pick : List HeapEntry → ℕ → ℕ → Option ℕ
pick heap c smallest =
    let compared : Option ℕ = do
      x ← get_elem? heap c
      y ← get_elem? heap smallest
      some (if before x y then c else smallest)
    in if ltb c (length heap) then compared else some smallest

sink_loop : ℕ → List HeapEntry → ℕ → Option (List HeapEntry)
sink_loop zero heap i = none
sink_loop (suc fuel) heap i = do
  left ← pick heap (2 * i + 1) i
  smallest ← pick heap (2 * i + 2) left
  let sink = swap heap i smallest >>= λ sunk. sink_loop fuel sunk smallest
  if smallest == i then some heap else sink

-- `sinkDown`: an index grows in each round, and stays below the length.
pub sink_down : List HeapEntry → ℕ → Option (List HeapEntry)
unfolding sink_loop
sink_down heap i = sink_loop (length heap + 1) heap i

unfoldable pub insert_job : Job → PriorityHeap → Option PriorityHeap
insert_job job q = do
  let entry : HeapEntry = record {
    id = job.id;
    priority = job.priority;
    run_at = job.run_at;
    inserted_at = q.insert_counter;
  }
  let pushed = q.heap ++ entry ∷ []
  heap ← bubble_up pushed (length pushed - 1)
  some (record {
    heap = heap;
    jobs = insert job.id job q.jobs;
    insert_counter = q.insert_counter + 1;
  })

-- `if (this.heap.length > 0) this.sinkDown(0)`.
settle : List HeapEntry → Option (List HeapEntry)
settle heap = if ltb 0 (length heap) then sink_down heap 0 else some heap

-- `extractMin`, once `this.heap[0]` is read.
take_top : ℕ → PriorityHeap → Option HeapEntry → Option (Option Job × PriorityHeap)
unfolding settle
take_top now q none = some (none, q)
take_top now q (some top) =
    let taken : Option (Option Job × PriorityHeap) = do
      swapped ← swap q.heap 0 (length q.heap - 1)
      heap ← settle (drop_last swapped)
      some (lookup top.id q.jobs, record q { heap = heap; jobs = erase top.id q.jobs })
    in if ltb now top.run_at then some (none, q) else taken

unfoldable pub extract_min : ℕ → PriorityHeap → Option (Option Job × PriorityHeap)
unfolding take_top
extract_min now q = take_top now q (get_elem? q.heap 0)

peek_top : ℕ → PriorityHeap → Option HeapEntry → Option Job
peek_top now q none = none
peek_top now q (some top) = if ltb now top.run_at then none else lookup top.id q.jobs

unfoldable pub peek_min : ℕ → PriorityHeap → Option Job
unfolding peek_top
peek_min now q = peek_top now q (get_elem? q.heap 0)

unfoldable pub update_entry : Job → PriorityHeap → PriorityHeap
update_entry job q = if has job.id q.jobs then record q { jobs = insert job.id job q.jobs } else q

-- `findIndex((e) => e.id === id)` from index `i` on, with `none` for -1.
pub find_index : String → ℕ → List HeapEntry → Option ℕ
find_index id i [] = none
find_index id i (e ∷ heap) = if str_eq e.id id then some i else find_index id (suc i) heap

-- `if (idx < this.heap.length) { bubbleUp(idx); sinkDown(idx); }`.
resettle : ℕ → List HeapEntry → Option (List HeapEntry)
resettle idx heap =
    let both = bubble_up heap idx >>= λ risen. sink_down risen idx in
    if ltb idx (length heap) then both else some heap

remove_at : String → PriorityHeap → Option ℕ → Option PriorityHeap
unfolding resettle
remove_at id q none = some q
remove_at id q (some idx) = do
  swapped ← swap q.heap idx (length q.heap - 1)
  heap ← resettle idx (drop_last swapped)
  some (record q { heap = heap; jobs = erase id q.jobs })

unfoldable pub remove : String → PriorityHeap → Option PriorityHeap
unfolding remove_at find_index
remove id q = remove_at id q (find_index id 0 q.heap)

-- `toArray`.
abbrev pub to_array : PriorityHeap → List Job
to_array q = values q.jobs

-- `clear`.
abbrev pub clear : PriorityHeap → PriorityHeap
clear q = empty_heap
