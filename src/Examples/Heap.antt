-- ===== src/Examples/Heap.antt =====
-- core/PriorityHeap.ts.
use oblivinx.Base.{◌≡◌, refl, some, arith}
use oblivinx.Base.Dict.{lookup}
use oblivinx.Base.Arrays.{get_or}
use oblivinx.Job.{Job}
use oblivinx.Heap.{PriorityHeap, insert_job, extract_min}
use oblivinx.Heap.Order.{at}
use oblivinx.Heap.Insert.{Inserted, insert_job_lem}
use oblivinx.Heap.Extract.{Extracted, extract_min_due}
use oblivinx.Examples.Data.{third_job, two_wait, two_wait-IsValid}

insert_job_lem_example :
    (r : PriorityHeap) × (insert_job third_job two_wait ≡ some r) × Inserted third_job two_wait r
unfolding lookup
insert_job_lem_example = insert_job_lem third_job two_wait two_wait-IsValid refl

extract_min_due_example :
    (job : Job) × (r : PriorityHeap) × (extract_min 25 two_wait ≡ some (some job, r))
    × Extracted (at two_wait.heap 0) two_wait job r
unfolding get_or
extract_min_due_example = extract_min_due 25 two_wait two_wait-IsValid (omega arith) (omega arith)
