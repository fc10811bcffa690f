-- ===== src/Examples/Data.antt =====
-- Sample jobs and a heap of two of them, for the examples.
use oblivinx.Base.{ℕ, ◌≡◌, refl, String, none, some, [], ◌∷◌, subst}
use oblivinx.Base.Dict.{lookup, insert}
use oblivinx.Base.Value.{Fields}
use oblivinx.Job.{Job, pending}
use oblivinx.Heap.{HeapEntry, PriorityHeap, empty_heap, insert_job, bubble_up, before, swap}
use oblivinx.Heap.Valid.{IsValid, empty_heap-IsValid}
use oblivinx.Heap.Insert.{insert_job_lem}
use oblivinx.Adapter.{MemoryAdapter}
use oblivinx.Adapter.Mirror.{IsMirrored}

abbrev pub job_with : String → ℕ → ℕ → Job
job_with id priority run_at = record {
  id = id;
  type = "mail";
  payload = Fields.end;
  priority = priority;
  max_attempts = 3;
  attempts = 0;
  max_duration = 30_000;
  state = pending;
  created_at = 0;
  run_at = run_at;
  ttl = none;
  expires_at = none;
  started_at = none;
  finished_at = none;
  last_error = none;
  flow_id = none;
  depends_on = none;
  idempotency_key = none;
  retry_policy = none;
}

abbrev pub slow_job : Job
slow_job = job_with "slow" 5 10

abbrev pub fast_job : Job
fast_job = job_with "fast" 1 20

abbrev pub third_job : Job
third_job = job_with "third" 3 0

abbrev pub entry : String → ℕ → ℕ → ℕ → HeapEntry
entry id priority run_at inserted_at = record {
  id = id;
  priority = priority;
  run_at = run_at;
  inserted_at = inserted_at;
}

abbrev pub one_waits : PriorityHeap
one_waits = record {
  heap = entry "slow" 5 10 0 ∷ [];
  jobs = ("slow", slow_job) ∷ [];
  insert_counter = 1;
}

abbrev pub two_wait : PriorityHeap
two_wait = record {
  heap = entry "fast" 1 20 1 ∷ entry "slow" 5 10 0 ∷ [];
  jobs = ("slow", slow_job) ∷ ("fast", fast_job) ∷ [];
  insert_counter = 2;
}

-- What an insertion into a valid heap computes is valid.
inserted-IsValid :
    (job : Job) (q r : PriorityHeap)
    → IsValid q
    → lookup job.id q.jobs ≡ none
    → insert_job job q ≡ some r
    → IsValid r
inserted-IsValid job q r v fresh h =
    let (s, returns, added) = insert_job_lem job q v fresh in
    let same : s ≡ r = cc in subst IsValid same added.valid

pub one_waits-IsValid : IsValid one_waits
unfolding insert_job bubble_up before swap lookup insert
one_waits-IsValid = inserted-IsValid slow_job empty_heap one_waits empty_heap-IsValid refl refl

pub two_wait-IsValid : IsValid two_wait
unfolding insert_job bubble_up before swap lookup insert
two_wait-IsValid = inserted-IsValid fast_job one_waits two_wait one_waits-IsValid refl refl

-- The adapter with these jobs, and one that was popped and updated.
abbrev pub busy : MemoryAdapter
busy = record {
  heap = two_wait;
  store = ("third", third_job) ∷ [];
  pending_index = ("slow", slow_job) ∷ ("fast", fast_job) ∷ [];
}

pub busy-IsMirrored : IsMirrored busy
busy-IsMirrored = record { valid = two_wait-IsValid; mirror = refl }
