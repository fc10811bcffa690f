-- ===== src/Recovery/Reset.antt =====
-- persistence/Recovery.ts, step 3 of `run`: active jobs go back to pending.
use oblivinx.Base.{
  ◌≡◌, ◌≢◌, refl, sym, ◌∙◌, subst, String, Option, none, some, List, [], ◌∷◌, Option-cases, inl,
  inr, arith, eq_iff, eq_refl, str_eq, Bool, true, false, if◌then◌else◌,
}
use mathlib.Core.List.{append-nil}
use mathlib.Core.Option
use oblivinx.Base.Dict.{Dict, lookup, insert, IsUnique, lookup-insert, values}
use oblivinx.Job.{Job, active, is_active, update_job}
use oblivinx.Heap.Valid.{IsNamed}
use oblivinx.Adapter.{MemoryAdapter, get_all}
use oblivinx.Recovery.{reset_all, reset_one, reset_job}
use oblivinx.Recovery.Replay.{Holds, update-Holds}

-- The fold over the jobs, on the dictionary.
abbrev pub reset_one_spec : Bool → Job → Dict Job → Dict Job
reset_one_spec true job m = insert job.id (reset_job job) m
reset_one_spec false job m = m

abbrev pub reset_spec : List Job → Dict Job → Dict Job
reset_spec [] m = m
reset_spec (job ∷ jobs) m = reset_spec jobs (reset_one_spec (is_active job.state) job m)

-- A job that was in flight is pending again; any other is as it was.
abbrev pub settled : Job → Job
settled job = if is_active job.state then reset_job job else job

abbrev choose : Option Job → Option Job → Option Job
choose none other = other
choose (some job) other = if is_active job.state then some (reset_job job) else other

tail-IsNamed :
    (i : String) (job : Job) (n : Dict Job)
    → IsUnique ((i, job) ∷ n)
    → IsNamed ((i, job) ∷ n)
    → IsNamed n
unfolding lookup
tail-IsNamed i job n u named k x found = ground (arith, eq_iff i k, u.0, named k x)

head-IsNamed : (i : String) (job : Job) (n : Dict Job) → IsNamed ((i, job) ∷ n) → job.id ≡ i
unfolding lookup
head-IsNamed i job n named = named i job (rw (eq_refl i))

lookup-reset_spec :
    (n m : Dict Job) (k : String)
    → IsUnique n
    → IsNamed n
    → lookup k (reset_spec (values n) m) ≡ choose (lookup k n) (lookup k m)
unfolding lookup
lookup-reset_spec [] m k u named = refl
lookup-reset_spec ((i, job) ∷ n) m k u named =
    let own = head-IsNamed i job n named in
    let ih =
      lookup-reset_spec n (reset_one_spec (is_active job.state) job m) k u.1
        (tail-IsNamed i job n u named) in
    ih ∙ step own
  where
    step :
        job.id ≡ i
        → choose (lookup k n) (lookup k (reset_one_spec (is_active job.state) job m))
          ≡ choose (if str_eq i k then some job else lookup k n) (lookup k m)
    step own = ground (arith, eq_iff i k, u.0, lookup-insert job.id k (reset_job job) m, own)

-- Every job of the dictionary is settled, and no other appears.
pub lookup-reset_self :
    (m : Dict Job) (k : String)
    → IsUnique m
    → IsNamed m
    → lookup k (reset_spec (values m) m) ≡ Option.map settled (lookup k m)
lookup-reset_self m k u named = lookup-reset_spec m m k u named ∙ chosen (lookup k m)
  where
    chosen : (o : Option Job) → choose o o ≡ Option.map settled o
    chosen none = refl
    chosen (some job) = ground arith

-- Every id of `n` is one of `m`.
abbrev IsWithin : Dict Job → Dict Job → Type 0
IsWithin n m = (k : String) → lookup k m ≡ none → lookup k n ≡ none

tail-IsWithin : (i : String) (job : Job) (n m : Dict Job) → IsWithin ((i, job) ∷ n) m → IsWithin n m
unfolding lookup
tail-IsWithin i job n m sub k absent = ground (arith, sub k)

insert-IsWithin :
    (n m : Dict Job) (id : String) (job : Job) → IsWithin n m → IsWithin n (insert id job m)
insert-IsWithin n m id job sub k absent = ground (arith, sub k, lookup-insert id k job m)

reset_one-Holds :
    (b : Bool) (job : Job) (a : MemoryAdapter) (m : Dict Job)
    → lookup job.id m ≢ none
    → Holds a m
    → Holds (reset_one b job a) (reset_one_spec b job m)
unfolding reset_one update_job
reset_one-Holds false job a m there h = h
reset_one-Holds true job a m there h = elim (Option-cases (lookup job.id m)) [
  | inl absent ↦ absurd (there absent)
  | inr (old, known) ↦ update-Holds a m h (reset_job job) old known
]

reset_one-IsWithin :
    (b : Bool) (n m : Dict Job) (job : Job) → IsWithin n m → IsWithin n (reset_one_spec b job m)
reset_one-IsWithin false n m job sub = sub
reset_one-IsWithin true n m job sub = insert-IsWithin n m job.id (reset_job job) sub

-- The loop over the jobs of a dictionary.
reset_all-Holds :
    (n : Dict Job) (a : MemoryAdapter) (m : Dict Job)
    → IsUnique n
    → IsNamed n
    → IsWithin n m
    → Holds a m
    → Holds (reset_all (values n) a) (reset_spec (values n) m)
unfolding reset_all
reset_all-Holds [] a m u named sub h = h
reset_all-Holds ((i, job) ∷ n) a m u named sub h =
    let b = is_active job.state in
    let there : lookup job.id m ≢ none = λ absent.
      unfold lookup in
      ground (arith, sub job.id absent, head-IsNamed i job n named, eq_iff i job.id) in
    reset_all-Holds n (reset_one b job a) (reset_one_spec b job m) u.1
      (tail-IsNamed i job n u named) (reset_one-IsWithin b n m job (tail-IsWithin i job n m sub))
      (reset_one-Holds b job a m there h)

pub reset-Holds :
    (a : MemoryAdapter) (m : Dict Job)
    → Holds a m
    → Holds (reset_all (get_all a) a) (reset_spec (values m) m)
reset-Holds a m h =
    let all : get_all a ≡ values m = rw (h.stored, append-nil, h.waiting) in
    subst (λ l. Holds (reset_all l a) (reset_spec (values m) m)) (sym all)
      (reset_all-Holds m a m h.unique h.named (λ k absent. absent) h)

-- None of the jobs is active afterwards.
pub settled-ne-active : (job : Job) → (settled job).state ≢ active
unfolding update_job
settled-ne-active job = ground arith
