-- ===== src/Plugins/Throttle/Cap.antt =====
-- plugins/Throttle.ts, its hooks in any order.
use oblivinx.Base.{ℕ, ◌+◌, ◌≤◌, ◌<◌, ◌≡◌, refl, none, some, arith}
use oblivinx.Job.{Job}
use oblivinx.Job.Errors.{Failure, concurrency_limit}
use oblivinx.Plugins.Throttle.{Throttle, new_throttle, on_process, on_complete, on_fail}

pub data Step : Throttle → Throttle → Type 0 where
  processes : (job : Job) (t : Throttle) → Step t (on_process job t).0
  completes : (job : Job) (t : Throttle) → Step t (on_complete job t)
  fails : (job : Job) (e : Failure) (t : Throttle) → Step t (on_fail job e t)

pub data Reach (t : Throttle) : Throttle → Type 0 where
  here : Reach t t
  next : {u v : Throttle} → Reach t u → Step u v → Reach t v

Step-capped :
    {t u : Throttle}
    → Step t u
    → t.active_count ≤ t.max_concurrent
    → (u.active_count ≤ u.max_concurrent) × (u.max_concurrent ≡ t.max_concurrent)
unfolding on_process on_complete on_fail
Step-capped (processes job t) h = ground arith
Step-capped (completes job t) h = ground arith
Step-capped (fails job e t) h = ground arith

-- From a new throttle, after any hooks in any order, the number of active jobs is at most the cap,
-- and the cap is the one it was made with.
pub Reach-capped :
    (cap : ℕ) (t : Throttle)
    → Reach (new_throttle cap) t
    → (t.active_count ≤ cap) × (t.max_concurrent ≡ cap)
Reach-capped cap t here = (omega arith, refl)
Reach-capped cap t (next r s) = ground (arith, Reach-capped cap _ r, Step-capped s)

-- A job is refused exactly at the cap, and then nothing changes.
pub on_process_refuses :
    (job : Job) (t : Throttle)
    → ((on_process job t).1 ≡ none → t.active_count < t.max_concurrent)
      × (t.active_count < t.max_concurrent
          → on_process job t ≡ (record t { active_count = t.active_count + 1 }, none))
      × (t.max_concurrent ≤ t.active_count
          → on_process job t ≡ (t, some (concurrency_limit t.max_concurrent)))
unfolding on_process
on_process_refuses job t = (λ h. ground arith, λ h. ground arith, λ h. ground arith)
