-- ===== src/Plugins/Throttle.antt =====
-- plugins/Throttle.ts: a cap on the jobs that run at once.
pub mod Cap
use oblivinx.Base.{ℕ, ◌+◌, ◌-◌, Option, none, some, leb, if◌then◌else◌}
use oblivinx.Job.{Job}
use oblivinx.Job.Errors.{Failure, concurrency_limit}

pub record Throttle : Type 0 where
  pub active_count : ℕ
  pub max_concurrent : ℕ

abbrev pub new_throttle : ℕ → Throttle
new_throttle max_concurrent = record { active_count = 0; max_concurrent = max_concurrent }

unfoldable pub on_process : Job → Throttle → Throttle × Option Failure
on_process job t =
    if leb t.max_concurrent t.active_count
    then (t, some (concurrency_limit t.max_concurrent))
    else (record t { active_count = t.active_count + 1 }, none)

-- `Math.max(0, n - 1)` is the truncated difference.
unfoldable pub on_complete : Job → Throttle → Throttle
on_complete job t = record t { active_count = t.active_count - 1 }

unfoldable pub on_fail : Job → Failure → Throttle → Throttle
on_fail job error t = record t { active_count = t.active_count - 1 }
