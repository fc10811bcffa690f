-- ===== src/Engine/Timers.antt =====
-- core/JobQueue.ts: what timers call. `onReady` of the scheduler pushes a delayed job, and
-- `handleExpire` ends a job whose time to live has passed.
use oblivinx.Base.{ℕ, Option, none, some, List, [], ◌∷◌, ◌>>=◌}
use oblivinx.Job.{Job, expired, no_changes, update_job}
use oblivinx.Job.Errors.{Failure}
use oblivinx.Adapter
use oblivinx.Scheduler
use oblivinx.Scheduler.{Timer}
use oblivinx.Wal.{WalOperation, nothing}
use oblivinx.Engine.State
use oblivinx.Engine.State.{Engine, emit, log_line, start_process_loop}
use oblivinx.Engine.Hooks.{Hooks, run_hooks, hooked}

module _ {P : Type 0} (hooks : Hooks P) where
  -- The calls of the callback of `onReady`.
  unfoldable pub push_ready : List (Unit {0} × Job) → Engine P → Option (Engine P)
  push_ready [] e = some e
  push_ready ((_, job) ∷ calls) e = do
    adapter ← Adapter.push job e.adapter
    push_ready calls (start_process_loop (record e { adapter = adapter }))

  unfoldable pub fire : Timer → Engine P → Option (Engine P)
  fire timer e =
      let (scheduler, calls) = Scheduler.fire timer e.scheduler in
      push_ready calls (record e { scheduler = scheduler })

  abbrev pub expired_job : Job → Job
  expired_job job = update_job job (record no_changes { state = some expired })

  abbrev pub expire_hooked : Job → Option Failure → Engine P → Engine P
  expire_hooked job (some err) e = emit (State.error err) e
  expire_hooked job none e = emit (State.expired job) e

  -- `handleExpire`.
  unfoldable pub expire : ℕ → Job → Engine P → Option (Engine P)
  expire now job e = do
    adapter ← Adapter.remove job.id e.adapter
    let logged = log_line now WalOperation.expire job.id nothing (record e { adapter = adapter })
    let result = run_hooks (hooks.on_expire now (expired_job job)) logged.plugins
    some (expire_hooked (expired_job job) result.2 (hooked result logged))
