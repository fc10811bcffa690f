-- ===== src/Engine/Enqueue.antt =====
-- core/JobQueue.ts, `enqueue`: the job, or the error that it throws. `created` is the time at which
-- the job is made, `now` the time after the hooks.
use oblivinx.Base.{
  ℕ, Bool, false, String, Option, none, some, ◌⊎◌, inl, inr, if◌then◌else◌, ltb, leb, ◌>>=◌,
}
use oblivinx.Job.{Job, JobOptions, create_job}
use oblivinx.Job.Errors.{Failure, queue_error, queue_full}
use oblivinx.Adapter
use oblivinx.Scheduler
use oblivinx.Wal.{WalOperation, of_job}
use oblivinx.Engine.State.{Engine, enqueued, emit, log_line, start_process_loop, size}
use oblivinx.Engine.Hooks.{Hooks, run_hooks, hooked}

module _ {P : Type 0} (hooks : Hooks P) where
  -- A job that every hook let in: it waits in the scheduler, or in the adapter.
  unfoldable pub accept : ℕ → Job → Engine P → Option (Engine P)
  accept now job e =
      let at_once : Option (Engine P) = do
        adapter ← Adapter.push job e.adapter
        some (
            emit (enqueued job) (
              start_process_loop (
                log_line now WalOperation.enqueue job.id (of_job job)
                  (record e { adapter = adapter }))))
      in if ltb now job.run_at
        then some (
            emit (enqueued job)
              (record e { scheduler = Scheduler.schedule now job job.run_at e.scheduler }))
        else at_once

  -- The result of `enqueue`: an error or the id, beside the engine.
  abbrev pub Enqueued : Type 0
  Enqueued = (Failure ⊎ String) × Engine P

  abbrev pub enqueue_hooked : ℕ → Job → Option Failure → Engine P → Option Enqueued
  enqueue_hooked now job (some err) e = some (inl err, e)
  enqueue_hooked now job none e = do accepted ← accept now job e; some (inr job.id, accepted)

  abbrev pub is_full : Option ℕ → ℕ → Bool
  is_full none n = false
  is_full (some limit) n = leb limit n

  abbrev pub limit_of : Option ℕ → ℕ
  limit_of none = 0
  limit_of (some limit) = limit

  unfoldable pub enqueue : ℕ → ℕ → String → JobOptions → Engine P → Option Enqueued
  enqueue created now id options e =
      let job = create_job id created options e.cfg.defaults in
      let result = run_hooks (hooks.on_enqueue created job) e.plugins in
      if e.is_closed
      then some (inl (queue_error "JobQueue is closed"), e)
      else if is_full e.cfg.max_queue_size (size e)
      then some (inl (queue_full (limit_of e.cfg.max_queue_size)), e)
      else enqueue_hooked now job result.2 (hooked result e)
