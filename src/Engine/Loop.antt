-- ===== src/Engine/Loop.antt =====
-- core/JobQueue.ts, `runProcessLoop`: one round of its loop, with nothing between its awaits; `Phases`
-- has its parts. A job that is dispatched is in flight until `Finish`.
use oblivinx.Base.{
  ℕ, ◌+◌, zero, suc, Bool, false, Option, none, some, [], ◌∷◌, ◌++◌, if◌then◌else◌, ltb, ◌||◌,
  ◌>>=◌,
}
use oblivinx.Job.{Job, active, no_changes, update_job}
use oblivinx.Job.Errors.{Failure, is_discard}
use oblivinx.Adapter
use oblivinx.Wal.{WalOperation, nothing}
use oblivinx.Engine.State
use oblivinx.Engine.State.{Engine, emit, log_line}
use oblivinx.Engine.Hooks.{Hooks, run_hooks, hooked}

module _ {P : Type 0} (hooks : Hooks P) where
  -- The loop ends.
  abbrev pub stop : Engine P → Engine P
  stop e = record e { processing_loop = false }

  abbrev pub activated : ℕ → Job → Job
  activated now job =
      update_job job (record no_changes { state = some active; started_at = some (some now) })

  -- The job is marked as active, and dispatched.
  unfoldable pub dispatch : ℕ → Job → Engine P → Engine P
  dispatch now job e =
      let active_job = activated now job in
      let marked : Engine P = record e { adapter = Adapter.update active_job e.adapter } in
      let announced =
        emit (State.active active_job)
          (log_line now WalOperation.activate active_job.id nothing marked) in
      record announced {
        running = announced.running + 1;
        in_flight = announced.in_flight ++ active_job ∷ [];
      }

  -- After the `onProcess` hooks: a discarded job is gone, another error puts the job back.
  abbrev pub round_hooked : ℕ → Job → Option Failure → Engine P → Option (Engine P)
  round_hooked now job none e = some (dispatch now job e)
  round_hooked now job (some err) e =
      let put_back : Option (Engine P) = do
        adapter ← Adapter.push job e.adapter
        some (stop (record e { adapter = adapter }))
      in if is_discard err then some e else put_back

  abbrev pub round_popped : ℕ → Option Job → Engine P → Option (Engine P)
  round_popped now none e = some (stop e)
  round_popped now (some job) e =
      let result = run_hooks (hooks.on_process now job) e.plugins in
      round_hooked now job result.2 (hooked result e)

  abbrev pub may_run : Engine P → Bool
  may_run e = if e.is_closed || e.is_paused then false else ltb e.running e.cfg.max_workers

  -- The test of `while`, and the body.
  unfoldable pub round : ℕ → Engine P → Option (Engine P)
  round now e =
      let body : Option (Engine P) = do
        (job, adapter) ← Adapter.pop now e.adapter
        round_popped now job (record e { adapter = adapter })
      in if may_run e then body else some (stop e)

  -- The loop with nothing between its rounds, at one time.
  unfoldable pub run_loop : ℕ → ℕ → Engine P → Option (Engine P)
  run_loop zero now e = none
  run_loop (suc fuel) now e =
      let next = round now e >>= run_loop fuel now in if e.processing_loop then next else some e
