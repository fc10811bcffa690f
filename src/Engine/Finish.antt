-- ===== src/Engine/Finish.antt =====
-- core/JobQueue.ts, `dispatchJob` and `executeJob`: the end of a job in flight. What the handler did
-- is the step's argument: it returned a value, or it threw or ran out of time.
use oblivinx.Base.{
  ℕ, ◌+◌, ◌-◌, String, Option, none, some, List, [], ◌∷◌, if◌then◌else◌, ltb, ◌&&◌, str_eq,
  default_to, ◌>>=◌,
}
use oblivinx.Base.Value.{Value}
use oblivinx.Base.Dict.{has}
use oblivinx.Job.{
  Job, JobResult, success, done, failed, retrying, no_changes, update_job, RetryPolicy,
}
use oblivinx.Job.Errors.{Failure, unknown_job_type}
use oblivinx.Adapter
use oblivinx.Scheduler
use oblivinx.Flow
use oblivinx.Flow.{FlowController, on_job_complete}
use oblivinx.Flow.Cancel.{on_job_fail}
use oblivinx.Wal.{WalOperation, of_result, nothing}
use oblivinx.Engine.State
use oblivinx.Engine.State.{Engine, emit, log_line, start_process_loop, check_drain}
use oblivinx.Engine.Hooks.{Hooks, run_hooks, hooked, record_first}

pub data Outcome : Type 0 where
  returned : Value → Outcome
  threw : Failure → Outcome

-- The ids that `generateId` gives to the jobs that a flow makes.
pub record FreshIds : Type 0 where
  pub next_id : String
  pub of_node : String → String

module _ {P : Type 0} (hooks : Hooks P) (fresh : FreshIds) where
  -- What the flow controller does to the adapter, the log and the loop.
  unfoldable pub apply_effects : ℕ → List Flow.Effect → Engine P → Option (Engine P)
  apply_effects now [] e = some e
  apply_effects now (Flow.logged op id d ∷ effects) e =
      apply_effects now effects (log_line now op id d e)
  apply_effects now (Flow.pushed job ∷ effects) e = do
    adapter ← Adapter.push job e.adapter
    apply_effects now effects (record e { adapter = adapter })
  apply_effects now (Flow.woken ∷ effects) e = apply_effects now effects (start_process_loop e)

  -- `this.adapter.remove(id).catch(...)`, for each cancelled job.
  unfoldable pub remove_all : List String → Engine P → Option (Engine P)
  remove_all [] e = some e
  remove_all (id ∷ ids) e = do
    adapter ← Adapter.remove id e.adapter
    remove_all ids (record e { adapter = adapter })

  abbrev pub done_job : ℕ → Job → Job
  done_job now job = update_job job (record no_changes {
    state = some done;
    finished_at = some (some now);
    attempts = some (job.attempts + 1);
  })

  -- `onSuccess` after the `onComplete` hooks: a hook that throws ends it, and `dispatchJob` reports
  -- the error.
  abbrev pub success_hooked : ℕ → Job → JobResult → Option Failure → Engine P → Option (Engine P)
  success_hooked now job result (some err) e = some (emit (State.error err) e)
  success_hooked now job result none e =
      let (flow, effects) = on_job_complete fresh.of_node fresh.next_id now job e.flow in
      do
        advanced ← apply_effects now effects (record e { flow = flow })
        some (emit (State.completed job result) advanced)

  unfoldable pub on_success : ℕ → Job → Value → Engine P → Option (Engine P)
  on_success now job value e =
      let finished = done_job now job in
      let stored : Engine P = record e { adapter = Adapter.update finished e.adapter } in
      let logged =
        log_line now WalOperation.complete finished.id (of_result (success value)) stored in
      let result = run_hooks (hooks.on_complete now finished (success value)) logged.plugins in
      success_hooked now finished (success value) result.2 (hooked result logged)

  abbrev pub retry_job : ℕ → ℕ → Failure → Job → Job
  retry_job now delay err job = update_job job (record no_changes {
    state = some retrying;
    attempts = some (job.attempts + 1);
    last_error = some (some (hooks.message_of err));
    run_at = some (now + delay);
  })

  -- The branch of `onFailure` that tries again after `delay`.
  unfoldable pub retry : ℕ → ℕ → Failure → Job → Engine P → Option (Engine P)
  retry now delay err job e =
      let again = retry_job now delay err job in
      let announce = λ (waiting : Engine P).
        emit (State.retrying again again.attempts)
          (record (log_line now WalOperation.retry again.id nothing waiting) {
            plugins = record_first hooks waiting.plugins;
          }) in
      let at_once : Option (Engine P) = Adapter.push again e.adapter >>= λ adapter.
      some (announce (record e { adapter = adapter })) in
      if ltb 0 delay
      then some (
          announce (record e { scheduler = Scheduler.schedule now again again.run_at e.scheduler }))
      else at_once

  abbrev pub failed_job : ℕ → Failure → Job → Job
  failed_job now err job = update_job job (record no_changes {
    state = some failed;
    attempts = some (job.attempts + 1);
    last_error = some (some (hooks.message_of err));
    finished_at = some (some now);
  })

  -- The permanent failure, after the `onFail` hooks. The cancellation of what depends on the job is
  -- not awaited.
  abbrev pub failure_hooked : ℕ → Job → Failure → Option Failure → Engine P → Option (Engine P)
  failure_hooked now job err (some thrown) e = some (emit (State.error thrown) e)
  failure_hooked now job err none e = do
    (flow, effects, removed) ← on_job_fail job e.flow
    ended ← apply_effects now effects (record e { flow = flow })
    cancelled ← remove_all removed ended
    some (emit (State.failed job err) (emit (State.dead_letter job err) cancelled))

  unfoldable pub fail_for_good : ℕ → Failure → Job → Engine P → Option (Engine P)
  fail_for_good now err job e =
      let ended = failed_job now err job in
      let stored : Engine P = record e { adapter = Adapter.update ended e.adapter } in
      let logged = log_line now WalOperation.fail ended.id nothing stored in
      let result = run_hooks (hooks.on_fail now ended err) logged.plugins in
      failure_hooked now ended err result.2 (hooked result logged)

  -- `onFailure`.
  unfoldable pub on_failure : ℕ → Failure → Job → Engine P → Option (Engine P)
  on_failure now err job e =
      let policy : RetryPolicy = default_to job.retry_policy e.cfg.default_retry in
      let attempts = job.attempts + 1 in
      if ltb attempts job.max_attempts && policy.should_retry attempts err
      then retry now (policy.next_delay attempts err) err job e
      else fail_for_good now err job e

  abbrev pub settle : ℕ → Job → Outcome → Engine P → Option (Engine P)
  settle now job (returned value) e = on_success now job value e
  settle now job (threw err) e = on_failure now err job e

  -- `executeJob`: without a handler `lookup` throws, outside of its `try`.
  unfoldable pub execute_job : ℕ → Job → Outcome → Engine P → Option (Engine P)
  execute_job now job outcome e =
      let handled = settle now job outcome e in
      if has job.type e.registry
      then handled
      else some (emit (State.error (unknown_job_type job.type)) e)

  -- The `finally` of `dispatchJob`.
  abbrev pub drop_job : String → List Job → List Job
  drop_job id [] = []
  drop_job id (job ∷ jobs) =
      let rest = drop_job id jobs in if str_eq job.id id then jobs else job ∷ rest

  abbrev pub release : Job → Engine P → Engine P
  release job e =
      start_process_loop (
        check_drain (record e { running = e.running - 1; in_flight = drop_job job.id e.in_flight }))

  unfoldable pub finish : ℕ → Job → Outcome → Engine P → Option (Engine P)
  finish now job outcome e = do settled ← execute_job now job outcome e; some (release job settled)
