-- ===== src/Engine/Total.antt =====
-- core/JobQueue.ts: every handler returns, and what it leaves of the engine's counters.
use oblivinx.Base.{
  ℕ, ◌+◌, refl, ◌∙◌, String, Option, none, some, List, [], ◌∷◌, Bool-cases, inl, inr, ltb, ◌&&◌,
  default_to,
}
use oblivinx.Base.Dict.{has}
use oblivinx.Base.Value.{Value}
use oblivinx.Job.{Job, JobResult, RetryPolicy}
use oblivinx.Job.Errors.{Failure}
use oblivinx.Adapter.Total.{IsOrdered, update-IsOrdered, remove-IsOrdered}
use oblivinx.Flow
use oblivinx.Flow.{FlowController, on_job_complete}
use oblivinx.Flow.Cancel.Ends.{on_job_fail_returns}
use oblivinx.Engine.State
use oblivinx.Engine.State.{Engine, emit, size, start_process_loop, log_line}
use oblivinx.Engine.Hooks.{Hooks}
use oblivinx.Engine.Finish.{
  FreshIds, apply_effects, remove_all, success_hooked, on_success, on_failure, retry, fail_for_good,
  failure_hooked, done_job, retry_job, failed_job, settle, execute_job, Outcome, returned, threw,
}
use oblivinx.Engine.Keeps.{
  bind-some, Grows-not, Grows-if, Grows-twice, Keeps, Keeps-trans, Keeps-log, ReturnsKept,
  with_adapter-Keeps, push-Keeps,
}

module _ {P : Type 0} where
  pub apply_effects-Keeps :
      (hooks : Hooks P) (fresh : FreshIds) (now : ℕ) (effects : List Flow.Effect) (e f : Engine P)
      → Keeps e f
      → ReturnsKept e (apply_effects hooks fresh now effects f)
  unfolding apply_effects
  apply_effects-Keeps hooks fresh now [] e f h = (f, refl, h)
  apply_effects-Keeps hooks fresh now (Flow.logged op id d ∷ effects) e f h =
      apply_effects-Keeps hooks fresh now effects e (log_line now op id d f)
        (Keeps-log e f _ h (Grows-if f.cfg.has_wal f.log _))
  apply_effects-Keeps hooks fresh now (Flow.pushed job ∷ effects) e f h =
      let (a, returns, kept) = push-Keeps job f h.0 in
      let next : Engine P = record f { adapter = a } in
      let (g, later, all) =
        apply_effects-Keeps hooks fresh now effects e next (Keeps-trans e f next h kept) in
      (g, bind-some _ returns ∙ later, all)
  apply_effects-Keeps hooks fresh now (Flow.woken ∷ effects) e f h =
      apply_effects-Keeps hooks fresh now effects e _ h

  pub remove_all-Keeps :
      (hooks : Hooks P) (fresh : FreshIds) (ids : List String) (e f : Engine P)
      → Keeps e f
      → ReturnsKept e (remove_all hooks fresh ids f)
  unfolding remove_all
  remove_all-Keeps hooks fresh [] e f h = (f, refl, h)
  remove_all-Keeps hooks fresh (id ∷ ids) e f h =
      let (a, returns, ordered) = remove-IsOrdered id f.adapter h.0 in
      let next : Engine P = record f { adapter = a } in
      let kept = Keeps-trans e f next h (with_adapter-Keeps f a ordered) in
      let (g, later, all) = remove_all-Keeps hooks fresh ids e next kept in
      (g, bind-some _ returns ∙ later, all)

  module _ (hooks : Hooks P) (fresh : FreshIds) where
    success_hooked-Keeps :
        (now : ℕ) (job : Job) (result : JobResult) (o : Option Failure) (e f : Engine P)
        → Keeps e f
        → ReturnsKept e (success_hooked hooks fresh now job result o f)
    success_hooked-Keeps now job result (some err) e f h = (_, refl, h)
    success_hooked-Keeps now job result none e f h =
        let (flow, effects) = on_job_complete fresh.of_node fresh.next_id now job f.flow in
        let (g, returns, kept) =
          apply_effects-Keeps hooks fresh now effects e (record f { flow = flow }) h in
        (emit (State.completed job result) g, bind-some _ returns, kept)

    on_success-Keeps :
        (now : ℕ) (job : Job) (value : Value) (e : Engine P)
        → IsOrdered e.adapter
        → ReturnsKept e (on_success hooks fresh now job value e)
    unfolding on_success
    on_success-Keeps now job value e h = success_hooked-Keeps now _ _ _ e _ (
      update-IsOrdered (done_job hooks fresh now job) e.adapter h,
      refl,
      refl,
      refl,
      refl,
      refl,
      Grows-twice e.cfg.has_wal e.log _ _,
    )

    retry-Keeps :
        (now delay : ℕ) (err : Failure) (job : Job) (e : Engine P)
        → IsOrdered e.adapter
        → ReturnsKept e (retry hooks fresh now delay err job e)
    unfolding retry
    retry-Keeps now delay err job e h =
        let (a, returns, kept) = push-Keeps (retry_job hooks fresh now delay err job) e h in
        elim (Bool-cases (ltb 0 delay)) [
          | inl later ↦
              rw later (_, refl, (h, refl, refl, refl, refl, refl, Grows-if e.cfg.has_wal e.log _))
          | inr at_once ↦ rw at_once (
            _,
            bind-some _ returns,
            Keeps-log e (record e { adapter = a }) _ kept (Grows-if e.cfg.has_wal e.log _),
          )
        ]

    failure_hooked-Keeps :
        (now : ℕ) (job : Job) (err : Failure) (o : Option Failure) (e f : Engine P)
        → Keeps e f
        → ReturnsKept e (failure_hooked hooks fresh now job err o f)
    failure_hooked-Keeps now job err (some thrown) e f h = (_, refl, h)
    failure_hooked-Keeps now job err none e f h =
        let ((flow, effects, removed), ended) = on_job_fail_returns job f.flow in
        let (g, applied, kept) =
          apply_effects-Keeps hooks fresh now effects e (record f { flow = flow }) h in
        let (k, cancelled, all) = remove_all-Keeps hooks fresh removed e g kept in
        (_, bind-some _ ended ∙ bind-some _ applied ∙ bind-some _ cancelled, all)

    fail_for_good-Keeps :
        (now : ℕ) (err : Failure) (job : Job) (e : Engine P)
        → IsOrdered e.adapter
        → ReturnsKept e (fail_for_good hooks fresh now err job e)
    unfolding fail_for_good
    fail_for_good-Keeps now err job e h = failure_hooked-Keeps now _ err _ e _ (
      update-IsOrdered (failed_job hooks fresh now err job) e.adapter h,
      refl,
      refl,
      refl,
      refl,
      refl,
      Grows-twice e.cfg.has_wal e.log _ _,
    )

    on_failure-Keeps :
        (now : ℕ) (err : Failure) (job : Job) (e : Engine P)
        → IsOrdered e.adapter
        → ReturnsKept e (on_failure hooks fresh now err job e)
    unfolding on_failure
    on_failure-Keeps now err job e h =
        let policy : RetryPolicy = default_to job.retry_policy e.cfg.default_retry in
        elim (Bool-cases
          (ltb (job.attempts + 1) job.max_attempts && policy.should_retry (job.attempts + 1) err)) [
            | inl again ↦
                rw again (retry-Keeps now (policy.next_delay (job.attempts + 1) err) err job e h)
            | inr over ↦ rw over (fail_for_good-Keeps now err job e h)
          ]

    settle-Keeps :
        (now : ℕ) (job : Job) (outcome : Outcome) (e : Engine P)
        → IsOrdered e.adapter
        → ReturnsKept e (settle hooks fresh now job outcome e)
    settle-Keeps now job (returned value) e h = on_success-Keeps now job value e h
    settle-Keeps now job (threw err) e h = on_failure-Keeps now err job e h

    pub execute_job-Keeps :
        (now : ℕ) (job : Job) (outcome : Outcome) (e : Engine P)
        → IsOrdered e.adapter
        → ReturnsKept e (execute_job hooks fresh now job outcome e)
    unfolding execute_job
    execute_job-Keeps now job outcome e h = elim (Bool-cases (has job.type e.registry)) [
      | inl known ↦ rw known (settle-Keeps now job outcome e h)
      | inr unknown ↦ rw unknown (_, refl, (h, refl, refl, refl, refl, refl, Grows-not e.log))
    ]
