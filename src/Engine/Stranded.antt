-- ===== src/Engine/Stranded.antt =====
-- core/JobQueue.ts: jobs that the engine loses sight of.
use oblivinx.Base.{
  if-false, ℕ, ◌-◌, ◌≡◌, refl, ◌∙◌, ap, sym, none, some, [], ◌∷◌, ◌++◌, true, false, arith,
}
use oblivinx.Base.Dict.{has}
use oblivinx.Job.{Job, active, update_job}
use oblivinx.Job.Errors.{unknown_job_type}
use oblivinx.Adapter
use oblivinx.Adapter.{MemoryAdapter, empty_adapter}
use oblivinx.Adapter.Laws.{get-update_self}
use oblivinx.Engine.State
use oblivinx.Engine.State.{
  Engine, check_drain, resolve_drain, is_drained, size, begin_shutdown, end_shutdown,
}
use oblivinx.Engine.Hooks.{Hooks, run_hooks, hooked}
use oblivinx.Engine.Loop.{round, dispatch, may_run, activated}
use oblivinx.Engine.Finish.{FreshIds, Outcome, execute_job, finish, drop_job}
use oblivinx.Engine.Keeps.{bind-some}
use oblivinx.Engine.Retries.{check_drain_parts, round_dispatches}

module _ {P : Type 0} (hooks : Hooks P) where
  -- When a round starts a job whose type has no handler, the job's end returns and counts it as no
  -- longer running, but the adapter keeps the job as active; it is not scheduled, no plugin hook
  -- runs, and nothing is logged, whatever the outcome would have been.
  pub finish-unregistered :
      (fresh : FreshIds) (now later : ℕ) (job : Job) (a : MemoryAdapter) (outcome : Outcome)
      (e f : Engine P)
      → may_run hooks e ≡ true
      → Adapter.pop now e.adapter ≡ some (some job, a)
      → (run_hooks (hooks.on_process now job) e.plugins).2 ≡ none
      → round hooks now e ≡ some f
      → has job.type e.registry ≡ false
      → (g : Engine P) × (finish hooks fresh later (activated hooks now job) outcome f ≡ some g)
        × (Adapter.get job.id g.adapter ≡ some (activated hooks now job))
        × ((activated hooks now job).state ≡ active)
        × (g.running ≡ e.running)
        × (g.scheduler ≡ e.scheduler)
        × (g.plugins ≡ f.plugins)
        × (g.log ≡ f.log)
  unfolding finish execute_job dispatch update_job
  finish-unregistered fresh now later job a outcome e f runs popped passed ran unknown =
      let started =
        hooked (run_hooks (hooks.on_process now job) e.plugins) (record e { adapter = a }) in
      let step = round_dispatches hooks now job a e runs popped passed in
      let same : dispatch hooks now job started ≡ f = cc in
      let missing : has (activated hooks now job).type f.registry ≡ false =
        ap (λ (k : Engine P). has job.type k.registry) (sym same) ∙ unknown in
      let g : Engine P = record f {
        events = f.events ++ State.error (unknown_job_type job.type) ∷ [];
        running = f.running - 1;
        in_flight = drop_job hooks fresh job.id f.in_flight;
      } in
      let parts = check_drain_parts g in
      (
        _,
        bind-some _ (if-false _ _ missing),
        ap (λ (k : Engine P). Adapter.get job.id k.adapter) parts
            ∙ ap (λ (k : Engine P). Adapter.get job.id k.adapter) (sym same)
            ∙ get-update_self (activated hooks now job) a,
        refl,
        omega
            (arith, ap (λ (k : Engine P). k.running) parts, ap (λ (k : Engine P). k.running) same),
        ap (λ (k : Engine P). k.scheduler) parts ∙ ap (λ (k : Engine P). k.scheduler) (sym same),
        ap (λ (k : Engine P). k.plugins) parts,
        ap (λ (k : Engine P). k.log) parts,
      )
