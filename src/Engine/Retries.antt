-- ===== src/Engine/Retries.antt =====
-- core/JobQueue.ts, `onFailure`: what the end of a job leaves when it is tried again.
use oblivinx.Base.{
  if-true, if-false, ℕ, ◌+◌, ◌-◌, ◌≡◌, refl, ◌∙◌, ap, sym, subst, none, some, [], ◌∷◌, ◌++◌, Bool,
  true, false, Bool-cases, inl, inr, ◌⊎◌, if◌then◌else◌, ltb, ◌&&◌, default_to, eq_refl,
}
use oblivinx.Base.Dict.{has, lookup, lookup-insert}
use oblivinx.Job.{Job, RetryPolicy, update_job}
use oblivinx.Job.Errors.{Failure}
use oblivinx.Adapter
use oblivinx.Adapter.{MemoryAdapter}
use oblivinx.Adapter.Total.{IsOrdered, push-index}
use oblivinx.Wal.{WalOperation, nothing}
use oblivinx.Engine.State.{Engine, EngineConfig, check_drain, resolve_drain, is_drained}
use oblivinx.Engine.Hooks.{Hooks, run_hooks, hooked, record_first}
use oblivinx.Engine.Loop.{round, round_hooked, dispatch, may_run}
use oblivinx.Engine.Finish.{
  FreshIds, threw, on_failure, retry, retry_job, execute_job, release, drop_job, finish,
}
use oblivinx.Engine.Keeps.{bind-some}

-- The policy that `onFailure` asks.
abbrev pub policy_of : EngineConfig → Job → RetryPolicy
policy_of cfg job = default_to job.retry_policy cfg.default_retry

-- The test of `onFailure`.
abbrev pub tries_again : EngineConfig → Failure → Job → Bool
tries_again cfg err job =
    ltb (job.attempts + 1) job.max_attempts
    && (policy_of cfg job).should_retry (job.attempts + 1) err

module _ {P : Type 0} where
  resolve_drain_parts :
      (b : Bool) (e : Engine P)
      → resolve_drain b e ≡ record e {
        drain_resolvers = (resolve_drain b e).drain_resolvers;
        events = (resolve_drain b e).events;
      }
  resolve_drain_parts true e = refl
  resolve_drain_parts false e = refl

  -- `checkDrain` changes what waits for it, and the events.
  pub check_drain_parts :
      (e : Engine P)
      → check_drain e ≡ record e {
        drain_resolvers = (check_drain e).drain_resolvers;
        events = (check_drain e).events;
      }
  unfolding check_drain
  check_drain_parts e = resolve_drain_parts (is_drained e) e

module _ {P : Type 0} (hooks : Hooks P) where
  -- A round that pops a job which every hook lets through.
  pub round_dispatches :
      (now : ℕ) (job : Job) (a : MemoryAdapter) (e : Engine P)
      → may_run hooks e ≡ true
      → Adapter.pop now e.adapter ≡ some (some job, a)
      → (run_hooks (hooks.on_process now job) e.plugins).2 ≡ none
      → round hooks now e
        ≡ some (
            dispatch hooks now job
              (hooked (run_hooks (hooks.on_process now job) e.plugins) (record e { adapter = a })))
  unfolding round
  round_dispatches now job a e runs popped passed =
      if-true _ _ runs
      ∙ bind-some _ popped
      ∙ ap
          (λ o.
            round_hooked hooks now job o
              (hooked (run_hooks (hooks.on_process now job) e.plugins) (record e { adapter = a })))
          passed

  -- The job waits for its next attempt: in the scheduler, or in the adapter.
  abbrev pub WaitsAgain : Job → Engine P → Type 0
  WaitsAgain job e =
      ((timer_id : ℕ) × (lookup job.id e.scheduler.entries
          ≡ some (record { job = job; run_at = job.run_at; timer_id = timer_id })))
      ⊎ (lookup job.id e.adapter.pending_index ≡ some job)

  -- What an attempt that is followed by another leaves of the engine.
  pub record Retried (fresh : FreshIds) (now : ℕ) (err : Failure) (job again : Job) (e f : Engine P)
      : Type 0 where
    pub plugins : f.plugins ≡ record_first hooks e.plugins
    pub waits : WaitsAgain again f
    pub written : f.log ≡ (
        if e.cfg.has_wal
        then e.log
          ++ record { now = now; op = WalOperation.retry; job_id = job.id; data_of = nothing } ∷ []
        else e.log)
    pub running : f.running ≡ e.running
    pub in_flight : f.in_flight ≡ e.in_flight

  module _ (fresh : FreshIds) (now : ℕ) (err : Failure) (job : Job) (e : Engine P) where
    pub retry-Retried :
        (delay : ℕ)
        → IsOrdered e.adapter
        → (f : Engine P) × (retry hooks fresh now delay err job e ≡ some f)
          × Retried fresh now err job (retry_job hooks fresh now delay err job) e f
    unfolding retry update_job
    retry-Retried delay h =
        let again = retry_job hooks fresh now delay err job in
        let (a, returns, known) = push-index again e.adapter h in
        elim (Bool-cases (ltb 0 delay)) [
          | inl later ↦ (
            _,
            if-true _ _ later,
            record {
              plugins = refl;
              waits =
                  inl (_, lookup-insert _ _ _ e.scheduler.entries ∙ if-true _ _ (eq_refl job.id));
              written = refl;
              running = refl;
              in_flight = refl;
            },
          )
          | inr at_once ↦ (
            _,
            if-false _ _ at_once ∙ bind-some _ returns,
            record {
              plugins = refl;
              waits = inr known;
              written = refl;
              running = refl;
              in_flight = refl;
            },
          )
        ]

    -- `executeJob` of a registered job that threw and has attempts left.
    pub execute_job-Retried :
        IsOrdered e.adapter
        → has job.type e.registry ≡ true
        → tries_again e.cfg err job ≡ true
        → (f : Engine P) × (execute_job hooks fresh now job (threw err) e ≡ some f)
          × Retried fresh now err job
              (retry_job hooks fresh now
                ((policy_of e.cfg job).next_delay (job.attempts + 1) err)
                err
                job)
              e
              f
    unfolding execute_job on_failure
    execute_job-Retried h known again =
        let (f, returns, left) =
          retry-Retried ((policy_of e.cfg job).next_delay (job.attempts + 1) err) h in
        (f, if-true _ _ known ∙ if-true _ _ again ∙ returns, left)

    -- When the handler of a registered job throws, attempts are left and the policy agrees, the
    -- job's end returns: the job waits again, in the scheduler or in the adapter, with one more
    -- attempt and a time that the policy gives; a RETRY is logged if there is a log; the counter
    -- goes down by one and the job is not in flight; and of the plugins only the counter of
    -- retries of the first metrics plugin changes.
    pub finish-Retried :
        IsOrdered e.adapter
        → has job.type e.registry ≡ true
        → tries_again e.cfg err job ≡ true
        → (f : Engine P) × (finish hooks fresh now job (threw err) e ≡ some f)
          × (f.plugins ≡ record_first hooks e.plugins)
          × WaitsAgain
              (retry_job hooks fresh now
                ((policy_of e.cfg job).next_delay (job.attempts + 1) err)
                err
                job)
              f
          × (f.log ≡ (
              if e.cfg.has_wal
              then e.log
                ++ record { now = now; op = WalOperation.retry; job_id = job.id; data_of = nothing }
                  ∷ []
              else e.log))
          × (f.running ≡ e.running - 1)
          × (f.in_flight ≡ drop_job hooks fresh job.id e.in_flight)
    unfolding finish
    finish-Retried h known again =
        let (f, returns, left) = execute_job-Retried h known again in
        let g : Engine P = record f {
          running = f.running - 1;
          in_flight = drop_job hooks fresh job.id f.in_flight;
        } in
        let parts = check_drain_parts g in
        (
          release hooks fresh job f,
          bind-some _ returns,
          ap (λ (k : Engine P). k.plugins) parts ∙ left.plugins,
          subst
              (WaitsAgain (
                retry_job hooks fresh now ((policy_of e.cfg job).next_delay (job.attempts + 1) err)
                  err job))
              (sym parts) left.waits,
          ap (λ (k : Engine P). k.log) parts ∙ left.written,
          ap (λ (k : Engine P). k.running) parts ∙ ap (λ n. n - 1) left.running,
          ap (λ (k : Engine P). k.in_flight) parts
              ∙ ap (drop_job hooks fresh job.id) left.in_flight,
        )
