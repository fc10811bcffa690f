-- ===== src/Engine/Slots.antt =====
-- core/JobQueue.ts with plugins/Throttle.ts: the slots of the throttle over a retry.
use oblivinx.Base.{ℕ, ◌+◌, ◌≤◌, ◌≡◌, ◌∙◌, ap, sym, subst, String, none, some, [], ◌∷◌, true, arith}
use oblivinx.Base.Dict.{has}
use oblivinx.Job.{Job, update_job}
use oblivinx.Job.Errors.{Failure, concurrency_limit}
use oblivinx.Adapter
use oblivinx.Adapter.{MemoryAdapter}
use oblivinx.Plugins.Throttle
use oblivinx.Plugins.Throttle.{Throttle}
use oblivinx.Engine.State.{Engine}
use oblivinx.Engine.Hooks.{Hooks, run_hooks, hooked, record_first}
use oblivinx.Engine.Loop.{round, dispatch, may_run, activated}
use oblivinx.Engine.Finish.{FreshIds, threw, finish}
use oblivinx.Engine.Bounded.{IsSound, round-Round}
use oblivinx.Engine.Retries.{tries_again, round_dispatches, finish-Retried}
use oblivinx.Engine.Builtin.{Plugin, throttle, builtin}

module _ (limit_key debounce_key : Job → String) (message_of : Failure → String) where
  abbrev hooks : Hooks Plugin
  hooks = builtin limit_key debounce_key message_of

  -- A throttle with a free slot gives it to the job.
  process-slot :
      (now : ℕ) (job : Job) (t : Throttle)
      → t.active_count + 1 ≤ t.max_concurrent
      → run_hooks (hooks.on_process now job) (throttle t ∷ [])
        ≡ (throttle (record t { active_count = t.active_count + 1 }) ∷ [], [], none)
  unfolding run_hooks Throttle.on_process
  process-slot now job t free = ground arith

  -- A full throttle refuses every job.
  process-full :
      (now : ℕ) (job : Job) (t : Throttle)
      → t.active_count ≡ t.max_concurrent
      → (run_hooks (hooks.on_process now job) (throttle t ∷ [])).2
        ≡ some (concurrency_limit t.max_concurrent)
  unfolding run_hooks Throttle.on_process
  process-full now job t full = ground arith

  -- If the only plugin is a throttle with one free slot, a round starts a job, and the job then
  -- fails and is to be tried again, then as many jobs run as before the round, but the slot is not
  -- given back: right after the end of that job, the throttle refuses every job.
  pub finish-throttled :
      (fresh : FreshIds) (now later next : ℕ) (job other : Job) (a : MemoryAdapter) (err : Failure)
      (t : Throttle) (e f : Engine Plugin)
      → IsSound e
      → e.plugins ≡ throttle t ∷ []
      → t.active_count + 1 ≡ t.max_concurrent
      → may_run hooks e ≡ true
      → Adapter.pop now e.adapter ≡ some (some job, a)
      → round hooks now e ≡ some f
      → has job.type f.registry ≡ true
      → tries_again f.cfg err (activated hooks now job) ≡ true
      → (g : Engine Plugin) × (finish hooks fresh later (activated hooks now job) (threw err) f
          ≡ some g)
        × (g.running ≡ e.running)
        × ((run_hooks (hooks.on_process next other) g.plugins).2
            ≡ some (concurrency_limit t.max_concurrent))
  unfolding dispatch update_job
  finish-throttled fresh now later next job other a err t e f s plugins last runs popped ran known
        again =
      let slot = process-slot now job t (omega arith) in
      let taken : run_hooks (hooks.on_process now job) e.plugins
          ≡ (throttle (record t { active_count = t.active_count + 1 }) ∷ [], [], none) =
        ap (run_hooks (hooks.on_process now job)) plugins ∙ slot in
      let step = round_dispatches hooks now job a e runs popped (ap (λ r. r.2) taken) in
      let same : dispatch hooks now job
            (hooked (run_hooks (hooks.on_process now job) e.plugins) (record e { adapter = a }))
          ≡ f =
        cc in
      let held : f.plugins ≡ throttle (record t { active_count = t.active_count + 1 }) ∷ [] =
        sym (ap (λ (k : Engine Plugin). k.plugins) same) ∙ ap (λ r. r.0) taken in
      let counted : f.running ≡ e.running + 1 = sym (ap (λ (k : Engine Plugin). k.running) same) in
      let (f', returns', sound, progress, grown) = round-Round hooks now e s in
      let same' : f' ≡ f = cc in
      let ordered = (subst IsSound same' sound).0 in
      let (g, returns, left, waits, written, running, in_flight) =
        finish-Retried hooks fresh later err (activated hooks now job) f ordered known again in
      let kept : g.plugins ≡ throttle (record t { active_count = t.active_count + 1 }) ∷ [] =
        left ∙ ap (record_first hooks) held in
      (
        g,
        returns,
        omega (arith, running, counted),
        ap (λ ps. (run_hooks (hooks.on_process next other) ps).2) kept
            ∙ process-full next other (record t { active_count = t.active_count + 1 }) last,
      )
