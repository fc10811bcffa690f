-- ===== src/Examples/Ends.antt =====
-- core/JobQueue.ts: the end of jobs, with the built-in plugins.
use oblivinx.Base.{◌≡◌, refl, some, List, [], ◌∷◌, true, arith}
use oblivinx.Base.Dict.{lookup, erase}
use oblivinx.Job.{Job, active, update_job}
use oblivinx.Job.Errors.{Failure, plain, concurrency_limit}
use oblivinx.Adapter
use oblivinx.Adapter.{MemoryAdapter, empty_adapter}
use oblivinx.Heap.{extract_min, swap}
use oblivinx.Plugins.Throttle
use oblivinx.Plugins.Throttle.{Throttle}
use oblivinx.Engine.State.{Engine}
use oblivinx.Engine.Hooks.{run_hooks, hooked}
use oblivinx.Engine.Loop.{round, dispatch, activated}
use oblivinx.Engine.Finish.{threw, finish, retry_job}
use oblivinx.Engine.Bounded.{IsSound}
use oblivinx.Engine.Retries.{round_dispatches}
use oblivinx.Engine.Slots.{finish-throttled}
use oblivinx.Engine.Stranded.{finish-unregistered}
use oblivinx.Engine.Builtin.{Plugin, throttle, debounce}
use oblivinx.Examples.Data.{slow_job, one_waits, one_waits-IsValid}
use oblivinx.Examples.Engine.{plain_hooks, no_key, text_of, sample_engine, fresh_ids}

-- An engine with one job that waits.
abbrev waiting : List Plugin → Engine Plugin
waiting plugins = record (sample_engine plugins) {
  adapter = record { heap = one_waits; store = []; pending_index = ("slow", slow_job) ∷ [] };
  registry = ("mail", tt) ∷ [];
  processing_loop = true;
}

waiting-IsSound : (plugins : List Plugin) → IsSound (waiting plugins)
waiting-IsSound plugins = (one_waits-IsValid.order, refl, omega arith)

-- The adapter after its job is popped.
abbrev popped : MemoryAdapter
popped = record {
  heap = record { heap = []; jobs = []; insert_counter = 1 };
  store = [];
  pending_index = [];
}

pop_slow :
    (plugins : List Plugin)
    → Adapter.pop 10 (waiting plugins).adapter ≡ some (some slow_job, popped)
unfolding Adapter.pop extract_min erase lookup swap
pop_slow plugins = refl

abbrev failure : Failure
failure = plain "Error" "no connection"

abbrev slow_again : Job
slow_again = retry_job plain_hooks fresh_ids 12 0 failure slow_job

-- One slot, which is free.
abbrev one_slot : Throttle
one_slot = record { active_count = 0; max_concurrent = 1 }

-- The engine after the round that starts the job.
abbrev started : List Plugin → Engine Plugin
started plugins = dispatch plain_hooks 10 slow_job (
    hooked (run_hooks (plain_hooks.on_process 10 slow_job) plugins)
      (record (waiting plugins) { adapter = popped }))

round_throttled :
    round plain_hooks 10 (waiting (throttle one_slot ∷ []))
    ≡ some (started (throttle one_slot ∷ []))
unfolding run_hooks Throttle.on_process
round_throttled =
    round_dispatches plain_hooks 10 slow_job popped (waiting (throttle one_slot ∷ [])) refl
      (pop_slow (throttle one_slot ∷ [])) refl

finish-throttled_example :
    (g : Engine Plugin) × (finish plain_hooks fresh_ids 12
        (activated plain_hooks 10 slow_job)
        (threw failure)
        (started (throttle one_slot ∷ []))
      ≡ some g)
    × (g.running ≡ 0)
    × ((run_hooks (plain_hooks.on_process 20 slow_job) g.plugins).2 ≡ some (concurrency_limit 1))
unfolding lookup dispatch update_job
finish-throttled_example =
    finish-throttled no_key no_key text_of fresh_ids 10 12 20 slow_job slow_job popped failure
      one_slot (waiting (throttle one_slot ∷ [])) (started (throttle one_slot ∷ []))
      (waiting-IsSound (throttle one_slot ∷ [])) refl refl refl (pop_slow (throttle one_slot ∷ []))
      round_throttled refl refl

-- No handler is registered.
abbrev unregistered : Engine Plugin
unregistered = record (waiting []) { registry = [] }

abbrev unregistered_started : Engine Plugin
unregistered_started = dispatch plain_hooks 10 slow_job (
    hooked (run_hooks (plain_hooks.on_process 10 slow_job) [])
      (record unregistered { adapter = popped }))

round-unregistered : round plain_hooks 10 unregistered ≡ some unregistered_started
unfolding run_hooks
round-unregistered =
    round_dispatches plain_hooks 10 slow_job popped unregistered refl (pop_slow []) refl

finish-unregistered_example :
    (g : Engine Plugin) × (finish plain_hooks fresh_ids 12
        (activated plain_hooks 10 slow_job)
        (threw failure)
        unregistered_started
      ≡ some g)
    × (Adapter.get "slow" g.adapter ≡ some (activated plain_hooks 10 slow_job))
    × ((activated plain_hooks 10 slow_job).state ≡ active)
    × (g.running ≡ 0)
    × (g.scheduler ≡ unregistered.scheduler)
    × (g.plugins ≡ unregistered_started.plugins)
    × (g.log ≡ unregistered_started.log)
unfolding run_hooks lookup
finish-unregistered_example =
    finish-unregistered plain_hooks fresh_ids 10 12 slow_job popped (threw failure) unregistered
      unregistered_started refl (pop_slow []) refl round-unregistered refl

-- A later job of the same key has superseded the one that waits.
abbrev superseding : List Plugin
superseding =
    debounce (record { window_ms = 100; pending = []; superseded = ("slow", tt) ∷ [] }) ∷ []
