-- ===== src/Engine/Builtin.antt =====
-- core/JobQueue.ts with the plugins of packages/queueovn/src/plugins: the hooks of the built-in
-- plugins. The key functions of the rate limiter and of the debounce, and the text of an error, are
-- parameters; the queue itself stands over the memory adapter, which has no store for dead letters.
use oblivinx.Base.{ℕ, Bool, true, false, Option, none, List, [], ◌∷◌, String}
use oblivinx.Job.{Job, JobResult}
use oblivinx.Job.Errors.{Failure, error_name}
use oblivinx.Wal.Truncated.{Record}
use oblivinx.Plugins.DeadLetterQueue
use oblivinx.Plugins.DeadLetterQueue.{
  DeadLetterQueue, ErrorInfo, logged, store_added, store_removed, enqueued,
}
use oblivinx.Plugins.Debounce
use oblivinx.Plugins.Debounce.{Debounce}
use oblivinx.Plugins.Deduplicator
use oblivinx.Plugins.Deduplicator.{Deduplicator}
use oblivinx.Plugins.JobTtl
use oblivinx.Plugins.JobTtl.{JobTtl}
use oblivinx.Plugins.Metrics
use oblivinx.Plugins.Metrics.{Metrics}
use oblivinx.Plugins.RateLimiter
use oblivinx.Plugins.RateLimiter.{RateLimiter}
use oblivinx.Plugins.Throttle
use oblivinx.Plugins.Throttle.{Throttle}
use oblivinx.Engine.Hooks.{Hooks, Hooked}

pub data Plugin : Type 0 where
  throttle : Throttle → Plugin
  rate_limiter : RateLimiter → Plugin
  deduplicator : Deduplicator → Plugin
  debounce : Debounce → Plugin
  metrics : Metrics → Plugin
  dead_letters : DeadLetterQueue → Plugin
  job_ttl : JobTtl → Plugin

-- A hook that does nothing beside the plugin's own state, and a hook that may throw.
abbrev pub now_is : Plugin → Hooked Plugin
now_is p = record { plugin = p; writes = []; error = none }

abbrev pub now_or {ℓ} : {A : Type ℓ} → (A → Plugin) → A × Option Failure → Hooked Plugin
now_or wrap (a, result) = record { plugin = wrap a; writes = []; error = result }

-- The log's part of what the dead letter queue does.
abbrev pub writes_of : ℕ → List DeadLetterQueue.Effect → List Record
writes_of now [] = []
writes_of now (logged op id d ∷ effects) =
    record { now = now; op = op; job_id = id; data_of = d } ∷ writes_of now effects
writes_of now (store_added id e ∷ effects) = writes_of now effects
writes_of now (store_removed id ∷ effects) = writes_of now effects
writes_of now (enqueued job ∷ effects) = writes_of now effects

abbrev pub now_writes : ℕ → DeadLetterQueue × List DeadLetterQueue.Effect → Hooked Plugin
now_writes now (q, effects) = record {
  plugin = dead_letters q;
  writes = writes_of now effects;
  error = none;
}

abbrev pub error_info : (Failure → String) → Failure → ErrorInfo
error_info message_of err = record { name = error_name err; message = message_of err }

module _ (limit_key debounce_key : Job → String) (message_of : Failure → String) where
  abbrev pub plugin_on_enqueue : ℕ → Job → Plugin → Hooked Plugin
  plugin_on_enqueue now job (rate_limiter r) =
      now_or rate_limiter (RateLimiter.on_enqueue limit_key now job r)
  plugin_on_enqueue now job (deduplicator d) = now_or deduplicator (Deduplicator.on_enqueue job d)
  plugin_on_enqueue now job (debounce d) =
      now_is (debounce (Debounce.on_enqueue debounce_key now job d))
  plugin_on_enqueue now job (job_ttl t) = now_is (job_ttl (JobTtl.on_enqueue now job t))
  plugin_on_enqueue now job p = now_is p

  abbrev pub plugin_on_process : ℕ → Job → Plugin → Hooked Plugin
  plugin_on_process now job (throttle t) = now_or throttle (Throttle.on_process job t)
  plugin_on_process now job (debounce d) = now_or debounce (Debounce.on_process job d)
  plugin_on_process now job (metrics m) = now_is (metrics (Metrics.on_process now job m))
  plugin_on_process now job p = now_is p

  abbrev pub plugin_on_complete : ℕ → Job → JobResult → Plugin → Hooked Plugin
  plugin_on_complete now job result (throttle t) = now_is (throttle (Throttle.on_complete job t))
  plugin_on_complete now job result (rate_limiter r) = now_is (rate_limiter r)
  plugin_on_complete now job result (deduplicator d) =
      now_is (deduplicator (Deduplicator.on_done job d))
  plugin_on_complete now job result (debounce d) =
      now_is (debounce (Debounce.cleanup debounce_key job d))
  plugin_on_complete now job result (metrics m) = now_is (metrics (Metrics.on_complete now job m))
  plugin_on_complete now job result (dead_letters q) =
      now_writes now (DeadLetterQueue.on_complete job q)
  plugin_on_complete now job result (job_ttl t) = now_is (job_ttl (JobTtl.cancel job.id t))

  abbrev pub plugin_on_fail : ℕ → Job → Failure → Plugin → Hooked Plugin
  plugin_on_fail now job err (throttle t) = now_is (throttle (Throttle.on_fail job err t))
  plugin_on_fail now job err (rate_limiter r) = now_is (rate_limiter r)
  plugin_on_fail now job err (deduplicator d) = now_is (deduplicator (Deduplicator.on_done job d))
  plugin_on_fail now job err (debounce d) = now_is (debounce (Debounce.cleanup debounce_key job d))
  plugin_on_fail now job err (metrics m) = now_is (metrics (Metrics.on_fail job err m))
  plugin_on_fail now job err (dead_letters q) =
      now_writes now (DeadLetterQueue.on_fail now job (error_info message_of err) q)
  plugin_on_fail now job err (job_ttl t) = now_is (job_ttl (JobTtl.cancel job.id t))

  abbrev pub plugin_on_expire : ℕ → Job → Plugin → Hooked Plugin
  plugin_on_expire now job (deduplicator d) = now_is (deduplicator (Deduplicator.on_done job d))
  plugin_on_expire now job (debounce d) = now_is (debounce (Debounce.cleanup debounce_key job d))
  plugin_on_expire now job (metrics m) = now_is (metrics (Metrics.on_expire job m))
  plugin_on_expire now job p = now_is p

  abbrev pub is_metrics : Plugin → Bool
  is_metrics (metrics m) = true
  is_metrics p = false

  abbrev pub plugin_record_retry : Plugin → Plugin
  plugin_record_retry (metrics m) = metrics (Metrics.record_retry m)
  plugin_record_retry p = p

  abbrev pub builtin : Hooks Plugin
  builtin = record {
    on_enqueue = plugin_on_enqueue;
    on_process = plugin_on_process;
    on_complete = plugin_on_complete;
    on_fail = plugin_on_fail;
    on_expire = plugin_on_expire;
    is_metrics = is_metrics;
    record_retry = plugin_record_retry;
    message_of = message_of;
  }
