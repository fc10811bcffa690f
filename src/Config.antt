-- ===== src/Config.antt =====
-- packages/queueovn/src/config and types/queue.types.ts: the configuration of a queue, its test and
-- its defaults. The tests of `typeof` and `Array.isArray` hold by the types. The adapters and the
-- plugins are any types; `is_blank` is the test `name.trim() === ''`, which `!name` implies.
pub mod Bounds
use oblivinx.Base.{
  ℕ, Bool, true, false, String, Option, none, some, List, [], ◌∷◌, if◌then◌else◌, ltb, ◌||◌,
  default_to, not,
}
use oblivinx.Job.{JobDefaults}
use oblivinx.Job.Errors.{Failure, queue_error}

pub record WorkerConfig : Type 0 where
  pub min : ℕ
  pub max : ℕ
  pub scale_up_threshold : ℕ
  pub scale_down_threshold : ℕ
  pub scale_up_step : ℕ
  pub monitor_interval_ms : ℕ

-- `Partial<WorkerConfig>`.
pub record WorkerOptions : Type 0 where
  pub min : Option ℕ
  pub max : Option ℕ
  pub scale_up_threshold : Option ℕ
  pub scale_down_threshold : Option ℕ
  pub scale_up_step : Option ℕ
  pub monitor_interval_ms : Option ℕ

pub record PersistenceConfig : Type 0 where
  pub wal_path : String
  pub snapshot_path : String
  pub snapshot_interval_ms : ℕ
  pub enabled : Bool
  pub db_path : Option String
  pub use_native_wal : Option Bool

-- `Partial<PersistenceConfig>`.
pub record PersistenceOptions : Type 0 where
  pub wal_path : Option String
  pub snapshot_path : Option String
  pub snapshot_interval_ms : Option ℕ
  pub enabled : Option Bool
  pub db_path : Option String
  pub use_native_wal : Option Bool

pub record QueueConfig (Adapter Plugin : Type 0) : Type 0 where
  pub name : String
  pub adapter : Option Adapter
  pub workers : Option WorkerOptions
  pub persistence : Option PersistenceOptions
  pub plugins : Option (List Plugin)
  pub default_priority : Option ℕ
  pub default_max_attempts : Option ℕ
  pub default_max_duration : Option ℕ
  pub max_queue_size : Option ℕ

pub record ResolvedQueueConfig (Adapter Plugin : Type 0) : Type 0 where
  pub name : String
  pub adapter : Adapter
  pub workers : WorkerConfig
  pub persistence : PersistenceConfig
  pub plugins : List Plugin
  pub default_priority : ℕ
  pub default_max_attempts : ℕ
  pub default_max_duration : ℕ
  pub max_queue_size : Option ℕ

abbrev pub default_worker_config : WorkerConfig
default_worker_config = record {
  min = 1;
  max = 10;
  scale_up_threshold = 5;
  scale_down_threshold = 2;
  scale_up_step = 2;
  monitor_interval_ms = 1_000;
}

abbrev pub default_persistence_config : PersistenceConfig
default_persistence_config = record {
  wal_path = "./wa-queue.wal";
  snapshot_path = "./wa-queue.snapshot.json";
  snapshot_interval_ms = 60_000;
  enabled = false;
  db_path = none;
  use_native_wal = none;
}

-- `{ ...DEFAULT_WORKER_CONFIG, ...workers }`.
abbrev pub resolve_workers : Option WorkerOptions → WorkerConfig
resolve_workers none = default_worker_config
resolve_workers (some w) =
    let d = default_worker_config in
    record {
      min = default_to w.min d.min;
      max = default_to w.max d.max;
      scale_up_threshold = default_to w.scale_up_threshold d.scale_up_threshold;
      scale_down_threshold = default_to w.scale_down_threshold d.scale_down_threshold;
      scale_up_step = default_to w.scale_up_step d.scale_up_step;
      monitor_interval_ms = default_to w.monitor_interval_ms d.monitor_interval_ms;
    }

abbrev pub resolve_persistence : Option PersistenceOptions → PersistenceConfig
resolve_persistence none = default_persistence_config
resolve_persistence (some p) =
    let d = default_persistence_config in
    record {
      wal_path = default_to p.wal_path d.wal_path;
      snapshot_path = default_to p.snapshot_path d.snapshot_path;
      snapshot_interval_ms = default_to p.snapshot_interval_ms d.snapshot_interval_ms;
      enabled = default_to p.enabled d.enabled;
      db_path = p.db_path;
      use_native_wal = p.use_native_wal;
    }

-- `x !== undefined && x < bound`.
abbrev pub is_below : ℕ → Option ℕ → Bool
is_below bound none = false
is_below bound (some x) = ltb x bound

abbrev pub is_above : ℕ → Option ℕ → Bool
is_above bound none = false
is_above bound (some x) = ltb bound x

-- `min !== undefined && max !== undefined && min > max`.
abbrev pub crosses : Option ℕ → Option ℕ → Bool
crosses none max = false
crosses (some min) max = is_below min max

-- Throw if the test holds, or go on.
abbrev pub guard : Bool → String → Option Failure → Option Failure
guard true message rest = some (queue_error message)
guard false message rest = rest

unfoldable pub validate_workers : Option WorkerOptions → Option Failure → Option Failure
validate_workers none rest = rest
validate_workers (some w) rest = guard (is_below 0 w.min) "QueueConfig.workers.min must be >= 0" (
    guard (is_below 1 w.max) "QueueConfig.workers.max must be >= 1" (
      guard (crosses w.min w.max) "QueueConfig.workers.min must be <= max" (
        guard (is_below 100 w.monitor_interval_ms)
          "QueueConfig.workers.monitorIntervalMs must be >= 100ms" rest)))

unfoldable pub validate_persistence : Option PersistenceOptions → Option Failure → Option Failure
validate_persistence none rest = rest
validate_persistence (some p) rest =
    guard (is_below 1_000 p.snapshot_interval_ms)
      "QueueConfig.persistence.snapshotIntervalMs must be >= 1000ms" rest

module _ {Adapter Plugin : Type 0} where
  -- `validateConfig`: the error that it throws, if any.
  unfoldable pub validate_config : (String → Bool) → QueueConfig Adapter Plugin → Option Failure
  unfolding validate_workers validate_persistence
  validate_config is_blank c =
      guard (is_blank c.name) "QueueConfig.name must be a non-empty string" (
        guard (is_below 1 c.max_queue_size) "QueueConfig.maxQueueSize must be >= 1" (
          validate_workers c.workers (
            guard (is_below 1 c.default_max_attempts) "QueueConfig.defaultMaxAttempts must be >= 1"
              (guard (is_below 100 c.default_max_duration)
                "QueueConfig.defaultMaxDuration must be >= 100ms"
                (validate_persistence c.persistence (
                  guard (is_below 1 c.default_priority || is_above 10 c.default_priority)
                    "QueueConfig.defaultPriority must be between 1 and 10" none))))))

  -- `resolveConfig`; `fresh` is the `new MemoryAdapter()`.
  unfoldable pub resolve_config :
      Adapter → QueueConfig Adapter Plugin → ResolvedQueueConfig Adapter Plugin
  resolve_config fresh c = record {
    name = c.name;
    adapter = default_to c.adapter fresh;
    workers = resolve_workers c.workers;
    persistence = resolve_persistence c.persistence;
    plugins = default_to c.plugins [];
    default_priority = default_to c.default_priority 5;
    default_max_attempts = default_to c.default_max_attempts 3;
    default_max_duration = default_to c.default_max_duration 30_000;
    max_queue_size = c.max_queue_size;
  }
