-- ===== src/Config/Bounds.antt =====
-- config/validateConfig.ts beside config/QueueConfig.ts.
use oblivinx.Base.{
  ℕ, ◌≤◌, ◌<◌, ◌≡◌, refl, Bool, true, false, String, Option, none, some, arith, default_to, ◌||◌,
}
use oblivinx.Job.Errors.{Failure}
use oblivinx.Config.{
  WorkerOptions, PersistenceOptions, QueueConfig, ResolvedQueueConfig, validate_config,
  resolve_config, validate_workers, validate_persistence, guard, is_below, is_above,
  resolve_workers, resolve_persistence,
}

guard-none :
    (b : Bool) (message : String) (rest : Option Failure)
    → guard b message rest ≡ none
    → (b ≡ false) × (rest ≡ none)
guard-none true message rest h = absurd (cc)
guard-none false message rest h = (refl, h)

above_bound :
    (bound d : ℕ) (o : Option ℕ) → bound ≤ d → is_below bound o ≡ false → bound ≤ default_to o d
above_bound bound d none h k = h
above_bound bound d (some x) h k = ground arith

below_bound :
    (bound d : ℕ) (o : Option ℕ) → d ≤ bound → is_above bound o ≡ false → default_to o d ≤ bound
below_bound bound d none h k = h
below_bound bound d (some x) h k = ground arith

validate_workers-none :
    (o : Option WorkerOptions) (rest : Option Failure)
    → validate_workers o rest ≡ none
    → (1 ≤ (resolve_workers o).max)
      × (100 ≤ (resolve_workers o).monitor_interval_ms)
      × (rest ≡ none)
unfolding validate_workers
validate_workers-none none rest h = (omega arith, omega arith, h)
validate_workers-none (some w) rest h =
    let a = guard-none _ _ _ h in
    let b = guard-none _ _ _ a.1 in
    let c = guard-none _ _ _ b.1 in
    let d = guard-none _ _ _ c.1 in
    (
      above_bound 1 10 w.max (omega arith) b.0,
      above_bound 100 1_000 w.monitor_interval_ms (omega arith) d.0,
      d.1,
    )

validate_persistence-none :
    (o : Option PersistenceOptions) (rest : Option Failure)
    → validate_persistence o rest ≡ none
    → (1_000 ≤ (resolve_persistence o).snapshot_interval_ms) × (rest ≡ none)
unfolding validate_persistence
validate_persistence-none none rest h = (omega arith, h)
validate_persistence-none (some p) rest h =
    let a = guard-none _ _ _ h in
    (above_bound 1_000 60_000 p.snapshot_interval_ms (omega arith) a.0, a.1)

or-false : (a b : Bool) → a || b ≡ false → (a ≡ false) × (b ≡ false)
or-false true b h = absurd (cc)
or-false false b h = (refl, h)

module _ {Adapter Plugin : Type 0} (is_blank : String → Bool) (fresh : Adapter) where
  -- What holds of a resolved configuration.
  pub record IsBounded (r : ResolvedQueueConfig Adapter Plugin) : Type 0 where
    pub named : is_blank r.name ≡ false
    pub workers : 1 ≤ r.workers.max
    pub monitor : 100 ≤ r.workers.monitor_interval_ms
    pub snapshots : 1_000 ≤ r.persistence.snapshot_interval_ms
    pub attempts : 1 ≤ r.default_max_attempts
    pub duration : 100 ≤ r.default_max_duration
    pub priority : (1 ≤ r.default_priority) × (r.default_priority ≤ 10)

  -- If `validateConfig` throws nothing, then the resolved configuration has a name that is not
  -- blank, at least one worker at most, a monitor interval of at least 100 ms, a snapshot interval
  -- of at least 1000 ms, at least one attempt and 100 ms for a job, and a default priority from 1
  -- to 10.
  pub resolve_config-IsBounded :
      (c : QueueConfig Adapter Plugin)
      → validate_config is_blank c ≡ none
      → IsBounded (resolve_config fresh c)
  unfolding validate_config resolve_config
  resolve_config-IsBounded c h =
      let name = guard-none _ _ _ h in
      let size = guard-none _ _ _ name.1 in
      let workers = validate_workers-none c.workers _ size.1 in
      let attempts = guard-none _ _ _ workers.2 in
      let duration = guard-none _ _ _ attempts.1 in
      let persistence = validate_persistence-none c.persistence _ duration.1 in
      let priority = or-false _ _ (guard-none _ _ _ persistence.1).0 in
      record {
        named = name.0;
        workers = workers.0;
        monitor = workers.1;
        snapshots = persistence.0;
        attempts = above_bound 1 3 c.default_max_attempts (omega arith) attempts.0;
        duration = above_bound 100 30_000 c.default_max_duration (omega arith) duration.0;
        priority = (
          above_bound 1 5 c.default_priority (omega arith) priority.0,
          below_bound 10 5 c.default_priority (omega arith) priority.1,
        );
      }

abbrev pub no_workers : WorkerOptions
no_workers = record {
  min = none;
  max = none;
  scale_up_threshold = none;
  scale_down_threshold = none;
  scale_up_step = none;
  monitor_interval_ms = none;
}

-- Worker options that give only a minimum above 10 pass the test, and resolve to a minimum above
-- the maximum.
pub resolve_workers-crosses :
    (n : ℕ)
    → 10 < n
    → (validate_workers (some (record no_workers { min = some n })) none ≡ none)
      × ((resolve_workers (some (record no_workers { min = some n }))).max
          < (resolve_workers (some (record no_workers { min = some n }))).min)
unfolding validate_workers
resolve_workers-crosses n h = (ground arith, h)
