-- ===== src/Engine/State.antt =====
-- core/JobQueue.ts: the fields of the engine, and what its handlers emit and log. The log is the list
-- of the calls of `append`, of which `Recovery.Crash` makes the lines of a file; a promise of `drain` that waits is counted.
use oblivinx.Base.{
  ℕ, ◌+◌, Bool, true, false, String, Option, none, some, List, [], ◌∷◌, ◌++◌, if◌then◌else◌, ◌||◌,
  ◌&&◌, str_eq, ◌==◌, ltb,
}
use oblivinx.Base.Dict.{Dict}
use oblivinx.Job.{Job, JobDefaults, JobResult, RetryPolicy}
use oblivinx.Job.Errors.{Failure}
use oblivinx.Adapter
use oblivinx.Adapter.{MemoryAdapter}
use oblivinx.Flow.{FlowController}
use oblivinx.Scheduler
use oblivinx.Scheduler.{Scheduler}
use oblivinx.Wal.{WalOperation, WalData}
use oblivinx.Wal.Truncated.{Record}

pub data Event : Type 0 where
  enqueued active expired : Job → Event
  completed : Job → JobResult → Event
  failed dead_letter : Job → Failure → Event
  retrying : Job → ℕ → Event
  error : Failure → Event
  drained : ℕ → Event

-- The part of the configuration that the handlers read.
pub record EngineConfig : Type 0 where
  pub max_workers : ℕ
  pub has_wal : Bool
  pub defaults : JobDefaults
  pub max_queue_size : Option ℕ
  pub default_retry : RetryPolicy

pub record Engine (P : Type 0) : Type 0 where
  pub cfg : EngineConfig
  pub registry : Dict (Unit {0})
  pub adapter : MemoryAdapter
  pub scheduler : Scheduler (Unit {0})
  pub flow : FlowController
  pub plugins : List P
  pub running : ℕ
  pub processing_loop : Bool
  pub in_flight : List Job
  pub is_closed : Bool
  pub is_paused : Bool
  pub drain_resolvers : ℕ
  pub log : List Record
  pub events : List Event

module _ {P : Type 0} where
  abbrev pub new_engine : EngineConfig → List P → Engine P
  new_engine cfg plugins = record {
    cfg = cfg;
    registry = [];
    adapter = Adapter.empty_adapter;
    scheduler = Scheduler.on_ready tt Scheduler.new_scheduler;
    flow = record {
      has_wal = cfg.has_wal;
      dag_nodes = [];
      node_to_job = [];
      job_to_node = [];
      chain_map = [];
    };
    plugins = plugins;
    running = 0;
    processing_loop = false;
    in_flight = [];
    is_closed = false;
    is_paused = false;
    drain_resolvers = 0;
    log = [];
    events = [];
  }

  abbrev pub emit : Event → Engine P → Engine P
  emit event e = record e { events = e.events ++ event ∷ [] }

  -- `if (this.cfg.persistence.enabled && this.wal) this.wal.append(...)`.
  abbrev pub log_line : ℕ → WalOperation → String → WalData → Engine P → Engine P
  log_line now op id data_of e =
      let line : Record = record { now = now; op = op; job_id = id; data_of = data_of } in
      record e { log = if e.cfg.has_wal then e.log ++ line ∷ [] else e.log }

  -- `startProcessLoop`.
  abbrev pub start_process_loop : Engine P → Engine P
  start_process_loop e = record e {
    processing_loop =
        if e.processing_loop || e.is_closed || e.is_paused then e.processing_loop else true;
  }

  abbrev pub pause : Engine P → Engine P
  pause e = record e { is_paused = true }

  abbrev pub resume : Engine P → Engine P
  resume e = start_process_loop (record e { is_paused = false })

  abbrev pub size : Engine P → ℕ
  size e = Adapter.size e.adapter

  abbrev pub clear : Engine P → Engine P
  clear e = record e { adapter = Adapter.clear e.adapter }

  abbrev pub register : String → Engine P → Engine P
  register type e = record e { registry = oblivinx.Base.Dict.insert type tt e.registry }

  -- `drain`: it resolves at once, or waits. `drained` stands for the promises that are resolved.
  abbrev pub drain : Engine P → Engine P
  drain e =
      if Adapter.size e.adapter == 0 && e.running == 0
      then emit (drained 1) e
      else record e { drain_resolvers = e.drain_resolvers + 1 }

  -- Nothing runs, waits or is scheduled.
  abbrev pub is_drained : Engine P → Bool
  is_drained e =
      if ltb 0 e.running || e.processing_loop || ltb 0 (Scheduler.size e.scheduler)
      then false
      else Adapter.size e.adapter == 0

  abbrev pub resolve_drain : Bool → Engine P → Engine P
  resolve_drain false e = e
  resolve_drain true e = record e {
    drain_resolvers = 0;
    events = e.events ++ drained e.drain_resolvers ∷ [];
  }

  -- `checkDrain`.
  unfoldable pub check_drain : Engine P → Engine P
  check_drain e = resolve_drain (is_drained e) e

  -- `shutdown` before and after its wait for the jobs in flight.
  abbrev pub begin_shutdown : Engine P → Engine P
  begin_shutdown e = record e { is_closed = true; scheduler = Scheduler.clear e.scheduler }

  abbrev pub end_shutdown : Engine P → Engine P
  end_shutdown e = record e { adapter = Adapter.clear e.adapter }
