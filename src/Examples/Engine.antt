-- ===== src/Examples/Engine.antt =====
-- core/JobQueue.ts: an engine with two workers and a log.
use oblivinx.Base.{
  ℕ, ◌++◌, ◌≡◌, ◌≢◌, ◌≤◌, refl, ap, String, Option, none, some, List, [], ◌∷◌, true, false, ◌⊎◌,
  inl, inr, length, arith, All, ◌+◌,
}
use oblivinx.Base.Dict.{lookup, insert}
use oblivinx.Base.Value.{Fields}
use oblivinx.Job.{Job, JobOptions, JobState, create_job, active}
use oblivinx.Job.Errors.{Failure, error_name, queue_error}
use oblivinx.Adapter
use oblivinx.Adapter.{MemoryAdapter, empty_adapter}
use oblivinx.Heap.{insert_job, bubble_up, before, swap}
use oblivinx.Plugins.Deduplicator
use oblivinx.Wal.{WalOperation, of_job}
use oblivinx.Wal.Truncated.{Record}
use oblivinx.Recovery.{run}
use oblivinx.Recovery.Crash.{crash, written, reopened}
use oblivinx.Examples.Codec.{encode, decode, is_blank, codec}
use oblivinx.Recovery.Kept.{Spares, restarted, enqueue_record}
use oblivinx.Engine.State.{
  Engine, EngineConfig, new_engine, begin_shutdown, start_process_loop, emit, enqueued, log_line,
}
use oblivinx.Engine.Hooks.{Hooks, run_hooks}
use oblivinx.Engine.Enqueue.{accept, enqueue}
use oblivinx.Engine.Finish.{FreshIds}
use oblivinx.Engine.Loop.{run_loop}
use oblivinx.Engine.Bounded.{IsSound, run_loop_returns}
use oblivinx.Engine.Phases.{idle, starts}
use oblivinx.Engine.Closed.{Reach-Winds}
use oblivinx.Engine.Loop.{dispatch}
use oblivinx.Engine.Steps.{here, next, resumes, dispatches, Reach-IsSound}
use oblivinx.Engine.Durable.{enqueue-recover}
use oblivinx.Engine.Greedy.{IsStuck, run_loop-IsStuck}
use oblivinx.Engine.Duplicates.{IsRefusal, enqueue-duplicate}
use oblivinx.Engine.Builtin.{Plugin, deduplicator, builtin}
use oblivinx.Examples.Data.{entry, busy, busy-IsMirrored, two_wait-IsValid}

abbrev pub no_key : Job → String
no_key job = job.type

abbrev pub text_of : Failure → String
text_of err = error_name err

abbrev pub plain_hooks : Hooks Plugin
plain_hooks = builtin no_key no_key text_of

abbrev pub fresh_ids : FreshIds
fresh_ids = record { next_id = "next"; of_node = λ node. node }

abbrev config : EngineConfig
config = record {
  max_workers = 2;
  has_wal = true;
  defaults = record {
    default_priority = 5;
    default_max_attempts = 3;
    default_max_duration = 30_000;
  };
  max_queue_size = some 100;
  default_retry = record { should_retry = λ n err. true; next_delay = λ n err. 0 };
}

abbrev pub sample_engine : List Plugin → Engine Plugin
sample_engine plugins = new_engine config plugins

abbrev mail : Option ℕ → JobOptions
mail delay = record {
  type = "mail";
  payload = Fields.end;
  priority = none;
  delay = delay;
  max_attempts = none;
  max_duration = none;
  ttl = none;
  shard_key = none;
  flow_id = none;
  depends_on = none;
  idempotency_key = some "monday";
  retry_policy = none;
}

abbrev mail_job : Job
mail_job = create_job "a" 7 (mail none) config.defaults

new_engine-IsSound : (plugins : List Plugin) → IsSound (sample_engine plugins)
new_engine-IsSound plugins =
    Reach-IsSound plain_hooks config plugins idle (sample_engine plugins) here

Reach-IsSound_example : IsSound (start_process_loop (sample_engine []))
Reach-IsSound_example =
    Reach-IsSound plain_hooks config [] idle _ (next here (resumes idle (sample_engine [])))

-- The engine with two jobs that wait.
abbrev two_jobs : Engine Plugin
two_jobs = record (sample_engine []) { adapter = busy; processing_loop = true }

two_jobs-IsSound : IsSound two_jobs
two_jobs-IsSound = (two_wait-IsValid.order, refl, omega arith)

run_loop_returns_example :
    (f : Engine Plugin) × (run_loop plain_hooks 4 25 two_jobs ≡ some f)
    × IsSound f
    × (f.processing_loop ≡ false)
run_loop_returns_example = run_loop_returns plain_hooks 25 4 two_jobs two_jobs-IsSound (omega arith)

run_loop-IsStuck_example :
    (f : Engine Plugin) × (run_loop plain_hooks 4 25 two_jobs ≡ some f)
    × (f.processing_loop ≡ false)
    × IsStuck plain_hooks 25 two_jobs f
run_loop-IsStuck_example =
    run_loop-IsStuck plain_hooks 25 4 two_jobs two_jobs-IsSound busy-IsMirrored refl (omega arith)

-- The loop has asked the plugins about a job when `shutdown` begins, and then dispatches it.
abbrev closing : Engine Plugin
closing = begin_shutdown two_jobs

abbrev closing_dispatched : Engine Plugin
closing_dispatched = dispatch plain_hooks 8 mail_job closing

Reach-Winds_example :
    (closing_dispatched.is_closed ≡ true)
    × (length closing_dispatched.in_flight + 0 ≤ length closing.in_flight + 1)
    × (enqueue plain_hooks 7 7 "b" (mail none) closing_dispatched
        ≡ some (inl (queue_error "JobQueue is closed"), closing_dispatched))
Reach-Winds_example =
    Reach-Winds plain_hooks (starts mail_job) idle closing closing_dispatched 7 7 "b" (mail none)
      (two_wait-IsValid.order, refl, omega arith) refl (next here (dispatches 8 mail_job closing))

-- The engine after a job that is due was accepted, with the plugins as they are then.
abbrev accepted : List Plugin → Engine Plugin
accepted plugins = emit (enqueued mail_job) (
    start_process_loop (
      log_line 7 WalOperation.enqueue "a" (of_job mail_job) (record (sample_engine plugins) {
        adapter = record {
          heap = record {
            heap = entry "a" 5 7 0 ∷ [];
            jobs = ("a", mail_job) ∷ [];
            insert_counter = 1;
          };
          store = [];
          pending_index = ("a", mail_job) ∷ [];
        };
      })))

accepted_plain :
    enqueue plain_hooks 7 7 "a" (mail none) (sample_engine []) ≡ some (inr "a", accepted [])
unfolding enqueue accept create_job run_hooks Adapter.push insert_job bubble_up before swap insert
accepted_plain = refl

nothing_later : (r : Record) (l : List Record) → r ∷ [] ≡ (r ∷ []) ++ l → All (Spares "a") l
nothing_later r [] h = tt
nothing_later r (x ∷ l) h = let longer = ap length h in absurd (omega arith)

enqueue-recover_example :
    (b : MemoryAdapter) × (state : JobState) × (started_at : Option ℕ) × (run decode is_blank none
        (reopened encode decode is_blank
          (crash 1 (written encode decode is_blank (accepted []).log)))
        empty_adapter
      ≡ some b)
    × (lookup "a" b.heap.jobs ≡ some (restarted mail_job state started_at))
    × (state ≢ active)
unfolding create_job
enqueue-recover_example =
    enqueue-recover plain_hooks encode decode is_blank codec 7 7 "a" (mail none) "a" idle idle
      (sample_engine []) (accepted []) (accepted []) 1 (new_engine-IsSound []) refl refl
      accepted_plain here (omega arith) (refl, tt) (nothing_later (enqueue_record 7 mail_job))

abbrev keyed : List Plugin
keyed = deduplicator (("monday", tt) ∷ []) ∷ []

accepted-keyed :
    enqueue plain_hooks 7 7 "a" (mail none) (sample_engine (deduplicator [] ∷ []))
    ≡ some (inr "a", accepted keyed)
unfolding enqueue accept create_job run_hooks Adapter.push insert_job bubble_up before swap insert
    lookup Deduplicator.on_enqueue
accepted-keyed = refl

enqueue-duplicate_example :
    (answer : Failure ⊎ String) × (g : Engine Plugin) × (enqueue plain_hooks 9 9 "b"
        (mail (some 50))
        (accepted keyed)
      ≡ some (answer, g))
    × IsRefusal no_key no_key text_of (answer, g) (accepted keyed)
unfolding create_job
enqueue-duplicate_example =
    enqueue-duplicate no_key no_key text_of 7 7 9 9 "a" "b" (mail none) (mail (some 50)) [] []
      (inr "a") (sample_engine (deduplicator [] ∷ [])) (accepted keyed)
      (new_engine-IsSound (deduplicator [] ∷ [])) refl refl refl refl accepted-keyed
