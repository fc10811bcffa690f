-- ===== src/Engine/Hooks.antt =====
-- core/JobQueue.ts: the loops over `this.cfg.plugins`. A plugin is a value of any type `P`, and its
-- hooks are a record of functions (types/plugin.types.ts), which also give what a hook writes to the
-- log and the error that it throws.
use oblivinx.Base.{ℕ, Bool, Option, none, some, List, [], ◌∷◌, ◌++◌, String, if◌then◌else◌}
use oblivinx.Job.{Job, JobResult}
use oblivinx.Job.Errors.{Failure}
use oblivinx.Wal.Truncated.{Record}
use oblivinx.Engine.State.{Engine}

pub record Hooked (P : Type 0) : Type 0 where
  pub plugin : P
  pub writes : List Record
  pub error : Option Failure

-- The hooks of a plugin, at a time.
pub record Hooks (P : Type 0) : Type 0 where
  pub on_enqueue : ℕ → Job → P → Hooked P
  pub on_process : ℕ → Job → P → Hooked P
  pub on_complete : ℕ → Job → JobResult → P → Hooked P
  pub on_fail : ℕ → Job → Failure → P → Hooked P
  pub on_expire : ℕ → Job → P → Hooked P
  pub is_metrics : P → Bool
  pub record_retry : P → P
  pub message_of : Failure → String

module _ {P : Type 0} where
  -- One hook threw, and the loop ends; or the others run.
  abbrev pub then_hooks :
      P
      → List Record
      → Option Failure
      → List P
      → List P × List Record × Option Failure
      → List P × List Record × Option Failure
  then_hooks p ws (some err) ps rest = (p ∷ ps, ws, some err)
  then_hooks p ws none ps (qs, later, result) = (p ∷ qs, ws ++ later, result)

  unfoldable pub run_hooks : (P → Hooked P) → List P → List P × List Record × Option Failure
  run_hooks hook [] = ([], [], none)
  run_hooks hook (p ∷ ps) =
      let r = hook p in then_hooks r.plugin r.writes r.error ps (run_hooks hook ps)

  -- The engine after the hooks.
  abbrev pub hooked : List P × List Record × Option Failure → Engine P → Engine P
  hooked (ps, ws, result) e = record e {
    plugins = ps;
    log = if e.cfg.has_wal then e.log ++ ws else e.log;
  }

  -- `metricsPlugin?.recordRetry()`, for the first metrics plugin.
  abbrev pub record_first : Hooks P → List P → List P
  record_first hooks [] = []
  record_first hooks (p ∷ ps) =
      let rest = record_first hooks ps in
      if hooks.is_metrics p then hooks.record_retry p ∷ ps else p ∷ rest
