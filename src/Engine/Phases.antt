-- ===== src/Engine/Phases.antt =====
-- core/JobQueue.ts, `runProcessLoop`: a round of the loop in the parts between its awaits. The popped
-- job is the loop's own until the plugins have answered and it is dispatched.
use oblivinx.Base.{
  if-true, if-false, ℕ, ◌+◌, ◌≤◌, ◌<◌, ◌≡◌, refl, ◌∙◌, Bool-cases, inl, inr, Option, none, some,
  length, arith, if◌then◌else◌, ◌>>=◌,
}
use oblivinx.Job.{Job}
use oblivinx.Job.Errors.{Failure, is_discard}
use oblivinx.Adapter
use oblivinx.Adapter.Total.{IsOrdered, push-Returns, pop-Returns}
use oblivinx.Engine.State.{Engine}
use oblivinx.Engine.Hooks.{Hooks, run_hooks, hooked}
use oblivinx.Engine.Loop.{round_hooked, dispatch, may_run, stop}
use oblivinx.Engine.Keeps.{bind-some, Grows, Grows-not, Grows-if, Grows-trans}
use oblivinx.Engine.Bounded.{IsSound, dispatch-IsSound, may_run_lem}

-- Where the loop stands: at its test, before the hooks of a popped job, or before its dispatch.
pub data Phase : Type 0 where
  idle : Phase
  asks starts : Job → Phase

-- The worker that the loop keeps for its job.
abbrev pub claimed : Phase → ℕ
claimed idle = 0
claimed (asks job) = 1
claimed (starts job) = 1

abbrev pub Located : Type 0 → Type 0
Located P = Phase × Engine P

module _ {P : Type 0} (hooks : Hooks P) where
  abbrev pub taken : Option Job → Engine P → Located P
  taken none e = (idle, stop hooks e)
  taken (some job) e = (asks job, e)

  -- The test of `while`, and `pop`.
  unfoldable pub take_job : ℕ → Engine P → Option (Located P)
  take_job now e =
      let body : Option (Located P) = do
        (job, adapter) ← Adapter.pop now e.adapter
        some (taken job (record e { adapter = adapter }))
      in if may_run hooks e then body else some (idle, stop hooks e)

  abbrev pub asked : ℕ → Job → Option Failure → Engine P → Option (Located P)
  asked now job none e = some (starts job, e)
  asked now job (some err) e = do f ← round_hooked hooks now job (some err) e; some (idle, f)

  -- The `onProcess` hooks, and what follows where one throws.
  unfoldable pub ask_plugins : ℕ → Job → Engine P → Option (Located P)
  ask_plugins now job e =
      let result = run_hooks (hooks.on_process now job) e.plugins in
      asked now job result.2 (hooked result e)

  -- As `IsSound`, with a worker for the loop's job.
  abbrev pub IsSafe : Located P → Type 0
  IsSafe (phase, e) =
      IsOrdered e.adapter
      × (e.running ≡ length e.in_flight)
      × (e.running + claimed phase ≤ e.cfg.max_workers)

  pub IsSafe-IsSound : (phase : Phase) (e : Engine P) → IsSafe (phase, e) → IsSound e
  IsSafe-IsSound phase e (h, counted, bounded) = (h, counted, omega arith)

  -- What a part of a round leaves.
  abbrev pub Part : Engine P → Option (Located P) → Type 0
  Part e r = (s : Located P) × (r ≡ some s) × IsSafe s × Grows e.log s.1.log

  pub take_job-Part : (now : ℕ) (e : Engine P) → IsSafe (idle, e) → Part e (take_job now e)
  unfolding take_job
  take_job-Part now e (h, counted, bounded) = elim (Bool-cases (may_run hooks e)) [
    | inr stops ↦ (_, if-false _ _ stops, (h, counted, bounded), Grows-not e.log)
    | inl runs ↦ elim (pop-Returns now e.adapter h) [
      | inl quiet ↦
          (_, if-true _ _ runs ∙ bind-some _ quiet, (h, counted, bounded), Grows-not e.log)
      | inr (o, a, returns, ordered, less) ↦
          let (s, same, safe, grown) = taken-Part o a ordered (may_run_lem hooks e runs) in
          (s, if-true _ _ runs ∙ bind-some _ returns ∙ same, safe, grown)
    ]
  ]
    where
      taken-Part :
          (o : Option Job) (a : Adapter.MemoryAdapter)
          → IsOrdered a
          → e.running < e.cfg.max_workers
          → Part e (some (taken o (record e { adapter = a })))
      taken-Part none a ordered room = (_, refl, (ordered, counted, bounded), Grows-not e.log)
      taken-Part (some job) a ordered room =
          (_, refl, (ordered, counted, omega arith), Grows-not e.log)

  asked-Part :
      (now : ℕ) (job : Job) (o : Option Failure) (e : Engine P)
      → IsSafe (asks job, e)
      → Part e (asked now job o e)
  asked-Part now job none e s = (_, refl, s, Grows-not e.log)
  asked-Part now job (some err) e (h, counted, bounded) =
      let (a, returns, ordered, more) = push-Returns job e.adapter h in
      elim (Bool-cases (is_discard err)) [
        | inl gone ↦ (_, bind-some _ (if-true _ _ gone), (h, counted, omega arith), Grows-not e.log)
        | inr back ↦ (
          _,
          bind-some _ (if-false _ _ back ∙ bind-some _ returns),
          (ordered, counted, omega arith),
          Grows-not e.log,
        )
      ]

  pub ask_plugins-Part :
      (now : ℕ) (job : Job) (e : Engine P) → IsSafe (asks job, e) → Part e (ask_plugins now job e)
  unfolding ask_plugins
  ask_plugins-Part now job e s =
      let result = run_hooks (hooks.on_process now job) e.plugins in
      let (t, returns, safe, grown) = asked-Part now job result.2 (hooked result e) s in
      (t, returns, safe, Grows-trans e.log _ t.1.log (Grows-if e.cfg.has_wal e.log _) grown)

  pub dispatch-IsSafe :
      (now : ℕ) (job : Job) (e : Engine P)
      → IsSafe (starts job, e)
      → IsSafe (idle, dispatch hooks now job e) × Grows e.log (dispatch hooks now job e).log
  dispatch-IsSafe now job e (h, counted, bounded) =
      let ((ordered, same, few), size, grown) =
        dispatch-IsSound hooks now job e h counted (omega arith) in
      ((ordered, same, omega arith), grown)

  abbrev pub started : ℕ → Located P → Option (Engine P)
  started now (idle, e) = some e
  started now (asks job, e) = none
  started now (starts job, e) = some (dispatch hooks now job e)

  -- The rest of a round, when nothing comes between its parts.
  abbrev pub rest : ℕ → Located P → Option (Engine P)
  rest now (idle, e) = some e
  rest now (asks job, e) = ask_plugins now job e >>= started now
  rest now (starts job, e) = some (dispatch hooks now job e)
