-- ===== src/Engine/Bounded.antt =====
-- core/JobQueue.ts, `runProcessLoop`: its counters, and the end of the loop.
use oblivinx.Base.{
  if-true, if-false, ℕ, zero, suc, ◌+◌, ◌≤◌, ◌<◌, ◌≡◌, refl, ◌∙◌, ap, sym, Option, none, some, List,
  [], ◌∷◌, ◌++◌, Bool, true, false, Bool-cases, inl, inr, ◌⊎◌, length, length-append, arith, str_eq,
  eq_refl,
}
use oblivinx.Job.{Job}
use oblivinx.Job.Errors.{Failure, is_discard}
use oblivinx.Adapter.Total.{IsOrdered, push-Returns, update-IsOrdered, size-update, pop-Returns}
use oblivinx.Engine.State.{Engine, check_drain, resolve_drain, is_drained, size}
use oblivinx.Engine.Hooks.{Hooks}
use oblivinx.Engine.Loop.{
  round, round_popped, round_hooked, dispatch, run_loop, may_run, stop, activated,
}
use oblivinx.Engine.Finish.{FreshIds, drop_job}
use oblivinx.Engine.Keeps.{bind-some, Keeps, Grows, Grows-not, Grows-if, Grows-trans}

module _ {P : Type 0} where
  -- The heap is ordered, the counter is the number of jobs in flight, and they are within the limit.
  abbrev pub IsSound : Engine P → Type 0
  IsSound e =
      IsOrdered e.adapter × (e.running ≡ length e.in_flight) × (e.running ≤ e.cfg.max_workers)

  abbrev pub ReturnsSound : Option (Engine P) → Type 0
  ReturnsSound r = (f : Engine P) × (r ≡ some f) × IsSound f

  pub Keeps-IsSound : (e f : Engine P) → Keeps e f → IsSound e → IsSound f
  Keeps-IsSound e f (ordered, cfg, running, in_flight, registry, closed, log)
        (o, counted, bounded) =
      (ordered, running ∙ counted ∙ ap length (sym in_flight), rw (cfg, running) bounded)

  resolve_drain-IsSound : (b : Bool) (e : Engine P) → IsSound e → IsSound (resolve_drain b e)
  resolve_drain-IsSound true e h = h
  resolve_drain-IsSound false e h = h

  pub check_drain-IsSound : (e : Engine P) → IsSound e → IsSound (check_drain e)
  unfolding check_drain
  check_drain-IsSound e h = resolve_drain-IsSound (is_drained e) e h

  pub length-drop_job :
      (hooks : Hooks P) (fresh : FreshIds) (before : List Job) (job : Job) (after : List Job)
      → length (drop_job hooks fresh job.id (before ++ job ∷ after)) + 1
        ≡ length (before ++ job ∷ after)
  length-drop_job hooks fresh [] job after = rw (eq_refl job.id) (omega arith)
  length-drop_job hooks fresh (x ∷ before) job after =
      let ih = length-drop_job hooks fresh before job after in
      let whole = length-append before (job ∷ after) in
      elim (Bool-cases (str_eq x.id job.id)) [
        | inl same ↦ rw same (omega arith)
        | inr other ↦ rw other (omega (arith, ih))
      ]

  module _ (hooks : Hooks P) where
    pub dispatch-IsSound :
        (now : ℕ) (job : Job) (e : Engine P)
        → IsOrdered e.adapter
        → e.running ≡ length e.in_flight
        → e.running < e.cfg.max_workers
        → IsSound (dispatch hooks now job e)
          × (size (dispatch hooks now job e) ≡ size e)
          × Grows e.log (dispatch hooks now job e).log
    unfolding dispatch
    dispatch-IsSound now job e h counted room =
        let more = length-append e.in_flight (activated hooks now job ∷ []) in
        (
          (update-IsOrdered _ e.adapter h, omega (arith, more), omega arith),
          size-update _ e.adapter,
          Grows-if e.cfg.has_wal e.log _,
        )

    -- What a round leaves: the loop has ended, or one job less waits.
    abbrev pub Round : Engine P → Option (Engine P) → Type 0
    Round e r =
        (f : Engine P) × (r ≡ some f)
        × IsSound f
        × ((f.processing_loop ≡ false) ⊎ (size f + 1 ≡ size e))
        × Grows e.log f.log

    round_hooked-Round :
        (now : ℕ) (job : Job) (o : Option Failure) (e f : Engine P)
        → IsOrdered f.adapter
        → f.running ≡ length f.in_flight
        → f.running < f.cfg.max_workers
        → size f + 1 ≡ size e
        → Grows e.log f.log
        → Round e (round_hooked hooks now job o f)
    round_hooked-Round now job none e f h counted room less grown =
        let (sound, same, more) = dispatch-IsSound now job f h counted room in
        (
          dispatch hooks now job f,
          refl,
          sound,
          inr (omega (arith, same)),
          Grows-trans e.log f.log _ grown more,
        )
    round_hooked-Round now job (some err) e f h counted room less grown =
        let (a, returns, ordered, more) = push-Returns job f.adapter h in
        elim (Bool-cases (is_discard err)) [
          | inl gone ↦ rw gone (f, refl, (h, counted, omega arith), inr less, grown)
          | inr back ↦
              rw back (_, bind-some _ returns, (ordered, counted, omega arith), inl refl, grown)
        ]

    round_popped-Round :
        (now : ℕ) (o : Option Job) (e f : Engine P)
        → IsOrdered f.adapter
        → f.running ≡ length f.in_flight
        → f.running < f.cfg.max_workers
        → size f + 1 ≡ size e
        → Grows e.log f.log
        → Round e (round_popped hooks now o f)
    round_popped-Round now none e f h counted room less grown =
        (stop hooks f, refl, (h, counted, omega arith), inl refl, grown)
    round_popped-Round now (some job) e f h counted room less grown =
        round_hooked-Round now job _ e _ h counted room less
          (Grows-trans e.log f.log _ grown (Grows-if f.cfg.has_wal f.log _))

    pub may_run_lem : (e : Engine P) → may_run hooks e ≡ true → e.running < e.cfg.max_workers
    may_run_lem e h = ground arith

    pub round-Round : (now : ℕ) (e : Engine P) → IsSound e → Round e (round hooks now e)
    unfolding round
    round-Round now e (h, counted, bounded) = elim (Bool-cases (may_run hooks e)) [
      | inr idle ↦ rw idle (stop hooks e, refl, (h, counted, bounded), inl refl, Grows-not e.log)
      | inl runs ↦ rw runs (elim (pop-Returns now e.adapter h) [
        | inl quiet ↦ (_, bind-some _ quiet, (h, counted, bounded), inl refl, Grows-not e.log)
        | inr (o, a, returns, ordered, less) ↦
            let (f, later, sound, progress, grown) =
              round_popped-Round now o e (record e { adapter = a }) ordered counted
                (may_run_lem e runs) less (Grows-not e.log) in
            (f, bind-some _ returns ∙ later, sound, progress, grown)
      ])
    ]

    pub run_loop_step :
        (now fuel : ℕ) (e f : Engine P)
        → e.processing_loop ≡ true
        → round hooks now e ≡ some f
        → run_loop hooks (suc fuel) now e ≡ run_loop hooks fuel now f
    unfolding run_loop
    run_loop_step now fuel e f runs h = if-true _ _ runs ∙ bind-some _ h

    pub run_loop_end :
        (now fuel : ℕ) (e : Engine P)
        → e.processing_loop ≡ false
        → run_loop hooks (suc fuel) now e ≡ some e
    unfolding run_loop
    run_loop_end now fuel e h = if-false _ _ h

    -- On an engine with an ordered heap, a counter that is the number of jobs in flight, and one
    -- within the limit, the process loop returns with fuel above the number of waiting jobs and
    -- one, whatever the plugins do: it has ended, and the same holds of the heap, the counter and
    -- the limit.
    pub run_loop_returns :
        (now fuel : ℕ) (e : Engine P)
        → IsSound e
        → size e + 1 < fuel
        → (f : Engine P) × (run_loop hooks fuel now e ≡ some f)
          × IsSound f
          × (f.processing_loop ≡ false)
    run_loop_returns now zero e h enough = absurd (omega arith)
    run_loop_returns now (suc fuel) e h enough = elim (Bool-cases e.processing_loop) [
      | inr ended ↦ (e, run_loop_end now fuel e ended, h, ended)
      | inl runs ↦
          let (f, returns, sound, progress, grown) = round-Round now e h in
          elim progress [
            | inl ended ↦ (
              f,
              run_loop_step now fuel e f runs returns ∙ last now fuel f ended (omega arith),
              sound,
              ended,
            )
            | inr less ↦
                let (g, later, all, ended) = run_loop_returns now fuel f sound (omega arith) in
                (g, run_loop_step now fuel e f runs returns ∙ later, all, ended)
          ]
    ]
      where
        last :
            (now fuel : ℕ) (f : Engine P)
            → f.processing_loop ≡ false
            → 0 < fuel
            → run_loop hooks fuel now f ≡ some f
        last now zero f h pos = absurd (omega arith)
        last now (suc fuel) f h pos = run_loop_end now fuel f h
