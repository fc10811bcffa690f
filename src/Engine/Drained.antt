-- ===== src/Engine/Drained.antt =====
-- core/JobQueue.ts, `drain` and `checkDrain`: when a drain is resolved, and one that nothing resolves.
use oblivinx.Base.{
  if-true, ℕ, suc, ◌≡◌, refl, ◌∙◌, ap, some, List, [], ◌∷◌, true, false, Bool-cases, inl, inr, ◌⊎◌,
  arith, length,
}
use oblivinx.Job.{Job}
use oblivinx.Job.Errors.{Failure, is_discard}
use oblivinx.Adapter
use oblivinx.Adapter.{MemoryAdapter, empty_adapter}
use oblivinx.Adapter.Total.{pop-empty}
use oblivinx.Engine.State.{Engine, check_drain, resolve_drain, is_drained, size}
use oblivinx.Engine.Hooks.{Hooks, run_hooks, hooked}
use oblivinx.Engine.Loop.{round, round_hooked, may_run, stop, run_loop}
use oblivinx.Engine.Keeps.{bind-some}
use oblivinx.Engine.Bounded.{IsSound, run_loop_step, run_loop_end}

empty-length {ℓ} : {A : Type ℓ} (l : List A) → length l ≡ 0 → l ≡ []
empty-length [] h = refl
empty-length (x ∷ l) h = absurd (omega arith)

module _ {P : Type 0} where
  -- On a sound engine `checkDrain` changes nothing, or nobody waits for `drain` any more, and then
  -- the queue is empty, no job is in flight, nothing is scheduled, and the process loop has ended.
  pub check_drain-empty :
      (e : Engine P)
      → IsSound e
      → (check_drain e ≡ e)
        ⊎ (((check_drain e).drain_resolvers ≡ 0)
            × (size e ≡ 0)
            × (e.in_flight ≡ [])
            × (e.scheduler.entries ≡ [])
            × (e.processing_loop ≡ false))
  unfolding check_drain
  check_drain-empty e (ordered, counted, bounded) = elim (Bool-cases (is_drained e)) [
    | inr waits ↦ inl (ap (λ b. resolve_drain b e) waits)
    | inl over ↦
        let (idle, unscheduled, empty, ended) = is_drained_parts e over in
        inr (
          ap (λ b. (resolve_drain b e).drain_resolvers) over,
          empty,
          empty-length e.in_flight (omega arith),
          empty-length e.scheduler.entries unscheduled,
          ended,
        )
  ]
    where
      is_drained_parts :
          (e : Engine P)
          → is_drained e ≡ true
          → (e.running ≡ 0)
            × (length e.scheduler.entries ≡ 0)
            × (size e ≡ 0)
            × (e.processing_loop ≡ false)
      is_drained_parts e h = (ground arith, ground arith, ground arith, ground arith)

module _ {P : Type 0} (hooks : Hooks P) where
  round_discards :
      (now : ℕ) (job : Job) (a : MemoryAdapter) (err : Failure) (e : Engine P)
      → may_run hooks e ≡ true
      → Adapter.pop now e.adapter ≡ some (some job, a)
      → (run_hooks (hooks.on_process now job) e.plugins).2 ≡ some err
      → is_discard err ≡ true
      → round hooks now e
        ≡ some (hooked (run_hooks (hooks.on_process now job) e.plugins) (record e { adapter = a }))
  unfolding round
  round_discards now job a err e runs popped threw gone =
      let result = run_hooks (hooks.on_process now job) e.plugins in
      if-true _ _ runs
      ∙ bind-some _ popped
      ∙ ap (λ o. round_hooked hooks now job o (hooked result (record e { adapter = a }))) threw
      ∙ if-true _ _ gone

  round_finds_none :
      (now : ℕ) (e : Engine P)
      → may_run hooks e ≡ true
      → size e ≡ 0
      → round hooks now e ≡ some (stop hooks e)
  unfolding round
  round_finds_none now e runs empty =
      if-true _ _ runs
      ∙ bind-some _ (pop-empty now e.adapter (empty-length e.adapter.heap.heap empty))

  -- When the only job that waits is popped and a plugin discards it, the process loop ends with an
  -- empty queue, no more jobs running and nothing new scheduled, and whoever waits for `drain`
  -- still waits: it emits nothing and resolves nothing.
  pub run_loop-discard :
      (fuel now : ℕ) (job : Job) (a : MemoryAdapter) (err : Failure) (e : Engine P)
      → e.processing_loop ≡ true
      → may_run hooks e ≡ true
      → Adapter.pop now e.adapter ≡ some (some job, a)
      → Adapter.size a ≡ 0
      → (run_hooks (hooks.on_process now job) e.plugins).2 ≡ some err
      → is_discard err ≡ true
      → (f : Engine P) × (run_loop hooks (suc (suc (suc fuel))) now e ≡ some f)
        × (f.processing_loop ≡ false)
        × (size f ≡ 0)
        × (f.running ≡ e.running)
        × (f.scheduler ≡ e.scheduler)
        × (f.drain_resolvers ≡ e.drain_resolvers)
        × (f.events ≡ e.events)
  run_loop-discard fuel now job a err e loops runs popped empty threw gone =
      let left =
        hooked (run_hooks (hooks.on_process now job) e.plugins) (record e { adapter = a }) in
      (
        stop hooks left,
        run_loop_step hooks now (suc (suc fuel)) e left loops
              (round_discards now job a err e runs popped threw gone)
            ∙ run_loop_step hooks now (suc fuel) left (stop hooks left) loops
                (round_finds_none now left runs empty)
            ∙ run_loop_end hooks now fuel (stop hooks left) refl,
        refl,
        empty,
        refl,
        refl,
        refl,
        refl,
      )
