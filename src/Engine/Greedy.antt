-- ===== src/Engine/Greedy.antt =====
-- core/JobQueue.ts, `runProcessLoop`: why the loop ends.
use oblivinx.Base.{
  if-true, if-false, ℕ, zero, suc, ◌+◌, ◌<◌, ◌≡◌, refl, ◌∙◌, Option, none, some, true, false,
  Bool-cases, inl, inr, ◌⊎◌, arith, eq_refl, subst,
}
use oblivinx.Base.Dict.{lookup, lookup-insert, lookup-erase}
use oblivinx.Job.{Job}
use oblivinx.Job.Errors.{Failure, is_discard}
use oblivinx.Adapter
use oblivinx.Adapter.{MemoryAdapter}
use oblivinx.Adapter.Mirror.{IsMirrored, IsQuiet, push_lem, update-IsMirrored}
use oblivinx.Adapter.Laws.{pop_lem}
use oblivinx.Engine.State.{Engine, size}
use oblivinx.Engine.Hooks.{Hooks, run_hooks, hooked}
use oblivinx.Engine.Loop.{round, round_hooked, dispatch, run_loop, may_run, stop, activated}
use oblivinx.Engine.Keeps.{bind-some}
use oblivinx.Engine.Bounded.{IsSound, round-Round, run_loop_step, run_loop_end}

module _ {P : Type 0} (hooks : Hooks P) (now : ℕ) where
  -- The rounds of the loop, one after the other.
  pub data Rounds : Engine P → Engine P → Type 0 where
    here : {e : Engine P} → Rounds e e
    next : {e f g : Engine P} → round hooks now e ≡ some f → Rounds f g → Rounds e g

  -- In the round from `e` to `f` the engine's plugins refused the popped job, with another error
  -- than a discard, and the job waits again.
  abbrev pub Refuses : Engine P → Engine P → Type 0
  Refuses e f =
      (job : Job) × (a : MemoryAdapter) × (err : Failure) × (Adapter.pop now e.adapter
        ≡ some (some job, a))
      × ((run_hooks (hooks.on_process now job) e.plugins).2 ≡ some err)
      × (is_discard err ≡ false)
      × (lookup job.id f.adapter.pending_index ≡ some job)

  -- Why a loop from `e` ends in `f`; a refusal is one of the last round, from `before`.
  abbrev pub IsStuck : Engine P → Engine P → Type 0
  IsStuck e f =
      (may_run hooks f ≡ false)
      ⊎ (IsQuiet now f.adapter
          ⊎ ((before : Engine P) × Rounds e before
              × (round hooks now before ≡ some f)
              × Refuses before f))

  IsStuck-next : (e f g : Engine P) → round hooks now e ≡ some f → IsStuck f g → IsStuck e g
  IsStuck-next e f g step (inl idle) = inl idle
  IsStuck-next e f g step (inr (inl quiet)) = inr (inl quiet)
  IsStuck-next e f g step (inr (inr (before, rounds, last, refused))) =
      inr (inr (before, next step rounds, last, refused))

  -- A round ends the loop, for such a reason, or goes on.
  abbrev Turn : Engine P → Engine P → Type 0
  Turn e f =
      ((f.processing_loop ≡ false)
        × ((may_run hooks f ≡ false) ⊎ (IsQuiet now f.adapter ⊎ Refuses e f)))
      ⊎ ((f.processing_loop ≡ e.processing_loop) × IsMirrored f.adapter)

  hooked-Turn :
      (job : Job) (o : Option Failure) (popped : MemoryAdapter) (e f : Engine P)
      → Adapter.pop now e.adapter ≡ some (some job, popped)
      → (run_hooks (hooks.on_process now job) e.plugins).2 ≡ o
      → f.processing_loop ≡ e.processing_loop
      → IsMirrored f.adapter
      → lookup job.id f.adapter.pending_index ≡ none
      → (g : Engine P) × (round_hooked hooks now job o f ≡ some g) × Turn e g
  unfolding dispatch
  hooked-Turn job none popped e f taken ran loops m gone =
      (_, refl, inr (loops, update-IsMirrored (activated hooks now job) f.adapter m))
  hooked-Turn job (some err) popped e f taken ran loops m gone =
      elim (Bool-cases (is_discard err)) [
        | inl discarded ↦ (f, if-true _ _ discarded, inr (loops, m))
        | inr refused ↦
            let (a, returns, pushed) = push_lem job f.adapter m gone in
            let waits : lookup job.id a.pending_index ≡ some job = ground (
              arith,
              lookup-insert job.id job.id job f.adapter.pending_index,
              eq_refl job.id,
              pushed.pending,
            ) in
            (
              _,
              if-false _ _ refused ∙ bind-some _ returns,
              inl (refl, inr (inr (job, popped, err, taken, ran, refused, waits))),
            )
      ]

  round-Turn :
      (e : Engine P)
      → IsMirrored e.adapter
      → (f : Engine P) × (round hooks now e ≡ some f) × Turn e f
  unfolding round
  round-Turn e m = elim (Bool-cases (may_run hooks e)) [
    | inr idle ↦ (stop hooks e, if-false _ _ idle, inl (refl, inl idle))
    | inl runs ↦ elim (pop_lem now e.adapter m) [
      | inl (quiet, returns) ↦
          (_, if-true _ _ runs ∙ bind-some _ returns, inl (refl, inr (inl quiet)))
      | inr (job, a, returns, popped) ↦
          let gone : lookup job.id a.pending_index ≡ none = ground (
            arith,
            lookup-erase job.id job.id e.adapter.pending_index,
            eq_refl job.id,
            popped.pending,
          ) in
          let result = run_hooks (hooks.on_process now job) e.plugins in
          let (g, later, turn) =
            hooked-Turn job result.2 a e (hooked result (record e { adapter = a })) returns refl
              refl popped.mirrored gone in
          (g, if-true _ _ runs ∙ bind-some _ returns ∙ later, turn)
    ]
  ]

  -- From a sound state with a mirrored adapter, and with nothing between the rounds, the process
  -- loop ends after at most one more round than there are jobs and one for the empty queue, and
  -- only for one of these reasons: the engine is closed, paused or has all its workers busy; or
  -- nothing waits that is at the root and due; or in the last of its rounds one of the engine's
  -- own plugins, as they were then, refused the job that the adapter popped, with an error other
  -- than a discard, and the job waits again.
  pub run_loop-IsStuck :
      (fuel : ℕ) (e : Engine P)
      → IsSound e
      → IsMirrored e.adapter
      → e.processing_loop ≡ true
      → size e + 1 < fuel
      → (f : Engine P) × (run_loop hooks fuel now e ≡ some f)
        × (f.processing_loop ≡ false)
        × IsStuck e f
  run_loop-IsStuck zero e s m runs enough = absurd (omega arith)
  run_loop-IsStuck (suc zero) e s m runs enough = absurd (omega arith)
  run_loop-IsStuck (suc (suc fuel)) e s m runs enough =
      let (f, returns, sound, progress, grown) = round-Round hooks now e s in
      let (g, returned, turn) = round-Turn e m in
      let same : f ≡ g = cc in
      let (sound_g, progress_g) =
        subst (λ (k : Engine P). IsSound k × ((k.processing_loop ≡ false) ⊎ (size k + 1 ≡ size e)))
          same (sound, progress) in
      let first = run_loop_step hooks now (suc fuel) e g runs returned in
      elim turn [
        | inl (ended, reason) ↦
            (g, first ∙ run_loop_end hooks now fuel g ended, ended, last_of g returned reason)
        | inr (loops, mirrored) ↦
            let goes_on : g.processing_loop ≡ true = loops ∙ runs in
            let fewer : size g + 1 ≡ size e = less_of g progress_g goes_on in
            let (h, later, ended, stuck) =
              run_loop-IsStuck (suc fuel) g sound_g mirrored goes_on (omega arith) in
            (h, first ∙ later, ended, IsStuck-next e g h returned stuck)
      ]
    where
      last_of :
          (g : Engine P)
          → round hooks now e ≡ some g
          → (may_run hooks g ≡ false) ⊎ (IsQuiet now g.adapter ⊎ Refuses e g)
          → IsStuck e g
      last_of g step (inl idle) = inl idle
      last_of g step (inr (inl quiet)) = inr (inl quiet)
      last_of g step (inr (inr refused)) = inr (inr (e, here, step, refused))

      less_of :
          (g : Engine P)
          → (g.processing_loop ≡ false) ⊎ (size g + 1 ≡ size e)
          → g.processing_loop ≡ true
          → size g + 1 ≡ size e
      less_of g (inl ended) loops = absurd (cc)
      less_of g (inr less) loops = less
