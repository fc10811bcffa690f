-- ===== src/Engine/Answers.antt =====
-- core/JobQueue.ts: timers and `enqueue` return, and what they leave.
use oblivinx.Base.{
  if-true, if-false, ℕ, ◌≡◌, refl, ◌∙◌, String, Option, none, some, List, [], ◌∷◌, Bool-cases, inl,
  inr, ◌⊎◌, ltb,
}
use oblivinx.Job.{Job, JobOptions}
use oblivinx.Job.Errors.{Failure}
use oblivinx.Adapter.Total.{IsOrdered, remove-IsOrdered}
use oblivinx.Scheduler.{Timer}
use oblivinx.Engine.State.{Engine, size, start_process_loop}
use oblivinx.Engine.Hooks.{Hooks}
use oblivinx.Engine.Enqueue.{accept, enqueue, enqueue_hooked, is_full}
use oblivinx.Engine.Timers.{push_ready, fire, expire, expire_hooked}
use oblivinx.Engine.Keeps.{
  bind-some, Grows-not, Grows-if, Grows-twice, Keeps, Keeps-trans, Keeps-log, ReturnsKept,
  push-Keeps,
}

module _ {P : Type 0} where
  module _ (hooks : Hooks P) where
    push_ready-Keeps :
        (calls : List (Unit {0} × Job)) (e f : Engine P)
        → Keeps e f
        → ReturnsKept e (push_ready hooks calls f)
    unfolding push_ready
    push_ready-Keeps [] e f h = (f, refl, h)
    push_ready-Keeps ((u, job) ∷ calls) e f h =
        let (a, returns, kept) = push-Keeps job f h.0 in
        let next : Engine P = start_process_loop (record f { adapter = a }) in
        let (g, later, all) = push_ready-Keeps calls e next (Keeps-trans e f next h kept) in
        (g, bind-some _ returns ∙ later, all)

    pub fire-Keeps :
        (timer : Timer) (e : Engine P) → IsOrdered e.adapter → ReturnsKept e (fire hooks timer e)
    unfolding fire
    fire-Keeps timer e h = push_ready-Keeps _ e _ (h, refl, refl, refl, refl, refl, Grows-not e.log)

    expire_hooked-Keeps :
        (job : Job) (o : Option Failure) (e f : Engine P)
        → Keeps e f
        → Keeps e (expire_hooked hooks job o f)
    expire_hooked-Keeps job (some err) e f h = h
    expire_hooked-Keeps job none e f h = h

    pub expire-Keeps :
        (now : ℕ) (job : Job) (e : Engine P)
        → IsOrdered e.adapter
        → ReturnsKept e (expire hooks now job e)
    unfolding expire
    expire-Keeps now job e h =
        let (a, returns, ordered) = remove-IsOrdered job.id e.adapter h in
        (
          _,
          bind-some _ returns,
          expire_hooked-Keeps _ _ e _
              (ordered, refl, refl, refl, refl, refl, Grows-twice e.cfg.has_wal e.log _ _),
        )

    accept-Keeps :
        (now : ℕ) (job : Job) (e f : Engine P) → Keeps e f → ReturnsKept e (accept hooks now job f)
    unfolding accept
    accept-Keeps now job e f h =
        let (a, returns, kept) = push-Keeps job f h.0 in
        elim (Bool-cases (ltb now job.run_at)) [
          | inl later ↦ rw later (_, refl, h)
          | inr at_once ↦ rw at_once (
            _,
            bind-some _ returns,
            Keeps-log e (record f { adapter = a }) _
                (Keeps-trans e f (record f { adapter = a }) h kept)
                (Grows-if f.cfg.has_wal f.log _),
          )
        ]

    enqueue_hooked-Keeps :
        (now : ℕ) (job : Job) (o : Option Failure) (e f : Engine P)
        → Keeps e f
        → (result : Failure ⊎ String) × (g : Engine P) × (enqueue_hooked hooks now job o f
            ≡ some (result, g))
          × Keeps e g
    enqueue_hooked-Keeps now job (some err) e f h = (inl err, f, refl, h)
    enqueue_hooked-Keeps now job none e f h =
        let (g, returns, kept) = accept-Keeps now job e f h in
        (inr job.id, g, bind-some _ returns, kept)

    pub enqueue-Keeps :
        (created now : ℕ) (id : String) (options : JobOptions) (e : Engine P)
        → IsOrdered e.adapter
        → (result : Failure ⊎ String) × (f : Engine P) × (enqueue hooks created now id options e
            ≡ some (result, f))
          × Keeps e f
    unfolding enqueue
    enqueue-Keeps created now id options e h = elim (Bool-cases e.is_closed) [
      | inl closed ↦ (_, _, if-true _ _ closed, (h, refl, refl, refl, refl, refl, Grows-not e.log))
      | inr opened ↦ elim (Bool-cases (is_full hooks e.cfg.max_queue_size (size e))) [
        | inl full ↦ (
          _,
          _,
          if-false _ _ opened ∙ if-true _ _ full,
          (h, refl, refl, refl, refl, refl, Grows-not e.log),
        )
        | inr room ↦
            let (result, f, returns, kept) =
              enqueue_hooked-Keeps now _ _ e _
                (h, refl, refl, refl, refl, refl, Grows-if e.cfg.has_wal e.log _) in
            (result, f, if-false _ _ opened ∙ if-false _ _ room ∙ returns, kept)
      ]
    ]
