-- ===== src/Engine/Closed.antt =====
-- core/JobQueue.ts, `shutdown`: what a closed engine still does, also where it closes while the loop
-- has a popped job in its hands.
use oblivinx.Base.{
  if-true, if-false, ℕ, ◌+◌, ◌-◌, Option, none, [], length-append, ◌≤◌, ◌≡◌, refl, ◌∙◌, ap, subst,
  String, some, List, ◌∷◌, ◌++◌, Bool, true, false, Bool-cases, inl, inr, length, arith, ◌&&◌, ◌==◌,
}
use oblivinx.Job.{Job, JobOptions}
use oblivinx.Job.Errors.{Failure, is_discard, queue_error}
use oblivinx.Adapter
use oblivinx.Adapter.Total.{IsOrdered, push-Returns}
use oblivinx.Engine.State.{Engine, drain, check_drain, resolve_drain, is_drained}
use oblivinx.Engine.Hooks.{Hooks, run_hooks, hooked}
use oblivinx.Engine.Enqueue.{enqueue}
use oblivinx.Engine.Loop.{dispatch, may_run, stop, activated}
use oblivinx.Engine.Finish.{FreshIds, release, drop_job}
use oblivinx.Engine.Keeps.{Keeps, bind-some}
use oblivinx.Engine.Total.{execute_job-Keeps}
use oblivinx.Engine.Answers.{enqueue-Keeps, fire-Keeps, expire-Keeps}
use oblivinx.Engine.Bounded.{length-drop_job}
use oblivinx.Engine.Phases.{
  Phase, idle, asks, starts, claimed, Located, IsSafe, take_job, asked, ask_plugins,
}
use oblivinx.Engine.Steps.{
  Step, Reach, enqueues, takes, hears, dispatches, finishes, fires, expires, pauses, resumes,
  drains, registers, clears, shuts_down, closes, here, next, Step-IsSafe, same-Keeps,
  finish-release,
}

module _ {P : Type 0} (hooks : Hooks P) where
  -- A closed engine, with no more jobs in flight or in the hands of its loop.
  abbrev pub Winds : Located P → Located P → Type 0
  Winds s t =
      (t.1.is_closed ≡ true)
      × (length t.1.in_flight + claimed t.0 ≤ length s.1.in_flight + claimed s.0)

  closed_may_run : (e : Engine P) → e.is_closed ≡ true → may_run hooks e ≡ false
  closed_may_run e h = rw h

  take_job-Winds :
      (now : ℕ) (e : Engine P) (s : Located P)
      → e.is_closed ≡ true
      → take_job hooks now e ≡ some s
      → Winds (idle, e) s
  unfolding take_job
  take_job-Winds now e s closed h =
      let ended : take_job hooks now e ≡ some (idle, stop hooks e) =
        if-false _ _ (closed_may_run e closed) in
      let same : (idle, stop hooks e) ≡ s = cc in subst (Winds (idle, e)) same (closed, omega arith)

  asked-Winds :
      (now : ℕ) (job : Job) (o : Option Failure) (e : Engine P) (s : Located P)
      → e.is_closed ≡ true
      → IsOrdered e.adapter
      → asked hooks now job o e ≡ some s
      → Winds (asks job, e) s
  asked-Winds now job none e s closed ordered h =
      let same : (starts job, e) ≡ s = cc in subst (Winds (asks job, e)) same (closed, omega arith)
  asked-Winds now job (some err) e s closed ordered h =
      let (a, returns, later, more) = push-Returns job e.adapter ordered in
      elim (Bool-cases (is_discard err)) [
        | inl gone ↦
            let left : asked hooks now job (some err) e ≡ some (idle, e) =
              bind-some _ (if-true _ _ gone) in
            let same : (idle, e) ≡ s = cc in subst (Winds (asks job, e)) same (closed, omega arith)
        | inr back ↦
            let left : asked hooks now job (some err) e
                ≡ some (idle, stop hooks (record e { adapter = a })) =
              bind-some _ (if-false _ _ back ∙ bind-some _ returns) in
            let same : (idle, stop hooks (record e { adapter = a })) ≡ s = cc in
            subst (Winds (asks job, e)) same (closed, omega arith)
      ]

  ask_plugins-Winds :
      (now : ℕ) (job : Job) (e : Engine P) (s : Located P)
      → e.is_closed ≡ true
      → IsOrdered e.adapter
      → ask_plugins hooks now job e ≡ some s
      → Winds (asks job, e) s
  unfolding ask_plugins
  ask_plugins-Winds now job e s closed ordered h =
      let result = run_hooks (hooks.on_process now job) e.plugins in
      asked-Winds now job result.2 (hooked result e) s closed ordered h

  dispatch-Winds :
      (now : ℕ) (job : Job) (e : Engine P)
      → e.is_closed ≡ true
      → Winds (starts job, e) (idle, dispatch hooks now job e)
  unfolding dispatch
  dispatch-Winds now job e closed =
      (closed, omega (arith, length-append e.in_flight (activated hooks now job ∷ [])))

  Keeps-Winds : (l : Phase) (e f : Engine P) → e.is_closed ≡ true → Keeps e f → Winds (l, e) (l, f)
  Keeps-Winds l e f closed (ordered, cfg, running, in_flight, registry, same, log) =
      (same ∙ closed, omega (arith, ap length in_flight))

  resolve_drain-Winds :
      (l : Phase) (b : Bool) (e : Engine P)
      → e.is_closed ≡ true
      → Winds (l, e) (l, resolve_drain b e)
  resolve_drain-Winds l true e h = (h, omega arith)
  resolve_drain-Winds l false e h = (h, omega arith)

  release-Winds :
      (fresh : FreshIds) (before : List Job) (job : Job) (after : List Job) (l : Phase)
      (e f : Engine P)
      → e.in_flight ≡ before ++ job ∷ after
      → e.is_closed ≡ true
      → Keeps e f
      → Winds (l, e) (l, release hooks fresh job f)
  unfolding check_drain
  release-Winds fresh before job after l e f flying closed kept =
      let dropped : Engine P = record f {
        running = f.running - 1;
        in_flight = drop_job hooks fresh job.id f.in_flight;
      } in
      let (still, fewer) = resolve_drain-Winds l (is_drained dropped) dropped (kept.5 ∙ closed) in
      let less = length-drop_job hooks fresh before job after in
      let whole : length e.in_flight ≡ length (before ++ job ∷ after) = ap length flying in
      let same : length (drop_job hooks fresh job.id f.in_flight)
          ≡ length (drop_job hooks fresh job.id (before ++ job ∷ after)) =
        ap (λ l. length (drop_job hooks fresh job.id l)) (kept.3 ∙ flying) in
      (still, omega arith)

  drain-Winds : (l : Phase) (e : Engine P) → e.is_closed ≡ true → Winds (l, e) (l, drain e)
  drain-Winds l e closed = elim (Bool-cases (Adapter.size e.adapter == 0 && e.running == 0)) [
    | inl empty ↦ rw empty (closed, omega arith)
    | inr waits ↦ rw waits (closed, omega arith)
  ]

  Step-Winds :
      {s t : Located P} → Step hooks s t → IsSafe hooks s → s.1.is_closed ≡ true → Winds s t
  Step-Winds (enqueues created now id options l e f r h) s closed =
      let (q, g, returns, kept) = enqueue-Keeps hooks created now id options e s.0 in
      let same : g ≡ f = cc in
      subst (λ (k : Engine P). Winds (l, e) (l, k)) same (Keeps-Winds l e g closed kept)
  Step-Winds (takes now e t h) s closed = take_job-Winds now e t closed h
  Step-Winds (hears now job e t h) s closed = ask_plugins-Winds now job e t closed s.0 h
  Step-Winds (dispatches now job e) s closed = dispatch-Winds now job e closed
  Step-Winds (finishes fresh now before job after outcome l e f flying h) s closed =
      let (g, returns, kept) = execute_job-Keeps hooks fresh now job outcome e s.0 in
      let released = finish-release hooks fresh now job outcome e g returns in
      let same : release hooks fresh job g ≡ f = cc in
      subst (λ (k : Engine P). Winds (l, e) (l, k)) same
        (release-Winds fresh before job after l e g flying closed kept)
  Step-Winds (fires timer l e f h) s closed =
      Keeps-Winds l e f closed (same-Keeps hooks _ e f (fire-Keeps hooks timer e s.0) h)
  Step-Winds (expires now job l e f h) s closed =
      Keeps-Winds l e f closed (same-Keeps hooks _ e f (expire-Keeps hooks now job e s.0) h)
  Step-Winds (pauses l e) s closed = (closed, omega arith)
  Step-Winds (resumes l e) s closed = (closed, omega arith)
  Step-Winds (drains l e) s closed = drain-Winds l e closed
  Step-Winds (registers type l e) s closed = (closed, omega arith)
  Step-Winds (clears l e) s closed = (closed, omega arith)
  Step-Winds (shuts_down l e) s closed = (refl, omega arith)
  Step-Winds (closes l e was done) s closed = (closed, omega arith)

  -- After `shutdown` has begun on an engine whose counter is the number of jobs in flight and
  -- within the limit, with a worker for a job that its loop has popped, then whatever steps
  -- follow, the engine stays closed; the jobs in flight, and one if the loop has a popped job in
  -- its hands, are never more than they were; and `enqueue` throws and changes nothing.
  pub Reach-Winds :
      (l k : Phase) (e f : Engine P) (created now : ℕ) (id : String) (options : JobOptions)
      → IsSafe hooks (l, e)
      → e.is_closed ≡ true
      → Reach hooks (l, e) (k, f)
      → (f.is_closed ≡ true)
        × (length f.in_flight + claimed k ≤ length e.in_flight + claimed l)
        × (enqueue hooks created now id options f
            ≡ some (inl (queue_error "JobQueue is closed"), f))
  unfolding enqueue
  Reach-Winds l k e f created now id options s closed reach =
      let (safe, (still, fewer)) = winds reach s closed in (still, fewer, if-true _ _ still)
    where
      winds :
          {s t : Located P}
          → Reach hooks s t
          → IsSafe hooks s
          → s.1.is_closed ≡ true
          → IsSafe hooks t × Winds s t
      winds here safe closed = (safe, (closed, omega arith))
      winds (next r step) safe closed =
          let (kept, (still, fewer)) = winds r safe closed in
          let (again, less) = Step-Winds step kept still in
          (Step-IsSafe hooks step kept, (again, omega arith))
