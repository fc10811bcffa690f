-- ===== src/Engine/Steps.antt =====
-- core/JobQueue.ts: the engine under any interleaving of its handlers.
use oblivinx.Base.{
  ℕ, ◌-◌, ◌≡◌, refl, ◌∙◌, ap, String, Option, some, List, [], ◌∷◌, ◌++◌, true, Bool-cases, inl, inr,
  ◌⊎◌, length, arith, subst, ◌==◌, ◌&&◌, sym, Bool, false,
}
use oblivinx.Job.{Job, JobOptions}
use oblivinx.Job.Errors.{Failure}
use oblivinx.Adapter
use oblivinx.Adapter.{MemoryAdapter}
use oblivinx.Scheduler.{Timer}
use oblivinx.Engine.State.{
  Engine, EngineConfig, new_engine, pause, resume, drain, begin_shutdown, end_shutdown, clear,
  register, check_drain, resolve_drain, is_drained,
}
use oblivinx.Engine.Hooks.{Hooks}
use oblivinx.Engine.Enqueue.{enqueue}
use oblivinx.Engine.Loop.{dispatch}
use oblivinx.Engine.Phases.{
  Phase, idle, asks, starts, Located, take_job, ask_plugins, IsSafe, IsSafe-IsSound, take_job-Part,
  ask_plugins-Part, dispatch-IsSafe,
}
use oblivinx.Engine.Finish.{FreshIds, Outcome, execute_job, finish, release, drop_job}
use oblivinx.Engine.Timers.{fire, expire}
use oblivinx.Engine.Keeps.{bind-some, Keeps, ReturnsKept}
use oblivinx.Engine.Total.{execute_job-Keeps}
use oblivinx.Engine.Answers.{enqueue-Keeps, fire-Keeps, expire-Keeps}
use oblivinx.Engine.Bounded.{IsSound, length-drop_job}

module _ {P : Type 0} (hooks : Hooks P) where
  -- One step of the engine, with where its loop stands: a call of a public method, a part of a
  -- round of the loop, the end of a job in flight, or a timer.
  pub data Step : Located P → Located P → Type 0 where
    enqueues :
        (created now : ℕ) (id : String) (options : JobOptions) (l : Phase) (e f : Engine P)
        (r : Failure ⊎ String)
        → enqueue hooks created now id options e ≡ some (r, f)
        → Step (l, e) (l, f)
    takes :
        (now : ℕ) (e : Engine P) (s : Located P) → take_job hooks now e ≡ some s → Step (idle, e) s
    hears :
        (now : ℕ) (job : Job) (e : Engine P) (s : Located P)
        → ask_plugins hooks now job e ≡ some s
        → Step (asks job, e) s
    dispatches :
        (now : ℕ) (job : Job) (e : Engine P) → Step (starts job, e) (idle, dispatch hooks now job e)
    finishes :
        (fresh : FreshIds) (now : ℕ) (before : List Job) (job : Job) (after : List Job)
        (outcome : Outcome) (l : Phase) (e f : Engine P)
        → e.in_flight ≡ before ++ job ∷ after
        → finish hooks fresh now job outcome e ≡ some f
        → Step (l, e) (l, f)
    fires :
        (timer : Timer) (l : Phase) (e f : Engine P)
        → fire hooks timer e ≡ some f
        → Step (l, e) (l, f)
    expires :
        (now : ℕ) (job : Job) (l : Phase) (e f : Engine P)
        → expire hooks now job e ≡ some f
        → Step (l, e) (l, f)
    pauses : (l : Phase) (e : Engine P) → Step (l, e) (l, pause e)
    resumes : (l : Phase) (e : Engine P) → Step (l, e) (l, resume e)
    drains : (l : Phase) (e : Engine P) → Step (l, e) (l, drain e)
    registers : (type : String) (l : Phase) (e : Engine P) → Step (l, e) (l, register type e)
    clears : (l : Phase) (e : Engine P) → Step (l, e) (l, clear e)
    shuts_down : (l : Phase) (e : Engine P) → Step (l, e) (l, begin_shutdown e)
    closes :
        (l : Phase) (e : Engine P)
        → e.is_closed ≡ true
        → e.in_flight ≡ []
        → Step (l, e) (l, end_shutdown e)

  pub data Reach (s : Located P) : Located P → Type 0 where
    here : Reach s s
    next : {t u : Located P} → Reach s t → Step t u → Reach s u

  drain-IsSafe : (l : Phase) (e : Engine P) → IsSafe hooks (l, e) → IsSafe hooks (l, drain e)
  drain-IsSafe l e h = elim (Bool-cases (Adapter.size e.adapter == 0 && e.running == 0)) [
    | inl empty ↦ rw empty h
    | inr waits ↦ rw waits h
  ]

  -- An answer of the handler is the one that it gave.
  pub same-Keeps :
      (r : Option (Engine P)) (e f : Engine P) → ReturnsKept e r → r ≡ some f → Keeps e f
  same-Keeps r e f (g, returns, kept) h = let same : g ≡ f = cc in subst (Keeps e) same kept

  pub finish-release :
      (fresh : FreshIds) (now : ℕ) (job : Job) (outcome : Outcome) (e g : Engine P)
      → execute_job hooks fresh now job outcome e ≡ some g
      → finish hooks fresh now job outcome e ≡ some (release hooks fresh job g)
  unfolding finish
  finish-release fresh now job outcome e g h = bind-some _ h

  Keeps-IsSafe :
      (l : Phase) (e f : Engine P) → Keeps e f → IsSafe hooks (l, e) → IsSafe hooks (l, f)
  Keeps-IsSafe l e f (ordered, cfg, running, in_flight, registry, closed, log)
        (o, counted, bounded) =
      (ordered, running ∙ counted ∙ ap length (sym in_flight), rw (cfg, running) bounded)

  resolve_drain-IsSafe :
      (l : Phase) (b : Bool) (e : Engine P)
      → IsSafe hooks (l, e)
      → IsSafe hooks (l, resolve_drain b e)
  resolve_drain-IsSafe l true e h = h
  resolve_drain-IsSafe l false e h = h

  release-IsSafe :
      (fresh : FreshIds) (before : List Job) (job : Job) (after : List Job) (l : Phase)
      (e f : Engine P)
      → e.in_flight ≡ before ++ job ∷ after
      → IsSafe hooks (l, e)
      → Keeps e f
      → IsSafe hooks (l, release hooks fresh job f)
  unfolding check_drain
  release-IsSafe fresh before job after l e f flying (h, counted, bounded)
        (ordered, cfg, running, in_flight, registry, closed, log) =
      let fewer = length-drop_job hooks fresh before job after in
      let flight : f.in_flight ≡ before ++ job ∷ after = in_flight ∙ flying in
      let whole : length e.in_flight ≡ length (before ++ job ∷ after) = ap length flying in
      let dropped : length (drop_job hooks fresh job.id f.in_flight)
          ≡ length (drop_job hooks fresh job.id (before ++ job ∷ after)) =
        ap (λ l. length (drop_job hooks fresh job.id l)) flight in
      let limit : f.cfg.max_workers ≡ e.cfg.max_workers = ap (λ c. c.max_workers) cfg in
      let left : Engine P = record f {
        running = f.running - 1;
        in_flight = drop_job hooks fresh job.id f.in_flight;
      } in
      resolve_drain-IsSafe l (is_drained left) left (ordered, omega arith, omega arith)

  pub Step-IsSafe : {s t : Located P} → Step s t → IsSafe hooks s → IsSafe hooks t
  Step-IsSafe (enqueues created now id options l e f r h) s =
      let (q, g, returns, kept) = enqueue-Keeps hooks created now id options e s.0 in
      let same : g ≡ f = cc in
      subst (λ (k : Engine P). IsSafe hooks (l, k)) same (Keeps-IsSafe l e g kept s)
  Step-IsSafe (takes now e t h) s =
      let (u, returns, safe, grown) = take_job-Part hooks now e s in
      let same : u ≡ t = cc in subst (IsSafe hooks) same safe
  Step-IsSafe (hears now job e t h) s =
      let (u, returns, safe, grown) = ask_plugins-Part hooks now job e s in
      let same : u ≡ t = cc in subst (IsSafe hooks) same safe
  Step-IsSafe (dispatches now job e) s = (dispatch-IsSafe hooks now job e s).0
  Step-IsSafe (finishes fresh now before job after outcome l e f flying h) s =
      let (g, returns, kept) = execute_job-Keeps hooks fresh now job outcome e s.0 in
      let released = finish-release fresh now job outcome e g returns in
      let same : release hooks fresh job g ≡ f = cc in
      subst (λ (k : Engine P). IsSafe hooks (l, k)) same
        (release-IsSafe fresh before job after l e g flying s kept)
  Step-IsSafe (fires timer l e f h) s =
      Keeps-IsSafe l e f (same-Keeps _ e f (fire-Keeps hooks timer e s.0) h) s
  Step-IsSafe (expires now job l e f h) s =
      Keeps-IsSafe l e f (same-Keeps _ e f (expire-Keeps hooks now job e s.0) h) s
  Step-IsSafe (pauses l e) s = s
  Step-IsSafe (resumes l e) s = s
  Step-IsSafe (drains l e) s = drain-IsSafe l e s
  Step-IsSafe (registers type l e) s = s
  Step-IsSafe (clears l e) s = ((λ c p q. absurd (omega arith)), s.1, s.2)
  Step-IsSafe (shuts_down l e) s = s
  Step-IsSafe (closes l e closed done) s = ((λ c p q. absurd (omega arith)), s.1, s.2)

  reach :
      (cfg : EngineConfig) (plugins : List P) (s : Located P)
      → Reach (idle, new_engine cfg plugins) s
      → IsSafe hooks s
  reach cfg plugins s here = ((λ c p q. absurd (omega arith)), refl, omega arith)
  reach cfg plugins s (next r step) = Step-IsSafe step (reach cfg plugins _ r)

  -- In every state that a new engine reaches, by any sequence of calls, parts of a round of the
  -- loop, ends of jobs and timers, the heap is ordered, `running` is the number of jobs in flight,
  -- and it is at most `workers.max`.
  pub Reach-IsSound :
      (cfg : EngineConfig) (plugins : List P) (l : Phase) (e : Engine P)
      → Reach (idle, new_engine cfg plugins) (l, e)
      → IsSound e
  Reach-IsSound cfg plugins l e r = IsSafe-IsSound hooks l e (reach cfg plugins (l, e) r)
