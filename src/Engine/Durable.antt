-- ===== src/Engine/Durable.antt =====
-- core/JobQueue.ts with persistence/Recovery.ts: what a crash leaves of a job that `enqueue` accepted.
use oblivinx.Base.{
  if-true, if-false, ℕ, ◌-◌, ◌≡◌, ◌≢◌, refl, ◌∙◌, ap, sym, subst, String, Option, none, some, List,
  [], ◌∷◌, ◌++◌, Bool, true, false, Bool-cases, inl, inr, ltb, All, ◌&&◌, ◌==◌, ◌≤◌, length, take,
  take-append,
}
use mathlib.Core.List.{append_assoc}
use oblivinx.Base.Dict.{lookup}
use oblivinx.Job.{Job, JobOptions, JobState, create_job, active}
use oblivinx.Job.Errors.{Failure}
use oblivinx.Adapter
use oblivinx.Adapter.{MemoryAdapter, empty_adapter}
use oblivinx.Adapter.Total.{push-Returns}
use oblivinx.Wal.{WalEntry}
use oblivinx.Wal.Numbered.{IsCodec}
use oblivinx.Wal.Truncated.{Record, IsPlainRecord, entries_from}
use oblivinx.Recovery.{recover, run}
use oblivinx.Recovery.Crash.{crash, written, reopened, run-crash}
use oblivinx.Recovery.Kept.{Spares, enqueue_record, restarted, recover-HasJob}
use oblivinx.Engine.State.{Engine, drain, check_drain, resolve_drain, is_drained, size}
use oblivinx.Engine.Hooks.{Hooks, run_hooks, hooked}
use oblivinx.Engine.Enqueue.{accept, enqueue, enqueue_hooked, is_full}
use oblivinx.Engine.Finish.{FreshIds, release, drop_job}
use oblivinx.Engine.Keeps.{bind-some, Grows, Grows-not, Grows-trans}
use oblivinx.Engine.Total.{execute_job-Keeps}
use oblivinx.Engine.Answers.{enqueue-Keeps, fire-Keeps, expire-Keeps}
use oblivinx.Engine.Bounded.{IsSound}
use oblivinx.Engine.Phases.{
  Phase, Located, IsSafe, IsSafe-IsSound, take_job-Part, ask_plugins-Part, dispatch-IsSafe,
}
use oblivinx.Engine.Steps.{
  Step, Reach, enqueues, takes, hears, dispatches, finishes, fires, expires, pauses, resumes,
  drains, registers, clears, shuts_down, closes, here, next, Step-IsSafe, same-Keeps,
  finish-release,
}

module _ {P : Type 0} (hooks : Hooks P) where
  drain-log : (e : Engine P) → (drain e).log ≡ e.log
  drain-log e = elim (Bool-cases (Adapter.size e.adapter == 0 && e.running == 0)) [
    | inl empty ↦ rw empty refl
    | inr waits ↦ rw waits refl
  ]

  resolve_drain-log : (b : Bool) (e : Engine P) → (resolve_drain b e).log ≡ e.log
  resolve_drain-log true e = refl
  resolve_drain-log false e = refl

  check_drain-log : (e : Engine P) → (check_drain e).log ≡ e.log
  unfolding check_drain
  check_drain-log e = resolve_drain-log (is_drained e) e

  release-log :
      (fresh : FreshIds) (job : Job) (e : Engine P) → (release hooks fresh job e).log ≡ e.log
  release-log fresh job e =
      check_drain-log
        (record e { running = e.running - 1; in_flight = drop_job hooks fresh job.id e.in_flight })

  Step-Grows : {s t : Located P} → Step hooks s t → IsSafe hooks s → Grows s.1.log t.1.log
  Step-Grows (enqueues created now id options l e f r h) s =
      let (q, g, returns, kept) = enqueue-Keeps hooks created now id options e s.0 in
      let same : g ≡ f = cc in subst (λ (k : Engine P). Grows e.log k.log) same kept.6
  Step-Grows (takes now e t h) s =
      let (u, returns, safe, grown) = take_job-Part hooks now e s in
      let same : u ≡ t = cc in subst (λ (k : Located P). Grows e.log k.1.log) same grown
  Step-Grows (hears now job e t h) s =
      let (u, returns, safe, grown) = ask_plugins-Part hooks now job e s in
      let same : u ≡ t = cc in subst (λ (k : Located P). Grows e.log k.1.log) same grown
  Step-Grows (dispatches now job e) s = (dispatch-IsSafe hooks now job e s).1
  Step-Grows (finishes fresh now before job after outcome l e f flying h) s =
      let (g, returns, kept) = execute_job-Keeps hooks fresh now job outcome e s.0 in
      let released = finish-release hooks fresh now job outcome e g returns in
      let same : release hooks fresh job g ≡ f = cc in
      subst (λ (k : Engine P). Grows e.log k.log) same (rw (release-log fresh job g) kept.6)
  Step-Grows (fires timer l e f h) s = (same-Keeps hooks _ e f (fire-Keeps hooks timer e s.0) h).6
  Step-Grows (expires now job l e f h) s =
      (same-Keeps hooks _ e f (expire-Keeps hooks now job e s.0) h).6
  Step-Grows (pauses l e) s = Grows-not e.log
  Step-Grows (resumes l e) s = Grows-not e.log
  Step-Grows (drains l e) s = rw (drain-log e) (Grows-not e.log)
  Step-Grows (registers type l e) s = Grows-not e.log
  Step-Grows (clears l e) s = Grows-not e.log
  Step-Grows (shuts_down l e) s = Grows-not e.log
  Step-Grows (closes l e closed done) s = Grows-not e.log

  Reach-both :
      {s t : Located P} → Reach hooks s t → IsSafe hooks s → IsSafe hooks t × Grows s.1.log t.1.log
  Reach-both {s} here safe = (safe, Grows-not s.1.log)
  Reach-both {s} (next {t} {u} r step) safe =
      let (kept, grown) = Reach-both r safe in
      (
        Step-IsSafe hooks step kept,
        Grows-trans s.1.log t.1.log u.1.log grown (Step-Grows step kept),
      )

  -- A job that is due is accepted at once, and its record is the last one of the log.
  accept_due :
      (now : ℕ) (job : Job) (e : Engine P)
      → e.cfg.has_wal ≡ true
      → ltb now job.run_at ≡ false
      → IsSound e
      → (f : Engine P) × (accept hooks now job e ≡ some f)
        × (f.log ≡ e.log ++ enqueue_record now job ∷ [])
  unfolding accept
  accept_due now job e wal due s =
      let (a, returns, ordered, more) = push-Returns job e.adapter s.0 in
      (_, if-false _ _ due ∙ bind-some _ returns, if-true _ _ wal)

  hooked_logged :
      (now : ℕ) (job : Job) (o : Option Failure) (id : String) (e f : Engine P)
      → e.cfg.has_wal ≡ true
      → ltb now job.run_at ≡ false
      → IsSound e
      → enqueue_hooked hooks now job o e ≡ some (inr id, f)
      → (id ≡ job.id) × (f.log ≡ e.log ++ enqueue_record now job ∷ [])
  hooked_logged now job (some err) id e f wal due s h = absurd (cc)
  hooked_logged now job none id e f wal due s h =
      let (g, returns, logged) = accept_due now job e wal due s in
      let answer : enqueue_hooked hooks now job none e ≡ some (inr job.id, g) =
        bind-some _ returns in
      (cc, (let same : f ≡ g = cc in ap (λ (k : Engine P). k.log) same ∙ logged))

  enqueue_logged :
      (created now : ℕ) (id : String) (options : JobOptions) (r : String) (e f : Engine P)
      → e.cfg.has_wal ≡ true
      → ltb now (create_job id created options e.cfg.defaults).run_at ≡ false
      → IsSound e
      → enqueue hooks created now id options e ≡ some (inr r, f)
      → (before : List Record) × (f.log
          ≡ before ++ enqueue_record now (create_job id created options e.cfg.defaults) ∷ [])
  unfolding enqueue
  enqueue_logged created now id options r e f wal due s h = elim (Bool-cases e.is_closed) [
    | inl closed ↦ let refused = sym (if-true _ _ closed) ∙ h in absurd (cc)
    | inr opened ↦ elim (Bool-cases (is_full hooks e.cfg.max_queue_size (size e))) [
      | inl full ↦ let refused = sym (if-false _ _ opened ∙ if-true _ _ full) ∙ h in absurd (cc)
      | inr room ↦
          let job = create_job id created options e.cfg.defaults in
          let result = run_hooks (hooks.on_enqueue created job) e.plugins in
          (
            _,
            (hooked_logged now job result.2 r (hooked result e) f wal due s
                (sym (if-false _ _ opened ∙ if-false _ _ room) ∙ h)).1,
          )
    ]
  ]

module _ {P : Type 0} (hooks : Hooks P) {Line : Type 0} (encode : WalEntry → Line)
    (decode : Line → Option WalEntry) (is_blank : Line → Bool)
    (codec : IsCodec encode decode is_blank) where
  -- Durability. Take an engine with an ordered heap, a log whose file it began, and a counter that
  -- is the number of jobs in flight and within the limit, with a worker for a job that its loop
  -- has popped. When `enqueue` accepts a job that is due, and any steps of the engine follow
  -- (calls, parts of a round of the loop, ends of jobs, timers, a shutdown), then a crash at that
  -- moment does not lose the job, if the log's stream has by then written the first `n` lines, the
  -- job's among them, and these lines read back: none of them has a job with a retry policy. As
  -- long as no later line of these ends the job's id or enqueues it again, the next process, which
  -- opens the file and runs a recovery without a snapshot into an empty adapter, gets an answer,
  -- and the job waits in the heap with every field as it was enqueued but its state and its start,
  -- and not active.
  pub enqueue-recover :
      (created now : ℕ) (id : String) (options : JobOptions) (r : String) (l k : Phase)
      (e f g : Engine P) (n : ℕ)
      → IsSafe hooks (l, e)
      → e.cfg.has_wal ≡ true
      → ltb now (create_job id created options e.cfg.defaults).run_at ≡ false
      → enqueue hooks created now id options e ≡ some (inr r, f)
      → Reach hooks (l, f) (k, g)
      → length f.log ≤ n
      → All IsPlainRecord (take n g.log)
      → ((later : List Record) → take n g.log ≡ f.log ++ later → All (Spares id) later)
      → (b : MemoryAdapter) × (state : JobState) × (started_at : Option ℕ) × (run decode is_blank
            none
            (reopened encode decode is_blank (crash n (written encode decode is_blank g.log)))
            empty_adapter
          ≡ some b)
        × (lookup id b.heap.jobs
            ≡ some (restarted (create_job id created options e.cfg.defaults) state started_at))
        × (state ≢ active)
  unfolding create_job
  enqueue-recover created now id options r l k e f g n s wal due accepted reach out plain spared =
      let job = create_job id created options e.cfg.defaults in
      let (before, logged) =
        enqueue_logged hooks created now id options r e f wal due (IsSafe-IsSound hooks l e s)
          accepted in
      let safe = Step-IsSafe hooks (enqueues created now id options l e f (inr r) accepted) s in
      let (later, grown) = (Reach-both hooks reach safe).1 in
      let kept = take (n - length f.log) later in
      let there : take n g.log ≡ f.log ++ kept =
        ap (take n) grown ∙ take-append n f.log later out in
      let whole : take n g.log ≡ before ++ enqueue_record now job ∷ kept =
        there
        ∙ ap (λ l. l ++ kept) logged
        ∙ append_assoc before (enqueue_record now job ∷ []) kept in
      let (b, state, started_at, returns, waits, idle) =
        recover-HasJob now job before kept (spared kept there) in
      let replayed =
        run-crash encode decode is_blank codec n g.log plain
        ∙ ap (λ l. recover none (entries_from 0 l) empty_adapter) whole in
      (b, state, started_at, replayed ∙ returns, waits, idle)
