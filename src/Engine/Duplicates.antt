-- ===== src/Engine/Duplicates.antt =====
-- core/JobQueue.ts with plugins/Deduplicator.ts: two calls of `enqueue` with one key.
use oblivinx.Base.{
  if-true, if-false, ℕ, ◌≡◌, refl, ◌∙◌, ap, sym, subst, String, Option, none, some, List, [], ◌∷◌,
  ◌++◌, Bool, true, false, Bool-cases, inl, inr, ◌⊎◌, is_some, if◌then◌else◌, ltb, eq_refl,
}
use mathlib.Core.List.{append-nil}
use oblivinx.Base.Dict.{has, lookup-insert}
use oblivinx.Job.{Job, JobOptions, create_job}
use oblivinx.Job.Errors.{Failure, queue_error}
use oblivinx.Adapter.Total.{IsOrdered, push-Returns}
use oblivinx.Plugins.Deduplicator
use oblivinx.Wal.Truncated.{Record}
use oblivinx.Plugins.Deduplicator.{Deduplicator, key_of}
use oblivinx.Engine.State.{Engine, EngineConfig, size}
use oblivinx.Engine.Hooks.{Hooks, run_hooks, hooked}
use oblivinx.Engine.Enqueue.{accept, enqueue, enqueue_hooked, is_full}
use oblivinx.Engine.Keeps.{bind-some}
use oblivinx.Engine.Bounded.{IsSound}
use oblivinx.Engine.Builtin.{Plugin, deduplicator, builtin}

module _ (limit_key debounce_key : Job → String) (message_of : Failure → String) where
  abbrev hooks : Hooks Plugin
  hooks = builtin limit_key debounce_key message_of

  -- The first plugin is a deduplicator that has the key.
  abbrev pub HasKey : String → List Plugin → Type 0
  HasKey key plugins =
      (d : Deduplicator) × (ps : List Plugin) × (plugins ≡ deduplicator d ∷ ps) × (has key d ≡ true)

  -- The hooks refuse a job whose key is there, and change nothing.
  hooks-refuse :
      (now : ℕ) (job : Job) (ps : List Plugin)
      → HasKey (key_of job) ps
      → run_hooks (hooks.on_enqueue now job) ps ≡ (ps, [], some (queue_error (key_of job)))
  unfolding run_hooks Deduplicator.on_enqueue
  hooks-refuse now job ps (d, rest, same, known) = rw (same, known) refl

  hooks-take :
      (now : ℕ) (job : Job) (d : Deduplicator) (ps : List Plugin)
      → HasKey (key_of job) (run_hooks (hooks.on_enqueue now job) (deduplicator d ∷ ps)).0
  unfolding run_hooks Deduplicator.on_enqueue
  hooks-take now job d ps = elim (Bool-cases (has (key_of job) d)) [
    | inl known ↦ rw known (d, ps, refl, known)
    | inr new ↦ rw new (
      _,
      _,
      refl,
      ap is_some
          (lookup-insert (key_of job) (key_of job) tt d ∙ if-true _ _ (eq_refl (key_of job))),
    )
  ]

  -- What `accept` leaves as it was.
  abbrev Same : Engine Plugin → Engine Plugin → Type 0
  Same e f = (f.plugins ≡ e.plugins) × (f.cfg ≡ e.cfg) × (f.is_closed ≡ e.is_closed)

  accept-Same :
      (now : ℕ) (job : Job) (e : Engine Plugin)
      → IsOrdered e.adapter
      → (f : Engine Plugin) × (accept hooks now job e ≡ some f) × Same e f
  unfolding accept
  accept-Same now job e h =
      let (a, returns, ordered, more) = push-Returns job e.adapter h in
      elim (Bool-cases (ltb now job.run_at)) [
        | inl later ↦ (_, if-true _ _ later, (refl, refl, refl))
        | inr due ↦ (_, if-false _ _ due ∙ bind-some _ returns, (refl, refl, refl))
      ]

  hooked-Same :
      (now : ℕ) (job : Job) (o : Option Failure) (e : Engine Plugin)
      → IsOrdered e.adapter
      → (r : Failure ⊎ String) × (f : Engine Plugin) × (enqueue_hooked hooks now job o e
          ≡ some (r, f))
        × Same e f
  hooked-Same now job (some err) e h = (inl err, e, refl, (refl, refl, refl))
  hooked-Same now job none e h =
      let (f, returns, same) = accept-Same now job e h in (inr job.id, f, bind-some _ returns, same)

  -- The call answers with an error, and only the plugins may have changed.
  abbrev pub IsRefusal : (Failure ⊎ String) × Engine Plugin → Engine Plugin → Type 0
  IsRefusal (r, g) f =
      ((err : Failure) × (r ≡ inl err))
      × (g.adapter ≡ f.adapter)
      × (g.scheduler ≡ f.scheduler)
      × (g.log ≡ f.log)

  enqueue-refused :
      (created now : ℕ) (id : String) (options : JobOptions) (f : Engine Plugin)
      → HasKey (key_of (create_job id created options f.cfg.defaults)) f.plugins
      → (r : Failure ⊎ String) × (g : Engine Plugin) × (enqueue hooks created now id options f
          ≡ some (r, g))
        × IsRefusal (r, g) f
  unfolding enqueue
  enqueue-refused created now id options f known =
      let job = create_job id created options f.cfg.defaults in
      let refused = hooks-refuse created job f.plugins known in
      elim (Bool-cases f.is_closed) [
        | inl closed ↦ (_, _, if-true _ _ closed, ((_, refl), refl, refl, refl))
        | inr opened ↦ elim (Bool-cases (is_full hooks f.cfg.max_queue_size (size f))) [
          | inl full ↦ (_, _, if-false _ _ opened ∙ if-true _ _ full, ((_, refl), refl, refl, refl))
          | inr room ↦ (
            _,
            _,
            if-false _ _ opened
                ∙ if-false _ _ room
                ∙ ap (λ r. enqueue_hooked hooks now job r.2 (hooked r f)) refused,
            ((_, refl), refl, refl, nothing_written f.cfg.has_wal f.log),
          )
        ]
      ]
    where
      nothing_written : (b : Bool) (l : List Record) → (if b then l ++ [] else l) ≡ l
      nothing_written true l = append-nil l
      nothing_written false l = refl

  -- If the first plugin is a deduplicator and a call of `enqueue` got as far as the hooks, then a
  -- next call with the same key is refused, and changes neither the adapter, nor the scheduler,
  -- nor the log. This holds whatever the first call answered, also when a later plugin refused its
  -- job.
  pub enqueue-duplicate :
      (created now created_next next : ℕ) (id id_next : String) (options options_next : JobOptions)
      (d : Deduplicator) (ps : List Plugin) (r : Failure ⊎ String) (e f : Engine Plugin)
      → IsSound e
      → e.plugins ≡ deduplicator d ∷ ps
      → e.is_closed ≡ false
      → is_full hooks e.cfg.max_queue_size (size e) ≡ false
      → key_of (create_job id_next created_next options_next e.cfg.defaults)
        ≡ key_of (create_job id created options e.cfg.defaults)
      → enqueue hooks created now id options e ≡ some (r, f)
      → (answer : Failure ⊎ String) × (g : Engine Plugin) × (enqueue hooks created_next next id_next
            options_next f
          ≡ some (answer, g))
        × IsRefusal (answer, g) f
  unfolding enqueue
  enqueue-duplicate created now created_next next id id_next options options_next d ps r e f s
        plugins opened room key first =
      let job = create_job id created options e.cfg.defaults in
      let result = run_hooks (hooks.on_enqueue created job) e.plugins in
      let (r', f', returns, (same, cfg, closed)) =
        hooked-Same now job result.2 (hooked result e) s.0 in
      let answer : enqueue hooks created now id options e ≡ some (r', f') =
        if-false _ _ opened ∙ if-false _ _ room ∙ returns in
      let it : f' ≡ f = cc in
      let taken : HasKey (key_of job) f'.plugins =
        subst (HasKey (key_of job))
          (ap (λ qs. (run_hooks (hooks.on_enqueue created job) qs).0) (sym plugins) ∙ sym same)
          (hooks-take created job d ps) in
      let there : HasKey (key_of (create_job id_next created_next options_next f'.cfg.defaults))
          f'.plugins =
        subst (λ k. HasKey k f'.plugins)
          (sym (
            ap
              (λ (c : EngineConfig).
                key_of (create_job id_next created_next options_next c.defaults))
              cfg
            ∙ key))
          taken in
      enqueue-refused created_next next id_next options_next f (
        subst
          (λ (k : Engine Plugin).
            HasKey (key_of (create_job id_next created_next options_next k.cfg.defaults)) k.plugins)
          it there)
