-- ===== src/Plugins/Debounce/LastWins.antt =====
-- plugins/Debounce.ts, `onEnqueue` and `onProcess`, for two jobs of one key.
use oblivinx.Base.{
  ℕ, ◌+◌, ◌<◌, ◌≡◌, ◌≢◌, none, some, arith, String, true, false, eq_iff, eq_refl, str_eq, lt→ltb,
}
use oblivinx.Base.Dict.{Dict, has, insert, lookup-insert, lookup-erase}
use oblivinx.Job.{Job}
use oblivinx.Job.Errors.{discard_job}
use oblivinx.Plugins.Debounce.{Debounce, DebounceEntry, supersede, on_enqueue, on_process}

str_eq-subst : {s t : String} → s ≡ t → str_eq s t ≡ true
str_eq-subst {s} e = ground (arith, e, eq_refl s)

last_wins :
    (d : Debounce) (s : Dict (Unit {0})) (first second : Job)
    → d.superseded ≡ insert first.id tt s
    → first.id ≢ second.id
    → has second.id s ≡ false
    → ((on_process first d).1 ≡ some (discard_job first.id))
      × ((on_process second d).1 ≡ none)
      × (has first.id (on_process first d).0.superseded ≡ false)
unfolding on_process
last_wins d s first second e distinct before =
    let at_first = lookup-insert first.id first.id tt s in
    let at_second = lookup-insert first.id second.id tt s in
    let gone = lookup-erase first.id first.id (insert first.id tt s) in
    let same = eq_refl first.id in
    ground (arith, e, at_first, at_second, gone, same, eq_iff first.id second.id)

module _ (key_fn : Job → String) (d : Debounce) (start now : ℕ) (first second : Job)
    (same : key_fn first ≡ key_fn second) where
  -- The plugin after both jobs were enqueued.
  abbrev pub both : Debounce
  both = on_enqueue key_fn now second (on_enqueue key_fn start first d)

  superseded-both :
      now < d.window_ms + start
      → both.superseded ≡ insert first.id tt (on_enqueue key_fn start first d).superseded
  unfolding on_enqueue supersede
  superseded-both early =
      let entry : DebounceEntry = record { latest_id = first.id; created_at = start } in
      let found = lookup-insert (key_fn first) (key_fn second) entry d.pending in
      let at_key = str_eq-subst same in
      let test = lt→ltb now (d.window_ms + start) early in rw (found, at_key, test)

  -- If two jobs with different ids and the same key are enqueued within the window, and the id of
  -- the second is not marked as superseded, then `onProcess` discards the first, and forgets that
  -- it was superseded, and lets the second through.
  pub superseded_in_window :
      now < d.window_ms + start
      → first.id ≢ second.id
      → has second.id (on_enqueue key_fn start first d).superseded ≡ false
      → ((on_process first both).1 ≡ some (discard_job first.id))
        × ((on_process second both).1 ≡ none)
        × (has first.id (on_process first both).0.superseded ≡ false)
  superseded_in_window early distinct before =
      last_wins both (on_enqueue key_fn start first d).superseded first second
        (superseded-both early) distinct before
