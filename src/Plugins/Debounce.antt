-- ===== src/Plugins/Debounce.antt =====
-- plugins/Debounce.ts: the last job of a key within a window supersedes the earlier ones. `keyFn` is
-- a parameter; the `Set` of superseded ids is a dictionary of units.
pub mod LastWins
use oblivinx.Base.{
  ℕ, ◌+◌, Option, none, some, if◌then◌else◌, String, ltb, List, [], ◌∷◌, str_eq, Bool, true, false,
}
use oblivinx.Base.Dict.{Dict, lookup, has, insert, erase}
use oblivinx.Job.{Job}
use oblivinx.Job.Errors.{Failure, discard_job}

pub record DebounceEntry : Type 0 where
  pub latest_id : String
  pub created_at : ℕ

pub record Debounce : Type 0 where
  pub window_ms : ℕ
  pub pending : Dict DebounceEntry
  pub superseded : Dict (Unit {0})

abbrev pub new_debounce : ℕ → Debounce
new_debounce window_ms = record { window_ms = window_ms; pending = []; superseded = [] }

-- `now - existing.createdAt < windowMs`, without the subtraction.
supersede : ℕ → ℕ → Option DebounceEntry → Dict (Unit {0}) → Dict (Unit {0})
supersede now window_ms none superseded = superseded
supersede now window_ms (some entry) superseded =
    if ltb now (window_ms + entry.created_at)
    then insert entry.latest_id tt superseded
    else superseded

-- `entry?.latestId === job.id`.
is_latest : String → Option DebounceEntry → Bool
is_latest id none = false
is_latest id (some entry) = str_eq entry.latest_id id

unfoldable pub on_process : Job → Debounce → Debounce × Option Failure
on_process job d =
    if has job.id d.superseded
    then (record d { superseded = erase job.id d.superseded }, some (discard_job job.id))
    else (d, none)

module _ (key_fn : Job → String) where
  unfoldable pub on_enqueue : ℕ → Job → Debounce → Debounce
  unfolding supersede
  on_enqueue now job d =
      let key = key_fn job in
      record d {
        superseded = supersede now d.window_ms (lookup key d.pending) d.superseded;
        pending = insert key (record { latest_id = job.id; created_at = now }) d.pending;
      }

  -- `_cleanup`, which `onComplete`, `onFail` and `onExpire` call.
  unfoldable pub cleanup : Job → Debounce → Debounce
  unfolding is_latest
  cleanup job d =
      let key = key_fn job in
      record d {
        pending =
            if is_latest job.id (lookup key d.pending) then erase key d.pending else d.pending;
        superseded = erase job.id d.superseded;
      }
