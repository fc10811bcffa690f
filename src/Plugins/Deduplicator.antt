-- ===== src/Plugins/Deduplicator.antt =====
-- plugins/Deduplicator.ts: no two jobs with the same key at once. The `Set` is a dictionary of units.
pub mod Active
use oblivinx.Base.{Option, none, some, if◌then◌else◌, String, default_to}
use oblivinx.Base.Dict.{Dict, has, insert, erase}
use oblivinx.Job.{Job}
use oblivinx.Job.Errors.{Failure, queue_error}

abbrev pub Deduplicator : Type 0
Deduplicator = Dict (Unit {0})

-- `job.idempotencyKey ?? job.id`.
abbrev pub key_of : Job → String
key_of job = default_to job.idempotency_key job.id

unfoldable pub on_enqueue : Job → Deduplicator → Deduplicator × Option Failure
on_enqueue job active =
    if has (key_of job) active
    then (active, some (queue_error (key_of job)))
    else (insert (key_of job) tt active, none)

-- `onComplete`, `onFail` and `onExpire` do the same.
unfoldable pub on_done : Job → Deduplicator → Deduplicator
on_done job active = erase (key_of job) active
