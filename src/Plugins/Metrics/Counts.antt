-- ===== src/Plugins/Metrics/Counts.antt =====
-- plugins/Metrics.ts, snapshot and the hooks: what the numbers of a snapshot mean.
use native.Mathlib.Nat.{div-add-mod, mod-lt}
use oblivinx.Base.{ℕ, ◌+◌, ◌-◌, ◌*◌, ◌/◌, ◌%◌, ◌≤◌, ◌<◌, ◌≡◌, arith, none, lt→ltb, eq_refl}
use oblivinx.Base.Dict.{lookup, lookup-insert, lookup-erase, insert}
use oblivinx.Job.{Job}
use oblivinx.Plugins.Metrics.{Metrics, snapshot, rounded, on_process, on_complete, latency}

between :
    (total count q r : ℕ)
    → 2 * count * q + r ≡ 2 * total + count
    → r < 2 * count
    → (2 * total ≤ 2 * (q * count) + count) × (2 * (q * count) ≤ 2 * total + count)
between total count q r whole rest = (grind arith, grind arith)

pub half_up :
    (total count : ℕ)
    → 0 < count
    → (2 * total ≤ 2 * (rounded total count * count) + count)
      × (2 * (rounded total count * count) ≤ 2 * total + count)
unfolding rounded
half_up total count pos =
    between total count ((2 * total + count) / (2 * count)) ((2 * total + count) % (2 * count))
      (div-add-mod (2 * total + count) (2 * count)) (mod-lt (2 * total + count) (omega arith))

-- If a job was processed, the average latency of a snapshot is the total latency over the number
-- of processed jobs to the nearest whole number: the two differ by at most a half.
pub snapshot_average :
    (depth : ℕ) (m : Metrics)
    → 0 < m.processed
    → (2 * m.total_latency_ms ≤ 2 * ((snapshot depth m).avg_latency_ms * m.processed) + m.processed)
      × (2 * ((snapshot depth m).avg_latency_ms * m.processed)
          ≤ 2 * m.total_latency_ms + m.processed)
unfolding snapshot
snapshot_average depth m pos =
    let test = lt→ltb 0 m.processed pos in rw test (half_up m.total_latency_ms m.processed pos)

-- A job that starts and then completes adds the time between to the total latency, counts as one
-- processed job, leaves the number of active jobs as it was, and leaves no start time under its
-- id.
pub on_complete-on_process :
    (start now : ℕ) (job : Job) (m : Metrics)
    → let n = on_complete now job (on_process start job m) in
      (n.total_latency_ms ≡ m.total_latency_ms + (now - start))
      × (n.processed ≡ m.processed + 1)
      × (n.active_count ≡ m.active_count)
      × (lookup job.id n.start_times ≡ none)
unfolding on_complete on_process latency
on_complete-on_process start now job m =
    let at_job = lookup-insert job.id job.id start m.start_times in
    let same = eq_refl job.id in
    let gone = lookup-erase job.id job.id (insert job.id start m.start_times) in
    ground (arith, at_job, same, gone)
