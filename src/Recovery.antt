-- ===== src/Recovery.antt =====
-- packages/queueovn/src/persistence/Recovery.ts, and the data of Snapshot.ts: what a restarted queue
-- does with the last snapshot and the log. The adapter is the MemoryAdapter; the snapshot and the
-- entries are those that `Snapshot.read` and `WALWriter.readAfter` returned.
pub mod Crash
pub mod Kept
pub mod Replay
pub mod Reset
pub mod Run
use oblivinx.Base.{
  ℕ, Bool, true, false, String, Option, none, some, List, [], ◌∷◌, ◌++◌, if◌then◌else◌, ◌>>=◌,
}
use oblivinx.Job.{Job, pending, active, retrying, no_changes, update_job, is_active}
use oblivinx.Adapter
use oblivinx.Adapter.{MemoryAdapter, push, get, update, get_all}
use oblivinx.Wal.{WalEntry, WalOperation, WalData, WalWriter, of_job, read_after}

pub record SnapshotData : Type 0 where
  pub seq : ℕ
  pub timestamp : ℕ
  pub jobs : List Job

-- What `Snapshot.write` writes.
abbrev pub take_snapshot : ℕ → ℕ → MemoryAdapter → SnapshotData
take_snapshot seq now a = record { seq = seq; timestamp = now; jobs = get_all a }

-- `for (const job of snap.jobs) await this.adapter.push(job)`.
unfoldable pub push_all : List Job → MemoryAdapter → Option MemoryAdapter
push_all [] a = some a
push_all (job ∷ jobs) a = do b ← push job a; push_all jobs b

abbrev pub mark_active : Job → Job
mark_active job = update_job job (record no_changes { state = some active })

abbrev pub mark_retrying : Job → Job
mark_retrying job = update_job job (record no_changes { state = some retrying })

-- `if (job) await this.adapter.update(updateJob(job, ...))`.
update_found : (Job → Job) → Option Job → MemoryAdapter → MemoryAdapter
update_found change none a = a
update_found change (some job) a = update (change job) a

-- `if (data && typeof data === 'object') await this.adapter.push(data)`. Only `ENQUEUE` writes a
-- job, and it writes nothing else.
push_data : WalData → MemoryAdapter → Option MemoryAdapter
push_data (of_job job) a = push job a
push_data _ a = some a

replay_op : WalOperation → String → WalData → MemoryAdapter → Option MemoryAdapter
unfolding push_data update_found
replay_op WalOperation.enqueue id d a = push_data d a
replay_op WalOperation.activate id d a = some (update_found mark_active (get id a) a)
replay_op WalOperation.complete id d a = Adapter.remove id a
replay_op WalOperation.fail id d a = Adapter.remove id a
replay_op WalOperation.dlq id d a = Adapter.remove id a
replay_op WalOperation.expire id d a = Adapter.remove id a
replay_op WalOperation.retry id d a = some (update_found mark_retrying (get id a) a)
replay_op _ id d a = some a

unfoldable pub replay_entry : WalEntry → MemoryAdapter → Option MemoryAdapter
unfolding replay_op
replay_entry e a = replay_op e.op e.job_id e.data_of a

unfoldable pub replay_all : List WalEntry → MemoryAdapter → Option MemoryAdapter
unfolding replay_entry
replay_all [] a = some a
replay_all (e ∷ es) a = do b ← replay_entry e a; replay_all es b

-- Step 3 for one job: an active one goes back to pending, and loses its start time.
abbrev pub reset_job : Job → Job
reset_job job = update_job job (record no_changes { state = some pending; started_at = some none })

reset_one : Bool → Job → MemoryAdapter → MemoryAdapter
reset_one true job a = update (reset_job job) a
reset_one false job a = a

unfoldable pub reset_all : List Job → MemoryAdapter → MemoryAdapter
unfolding reset_one
reset_all [] a = a
reset_all (job ∷ jobs) a = reset_all jobs (reset_one (is_active job.state) job a)

abbrev pub snapshot_jobs : Option SnapshotData → List Job
snapshot_jobs none = []
snapshot_jobs (some snap) = snap.jobs

-- `baseSeq`, with `none` for -1.
abbrev pub base_seq : Option SnapshotData → Option ℕ
base_seq none = none
base_seq (some snap) = some snap.seq

-- `run`, given the entries after the snapshot's number.
unfoldable pub recover : Option SnapshotData → List WalEntry → MemoryAdapter → Option MemoryAdapter
unfolding push_all replay_all reset_all
recover snap entries a = do
  b ← push_all (snapshot_jobs snap) a
  c ← replay_all entries b
  some (reset_all (get_all c) c)

module _ {Line : Type 0} (decode : Line → Option WalEntry) (is_blank : Line → Bool) where
  unfoldable pub run : Option SnapshotData → WalWriter Line → MemoryAdapter → Option MemoryAdapter
  unfolding recover read_after
  run snap w a = recover snap (read_after decode is_blank (base_seq snap) w) a
