-- ===== src/Plugins/DeadLetterQueue.antt =====
-- plugins/DeadLetterQueue.ts: the jobs that failed for good. What a method does beside its state (a
-- write to the log, a call of the store, the enqueue callback) is a list of effects, in order. An
-- error is its name and its message; the `Date.now()` of a restored entry without a time is not
-- needed, since every logged entry has one.
pub mod Replay
use oblivinx.Base.{
  ℕ, ◌+◌, Bool, true, false, String, Option, none, some, List, [], ◌∷◌, ◌++◌, if◌then◌else◌, ltb,
}
use oblivinx.Base.Dict.{Dict, lookup, insert, erase, has, keys, values}
use oblivinx.Job.{Job, pending}
use oblivinx.Wal.{WalOperation, WalData, WalEntry, SerializedDlqEntry, nothing, of_dlq_entry}

pub record ErrorInfo : Type 0 where
  pub name : String
  pub message : String

pub record DlqEntry : Type 0 where
  pub job : Job
  pub error : ErrorInfo
  pub captured_at : ℕ

-- Whether a log, a store and the enqueue callback are wired up, beside the entries.
pub record DeadLetterQueue : Type 0 where
  pub entries : Dict DlqEntry
  pub has_wal : Bool
  pub has_store : Bool
  pub connected : Bool

abbrev pub new_dlq : DeadLetterQueue
new_dlq = record { entries = []; has_wal = false; has_store = false; connected = false }

pub data Effect : Type 0 where
  logged : WalOperation → String → WalData → Effect
  store_added : String → SerializedDlqEntry → Effect
  store_removed : String → Effect
  enqueued : Job → Effect

pub data RetryError : Type 0 where
  not_found not_connected : RetryError

abbrev pub set_enqueue_callback : DeadLetterQueue → DeadLetterQueue
set_enqueue_callback q = record q { connected = true }

abbrev pub set_wal : DeadLetterQueue → DeadLetterQueue
set_wal q = record q { has_wal = true }

abbrev pub set_store : DeadLetterQueue → DeadLetterQueue
set_store q = record q { has_store = true }

-- `this.wal?.append(...)` and `this.store?.add(...)`.
abbrev pub when {ℓ} : {A : Type ℓ} → Bool → A → List A
when true a = a ∷ []
when false a = []

abbrev pub serialized : ℕ → Job → ErrorInfo → SerializedDlqEntry
serialized now job error = record {
  job = job;
  error_message = error.message;
  error_name = error.name;
  captured_at = now;
}

unfoldable pub on_fail : ℕ → Job → ErrorInfo → DeadLetterQueue → DeadLetterQueue × List Effect
on_fail now job error q = (
  record q {
    entries = insert job.id (record { job = job; error = error; captured_at = now }) q.entries;
  },
  when q.has_wal (logged WalOperation.dlq_add job.id (of_dlq_entry (serialized now job error)))
      ++ when q.has_store (store_added job.id (serialized now job error)),
)

-- What a removal does: the entry goes, here, in the log and in the store.
unfoldable pub remove_entry : String → DeadLetterQueue → DeadLetterQueue × List Effect
remove_entry id q = (
  record q { entries = erase id q.entries },
  when q.has_wal (logged WalOperation.dlq_remove id nothing) ++ when q.has_store (store_removed id),
)

unfoldable pub on_complete : Job → DeadLetterQueue → DeadLetterQueue × List Effect
on_complete job q = if has job.id q.entries then remove_entry job.id q else (q, [])

abbrev pub list : DeadLetterQueue → List DlqEntry
list q = values q.entries

abbrev pub get : String → DeadLetterQueue → Option DlqEntry
get id q = lookup id q.entries

abbrev pub reset_job : Job → Job
reset_job job = record job { attempts = 0; state = pending }

abbrev pub Retried : Type 0
Retried = DeadLetterQueue × List Effect × Option RetryError

-- A retry of an entry, with and without an enqueue callback.
abbrev pub retry_found : Bool → String → DlqEntry → DeadLetterQueue → Retried
retry_found true id entry q =
    let (r, effects) = remove_entry id q in
    (r, effects ++ enqueued (reset_job entry.job) ∷ [], none)
retry_found false id entry q = (q, [], some not_connected)

abbrev pub retry_entry : String → Option DlqEntry → DeadLetterQueue → Retried
retry_entry id none q = (q, [], some not_found)
retry_entry id (some entry) q = retry_found q.connected id entry q

unfoldable pub retry : String → DeadLetterQueue → Retried
retry id q = retry_entry id (lookup id q.entries) q

-- A retry that throws ends the loop.
abbrev pub then_rest : Retried → Retried → Retried
then_rest (q, effects, some error) rest = (q, effects, some error)
then_rest (q, effects, none) (r, later, result) = (r, effects ++ later, result)

unfoldable pub retry_each : List String → DeadLetterQueue → Retried
retry_each [] q = (q, [], none)
retry_each (id ∷ ids) q = then_rest (retry id q) (retry_each ids (retry id q).0)

abbrev pub retry_all : DeadLetterQueue → Retried
retry_all q = retry_each (keys q.entries) q

abbrev pub purge_one : Bool → String → DeadLetterQueue → DeadLetterQueue × List Effect × ℕ
purge_one true id q = let (r, effects) = remove_entry id q in (r, effects, 1)
purge_one false id q = (q, [], 0)

unfoldable pub purge_each : ℕ → Dict DlqEntry → DeadLetterQueue → DeadLetterQueue × List Effect × ℕ
purge_each older_than [] q = (q, [], 0)
purge_each older_than ((id, entry) ∷ rest) q =
    let (r, effects, removed) = purge_one (ltb entry.captured_at older_than) id q in
    let (s, later, more) = purge_each older_than rest r in (s, effects ++ later, removed + more)

-- `purge`, which also returns how many entries it removed.
abbrev pub purge : ℕ → DeadLetterQueue → DeadLetterQueue × List Effect × ℕ
purge older_than q = purge_each older_than q.entries q

abbrev pub restored : SerializedDlqEntry → DlqEntry
restored e = record {
  job = e.job;
  error = record { name = e.error_name; message = e.error_message };
  captured_at = e.captured_at;
}

abbrev pub restore_op : WalOperation → String → WalData → Dict DlqEntry → Dict DlqEntry
restore_op WalOperation.dlq_add id (of_dlq_entry e) m = insert id (restored e) m
restore_op WalOperation.dlq_remove id d m = erase id m
restore_op _ id d m = m

abbrev pub restore_entries : List WalEntry → Dict DlqEntry → Dict DlqEntry
restore_entries [] m = m
restore_entries (e ∷ es) m = restore_entries es (restore_op e.op e.job_id e.data_of m)

-- `restoreFromWAL`.
abbrev pub restore_from_wal : List WalEntry → DeadLetterQueue → DeadLetterQueue
restore_from_wal es q = record q { entries = restore_entries es q.entries }

-- `restoreFromStore`, given what `list` of the store returned.
abbrev pub restore_from_store : List SerializedDlqEntry → DeadLetterQueue → DeadLetterQueue
restore_from_store [] q = q
restore_from_store (e ∷ es) q =
    restore_from_store es (record q { entries = insert e.job.id (restored e) q.entries })
