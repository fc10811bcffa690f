-- ===== src/Plugins/DeadLetterQueue/Replay.antt =====
-- plugins/DeadLetterQueue.ts, `restoreFromWAL` of what the other methods log.
use oblivinx.Base.{
  ℕ, ◌+◌, ◌≡◌, refl, sym, ◌∙◌, ap, true, String, Option, none, some, List, [], ◌∷◌, ◌++◌, ltb,
  Bool-cases, inl, inr, Bool, false, All,
}
use oblivinx.Base.Dict.{Dict, lookup, has, keys}
use oblivinx.Job.{Job}
use oblivinx.Wal.{WalEntry, read_all, close}
use oblivinx.Wal.Numbered.{IsCodec}
use oblivinx.Wal.Truncated.{Record, IsPlainRecord, entries_from}
use oblivinx.Recovery.Crash.{written, reopened, read_all-closed}
use oblivinx.Plugins.DeadLetterQueue.{
  ErrorInfo, DlqEntry, DeadLetterQueue, Effect, logged, store_added, store_removed, enqueued,
  Retried, on_fail, on_complete, remove_entry, retry, retry_entry, retry_found, reset_job,
  retry_each, retry_all, purge, purge_each, purge_one, restore_op, restore_entries, then_rest,
  restore_from_wal, new_dlq, set_wal,
}

-- What reaches the log.
abbrev pub writes : List Effect → List Record
writes [] = []
writes (logged op id d ∷ es) = record { now = 0; op = op; job_id = id; data_of = d } ∷ writes es
writes (_ ∷ es) = writes es

-- The methods that change the entries.
pub data Call : Type 0 where
  fails : ℕ → Job → ErrorInfo → Call
  completes : Job → Call
  retries : String → Call
  retries_all : Call
  purges : ℕ → Call

abbrev pub call : Call → DeadLetterQueue → DeadLetterQueue × List Effect
call (fails now job error) q = on_fail now job error q
call (completes job) q = on_complete job q
call (retries id) q = ((retry id q).0, (retry id q).1)
call retries_all q = ((retry_all q).0, (retry_all q).1)
call (purges older_than) q = ((purge older_than q).0, (purge older_than q).1)

abbrev pub call_all : List Call → DeadLetterQueue → DeadLetterQueue × List Effect
call_all [] q = (q, [])
call_all (c ∷ cs) q =
    let (r, effects) = call c q in let (s, later) = call_all cs r in (s, effects ++ later)

-- The writes, replayed without their numbers.
abbrev pub restore_writes : List Record → Dict DlqEntry → Dict DlqEntry
restore_writes [] m = m
restore_writes (r ∷ rs) m = restore_writes rs (restore_op r.op r.job_id r.data_of m)

restore_entries-entries_from :
    (seq : ℕ) (rs : List Record) (m : Dict DlqEntry)
    → restore_entries (entries_from seq rs) m ≡ restore_writes rs m
unfolding entries_from
restore_entries-entries_from seq [] m = refl
restore_entries-entries_from seq (r ∷ rs) m =
    restore_entries-entries_from (seq + 1) rs (restore_op r.op r.job_id r.data_of m)

restore_writes-append :
    (xs ys : List Effect) (m : Dict DlqEntry)
    → restore_writes (writes (xs ++ ys)) m
      ≡ restore_writes (writes ys) (restore_writes (writes xs) m)
restore_writes-append [] ys m = refl
restore_writes-append (logged op id d ∷ xs) ys m =
    restore_writes-append xs ys (restore_op op id d m)
restore_writes-append (store_added id e ∷ xs) ys m = restore_writes-append xs ys m
restore_writes-append (store_removed id ∷ xs) ys m = restore_writes-append xs ys m
restore_writes-append (enqueued j ∷ xs) ys m = restore_writes-append xs ys m

-- The effects, replayed over the entries before them, give the entries after them.
pub record Replays (q : DeadLetterQueue) (effects : List Effect) (r : DeadLetterQueue)
    : Type 0 where
  pub replayed : restore_writes (writes effects) q.entries ≡ r.entries
  pub logs : r.has_wal ≡ true

Replays-nil : (q : DeadLetterQueue) → q.has_wal ≡ true → Replays q [] q
Replays-nil q h = record { replayed = refl; logs = h }

Replays-append :
    (q r s : DeadLetterQueue) (xs ys : List Effect)
    → Replays q xs r
    → Replays r ys s
    → Replays q (xs ++ ys) s
Replays-append q r s xs ys f g = record {
  replayed =
      restore_writes-append xs ys q.entries
      ∙ ap (restore_writes (writes ys)) f.replayed
      ∙ g.replayed;
  logs = g.logs;
}

on_fail-Replays :
    (now : ℕ) (job : Job) (error : ErrorInfo) (q : DeadLetterQueue)
    → q.has_wal ≡ true
    → Replays q (on_fail now job error q).1 (on_fail now job error q).0
unfolding on_fail
on_fail-Replays now job error q h = elim (Bool-cases q.has_store) [
  | inl stored ↦ rw (h, stored) (record { replayed = refl; logs = refl })
  | inr alone ↦ rw (h, alone) (record { replayed = refl; logs = refl })
]

remove_entry-Replays :
    (id : String) (q : DeadLetterQueue)
    → q.has_wal ≡ true
    → Replays q (remove_entry id q).1 (remove_entry id q).0
unfolding remove_entry
remove_entry-Replays id q h = elim (Bool-cases q.has_store) [
  | inl stored ↦ rw (h, stored) (record { replayed = refl; logs = refl })
  | inr alone ↦ rw (h, alone) (record { replayed = refl; logs = refl })
]

on_complete-Replays :
    (job : Job) (q : DeadLetterQueue)
    → q.has_wal ≡ true
    → Replays q (on_complete job q).1 (on_complete job q).0
unfolding on_complete
on_complete-Replays job q h = elim (Bool-cases (has job.id q.entries)) [
  | inl there ↦ rw there (remove_entry-Replays job.id q h)
  | inr absent ↦ rw absent (Replays-nil q h)
]

retry_found-Replays :
    (b : Bool) (id : String) (entry : DlqEntry) (q : DeadLetterQueue)
    → q.has_wal ≡ true
    → Replays q (retry_found b id entry q).1 (retry_found b id entry q).0
retry_found-Replays true id entry q h =
    let gone = remove_entry-Replays id q h in
    Replays-append q (remove_entry id q).0 (remove_entry id q).0 (remove_entry id q).1
      (enqueued (reset_job entry.job) ∷ []) gone (record { replayed = refl; logs = gone.logs })
retry_found-Replays false id entry q h = Replays-nil q h

retry_entry-Replays :
    (id : String) (o : Option DlqEntry) (q : DeadLetterQueue)
    → q.has_wal ≡ true
    → Replays q (retry_entry id o q).1 (retry_entry id o q).0
retry_entry-Replays id none q h = Replays-nil q h
retry_entry-Replays id (some entry) q h = retry_found-Replays q.connected id entry q h

retry-Replays :
    (id : String) (q : DeadLetterQueue) → q.has_wal ≡ true → Replays q (retry id q).1 (retry id q).0
unfolding retry
retry-Replays id q h = retry_entry-Replays id (lookup id q.entries) q h

then_rest-Replays :
    (q : DeadLetterQueue) (first rest : Retried)
    → Replays q first.1 first.0
    → Replays first.0 rest.1 rest.0
    → Replays q (then_rest first rest).1 (then_rest first rest).0
then_rest-Replays q (r, xs, some error) rest f g = f
then_rest-Replays q (r, xs, none) (s, ys, result) f g = Replays-append q r s xs ys f g

retry_each-Replays :
    (ids : List String) (q : DeadLetterQueue)
    → q.has_wal ≡ true
    → Replays q (retry_each ids q).1 (retry_each ids q).0
unfolding retry_each
retry_each-Replays [] q h = Replays-nil q h
retry_each-Replays (id ∷ ids) q h =
    let first = retry-Replays id q h in
    then_rest-Replays q (retry id q) (retry_each ids (retry id q).0) first
      (retry_each-Replays ids (retry id q).0 first.logs)

purge_one-Replays :
    (b : Bool) (id : String) (q : DeadLetterQueue)
    → q.has_wal ≡ true
    → Replays q (purge_one b id q).1 (purge_one b id q).0
purge_one-Replays true id q h = remove_entry-Replays id q h
purge_one-Replays false id q h = Replays-nil q h

purge_each-Replays :
    (older_than : ℕ) (m : Dict DlqEntry) (q : DeadLetterQueue)
    → q.has_wal ≡ true
    → Replays q (purge_each older_than m q).1 (purge_each older_than m q).0
unfolding purge_each
purge_each-Replays older_than [] q h = Replays-nil q h
purge_each-Replays older_than ((id, entry) ∷ rest) q h =
    let one = purge_one-Replays (ltb entry.captured_at older_than) id q h in
    Replays-append q _ _ _ _ one (purge_each-Replays older_than rest _ one.logs)

call-Replays :
    (c : Call) (q : DeadLetterQueue) → q.has_wal ≡ true → Replays q (call c q).1 (call c q).0
call-Replays (fails now job error) q h = on_fail-Replays now job error q h
call-Replays (completes job) q h = on_complete-Replays job q h
call-Replays (retries id) q h = retry-Replays id q h
call-Replays retries_all q h = retry_each-Replays (keys q.entries) q h
call-Replays (purges older_than) q h = purge_each-Replays older_than q.entries q h

call_all-Replays :
    (cs : List Call) (q : DeadLetterQueue)
    → q.has_wal ≡ true
    → Replays q (call_all cs q).1 (call_all cs q).0
call_all-Replays [] q h = Replays-nil q h
call_all-Replays (c ∷ cs) q h =
    let one = call-Replays c q h in
    Replays-append q _ _ _ _ one (call_all-Replays cs (call c q).0 one.logs)

module _ {Line : Type 0} (encode : WalEntry → Line) (decode : Line → Option WalEntry)
    (is_blank : Line → Bool) (codec : IsCodec encode decode is_blank) where
  -- If a dead letter queue starts with no entries and has a log, and after any run of its methods
  -- (`onFail`, `onComplete`, `retry`, `retryAll`, `purge`) the log is closed, with lines that read
  -- back (no job that was written has a retry policy), then a new queue that `restoreFromWAL`
  -- fills from what the next process reads from the file has exactly the same entries, in which an
  -- error is its name and its message.
  pub restore_from_wal-call_all :
      (cs : List Call) (q : DeadLetterQueue)
      → q.has_wal ≡ true
      → q.entries ≡ []
      → All IsPlainRecord (writes (call_all cs q).1)
      → (restore_from_wal
          (read_all decode is_blank (
            reopened encode decode is_blank
              (close (written encode decode is_blank (writes (call_all cs q).1))).file))
          (set_wal new_dlq)).entries
        ≡ (call_all cs q).0.entries
  restore_from_wal-call_all cs q h fresh plain =
      ap (λ es. restore_entries es [])
        (read_all-closed encode decode is_blank codec (writes (call_all cs q).1) plain)
      ∙ restore_entries-entries_from 0 (writes (call_all cs q).1) []
      ∙ ap (restore_writes (writes (call_all cs q).1)) (sym fresh)
      ∙ (call_all-Replays cs q h).replayed
