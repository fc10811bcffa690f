-- ===== src/Recovery/Run.antt =====
-- persistence/Recovery.ts, `run`, into a new adapter.
use mathlib.Core.Option
use oblivinx.Base.{
  ℕ, ◌≤◌, ◌+◌, ◌≡◌, ◌≢◌, refl, sym, ◌∙◌, subst, ap, ◌++◌, str_eq, false, eq_refl, String, Option,
  none, some, List, [], ◌∷◌, Option-cases, inl, inr, arith, Bool, true, length, All,
}
use oblivinx.Base.Dict.{Dict, lookup, insert, lookup-insert, lookup-empty, values}
use oblivinx.Job.{Job, active}
use oblivinx.Heap.Valid.{empty_heap-IsValid}
use oblivinx.Adapter.{MemoryAdapter, empty_adapter, get}
use oblivinx.Wal.{WalEntry, WalWriter, truncate, close}
use oblivinx.Wal.Numbered.{IsCodec}
use oblivinx.Wal.Truncated.{Record, IsPlainRecord, append_all, read_after-truncate_none}
use oblivinx.Recovery.{SnapshotData, snapshot_jobs, recover, run}
use oblivinx.Recovery.Replay.{
  Holds, Reaches, put_all, replay_spec, push_all-Reaches, replay_all-Reaches,
}
use oblivinx.Recovery.Reset.{reset_spec, settled, lookup-reset_self, reset-Holds, settled-ne-active}

empty_adapter-Holds : Holds empty_adapter []
empty_adapter-Holds = record {
  order = empty_heap-IsValid.order;
  waiting = refl;
  index = refl;
  stored = refl;
  unique = tt;
  named = empty_heap-IsValid.named;
  covered = λ k j known. absurd (unfold lookup in cc);
}

-- The jobs by id before step 3.
abbrev pub replayed : Option SnapshotData → List WalEntry → Dict Job
replayed snap es = replay_spec es (put_all (snapshot_jobs snap) [])

replayed-dict :
    (snap : Option SnapshotData) (es : List WalEntry)
    → (c : MemoryAdapter) × Holds c (replayed snap es)
replayed-dict snap es =
    let (b, pushed, first) =
      push_all-Reaches (snapshot_jobs snap) empty_adapter [] empty_adapter-Holds in
    let (c, replayed_all, second) = replay_all-Reaches es b _ first in (c, second)

recover-Holds :
    (snap : Option SnapshotData) (es : List WalEntry)
    → Reaches
        (recover snap es empty_adapter)
        (reset_spec (values (replayed snap es)) (replayed snap es))
unfolding recover
recover-Holds snap es =
    let (b, pushed, first) =
      push_all-Reaches (snapshot_jobs snap) empty_adapter [] empty_adapter-Holds in
    let (c, replayed_all, second) = replay_all-Reaches es b _ first in
    (_, rw (pushed, replayed_all), reset-Holds c _ second)

get-Holds : (a : MemoryAdapter) (m : Dict Job) (k : String) → Holds a m → get k a ≡ lookup k m
unfolding get
get-Holds a m k h =
    let nothing : lookup k a.store ≡ none = rw h.stored (lookup-empty k) in
    elim (Option-cases (lookup k m)) [
      | inl absent ↦
          let gone : lookup k a.pending_index ≡ none = rw h.index absent in
          rw (gone, nothing, absent)
      | inr (job, known) ↦
          let there : lookup k a.pending_index ≡ some job = rw h.index known in rw (there, known)
    ]

-- What a recovery leaves: exactly the jobs of the replay, each waiting, none in flight.
pub record Recovered (m : Dict Job) (b : MemoryAdapter) : Type 0 where
  pub found : (k : String) → get k b ≡ Option.map settled (lookup k m)
  pub waits : (k : String) → lookup k b.heap.jobs ≡ get k b
  pub idle : (k : String) (job : Job) → get k b ≡ some job → job.state ≢ active
  pub stored : b.store ≡ []

mapped-settled : (o : Option Job) (job : Job) → Option.map settled o ≡ some job → job.state ≢ active
mapped-settled none job h = absurd (cc)
mapped-settled (some old) job h =
    let same : settled old ≡ job = cc in subst (λ j. j.state ≢ active) same (settled-ne-active old)

-- A recovery into an empty adapter returns. Then `get` finds exactly the jobs that a dictionary
-- has after the jobs of the snapshot are put in and the log entries are applied in order, with
-- active jobs made pending; every job found waits in the heap, none is active, and the store is
-- empty.
pub recover_lem :
    (snap : Option SnapshotData) (es : List WalEntry)
    → (b : MemoryAdapter) × (recover snap es empty_adapter ≡ some b)
      × Recovered (replayed snap es) b
recover_lem snap es =
    let (b, returns, h) = recover-Holds snap es in
    let (c, kept) = replayed-dict snap es in
    (
      b,
      returns,
      record {
        found =
            λ k. get-Holds b _ k h ∙ lookup-reset_self (replayed snap es) k kept.unique kept.named;
        waits = λ k. rw (h.waiting, get-Holds b _ k h);
        idle = λ k job known. mapped-settled (lookup k (replayed snap es)) job (
            sym (get-Holds b _ k h ∙ lookup-reset_self (replayed snap es) k kept.unique kept.named)
            ∙ known);
        stored = h.stored;
      },
    )

lookup-put_all_other :
    (jobs : List Job) (m : Dict Job) (k : String)
    → All (λ j. str_eq j.id k ≡ false) jobs
    → lookup k (put_all jobs m) ≡ lookup k m
lookup-put_all_other [] m k h = refl
lookup-put_all_other (job ∷ jobs) m k h =
    lookup-put_all_other jobs (insert job.id job m) k h.1
    ∙ ground (arith, lookup-insert job.id k job m, h.0)

put_all-append :
    (xs ys : List Job) (m : Dict Job) → put_all (xs ++ ys) m ≡ put_all ys (put_all xs m)
put_all-append [] ys m = refl
put_all-append (x ∷ xs) ys m = put_all-append xs ys (insert x.id x m)

-- A recovery from a snapshot and an empty log returns, and leaves each job of the snapshot waiting
-- in the heap, pending if it was active and else in the state it had, done and failed jobs too,
-- provided that no later job of the snapshot has its id.
pub snapshot_job_requeued :
    (seq now : ℕ) (before : List Job) (job : Job) (after : List Job)
    → All (λ j. str_eq j.id job.id ≡ false) after
    → (b : MemoryAdapter) × (recover
          (some (record { seq = seq; timestamp = now; jobs = before ++ job ∷ after }))
          []
          empty_adapter
        ≡ some b)
      × (lookup job.id b.heap.jobs ≡ some (settled job))
snapshot_job_requeued seq now before job after others =
    let snap : SnapshotData = record { seq = seq; timestamp = now; jobs = before ++ job ∷ after } in
    let (b, returns, r) = recover_lem (some snap) [] in
    let kept : lookup job.id (put_all (before ++ job ∷ after) []) ≡ some job = rw (
      put_all-append before (job ∷ after) [],
      lookup-put_all_other after (insert job.id job (put_all before [])) job.id others,
      lookup-insert job.id job.id job (put_all before []),
      eq_refl job.id,
    ) in
    (b, returns, r.waits job.id ∙ r.found job.id ∙ ap (Option.map settled) kept)

module _ {Line : Type 0} (encode : WalEntry → Line) (decode : Line → Option WalEntry)
    (is_blank : Line → Bool) (codec : IsCodec encode decode is_blank) where
  -- After a snapshot with number `seq` and its `truncate`, the next appends, as long as there are
  -- at most `seq + 1` of them, do nothing in a recovery, though a `close` has written them to the
  -- file: it computes what it computes from the snapshot alone.
  pub run-truncate :
      (rs : List Record) (w : WalWriter Line) (snap : SnapshotData)
      → All IsPlainRecord rs
      → w.enabled ≡ true
      → length rs ≤ snap.seq + 1
      → run decode is_blank (some snap) (close (append_all encode rs (truncate w))) empty_adapter
        ≡ recover (some snap) [] empty_adapter
  unfolding run
  run-truncate rs w snap p enabled few =
      rw (read_after-truncate_none encode decode is_blank codec rs w snap.seq p enabled few)
