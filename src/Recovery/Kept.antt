-- ===== src/Recovery/Kept.antt =====
-- persistence/Recovery.ts, `run`: a job whose `ENQUEUE` is in the log, and which no later entry ends.
use oblivinx.Base.{
  ℕ, ◌+◌, ◌≡◌, ◌≢◌, refl, sym, ◌∙◌, ap, String, Bool, true, Option, none, some, List, [], ◌∷◌, ◌++◌,
  Option-cases, Bool-cases, inl, inr, arith, str_eq, eq_iff, eq_refl, not, All,
}
use oblivinx.Base.Dict.{Dict, lookup, erase, lookup-insert, lookup-erase}
use oblivinx.Job.{Job, JobState, active, retrying, pending, is_active, update_job}
use oblivinx.Heap.Valid.{IsNamed}
use oblivinx.Heap.Insert.{insert-IsNamed}
use oblivinx.Heap.Extract.{erase-IsNamed}
use oblivinx.Wal.{WalOperation, WalData, of_job}
use oblivinx.Wal.Truncated.{Record, entries_from}
use mathlib.Core.Option
use oblivinx.Adapter.{MemoryAdapter, empty_adapter, get}
use oblivinx.Recovery.{mark_active, mark_retrying, recover}
use oblivinx.Recovery.Run.{recover_lem}
use oblivinx.Recovery.Replay.{change_found, put_data, replay_op_spec, replay_spec}
use oblivinx.Recovery.Reset.{settled}

-- The job as it was logged, but for its state and its start.
abbrev pub restarted : Job → JobState → Option ℕ → Job
restarted job state started_at = record job { state = state; started_at = started_at }

-- The operation neither ends the job `id` nor writes a job with this id.
abbrev spares_data : String → WalData → Bool
spares_data id (of_job job) = not (str_eq job.id id)
spares_data id _ = true

abbrev pub spares_op : String → WalOperation → String → WalData → Bool
spares_op id WalOperation.enqueue other d = spares_data id d
spares_op id WalOperation.complete other d = not (str_eq other id)
spares_op id WalOperation.fail other d = not (str_eq other id)
spares_op id WalOperation.dlq other d = not (str_eq other id)
spares_op id WalOperation.expire other d = not (str_eq other id)
spares_op id _ other d = true

abbrev pub Spares : String → Record → Type 0
Spares id r = spares_op id r.op r.job_id r.data_of ≡ true

-- The jobs by id still have the job, and each of them stands under its id.
abbrev pub HasJob : Job → Dict Job → Type 0
HasJob job m =
    (state : JobState) × (started_at : Option ℕ) × (lookup job.id m
      ≡ some (restarted job state started_at))

module _ (job : Job) (m : Dict Job) where
  put-HasJob :
      (d : WalData) → HasJob job m → spares_data job.id d ≡ true → HasJob job (put_data d m)
  put-HasJob (of_job other) (s, t, known) h =
      (s, t, ground (arith, lookup-insert other.id job.id other m))
  put-HasJob WalData.nothing h spared = h
  put-HasJob (WalData.of_result r) h spared = h
  put-HasJob (WalData.of_chain steps i) h spared = h
  put-HasJob (WalData.of_index i) h spared = h
  put-HasJob (WalData.of_nodes nodes) h spared = h
  put-HasJob (WalData.of_dependency a b) h spared = h
  put-HasJob (WalData.of_dlq_entry entry) h spared = h

  erase-HasJob :
      (id : String) → HasJob job m → not (str_eq id job.id) ≡ true → HasJob job (erase id m)
  erase-HasJob id (s, t, known) h = (s, t, ground (arith, lookup-erase id job.id m))

  -- A change of the state of some job that is kept.
  change-HasJob :
      (f : Job → Job) (state : JobState) (id : String)
      → ((s : JobState) (t : Option ℕ) → f (restarted job s t) ≡ restarted job state t)
      → ((j : Job) → (f j).id ≡ j.id)
      → IsNamed m
      → HasJob job m
      → HasJob job (change_found f (lookup id m) m)
  change-HasJob f state id changes keeps named (s, t, known) = elim (Option-cases (lookup id m)) [
    | inl absent ↦ rw absent (s, t, known)
    | inr (j, found) ↦ rw found (elim (Bool-cases (str_eq j.id job.id)) [
      | inl same ↦
          let own : j.id ≡ job.id = (eq_iff j.id job.id).0 same in
          let key : id ≡ job.id = sym (named id j found) ∙ own in
          let it : some j ≡ some (restarted job s t) =
            sym found ∙ ap (λ k. lookup k m) key ∙ known in
          (
            state,
            t,
            ground (
              arith,
              lookup-insert (f j).id job.id (f j) m,
              keeps j,
              eq_refl job.id,
              changes s t,
            ),
          )
      | inr other ↦ (s, t, ground (arith, lookup-insert (f j).id job.id (f j) m, keeps j))
    ])
  ]

  op-HasJob :
      (op : WalOperation) (id : String) (d : WalData)
      → spares_op job.id op id d ≡ true
      → IsNamed m
      → HasJob job m
      → HasJob job (replay_op_spec op id d m)
  unfolding update_job
  op-HasJob WalOperation.enqueue id d spared named h = put-HasJob d h spared
  op-HasJob WalOperation.activate id d spared named h =
      change-HasJob mark_active active id (λ s t. refl) (λ j. refl) named h
  op-HasJob WalOperation.retry id d spared named h =
      change-HasJob mark_retrying retrying id (λ s t. refl) (λ j. refl) named h
  op-HasJob WalOperation.complete id d spared named h = erase-HasJob id h spared
  op-HasJob WalOperation.fail id d spared named h = erase-HasJob id h spared
  op-HasJob WalOperation.dlq id d spared named h = erase-HasJob id h spared
  op-HasJob WalOperation.expire id d spared named h = erase-HasJob id h spared
  op-HasJob WalOperation.chain_register id d spared named h = h
  op-HasJob WalOperation.chain_advance id d spared named h = h
  op-HasJob WalOperation.chain_complete id d spared named h = h
  op-HasJob WalOperation.dag_register id d spared named h = h
  op-HasJob WalOperation.dag_complete_dep id d spared named h = h
  op-HasJob WalOperation.dlq_add id d spared named h = h
  op-HasJob WalOperation.dlq_remove id d spared named h = h

put-IsNamed : (d : WalData) (m : Dict Job) → IsNamed m → IsNamed (put_data d m)
put-IsNamed (of_job job) m h = insert-IsNamed job m h
put-IsNamed WalData.nothing m h = h
put-IsNamed (WalData.of_result r) m h = h
put-IsNamed (WalData.of_chain steps i) m h = h
put-IsNamed (WalData.of_index i) m h = h
put-IsNamed (WalData.of_nodes nodes) m h = h
put-IsNamed (WalData.of_dependency a b) m h = h
put-IsNamed (WalData.of_dlq_entry entry) m h = h

change-IsNamed :
    (f : Job → Job) (o : Option Job) (m : Dict Job) → IsNamed m → IsNamed (change_found f o m)
change-IsNamed f none m h = h
change-IsNamed f (some job) m h = insert-IsNamed (f job) m h

op-IsNamed :
    (op : WalOperation) (id : String) (d : WalData) (m : Dict Job)
    → IsNamed m
    → IsNamed (replay_op_spec op id d m)
op-IsNamed WalOperation.enqueue id d m h = put-IsNamed d m h
op-IsNamed WalOperation.activate id d m h = change-IsNamed mark_active (lookup id m) m h
op-IsNamed WalOperation.retry id d m h = change-IsNamed mark_retrying (lookup id m) m h
op-IsNamed WalOperation.complete id d m h = erase-IsNamed m id h
op-IsNamed WalOperation.fail id d m h = erase-IsNamed m id h
op-IsNamed WalOperation.dlq id d m h = erase-IsNamed m id h
op-IsNamed WalOperation.expire id d m h = erase-IsNamed m id h
op-IsNamed WalOperation.chain_register id d m h = h
op-IsNamed WalOperation.chain_advance id d m h = h
op-IsNamed WalOperation.chain_complete id d m h = h
op-IsNamed WalOperation.dag_register id d m h = h
op-IsNamed WalOperation.dag_complete_dep id d m h = h
op-IsNamed WalOperation.dlq_add id d m h = h
op-IsNamed WalOperation.dlq_remove id d m h = h

-- The record that `enqueue` writes.
abbrev pub enqueue_record : ℕ → Job → Record
enqueue_record now job = record {
  now = now;
  op = WalOperation.enqueue;
  job_id = job.id;
  data_of = of_job job;
}

spared_HasJob :
    (job : Job) (rs : List Record) (seq : ℕ) (m : Dict Job)
    → All (Spares job.id) rs
    → IsNamed m
    → HasJob job m
    → HasJob job (replay_spec (entries_from seq rs) m)
unfolding entries_from
spared_HasJob job [] seq m spared named h = h
spared_HasJob job (r ∷ rs) seq m (one, spared) named h =
    spared_HasJob job rs (seq + 1) _ spared (op-IsNamed r.op r.job_id r.data_of m named)
      (op-HasJob job m r.op r.job_id r.data_of one named h)

-- The replay of a log keeps a job after its `ENQUEUE`, as long as no later record ends it.
pub logged_HasJob :
    (now : ℕ) (job : Job) (before after : List Record) (seq : ℕ) (m : Dict Job)
    → IsNamed m
    → All (Spares job.id) after
    → HasJob job (replay_spec (entries_from seq (before ++ enqueue_record now job ∷ after)) m)
unfolding entries_from
logged_HasJob now job [] after seq m named spared =
    spared_HasJob job after (seq + 1) _ spared (insert-IsNamed job m named)
      (job.state, job.started_at, ground (arith, lookup-insert job.id job.id job m, eq_refl job.id))
logged_HasJob now job (r ∷ before) after seq m named spared =
    logged_HasJob now job before after (seq + 1) _ (op-IsNamed r.op r.job_id r.data_of m named)
      spared

settled-restarted :
    (job : Job) (s : JobState) (t : Option ℕ)
    → (state : JobState) × (started_at : Option ℕ) × (settled (restarted job s t)
        ≡ restarted job state started_at)
unfolding update_job
settled-restarted job s t = elim (Bool-cases (is_active s)) [
  | inl flying ↦ (pending, none, rw flying refl)
  | inr waits ↦ (s, t, rw waits refl)
]

-- A recovery with such a log finds the job, waiting and not active.
pub recover-HasJob :
    (now : ℕ) (job : Job) (before after : List Record)
    → All (Spares job.id) after
    → (b : MemoryAdapter) × (state : JobState) × (started_at : Option ℕ) × (recover none
          (entries_from 0 (before ++ enqueue_record now job ∷ after))
          empty_adapter
        ≡ some b)
      × (lookup job.id b.heap.jobs ≡ some (restarted job state started_at))
      × (state ≢ active)
recover-HasJob now job before after spared =
    let es = entries_from 0 (before ++ enqueue_record now job ∷ after) in
    let (b, returns, r) = recover_lem none es in
    let (s, t, known) =
      logged_HasJob now job before after 0 [] (λ k j h. absurd (unfold lookup in cc)) spared in
    let (state, started_at, same) = settled-restarted job s t in
    let found : get job.id b ≡ some (restarted job state started_at) =
      r.found job.id ∙ ap (Option.map settled) known ∙ ap some same in
    (b, state, started_at, returns, r.waits job.id ∙ found, r.idle job.id _ found)
