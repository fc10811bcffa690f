-- ===== src/Recovery/Replay.antt =====
-- persistence/Recovery.ts, `replayEntry`, and what each log entry does to the jobs by id.
use mathlib.Core.List.Perm
use mathlib.Core.List.{mem-cons, mem-cons_self, mem-cons_of_mem}
use mathlib.Core.Logic.Or
use mathlib.Core.Logic.{∥∥₁_prop}
use oblivinx.Base.{
  ◌≡◌, refl, sym, ap, ◌∙◌, subst, String, Option, none, some, List, [], ◌∷◌, Perm, Mem,
  Option-cases, inl, inr, arith, eq_iff, str_eq, Bool-cases,
}
use oblivinx.Base.Dict.{
  Dict, lookup, insert, erase, IsUnique, lookup-insert, lookup-erase, lookup-empty, insert-IsUnique,
  erase-IsUnique, erase-none, erase-empty,
}
use oblivinx.Job.{Job, update_job}
use oblivinx.Heap.{HeapEntry, update_entry, find_index}
use oblivinx.Heap.Order.{IsHeap}
use oblivinx.Heap.Valid.{ids, IsNamed}
use oblivinx.Heap.Insert.{insert_job_returns, insert-IsNamed}
use oblivinx.Heap.Extract.{erase-IsNamed}
use oblivinx.Heap.Remove.{
  remove_returns, remove_missing, find_index-none, jobs-update_entry, heap-update_entry,
}
use oblivinx.Adapter
use oblivinx.Adapter.{MemoryAdapter, push, get, update}
use oblivinx.Wal.{WalEntry, WalOperation, WalData, of_job}
use oblivinx.Recovery.{
  mark_active, mark_retrying, push_all, replay_entry, replay_all, update_found, replay_op,
  push_data,
}

-- The adapter keeps the jobs `m`, all of them waiting. An entry may have lost its job, when an id
-- was pushed twice; every job has an entry.
pub record Holds (a : MemoryAdapter) (m : Dict Job) : Type 0 where
  pub order : IsHeap a.heap.heap
  pub waiting : a.heap.jobs ≡ m
  pub index : a.pending_index ≡ m
  pub stored : a.store ≡ []
  pub unique : IsUnique m
  pub named : IsNamed m
  pub covered : (k : String) (j : Job) → lookup k m ≡ some j → Mem k (ids a.heap.heap)

-- What a replayed operation does to the jobs by id.
abbrev pub change_found : (Job → Job) → Option Job → Dict Job → Dict Job
change_found f none m = m
change_found f (some job) m = insert (f job).id (f job) m

abbrev pub put_data : WalData → Dict Job → Dict Job
put_data (of_job job) m = insert job.id job m
put_data _ m = m

abbrev pub replay_op_spec : WalOperation → String → WalData → Dict Job → Dict Job
replay_op_spec WalOperation.enqueue id d m = put_data d m
replay_op_spec WalOperation.activate id d m = change_found mark_active (lookup id m) m
replay_op_spec WalOperation.complete id d m = erase id m
replay_op_spec WalOperation.fail id d m = erase id m
replay_op_spec WalOperation.dlq id d m = erase id m
replay_op_spec WalOperation.expire id d m = erase id m
replay_op_spec WalOperation.retry id d m = change_found mark_retrying (lookup id m) m
replay_op_spec _ id d m = m

abbrev pub replay_spec : List WalEntry → Dict Job → Dict Job
replay_spec [] m = m
replay_spec (e ∷ es) m = replay_spec es (replay_op_spec e.op e.job_id e.data_of m)

abbrev pub put_all : List Job → Dict Job → Dict Job
put_all [] m = m
put_all (job ∷ jobs) m = put_all jobs (insert job.id job m)

-- The call returns, and the adapter then keeps the jobs `m`.
abbrev pub Reaches : Option MemoryAdapter → Dict Job → Type 0
Reaches r m = (b : MemoryAdapter) × (r ≡ some b) × Holds b m

mem_of_perm_cons :
    {k : String} {e : HeapEntry} {l h : List HeapEntry}
    → Perm h (e ∷ l)
    → Mem k (ids l)
    → Mem k (ids h)
mem_of_perm_cons {k} {e} same there =
    (Perm.mem_iff (Perm.map (λ (x : HeapEntry). x.id) same)).1 (mem-cons_of_mem e.id there)

module _ (a : MemoryAdapter) (m : Dict Job) (h : Holds a m) where
  pub push-Holds : (job : Job) → Reaches (push job a) (insert job.id job m)
  unfolding push
  push-Holds job =
      let (heap, returns, order, entries, jobs, counter) = insert_job_returns job a.heap h.order in
      (
        record a { heap = heap; pending_index = insert job.id job a.pending_index },
        rw returns,
        record {
          order = order;
          waiting = jobs ∙ ap (insert job.id job) h.waiting;
          index = ap (insert job.id job) h.index;
          stored = h.stored;
          unique = insert-IsUnique job.id job m h.unique;
          named = insert-IsNamed job m h.named;
          covered = λ k j found. elim (Bool-cases (str_eq job.id k)) [
            | inl same ↦
                (Perm.mem_iff (Perm.map (λ (x : HeapEntry). x.id) entries)).1
                  (rw (← (eq_iff job.id k).0 same) mem-cons_self)
            | inr other ↦
                mem_of_perm_cons entries
                  (h.covered k j (ground (arith, lookup-insert job.id k job m)))
          ];
        },
      )

  pub update-Holds :
      (job old : Job) → lookup job.id m ≡ some old → Holds (update job a) (insert job.id job m)
  unfolding update
  update-Holds job old found =
      let there : lookup job.id a.pending_index ≡ some old = rw h.index found in
      let there_too : lookup job.id a.heap.jobs ≡ some old = rw h.waiting found in
      let written : (update_entry job a.heap).jobs ≡ insert job.id job m =
        rw (jobs-update_entry job a.heap, there_too) (ap (insert job.id job) h.waiting) in
      rw there (record {
        order = rw (heap-update_entry job a.heap) h.order;
        waiting = written;
        index = ap (insert job.id job) h.index;
        stored = h.stored;
        unique = insert-IsUnique job.id job m h.unique;
        named = insert-IsNamed job m h.named;
        covered = λ k j known.
            rw (heap-update_entry job a.heap) (elim (Bool-cases (str_eq job.id k)) [
              | inl same ↦ h.covered k old (rw (← (eq_iff job.id k).0 same) found)
              | inr other ↦ h.covered k j (ground (arith, lookup-insert job.id k job m))
            ]);
      })

  remove-Holds : (id : String) → Reaches (Adapter.remove id a) (erase id m)
  unfolding Adapter.remove
  remove-Holds id = elim (Option-cases (find_index id 0 a.heap.heap)) [
    | inr (i, there) ↦
        let (heap, returns, order, e, has_id, entries, jobs) =
          remove_returns id a.heap i there h.order in
        (
          record {
            heap = heap;
            pending_index = erase id a.pending_index;
            store = erase id a.store;
          },
          rw returns,
          record {
            order = order;
            waiting = jobs ∙ ap (erase id) h.waiting;
            index = ap (erase id) h.index;
            stored = rw h.stored (erase-empty id);
            unique = erase-IsUnique id m h.unique;
            named = erase-IsNamed m id h.named;
            covered = λ k j known.
                Or.elim ∥∥₁_prop
                  (mem-cons.0 (
                    (Perm.mem_iff (Perm.map (λ (x : HeapEntry). x.id) entries)).1
                      (h.covered k j (ground (arith, lookup-erase id k m)))))
                  (λ same. absurd (ground (arith, lookup-erase id k m, eq_iff id k)))
                  (λ later. later);
          },
        )
    | inl missing ↦
        let unknown : lookup id m ≡ none = elim (Option-cases (lookup id m)) [
          | inl absent ↦ absent
          | inr (job, known) ↦
              absurd (find_index-none id 0 a.heap.heap missing (h.covered id job known))
        ] in
        let same : erase id m ≡ m = erase-none id m unknown in
        (
          record a { pending_index = erase id a.pending_index; store = erase id a.store },
          rw (remove_missing id a.heap missing),
          record {
            order = h.order;
            waiting = rw same h.waiting;
            index = ap (erase id) h.index;
            stored = rw h.stored (erase-empty id);
            unique = rw same h.unique;
            named = rw same h.named;
            covered = rw same h.covered;
          },
        )
  ]

  change-Holds :
      (id : String) (f : Job → Job)
      → ((j : Job) → (f j).id ≡ j.id)
      → Holds (update_found f (get id a) a) (change_found f (lookup id m) m)
  unfolding update_found get
  change-Holds id f keeps =
      let none_stored : lookup id a.store ≡ none = rw h.stored (lookup-empty id) in
      elim (Option-cases (lookup id m)) [
        | inl absent ↦
            let nothing : lookup id a.pending_index ≡ none = rw h.index absent in
            rw (nothing, none_stored, absent) h
        | inr (old, known) ↦
            let there : lookup id a.pending_index ≡ some old = rw h.index known in
            rw (there, known)
              (update-Holds (f old) old
                (subst (λ k. lookup k m ≡ some old) (sym (keeps old ∙ h.named id old known)) known))
      ]

-- One entry, and all of them.
module _ (m : Dict Job) (a : MemoryAdapter) (h : Holds a m) where
  replay_op-Reaches :
      (op : WalOperation) (id : String) (d : WalData)
      → Reaches (replay_op op id d a) (replay_op_spec op id d m)
  unfolding replay_op push_data
  replay_op-Reaches WalOperation.enqueue id (of_job job) = push-Holds a m h job
  replay_op-Reaches WalOperation.activate id d =
      (_, refl, change-Holds a m h id mark_active (λ j. unfold update_job in refl))
  replay_op-Reaches WalOperation.retry id d =
      (_, refl, change-Holds a m h id mark_retrying (λ j. unfold update_job in refl))
  replay_op-Reaches WalOperation.complete id d = remove-Holds a m h id
  replay_op-Reaches WalOperation.fail id d = remove-Holds a m h id
  replay_op-Reaches WalOperation.dlq id d = remove-Holds a m h id
  replay_op-Reaches WalOperation.expire id d = remove-Holds a m h id
  replay_op-Reaches _ id d = (a, refl, h)

pub replay_all-Reaches :
    (es : List WalEntry) (a : MemoryAdapter) (m : Dict Job)
    → Holds a m
    → Reaches (replay_all es a) (replay_spec es m)
unfolding replay_all replay_entry
replay_all-Reaches [] a m h = (a, refl, h)
replay_all-Reaches (e ∷ es) a m h =
    let (b, returns, next) = replay_op-Reaches m a h e.op e.job_id e.data_of in
    rw returns (replay_all-Reaches es b _ next)

pub push_all-Reaches :
    (jobs : List Job) (a : MemoryAdapter) (m : Dict Job)
    → Holds a m
    → Reaches (push_all jobs a) (put_all jobs m)
unfolding push_all
push_all-Reaches [] a m h = (a, refl, h)
push_all-Reaches (job ∷ jobs) a m h =
    let (b, returns, next) = push-Holds a m h job in rw returns (push_all-Reaches jobs b _ next)
