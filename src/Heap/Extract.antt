-- ===== src/Heap/Extract.antt =====
-- core/PriorityHeap.ts, `extractMin`.
use mathlib.Core.List.Perm
use mathlib.Core.List.{mem-cons_self}
use oblivinx.Base.{
  ℕ, ◌+◌, ◌-◌, ◌≤◌, ◌<◌, ◌≡◌, refl, List, [], ◌∷◌, Perm, none, some, length, arith, ltb, inl, inr,
  lt→ltb, Bool-cases, if◌then◌else◌, All, Option-cases, false, ◌∙◌, ◌==◌, String,
}
use oblivinx.Base.Arrays.{
  drop_last, exchange, length-exchange, get_or-exchange, exchange-perm, length-drop_last,
  get_or-drop_last, pop-perm, All-of_get_or, get_elem?-some,
}
use oblivinx.Base.Dict.{
  Dict, lookup, erase, keys, erase-IsUnique, keys-erase-perm, lookup-erase, lookup-ne-none,
}
use oblivinx.Job.{Job}
use oblivinx.Heap.{HeapEntry, PriorityHeap, extract_min, settle, parent}
use oblivinx.Heap.Order.{blank, at, NotAfter, IsHeap, root_first, swap-exchange, Settles}
use oblivinx.Heap.Down.{DownInv, sink_down-Settles}
use oblivinx.Heap.Valid.{ids, IsNamed, IsValid}

-- No other entry is more urgent.
abbrev pub IsLeast : HeapEntry → List HeapEntry → Type 0
IsLeast top = All (λ e. NotAfter top e)

-- What the call leaves: `top` taken out, and the rest.
pub record Extracted (top : HeapEntry) (q : PriorityHeap) (job : Job) (r : PriorityHeap)
    : Type 0 where
  pub valid : IsValid r
  pub entries : Perm (top ∷ r.heap) q.heap
  pub least : IsLeast top q.heap
  pub found : lookup top.id q.jobs ≡ some job
  pub named : job.id ≡ top.id
  pub jobs : r.jobs ≡ erase top.id q.jobs

pub erase-IsNamed : (m : Dict Job) (id : String) → IsNamed m → IsNamed (erase id m)
erase-IsNamed m id named k j h = ground (arith, lookup-erase id k m, named k j)

-- A job for every entry.
pub job_of_entry :
    (q : PriorityHeap) (e : HeapEntry) (rest : List HeapEntry)
    → IsValid q
    → Perm (e ∷ rest) q.heap
    → (job : Job) × (lookup e.id q.jobs ≡ some job)
job_of_entry q e rest v same =
    let there = Perm.trans (Perm.map (λ (x : HeapEntry). x.id) same) v.tracked in
    elim (Option-cases (lookup e.id q.jobs)) [
      | inl missing ↦
          absurd (lookup-ne-none e.id q.jobs ((Perm.mem_iff there).0 (mem-cons_self)) missing)
      | inr found ↦ found
    ]

-- Without an entry and its job the ids still match.
pub tracked_without :
    (q : PriorityHeap) (e : HeapEntry) (job : Job) (rest : List HeapEntry)
    → IsValid q
    → Perm (e ∷ rest) q.heap
    → lookup e.id q.jobs ≡ some job
    → Perm (ids rest) (keys (erase e.id q.jobs))
tracked_without q e job rest v same found = Perm.cons_inv (
    Perm.trans (Perm.map (λ (x : HeapEntry). x.id) same)
      (Perm.trans v.tracked (Perm.symm (keys-erase-perm e.id job q.jobs v.unique found))))

module _ (a : List HeapEntry) (i : ℕ) (hi : i < length a) where
  abbrev pub cut : List HeapEntry
  cut = drop_last (exchange blank a i (length a - 1))

  pub length-cut : length cut ≡ length a - 1
  length-cut =
      length-drop_last (exchange blank a i (length a - 1))
      ∙ ap_pred (length-exchange blank a i (length a - 1))
    where
      ap_pred :
          length (exchange blank a i (length a - 1)) ≡ length a
          → length (exchange blank a i (length a - 1)) - 1 ≡ length a - 1
      ap_pred e = omega arith

  pub at-cut :
      (c : ℕ) → c + 1 < length a → at cut c ≡ (if i == c then at a (length a - 1) else at a c)
  at-cut c h = ground (
    arith,
    get_or-drop_last blank (exchange blank a i (length a - 1)) c,
    length-exchange blank a i (length a - 1),
    get_or-exchange blank a i (length a - 1) c hi,
  )

  -- Swapping an entry with the last one and popping takes out exactly that entry.
  pub cut-perm : Perm (at a i ∷ cut) a
  cut-perm =
      let swapped = exchange blank a i (length a - 1) in
      let size = length-exchange blank a i (length a - 1) in
      let last : at swapped (length swapped - 1) ≡ at a i =
        ground (arith, size, get_or-exchange blank a i (length a - 1) (length swapped - 1) hi) in
      Perm.trans (rw last at (pop-perm blank swapped (omega (arith, size))))
        (exchange-perm blank a i (length a - 1) hi (omega arith))

cut-DownInv : (a : List HeapEntry) (h : 0 < length a) → IsHeap a → DownInv (cut a 0 h) 0
cut-DownInv a h order = record {
  edges =
      λ c p q r. ground (arith, length-cut a 0 h, at-cut a 0 h c, at-cut a 0 h (parent c), order c);
  bridged = λ c p q r s. absurd (omega arith);
}

settle-Settles : (a : List HeapEntry) → DownInv a 0 → Settles a (settle a)
unfolding settle
settle-Settles a v = elim (Bool-cases (ltb 0 (length a))) [
  | inl more ↦ rw more (sink_down-Settles a 0 (ground arith) v)
  | inr none_left ↦ rw none_left (a, refl, ((λ c p q. absurd (ground arith)), Perm.refl a))
]

-- On any heap whose root is due the call returns what stands under the root's id, and takes the
-- root's entry out.
pub extract_min_returns :
    (now : ℕ) (q : PriorityHeap)
    → IsHeap q.heap
    → 0 < length q.heap
    → (at q.heap 0).run_at ≤ now
    → (heap : List HeapEntry) × (extract_min now q
        ≡ some (
          lookup (at q.heap 0).id q.jobs,
          record q { heap = heap; jobs = erase (at q.heap 0).id q.jobs },
        ))
      × IsHeap heap
      × Perm (at q.heap 0 ∷ heap) q.heap
unfolding extract_min
extract_min_returns now q order h due =
    let (heap, returns, (ordered, same)) =
      settle-Settles (cut q.heap 0 h) (cut-DownInv q.heap h order) in
    let ready : ltb now (at q.heap 0).run_at ≡ false = ground arith in
    (
      heap,
      rw (
        get_elem?-some blank q.heap 0 h,
        ready,
        swap-exchange q.heap 0 (length q.heap - 1) h (omega arith),
        returns,
      ),
      ordered,
      Perm.trans (Perm.cons (at q.heap 0) same) (cut-perm q.heap 0 h),
    )

-- Until the root is due nothing is extracted, whatever stands below it.
pub extract_min_early :
    (now : ℕ) (q : PriorityHeap)
    → 0 < length q.heap
    → now < (at q.heap 0).run_at
    → extract_min now q ≡ some (none, q)
unfolding extract_min
extract_min_early now q h early =
    rw (get_elem?-some blank q.heap 0 h, lt→ltb now (at q.heap 0).run_at early)

module _ (now : ℕ) (q : PriorityHeap) (v : IsValid q) where
  -- On a valid heap that is not empty and whose root is due, `extractMin` returns a job: it is the
  -- job under the root entry's id, no other entry is more urgent than that entry, the entries that
  -- are left are the old ones without it, its job is erased from the map, and the heap is valid
  -- again.
  pub extract_min_due :
      0 < length q.heap
      → (at q.heap 0).run_at ≤ now
      → (job : Job) × (r : PriorityHeap) × (extract_min now q ≡ some (some job, r))
        × Extracted (at q.heap 0) q job r
  extract_min_due h due =
      let top = at q.heap 0 in
      let (heap, returns, order, entries) = extract_min_returns now q v.order h due in
      let (job, found) = job_of_entry q top heap v entries in
      let r : PriorityHeap = record q { heap = heap; jobs = erase top.id q.jobs } in
      (
        job,
        r,
        rw (returns, found),
        record {
          valid = record {
            order = order;
            tracked = tracked_without q top job heap v entries found;
            unique = erase-IsUnique top.id q.jobs v.unique;
            named = erase-IsNamed q.jobs top.id v.named;
          };
          entries = entries;
          least = All-of_get_or blank _ q.heap (λ i p. root_first q.heap i v.order p);
          found = found;
          named = v.named top.id job found;
          jobs = refl;
        },
      )

pub extract_min-empty :
    (now : ℕ) (q : PriorityHeap) → q.heap ≡ [] → extract_min now q ≡ some (none, q)
unfolding extract_min
extract_min-empty now q h = rw h
