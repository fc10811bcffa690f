-- ===== src/Flow/Dag/Doubled.antt =====
-- core/FlowController.ts: a node of a graph whose list of dependencies names one twice.
use oblivinx.Base.{
  ℕ, ◌<◌, ◌≤◌, ◌≡◌, ◌≢◌, refl, ap, String, Option, none, some, List, [], ◌∷◌, ◌++◌, if◌then◌else◌,
  str_eq, ◌==◌, ltb, length, length-append, length-perm, arith, eq_iff, All, All-append, Bool, true,
  false, Bool-cases, inl, inr,
}
use oblivinx.Base.Dict.{Dict, lookup, insert, erase, has, lookup-insert, lookup-erase}
use oblivinx.Base.Counts.{count, count-snoc, part}
use oblivinx.Wal.{DagNode, WalOperation, WalData}
use oblivinx.Flow.{
  FlowController, Effect, pushed, logged, woken, log_if, includes, add_member, complete_dep,
  unlock_each, unlock_found, unlock_dependents, job_of_node,
}
use oblivinx.Job.{create_job}

pub includes-count : (l : List String) (x : String) → includes l x ≡ ltb 0 (count x l)
unfolding count
includes-count [] x = refl
includes-count (y ∷ l) x = ground (arith, includes-count l x)

-- A node that waits for `deps`, of which some are done, each noted once.
abbrev pub IsWaiting : List String → DagNode → Type 0
IsWaiting deps node =
    (node.deps ≡ deps)
    × ((x : String) → count x node.completed_deps ≤ 1)
    × ((x : String) → 0 < count x node.completed_deps → 0 < count x deps)

abbrev pub IsDoubled : List String → Type 0
IsDoubled deps = (twice : String) × (1 < count twice deps)

-- The done ones are never as many as the dependencies.
waits_on :
    (deps : List String) (node : DagNode)
    → IsDoubled deps
    → IsWaiting deps node
    → length node.completed_deps == length node.deps ≡ false
waits_on deps node (twice, double) (same, once, inside) =
    let longer = node.completed_deps ++ twice ∷ [] in
    let (rest, perm, _) = part longer deps (λ x.
      ground (arith, count-snoc x twice node.completed_deps, once x, inside x, eq_iff twice x)) in
    ground (
      arith,
      length-perm perm,
      length-append longer rest,
      length-append node.completed_deps (twice ∷ []),
      ap length same,
    )

-- One more is done.
mark-IsWaiting :
    (deps : List String) (node : DagNode) (done_id : String)
    → includes node.deps done_id ≡ true
    → IsWaiting deps node
    → IsWaiting deps (record node { completed_deps = add_member done_id node.completed_deps })
mark-IsWaiting deps node done_id needed (same, once, inside) =
    let known = includes-count node.completed_deps done_id in
    let inside_deps : 0 < count done_id deps =
      ground (arith, includes-count node.deps done_id, ap (count done_id) same) in
    (
      same,
      λ x.
          ground (arith, known, once x, count-snoc x done_id node.completed_deps, eq_iff done_id x),
      λ x p. ground (
        arith,
        known,
        inside x,
        inside_deps,
        count-snoc x done_id node.completed_deps,
        eq_iff done_id x,
      ),
    )

abbrev pub IsOtherPush : String → Effect → Type 0
IsOtherPush id (pushed job) = job.flow_id ≢ some id
IsOtherPush id (logged _ _ _) = Unit
IsOtherPush id woken = Unit

log_if-IsOtherPush :
    (id : String) (b : Bool) (op : WalOperation) (key : String) (d : WalData) (es : List Effect)
    → All (IsOtherPush id) es
    → All (IsOtherPush id) (log_if b op key d ++ es)
log_if-IsOtherPush id true op key d es h = (tt, h)
log_if-IsOtherPush id false op key d es h = h

log_if-alone :
    (id : String) (b : Bool) (op : WalOperation) (key : String) (d : WalData)
    → All (IsOtherPush id) (log_if b op key d)
log_if-alone id true op key d = (tt, tt)
log_if-alone id false op key d = tt

module _ (id : String) (deps : List String) where
  -- The entries under `id` wait, in a map that has one.
  abbrev pub AllWait : Dict DagNode → Type 0
  AllWait = All (λ e. (str_eq e.0 id ≡ true) → IsWaiting deps e.1)

  pub insert-AllWait :
      (k : String) (node : DagNode) (m : Dict DagNode)
      → ((str_eq k id ≡ true) → IsWaiting deps node)
      → AllWait m
      → AllWait (insert k node m)
  unfolding insert
  insert-AllWait k node [] h all = (h, tt)
  insert-AllWait k node ((i, old) ∷ m) h all = elim (Bool-cases (str_eq i k)) [
    | inl e ↦ rw e (h, all.1)
    | inr e ↦ rw e (all.0, insert-AllWait k node m h all.1)
  ]

  erase-AllWait : (k : String) (m : Dict DagNode) → AllWait m → AllWait (erase k m)
  unfolding erase
  erase-AllWait k [] all = tt
  erase-AllWait k ((i, old) ∷ m) all = elim (Bool-cases (str_eq i k)) [
    | inl e ↦ rw e (erase-AllWait k m all.1)
    | inr e ↦ rw e (all.0, erase-AllWait k m all.1)
  ]

  -- What a step leaves, and what it pushes.
  abbrev pub IsHeld : FlowController → Type 0
  IsHeld c = AllWait c.dag_nodes × (has id c.dag_nodes ≡ true)

  abbrev Holds : FlowController × List Effect → Type 0
  Holds (c, effects) = IsHeld c × All (IsOtherPush id) effects

  complete_dep-Holds :
      (new_id : String → String) (now : ℕ) (done_id k : String) (node : DagNode)
      (c : FlowController)
      → IsDoubled deps
      → ((str_eq k id ≡ true) → IsWaiting deps node)
      → includes node.deps done_id ≡ true
      → IsHeld c
      → Holds (complete_dep new_id now done_id k node c)
  unfolding complete_dep create_job
  complete_dep-Holds new_id now done_id k node c double waits needed (all, there) =
      let marked : DagNode = record node {
        completed_deps = add_member done_id node.completed_deps;
      } in
      let goes_on : (str_eq k id ≡ true) → IsWaiting deps marked =
        λ e. mark-IsWaiting deps node done_id needed (waits e) in
      elim (Bool-cases (length marked.completed_deps == length node.deps)) [
        | inl e ↦
            let other : str_eq k id ≡ false = elim (Bool-cases (str_eq k id)) [
              | inl same ↦ let stuck = waits_on deps marked double (goes_on same) in absurd (cc)
              | inr differ ↦ differ
            ] in
            rw e (
              (erase-AllWait k c.dag_nodes all, ground (arith, lookup-erase k id c.dag_nodes)),
              log_if-IsOtherPush id c.has_wal _ k _
                  (pushed (job_of_node new_id now k node) ∷ woken ∷ [])
                  (λ same. ground (arith, eq_iff k id), (tt, tt)),
            )
        | inr e ↦ rw e (
          (
            insert-AllWait k marked c.dag_nodes goes_on all,
            ground (arith, lookup-insert k id marked c.dag_nodes),
          ),
          log_if-alone id c.has_wal _ k _,
        )
      ]

  unlock_each-Holds :
      (new_id : String → String) (now : ℕ) (done_id : String) (m : Dict DagNode)
      (c : FlowController)
      → IsDoubled deps
      → AllWait m
      → IsHeld c
      → Holds (unlock_each new_id now done_id m c)
  unfolding unlock_each
  unlock_each-Holds new_id now done_id [] c double all held = (held, tt)
  unlock_each-Holds new_id now done_id ((k, node) ∷ m) c double all held =
      let step : Holds (
          if includes node.deps done_id
          then complete_dep new_id now done_id k node c
          else (c, [])) =
        elim (Bool-cases (includes node.deps done_id)) [
          | inl e ↦ rw e (complete_dep-Holds new_id now done_id k node c double all.0 e held)
          | inr e ↦ rw e (held, tt)
        ] in
      let rest = unlock_each-Holds new_id now done_id m _ double all.1 step.0 in
      (rest.0, All-append (IsOtherPush id) _ _ step.1 rest.1)

  unlock_found-Holds :
      (new_id : String → String) (now : ℕ) (job_id : String) (o : Option String)
      (c : FlowController)
      → IsDoubled deps
      → IsHeld c
      → Holds (unlock_found new_id now job_id o c)
  unlock_found-Holds new_id now job_id none c double held = (held, tt)
  unlock_found-Holds new_id now job_id (some done_id) c double held =
      unlock_each-Holds new_id now done_id c.dag_nodes
        (record c { job_to_node = erase job_id c.job_to_node }) double held.0 held

-- The ends of some jobs, each with its time and the ids of the jobs that it starts.
abbrev pub Ends : Type 0
Ends = List ((String → String) × (ℕ × String))

abbrev pub unlock_all : Ends → FlowController → FlowController × List Effect
unlock_all [] c = (c, [])
unlock_all ((new_id, (now, job_id)) ∷ ends) c =
    let (d, effects) = unlock_dependents new_id now job_id c in
    let (e, later) = unlock_all ends d in (e, effects ++ later)

pub unlock_all-waits :
    (ends : Ends) (id : String) (deps : List String) (c : FlowController)
    → IsDoubled deps
    → IsHeld id deps c
    → IsHeld id deps (unlock_all ends c).0 × All (IsOtherPush id) (unlock_all ends c).1
unfolding unlock_dependents
unlock_all-waits [] id deps c double held = (held, tt)
unlock_all-waits ((new_id, (now, job_id)) ∷ ends) id deps c double held =
    let step =
      unlock_found-Holds id deps new_id now job_id (lookup job_id c.job_to_node) c double held in
    let rest =
      unlock_all-waits ends id deps (unlock_dependents new_id now job_id c).0 double step.0 in
    (rest.0, All-append (IsOtherPush id) _ _ step.1 rest.1)
