-- ===== src/Flow/Dag/Stuck.antt =====
-- core/FlowController.ts: a graph with a doubled dependency, from `dag` on.
use oblivinx.Base.{
  ℕ, ◌≡◌, refl, subst, String, Option, none, some, List, [], ◌∷◌, if◌then◌else◌, str_eq, arith,
  eq_iff, All, Bool, true, Bool-cases, inl, inr, ◌⊎◌,
}
use oblivinx.Base.Dict.{Dict, lookup, has, lookup-insert}
use oblivinx.Base.Counts.{count}
use oblivinx.Wal.{DagNode}
use oblivinx.Flow.{FlowController, Effect, new_controller}
use oblivinx.Flow.Dag.{
  FlowNode, deps_of, is_root, register, register_node, register_nodes, push_roots, remap_root,
  root_job, dag, accepted, build_graph,
}
use oblivinx.Flow.Dag.Restored.{of_accepted}
use oblivinx.Flow.Dag.Doubled.{
  IsWaiting, IsDoubled, AllWait, IsHeld, insert-AllWait, IsOtherPush, Ends, unlock_all,
  unlock_all-waits,
}

-- The node `id` of a configuration, with its dependencies.
abbrev pub HasDeps : String → List String → Dict FlowNode → Type 0
HasDeps id deps nodes =
    All (λ e. (str_eq e.0 id ≡ true) → deps_of e.1 ≡ deps) nodes × (has id nodes ≡ true)

module _ (id : String) (deps : List String) where
  new_waits :
      (k job_id : String) (node : FlowNode)
      → deps_of node ≡ deps
      → IsWaiting deps (record {
        id = k;
        job_id = job_id;
        type = node.step.type;
        deps = deps_of node;
        completed_deps = [];
      })
  unfolding count
  new_waits k job_id node same = (same, λ x. omega arith, λ x p. absurd (omega arith))

  register_nodes-IsHeld :
      (new_id : String → String) (nodes : Dict FlowNode) (c : FlowController)
      → All (λ e. (str_eq e.0 id ≡ true) → deps_of e.1 ≡ deps) nodes
      → (has id nodes ≡ true) ⊎ (has id c.dag_nodes ≡ true)
      → AllWait id deps c.dag_nodes
      → IsHeld id deps (register_nodes new_id nodes c)
  unfolding register_nodes lookup
  register_nodes-IsHeld new_id [] c each (inl h) all = absurd (cc)
  register_nodes-IsHeld new_id [] c each (inr h) all = (all, h)
  register_nodes-IsHeld new_id ((k, node) ∷ nodes) c each h all =
      let entry : DagNode = record {
        id = k;
        job_id = new_id k;
        type = node.step.type;
        deps = deps_of node;
        completed_deps = [];
      } in
      let write = lookup-insert k id entry c.dag_nodes in
      register_nodes-IsHeld new_id nodes (register_node k (new_id k) node c) each.1
        (elim (Bool-cases (str_eq k id)) [
          | inl e ↦ inr (ground (arith, write))
          | inr e ↦ elim h [
            | inl there ↦ inl (ground arith)
            | inr there ↦ inr (ground (arith, write))
          ]
        ])
        (insert-AllWait id deps k entry c.dag_nodes (λ e. new_waits k (new_id k) node (each.0 e))
          all)

  lookup-IsWaiting :
      (k : String) (node : DagNode) (m : Dict DagNode)
      → AllWait id deps m
      → lookup k m ≡ some node
      → str_eq k id ≡ true
      → IsWaiting deps node
  unfolding lookup
  lookup-IsWaiting k node [] all found e = absurd (cc)
  lookup-IsWaiting k node ((i, other) ∷ m) all found e = elim (Bool-cases (str_eq i k)) [
    | inl q ↦
        let here : other ≡ node = ground arith in
        subst (IsWaiting deps) here (all.0 (ground (arith, eq_iff i k)))
    | inr q ↦ lookup-IsWaiting k node m all.1 (ground arith) e
  ]

  remap_root-IsHeld :
      (k job_id : String) (o : Option DagNode) (c : FlowController)
      → lookup k c.dag_nodes ≡ o
      → IsHeld id deps c
      → IsHeld id deps (remap_root k job_id o c)
  remap_root-IsHeld k job_id none c found held = held
  remap_root-IsHeld k job_id (some node) c found (all, there) = (
    insert-AllWait id deps k (record node { job_id = job_id }) c.dag_nodes
        (λ e. lookup-IsWaiting k node c.dag_nodes all found e) all,
    ground (arith, lookup-insert k id (record node { job_id = job_id }) c.dag_nodes),
  )

  push_roots-IsHeld :
      (flow_id : String) (root_id : String → String) (now : ℕ) (nodes : Dict FlowNode)
      (c : FlowController)
      → IsHeld id deps c
      → IsHeld id deps (push_roots flow_id root_id now nodes c).0
  unfolding push_roots
  push_roots-IsHeld flow_id root_id now [] c held = held
  push_roots-IsHeld flow_id root_id now ((k, node) ∷ nodes) c held =
      let job = root_job flow_id (root_id k) now node in
      push_roots-IsHeld flow_id root_id now nodes
        (if is_root node then remap_root k job.id (lookup k c.dag_nodes) c else c)
        (elim (Bool-cases (is_root node)) [
          | inl e ↦ rw e (remap_root-IsHeld k job.id (lookup k c.dag_nodes) c refl held)
          | inr e ↦ rw e held
        ])

-- If a new controller accepts a graph in which the dependencies of a node name one twice, then
-- after the ends of any jobs, in any order and number, the node still waits, and no job for it,
-- whose flow id is the name of the node, was pushed.
pub doubled_waits :
    (flow_id : String) (new_id root_id : String → String) (now : ℕ) (nodes : Dict FlowNode)
    (with_wal : Bool) (d : FlowController) (effects : List Effect) (id : String)
    (deps : List String) (ends : Ends)
    → dag flow_id new_id root_id now nodes (new_controller with_wal) ≡ some (accepted d effects)
    → HasDeps id deps nodes
    → IsDoubled deps
    → (has id (unlock_all ends d).0.dag_nodes ≡ true) × All (IsOtherPush id) (unlock_all ends d).1
unfolding dag register
doubled_waits flow_id new_id root_id now nodes with_wal d effects id deps ends run (each, there)
      double =
    let c = new_controller with_wal in
    let done = register flow_id new_id root_id now nodes c in
    let (state, _) = of_accepted (build_graph nodes) nodes done d effects run in
    let registered = register_nodes-IsHeld id deps new_id nodes c each (inl there) tt in
    let held : IsHeld id deps d =
      subst (λ e. IsHeld id deps e) state
        (push_roots-IsHeld id deps flow_id root_id now nodes (register_nodes new_id nodes c)
          registered) in
    let waits = unlock_all-waits ends id deps d double held in (waits.0.1, waits.1)
