-- ===== src/Flow/Dag/Roots.antt =====
-- core/FlowController.ts, `dag`: the jobs of the nodes without dependencies.
use oblivinx.Base.{
  ℕ, ◌≡◌, ◌≢◌, refl, sym, ◌∙◌, ap, subst, String, Option, none, some, List, [], ◌∷◌, ◌++◌,
  if◌then◌else◌, str_eq, arith, eq_iff, eq_refl, Bool, true, false, Bool-cases, inl, inr, ◌⊎◌,
}
use oblivinx.Base.Dict.{Dict, lookup, erase, has, IsUnique, lookup-insert, lookup-erase}
use oblivinx.Wal.{DagNode, WalOperation, WalData}
use oblivinx.Job.{Job, create_job, update_job}
use oblivinx.Flow.{FlowController, Effect, log_if}
use oblivinx.Flow.Chains.{jobs_pushed}
use oblivinx.Flow.Dag.{
  FlowNode, deps_of, is_root, register, register_node, register_nodes, push_roots, remap_root,
  root_job, dag, accepted, build_graph,
}
use oblivinx.Flow.Dag.Restored.{of_accepted}

-- The roots' jobs, in the order of the configuration.
abbrev pub root_jobs : String → (String → String) → ℕ → Dict FlowNode → List Job
root_jobs flow_id root_id now [] = []
root_jobs flow_id root_id now ((id, node) ∷ nodes) =
    let rest = root_jobs flow_id root_id now nodes in
    if is_root node then root_job flow_id (root_id id) now node ∷ rest else rest

-- Every node without dependencies has its job in the map.
abbrev pub KnowsRoots : (String → String) → Dict FlowNode → Dict String → Type 0
KnowsRoots root_id [] m = Unit
KnowsRoots root_id ((id, node) ∷ nodes) m =
    ((is_root node ≡ true) → lookup (root_id id) m ≡ some id) × KnowsRoots root_id nodes m

jobs_pushed-log_if :
    (b : Bool) (op : WalOperation) (id : String) (d : WalData) (es : List Effect)
    → jobs_pushed (log_if b op id d ++ es) ≡ jobs_pushed es
jobs_pushed-log_if true op id d es = refl
jobs_pushed-log_if false op id d es = refl

push_roots-jobs :
    (flow_id : String) (root_id : String → String) (now : ℕ) (nodes : Dict FlowNode)
    (c : FlowController)
    → jobs_pushed (push_roots flow_id root_id now nodes c).1 ≡ root_jobs flow_id root_id now nodes
unfolding push_roots
push_roots-jobs flow_id root_id now [] c = refl
push_roots-jobs flow_id root_id now ((id, node) ∷ nodes) c = elim (Bool-cases (is_root node)) [
  | inl e ↦ rw e (
      ap (◌∷◌ (root_job flow_id (root_id id) now node)) (
        push_roots-jobs flow_id root_id now nodes
          (remap_root id (root_job flow_id (root_id id) now node).id (lookup id c.dag_nodes) c)))
  | inr e ↦ rw e (push_roots-jobs flow_id root_id now nodes c)
]

root_job-id :
    (flow_id job_id : String) (now : ℕ) (node : FlowNode)
    → (root_job flow_id job_id now node).id ≡ job_id
unfolding root_job create_job update_job
root_job-id flow_id job_id now node = refl

module _ (flow_id : String) (new_id root_id : String → String) (now : ℕ)
    (injective : (x y : String) → root_id x ≡ root_id y → x ≡ y)
    (apart : (x y : String) → new_id x ≢ root_id y) where
  -- A node that is registered under the id that was made for it.
  abbrev HasId : String → Dict DagNode → Type 0
  HasId id m = (n : DagNode) × (lookup id m ≡ some n) × (n.job_id ≡ new_id id)

  register_nodes-HasId :
      (nodes : Dict FlowNode) (c : FlowController) (id : String)
      → (has id nodes ≡ true) ⊎ HasId id c.dag_nodes
      → HasId id (register_nodes new_id nodes c).dag_nodes
  unfolding register_nodes lookup
  register_nodes-HasId [] c id (inl h) = absurd (cc)
  register_nodes-HasId [] c id (inr h) = h
  register_nodes-HasId ((k, node) ∷ nodes) c id h =
      let fresh : DagNode = record {
        id = k;
        job_id = new_id k;
        type = node.step.type;
        deps = deps_of node;
        completed_deps = [];
      } in
      register_nodes-HasId nodes (register_node k (new_id k) node c) id
        (elim (Bool-cases (str_eq k id)) [
          | inl e ↦ inr (
            fresh,
            (ground (arith, lookup-insert k id fresh c.dag_nodes)),
            ap new_id ((eq_iff k id).0 e),
          )
          | inr e ↦ elim h [
            | inl there ↦ inl (ground arith)
            | inr (n, found, same) ↦
                inr (n, ground (arith, lookup-insert k id fresh c.dag_nodes), same)
          ]
        ])

  -- A root is remapped: its job is known, and so are those that were.
  remap_root-known :
      (id r : String) (o : Option DagNode) (n : DagNode) (c : FlowController)
      → o ≡ some n
      → n.job_id ≡ new_id id
      → (lookup (root_id r) c.job_to_node ≡ some r) ⊎ (str_eq id r ≡ true)
      → lookup (root_id r) (remap_root id (root_id id) o c).job_to_node ≡ some r
  remap_root-known id r none n c there same h = absurd (cc)
  remap_root-known id r (some node) n c there same h =
      let write = lookup-insert (root_id id) (root_id r) id (erase node.job_id c.job_to_node) in
      let clear = lookup-erase node.job_id (root_id r) c.job_to_node in
      let old : node.job_id ≢ root_id r = λ e. apart id r (cc) in
      elim (Bool-cases (str_eq id r)) [
        | inl e ↦
            let same_id : root_id id ≡ root_id r = ap root_id ((eq_iff id r).0 e) in
            ground (arith, write, eq_iff (root_id id) (root_id r), eq_iff id r)
        | inr e ↦
            let other : root_id id ≢ root_id r =
              λ q. ground (arith, eq_iff id r, injective id r q) in
            elim h [
              | inl known ↦ ground (
                arith,
                write,
                clear,
                eq_iff (root_id id) (root_id r),
                eq_iff node.job_id (root_id r),
              )
              | inr q ↦ absurd (cc)
            ]
      ]

  remap_root-HasId :
      (k id j : String) (o : Option DagNode) (c : FlowController)
      → str_eq id k ≡ false
      → HasId k c.dag_nodes
      → HasId k (remap_root id j o c).dag_nodes
  remap_root-HasId k id j none c differ h = h
  remap_root-HasId k id j (some node) c differ (n, found, same) =
      (n, ground (arith, lookup-insert id k (record node { job_id = j }) c.dag_nodes), same)

  -- The state after one node of the loop.
  abbrev after_node : String → FlowNode → FlowController → FlowController
  after_node id node c =
      let job = root_job flow_id (root_id id) now node in
      if is_root node then remap_root id job.id (lookup id c.dag_nodes) c else c

  abbrev AreWaiting : Dict FlowNode → FlowController → Type 0
  AreWaiting nodes c = (id : String) → has id nodes ≡ true → HasId id c.dag_nodes

  after_node-AreWaiting :
      (id : String) (node : FlowNode) (nodes : Dict FlowNode) (c : FlowController)
      → lookup id nodes ≡ none
      → AreWaiting ((id, node) ∷ nodes) c
      → AreWaiting nodes (after_node id node c)
  unfolding lookup
  after_node-AreWaiting id node nodes c fresh waiting k there =
      let differ : str_eq id k ≡ false = ground (arith, eq_iff id k) in
      let before : HasId k c.dag_nodes = waiting k (ground arith) in
      elim (Bool-cases (is_root node)) [
        | inl e ↦ rw e (
            remap_root-HasId k id (root_job flow_id (root_id id) now node).id
              (lookup id c.dag_nodes) c differ before)
        | inr e ↦ rw e before
      ]

  after_node-known :
      (r id : String) (node : FlowNode) (nodes : Dict FlowNode) (c : FlowController)
      → AreWaiting ((id, node) ∷ nodes) c
      → (lookup (root_id r) c.job_to_node ≡ some r) ⊎ ((str_eq id r ≡ true) × (is_root node ≡ true))
      → lookup (root_id r) (after_node id node c).job_to_node ≡ some r
  unfolding lookup
  after_node-known r id node nodes c waiting h =
      let (n, found, same) = waiting id (ground (arith, eq_refl id)) in
      elim (Bool-cases (is_root node)) [
        | inl e ↦
            rw (e, root_job-id flow_id (root_id id) now node)
              (remap_root-known id r (lookup id c.dag_nodes) n c found same
                (elim h [ inl known ↦ inl known | inr (here, _) ↦ inr here ]))
        | inr e ↦ rw e (elim h [ inl known ↦ known | inr (_, root) ↦ absurd (cc) ])
      ]

  push_roots-known :
      (r : String) (nodes : Dict FlowNode) (c : FlowController)
      → IsUnique nodes
      → AreWaiting nodes c
      → lookup (root_id r) c.job_to_node ≡ some r
      → lookup (root_id r) (push_roots flow_id root_id now nodes c).0.job_to_node ≡ some r
  unfolding push_roots
  push_roots-known r [] c unique waiting h = h
  push_roots-known r ((id, node) ∷ nodes) c unique waiting h =
      push_roots-known r nodes (after_node id node c) unique.1
        (after_node-AreWaiting id node nodes c unique.0 waiting)
        (after_node-known r id node nodes c waiting (inl h))

  push_roots-KnowsRoots :
      (nodes : Dict FlowNode) (c : FlowController)
      → IsUnique nodes
      → AreWaiting nodes c
      → KnowsRoots root_id nodes (push_roots flow_id root_id now nodes c).0.job_to_node
  unfolding push_roots
  push_roots-KnowsRoots [] c unique waiting = tt
  push_roots-KnowsRoots ((id, node) ∷ nodes) c unique waiting =
      let later = after_node-AreWaiting id node nodes c unique.0 waiting in
      (
        λ root.
            push_roots-known id nodes (after_node id node c) unique.1 later
              (after_node-known id id node nodes c waiting (inr (eq_refl id, root))),
        push_roots-KnowsRoots nodes (after_node id node c) unique.1 later,
      )

  -- If the ids of the jobs of the roots differ from each other and from the ids that the nodes are
  -- registered under, and no node stands twice, then where `dag` accepts it pushes one job for
  -- each node without dependencies, in the order of the configuration, and the controller knows
  -- the node of each of these jobs.
  pub dag-KnowsRoots :
      (nodes : Dict FlowNode) (c d : FlowController) (effects : List Effect)
      → IsUnique nodes
      → dag flow_id new_id root_id now nodes c ≡ some (accepted d effects)
      → (jobs_pushed effects ≡ root_jobs flow_id root_id now nodes)
        × KnowsRoots root_id nodes d.job_to_node
  unfolding dag register
  dag-KnowsRoots nodes c d effects unique run =
      let registered = register_nodes new_id nodes c in
      let done = register flow_id new_id root_id now nodes c in
      let (state, same) = of_accepted (build_graph nodes) nodes done d effects run in
      (
        ap jobs_pushed (sym same)
            ∙ jobs_pushed-log_if c.has_wal WalOperation.dag_register flow_id _ _
            ∙ push_roots-jobs flow_id root_id now nodes registered,
        subst (λ (e : FlowController). KnowsRoots root_id nodes e.job_to_node) state
            (push_roots-KnowsRoots nodes registered unique
              (λ id there. register_nodes-HasId nodes c id (inl there))),
      )
