-- ===== src/Flow/Dag.antt =====
-- core/FlowController.ts, `dag`: Kahn's algorithm over the nodes of a configuration, the
-- registration of the nodes, and the jobs of the roots. `config.nodes` is a list in the order of
-- `Object.entries`. A dependency that is not a node makes `adj.get(dep)!.push` throw (`none` of
-- `add_all`). The `while` loop runs on fuel. `new_id` gives the id that a node is registered under,
-- and `root_id` the id of a root's job. A degree of 0 is never lowered to 0 again, so that a number
-- below 0 (or `NaN`, for a node without a degree) may stay 0 here.
pub mod Graphs
pub mod Kahn
pub mod Sorted
pub mod Restored
pub mod Roots
pub mod Doubled
pub mod Stuck
use oblivinx.Base.{
  ℕ, zero, suc, ◌-◌, Bool, true, false, String, Option, none, some, List, [], ◌∷◌, ◌++◌,
  if◌then◌else◌, ◌==◌, length, default_to, ◌>>=◌,
}
use oblivinx.Base.Dict.{Dict, lookup, insert, erase, has, keys}
use oblivinx.Job.{Job, JobChanges, no_changes, create_job, update_job}
use oblivinx.Wal.{WalOperation, ChainStep, DagNode, of_nodes}
use oblivinx.Flow.{FlowController, Effect, pushed, woken, log_if, dag_defaults}

-- `FlowNode`: a `ChainStep` is a `FlowNode` without its dependencies.
pub record FlowNode : Type 0 where
  pub step : ChainStep
  pub depends_on : Option (List String)

-- `node.dependsOn ?? []`.
abbrev pub deps_of : FlowNode → List String
deps_of node = default_to node.depends_on []

-- `adj` and `inDegree`.
pub record Graph : Type 0 where
  pub adj : Dict (List String)
  pub in_degree : Dict ℕ

abbrev pub neighbors : Dict (List String) → String → List String
neighbors adj id = default_to (lookup id adj) []

abbrev pub degree : Dict ℕ → String → ℕ
degree degrees id = default_to (lookup id degrees) 0

unfoldable pub add_ids : Dict FlowNode → Graph → Graph
add_ids [] g = g
add_ids ((id, _) ∷ nodes) g =
    add_ids nodes (record { adj = insert id [] g.adj; in_degree = insert id 0 g.in_degree })

-- `adj.get(dep)!.push(id)`, and the degree.
unfoldable pub add_edge : String → String → Graph → Option Graph
add_edge id dep g = do
  users ← lookup dep g.adj
  some (record {
    adj = insert dep (users ++ id ∷ []) g.adj;
    in_degree = insert id (suc (degree g.in_degree id)) g.in_degree;
  })

unfoldable pub add_deps : String → List String → Graph → Option Graph
add_deps id [] g = some g
add_deps id (dep ∷ deps) g = do h ← add_edge id dep g; add_deps id deps h

unfoldable pub add_all : Dict FlowNode → Graph → Option Graph
add_all [] g = some g
add_all ((id, node) ∷ nodes) g = do h ← add_deps id (deps_of node) g; add_all nodes h

unfoldable pub build_graph : Dict FlowNode → Option Graph
build_graph nodes = add_all nodes (add_ids nodes (record { adj = []; in_degree = [] }))

-- The ids that the queue begins with.
unfoldable pub zeros : Dict ℕ → List String
zeros [] = []
zeros ((id, deg) ∷ degrees) = let rest = zeros degrees in if deg == 0 then id ∷ rest else rest

-- The `for` loop over the neighbors of the current node.
unfoldable pub relax : List String → Dict ℕ → List String → Dict ℕ × List String
relax [] degrees queue = (degrees, queue)
relax (neighbor ∷ rest) degrees queue =
    let new_deg = degree degrees neighbor - 1 in
    relax rest (insert neighbor new_deg degrees)
      (if degree degrees neighbor == 1 then queue ++ neighbor ∷ [] else queue)

-- The `while` loop: the ids in the order of the sort.
unfoldable pub sort_loop :
    ℕ → Dict (List String) → Dict ℕ → List String → List String → Option (List String)
sort_loop fuel adj degrees [] order = some order
sort_loop zero adj degrees (cur ∷ queue) order = none
sort_loop (suc fuel) adj degrees (cur ∷ queue) order =
    let (lowered, longer) = relax (neighbors adj cur) degrees queue in
    sort_loop fuel adj lowered longer (order ++ cur ∷ [])

abbrev pub register_node : String → String → FlowNode → FlowController → FlowController
register_node id job_id node c = record c {
  dag_nodes =
      insert id
        (record {
          id = id;
          job_id = job_id;
          type = node.step.type;
          deps = deps_of node;
          completed_deps = [];
        })
        c.dag_nodes;
  node_to_job = insert id job_id c.node_to_job;
  job_to_node = insert job_id id c.job_to_node;
}

unfoldable pub register_nodes : (String → String) → Dict FlowNode → FlowController → FlowController
register_nodes new_id [] c = c
register_nodes new_id ((id, node) ∷ nodes) c =
    register_nodes new_id nodes (register_node id (new_id id) node c)

-- `serializedNodes`: every node that is registered, of other flows too.
unfoldable pub serialize_nodes : Dict DagNode → Dict DagNode
serialize_nodes [] = []
serialize_nodes ((id, node) ∷ nodes) =
    (id, record node { completed_deps = [] }) ∷ serialize_nodes nodes

-- `createJob({ ...node, flowId, dependsOn: [] }, DAG_DEFAULTS)` and its update.
unfoldable pub root_job : String → String → ℕ → FlowNode → Job
root_job flow_id job_id now node =
    update_job
      (create_job job_id now
        (record {
          type = node.step.type;
          payload = node.step.payload;
          priority = node.step.priority;
          delay = node.step.delay;
          max_attempts = node.step.max_attempts;
          max_duration = node.step.max_duration;
          ttl = node.step.ttl;
          shard_key = none;
          flow_id = some flow_id;
          depends_on = some [];
          idempotency_key = none;
          retry_policy = none;
        })
        dag_defaults)
      (record no_changes { flow_id = some (some flow_id) })

-- The maps once a root has its job.
abbrev pub remap_root : String → String → Option DagNode → FlowController → FlowController
remap_root id job_id none c = c
remap_root id job_id (some node) c = record c {
  job_to_node = insert job_id id (erase node.job_id c.job_to_node);
  dag_nodes = insert id (record node { job_id = job_id }) c.dag_nodes;
}

abbrev pub is_root : FlowNode → Bool
is_root node = length (deps_of node) == 0

unfoldable pub push_roots :
    String → (String → String) → ℕ → Dict FlowNode → FlowController → FlowController × List Effect
push_roots flow_id root_id now [] c = (c, [])
push_roots flow_id root_id now ((id, node) ∷ nodes) c =
    let job = root_job flow_id (root_id id) now node in
    let (d, effects) =
      push_roots flow_id root_id now nodes
        (if is_root node then remap_root id job.id (lookup id c.dag_nodes) c else c) in
    (d, (if is_root node then pushed job ∷ woken ∷ [] else []) ++ effects)

pub data DagOutcome : Type 0 where
  dangling : DagOutcome
  cyclic : List String → DagOutcome
  accepted : FlowController → List Effect → DagOutcome

-- What follows the sort.
unfoldable pub register :
    String
    → (String → String)
    → (String → String)
    → ℕ
    → Dict FlowNode
    → FlowController
    → FlowController × List Effect
register flow_id new_id root_id now nodes c =
    let registered = register_nodes new_id nodes c in
    let (d, effects) = push_roots flow_id root_id now nodes registered in
    (
      d,
      log_if c.has_wal WalOperation.dag_register flow_id
            (of_nodes (serialize_nodes registered.dag_nodes))
          ++ effects,
    )

abbrev pub after_sort : Dict FlowNode → FlowController × List Effect → List String → DagOutcome
after_sort nodes (d, effects) order =
    if length order == length (keys nodes) then accepted d effects else cyclic (keys nodes)

abbrev pub sort_graph : Dict FlowNode → Graph → Option (List String)
sort_graph nodes g = sort_loop (length nodes) g.adj g.in_degree (zeros g.in_degree) []

abbrev pub dag_of : Option Graph → Dict FlowNode → FlowController × List Effect → Option DagOutcome
dag_of none nodes done = some dangling
dag_of (some g) nodes done = do order ← sort_graph nodes g; some (after_sort nodes done order)

-- `dag`, without the flow id that it returns; `none` is out of fuel.
unfoldable pub dag :
    String
    → (String → String)
    → (String → String)
    → ℕ
    → Dict FlowNode
    → FlowController
    → Option DagOutcome
dag flow_id new_id root_id now nodes c =
    dag_of (build_graph nodes) nodes (register flow_id new_id root_id now nodes c)
