-- ===== src/Flow.antt =====
-- packages/queueovn/src/core/FlowController.ts: the chains of jobs, and the nodes of a dependency
-- graph that wait for others. What a method does beside its state (a write to the log, a push to the
-- adapter, the wake-up of the workers) is a list of effects, in order. The generated ids and the time
-- are arguments; a flow id and a node id are not empty. `cancelDownstream` is in `Cancel`, `dag`, which
-- sorts a graph and registers it, in `Dag`.
pub mod Chains
pub mod Cancel
pub mod Replay
pub mod Dag
use oblivinx.Base.{
  ℕ, ◌+◌, Bool, true, false, String, Option, none, some, List, [], ◌∷◌, ◌++◌, if◌then◌else◌, str_eq,
  ◌==◌, length, ◌||◌,
}
use oblivinx.Base.Arrays.{get_elem?}
use oblivinx.Base.Dict.{Dict, lookup, insert, erase, has}
use oblivinx.Base.Value.{Fields}
use oblivinx.Job.{Job, JobOptions, JobDefaults, create_job}
use oblivinx.Wal.{
  WalOperation, WalData, WalEntry, ChainStep, DagNode, of_chain, of_index, of_nodes, of_dependency,
  nothing,
}

abbrev pub dag_defaults : JobDefaults
dag_defaults = record {
  default_priority = 5;
  default_max_attempts = 3;
  default_max_duration = 30_000;
}

pub record Chain : Type 0 where
  pub steps : List ChainStep
  pub current_index : ℕ

pub record FlowController : Type 0 where
  pub has_wal : Bool
  pub dag_nodes : Dict DagNode
  pub node_to_job : Dict String
  pub job_to_node : Dict String
  pub chain_map : Dict Chain

abbrev pub new_controller : Bool → FlowController
new_controller has_wal = record {
  has_wal = has_wal;
  dag_nodes = [];
  node_to_job = [];
  job_to_node = [];
  chain_map = [];
}

pub data Effect : Type 0 where
  logged : WalOperation → String → WalData → Effect
  pushed : Job → Effect
  woken : Effect

-- `this.wal?.append(...)`.
abbrev pub log_if : Bool → WalOperation → String → WalData → List Effect
log_if true op id d = logged op id d ∷ []
log_if false op id d = []

-- `createJob({ ...step, flowId }, DAG_DEFAULTS)`.
abbrev pub job_of_step : String → String → ℕ → ChainStep → Job
job_of_step flow_id job_id now step =
    create_job job_id now
      (record {
        type = step.type;
        payload = step.payload;
        priority = step.priority;
        delay = step.delay;
        max_attempts = step.max_attempts;
        max_duration = step.max_duration;
        ttl = step.ttl;
        shard_key = none;
        flow_id = some flow_id;
        depends_on = none;
        idempotency_key = none;
        retry_policy = none;
      })
      dag_defaults

-- `chain`, which returns the flow id; without steps it does nothing else.
unfoldable pub chain :
    String → String → ℕ → List ChainStep → FlowController → FlowController × List Effect
chain flow_id job_id now [] c = (c, [])
chain flow_id job_id now (first ∷ rest) c = (
  record c {
    chain_map = insert flow_id (record { steps = first ∷ rest; current_index = 0 }) c.chain_map;
  },
  log_if c.has_wal WalOperation.chain_register flow_id (of_chain (first ∷ rest) 0)
      ++ pushed (job_of_step flow_id job_id now first) ∷ woken ∷ [],
)

-- `advanceChain`, once the chain and its next step are looked up; a step past the end is `none`.
abbrev pub advance_to :
    String → String → ℕ → Chain → Option ChainStep → FlowController → FlowController × List Effect
advance_to flow_id job_id now flow none c = (
  record c { chain_map = erase flow_id c.chain_map },
  log_if c.has_wal WalOperation.chain_complete flow_id nothing,
)
advance_to flow_id job_id now flow (some next) c = (
  record c {
    chain_map = insert flow_id (record flow { current_index = flow.current_index + 1 }) c.chain_map;
  },
  log_if c.has_wal WalOperation.chain_advance flow_id (of_index (flow.current_index + 1))
      ++ pushed (job_of_step flow_id job_id now next) ∷ woken ∷ [],
)

abbrev pub advance_found :
    String → String → ℕ → Option Chain → FlowController → FlowController × List Effect
advance_found flow_id job_id now none c = (c, [])
advance_found flow_id job_id now (some flow) c =
    advance_to flow_id job_id now flow (get_elem? flow.steps (flow.current_index + 1)) c

unfoldable pub advance_chain : String → String → ℕ → FlowController → FlowController × List Effect
advance_chain flow_id job_id now c = advance_found flow_id job_id now (lookup flow_id c.chain_map) c

-- The part of `onJobFail` that ends a chain.
abbrev pub end_chain : Bool → String → FlowController → FlowController × List Effect
end_chain true flow_id c = (
  record c { chain_map = erase flow_id c.chain_map },
  log_if c.has_wal WalOperation.chain_complete flow_id nothing,
)
end_chain false flow_id c = (c, [])

unfoldable pub fail_chain : Option String → FlowController → FlowController × List Effect
fail_chain none c = (c, [])
fail_chain (some flow_id) c = end_chain (has flow_id c.chain_map) flow_id c

abbrev pub includes : List String → String → Bool
includes [] x = false
includes (y ∷ l) x = str_eq y x || includes l x

-- `Set.add`.
abbrev pub add_member : String → List String → List String
add_member x l = if includes l x then l else l ++ x ∷ []

-- The job of a node whose dependencies are done: `new_id` gives the generated id.
abbrev pub job_of_node : (String → String) → ℕ → String → DagNode → Job
job_of_node new_id now node_id node =
    create_job (new_id node_id) now
      (record {
        type = node.type;
        payload = Fields.end;
        priority = none;
        delay = none;
        max_attempts = none;
        max_duration = none;
        ttl = none;
        shard_key = none;
        flow_id = some node_id;
        depends_on = none;
        idempotency_key = none;
        retry_policy = none;
      })
      dag_defaults

-- One node of the loop of `unlockDAGDependents`, which depends on the node that is done.
unfoldable pub complete_dep :
    (String → String)
    → ℕ
    → String
    → String
    → DagNode
    → FlowController
    → FlowController × List Effect
complete_dep new_id now done_id node_id node c =
    let marked = record node { completed_deps = add_member done_id node.completed_deps } in
    let wrote =
      log_if c.has_wal WalOperation.dag_complete_dep node_id (of_dependency node_id done_id) in
    let job = job_of_node new_id now node_id node in
    if length marked.completed_deps == length node.deps
    then (
      record c {
        dag_nodes = erase node_id c.dag_nodes;
        node_to_job = erase node_id c.node_to_job;
        job_to_node = insert job.id node_id c.job_to_node;
      },
      wrote ++ pushed job ∷ woken ∷ [],
    )
    else (record c { dag_nodes = insert node_id marked c.dag_nodes }, wrote)

unfoldable pub unlock_each :
    (String → String) → ℕ → String → Dict DagNode → FlowController → FlowController × List Effect
unlock_each new_id now done_id [] c = (c, [])
unlock_each new_id now done_id ((node_id, node) ∷ rest) c =
    let (d, effects) =
      if includes node.deps done_id
      then complete_dep new_id now done_id node_id node c
      else (c, []) in
    let (e, later) = unlock_each new_id now done_id rest d in (e, effects ++ later)

abbrev pub unlock_found :
    (String → String) → ℕ → String → Option String → FlowController → FlowController × List Effect
unlock_found new_id now job_id none c = (c, [])
unlock_found new_id now job_id (some done_id) c =
    unlock_each new_id now done_id c.dag_nodes
      (record c { job_to_node = erase job_id c.job_to_node })

-- `unlockDAGDependents`.
unfoldable pub unlock_dependents :
    (String → String) → ℕ → String → FlowController → FlowController × List Effect
unlock_dependents new_id now job_id c =
    unlock_found new_id now job_id (lookup job_id c.job_to_node) c

-- `onJobComplete`: `next_id` is the id of the next job of a chain.
abbrev pub complete_flow :
    (String → String)
    → String
    → ℕ
    → Job
    → Option String
    → FlowController
    → FlowController × List Effect
complete_flow new_id next_id now job none c = (c, [])
complete_flow new_id next_id now job (some flow_id) c =
    if has flow_id c.chain_map
    then advance_chain flow_id next_id now c
    else unlock_dependents new_id now job.id c

abbrev pub on_job_complete :
    (String → String) → String → ℕ → Job → FlowController → FlowController × List Effect
on_job_complete new_id next_id now job c = complete_flow new_id next_id now job job.flow_id c

-- `chain.currentIndex = data.currentIndex`, if the chain is there.
abbrev pub set_index : String → ℕ → Option Chain → Dict Chain → Dict Chain
set_index flow_id i none m = m
set_index flow_id i (some flow) m = insert flow_id (record flow { current_index = i }) m

abbrev pub mark_done : String → String → Option DagNode → Dict DagNode → Dict DagNode
mark_done node_id done_id none m = m
mark_done node_id done_id (some node) m =
    insert node_id (record node { completed_deps = add_member done_id node.completed_deps }) m

abbrev pub restore_nodes : Dict DagNode → FlowController → FlowController
restore_nodes [] c = c
restore_nodes ((node_id, node) ∷ rest) c = restore_nodes rest (record c {
  dag_nodes = insert node_id node c.dag_nodes;
  node_to_job = insert node_id node.job_id c.node_to_job;
  job_to_node = insert node.job_id node_id c.job_to_node;
})

-- One entry of `restoreFromWAL`.
abbrev pub restore_op : WalOperation → String → WalData → FlowController → FlowController
restore_op WalOperation.chain_register id (of_chain steps i) c = record c {
  chain_map = insert id (record { steps = steps; current_index = i }) c.chain_map;
}
restore_op WalOperation.chain_advance id (of_index i) c = record c {
  chain_map = set_index id i (lookup id c.chain_map) c.chain_map;
}
restore_op WalOperation.chain_complete id d c = record c { chain_map = erase id c.chain_map }
restore_op WalOperation.dag_register id (of_nodes nodes) c = restore_nodes nodes c
restore_op WalOperation.dag_complete_dep id (of_dependency node_id done_id) c = record c {
  dag_nodes = mark_done node_id done_id (lookup node_id c.dag_nodes) c.dag_nodes;
}
restore_op _ id d c = c

abbrev pub restore_from_wal : List WalEntry → FlowController → FlowController
restore_from_wal [] c = c
restore_from_wal (e ∷ es) c = restore_from_wal es (restore_op e.op e.job_id e.data_of c)
