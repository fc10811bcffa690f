-- ===== src/Flow/Dag/Restored.antt =====
-- core/FlowController.ts, `dag`: the ids of the jobs of the roots, in memory and in the log.
use oblivinx.Base.{
  ℕ, ◌≡◌, ◌≢◌, refl, ap, subst, String, Option, none, some, List, [], ◌∷◌, str_eq, arith, eq_iff,
  All, true, Bool-cases, inl, inr, ◌>>=◌,
}
use oblivinx.Base.Dict.{Dict, lookup, insert, lookup-insert, lookup-empty}
use oblivinx.Wal.{DagNode}
use oblivinx.Wal.Truncated.{entries_from}
use oblivinx.Flow.{
  FlowController, Effect, new_controller, restore_nodes, restore_from_wal, unlock_dependents,
  unlock_found,
}
use oblivinx.Flow.Replay.{chain_writes}
use oblivinx.Flow.Dag.{
  FlowNode, Graph, is_root, register, register_node, register_nodes, serialize_nodes, push_roots,
  dag, dag_of, after_sort, accepted, sort_graph, build_graph,
}

of_order :
    (nodes : Dict FlowNode) (done : FlowController × List Effect) (d : FlowController)
    (effects : List Effect) (o : Option (List String))
    → (o >>= (λ order. some (after_sort nodes done order))) ≡ some (accepted d effects)
    → (done.0 ≡ d) × (done.1 ≡ effects)
of_order nodes done d effects none h = absurd (cc)
of_order nodes done d effects (some order) h = ground arith

-- What `dag` returns when it accepts is what the registration gives.
pub of_accepted :
    (o : Option Graph) (nodes : Dict FlowNode) (done : FlowController × List Effect)
    (d : FlowController) (effects : List Effect)
    → dag_of o nodes done ≡ some (accepted d effects)
    → (done.0 ≡ d) × (done.1 ≡ effects)
of_accepted none nodes done d effects h = absurd (cc)
of_accepted (some g) nodes done d effects h = of_order nodes done d effects (sort_graph nodes g) h

-- No node has the job id `j`.
abbrev IsFree : String → Dict DagNode → Type 0
IsFree j = All (λ n. n.1.job_id ≢ j)

insert-IsFree :
    (j id : String) (node : DagNode) (m : Dict DagNode)
    → node.job_id ≢ j
    → IsFree j m
    → IsFree j (insert id node m)
unfolding insert
insert-IsFree j id node [] h k = (h, tt)
insert-IsFree j id node ((i, old) ∷ m) h k = elim (Bool-cases (str_eq i id)) [
  | inl e ↦ rw e (h, k.1)
  | inr e ↦ rw e (k.0, insert-IsFree j id node m h k.1)
]

register_nodes-IsFree :
    (j : String) (new_id : String → String) (nodes : Dict FlowNode) (c : FlowController)
    → ((x : String) → new_id x ≢ j)
    → IsFree j c.dag_nodes
    → IsFree j (register_nodes new_id nodes c).dag_nodes
unfolding register_nodes
register_nodes-IsFree j new_id [] c h k = k
register_nodes-IsFree j new_id ((id, node) ∷ nodes) c h k =
    register_nodes-IsFree j new_id nodes (register_node id (new_id id) node c) h
      (insert-IsFree j id _ c.dag_nodes (h id) k)

serialize_nodes-IsFree : (j : String) (m : Dict DagNode) → IsFree j m → IsFree j (serialize_nodes m)
unfolding serialize_nodes
serialize_nodes-IsFree j [] h = tt
serialize_nodes-IsFree j ((id, node) ∷ m) h = (h.0, serialize_nodes-IsFree j m h.1)

restore_nodes-IsFree :
    (j : String) (m : Dict DagNode) (c : FlowController)
    → IsFree j m
    → lookup j c.job_to_node ≡ none
    → lookup j (restore_nodes m c).job_to_node ≡ none
restore_nodes-IsFree j [] c h k = k
restore_nodes-IsFree j ((id, node) ∷ m) c h k =
    restore_nodes-IsFree j m _ h.1
      (ground (arith, lookup-insert node.job_id j id c.job_to_node, eq_iff node.job_id j, h.0, k))

-- The pushes of the roots log nothing.
push_roots-writes :
    (flow_id : String) (root_id : String → String) (now : ℕ) (nodes : Dict FlowNode)
    (c : FlowController)
    → chain_writes (push_roots flow_id root_id now nodes c).1 ≡ []
unfolding push_roots
push_roots-writes flow_id root_id now [] c = refl
push_roots-writes flow_id root_id now ((id, node) ∷ nodes) c = elim (Bool-cases (is_root node)) [
  | inl e ↦ rw e (push_roots-writes flow_id root_id now nodes _)
  | inr e ↦ rw e (push_roots-writes flow_id root_id now nodes _)
]

restored-register :
    (flow_id : String) (new_id root_id : String → String) (now : ℕ) (nodes : Dict FlowNode)
    (j : String)
    → ((x : String) → new_id x ≢ j)
    → let effects = (register flow_id new_id root_id now nodes (new_controller true)).1 in
      let restored =
        restore_from_wal (entries_from 0 (chain_writes effects)) (new_controller true) in
      lookup j restored.job_to_node ≡ none
unfolding register entries_from
restored-register flow_id new_id root_id now nodes j h =
    let registered = register_nodes new_id nodes (new_controller true) in
    let free = register_nodes-IsFree j new_id nodes (new_controller true) h tt in
    rw (push_roots-writes flow_id root_id now nodes registered) (
      restore_nodes-IsFree j (serialize_nodes registered.dag_nodes) (new_controller true)
        (serialize_nodes-IsFree j registered.dag_nodes free) (lookup-empty j))

-- If a new controller with a log accepts a graph, and the id of a root's job is none of the ids
-- that the nodes are registered under, then in a controller that is restored from that log the end
-- of the root's job unlocks nothing: the state stays as it is, and no job is pushed.
pub restored-forgets :
    (flow_id : String) (new_id root_id : String → String) (now : ℕ) (nodes : Dict FlowNode)
    (d : FlowController) (effects : List Effect) (root : String) (next_id : String → String)
    (later : ℕ)
    → ((x : String) → new_id x ≢ root_id root)
    → dag flow_id new_id root_id now nodes (new_controller true) ≡ some (accepted d effects)
    → let restored =
        restore_from_wal (entries_from 0 (chain_writes effects)) (new_controller true) in
      unlock_dependents next_id later (root_id root) restored ≡ (restored, [])
unfolding dag unlock_dependents
restored-forgets flow_id new_id root_id now nodes d effects root next_id later fresh run =
    let done = register flow_id new_id root_id now nodes (new_controller true) in
    let (_, same) = of_accepted (build_graph nodes) nodes done d effects run in
    let restored = restore_from_wal (entries_from 0 (chain_writes effects)) (new_controller true) in
    let lost : lookup (root_id root) restored.job_to_node ≡ none =
      subst
        (λ es.
          lookup (root_id root)
            (restore_from_wal (entries_from 0 (chain_writes es)) (new_controller true)).job_to_node
          ≡ none)
        same (restored-register flow_id new_id root_id now nodes (root_id root) fresh) in
    ap (λ o. unlock_found next_id later (root_id root) o restored) lost
