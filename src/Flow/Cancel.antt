-- ===== src/Flow/Cancel.antt =====
-- core/FlowController.ts, `cancelDownstream`, and `onJobFail` that calls it. The loop over the nodes
-- deletes what it visits, so what is left is the nodes that it passes over. The `while` loop runs on
-- fuel: each round takes one id off the queue, and puts one there for each node that it deletes.
pub mod Ends
use oblivinx.Base.{
  ℕ, zero, suc, ◌+◌, ◌≤◌, ◌≡◌, refl, ◌∙◌, ap, String, Option, none, some, List, [], ◌∷◌, ◌++◌, Bool,
  true, false, ◌&&◌, not, length, length-append, keep_if, arith, All, All-append, map,
  if◌then◌else◌, Bool-cases, inl, inr,
}
use oblivinx.Base.Dict.{Dict, erase, keys}
use oblivinx.Wal.{DagNode}
use oblivinx.Job.{Job}
use oblivinx.Flow.{FlowController, Effect, fail_chain, includes}

-- The jobs that a cancellation removes from the adapter, beside the controller.
abbrev pub Cancelled : Type 0
Cancelled = FlowController × List String

abbrev pub is_hit : String → List String → String × DagNode → Bool
is_hit current visited (node_id, node) =
    includes node.deps current && not (includes visited node_id)

abbrev pub forget : Dict DagNode → FlowController → FlowController
forget [] c = c
forget ((node_id, node) ∷ hits) c = forget hits (record c {
  node_to_job = erase node_id c.node_to_job;
  job_to_node = erase node.job_id c.job_to_node;
})

abbrev pub job_ids : Dict DagNode → List String
job_ids [] = []
job_ids ((_, node) ∷ hits) = node.job_id ∷ job_ids hits

-- One round of the `while` loop: the nodes that depend on `current`, and the others.
abbrev pub hits_of : String → List String → FlowController → Dict DagNode
hits_of current visited c = keep_if (is_hit current visited) c.dag_nodes

abbrev pub rest_of : String → List String → FlowController → Dict DagNode
rest_of current visited c = keep_if (λ n. not (is_hit current visited n)) c.dag_nodes

abbrev pub delete_hits : String → List String → FlowController → FlowController
delete_hits current visited c = record (forget (hits_of current visited c) c) {
  dag_nodes = rest_of current visited c;
}

abbrev pub add_removed : List String → Option Cancelled → Option Cancelled
add_removed ids none = none
add_removed ids (some (d, later)) = some (d, ids ++ later)

unfoldable pub cancel_loop : ℕ → List String → List String → FlowController → Option Cancelled
cancel_loop fuel [] visited c = some (c, [])
cancel_loop zero (current ∷ queue) visited c = none
cancel_loop (suc fuel) (current ∷ queue) visited c =
    let hits = hits_of current visited c in
    add_removed (job_ids hits)
      (cancel_loop fuel (queue ++ keys hits) (visited ++ keys hits) (delete_hits current visited c))

-- `cancelDownstream`.
unfoldable pub cancel_downstream : String → FlowController → Option Cancelled
cancel_downstream failed c = cancel_loop (length c.dag_nodes + 1) (failed ∷ []) [] c

abbrev pub with_effects :
    List Effect → Option Cancelled → Option (FlowController × List Effect × List String)
with_effects effects none = none
with_effects effects (some (d, removed)) = some (d, effects, removed)

-- `onJobFail`: the chain ends, and what depends on the job is cancelled.
abbrev pub on_job_fail : Job → FlowController → Option (FlowController × List Effect × List String)
on_job_fail job c =
    let (d, effects) = fail_chain job.flow_id c in with_effects effects (cancel_downstream job.id d)
