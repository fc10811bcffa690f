-- ===== src/Examples/Dag.antt =====
-- core/FlowController.ts, `dag`.
use oblivinx.Base.{
  All, ◌≡◌, ◌≢◌, refl, String, none, some, List, [], ◌∷◌, true, false, arith, eq_iff, Perm, ◌⊎◌,
}
use oblivinx.Base.Dict.{Dict, has, lookup, insert, keys, IsUnique}
use oblivinx.Flow.Dag.Doubled.{Ends, unlock_all, IsOtherPush}
use oblivinx.Flow.Dag.Stuck.{doubled_waits}
use oblivinx.Base.Counts.{count}
use oblivinx.Base.Value.{Fields}
use oblivinx.Wal.Truncated.{entries_from}
use oblivinx.Flow.{FlowController, Effect, new_controller, restore_from_wal, unlock_dependents}
use oblivinx.Flow.Chains.{jobs_pushed}
use oblivinx.Flow.Replay.{chain_writes}
use oblivinx.Flow.Dag.{
  FlowNode, register, dag, accepted, cyclic, build_graph, add_all, add_ids, add_deps, add_edge,
  zeros, sort_loop, relax,
}
use oblivinx.Flow.Dag.Graphs.{deps_in, IsClosed}
use oblivinx.Flow.Dag.Kahn.{ComesAfter}
use oblivinx.Flow.Dag.Sorted.{IsBlocked, dag_lem, dag-ComesAfter}
use oblivinx.Flow.Dag.Restored.{restored-forgets}
use oblivinx.Flow.Dag.Roots.{root_jobs, KnowsRoots, dag-KnowsRoots}
use mathlib.Core.List.{mem-cons_self, mem-cons_of_mem}
use mathlib.Core.List.Perm
use text.Mathlib.TextLemmas.{append_cancel_left, append_inj}
use Prim.Native.String.{◌++◌ as join}

abbrev node_of : String → List String → FlowNode
node_of type deps = record {
  step = record {
    type = type;
    payload = Fields.end;
    priority = none;
    delay = none;
    max_attempts = none;
    max_duration = none;
    ttl = none;
  };
  depends_on = some deps;
}

abbrev pipeline : Dict FlowNode
pipeline =
    ("resize", node_of "resize" ("fetch" ∷ []))
    ∷ ("fetch", node_of "fetch" [])
    ∷ ("mail", node_of "mail" ("fetch" ∷ "resize" ∷ []))
    ∷ []

abbrev reg_id : String → String
reg_id x = join "r" x

abbrev job_id : String → String
job_id x = join "j" x

differ : (x y : String) → reg_id x ≢ job_id y
differ x y h =
    let same : Path String "r" "j" = (append_inj h refl).0 in
    let clash : false ≡ true = (eq_iff "r" "j").1 same in cc

pipeline-IsUnique : IsUnique pipeline
unfolding lookup
pipeline-IsUnique = (refl, (refl, (refl, tt)))

pipeline-IsClosed : IsClosed pipeline
unfolding lookup deps_in count
pipeline-IsClosed x y h = ground (arith, eq_iff "fetch" x, eq_iff "resize" x, eq_iff "mail" x)

abbrev begun : FlowController × List Effect
begun = register "flow" reg_id job_id 7 pipeline (new_controller true)

-- Two nodes that wait for each other.
abbrev ring : Dict FlowNode
ring = ("a", node_of "a" ("b" ∷ [])) ∷ ("b", node_of "b" ("a" ∷ [])) ∷ []

ring-IsUnique : IsUnique ring
unfolding lookup
ring-IsUnique = (refl, (refl, tt))

ring-IsClosed : IsClosed ring
unfolding lookup deps_in count
ring-IsClosed x y h = ground (arith, eq_iff "a" x, eq_iff "b" x)

dag_lem_example :
    ((dag "flow" reg_id job_id 7 ring (new_controller true)
        ≡ some (
            accepted
              (register "flow" reg_id job_id 7 ring (new_controller true)).0
              (register "flow" reg_id job_id 7 ring (new_controller true)).1))
      × ((order : List String) × Perm order (keys ring) × ComesAfter ring [] order))
    ⊎ ((dag "flow" reg_id job_id 7 ring (new_controller true) ≡ some (cyclic (keys ring)))
        × ((blocked : List String) × IsBlocked ring blocked))
dag_lem_example =
    dag_lem "flow" reg_id job_id 7 ring (new_controller true) ring-IsUnique ring-IsClosed

dag-ComesAfter_example :
    dag "flow" reg_id job_id 7 pipeline (new_controller true) ≡ some (accepted begun.0 begun.1)
unfolding deps_in
dag-ComesAfter_example =
    dag-ComesAfter "flow" reg_id job_id 7 pipeline (new_controller true) pipeline-IsUnique
      pipeline-IsClosed ("fetch" ∷ "resize" ∷ "mail" ∷ []) (Perm.swap _ _ _)
      (
        tt,
        ((mem-cons_self, tt), ((mem-cons_self, (mem-cons_of_mem "fetch" mem-cons_self, tt)), tt)),
      )

pipeline-accepted :
    dag "flow" reg_id job_id 7 pipeline (new_controller true) ≡ some (accepted begun.0 begun.1)
unfolding dag build_graph add_all add_ids add_deps add_edge zeros sort_loop relax lookup insert
pipeline-accepted = refl

restored-forgets_example :
    unlock_dependents job_id 9
      (job_id "fetch")
      (restore_from_wal (entries_from 0 (chain_writes begun.1)) (new_controller true))
    ≡ (restore_from_wal (entries_from 0 (chain_writes begun.1)) (new_controller true), [])
restored-forgets_example =
    restored-forgets "flow" reg_id job_id 7 pipeline begun.0 begun.1 "fetch" job_id 9
      (λ x h. differ x "fetch" h) pipeline-accepted

dag-KnowsRoots_example :
    (jobs_pushed begun.1 ≡ root_jobs "flow" job_id 7 pipeline)
    × KnowsRoots job_id pipeline begun.0.job_to_node
dag-KnowsRoots_example =
    dag-KnowsRoots "flow" reg_id job_id 7 (append_cancel_left "j") differ pipeline
      (new_controller true) begun.0 begun.1 pipeline-IsUnique pipeline-accepted

-- The second node names the first twice.
abbrev doubled : Dict FlowNode
doubled = ("a", node_of "a" []) ∷ ("b", node_of "b" ("a" ∷ "a" ∷ [])) ∷ []

abbrev doubled_begun : FlowController × List Effect
doubled_begun = register "flow" reg_id job_id 7 doubled (new_controller true)

doubled-accepted :
    dag "flow" reg_id job_id 7 doubled (new_controller true)
    ≡ some (accepted doubled_begun.0 doubled_begun.1)
unfolding dag build_graph add_all add_ids add_deps add_edge zeros sort_loop relax lookup insert
doubled-accepted = refl

doubled_waits_example :
    let ends : Ends = (job_id, (9, job_id "a")) ∷ (job_id, (10, job_id "a")) ∷ [] in
    (has "b" (unlock_all ends doubled_begun.0).0.dag_nodes ≡ true)
    × All (IsOtherPush "b") (unlock_all ends doubled_begun.0).1
unfolding lookup count
doubled_waits_example =
    doubled_waits "flow" reg_id job_id 7 doubled true doubled_begun.0 doubled_begun.1 "b"
      ("a" ∷ "a" ∷ []) ((job_id, (9, job_id "a")) ∷ (job_id, (10, job_id "a")) ∷ [])
      doubled-accepted ((λ e. absurd (cc), (λ e. refl, tt)), refl) ("a", omega arith)
