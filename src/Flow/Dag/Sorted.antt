-- ===== src/Flow/Dag/Sorted.antt =====
-- core/FlowController.ts, `dag`: what it accepts and what it rejects.
use oblivinx.Base.{
  ℕ, ◌<◌, ◌≡◌, ◌≢◌, refl, sym, ◌∙◌, String, some, List, [], ◌∷◌, ◌++◌, ◌==◌, length, length-append,
  arith, All, true, false, Mem, Perm, length-perm, Bool-cases, ap, if-true, if-false, inl, inr, ◌⊎◌,
  suc,
}
use oblivinx.Base.Dict.{Dict, has, keys, IsUnique}
use oblivinx.Base.Counts.{
  count, part, count-keys, mem_of_count, All-of_count, All-at_count, count-of_mem, count_self,
}
use oblivinx.Flow.{FlowController}
use oblivinx.Flow.Dag.{
  FlowNode, Graph, sort_graph, after_sort, dag_of, dag, register, accepted, cyclic, zeros,
}
use oblivinx.Flow.Dag.Graphs.{deps_in, IsClosed, IsGraphOf, build_graph_lem, count-zeros}
use oblivinx.Flow.Dag.Kahn.{missing-nil, missing-some, ComesAfter, IsSortOf, sort_loop_lem}
use oblivinx.Engine.Keeps.{bind-some}
use mathlib.Core.List.{append-nil, not-mem-nil, mem-cons, mem-append}
use mathlib.Core.Logic.Or
use native.Mathlib.Nat.{ℕ_set}
use mathlib.Core.List.Perm

-- Ids that cannot start: each has a dependency among them.
abbrev pub IsBlocked : Dict FlowNode → List String → Type 0
IsBlocked nodes blocked =
    (blocked ≢ [])
    × All (λ x. has x nodes ≡ true) blocked
    × All (λ x. (d : String) × (0 < count d (deps_in nodes x)) × Mem d blocked) blocked

length-keys : {V : Type 0} (m : Dict V) → length (keys m) ≡ length m
length-keys [] = refl
length-keys (_ ∷ m) = ap suc (length-keys m)

-- An order of all the nodes, or ids that are blocked.
abbrev IsSplit : Dict FlowNode → List String → Type 0
IsSplit nodes order =
    ((length order == length (keys nodes) ≡ true) × Perm order (keys nodes))
    ⊎ ((length order == length (keys nodes) ≡ false)
        × ((blocked : List String) × IsBlocked nodes blocked))

IsSplit-rest :
    (nodes : Dict FlowNode) (order rest : List String)
    → Perm (order ++ rest) (keys nodes)
    → ((x : String)
        → 0 < count x rest
        → (has x nodes ≡ true) × ((d : String) × (0 < count d (deps_in nodes x)) × Mem d rest))
    → IsSplit nodes order
IsSplit-rest nodes order [] perm blocked =
    let all : Perm order (keys nodes) = rw append-nil at perm in
    inl (ground (arith, length-perm all), all)
IsSplit-rest nodes order (x ∷ rest) perm blocked = inr (
  ground (arith, length-perm perm, length-append order (x ∷ rest)),
  (
    x ∷ rest,
    (
      λ e. cc,
      All-of_count (λ y. has y nodes ≡ true) (x ∷ rest) (λ y p. (blocked y p).0),
      All-of_count (λ y. (d : String) × (0 < count d (deps_in nodes y)) × Mem d (x ∷ rest))
          (x ∷ rest) (λ y p. (blocked y p).1),
    ),
  ),
)

sort_cases :
    (nodes : Dict FlowNode) (order : List String)
    → IsUnique nodes
    → IsClosed nodes
    → IsSortOf nodes order
    → IsSplit nodes order
sort_cases nodes order unique closed (counts, sorted) =
    let (rest, perm, counts_rest) =
      part order (keys nodes) (λ x. ground (arith, counts x, count-keys x nodes unique)) in
    IsSplit-rest nodes order rest perm (λ x p.
      let known : has x nodes ≡ true = ground (arith, counts_rest x, count-keys x nodes unique) in
      let (d, needed, absent) =
        missing-some order (deps_in nodes x)
          (ground (arith, counts x, counts_rest x, count-keys x nodes unique)) in
      (
        known,
        (
          d,
          needed,
          mem_of_count d rest
              (ground (arith, closed d x needed, counts_rest d, count-keys d nodes unique, absent)),
        ),
      ))

-- The loop ends within the fuel that `dag` gives it.
pub sort_graph_returns :
    (nodes : Dict FlowNode) (g : Graph)
    → IsUnique nodes
    → IsGraphOf nodes g
    → (order : List String) × (sort_graph nodes g ≡ some order) × IsSortOf nodes order
unfolding count
sort_graph_returns nodes g unique (edges, degrees, known, one_each) =
    sort_loop_lem nodes g.adj (length nodes) g.in_degree (zeros g.in_degree) [] unique edges
      (omega (arith, length-keys nodes))
      (
        λ y. degrees y ∙ sym (missing-nil (deps_in nodes y)),
        λ y. ground (arith, count-zeros y g.in_degree one_each, known y),
        tt,
      )

-- The converse: no blocked id stands in an order of the nodes.
unblocked :
    (nodes : Dict FlowNode) (blocked seen l : List String)
    → All (λ x. (d : String) × (0 < count d (deps_in nodes x)) × Mem d blocked) blocked
    → ComesAfter nodes seen l
    → ((x : String) → Mem x seen → count x blocked ≡ 0)
    → (x : String) → Mem x l
    → count x blocked ≡ 0
unblocked nodes blocked seen [] each sorted free x there = absurd (not-mem-nil there)
unblocked nodes blocked seen (y ∷ l) each sorted free x there =
    let first : count y blocked ≡ 0 = elim (Bool-cases (count y blocked == 0)) [
      | inl e ↦ ground arith
      | inr e ↦
          let (d, needed, stuck) =
            All-at_count (λ z. (d : String) × (0 < count d (deps_in nodes z)) × Mem d blocked) y
              blocked (ground arith) each in
          absurd (
            count-of_mem d blocked stuck
              (free d (All-at_count (λ z. Mem z seen) d (deps_in nodes y) needed sorted.0)))
    ] in
    let free_too : (z : String) → Mem z (seen ++ y ∷ []) → count z blocked ≡ 0 = λ z m.
      Or.elim (ℕ_set _ _) (mem-append.0 m) (free z) (λ same.
        Or.elim (ℕ_set _ _) (mem-cons.0 same) (λ e. rw e first)
          (λ none_left. absurd (not-mem-nil none_left))) in
    Or.elim (ℕ_set _ _) (mem-cons.0 there) (λ e. rw e first)
      (unblocked nodes blocked (seen ++ y ∷ []) l each sorted.1 free_too x)

blocked-none :
    (nodes : Dict FlowNode) (order blocked : List String)
    → IsUnique nodes
    → IsBlocked nodes blocked
    → Perm order (keys nodes)
    → ComesAfter nodes [] order
    → ⊥
blocked-none nodes order [] unique (filled, known, each) perm sorted = filled refl
blocked-none nodes order (x ∷ blocked) unique (filled, known, each) perm sorted =
    let there : Mem x order =
      (Perm.mem_iff perm).1
        (mem_of_count x (keys nodes) (ground (arith, count-keys x nodes unique, known.0))) in
    let free =
      unblocked nodes (x ∷ blocked) [] order each sorted (λ y m. absurd (not-mem-nil m)) x there in
    absurd (omega (arith, free, count_self x blocked))

module _ (flow_id : String) (new_id root_id : String → String) (now : ℕ) (nodes : Dict FlowNode)
    (c : FlowController) (unique : IsUnique nodes) (closed : IsClosed nodes) where
  -- If no node stands twice and every dependency is a node, `dag` either accepts, and then the
  -- nodes have an order in which each comes after its dependencies; or it throws the cycle error
  -- for all the nodes, and then there are nodes, at least one, each with a dependency among them.
  pub dag_lem :
      let (d, effects) = register flow_id new_id root_id now nodes c in
      ((dag flow_id new_id root_id now nodes c ≡ some (accepted d effects))
        × ((order : List String) × Perm order (keys nodes) × ComesAfter nodes [] order))
      ⊎ ((dag flow_id new_id root_id now nodes c ≡ some (cyclic (keys nodes)))
          × ((blocked : List String) × IsBlocked nodes blocked))
  unfolding dag
  dag_lem =
      let done = register flow_id new_id root_id now nodes c in
      let (g, built, graph) = build_graph_lem nodes unique closed in
      let (order, returns, sort) = sort_graph_returns nodes g unique graph in
      let run : dag flow_id new_id root_id now nodes c ≡ some (after_sort nodes done order) =
        ap (λ o. dag_of o nodes done) built ∙ bind-some _ returns in
      elim (sort_cases nodes order unique closed sort) [
        | inl (same, perm) ↦ inl (run ∙ ap some (if-true _ _ same), (order, perm, sort.1))
        | inr (differ, blocked) ↦ inr (run ∙ ap some (if-false _ _ differ), blocked)
      ]

  -- If no node stands twice, every dependency is a node, and the nodes have an order in which each
  -- comes after its dependencies, `dag` accepts.
  pub dag-ComesAfter :
      (order : List String)
      → Perm order (keys nodes)
      → ComesAfter nodes [] order
      → let (d, effects) = register flow_id new_id root_id now nodes c in
        dag flow_id new_id root_id now nodes c ≡ some (accepted d effects)
  dag-ComesAfter order perm sorted = elim dag_lem [
    | inl (accepts, _) ↦ accepts
    | inr (_, (blocked, stuck)) ↦ absurd (blocked-none nodes order blocked unique stuck perm sorted)
  ]
