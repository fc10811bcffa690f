-- ===== src/Flow/Dag/Graphs.antt =====
-- core/FlowController.ts, `dag`: what `adj` and `inDegree` hold once the edges are added.
use oblivinx.Base.{
  ℕ, suc, ◌+◌, ◌<◌, ◌≡◌, refl, ◌∙◌, String, none, some, List, [], ◌∷◌, ◌++◌, if◌then◌else◌, str_eq,
  ◌==◌, length, arith, eq_iff, eq_refl, true, Option-cases, inl, inr,
}
use oblivinx.Base.Dict.{Dict, lookup, insert, has, IsUnique, lookup-insert, insert-IsUnique}
use oblivinx.Base.Counts.{count, count-snoc}
use oblivinx.Flow.Dag.{
  FlowNode, deps_of, Graph, neighbors, degree, add_ids, add_edge, add_deps, add_all, build_graph,
  zeros,
}
use oblivinx.Engine.Keeps.{bind-some}

-- The dependencies of a node of the configuration.
unfoldable pub deps_in : Dict FlowNode → String → List String
deps_in [] id = []
deps_in ((other, node) ∷ nodes) id = if str_eq other id then deps_of node else deps_in nodes id

pub deps_in-none :
    (nodes : Dict FlowNode) (id : String) → lookup id nodes ≡ none → deps_in nodes id ≡ []
unfolding deps_in lookup
deps_in-none [] id h = refl
deps_in-none ((k, node) ∷ nodes) id h = ground (arith, deps_in-none nodes id)

-- No dependency dangles.
abbrev pub IsClosed : Dict FlowNode → Type 0
IsClosed nodes = (x y : String) → 0 < count x (deps_in nodes y) → has x nodes ≡ true

add_ids_lem :
    (x : String) (nodes : Dict FlowNode) (g : Graph)
    → neighbors g.adj x ≡ []
    → degree g.in_degree x ≡ 0
    → (neighbors (add_ids nodes g).adj x ≡ [])
      × (degree (add_ids nodes g).in_degree x ≡ 0)
      × (has x (add_ids nodes g).adj ≡ (if has x nodes then true else has x g.adj))
      × (has x (add_ids nodes g).in_degree ≡ (if has x nodes then true else has x g.in_degree))
unfolding add_ids lookup
add_ids_lem x [] g h k = (h, k, refl, refl)
add_ids_lem x ((id, node) ∷ nodes) g h k =
    let same = lookup-insert id x [] g.adj in
    let zero_degree = lookup-insert id x 0 g.in_degree in
    let (a, b, c, d) =
      add_ids_lem x nodes (record { adj = insert id [] g.adj; in_degree = insert id 0 g.in_degree })
        (ground (arith, same)) (ground (arith, zero_degree)) in
    (a, b, ground (arith, c, same), ground (arith, d, zero_degree))

-- One graph has edges that the other lacks: `edges x y` of them from `x` to `y`, `total y` into `y`.
abbrev HasMore : (String → String → ℕ) → (String → ℕ) → Graph → Graph → Type 0
HasMore edges total g h =
    ((x y : String) → count y (neighbors h.adj x) ≡ count y (neighbors g.adj x) + edges x y)
    × ((y : String) → degree h.in_degree y ≡ degree g.in_degree y + total y)
    × ((x : String) → has x h.adj ≡ has x g.adj)
    × ((x : String) → has x h.in_degree ≡ has x g.in_degree)
    × (IsUnique g.in_degree → IsUnique h.in_degree)

add_edge_lem :
    (id dep : String) (g : Graph)
    → has dep g.adj ≡ true
    → has id g.in_degree ≡ true
    → (h : Graph) × (add_edge id dep g ≡ some h)
      × HasMore
          (λ x y. if str_eq dep x then (if str_eq id y then 1 else 0) else 0)
          (λ y. if str_eq id y then 1 else 0)
          g
          h
unfolding add_edge
add_edge_lem id dep g known counted = elim (Option-cases (lookup dep g.adj)) [
  | inl e ↦ absurd (ground arith)
  | inr (users, e) ↦ (
    record {
      adj = insert dep (users ++ id ∷ []) g.adj;
      in_degree = insert id (suc (degree g.in_degree id)) g.in_degree;
    },
    bind-some _ e,
    (
      λ x y. ground (
        arith,
        lookup-insert dep x (users ++ id ∷ []) g.adj,
        eq_iff dep x,
        count-snoc y id users,
      ),
      λ y.
          ground (arith, lookup-insert id y (suc (degree g.in_degree id)) g.in_degree, eq_iff id y),
      λ x. ground (arith, lookup-insert dep x (users ++ id ∷ []) g.adj, eq_iff dep x),
      λ x.
          ground (arith, lookup-insert id x (suc (degree g.in_degree id)) g.in_degree, eq_iff id x),
      λ u. insert-IsUnique id (suc (degree g.in_degree id)) g.in_degree u,
    ),
  )
]

add_deps_lem :
    (id : String) (deps : List String) (g : Graph)
    → ((x : String) → 0 < count x deps → has x g.adj ≡ true)
    → has id g.in_degree ≡ true
    → (h : Graph) × (add_deps id deps g ≡ some h)
      × HasMore
          (λ x y. if str_eq id y then count x deps else 0)
          (λ y. if str_eq id y then length deps else 0)
          g
          h
unfolding add_deps count
add_deps_lem id [] g known counted =
    (g, refl, (λ x y. ground arith, λ y. ground arith, λ x. refl, λ x. refl, λ u. u))
add_deps_lem id (dep ∷ deps) g known counted =
    let (h, first, more) =
      add_edge_lem id dep g (known dep (ground (arith, eq_refl dep))) counted in
    let (k, later, rest) =
      add_deps_lem id deps h (λ x p. more.2 x ∙ known x (ground arith)) (more.3 id ∙ counted) in
    (
      k,
      bind-some _ first ∙ later,
      (
        λ x y. ground (arith, more.0 x y, rest.0 x y),
        λ y. ground (arith, more.1 y, rest.1 y),
        λ x. rest.2 x ∙ more.2 x,
        λ x. rest.3 x ∙ more.3 x,
        λ u. rest.4 (more.4 u),
      ),
    )

add_all_lem :
    (nodes : Dict FlowNode) (g : Graph)
    → IsUnique nodes
    → ((x y : String) → 0 < count x (deps_in nodes y) → has x g.adj ≡ true)
    → ((x : String) → has x nodes ≡ true → has x g.in_degree ≡ true)
    → (h : Graph) × (add_all nodes g ≡ some h)
      × HasMore (λ x y. count x (deps_in nodes y)) (λ y. length (deps_in nodes y)) g h
unfolding add_all deps_in count lookup
add_all_lem [] g unique known counted =
    (g, refl, (λ x y. omega arith, λ y. omega arith, λ x. refl, λ x. refl, λ u. u))
add_all_lem ((id, node) ∷ nodes) g unique known counted =
    let fresh = deps_in-none nodes id unique.0 in
    let (h, first, more) =
      add_deps_lem id (deps_of node) g (λ x p. known x id (ground (arith, eq_refl id)))
        (counted id (ground (arith, eq_refl id))) in
    let (k, later, rest) =
      add_all_lem nodes h unique.1
        (λ x y p. more.2 x ∙ known x y (ground (arith, eq_iff id y, fresh, unique.0)))
        (λ x p. more.3 x ∙ counted x (ground (arith, eq_iff id x))) in
    (
      k,
      bind-some _ first ∙ later,
      (
        λ x y. ground (arith, eq_iff id y, fresh, more.0 x y, rest.0 x y),
        λ y. ground (arith, eq_iff id y, fresh, more.1 y, rest.1 y),
        λ x. rest.2 x ∙ more.2 x,
        λ x. rest.3 x ∙ more.3 x,
        λ u. rest.4 (more.4 u),
      ),
    )

add_ids-IsUnique :
    (nodes : Dict FlowNode) (g : Graph)
    → IsUnique g.in_degree
    → IsUnique (add_ids nodes g).in_degree
unfolding add_ids
add_ids-IsUnique [] g u = u
add_ids-IsUnique ((id, _) ∷ nodes) g u =
    add_ids-IsUnique nodes
      (record { adj = insert id [] g.adj; in_degree = insert id 0 g.in_degree })
      (insert-IsUnique id 0 g.in_degree u)

-- What the loops build: the edges are the dependencies, and the degrees count them.
abbrev pub IsGraphOf : Dict FlowNode → Graph → Type 0
IsGraphOf nodes g =
    ((x y : String) → count y (neighbors g.adj x) ≡ count x (deps_in nodes y))
    × ((y : String) → degree g.in_degree y ≡ length (deps_in nodes y))
    × ((x : String) → has x g.in_degree ≡ has x nodes)
    × IsUnique g.in_degree

pub build_graph_lem :
    (nodes : Dict FlowNode)
    → IsUnique nodes
    → IsClosed nodes
    → (g : Graph) × (build_graph nodes ≡ some g) × IsGraphOf nodes g
unfolding build_graph lookup count
build_graph_lem nodes unique closed =
    let ids = add_ids nodes (record { adj = []; in_degree = [] }) in
    let begun =
      λ (x : String). add_ids_lem x nodes (record { adj = []; in_degree = [] }) refl refl in
    let (g, built, more) =
      add_all_lem nodes ids unique (λ x y p. (begun x).2 ∙ ground (arith, closed x y p))
        (λ x p. (begun x).3 ∙ ground arith) in
    (
      g,
      built,
      (
        λ x y. more.0 x y ∙ ground (arith, (begun x).0),
        λ y. more.1 y ∙ ground (arith, (begun y).1),
        λ x. more.3 x ∙ (begun x).3 ∙ ground arith,
        more.4 (add_ids-IsUnique nodes (record { adj = []; in_degree = [] }) tt),
      ),
    )

pub count-zeros :
    (x : String) (degrees : Dict ℕ)
    → IsUnique degrees
    → count x (zeros degrees)
      ≡ (if has x degrees then if degree degrees x == 0 then 1 else 0 else 0)
unfolding zeros count lookup
count-zeros x [] u = refl
count-zeros x ((id, deg) ∷ degrees) u = ground (arith, eq_iff id x, count-zeros x degrees u.1, u.0)
