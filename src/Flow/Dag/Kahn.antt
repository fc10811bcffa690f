-- ===== src/Flow/Dag/Kahn.antt =====
-- core/FlowController.ts, `dag`: the loop of Kahn's algorithm and its invariant.
use oblivinx.Base.{
  ℕ, zero, suc, ◌+◌, ◌-◌, ◌<◌, ◌≤◌, ◌≡◌, refl, String, some, List, [], ◌∷◌, ◌++◌, if◌then◌else◌,
  ◌==◌, ltb, leb, ◌&&◌, length, length-append, arith, eq_iff, eq_refl, All, false, Mem, length-perm,
  Bool-cases, inl, inr,
}
use oblivinx.Base.Dict.{Dict, insert, has, keys, IsUnique, lookup-insert}
use oblivinx.Base.Counts.{
  count, count-append, count-snoc, mem_of_count, part, count-keys, count_self,
}
use oblivinx.Flow.Dag.{FlowNode, neighbors, degree, relax, sort_loop}
use oblivinx.Flow.Dag.Graphs.{deps_in, deps_in-none}
use mathlib.Core.List.{append_assoc, append-nil}

-- How many of the dependencies are not yet in the order.
unfoldable pub missing : List String → List String → ℕ
missing order [] = 0
missing order (d ∷ deps) =
    let rest = missing order deps in if count d order == 0 then suc rest else rest

relax_lem :
    (y : String) (ns : List String) (degrees : Dict ℕ) (queue : List String)
    → (degree (relax ns degrees queue).0 y ≡ degree degrees y - count y ns)
      × (count y (relax ns degrees queue).1
          ≡ count y queue
            + (if ltb 0 (degree degrees y) && leb (degree degrees y) (count y ns) then 1 else 0))
unfolding relax count
relax_lem y [] degrees queue = (omega arith, ground arith)
relax_lem y (n ∷ ns) degrees queue =
    let lowered = lookup-insert n y (degree degrees n - 1) degrees in
    let longer = count-snoc y n queue in
    let (a, b) =
      relax_lem y ns (insert n (degree degrees n - 1) degrees)
        (if degree degrees n == 1 then queue ++ n ∷ [] else queue) in
    (ground (arith, a, lowered, eq_iff n y), ground (arith, b, lowered, longer, eq_iff n y))

missing-snoc :
    (cur : String) (order deps : List String)
    → count cur order ≡ 0
    → missing (order ++ cur ∷ []) deps + count cur deps ≡ missing order deps
unfolding missing count
missing-snoc cur order [] h = omega arith
missing-snoc cur order (d ∷ deps) h =
    ground
      (arith, missing-snoc cur order deps h, count-snoc d cur order, eq_iff d cur, eq_iff cur d)

pub missing-nil : (deps : List String) → missing [] deps ≡ length deps
unfolding missing count
missing-nil [] = refl
missing-nil (d ∷ deps) = ground (arith, missing-nil deps)

-- None is missing: each stands in the order.
missing-zero : (order deps : List String) → missing order deps ≡ 0 → All (λ d. Mem d order) deps
unfolding missing
missing-zero order [] h = tt
missing-zero order (d ∷ deps) h =
    (mem_of_count d order (ground arith), missing-zero order deps (ground arith))

-- One is missing.
pub missing-some :
    (order deps : List String)
    → 0 < missing order deps
    → (d : String) × (0 < count d deps) × (count d order ≡ 0)
unfolding missing count
missing-some order [] h = absurd (omega arith)
missing-some order (d ∷ deps) h = elim (Bool-cases (count d order == 0)) [
  | inl e ↦ (d, count_self d deps, ground arith)
  | inr e ↦
      let (x, in_deps, absent) = missing-some order deps (ground arith) in (x, ground arith, absent)
]

-- Every id comes after the dependencies it has in `nodes`, where those of `seen` came before.
abbrev pub ComesAfter : Dict FlowNode → List String → List String → Type 0
ComesAfter nodes seen [] = Unit
ComesAfter nodes seen (x ∷ l) =
    All (λ d. Mem d seen) (deps_in nodes x) × ComesAfter nodes (seen ++ x ∷ []) l

ComesAfter-snoc :
    (nodes : Dict FlowNode) (seen l : List String) (x : String)
    → ComesAfter nodes seen l
    → All (λ d. Mem d (seen ++ l)) (deps_in nodes x)
    → ComesAfter nodes seen (l ++ x ∷ [])
ComesAfter-snoc nodes seen [] x h k = (rw append-nil at k, tt)
ComesAfter-snoc nodes seen (y ∷ l) x h k =
    (h.0, ComesAfter-snoc nodes (seen ++ y ∷ []) l x h.1 (rw (append_assoc seen (y ∷ []) l) k))

-- The state of the loop: the degrees count what is missing, each id without a missing dependency
-- stands once in the order or the queue, and the order is one of the nodes so far.
abbrev IsSorting : Dict FlowNode → Dict ℕ → List String → List String → Type 0
IsSorting nodes degrees queue order =
    ((y : String) → degree degrees y ≡ missing order (deps_in nodes y))
    × ((y : String)
        → count y order + count y queue
          ≡ (if has y nodes then if degree degrees y == 0 then 1 else 0 else 0))
    × ComesAfter nodes [] order

-- An id that is not a node misses nothing.
missing-unknown :
    (nodes : Dict FlowNode) (order : List String) (y : String)
    → has y nodes ≡ false
    → missing order (deps_in nodes y) ≡ 0
unfolding missing
missing-unknown nodes order y h = rw (deps_in-none nodes y (ground arith)) refl

abbrev IsAdjacency : Dict FlowNode → Dict (List String) → Type 0
IsAdjacency nodes adj = (x y : String) → count y (neighbors adj x) ≡ count x (deps_in nodes y)

sort_loop_step :
    (nodes : Dict FlowNode) (adj : Dict (List String)) (degrees : Dict ℕ) (cur : String)
    (queue order : List String)
    → IsAdjacency nodes adj
    → IsSorting nodes degrees (cur ∷ queue) order
    → IsSorting nodes
        (relax (neighbors adj cur) degrees queue).0
        (relax (neighbors adj cur) degrees queue).1
        (order ++ cur ∷ [])
unfolding count
sort_loop_step nodes adj degrees cur queue order edges (counted, once, sorted) =
    let here : count cur (cur ∷ queue) ≡ suc (count cur queue) = ground (arith, eq_refl cur) in
    let absent : count cur order ≡ 0 = ground (arith, once cur, here) in
    let complete : missing order (deps_in nodes cur) ≡ 0 =
      ground (arith, once cur, here, counted cur) in
    (
      λ y. ground (
        arith,
        (relax_lem y (neighbors adj cur) degrees queue).0,
        counted y,
        edges cur y,
        missing-snoc cur order (deps_in nodes y) absent,
      ),
      λ y. ground (
        arith,
        relax_lem y (neighbors adj cur) degrees queue,
        once y,
        counted y,
        edges cur y,
        count-snoc y cur order,
        missing-unknown nodes order y,
      ),
      ComesAfter-snoc nodes [] order cur sorted (missing-zero order (deps_in nodes cur) complete),
    )

-- What the loop leaves: the ids that miss nothing, once each, in an order of the nodes.
abbrev pub IsSortOf : Dict FlowNode → List String → Type 0
IsSortOf nodes order =
    ((y : String)
      → count y order
        ≡ (if has y nodes then if missing order (deps_in nodes y) == 0 then 1 else 0 else 0))
    × ComesAfter nodes [] order

-- The order and the queue hold nodes only, and none twice.
length-sorting :
    (nodes : Dict FlowNode) (degrees : Dict ℕ) (queue order : List String)
    → IsUnique nodes
    → IsSorting nodes degrees queue order
    → length order + length queue ≤ length (keys nodes)
length-sorting nodes degrees queue order unique (_, once, _) =
    let (rest, perm, _) =
      part (order ++ queue) (keys nodes)
        (λ x. ground (arith, once x, count-append x order queue, count-keys x nodes unique)) in
    omega (arith, length-perm perm, length-append (order ++ queue) rest, length-append order queue)

pub sort_loop_lem :
    (nodes : Dict FlowNode) (adj : Dict (List String)) (fuel : ℕ) (degrees : Dict ℕ)
    (queue order : List String)
    → IsUnique nodes
    → IsAdjacency nodes adj
    → length (keys nodes) ≤ fuel + length order
    → IsSorting nodes degrees queue order
    → (final : List String) × (sort_loop fuel adj degrees queue order ≡ some final)
      × IsSortOf nodes final
unfolding sort_loop count
sort_loop_lem nodes adj fuel degrees [] order unique edges enough (counted, once, sorted) =
    (order, refl, (λ y. ground (arith, once y, counted y), sorted))
sort_loop_lem nodes adj zero degrees (cur ∷ queue) order unique edges enough sorting =
    absurd (omega (arith, length-sorting nodes degrees (cur ∷ queue) order unique sorting))
sort_loop_lem nodes adj (suc fuel) degrees (cur ∷ queue) order unique edges enough sorting =
    sort_loop_lem nodes adj fuel (relax (neighbors adj cur) degrees queue).0
      (relax (neighbors adj cur) degrees queue).1 (order ++ cur ∷ []) unique edges
      (omega (arith, length-append order (cur ∷ [])))
      (sort_loop_step nodes adj degrees cur queue order edges sorting)
