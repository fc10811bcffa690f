-- ===== src/Flow/Cancel/Ends.antt =====
-- core/FlowController.ts, `cancelDownstream`: its loop ends.
use oblivinx.Base.{
  ℕ, zero, suc, ◌+◌, ◌≤◌, ◌≡◌, refl, String, Option, some, List, [], ◌∷◌, ◌++◌, Bool, not, length,
  length-append, keep_if, arith, Bool-cases, inl, inr,
}
use oblivinx.Base.Dict.{Dict, keys}
use oblivinx.Job.{Job}
use oblivinx.Flow.{FlowController, Effect, fail_chain}
use oblivinx.Flow.Cancel.{
  Cancelled, cancel_loop, cancel_downstream, add_removed, hits_of, delete_hits, job_ids, is_hit,
  on_job_fail,
}

length-keep_if_split {ℓ} :
    {A : Type ℓ} (p : A → Bool) (l : List A)
    → length (keep_if p l) + length (keep_if (λ x. not (p x)) l) ≡ length l
length-keep_if_split p [] = refl
length-keep_if_split p (x ∷ l) = elim (Bool-cases (p x)) [
  | inl yes_it ↦ rw yes_it (omega (arith, length-keep_if_split p l))
  | inr no_it ↦ rw no_it (omega (arith, length-keep_if_split p l))
]

length-keys {ℓ} : {V : Type ℓ} (m : Dict V) → length (keys m) ≡ length m
length-keys [] = refl
length-keys ((k, v) ∷ m) = omega (arith, length-keys m)

add_removed-returns :
    (ids : List String) (r : Option Cancelled)
    → ((d : Cancelled) × (r ≡ some d))
    → (d : Cancelled) × (add_removed ids r ≡ some d)
add_removed-returns ids r (d, h) = rw h ((d.0, ids ++ d.1), refl)

-- With fuel for the queue and for every node the loop returns.
cancel_loop-returns :
    (fuel : ℕ) (queue visited : List String) (c : FlowController)
    → length queue + length c.dag_nodes ≤ fuel
    → (d : Cancelled) × (cancel_loop fuel queue visited c ≡ some d)
unfolding cancel_loop
cancel_loop-returns zero [] visited c h = ((c, []), refl)
cancel_loop-returns (suc fuel) [] visited c h = ((c, []), refl)
cancel_loop-returns zero (current ∷ queue) visited c h = absurd (omega arith)
cancel_loop-returns (suc fuel) (current ∷ queue) visited c h =
    let hits = hits_of current visited c in
    let split = length-keep_if_split (is_hit current visited) c.dag_nodes in
    let queued = length-append queue (keys hits) in
    let named = length-keys hits in
    add_removed-returns (job_ids hits) _ (
      cancel_loop-returns fuel (queue ++ keys hits) (visited ++ keys hits)
        (delete_hits current visited c) (omega (arith, split, queued, named)))

-- The cancellation returns: each node is put on the queue at most once.
pub cancel_downstream_returns :
    (failed : String) (c : FlowController) → (d : Cancelled) × (cancel_downstream failed c ≡ some d)
unfolding cancel_downstream
cancel_downstream_returns failed c =
    cancel_loop-returns (length c.dag_nodes + 1) (failed ∷ []) [] c (omega arith)

pub on_job_fail_returns :
    (job : Job) (c : FlowController)
    → (r : FlowController × List Effect × List String) × (on_job_fail job c ≡ some r)
on_job_fail_returns job c =
    let (d, h) = cancel_downstream_returns job.id (fail_chain job.flow_id c).0 in
    ((d.0, (fail_chain job.flow_id c).1, d.1), rw h)
