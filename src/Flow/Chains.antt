-- ===== src/Flow/Chains.antt =====
-- core/FlowController.ts, chain and advanceChain: a chain from its start to its end.
use oblivinx.Base.{
  ℕ, zero, suc, ◌+◌, ◌≡◌, refl, ap, ◌∙◌, String, none, some, List, [], ◌∷◌, ◌++◌, length, drop,
  arith, eq_refl, Bool, true, false,
}
use oblivinx.Base.Arrays.{get_elem?}
use oblivinx.Base.Dict.{lookup, insert, lookup-insert, lookup-erase}
use oblivinx.Job.{Job}
use oblivinx.Wal.{ChainStep, WalOperation, WalData}
use oblivinx.Flow.{
  Chain, FlowController, Effect, logged, pushed, woken, log_if, chain, advance_chain, job_of_step,
}

-- The jobs that a list of effects pushes.
abbrev pub jobs_pushed : List Effect → List Job
jobs_pushed [] = []
jobs_pushed (pushed job ∷ es) = job ∷ jobs_pushed es
jobs_pushed (_ ∷ es) = jobs_pushed es

jobs_pushed-append :
    (xs ys : List Effect) → jobs_pushed (xs ++ ys) ≡ jobs_pushed xs ++ jobs_pushed ys
jobs_pushed-append [] ys = refl
jobs_pushed-append (pushed job ∷ xs) ys = ap (◌∷◌ job) (jobs_pushed-append xs ys)
jobs_pushed-append (logged op id d ∷ xs) ys = jobs_pushed-append xs ys
jobs_pushed-append (woken ∷ xs) ys = jobs_pushed-append xs ys

logged_first :
    (b : Bool) (op : WalOperation) (id : String) (d : WalData) (job : Job)
    → jobs_pushed (log_if b op id d ++ pushed job ∷ woken ∷ []) ≡ job ∷ []
logged_first true op id d job = refl
logged_first false op id d job = refl

-- The job of each step, with its id and its time.
abbrev pub jobs_for : String → List (String × ℕ) → List ChainStep → List Job
jobs_for flow_id [] steps = []
jobs_for flow_id (_ ∷ calls) [] = []
jobs_for flow_id ((job_id, now) ∷ calls) (step ∷ steps) =
    job_of_step flow_id job_id now step ∷ jobs_for flow_id calls steps

-- The jobs of a chain complete one after the other: each call has the id and the time of the next.
abbrev pub advance_all : String → List (String × ℕ) → FlowController → FlowController × List Effect
advance_all flow_id [] c = (c, [])
advance_all flow_id ((job_id, now) ∷ calls) c =
    let (d, effects) = advance_chain flow_id job_id now c in
    let (e, later) = advance_all flow_id calls d in (e, effects ++ later)

drop-next :
    {A : Type 0} (n : ℕ) (l : List A) (x : A) (rest : List A)
    → drop n l ≡ x ∷ rest
    → (get_elem? l n ≡ some x) × (drop (n + 1) l ≡ rest)
drop-next zero [] x rest h = absurd (cc)
drop-next zero (y ∷ l) x rest h = (cc, cc)
drop-next (suc n) [] x rest h = absurd (cc)
drop-next (suc n) (y ∷ l) x rest h =
    let shift : suc n + 1 ≡ suc (n + 1) = omega arith in rw shift (drop-next n l x rest h)

drop-end : {A : Type 0} (n : ℕ) (l : List A) → drop n l ≡ [] → get_elem? l n ≡ none
drop-end zero [] h = refl
drop-end zero (y ∷ l) h = absurd (cc)
drop-end (suc n) [] h = refl
drop-end (suc n) (y ∷ l) h = drop-end n l h

-- The chain waits for the end of a step, after which `rest` is left.
abbrev pub Waits : String → List ChainStep → FlowController → Type 0
Waits flow_id rest c =
    (flow : Chain) × (lookup flow_id c.chain_map ≡ some flow)
    × (drop (flow.current_index + 1) flow.steps ≡ rest)

advance-step :
    (flow_id job_id : String) (now : ℕ) (step : ChainStep) (rest : List ChainStep)
    (c : FlowController)
    → Waits flow_id (step ∷ rest) c
    → (jobs_pushed (advance_chain flow_id job_id now c).1
        ≡ job_of_step flow_id job_id now step ∷ [])
      × Waits flow_id rest (advance_chain flow_id job_id now c).0
unfolding advance_chain
advance-step flow_id job_id now step rest c (flow, known, left) =
    let (next, after) = drop-next (flow.current_index + 1) flow.steps step rest left in
    let moved : Chain = record flow { current_index = flow.current_index + 1 } in
    let stored : lookup flow_id (insert flow_id moved c.chain_map) ≡ some moved =
      rw (lookup-insert flow_id flow_id moved c.chain_map, eq_refl flow_id) in
    rw (known, next) (logged_first c.has_wal _ flow_id _ _, (moved, stored, after))

advance-end :
    (flow_id job_id : String) (now : ℕ) (c : FlowController)
    → Waits flow_id [] c
    → lookup flow_id (advance_chain flow_id job_id now c).0.chain_map ≡ none
unfolding advance_chain
advance-end flow_id job_id now c (flow, known, left) =
    let last = drop-end (flow.current_index + 1) flow.steps left in
    rw (known, last, lookup-erase flow_id flow_id c.chain_map, eq_refl flow_id)

advance_all-Waits :
    (flow_id : String) (calls : List (String × ℕ)) (rest : List ChainStep) (c : FlowController)
    → Waits flow_id rest c
    → length calls ≡ length rest
    → (jobs_pushed (advance_all flow_id calls c).1 ≡ jobs_for flow_id calls rest)
      × Waits flow_id [] (advance_all flow_id calls c).0
advance_all-Waits flow_id [] [] c h e = (refl, h)
advance_all-Waits flow_id [] (step ∷ rest) c h e = absurd (omega arith)
advance_all-Waits flow_id (call ∷ calls) [] c h e = absurd (omega arith)
advance_all-Waits flow_id ((job_id, now) ∷ calls) (step ∷ rest) c h e =
    let one = advance-step flow_id job_id now step rest c h in
    let all =
      advance_all-Waits flow_id calls rest (advance_chain flow_id job_id now c).0 one.1
        (omega arith) in
    (jobs_pushed-append (advance_chain flow_id job_id now c).1 _ ∙ rw (one.0, all.0), all.1)

chain-Waits :
    (flow_id job_id : String) (now : ℕ) (first : ChainStep) (rest : List ChainStep)
    (c : FlowController)
    → (jobs_pushed (chain flow_id job_id now (first ∷ rest) c).1
        ≡ job_of_step flow_id job_id now first ∷ [])
      × Waits flow_id rest (chain flow_id job_id now (first ∷ rest) c).0
unfolding chain
chain-Waits flow_id job_id now first rest c =
    let begun : Chain = record { steps = first ∷ rest; current_index = 0 } in
    let stored : lookup flow_id (insert flow_id begun c.chain_map) ≡ some begun =
      rw (lookup-insert flow_id flow_id begun c.chain_map, eq_refl flow_id) in
    (logged_first c.has_wal _ flow_id _ _, (begun, stored, refl))

-- If a chain of one or more steps is started, and then its jobs complete one after the other until
-- the job of the last step is pushed, the jobs that are pushed are one for each step, in the order
-- of the steps, with the flow's id; and when the last of them completes, the chain is gone.
pub advance_all-chain :
    (flow_id job_id last_id : String) (now last : ℕ) (first : ChainStep) (rest : List ChainStep)
    (calls : List (String × ℕ)) (c : FlowController)
    → length calls ≡ length rest
    → let begun = chain flow_id job_id now (first ∷ rest) c in
      let done = advance_all flow_id calls begun.0 in
      (jobs_pushed (begun.1 ++ done.1) ≡ jobs_for flow_id ((job_id, now) ∷ calls) (first ∷ rest))
      × (lookup flow_id (advance_chain flow_id last_id last done.0).0.chain_map ≡ none)
advance_all-chain flow_id job_id last_id now last first rest calls c h =
    let start = chain-Waits flow_id job_id now first rest c in
    let all = advance_all-Waits flow_id calls rest _ start.1 h in
    (
      jobs_pushed-append (chain flow_id job_id now (first ∷ rest) c).1 _ ∙ rw (start.0, all.0),
      advance-end flow_id last_id last _ all.1,
    )
