-- ===== src/Flow/Replay.antt =====
-- core/FlowController.ts, `restoreFromWAL` of what the methods of chains log.
use oblivinx.Base.{
  ℕ, ◌+◌, ◌≡◌, refl, ap, ◌∙◌, String, Option, none, some, List, [], ◌∷◌, ◌++◌, Bool, true, false,
}
use oblivinx.Base.Arrays.{get_elem?}
use oblivinx.Base.Dict.{lookup, insert, has}
use oblivinx.Wal.{WalOperation, WalData, ChainStep}
use oblivinx.Wal.Truncated.{Record, entries_from}
use oblivinx.Flow.{
  Chain, FlowController, Effect, logged, pushed, woken, log_if, chain, advance_chain, advance_found,
  advance_to, fail_chain, end_chain, restore_op, restore_from_wal, set_index,
}

-- What reaches the log.
abbrev pub chain_writes : List Effect → List Record
chain_writes [] = []
chain_writes (logged op id d ∷ es) =
    record { now = 0; op = op; job_id = id; data_of = d } ∷ chain_writes es
chain_writes (_ ∷ es) = chain_writes es

-- The methods that change the chains.
pub data ChainCall : Type 0 where
  starts : String → String → ℕ → List ChainStep → ChainCall
  advances : String → String → ℕ → ChainCall
  fails : Option String → ChainCall

abbrev pub call : ChainCall → FlowController → FlowController × List Effect
call (starts flow_id job_id now steps) c = chain flow_id job_id now steps c
call (advances flow_id job_id now) c = advance_chain flow_id job_id now c
call (fails flow_id) c = fail_chain flow_id c

abbrev pub run_calls : List ChainCall → FlowController → FlowController × List Effect
run_calls [] c = (c, [])
run_calls (x ∷ xs) c =
    let (d, effects) = call x c in let (e, later) = run_calls xs d in (e, effects ++ later)

-- The writes, replayed without their numbers.
abbrev pub replay : List Record → FlowController → FlowController
replay [] c = c
replay (r ∷ rs) c = replay rs (restore_op r.op r.job_id r.data_of c)

restore-entries_from :
    (seq : ℕ) (rs : List Record) (c : FlowController)
    → restore_from_wal (entries_from seq rs) c ≡ replay rs c
unfolding entries_from
restore-entries_from seq [] c = refl
restore-entries_from seq (r ∷ rs) c =
    restore-entries_from (seq + 1) rs (restore_op r.op r.job_id r.data_of c)

replay-append :
    (xs ys : List Effect) (c : FlowController)
    → replay (chain_writes (xs ++ ys)) c ≡ replay (chain_writes ys) (replay (chain_writes xs) c)
replay-append [] ys c = refl
replay-append (logged op id d ∷ xs) ys c = replay-append xs ys (restore_op op id d c)
replay-append (pushed job ∷ xs) ys c = replay-append xs ys c
replay-append (woken ∷ xs) ys c = replay-append xs ys c

-- A logged operation, with any pushes after it, is replayed as itself.
replay-logged :
    (b : Bool) (op : WalOperation) (id : String) (d : WalData) (rest : List Effect)
    (c : FlowController)
    → b ≡ true
    → chain_writes rest ≡ []
    → replay (chain_writes (log_if b op id d ++ rest)) c ≡ restore_op op id d c
replay-logged true op id d rest c h none_left = rw none_left
replay-logged false op id d rest c h none_left = absurd (cc)

replay-log_if :
    (b : Bool) (op : WalOperation) (id : String) (d : WalData) (c : FlowController)
    → b ≡ true
    → replay (chain_writes (log_if b op id d)) c ≡ restore_op op id d c
replay-log_if true op id d c h = refl
replay-log_if false op id d c h = absurd (cc)

replay-chain :
    (flow_id job_id : String) (now : ℕ) (steps : List ChainStep) (c : FlowController)
    → c.has_wal ≡ true
    → (replay (chain_writes (chain flow_id job_id now steps c).1) c
        ≡ (chain flow_id job_id now steps c).0)
      × ((chain flow_id job_id now steps c).0.has_wal ≡ true)
unfolding chain
replay-chain flow_id job_id now [] c h = (refl, h)
replay-chain flow_id job_id now (first ∷ rest) c h =
    (replay-logged c.has_wal _ flow_id _ _ c h refl, h)

replay-advance_to :
    (flow_id job_id : String) (now : ℕ) (flow : Chain) (o : Option ChainStep) (c : FlowController)
    → c.has_wal ≡ true
    → lookup flow_id c.chain_map ≡ some flow
    → (replay (chain_writes (advance_to flow_id job_id now flow o c).1) c
        ≡ (advance_to flow_id job_id now flow o c).0)
      × ((advance_to flow_id job_id now flow o c).0.has_wal ≡ true)
replay-advance_to flow_id job_id now flow none c h known =
    (replay-log_if c.has_wal _ flow_id _ c h, h)
replay-advance_to flow_id job_id now flow (some next) c h known =
    let found : set_index flow_id (flow.current_index + 1) (lookup flow_id c.chain_map) c.chain_map
        ≡ insert flow_id (record flow { current_index = flow.current_index + 1 }) c.chain_map =
      rw known in
    (replay-logged c.has_wal _ flow_id _ _ c h refl ∙ ap (λ m. record c { chain_map = m }) found, h)

replay-advance_found :
    (flow_id job_id : String) (now : ℕ) (o : Option Chain) (c : FlowController)
    → c.has_wal ≡ true
    → lookup flow_id c.chain_map ≡ o
    → (replay (chain_writes (advance_found flow_id job_id now o c).1) c
        ≡ (advance_found flow_id job_id now o c).0)
      × ((advance_found flow_id job_id now o c).0.has_wal ≡ true)
replay-advance_found flow_id job_id now none c h known = (refl, h)
replay-advance_found flow_id job_id now (some flow) c h known =
    replay-advance_to flow_id job_id now flow (get_elem? flow.steps (flow.current_index + 1)) c h
      known

replay-end_chain :
    (b : Bool) (flow_id : String) (c : FlowController)
    → c.has_wal ≡ true
    → (replay (chain_writes (end_chain b flow_id c).1) c ≡ (end_chain b flow_id c).0)
      × ((end_chain b flow_id c).0.has_wal ≡ true)
replay-end_chain true flow_id c h = (replay-log_if c.has_wal _ flow_id _ c h, h)
replay-end_chain false flow_id c h = (refl, h)

replay-call :
    (x : ChainCall) (c : FlowController)
    → c.has_wal ≡ true
    → (replay (chain_writes (call x c).1) c ≡ (call x c).0) × ((call x c).0.has_wal ≡ true)
unfolding advance_chain fail_chain
replay-call (starts flow_id job_id now steps) c h = replay-chain flow_id job_id now steps c h
replay-call (advances flow_id job_id now) c h =
    replay-advance_found flow_id job_id now (lookup flow_id c.chain_map) c h refl
replay-call (fails none) c h = (refl, h)
replay-call (fails (some flow_id)) c h = replay-end_chain (has flow_id c.chain_map) flow_id c h

replay-run_calls :
    (xs : List ChainCall) (c : FlowController)
    → c.has_wal ≡ true
    → replay (chain_writes (run_calls xs c).1) c ≡ (run_calls xs c).0
replay-run_calls [] c h = refl
replay-run_calls (x ∷ xs) c h =
    let (one, logs) = replay-call x c h in
    replay-append (call x c).1 _ c
    ∙ ap (replay (chain_writes (run_calls xs (call x c).0).1)) one
    ∙ replay-run_calls xs (call x c).0 logs

-- If a flow controller has a log, then after any run of started chains, advances and failures of
-- chains, `restoreFromWAL` of the writes of that run, numbered from anywhere, brings the
-- controller from its state before the run to its state after it.
pub restore_from_wal-run_calls :
    (xs : List ChainCall) (c : FlowController) (seq : ℕ)
    → c.has_wal ≡ true
    → restore_from_wal (entries_from seq (chain_writes (run_calls xs c).1)) c ≡ (run_calls xs c).0
restore_from_wal-run_calls xs c seq h =
    restore-entries_from seq (chain_writes (run_calls xs c).1) c ∙ replay-run_calls xs c h
