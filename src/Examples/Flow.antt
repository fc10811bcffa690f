-- ===== src/Examples/Flow.antt =====
-- core/FlowController.ts.
use oblivinx.Base.{◌≡◌, refl, ◌++◌, none, some, List, [], ◌∷◌, true, String}
use oblivinx.Base.Dict.{lookup}
use oblivinx.Base.Value.{Fields}
use oblivinx.Wal.{ChainStep}
use oblivinx.Wal.Truncated.{entries_from}
use oblivinx.Flow.{new_controller, chain, advance_chain, restore_from_wal}
use oblivinx.Flow.Chains.{jobs_pushed, jobs_for, advance_all, advance_all-chain}
use oblivinx.Flow.Replay.{
  ChainCall, starts, advances, fails, run_calls, chain_writes, restore_from_wal-run_calls,
}

abbrev step_of : String → ChainStep
step_of type = record {
  type = type;
  payload = Fields.end;
  priority = none;
  delay = none;
  max_attempts = some 2;
  max_duration = none;
  ttl = none;
}

advance_all-chain_example :
    let begun =
      chain "flow" "a" 1 (step_of "fetch" ∷ step_of "resize" ∷ []) (new_controller true) in
    let done = advance_all "flow" (("b", 5) ∷ []) begun.0 in
    (jobs_pushed (begun.1 ++ done.1)
      ≡ jobs_for "flow" (("a", 1) ∷ ("b", 5) ∷ []) (step_of "fetch" ∷ step_of "resize" ∷ []))
    × (lookup "flow" (advance_chain "flow" "c" 9 done.0).0.chain_map ≡ none)
advance_all-chain_example =
    advance_all-chain "flow" "a" "c" 1 9 (step_of "fetch") (step_of "resize" ∷ []) (("b", 5) ∷ [])
      (new_controller true) refl

abbrev four_calls : List ChainCall
four_calls =
    starts "flow" "a" 1 (step_of "fetch" ∷ step_of "resize" ∷ [])
    ∷ advances "flow" "b" 5
    ∷ starts "other" "c" 6 (step_of "fetch" ∷ [])
    ∷ fails (some "flow")
    ∷ []

restore_from_wal-run_calls_example :
    restore_from_wal
      (entries_from 0 (chain_writes (run_calls four_calls (new_controller true)).1))
      (new_controller true)
    ≡ (run_calls four_calls (new_controller true)).0
restore_from_wal-run_calls_example =
    restore_from_wal-run_calls four_calls (new_controller true) 0 refl
