-- ===== src/Plugins/JobTtl.antt =====
-- plugins/JobTTL.ts: a timer for each job with a time to live. The running timers of `setTimeout`
-- stand in the state, each with its number, its time and its job; the event loop calls `fire` when a
-- timer is due. The callback is `handleExpire` of core/JobQueue.ts, which the caller of `fire` runs.
use oblivinx.Base.{ℕ, ◌+◌, ◌-◌, Option, none, some, List, [], ◌∷◌, ◌++◌, String, ltb, if◌then◌else◌}
use oblivinx.Base.Dict.{Dict, lookup, insert, erase}
use oblivinx.Job.{Job}
use oblivinx.Scheduler.{Timer, clear_timeout}

pub record JobTtl : Type 0 where
  pub timers : Dict ℕ
  pub timeouts : List Timer
  pub next_timer : ℕ

abbrev pub new_ttl : JobTtl
new_ttl = record { timers = []; timeouts = []; next_timer = 0 }

-- `Math.max(0, expiresAt - now)` is the truncated difference.
abbrev pub delay_of : ℕ → Option ℕ → ℕ → ℕ
delay_of now none ttl = ttl
delay_of now (some expires_at) ttl = expires_at - now

abbrev pub set_timer : ℕ → Job → Option ℕ → JobTtl → JobTtl
set_timer now job none t = t
set_timer now job (some ttl) t =
    let timer : Timer = record {
      timer_id = t.next_timer;
      due = now + delay_of now job.expires_at ttl;
      job = job;
    } in
    let started : JobTtl = record {
      timers = insert job.id t.next_timer t.timers;
      timeouts = t.timeouts ++ timer ∷ [];
      next_timer = t.next_timer + 1;
    } in
    if ltb 0 ttl then started else t

unfoldable pub on_enqueue : ℕ → Job → JobTtl → JobTtl
on_enqueue now job t = set_timer now job job.ttl t

-- The function that `onEnqueue` hands to `setTimeout`, when its timer is due.
unfoldable pub fire : Timer → JobTtl → JobTtl
fire timer t = record t {
  timers = erase timer.job.id t.timers;
  timeouts = clear_timeout timer.timer_id t.timeouts;
}

abbrev pub cancel_found : String → Option ℕ → JobTtl → JobTtl
cancel_found id none t = t
cancel_found id (some timer_id) t = record t {
  timers = erase id t.timers;
  timeouts = clear_timeout timer_id t.timeouts;
}

-- `cancel`, which `onComplete` and `onFail` call.
unfoldable pub cancel : String → JobTtl → JobTtl
cancel id t = cancel_found id (lookup id t.timers) t

abbrev pub clear_each : Dict ℕ → List Timer → List Timer
clear_each [] timeouts = timeouts
clear_each ((id, timer_id) ∷ rest) timeouts = clear_each rest (clear_timeout timer_id timeouts)

unfoldable pub clear : JobTtl → JobTtl
clear t = record t { timers = []; timeouts = clear_each t.timers t.timeouts }
