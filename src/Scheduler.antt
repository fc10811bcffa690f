-- ===== src/Scheduler.antt =====
-- packages/queueovn/src/core/Scheduler.ts: delayed jobs. The running timers of `setTimeout` stand in
-- the state, each with its number and its time; the event loop calls `fire` when a timer is due. The
-- callbacks of `onReady` are any values: `fire` returns them with the job that they are called with.
use oblivinx.Base.{
  ℕ, ◌+◌, ◌-◌, Option, none, some, String, List, [], ◌∷◌, ◌++◌, ◌==◌, not, map, length, keep_if,
}
use oblivinx.Base.Dict.{Dict, lookup, insert, erase, values}
use oblivinx.Job.{Job}

pub record ScheduledEntry : Type 0 where
  pub job : Job
  pub run_at : ℕ
  pub timer_id : ℕ

pub record Timer : Type 0 where
  pub timer_id : ℕ
  pub due : ℕ
  pub job : Job

pub record Scheduler (Callback : Type 0) : Type 0 where
  pub entries : Dict ScheduledEntry
  pub callbacks : List Callback
  pub timers : List Timer
  pub next_timer : ℕ

abbrev pub clear_timeout : ℕ → List Timer → List Timer
clear_timeout id = keep_if (λ t. not (t.timer_id == id))

abbrev pub clear_all : List ScheduledEntry → List Timer → List Timer
clear_all [] timers = timers
clear_all (entry ∷ rest) timers = clear_all rest (clear_timeout entry.timer_id timers)

module _ {Callback : Type 0} where
  abbrev pub new_scheduler : Scheduler Callback
  new_scheduler = record { entries = []; callbacks = []; timers = []; next_timer = 0 }

  abbrev pub on_ready : Callback → Scheduler Callback → Scheduler Callback
  on_ready cb s = record s { callbacks = s.callbacks ++ cb ∷ [] }

  -- `Math.max(0, runAt - now)` is the truncated difference.
  abbrev pub schedule : ℕ → Job → ℕ → Scheduler Callback → Scheduler Callback
  schedule now job run_at s = record s {
    entries =
        insert job.id (record { job = job; run_at = run_at; timer_id = s.next_timer }) s.entries;
    timers =
        s.timers ++ record { timer_id = s.next_timer; due = now + (run_at - now); job = job } ∷ [];
    next_timer = s.next_timer + 1;
  }

  -- The function that `schedule` hands to `setTimeout`, when its timer is due.
  abbrev pub fire : Timer → Scheduler Callback → Scheduler Callback × List (Callback × Job)
  fire timer s = (
    record s {
      entries = erase timer.job.id s.entries;
      timers = clear_timeout timer.timer_id s.timers;
    },
    map (λ cb. (cb, timer.job)) s.callbacks,
  )

  abbrev pub cancel_found : String → Option ScheduledEntry → Scheduler Callback → Scheduler Callback
  cancel_found id none s = s
  cancel_found id (some entry) s = record s {
    entries = erase id s.entries;
    timers = clear_timeout entry.timer_id s.timers;
  }

  abbrev pub cancel : String → Scheduler Callback → Scheduler Callback
  cancel id s = cancel_found id (lookup id s.entries) s

  abbrev pub size : Scheduler Callback → ℕ
  size s = length s.entries

  abbrev pub scheduled_jobs : Scheduler Callback → List Job
  scheduled_jobs s = map (λ e. e.job) (values s.entries)

  abbrev pub clear : Scheduler Callback → Scheduler Callback
  clear s = record s { entries = []; timers = clear_all (values s.entries) s.timers }
