-- ===== src/Examples/Plugins.antt =====
-- plugins.
use oblivinx.Base.{List, ◌∷◌, [], ◌≤◌, ◌<◌, ◌≡◌, ◌≢◌, refl, String, none, some, arith, eq_iff}
use oblivinx.Base.Dict.{lookup, insert}
use oblivinx.Job.{Job}
use oblivinx.Job.Errors.{concurrency_limit}
use oblivinx.Plugins.Throttle
use oblivinx.Plugins.Throttle.{Throttle, new_throttle}
use oblivinx.Plugins.Throttle.Cap.{on_process_refuses}
use oblivinx.Plugins.Debounce.{Debounce, new_debounce}
use oblivinx.Plugins.Debounce.LastWins.{both}
use oblivinx.Wal.{read_all, close}
use oblivinx.Recovery.Crash.{written, reopened}
use oblivinx.Examples.Codec.{encode, decode, is_blank, codec}
use oblivinx.Plugins.DeadLetterQueue.{
  DeadLetterQueue, new_dlq, set_wal, set_enqueue_callback, restore_from_wal, on_fail, retry,
  remove_entry,
}
use oblivinx.Plugins.DeadLetterQueue.Replay.{
  Call, fails, retries, call_all, writes, restore_from_wal-call_all,
}
use oblivinx.Examples.Data.{slow_job, fast_job}

abbrev type_of : Job → String
type_of job = job.type

abbrev full : Throttle
full = record { active_count = 2; max_concurrent = 2 }

on_process_refuses_example :
    ((Throttle.on_process slow_job full).1 ≡ none → 2 < 2)
    × (2 < 2 → Throttle.on_process slow_job full ≡ (record full { active_count = 3 }, none))
    × (2 ≤ 2 → Throttle.on_process slow_job full ≡ (full, some (concurrency_limit 2)))
on_process_refuses_example = on_process_refuses slow_job full

abbrev debounced : Debounce
debounced = both type_of (new_debounce 10) 0 5 slow_job fast_job refl

distinct : slow_job.id ≢ fast_job.id
distinct h = ground (arith, (eq_iff slow_job.id fast_job.id).1 h)

abbrev three_calls : List Call
three_calls =
    fails 5 slow_job (record { name = "Error"; message = "down" })
    ∷ fails 6 fast_job (record { name = "Error"; message = "down" })
    ∷ retries "slow"
    ∷ []

abbrev logging_dlq : DeadLetterQueue
logging_dlq = set_enqueue_callback (set_wal new_dlq)

restore_from_wal-call_all_example :
    (restore_from_wal
      (read_all decode is_blank (
        reopened encode decode is_blank
          (close
            (written encode decode is_blank (writes (call_all three_calls logging_dlq).1))).file))
      (set_wal new_dlq)).entries
    ≡ (call_all three_calls logging_dlq).0.entries
unfolding on_fail retry remove_entry lookup insert
restore_from_wal-call_all_example =
    restore_from_wal-call_all encode decode is_blank codec three_calls logging_dlq refl refl
      (refl, (refl, (tt, tt)))
