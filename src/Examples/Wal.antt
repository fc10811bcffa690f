-- ===== src/Examples/Wal.antt =====
-- persistence/WALWriter.ts and persistence/Recovery.ts, with the lines of Codec.
use oblivinx.Base.{◌≡◌, refl, true, some, List, [], ◌∷◌, arith}
use oblivinx.Adapter.{MemoryAdapter, empty_adapter}
use oblivinx.Wal.{
  WalOperation, of_job, nothing, WalEntry, WalWriter, entry_at, initialize, new_writer, truncate,
  close,
}
use oblivinx.Wal.Numbered.{Logged}
use oblivinx.Wal.Restart.{initialize-Logged}
use oblivinx.Wal.Truncated.{Record, append_all}
use oblivinx.Recovery.{recover, run}
use oblivinx.Recovery.Run.{Recovered, replayed, recover_lem, run-truncate}
use oblivinx.Examples.Codec.{encode, decode, is_blank, codec}
use oblivinx.Examples.Data.{slow_job, third_job}

-- Two operations, and the writer that logged them.
abbrev enqueued : Record
enqueued = record { now = 1; op = WalOperation.enqueue; job_id = "slow"; data_of = of_job slow_job }

abbrev activated : Record
activated = record { now = 2; op = WalOperation.activate; job_id = "slow"; data_of = nothing }

abbrev two_entries : List WalEntry
two_entries =
    entry_at 1 WalOperation.enqueue "slow" (of_job slow_job) 0
    ∷ entry_at 2 WalOperation.activate "slow" nothing 1
    ∷ []

abbrev writer : WalWriter WalEntry
writer = record { enabled = true; stream = some []; file = some two_entries; seq = 2 }

writer-Logged : Logged encode decode is_blank writer two_entries
writer-Logged = record {
  enabled = refl;
  open_stream = refl;
  lines = refl;
  plain = (refl, (tt, tt));
  numbered = (refl, (refl, refl));
}

initialize-Logged_example :
    Logged encode decode is_blank
      (initialize decode is_blank (new_writer true (some two_entries)))
      two_entries
initialize-Logged_example =
    initialize-Logged encode decode is_blank codec writer two_entries writer-Logged

recover_lem_example :
    (b : MemoryAdapter) × (recover
        (some (record { seq = 0; timestamp = 9; jobs = third_job ∷ [] }))
        two_entries
        empty_adapter
      ≡ some b)
    × Recovered
        (replayed (some (record { seq = 0; timestamp = 9; jobs = third_job ∷ [] })) two_entries)
        b
recover_lem_example =
    recover_lem (some (record { seq = 0; timestamp = 9; jobs = third_job ∷ [] })) two_entries

-- The enqueued job is lost: the log of a queue that took a snapshot at 2 held it.
run-truncate_example :
    run decode is_blank
      (some (record { seq = 2; timestamp = 9; jobs = [] }))
      (close (append_all encode (enqueued ∷ []) (truncate writer)))
      empty_adapter
    ≡ recover (some (record { seq = 2; timestamp = 9; jobs = [] })) [] empty_adapter
run-truncate_example =
    run-truncate encode decode is_blank codec (enqueued ∷ []) writer
      (record { seq = 2; timestamp = 9; jobs = [] }) (refl, tt) refl (omega arith)
