-- ===== src/Examples/Adapter.antt =====
-- adapters/MemoryAdapter.ts.
use oblivinx.Base.{◌≡◌, ◌⊎◌, none, some}
use oblivinx.Job.{Job}
use oblivinx.Adapter.{MemoryAdapter, pop}
use oblivinx.Adapter.Mirror.{IsQuiet, Popped}
use oblivinx.Adapter.Laws.{pop_lem}
use oblivinx.Examples.Data.{busy, busy-IsMirrored}

pop_lem_example :
    (IsQuiet 25 busy × (pop 25 busy ≡ some (none, busy)))
    ⊎ ((job : Job) × (b : MemoryAdapter) × (pop 25 busy ≡ some (some job, b))
        × Popped 25 busy job b)
pop_lem_example = pop_lem 25 busy busy-IsMirrored
