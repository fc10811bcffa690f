-- ===== src/Plugins/Deduplicator/Active.antt =====
-- plugins/Deduplicator.ts, two hooks in a row.
use oblivinx.Base.{◌≡◌, none, some, arith, str_eq, if◌then◌else◌}
use oblivinx.Base.Dict.{lookup-insert, lookup-erase}
use oblivinx.Job.{Job}
use oblivinx.Job.Errors.{queue_error}
use oblivinx.Plugins.Deduplicator.{Deduplicator, key_of, on_enqueue, on_done}

-- After a job is let in, a second one is refused if it has the same key, and otherwise gets the
-- answer that it would have got before.
pub on_enqueue_twice :
    (first second : Job) (d : Deduplicator)
    → (on_enqueue first d).1 ≡ none
    → (on_enqueue second (on_enqueue first d).0).1 ≡ (
        if str_eq (key_of first) (key_of second)
        then some (queue_error (key_of second))
        else (on_enqueue second d).1)
unfolding on_enqueue
on_enqueue_twice first second d h =
    ground (arith, lookup-insert (key_of first) (key_of second) (tt) d)

-- After a job completes, fails or expires, a second one is let in if it has the same key, and
-- otherwise gets the answer that it would have got before.
pub on_enqueue-on_done :
    (first second : Job) (d : Deduplicator)
    → (on_enqueue second (on_done first d)).1
      ≡ (if str_eq (key_of first) (key_of second) then none else (on_enqueue second d).1)
unfolding on_enqueue on_done
on_enqueue-on_done first second d = ground (arith, lookup-erase (key_of first) (key_of second) d)
