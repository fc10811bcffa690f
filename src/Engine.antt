-- ===== src/Engine.antt =====
-- packages/queueovn/src/core/JobQueue.ts: the queue engine, over the memory adapter. `State` is its
-- state and its events, `Hooks` the calls of the plugins, `Enqueue`, `Loop`, `Finish` and `Timers` its
-- handlers. Between two awaits of the source nothing else runs; here a call of `enqueue`, a round of
-- the process loop and the end of a job are one step each, since the adapter answers at once.
pub mod State
pub mod Hooks
pub mod Enqueue
pub mod Loop
pub mod Phases
pub mod Finish
pub mod Timers
pub mod Keeps
pub mod Total
pub mod Answers
pub mod Bounded
pub mod Steps
pub mod Closed
pub mod Durable
pub mod Greedy
pub mod Builtin
pub mod Retries
pub mod Slots
pub mod Duplicates
pub mod Stranded
pub mod Drained
