-- ===== src/Lib.antt =====
-- oblivinx: a queue of jobs (packages/queueovn) beside a document database (packages/oblivinx3x, with
-- a native engine in crates). The development is about the queue, in packages/queueovn/src, and about
-- the parts of the database client, in packages/oblivinx3x/src, that do not call the engine. Other
-- paths below are from the first of these folders.
--
-- A job (`Job`: types/job.types.ts, job/) waits in an adapter (`Adapter`: adapters/MemoryAdapter.ts),
-- which keeps a binary heap of the waiting jobs (`Heap`: core/PriorityHeap.ts), an index of them by id,
-- and a store of the jobs that were updated when they did not wait. What happens to a job is appended
-- to a log (`Wal`: persistence/WALWriter.ts); after a crash the last snapshot and the log are replayed
-- into a new adapter (`Recovery`: persistence/Recovery.ts, persistence/Snapshot.ts). Around a job the
-- queue calls the hooks of its plugins (`Plugins`: plugins/), and asks a retry policy (`Retry`: retry/)
-- after a failure. `Flow` is core/FlowController.ts, the chains and graphs of jobs, `Config` the
-- configuration (config/), `Scheduler` and `Registry` core/Scheduler.ts and core/JobRegistry.ts, and `Breaker`
-- utils/circuitBreaker.ts. `Base` holds what the parts share, and `Examples`
-- applies the theorems at concrete inputs.
--
-- A class is a record of its fields, a method a function from the state to the new state, in snake
-- case (`extractMin` is `extract_min`). A `Map` is an association list in insertion order (Base/Dict),
-- and a `Set` a map to units. The asynchronous methods of the adapter are one step each, since nothing
-- else runs between their parts. A hook that throws returns its error beside the state.
--
-- Numbers are natural numbers: times, priorities and counts are whole and not negative. Where the
-- source subtracts times to compare them, the model adds instead. `Date.now()`, the generated ids and
-- `Math.random()` are arguments, and so are the functions that a caller hands over (`keyFn`, the
-- policies). JSON is a pair of functions on the lines of the log, of which the proofs use that a line
-- of plain data reads back and is not empty; an entry with a retry policy is not plain, since an object
-- with methods does not survive it. `append` hands a line to the log's stream, which holds it until it
-- writes it: a `close` writes all, and after a crash the file has the first of the lines, as many as
-- the stream had written (`Recovery/Crash`).
--
-- A read of an undefined heap slot is `none`, and the loops of the heap run on fuel: the index and one
-- for `bubbleUp`, which at least halves the index in each round, and the length and one for `sinkDown`,
-- where the index grows in each round and stays below the length. The results on the heap say of its
-- methods that they return, so they include that the fuel is enough.
--
-- `Engine` is the queue itself (core/JobQueue.ts). Its state has the adapter, the scheduler, the flow
-- controller, the plugins, the jobs in flight, the log as the list of its records, and the events; a
-- promise that is resolved for `drain` is an event too. `enqueue`, the end of a job in flight, a timer
-- and the other calls are one step each (`Engine/Steps`), in any order, and so are the parts of a round
-- of the process loop (`Engine/Phases`): the test and the `pop`, the hooks, and the dispatch, with the
-- popped job in the hands of the loop and any other steps between them. Within a step the source
-- awaits the memory adapter and the built-in plugins, and the model takes these answers as immediate.
-- The records of the log are its calls of `append`, and what is recovered from it goes through the
-- lines of its file. `run_loop` is the loop with nothing between its rounds. A job's end gets what its handler returned or threw as an argument. The hooks of the
-- plugins are a record of functions (`Engine/Hooks`), and `Engine/Builtin` fills it with the plugins of
-- plugins/. The process loop runs on fuel: each round takes a job or ends the loop, so one more than
-- the waiting jobs, and one, is enough. An engine is called sound where its heap is ordered, `running`
-- is the number of jobs in flight, and it is within `workers.max`.
--
-- `Stores` is stores/KvStore.ts and stores/SortedSet.ts, the keys and the leaderboards of a bot, which
-- stand beside the queue.
--
-- `Client` is what packages/oblivinx3x/src computes by itself, without the native engine, with paths from
-- that folder in this paragraph: the versions of a document (`Client/Versioning`: versioning/VersionedDocument.ts), the access lists, the audit log and
-- the rate limiter of security/ (`Client/AccessControl`, `Client/AuditLog`, `Client/RateLimiter`), the ids
-- of utils/id.ts (`Client/Ids`), the filters that query/FilterBuilder.ts builds and security/validation.ts
-- tests (`Client/Query`), and the depth test of security/validator.ts (`Client/Depth`). A document is a
-- list of its entries, and a filter a tree of its own, since it may hold regular expressions. The rate
-- limiter counts thousandths of a token, so that its refills are whole numbers.
--
-- In `Flow/Dag`, `dag` of the flow controller, the sort runs on fuel: each round takes a node that was
-- not taken before, so the number of nodes is enough, and the results say that it ends.
--
-- Not modelled: `initialize` and the batch methods of the queue, the cron scheduler, the sessions and
-- messages in stores/, the other adapters, which bind databases and files, the processes of ipc/, and of
-- packages/oblivinx3x the calls of the native engine, the builders of updates and pipelines, backups and
-- the command line.
pub mod Adapter
pub mod Base
pub mod Breaker
pub mod Client
pub mod Config
pub mod Engine
pub mod Examples
pub mod Flow
pub mod Heap
pub mod Job
pub mod Plugins
pub mod Recovery
pub mod Registry
pub mod Retry
pub mod Scheduler
pub mod Stores
pub mod Wal
