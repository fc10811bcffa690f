-- ===== src/Examples.antt =====
-- Each part at concrete inputs.
mod Codec
pub mod Data
mod Heap
mod Adapter
mod Wal
mod Breaker
mod Plugins
mod Job
mod Flow
mod Engine
mod Ends
mod Stores
mod Kv
mod Dag
mod Client
mod Query
