-- ===== src/Stores.antt =====
-- packages/queueovn/src/stores: the stores that stand beside the queue.
pub mod KvStore
pub mod SortedSet
