-- ===== src/Plugins.antt =====
-- packages/queueovn/src/plugins: the hooks that the queue calls around a job. A hook returns the
-- new state of the plugin, with the error if it throws; `Date.now()` is an argument.
pub mod RateLimiter
pub mod Throttle
pub mod Deduplicator
pub mod Debounce
pub mod JobTtl
pub mod Metrics
pub mod DeadLetterQueue
