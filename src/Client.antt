-- ===== src/Client.antt =====
-- packages/oblivinx3x/src: the parts of the database client that compute without the native engine.
pub mod Versioning
pub mod AccessControl
pub mod AuditLog
pub mod RateLimiter
pub mod Ids
pub mod Query
pub mod Depth
