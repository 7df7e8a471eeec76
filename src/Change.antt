-- ===== src/Change.antt =====
-- internal/change: the engine that turns observations into qualified events.
pub mod RefKey
pub mod State
pub mod Diff
pub mod Staged
pub mod Engine
pub mod Relations
pub mod Reconcile
pub mod Entities
pub mod Liveness
pub mod Deletion
pub mod Buffer
pub mod Sweep
pub mod Staging
pub mod Atomicity
pub mod Expiry
pub mod Growth
pub mod Expired
pub mod Forgotten
pub mod Flush
pub mod Alias
