-- ===== src/Model.antt =====
-- internal/model: the domain types that the log, the projection and the engine share.
pub mod Value
pub mod Entity
pub mod Registry
pub mod Event
pub mod Validate
