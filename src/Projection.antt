-- ===== src/Projection.antt =====
-- internal/projection: the in-memory graph that the event log folds into.
pub mod Graph
pub mod Reads
pub mod Restart
pub mod Stored
pub mod Adjacency
pub mod Matching
pub mod Tombstones
pub mod Pruning
pub mod Index
pub mod History
