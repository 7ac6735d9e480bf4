-- ===== src/Review.antt =====
-- The human review workflow: agent/persistence.
pub mod Lifecycle
pub mod Records
pub mod Repository
pub mod Queries
pub mod Trail
pub mod History
pub mod Concurrency
pub mod Bounds
pub mod Opening
pub mod Counting
mod Tests
