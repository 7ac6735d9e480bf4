-- ===== src/Memory.antt =====
-- Compliance Memory: agent/memory.py over agent/memory_store.py.
pub mod Similarity
pub mod Records
pub mod Store
pub mod Retrieval
pub mod Indexing
pub mod Reuse
pub mod Growth
pub mod Recall
pub mod Uniqueness
mod Tests
