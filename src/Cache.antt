-- ===== src/Cache.antt =====
-- The cache: src/cfr_compliance_mcp/cache/cache_backend.py. The clock is `time.monotonic()`, read
-- once by each operation: an argument `now`, in ticks of any length.
pub mod Backend
pub mod Ideal
pub mod Refinement
mod Tests
