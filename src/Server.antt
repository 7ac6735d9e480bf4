-- ===== src/Server.antt =====
-- The package src/cfr_compliance_mcp, which fetches from the eCFR.
pub mod Limiter
pub mod Spacing
pub mod Errors
pub mod Retrying
pub mod Calls
pub mod Client
pub mod Sessions
pub mod Histories
pub mod Citing
pub mod Cached
pub mod Freshness
pub mod Requests
pub mod Searching
pub mod Words
pub mod Queries
mod Tests
