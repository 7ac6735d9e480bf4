-- ===== src/Retrieval.antt =====
-- The retrieval of a regulation for a clause: agent/mcp_search.py, and agent/cfr_query_optimizer.py.
-- The tools of the server are parameters: a call returns a payload or raises.
pub mod Candidates
pub mod Fetch
pub mod Selection
pub mod Labels
pub mod SearchQuery
pub mod QueryBounds
pub mod Domains
pub mod Prediction
mod Tests
