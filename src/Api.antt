-- ===== src/Api.antt =====
-- The HTTP interface: api.py. FastAPI parses a request and writes a response; a request that its
-- validation lets through is a value here, and so is what an endpoint returns or raises.
pub mod Input
pub mod Evaluation
pub mod Endpoints
pub mod Outcome
pub mod Memory
pub mod Bulk
pub mod Reviews
pub mod Workflow
pub mod Decisions
pub mod Analyses
pub mod History
mod Tests
