-- ===== src/Security.antt =====
-- The security gates: agent/security.py. The `details` texts of the gates are left out: nothing
-- reads them but reports.
pub mod Injection
pub mod Gate
pub mod Safety
pub mod Sanitize
pub mod Runs
pub mod Sanitized
pub mod Evaluation
mod Tests
