-- ===== src/Verification.antt =====
-- The verification agent: agent/verification_agent.py. The `details` texts of the checks are left
-- out: no decision reads them.
pub mod Checks
pub mod Verdict
mod Tests
