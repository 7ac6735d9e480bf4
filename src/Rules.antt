-- ===== src/Rules.antt =====
-- The deterministic compliance rules: agent/deterministic_rules.py.
pub mod Keywords
pub mod Outcomes
pub mod Requirement
pub mod Checks
pub mod Language
pub mod Verdicts
mod Tests
