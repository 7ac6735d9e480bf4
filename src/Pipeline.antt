-- ===== src/Pipeline.antt =====
-- The compliance pipeline: agent/compliance_pipeline.py. The tools of the retrieval, the language
-- model, the hash and the clock are parameters.
pub mod Match
pub mod Results
pub mod Evaluation
pub mod Schedule
pub mod Trust
pub mod Recalled
pub mod Outcome
pub mod Feedback
pub mod Provenance
pub mod Interleaving
pub mod Retention
pub mod Run
mod Tests
