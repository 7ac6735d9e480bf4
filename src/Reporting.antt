-- ===== src/Reporting.antt =====
-- The persisted report of an analysis: agent/reporting.py (`ClauseReport`, `ReportRecord`,
-- `build_report`). A report's statuses are texts, as in the source.
pub mod Totals
pub mod Identifiers
pub mod Names
pub mod Safe
pub mod Directory
pub mod Saved
mod Tests
use cfr_compliance_mcp.Prelude.{ℕ, String, Bool, Option, List, map, length, keep}
use cfr_compliance_mcp.Models.{
  Status, compliant, non_compliant, needs_review, status_text, verification_text, status_eq,
  EvidencePassage, ReviewAudit, ComplianceResult,
}

pub record ClauseReport : Type 0 where
  pub clause_id : String
  pub clause_title : String
  pub status : String
  pub confidence : ℕ
  pub reason : String
  pub evidence : List EvidencePassage
  pub verification_status : String
  pub review_reason : String
  pub review_audit : Option ReviewAudit
  pub memory_participated : Bool

pub record ReportRecord : Type 0 where
  pub analysis_id : String
  pub contract_id : Option String
  pub generated_at : String
  pub total_clauses : ℕ
  pub compliant : ℕ
  pub non_compliant : ℕ
  pub needs_review : ℕ
  pub clauses : List ClauseReport

unfoldable pub build_clause_report : ComplianceResult → ClauseReport
build_clause_report r = record {
  clause_id = r.clause_id;
  clause_title = r.clause_title;
  status = status_text r.status;
  confidence = r.confidence;
  reason = r.reason;
  evidence = r.evidence;
  verification_status = verification_text r.verification_status;
  review_reason = r.review_reason;
  review_audit = r.review_audit;
  memory_participated = r.memory_participated;
}

-- `sum(1 for r in results if r.status == s)`.
unfoldable pub count_status : Status → List ComplianceResult → ℕ
count_status s results = length (keep (λ r. status_eq r.status s) results)

-- `build_report`, at the report's sanitized id and the time of the call. With no results every
-- count is 0 and there are no clauses, as the early return has it.
unfoldable pub build_report : String → Option String → String → List ComplianceResult → ReportRecord
unfolding count_status
build_report analysis_id contract_id now results = record {
  analysis_id = analysis_id;
  contract_id = contract_id;
  generated_at = now;
  total_clauses = length results;
  compliant = count_status compliant results;
  non_compliant = count_status non_compliant results;
  needs_review = count_status needs_review results;
  clauses = map build_clause_report results;
}
