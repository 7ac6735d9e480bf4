-- ===== src/Models.antt =====
-- The shared data models: agent/models.py. A confidence is a number of hundredths; the code only
-- stores it, clamps it and copies it.
use cfr_compliance_mcp.Prelude.{ℕ, String, Bool, true, false, Option, List}
use Prim.Native.String.{slice, ◌++◌}

-- The values of `ComplianceResult.status`.
pub data Status : Type 0 where
  compliant non_compliant needs_review : Status

-- The values of `ComplianceResult.verification_status`.
pub data VerificationStatus : Type 0 where
  verified to_review not_verified : VerificationStatus

abbrev pub status_text : Status → String
status_text compliant = "Compliant"
status_text non_compliant = "Non-Compliant"
status_text needs_review = "Needs Review"

abbrev pub verification_text : VerificationStatus → String
verification_text verified = "verified"
verification_text to_review = "needs_review"
verification_text not_verified = "not_verified"

-- `status == other`, for two statuses.
abbrev pub status_eq : Status → Status → Bool
status_eq compliant compliant = true
status_eq non_compliant non_compliant = true
status_eq needs_review needs_review = true
status_eq _ _ = false

pub record Clause : Type 0 where
  pub title : String
  pub text : String
  pub clause_id : String

-- `Clause(title, text)`: the id is the first eight digits of the hash of both, whatever the
-- hash function `sha256_hex` is.
unfoldable pub make_clause : (String → String) → String → String → Clause
make_clause sha256_hex title text = record {
  title = title;
  text = text;
  clause_id = slice (sha256_hex (title ++ "|" ++ text)) 0 8;
}

pub record EvidencePassage : Type 0 where
  pub title : ℕ
  pub part : Option String
  pub section : Option String
  pub date : String
  pub text_span : String
  pub citation : String
  pub source : String
  pub retrieved_at : String
  pub retrieval_method : String
  pub version : String
  pub confidence : Option ℕ

pub record ReviewAudit : Type 0 where
  pub final_status : String
  pub proposed_status : String
  pub proposed_confidence : ℕ
  pub review_reason : String
  pub verifier_recommendation : String
  pub verifier_notes : String
  pub deterministic_status : String
  pub evidence_citations : List String
  pub reviewed_at : String

pub record ComplianceResult : Type 0 where
  pub clause_title : String
  pub clause_id : String
  pub status : Status
  pub confidence : ℕ
  pub reason : String
  pub evidence : List EvidencePassage
  pub verification_status : VerificationStatus
  pub review_reason : String
  pub review_audit : Option ReviewAudit
  pub memory_participated : Bool
