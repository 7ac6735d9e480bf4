-- ===== src/Verification/Verdict.antt =====
-- What acceptance by agent/verification_agent.py guarantees.
use cfr_compliance_mcp.Prelude.{
  ℕ, String, ◌≡◌, ◌≢◌, ◌⊎◌, false, Option, none, some, List, [], ◌∷◌, All,
}
use cfr_compliance_mcp.Models.{
  Clause, EvidencePassage, ComplianceResult, compliant, non_compliant, needs_review,
}
use cfr_compliance_mcp.Rules.Checks.{evaluate_deterministic}
use cfr_compliance_mcp.Verification.Checks.{
  VersionPayload, greatest, issue_dates, entries, suspicious,
}

-- A passage makes no version claim, or claims this version, and a date only if it is the same.
abbrev pub Claims : String → EvidencePassage → Type 0
Claims effective ev =
    (ev.version ≡ "") ⊎ ((ev.version ≡ effective) × ((ev.date ≡ "") ⊎ (ev.date ≡ ev.version)))

abbrev ClaimsAgree : List EvidencePassage → List String → Type 0
ClaimsAgree evidence [] = Unit
ClaimsAgree evidence (d ∷ ds) = All (Claims (greatest d ds)) evidence

-- With a payload that has issue dates, every passage agrees with the greatest of them.
abbrev pub VersionsAgree : ComplianceResult → Option VersionPayload → Type 0
VersionsAgree result none = Unit
VersionsAgree result (some payload) = ClaimsAgree result.evidence (issue_dates (entries payload))

-- The conditions under which a result may stand without review.
pub record Acceptable (result : ComplianceResult) (clause : Clause) (cfr_text : String) (title : ℕ)
    (payload : Option VersionPayload) : Type 0 where
  pub unsuspicious : suspicious clause ≡ false
  pub supported : (result.status ≡ needs_review) ⊎ (result.evidence ≢ [])
  pub unopposed :
      (result.status ≢ compliant)
      ⊎ ((evaluate_deterministic clause cfr_text title none none).status ≢ non_compliant)
  pub current : VersionsAgree result payload
