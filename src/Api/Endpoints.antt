-- ===== src/Api/Endpoints.antt =====
-- The evaluation endpoints of api.py: `_response_from_result`, `evaluate_single_clause`,
-- `evaluate_bulk_clauses` and the persistence of a bulk report. A status is one of the three values
-- that the domain model admits, and `ReviewAuditOut` has the fields of `ReviewAudit`.
use Prim.Native.String.{◌++◌}
use cfr_compliance_mcp.Prelude.{
  ℕ, String, Bool, true, false, ◌||◌, Option, none, some, List, [], ◌∷◌, map, keep, length, truthy,
  text_or, if◌then◌else◌, ◌==◌,
}
use cfr_compliance_mcp.Models.{
  Clause, EvidencePassage, ReviewAudit, ComplianceResult, Status, compliant, non_compliant,
  needs_review, VerificationStatus, to_review, not_verified, status_eq,
}
use cfr_compliance_mcp.Agent.{LlmRequest, LlmAnswer}
use cfr_compliance_mcp.Rules.Keywords.{decimal}
use cfr_compliance_mcp.Reporting.{ReportRecord, build_report}
use cfr_compliance_mcp.Pipeline.Results.{or_blank}
use cfr_compliance_mcp.Pipeline.Evaluation.{Memory}
use cfr_compliance_mcp.Api.Input.{
  ClauseInput, clause_from_input, resolve_title, Scan, rejected, admitted, security_scan,
}
use cfr_compliance_mcp.Api.Evaluation.{Regulation, title_or_zero, api_needs_review, evaluate_clause}

pub record EvidencePassageOut : Type 0 where
  pub title : ℕ
  pub citation : String
  pub text_span : String
  pub part : Option String
  pub section : Option String
  pub date : String

pub record ComplianceResponse : Type 0 where
  pub clause_title : String
  pub clause_id : String
  pub status : Status
  pub confidence : ℕ
  pub reason : String
  pub evidence : List EvidencePassageOut
  pub verified : Bool
  pub verification_notes : String
  pub verification_status : VerificationStatus
  pub memory_participated : Bool
  pub review_audit : Option ReviewAudit

-- `_evidence_to_out`, for a passage.
unfoldable pub evidence_to_out : EvidencePassage → EvidencePassageOut
evidence_to_out ev = record {
  title = ev.title;
  citation = ev.citation;
  text_span = ev.text_span;
  part = ev.part;
  section = ev.section;
  date = ev.date;
}

notes_of : Option ReviewAudit → String
notes_of none = ""
notes_of (some audit) = audit.verifier_notes

-- `_response_from_result`.
unfoldable pub response_from_result : ComplianceResult → Bool → String → ComplianceResponse
unfolding notes_of evidence_to_out
response_from_result r is_verified notes = record {
  clause_title = r.clause_title;
  clause_id = r.clause_id;
  status = r.status;
  confidence = r.confidence;
  reason = r.reason;
  evidence = map evidence_to_out r.evidence;
  verified = is_verified;
  verification_notes = text_or notes (notes_of r.review_audit);
  verification_status = r.verification_status;
  memory_participated = r.memory_participated;
  review_audit = r.review_audit;
}

-- `verification_status == "verified"`.
abbrev pub is_verified : VerificationStatus → Bool
is_verified VerificationStatus.verified = true
is_verified to_review = false
is_verified not_verified = false

-- What an endpoint gives: an `HTTPException`, or the body of the response.
pub data Reply {ℓ} (A : Type ℓ) : Type ℓ where
  http_error : ℕ → String → Reply A
  body : A → Reply A

pub record BulkComplianceResponse : Type 0 where
  pub total_clauses : ℕ
  pub compliant : ℕ
  pub non_compliant : ℕ
  pub needs_review : ℕ
  pub results : List ComplianceResponse

-- `sum(1 for r in results if r.status == s)`.
unfoldable pub count_responses : Status → List ComplianceResponse → ℕ
count_responses s results = length (keep (λ r. status_eq r.status s) results)

-- The persistence backend as the API uses it; `none` is an exception.
pub record Persistence (R : Type 0) : Type 0 where
  pub backend : String
  pub reports_dir : Option String
  pub save_report : ReportRecord → R → Option R

-- `_persistence_enabled`.
unfoldable pub persistence_enabled : {R : Type 0} → Persistence R → Bool
persistence_enabled p = p.backend == "postgres" || truthy (or_blank p.reports_dir)

kept_or {ℓ} : {A : Type ℓ} → A → Option A → A
kept_or a none = a
kept_or a (some b) = b

-- `_persist_bulk_report`, its exceptions caught as the endpoint does.
unfoldable pub persist_bulk_report :
    {R : Type 0} → Persistence R → String → String → List ComplianceResult → R → R
unfolding kept_or
persist_bulk_report p new_id now results repo =
    if persistence_enabled p
    then kept_or repo (p.save_report (build_report new_id none now results) repo)
    else repo

abbrev pub internal_error_reason : String
internal_error_reason = "Evaluation failed due to an internal error; manual review required."

module _ (sha256_hex : String → String) (now : String)
    (llm : Option (LlmRequest → Option LlmAnswer)) where
  abbrev pub regulation_of : ClauseInput → Regulation
  regulation_of i = record {
    cfr_text = or_blank i.cfr_text;
    cfr_citation =
        text_or (or_blank i.cfr_citation) (decimal (title_or_zero (resolve_title i)) ++ " CFR");
    cfr_title = resolve_title i;
  }

  unfoldable pub or_failed : Clause → String → Option ComplianceResult → ComplianceResult
  or_failed clause det (some r) = r
  or_failed clause det none = api_needs_review now clause internal_error_reason none none det

  -- The evaluation in its `try` statement.
  unfoldable pub attempt : Clause → String → ClauseInput → Memory → ComplianceResult × Memory
  attempt clause det i memory =
      let out = evaluate_clause sha256_hex now llm clause (regulation_of i) memory in
      (or_failed clause det out.0, out.1)

  abbrev pub scan_of : ClauseInput → Scan
  scan_of i = security_scan (clause_from_input sha256_hex i) (resolve_title i) i.cfr_text

  unfoldable pub evaluate_single_clause : ClauseInput → Memory → Reply ComplianceResponse × Memory
  evaluate_single_clause i memory = elim (scan_of i) [
    | rejected details ↦ (http_error 400 ("Clause rejected by security scan: " ++ details), memory)
    | admitted clause ↦
        let out = attempt clause "" i memory in
        (body (response_from_result out.0 (is_verified out.0.verification_status) ""), out.1)
  ]

  -- One round of the loop.
  unfoldable pub evaluate_one :
      ClauseInput → Memory → (ComplianceResult × ComplianceResponse) × Memory
  evaluate_one i memory = elim (scan_of i) [
    | rejected details ↦
        let r =
          api_needs_review now (clause_from_input sha256_hex i)
            ("Clause rejected by security scan: " ++ details) none none "" in
        ((r, response_from_result r false "Security scan failed"), memory)
    | admitted clause ↦
        let out = attempt clause "evaluation_error" i memory in
        ((out.0, response_from_result out.0 (is_verified out.0.verification_status) ""), out.1)
  ]

  unfoldable pub evaluate_each :
      List ClauseInput → Memory → List (ComplianceResult × ComplianceResponse) × Memory
  evaluate_each [] memory = ([], memory)
  evaluate_each (i ∷ rest) memory =
      let here = evaluate_one i memory in
      let later = evaluate_each rest here.1 in (here.0 ∷ later.0, later.1)

  unfoldable pub summarize_bulk : List ComplianceResponse → BulkComplianceResponse
  unfolding count_responses
  summarize_bulk results = record {
    total_clauses = length results;
    compliant = count_responses compliant results;
    non_compliant = count_responses non_compliant results;
    needs_review = count_responses needs_review results;
    results = results;
  }

  -- The state is the memory and the reports.
  unfoldable pub evaluate_bulk_clauses :
      {R : Type 0}
      → Persistence R
      → String
      → List ClauseInput
      → Memory × R
      → Reply BulkComplianceResponse × (Memory × R)
  evaluate_bulk_clauses p new_id [] state =
      (http_error 400 "At least one clause must be provided", state)
  evaluate_bulk_clauses p new_id (i ∷ rest) (memory, repo) =
      let out = evaluate_each (i ∷ rest) memory in
      (
        body (summarize_bulk (map (λ x. x.1) out.0)),
        (out.1, persist_bulk_report p new_id now (map (λ x. x.0) out.0) repo),
      )
