-- ===== src/Agent.antt =====
-- What agent/compliance_agent.py makes of an answer of the model: `ComplianceAgent.evaluate` after
-- the HTTP call, and `_coerce_evidence`. The language model is a parameter of the pipeline: it gets
-- the arguments of `evaluate_compliance`, and answers with a JSON object or fails.
use cfr_compliance_mcp.Prelude.{
  ℕ, String, Bool, false, not, ◌&&◌, Option, none, some, List, [], ◌∷◌, leb, lower, truthy,
  if◌then◌else◌, ◌≡◌, refl,
}
use cfr_compliance_mcp.Prelude.Int.{ℤ, pos, negsuc}
use cfr_compliance_mcp.Prelude.Dict.{Dict, lookup, string_eq}
use cfr_compliance_mcp.Regex.{is_space}
use cfr_compliance_mcp.Models.{
  EvidencePassage, ReviewAudit, ComplianceResult, Status, compliant, non_compliant, needs_review,
  VerificationStatus, not_verified, make_clause,
}
use cfr_compliance_mcp.Memory.Records.{MemoryLookup}

-- The keyword arguments of `evaluate_compliance`. The historical context is the lookup that
-- `format_historical_context` renders.
pub record LlmRequest : Type 0 where
  pub clause_title : String
  pub clause_text : String
  pub cfr_citation : String
  pub cfr_text : String
  pub historical_context : Option MemoryLookup

-- An evidence object of the answer, its fields read as `_coerce_evidence` reads them: the title is
-- what `int` makes of it, and `none` where that raises; a part or section that is neither text nor
-- number is `none`. The last fields are claims of provenance.
pub record LlmEvidence : Type 0 where
  pub title : Option ℕ
  pub part : Option String
  pub section : Option String
  pub text_span : String
  pub citation : String
  pub date : String
  pub source : String
  pub version : String

-- An answer. A field that is missing or of another type is `none`; a confidence is a number, in
-- hundredths (one that is written as a text is left out); an evidence entry that is no object is
-- `none`. The last fields are none that the prompt asks for.
pub record LlmAnswer : Type 0 where
  pub status : Option String
  pub confidence : Option ℤ
  pub reason : Option String
  pub evidence : List (Option LlmEvidence)
  pub verification_status : Option VerificationStatus
  pub review_reason : Option String
  pub review_audit : Option ReviewAudit
  pub memory_participated : Option Bool

unfoldable pub strip_left : String → String
strip_left String.[] = String.[]
strip_left (String.◌∷◌ c s) = if is_space c then strip_left s else String.◌∷◌ c s

unfoldable pub strip_right : String → String
strip_right String.[] = String.[]
strip_right (String.◌∷◌ c s) =
    let rest = strip_right s in
    if is_space c && not (truthy rest) then String.[] else String.◌∷◌ c rest

-- `s.strip()`.
unfoldable pub strip : String → String
unfolding strip_left strip_right
strip s = strip_right (strip_left s)

abbrev status_names : Dict String Status
status_names =
    ("compliant", compliant)
    ∷ ("non-compliant", non_compliant)
    ∷ ("noncompliant", non_compliant)
    ∷ ("needs review", needs_review)
    ∷ ("needs-review", needs_review)
    ∷ ("needs_review", needs_review)
    ∷ []

-- A status that is no known spelling is Needs Review.
unfoldable pub normalize_status : Option String → Status
unfolding strip lookup lower
normalize_status none = needs_review
normalize_status (some s) = elim (lookup (lower (strip s)) status_names) [
  | none ↦ needs_review
  | some status ↦ status
]

-- `max(0.0, min(1.0, confidence))`.
unfoldable pub clamp_confidence : ℤ → ℕ
clamp_confidence (negsuc n) = 0
clamp_confidence (pos n) = if leb n 100 then n else 100

unfoldable pub normalize_reason : Option String → String
unfolding strip
normalize_reason none = "The LLM response omitted a reason; routed to human review."
normalize_reason (some reason) =
    if truthy (strip reason)
    then strip reason
    else "The LLM response omitted a reason; routed to human review."

-- `_coerce_evidence`: no provenance that the model claims is kept.
unfoldable pub coerce_evidence : LlmEvidence → EvidencePassage
coerce_evidence ev = record {
  title = elim ev.title [ none ↦ 0 | some t ↦ t ];
  part = ev.part;
  section = ev.section;
  date = "";
  text_span = ev.text_span;
  citation = ev.citation;
  source = "";
  retrieved_at = "";
  retrieval_method = "";
  version = "";
  confidence = none;
}

unfoldable pub coerce_all : List (Option LlmEvidence) → List EvidencePassage
unfolding coerce_evidence
coerce_all [] = []
coerce_all (none ∷ rest) = coerce_all rest
coerce_all (some ev ∷ rest) = coerce_evidence ev ∷ coerce_all rest

unfoldable pub validate_confidence : Option ℤ → Option ℕ
validate_confidence none = none
validate_confidence (some c) = some (clamp_confidence c)

unfoldable or_default {ℓ} : {A : Type ℓ} → A → Option A → A
or_default d none = d
or_default d (some a) = a

unfoldable pub build_result :
    String → String → LlmRequest → LlmAnswer → Option ℕ → Option ComplianceResult
unfolding or_default
build_result title clause_id q a none = none
build_result title clause_id q a (some confidence) = some (record {
  clause_title = title;
  clause_id = clause_id;
  status = normalize_status a.status;
  confidence = confidence;
  reason = normalize_reason a.reason;
  evidence = coerce_all a.evidence;
  verification_status = or_default not_verified a.verification_status;
  review_reason = or_default "" a.review_reason;
  review_audit = a.review_audit;
  memory_participated = or_default false a.memory_participated;
})

-- The result that is made of an answer; `none` is a RuntimeError. A missing confidence fails the
-- validation of the result, and fields that the prompt does not ask for pass it.
unfoldable pub result_of_answer :
    (String → String) → LlmRequest → Option LlmAnswer → Option ComplianceResult
unfolding validate_confidence build_result make_clause
result_of_answer sha256_hex q none = none
result_of_answer sha256_hex q (some a) =
    build_result q.clause_title (make_clause sha256_hex q.clause_title q.clause_text).clause_id q a
      (validate_confidence a.confidence)

strips : strip "  a b " ≡ "a b"
unfolding strip
strips = refl
