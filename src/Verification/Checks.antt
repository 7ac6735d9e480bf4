-- ===== src/Verification/Checks.antt =====
-- The four checks of agent/verification_agent.py and `verify_compliance`.
use Prim.Native.String.{◌++◌}
use cfr_compliance_mcp.Prelude.{
  ℕ, String, Bool, true, false, not, ◌&&◌, ◌||◌, Option, none, some, List, [], ◌∷◌, all, any,
  contains_text, lower, truthy, text_le, join, if◌then◌else◌, ◌==◌,
}
use mathlib.Core.List as Lists
use cfr_compliance_mcp.Models.{
  Clause, EvidencePassage, ComplianceResult, compliant, non_compliant, needs_review, status_eq,
}
use cfr_compliance_mcp.Rules.Checks.{evaluate_deterministic}

-- An entry of a version history: its issue date, where the entry is an object and the date a text.
pub record VersionEntry : Type 0 where
  pub issue_date : Option String

-- The payload of `get_version_history`; an absent list is an empty one.
pub record VersionPayload : Type 0 where
  pub content_versions : List VersionEntry
  pub versions : List VersionEntry

-- `_check_deterministic_consistency`: the rules are run without part and section.
unfoldable pub check_deterministic_consistency : ComplianceResult → Clause → String → ℕ → Bool
check_deterministic_consistency result clause cfr_text title =
    let det = (evaluate_deterministic clause cfr_text title none none).status in
    not (
      (status_eq result.status compliant && status_eq det non_compliant)
      || (status_eq result.status non_compliant && status_eq det compliant))

-- `_check_evidence_coverage`.
unfoldable pub check_evidence_coverage : ComplianceResult → Bool
check_evidence_coverage result = elim result.evidence [
  | [] ↦ status_eq result.status needs_review
  | ◌∷◌ ev rest ↦ true
]

usable_date : VersionEntry → Option String
usable_date v = elim v.issue_date [
  | none ↦ none
  | some date ↦ if truthy date then some date else none
]

unfoldable pub issue_dates : List VersionEntry → List String
unfolding usable_date
issue_dates [] = []
issue_dates (v ∷ vs) = elim (usable_date v) [
  | none ↦ issue_dates vs
  | some date ↦ date ∷ issue_dates vs
]

-- `max` of the texts `first ∷ rest`.
unfoldable pub greatest : String → List String → String
greatest first [] = first
greatest first (x ∷ xs) = greatest (if text_le x first then first else x) xs

unfoldable pub entries : VersionPayload → List VersionEntry
entries payload = elim payload.content_versions [ [] ↦ payload.versions | ◌∷◌ v vs ↦ v ∷ vs ]

-- A passage that claims a version claims the effective one, and no other date.
unfoldable pub claim_agrees : String → EvidencePassage → Bool
claim_agrees effective ev =
    if truthy ev.version
    then ev.version == effective && (not (truthy ev.date) || ev.date == ev.version)
    else true

unfoldable pub agree_with : List EvidencePassage → List String → Bool
agree_with evidence [] = true
agree_with evidence (d ∷ ds) = all (claim_agrees (greatest d ds)) evidence

-- `_check_version_consistency`; what cannot be checked passes.
unfoldable pub check_version_consistency : ComplianceResult → Option VersionPayload → Bool
unfolding entries agree_with
check_version_consistency result none = true
check_version_consistency result (some payload) =
    agree_with result.evidence (issue_dates (entries payload))

abbrev pub injection_indicators : List String
injection_indicators =
    "ignore previous instructions" ∷ "disregard all above" ∷ "forget prior context" ∷ "you are now"
    ∷ "system:" ∷ "prompt:" ∷ "always answer" ∷ "you must" ∷ "[injection]" ∷ "<</STOP>>" ∷ []

-- `_check_prompt_injection`.
unfoldable pub suspicious : Clause → Bool
suspicious clause = any (λ ind. contains_text (lower clause.text) ind) injection_indicators

pub data Recommendation : Type 0 where
  accept review reject : Recommendation

abbrev pub recommendation_text : Recommendation → String
recommendation_text accept = "accept"
recommendation_text review = "review"
recommendation_text reject = "reject"

pub record VerificationReport : Type 0 where
  pub original_result : ComplianceResult
  pub verified : Bool
  pub recommendation : Recommendation
  pub notes : String

conflict : Bool → String → List String
conflict true name = []
conflict false name = name ∷ []

-- The names of the checks that failed, of deterministic consistency, evidence coverage and version
-- consistency. The injection check has no `consistent` field, so it never stands here.
unfoldable pub conflict_checks : Bool → Bool → Bool → List String
unfolding conflict
conflict_checks det coverage version =
    Lists.◌++◌ (conflict det "deterministic_consistency")
      (Lists.◌++◌ (conflict coverage "evidence_coverage") (conflict version "version_consistency"))

unfoldable pub verify_compliance :
    ComplianceResult → Clause → String → ℕ → Option VersionPayload → VerificationReport
verify_compliance result clause cfr_text title version_payload =
    let det = check_deterministic_consistency result clause cfr_text title in
    let coverage = check_evidence_coverage result in
    let version = check_version_consistency result version_payload in
    if suspicious clause
    then record {
      original_result = result;
      verified = false;
      recommendation = reject;
      notes = "Prompt injection detected - LLM result rejected outright";
    }
    else if not (det && coverage && version)
    then record {
      original_result = result;
      verified = false;
      recommendation = review;
      notes =
          "Verification conflicts detected in: "
          ++ join ", " (conflict_checks det coverage version)
          ++ ". Human review required.";
    }
    else if not coverage
    then record {
      original_result = result;
      verified = false;
      recommendation = review;
      notes = "Insufficient evidence coverage - human review required to assess compliance basis.";
    }
    else record {
      original_result = result;
      verified = true;
      recommendation = accept;
      notes = "All verification checks passed - LLM result accepted.";
    }
