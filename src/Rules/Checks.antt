-- ===== src/Rules/Checks.antt =====
-- Rules 1 and 2 and `evaluate_deterministic` of agent/deterministic_rules.py.
use Prim.Native.String.{◌++◌}
use cfr_compliance_mcp.Prelude.{
  ℕ, String, Bool, false, not, Option, none, some, List, [], ◌∷◌, lower, join, sort_by, text_le,
  distinct, if◌then◌else◌,
}
use cfr_compliance_mcp.Models.{
  Clause, EvidencePassage, ComplianceResult, non_compliant, needs_review, not_verified, status_eq,
}
use cfr_compliance_mcp.Regex.{
  Pattern, re_search, text, exact, one, many, boundary, whole, maybe, all_of, is_space,
}
use cfr_compliance_mcp.Rules.Keywords.{
  extract_keywords, has_mandatory_language, has_prohibited_language, topic_overlap,
}
use cfr_compliance_mcp.Rules.Outcomes.{RuleResult, inconclusive, rule_evidence, list_repr}
use cfr_compliance_mcp.Rules.Requirement.{rule_3_specific_requirement}

unfoldable pub rule_1_mandatory_obligation : Clause → String → ℕ → RuleResult
unfolding list_repr sort_by distinct join
rule_1_mandatory_obligation clause cfr_text title =
    let overlap = topic_overlap (extract_keywords clause.text) (extract_keywords cfr_text) in
    if not (has_mandatory_language cfr_text)
    then inconclusive "CFR text contains no mandatory language (shall/must/will be)"
    else elim overlap [
      | [] ↦ record {
        verdict = non_compliant;
        reason = "Clause mentions none of the CFR's required topics; CFR has mandatory language";
        confidence = 80;
        evidence = some (rule_evidence cfr_text title none none);
      }
      | ◌∷◌ w rest ↦ inconclusive (
          "Clause has topic overlap "
          ++ list_repr (sort_by text_le (distinct (w ∷ rest)))
          ++ " but rule cannot assess compliance completeness")
    ]

abbrev agree_to : Pattern
agree_to = all_of (
    boundary
    ∷ text "agree"
    ∷ maybe (text "s")
    ∷ one is_space
    ∷ many is_space
    ∷ text "to"
    ∷ boundary
    ∷ [])

abbrev verb_patterns : List Pattern
verb_patterns = whole "shall" ∷ whole "must" ∷ whole "will" ∷ agree_to ∷ []

first_match : List Pattern → String → Option String
first_match [] s = none
first_match (p ∷ ps) s =
    let later = first_match ps s in elim (re_search p s) [ none ↦ later | some found ↦ some found ]

-- The verb of the first pattern that is found, in lower case.
unfoldable pub clause_action_verb : String → Option String
unfolding first_match re_search text exact maybe all_of lower
clause_action_verb s = elim (first_match verb_patterns s) [ none ↦ none | some v ↦ some (lower v) ]

unfoldable pub rule_2_prohibited_violation : Clause → String → ℕ → RuleResult
rule_2_prohibited_violation clause cfr_text title =
    if not (has_prohibited_language cfr_text)
    then inconclusive "CFR text contains no prohibited/forbidden language"
    else elim (clause_action_verb clause.text) [
      | some verb ↦ record {
        verdict = non_compliant;
        reason =
            "CFR prohibits certain practices; clause uses mandatory language (" ++ verb
            ++ ") that may conflict with prohibition";
        confidence = 70;
        evidence = some (rule_evidence cfr_text title none none);
      }
      | none ↦
          inconclusive
            "Prohibited violation check inconclusive - no clear clash between clause actions and CFR prohibitions"
    ]

evidence_list : Option EvidencePassage → List EvidencePassage
evidence_list none = []
evidence_list (some ev) = ev ∷ []

unfoldable pub from_rule : Clause → RuleResult → ComplianceResult
unfolding evidence_list
from_rule clause r = record {
  clause_title = clause.title;
  clause_id = clause.clause_id;
  status = r.verdict;
  confidence = r.confidence;
  reason = r.reason;
  evidence = evidence_list r.evidence;
  verification_status = not_verified;
  review_reason = "";
  review_audit = none;
  memory_participated = false;
}

unfoldable pub decided : RuleResult → Bool
decided r = not (status_eq r.verdict needs_review)

-- The rules in the order 3, 1, 2: the first that decides wins.
unfoldable pub evaluate_deterministic :
    Clause → String → ℕ → Option String → Option String → ComplianceResult
unfolding from_rule decided inconclusive
evaluate_deterministic clause cfr_text title part section =
    let r3 = rule_3_specific_requirement clause cfr_text title part section in
    let r1 = rule_1_mandatory_obligation clause cfr_text title in
    let r2 = rule_2_prohibited_violation clause cfr_text title in
    if decided r3
    then from_rule clause r3
    else if decided r1
    then from_rule clause r1
    else if decided r2
    then from_rule clause r2
    else from_rule clause
        (inconclusive "No deterministic rule could reach a conclusion; LLM evaluation required")
