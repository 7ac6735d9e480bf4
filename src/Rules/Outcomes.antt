-- ===== src/Rules/Outcomes.antt =====
-- What the rules of agent/deterministic_rules.py return. A confidence is in hundredths. A list in a
-- reason is written as Python's `repr` writes a list of texts that have no quote and no backslash.
use Prim.Native.String.{count, ◌++◌}
use cfr_compliance_mcp.Prelude.{
  ℕ, String, Option, none, List, ltb, take_chars, join, map, if◌then◌else◌,
}
use cfr_compliance_mcp.Models.{EvidencePassage, Status, needs_review}
use cfr_compliance_mcp.Rules.Keywords.{build_citation}

-- The dictionary that a rule returns.
pub record RuleResult : Type 0 where
  pub verdict : Status
  pub reason : String
  pub confidence : ℕ
  pub evidence : Option EvidencePassage

unfoldable pub inconclusive : String → RuleResult
inconclusive reason = record {
  verdict = needs_review;
  reason = reason;
  confidence = 0;
  evidence = none;
}

-- `cfr_text[:200] + ("..." if len(cfr_text) > 200 else "")`.
unfoldable pub text_span : String → String
unfolding take_chars
text_span cfr_text = take_chars 200 cfr_text ++ (if ltb 200 (count cfr_text) then "..." else "")

-- The passage that a rule cites. It carries no date and no provenance.
unfoldable pub rule_evidence : String → ℕ → Option String → Option String → EvidencePassage
unfolding text_span
rule_evidence cfr_text title part section = record {
  title = title;
  part = part;
  section = section;
  date = "";
  text_span = text_span cfr_text;
  citation = build_citation title part section;
  source = "";
  retrieved_at = "";
  retrieval_method = "";
  version = "";
  confidence = none;
}

abbrev pub quoted : String → String
quoted w = "'" ++ w ++ "'"

unfoldable pub list_repr : List String → String
list_repr words = "[" ++ join ", " (map quoted words) ++ "]"
