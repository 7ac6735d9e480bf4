-- ===== src/Rules/Tests.antt =====
-- The rules on a short clause: tests of agent/deterministic_rules.py.
use cfr_compliance_mcp.Prelude.{String, ◌≡◌, ◌≢◌, none, mem_text}
use cfr_compliance_mcp.Models.{Clause, compliant}
use cfr_compliance_mcp.Rules.Keywords.{extract_keywords, has_mandatory_language}
use cfr_compliance_mcp.Rules.Checks.{evaluate_deterministic}
use cfr_compliance_mcp.Rules.Language.{has_mandatory_language-must}
use cfr_compliance_mcp.Rules.Verdicts.{unscoped-ne-compliant}

abbrev landfill : Clause
landfill = record { title = "Waste"; text = "Landfills follow 257.3 strictly."; clause_id = "c1" }

abbrev rule_text : String
rule_text = "Part 257.3: facilities must not contaminate. Open dumping is prohibited."

has_mandatory_language-must_example :
    has_mandatory_language rule_text ≡ mem_text "must" (extract_keywords rule_text)
has_mandatory_language-must_example = has_mandatory_language-must rule_text

unscoped-ne-compliant_example :
    (evaluate_deterministic landfill rule_text 40 none none).status ≢ compliant
unscoped-ne-compliant_example = unscoped-ne-compliant landfill rule_text 40
