-- ===== src/Rules/Requirement.antt =====
-- `rule_3_specific_requirement` of agent/deterministic_rules.py.
use Prim.Native.String.{◌++◌}
use cfr_compliance_mcp.Prelude.{
  ℕ, String, Bool, true, false, ◌&&◌, Option, none, some, List, [], ◌∷◌, any, keep, mem_text,
  contains_text, lower, truthy, is_some, join, if◌then◌else◌, ◌==◌,
}
use mathlib.Core.List as L
use cfr_compliance_mcp.Models.{Clause, compliant, non_compliant}
use cfr_compliance_mcp.Regex.{re_search, exact, seq, many, boundary, is_space}
use cfr_compliance_mcp.Rules.Keywords.{extract_keywords, build_citation}
use cfr_compliance_mcp.Rules.Outcomes.{RuleResult, inconclusive, rule_evidence, list_repr}

last_segment_from : String → String → String
last_segment_from last String.[] = last
last_segment_from last (String.◌∷◌ c s) =
    last_segment_from (if String.◌∷◌ c "" == "." then s else last) s

-- `section.split(".")[-1]`.
unfoldable pub last_segment : String → String
unfolding last_segment_from
last_segment s = last_segment_from s s

markers_of_section : Option String → List String
markers_of_section none = []
markers_of_section (some section) =
    if truthy section
    then (if contains_text section "."
        then lower section ∷ last_segment section ∷ []
        else lower section ∷ [])
    else []

markers_of_part : Option String → List String
markers_of_part none = []
markers_of_part (some part) = if truthy part then lower part ∷ [] else []

unfoldable pub section_markers : Option String → Option String → List String
unfolding markers_of_section markers_of_part
section_markers part section = L.◌++◌ (markers_of_section section) (markers_of_part part)

-- The markers that stand in the regulation: as a text in it, or else as one of its keywords.
unfoldable pub matched_markers : List String → String → List String
matched_markers markers cfr_text =
    let direct = keep (λ m. contains_text (lower cfr_text) m) markers in
    elim direct [
      | [] ↦ keep (λ m. mem_text m (extract_keywords cfr_text)) markers
      | ◌∷◌ m ms ↦ m ∷ ms
    ]

-- `re.search` for the section on the lowered clause text, alone or behind the part. The part is
-- taken literally: the source does not escape it, and a CFR part has no special characters.
section_in_clause : Option String → String → String → Bool
section_in_clause none section s =
    is_some (re_search (seq boundary (seq (exact section) boundary)) s)
section_in_clause (some part) section s =
    if is_some (re_search (seq boundary (seq (exact section) boundary)) s)
    then true
    else truthy part
      && is_some (
          re_search
            (seq boundary (seq (exact part) (seq (many is_space) (seq (exact section) boundary))))
            s)

section_found : Option String → Option String → String → Bool
section_found part none s = false
section_found part (some section) s = truthy section && section_in_clause part section (lower s)

unfoldable pub clause_has_markers : Clause → List String → Option String → Option String → Bool
unfolding section_in_clause section_found
clause_has_markers clause markers part section =
    if any (λ m. mem_text m (extract_keywords clause.text)) markers
    then true
    else section_found part section clause.text

unfoldable pub rule_3_specific_requirement :
    Clause → String → ℕ → Option String → Option String → RuleResult
unfolding list_repr join
rule_3_specific_requirement clause cfr_text title part section =
    let markers = section_markers part section in
    elim (section_markers part section) [
      | [] ↦ inconclusive "Rule 3 requires part and/or section scope; none provided"
      | ◌∷◌ _ _ ↦ elim (matched_markers markers cfr_text) [
        | [] ↦ inconclusive (
            "Section/part markers "
            ++ list_repr markers
            ++ " not found in CFR text (neither direct nor keyword-based)")
        | ◌∷◌ m ms ↦
            if clause_has_markers clause (m ∷ ms) part section
            then record {
              verdict = compliant;
              reason =
                  "Clause references CFR-required terms for " ++ build_citation title part section;
              confidence = 90;
              evidence = some (rule_evidence cfr_text title part section);
            }
            else record {
              verdict = non_compliant;
              reason =
                  "Clause does not reference CFR-required terms for "
                  ++ build_citation title part section;
              confidence = 75;
              evidence = some (rule_evidence cfr_text title part section);
            }
      ]
    ]
