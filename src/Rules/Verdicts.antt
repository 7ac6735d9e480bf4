-- ===== src/Rules/Verdicts.antt =====
-- The verdicts of `evaluate_deterministic`: agent/deterministic_rules.py.
use cfr_compliance_mcp.Prelude.{
  ℕ, ◌≤◌, String, ◌≡◌, refl, ◌≢◌, inl, inr, Option, none, List, [], ◌∷◌, arith, Bool-cases,
  if◌then◌else◌,
}
use cfr_compliance_mcp.Models.{Clause, EvidencePassage, Status, compliant, needs_review}
use cfr_compliance_mcp.Rules.Outcomes.{RuleResult, inconclusive, rule_evidence}
use cfr_compliance_mcp.Rules.Requirement.{section_markers, rule_3_specific_requirement}
use cfr_compliance_mcp.Rules.Checks.{
  rule_1_mandatory_obligation, rule_2_prohibited_violation, from_rule, decided,
  evaluate_deterministic,
}

-- A rule decides with one passage of the cited title and at least 70 hundredths of confidence, or
-- does not decide, with neither.
abbrev pub Grounded : ℕ → Status → ℕ → List EvidencePassage → Type 0
Grounded title needs_review confidence evidence = (confidence ≡ 0) × (evidence ≡ [])
Grounded title _ confidence [] = ⊥
Grounded title _ confidence (ev ∷ []) =
    (70 ≤ confidence)
    × (ev.title ≡ title)
    × (ev.source ≡ "")
    × (ev.retrieved_at ≡ "")
    × (ev.retrieval_method ≡ "")
    × (ev.version ≡ "")
    × (ev.date ≡ "")
Grounded title _ confidence (ev ∷ ev' ∷ rest) = ⊥

-- The result of the first rule of a list that decides.
abbrev pub first_decided : List RuleResult → RuleResult → RuleResult
first_decided [] otherwise = otherwise
first_decided (r ∷ rs) otherwise = if decided r then r else first_decided rs otherwise

module _ (clause : Clause) (cfr_text : String) (title : ℕ) where
  abbrev Fine : RuleResult → Type 0
  Fine r = Grounded title r.verdict r.confidence (from_rule clause r).evidence

  Fine-rule_1 : Fine (rule_1_mandatory_obligation clause cfr_text title)
  unfolding rule_1_mandatory_obligation from_rule inconclusive rule_evidence
  Fine-rule_1 = ground arith

  Fine-rule_2 : Fine (rule_2_prohibited_violation clause cfr_text title)
  unfolding rule_2_prohibited_violation from_rule inconclusive rule_evidence
  Fine-rule_2 = ground arith

  abbrev Capped : RuleResult → Type 0
  Capped r = r.confidence ≤ 100

  rule_1-Capped : Capped (rule_1_mandatory_obligation clause cfr_text title)
  unfolding rule_1_mandatory_obligation inconclusive
  rule_1-Capped = ground arith

  rule_2-Capped : Capped (rule_2_prohibited_violation clause cfr_text title)
  unfolding rule_2_prohibited_violation inconclusive
  rule_2-Capped = ground arith

  module _ (part section : Option String) where
    rule_3-Capped : Capped (rule_3_specific_requirement clause cfr_text title part section)
    unfolding rule_3_specific_requirement inconclusive
    rule_3-Capped = ground arith

    -- No verdict of the rules has more than full confidence.
    pub evaluate_deterministic-capped :
        (evaluate_deterministic clause cfr_text title part section).confidence ≤ 100
    unfolding evaluate_deterministic decided from_rule inconclusive
    evaluate_deterministic-capped = ground (arith, rule_1-Capped, rule_2-Capped, rule_3-Capped)

    Fine-rule_3 : Fine (rule_3_specific_requirement clause cfr_text title part section)
    unfolding rule_3_specific_requirement from_rule inconclusive rule_evidence
    Fine-rule_3 = ground arith

    pub evaluate_deterministic-Grounded :
        let r = evaluate_deterministic clause cfr_text title part section in
        Grounded title r.status r.confidence r.evidence
    unfolding evaluate_deterministic
    evaluate_deterministic-Grounded =
        elim (Bool-cases
          (decided (rule_3_specific_requirement clause cfr_text title part section))) [
            | inl three ↦ rw three Fine-rule_3
            | inr not_three ↦
                elim (Bool-cases (decided (rule_1_mandatory_obligation clause cfr_text title))) [
                  | inl one ↦ rw (not_three, one) Fine-rule_1
                  | inr not_one ↦
                      elim (Bool-cases
                        (decided (rule_2_prohibited_violation clause cfr_text title))) [
                          | inl two ↦ rw (not_three, not_one, two) Fine-rule_2
                          | inr not_two ↦ rw (not_three, not_one, not_two) (refl, refl)
                        ]
                ]
          ]

  -- Without part and section, as the verification agent calls the rules, the verdict is never
  -- Compliant.
  pub unscoped-ne-compliant :
      (evaluate_deterministic clause cfr_text title none none).status ≢ compliant
  unfolding evaluate_deterministic rule_3_specific_requirement rule_1_mandatory_obligation
      rule_2_prohibited_violation section_markers
  unscoped-ne-compliant = ground arith
