-- ===== src/Api/Outcome.antt =====
-- What `_evaluate_clause` of api.py promises of its result.
use cfr_compliance_mcp.Prelude.{
  ℕ, String, ◌≡◌, refl, sym, subst, ◌⊎◌, inl, inr, Bool, true, Option, none, some, List, [], ◌∷◌,
  All, truthy, Bool-cases, Option-cases,
}
use cfr_compliance_mcp.Models.{
  Clause, EvidencePassage, ComplianceResult, Status, compliant, non_compliant, needs_review,
  verified, status_eq,
}
use cfr_compliance_mcp.Rules.Checks.{evaluate_deterministic}
use cfr_compliance_mcp.Rules.Verdicts.{Grounded, evaluate_deterministic-Grounded}
use cfr_compliance_mcp.Verification.Checks.{
  VerificationReport, Recommendation, accept, review, reject, verify_compliance,
}
use cfr_compliance_mcp.Memory.Records.{MemoryLookup}
use cfr_compliance_mcp.Agent.{LlmRequest, LlmAnswer, strip, result_of_answer}
use cfr_compliance_mcp.Pipeline.Evaluation.{Memory, look_up, is_assisted, can_render}
use cfr_compliance_mcp.Pipeline.Outcome.{ReviewShape}
use cfr_compliance_mcp.Pipeline.Provenance.{Blank, result_of_answer-Blank}
use cfr_compliance_mcp.Security.Sanitize.{sanitize_cfr_text}
use cfr_compliance_mcp.Api.Evaluation.{
  Regulation, title_or_zero, api_enrich_passage, api_enrich_evidence, api_needs_review, api_query,
  api_llm_request, api_rules_result, api_accepted, api_verified, api_ask, api_rules,
  evaluate_clause,
}

-- The text was supplied by the caller: nothing is claimed of its version or its date.
abbrev pub CallerSupplied : String → EvidencePassage → Type 0
CallerSupplied now ev =
    (ev.source ≡ "eCFR")
    × (ev.retrieved_at ≡ now)
    × (ev.retrieval_method ≡ "caller_supplied")
    × (ev.version ≡ "")
    × (ev.date ≡ "")

-- For review; or verified, for a regulation text that is there and with its provenance.
abbrev pub ApiSound : String → String → ComplianceResult → Type 0
ApiSound now text r =
    ReviewShape r
    ⊎ ((r.verification_status ≡ verified)
        × (truthy (strip text) ≡ true)
        × All (CallerSupplied now) r.evidence)

-- An exception promises nothing.
abbrev pub SoundIfAny : String → String → Option ComplianceResult → Type 0
SoundIfAny now text none = Unit
SoundIfAny now text (some r) = ApiSound now text r

enrich-CallerSupplied :
    (now : String) (evidence : List EvidencePassage)
    → All Blank evidence
    → All (CallerSupplied now) (api_enrich_evidence now evidence)
unfolding api_enrich_evidence api_enrich_passage
enrich-CallerSupplied now [] h = tt
enrich-CallerSupplied now (ev ∷ rest) ((a, b, c, d, e), h) =
    (rw (a, b, c) (refl, refl, refl, d, e), enrich-CallerSupplied now rest h)

Grounded-Blank :
    (title : ℕ) (s : Status) (c : ℕ) (evidence : List EvidencePassage)
    → Grounded title s c evidence
    → All Blank evidence
Grounded-Blank title needs_review c evidence h = subst (All Blank) (sym h.1) tt
Grounded-Blank title compliant c [] h = absurd h
Grounded-Blank title compliant c (ev ∷ []) h = ((h.2, h.3, h.4, h.5, h.6), tt)
Grounded-Blank title compliant c (ev ∷ x ∷ xs) h = absurd h
Grounded-Blank title non_compliant c [] h = absurd h
Grounded-Blank title non_compliant c (ev ∷ []) h = ((h.2, h.3, h.4, h.5, h.6), tt)
Grounded-Blank title non_compliant c (ev ∷ x ∷ xs) h = absurd h

module _ (sha256_hex : String → String) (now : String)
    (llm : Option (LlmRequest → Option LlmAnswer)) (clause : Clause) (text : String)
    (supplied : truthy (strip text) ≡ true) where
  api_verified-ApiSound :
      (g : Regulation) (r : ComplianceResult) (v : VerificationReport) (k : Recommendation)
      (det : ComplianceResult) (assisted : Bool) (memory : Memory)
      → All Blank r.evidence
      → ApiSound now text (api_verified sha256_hex now llm clause g r v k det assisted memory).0
  unfolding api_verified api_accepted api_needs_review
  api_verified-ApiSound g r v accept det assisted memory blank =
      inr (refl, supplied, enrich-CallerSupplied now r.evidence blank)
  api_verified-ApiSound g r v review det assisted memory blank = inl (refl, refl, refl, refl)
  api_verified-ApiSound g r v reject det assisted memory blank = inl (refl, refl, refl, refl)

  api_ask-SoundIfAny :
      (g : Regulation) (det : ComplianceResult) (lookup : Option MemoryLookup) (memory : Memory)
      → SoundIfAny now text (api_ask sha256_hex now llm clause g det lookup memory).0
  unfolding api_ask api_needs_review
  api_ask-SoundIfAny g det lookup memory =
      let q = api_llm_request sha256_hex now llm clause g lookup in
      elim (Option-cases llm) [
        | inl absent ↦ rw (absent, SoundIfAny) (inl (refl, refl, refl, refl))
        | inr (ask, present) ↦ elim (Option-cases (result_of_answer sha256_hex q (ask q))) [
          | inl failed ↦ rw (present, failed, SoundIfAny) tt
          | inr (r, made) ↦
              let v = verify_compliance r clause g.cfr_text (title_or_zero g.cfr_title) none in
              rw (present, made, SoundIfAny)
                (api_verified-ApiSound g r v v.recommendation det (is_assisted lookup) memory
                  (result_of_answer-Blank sha256_hex q (ask q) r made))
        ]
      ]

  api_rules-SoundIfAny :
      (g : Regulation) (memory : Memory)
      → SoundIfAny now text (api_rules sha256_hex now llm clause g memory).0
  unfolding api_rules api_rules_result
  api_rules-SoundIfAny g memory =
      let title = title_or_zero g.cfr_title in
      let det = evaluate_deterministic clause g.cfr_text title none none in
      let grounded = evaluate_deterministic-Grounded clause g.cfr_text title none none in
      elim (Bool-cases (status_eq det.status needs_review)) [
        | inl undecided ↦
            rw (undecided, SoundIfAny)
              (api_ask-SoundIfAny g det (look_up (api_query sha256_hex now llm clause g) memory)
                memory)
        | inr decisive ↦
            rw (decisive, SoundIfAny)
              (inr (
                refl,
                supplied,
                enrich-CallerSupplied now det.evidence
                    (Grounded-Blank title det.status det.confidence det.evidence grounded),
              ))
      ]

module _ (sha256_hex : String → String) (now : String)
    (llm : Option (LlmRequest → Option LlmAnswer)) where
  -- A result of the API is for review; or it is verified, then a regulation text was supplied, and
  -- every passage says that it is the caller's, with no version and no date.
  pub evaluate_clause-SoundIfAny :
      (clause : Clause) (g : Regulation) (memory : Memory)
      → SoundIfAny now g.cfr_text (evaluate_clause sha256_hex now llm clause g memory).0
  unfolding evaluate_clause api_needs_review
  evaluate_clause-SoundIfAny clause g memory = elim (Bool-cases (truthy (strip g.cfr_text))) [
    | inr missing ↦ rw (missing, SoundIfAny) (inl (refl, refl, refl, refl))
    | inl supplied ↦
        let g' : Regulation = record g { cfr_text = sanitize_cfr_text g.cfr_text } in
        elim (Bool-cases (can_render (look_up (api_query sha256_hex now llm clause g') memory))) [
          | inr breaks ↦ rw (supplied, breaks, SoundIfAny) tt
          | inl renders ↦
              rw (supplied, renders, SoundIfAny)
                (api_rules-SoundIfAny sha256_hex now llm clause g.cfr_text supplied g' memory)
        ]
  ]
