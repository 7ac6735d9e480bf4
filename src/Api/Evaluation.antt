-- ===== src/Api/Evaluation.antt =====
-- `_evaluate_clause` of api.py with `_api_needs_review`, `_api_enrich_evidence` and
-- `_index_verified_api`. `now` is what the clock shows, and `llm` is the language model; `none` is an
-- exception.
use Prim.Native.String.{◌++◌}
use cfr_compliance_mcp.Prelude.{
  ℕ, String, Bool, false, not, Option, none, some, List, map, truthy, text_or, if◌then◌else◌,
}
use cfr_compliance_mcp.Models.{
  Clause, EvidencePassage, ReviewAudit, ComplianceResult, needs_review, verified, to_review,
  status_text, status_eq,
}
use cfr_compliance_mcp.Agent.{LlmRequest, LlmAnswer, strip, result_of_answer}
use cfr_compliance_mcp.Security.Sanitize.{sanitize_cfr_text}
use cfr_compliance_mcp.Rules.Checks.{evaluate_deterministic}
use cfr_compliance_mcp.Verification.Checks.{
  VerificationReport, Recommendation, accept, recommendation_text, verify_compliance,
}
use cfr_compliance_mcp.Memory.Records.{MemoryLookup}
use cfr_compliance_mcp.Memory.Retrieval.{Query}
use cfr_compliance_mcp.Memory.Indexing.{IndexRequest, index}
use cfr_compliance_mcp.Pipeline.Results.{citations_of, evidence_of}
use cfr_compliance_mcp.Pipeline.Evaluation.{Memory, look_up, is_assisted, context_of, can_render}

-- `_api_enrich_evidence`, for one passage; its date stays.
unfoldable pub api_enrich_passage : String → EvidencePassage → EvidencePassage
api_enrich_passage retrieved_at ev = record ev {
  source = text_or ev.source "eCFR";
  retrieved_at = text_or ev.retrieved_at retrieved_at;
  retrieval_method = text_or ev.retrieval_method "caller_supplied";
}

unfoldable pub api_enrich_evidence : String → List EvidencePassage → List EvidencePassage
api_enrich_evidence retrieved_at evidence = map (api_enrich_passage retrieved_at) evidence

-- `_api_needs_review`.
unfoldable pub api_needs_review :
    String
    → Clause
    → String
    → Option ComplianceResult
    → Option VerificationReport
    → String
    → ComplianceResult
unfolding citations_of evidence_of
api_needs_review now clause reason proposed verification deterministic_status = record {
  clause_title = clause.title;
  clause_id = clause.clause_id;
  status = needs_review;
  confidence = 0;
  reason = reason;
  evidence = evidence_of proposed;
  verification_status = to_review;
  review_reason = reason;
  review_audit = some (record {
    final_status = "Needs Review";
    proposed_status = elim proposed [ none ↦ "" | some r ↦ status_text r.status ];
    proposed_confidence = elim proposed [ none ↦ 0 | some r ↦ r.confidence ];
    review_reason = reason;
    verifier_recommendation = elim verification [
      | none ↦ "not_run"
      | some v ↦ recommendation_text v.recommendation
    ];
    verifier_notes = elim verification [ none ↦ "" | some v ↦ v.notes ];
    deterministic_status = deterministic_status;
    evidence_citations = citations_of (evidence_of proposed);
    reviewed_at = now;
  });
  memory_participated = false;
}

-- The arguments of an evaluation, but for the clause and the memory.
pub record Regulation : Type 0 where
  pub cfr_text : String
  pub cfr_citation : String
  pub cfr_title : Option ℕ

-- `cfr_title or 0`.
abbrev pub title_or_zero : Option ℕ → ℕ
title_or_zero none = 0
title_or_zero (some t) = t

-- The audit of a result that is accepted.
accepted_audit :
    String → ComplianceResult → List EvidencePassage → String → String → String → ReviewAudit
unfolding citations_of
accepted_audit now r evidence recommendation notes deterministic_status = record {
  final_status = status_text r.status;
  proposed_status = status_text r.status;
  proposed_confidence = r.confidence;
  review_reason = "";
  verifier_recommendation = recommendation;
  verifier_notes = notes;
  deterministic_status = deterministic_status;
  evidence_citations = citations_of evidence;
  reviewed_at = now;
}

abbrev pub no_text_reason : String
no_text_reason =
    "No CFR regulation text was supplied, so no evidence-grounded verdict is possible. Provide cfr_text or run the full retrieval pipeline."

abbrev pub no_llm_reason : String
no_llm_reason =
    "Deterministic rules were inconclusive and no LLM is configured (set ATM_API_KEY or OPENAI_API_KEY). Human review required."

module _ (sha256_hex : String → String) (now : String)
    (llm : Option (LlmRequest → Option LlmAnswer)) (clause : Clause) where
  -- The record that the API indexes has no version and is the caller's text.
  abbrev pub api_request : Regulation → IndexRequest
  api_request g = record {
    clause = clause;
    citation = g.cfr_citation;
    title = title_or_zero g.cfr_title;
    effective_version = "";
    date = "";
    version_specific = false;
    source = "eCFR";
    retrieval_method = "caller_supplied";
    retrieved_at = now;
    memory_assisted = false;
    now = now;
  }

  -- `_index_verified_api`.
  unfoldable pub index_verified_api : ComplianceResult → Regulation → Bool → Memory → Memory
  index_verified_api result g memory_assisted none = none
  index_verified_api result g memory_assisted (some memory) =
      if memory_assisted
      then some memory
      else some (index sha256_hex result (api_request g) memory).1

  abbrev pub api_query : Regulation → Query
  api_query g = record {
    clause = clause;
    citation = g.cfr_citation;
    title = title_or_zero g.cfr_title;
    effective_version = "";
  }

  -- Step 1, where the rules decide.
  unfoldable pub api_rules_result : ComplianceResult → ComplianceResult
  unfolding accepted_audit
  api_rules_result det =
      let evidence = api_enrich_evidence now det.evidence in
      record det {
        verification_status = verified;
        evidence = evidence;
        review_audit = some (accepted_audit now det evidence "not_run" "" (status_text det.status));
      }

  unfoldable pub api_accepted :
      ComplianceResult → VerificationReport → ComplianceResult → Bool → ComplianceResult
  unfolding accepted_audit
  api_accepted r v det memory_assisted =
      let evidence = api_enrich_evidence now r.evidence in
      record r {
        verification_status = verified;
        review_reason = "";
        evidence = evidence;
        memory_participated = memory_assisted;
        review_audit = some (
            accepted_audit now r evidence (recommendation_text v.recommendation) v.notes
              (status_text det.status));
      }

  -- Step 3, for the recommendation of the verifier.
  unfoldable pub api_verified :
      Regulation
      → ComplianceResult
      → VerificationReport
      → Recommendation
      → ComplianceResult
      → Bool
      → Memory
      → ComplianceResult × Memory
  api_verified g r v accept det assisted memory = (
    api_accepted r v det assisted,
    index_verified_api (api_accepted r v det assisted) g assisted memory,
  )
  api_verified g r v _ det assisted memory = (
    api_needs_review now clause (r.reason ++ " | Verification: " ++ v.notes) (some r) (some v)
        (status_text det.status),
    memory,
  )

  abbrev pub api_llm_request : Regulation → Option MemoryLookup → LlmRequest
  api_llm_request g lookup = record {
    clause_title = clause.title;
    clause_text = clause.text;
    cfr_citation = g.cfr_citation;
    cfr_text = g.cfr_text;
    historical_context = context_of lookup;
  }

  -- Steps 2 and 3; the verification sees the evidence as the model gave it.
  unfoldable pub api_ask :
      Regulation
      → ComplianceResult
      → Option MemoryLookup
      → Memory
      → Option ComplianceResult × Memory
  api_ask g det lookup memory = elim llm [
    | none ↦ (
      some (api_needs_review now clause no_llm_reason none none (status_text det.status)),
      memory,
    )
    | some ask ↦
        let q = api_llm_request g lookup in
        elim (result_of_answer sha256_hex q (ask q)) [
          | none ↦ (none, memory)
          | some r ↦
              let v = verify_compliance r clause g.cfr_text (title_or_zero g.cfr_title) none in
              let out = api_verified g r v v.recommendation det (is_assisted lookup) memory in
              (some out.0, out.1)
        ]
  ]

  -- Step 1, on the sanitized text.
  unfoldable pub api_rules : Regulation → Memory → Option ComplianceResult × Memory
  api_rules g memory =
      let det = evaluate_deterministic clause g.cfr_text (title_or_zero g.cfr_title) none none in
      if not (status_eq det.status needs_review)
      then (some (api_rules_result det), index_verified_api (api_rules_result det) g false memory)
      else api_ask g det (look_up (api_query g) memory) memory

  -- `_evaluate_clause`.
  unfoldable pub evaluate_clause : Regulation → Memory → Option ComplianceResult × Memory
  evaluate_clause g memory =
      if not (truthy (strip g.cfr_text))
      then (some (api_needs_review now clause no_text_reason none none ""), memory)
      else (let g' : Regulation = record g { cfr_text = sanitize_cfr_text g.cfr_text } in
          if can_render (look_up (api_query g') memory)
          then api_rules g' memory
          else (none, memory))
