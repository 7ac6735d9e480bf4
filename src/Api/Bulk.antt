-- ===== src/Api/Bulk.antt =====
-- What the evaluation endpoints of api.py answer.
use cfr_compliance_mcp.Prelude.{
  suc, ◌+◌, String, ◌≡◌, refl, ap, ◌⊎◌, inl, inr, ◌≢◌, true, false, Option, none, some, List, [],
  ◌∷◌, map, length, arith, truthy,
}
use cfr_compliance_mcp.Models.{
  Clause, ComplianceResult, compliant, non_compliant, needs_review, verified, to_review,
}
use cfr_compliance_mcp.Agent.{LlmRequest, LlmAnswer, strip}
use cfr_compliance_mcp.Security.Gate.{check_clause_security}
use cfr_compliance_mcp.Pipeline.Results.{or_blank}
use cfr_compliance_mcp.Pipeline.Evaluation.{Memory}
use cfr_compliance_mcp.Pipeline.Interleaving.{Pairwise}
use cfr_compliance_mcp.Reporting.Totals.{one_status}
use cfr_compliance_mcp.Api.Input.{
  ClauseInput, clause_from_input, resolve_title, as_integer, security_scan, Scan-cases, admitted,
}
use cfr_compliance_mcp.Api.Evaluation.{api_needs_review}
use cfr_compliance_mcp.Api.Outcome.{ApiSound, SoundIfAny, evaluate_clause-SoundIfAny}
use cfr_compliance_mcp.Api.Endpoints.{
  ComplianceResponse, response_from_result, is_verified, http_error, body, BulkComplianceResponse,
  count_responses, Persistence, regulation_of, or_failed, attempt, scan_of, evaluate_one,
  evaluate_each, summarize_bulk, evaluate_bulk_clauses,
}

module _ (sha256_hex : String → String) where
  -- The gate lets the clause, its title and its regulation through.
  abbrev pub Safe : ClauseInput → Type 0
  Safe i =
      (check_clause_security (clause_from_input sha256_hex i) (as_integer (resolve_title i))
        i.cfr_text).safe
      ≡ true

  -- A response sends the clause to a person; or it is verified, and then the gate let the clause
  -- through and a regulation text was supplied.
  abbrev pub Answers : ClauseInput → ComplianceResponse → Type 0
  Answers i r =
      ((r.status ≡ needs_review)
        × (r.confidence ≡ 0)
        × (r.verified ≡ false)
        × (r.verification_status ≡ to_review))
      ⊎ ((r.verified ≡ true)
          × (r.verification_status ≡ verified)
          × Safe i
          × (truthy (strip (or_blank i.cfr_text)) ≡ true))

  scan-Safe :
      (i : ClauseInput) (clause : Clause)
      → security_scan (clause_from_input sha256_hex i) (resolve_title i) i.cfr_text
        ≡ admitted clause
      → Safe i
  unfolding security_scan
  scan-Safe i clause h = ground arith

  module _ (now : String) (llm : Option (LlmRequest → Option LlmAnswer)) where
    or_failed-ApiSound :
        (clause : Clause) (det text : String) (r : Option ComplianceResult)
        → SoundIfAny now text r
        → ApiSound now text (or_failed sha256_hex now llm clause det r)
    unfolding or_failed api_needs_review
    or_failed-ApiSound clause det text none h = inl (refl, refl, refl, refl)
    or_failed-ApiSound clause det text (some r) h = h

    response-Answers :
        (i : ClauseInput) (r : ComplianceResult) (notes : String)
        → Safe i
        → ApiSound now (or_blank i.cfr_text) r
        → Answers i (response_from_result r (is_verified r.verification_status) notes)
    unfolding response_from_result
    response-Answers i r notes safe (inl (a, b, c, d)) = inl (a, b, ap is_verified c, c)
    response-Answers i r notes safe (inr (a, b, c)) = inr (ap is_verified a, a, safe, b)

    evaluate_one-Answers :
        (i : ClauseInput) (memory : Memory)
        → Answers i (evaluate_one sha256_hex now llm i memory).0.1
    unfolding evaluate_one attempt api_needs_review response_from_result
    evaluate_one-Answers i memory = elim (Scan-cases (scan_of sha256_hex now llm i)) [
      | inl (details, unsafe) ↦ rw (unsafe, evaluate_one) (inl (refl, refl, refl, refl))
      | inr (clause, safe) ↦
          let g = regulation_of sha256_hex now llm i in
          let sound = evaluate_clause-SoundIfAny sha256_hex now llm clause g memory in
          let r = (attempt sha256_hex now llm clause "evaluation_error" i memory).0 in
          rw (safe, evaluate_one)
            (response-Answers i r "" (scan-Safe i clause safe)
              (or_failed-ApiSound clause "evaluation_error" (or_blank i.cfr_text) _ sound))
    ]

    evaluate_each-Answers :
        (inputs : List ClauseInput) (memory : Memory)
        → Pairwise Answers inputs
            (map (λ x. x.1) (evaluate_each sha256_hex now llm inputs memory).0)
    unfolding evaluate_each
    evaluate_each-Answers [] memory = tt
    evaluate_each-Answers (i ∷ rest) memory = (
      evaluate_one-Answers i memory,
      evaluate_each-Answers rest (evaluate_one sha256_hex now llm i memory).1,
    )

length-Pairwise :
    {A B : Type 0} (P : A → B → Type 0) (xs : List A) (ys : List B)
    → Pairwise P xs ys
    → length ys ≡ length xs
length-Pairwise P [] [] h = refl
length-Pairwise P [] (y ∷ ys) h = absurd h
length-Pairwise P (x ∷ xs) [] h = absurd h
length-Pairwise P (x ∷ xs) (y ∷ ys) h = ap suc (length-Pairwise P xs ys h.1)

responses_add :
    (rs : List ComplianceResponse)
    → count_responses compliant rs
        + count_responses non_compliant rs
        + count_responses needs_review rs
      ≡ length rs
unfolding count_responses
responses_add [] = refl
responses_add (r ∷ rs) = ground (arith, one_status r.status, responses_add rs)

-- The body of a bulk response: its results answer the clauses in their order, and its counts are of
-- them.
abbrev pub Complete : (String → String) → List ClauseInput → BulkComplianceResponse → Type 0
Complete sha256_hex inputs b =
    Pairwise (Answers sha256_hex) inputs b.results
    × (b.total_clauses ≡ length inputs)
    × (b.compliant + b.non_compliant + b.needs_review ≡ b.total_clauses)
    × (b.needs_review ≡ count_responses needs_review b.results)

-- A bulk request without clauses is refused with 400 and changes nothing. Any other gets one
-- response for each clause, in order, whatever fails on the way: for review, or verified for a
-- clause that passed the gate and came with a regulation text. The counts add up to the clauses.
pub evaluate_bulk_clauses-Complete :
    (sha256_hex : String → String) (now : String) (llm : Option (LlmRequest → Option LlmAnswer))
    {R : Type 0} (p : Persistence R) (new_id : String) (inputs : List ClauseInput)
    (state : Memory × R)
    → let out = evaluate_bulk_clauses sha256_hex now llm p new_id inputs state in
      ((inputs ≡ []) × (out ≡ (http_error 400 "At least one clause must be provided", state)))
      ⊎ ((inputs ≢ [])
          × ((b : BulkComplianceResponse) × (out.0 ≡ body b) × Complete sha256_hex inputs b))
unfolding evaluate_bulk_clauses summarize_bulk
evaluate_bulk_clauses-Complete sha256_hex now llm p new_id [] state = inl (refl, refl)
evaluate_bulk_clauses-Complete sha256_hex now llm p new_id (i ∷ rest) (memory, repo) =
    let responses = map (λ x. x.1) (evaluate_each sha256_hex now llm (i ∷ rest) memory).0 in
    let answers = evaluate_each-Answers sha256_hex now llm (i ∷ rest) memory in
    inr (
      λ e. ground arith,
      (
        summarize_bulk sha256_hex now llm responses,
        refl,
        (
          answers,
          length-Pairwise (Answers sha256_hex) (i ∷ rest) responses answers,
          responses_add responses,
          refl,
        ),
      ),
    )
