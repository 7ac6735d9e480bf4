-- ===== src/Api/Memory.antt =====
-- What the evaluations of api.py leave in the compliance memory.
use mathlib.Core.List.{append-nil, append_assoc}
use mathlib.Core.Bool.{false≢true}
use cfr_compliance_mcp.Prelude.{
  String, ◌≡◌, refl, sym, ap, ◌∙◌, inl, inr, Bool, true, false, Option, none, some, List, [], ◌∷◌,
  ◌++◌, map, All, All-append, truthy, Bool-cases, Option-cases,
}
use cfr_compliance_mcp.Models.{Clause, ComplianceResult, needs_review, status_eq, verification_text}
use cfr_compliance_mcp.Rules.Checks.{evaluate_deterministic}
use cfr_compliance_mcp.Verification.Checks.{
  VerificationReport, Recommendation, accept, review, reject, verify_compliance,
}
use cfr_compliance_mcp.Memory.Records.{MemoryRecord, MemoryLookup}
use cfr_compliance_mcp.Memory.Retrieval.{Query}
use cfr_compliance_mcp.Memory.Reuse.{Reusable}
use cfr_compliance_mcp.Memory.Store.{line_of}
use cfr_compliance_mcp.Memory.Indexing.{build_record}
use cfr_compliance_mcp.Memory.Growth.{index_cases, eligible-verified}
use cfr_compliance_mcp.Agent.{LlmRequest, LlmAnswer, strip, result_of_answer}
use cfr_compliance_mcp.Pipeline.Evaluation.{Memory, look_up, is_assisted, can_render}
use cfr_compliance_mcp.Pipeline.Feedback.{lines_of}
use cfr_compliance_mcp.Security.Sanitize.{sanitize_cfr_text}
use cfr_compliance_mcp.Api.Input.{ClauseInput, Scan-cases}
use cfr_compliance_mcp.Api.Evaluation.{
  Regulation, title_or_zero, api_request, index_verified_api, api_query, api_llm_request,
  api_rules_result, api_accepted, api_verified, api_ask, api_rules, evaluate_clause,
}
use cfr_compliance_mcp.Api.Endpoints.{
  regulation_of, Persistence, attempt, scan_of, evaluate_one, evaluate_each, evaluate_bulk_clauses,
}

-- A record of a verified and unassisted verdict, which a lookup for `q` may not reuse.
abbrev pub ContextOnly : Query → MemoryRecord → Type 0
ContextOnly q rec =
    (rec.memory_assisted ≡ false) × (rec.verification_status ≡ "verified") × ¬ Reusable rec q

-- The file got lines behind those it had, of such records only.
abbrev pub Appends : Query → Memory → Memory → Type 0
Appends q before after =
    (recs : List MemoryRecord) × (lines_of after ≡ lines_of before ++ map line_of recs)
    × All (ContextOnly q) recs

Appends-refl : (q : Query) (m : Memory) → Appends q m m
Appends-refl q m = ([], sym (append-nil (lines_of m)), tt)

map-append {ℓ κ} :
    {A : Type ℓ} {B : Type κ} (f : A → B) (xs ys : List A) → map f (xs ++ ys) ≡ map f xs ++ map f ys
map-append f [] ys = refl
map-append f (x ∷ xs) ys = ap (◌∷◌ (f x)) (map-append f xs ys)

Appends-trans : (q : Query) (a b c : Memory) → Appends q a b → Appends q b c → Appends q a c
Appends-trans q a b c (xs, first, fine) (ys, second, also) = (
  xs ++ ys,
  rw (second, first, map-append line_of xs ys)
      (append_assoc (lines_of a) (map line_of xs) (map line_of ys)),
  All-append (ContextOnly q) xs ys fine also,
)

not-Reusable : (rec : MemoryRecord) (q : Query) → rec.effective_version ≡ "" → ¬ Reusable rec q
not-Reusable rec q blank reusable =
    false≢true (ap truthy (sym blank ∙ reusable.same_version) ∙ reusable.versioned)

module _ (sha256_hex : String → String) (now : String)
    (llm : Option (LlmRequest → Option LlmAnswer)) (q : Query) where
  index-Appends :
      (clause : Clause) (r : ComplianceResult) (g : Regulation) (assisted : Bool) (memory : Memory)
      → Appends q memory (index_verified_api sha256_hex now llm clause r g assisted memory)
  unfolding index_verified_api build_record
  index-Appends clause r g assisted none = Appends-refl q none
  index-Appends clause r g true (some c) = Appends-refl q (some c)
  index-Appends clause r g false (some c) =
      let request = api_request sha256_hex now llm clause g in
      elim (index_cases sha256_hex r request c) [
        | inl same ↦ ([], same.1 ∙ sym (append-nil (lines_of (some c))), tt)
        | inr (added, (on, alone, eligible)) ↦ (
          build_record sha256_hex r request ∷ [],
          added.1,
          (
            (
              refl,
              ap verification_text (eligible-verified r eligible),
              not-Reusable (build_record sha256_hex r request) q refl,
            ),
            tt,
          ),
        )
      ]

  api_verified-Appends :
      (clause : Clause) (g : Regulation) (r : ComplianceResult) (v : VerificationReport)
      (k : Recommendation) (det : ComplianceResult) (assisted : Bool) (memory : Memory)
      → Appends q memory (api_verified sha256_hex now llm clause g r v k det assisted memory).1
  unfolding api_verified
  api_verified-Appends clause g r v accept det assisted memory =
      index-Appends clause (api_accepted sha256_hex now llm clause r v det assisted) g assisted
        memory
  api_verified-Appends clause g r v review det assisted memory = Appends-refl q memory
  api_verified-Appends clause g r v reject det assisted memory = Appends-refl q memory

  api_ask-Appends :
      (clause : Clause) (g : Regulation) (det : ComplianceResult) (lookup : Option MemoryLookup)
      (memory : Memory)
      → Appends q memory (api_ask sha256_hex now llm clause g det lookup memory).1
  unfolding api_ask
  api_ask-Appends clause g det lookup memory =
      let request = api_llm_request sha256_hex now llm clause g lookup in
      elim (Option-cases llm) [
        | inl absent ↦ rw (absent, api_ask) (Appends-refl q memory)
        | inr (ask, present) ↦
            elim (Option-cases (result_of_answer sha256_hex request (ask request))) [
              | inl failed ↦ rw (present, failed, api_ask) (Appends-refl q memory)
              | inr (r, made) ↦
                  let v = verify_compliance r clause g.cfr_text (title_or_zero g.cfr_title) none in
                  rw (present, made, api_ask)
                    (api_verified-Appends clause g r v v.recommendation det (is_assisted lookup)
                      memory)
            ]
      ]

  evaluate_clause-Appends :
      (clause : Clause) (g : Regulation) (memory : Memory)
      → Appends q memory (evaluate_clause sha256_hex now llm clause g memory).1
  unfolding evaluate_clause api_rules
  evaluate_clause-Appends clause g memory = elim (Bool-cases (truthy (strip g.cfr_text))) [
    | inr missing ↦ rw missing (Appends-refl q memory)
    | inl supplied ↦
        let g' : Regulation = record g { cfr_text = sanitize_cfr_text g.cfr_text } in
        elim (Bool-cases (can_render (look_up (api_query sha256_hex now llm clause g') memory))) [
          | inr unreadable ↦ rw (supplied, unreadable) (Appends-refl q memory)
          | inl renders ↦
              let det =
                evaluate_deterministic clause g'.cfr_text (title_or_zero g.cfr_title) none none in
              let lookup = look_up (api_query sha256_hex now llm clause g') memory in
              elim (Bool-cases (status_eq det.status needs_review)) [
                | inl undecided ↦
                    rw (supplied, renders, undecided) (api_ask-Appends clause g' det lookup memory)
                | inr decisive ↦
                    rw (supplied, renders, decisive)
                      (index-Appends clause (api_rules_result sha256_hex now llm clause det) g'
                        false memory)
              ]
        ]
  ]

  evaluate_one-Appends :
      (i : ClauseInput) (memory : Memory)
      → Appends q memory (evaluate_one sha256_hex now llm i memory).1
  unfolding evaluate_one attempt
  evaluate_one-Appends i memory = elim (Scan-cases (scan_of sha256_hex now llm i)) [
    | inl (details, unsafe) ↦ rw (unsafe, evaluate_one) (Appends-refl q memory)
    | inr (clause, safe) ↦
        rw (safe, evaluate_one)
          (evaluate_clause-Appends clause (regulation_of sha256_hex now llm i) memory)
  ]

  evaluate_each-Appends :
      (inputs : List ClauseInput) (memory : Memory)
      → Appends q memory (evaluate_each sha256_hex now llm inputs memory).1
  unfolding evaluate_each
  evaluate_each-Appends [] memory = Appends-refl q memory
  evaluate_each-Appends (i ∷ rest) memory =
      let next = (evaluate_one sha256_hex now llm i memory).1 in
      Appends-trans q memory next (evaluate_each sha256_hex now llm rest next).1
        (evaluate_one-Appends i memory) (evaluate_each-Appends rest next)

  -- A bulk request keeps the lines of the memory's file and puts verified, unassisted records
  -- behind them, none of which a later lookup, for whatever query, may reuse as a verdict.
  pub evaluate_bulk_clauses-Appends :
      {R : Type 0} (p : Persistence R) (new_id : String) (inputs : List ClauseInput)
      (memory : Memory) (repo : R)
      → Appends q memory
          (evaluate_bulk_clauses sha256_hex now llm p new_id inputs (memory, repo)).1.0
  unfolding evaluate_bulk_clauses
  evaluate_bulk_clauses-Appends p new_id [] memory repo = Appends-refl q memory
  evaluate_bulk_clauses-Appends p new_id (i ∷ rest) memory repo =
      evaluate_each-Appends (i ∷ rest) memory
