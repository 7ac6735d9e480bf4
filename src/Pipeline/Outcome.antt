-- ===== src/Pipeline/Outcome.antt =====
-- What the results of agent/compliance_pipeline.py promise.
use cfr_compliance_mcp.Prelude.{
  ℕ, String, ◌≡◌, refl, ◌⊎◌, inl, inr, Bool, true, false, Option, none, some, List, arith,
  Bool-cases, Option-cases, subst,
}
use cfr_compliance_mcp.Prelude.Int.{ℤ}
use cfr_compliance_mcp.Models.{
  ComplianceResult, Status, compliant, non_compliant, needs_review, verified, to_review, status_eq,
}
use cfr_compliance_mcp.Security.Gate.{check_clause_security}
use cfr_compliance_mcp.Rules.Checks.{evaluate_deterministic}
use cfr_compliance_mcp.Rules.Verdicts.{evaluate_deterministic-capped}
use cfr_compliance_mcp.Verification.Checks.{
  VerificationReport, Recommendation, accept, review, reject, verify_compliance,
}
use cfr_compliance_mcp.Memory.Records.{MemoryRecord, MemoryLookup, MatchType, exact, near, no_match}
use cfr_compliance_mcp.Memory.Retrieval.{Query, retrieve}
use cfr_compliance_mcp.Memory.Reuse.{Reusable, Offers, retrieve-Promised}
use cfr_compliance_mcp.Agent.{LlmAnswer, result_of_answer}
use cfr_compliance_mcp.Pipeline.Match.{CfrMatch, parse_title, title_or_none, title_number}
use cfr_compliance_mcp.Pipeline.Results.{
  review_result, parse_status, result_from_memory_record, reused_result,
}
use cfr_compliance_mcp.Pipeline.Trust.{
  is_acceptable, trusted, acceptable-parses, index_verified-trusted,
}
use cfr_compliance_mcp.Pipeline.Recalled.{exact_of-acceptable, unrendered-untrusted}
use cfr_compliance_mcp.Pipeline.Evaluation.{
  Pending, Progress, raised, finished, waiting, usable, Memory, look_up, exact_of, can_render,
  query_of, begin_rules, deterministic_result, begin_memory, begin_titled, begin_match,
  accepted_result, flagged_result, finish_verified, enriched, finish_match,
}

-- A result that a person has to review.
abbrev pub ReviewShape : ComplianceResult → Type 0
ReviewShape r =
    (r.status ≡ needs_review)
    × (r.confidence ≡ 0)
    × (r.verification_status ≡ to_review)
    × (r.memory_participated ≡ false)

-- The match passed the security gate and has a citation and a text.
pub record Admitted (m : CfrMatch) : Type 0 where
  pub title : ℤ
  pub text : String × String
  pub parsed : parse_title m.citation ≡ some title
  pub safe : (check_clause_security m.clause (title_or_none title) m.regulation_text).safe ≡ true
  pub retrieved : usable m ≡ some text

abbrev pub Sound : CfrMatch → ComplianceResult → Type 0
Sound m r = ReviewShape r ⊎ ((r.verification_status ≡ verified) × Admitted m)

-- A task raises only where the title of the citation cannot be read, or a memory is not trusted.
abbrev pub Fine : Bool → CfrMatch → Progress → Type 0
Fine trust m raised = (parse_title m.citation ≡ none) ⊎ (trust ≡ false)
Fine trust m (finished r) = Sound m r
Fine trust m (waiting p) = (p.match ≡ m) × Admitted m

parse_status-decisive :
    (s : String)
    → (s ≡ "Compliant") ⊎ (s ≡ "Non-Compliant")
    → (t : Status) × (parse_status s ≡ some t)
unfolding parse_status
parse_status-decisive s (inl h) = (compliant, rw h refl)
parse_status-decisive s (inr h) = (non_compliant, rw h refl)

exact_of-Reusable :
    (q : Query) (memory : Memory) (rec : MemoryRecord)
    → exact_of (look_up q memory) ≡ some rec
    → Reusable rec q
unfolding exact_of look_up
exact_of-Reusable q none rec h = absurd (ground arith)
exact_of-Reusable q (some m) rec h =
    go (retrieve q m).match_type (retrieve q m).exact_record (retrieve q m).near_records
      (retrieve-Promised q m) h
  where
    go :
        (mt : MatchType) (e : Option MemoryRecord) (n : List MemoryRecord)
        → Offers q mt e n
        → elim mt [ exact ↦ e | near ↦ none | no_match ↦ none ] ≡ some rec
        → Reusable rec q
    go exact e n (r, found, reusable) h =
        let same : r ≡ rec = ground arith in subst (λ x. Reusable x q) same reusable
    go near e n o h = absurd (ground arith)
    go no_match e n o h = absurd (ground arith)

module _ (sha256_hex : String → String) (now : String) where
  begin_rules-Fine :
      (m : CfrMatch) (citation text : String) (title : ℕ) (found : Option MemoryLookup)
      (memory : Memory)
      → Admitted m
      → Fine (trusted memory) m (begin_rules sha256_hex now m citation text title found memory).0
  unfolding begin_rules deterministic_result
  begin_rules-Fine m citation text title found memory a =
      elim (Bool-cases (
        status_eq (evaluate_deterministic m.clause text title m.part m.section).status
          needs_review)) [
            | inl undecided ↦ rw (undecided, Fine) (refl, a)
            | inr decided ↦ rw (decided, Fine) (inr (refl, a))
          ]

  reuse-verified :
      (rec : MemoryRecord)
      → is_acceptable rec ≡ true
      → (rec.status ≡ "Compliant") ⊎ (rec.status ≡ "Non-Compliant")
      → (r : ComplianceResult) × (result_from_memory_record now rec ≡ some r)
        × (r.verification_status ≡ verified)
  unfolding result_from_memory_record reused_result
  reuse-verified rec fine decisive =
      let (t, known) = parse_status-decisive rec.status decisive in
      let ((es, passages), (n, confidence)) = acceptable-parses rec fine in
      (
        reused_result now rec t n es,
        rw (passages, known, confidence, result_from_memory_record) refl,
        refl,
      )

  reused-verified :
      (rec : MemoryRecord) (r : ComplianceResult)
      → result_from_memory_record now rec ≡ some r
      → r.verification_status ≡ verified
  unfolding result_from_memory_record reused_result
  reused-verified rec r made = ground arith

  untrusted :
      (q : Query) (memory : Memory) (rec : MemoryRecord)
      → exact_of (look_up q memory) ≡ some rec
      → result_from_memory_record now rec ≡ none
      → trusted memory ≡ false
  untrusted q memory rec found refused = elim (Bool-cases (trusted memory)) [
    | inr no_trust ↦ no_trust
    | inl trust ↦
        let fine = exact_of-acceptable q memory rec trust found in
        let (r, made, v) =
          reuse-verified rec fine (exact_of-Reusable q memory rec found).decisive in
        absurd (ground arith)
  ]

  begin_memory-Fine :
      (m : CfrMatch) (citation text : String) (title : ℕ) (memory : Memory)
      → Admitted m
      → Fine
          (trusted memory)
          m
          (begin_memory sha256_hex now m citation text title
            (look_up (query_of m citation title) memory)
            memory).0
  unfolding begin_memory
  begin_memory-Fine m citation text title memory a =
      let q = query_of m citation title in
      elim (Option-cases (exact_of (look_up q memory))) [
        | inl nothing ↦ elim (Bool-cases (can_render (look_up q memory))) [
          | inl renders ↦
              rw (nothing, renders, Fine)
                (begin_rules-Fine m citation text title (look_up q memory) memory a)
          | inr breaks ↦ rw (nothing, breaks, Fine) (inr (unrendered-untrusted q memory breaks))
        ]
        | inr (rec, found) ↦ elim (Option-cases (result_from_memory_record now rec)) [
          | inl refused ↦ rw (found, refused, Fine) (inr (untrusted q memory rec found refused))
          | inr (r, made) ↦ rw (found, made, Fine) (inr (reused-verified rec r made, a))
        ]
      ]

  -- Before the model is asked, a task ends with a result for review, with a verified result of an
  -- admitted match, or waits with an admitted match; it raises only if no title can be read, or a
  -- stored record has values that the models do not accept.
  pub begin_match-Fine :
      (m : CfrMatch) (memory : Memory)
      → Fine (trusted memory) m (begin_match sha256_hex now m memory).0
  unfolding begin_match begin_titled review_result
  begin_match-Fine m memory = elim (Option-cases (parse_title m.citation)) [
    | inl unreadable ↦ rw (unreadable, Fine) (inl unreadable)
    | inr (title, parsed) ↦
        elim (Bool-cases
          (check_clause_security m.clause (title_or_none title) m.regulation_text).safe) [
            | inr unsafe ↦ rw (parsed, unsafe, Fine) (inl (refl, refl, refl, refl))
            | inl safe ↦ elim (Option-cases (usable m)) [
              | inl missing ↦ rw (parsed, safe, missing, Fine) (inl (refl, refl, refl, refl))
              | inr (text, retrieved) ↦
                  rw (parsed, safe, retrieved, Fine)
                    (begin_memory-Fine m text.0 text.1 (title_number title) memory (record {
                      title = title;
                      text = text;
                      parsed = parsed;
                      safe = safe;
                      retrieved = retrieved;
                    }))
            ]
          ]
  ]

  -- What a task adds to the memory before the model is asked keeps it trusted.
  begin_memory-trusted :
      (m : CfrMatch) (citation text : String) (title : ℕ) (found : Option MemoryLookup)
      (memory : Memory)
      → trusted memory ≡ true
      → trusted (begin_memory sha256_hex now m citation text title found memory).1 ≡ true
  unfolding begin_memory begin_rules deterministic_result
  begin_memory-trusted m citation text title found memory h = elim (Option-cases (exact_of found)) [
    | inr (rec, there) ↦ elim (Option-cases (result_from_memory_record now rec)) [
      | inl bad ↦ rw (there, bad, begin_memory) h
      | inr (r, made) ↦ rw (there, made, begin_memory) h
    ]
    | inl nothing ↦ elim (Bool-cases (can_render found)) [
      | inr breaks ↦ rw (nothing, breaks, begin_memory) h
      | inl renders ↦
          let det = evaluate_deterministic m.clause text title m.part m.section in
          elim (Bool-cases (status_eq det.status needs_review)) [
            | inl undecided ↦ rw (nothing, renders, undecided, begin_memory) h
            | inr decided ↦
                rw (nothing, renders, decided, begin_memory)
                  (index_verified-trusted sha256_hex now (deterministic_result sha256_hex now m det)
                    m citation title false memory
                    (evaluate_deterministic-capped m.clause text title m.part m.section) h)
          ]
    ]
  ]

  pub begin_match-trusted :
      (m : CfrMatch) (memory : Memory)
      → trusted memory ≡ true
      → trusted (begin_match sha256_hex now m memory).1 ≡ true
  unfolding begin_match begin_titled
  begin_match-trusted m memory h = elim (Option-cases (parse_title m.citation)) [
    | inl unreadable ↦ rw (unreadable, begin_match) h
    | inr (title, parsed) ↦
        elim (Bool-cases
          (check_clause_security m.clause (title_or_none title) m.regulation_text).safe) [
            | inr unsafe ↦ rw (parsed, unsafe, begin_match) h
            | inl safe ↦ elim (Option-cases (usable m)) [
              | inl missing ↦ rw (parsed, safe, missing, begin_match) h
              | inr (text, retrieved) ↦
                  let n = title_number title in
                  rw (parsed, safe, retrieved, begin_match)
                    (begin_memory-trusted m text.0 text.1 n (look_up (query_of m text.0 n) memory)
                      memory h)
            ]
          ]
  ]

  finish_verified-Sound :
      (p : Pending) (r : ComplianceResult) (v : VerificationReport) (k : Recommendation)
      (memory : Memory)
      → Admitted p.match
      → Sound p.match (finish_verified sha256_hex now p r v k memory).0
  unfolding finish_verified accepted_result flagged_result review_result
  finish_verified-Sound p r v accept memory a = inr (refl, a)
  finish_verified-Sound p r v review memory a = inl (refl, refl, refl, refl)
  finish_verified-Sound p r v reject memory a = inl (refl, refl, refl, refl)

  -- The answer of the model ends in a result for review, or in a verified result of a match that
  -- was admitted.
  pub finish_match-Sound :
      (p : Pending) (answer : Option LlmAnswer) (memory : Memory)
      → Admitted p.match
      → Sound p.match (finish_match sha256_hex now p answer memory).0
  unfolding finish_match review_result
  finish_match-Sound p answer memory a =
      elim (Option-cases (result_of_answer sha256_hex p.request answer)) [
        | inl failed ↦ rw (failed, finish_match) (inl (refl, refl, refl, refl))
        | inr (r, made) ↦
            let v =
              verify_compliance (enriched p r) p.match.clause p.cfr_text p.title
                p.match.version_payload in
            rw (made, finish_match)
              (finish_verified-Sound p (enriched p r) v v.recommendation memory a)
      ]
