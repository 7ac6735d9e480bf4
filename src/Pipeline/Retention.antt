-- ===== src/Pipeline/Retention.antt =====
-- What a run of agent/compliance_pipeline.py leaves in the memory.
use cfr_compliance_mcp.Prelude.{
  ℕ, zero, suc, String, ◌≡◌, refl, inl, inr, false, Option, List, [], ◌∷◌, ◌++◌, map, All,
  Bool-cases, Option-cases, ◌∙◌, sym, ap,
}
use cfr_compliance_mcp.Models.{ComplianceResult, needs_review, status_eq}
use cfr_compliance_mcp.Rules.Checks.{evaluate_deterministic}
use cfr_compliance_mcp.Security.Gate.{check_clause_security}
use cfr_compliance_mcp.Memory.Records.{MemoryRecord, MemoryLookup}
use cfr_compliance_mcp.Memory.Store.{line_of}
use cfr_compliance_mcp.Agent.{LlmRequest, LlmAnswer}
use cfr_compliance_mcp.Pipeline.Match.{CfrMatch, parse_title, title_or_none, title_number}
use cfr_compliance_mcp.Pipeline.Results.{result_from_memory_record, index_verified}
use cfr_compliance_mcp.Pipeline.Evaluation.{
  Progress, raised, finished, waiting, Memory, usable, look_up, exact_of, can_render, query_of,
  deterministic_result, begin_rules, begin_memory, begin_titled, begin_match, finish_match,
}
use cfr_compliance_mcp.Pipeline.Schedule.{
  begin_all, resume, resume_at, resume_each, resume_rest, evaluate_matches,
}
use cfr_compliance_mcp.Pipeline.Feedback.{
  lines_of, Indexes, index_verified-Indexes, finish_match-Indexes,
}

abbrev Unassisted : MemoryRecord → Type 0
Unassisted rec = (rec.memory_assisted ≡ false) × (rec.verification_status ≡ "verified")

-- Behind the lines of the first memory stand verified and unassisted records.
abbrev pub Retains : Memory → Memory → Type 0
Retains before after =
    (recs : List MemoryRecord) × (lines_of after ≡ lines_of before ++ map line_of recs)
    × All Unassisted recs

append_nil {ℓ} : {A : Type ℓ} (xs : List A) → xs ++ [] ≡ xs
append_nil [] = refl
append_nil (x ∷ xs) = ap (◌∷◌ x) (append_nil xs)

append_assoc {ℓ} : {A : Type ℓ} (xs ys zs : List A) → (xs ++ ys) ++ zs ≡ xs ++ (ys ++ zs)
append_assoc [] ys zs = refl
append_assoc (x ∷ xs) ys zs = ap (◌∷◌ x) (append_assoc xs ys zs)

map-append {ℓ κ} :
    {A : Type ℓ} {B : Type κ} (f : A → B) (xs ys : List A) → map f (xs ++ ys) ≡ map f xs ++ map f ys
map-append f [] ys = refl
map-append f (x ∷ xs) ys = ap (◌∷◌ (f x)) (map-append f xs ys)

All-append {ℓ κ} :
    {A : Type ℓ} (P : A → Type κ) (xs ys : List A) → All P xs → All P ys → All P (xs ++ ys)
All-append P [] ys h k = k
All-append P (x ∷ xs) ys h k = (h.0, All-append P xs ys h.1 k)

Retains-refl : (m : Memory) → Retains m m
Retains-refl m = ([], sym (append_nil (lines_of m)), tt)

Retains-trans : (a b c : Memory) → Retains a b → Retains b c → Retains a c
Retains-trans a b c (r, e, h) (s, f, k) = (
  r ++ s,
  f
      ∙ ap (λ ls. ls ++ map line_of s) e
      ∙ append_assoc (lines_of a) (map line_of r) (map line_of s)
      ∙ ap (λ ls. lines_of a ++ ls) (sym (map-append line_of r s)),
  All-append Unassisted r s h k,
)

Indexes-Retains :
    (m : CfrMatch) (r : ComplianceResult) (a b : Memory) → Indexes m r a b → Retains a b
Indexes-Retains m r a b (inl same) = ([], same ∙ sym (append_nil (lines_of a)), tt)
Indexes-Retains m r a b (inr (p, v, (rec, added, c, alone, verified))) =
    (rec ∷ [], added, ((alone, verified), tt))

module _ (sha256_hex : String → String) (now : String) where
  begin_rules-Retains :
      (m : CfrMatch) (citation text : String) (title : ℕ) (found : Option MemoryLookup)
      (memory : Memory)
      → Retains memory (begin_rules sha256_hex now m citation text title found memory).1
  unfolding begin_rules deterministic_result
  begin_rules-Retains m citation text title found memory =
      let det = evaluate_deterministic m.clause text title m.part m.section in
      elim (Bool-cases (status_eq det.status needs_review)) [
        | inl undecided ↦ rw (undecided, Retains) (Retains-refl memory)
        | inr decided ↦
            let r = deterministic_result sha256_hex now m det in
            rw (decided, Retains)
              (Indexes-Retains m r memory
                (index_verified sha256_hex now r m citation title false memory)
                (index_verified-Indexes sha256_hex now r m citation title false memory refl))
      ]

  begin_memory-Retains :
      (m : CfrMatch) (citation text : String) (title : ℕ) (found : Option MemoryLookup)
      (memory : Memory)
      → Retains memory (begin_memory sha256_hex now m citation text title found memory).1
  unfolding begin_memory
  begin_memory-Retains m citation text title found memory = elim (Option-cases (exact_of found)) [
    | inl nothing ↦ elim (Bool-cases (can_render found)) [
      | inl renders ↦
          rw (nothing, renders, begin_memory)
            (begin_rules-Retains m citation text title found memory)
      | inr breaks ↦ rw (nothing, breaks, begin_memory) (Retains-refl memory)
    ]
    | inr (rec, there) ↦ elim (Option-cases (result_from_memory_record now rec)) [
      | inl bad ↦ rw (there, bad, begin_memory) (Retains-refl memory)
      | inr (r, made) ↦ rw (there, made, begin_memory) (Retains-refl memory)
    ]
  ]

  begin_match-Retains :
      (m : CfrMatch) (memory : Memory) → Retains memory (begin_match sha256_hex now m memory).1
  unfolding begin_match begin_titled
  begin_match-Retains m memory = elim (Option-cases (parse_title m.citation)) [
    | inl unreadable ↦ rw (unreadable, begin_match) (Retains-refl memory)
    | inr (title, parsed) ↦
        elim (Bool-cases
          (check_clause_security m.clause (title_or_none title) m.regulation_text).safe) [
            | inr unsafe ↦ rw (parsed, unsafe, begin_match) (Retains-refl memory)
            | inl safe ↦ elim (Option-cases (usable m)) [
              | inl missing ↦ rw (parsed, safe, missing, begin_match) (Retains-refl memory)
              | inr (text, retrieved) ↦
                  let n = title_number title in
                  rw (parsed, safe, retrieved, begin_match)
                    (begin_memory-Retains m text.0 text.1 n (look_up (query_of m text.0 n) memory)
                      memory)
            ]
          ]
  ]

module _ (sha256_hex : String → String) (now : String) (llm : LlmRequest → Option LlmAnswer) where
  begin_all-Retains :
      (ms : List CfrMatch) (memory : Memory)
      → Retains memory (begin_all sha256_hex now llm ms memory).1
  unfolding begin_all
  begin_all-Retains [] memory = Retains-refl memory
  begin_all-Retains (m ∷ ms) memory =
      let memory' = (begin_match sha256_hex now m memory).1 in
      Retains-trans memory memory' (begin_all sha256_hex now llm ms memory').1
        (begin_match-Retains sha256_hex now m memory) (begin_all-Retains ms memory')

  resume-Retains :
      (p : Progress) (memory : Memory) → Retains memory (resume sha256_hex now llm p memory).1
  unfolding resume
  resume-Retains raised memory = Retains-refl memory
  resume-Retains (finished r) memory = Retains-refl memory
  resume-Retains (waiting p) memory =
      let out = finish_match sha256_hex now p (llm p.request) memory in
      Indexes-Retains p.match out.0 memory out.1
        (finish_match-Indexes sha256_hex now p (llm p.request) memory)

  resume_at-Retains :
      (i : ℕ) (ps : List Progress) (memory : Memory)
      → Retains memory (resume_at sha256_hex now llm i ps memory).1
  unfolding resume_at
  resume_at-Retains i [] memory = Retains-refl memory
  resume_at-Retains zero (p ∷ ps) memory = resume-Retains p memory
  resume_at-Retains (suc i) (p ∷ ps) memory = resume_at-Retains i ps memory

  resume_each-Retains :
      (schedule : List ℕ) (ps : List Progress) (memory : Memory)
      → Retains memory (resume_each sha256_hex now llm schedule ps memory).1
  unfolding resume_each
  resume_each-Retains [] ps memory = Retains-refl memory
  resume_each-Retains (i ∷ schedule) ps memory =
      let (ps', memory') = resume_at sha256_hex now llm i ps memory in
      Retains-trans memory memory' (resume_each sha256_hex now llm schedule ps' memory').1
        (resume_at-Retains i ps memory) (resume_each-Retains schedule ps' memory')

  resume_rest-Retains :
      (ps : List Progress) (memory : Memory)
      → Retains memory (resume_rest sha256_hex now llm ps memory).1
  unfolding resume_rest
  resume_rest-Retains [] memory = Retains-refl memory
  resume_rest-Retains (p ∷ ps) memory =
      let memory' = (resume sha256_hex now llm p memory).1 in
      Retains-trans memory memory' (resume_rest sha256_hex now llm ps memory').1
        (resume-Retains p memory) (resume_rest-Retains ps memory')

  -- A run over any matches, in any order of the model's answers, also one that raises, keeps every
  -- line of the memory's file and adds only verified records that used no memory.
  pub evaluate_matches-Retains :
      (schedule : List ℕ) (ms : List CfrMatch) (memory : Memory)
      → Retains memory (evaluate_matches sha256_hex now llm schedule ms memory).1
  unfolding evaluate_matches
  evaluate_matches-Retains schedule ms memory =
      let (ps, memory1) = begin_all sha256_hex now llm ms memory in
      let (ps', memory2) = resume_each sha256_hex now llm schedule ps memory1 in
      let memory3 = (resume_rest sha256_hex now llm ps' memory2).1 in
      Retains-trans memory memory1 memory3 (begin_all-Retains ms memory) (
        Retains-trans memory1 memory2 memory3 (resume_each-Retains schedule ps memory1)
          (resume_rest-Retains ps' memory2))
