-- ===== src/Pipeline/Interleaving.antt =====
-- Every order of the model's answers: the tasks of agent/compliance_pipeline.py taken together.
use cfr_compliance_mcp.Prelude.{
  ℕ, zero, suc, String, ◌≡◌, refl, ◌⊎◌, inl, inr, Bool, true, false, Option, none, some, List, [],
  ◌∷◌, subst, sym,
}
use cfr_compliance_mcp.Models.{ComplianceResult}
use cfr_compliance_mcp.Agent.{LlmRequest, LlmAnswer}
use cfr_compliance_mcp.Pipeline.Match.{CfrMatch, parse_title}
use cfr_compliance_mcp.Pipeline.Evaluation.{
  Progress, raised, finished, waiting, Memory, begin_match, finish_match,
}
use cfr_compliance_mcp.Pipeline.Schedule.{
  gather, begin_all, resume, resume_at, resume_each, resume_rest, evaluate_matches,
}
use cfr_compliance_mcp.Pipeline.Trust.{trusted}
use cfr_compliance_mcp.Pipeline.Outcome.{
  Admitted, Sound, Fine, begin_match-Fine, begin_match-trusted, finish_match-Sound,
}

-- Two lists of one length, related place by place.
abbrev pub Pairwise {ℓ κ} : {A : Type ℓ} {B : Type κ} → (A → B → Type 0) → List A → List B → Type 0
Pairwise R [] [] = Unit
Pairwise R [] (y ∷ ys) = ⊥
Pairwise R (x ∷ xs) [] = ⊥
Pairwise R (x ∷ xs) (y ∷ ys) = R x y × Pairwise R xs ys

-- Some match has a citation without a readable title.
abbrev pub Unreadable : List CfrMatch → Type 0
Unreadable [] = ⊥
Unreadable (m ∷ ms) = (parse_title m.citation ≡ none) ⊎ Unreadable ms

-- A task that no answer can change.
abbrev Ended : Progress → Type 0
Ended raised = Unit
Ended (finished r) = Unit
Ended (waiting p) = ⊥

abbrev FineEnd : Bool → CfrMatch → Progress → Type 0
FineEnd trust m p = Fine trust m p × Ended p

raised-Unreadable :
    (trust : Bool) (m : CfrMatch) (ms : List CfrMatch)
    → Fine trust m raised
    → Unreadable (m ∷ ms) ⊎ (trust ≡ false)
raised-Unreadable trust m ms (inl unreadable) = inl (inl unreadable)
raised-Unreadable trust m ms (inr untrusted) = inr untrusted

gather-Sound :
    (trust : Bool) (ms : List CfrMatch) (ps : List Progress)
    → Pairwise (FineEnd trust) ms ps
    → ((rs : List ComplianceResult) × (gather ps ≡ some rs) × Pairwise Sound ms rs)
      ⊎ ((gather ps ≡ none) × (Unreadable ms ⊎ (trust ≡ false)))
unfolding gather
gather-Sound trust [] [] h = inl ([], refl, tt)
gather-Sound trust [] (p ∷ ps) h = absurd h
gather-Sound trust (m ∷ ms) [] h = absurd h
gather-Sound trust (m ∷ ms) (raised ∷ ps) h = inr (refl, raised-Unreadable trust m ms h.0.0)
gather-Sound trust (m ∷ ms) (waiting p ∷ ps) h = absurd h.0.1
gather-Sound trust (m ∷ ms) (finished r ∷ ps) h = elim (gather-Sound trust ms ps h.1) [
  | inl (rs, found, sound) ↦ inl (r ∷ rs, simp found, (h.0.0, sound))
  | inr (nothing, inl unreadable) ↦ inr (simp nothing, inl (inr unreadable))
  | inr (nothing, inr untrusted) ↦ inr (simp nothing, inr untrusted)
]

module _ (sha256_hex : String → String) (now : String) (llm : LlmRequest → Option LlmAnswer) where
  begin_match-Fine_from :
      (trust : Bool) (m : CfrMatch) (memory : Memory)
      → (trust ≡ true → trusted memory ≡ true)
      → Fine trust m (begin_match sha256_hex now m memory).0
  begin_match-Fine_from true m memory keeps =
      subst (λ t. Fine t m (begin_match sha256_hex now m memory).0) (keeps refl)
        (begin_match-Fine sha256_hex now m memory)
  begin_match-Fine_from false m memory keeps =
      weaken m (begin_match sha256_hex now m memory).0 (begin_match-Fine sha256_hex now m memory)
    where
      weaken : (m : CfrMatch) (p : Progress) → Fine (trusted memory) m p → Fine false m p
      weaken m raised h = inr refl
      weaken m (finished r) h = h
      weaken m (waiting p) h = h

  begin_all-Fine :
      (trust : Bool) (ms : List CfrMatch) (memory : Memory)
      → (trust ≡ true → trusted memory ≡ true)
      → Pairwise (Fine trust) ms (begin_all sha256_hex now llm ms memory).0
  unfolding begin_all
  begin_all-Fine trust [] memory keeps = tt
  begin_all-Fine trust (m ∷ ms) memory keeps = (
    begin_match-Fine_from trust m memory keeps,
    begin_all-Fine trust ms (begin_match sha256_hex now m memory).1
        (λ t. begin_match-trusted sha256_hex now m memory (keeps t)),
  )

  module _ (trust : Bool) where
    resume-FineEnd :
        (m : CfrMatch) (p : Progress) (memory : Memory)
        → Fine trust m p
        → FineEnd trust m (resume sha256_hex now llm p memory).0
    unfolding resume
    resume-FineEnd m raised memory h = (h, tt)
    resume-FineEnd m (finished r) memory h = (h, tt)
    resume-FineEnd m (waiting p) memory h = (
      subst (λ n. Sound n (finish_match sha256_hex now p (llm p.request) memory).0) h.0
          (finish_match-Sound sha256_hex now p (llm p.request) memory
            (subst Admitted (sym h.0) h.1)),
      tt,
    )

    resume_at-Fine :
        (i : ℕ) (ms : List CfrMatch) (ps : List Progress) (memory : Memory)
        → Pairwise (Fine trust) ms ps
        → Pairwise (Fine trust) ms (resume_at sha256_hex now llm i ps memory).0
    unfolding resume_at
    resume_at-Fine i [] [] memory h = tt
    resume_at-Fine i [] (p ∷ ps) memory h = absurd h
    resume_at-Fine i (m ∷ ms) [] memory h = absurd h
    resume_at-Fine zero (m ∷ ms) (p ∷ ps) memory h = ((resume-FineEnd m p memory h.0).0, h.1)
    resume_at-Fine (suc i) (m ∷ ms) (p ∷ ps) memory h = (h.0, resume_at-Fine i ms ps memory h.1)

    resume_each-Fine :
        (schedule : List ℕ) (ms : List CfrMatch) (ps : List Progress) (memory : Memory)
        → Pairwise (Fine trust) ms ps
        → Pairwise (Fine trust) ms (resume_each sha256_hex now llm schedule ps memory).0
    unfolding resume_each
    resume_each-Fine [] ms ps memory h = h
    resume_each-Fine (i ∷ schedule) ms ps memory h =
        let (ps', memory') = resume_at sha256_hex now llm i ps memory in
        resume_each-Fine schedule ms ps' memory' (resume_at-Fine i ms ps memory h)

    resume_rest-FineEnd :
        (ms : List CfrMatch) (ps : List Progress) (memory : Memory)
        → Pairwise (Fine trust) ms ps
        → Pairwise (FineEnd trust) ms (resume_rest sha256_hex now llm ps memory).0
    unfolding resume_rest
    resume_rest-FineEnd [] [] memory h = tt
    resume_rest-FineEnd [] (p ∷ ps) memory h = absurd h
    resume_rest-FineEnd (m ∷ ms) [] memory h = absurd h
    resume_rest-FineEnd (m ∷ ms) (p ∷ ps) memory h = (
      resume-FineEnd m p memory h.0,
      resume_rest-FineEnd ms ps (resume sha256_hex now llm p memory).1 h.1,
    )

  -- For every memory and every order of the model's answers there is one result for each match, in
  -- the order of the matches: Needs Review with no confidence, or verified for a match that passed
  -- the security gate with a citation and a text. Or the call raises, and then a match has a
  -- citation whose title cannot be read, or the memory's file has a record with a confidence or with
  -- evidence that the models do not accept.
  pub evaluate_matches-Sound :
      (schedule : List ℕ) (ms : List CfrMatch) (memory : Memory)
      → let out = (evaluate_matches sha256_hex now llm schedule ms memory).0 in
        ((rs : List ComplianceResult) × (out ≡ some rs) × Pairwise Sound ms rs)
        ⊎ ((out ≡ none) × (Unreadable ms ⊎ (trusted memory ≡ false)))
  unfolding evaluate_matches
  evaluate_matches-Sound schedule ms memory =
      let trust = trusted memory in
      let (ps, memory1) = begin_all sha256_hex now llm ms memory in
      let (ps', memory2) = resume_each sha256_hex now llm schedule ps memory1 in
      gather-Sound trust ms (resume_rest sha256_hex now llm ps' memory2).0 (
        resume_rest-FineEnd trust ms ps' memory2
          (resume_each-Fine trust schedule ms ps memory1 (begin_all-Fine trust ms memory (λ t. t))))
