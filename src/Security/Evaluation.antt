-- ===== src/Security/Evaluation.antt =====
-- `evaluate_with_security` of agent/security.py: the gates, the rules and the verification in one
-- call. The rules and the verification of this development raise nothing. The `reason` is left out:
-- it prints what the other fields say.
use cfr_compliance_mcp.Prelude.{
  ℕ, String, ◌≡◌, refl, ◌⊎◌, inl, inr, Bool, Bool-cases, leb, true, false, ◌&&◌, not, Option, none,
  some, arith, if◌then◌else◌,
}
use cfr_compliance_mcp.Prelude.Int.{ℤ, pos, negsuc}
use cfr_compliance_mcp.Models.{Clause, ComplianceResult, needs_review, status_eq}
use cfr_compliance_mcp.Rules.Checks.{evaluate_deterministic}
use cfr_compliance_mcp.Verification.Checks.{VerificationReport, verify_compliance}
use cfr_compliance_mcp.Security.Gate.{
  GateChecks, validate_cfr_title, title_gate, gate_checks, check_clause_security,
}
use cfr_compliance_mcp.Security.Sanitize.{sanitize_clause_text}
use cfr_compliance_mcp.Security.Safety.{Passes, check_clause_security_iff}

pub record SecureEvaluation : Type 0 where
  pub result : Option ComplianceResult
  pub security_checks : GateChecks
  pub verification : Option VerificationReport
  pub safe : Bool

-- The flags of the call.
pub record Steps : Type 0 where
  pub run_deterministic : Bool
  pub run_verification : Bool
  pub run_injection_check : Bool

-- An early return.
unfoldable pub stopped : GateChecks → SecureEvaluation
stopped c = record { result = none; security_checks = c; verification = none; safe = false }

-- `all(check["safe"] for check in security_checks.values())`.
unfoldable pub all_safe : GateChecks → Bool
all_safe c = c.prompt_injection && c.title_validation && c.clause_length && c.cfr_length

-- The clause, which the call changes in place where it is too long.
unfoldable pub shortened : GateChecks → Clause → Clause
shortened c clause =
    if not c.clause_length
    then record clause { text = sanitize_clause_text clause.text }
    else clause

-- The verification of the rules' result, run for one that needs review.
unfoldable pub cross_check :
    Steps → Clause → String → ℕ → Option ComplianceResult → Option VerificationReport
cross_check steps clause cfr_text title none = none
cross_check steps clause cfr_text title (some det) =
    if steps.run_verification && status_eq det.status needs_review
    then some (verify_compliance det clause cfr_text title none)
    else none

-- From the validated title on.
unfoldable pub evaluate_titled :
    Steps → Clause → String → GateChecks → Option ℕ → SecureEvaluation × Clause
evaluate_titled steps clause cfr_text c none = (stopped c, clause)
evaluate_titled steps clause cfr_text c (some title) =
    let clause' = shortened c clause in
    let det =
      if steps.run_deterministic
      then some (evaluate_deterministic clause' cfr_text title none none)
      else none in
    (
      record {
        result = det;
        security_checks = c;
        verification = cross_check steps clause' cfr_text title det;
        safe = all_safe c;
      },
      clause',
    )

unfoldable pub evaluate_with_security : Steps → Clause → String → ℤ → SecureEvaluation × Clause
evaluate_with_security steps clause cfr_text title =
    let c = (check_clause_security clause (some title) (some cfr_text)).checks in
    if steps.run_injection_check && not c.prompt_injection
    then (stopped c, clause)
    else evaluate_titled steps clause cfr_text c (validate_cfr_title title)

-- What a safe evaluation is: the rules' verdict, where they run, on the clause as it came.
abbrev pub Evaluated : Steps → Clause → String → ℤ → SecureEvaluation × Clause → Type 0
Evaluated steps clause cfr_text title (out, clause') =
    (out.safe ≡ true)
    × (clause' ≡ clause)
    × ((t : ℕ) × (title ≡ pos t)
        × (out.result ≡ (
            if steps.run_deterministic
            then some (evaluate_deterministic clause cfr_text t none none)
            else none)))

passed-Evaluated :
    (steps : Steps) (clause : Clause) (cfr_text : String) (title : ℤ)
    → (check_clause_security clause (some title) (some cfr_text)).safe ≡ true
    → Evaluated steps clause cfr_text title (evaluate_with_security steps clause cfr_text title)
unfolding evaluate_with_security evaluate_titled check_clause_security gate_checks all_safe
    shortened title_gate validate_cfr_title
passed-Evaluated steps clause cfr_text (negsuc n) safe = absurd (ground arith)
passed-Evaluated steps clause cfr_text (pos t) safe =
    let c = (check_clause_security clause (some (pos t)) (some cfr_text)).checks in
    let no_injection : c.prompt_injection ≡ true = ground arith in
    let in_range : (leb 1 t && leb t 50) ≡ true = ground arith in
    let fits : c.clause_length ≡ true = ground arith in
    (ground arith, ground arith, (t, refl, ground arith))

titled-unsafe :
    (steps : Steps) (clause : Clause) (cfr_text : String) (c : GateChecks) (title : Option ℕ)
    → all_safe c ≡ false
    → (evaluate_titled steps clause cfr_text c title).0.safe ≡ false
unfolding evaluate_titled stopped
titled-unsafe steps clause cfr_text c none h = refl
titled-unsafe steps clause cfr_text c (some t) h = h

stopped-unsafe :
    (steps : Steps) (clause : Clause) (cfr_text : String) (title : ℤ)
    → (check_clause_security clause (some title) (some cfr_text)).safe ≡ false
    → (evaluate_with_security steps clause cfr_text title).0.safe ≡ false
unfolding evaluate_with_security evaluate_titled check_clause_security all_safe stopped
stopped-unsafe steps clause cfr_text title unsafe =
    let c = (check_clause_security clause (some title) (some cfr_text)).checks in
    let later = titled-unsafe steps clause cfr_text c (validate_cfr_title title) unsafe in
    ground arith

-- Whichever steps are switched off: an evaluation is safe exactly when the clause passes all gates,
-- and then the title is a title of the CFR, the clause is left as it was, and the result is the
-- verdict of the rules on it, or none where the rules are switched off.
pub evaluate_with_security_cases :
    (steps : Steps) (clause : Clause) (cfr_text : String) (title : ℤ)
    → let out = evaluate_with_security steps clause cfr_text title in
      (Passes clause (some title) (some cfr_text) × Evaluated steps clause cfr_text title out)
      ⊎ ((¬ Passes clause (some title) (some cfr_text)) × (out.0.safe ≡ false))
evaluate_with_security_cases steps clause cfr_text title =
    let gate = check_clause_security clause (some title) (some cfr_text) in
    let iff = check_clause_security_iff clause (some title) (some cfr_text) in
    elim (Bool-cases gate.safe) [
      | inl safe ↦ inl (iff.0 safe, passed-Evaluated steps clause cfr_text title safe)
      | inr unsafe ↦ inr (
        λ passes. (let safe = iff.1 passes in absurd (ground arith)),
        stopped-unsafe steps clause cfr_text title unsafe,
      )
    ]
