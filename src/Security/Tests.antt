-- ===== src/Security/Tests.antt =====
-- The gate on a short clause: tests of agent/security.py.
use cfr_compliance_mcp.Prelude.{◌≡◌, ◌↔◌, ◌⊎◌, true, false, none, some}
use cfr_compliance_mcp.Prelude.Int.{pos}
use cfr_compliance_mcp.Models.{Clause}
use cfr_compliance_mcp.Security.Gate.{check_clause_security}
use cfr_compliance_mcp.Security.Evaluation.{
  Steps, Evaluated, evaluate_with_security, evaluate_with_security_cases,
}
use cfr_compliance_mcp.Security.Safety.{Passes, check_clause_security_iff}

abbrev harmless : Clause
harmless = record { title = "Waste"; text = "Waste is stored in drums."; clause_id = "c1" }

check_clause_security_iff_example :
    ((check_clause_security harmless (some (pos 40)) none).safe ≡ true)
    ↔ Passes harmless (some (pos 40)) none
check_clause_security_iff_example = check_clause_security_iff harmless (some (pos 40)) none

abbrev all_steps : Steps
all_steps = record { run_deterministic = true; run_verification = true; run_injection_check = true }

evaluate_with_security_cases_example :
    let out = evaluate_with_security all_steps harmless "Waste is kept dry." (pos 40) in
    (Passes harmless (some (pos 40)) (some "Waste is kept dry.")
      × Evaluated all_steps harmless "Waste is kept dry." (pos 40) out)
    ⊎ ((¬ Passes harmless (some (pos 40)) (some "Waste is kept dry.")) × (out.0.safe ≡ false))
evaluate_with_security_cases_example =
    evaluate_with_security_cases all_steps harmless "Waste is kept dry." (pos 40)
