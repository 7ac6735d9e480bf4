-- ===== src/Security/Safety.antt =====
-- When the gate of agent/security.py lets a clause through.
use Prim.Native.String.{count}
use cfr_compliance_mcp.Prelude.{
  ◌≤◌, String, ◌≡◌, refl, ◌↔◌, true, Option, none, some, List, [], ◌∷◌, arith,
}
use cfr_compliance_mcp.Prelude.Int.{ℤ, pos, negsuc}
use cfr_compliance_mcp.Models.{Clause}
use cfr_compliance_mcp.Security.Injection.{detect_prompt_injection}
use cfr_compliance_mcp.Security.Gate.{
  max_clause_text_chars, max_cfr_text_chars, validate_cfr_title, no_pattern, title_gate,
  length_gate, gate_checks, check_clause_security,
}

-- No title, or one of the fifty titles of the CFR.
abbrev pub TitleInRange : Option ℤ → Type 0
TitleInRange none = Unit
TitleInRange (some (negsuc n)) = ⊥
TitleInRange (some (pos t)) = (1 ≤ t) × (t ≤ 50)

abbrev pub TextFits : Option String → Type 0
TextFits none = Unit
TextFits (some s) = count s ≤ max_cfr_text_chars

abbrev pub Passes : Clause → Option ℤ → Option String → Type 0
Passes clause title cfr_text =
    (detect_prompt_injection clause.text ≡ [])
    × TitleInRange title
    × (count clause.text ≤ max_clause_text_chars)
    × TextFits cfr_text

no_pattern_iff : (ps : List String) → (no_pattern ps ≡ true) ↔ (ps ≡ [])
unfolding no_pattern
no_pattern_iff [] = (λ h. refl, λ h. refl)
no_pattern_iff (p ∷ ps) = (λ h. absurd (ground arith), λ h. absurd (ground arith))

title_gate_iff : (t : Option ℤ) → (title_gate t ≡ true) ↔ TitleInRange t
unfolding title_gate validate_cfr_title
title_gate_iff none = (λ h. tt, λ h. refl)
title_gate_iff (some (negsuc n)) = (λ h. absurd (ground arith), λ h. absurd h)
title_gate_iff (some (pos t)) = (λ h. (ground arith, ground arith), λ h. ground arith)

length_gate_iff : (s : Option String) → (length_gate s ≡ true) ↔ TextFits s
unfolding length_gate
length_gate_iff none = (λ h. tt, λ h. refl)
length_gate_iff (some s) = (λ h. ground arith, λ h. ground arith)

-- The gate is safe exactly when no injection pattern is found in the clause, the title is absent or
-- from 1 to 50, the clause has at most 500000 characters, and the regulation is absent or has at
-- most 2000000.
pub check_clause_security_iff :
    (clause : Clause) (title : Option ℤ) (cfr_text : Option String)
    → ((check_clause_security clause title cfr_text).safe ≡ true) ↔ Passes clause title cfr_text
unfolding check_clause_security gate_checks
check_clause_security_iff clause title cfr_text =
    let patterns = no_pattern_iff (detect_prompt_injection clause.text) in
    let range = title_gate_iff title in
    let fits = length_gate_iff cfr_text in
    (
      λ h. (patterns.0 (ground arith), range.0 (ground arith), ground arith, fits.0 (ground arith)),
      λ h. ground (arith, patterns.1 h.0, range.1 h.1, fits.1 h.3),
    )
