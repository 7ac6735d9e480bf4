-- ===== src/Security/Gate.antt =====
-- `validate_cfr_title` and `check_clause_security` of agent/security.py. A title is an integer; one
-- given as a text goes through `int` first.
use Prim.Native.String.{count, ◌++◌}
use cfr_compliance_mcp.Prelude.{
  ℕ, String, Bool, true, false, ◌&&◌, Option, none, some, List, [], ◌∷◌, leb, is_some, join,
  if◌then◌else◌,
}
use mathlib.Core.List as Lists
use cfr_compliance_mcp.Prelude.Int.{ℤ, pos, negsuc}
use cfr_compliance_mcp.Models.{Clause}
use cfr_compliance_mcp.Security.Injection.{detect_prompt_injection}

abbrev pub max_clause_text_chars : ℕ
max_clause_text_chars = 500000

abbrev pub max_cfr_text_chars : ℕ
max_cfr_text_chars = 2000000

abbrev pub min_cfr_title : ℕ
min_cfr_title = 1

abbrev pub max_cfr_title : ℕ
max_cfr_title = 50

unfoldable pub validate_cfr_title : ℤ → Option ℕ
validate_cfr_title (negsuc n) = none
validate_cfr_title (pos t) = if leb min_cfr_title t && leb t max_cfr_title then some t else none

pub record GateChecks : Type 0 where
  pub prompt_injection : Bool
  pub title_validation : Bool
  pub clause_length : Bool
  pub cfr_length : Bool

unfoldable pub no_pattern : List String → Bool
no_pattern [] = true
no_pattern (p ∷ ps) = false

unfoldable pub title_gate : Option ℤ → Bool
title_gate none = true
title_gate (some title) = is_some (validate_cfr_title title)

unfoldable pub length_gate : Option String → Bool
length_gate none = true
length_gate (some cfr_text) = leb (count cfr_text) max_cfr_text_chars

-- Whether each gate is safe.
unfoldable pub gate_checks : Clause → Option ℤ → Option String → GateChecks
unfolding no_pattern title_gate length_gate
gate_checks clause title cfr_text = record {
  prompt_injection = no_pattern (detect_prompt_injection clause.text);
  title_validation = title_gate title;
  clause_length = leb (count clause.text) max_clause_text_chars;
  cfr_length = length_gate cfr_text;
}

failed : Bool → String → List String
failed true name = []
failed false name = name ∷ []

unfoldable pub failed_gates : GateChecks → List String
unfolding failed
failed_gates c = Lists.◌++◌ (failed c.prompt_injection "prompt_injection") (
    Lists.◌++◌ (failed c.title_validation "title_validation")
      (Lists.◌++◌ (failed c.clause_length "clause_length") (failed c.cfr_length "cfr_length")))

pub record Gate : Type 0 where
  pub checks : GateChecks
  pub safe : Bool
  pub reason : String

unfoldable pub check_clause_security : Clause → Option ℤ → Option String → Gate
unfolding gate_checks
check_clause_security clause title cfr_text =
    let c = gate_checks clause title cfr_text in
    let safe = c.prompt_injection && c.title_validation && c.clause_length && c.cfr_length in
    record {
      checks = c;
      safe = safe;
      reason =
          if safe
          then "Security checks: all passed"
          else "Security checks failed: " ++ join ", " (failed_gates c);
    }
