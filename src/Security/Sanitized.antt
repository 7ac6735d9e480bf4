-- ===== src/Security/Sanitized.antt =====
-- What a sanitized text is like: agent/security.py.
use Prim.Native.String.{count}
use cfr_compliance_mcp.Prelude.{ℕ, ◌≤◌, String, ◌≡◌, Bool, true, not}
use cfr_compliance_mcp.Regex.{is_space}
use cfr_compliance_mcp.Agent.{strip}
use cfr_compliance_mcp.Security.Sanitize.{
  truncate, is_printable, is_blank, normalize_whitespace, clean_chars,
}
use cfr_compliance_mcp.Security.Runs.{every, calm}

-- The first character, if there is one, is no white space.
abbrev begins_bare : String → Bool
begins_bare String.[] = true
begins_bare (String.◌∷◌ c s) = not (is_space c)

-- No character below the space, no three blanks in succession, nothing to strip, and not too long.
pub record Clean (limit : ℕ) (s : String) : Type 0 where
  pub printable : every is_printable s ≡ true
  pub spaced : calm is_blank 0 s ≡ true
  pub stripped : strip s ≡ s
  pub short : count s ≤ limit

-- The steps of `sanitize_clause_text`, at any limit.
abbrev steps : ℕ → String → String
steps limit text = strip (normalize_whitespace (clean_chars (truncate limit text)))
