-- ===== src/Api/Input.antt =====
-- The input of api.py: `ClauseInput`, `_clause_from_input`, the title of a request, and
-- `_security_scan`. A length is one of characters.
use Prim.Native.String.{count}
use cfr_compliance_mcp.Prelude.{
  ℕ, String, ◌≡◌, refl, ◌⊎◌, inl, inr, Bool, true, false, not, ◌&&◌, Option, none, some, leb,
  truthy, if◌then◌else◌,
}
use cfr_compliance_mcp.Prelude.Int.{ℤ, pos}
use cfr_compliance_mcp.Regex.{is_digit}
use cfr_compliance_mcp.Models.{Clause, make_clause}
use cfr_compliance_mcp.Agent.{strip}
use cfr_compliance_mcp.Security.Gate.{validate_cfr_title, check_clause_security}
use cfr_compliance_mcp.Security.Sanitize.{sanitize_clause_text}
use cfr_compliance_mcp.Pipeline.Match.{parse_int}

pub record ClauseInput : Type 0 where
  pub clause_title : String
  pub clause_text : String
  pub cfr_title : Option ℤ
  pub cfr_citation : Option String
  pub cfr_text : Option String

in_range : Option ℤ → Bool
in_range none = true
in_range (some (ℤ.negsuc n)) = false
in_range (some (pos n)) = leb 1 n && leb n 50

fits : ℕ → Option String → Bool
fits limit none = true
fits limit (some s) = leb (count s) limit

-- The constraints of the fields, and the validators `_text_not_empty` and `_title_not_empty`.
unfoldable pub validates : ClauseInput → Bool
unfolding in_range fits
validates i =
    leb (count i.clause_title) 500
    && leb (count i.clause_text) 500000
    && in_range i.cfr_title
    && fits 200 i.cfr_citation
    && fits 2000000 i.cfr_text
    && truthy (strip i.clause_text)
    && truthy (strip i.clause_title)

-- `Clause(title=clause_input.clause_title, text=clause_input.clause_text)`; the title hint that the
-- function also computes is dropped there.
unfoldable pub clause_from_input : (String → String) → ClauseInput → Clause
clause_from_input sha256_hex i = make_clause sha256_hex i.clause_title i.clause_text

all_digits : String → Bool
all_digits String.[] = true
all_digits (String.◌∷◌ c s) = is_digit c && all_digits s

-- `s.isdigit()`, on ASCII.
unfoldable pub is_digits : String → Bool
unfolding all_digits
is_digits s = truthy s && all_digits s

-- `validate_cfr_title(title)` of an optional title: `int(None)` is a TypeError.
validate_optional : Option ℤ → Option ℕ
validate_optional none = none
validate_optional (some t) = validate_cfr_title t

-- The CFR title of a request: the one given, or a clause title that is a number.
unfoldable pub resolve_title : ClauseInput → Option ℕ
unfolding validate_optional
resolve_title i = elim (validate_optional i.cfr_title) [
  | some t ↦ some t
  | none ↦
      if is_digits (strip i.clause_title)
      then validate_optional (parse_int (strip i.clause_title))
      else none
]

-- `(False, details)`, or `(True, ...)` and the clause with its text sanitized. The clause's id is
-- that of the text before.
pub data Scan : Type 0 where
  rejected : String → Scan
  admitted : Clause → Scan

unfoldable pub as_integer : Option ℕ → Option ℤ
as_integer none = none
as_integer (some t) = some (pos t)

unfoldable pub security_scan : Clause → Option ℕ → Option String → Scan
unfolding as_integer
security_scan clause title cfr_text =
    let gate = check_clause_security clause (as_integer title) cfr_text in
    if not gate.safe
    then rejected gate.reason
    else admitted (record clause { text = sanitize_clause_text clause.text })

-- To split on a scan and keep the equation.
pub Scan-cases :
    (s : Scan)
    → ((details : String) × (s ≡ rejected details)) ⊎ ((clause : Clause) × (s ≡ admitted clause))
Scan-cases (rejected details) = inl (details, refl)
Scan-cases (admitted clause) = inr (clause, refl)
