-- ===== src/Pipeline/Match.antt =====
-- `CfrMatch` of agent/mcp_search.py, and the title that agent/compliance_pipeline.py reads off its
-- citation. `int` is read on ASCII digits.
use Prim.Native.Char.{Char, code}
use cfr_compliance_mcp.Prelude.{
  ℕ, zero, suc, ◌+◌, ◌-◌, ◌*◌, String, Bool, true, false, ◌&&◌, Option, none, some, leb, nat_eq,
  truthy, if◌then◌else◌, ◌≡◌, refl,
}
use cfr_compliance_mcp.Prelude.Int.{ℤ, pos, negsuc}
use cfr_compliance_mcp.Regex.{is_space}
use cfr_compliance_mcp.Models.{Clause}
use cfr_compliance_mcp.Verification.Checks.{VersionPayload}

pub record CfrMatch : Type 0 where
  pub clause : Clause
  pub citation : Option String
  pub regulation_text : Option String
  pub error : Option String
  pub version_payload : Option VersionPayload
  pub part : Option String
  pub section : Option String
  pub heading : Option String
  pub date : String
  pub version : String
  pub source : String
  pub retrieval_method : String
  pub retrieved_at : String
  pub effective_version : String
  pub version_specific : Bool

digit_of : Char → Option ℕ
digit_of c = if leb b'0' (code c) && leb (code c) b'9' then some (code c - b'0') else none

-- The digits behind those read so far; the Boolean says whether the last character was a digit.
-- An underscore stands between two digits only.
read_digits : Bool → ℕ → String → Option ℕ
unfolding digit_of
read_digits after n String.[] = if after then some n else none
read_digits after n (String.◌∷◌ c s) = elim (digit_of c) [
  | some d ↦ read_digits true (n * 10 + d) s
  | none ↦ if after && nat_eq (code c) b'_' then read_digits false n s else none
]

minus : ℕ → ℤ
minus zero = pos 0
minus (suc n) = negsuc n

-- `int(s)`; `none` is a ValueError.
unfoldable pub parse_int : String → Option ℤ
unfolding read_digits minus
parse_int String.[] = none
parse_int (String.◌∷◌ c s) =
    if nat_eq (code c) b'-'
    then elim (read_digits false 0 s) [ none ↦ none | some n ↦ some (minus n) ]
    else if nat_eq (code c) b'+'
    then elim (read_digits false 0 s) [ none ↦ none | some n ↦ some (pos n) ]
    else elim (read_digits false 0 (String.◌∷◌ c s)) [ none ↦ none | some n ↦ some (pos n) ]

skip_spaces : String → String
skip_spaces String.[] = String.[]
skip_spaces (String.◌∷◌ c s) =
    let rest = skip_spaces s in if is_space c then rest else String.◌∷◌ c s

until_space : String → String
until_space String.[] = String.[]
until_space (String.◌∷◌ c s) =
    let rest = until_space s in if is_space c then String.[] else String.◌∷◌ c rest

-- `s.split()[0]`; `none` is an IndexError.
unfoldable pub first_word : String → Option String
unfolding skip_spaces until_space
first_word s = let word = until_space (skip_spaces s) in if truthy word then some word else none

-- `int(match.citation.split()[0]) if match.citation else 0`; `none` is an exception.
unfoldable pub parse_title : Option String → Option ℤ
parse_title none = some (pos 0)
parse_title (some citation) =
    if truthy citation
    then elim (first_word citation) [ none ↦ none | some word ↦ parse_int word ]
    else some (pos 0)

-- `title or None`.
unfoldable pub title_or_none : ℤ → Option ℤ
title_or_none (negsuc n) = some (negsuc n)
title_or_none (pos zero) = none
title_or_none (pos (suc n)) = some (pos (suc n))

-- A title behind the security gate is never negative.
unfoldable pub title_number : ℤ → ℕ
title_number (negsuc n) = 0
title_number (pos n) = n

parses : parse_title (some "48 CFR 52.203-13") ≡ some (pos 48)
unfolding parse_title first_word parse_int
parses = refl

raises : parse_title (some "CFR 52") ≡ none
unfolding parse_title first_word parse_int
raises = refl
