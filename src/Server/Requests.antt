-- ===== src/Server/Requests.antt =====
-- The requests of the search tools: src/cfr_compliance_mcp/models/requests.py. A request that fails
-- its validation is `none`; the strings of one that passes are stripped.
use Prim.Native.Char.{code}
use Prim.Native.Nat.{◌%◌}
use Prim.Native.String.{count}
use cfr_compliance_mcp.Prelude.{
  ℕ, zero, suc, ◌≡◌, refl, take_chars, ◌+◌, ◌*◌, ◌-◌, String, Bool, true, false, not, ◌&&◌, ◌||◌,
  Option, none, some, List, [], ◌∷◌, map, leb, nat_eq, truthy, join, ◌==◌, if◌then◌else◌,
}
use cfr_compliance_mcp.Prelude.Int.{ℤ, pos}
use cfr_compliance_mcp.Agent.{strip}

-- A decimal number of the digits 0 to 9, behind `acc`.
unfoldable pub number : ℕ → String → Option ℕ
number acc String.[] = some acc
number acc (String.◌∷◌ c s) =
    let rest = number ((acc * 10 + code c) - 48) s in
    if leb 48 (code c) && leb (code c) 57 then rest else none

unfoldable pub is_leap : ℕ → Bool
is_leap y = nat_eq (y % 4) 0 && (not (nat_eq (y % 100) 0) || nat_eq (y % 400) 0)

unfoldable pub days_in_month : ℕ → ℕ → ℕ
unfolding is_leap
days_in_month y m =
    if nat_eq m 2
    then (if is_leap y then 29 else 28)
    else if nat_eq m 4 || nat_eq m 6 || nat_eq m 9 || nat_eq m 11
    then 30
    else 31

unfoldable pub is_calendar_date : Option ℕ → Option ℕ → Option ℕ → Bool
is_calendar_date (some y) (some m) (some d) =
    leb 1 y && leb 1 m && leb m 12 && leb 1 d && leb d (days_in_month y m)
is_calendar_date _ _ _ = false

unfoldable pub drop_chars : ℕ → String → String
drop_chars zero s = s
drop_chars (suc n) String.[] = String.[]
drop_chars (suc n) (String.◌∷◌ c s) = drop_chars n s

-- `value[i:i + n]`.
unfoldable pub slice : ℕ → ℕ → String → String
unfolding drop_chars
slice i n s = take_chars n (drop_chars i s)

-- `_validate_date` of a text: ten characters with dashes at 4 and 7, and a date for
-- `date.fromisoformat`.
unfoldable pub is_date : String → Bool
unfolding slice number days_in_month is_calendar_date
is_date v =
    nat_eq (count v) 10
    && slice 4 1 v == "-"
    && slice 7 1 v == "-"
    && is_calendar_date (number 0 (slice 0 4 v)) (number 0 (slice 5 2 v)) (number 0 (slice 8 2 v))

-- The date of a search: none, the sentinel, or a date.
unfoldable pub valid_search_date : Option String → Bool
valid_search_date none = true
valid_search_date (some v) = v == "current" || is_date v

-- `per_page` and `page`.
unfoldable pub valid_paging : ℤ → ℤ → Bool
valid_paging (pos per_page) (pos page) = leb 1 per_page && leb per_page 100 && leb 1 page
valid_paging _ _ = false

unfoldable pub stripped : Option String → Option String
stripped none = none
stripped (some s) = some (strip s)

unfoldable pub stripped_all : Option (List String) → Option (List String)
stripped_all none = none
stripped_all (some ss) = some (map strip ss)

-- What both searches take besides their words.
pub record SearchScope : Type 0 where
  pub agency_slugs : Option (List String)
  pub date : Option String
  pub per_page : ℤ
  pub page : ℤ

unfoldable pub valid_scope : SearchScope → Bool
unfolding valid_search_date valid_paging
valid_scope q = valid_search_date q.date && valid_paging q.per_page q.page

unfoldable pub strip_scope : SearchScope → SearchScope
unfolding stripped stripped_all
strip_scope q = record q { agency_slugs = stripped_all q.agency_slugs; date = stripped q.date }

-- `SearchRegulationsRequest`: its query and its scope.
unfoldable pub search_regulations_request : String → SearchScope → Option (String × SearchScope)
unfolding valid_scope strip_scope
search_regulations_request query scope =
    if truthy (strip query) && valid_scope (strip_scope scope)
    then some (strip query, strip_scope scope)
    else none

-- `_non_empty_keywords`; a keyword that is stripped already is stripped to itself.
unfoldable pub clean_keywords : List String → List String
clean_keywords [] = []
clean_keywords (k ∷ ks) =
    let rest = clean_keywords ks in if truthy (strip k) then strip k ∷ rest else rest

unfoldable pub some_words : List String → Bool
some_words [] = false
some_words (k ∷ ks) = true

-- `SearchByKeywordRequest`, with `build_query`.
unfoldable pub search_by_keyword_request : List String → SearchScope → Option (String × SearchScope)
unfolding clean_keywords some_words valid_scope strip_scope join
search_by_keyword_request keywords scope =
    if some_words (clean_keywords keywords) && valid_scope (strip_scope scope)
    then some (join " " (clean_keywords keywords), strip_scope scope)
    else none

leap_day : is_date "2024-02-29" ≡ true
unfolding is_date slice drop_chars take_chars number is_calendar_date days_in_month is_leap
leap_day = refl

no_such_day : is_date "2023-02-29" ≡ false
unfolding is_date slice drop_chars take_chars number is_calendar_date days_in_month is_leap
no_such_day = refl

no_dashes : is_date "20260101" ≡ false
unfolding is_date slice drop_chars take_chars number is_calendar_date days_in_month is_leap
no_dashes = refl

one_query :
    search_by_keyword_request
      (" waste " ∷ "  " ∷ "drum" ∷ [])
      (record { agency_slugs = none; date = some "current"; per_page = pos 20; page = pos 1 })
    ≡ some (
      "waste drum",
      record { agency_slugs = none; date = some "current"; per_page = pos 20; page = pos 1 },
    )
unfolding search_by_keyword_request strip clean_keywords
one_query = refl
